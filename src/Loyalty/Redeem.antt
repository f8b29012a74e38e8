-- ===== src/Loyalty/Redeem.antt =====
-- When a redemption of backend/src/loyalty/loyalty.service.ts succeeds.
use playhub_playbooking.Common.{
  Bool, Bool-cases, Option, Option-cases, Result-cases, arith, false, inl, inr, is_ok, leb, ltb,
  none, refl, some, sym, true, ℕ, ◌<◌, ◌==◌, ◌≡◌,
}
use playhub_playbooking.Common.Database.{Database, update_row}
use playhub_playbooking.Loyalty.{account_of, debit, or_key, or_now, redeem_points, transaction_of}
use playhub_playbooking.Loyalty.Types.{Account, Points, PointsKey, redeem_key}

debit_succeeds :
    (db : Database) (p : Account → Bool) (points : Points) (account : Account) (n : ℕ)
    (key : PointsKey)
    → db.find_first p points.accounts ≡ some account
    → is_ok (debit db points account n key) ≡ true
unfolding debit update_row
debit_succeeds db p points account n key found =
    let q = λ (a : Account). a.id == account.id in
    elim (Option-cases (db.find_first q points.accounts)) [
      | inl e ↦
          let other : q account ≡ false =
            db.find_first-All (λ a. q a ≡ false) p points.accounts account found
              (db.find_first-none q points.accounts e) in
          absurd (ground arith)
      | inr (a, e) ↦ rw (debit, update_row, e) refl
    ]

abbrev pub balance_of : Option Account → ℕ
balance_of none = 0
balance_of (some a) = a.points_balance

-- A redemption of points above zero succeeds exactly if the balance covers it; a user without an
-- account has a balance of zero.
pub redeem_points-eq-leb :
    (db : Database) (now : ℕ) (points : Points) (user_id n : ℕ) (reference : Option ℕ)
    (given : Option PointsKey)
    → 0 < n
    → is_ok (redeem_points db now points user_id n reference given)
      ≡ leb n (balance_of (account_of db points user_id))
unfolding redeem_points
redeem_points-eq-leb db now points user_id n reference given positive =
    let above : leb n 0 ≡ false = ground arith in
    elim (Option-cases (account_of db points user_id)) [
      | inl e ↦ rw (redeem_points, above, e) (sym above)
      | inr (account, e) ↦ elim (Bool-cases (ltb account.points_balance n)) [
        | inl low ↦
            let refused : leb n account.points_balance ≡ false = ground arith in
            rw (redeem_points, above, e, low) (sym refused)
        | inr enough ↦
            let accepted : leb n account.points_balance ≡ true = ground arith in
            let key = or_key given (redeem_key user_id (or_now reference now)) in
            elim (Option-cases (transaction_of db points key)) [
              | inl k ↦ elim (Result-cases (debit db points account n key)) [
                | inl (r, d) ↦ rw (redeem_points, above, e, enough, k, d) (sym accepted)
                | inr (x, d) ↦
                    let succeeds =
                      debit_succeeds db (λ (a : Account). a.user_id == user_id) points account n key
                        e in
                    let throws : is_ok (debit db points account n key) ≡ false = rw d refl in
                    absurd (cc)
              ]
              | inr (t, k) ↦ rw (redeem_points, above, e, enough, k) (sym accepted)
            ]
      ]
    ]
