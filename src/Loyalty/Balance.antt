-- ===== src/Loyalty/Balance.antt =====
-- The operations of backend/src/loyalty/loyalty.service.ts keep every balance the sum of its
-- transactions.
use playhub_playbooking.Common.{
  >>=-eq-ok, All, All-map_of, All-of_both, List, Option, Option-cases, Result, [], arith, false,
  if-eq, inl, inr, leb, ltb, none, ok, or_throw-eq-ok, refl, some, state_of_ok, subst, sym,
  throw_if-eq-ok, ℕ, ◌+◌, ◌-◌, ◌==◌, ◌>>=◌, ◌∷◌, ◌≡◌, ◌≤◌,
}
use playhub_playbooking.Common.Database.{Database, update_row}
use playhub_playbooking.Common.Int.{pos, pos_add, pos_sub, ◌-ℤ◌}
use playhub_playbooking.Loyalty.{
  account_of, add_points_internal, credit, debit, get_or_create_account, new_account, or_key,
  or_now, points_row, redeem_points, transaction_of,
}
use playhub_playbooking.Loyalty.Accounts.{
  AreDistinct, IsAccounted, account_is_only, moved-IsAccounted, total,
}
use playhub_playbooking.Loyalty.Types.{
  Account, Points, PointsKey, PointsTransaction, PointsType, earn_key, redeem, redeem_key,
}

-- An identifier that no account and no transaction has.
abbrev pub IsFresh : ℕ → Points → Type 0
IsFresh id points =
    All (λ (a : Account). (id == a.id) ≡ false) points.accounts
    × All (λ (t : PointsTransaction). (t.account_id == id) ≡ false) points.transactions

total_fresh :
    (id : ℕ) (ts : List PointsTransaction)
    → All (λ (t : PointsTransaction). (t.account_id == id) ≡ false) ts
    → total id ts ≡ pos 0
total_fresh id [] h = refl
total_fresh id (t ∷ ts) h = rw h.0 (total_fresh id ts h.1)

-- The account is there, the only one with its identifier, and belongs to the user.
abbrev pub IsOpened : ℕ → Account × Points → Type 0
IsOpened user_id (account, opened) =
    IsAccounted opened
    × All (λ a. a.id ≡ account.id → a ≡ account) opened.accounts
    × (account.user_id ≡ user_id)

pub get_or_create_account-IsOpened :
    (db : Database) (new_id : ℕ) (points : Points) (user_id : ℕ)
    → IsFresh new_id points
    → IsAccounted points
    → IsOpened user_id (get_or_create_account db new_id points user_id)
unfolding get_or_create_account
get_or_create_account-IsOpened db new_id points user_id (ids, used) (distinct, sums) =
    let p = λ (a : Account). a.user_id == user_id in
    elim (Option-cases (account_of db points user_id)) [
      | inl e ↦
          let others = db.find_first-none p points.accounts e in
          let account = new_account new_id user_id in
          let apart : All (AreDistinct account) points.accounts =
            All-of_both points.accounts (λ a i u. (i, ground arith)) ids others in
          rw (get_or_create_account, e)
            (
              ((apart, distinct), (sym (total_fresh new_id points.transactions used), sums)),
              (
                (λ _. refl),
                All-map_of points.accounts (λ a (i, _) same. absurd (ground arith)) apart,
              ),
              refl,
            )
      | inr (account, e) ↦
          let named = db.find_first-some p points.accounts account e in
          rw (get_or_create_account, e)
            (
              (distinct, sums),
              account_is_only db p points.accounts account e distinct,
              ground arith,
            )
    ]

credit-IsAccounted :
    (db : Database) (points : Points) (account : Account) (n : ℕ) (type : PointsType)
    (key : PointsKey) (t : PointsTransaction) (after : Points)
    → IsAccounted points
    → All (λ a. a.id ≡ account.id → a ≡ account) points.accounts
    → credit db points account n type key ≡ ok (t, after)
    → IsAccounted after
unfolding credit
credit-IsAccounted db points account n type key t after sound only h =
    let p = λ (a : Account). a.id == account.id in
    let change = λ (a : Account). record a {
      points_balance = account.points_balance + n;
      lifetime_earned = account.lifetime_earned + n;
    } in
    let (r, er, h1) = >>=-eq-ok (update_row db p change points.accounts) _ h in
    let u = points_row account type (pos n) (account.points_balance + n) key in
    subst IsAccounted (state_of_ok u t _ after h1) (
      moved-IsAccounted account change (account.points_balance + n) (λ a. (refl, refl, refl)) db
        points u r refl (pos_add account.points_balance n) only sound er)

debit-IsAccounted :
    (db : Database) (points : Points) (account : Account) (n : ℕ) (key : PointsKey)
    (t : PointsTransaction) (after : Points)
    → n ≤ account.points_balance
    → IsAccounted points
    → All (λ a. a.id ≡ account.id → a ≡ account) points.accounts
    → debit db points account n key ≡ ok (t, after)
    → IsAccounted after
unfolding debit
debit-IsAccounted db points account n key t after enough sound only h =
    let p = λ (a : Account). a.id == account.id in
    let change = λ (a : Account). record a { points_balance = account.points_balance - n } in
    let (r, er, h1) = >>=-eq-ok (update_row db p change points.accounts) _ h in
    let u = points_row account redeem (pos 0 -ℤ pos n) (account.points_balance - n) key in
    subst IsAccounted (state_of_ok u t _ after h1) (
      moved-IsAccounted account change (account.points_balance - n) (λ a. (refl, refl, refl)) db
        points u r refl (pos_sub account.points_balance n enough) only sound er)

pub add_points_internal-IsAccounted :
    (db : Database) (now new_id : ℕ) (points : Points) (user_id n : ℕ) (type : PointsType)
    (reference : Option ℕ) (given : Option PointsKey) (t : PointsTransaction) (after : Points)
    → IsFresh new_id points
    → IsAccounted points
    → add_points_internal db now new_id points user_id n type reference given ≡ ok (t, after)
    → IsAccounted after
unfolding add_points_internal
add_points_internal-IsAccounted db now new_id points user_id n type reference given t after fresh
      sound h =
    let (account, opened) = get_or_create_account db new_id points user_id in
    let (sound', only, _) = get_or_create_account-IsOpened db new_id points user_id fresh sound in
    let key = or_key given (earn_key user_id type (or_now reference now)) in
    elim (Option-cases (transaction_of db opened key)) [
      | inl e ↦
          credit-IsAccounted db opened account n type key t after sound' only
            (rw (add_points_internal, e) at h)
      | inr (known, e) ↦
          subst IsAccounted (state_of_ok known t opened after (rw (add_points_internal, e) at h))
            sound'
    ]

pub redeem_points-IsAccounted :
    (db : Database) (now : ℕ) (points : Points) (user_id n : ℕ) (reference : Option ℕ)
    (given : Option PointsKey) (t : Option PointsTransaction) (after : Points)
    → IsAccounted points
    → redeem_points db now points user_id n reference given ≡ ok (t, after)
    → IsAccounted after
unfolding redeem_points
redeem_points-IsAccounted db now points user_id n reference given t after sound h =
    elim (if-eq (leb n 0) _ _ h) [
      | inl (_, e) ↦ subst IsAccounted (state_of_ok none t points after e) sound
      | inr (_, e) ↦
          let (account, ea, h1) = or_throw-eq-ok (account_of db points user_id) _ _ e in
          let (enough, h2) = throw_if-eq-ok (ltb account.points_balance n) _ _ h1 in
          let key = or_key given (redeem_key user_id (or_now reference now)) in
          let only =
            account_is_only db (λ (a : Account). a.user_id == user_id) points.accounts account ea
              sound.0 in
          elim (Option-cases (transaction_of db points key)) [
            | inl k ↦
                let h3 : ◌>>=◌ {T = Option PointsTransaction × Points}
                      (debit db points account n key) (λ r. ok (some r.0, r.1))
                    ≡ ok (t, after) =
                  rw k at h2 in
                let (r, er, h4) = >>=-eq-ok (debit db points account n key) _ h3 in
                subst IsAccounted (state_of_ok (some r.0) t r.1 after h4)
                  (debit-IsAccounted db points account n key r.0 r.1 (ground arith) sound only er)
            | inr (known, k) ↦
                let h3 : ◌≡◌ {A = Result (Option PointsTransaction × Points)}
                    (ok (some known, points)) (ok (t, after)) =
                  rw k at h2 in
                subst IsAccounted (state_of_ok (some known) t points after h3) sound
          ]
    ]
