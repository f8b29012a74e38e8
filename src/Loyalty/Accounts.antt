-- ===== src/Loyalty/Accounts.antt =====
-- The accounts of backend/src/loyalty/loyalty.service.ts: the balance of each is the sum of its
-- transactions.
use playhub_playbooking.Common.{
  All, Bool, Bool-cases, List, [], ap, arith, false, filter, if◌then◌else◌, inl, inr, ok, some,
  subst, sym, true, ℕ, ◌==◌, ◌∙◌, ◌∷◌, ◌≡◌,
}
use playhub_playbooking.Common.Database.{
  All-intro, AllPairs, AllPairs-update_many, Database, only_row, update_many, update_row,
  update_row-ok,
}
use playhub_playbooking.Common.Int.{pos, ℤ, ◌+ℤ◌}
use playhub_playbooking.Finance.{sum_ℤ}
use playhub_playbooking.Loyalty.Types.{Account, Points, PointsTransaction}

abbrev pub total : ℕ → List PointsTransaction → ℤ
total id ts =
    sum_ℤ (λ (t : PointsTransaction). t.points)
      (filter (λ (t : PointsTransaction). t.account_id == id) ts)

abbrev pub AreDistinct : Account → Account → Type 0
AreDistinct a b = ((a.id == b.id) ≡ false) × ((a.user_id == b.user_id) ≡ false)

-- Accounts have distinct identifiers and users, and the balance of each is the sum of its
-- transactions.
abbrev pub IsAccounted : Points → Type 0
IsAccounted points =
    AllPairs AreDistinct points.accounts
    × All (λ (a : Account). pos a.points_balance ≡ total a.id points.transactions) points.accounts

pub account_is_only :
    (db : Database) (p : Account → Bool) (accounts : List Account) (b : Account)
    → db.find_first p accounts ≡ some b
    → AllPairs AreDistinct accounts
    → All (λ a. a.id ≡ b.id → a ≡ b) accounts
account_is_only db p accounts b found distinct =
    db.find_first-All (λ b. All (λ a. a.id ≡ b.id → a ≡ b) accounts) p accounts b found
      (only_row AreDistinct (λ a b. a.id ≡ b.id) accounts (λ a b (ne, _) same. ground arith)
        (λ a b. sym) distinct)

-- What an update of one account does, if it sets the balance.
module _ (account : Account) (change : Account → Account) (m : ℕ)
    (sets : (a : Account)
      → ((change a).id ≡ a.id)
        × ((change a).user_id ≡ a.user_id)
        × ((change a).points_balance ≡ m)) where
  pub changed-AreDistinct :
      (accounts : List Account)
      → AllPairs AreDistinct accounts
      → AllPairs AreDistinct (update_many (λ (a : Account). a.id == account.id) change accounts)
  changed-AreDistinct accounts distinct =
      AllPairs-update_many AreDistinct (λ a. Unit {0}) (λ (a : Account). a.id == account.id) change
        accounts (λ a b _ _. pair a b (a.id == account.id) (b.id == account.id))
        (All-intro (λ a. Unit {0}) accounts (λ a. tt)) distinct
    where
      pair :
          (a b : Account) (x y : Bool)
          → AreDistinct a b
          → AreDistinct (if x then change a else a) (if y then change b else b)
      pair a b true true (i, u) = rw ((sets a).0, (sets a).1, (sets b).0, (sets b).1) (i, u)
      pair a b true false (i, u) = rw ((sets a).0, (sets a).1) (i, u)
      pair a b false true (i, u) = rw ((sets b).0, (sets b).1) (i, u)
      pair a b false false h = h

  pub changed-total :
      (t : PointsTransaction) (ts : List PointsTransaction) (accounts : List Account)
      → t.account_id ≡ account.id
      → pos m ≡ t.points +ℤ pos account.points_balance
      → All (λ a. a.id ≡ account.id → a ≡ account) accounts
      → All (λ (a : Account). pos a.points_balance ≡ total a.id ts) accounts
      → All
          (λ (a : Account). pos a.points_balance ≡ total a.id (t ∷ ts))
          (update_many (λ (a : Account). a.id == account.id) change accounts)
  unfolding update_many
  changed-total t ts [] own sum only all = tt
  changed-total t ts (a ∷ rest) own sum only all =
      let others = changed-total t ts rest own sum only.1 all.1 in
      let P = λ (b : Account). pos b.points_balance ≡ total b.id (t ∷ ts) in
      elim (Bool-cases (a.id == account.id)) [
        | inl e ↦
            let same : a ≡ account = only.0 (ground arith) in
            let mine : (t.account_id == a.id) ≡ true = ground arith in
            let balance : pos account.points_balance ≡ total a.id ts =
              ap (λ (a : Account). pos a.points_balance) (sym same) ∙ all.0 in
            let (i, _, b) = sets a in
            let moved : pos m ≡ total a.id (t ∷ ts) =
              rw mine (sum ∙ ap (λ x. t.points +ℤ x) balance) in
            let row : pos (change a).points_balance ≡ total (change a).id (t ∷ ts) =
              ap pos b ∙ moved ∙ ap (λ i. total i (t ∷ ts)) (sym i) in
            (subst (λ x. P (if x then change a else a)) (sym e) row, others)
        | inr e ↦
            let other : (t.account_id == a.id) ≡ false = ground arith in
            let row : P a = rw other all.0 in
            (subst (λ x. P (if x then change a else a)) (sym e) row, others)
      ]

  -- The update with a transaction of the change keeps the accounts in order.
  pub moved-IsAccounted :
      (db : Database) (points : Points) (t : PointsTransaction) (r : Account × List Account)
      → t.account_id ≡ account.id
      → pos m ≡ t.points +ℤ pos account.points_balance
      → All (λ a. a.id ≡ account.id → a ≡ account) points.accounts
      → IsAccounted points
      → update_row db (λ (a : Account). a.id == account.id) change points.accounts ≡ ok r
      → IsAccounted (record points { accounts = r.1; transactions = t ∷ points.transactions })
  moved-IsAccounted db points t r own sum only (distinct, sums) e =
      let p = λ (a : Account). a.id == account.id in
      let (row, found, _, updated) = update_row-ok db p change points.accounts r e in
      subst
        (λ (accounts : List Account).
          IsAccounted
            (record points { accounts = accounts; transactions = t ∷ points.transactions }))
        (sym updated)
        (
          changed-AreDistinct points.accounts distinct,
          changed-total t points.transactions points.accounts own sum only sums,
        )
