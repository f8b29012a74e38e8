-- ===== src/Loyalty/Tests.antt =====
-- Tests of the loyalty service, and instances of its theorems.
use playhub_playbooking.Common.{
  All, List, [], arith, false, is_ok, leb, map, none, refl, some, sum_of, ℕ, ◌+◌, ◌<◌, ◌==◌, ◌∷◌,
  ◌≡◌,
}
use playhub_playbooking.Common.Database.{update_many, update_row}
use playhub_playbooking.Common.ListDatabase.{insert_by, list_database, sort_by}
use playhub_playbooking.Loyalty.{
  account_of, add_points_internal, credit, debit, earn_points, get_or_create_account, redeem_points,
}
use playhub_playbooking.Loyalty.Accounts.{IsAccounted}
use playhub_playbooking.Loyalty.Balance.{IsFresh}
use playhub_playbooking.Loyalty.History.{
  Bank, Request, apply_code, make_code, qualify, run, run-IsAccounted, serve,
}
use playhub_playbooking.Loyalty.Redeem.{balance_of, redeem_points-eq-leb}
use playhub_playbooking.Loyalty.Referrals.{
  apply_referral_code, get_or_create_referral_code, insert_code, qualify_referral, reward,
}
use playhub_playbooking.Loyalty.Types.{Account, Points, PointsTransaction}

-- A number above all the identifiers in use.
abbrev pub next_id : Points → ℕ
next_id points =
    1
    + sum_of (λ (a : Account). a.id) points.accounts
    + sum_of (λ (t : PointsTransaction). t.account_id) points.transactions

account_below :
    (n : ℕ) (accounts : List Account)
    → sum_of (λ (a : Account). a.id) accounts < n
    → All (λ (a : Account). (n == a.id) ≡ false) accounts
account_below n [] h = tt
account_below n (a ∷ rest) h = (ground arith, account_below n rest (omega arith))

transaction_below :
    (n : ℕ) (ts : List PointsTransaction)
    → sum_of (λ (t : PointsTransaction). t.account_id) ts < n
    → All (λ (t : PointsTransaction). (t.account_id == n) ≡ false) ts
transaction_below n [] h = tt
transaction_below n (t ∷ rest) h = (ground arith, transaction_below n rest (omega arith))

pub next_id-IsFresh : (points : Points) → IsFresh (next_id points) points
next_id-IsFresh points = (
  account_below (next_id points) points.accounts (omega arith),
  transaction_below (next_id points) points.transactions (omega arith),
)

abbrev pub bank : Bank
bank = record { db = list_database; id_of = next_id; id_of-IsFresh = next_id-IsFresh }

abbrev pub empty : Points
empty = record { accounts = []; transactions = []; codes = []; campaigns = []; referrals = [] }

unfoldable pub loyalty_program : Unit {0}
unfolding get_or_create_account add_points_internal credit earn_points debit redeem_points
    insert_code get_or_create_referral_code apply_referral_code reward qualify_referral serve run
    update_row update_many sort_by insert_by
loyalty_program = tt

-- User 1 earns and redeems, user 2 applies the code of user 1 and books.
abbrev requests : List (ℕ × Request)
requests =
    (30, Request.earn 1 500 (some 8) none)
    ∷ (31, Request.redeem 1 200 (some 9) none)
    ∷ (32, make_code 77 78 1)
    ∷ (33, apply_code 4 2 77)
    ∷ (34, qualify 2 6 60000)
    ∷ (35, qualify 2 7 60000)
    ∷ []

run-IsAccounted_example : IsAccounted (run bank empty requests)
run-IsAccounted_example = run-IsAccounted bank empty requests (tt, tt)

run-rewarded :
    map {B = ℕ × ℕ}
      (λ (a : Account). (a.user_id, a.points_balance))
      (run bank empty requests).accounts
    ≡ (2, 50) ∷ (1, 400) ∷ []
unfolding loyalty_program
run-rewarded = refl

abbrev earned : Points
earned = run bank empty ((30, Request.earn 1 500 (some 8) none) ∷ [])

redeem_points-eq-leb_example :
    is_ok (redeem_points list_database 31 earned 1 501 (some 9) none)
    ≡ leb 501 (balance_of (account_of list_database earned 1))
redeem_points-eq-leb_example =
    redeem_points-eq-leb list_database 31 earned 1 501 (some 9) none (omega arith)

-- A redemption of the whole balance, tried again with its own key, throws.
redeem_points-again :
    is_ok (
      redeem_points list_database 32
        (run bank earned ((31, Request.redeem 1 500 (some 9) none) ∷ []))
        1
        500
        (some 9)
        none)
    ≡ false
unfolding loyalty_program
redeem_points-again = refl

-- A second adjustment with one reason changes nothing.
earn_points-same_reason :
    (run bank earned ((31, Request.earn 1 300 (some 8) none) ∷ [])).accounts ≡ earned.accounts
unfolding loyalty_program
earn_points-same_reason = refl
