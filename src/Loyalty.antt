-- ===== src/Loyalty.antt =====
-- backend/src/loyalty/loyalty.service.ts: points that are earned and redeemed, and referrals. A request
-- runs alone on the tables, and one that throws leaves them as they were. `new_id` is the identifier
-- that the database gives a new account or referral.
pub mod Types
pub mod Referrals
pub mod Accounts
pub mod Balance
pub mod Redeem
pub mod History
pub mod Tests
use playhub_playbooking.Common.{
  Option, Result, bad_request, if◌then◌else◌, leb, ltb, none, ok, or_throw, some, throw_if, ℕ, ◌+◌,
  ◌-◌, ◌==◌, ◌>>=◌, ◌>>◌, ◌∷◌,
}
use playhub_playbooking.Common.Database.{Database, update_row}
use playhub_playbooking.Common.Int.{pos, ℤ, ◌-ℤ◌}
use playhub_playbooking.Loyalty.Types.{
  Account, Points, PointsKey, PointsTransaction, PointsType, earn, earn_key, points_key_eq, redeem,
  redeem_key,
}

abbrev pub account_of : Database → Points → ℕ → Option Account
account_of db points user_id = db.find_first (λ (a : Account). a.user_id == user_id) points.accounts

abbrev pub new_account : ℕ → ℕ → Account
new_account new_id user_id = record {
  id = new_id;
  user_id = user_id;
  points_balance = 0;
  lifetime_earned = 0;
}

-- `getOrCreateAccount`, and the first step of `addPointsInternal`.
unfoldable pub get_or_create_account : Database → ℕ → Points → ℕ → Account × Points
get_or_create_account db new_id points user_id = elim (account_of db points user_id) [
  | some existing ↦ (existing, points)
  | none ↦
      let account = new_account new_id user_id in
      (account, record points { accounts = account ∷ points.accounts })
]

abbrev pub transaction_of : Database → Points → PointsKey → Option PointsTransaction
transaction_of db points key =
    db.find_first (λ (t : PointsTransaction). points_key_eq t.idempotency_key key)
      points.transactions

-- The transaction of a change of an account.
abbrev pub points_row : Account → PointsType → ℤ → ℕ → PointsKey → PointsTransaction
points_row account type n balance key = record {
  account_id = account.id;
  user_id = account.user_id;
  type = type;
  points = n;
  balance_after = balance;
  idempotency_key = key;
}

-- The update of the account that was read, and the new transaction.
unfoldable pub credit :
    Database → Points → Account → ℕ → PointsType → PointsKey → Result (PointsTransaction × Points)
credit db points account n type key = do
  updated ←
      update_row db (λ (a : Account). a.id == account.id)
        (λ a. record a {
          points_balance = account.points_balance + n;
          lifetime_earned = account.lifetime_earned + n;
        })
        points.accounts
  let t = points_row account type (pos n) (account.points_balance + n) key
  ok (t, record points { accounts = updated.1; transactions = t ∷ points.transactions })

abbrev pub or_key : Option PointsKey → PointsKey → PointsKey
or_key none key = key
or_key (some given) key = given

abbrev pub or_now : Option ℕ → ℕ → ℕ
or_now none now = now
or_now (some reference) now = reference

unfoldable pub add_points_internal :
    Database
    → ℕ
    → ℕ
    → Points
    → ℕ
    → ℕ
    → PointsType
    → Option ℕ
    → Option PointsKey
    → Result (PointsTransaction × Points)
add_points_internal db now new_id points user_id n type reference given =
    let (account, opened) = get_or_create_account db new_id points user_id in
    let key = or_key given (earn_key user_id type (or_now reference now)) in
    elim (transaction_of db opened key) [
      | some existing ↦ ok (existing, opened)
      | none ↦ credit db opened account n type key
    ]

unfoldable pub earn_points :
    Database
    → ℕ
    → ℕ
    → Points
    → ℕ
    → ℕ
    → Option ℕ
    → Option PointsKey
    → Result (PointsTransaction × Points)
earn_points db now new_id points user_id n reference given =
    add_points_internal db now new_id points user_id n earn reference given

-- The update and the transaction of a redemption.
unfoldable pub debit :
    Database → Points → Account → ℕ → PointsKey → Result (PointsTransaction × Points)
debit db points account n key = do
  updated ←
      update_row db (λ (a : Account). a.id == account.id)
        (λ a. record a { points_balance = account.points_balance - n }) points.accounts
  let t = points_row account redeem (pos 0 -ℤ pos n) (account.points_balance - n) key
  ok (t, record points { accounts = updated.1; transactions = t ∷ points.transactions })

-- `none` where the source returns null.
unfoldable pub redeem_points :
    Database
    → ℕ
    → Points
    → ℕ
    → ℕ
    → Option ℕ
    → Option PointsKey
    → Result (Option PointsTransaction × Points)
redeem_points db now points user_id n reference given =
    let go = do
      account ←
          or_throw (account_of db points user_id)
            (bad_request "Insufficient loyalty points balance")
      throw_if (ltb account.points_balance n) (bad_request "Insufficient loyalty points balance")
      let key = or_key given (redeem_key user_id (or_now reference now))
      let fresh : Result (Option PointsTransaction × Points) =
          debit db points account n key >>= λ r. ok (some r.0, r.1)
      elim (transaction_of db points key) [
        | some existing ↦ ok (some existing, points)
        | none ↦ fresh
      ]
    in if leb n 0 then ok (none, points) else go
