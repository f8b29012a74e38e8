-- ===== src/Loyalty/Types.antt =====
-- The tables of backend/prisma/schema.prisma that backend/src/loyalty/loyalty.service.ts reads and
-- writes. Points are whole; a code stands for its text in capitals without spaces around it.
use playhub_playbooking.Common.{Bool, List, Option, false, true, ℕ, ◌&&◌, ◌==◌}
use playhub_playbooking.Common.Int.{ℤ}

pub data PointsType : Type 0 where
  earn redeem bonus referral : PointsType

abbrev pub points_index : PointsType → ℕ
points_index earn = 0
points_index redeem = 1
points_index bonus = 2
points_index referral = 3

-- The idempotency keys: one that the caller gives, earn_<user>_<type>_<reference>,
-- redeem_<user>_<reference>, where the time stands for a missing reference, the two of a referral's
-- rewards, and goodwill_dispute_<dispute>.
pub data PointsKey : Type 0 where
  given_key : ℕ → PointsKey
  earn_key : ℕ → PointsType → ℕ → PointsKey
  redeem_key : ℕ → ℕ → PointsKey
  referrer_key referee_key goodwill_key : ℕ → PointsKey

abbrev pub points_key_eq : PointsKey → PointsKey → Bool
points_key_eq (given_key a) (given_key b) = a == b
points_key_eq (earn_key a s m) (earn_key b t n) =
    a == b && points_index s == points_index t && m == n
points_key_eq (redeem_key a m) (redeem_key b n) = a == b && m == n
points_key_eq (referrer_key a) (referrer_key b) = a == b
points_key_eq (referee_key a) (referee_key b) = a == b
points_key_eq (goodwill_key a) (goodwill_key b) = a == b
points_key_eq _ _ = false

pub record Account : Type 0 where
  pub id : ℕ
  pub user_id : ℕ
  pub points_balance : ℕ
  pub lifetime_earned : ℕ

pub record PointsTransaction : Type 0 where
  pub account_id : ℕ
  pub user_id : ℕ
  pub type : PointsType
  pub points : ℤ
  pub balance_after : ℕ
  pub idempotency_key : PointsKey

pub record ReferralCode : Type 0 where
  pub user_id : ℕ
  pub code : ℕ

pub record Campaign : Type 0 where
  pub id : ℕ
  pub is_active : Bool
  pub referrer_reward_value : ℕ
  pub referee_reward_value : ℕ
  pub min_qualifying_amount : ℕ
  pub created_at : ℕ

pub data ReferralStatus : Type 0 where
  pending qualified rewarded expired : ReferralStatus

abbrev pub is_pending : ReferralStatus → Bool
is_pending ReferralStatus.pending = true
is_pending _ = false

pub record Referral : Type 0 where
  pub id : ℕ
  pub campaign_id : Option ℕ
  pub referrer_id : ℕ
  pub referee_id : ℕ
  pub status : ReferralStatus
  pub qualifying_booking_id : Option ℕ

pub record Points : Type 0 where
  pub accounts : List Account
  pub transactions : List PointsTransaction
  pub codes : List ReferralCode
  pub campaigns : List Campaign
  pub referrals : List Referral
