-- ===== src/Promotions/Types.antt =====
-- The tables of backend/prisma/schema.prisma that backend/src/promotions/coupons.service.ts and
-- backend/src/memberships/memberships.service.ts read and write, and their requests. Amounts are paise and a percentage is in hundredths; a code stands
-- for its text in capitals without spaces around it.
use Prim.Native.String.{String}
use playhub_playbooking.Common.{Bool, List, Option, false, true, ℕ, ◌*◌, ◌+◌, ◌<◌, ◌^◌, ◌≤◌}
use playhub_playbooking.Common.Int.{ℤ}
use playhub_playbooking.Schema.{Booking}

pub data CouponDiscountType : Type 0 where
  percentage fixed : CouponDiscountType

pub record Coupon : Type 0 where
  pub id : ℕ
  pub organization_id : Option ℕ
  pub code : ℕ
  pub description : Option String
  pub discount_type : CouponDiscountType
  pub discount_value : ℕ
  pub min_booking_amount : ℕ
  pub max_discount_amount : Option ℕ
  pub valid_from : Option ℕ
  pub valid_to : Option ℕ
  pub total_redemption_limit : Option ℕ
  pub per_user_redemption_limit : ℕ
  pub first_booking_only : Bool
  pub membership_required : Bool
  pub venue_id : Option ℕ
  pub facility_id : Option ℕ
  pub is_active : Bool

-- The status of every redemption that the service writes is CONFIRMED.
pub data RedemptionStatus : Type 0 where
  reserved confirmed cancelled : RedemptionStatus

abbrev pub is_confirmed : RedemptionStatus → Bool
is_confirmed RedemptionStatus.confirmed = true
is_confirmed _ = false

pub record CouponRedemption : Type 0 where
  pub coupon_id : ℕ
  pub user_id : ℕ
  pub organization_id : Option ℕ
  pub booking_id : ℕ
  pub discount_amount : ℕ
  pub status : RedemptionStatus

pub data MembershipStatus : Type 0 where
  active expiring expired cancelled suspended : MembershipStatus

abbrev pub membership_is_active : MembershipStatus → Bool
membership_is_active MembershipStatus.active = true
membership_is_active _ = false

-- `months` stands for every text but DAYS and YEARS.
pub data DurationUnit : Type 0 where
  days months years : DurationUnit

pub data PlanStatus : Type 0 where
  draft active paused archived : PlanStatus

abbrev pub plan_is_active : PlanStatus → Bool
plan_is_active PlanStatus.active = true
plan_is_active _ = false

pub record MembershipPlan : Type 0 where
  pub id : ℕ
  pub organization_id : Option ℕ
  pub name : String
  pub code : ℕ
  pub price : ℕ
  pub currency : String
  pub duration : ℤ
  pub duration_unit : DurationUnit
  pub status : PlanStatus

pub record CustomerMembership : Type 0 where
  pub id : ℕ
  pub user_id : ℕ
  pub organization_id : Option ℕ
  pub plan_id : ℕ
  pub payment_id : Option ℕ
  pub start_date : ℕ
  pub expiry_date : ℕ
  pub status : MembershipStatus
  pub amount_paid : ℕ
  pub currency : String

pub record Shop : Type 0 where
  pub bookings : List Booking
  pub coupons : List Coupon
  pub redemptions : List CouponRedemption
  pub plans : List MembershipPlan
  pub memberships : List CustomerMembership

pub record CreateCouponDto : Type 0 where
  pub organization_id : Option ℕ
  pub code : ℕ
  pub description : Option String
  pub discount_type : CouponDiscountType
  pub discount_value : ℕ
  pub min_booking_amount : Option ℕ
  pub max_discount_amount : Option ℕ
  pub valid_from : Option ℕ
  pub valid_to : Option ℕ
  pub total_redemption_limit : Option ℕ
  pub per_user_redemption_limit : Option ℕ
  pub first_booking_only : Option Bool
  pub membership_required : Option Bool
  pub venue_id : Option ℕ
  pub facility_id : Option ℕ
  pub is_active : Option Bool

pub record ValidateCouponDto : Type 0 where
  pub code : ℕ
  pub booking_amount : ℕ
  pub organization_id : Option ℕ
  pub venue_id : Option ℕ
  pub facility_id : Option ℕ

pub record CouponValidationResult : Type 0 where
  pub coupon_id : ℕ
  pub code : ℕ
  pub discount_type : CouponDiscountType
  pub discount_value : ℕ
  pub discount_amount : ℕ
  pub final_amount : ℕ

-- `Math.round((amount * (value / 100)) * 100)` on doubles, of an amount in paise and a percentage in
-- hundredths: what IEEE 754 says of the rounding of its products keeps it within half a paisa and a
-- thousandth of one of the exact share, as long as that is below 10 ^ 12 paise.
pub record Doubles : Type 0 where
  pub round_share : (amount value : ℕ) → ℕ
  pub round_share-near :
      (amount value : ℕ)
      → amount * value < 10 ^ 16
      → (10000 * round_share amount value ≤ amount * value + 5010)
        × (amount * value ≤ 10000 * round_share amount value + 5010)
