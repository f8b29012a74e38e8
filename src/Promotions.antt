-- ===== src/Promotions.antt =====
-- backend/src/promotions/coupons.service.ts: coupons, what they take off a booking, and their
-- redemptions. `new_id` is the identifier that the database gives a new coupon.
pub mod Types
pub mod Discounts
pub mod Accepts
pub mod Redemptions
pub mod Memberships
mod Tests
use playhub_playbooking.Common.{
  Bool, Option, Result, bad_request, conflict, false, filter, is_some, leb, length, ltb, min, none,
  not, ok, or_default, or_none, or_throw, some, throw_if, true, ℕ, ◌&&◌, ◌-◌, ◌==◌, ◌>>=◌, ◌>>◌,
  ◌||◌, ◌∷◌,
}
use playhub_playbooking.Common.Database.{Database}
use playhub_playbooking.Promotions.Types.{
  Coupon, CouponRedemption, CouponValidationResult, CreateCouponDto, CustomerMembership, Doubles,
  RedemptionStatus, Shop, ValidateCouponDto, confirmed, fixed, is_confirmed, membership_is_active,
  percentage,
}
use playhub_playbooking.Schema.{Booking, BookingStatus, checked_in, is_active, ◌=b◌}

abbrev pub coupon_of : Database → Shop → ℕ → Option Coupon
coupon_of db shop code = db.find_first (λ (c : Coupon). c.code == code) shop.coupons

-- `value || default` and `value !== undefined ? value : default`, of a Boolean.
abbrev pub or_flag : Option Bool → Bool → Bool
or_flag none flag = flag
or_flag (some given) flag = given

abbrev pub new_coupon : ℕ → CreateCouponDto → Coupon
new_coupon new_id dto = record {
  id = new_id;
  organization_id = dto.organization_id;
  code = dto.code;
  description = dto.description;
  discount_type = dto.discount_type;
  discount_value = dto.discount_value;
  min_booking_amount = or_default dto.min_booking_amount 0;
  max_discount_amount = or_none dto.max_discount_amount;
  valid_from = dto.valid_from;
  valid_to = dto.valid_to;
  total_redemption_limit = or_none dto.total_redemption_limit;
  per_user_redemption_limit = or_default dto.per_user_redemption_limit 1;
  first_booking_only = or_flag dto.first_booking_only false;
  membership_required = or_flag dto.membership_required false;
  venue_id = dto.venue_id;
  facility_id = dto.facility_id;
  is_active = or_flag dto.is_active true;
}

unfoldable pub create_coupon : Database → ℕ → Shop → CreateCouponDto → Result (Coupon × Shop)
create_coupon db new_id shop dto = do
  throw_if (is_some (coupon_of db shop dto.code)) (conflict "Coupon code already exists.")
  let coupon = new_coupon new_id dto
  ok (coupon, record shop { coupons = coupon ∷ shop.coupons })

-- Both are there and differ.
abbrev pub mismatch : Option ℕ → Option ℕ → Bool
mismatch (some a) (some b) = not (a == b)
mismatch _ _ = false

abbrev pub not_started : ℕ → Option ℕ → Bool
not_started now none = false
not_started now (some from) = ltb now from

abbrev pub has_expired : ℕ → Option ℕ → Bool
has_expired now none = false
has_expired now (some to) = ltb to now

abbrev pub total_redeemed : Shop → ℕ → ℕ
total_redeemed shop coupon_id = length (
    filter (λ (r : CouponRedemption). r.coupon_id == coupon_id && is_confirmed r.status)
      shop.redemptions)

abbrev pub user_redeemed : Shop → ℕ → ℕ → ℕ
user_redeemed shop coupon_id user_id = length (
    filter
      (λ (r : CouponRedemption).
        r.coupon_id == coupon_id && r.user_id == user_id && is_confirmed r.status)
      shop.redemptions)

abbrev pub limit_reached : ℕ → Option ℕ → Bool
limit_reached n none = false
limit_reached n (some limit) = leb limit n

abbrev pub has_taken_place : BookingStatus → Bool
has_taken_place s = s =b BookingStatus.confirmed || s =b checked_in || s =b BookingStatus.completed

abbrev pub user_bookings : Shop → ℕ → ℕ
user_bookings shop user_id =
    length
      (filter (λ (b : Booking). b.user_id == user_id && has_taken_place b.status) shop.bookings)

-- The `where` of a membership that is in force.
abbrev pub in_force : ℕ → ℕ → CustomerMembership → Bool
in_force user_id now m =
    m.user_id == user_id && membership_is_active m.status && leb now m.expiry_date

-- `getActiveCustomerMembership` of backend/src/memberships/memberships.service.ts.
abbrev pub active_membership : Database → ℕ → Shop → ℕ → Option CustomerMembership
active_membership db now shop user_id = db.find_first (in_force user_id now) shop.memberships

abbrev pub or_max : ℕ → Option ℕ → ℕ
or_max n none = n
or_max n (some limit) = min n limit

-- The discount before it is bounded by the amount; a percentage is rounded to whole paise.
unfoldable pub raw_discount : Doubles → Coupon → ℕ → ℕ
raw_discount doubles coupon amount = elim coupon.discount_type [
  | percentage ↦
      or_max (doubles.round_share amount coupon.discount_value) coupon.max_discount_amount
  | fixed ↦ coupon.discount_value
]

unfoldable pub discount : Doubles → Coupon → ℕ → ℕ
discount doubles coupon amount = min (raw_discount doubles coupon amount) amount

abbrev pub validation : Doubles → Coupon → ℕ → CouponValidationResult
validation doubles coupon amount = record {
  coupon_id = coupon.id;
  code = coupon.code;
  discount_type = coupon.discount_type;
  discount_value = coupon.discount_value;
  discount_amount = discount doubles coupon amount;
  final_amount = amount - discount doubles coupon amount;
}

-- The conditions on the coupon itself.
unfoldable pub check_coupon : ℕ → ValidateCouponDto → Coupon → Result (Unit {0})
check_coupon now dto coupon = do
  throw_if (not coupon.is_active) (bad_request "Invalid or inactive coupon code")
  throw_if (not_started now coupon.valid_from) (bad_request "Coupon campaign has not started yet")
  throw_if (has_expired now coupon.valid_to) (bad_request "Coupon code has expired")
  throw_if (mismatch coupon.organization_id dto.organization_id)
      (bad_request "Coupon is not valid for this sports organization")
  throw_if (mismatch coupon.venue_id dto.venue_id)
      (bad_request "Coupon is not valid for this venue")
  throw_if (mismatch coupon.facility_id dto.facility_id)
      (bad_request "Coupon is not valid for this court facility")
  throw_if (ltb dto.booking_amount coupon.min_booking_amount)
      (bad_request "Booking amount is below minimum requirement")

-- The conditions on what the user has done before.
unfoldable pub check_user : Database → ℕ → Shop → ℕ → Coupon → Result (Unit {0})
check_user db now shop user_id coupon = do
  throw_if (limit_reached (total_redeemed shop coupon.id) coupon.total_redemption_limit)
      (bad_request "Coupon total usage limit has been reached")
  throw_if (leb coupon.per_user_redemption_limit (user_redeemed shop coupon.id user_id))
      (bad_request "You have already used this coupon maximum allowed times")
  throw_if (coupon.first_booking_only && ltb 0 (user_bookings shop user_id))
      (bad_request "This coupon is valid for first-time bookings only")
  throw_if (coupon.membership_required && not (is_some (active_membership db now shop user_id)))
      (bad_request "This coupon requires an active PlayHub membership")

unfoldable pub validate_coupon :
    Database → Doubles → ℕ → Shop → ℕ → ValidateCouponDto → Result CouponValidationResult
validate_coupon db doubles now shop user_id dto = do
  coupon ← or_throw (coupon_of db shop dto.code) (bad_request "Invalid or inactive coupon code")
  check_coupon now dto coupon
  check_user db now shop user_id coupon
  ok (validation doubles coupon dto.booking_amount)

unfoldable pub record_redemption : Shop → ℕ → ℕ → ℕ → ℕ → Option ℕ → CouponRedemption × Shop
record_redemption shop coupon_id user_id booking_id amount organization_id =
    let row : CouponRedemption = record {
      coupon_id = coupon_id;
      user_id = user_id;
      organization_id = organization_id;
      booking_id = booking_id;
      discount_amount = amount;
      status = RedemptionStatus.confirmed;
    } in
    (row, record shop { redemptions = row ∷ shop.redemptions })
