-- ===== src/Promotions/Tests.antt =====
-- Tests of coupons and memberships, and instances of their theorems.
use playhub_playbooking.Common.{
  [], arith, false, is_ok, none, ok, refl, some, true, ℕ, ◌*◌, ◌+◌, ◌-◌, ◌/◌, ◌↔◌, ◌∷◌, ◌≡◌, ◌≤◌,
  ◌⊎◌,
}
use playhub_playbooking.Common.Int.{neg_part, negsuc, pos, pos_part, ◌≤ℤ◌}
use playhub_playbooking.Common.ListDatabase.{list_database}
use playhub_playbooking.Common.Queries.{IsAmong}
use playhub_playbooking.Promotions.{
  active_membership, check_coupon, check_user, coupon_of, create_coupon, discount, in_force,
  raw_discount, record_redemption, total_redeemed, user_redeemed, validate_coupon,
}
use playhub_playbooking.Promotions.Accepts.{Applies, IsMissingOr, IsOpenTo, validate_coupon-Accepts}
use playhub_playbooking.Promotions.Discounts.{IsDiscount}
use playhub_playbooking.Promotions.Memberships.{
  Dates, create_plan, expiry_date, purchase_membership, purchase_membership-active,
}
use playhub_playbooking.Promotions.Redemptions.{record_redemption-IsWithin}
use playhub_playbooking.Promotions.Types.{
  Coupon, CouponValidationResult, CustomerMembership, Doubles, MembershipPlan, MembershipStatus,
  PlanStatus, Shop, ValidateCouponDto, days, percentage,
}

abbrev coupon : Coupon
coupon = record {
  id = 1;
  organization_id = none;
  code = 70;
  description = none;
  discount_type = percentage;
  discount_value = 1000;
  min_booking_amount = 50000;
  max_discount_amount = some 7000;
  valid_from = none;
  valid_to = some 100;
  total_redemption_limit = some 1;
  per_user_redemption_limit = 1;
  first_booking_only = false;
  membership_required = false;
  venue_id = none;
  facility_id = none;
  is_active = true;
}

abbrev plan : MembershipPlan
plan = record {
  id = 3;
  organization_id = none;
  name = "Gold";
  code = 33;
  price = 49900;
  currency = "INR";
  duration = pos 2;
  duration_unit = days;
  status = PlanStatus.active;
}

abbrev shop : Shop
shop = record {
  bookings = [];
  coupons = coupon ∷ [];
  redemptions = [];
  plans = plan ∷ [];
  memberships = [];
}

abbrev request : ℕ → ValidateCouponDto
request amount = record {
  code = 70;
  booking_amount = amount;
  organization_id = some 5;
  venue_id = none;
  facility_id = none;
}

-- The exact share, to half a paisa.
abbrev doubles : Doubles
doubles = record {
  round_share = λ amount value. (amount * value + 5000) / 10000;
  round_share-near = λ amount value small. (omega arith, omega arith);
}

-- Days of 24 hours, months of 30 and years of 365 days.
abbrev dates : Dates
dates = record {
  add_days = λ n t. pos_part n * 86400000 + t - neg_part n * 86400000;
  add_months = λ n t. pos_part n * 2592000000 + t - neg_part n * 2592000000;
  add_years = λ n t. pos_part n * 31536000000 + t - neg_part n * 31536000000;
  add_days-later = λ n t. omega arith;
  add_months-later = λ n t. omega arith;
  add_years-later = λ n t. omega arith;
}

unfoldable promotion_program : Unit {0}
unfolding create_coupon validate_coupon check_coupon check_user discount raw_discount
    record_redemption create_plan purchase_membership expiry_date
promotion_program = tt

abbrev quote : CouponValidationResult
quote = record {
  coupon_id = 1;
  code = 70;
  discount_type = percentage;
  discount_value = 1000;
  discount_amount = 6000;
  final_amount = 54000;
}

-- 10% of 600 rupees, and of 900 rupees, where the maximum bounds it.
validate_coupon-amounts :
    (validate_coupon list_database doubles 50 shop 1 (request 60000) ≡ ok quote)
    × (validate_coupon list_database doubles 50 shop 1 (request 90000)
        ≡ ok (record quote { discount_amount = 7000; final_amount = 83000 }))
unfolding promotion_program
validate_coupon-amounts = (refl, refl)

abbrev IsQuoteOf : ℕ → CouponValidationResult → Type 0
IsQuoteOf amount r =
    (c : Coupon) × (coupon_of list_database shop 70 ≡ some c)
    × (r.coupon_id ≡ c.id)
    × (r.discount_amount + r.final_amount ≡ amount)
    × IsDiscount c.discount_type c.discount_value c.max_discount_amount amount r.discount_amount

validate_coupon-Accepts_example :
    (is_ok (validate_coupon list_database doubles 50 shop 1 (request 60000)) ≡ true) ↔ (
      (c : Coupon) × (coupon_of list_database shop 70 ≡ some c)
      × Applies 50 (request 60000) c
      × IsOpenTo 50 shop 1 c)
validate_coupon-Accepts_example =
    validate_coupon-Accepts list_database doubles 50 shop 1 (request 60000)

abbrev redeemed : Shop → ℕ → Shop
redeemed shop user = (record_redemption shop 1 user 9 6000 none).1

record_redemption-IsWithin_example :
    (c : Coupon) × (coupon_of list_database shop 70 ≡ some c)
    × IsMissingOr (λ limit. total_redeemed (redeemed shop 1) c.id ≤ limit) c.total_redemption_limit
    × (user_redeemed (redeemed shop 1) c.id 1 ≤ c.per_user_redemption_limit)
unfolding promotion_program
record_redemption-IsWithin_example =
    record_redemption-IsWithin list_database doubles 50 shop 1 (request 60000) quote 9 none refl

-- Two users are accepted before either redemption is recorded; then the coupon is past its limit.
record_redemption-race :
    (is_ok (validate_coupon list_database doubles 50 shop 2 (request 60000)) ≡ true)
    × (total_redeemed (redeemed (redeemed shop 1) 2) 1 ≡ 2)
unfolding promotion_program
record_redemption-race = (refl, refl)

abbrev membership : CustomerMembership
membership = record {
  id = 4;
  user_id = 1;
  organization_id = none;
  plan_id = 3;
  payment_id = none;
  start_date = 50;
  expiry_date = 172800050;
  status = MembershipStatus.active;
  amount_paid = 49900;
  currency = "INR";
}

abbrev enrolled : Shop
enrolled = record shop { memberships = membership ∷ [] }

-- The membership is active although no payment was given.
purchase_membership-active_example :
    (p : MembershipPlan) × IsAmong p shop.plans
    × (p.id ≡ 3)
    × (p.status ≡ PlanStatus.active)
    × IsAmong membership enrolled.memberships
    × (membership.user_id ≡ 1)
    × (membership.plan_id ≡ 3)
    × (membership.amount_paid ≡ p.price)
    × ((50 ≤ membership.expiry_date) ⊎ (p.duration ≤ℤ negsuc 0))
    × ((later : ℕ)
        → later ≤ 172800050
        → (own : CustomerMembership) × (active_membership list_database later enrolled 1 ≡ some own)
          × (in_force 1 later own ≡ true))
unfolding promotion_program
purchase_membership-active_example =
    purchase_membership-active list_database dates 50 4 shop 1 3 none membership enrolled refl

-- A plan of a negative duration gives a membership that has expired before it starts.
expiry_date-back : expiry_date dates 200000000 (record plan { duration = negsuc 0 }) ≡ 113600000
unfolding expiry_date
expiry_date-back = refl
