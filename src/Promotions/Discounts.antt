-- ===== src/Promotions/Discounts.antt =====
-- The amounts that backend/src/promotions/coupons.service.ts quotes.
use playhub_playbooking.Common.{
  >>=-eq-ok, Option, none, ok, or_throw-eq-ok, some, ℕ, ◌*◌, ◌+◌, ◌≡◌, ◌≤◌, ◌⊎◌,
}
use playhub_playbooking.Common.Database.{Database}
use playhub_playbooking.Promotions.{
  check_coupon, check_user, coupon_of, validate_coupon, validation,
}
use playhub_playbooking.Promotions.Types.{
  Coupon, CouponDiscountType, CouponValidationResult, Doubles, Shop, ValidateCouponDto, fixed,
  percentage,
}

-- To half a paisa and a thousandth of one, of a share in ten thousandths of a paisa.
abbrev pub IsRounded : ℕ → ℕ → Type 0
IsRounded n d = (10000 * d ≤ n + 5010) × (n ≤ 10000 * d + 5010)

-- What a discount `d` of `amount` has to be: a fixed one is the value, a percentage is rounded, and
-- either is smaller only where the maximum or the amount bounds it.
abbrev pub IsDiscount : CouponDiscountType → ℕ → Option ℕ → ℕ → ℕ → Type 0
IsDiscount fixed value limit amount d = (d ≤ value) × ((d ≡ value) ⊎ (d ≡ amount))
IsDiscount percentage value none amount d =
    (10000 * d ≤ amount * value + 5010) × (IsRounded (amount * value) d ⊎ (d ≡ amount))
IsDiscount percentage value (some most) amount d =
    (10000 * d ≤ amount * value + 5010)
    × (d ≤ most)
    × (IsRounded (amount * value) d ⊎ ((d ≡ most) ⊎ (d ≡ amount)))

-- An answer is the quote of the coupon with the code.
pub validate_coupon-ok :
    (db : Database) (doubles : Doubles) (now : ℕ) (shop : Shop) (user_id : ℕ)
    (dto : ValidateCouponDto) (result : CouponValidationResult)
    → validate_coupon db doubles now shop user_id dto ≡ ok result
    → (coupon : Coupon) × (coupon_of db shop dto.code ≡ some coupon)
      × (result ≡ validation doubles coupon dto.booking_amount)
unfolding validate_coupon
validate_coupon-ok db doubles now shop user_id dto result h =
    let (coupon, found, h1) = or_throw-eq-ok (coupon_of db shop dto.code) _ _ h in
    let (_, _, h2) = >>=-eq-ok (check_coupon now dto coupon) _ h1 in
    let (_, _, h3) = >>=-eq-ok (check_user db now shop user_id coupon) _ h2 in (coupon, found, cc)
