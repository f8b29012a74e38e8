-- ===== src/Promotions/Redemptions.antt =====
-- What redemptions and new coupons of backend/src/promotions/coupons.service.ts leave in the tables.
use playhub_playbooking.Common.{
  Option, Option-cases, ap, arith, false, inl, inr, is_ok, is_some, none, ok, refl, some, suc,
  throw_if-eq-ok, true, ℕ, ◌==◌, ◌∙◌, ◌∷◌, ◌≡◌, ◌≤◌,
}
use playhub_playbooking.Common.Database.{Database}
use playhub_playbooking.Common.Queries.{find_first_only}
use playhub_playbooking.Loyalty.Accounts.{total}
use playhub_playbooking.Promotions.{
  coupon_of, create_coupon, new_coupon, record_redemption, total_redeemed, user_redeemed,
  validate_coupon,
}
use playhub_playbooking.Promotions.Accepts.{IsMissingOr, validate_coupon-Accepts}
use playhub_playbooking.Promotions.Discounts.{validate_coupon-ok}
use playhub_playbooking.Promotions.Types.{
  Coupon, CouponValidationResult, CreateCouponDto, Doubles, Shop, ValidateCouponDto,
}

missing_or :
    {P Q : ℕ → Type 0} (o : Option ℕ) → ((n : ℕ) → P n → Q n) → IsMissingOr P o → IsMissingOr Q o
missing_or none f h = tt
missing_or (some n) f h = f n h

-- If a code was accepted and its redemption is recorded before another one is, the coupon found by
-- the code is within its limit, if it has one, and within its limit per user.
pub record_redemption-IsWithin :
    (db : Database) (doubles : Doubles) (now : ℕ) (shop : Shop) (user_id : ℕ)
    (dto : ValidateCouponDto) (result : CouponValidationResult) (booking_id : ℕ)
    (organization_id : Option ℕ)
    → validate_coupon db doubles now shop user_id dto ≡ ok result
    → (coupon : Coupon) × (coupon_of db shop dto.code ≡ some coupon)
      × IsMissingOr
          (λ limit.
            total_redeemed
              (record_redemption shop result.coupon_id user_id booking_id result.discount_amount
                organization_id).1
              coupon.id
            ≤ limit)
          coupon.total_redemption_limit
      × (user_redeemed
            (record_redemption shop result.coupon_id user_id booking_id result.discount_amount
              organization_id).1
            coupon.id
            user_id
          ≤ coupon.per_user_redemption_limit)
unfolding record_redemption
record_redemption-IsWithin db doubles now shop user_id dto result booking_id organization_id h =
    let accepted : is_ok (validate_coupon db doubles now shop user_id dto) ≡ true = rw h refl in
    let (coupon, e, _, (total, own, _, _)) =
      (validate_coupon-Accepts db doubles now shop user_id dto).0 accepted in
    let (coupon', e', quoted) = validate_coupon-ok db doubles now shop user_id dto result h in
    let one : coupon ≡ coupon' = cc in
    let same : result.coupon_id ≡ coupon'.id =
      ap (λ (r : CouponValidationResult). r.coupon_id) quoted in
    let this : (result.coupon_id == coupon.id) ≡ true = ground arith in
    let self : (user_id == user_id) ≡ true = ground arith in
    let after =
      (record_redemption shop result.coupon_id user_id booking_id result.discount_amount
        organization_id).1 in
    let all_more : total_redeemed after coupon.id ≡ suc (total_redeemed shop coupon.id) =
      rw this refl in
    let own_more : user_redeemed after coupon.id user_id
        ≡ suc (user_redeemed shop coupon.id user_id) =
      rw (this, self) refl in
    (
      coupon,
      e,
      missing_or coupon.total_redemption_limit (λ limit below. omega arith) total,
      omega arith,
    )

-- After a coupon was created, a lookup of its code finds it.
pub create_coupon-coupon_of :
    (db : Database) (new_id : ℕ) (shop : Shop) (dto : CreateCouponDto) (coupon : Coupon)
    (after : Shop)
    → create_coupon db new_id shop dto ≡ ok (coupon, after)
    → coupon_of db after dto.code ≡ some coupon
unfolding create_coupon
create_coupon-coupon_of db new_id shop dto coupon after h =
    let (fresh, k) = throw_if-eq-ok (is_some (coupon_of db shop dto.code)) _ _ h in
    let same : after ≡ record shop { coupons = new_coupon new_id dto ∷ shop.coupons } = cc in
    let it : new_coupon new_id dto ≡ coupon = cc in
    let p = λ (c : Coupon). c.code == dto.code in
    let absent : coupon_of db shop dto.code ≡ none =
      elim (Option-cases (coupon_of db shop dto.code)) [
        | inl e ↦ e
        | inr (c, e) ↦ absurd (let no : true ≡ false = rw e at fresh in cc)
      ] in
    let others = db.find_first-none p shop.coupons absent in
    let self : (dto.code == dto.code) ≡ true = ground arith in
    let found = find_first_only db p (new_coupon new_id dto) shop.coupons self others in
    rw same (found ∙ ap some it)
