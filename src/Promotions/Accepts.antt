-- ===== src/Promotions/Accepts.antt =====
-- The coupons that `validateCoupon` of backend/src/promotions/coupons.service.ts accepts.
use playhub_playbooking.Common.{
  >>=-eq-ok, All, Bool, Exception, List, Option, Option-cases, Result, Result-cases, arith, false,
  inl, inr, is_ok, is_some, leb, ltb, none, not, ok, or_throw-eq-ok, refl, some, throw_if, true, ℕ,
  ◌&&◌, ◌<◌, ◌>>◌, ◌↔◌, ◌≡◌, ◌≤◌,
}
use playhub_playbooking.Common.Database.{Database}
use playhub_playbooking.Promotions.{
  active_membership, check_coupon, check_user, coupon_of, has_expired, in_force, limit_reached,
  mismatch, not_started, total_redeemed, user_bookings, user_redeemed, validate_coupon,
}
use playhub_playbooking.Promotions.Types.{
  Coupon, CustomerMembership, Doubles, Shop, ValidateCouponDto,
}

abbrev pub IsMissingOr : (ℕ → Type 0) → Option ℕ → Type 0
IsMissingOr P none = Unit
IsMissingOr P (some n) = P n

-- The coupon may be used now, for what the request names.
abbrev pub Applies : ℕ → ValidateCouponDto → Coupon → Type 0
Applies now dto coupon =
    (coupon.is_active ≡ true)
    × IsMissingOr (λ from. from ≤ now) coupon.valid_from
    × IsMissingOr (λ to. now ≤ to) coupon.valid_to
    × IsMissingOr (λ o. IsMissingOr (λ given. o ≡ given) dto.organization_id) coupon.organization_id
    × IsMissingOr (λ v. IsMissingOr (λ given. v ≡ given) dto.venue_id) coupon.venue_id
    × IsMissingOr (λ f. IsMissingOr (λ given. f ≡ given) dto.facility_id) coupon.facility_id
    × (coupon.min_booking_amount ≤ dto.booking_amount)

-- The user may still use it. A user has a membership if not every membership fails the test.
abbrev pub IsOpenTo : ℕ → Shop → ℕ → Coupon → Type 0
IsOpenTo now shop user_id coupon =
    IsMissingOr (λ limit. total_redeemed shop coupon.id < limit) coupon.total_redemption_limit
    × (user_redeemed shop coupon.id user_id < coupon.per_user_redemption_limit)
    × (coupon.first_booking_only ≡ true → user_bookings shop user_id ≡ 0)
    × (coupon.membership_required ≡ true
        → ¬ All (λ m. in_force user_id now m ≡ false) shop.memberships)

module _ (now : ℕ) where
  started : (from : Option ℕ) → (not_started now from ≡ false) ↔ IsMissingOr (λ t. t ≤ now) from
  started none = ((λ _. tt), (λ _. refl))
  started (some t) = ((λ h. ground arith), (λ h. ground arith))

  unexpired : (to : Option ℕ) → (has_expired now to ≡ false) ↔ IsMissingOr (λ t. now ≤ t) to
  unexpired none = ((λ _. tt), (λ _. refl))
  unexpired (some t) = ((λ h. ground arith), (λ h. ground arith))

matched :
    (own given : Option ℕ)
    → (mismatch own given ≡ false) ↔ IsMissingOr (λ o. IsMissingOr (λ g. o ≡ g) given) own
matched none given = ((λ _. tt), (λ _. refl))
matched (some o) none = ((λ _. tt), (λ _. refl))
matched (some o) (some g) = ((λ h. ground arith), (λ h. ground arith))

unreached :
    (n : ℕ) (limit : Option ℕ) → (limit_reached n limit ≡ false) ↔ IsMissingOr (λ l. n < l) limit
unreached n none = ((λ _. tt), (λ _. refl))
unreached n (some l) = ((λ h. ground arith), (λ h. ground arith))

first_time : (only : Bool) (n : ℕ) → ((only && ltb 0 n) ≡ false) ↔ (only ≡ true → n ≡ 0)
first_time true n = ((λ h _. ground arith), (λ h. let z = h refl in ground arith))
first_time false n = ((λ h e. cc), (λ h. refl))

found :
    (db : Database) (p : CustomerMembership → Bool) (rows : List CustomerMembership)
    → (is_some (db.find_first p rows) ≡ true) ↔ ¬ All (λ m. p m ≡ false) rows
found db p rows = elim (Option-cases (db.find_first p rows)) [
  | inl e ↦ (
    (λ h. absurd (let k : false ≡ true = rw e at h in cc)),
    (λ h. absurd (h (db.find_first-none p rows e))),
  )
  | inr (m, e) ↦ (
    (λ _ none_fits.
        let yes = db.find_first-some p rows m e in
        let no = db.find_first-All (λ m. p m ≡ false) p rows m e none_fits in cc),
    (λ _. rw e refl),
  )
]

is_member :
    (db : Database) (p : CustomerMembership → Bool) (rows : List CustomerMembership)
    (required : Bool)
    → ((required && not (is_some (db.find_first p rows))) ≡ false)
      ↔ (required ≡ true → ¬ All (λ m. p m ≡ false) rows)
is_member db p rows false = ((λ h e. cc), (λ h. refl))
is_member db p rows true = (
  (λ h _. (found db p rows).0 (ground arith)),
  (λ h. let yes = (found db p rows).1 (h refl) in ground arith),
)

throws_not :
    (test : Bool) (e : Exception) (rest : Result (Unit {0}))
    → ((throw_if test e >> rest) ≡ ok tt) ↔ ((test ≡ false) × (rest ≡ ok tt))
throws_not true e rest = ((λ h. cc), (λ h. cc))
throws_not false e rest = ((λ h. (refl, h)), (λ h. h.1))

last_throws_not : (test : Bool) (e : Exception) → (throw_if test e ≡ ok tt) ↔ (test ≡ false)
last_throws_not true e = ((λ h. cc), (λ h. cc))
last_throws_not false e = ((λ h. refl), (λ h. refl))

check_coupon-Applies :
    (now : ℕ) (dto : ValidateCouponDto) (coupon : Coupon)
    → (check_coupon now dto coupon ≡ ok tt) ↔ Applies now dto coupon
unfolding check_coupon
check_coupon-Applies now dto c = (
  (λ h.
      let (a, h1) = (throws_not (not c.is_active) _ _).0 h in
      let (b, h2) = (throws_not (not_started now c.valid_from) _ _).0 h1 in
      let (d, h3) = (throws_not (has_expired now c.valid_to) _ _).0 h2 in
      let (f, h4) = (throws_not (mismatch c.organization_id dto.organization_id) _ _).0 h3 in
      let (g, h5) = (throws_not (mismatch c.venue_id dto.venue_id) _ _).0 h4 in
      let (i, h6) = (throws_not (mismatch c.facility_id dto.facility_id) _ _).0 h5 in
      let j = (last_throws_not (ltb dto.booking_amount c.min_booking_amount) _).0 h6 in
      (
        ground arith,
        (started now c.valid_from).0 b,
        (unexpired now c.valid_to).0 d,
        (matched c.organization_id dto.organization_id).0 f,
        (matched c.venue_id dto.venue_id).0 g,
        (matched c.facility_id dto.facility_id).0 i,
        ground arith,
      )),
  (λ (a, b, d, f, g, i, j).
      let low : ltb dto.booking_amount c.min_booking_amount ≡ false = ground arith in
      rw
        (
          check_coupon,
          a,
          (started now c.valid_from).1 b,
          (unexpired now c.valid_to).1 d,
          (matched c.organization_id dto.organization_id).1 f,
          (matched c.venue_id dto.venue_id).1 g,
          (matched c.facility_id dto.facility_id).1 i,
          low,
        )
        refl),
)

check_user-IsOpenTo :
    (db : Database) (now : ℕ) (shop : Shop) (user_id : ℕ) (coupon : Coupon)
    → (check_user db now shop user_id coupon ≡ ok tt) ↔ IsOpenTo now shop user_id coupon
unfolding check_user
check_user-IsOpenTo db now shop user_id c =
    let total = limit_reached (total_redeemed shop c.id) c.total_redemption_limit in
    let own = leb c.per_user_redemption_limit (user_redeemed shop c.id user_id) in
    let later = c.first_booking_only && ltb 0 (user_bookings shop user_id) in
    let stranger = c.membership_required && not (is_some (active_membership db now shop user_id)) in
    let limited = unreached (total_redeemed shop c.id) c.total_redemption_limit in
    let first = first_time c.first_booking_only (user_bookings shop user_id) in
    let member = is_member db (in_force user_id now) shop.memberships c.membership_required in
    (
      (λ h.
          let (a, h1) = (throws_not total _ _).0 h in
          let (b, h2) = (throws_not own _ _).0 h1 in
          let (d, h3) = (throws_not later _ _).0 h2 in
          let f = (last_throws_not stranger _).0 h3 in
          (limited.0 a, ground arith, first.0 d, member.0 f)),
      (λ (a, b, d, f).
          let own_not : own ≡ false = ground arith in
          rw (check_user, limited.1 a, own_not, first.1 d, member.1 f) refl),
    )

-- A code is accepted exactly if there is a coupon with the code that is active, within its dates,
-- not of another organization, venue or facility than the request names, and whose minimum the
-- amount reaches; that was redeemed less often than its limit, if it has one, and less often by the
-- user than the limit per user; if it is for a first booking, the user has none that is confirmed,
-- checked in or completed, and if it is for members, the user has an active membership that has not
-- expired.
pub validate_coupon-Accepts :
    (db : Database) (doubles : Doubles) (now : ℕ) (shop : Shop) (user_id : ℕ)
    (dto : ValidateCouponDto)
    → (is_ok (validate_coupon db doubles now shop user_id dto) ≡ true) ↔ (
        (coupon : Coupon) × (coupon_of db shop dto.code ≡ some coupon)
        × Applies now dto coupon
        × IsOpenTo now shop user_id coupon)
unfolding validate_coupon
validate_coupon-Accepts db doubles now shop user_id dto = (
  (λ h. elim (Result-cases (validate_coupon db doubles now shop user_id dto)) [
    | inr (e, k) ↦ absurd (let no : false ≡ true = rw k at h in cc)
    | inl (result, k) ↦
        let (coupon, found, h1) = or_throw-eq-ok (coupon_of db shop dto.code) _ _ k in
        let (_, a, h2) = >>=-eq-ok (check_coupon now dto coupon) _ h1 in
        let (_, b, h3) = >>=-eq-ok (check_user db now shop user_id coupon) _ h2 in
        (
          coupon,
          found,
          (check_coupon-Applies now dto coupon).0 a,
          (check_user-IsOpenTo db now shop user_id coupon).0 b,
        )
  ]),
  (λ (coupon, found, a, b).
      rw
        (
          validate_coupon,
          found,
          (check_coupon-Applies now dto coupon).1 a,
          (check_user-IsOpenTo db now shop user_id coupon).1 b,
        )
        refl),
)
