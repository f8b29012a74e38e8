-- ===== src/Promotions/Memberships.antt =====
-- backend/src/memberships/memberships.service.ts: plans, and the memberships that users buy.
-- `new_id` is the identifier that the database gives a new row.
use Prim.Native.String.{String}
use playhub_playbooking.Common.{
  Option, Result, ap, arith, conflict, false, if◌then◌else◌, inl, inr, is_some, leb, none, not,
  not_found, ok, or_throw, or_throw-eq-ok, refl, some, sym, throw_if, throw_if-eq-ok, true, ℕ, ◌==◌,
  ◌>>=◌, ◌>>◌, ◌∙◌, ◌∷◌, ◌≡◌, ◌≤◌, ◌⊎◌,
}
use playhub_playbooking.Common.Database.{Database}
use playhub_playbooking.Common.Int.{eqb_ℤ, negsuc, pos, ℤ, ◌≤ℤ◌}
use playhub_playbooking.Common.Queries.{IsAmong, find_first-IsAmong, find_first_some}
use playhub_playbooking.Promotions.{active_membership, in_force}
use playhub_playbooking.Promotions.Types.{
  CustomerMembership, DurationUnit, MembershipPlan, MembershipStatus, PlanStatus, Shop, days,
  months, plan_is_active, years,
}

pub record CreateMembershipPlanDto : Type 0 where
  pub organization_id : Option ℕ
  pub name : String
  pub code : ℕ
  pub price : ℕ
  pub currency : Option String
  pub duration : Option ℤ
  pub duration_unit : Option DurationUnit

-- `setDate`, `setMonth` and `setFullYear` of a date, by a number of days, months or years, which goes
-- back where it is negative; that a date is not before the one it is ahead of is all that is known.
pub record Dates : Type 0 where
  pub add_days : ℤ → ℕ → ℕ
  pub add_months : ℤ → ℕ → ℕ
  pub add_years : ℤ → ℕ → ℕ
  pub add_days-later : (n t : ℕ) → t ≤ add_days (pos n) t
  pub add_months-later : (n t : ℕ) → t ≤ add_months (pos n) t
  pub add_years-later : (n t : ℕ) → t ≤ add_years (pos n) t

abbrev pub plan_with_code : Database → Shop → ℕ → Option MembershipPlan
plan_with_code db shop code = db.find_first (λ (p : MembershipPlan). p.code == code) shop.plans

abbrev or_currency : Option String → String
or_currency none = "INR"
or_currency (some c) = c

abbrev or_unit : Option DurationUnit → DurationUnit
or_unit none = months
or_unit (some unit) = unit

-- `duration || 1`
abbrev or_one : Option ℤ → ℤ
or_one none = pos 1
or_one (some n) = if eqb_ℤ n (pos 0) then pos 1 else n

abbrev pub new_plan : ℕ → CreateMembershipPlanDto → MembershipPlan
new_plan new_id dto = record {
  id = new_id;
  organization_id = dto.organization_id;
  name = dto.name;
  code = dto.code;
  price = dto.price;
  currency = or_currency dto.currency;
  duration = or_one dto.duration;
  duration_unit = or_unit dto.duration_unit;
  status = PlanStatus.active;
}

unfoldable pub create_plan :
    Database → ℕ → Shop → CreateMembershipPlanDto → Result (MembershipPlan × Shop)
create_plan db new_id shop dto = do
  throw_if (is_some (plan_with_code db shop dto.code))
      (conflict "Membership plan code already exists.")
  let plan = new_plan new_id dto
  ok (plan, record shop { plans = plan ∷ shop.plans })

unfoldable pub expiry_date : Dates → ℕ → MembershipPlan → ℕ
expiry_date dates start plan = elim plan.duration_unit [
  | days ↦ dates.add_days plan.duration start
  | years ↦ dates.add_years plan.duration start
  | months ↦ dates.add_months plan.duration start
]

abbrev pub new_membership : Dates → ℕ → ℕ → ℕ → Option ℕ → MembershipPlan → CustomerMembership
new_membership dates now new_id user_id payment_id plan = record {
  id = new_id;
  user_id = user_id;
  organization_id = plan.organization_id;
  plan_id = plan.id;
  payment_id = payment_id;
  start_date = now;
  expiry_date = expiry_date dates now plan;
  status = MembershipStatus.active;
  amount_paid = plan.price;
  currency = plan.currency;
}

unfoldable pub purchase_membership :
    Database → Dates → ℕ → ℕ → Shop → ℕ → ℕ → Option ℕ → Result (CustomerMembership × Shop)
purchase_membership db dates now new_id shop user_id plan_id payment_id = do
  plan ←
      or_throw (db.find_first (λ (p : MembershipPlan). p.id == plan_id) shop.plans)
        (not_found "Membership plan not found or inactive")
  throw_if (not (plan_is_active plan.status)) (not_found "Membership plan not found or inactive")
  let membership = new_membership dates now new_id user_id payment_id plan
  ok (membership, record shop { memberships = membership ∷ shop.memberships })

expiry_date-later :
    (dates : Dates) (now : ℕ) (plan : MembershipPlan)
    → (now ≤ expiry_date dates now plan) ⊎ (plan.duration ≤ℤ negsuc 0)
unfolding expiry_date
expiry_date-later dates now plan = by_sign plan.duration plan.duration_unit
  where
    by_sign :
        (n : ℤ) (unit : DurationUnit)
        → (now ≤ elim unit [
          | days ↦ dates.add_days n now
          | years ↦ dates.add_years n now
          | months ↦ dates.add_months n now
        ])
          ⊎ (n ≤ℤ negsuc 0)
    by_sign (pos n) days = inl (dates.add_days-later n now)
    by_sign (pos n) months = inl (dates.add_months-later n now)
    by_sign (pos n) years = inl (dates.add_years-later n now)
    by_sign (negsuc n) unit = inr (omega arith)

-- A purchase of a plan, with or without a payment, gives a membership of the user for the price of
-- the plan, which is a row of the plans and is active; the membership is in the table afterwards; it
-- does not expire before it starts, unless the duration of the plan is negative; and at any time
-- until it expires, the user is found to have an active membership.
pub purchase_membership-active :
    (db : Database) (dates : Dates) (now new_id : ℕ) (shop : Shop) (user_id plan_id : ℕ)
    (payment_id : Option ℕ) (m : CustomerMembership) (after : Shop)
    → purchase_membership db dates now new_id shop user_id plan_id payment_id ≡ ok (m, after)
    → (plan : MembershipPlan) × IsAmong plan shop.plans
      × (plan.id ≡ plan_id)
      × (plan.status ≡ PlanStatus.active)
      × IsAmong m after.memberships
      × (m.user_id ≡ user_id)
      × (m.plan_id ≡ plan_id)
      × (m.amount_paid ≡ plan.price)
      × ((now ≤ m.expiry_date) ⊎ (plan.duration ≤ℤ negsuc 0))
      × ((later : ℕ)
          → later ≤ m.expiry_date
          → (own : CustomerMembership) × (active_membership db later after user_id ≡ some own)
            × (in_force user_id later own ≡ true))
unfolding purchase_membership
purchase_membership-active db dates now new_id shop user_id plan_id payment_id m after h =
    let p = λ (p : MembershipPlan). p.id == plan_id in
    let (plan, found, h1) = or_throw-eq-ok (db.find_first p shop.plans) _ _ h in
    let (is_on, h2) = throw_if-eq-ok (not (plan_is_active plan.status)) _ _ h1 in
    let it = new_membership dates now new_id user_id payment_id plan in
    let same : after ≡ record shop { memberships = it ∷ shop.memberships } = cc in
    let made : it ≡ m = cc in
    let named : plan.id ≡ plan_id = ground (arith, db.find_first-some p shop.plans plan found) in
    let ends : m.expiry_date ≡ expiry_date dates now plan =
      ap (λ (m : CustomerMembership). m.expiry_date) (sym made) in
    (
      plan,
      find_first-IsAmong db p shop.plans plan found,
      named,
      is_active_of plan.status is_on,
      rw same (inl made),
      ap (λ (m : CustomerMembership). m.user_id) (sym made),
      ap (λ (m : CustomerMembership). m.plan_id) (sym made) ∙ named,
      ap (λ (m : CustomerMembership). m.amount_paid) (sym made),
      rw ends (expiry_date-later dates now plan),
      (λ later before.
          let self : (user_id == user_id) ≡ true = ground arith in
          let in_time : leb later (expiry_date dates now plan) ≡ true = ground arith in
          let fits : in_force user_id later it ≡ true = rw (self, in_time) refl in
          rw same (find_first_some db (in_force user_id later) it shop.memberships fits)),
    )
  where
    is_active_of : (s : PlanStatus) → not (plan_is_active s) ≡ false → s ≡ PlanStatus.active
    is_active_of s e = ground arith
