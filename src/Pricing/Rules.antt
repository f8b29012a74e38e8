-- ===== src/Pricing/Rules.antt =====
-- Which rule `findBestRule` of backend/src/availability/pricing.service.ts picks.
use playhub_playbooking.Common.{
  All, All-map_of, Bool, Bool-cases, List, [], arith, false, filter, inl, inr, some, subst, true, ℕ,
  ◌∷◌, ◌≡◌, ◌≤◌,
}
use playhub_playbooking.Calendar.{Zone}
use playhub_playbooking.Common.Database.{All-filter, All-intro, Database, Falls, filter-All}
use playhub_playbooking.Pricing.{PricingRule, find_best_rule, is_candidate, rules_for, skips}

-- The rule is not skipped, and no rule of higher priority in the list is left unskipped.
abbrev IsFirst : Zone → ℕ → List PricingRule → PricingRule → Type 0
IsFirst zone time rules best =
    (skips zone time best ≡ false)
    × All (λ r. skips zone time r ≡ false → r.priority ≤ best.priority) rules

find_best_rule-IsFirst :
    (zone : Zone) (time : ℕ) (rules : List PricingRule) (best : PricingRule)
    → Falls (λ r. r.priority) rules
    → find_best_rule zone rules time ≡ some best
    → IsFirst zone time rules best
unfolding find_best_rule
find_best_rule-IsFirst zone time [] best f e = absurd (cc)
find_best_rule-IsFirst zone time (rule ∷ rules) best f e =
    elim (Bool-cases (skips zone time rule)) [
      | inl s ↦
          let (fits, above) = find_best_rule-IsFirst zone time rules best f.1 (rw s at e) in
          (fits, ((λ n. absurd (cc)), above))
      | inr n ↦
          let same : some rule ≡ some best = rw n at e in
          subst (IsFirst zone time (rule ∷ rules)) (cc)
            (n, ((λ _. omega arith), All-map_of rules (λ r below _. below) f.0))
    ]

pub find_best_rule-All :
    (P : PricingRule → Type 0) (zone : Zone) (time : ℕ) (rules : List PricingRule)
    (best : PricingRule)
    → All P rules
    → find_best_rule zone rules time ≡ some best
    → P best
unfolding find_best_rule
find_best_rule-All P zone time [] best h e = absurd (cc)
find_best_rule-All P zone time (rule ∷ rules) best h e = elim (Bool-cases (skips zone time rule)) [
  | inl s ↦ find_best_rule-All P zone time rules best h.1 (rw s at e)
  | inr n ↦ let same : some rule ≡ some best = rw n at e in subst P (cc) h.0
]

pub rules_for-All :
    (P : PricingRule → Type 0) (db : Database) (table : List PricingRule)
    (facility_id start_time end_time : ℕ)
    → All (λ r. is_candidate facility_id start_time end_time r ≡ true → P r) table
    → All P (rules_for db table facility_id start_time end_time)
unfolding rules_for
rules_for-All P db table facility_id start_time end_time h =
    db.order_by-All P (λ r. r.priority)
      (filter (is_candidate facility_id start_time end_time) table)
      (filter-All P (is_candidate facility_id start_time end_time) table h)

-- The best rule of a table at a moment of a stay: an active rule of the facility that applies at
-- that moment, and no other such rule has a higher priority.
abbrev pub IsBest : Zone → ℕ → (PricingRule → Bool) → List PricingRule → PricingRule → Type 0
IsBest zone time candidate table best =
    (candidate best ≡ true)
    × (skips zone time best ≡ false)
    × All (λ r. candidate r ≡ true → skips zone time r ≡ false → r.priority ≤ best.priority) table

-- The rule that `findBestRule` returns for the rules that the query loads is, among all rules of
-- the table, a candidate (active, of the facility, in effect during the stay) that applies at the
-- moment, and no candidate of the table that applies there has a higher priority.
pub find_best_rule-IsBest :
    (db : Database) (zone : Zone) (table : List PricingRule) (facility_id start_time end_time : ℕ)
    (time : ℕ) (best : PricingRule)
    → find_best_rule zone (rules_for db table facility_id start_time end_time) time ≡ some best
    → IsBest zone time (is_candidate facility_id start_time end_time) table best
unfolding rules_for
find_best_rule-IsBest db zone table facility_id start_time end_time time best e =
    let candidate = is_candidate facility_id start_time end_time in
    let loaded = filter candidate table in
    let rules = db.order_by (λ (r : PricingRule). r.priority) loaded in
    let (fits, above) =
      find_best_rule-IsFirst zone time rules best (db.order_by-Falls (λ r. r.priority) loaded) e in
    (
      find_best_rule-All (λ r. candidate r ≡ true) zone time rules best
          (rules_for-All (λ r. candidate r ≡ true) db table facility_id start_time end_time
            (All-intro (λ r. candidate r ≡ true → candidate r ≡ true) table (λ r h. h)))
          e,
      fits,
      All-filter (λ r. skips zone time r ≡ false → r.priority ≤ best.priority) candidate table
          (db.All-order_by (λ r. skips zone time r ≡ false → r.priority ≤ best.priority)
            (λ r. r.priority) loaded above),
    )
