-- ===== src/Pricing.antt =====
-- backend/src/availability/pricing.service.ts: what a stretch of time at a facility costs, in
-- steps of 15 minutes, each at the rate of the best pricing rule. Amounts are exact: a rule's
-- base price is in paise an hour, and a price in units of 1/3,600,000 paise, so that a segment
-- costs its base price times its milliseconds.
pub mod Rules
pub mod Breakdown
pub mod Total
pub mod Tests
use Prim.Native.String.{String}
use text.Mathlib.Text.{◌==◌ as str_eq}
use playhub_playbooking.Common.{
  ℕ, zero, suc, ◌+◌, ◌-◌, ◌*◌, ◌/◌, Bool, true, false, ◌&&◌, ◌||◌, not, Option, none, some, List,
  [], ◌∷◌, ltb, leb, ◌==◌, if◌then◌else◌, Result, ok, err, error, ◌>>=◌, ◌>>◌, throw_if, or_throw,
  filter, any,
}
use playhub_playbooking.Common.Database.{Database}
use playhub_playbooking.Calendar.{DayOfWeek, day_eq, minute, Zone, text_ltb, text_leb, truthy}

pub record PricingRule : Type 0 where
  pub id : ℕ
  pub facility_id : ℕ
  pub name : String
  pub base_price : ℕ
  pub currency : String
  pub effective_from : Option ℕ
  pub effective_to : Option ℕ
  pub start_time : Option (List ℕ)
  pub end_time : Option (List ℕ)
  pub days_of_week : List DayOfWeek
  pub priority : ℕ
  pub is_active : Bool

-- An entry of the breakdown.
pub record Segment : Type 0 where
  pub start_time : ℕ
  pub end_time : ℕ
  pub price : ℕ
  pub rule_name : String

pub record PricingResult : Type 0 where
  pub total_price : ℕ
  pub currency : String
  pub breakdown : List Segment

-- A bound that is null holds.
abbrev pub from_ok : Option ℕ → ℕ → Bool
from_ok none t = true
from_ok (some from) t = leb from t

abbrev pub to_ok : Option ℕ → ℕ → Bool
to_ok none t = true
to_ok (some to) t = leb t to

-- The `where` of the query for the rules.
unfoldable pub is_candidate : ℕ → ℕ → ℕ → PricingRule → Bool
is_candidate facility_id start_time end_time rule =
    rule.facility_id == facility_id
    && rule.is_active
    && from_ok rule.effective_from end_time
    && to_ok rule.effective_to start_time

-- The three `continue`s of `findBestRule`.
unfoldable pub day_skips : PricingRule → DayOfWeek → Bool
day_skips rule dow = elim rule.days_of_week [
  | [] ↦ false
  | d ∷ ds ↦ not (any (λ e. day_eq e dow) (d ∷ ds))
]

unfoldable pub window_skips : Option (List ℕ) → Option (List ℕ) → List ℕ → Bool
window_skips none end time = false
window_skips (some start) none time = false
window_skips (some start) (some end) time =
    if text_leb start end
    then text_ltb time start || text_leb end time
    else text_ltb time start && text_leb end time

unfoldable pub date_skips : PricingRule → ℕ → Bool
date_skips rule time = not (from_ok rule.effective_from time) || not (to_ok rule.effective_to time)

unfoldable pub skips : Zone → ℕ → PricingRule → Bool
unfolding day_skips window_skips date_skips
skips zone time rule =
    day_skips rule (zone.weekday time)
    || window_skips (truthy rule.start_time) (truthy rule.end_time) (zone.to_hh_mm time)
    || date_skips rule time

unfoldable pub find_best_rule : Zone → List PricingRule → ℕ → Option PricingRule
find_best_rule zone [] time = none
find_best_rule zone (rule ∷ rules) time =
    if skips zone time rule then find_best_rule zone rules time else some rule

-- The last entry is extended if it has the same rule's name; else a new one is pushed.
unfoldable pub add_segment : List Segment → Segment → List Segment
add_segment [] s = s ∷ []
add_segment (last ∷ []) s =
    if str_eq last.rule_name s.rule_name
    then record last { end_time = s.end_time; price = last.price + s.price } ∷ []
    else last ∷ s ∷ []
add_segment (first ∷ next ∷ more) s = first ∷ add_segment (next ∷ more) s

abbrev pub step : ℕ
step = 15 * minute

abbrev pub segment_end : ℕ → ℕ → ℕ
segment_end current end = if ltb end (current + step) then end else current + step

abbrev pub segment : PricingRule → ℕ → ℕ → Segment
segment rule current end = record {
  start_time = current;
  end_time = end;
  price = rule.base_price * (end - current);
  rule_name = rule.name;
}

-- The `while` loop, on fuel.
unfoldable pub price_from :
    Zone → List PricingRule → ℕ → ℕ → ℕ → ℕ → List Segment → Result (ℕ × List Segment)
price_from zone rules end zero current total breakdown = err (error "out of fuel")
price_from zone rules end (suc fuel) current total breakdown =
    let round = do
      rule ← or_throw (find_best_rule zone rules current) (error "No pricing rule matched")
      let s = segment rule current (segment_end current end)
      price_from zone rules end fuel (current + step) (total + s.price) (add_segment breakdown s)
    in if ltb current end then round else ok (total, breakdown)

-- One round for each step, and one to leave the loop.
abbrev pub rounds : ℕ → ℕ → ℕ
rounds start end = (end - start) / step + 2

unfoldable pub rules_for : Database → List PricingRule → ℕ → ℕ → ℕ → List PricingRule
rules_for db table facility_id start_time end_time =
    db.order_by (λ r. r.priority) (filter (is_candidate facility_id start_time end_time) table)

unfoldable pub price_by : Zone → List PricingRule → ℕ → ℕ → Result PricingResult
price_by zone [] start_time end_time = err (error "No active pricing rules found for this facility")
price_by zone (rule ∷ rules) start_time end_time = do
  priced ← price_from zone (rule ∷ rules) end_time (rounds start_time end_time) start_time 0 []
  ok (record { total_price = priced.0; currency = rule.currency; breakdown = priced.1 })

unfoldable pub calculate_price :
    Database → Zone → List PricingRule → ℕ → ℕ → ℕ → Result PricingResult
unfolding price_by
calculate_price db zone table facility_id start_time end_time =
    price_by zone (rules_for db table facility_id start_time end_time) start_time end_time
