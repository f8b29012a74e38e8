-- ===== src/Pricing/Total.antt =====
-- The loop and the result of `calculatePrice` in backend/src/availability/pricing.service.ts.
use playhub_playbooking.Common.{
  ℕ, zero, suc, ◌≡◌, ◌≤◌, ◌<◌, ◌+◌, ◌-◌, ◌*◌, ◌/◌, ◌⊎◌, true, false, none, some, List, [], ◌∷◌,
  arith, Bool-cases, Option-cases, inl, inr, ltb, min, Result, ok, err, error, refl,
}
use playhub_playbooking.Common.Database.{Database}
use playhub_playbooking.Calendar.{Zone}
use playhub_playbooking.Pricing.{
  PricingRule, Segment, PricingResult, find_best_rule, add_segment, step, segment_end, segment,
  price_from, rounds, rules_for, price_by, calculate_price,
}
use playhub_playbooking.Pricing.Breakdown.{
  Spans, Alternates, prices, prices-add_segment, Spans-add_segment, Alternates-add_segment,
}

-- A quote for the time from `start` to `end`.
abbrev pub IsQuote : ℕ → ℕ → ℕ × List Segment → Type 0
IsQuote start end (total, ss) = (prices ss ≡ total) × Spans start end ss × Alternates ss

-- A moment of the stay for which no rule applies.
abbrev pub Gap : Zone → List PricingRule → ℕ → ℕ → Type 0
Gap zone rules start end = (t : ℕ) × (start ≤ t) × (t < end) × (find_best_rule zone rules t ≡ none)

abbrev Quotes : Zone → List PricingRule → ℕ → ℕ → Result (ℕ × List Segment) → Type 0
Quotes zone rules start end r =
    ((q : ℕ × List Segment) × (r ≡ ok q) × IsQuote start end q)
    ⊎ (Gap zone rules start end × (r ≡ err (error "No pricing rule matched")))

module _ (zone : Zone) (rules : List PricingRule) (start end : ℕ) where
  -- One round of the loop keeps the quote.
  round-IsQuote :
      (rule : PricingRule) (current total : ℕ) (ss : List Segment)
      → current < end
      → IsQuote start (min current end) (total, ss)
      → let s = segment rule current (segment_end current end) in
        IsQuote start (min (current + step) end) (total + s.price, add_segment ss s)
  round-IsQuote rule current total ss h q =
      let s : Segment = segment rule current (segment_end current end) in
      let here : min current end ≡ current = omega arith in
      let there : min (current + step) end ≡ segment_end current end = ground arith in
      (
        ground (arith, prices-add_segment ss s, q.0),
        rw there (Spans-add_segment ss s start (rw here at q.1) (ground arith)),
        Alternates-add_segment ss s q.2,
      )

  -- The next round of a loop that goes on.
  abbrev pub next_round : ℕ → ℕ → ℕ → List Segment → PricingRule → Result (ℕ × List Segment)
  next_round fuel current total ss rule =
      let s = segment rule current (segment_end current end) in
      price_from zone rules end fuel (current + step) (total + s.price) (add_segment ss s)

  pub price_from-zero :
      (current total : ℕ) (ss : List Segment)
      → price_from zone rules end zero current total ss ≡ err (error "out of fuel")
  unfolding price_from
  price_from-zero current total ss = refl

  pub price_from-done :
      (fuel current total : ℕ) (ss : List Segment)
      → ltb current end ≡ false
      → price_from zone rules end (suc fuel) current total ss ≡ ok (total, ss)
  unfolding price_from
  price_from-done fuel current total ss done = rw done refl

  pub price_from-gap :
      (fuel current total : ℕ) (ss : List Segment)
      → ltb current end ≡ true
      → find_best_rule zone rules current ≡ none
      → price_from zone rules end (suc fuel) current total ss
        ≡ err (error "No pricing rule matched")
  unfolding price_from
  price_from-gap fuel current total ss more gap = rw (more, gap) refl

  pub price_from-step :
      (fuel current total : ℕ) (ss : List Segment) (rule : PricingRule)
      → ltb current end ≡ true
      → find_best_rule zone rules current ≡ some rule
      → price_from zone rules end (suc fuel) current total ss
        ≡ next_round fuel current total ss rule
  unfolding price_from
  price_from-step fuel current total ss rule more e = rw (more, e) refl

  price_from-Quotes :
      (fuel current total : ℕ) (ss : List Segment)
      → start ≤ current
      → end ≤ current + fuel * step
      → IsQuote start (min current end) (total, ss)
      → Quotes zone rules start end (price_from zone rules end (suc fuel) current total ss)
  price_from-Quotes zero current total ss a b q =
      let done : ltb current end ≡ false = ground arith in
      let here : min current end ≡ end = omega arith in
      inl ((total, ss), price_from-done zero current total ss done, (q.0, rw here at q.1, q.2))
  price_from-Quotes (suc fuel) current total ss a b q = elim (Bool-cases (ltb current end)) [
    | inr done ↦
        let here : min current end ≡ end = ground arith in
        inl (
          (total, ss),
          price_from-done (suc fuel) current total ss done,
          (q.0, rw here at q.1, q.2),
        )
    | inl more ↦ elim (Option-cases (find_best_rule zone rules current)) [
      | inl gap ↦
          inr ((current, a, ground arith, gap), price_from-gap (suc fuel) current total ss more gap)
      | inr (rule, e) ↦
          let s : Segment = segment rule current (segment_end current end) in
          rw (price_from-step (suc fuel) current total ss rule more e) (
            price_from-Quotes fuel (current + step) (total + s.price) (add_segment ss s)
              (omega arith) (omega arith) (round-IsQuote rule current total ss (ground arith) q))
    ]
  ]

-- How a quote can end.
abbrev pub QuoteResult : Zone → List PricingRule → ℕ → ℕ → Result PricingResult → Type 0
QuoteResult zone rules start end r =
    ((q : PricingResult) × (r ≡ ok q) × IsQuote start end (q.total_price, q.breakdown))
    ⊎ (Gap zone rules start end × (r ≡ err (error "No pricing rule matched")))
    ⊎ ((rules ≡ []) × (r ≡ err (error "No active pricing rules found for this facility")))

rounds-suc : (start end : ℕ) → rounds start end ≡ suc ((end - start) / step + 1)
rounds-suc start end = omega arith

price_by-QuoteResult :
    (zone : Zone) (rules : List PricingRule) (start end : ℕ)
    → start ≤ end
    → QuoteResult zone rules start end (price_by zone rules start end)
unfolding price_by
price_by-QuoteResult zone [] start end h = inr (inr (refl, refl))
price_by-QuoteResult zone (rule ∷ rules) start end h =
    let fuel = (end - start) / step + 1 in
    elim (price_from-Quotes zone (rule ∷ rules) start end fuel start 0 [] (omega arith)
      (omega arith) (refl, omega arith, tt)) [
        | inl (q, e, sound) ↦ inl (
          record { total_price = q.0; currency = rule.currency; breakdown = q.1 },
          rw (rounds-suc start end, e) refl,
          sound,
        )
        | inr (gap, e) ↦ inr (inl (gap, rw (rounds-suc start end, e) refl))
      ]

-- For a stay whose start is not after its end the loop ends by its test, and there are three
-- outcomes: a quote whose entries follow one another without a gap from the start to the end,
-- are not empty, have different rule names as neighbours and add up to the total price; the
-- error of an unmatched segment, and then some moment of the stay has no applicable rule; or the
-- error of a facility without active rules, and then the query loaded none.
pub calculate_price-QuoteResult :
    (db : Database) (zone : Zone) (table : List PricingRule) (facility_id start end : ℕ)
    → start ≤ end
    → QuoteResult zone
        (rules_for db table facility_id start end)
        start
        end
        (calculate_price db zone table facility_id start end)
unfolding calculate_price
calculate_price-QuoteResult db zone table facility_id start end h =
    price_by-QuoteResult zone (rules_for db table facility_id start end) start end h
