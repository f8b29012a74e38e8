-- ===== src/Availability/Slots.antt =====
-- The loop over the free intervals in backend/src/availability/availability.service.ts.
use playhub_playbooking.Common.{
  All, All-append, All-map_of, Bool, Bool-cases, List, Result, [], arith, err, inl, inr, leb,
  leb→le, ok, refl, suc, true, zero, ℕ, ◌++◌, ◌+◌, ◌-◌, ◌<◌, ◌∷◌, ◌≡◌, ◌≤◌,
}
use playhub_playbooking.Availability.{Slot, priced_slot, slots_in, slots_of}
use playhub_playbooking.Interval.{IsProper, TimeInterval}
use playhub_playbooking.Interval.Points.{covers, holds}
use playhub_playbooking.Pricing.{PricingResult}

-- A slot of the duration asked for, inside one of the intervals, at the price quoted for it.
abbrev pub IsSlot : (ℕ → ℕ → Result PricingResult) → ℕ → ℕ → ℕ → Slot → Type 0
IsSlot quote duration start end s =
    (s.end_time ≡ s.start_time + duration)
    × (start ≤ s.start_time)
    × (s.end_time ≤ end)
    × (q : PricingResult) × (quote s.start_time s.end_time ≡ ok q)
    × (s.price ≡ q.total_price)
    × (s.breakdown ≡ q.breakdown)

-- The covered moments of a slot, and its quote.
abbrev pub IsFree : (ℕ → ℕ → Result PricingResult) → ℕ → (ℕ → Bool) → Slot → Type 0
IsFree quote duration free s =
    (s.end_time ≡ s.start_time + duration)
    × ((t : ℕ) → holds (record { start = s.start_time; end = s.end_time }) t ≡ true → free t ≡ true)
    × (q : PricingResult) × (quote s.start_time s.end_time ≡ ok q)
    × (s.price ≡ q.total_price)
    × (s.breakdown ≡ q.breakdown)

module _ (quote : ℕ → ℕ → Result PricingResult) (duration : ℕ) where
  priced_slot-All :
      (start end : ℕ) (a : ℕ) (r : Result PricingResult) (slots : List Slot)
      → quote a (a + duration) ≡ r
      → start ≤ a
      → a + duration ≤ end
      → All (IsSlot quote duration start end) slots
      → All (IsSlot quote duration start end) (priced_slot a (a + duration) r slots)
  priced_slot-All start end a (err e) slots same h k all = all
  priced_slot-All start end a (ok q) slots same h k all = ((refl, h, k, q, same, refl, refl), all)

  slots_in-IsSlot :
      (start end fuel current : ℕ)
      → 0 < duration
      → start ≤ current
      → current ≤ end
      → end < current + fuel
      → (slots : List Slot) × (slots_in quote duration end fuel current ≡ ok slots)
        × All (IsSlot quote duration start end) slots
  unfolding slots_in
  slots_in-IsSlot start end zero current positive a b enough = absurd (omega arith)
  slots_in-IsSlot start end (suc fuel) current positive a b enough =
      elim (Bool-cases (leb (current + duration) end)) [
        | inr done ↦ ([], rw done refl, tt)
        | inl more ↦
            let fits : current + duration ≤ end = leb→le (current + duration) end more in
            let (slots, e, all) =
              slots_in-IsSlot start end fuel (current + duration) positive (omega arith) fits
                (omega arith) in
            (
              priced_slot current (current + duration) (quote current (current + duration)) slots,
              rw (more, e) refl,
              priced_slot-All start end current (quote current (current + duration)) slots refl a
                  fits all,
            )
      ]

  IsSlot-IsFree :
      (i : TimeInterval) (is : List TimeInterval) (s : Slot)
      → IsSlot quote duration i.start i.end s
      → IsFree quote duration (covers (i ∷ is)) s
  IsSlot-IsFree i is s (len, a, b, q, e, price, breakdown) =
      (len, (λ t h. ground arith), q, e, price, breakdown)

  IsFree-cons :
      (i : TimeInterval) (is : List TimeInterval) (s : Slot)
      → IsFree quote duration (covers is) s
      → IsFree quote duration (covers (i ∷ is)) s
  IsFree-cons i is s (len, free, q, e, price, breakdown) =
      (len, (λ t h. ground (arith, free t h)), q, e, price, breakdown)

  -- For a duration above zero the loop ends, and every slot is free.
  pub slots_of-IsFree :
      (is : List TimeInterval)
      → 0 < duration
      → All IsProper is
      → (slots : List Slot) × (slots_of quote duration is ≡ ok slots)
        × All (IsFree quote duration (covers is)) slots
  unfolding slots_of
  slots_of-IsFree [] positive h = ([], refl, tt)
  slots_of-IsFree (i ∷ is) positive h =
      let (first, e, all) =
        slots_in-IsSlot i.start i.end (i.end - i.start + 2) i.start positive (omega arith)
          (omega arith) (omega arith) in
      let (rest, e', all') = slots_of-IsFree is positive h.1 in
      (
        first ++ rest,
        rw (e, e') refl,
        All-append (IsFree quote duration (covers (i ∷ is))) first rest
            (All-map_of first (IsSlot-IsFree i is) all) (All-map_of rest (IsFree-cons i is) all'),
      )
