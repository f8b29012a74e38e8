-- ===== src/Pricing/Breakdown.antt =====
-- The breakdown that the loop of backend/src/availability/pricing.service.ts keeps.
use text.Mathlib.Text.{◌==◌ as str_eq}
use playhub_playbooking.Common.{
  ℕ, ◌≡◌, ◌<◌, ◌+◌, false, List, [], ◌∷◌, arith, sum_of, Bool-cases, inl, inr, refl,
}
use playhub_playbooking.Pricing.{Segment, add_segment}

-- The entries follow one another without a gap from `a` to `b`, and none is empty.
abbrev pub Spans : ℕ → ℕ → List Segment → Type 0
Spans a b [] = a ≡ b
Spans a b (s ∷ ss) = (s.start_time ≡ a) × (s.start_time < s.end_time) × Spans s.end_time b ss

-- Neighbours have different rules.
abbrev pub Alternates : List Segment → Type 0
Alternates [] = Unit
Alternates (s ∷ []) = Unit
Alternates (s ∷ t ∷ ss) = (str_eq s.rule_name t.rule_name ≡ false) × Alternates (t ∷ ss)

abbrev pub prices : List Segment → ℕ
prices = sum_of (λ s. s.price)

pub prices-add_segment :
    (ss : List Segment) (s : Segment) → prices (add_segment ss s) ≡ prices ss + s.price
unfolding add_segment
prices-add_segment [] s = omega arith
prices-add_segment (last ∷ []) s = ground arith
prices-add_segment (first ∷ next ∷ more) s = omega (arith, prices-add_segment (next ∷ more) s)

pub Spans-add_segment :
    (ss : List Segment) (s : Segment) (a : ℕ)
    → Spans a s.start_time ss
    → s.start_time < s.end_time
    → Spans a s.end_time (add_segment ss s)
unfolding add_segment
Spans-add_segment [] s a h p = ground arith
Spans-add_segment (last ∷ []) s a h p = ground arith
Spans-add_segment (first ∷ next ∷ more) s a h p =
    (h.0, h.1, Spans-add_segment (next ∷ more) s first.end_time h.2 p)

-- The first entry keeps its rule.
add_segment-head :
    (first : Segment) (ss : List Segment) (s : Segment)
    → (head : Segment) × (tail : List Segment) × (add_segment (first ∷ ss) s ≡ head ∷ tail)
      × (head.rule_name ≡ first.rule_name)
unfolding add_segment
add_segment-head first [] s = elim (Bool-cases (str_eq first.rule_name s.rule_name)) [
  | inl e ↦
      (record first { end_time = s.end_time; price = first.price + s.price }, [], rw e refl, refl)
  | inr e ↦ (first, s ∷ [], rw e refl, refl)
]
add_segment-head first (next ∷ more) s = (first, add_segment (next ∷ more) s, refl, refl)

Alternates-cons :
    (first : Segment) (ss : List Segment) (head : Segment) (tail : List Segment)
    → ss ≡ head ∷ tail
    → str_eq first.rule_name head.rule_name ≡ false
    → Alternates ss
    → Alternates (first ∷ ss)
Alternates-cons first [] head tail e ne h = absurd (cc)
Alternates-cons first (s ∷ ss) head tail e ne h = let same : s ≡ head = cc in (rw same ne, h)

pub Alternates-add_segment :
    (ss : List Segment) (s : Segment) → Alternates ss → Alternates (add_segment ss s)
unfolding add_segment
Alternates-add_segment [] s h = tt
Alternates-add_segment (last ∷ []) s h = elim (Bool-cases (str_eq last.rule_name s.rule_name)) [
  | inl e ↦ rw e tt
  | inr e ↦ rw e (e, tt)
]
Alternates-add_segment (first ∷ next ∷ more) s h =
    let (head, tail, e, same) = add_segment-head next more s in
    Alternates-cons first (add_segment (next ∷ more) s) head tail e (rw same h.0)
      (Alternates-add_segment (next ∷ more) s h.1)
