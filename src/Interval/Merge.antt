-- ===== src/Interval/Merge.antt =====
-- `merge` of backend/src/common/utils/time-interval.util.ts.
use playhub_playbooking.Common.{
  ℕ, ◌≡◌, ◌<◌, ◌≤◌, ◌||◌, List, [], ◌∷◌, ltb, leb, arith, refl, All, Result, ok, Bool-cases, inl,
  inr, if◌then◌else◌, ◌∙◌,
}
use playhub_playbooking.Interval.{
  TimeInterval, IsProper, new_interval, insert_by_start, sort_by_start, merge_from, merge,
  merge_sorted,
}
use playhub_playbooking.Interval.Points.{holds, covers}

-- The starts rise from `n` on.
abbrev pub Rises : ℕ → List TimeInterval → Type 0
Rises n [] = Unit
Rises n (i ∷ is) = (n ≤ i.start) × Rises i.start is

-- Between an end and the next start there is a gap.
abbrev pub Apart : ℕ → List TimeInterval → Type 0
Apart n [] = Unit
Apart n (i ∷ is) = (n < i.start) × Apart i.end is

abbrev pub AreSeparate : List TimeInterval → Type 0
AreSeparate [] = Unit
AreSeparate (i ∷ is) = Apart i.end is

Rises-weaken : (is : List TimeInterval) {m n : ℕ} → m ≤ n → Rises n is → Rises m is
Rises-weaken [] h r = tt
Rises-weaken (i ∷ is) h r = (omega arith, r.1)

Rises-insert_by_start :
    (n : ℕ) (i : TimeInterval) (js : List TimeInterval)
    → n ≤ i.start
    → Rises n js
    → Rises n (insert_by_start i js)
unfolding insert_by_start
Rises-insert_by_start n i [] h r = (h, tt)
Rises-insert_by_start n i (j ∷ js) h r = elim (Bool-cases (leb i.start j.start)) [
  | inl e ↦ rw e (ground arith)
  | inr e ↦ rw e (r.0, Rises-insert_by_start j.start i js (ground arith) r.1)
]

insert_by_start-IsProper :
    (i : TimeInterval) (js : List TimeInterval)
    → IsProper i
    → All IsProper js
    → All IsProper (insert_by_start i js)
unfolding insert_by_start
insert_by_start-IsProper i [] p h = (p, tt)
insert_by_start-IsProper i (j ∷ js) p h = ground (arith, insert_by_start-IsProper i js p h.1)

covers-insert_by_start :
    (i : TimeInterval) (js : List TimeInterval) (t : ℕ)
    → covers (insert_by_start i js) t ≡ (holds i t || covers js t)
unfolding insert_by_start
covers-insert_by_start i [] t = refl
covers-insert_by_start i (j ∷ js) t = ground (arith, covers-insert_by_start i js t)

Rises-sort_by_start : (is : List TimeInterval) → Rises 0 (sort_by_start is)
unfolding sort_by_start
Rises-sort_by_start [] = tt
Rises-sort_by_start (i ∷ is) =
    Rises-insert_by_start 0 i (sort_by_start is) (omega arith) (Rises-sort_by_start is)

sort_by_start-IsProper :
    (is : List TimeInterval) → All IsProper is → All IsProper (sort_by_start is)
unfolding sort_by_start
sort_by_start-IsProper [] h = tt
sort_by_start-IsProper (i ∷ is) h =
    insert_by_start-IsProper i (sort_by_start is) h.0 (sort_by_start-IsProper is h.1)

covers-sort_by_start : (is : List TimeInterval) (t : ℕ) → covers (sort_by_start is) t ≡ covers is t
unfolding sort_by_start
covers-sort_by_start [] t = refl
covers-sort_by_start (i ∷ is) t =
    covers-insert_by_start i (sort_by_start is) t ∙ ground (arith, covers-sort_by_start is t)

-- The loop returns the current interval, lengthened, before intervals that lie apart from it.
abbrev Joins : TimeInterval → List TimeInterval → Result (List TimeInterval) → Type 0
Joins current rest r =
    (end : ℕ) × (tail : List TimeInterval) × (r
      ≡ ok (record { start = current.start; end = end } ∷ tail))
    × (current.start < end)
    × All IsProper tail
    × Apart end tail
    × ((t : ℕ)
        → covers (record { start = current.start; end = end } ∷ tail) t ≡ covers (current ∷ rest) t)

abbrev widened : TimeInterval → TimeInterval → TimeInterval
widened current next = record {
  start = current.start;
  end = if ltb next.end current.end then current.end else next.end;
}

new_interval-widened :
    (current next : TimeInterval)
    → IsProper current
    → new_interval current.start (if ltb next.end current.end then current.end else next.end)
      ≡ ok (widened current next)
unfolding new_interval
new_interval-widened current next p = ground arith

merge_from-Joins :
    (rest : List TimeInterval) (current : TimeInterval)
    → IsProper current
    → All IsProper rest
    → Rises current.start rest
    → Joins current rest (merge_from current rest)
unfolding merge_from
merge_from-Joins [] current p h r = (current.end, [], refl, p, tt, tt, λ t. refl)
merge_from-Joins (next ∷ rest) current p h r = elim (Bool-cases (leb next.start current.end)) [
  | inl e ↦
      let (end, tail, eq, proper, all, apart, same) =
        merge_from-Joins rest (widened current next) (ground arith) h.1
          (Rises-weaken rest r.0 r.1) in
      (
        end,
        tail,
        rw (e, new_interval-widened current next p) eq,
        proper,
        all,
        apart,
        λ t. ground (arith, same t),
      )
  | inr e ↦
      let (end, tail, eq, proper, all, apart, same) = merge_from-Joins rest next h.0 h.1 r.1 in
      (
        current.end,
        record { start = next.start; end = end } ∷ tail,
        rw (e, eq) refl,
        p,
        (proper, all),
        (ground arith, apart),
        λ t. ground (arith, same t),
      )
]

-- The result of `merge`: proper intervals with a gap between each two, on the same points.
abbrev pub Unites : List TimeInterval → Result (List TimeInterval) → Type 0
Unites is r =
    (merged : List TimeInterval) × (r ≡ ok merged)
    × All IsProper merged
    × AreSeparate merged
    × ((t : ℕ) → covers merged t ≡ covers is t)

merge_sorted-Unites :
    (is : List TimeInterval) → All IsProper is → Rises 0 is → Unites is (merge_sorted is)
unfolding merge_sorted
merge_sorted-Unites [] h r = ([], refl, tt, tt, λ t. refl)
merge_sorted-Unites (i ∷ is) h r =
    let (end, tail, eq, proper, all, apart, same) = merge_from-Joins is i h.0 h.1 r.1 in
    (record { start = i.start; end = end } ∷ tail, eq, (proper, all), apart, same)

-- Merging proper intervals never throws; the result is in order, its intervals are proper and
-- have a gap between each two, and it covers the same moments.
pub merge-Unites : (is : List TimeInterval) → All IsProper is → Unites is (merge is)
unfolding merge
merge-Unites [] h = ([], refl, tt, tt, λ t. refl)
merge-Unites (i ∷ []) h = (i ∷ [], refl, h, tt, λ t. refl)
merge-Unites (i ∷ j ∷ is) h =
    let all = i ∷ j ∷ is in
    let (merged, eq, proper, apart, same) =
      merge_sorted-Unites (sort_by_start all) (sort_by_start-IsProper all h)
        (Rises-sort_by_start all) in
    (merged, eq, proper, apart, λ t. same t ∙ covers-sort_by_start all t)
