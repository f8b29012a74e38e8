-- ===== src/Interval/Subtract.antt =====
-- `subtract` and `subtractMany` of backend/src/common/utils/time-interval.util.ts.
use playhub_playbooking.Common.{
  ℕ, ◌≡◌, Bool, ◌&&◌, not, List, [], ◌∷◌, ◌++◌, ltb, arith, refl, All, Result, ok, All-append,
  if◌then◌else◌,
}
use playhub_playbooking.Interval.{
  TimeInterval, IsProper, overlaps, subtract, subtract_each, subtract_many,
}
use playhub_playbooking.Interval.Points.{holds, covers, covers-append}

-- The parts of an interval before and after another.
abbrev pieces : TimeInterval → TimeInterval → List TimeInterval
pieces i sub =
    (if ltb i.start sub.start then record { start = i.start; end = sub.start } ∷ [] else [])
    ++ (if ltb sub.end i.end then record { start = sub.end; end = i.end } ∷ [] else [])

abbrev remains : TimeInterval → TimeInterval → List TimeInterval
remains i sub = if overlaps i sub then pieces i sub else i ∷ []

subtract-remains : (i sub : TimeInterval) → subtract i sub ≡ ok (remains i sub)
unfolding subtract
subtract-remains i sub = ground arith

remains-IsProper : (i sub : TimeInterval) → IsProper i → All IsProper (remains i sub)
unfolding overlaps
remains-IsProper i sub p = ground arith

covers-remains :
    (i sub : TimeInterval) (t : ℕ)
    → IsProper sub
    → covers (remains i sub) t ≡ (holds i t && not (holds sub t))
unfolding overlaps
covers-remains i sub t p = ground arith

-- Taking `sub` out of a list leaves proper intervals that cover the other points.
abbrev pub Removes : List TimeInterval → (ℕ → Bool) → Result (List TimeInterval) → Type 0
Removes before gone r =
    (after : List TimeInterval) × (r ≡ ok after)
    × All IsProper after
    × ((t : ℕ) → covers after t ≡ (covers before t && not (gone t)))

pub subtract_each-Removes :
    (is : List TimeInterval) (sub : TimeInterval)
    → All IsProper is
    → IsProper sub
    → Removes is (holds sub) (subtract_each is sub)
unfolding subtract_each
subtract_each-Removes [] sub h p = ([], refl, tt, λ t. refl)
subtract_each-Removes (i ∷ is) sub h p =
    let (rest, e, proper, same) = subtract_each-Removes is sub h.1 p in
    (
      remains i sub ++ rest,
      rw (subtract-remains i sub, e) refl,
      All-append IsProper (remains i sub) rest (remains-IsProper i sub h.0) proper,
      λ t. ground (arith, covers-append (remains i sub) rest t, covers-remains i sub t p, same t),
    )

-- Taking many intervals out never throws on proper intervals, and leaves proper intervals that
-- cover exactly the moments that the source covers and none of the intervals taken out does.
pub subtract_many-Removes :
    (subs source : List TimeInterval)
    → All IsProper source
    → All IsProper subs
    → Removes source (covers subs) (subtract_many source subs)
unfolding subtract_many
subtract_many-Removes [] source h p = (source, refl, h, λ t. ground arith)
subtract_many-Removes (sub ∷ subs) source h p =
    let (next, e, proper, same) = subtract_each-Removes source sub h p.0 in
    let (after, e', proper', same') = subtract_many-Removes subs next proper p.1 in
    (after, rw e e', proper', λ t. ground (arith, same t, same' t))
