-- ===== src/Interval/Points.antt =====
-- The set of moments that a list of intervals covers: the view in which the operations of
-- backend/src/common/utils/time-interval.util.ts are specified.
use playhub_playbooking.Common.{
  ℕ, ◌≡◌, Bool, false, ◌&&◌, ◌||◌, List, [], ◌∷◌, ◌++◌, ltb, leb, arith, refl,
}
use playhub_playbooking.Interval.{TimeInterval}

abbrev pub holds : TimeInterval → ℕ → Bool
holds i t = leb i.start t && ltb t i.end

abbrev pub covers : List TimeInterval → ℕ → Bool
covers [] t = false
covers (i ∷ is) t = holds i t || covers is t

pub covers-append :
    (xs ys : List TimeInterval) (t : ℕ) → covers (xs ++ ys) t ≡ (covers xs t || covers ys t)
covers-append [] ys t = refl
covers-append (x ∷ xs) ys t = ground (arith, covers-append xs ys t)
