-- ===== src/Interval/Tests.antt =====
-- Tests of the intervals, and instances of their theorems.
use playhub_playbooking.Common.{◌≡◌, ℕ, List, [], ◌∷◌, refl, ok, arith}
use playhub_playbooking.Interval.{TimeInterval, subtract_many, merge}
use playhub_playbooking.Interval.Points.{covers}
use playhub_playbooking.Interval.Subtract.{Removes, subtract_many-Removes}
use playhub_playbooking.Interval.Merge.{Unites, merge-Unites}

abbrev from : ℕ → ℕ → TimeInterval
from a b = record { start = a; end = b }

-- An open day from 8 to 22, with two overlapping bookings and one at the end.
abbrev day : List TimeInterval
day = from 8 22 ∷ []

abbrev taken : List TimeInterval
taken = from 10 12 ∷ from 11 13 ∷ from 20 22 ∷ []

subtract_many-day : subtract_many day taken ≡ ok (from 8 10 ∷ from 13 20 ∷ [])
unfolding subtract_many
subtract_many-day = refl

abbrev shifts : List TimeInterval
shifts = from 14 18 ∷ from 6 10 ∷ from 10 11 ∷ from 15 16 ∷ []

merge-shifts : merge shifts ≡ ok (from 6 11 ∷ from 14 18 ∷ [])
unfolding merge
merge-shifts = refl

subtract_many-Removes_example : Removes day (covers taken) (subtract_many day taken)
subtract_many-Removes_example = subtract_many-Removes taken day (omega arith) (omega arith)

merge-Unites_example : Unites shifts (merge shifts)
merge-Unites_example = merge-Unites shifts (omega arith)
