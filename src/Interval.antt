-- ===== src/Interval.antt =====
-- backend/src/common/utils/time-interval.util.ts: half-open intervals of time, what is left of
-- them after others are taken out, and their union. A DateTime is its count of milliseconds.
pub mod Points
pub mod Subtract
pub mod Merge
mod Tests
use playhub_playbooking.Common.{
  Bool, List, Result, [], err, error, if◌then◌else◌, leb, ltb, not, ok, ℕ, ◌&&◌, ◌++◌, ◌<◌, ◌>>=◌,
  ◌>>◌, ◌∷◌,
}

pub record TimeInterval : Type 0 where
  pub start : ℕ
  pub end : ℕ

-- The constructor, which throws on an empty or reversed interval.
unfoldable pub new_interval : ℕ → ℕ → Result TimeInterval
new_interval start end =
    if leb end start
    then err (error "Start must be before end")
    else ok (record { start = start; end = end })

unfoldable pub overlaps : TimeInterval → TimeInterval → Bool
overlaps this other = ltb this.start other.end && ltb other.start this.end

unfoldable pub contains : TimeInterval → TimeInterval → Bool
contains this other = leb this.start other.start && leb other.end this.end

-- `result.push(new TimeInterval(start, end))` under its test.
push_if : Bool → ℕ → ℕ → Result (List TimeInterval)
unfolding new_interval
push_if test start end = if test then (new_interval start end >>= λ i. ok (i ∷ [])) else ok []

unfoldable pub subtract : TimeInterval → TimeInterval → Result (List TimeInterval)
unfolding overlaps push_if
subtract this other = if not (overlaps this other) then ok (this ∷ []) else do
  before ← push_if (ltb this.start other.start) this.start other.start
  after ← push_if (ltb other.end this.end) other.end this.end
  ok (before ++ after)

-- The inner loop of `subtractMany`: every interval of `result`, less `sub`.
unfoldable pub subtract_each : List TimeInterval → TimeInterval → Result (List TimeInterval)
unfolding subtract
subtract_each [] sub = ok []
subtract_each (i ∷ is) sub = do
  parts ← subtract i sub
  rest ← subtract_each is sub
  ok (parts ++ rest)

unfoldable pub subtract_many : List TimeInterval → List TimeInterval → Result (List TimeInterval)
unfolding subtract_each
subtract_many result [] = ok result
subtract_many result (sub ∷ subs) = do
  next_result ← subtract_each result sub
  subtract_many next_result subs

-- The stable sort by the start of `merge`.
unfoldable pub insert_by_start : TimeInterval → List TimeInterval → List TimeInterval
insert_by_start i [] = i ∷ []
insert_by_start i (j ∷ js) = if leb i.start j.start then i ∷ j ∷ js else j ∷ insert_by_start i js

unfoldable pub sort_by_start : List TimeInterval → List TimeInterval
unfolding insert_by_start
sort_by_start [] = []
sort_by_start (i ∷ is) = insert_by_start i (sort_by_start is)

-- The loop of `merge` over the sorted rest; what it pushes comes first.
unfoldable pub merge_from : TimeInterval → List TimeInterval → Result (List TimeInterval)
unfolding new_interval
merge_from current [] = ok (current ∷ [])
merge_from current (next ∷ rest) =
    let joined = do
      wider ←
          new_interval current.start (if ltb next.end current.end then current.end else next.end)
      merge_from wider rest
    in let separate = do tail ← merge_from next rest; ok (current ∷ tail)
      in if leb next.start current.end then joined else separate

merge_sorted : List TimeInterval → Result (List TimeInterval)
unfolding merge_from
merge_sorted [] = ok []
merge_sorted (current ∷ rest) = merge_from current rest

unfoldable pub merge : List TimeInterval → Result (List TimeInterval)
unfolding sort_by_start merge_sorted
merge [] = ok []
merge (i ∷ []) = ok (i ∷ [])
merge (i ∷ j ∷ is) = merge_sorted (sort_by_start (i ∷ j ∷ is))

-- What the constructor guarantees.
abbrev pub IsProper : TimeInterval → Type 0
IsProper i = i.start < i.end
