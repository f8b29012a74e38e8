-- ===== src/Calendar.antt =====
-- What the services use of the date library (luxon, not part of the repository), in one time
-- zone. A moment is its count of milliseconds; a time of day is a text "HH:mm", as its character
-- codes; a day is the moment at which it starts.
pub mod Utc
use playhub_playbooking.Common.{
  ℕ, ◌<◌, Bool, true, false, ◌&&◌, ◌||◌, List, [], ◌∷◌, ltb, ◌==◌, not, Option, none, some,
}

pub data DayOfWeek : Type 0 where
  monday tuesday wednesday thursday friday saturday sunday : DayOfWeek

abbrev pub day_index : DayOfWeek → ℕ
day_index monday = 0
day_index tuesday = 1
day_index wednesday = 2
day_index thursday = 3
day_index friday = 4
day_index saturday = 5
day_index sunday = 6

abbrev pub day_eq : DayOfWeek → DayOfWeek → Bool
day_eq a b = day_index a == day_index b

abbrev pub minute : ℕ
minute = 60000

-- The zone of a venue.
pub record Zone : Type 0 where
  -- weekdayLong, in capitals
  pub weekday : ℕ → DayOfWeek
  -- toFormat('HH:mm')
  pub to_hh_mm : ℕ → List ℕ
  -- startOf('day')
  pub start_of_day : ℕ → ℕ
  -- set({ hour, minute }) on the start of a day
  pub set_time : ℕ → ℕ → ℕ → ℕ
  -- plus({ days: 1 })
  pub next_day : ℕ → ℕ
  -- Adding a calendar day moves past every time of the day before.
  pub next_day_later :
      (day hour hour' min min' : ℕ)
      → hour < 24
      → min < 60
      → set_time day hour min < next_day (set_time day hour' min')

-- The `<` of JavaScript on texts: by character codes, a proper prefix first.
unfoldable pub text_ltb : List ℕ → List ℕ → Bool
text_ltb [] [] = false
text_ltb [] (b ∷ bs) = true
text_ltb (a ∷ s) [] = false
text_ltb (a ∷ s) (b ∷ t) = ltb a b || (a == b && text_ltb s t)

abbrev pub text_leb : List ℕ → List ℕ → Bool
text_leb s t = not (text_ltb t s)

-- A text that is neither null nor empty, as a condition reads it.
abbrev pub truthy : Option (List ℕ) → Option (List ℕ)
truthy none = none
truthy (some []) = none
truthy (some (c ∷ s)) = some (c ∷ s)
