-- ===== src/Calendar/Utc.antt =====
-- The zone without an offset, for tests: it shows that the law of a zone can hold.
use playhub_playbooking.Common.{ℕ, ◌+◌, ◌*◌, ◌/◌, ◌%◌, ◌<◌, List, [], ◌∷◌, arith, suc, zero}
use playhub_playbooking.Calendar.{
  DayOfWeek, monday, tuesday, wednesday, thursday, friday, saturday, sunday, minute, Zone,
}

abbrev pub hour : ℕ
hour = 60 * minute

abbrev pub day : ℕ
day = 24 * hour

abbrev day_of_index : ℕ → DayOfWeek
day_of_index zero = monday
day_of_index (suc zero) = tuesday
day_of_index (suc (suc zero)) = wednesday
day_of_index (suc (suc (suc zero))) = thursday
day_of_index (suc (suc (suc (suc zero)))) = friday
day_of_index (suc (suc (suc (suc (suc zero))))) = saturday
day_of_index _ = sunday

-- The two digits of a number below 100.
abbrev two_digits : ℕ → List ℕ
two_digits n = (48 + n / 10) ∷ (48 + n % 10) ∷ []

abbrev hh_mm : ℕ → List ℕ
hh_mm t = (48 + t / (10 * hour)) ∷ (48 + t / hour % 10) ∷ 58 ∷ two_digits (t % hour / minute)

pub later :
    (d h h' m m' : ℕ)
    → h < 24
    → m < 60
    → d + h * hour + m * minute < d + h' * hour + m' * minute + day
later d h h' m m' p q = omega arith

-- Day 0 of the count was a Thursday.
abbrev pub utc : Zone
utc = record {
  weekday = λ t. day_of_index ((t / day + 3) % 7);
  to_hh_mm = λ t. hh_mm (t % day);
  start_of_day = λ t. t / day * day;
  set_time = λ d h m. d + h * hour + m * minute;
  next_day = λ t. t + day;
  next_day_later = later;
}
