-- ===== src/Availability/Tests.antt =====
-- Tests of the slots, and instances of their theorems.
use playhub_playbooking.Common.{
  All, List, Result, [], arith, codes, err, false, filter, map, none, ok, refl, some, ℕ, ◌*◌, ◌+◌,
  ◌-◌, ◌/◌, ◌∷◌, ◌≡◌,
}
use playhub_playbooking.Availability.{
  Slot, after_colon, block_matches, booking_matches, day_interval, get_availability,
  opening_interval, opening_intervals, parse_int, recurring_interval, slots_in, slots_of, slots_on,
  taken_intervals,
}
use playhub_playbooking.Availability.Clear.{IsClear, get_availability-IsClear}
use playhub_playbooking.Availability.Offer.{open_less, slots_on-IsFree}
use playhub_playbooking.Availability.Slots.{IsFree}
use playhub_playbooking.Calendar.{thursday}
use playhub_playbooking.Calendar.Utc.{day, hour, utc}
use playhub_playbooking.Common.ListDatabase.{list_database}
use playhub_playbooking.Interval.{TimeInterval, merge, new_interval, subtract_many}
use playhub_playbooking.Pricing.{PricingResult}
use playhub_playbooking.Pricing.Tests.{pricing_program, table}
use playhub_playbooking.Schema.{
  AvailabilityBlock, Booking, BookingStatus, Facility, FacilityStatus, OperatingHours, Venue,
  VenueStatus, confirmed,
}

abbrev nine_to_ten : OperatingHours
nine_to_ten = record {
  day_of_week = thursday;
  opening_time = codes "08:00";
  closing_time = codes "12:30";
  is_closed = false;
}

abbrev night : OperatingHours
night = record {
  day_of_week = thursday;
  opening_time = codes "22:00";
  closing_time = codes "02:00";
  is_closed = false;
}

abbrev pub venue : Venue
venue = record {
  id = 3;
  organization_id = 5;
  status = VenueStatus.active;
  timezone = utc;
  operating_hours = nine_to_ten ∷ night ∷ [];
}

abbrev pub facility : Facility
facility = record {
  id = 7;
  name = "court";
  status = FacilityStatus.active;
  default_slot_duration = 60;
  venue = venue;
}

abbrev pub booking : ℕ → ℕ → ℕ → BookingStatus → Booking
booking id start end status = record {
  id = id;
  organization_id = 5;
  facility_id = 7;
  user_id = 11;
  start_time = start;
  end_time = end;
  status = status;
  total_price = some 60000;
  currency = "INR";
  idempotency_key = none;
  price_snapshot = [];
  cancelled_at = none;
  cancel_reason = none;
}

-- Confirmed from 9:00 to 10:00, cancelled from 11:00 to 12:00, and confirmed after midnight.
abbrev bookings : List Booking
bookings =
    booking 1 (9 * hour) (10 * hour) confirmed
    ∷ booking 2 (11 * hour) (12 * hour) BookingStatus.cancelled
    ∷ booking 3 (day + hour / 2) (day + 3 * hour / 2) confirmed
    ∷ []

-- Closed from 10:00 to 10:30.
abbrev blocks : List AvailabilityBlock
blocks =
    record {
      facility_id = 7;
      start_time = 10 * hour;
      end_time = 10 * hour + hour / 2;
      is_recurring = false;
      day_of_week = none;
    }
    ∷ []

unfoldable pub availability_program : Unit {0}
unfolding pricing_program get_availability slots_on slots_of slots_in taken_intervals
    opening_intervals booking_matches block_matches recurring_interval opening_interval day_interval
    after_colon parse_int new_interval merge subtract_many
availability_program = tt

abbrev offered : Result (List Slot)
offered =
    get_availability list_database (facility ∷ []) table blocks bookings 5 7 (some (5 * hour))
      (some hour)

abbrev times : Result (List Slot) → List (ℕ × ℕ)
times (err e) = []
times (ok slots) = map (λ s. (s.start_time, s.end_time)) slots

-- The last two slots lie in the night hours of the next calendar day, where the query for the
-- bookings of the day does not look: the second of them overlaps booking 3.
get_availability-times :
    times offered
    ≡ (8 * hour, 9 * hour)
      ∷ (10 * hour + hour / 2, 11 * hour + hour / 2)
      ∷ (11 * hour + hour / 2, 12 * hour + hour / 2)
      ∷ (22 * hour, 23 * hour)
      ∷ (23 * hour, 24 * hour)
      ∷ (24 * hour, 25 * hour)
      ∷ (25 * hour, 26 * hour)
      ∷ []
unfolding availability_program
get_availability-times = refl

abbrev from : ℕ → ℕ → TimeInterval
from a b = record { start = a; end = b }

-- 600 rupees an hour.
abbrev flat : ℕ → ℕ → Result PricingResult
flat start end =
    ok (record { total_price = 60000 * (end - start); currency = "INR"; breakdown = [] })

abbrev open_hours : List TimeInterval
open_hours = from (8 * hour) (12 * hour + hour / 2) ∷ from (22 * hour) (26 * hour) ∷ []

abbrev taken : List TimeInterval
taken = from (10 * hour) (10 * hour + hour / 2) ∷ from (9 * hour) (10 * hour) ∷ []

slots_on-IsFree_example :
    (slots : List Slot) × (slots_on flat facility 0 hour blocks bookings ≡ ok slots)
    × All (IsFree flat hour (open_less open_hours taken)) slots
unfolding availability_program
slots_on-IsFree_example =
    slots_on-IsFree flat facility 0 hour blocks bookings open_hours taken (omega arith) refl refl

abbrev offered_slots : List Slot
offered_slots = elim offered [ ok slots ↦ slots | err e ↦ [] ]

get_availability-IsClear_example :
    All (λ s. All (IsClear s) (filter (booking_matches 7 0 day) bookings)) offered_slots
unfolding availability_program
get_availability-IsClear_example =
    get_availability-IsClear list_database (facility ∷ []) table blocks bookings 5 7 (5 * hour)
      (some hour) facility offered_slots refl (omega arith) refl
