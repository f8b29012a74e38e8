-- ===== src/Availability.antt =====
-- backend/src/availability/availability.service.ts: the slots of a facility that can be booked on
-- a day, from the operating hours less the blocks and the bookings, each with its price.
pub mod Free
pub mod Slots
pub mod Offer
pub mod Clear
pub mod Tests
use Prim.Native.String.{String}
use playhub_playbooking.Common.{
  Bool, List, Option, Result, [], bad_request, collect, err, error, false, filter, if◌then◌else◌,
  leb, ltb, none, not, not_found, ok, or_throw, some, suc, zero, ℕ, ◌%◌, ◌&&◌, ◌*◌, ◌++◌, ◌+◌, ◌-◌,
  ◌/◌, ◌==◌, ◌>>=◌, ◌>>◌, ◌||◌, ◌∷◌,
}
use playhub_playbooking.Calendar.{DayOfWeek, Zone, day_eq, minute}
use playhub_playbooking.Common.Database.{Database}
use playhub_playbooking.Interval.{TimeInterval, merge, new_interval, subtract_many}
use playhub_playbooking.Pricing.{PricingResult, PricingRule, Segment, calculate_price}
use playhub_playbooking.Schema.{AvailabilityBlock, Booking, Facility, OperatingHours, is_active}

pub record Slot : Type 0 where
  pub start_time : ℕ
  pub end_time : ℕ
  pub price : ℕ
  pub currency : String
  pub breakdown : List Segment

-- `parseInt` on a text that begins with a digit: the number of the leading digits.
unfoldable pub parse_int : ℕ → List ℕ → ℕ
parse_int n [] = n
parse_int n (c ∷ s) =
    let rest = parse_int (10 * n + (c - 48)) s in if leb 48 c && leb c 57 then rest else n

-- `split(':')[1]`
unfoldable pub after_colon : List ℕ → List ℕ
after_colon [] = []
after_colon (c ∷ s) = if c == 58 then s else after_colon s

abbrev pub hour_of : List ℕ → ℕ
hour_of text = parse_int 0 text

abbrev pub minute_of : List ℕ → ℕ
minute_of text = parse_int 0 (after_colon text)

-- Times of a day; an end that is not after the start is one of the next day.
unfoldable pub day_interval : Zone → ℕ → ℕ → Result TimeInterval
unfolding new_interval
day_interval zone start end = new_interval start (if leb end start then zone.next_day end else end)

unfoldable pub opening_interval : Zone → ℕ → OperatingHours → Result TimeInterval
unfolding day_interval parse_int after_colon
opening_interval zone date h =
    day_interval zone (zone.set_time date (hour_of h.opening_time) (minute_of h.opening_time))
      (zone.set_time date (hour_of h.closing_time) (minute_of h.closing_time))

-- `getUTCHours` and `getUTCMinutes`
abbrev pub utc_hours : ℕ → ℕ
utc_hours t = t / (60 * minute) % 24

abbrev pub utc_minutes : ℕ → ℕ
utc_minutes t = t / minute % 60

unfoldable pub recurring_interval : Zone → ℕ → AvailabilityBlock → Result TimeInterval
unfolding day_interval
recurring_interval zone date b =
    day_interval zone (zone.set_time date (utc_hours b.start_time) (utc_minutes b.start_time))
      (zone.set_time date (utc_hours b.end_time) (utc_minutes b.end_time))

abbrev pub on_day : Option DayOfWeek → DayOfWeek → Bool
on_day none day = false
on_day (some d) day = day_eq d day

-- The `where` of the query for the blocks.
unfoldable pub block_matches : ℕ → ℕ → ℕ → DayOfWeek → AvailabilityBlock → Bool
block_matches facility_id from to day b =
    b.facility_id == facility_id
    && ((not b.is_recurring && ltb b.start_time to && ltb from b.end_time)
        || (b.is_recurring && on_day b.day_of_week day))

-- The `where` of the query for the bookings.
unfoldable pub booking_matches : ℕ → ℕ → ℕ → Booking → Bool
booking_matches facility_id from to b =
    b.facility_id == facility_id && is_active b.status && ltb b.start_time to && ltb from b.end_time

-- The open intervals of the day, before anything is taken out.
unfoldable pub opening_intervals : Zone → ℕ → List OperatingHours → Result (List TimeInterval)
opening_intervals zone date hours =
    collect (opening_interval zone date)
      (filter (λ h. day_eq h.day_of_week (zone.weekday date) && not h.is_closed) hours)

-- What is taken out: recurring blocks, fixed blocks and bookings.
unfoldable pub taken_intervals :
    Zone → ℕ → ℕ → List AvailabilityBlock → List Booking → Result (List TimeInterval)
taken_intervals zone date facility_id all_blocks all_bookings = do
  let from = date
  let to = zone.next_day date
  let blocks = filter (block_matches facility_id from to (zone.weekday date)) all_blocks
  let bookings = filter (booking_matches facility_id from to) all_bookings
  recurring ← collect (recurring_interval zone date) (filter (λ b. b.is_recurring) blocks)
  fixed ←
      collect (λ (b : AvailabilityBlock). new_interval b.start_time b.end_time)
        (filter (λ b. not b.is_recurring) blocks)
  booked ← collect (λ (b : Booking). new_interval b.start_time b.end_time) bookings
  ok (recurring ++ (fixed ++ booked))

-- The price of a slot; a slot without one is left out.
abbrev pub priced_slot : ℕ → ℕ → Result PricingResult → List Slot → List Slot
priced_slot start end (err e) slots = slots
priced_slot start end (ok q) slots =
    record {
      start_time = start;
      end_time = end;
      price = q.total_price;
      currency = q.currency;
      breakdown = q.breakdown;
    }
    ∷ slots

-- The `while` loop over one interval, on fuel. `quote` is `calculatePrice` for the facility.
unfoldable pub slots_in : (ℕ → ℕ → Result PricingResult) → ℕ → ℕ → ℕ → ℕ → Result (List Slot)
slots_in quote duration end zero current = err (error "out of fuel")
slots_in quote duration end (suc fuel) current =
    let rest = do
      slots ← slots_in quote duration end fuel (current + duration)
      ok (priced_slot current (current + duration) (quote current (current + duration)) slots)
    in if leb (current + duration) end then rest else ok []

unfoldable pub slots_of :
    (ℕ → ℕ → Result PricingResult) → ℕ → List TimeInterval → Result (List Slot)
slots_of quote duration [] = ok []
slots_of quote duration (i ∷ is) = do
  first ← slots_in quote duration i.end (i.end - i.start + 2) i.start
  rest ← slots_of quote duration is
  ok (first ++ rest)

-- `durationMinutes || facility.defaultSlotDuration`, in milliseconds.
abbrev pub effective_duration : Option ℕ → ℕ → ℕ
effective_duration none default = default * minute
effective_duration (some zero) default = default * minute
effective_duration (some (suc d)) default = suc d

-- The work after the facility and the date are known.
unfoldable pub slots_on :
    (ℕ → ℕ → Result PricingResult)
    → Facility
    → ℕ
    → ℕ
    → List AvailabilityBlock
    → List Booking
    → Result (List Slot)
slots_on quote facility date duration blocks bookings = do
  let zone = facility.venue.timezone
  open_hours ← opening_intervals zone date facility.venue.operating_hours
  let with_hours = do
    merged ← merge open_hours
    taken ← taken_intervals zone date facility.id blocks bookings
    available ← subtract_many merged taken
    slots_of quote duration available
  elim open_hours [ [] ↦ ok [] | _ ∷ _ ↦ with_hours ]

-- The date is the moment that the text stands for, `none` if it is invalid.
unfoldable pub get_availability :
    Database
    → List Facility
    → List PricingRule
    → List AvailabilityBlock
    → List Booking
    → ℕ
    → ℕ
    → Option ℕ
    → Option ℕ
    → Result (List Slot)
get_availability db facilities rules blocks bookings organization_id facility_id date duration = do
  facility ←
      or_throw
        (db.find_first (λ f. f.id == facility_id && f.venue.organization_id == organization_id)
          facilities)
        (not_found "Facility not found or unauthorized")
  moment ← or_throw date (bad_request "Invalid date format")
  let zone = facility.venue.timezone
  slots_on (λ start end. calculate_price db zone rules facility_id start end) facility
      (zone.start_of_day moment) (effective_duration duration facility.default_slot_duration) blocks
      bookings
