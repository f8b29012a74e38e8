-- ===== src/Availability/Clear.antt =====
-- No slot of backend/src/availability/availability.service.ts is offered against a booking.
use native.Mathlib.Decide.{dec_le}
use playhub_playbooking.Common.{
  >>=-eq-ok, All, All-map_of, Bool, List, Option, Result, [], arith, filter, inl, inr, max, ok,
  refl, some, sym, ℕ, ◌&&◌, ◌<◌, ◌==◌, ◌>>=◌, ◌∙◌, ◌∷◌, ◌≡◌, ◌≤◌, ◌⊎◌,
}
use playhub_playbooking.Availability.{
  Slot, booking_matches, effective_duration, get_availability, opening_intervals, slots_of,
  slots_on, taken_intervals,
}
use playhub_playbooking.Availability.Free.{IsTaken, taken_intervals-IsTaken}
use playhub_playbooking.Availability.Offer.{open_less, slots_on-IsFree}
use playhub_playbooking.Availability.Slots.{IsFree}
use playhub_playbooking.Common.Database.{Database}
use playhub_playbooking.Interval.{TimeInterval, merge, subtract_many}
use playhub_playbooking.Interval.Points.{covers}
use playhub_playbooking.Pricing.{PricingResult, PricingRule, calculate_price}
use playhub_playbooking.Schema.{AvailabilityBlock, Booking, Facility}

-- The slot and the booking have no moment in common.
abbrev pub IsClear : Slot → Booking → Type 0
IsClear s b = (s.end_time ≤ b.start_time) ⊎ (b.end_time ≤ s.start_time)

IsFree-IsClear :
    (quote : ℕ → ℕ → Result PricingResult) (duration : ℕ) (open_hours taken : List TimeInterval)
    (s : Slot) (b : Booking)
    → 0 < duration
    → IsFree quote duration (open_less open_hours taken) s
    → IsTaken (covers taken) b
    → IsClear s b
IsFree-IsClear quote duration open_hours taken s b positive (len, free, _, _, _, _) (proper, h) =
    let t = max s.start_time b.start_time in
    elim (dec_le s.end_time b.start_time) [
      | yes before ↦ inl before
      | no a ↦ elim (dec_le b.end_time s.start_time) [
        | yes after ↦ inr after
        | no c ↦ absurd (ground (arith, free t, h t))
      ]
    ]

slots_on-taken :
    (quote : ℕ → ℕ → Result PricingResult) (facility : Facility) (date duration : ℕ)
    (blocks : List AvailabilityBlock) (bookings : List Booking) (slots : List Slot)
    (open_hours : List TimeInterval)
    → opening_intervals facility.venue.timezone date facility.venue.operating_hours ≡ ok open_hours
    → slots_on quote facility date duration blocks bookings ≡ ok slots
    → (slots ≡ [])
      ⊎ ((taken : List TimeInterval) × (taken_intervals facility.venue.timezone date facility.id
              blocks bookings
            ≡ ok taken))
unfolding slots_on
slots_on-taken quote facility date duration blocks bookings slots [] h e =
    let nothing : ok [] ≡ ok slots = rw h at e in inl (cc)
slots_on-taken quote facility date duration blocks bookings slots (i ∷ is) h e =
    let zone = facility.venue.timezone in
    let finish = λ (merged taken : List TimeInterval).
      subtract_many merged taken >>= λ available. slots_of quote duration available in
    let later = λ (merged : List TimeInterval).
      taken_intervals zone date facility.id blocks bookings >>= finish merged in
    let k : (merge (i ∷ is) >>= later) ≡ ok slots = rw h at e in
    let (merged, em, e') = >>=-eq-ok (merge (i ∷ is)) later k in
    let (taken, et, e'') =
      >>=-eq-ok (taken_intervals zone date facility.id blocks bookings) (finish merged) e' in
    inr (taken, et)

slots_on-opening :
    (quote : ℕ → ℕ → Result PricingResult) (facility : Facility) (date duration : ℕ)
    (blocks : List AvailabilityBlock) (bookings : List Booking) (slots : List Slot)
    → slots_on quote facility date duration blocks bookings ≡ ok slots
    → (open_hours : List TimeInterval) × (opening_intervals facility.venue.timezone date
          facility.venue.operating_hours
        ≡ ok open_hours)
unfolding slots_on
slots_on-opening quote facility date duration blocks bookings slots e =
    let (hours, eh, _) =
      >>=-eq-ok (opening_intervals facility.venue.timezone date facility.venue.operating_hours) _
        e in
    (hours, eh)

slots_on-IsClear :
    (quote : ℕ → ℕ → Result PricingResult) (facility : Facility) (date duration : ℕ)
    (blocks : List AvailabilityBlock) (bookings : List Booking) (slots : List Slot)
    → 0 < duration
    → slots_on quote facility date duration blocks bookings ≡ ok slots
    → All
        (λ s. All (IsClear s) (
          filter
            (booking_matches facility.id date (facility.venue.timezone.next_day date))
            bookings))
        slots
slots_on-IsClear quote facility date duration blocks bookings slots positive e =
    let (hours, eh) = slots_on-opening quote facility date duration blocks bookings slots e in
    elim (slots_on-taken quote facility date duration blocks bookings slots hours eh e) [
      | inl nothing ↦ rw nothing tt
      | inr (taken, et) ↦
          let (slots', e', all) =
            slots_on-IsFree quote facility date duration blocks bookings hours taken positive eh
              et in
          let same : slots' ≡ slots = cc in
          let booked =
            taken_intervals-IsTaken facility.venue.timezone date facility.id blocks bookings taken
              et in
          rw (← same) (
            All-map_of slots'
              (λ s free.
                All-map_of
                  (filter (booking_matches facility.id date (facility.venue.timezone.next_day date))
                    bookings)
                  (λ b is_taken.
                    IsFree-IsClear quote duration hours taken s b positive free is_taken)
                  booked)
              all)
    ]

-- The facility that the request names, of the organization.
abbrev pub is_requested : ℕ → ℕ → Facility → Bool
is_requested organization_id facility_id f =
    f.id == facility_id && f.venue.organization_id == organization_id

get_availability-slots_on :
    (db : Database) (facilities : List Facility) (rules : List PricingRule)
    (blocks : List AvailabilityBlock) (bookings : List Booking)
    (organization_id facility_id moment : ℕ) (duration : Option ℕ) (facility : Facility)
    → db.find_first (is_requested organization_id facility_id) facilities ≡ some facility
    → get_availability db facilities rules blocks bookings organization_id facility_id
        (some moment)
        duration
      ≡ slots_on
          (λ start end. calculate_price db facility.venue.timezone rules facility_id start end)
          facility
          (facility.venue.timezone.start_of_day moment)
          (effective_duration duration facility.default_slot_duration)
          blocks
          bookings
unfolding get_availability
get_availability-slots_on db facilities rules blocks bookings organization_id facility_id moment
      duration facility e =
    rw e refl

-- With a slot duration above zero, no slot that is offered for a day has a moment in common with a
-- pending or confirmed booking of the facility that touches the day, which is the time from its
-- start to the start of the next day.
pub get_availability-IsClear :
    (db : Database) (facilities : List Facility) (rules : List PricingRule)
    (blocks : List AvailabilityBlock) (bookings : List Booking)
    (organization_id facility_id moment : ℕ) (duration : Option ℕ) (facility : Facility)
    (slots : List Slot)
    → db.find_first (is_requested organization_id facility_id) facilities ≡ some facility
    → 0 < effective_duration duration facility.default_slot_duration
    → get_availability db facilities rules blocks bookings organization_id facility_id
        (some moment)
        duration
      ≡ ok slots
    → let date = facility.venue.timezone.start_of_day moment in
      All
        (λ s. All (IsClear s) (
          filter
            (booking_matches facility_id date (facility.venue.timezone.next_day date))
            bookings))
        slots
get_availability-IsClear db facilities rules blocks bookings organization_id facility_id moment
      duration facility slots found positive e =
    let quote =
      λ (start end : ℕ). calculate_price db facility.venue.timezone rules facility_id start end in
    let date = facility.venue.timezone.start_of_day moment in
    let named : facility.id ≡ facility_id = ground (
      arith,
      db.find_first-some (is_requested organization_id facility_id) facilities facility found,
    ) in
    rw (← named) (
      slots_on-IsClear quote facility date
        (effective_duration duration facility.default_slot_duration) blocks bookings slots positive
        (sym (
            get_availability-slots_on db facilities rules blocks bookings organization_id
              facility_id moment duration facility found)
          ∙ e))
