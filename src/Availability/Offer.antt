-- ===== src/Availability/Offer.antt =====
-- The slots that `getAvailability` of backend/src/availability/availability.service.ts offers.
use playhub_playbooking.Common.{
  All, All-map_of, Bool, List, Result, [], arith, not, ok, refl, ℕ, ◌&&◌, ◌<◌, ◌>>=◌, ◌∷◌, ◌≡◌,
}
use playhub_playbooking.Availability.{Slot, opening_intervals, slots_of, slots_on, taken_intervals}
use playhub_playbooking.Availability.Free.{opening_intervals-IsProper, taken_intervals-IsProper}
use playhub_playbooking.Availability.Slots.{IsFree, slots_of-IsFree}
use playhub_playbooking.Interval.{IsProper, TimeInterval, merge, subtract_many}
use playhub_playbooking.Interval.Merge.{merge-Unites}
use playhub_playbooking.Interval.Points.{covers}
use playhub_playbooking.Interval.Subtract.{subtract_many-Removes}
use playhub_playbooking.Pricing.{PricingResult}
use playhub_playbooking.Schema.{AvailabilityBlock, Booking, Facility}

-- Open, and not taken.
abbrev pub open_less : List TimeInterval → List TimeInterval → ℕ → Bool
open_less open_hours taken t = covers open_hours t && not (covers taken t)

slots_on-nil :
    (quote : ℕ → ℕ → Result PricingResult) (facility : Facility) (date duration : ℕ)
    (blocks : List AvailabilityBlock) (bookings : List Booking)
    → opening_intervals facility.venue.timezone date facility.venue.operating_hours ≡ ok []
    → slots_on quote facility date duration blocks bookings ≡ ok []
unfolding slots_on
slots_on-nil quote facility date duration blocks bookings e = rw e refl

-- What is computed once there are opening hours.
abbrev from_hours :
    (ℕ → ℕ → Result PricingResult) → ℕ → List TimeInterval → List TimeInterval → Result (List Slot)
from_hours quote duration open_hours taken = do
  merged ← merge open_hours
  available ← subtract_many merged taken
  slots_of quote duration available

slots_on-cons :
    (quote : ℕ → ℕ → Result PricingResult) (facility : Facility) (date duration : ℕ)
    (blocks : List AvailabilityBlock) (bookings : List Booking) (i : TimeInterval)
    (is taken : List TimeInterval)
    → opening_intervals facility.venue.timezone date facility.venue.operating_hours ≡ ok (i ∷ is)
    → taken_intervals facility.venue.timezone date facility.id blocks bookings ≡ ok taken
    → slots_on quote facility date duration blocks bookings
      ≡ from_hours quote duration (i ∷ is) taken
unfolding slots_on
slots_on-cons quote facility date duration blocks bookings i is taken e k = rw (e, k) refl

from_hours-IsFree :
    (quote : ℕ → ℕ → Result PricingResult) (duration : ℕ) (open_hours taken : List TimeInterval)
    → 0 < duration
    → All IsProper open_hours
    → All IsProper taken
    → (slots : List Slot) × (from_hours quote duration open_hours taken ≡ ok slots)
      × All (IsFree quote duration (open_less open_hours taken)) slots
from_hours-IsFree quote duration open_hours taken positive p q =
    let (merged, em, pm, apart, same) = merge-Unites open_hours p in
    let (left, el, pl, points) = subtract_many-Removes taken merged pm q in
    let (slots, es, all) = slots_of-IsFree quote duration left positive pl in
    (
      slots,
      rw (em, el) es,
      All-map_of slots
          (λ s (len, free, quoted, e, price, breakdown).
            (len, (λ t h. ground (arith, free t h, points t, same t)), quoted, e, price, breakdown))
          all,
    )

-- For a duration above zero, once the opening hours and what is taken are computed without an
-- error, the slots are computed without an error: no loop runs out of fuel. Every slot has the
-- duration asked for, each of its moments is within the opening hours and in no block or booking
-- that was loaded, and its price and breakdown are those quoted for exactly its time.
pub slots_on-IsFree :
    (quote : ℕ → ℕ → Result PricingResult) (facility : Facility) (date duration : ℕ)
    (blocks : List AvailabilityBlock) (bookings : List Booking)
    (open_hours taken : List TimeInterval)
    → 0 < duration
    → opening_intervals facility.venue.timezone date facility.venue.operating_hours ≡ ok open_hours
    → taken_intervals facility.venue.timezone date facility.id blocks bookings ≡ ok taken
    → (slots : List Slot) × (slots_on quote facility date duration blocks bookings ≡ ok slots)
      × All (IsFree quote duration (open_less open_hours taken)) slots
slots_on-IsFree quote facility date duration blocks bookings [] taken positive e k =
    ([], slots_on-nil quote facility date duration blocks bookings e, tt)
slots_on-IsFree quote facility date duration blocks bookings (i ∷ is) taken positive e k =
    rw (slots_on-cons quote facility date duration blocks bookings i is taken e k) (
      from_hours-IsFree quote duration (i ∷ is) taken positive
        (opening_intervals-IsProper facility.venue.timezone date facility.venue.operating_hours
          (i ∷ is) e)
        (taken_intervals-IsProper facility.venue.timezone date facility.id blocks bookings taken k))
