-- ===== src/Bookings.antt =====
-- backend/src/bookings/bookings.service.ts with backend/src/bookings/qr.service.ts: the life of a
-- booking. A request runs alone on the tables that it reads and writes, as under a serializable
-- transaction; one that throws leaves them as they were. The events are those that are emitted
-- after the transaction, with their identifiers. `db` is the database client, `now` the clock,
-- `new_id` the identifier that the database gives a new row.
pub mod Types
pub mod Conflicts
pub mod Transitions
pub mod Create
pub mod Progress
pub mod Cancel
pub mod CheckIns
pub mod Beside
pub mod Reschedule
pub mod History
mod Tests
use Prim.Native.String.{String}
use playhub_playbooking.Common.{
  Bool, List, Option, Result, [], any, bad_request, filter, if◌then◌else◌, leb, ltb, none, not,
  not_found, ok, or_throw, some, throw_if, true, ℕ, ◌&&◌, ◌-◌, ◌==◌, ◌>>=◌, ◌>>◌, ◌||◌, ◌∷◌,
}
use playhub_playbooking.Availability.{Slot, get_availability}
use playhub_playbooking.Bookings.Types.{Store}
use playhub_playbooking.Common.Database.{Database}
use playhub_playbooking.Schema.{
  Booking, BookingStatus, Facility, Payment, cancelled, captured, checked_in, completed, confirmed,
  is_active, no_show, pending, rejected, ◌=b◌, ◌=p◌,
}

-- The transitions that `validateStatusTransition` allows.
unfoldable pub allowed_transitions : BookingStatus → List BookingStatus
allowed_transitions BookingStatus.pending = confirmed ∷ BookingStatus.cancelled ∷ rejected ∷ []
allowed_transitions confirmed = checked_in ∷ BookingStatus.cancelled ∷ no_show ∷ []
allowed_transitions checked_in = completed ∷ []
allowed_transitions rejected = []
allowed_transitions BookingStatus.cancelled = []
allowed_transitions no_show = []
allowed_transitions completed = []

unfoldable pub validate_status_transition : BookingStatus → BookingStatus → Result (Unit {0})
unfolding allowed_transitions
validate_status_transition current next =
    if current =b next
    then ok tt
    else throw_if (not (any (λ s. s =b next) (allowed_transitions current)))
        (bad_request "Invalid booking status transition")

-- The `where` of the query for overlapping bookings.
unfoldable pub is_overlap : ℕ → ℕ → ℕ → Booking → Bool
is_overlap facility_id start end b =
    b.facility_id == facility_id
    && is_active b.status
    && ltb b.start_time end
    && ltb start b.end_time

-- `DateTime.fromISO` of both texts, `none` for an invalid one, and the three checks on them.
unfoldable pub checked_times : ℕ → String → Option ℕ → Option ℕ → Result (ℕ × ℕ)
checked_times now past start end = do
  s ← or_throw start (bad_request "Invalid date format")
  e ← or_throw end (bad_request "Invalid date format")
  throw_if (leb e s) (bad_request "Start time must be before end time")
  throw_if (ltb s now) (bad_request past)
  ok (s, e)

abbrev pub opt_matches : Option ℕ → ℕ → Bool
opt_matches none id = true
opt_matches (some user_id) id = id == user_id

unfoldable pub find_one : Database → Store → ℕ → ℕ → Option ℕ → Result Booking
find_one db store organization_id id user_id =
    or_throw
      (db.find_first
        (λ (b : Booking).
          b.id == id && b.organization_id == organization_id && opt_matches user_id b.user_id)
        store.bookings)
      (not_found "Booking not found or access denied")

-- The payments that a booking includes.
abbrev pub payments_of : Store → Booking → List Payment
payments_of store booking = filter (λ p. p.booking_id == booking.id) store.payments

abbrev pub has_captured : Store → Booking → Bool
has_captured store booking = any (λ p. p.status =p captured) (payments_of store booking)

abbrev pub facility_of : Database → Store → Booking → Option Facility
facility_of db store booking = db.find_first (λ f. f.id == booking.facility_id) store.facilities

-- A slot that is the time asked for, or covers it.
unfoldable pub is_available : List Slot → ℕ → ℕ → Bool
is_available slots start end =
    any (λ s. s.start_time == start && s.end_time == end) slots
    || any (λ s. leb s.start_time start && leb end s.end_time) slots

abbrev pub availability : Database → Store → ℕ → ℕ → ℕ → ℕ → Result (List Slot)
availability db store organization_id facility_id start end =
    get_availability db store.facilities store.rules store.blocks store.bookings organization_id
      facility_id (some start) (some (end - start))
