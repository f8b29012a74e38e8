-- ===== src/Bookings/Reschedule.antt =====
-- `reschedule` of backend/src/bookings/bookings.service.ts.
use playhub_playbooking.Common.{
  >>=-eq-ok, All, All-of_both, Option, Result, bad_request, conflict, error, false, if-eq,
  if◌then◌else◌, inl, inr, is_some, ltb, none, not, ok, or_throw, or_throw-eq-ok, refl, some,
  throw_if, throw_if-eq-ok, ℕ, ◌&&◌, ◌*◌, ◌==◌, ◌>>=◌, ◌>>◌, ◌||◌, ◌∷◌, ◌≡◌,
}
use playhub_playbooking.Bookings.{
  availability, checked_times, facility_of, find_one, has_captured, is_available, is_overlap,
}
use playhub_playbooking.Bookings.Beside.{Row, moved-AreCompatible}
use playhub_playbooking.Bookings.Cancel.{same_store-KeepsLife}
use playhub_playbooking.Bookings.Conflicts.{AreCompatible, IsConflictFree}
use playhub_playbooking.Bookings.Progress.{find_one-found}
use playhub_playbooking.Bookings.Types.{Store, booking_event, booking_rescheduled}
use playhub_playbooking.Common.Database.{
  AllPairs-update_many, Database, update_many, update_row, update_row-ok,
}
use playhub_playbooking.Pricing.{PricingResult, calculate_price}
use playhub_playbooking.Schema.{Booking, facility_is_active, is_active, venue_is_active}

-- The transaction of `reschedule`, and the event.
unfoldable pub move_booking :
    Database → Store → ℕ → Booking → PricingResult → ℕ → ℕ → Result (Booking × Store)
move_booking db store organization_id booking pricing start end = do
  throw_if
      (is_some (
        db.find_first (λ b. not (b.id == booking.id) && is_overlap booking.facility_id start end b)
          store.bookings))
      (conflict "The requested new slot is already booked")
  slots ← availability db store organization_id booking.facility_id start end
  throw_if (not (is_available slots start end))
      (conflict "Requested time is outside operational hours or blocked")
  updated ←
      update_row db (λ (b : Booking). b.id == booking.id && is_active b.status)
        (λ b. record b {
          start_time = start;
          end_time = end;
          total_price = some (db.to_decimal pricing.total_price);
          price_snapshot = pricing.breakdown;
        })
        store.bookings
  let b = updated.0
  ok (
    b,
    record store {
      bookings = updated.1;
      events = booking_event booking_rescheduled b.id b.organization_id b.user_id ∷ store.events;
    },
  )

-- A price of the tables, in the units of a quote.
abbrev pub stored_price : Option ℕ → ℕ
stored_price none = 0
stored_price (some paise) = paise * 3600000

unfoldable pub reschedule :
    Database → ℕ → Store → ℕ → ℕ → Option ℕ → Option ℕ → Option ℕ → Result (Booking × Store)
reschedule db now store organization_id booking_id new_start new_end user_id = do
  times ← checked_times now "Cannot reschedule to a past time" new_start new_end
  booking ← find_one db store organization_id booking_id user_id
  facility ← or_throw (facility_of db store booking) (error "Facility missing")
  throw_if (not (facility_is_active facility.status) || not (venue_is_active facility.venue.status))
      (bad_request "Facility or Venue is no longer active")
  throw_if (not (is_active booking.status)) (bad_request "Only active bookings can be rescheduled")
  pricing ←
      calculate_price db facility.venue.timezone store.rules booking.facility_id times.0 times.1
  throw_if
      (has_captured store booking && ltb (stored_price booking.total_price) pricing.total_price)
      (bad_request "Cannot reschedule to a more expensive slot after payment")
  let moved = move_booking db store organization_id booking pricing times.0 times.1
  if booking.start_time == times.0 && booking.end_time == times.1
      then ok (booking, store)
      else moved

not-is_some : {A : Type 0} (o : Option A) → is_some o ≡ false → o ≡ none
not-is_some none e = refl
not-is_some (some a) e = cc

move_booking-IsConflictFree :
    (db : Database) (store : Store) (organization_id : ℕ) (booking : Booking)
    (pricing : PricingResult) (start end : ℕ) (b : Booking) (after : Store)
    → All (λ a. a.id ≡ booking.id → a ≡ booking) store.bookings
    → IsConflictFree store.bookings
    → move_booking db store organization_id booking pricing start end ≡ ok (b, after)
    → IsConflictFree after.bookings
unfolding move_booking
move_booking-IsConflictFree db store organization_id booking pricing start end b after same free h =
    let query =
      λ (b : Booking). not (b.id == booking.id) && is_overlap booking.facility_id start end b in
    let change = λ (b : Booking). record b {
      start_time = start;
      end_time = end;
      total_price = some (db.to_decimal pricing.total_price);
      price_snapshot = pricing.breakdown;
    } in
    let p = λ (b : Booking). b.id == booking.id && is_active b.status in
    let (unbooked, h1) = throw_if-eq-ok (is_some (db.find_first query store.bookings)) _ _ h in
    let (slots, es, h2) =
      >>=-eq-ok (availability db store organization_id booking.facility_id start end) _ h1 in
    let (covered, h3) = throw_if-eq-ok (not (is_available slots start end)) _ _ h2 in
    let (r, er, h4) = >>=-eq-ok (update_row db p change store.bookings) _ h3 in
    let (row, found, _, updated) = update_row-ok db p change store.bookings r er in
    let beside =
      db.find_first-none query store.bookings
        (not-is_some (db.find_first query store.bookings) unbooked) in
    let final : after.bookings ≡ update_many p change store.bookings = cc in
    rw final (
      AllPairs-update_many AreCompatible
        (Row booking start end change (λ a. (refl, refl, refl, refl, refl))) p change store.bookings
        (λ a b.
          moved-AreCompatible booking start end change (λ a. (refl, refl, refl, refl, refl)) a b)
        (All-of_both store.bookings (λ a x y. (x, y)) beside same) free)

-- In a table without double bookings, if `reschedule` returns a booking, then afterwards there is
-- still no double booking.
pub reschedule-IsConflictFree :
    (db : Database) (now : ℕ) (store : Store) (organization_id booking_id : ℕ)
    (new_start new_end user_id : Option ℕ) (b : Booking) (after : Store)
    → IsConflictFree store.bookings
    → reschedule db now store organization_id booking_id new_start new_end user_id ≡ ok (b, after)
    → IsConflictFree after.bookings
unfolding reschedule
reschedule-IsConflictFree db now store organization_id booking_id new_start new_end user_id b after
      free h =
    let ((s, e), et, h1) =
      >>=-eq-ok (checked_times now "Cannot reschedule to a past time" new_start new_end) _ h in
    let (booking, eb, h2) = >>=-eq-ok (find_one db store organization_id booking_id user_id) _ h1 in
    let (facility, ef, h3) = or_throw-eq-ok (facility_of db store booking) _ _ h2 in
    let (still_open, h4) =
      throw_if-eq-ok
        (not (facility_is_active facility.status) || not (venue_is_active facility.venue.status)) _
        _ h3 in
    let (live, h5) = throw_if-eq-ok (not (is_active booking.status)) _ _ h4 in
    let (pricing, ep, h6) =
      >>=-eq-ok (calculate_price db facility.venue.timezone store.rules booking.facility_id s e) _
        h5 in
    let (cheaper, h7) =
      throw_if-eq-ok
        (has_captured store booking && ltb (stored_price booking.total_price) pricing.total_price) _
        _ h6 in
    let (named, same) =
      find_one-found db store organization_id booking_id user_id booking eb free in
    elim (if-eq (booking.start_time == s && booking.end_time == e) (ok (booking, store)) _ h7) [
      | inl (_, already) ↦ (same_store-KeepsLife store after booking b already free).1
      | inr (_, moving) ↦
          move_booking-IsConflictFree db store organization_id booking pricing s e b after same free
            moving
    ]
