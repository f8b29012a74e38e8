-- ===== src/Bookings/CheckIns.antt =====
-- `checkIn` and `getQrPass` of backend/src/bookings/bookings.service.ts, with the tokens of
-- backend/src/bookings/qr.service.ts. Signing and verifying is the job of a library.
use Prim.Native.String.{String}
use text.Mathlib.Text.{◌==◌ as str_eq}
use playhub_playbooking.Common.{
  >>=-eq-ok, All, Bool-cases, Option, Result, arith, bad_request, forbidden, if◌then◌else◌, inl,
  inr, none, not, ok, or_throw, or_throw-eq-ok, refl, some, throw_if, throw_if-eq-ok, true, ℕ, ◌&&◌,
  ◌==◌, ◌>>=◌, ◌>>◌, ◌∷◌, ◌≡◌,
}
use playhub_playbooking.Bookings.{find_one, validate_status_transition}
use playhub_playbooking.Bookings.Cancel.{same_store-KeepsLife}
use playhub_playbooking.Bookings.Conflicts.{IsConflictFree}
use playhub_playbooking.Bookings.Progress.{KeepsLife, find_one-found, update-KeepsLife}
use playhub_playbooking.Bookings.Transitions.{=b-eq, can_move, validate_status_transition-can_move}
use playhub_playbooking.Bookings.Types.{Store, booking_arrived, booking_event}
use playhub_playbooking.Common.Database.{Database, update_row, update_row-ok}
use playhub_playbooking.Schema.{Booking, checked_in, is_active, ◌=b◌}

-- The claims of a token.
pub record QrPayload : Type 0 where
  pub bid : ℕ
  pub oid : ℕ
  pub purpose : String

-- The token library under the service's secret: `verify` gives the claims of a token that is
-- valid and not expired.
pub record Jwt : Type 0 where
  pub sign : QrPayload → ℕ
  pub verify : ℕ → Option QrPayload

unfoldable pub generate_booking_token : Jwt → ℕ → ℕ → ℕ
generate_booking_token jwt booking_id organization_id =
    jwt.sign (record { bid = booking_id; oid = organization_id; purpose = "booking_checkin" })

abbrev checked_purpose : Option QrPayload → Option (ℕ × ℕ)
checked_purpose none = none
checked_purpose (some p) = if str_eq p.purpose "booking_checkin" then some (p.bid, p.oid) else none

unfoldable pub verify_booking_token : Jwt → ℕ → Option (ℕ × ℕ)
verify_booking_token jwt token = checked_purpose (jwt.verify token)

-- The transaction of `checkIn`, and the event.
unfoldable pub record_arrival : Database → Store → ℕ → ℕ → Booking → Result (Booking × Store)
record_arrival db store organization_id staff_id booking = do
  updated ←
      update_row db (λ (b : Booking). b.id == booking.id && b.organization_id == organization_id)
        (λ b. record b { status = checked_in }) store.bookings
  let b = updated.0
  ok (
    b,
    record store {
      bookings = updated.1;
      check_ins =
          record {
            booking_id = booking.id;
            organization_id = organization_id;
            facility_id = b.facility_id;
            user_id = b.user_id;
            checked_in_by_id = staff_id;
          }
          ∷ store.check_ins;
      events = booking_event booking_arrived b.id b.organization_id b.user_id ∷ store.events;
    },
  )

unfoldable pub check_in : Database → Jwt → Store → ℕ → ℕ → ℕ → Result (Booking × Store)
check_in db jwt store organization_id staff_id qr_token = do
  payload ← or_throw (verify_booking_token jwt qr_token) (bad_request "Invalid or expired QR pass")
  throw_if (not (payload.1 == organization_id))
      (forbidden "This booking belongs to another organization")
  booking ← find_one db store organization_id payload.0 none
  let go =
      validate_status_transition booking.status checked_in
      >> record_arrival db store organization_id staff_id booking
  if booking.status =b checked_in then ok (booking, store) else go

unfoldable pub get_qr_pass : Database → Jwt → Store → ℕ → ℕ → ℕ → Result ℕ
get_qr_pass db jwt store organization_id id user_id = do
  booking ← find_one db store organization_id id (some user_id)
  throw_if (not (is_active booking.status))
      (bad_request "QR pass only available for pending or confirmed bookings")
  ok (generate_booking_token jwt booking.id organization_id)

record_arrival-KeepsLife :
    (db : Database) (store : Store) (organization_id staff_id : ℕ) (booking b : Booking)
    (after : Store)
    → can_move booking.status checked_in ≡ true
    → All (λ a. a.id ≡ booking.id → a ≡ booking) store.bookings
    → IsConflictFree store.bookings
    → record_arrival db store organization_id staff_id booking ≡ ok (b, after)
    → KeepsLife store after × (b.status ≡ checked_in)
unfolding record_arrival
record_arrival-KeepsLife db store organization_id staff_id booking b after moves same free h =
    let p = λ (b : Booking). b.id == booking.id && b.organization_id == organization_id in
    let change = λ (b : Booking). record b { status = checked_in } in
    let (r, er, h1) = >>=-eq-ok (update_row db p change store.bookings) _ h in
    let (row, found, changed, updated) = update_row-ok db p change store.bookings r er in
    (
      update-KeepsLife store after p change booking (cc) (λ a e. ground arith)
          (refl, refl, refl, refl, refl, moves) same free,
      cc,
    )

-- In a table without double bookings, if `checkIn` returns a booking, then afterwards every row is
-- about the same booking, place and time, its status is the same or an allowed next one, and there
-- is still no double booking; and the booking that is returned is checked in.
pub check_in-KeepsLife :
    (db : Database) (jwt : Jwt) (store : Store) (organization_id staff_id qr_token : ℕ)
    (b : Booking) (after : Store)
    → IsConflictFree store.bookings
    → check_in db jwt store organization_id staff_id qr_token ≡ ok (b, after)
    → KeepsLife store after × (b.status ≡ checked_in)
unfolding check_in
check_in-KeepsLife db jwt store organization_id staff_id qr_token b after free h =
    let (payload, ep, h1) = or_throw-eq-ok (verify_booking_token jwt qr_token) _ _ h in
    let (mine, h2) = throw_if-eq-ok (not (payload.1 == organization_id)) _ _ h1 in
    let (booking, eb, h3) = >>=-eq-ok (find_one db store organization_id payload.0 none) _ h2 in
    let (named, same) = find_one-found db store organization_id payload.0 none booking eb free in
    elim (Bool-cases (booking.status =b checked_in)) [
      | inl done ↦
          let unchanged : ◌≡◌ {A = Result (Booking × Store)} (ok (booking, store)) (ok (b, after)) =
            rw done at h3 in
          let has_arrived = =b-eq booking.status checked_in done in
          (same_store-KeepsLife store after booking b unchanged free, cc)
      | inr go ↦
          let e : (validate_status_transition booking.status checked_in
                >> record_arrival db store organization_id staff_id booking)
              ≡ ok (b, after) =
            rw go at h3 in
          let (u, ev, h4) = >>=-eq-ok (validate_status_transition booking.status checked_in) _ e in
          record_arrival-KeepsLife db store organization_id staff_id booking b after
            (validate_status_transition-can_move booking.status checked_in u ev) same free h4
    ]
