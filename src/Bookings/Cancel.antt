-- ===== src/Bookings/Cancel.antt =====
-- `cancel` of backend/src/bookings/bookings.service.ts.
use Prim.Native.String.{String}
use playhub_playbooking.Common.{
  >>=-eq-ok, All, All-map_of, Bool-cases, List, Option, Result, [], ap, arith, false, if◌then◌else◌,
  inl, inr, not, ok, refl, some, subst, sym, true, ℕ, ◌&&◌, ◌==◌, ◌>>=◌, ◌>>◌, ◌||◌, ◌∙◌, ◌∷◌, ◌≡◌,
}
use playhub_playbooking.Bookings.{find_one, has_captured, validate_status_transition}
use playhub_playbooking.Bookings.Conflicts.{IsConflictFree}
use playhub_playbooking.Bookings.Progress.{
  KeepsLife, find_one-IsAmong, find_one-found, update-KeepsLife,
}
use playhub_playbooking.Bookings.Transitions.{
  =b-eq, Progresses, Rowwise, can_move, can_move_refl, validate_status_transition-can_move,
}
use playhub_playbooking.Bookings.Types.{Store, booking_cancelled}
use playhub_playbooking.Common.Database.{Database, update_many, update_row, update_row-ok}
use playhub_playbooking.Common.Queries.{
  IsAmong, find_first-IsAmong, update_many-IsAmong, update_many-makes,
}
use playhub_playbooking.Schema.{
  Booking, BookingStatus, Payment, PaymentStatus, captured, is_active, refunded, ◌=b◌, ◌=p◌,
}

-- The transaction of `cancel`: the status is checked again, and payments that are not captured
-- or refunded are cancelled.
unfoldable pub cancel_booking : Database → ℕ → Store → ℕ → Option String → Result (Booking × Store)
cancel_booking db now store id reason = do
  updated ←
      update_row db (λ (b : Booking). b.id == id && is_active b.status)
        (λ b. record b {
          status = BookingStatus.cancelled;
          cancelled_at = some now;
          cancel_reason = reason;
        })
        store.bookings
  let b = updated.0
  let payments =
      update_many
        (λ (p : Payment).
          p.booking_id == id
          && p.organization_id == b.organization_id
          && not (p.status =p captured || p.status =p refunded))
        (λ p. record p { status = PaymentStatus.cancelled }) store.payments
  ok (
    b,
    record store {
      bookings = updated.1;
      payments = payments;
      events =
          booking_cancelled b.id b.organization_id b.user_id (has_captured store b) ∷ store.events;
    },
  )

unfoldable pub cancel :
    Database → ℕ → Store → ℕ → ℕ → Option String → Option ℕ → Result (Booking × Store)
cancel db now store organization_id id reason user_id = do
  booking ← find_one db store organization_id id user_id
  let go =
      validate_status_transition booking.status BookingStatus.cancelled
      >> cancel_booking db now store id reason
  if booking.status =b BookingStatus.cancelled then ok (booking, store) else go

unchanged : (bookings : List Booking) → Rowwise Progresses bookings bookings
unchanged [] = tt
unchanged (a ∷ rest) = ((refl, refl, refl, refl, refl, can_move_refl a.status), unchanged rest)

unchanged-KeepsLife :
    (store after : Store)
    → after.bookings ≡ store.bookings
    → IsConflictFree store.bookings
    → KeepsLife store after
unchanged-KeepsLife store after same free = rw same (unchanged store.bookings, free)

-- A request that changes nothing.
pub same_store-KeepsLife :
    (store after : Store) (booking b : Booking)
    → ◌≡◌ {A = Result (Booking × Store)} (ok (booking, store)) (ok (b, after))
    → IsConflictFree store.bookings
    → KeepsLife store after
same_store-KeepsLife store after booking b e free = unchanged-KeepsLife store after (cc) free

-- The booking is a row of the table with the identifier, and every such row is cancelled.
abbrev pub IsCancelled : ℕ → Booking → List Booking → Type 0
IsCancelled id b bookings =
    IsAmong b bookings
    × (b.id ≡ id)
    × (b.status ≡ BookingStatus.cancelled)
    × All (λ a. a.id ≡ id → a.status ≡ BookingStatus.cancelled) bookings

cancel_row-IsCancelled :
    (db : Database) (store : Store) (id : ℕ) (change : Booking → Booking) (booking row : Booking)
    → booking.id ≡ id
    → ((a : Booking) → ((change a).id ≡ a.id) × ((change a).status ≡ BookingStatus.cancelled))
    → All (λ a. a.id ≡ booking.id → a ≡ booking) store.bookings
    → db.find_first (λ (b : Booking). b.id == id && is_active b.status) store.bookings ≡ some row
    → IsCancelled id
        (change row)
        (update_many (λ (b : Booking). b.id == id && is_active b.status) change store.bookings)
cancel_row-IsCancelled db store id change booking row named cancels same found =
    let p = λ (b : Booking). b.id == id && is_active b.status in
    let fits = db.find_first-some p store.bookings row found in
    let is_row : row.id ≡ booking.id → row ≡ booking =
      db.find_first-All (λ a. a.id ≡ booking.id → a ≡ booking) p store.bookings row found same in
    let row_id : row.id ≡ id = ground arith in
    let row_eq : row ≡ booking = is_row (row_id ∙ sym named) in
    let booking_fits : p booking ≡ true = subst (λ a. p a ≡ true) row_eq fits in
    (
      update_many-IsAmong p change store.bookings row fits
          (find_first-IsAmong db p store.bookings row found),
      (cancels row).0 ∙ row_id,
      (cancels row).1,
      update_many-makes (λ a. a.id ≡ id → a.status ≡ BookingStatus.cancelled)
          (λ a. a.id ≡ booking.id → a ≡ booking) p change store.bookings (λ a _. (cancels a).1)
          (λ a is_it unfit at_id.
            let k = subst (λ c. p c ≡ false) (is_it (at_id ∙ sym named)) unfit in absurd (cc))
          same,
    )

cancel_booking-KeepsLife :
    (db : Database) (now : ℕ) (store : Store) (id : ℕ) (reason : Option String)
    (booking b : Booking) (after : Store)
    → booking.id ≡ id
    → can_move booking.status BookingStatus.cancelled ≡ true
    → All (λ a. a.id ≡ booking.id → a ≡ booking) store.bookings
    → IsConflictFree store.bookings
    → cancel_booking db now store id reason ≡ ok (b, after)
    → KeepsLife store after × IsCancelled id b after.bookings
unfolding cancel_booking
cancel_booking-KeepsLife db now store id reason booking b after named moves same free h =
    let p = λ (b : Booking). b.id == id && is_active b.status in
    let change = λ (b : Booking). record b {
      status = BookingStatus.cancelled;
      cancelled_at = some now;
      cancel_reason = reason;
    } in
    let (r, er, h1) = >>=-eq-ok (update_row db p change store.bookings) _ h in
    let (row, found, changed, updated) = update_row-ok db p change store.bookings r er in
    let rows : after.bookings ≡ update_many p change store.bookings = cc in
    let returned : b ≡ change row = cc in
    (
      update-KeepsLife store after p change booking rows (λ a e. ground arith)
          (refl, refl, refl, refl, refl, moves) same free,
      rw (rows, returned)
          (cancel_row-IsCancelled db store id change booking row named (λ a. (refl, refl)) same
            found),
    )

-- In a table without double bookings, if `cancel` returns a booking, then that is a row of the table
-- afterwards, with the identifier, and every row with the identifier is cancelled; every row is about
-- the same booking, place and time as before, and its status is the same or an allowed next one; and
-- there is still no double booking.
pub cancel-KeepsLife :
    (db : Database) (now : ℕ) (store : Store) (organization_id id : ℕ) (reason : Option String)
    (user_id : Option ℕ) (b : Booking) (after : Store)
    → IsConflictFree store.bookings
    → cancel db now store organization_id id reason user_id ≡ ok (b, after)
    → KeepsLife store after × IsCancelled id b after.bookings
unfolding cancel
cancel-KeepsLife db now store organization_id id reason user_id b after free h =
    let (booking, eb, h1) = >>=-eq-ok (find_one db store organization_id id user_id) _ h in
    let (named, same) = find_one-found db store organization_id id user_id booking eb free in
    elim (Bool-cases (booking.status =b BookingStatus.cancelled)) [
      | inl done ↦
          let unchanged : ◌≡◌ {A = Result (Booking × Store)} (ok (booking, store)) (ok (b, after)) =
            rw done at h1 in
          let is_cancelled = =b-eq booking.status BookingStatus.cancelled done in
          let rows : after.bookings ≡ store.bookings = cc in
          let returned : b ≡ booking = cc in
          let still =
            All-map_of store.bookings
              (λ a is_it at_id.
                ap (λ (b : Booking). b.status) (is_it (at_id ∙ sym named)) ∙ is_cancelled)
              same in
          (
            same_store-KeepsLife store after booking b unchanged free,
            rw (rows, returned)
                (
                  find_one-IsAmong db store organization_id id user_id booking eb,
                  named,
                  is_cancelled,
                  still,
                ),
          )
      | inr go ↦
          let e : (validate_status_transition booking.status BookingStatus.cancelled
                >> cancel_booking db now store id reason)
              ≡ ok (b, after) =
            rw go at h1 in
          let (u, ev, h2) =
            >>=-eq-ok (validate_status_transition booking.status BookingStatus.cancelled) _ e in
          cancel_booking-KeepsLife db now store id reason booking b after named
            (validate_status_transition-can_move booking.status BookingStatus.cancelled u ev) same
            free h2
    ]
