-- ===== src/Bookings/Progress.antt =====
-- `accept`, `reject`, `noShow` and `complete` of backend/src/bookings/bookings.service.ts.
use Prim.Native.String.{String}
use playhub_playbooking.Common.{
  >>=-eq-ok, All, All-map_of, Bool, Option, Option-cases, Result, arith, if◌then◌else◌, inl, inr,
  none, ok, refl, some, true, ℕ, ◌&&◌, ◌==◌, ◌>>=◌, ◌>>◌, ◌∷◌, ◌≡◌,
}
use playhub_playbooking.Bookings.{find_one, opt_matches, validate_status_transition}
use playhub_playbooking.Bookings.Conflicts.{
  IsConflictFree, found_is_same, update_many-IsConflictFree,
}
use playhub_playbooking.Bookings.Transitions.{
  Progresses, Progresses-KeepsTime, Rowwise, Rowwise-update_many, can_move, updates_progress,
  validate_status_transition-can_move,
}
use playhub_playbooking.Bookings.Types.{
  BookingEvent, Store, booking_accepted, booking_completed, booking_event, booking_noshow,
  booking_rejected,
}
use playhub_playbooking.Common.Database.{Database, update_many, update_row, update_row-ok}
use playhub_playbooking.Common.Queries.{IsAmong, find_first-IsAmong}
use playhub_playbooking.Schema.{Booking, BookingStatus, completed, confirmed, no_show, rejected}

-- `accept`, `reject`, `noShow` and `complete`: read, validate, update, emit.
unfoldable pub set_status :
    Database
    → Store
    → ℕ
    → ℕ
    → BookingStatus
    → (Booking → Booking)
    → BookingEvent
    → Result (Booking × Store)
set_status db store organization_id id next change event = do
  booking ← find_one db store organization_id id none
  validate_status_transition booking.status next
  updated ←
      update_row db (λ (b : Booking). b.id == id && b.organization_id == organization_id) change
        store.bookings
  let b = updated.0
  ok (
    b,
    record store {
      bookings = updated.1;
      events = booking_event event b.id b.organization_id b.user_id ∷ store.events;
    },
  )

unfoldable pub accept : Database → Store → ℕ → ℕ → Result (Booking × Store)
accept db store organization_id id =
    set_status db store organization_id id confirmed (λ b. record b { status = confirmed })
      booking_accepted

unfoldable pub reject : Database → Store → ℕ → ℕ → Option String → Result (Booking × Store)
reject db store organization_id id reason =
    set_status db store organization_id id rejected
      (λ b. record b { status = rejected; cancel_reason = reason }) booking_rejected

unfoldable pub no_show_booking : Database → Store → ℕ → ℕ → Result (Booking × Store)
no_show_booking db store organization_id id =
    set_status db store organization_id id no_show (λ b. record b { status = no_show })
      booking_noshow

unfoldable pub complete : Database → Store → ℕ → ℕ → Result (Booking × Store)
complete db store organization_id id =
    set_status db store organization_id id completed (λ b. record b { status = completed })
      booking_completed

-- The tables after a request, row by row: every booking is what it was about, and its status moves
-- as allowed; and there is still no double booking.
abbrev pub KeepsLife : Store → Store → Type 0
KeepsLife store after =
    Rowwise Progresses store.bookings after.bookings × IsConflictFree after.bookings

find_one-find_first :
    (db : Database) (store : Store) (organization_id id : ℕ) (user_id : Option ℕ) (b : Booking)
    → find_one db store organization_id id user_id ≡ ok b
    → db.find_first
        (λ (b : Booking).
          b.id == id && b.organization_id == organization_id && opt_matches user_id b.user_id)
        store.bookings
      ≡ some b
unfolding find_one
find_one-find_first db store organization_id id user_id b e =
    let p = λ (b : Booking).
      b.id == id && b.organization_id == organization_id && opt_matches user_id b.user_id in
    elim (Option-cases (db.find_first p store.bookings)) [
      | inl none_found ↦ absurd (ground arith)
      | inr (a, e') ↦ ground arith
    ]

pub find_one-IsAmong :
    (db : Database) (store : Store) (organization_id id : ℕ) (user_id : Option ℕ) (b : Booking)
    → find_one db store organization_id id user_id ≡ ok b
    → IsAmong b store.bookings
find_one-IsAmong db store organization_id id user_id b e =
    find_first-IsAmong db _ store.bookings b
      (find_one-find_first db store organization_id id user_id b e)

pub find_one-found :
    (db : Database) (store : Store) (organization_id id : ℕ) (user_id : Option ℕ) (b : Booking)
    → find_one db store organization_id id user_id ≡ ok b
    → IsConflictFree store.bookings
    → (b.id ≡ id) × All (λ a. a.id ≡ b.id → a ≡ b) store.bookings
unfolding find_one
find_one-found db store organization_id id user_id b e free =
    let p = λ (b : Booking).
      b.id == id && b.organization_id == organization_id && opt_matches user_id b.user_id in
    let found = find_one-find_first db store organization_id id user_id b e in
    (
      ground (arith, db.find_first-some p store.bookings b found),
      found_is_same db p store.bookings b found free,
    )

-- An update of the row that was read keeps the life of all bookings.
pub update-KeepsLife :
    (store after : Store) (p : Booking → Bool) (change : Booking → Booking) (booking : Booking)
    → after.bookings ≡ update_many p change store.bookings
    → ((a : Booking) → p a ≡ true → a.id ≡ booking.id)
    → Progresses booking (change booking)
    → All (λ a. a.id ≡ booking.id → a ≡ booking) store.bookings
    → IsConflictFree store.bookings
    → KeepsLife store after
update-KeepsLife store after p change booking updated named progress same free =
    let rows = updates_progress p change booking store.bookings named progress same in
    rw updated (
      Rowwise-update_many Progresses p change store.bookings rows,
      update_many-IsConflictFree p change store.bookings
          (All-map_of store.bookings (λ a h. Progresses-KeepsTime a (if p a then change a else a) h)
            rows)
          free,
    )

set_status-KeepsLife :
    (db : Database) (store : Store) (organization_id id : ℕ) (next : BookingStatus)
    (change : Booking → Booking) (event : BookingEvent) (b : Booking) (after : Store)
    → ((a : Booking) → can_move a.status next ≡ true → Progresses a (change a))
    → IsConflictFree store.bookings
    → set_status db store organization_id id next change event ≡ ok (b, after)
    → KeepsLife store after × ((row : Booking) × (b ≡ change row))
unfolding set_status
set_status-KeepsLife db store organization_id id next change event b after progress free h =
    let (booking, eb, h1) = >>=-eq-ok (find_one db store organization_id id none) _ h in
    let (u, ev, h2) = >>=-eq-ok (validate_status_transition booking.status next) _ h1 in
    let p = λ (b : Booking). b.id == id && b.organization_id == organization_id in
    let (r, er, h3) = >>=-eq-ok (update_row db p change store.bookings) _ h2 in
    let (row, found, changed, updated) = update_row-ok db p change store.bookings r er in
    let (named, same) = find_one-found db store organization_id id none booking eb free in
    (
      update-KeepsLife store after p change booking (cc) (λ a e. ground arith)
          (progress booking (validate_status_transition-can_move booking.status next u ev)) same
          free,
      (row, cc),
    )

module _ (db : Database) (store : Store) (organization_id id : ℕ) (b : Booking) (after : Store)
    (free : IsConflictFree store.bookings) where
  -- In a table without double bookings, if `accept` returns a booking, then afterwards every row is
  -- about the same booking, place and time, its status is the same or an allowed next one, and there
  -- is still no double booking; and the booking that is returned is confirmed.
  pub accept-KeepsLife :
      accept db store organization_id id ≡ ok (b, after)
      → KeepsLife store after × (b.status ≡ confirmed)
  unfolding accept
  accept-KeepsLife h =
      let (life, (row, same)) =
        set_status-KeepsLife db store organization_id id confirmed
          (λ b. record b { status = confirmed }) booking_accepted b after
          (λ a m. (refl, refl, refl, refl, refl, m)) free h in
      (life, cc)

  pub reject-KeepsLife :
      (reason : Option String)
      → reject db store organization_id id reason ≡ ok (b, after)
      → KeepsLife store after × (b.status ≡ rejected)
  unfolding reject
  reject-KeepsLife reason h =
      let (life, (row, same)) =
        set_status-KeepsLife db store organization_id id rejected
          (λ b. record b { status = rejected; cancel_reason = reason }) booking_rejected b after
          (λ a m. (refl, refl, refl, refl, refl, m)) free h in
      (life, cc)

  -- In a table without double bookings, if `noShow` returns a booking, then afterwards every row is
  -- about the same booking, place and time, its status is the same or an allowed next one, and there
  -- is still no double booking; and the booking that is returned is a no-show.
  pub no_show_booking-KeepsLife :
      no_show_booking db store organization_id id ≡ ok (b, after)
      → KeepsLife store after × (b.status ≡ no_show)
  unfolding no_show_booking
  no_show_booking-KeepsLife h =
      let (life, (row, same)) =
        set_status-KeepsLife db store organization_id id no_show
          (λ b. record b { status = no_show }) booking_noshow b after
          (λ a m. (refl, refl, refl, refl, refl, m)) free h in
      (life, cc)

  pub complete-KeepsLife :
      complete db store organization_id id ≡ ok (b, after)
      → KeepsLife store after × (b.status ≡ completed)
  unfolding complete
  complete-KeepsLife h =
      let (life, (row, same)) =
        set_status-KeepsLife db store organization_id id completed
          (λ b. record b { status = completed }) booking_completed b after
          (λ a m. (refl, refl, refl, refl, refl, m)) free h in
      (life, cc)
