-- ===== src/Bookings/Create.antt =====
-- `create` of backend/src/bookings/bookings.service.ts.
use Prim.Native.String.{String}
use playhub_playbooking.Common.{
  >>=-eq-ok, All, All-of_both, Bool-cases, List, Option, Option-cases, Result, ap, arith, conflict,
  err, false, if◌then◌else◌, inl, inr, is_some, none, not_found, ok, opt_eq, or_throw,
  or_throw-eq-ok, refl, some, throw_if, throw_if-eq-ok, true, ℕ, ◌&&◌, ◌<◌, ◌==◌, ◌>>=◌, ◌>>◌, ◌∷◌,
  ◌≡◌, ◌≤◌, ◌⊎◌,
}
use playhub_playbooking.Bookings.{availability, checked_times, is_overlap}
use playhub_playbooking.Bookings.Conflicts.{AreCompatible, IsConflictFree}
use playhub_playbooking.Bookings.Types.{Event, Store, booking_created, booking_event}
use playhub_playbooking.Common.Database.{Database}
use playhub_playbooking.Common.Queries.{IsAmong, find_first-IsAmong}
use playhub_playbooking.Pricing.{calculate_price}
use playhub_playbooking.Schema.{Booking, BookingStatus, facility_is_active, venue_is_active}

abbrev pub created_event : Booking → Event
created_event b = booking_event booking_created b.id b.organization_id b.user_id

-- Steps 2b to 3 of `create`, and the event. Whether the slot is available is computed and not used.
unfoldable pub insert_booking : Database → Store → Booking → Result (Booking × Store)
insert_booking db store b = do
  throw_if
      (is_some (db.find_first (is_overlap b.facility_id b.start_time b.end_time) store.bookings))
      (conflict "The requested slot is already booked")
  slots ← availability db store b.organization_id b.facility_id b.start_time b.end_time
  ok (b, record store { bookings = b ∷ store.bookings; events = created_event b ∷ store.events })

-- Step 2a: a request with a key that is known returns the booking of that key.
unfoldable pub replay_booking :
    Store → ℕ → ℕ → Option Booking → Result (Booking × Store) → Result (Booking × Store)
replay_booking store organization_id user_id none rest = rest
replay_booking store organization_id user_id (some existing) rest =
    if existing.user_id == user_id && existing.organization_id == organization_id
    then ok (existing, record store { events = created_event existing ∷ store.events })
    else err (conflict "Idempotency key mismatch")

abbrev pub find_key : Database → Option ℕ → List Booking → Option Booking
find_key db none bookings = none
find_key db (some key) bookings = db.find_first (λ b. opt_eq b.idempotency_key (some key)) bookings

unfoldable pub create :
    Database → ℕ → ℕ → Store → ℕ → ℕ → ℕ → Option ℕ → Option ℕ → Option ℕ → Result (Booking × Store)
create db now new_id store organization_id user_id facility_id start end key = do
  times ← checked_times now "Cannot create a booking in the past" start end
  facility ←
      or_throw
        (db.find_first
          (λ f.
            f.id == facility_id
            && facility_is_active f.status
            && venue_is_active f.venue.status
            && f.venue.organization_id == organization_id)
          store.facilities)
        (not_found "Facility not found or unauthorized")
  pricing ← calculate_price db facility.venue.timezone store.rules facility_id times.0 times.1
  replay_booking store organization_id user_id (find_key db key store.bookings) (
      insert_booking db store (record {
        id = new_id;
        organization_id = organization_id;
        facility_id = facility_id;
        user_id = user_id;
        start_time = times.0;
        end_time = times.1;
        status = BookingStatus.pending;
        total_price = some (db.to_decimal pricing.total_price);
        currency = pricing.currency;
        idempotency_key = key;
        price_snapshot = pricing.breakdown;
        cancelled_at = none;
        cancel_reason = none;
      }))

-- The outcomes of the transaction: a booking that was in the table, with the key of the request, and
-- the table as it was, or the new booking, which overlaps no pending or confirmed booking of its
-- facility.
abbrev pub Replays : Store → Option ℕ → ℕ → ℕ → Booking → Store → Type 0
Replays store key organization_id user_id b after =
    (after.bookings ≡ store.bookings)
    × IsAmong b store.bookings
    × ((k : ℕ) × (key ≡ some k) × (b.idempotency_key ≡ some k))
    × (b.user_id ≡ user_id)
    × (b.organization_id ≡ organization_id)

abbrev pub Inserts : Store → Booking → Store → Type 0
Inserts store b after =
    (after.bookings ≡ b ∷ store.bookings)
    × All (λ c. is_overlap b.facility_id b.start_time b.end_time c ≡ false) store.bookings

insert_booking-Inserts :
    (db : Database) (store : Store) (b b' : Booking) (after : Store)
    → insert_booking db store b ≡ ok (b', after)
    → (b' ≡ b) × Inserts store b after
unfolding insert_booking
insert_booking-Inserts db store b b' after e =
    let query = is_overlap b.facility_id b.start_time b.end_time in
    let (unbooked, e1) = throw_if-eq-ok (is_some (db.find_first query store.bookings)) _ _ e in
    let (slots, es, e2) =
      >>=-eq-ok (availability db store b.organization_id b.facility_id b.start_time b.end_time) _
        e1 in
    let absent : db.find_first query store.bookings ≡ none =
      elim (Option-cases (db.find_first query store.bookings)) [
        | inl e ↦ e
        | inr (a, e) ↦ absurd (ground arith)
      ] in
    (cc, (cc, db.find_first-none query store.bookings absent))

is_key_of : (o : Option ℕ) (k : ℕ) → opt_eq o (some k) ≡ true → o ≡ some k
is_key_of none k e = absurd (cc)
is_key_of (some a) k e = ground arith

-- A booking of the key is one of the table, with that key.
find_key-IsAmong :
    (db : Database) (key : Option ℕ) (rows : List Booking) (b : Booking)
    → find_key db key rows ≡ some b
    → IsAmong b rows × ((k : ℕ) × (key ≡ some k) × (b.idempotency_key ≡ some k))
find_key-IsAmong db none rows b e = absurd (cc)
find_key-IsAmong db (some k) rows b e =
    let p = λ (b : Booking). opt_eq b.idempotency_key (some k) in
    (
      find_first-IsAmong db p rows b e,
      (k, refl, is_key_of b.idempotency_key k (db.find_first-some p rows b e)),
    )

replay_booking-cases :
    (store : Store) (key : Option ℕ) (organization_id user_id : ℕ) (known : Option Booking)
    (rest : Result (Booking × Store)) (b : Booking) (after : Store)
    → ((a : Booking)
        → known ≡ some a
        → IsAmong a store.bookings × ((k : ℕ) × (key ≡ some k) × (a.idempotency_key ≡ some k)))
    → replay_booking store organization_id user_id known rest ≡ ok (b, after)
    → Replays store key organization_id user_id b after ⊎ (rest ≡ ok (b, after))
unfolding replay_booking
replay_booking-cases store key organization_id user_id none rest b after known e = inr e
replay_booking-cases store key organization_id user_id (some existing) rest b after known e =
    elim (Bool-cases (existing.user_id == user_id && existing.organization_id == organization_id)) [
      | inl mine ↦
          let replay : ◌≡◌ {A = Result (Booking × Store)}
              (ok (existing, record store { events = created_event existing ∷ store.events }))
              (ok (b, after)) =
            rw mine at e in
          let same : existing ≡ b = cc in
          let (among, keyed) = known b (ap some same) in
          inl (cc, among, keyed, ground arith, ground arith)
      | inr other ↦
          let refused : err (conflict "Idempotency key mismatch") ≡ ok (b, after) = rw other at e in
          absurd (cc)
    ]

pub checked_times-ok :
    (now : ℕ) (past : String) (start end : Option ℕ) (s e : ℕ)
    → checked_times now past start end ≡ ok (s, e)
    → (start ≡ some s) × (end ≡ some e) × (s < e) × (now ≤ s)
unfolding checked_times
checked_times-ok now past none end s e h = absurd (cc)
checked_times-ok now past (some a) none s e h = absurd (cc)
checked_times-ok now past (some a) (some b) s e h = ground arith

-- A new booking of the request.
abbrev pub IsRequested : ℕ → ℕ → ℕ → ℕ → ℕ → ℕ → Option ℕ → Booking → Type 0
IsRequested new_id organization_id user_id facility_id start end key b =
    (b.id ≡ new_id)
    × (b.status ≡ BookingStatus.pending)
    × (b.organization_id ≡ organization_id)
    × (b.user_id ≡ user_id)
    × (b.facility_id ≡ facility_id)
    × (b.start_time ≡ start)
    × (b.end_time ≡ end)
    × (b.idempotency_key ≡ key)

-- If `create` returns a booking, both times are valid, the start is before the end and not in the
-- past, and either the booking was in the table, has the key of the request and is of the same user
-- and organization, and the table is as before; or the table has the new pending booking of the
-- request in front, and no pending or confirmed booking of the facility was overlapping it.
pub create-Outcome :
    (db : Database) (now new_id : ℕ) (store : Store) (organization_id user_id facility_id : ℕ)
    (start end key : Option ℕ) (b : Booking) (after : Store)
    → create db now new_id store organization_id user_id facility_id start end key ≡ ok (b, after)
    → (s : ℕ) × (e : ℕ) × (start ≡ some s)
      × (end ≡ some e)
      × (s < e)
      × (now ≤ s)
      × (Replays store key organization_id user_id b after
          ⊎ (IsRequested new_id organization_id user_id facility_id s e key b
              × Inserts store b after))
unfolding create
create-Outcome db now new_id store organization_id user_id facility_id start end key b after h =
    let ((s, e), et, h1) =
      >>=-eq-ok (checked_times now "Cannot create a booking in the past" start end) _ h in
    let (facility, ef, h2) = or_throw-eq-ok (db.find_first _ store.facilities) _ _ h1 in
    let (pricing, ep, h3) =
      >>=-eq-ok (calculate_price db facility.venue.timezone store.rules facility_id s e) _ h2 in
    let (vs, ve, lt, le) =
      checked_times-ok now "Cannot create a booking in the past" start end s e et in
    (
      s,
      e,
      vs,
      ve,
      lt,
      le,
      elim (replay_booking-cases store key organization_id user_id (find_key db key store.bookings)
          _ b after (find_key-IsAmong db key store.bookings) h3) [
            | inl replay ↦ inl replay
            | inr fresh ↦
                let (same, inserted) = insert_booking-Inserts db store _ b after fresh in
                rw same (inr ((refl, refl, refl, refl, refl, refl, refl, refl), inserted))
          ],
    )

compatible_with_new :
    (b c : Booking)
    → (b.id == c.id) ≡ false
    → is_overlap b.facility_id b.start_time b.end_time c ≡ false
    → AreCompatible b c
unfolding is_overlap
compatible_with_new b c ne h = (ne, ground arith)

-- `create` with a new identifier keeps the table free of double bookings.
pub create-IsConflictFree :
    (db : Database) (now new_id : ℕ) (store : Store) (organization_id user_id facility_id : ℕ)
    (start end key : Option ℕ) (b : Booking) (after : Store)
    → IsConflictFree store.bookings
    → All (λ c. (new_id == c.id) ≡ false) store.bookings
    → create db now new_id store organization_id user_id facility_id start end key ≡ ok (b, after)
    → IsConflictFree after.bookings
create-IsConflictFree db now new_id store organization_id user_id facility_id start end key b after
      free fresh h =
    let (s, e, _, _, _, _, outcome) =
      create-Outcome db now new_id store organization_id user_id facility_id start end key b after
        h in
    elim outcome [
      | inl (same, _, _, _, _) ↦ rw same free
      | inr (asked, (added, clear)) ↦ rw added (
        All-of_both store.bookings
            (λ c ne no_overlap. compatible_with_new b c (rw asked.0 ne) no_overlap) fresh clear,
        free,
      )
    ]
