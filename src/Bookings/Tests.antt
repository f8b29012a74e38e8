-- ===== src/Bookings/Tests.antt =====
-- Tests of the booking service, and instances of its theorems.
use playhub_playbooking.Bookings.Create
use playhub_playbooking.Bookings.Cancel
use playhub_playbooking.Bookings.Reschedule
use playhub_playbooking.Bookings.Progress
use playhub_playbooking.Bookings.CheckIns
use playhub_playbooking.Common.{
  All, All-map_of, List, Result, [], arith, err, false, is_ok, map, none, not, ok, refl, some, true,
  ℕ, ◌%◌, ◌&&◌, ◌*◌, ◌+◌, ◌/◌, ◌<◌, ◌==◌, ◌∷◌, ◌≡◌, ◌≤◌, ◌⊎◌,
}
use playhub_playbooking.Availability.Tests.{availability_program, booking, facility}
use playhub_playbooking.Bookings.{
  allowed_transitions, checked_times, find_one, is_available, is_overlap,
  validate_status_transition,
}
use playhub_playbooking.Bookings.Cancel.{IsCancelled, cancel-KeepsLife, cancel_booking}
use playhub_playbooking.Bookings.CheckIns.{Jwt, record_arrival, verify_booking_token}
use playhub_playbooking.Bookings.Conflicts.{IsConflictFree}
use playhub_playbooking.Bookings.Create.{
  Inserts, IsRequested, Replays, create-Outcome, insert_booking, replay_booking,
}
use playhub_playbooking.Bookings.History.{Host, Request, run, run-IsConflictFree, serve}
use playhub_playbooking.Bookings.Progress.{KeepsLife, no_show_booking, set_status}
use playhub_playbooking.Bookings.Reschedule.{move_booking}
use playhub_playbooking.Bookings.Transitions.{can_move, can_move-stage, stage}
use playhub_playbooking.Bookings.Types.{Store}
use playhub_playbooking.Calendar.Utc.{hour}
use playhub_playbooking.Common.Database.{update_many, update_row}
use playhub_playbooking.Common.ListDatabase.{list_database}
use playhub_playbooking.Pricing.Tests.{table}
use playhub_playbooking.Schema.{Booking, BookingStatus, confirmed, is_active}

-- Of the court of the other tests: confirmed from 9:00 to 10:00, pending from 11:00 to 12:00.
abbrev pub store : Store
store = record {
  facilities = facility ∷ [];
  rules = table;
  blocks = [];
  bookings =
      booking 1 (9 * hour) (10 * hour) confirmed
      ∷ booking 2 (11 * hour) (12 * hour) BookingStatus.pending
      ∷ [];
  payments = [];
  check_ins = [];
  events = [];
}

abbrev next_id : List Booking → ℕ
next_id [] = 1
next_id (b ∷ rest) = b.id + next_id rest

next_id-above : (bookings : List Booking) → All (λ c. c.id < next_id bookings) bookings
next_id-above [] = tt
next_id-above (b ∷ rest) = (
  omega (arith, next_id-positive rest),
  All-map_of rest (λ c h. omega arith) (next_id-above rest),
)
  where
    next_id-positive : (bookings : List Booking) → 0 < next_id bookings
    next_id-positive [] = omega arith
    next_id-positive (b ∷ rest) = omega (arith, next_id-positive rest)

next_id-fresh : (bookings : List Booking) → All (λ c. (next_id bookings == c.id) ≡ false) bookings
next_id-fresh bookings = All-map_of bookings (λ c h. ground arith) (next_id-above bookings)

-- A token is its two numbers; every token is taken to be valid.
abbrev jwt : Jwt
jwt = record {
  sign = λ p. p.bid * 100 + p.oid;
  verify = λ t. some (record { bid = t / 100; oid = t % 100; purpose = "booking_checkin" });
}

abbrev host : Host
host = record { db = list_database; jwt = jwt; new_id = next_id; new_id-fresh = next_id-fresh }

unfoldable booking_program : Unit {0}
unfolding availability_program Create.create insert_booking replay_booking checked_times is_overlap
    Cancel.cancel cancel_booking find_one validate_status_transition allowed_transitions set_status
    Progress.accept no_show_booking CheckIns.check_in record_arrival verify_booking_token
    Reschedule.reschedule move_booking is_available can_move update_row update_many serve run
booking_program = tt

abbrev after_of : Result (Booking × Store) → Store
after_of (ok (b, after)) = after
after_of (err e) = store

abbrev booking_from : Result (Booking × Store) → Booking
booking_from (ok (b, after)) = b
booking_from (err e) = booking 0 0 0 BookingStatus.rejected

store-IsConflictFree : IsConflictFree store.bookings
unfolding booking_program
store-IsConflictFree = (((refl, refl), tt), (tt, tt))

abbrev created : ℕ → Result (Booking × Store)
created start =
    Create.create list_database (5 * hour) 3 store 5 11 7 (some start) (some (start + hour)) none

-- From 10:00 to 11:00 is free, from 9:30 to 10:30 is not.
create-between :
    (is_ok (created (10 * hour)) ≡ true) × (is_ok (created (9 * hour + hour / 2)) ≡ false)
unfolding booking_program
create-between = (refl, refl)

create-Outcome_example :
    (s : ℕ) × (e : ℕ) × (some (10 * hour) ≡ some s)
    × (some (11 * hour) ≡ some e)
    × (s < e)
    × (5 * hour ≤ s)
    × (Replays store none 5 11 (booking_from (created (10 * hour))) (after_of (created (10 * hour)))
        ⊎ (IsRequested 3 5 11 7 s e none (booking_from (created (10 * hour)))
            × Inserts store (booking_from (created (10 * hour))) (after_of (created (10 * hour)))))
unfolding booking_program
create-Outcome_example =
    create-Outcome list_database (5 * hour) 3 store 5 11 7 (some (10 * hour)) (some (11 * hour))
      none (booking_from (created (10 * hour))) (after_of (created (10 * hour))) refl

can_move-stage_example :
    ((confirmed ≡ BookingStatus.no_show) ⊎ (stage confirmed < stage BookingStatus.no_show))
    × ((is_active BookingStatus.no_show && not (is_active confirmed)) ≡ false)
unfolding booking_program
can_move-stage_example = can_move-stage confirmed BookingStatus.no_show refl

abbrev cancelled_store : Result (Booking × Store)
cancelled_store = Cancel.cancel list_database (5 * hour) store 5 1 none (some 11)

cancel-KeepsLife_example :
    KeepsLife store (after_of cancelled_store)
    × IsCancelled 1 (booking_from cancelled_store) (after_of cancelled_store).bookings
unfolding booking_program
cancel-KeepsLife_example =
    cancel-KeepsLife list_database (5 * hour) store 5 1 none (some 11)
      (booking_from cancelled_store) (after_of cancelled_store) store-IsConflictFree refl

abbrev arrived : Result (Booking × Store)
arrived = CheckIns.check_in list_database jwt store 5 21 105

abbrev requests : List (ℕ × Request)
requests =
    (5 * hour, Request.cancel 5 1 none none)
    ∷ (5 * hour, Request.create 5 11 7 (some (9 * hour)) (some (10 * hour)) none)
    ∷ (6 * hour, Request.accept 5 4)
    ∷ (7 * hour, Request.create 5 11 7 (some (9 * hour)) (some (10 * hour)) none)
    ∷ []

run-statuses :
    map {B = ℕ × BookingStatus}
      (λ (b : Booking). (b.id, b.status))
      (run host store requests).bookings
    ≡ (4, confirmed) ∷ (1, BookingStatus.cancelled) ∷ (2, BookingStatus.pending) ∷ []
unfolding booking_program
run-statuses = refl

run-IsConflictFree_example : IsConflictFree (run host store requests).bookings
run-IsConflictFree_example = run-IsConflictFree host store requests store-IsConflictFree
