-- ===== src/Bookings/Transitions.antt =====
-- The state machine of `validateStatusTransition` in backend/src/bookings/bookings.service.ts.
use playhub_playbooking.Common.{
  All, Bool, Bool-cases, List, [], any, arith, false, if◌then◌else◌, inl, inr, not, ok, refl, true,
  ℕ, ◌&&◌, ◌<◌, ◌||◌, ◌∷◌, ◌≡◌, ◌⊎◌,
}
use playhub_playbooking.Bookings.{allowed_transitions, validate_status_transition}
use playhub_playbooking.Bookings.Conflicts.{KeepsTime}
use playhub_playbooking.Common.Database.{update_many}
use playhub_playbooking.Schema.{
  Booking, BookingStatus, checked_in, completed, confirmed, is_active, no_show, rejected, ◌=b◌,
}

-- The booking stays as it is, or takes an allowed transition.
unfoldable pub can_move : BookingStatus → BookingStatus → Bool
unfolding allowed_transitions
can_move current next = current =b next || any (λ s. s =b next) (allowed_transitions current)

pub validate_status_transition-can_move :
    (current next : BookingStatus) (u : Unit {0})
    → validate_status_transition current next ≡ ok u
    → can_move current next ≡ true
unfolding validate_status_transition can_move
validate_status_transition-can_move current next u e = ground arith

-- How far a booking is in its life.
unfoldable pub stage : BookingStatus → ℕ
stage BookingStatus.pending = 0
stage confirmed = 1
stage checked_in = 2
stage _ = 3

-- Every transition to another status goes on to a later stage, so no booking returns to a status
-- that it has left, and no transition leaves a last stage; and only what is pending or confirmed
-- moves to pending or confirmed.
pub can_move-stage :
    (current next : BookingStatus)
    → can_move current next ≡ true
    → ((current ≡ next) ⊎ (stage current < stage next))
      × ((is_active next && not (is_active current)) ≡ false)
unfolding can_move stage
can_move-stage BookingStatus.pending BookingStatus.pending h = (inl refl, refl)
can_move-stage _ _ h = ground arith

-- A row of a booking stays what it is about, and its status moves as allowed.
abbrev pub Progresses : Booking → Booking → Type 0
Progresses a b =
    (b.id ≡ a.id)
    × (b.organization_id ≡ a.organization_id)
    × (b.facility_id ≡ a.facility_id)
    × (b.start_time ≡ a.start_time)
    × (b.end_time ≡ a.end_time)
    × (can_move a.status b.status ≡ true)

-- Row by row.
abbrev pub Rowwise : (Booking → Booking → Type 0) → List Booking → List Booking → Type 0
Rowwise R [] [] = Unit
Rowwise R [] (b ∷ bs) = ⊥
Rowwise R (a ∷ as') [] = ⊥
Rowwise R (a ∷ as') (b ∷ bs) = R a b × Rowwise R as' bs

pub Rowwise-update_many :
    (R : Booking → Booking → Type 0) (p : Booking → Bool) (f : Booking → Booking)
    (bookings : List Booking)
    → All (λ a. R a (if p a then f a else a)) bookings
    → Rowwise R bookings (update_many p f bookings)
unfolding update_many
Rowwise-update_many R p f [] h = tt
Rowwise-update_many R p f (a ∷ rest) h = (h.0, Rowwise-update_many R p f rest h.1)

pub can_move_refl : (s : BookingStatus) → can_move s s ≡ true
unfolding can_move
can_move_refl s = ground arith

pub Progresses-KeepsTime : (a b : Booking) → Progresses a b → KeepsTime a b
Progresses-KeepsTime a b (i, o, f, s, e, m) = (i, f, s, e, (can_move-stage a.status b.status m).1)

-- The rows of a table, after an update of the row that was read, if the update moves its status
-- as allowed.
pub updates_progress :
    (p : Booking → Bool) (change : Booking → Booking) (booking : Booking) (bookings : List Booking)
    → ((a : Booking) → p a ≡ true → a.id ≡ booking.id)
    → Progresses booking (change booking)
    → All (λ a. a.id ≡ booking.id → a ≡ booking) bookings
    → All (λ a. Progresses a (if p a then change a else a)) bookings
updates_progress p change booking [] named progress h = tt
updates_progress p change booking (a ∷ rest) named progress h =
    let others = updates_progress p change booking rest named progress h.1 in
    elim (Bool-cases (p a)) [
      | inl e ↦ let same = h.0 (named a e) in (rw (e, same) progress, others)
      | inr e ↦ (rw e (refl, refl, refl, refl, refl, can_move_refl a.status), others)
    ]

pub =b-eq : (a b : BookingStatus) → (a =b b) ≡ true → a ≡ b
=b-eq BookingStatus.pending BookingStatus.pending h = refl
=b-eq confirmed confirmed h = refl
=b-eq BookingStatus.cancelled BookingStatus.cancelled h = refl
=b-eq rejected rejected h = refl
=b-eq checked_in checked_in h = refl
=b-eq no_show no_show h = refl
=b-eq completed completed h = refl
=b-eq _ _ h = absurd (ground arith)
