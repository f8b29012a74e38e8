-- ===== src/Bookings/Beside.antt =====
-- Rows beside a booking that `reschedule` of backend/src/bookings/bookings.service.ts moves.
use playhub_playbooking.Common.{
  Bool, Bool-cases, ap, arith, false, if◌then◌else◌, inl, inr, not, ℕ, ◌&&◌, ◌==◌, ◌∙◌, ◌≡◌,
}
use playhub_playbooking.Bookings.{is_overlap}
use playhub_playbooking.Bookings.Conflicts.{AreCompatible, clashes}
use playhub_playbooking.Schema.{Booking, is_active}

-- The rows of the table after a move: the moved booking has the new time, and overlaps none of the
-- other pending or confirmed bookings of its facility.
abbrev pub Moved : ℕ → ℕ → Booking → Booking → Type 0
Moved start end a b =
    (b.id ≡ a.id)
    × (b.facility_id ≡ a.facility_id)
    × (b.status ≡ a.status)
    × (b.start_time ≡ start)
    × (b.end_time ≡ end)

-- A row that is moved, or one that the booking does not overlap after the move.
abbrev pub IsBeside : Booking → ℕ → ℕ → Booking → Type 0
IsBeside booking start end a =
    (not (a.id == booking.id) && is_overlap booking.facility_id start end a) ≡ false

differ : (a b : Booking) → (a.id == b.id) ≡ false → (b.id == a.id) ≡ false
differ a b ne = ground arith

-- A booking at the new time clashes with no other row.
beside_right :
    (booking : Booking) (start end : ℕ) (c b : Booking)
    → c.facility_id ≡ booking.facility_id
    → c.start_time ≡ start
    → c.end_time ≡ end
    → IsBeside booking start end b
    → (b.id == booking.id) ≡ false
    → clashes c b ≡ false
unfolding is_overlap
beside_right booking start end c b f s e beside ne = ground arith

beside_left :
    (booking : Booking) (start end : ℕ) (c b : Booking)
    → c.facility_id ≡ booking.facility_id
    → c.start_time ≡ start
    → c.end_time ≡ end
    → IsBeside booking start end b
    → (b.id == booking.id) ≡ false
    → clashes b c ≡ false
unfolding is_overlap
beside_left booking start end c b f s e beside ne = ground arith

module _ (booking : Booking) (start end : ℕ) (change : Booking → Booking)
    (moves : (a : Booking) → Moved start end a (change a)) where
  abbrev pub is_moved : Booking → Bool
  is_moved b = b.id == booking.id && is_active b.status

  abbrev pub Row : Booking → Type 0
  Row a = IsBeside booking start end a × (a.id ≡ booking.id → a ≡ booking)

  pub moved-AreCompatible :
      (a b : Booking)
      → Row a
      → Row b
      → AreCompatible a b
      → AreCompatible (if is_moved a then change a else a) (if is_moved b then change b else b)
  moved-AreCompatible a b (beside_a, same_a) (beside_b, same_b) (ne, free) =
      elim (Bool-cases (is_moved a)) [
        | inl ma ↦ elim (Bool-cases (is_moved b)) [
          | inl mb ↦ absurd (ground arith)
          | inr nb ↦
              let (i, f, st, s, e) = moves a in
              let here : a ≡ booking = same_a (ground arith) in
              rw (ma, nb)
                (
                  rw i ne,
                  beside_right booking start end (change a) b
                      (f ∙ ap (λ (x : Booking). x.facility_id) here) s e beside_b
                      (rw here at (differ a b ne)),
                )
        ]
        | inr na ↦ elim (Bool-cases (is_moved b)) [
          | inl mb ↦
              let (i, f, st, s, e) = moves b in
              let here : b ≡ booking = same_b (ground arith) in
              rw (na, mb)
                (
                  rw i ne,
                  beside_left booking start end (change b) a
                      (f ∙ ap (λ (x : Booking). x.facility_id) here) s e beside_a (rw here at ne),
                )
          | inr nb ↦ rw (na, nb) (ne, free)
        ]
      ]
