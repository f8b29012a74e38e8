-- ===== src/Bookings/Conflicts.antt =====
-- The invariant of the table of bookings that the queries for overlapping bookings in
-- backend/src/bookings/bookings.service.ts keep: no double booking.
use playhub_playbooking.Common.{
  All, Bool, List, arith, false, if◌then◌else◌, ltb, not, refl, some, sym, true, ◌&&◌, ◌==◌, ◌≡◌,
}
use playhub_playbooking.Common.Database.{
  AllPairs, AllPairs-update_many, Database, only_row, update_many,
}
use playhub_playbooking.Schema.{Booking, is_active}

-- Both hold their time at the same facility, and the times have a moment in common.
abbrev pub clashes : Booking → Booking → Bool
clashes a b =
    a.facility_id == b.facility_id
    && is_active a.status
    && is_active b.status
    && ltb a.start_time b.end_time
    && ltb b.start_time a.end_time

-- Two rows have different identifiers, and do not clash.
abbrev pub AreCompatible : Booking → Booking → Type 0
AreCompatible a b = ((a.id == b.id) ≡ false) × (clashes a b ≡ false)

-- No two bookings of the table have one identifier, and no two pending or confirmed bookings of a
-- facility overlap.
abbrev pub IsConflictFree : List Booking → Type 0
IsConflictFree bookings = AllPairs AreCompatible bookings

-- The change keeps the identifier, the facility and the time, and makes no booking active.
abbrev pub KeepsTime : Booking → Booking → Type 0
KeepsTime a b =
    (b.id ≡ a.id)
    × (b.facility_id ≡ a.facility_id)
    × (b.start_time ≡ a.start_time)
    × (b.end_time ≡ a.end_time)
    × ((is_active b.status && not (is_active a.status)) ≡ false)

KeepsTime-refl : (a : Booking) → KeepsTime a a
KeepsTime-refl a = (refl, refl, refl, refl, ground arith)

KeepsTime-AreCompatible :
    (a b a' b' : Booking)
    → KeepsTime a a'
    → KeepsTime b b'
    → AreCompatible a b
    → AreCompatible a' b'
KeepsTime-AreCompatible a b a' b' (i, f, s, e, k) (i', f', s', e', k') (ne, free) = (
  rw (i, i') ne,
  rw (f, f', s, s', e, e')
      (still (is_active a.status) (is_active a'.status) (is_active b.status) (is_active b'.status) k
        k' free),
)
  where
    still :
        (x x' y y' : Bool)
        → (x' && not x) ≡ false
        → (y' && not y) ≡ false
        → (a.facility_id == b.facility_id
            && x
            && y
            && ltb a.start_time b.end_time
            && ltb b.start_time a.end_time)
          ≡ false
        → (a.facility_id == b.facility_id
            && x'
            && y'
            && ltb a.start_time b.end_time
            && ltb b.start_time a.end_time)
          ≡ false
    still true x' true y' p q h = ground arith
    still true x' false y' p q h = ground arith
    still false x' y y' p q h = ground arith

-- An update that keeps the time of every row that it changes keeps the invariant.
pub update_many-IsConflictFree :
    (p : Booking → Bool) (f : Booking → Booking) (bookings : List Booking)
    → All (λ a. KeepsTime a (if p a then f a else a)) bookings
    → IsConflictFree bookings
    → IsConflictFree (update_many p f bookings)
update_many-IsConflictFree p f bookings keeps free =
    AllPairs-update_many AreCompatible (λ a. KeepsTime a (if p a then f a else a)) p f bookings
      (λ a b. KeepsTime-AreCompatible a b (if p a then f a else a) (if p b then f b else b)) keeps
      free

-- In a table without conflicts a row that is found is the only one with its identifier.
pub same_row :
    (bookings : List Booking)
    → IsConflictFree bookings
    → All (λ b. All (λ a. a.id ≡ b.id → a ≡ b) bookings) bookings
same_row bookings free =
    only_row AreCompatible (λ a b. a.id ≡ b.id) bookings (λ a b (ne, _) same. ground arith)
      (λ a b. sym) free

pub found_is_same :
    (db : Database) (p : Booking → Bool) (bookings : List Booking) (b : Booking)
    → db.find_first p bookings ≡ some b
    → IsConflictFree bookings
    → All (λ a. a.id ≡ b.id → a ≡ b) bookings
found_is_same db p bookings b found free =
    db.find_first-All (λ b. All (λ a. a.id ≡ b.id → a ≡ b) bookings) p bookings b found
      (same_row bookings free)
