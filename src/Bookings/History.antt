-- ===== src/Bookings/History.antt =====
-- Any sequence of requests to backend/src/bookings/bookings.service.ts.
use Prim.Native.String.{String}
use playhub_playbooking.Bookings.Create
use playhub_playbooking.Bookings.Cancel
use playhub_playbooking.Bookings.Reschedule
use playhub_playbooking.Bookings.Progress
use playhub_playbooking.Bookings.CheckIns
use playhub_playbooking.Common.{
  All, List, Option, Result, [], err, false, ok, refl, ℕ, ◌==◌, ◌∷◌, ◌≡◌,
}
use playhub_playbooking.Bookings.Cancel.{cancel-KeepsLife}
use playhub_playbooking.Bookings.CheckIns.{Jwt, check_in-KeepsLife}
use playhub_playbooking.Bookings.Conflicts.{IsConflictFree}
use playhub_playbooking.Bookings.Create.{create-IsConflictFree}
use playhub_playbooking.Bookings.Progress.{
  accept-KeepsLife, complete-KeepsLife, no_show_booking, no_show_booking-KeepsLife,
  reject-KeepsLife,
}
use playhub_playbooking.Bookings.Reschedule.{reschedule-IsConflictFree}
use playhub_playbooking.Bookings.Types.{Store}
use playhub_playbooking.Common.Database.{Database}
use playhub_playbooking.Schema.{Booking}

-- What the service rests on: the database, the token library, and the identifiers of new rows.
pub record Host : Type 1 where
  pub db : Database
  pub jwt : Jwt
  pub new_id : List Booking → ℕ
  -- The identifier of a new row is not in the table yet.
  pub new_id-fresh :
      (bookings : List Booking) → All (λ c. (new_id bookings == c.id) ≡ false) bookings

-- The methods that change a booking, with their arguments; the first of each is the organization.
pub data Request : Type 0 where
  create : ℕ → ℕ → ℕ → Option ℕ → Option ℕ → Option ℕ → Request
  cancel : ℕ → ℕ → Option String → Option ℕ → Request
  reschedule : ℕ → ℕ → Option ℕ → Option ℕ → Option ℕ → Request
  accept no_show complete : ℕ → ℕ → Request
  reject : ℕ → ℕ → Option String → Request
  check_in : ℕ → ℕ → ℕ → Request

-- One request at the time `now`.
unfoldable pub serve : Host → ℕ → Store → Request → Result (Booking × Store)
serve host now store (Request.create org user facility start end key) =
    Create.create host.db now (host.new_id store.bookings) store org user facility start end key
serve host now store (Request.cancel org id reason user) =
    Cancel.cancel host.db now store org id reason user
serve host now store (Request.reschedule org id start end user) =
    Reschedule.reschedule host.db now store org id start end user
serve host now store (Request.accept org id) = Progress.accept host.db store org id
serve host now store (Request.no_show org id) = no_show_booking host.db store org id
serve host now store (Request.complete org id) = Progress.complete host.db store org id
serve host now store (Request.reject org id reason) = Progress.reject host.db store org id reason
serve host now store (Request.check_in org staff token) =
    CheckIns.check_in host.db host.jwt store org staff token

serve-IsConflictFree :
    (host : Host) (now : ℕ) (store : Store) (r : Request) (b : Booking) (after : Store)
    → IsConflictFree store.bookings
    → serve host now store r ≡ ok (b, after)
    → IsConflictFree after.bookings
unfolding serve
serve-IsConflictFree host now store (Request.create org user facility start end key) b after free
      h =
    create-IsConflictFree host.db now (host.new_id store.bookings) store org user facility start end
      key b after free (host.new_id-fresh store.bookings) h
serve-IsConflictFree host now store (Request.cancel org id reason user) b after free h =
    (cancel-KeepsLife host.db now store org id reason user b after free h).0.1
serve-IsConflictFree host now store (Request.reschedule org id start end user) b after free h =
    reschedule-IsConflictFree host.db now store org id start end user b after free h
serve-IsConflictFree host now store (Request.accept org id) b after free h =
    (accept-KeepsLife host.db store org id b after free h).0.1
serve-IsConflictFree host now store (Request.no_show org id) b after free h =
    (no_show_booking-KeepsLife host.db store org id b after free h).0.1
serve-IsConflictFree host now store (Request.complete org id) b after free h =
    (complete-KeepsLife host.db store org id b after free h).0.1
serve-IsConflictFree host now store (Request.reject org id reason) b after free h =
    (reject-KeepsLife host.db store org id b after free reason h).0.1
serve-IsConflictFree host now store (Request.check_in org staff token) b after free h =
    (check_in-KeepsLife host.db host.jwt store org staff token b after free h).0.1

-- Requests in the order in which they are served, each at its time; one that throws changes
-- nothing.
unfoldable pub run : Host → Store → List (ℕ × Request) → Store
run host store [] = store
run host store ((now, r) ∷ rest) =
    let next : Store = elim (serve host now store r) [ ok (b, after) ↦ after | err e ↦ store ] in
    run host next rest

-- After any sequence of requests, at any times, no two bookings have one identifier, and no two
-- pending or confirmed bookings of a facility overlap, if this held before.
pub run-IsConflictFree :
    (host : Host) (store : Store) (requests : List (ℕ × Request))
    → IsConflictFree store.bookings
    → IsConflictFree (run host store requests).bookings
unfolding run
run-IsConflictFree host store [] free = free
run-IsConflictFree host store ((now, r) ∷ rest) free =
    run-IsConflictFree host
      (elim (serve host now store r) [ ok (b, after) ↦ after | err e ↦ store ]) rest
      (next (serve host now store r) refl)
  where
    next :
        (result : Result (Booking × Store))
        → serve host now store r ≡ result
        → IsConflictFree
            (let s : Store = elim result [ ok (b, after) ↦ after | err e ↦ store ] in s).bookings
    next (ok (b, after)) e = serve-IsConflictFree host now store r b after free e
    next (err x) e = free
