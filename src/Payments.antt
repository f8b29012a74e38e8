-- ===== src/Payments.antt =====
-- backend/src/payments/payments.service.ts: orders, their capture by checkout, webhook or
-- reconciliation, and refunds. A request runs alone on the tables; `clients` is the provider
-- factory, `db` the database client.
pub mod Types
pub mod Orders
pub mod Verify
pub mod Webhook
pub mod Delivery
pub mod Refunds
pub mod Tests
use playhub_playbooking.Common.{
  >>=-eq-ok, All, All-map_of, Bool, Bool-cases, List, Option, Result, [], any, arith, err, false,
  if◌then◌else◌, inl, inr, none, not, ok, refl, some, subst, sym, true, ℕ, ◌&&◌, ◌==◌, ◌>>=◌, ◌>>◌,
  ◌∷◌, ◌≡◌,
}
use playhub_playbooking.Common.Database.{
  AllPairs, Database, only_row, update_many, update_row, update_row-ok,
}
use playhub_playbooking.Payments.Types.{
  PaymentEvent, PaymentStore, booking_confirmed, payment_captured,
}
use playhub_playbooking.Pricing.{skips}
use playhub_playbooking.Schema.{
  Booking, BookingStatus, Payment, PaymentStatus, authorized, cancelled, captured, confirmed,
  failed, initiated, pending, refunded, ◌=b◌, ◌=p◌,
}

unfoldable pub is_terminal : PaymentStatus → Bool
is_terminal captured = true
is_terminal failed = true
is_terminal PaymentStatus.cancelled = true
is_terminal refunded = true
is_terminal _ = false

unfoldable pub allowed : PaymentStatus → List PaymentStatus
allowed initiated =
    PaymentStatus.pending ∷ authorized ∷ captured ∷ failed ∷ PaymentStatus.cancelled ∷ []
allowed PaymentStatus.pending = authorized ∷ captured ∷ failed ∷ PaymentStatus.cancelled ∷ []
allowed authorized = captured ∷ failed ∷ PaymentStatus.cancelled ∷ []
allowed captured = refunded ∷ []
allowed failed = []
allowed PaymentStatus.cancelled = []
allowed refunded = []

unfoldable pub can_transition : PaymentStatus → PaymentStatus → Bool
unfolding is_terminal allowed
can_transition current next =
    if current =p next
    then true
    else if is_terminal current && not (next =p refunded)
    then false
    else if current =p captured && next =p refunded
    then true
    else any (λ s. s =p next) (allowed current)

abbrev pub find_payment : Database → (Payment → Bool) → PaymentStore → Option Payment
find_payment db p store = db.find_first p store.payments

abbrev pub booking_of : Database → PaymentStore → Payment → Option Booking
booking_of db store payment =
    db.find_first (λ (b : Booking). b.id == payment.booking_id) store.bookings

-- `tx.booking.update` of a pending booking to confirmed, whose failure is caught.
unfoldable pub confirm_booking : Database → ℕ → List Booking → Option Booking × List Booking
confirm_booking db booking_id bookings =
    elim (update_row db (λ (b : Booking). b.id == booking_id && b.status =b BookingStatus.pending)
      (λ b. record b { status = confirmed }) bookings) [
        | ok (b, after) ↦ (some b, after)
        | err e ↦ (none, bookings)
      ]

-- The updates of a transaction that captures a payment: the payment and the booking as updated,
-- and the tables.
unfoldable pub capture :
    Database
    → PaymentStore
    → Payment
    → (Payment → Payment)
    → Result (Payment × (Option Booking × PaymentStore))
capture db store payment change = do
  updated ← update_row db (λ (p : Payment). p.id == payment.id) change store.payments
  let confirmation = confirm_booking db payment.booking_id store.bookings
  ok (updated.0, (confirmation.0, record store { payments = updated.1; bookings = confirmation.1 }))

abbrev pub confirmed_events : Option Booking → (booking organization user : ℕ) → List PaymentEvent
confirmed_events (some b) booking organization user =
    booking_confirmed booking organization user ∷ []
confirmed_events none booking organization user = []

abbrev pub captured_event : Payment → ℕ → PaymentEvent
captured_event p user_id = payment_captured p.id p.booking_id p.organization_id user_id p.amount

-- The identifiers of a table of payments are distinct.
abbrev pub IsKeyed : List Payment → Type 0
IsKeyed payments = AllPairs (λ a b. (a.id == b.id) ≡ false) payments

pub found_is_only :
    (db : Database) (p : Payment → Bool) (payments : List Payment) (b : Payment)
    → db.find_first p payments ≡ some b
    → IsKeyed payments
    → All (λ a. a.id ≡ b.id → a ≡ b) payments
found_is_only db p payments b found keyed =
    db.find_first-All (λ b. All (λ a. a.id ≡ b.id → a ≡ b) payments) p payments b found
      (only_row (λ a b. (a.id == b.id) ≡ false) (λ a b. a.id ≡ b.id) payments
        (λ a b ne same. ground arith) (λ a b. sym) keyed)

-- Every row of the payment has the status.
abbrev pub HasStatus : PaymentStatus → ℕ → List Payment → Type 0
HasStatus status id payments = All (λ p. p.id ≡ id → p.status ≡ status) payments

-- An update that gives the row of the payment the status, and leaves its identifier.
pub update_many-HasStatus :
    (p : Payment → Bool) (f : Payment → Payment) (status : PaymentStatus) (id : ℕ)
    (payments : List Payment)
    → ((a : Payment) → (f a).status ≡ status)
    → ((a : Payment) → a.id ≡ id → p a ≡ false → a.status ≡ status)
    → ((a : Payment) → (f a).id ≡ a.id)
    → HasStatus status id (update_many p f payments)
unfolding update_many
update_many-HasStatus p f status id [] sets skips keeps = tt
update_many-HasStatus p f status id (a ∷ rest) sets skips keeps =
    let others = update_many-HasStatus p f status id rest sets skips keeps in
    elim (Bool-cases (p a)) [
      | inl e ↦ (rw e (λ same. sets a), others)
      | inr e ↦ (rw e (λ same. skips a same e), others)
    ]

pub capture-HasStatus :
    (db : Database) (store : PaymentStore) (payment : Payment) (change : Payment → Payment)
    (r : Payment × (Option Booking × PaymentStore))
    → ((a : Payment) → ((change a).status ≡ captured) × ((change a).id ≡ a.id))
    → capture db store payment change ≡ ok r
    → HasStatus captured payment.id r.1.1.payments
unfolding capture
capture-HasStatus db store payment change r h e =
    let p = λ (p : Payment). p.id == payment.id in
    let (u, eu, e1) = >>=-eq-ok (update_row db p change store.payments) _ e in
    let (row, found, _, updated) = update_row-ok db p change store.payments u eu in
    let all : HasStatus captured payment.id (update_many p change store.payments) =
      update_many-HasStatus p change captured payment.id store.payments (λ a. (h a).0)
        (λ a same out. absurd (ground arith)) (λ a. (h a).1) in
    let after : update_many p change store.payments ≡ r.1.1.payments = cc in
    subst (HasStatus captured payment.id) after all

pub =p-eq : (a b : PaymentStatus) → (a =p b) ≡ true → a ≡ b
=p-eq initiated initiated h = refl
=p-eq PaymentStatus.pending PaymentStatus.pending h = refl
=p-eq authorized authorized h = refl
=p-eq captured captured h = refl
=p-eq failed failed h = refl
=p-eq PaymentStatus.cancelled PaymentStatus.cancelled h = refl
=p-eq refunded refunded h = refl
=p-eq _ _ h = absurd (ground arith)

-- If the row that is read has the status, then all rows of the payment have it.
pub read-HasStatus :
    (db : Database) (p : Payment → Bool) (payments : List Payment) (latest : Payment)
    (status : PaymentStatus)
    → db.find_first p payments ≡ some latest
    → IsKeyed payments
    → (latest.status =p status) ≡ true
    → HasStatus status latest.id payments
read-HasStatus db p payments latest status e keyed done =
    let has : latest.status ≡ status = =p-eq latest.status status done in
    All-map_of payments (λ a k i. let row : a ≡ latest = k i in cc)
      (found_is_only db p payments latest e keyed)
