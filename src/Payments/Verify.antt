-- ===== src/Payments/Verify.antt =====
-- `verifyPayment` of backend/src/payments/payments.service.ts.
use playhub_playbooking.Common.{
  >>=-eq-ok, Bool, Option, Result, arith, bad_request, error, forbidden, if-eq, if◌then◌else◌, inl,
  inr, none, not, not_found, ok, opt_eq, or_throw, or_throw-eq-ok, refl, some, subst, throw_if,
  throw_if-eq-ok, true, ℕ, ◌++◌, ◌==◌, ◌>>=◌, ◌>>◌, ◌∷◌, ◌≡◌, ◌⊎◌,
}
use playhub_playbooking.Common.Database.{Database}
use playhub_playbooking.Common.Queries.{IsAmong, find_first-IsAmong}
use playhub_playbooking.Payments.{
  =p-eq, HasStatus, IsKeyed, allowed, booking_of, can_transition, capture, capture-HasStatus,
  captured_event, confirmed_events, find_payment, read-HasStatus,
}
use playhub_playbooking.Payments.Types.{PaymentStore, ProviderClient, VerifyPaymentDto}
use playhub_playbooking.Schema.{Booking, Payment, PaymentProvider, captured, ◌=p◌}

unfoldable pub is_verified : ProviderClient → VerifyPaymentDto → ℕ → Bool
is_verified client dto amount = elim client.verify_checkout [
  | some verify ↦ verify dto amount
  | none ↦ client.verify_signature dto
]

abbrev pub capture_by : VerifyPaymentDto → Payment → Payment
capture_by dto p = record p {
  status = captured;
  provider_payment_id = some dto.provider_payment_id;
  provider_signature = some dto.signature;
}

-- The transaction and the events, for a payment that is verified.
unfoldable pub capture_verified :
    Database
    → PaymentStore
    → ℕ
    → VerifyPaymentDto
    → Payment
    → Booking
    → Result (Booking × PaymentStore)
capture_verified db store user_id dto payment booking = do
  latest ←
      or_throw (find_payment db (λ p. p.id == payment.id) store) (error "Payment record not found")
  let go = do
    r ← capture db store payment (capture_by dto)
    let result : Booking = elim r.1.0 [ some b ↦ b | none ↦ booking ]
    ok (
      result,
      record r.1.1 {
        events =
            confirmed_events r.1.0 result.id result.organization_id result.user_id
            ++ captured_event r.0 user_id ∷ store.events;
      },
    )
  if latest.status =p captured then ok (booking, store) else go

unfoldable pub verify_payment :
    Database
    → (PaymentProvider → ProviderClient)
    → PaymentStore
    → ℕ
    → ℕ
    → VerifyPaymentDto
    → Result (Booking × PaymentStore)
verify_payment db clients store organization_id user_id dto = do
  payment ←
      or_throw
        (find_payment db (λ p. opt_eq p.provider_order_id (some dto.provider_order_id)) store)
        (not_found "Payment record not found")
  throw_if (not (payment.organization_id == organization_id)) (not_found "Payment record not found")
  booking ← or_throw (booking_of db store payment) (error "Booking of a payment not found")
  throw_if (not (booking.user_id == user_id)) (forbidden "Not authorized to verify this payment")
  let go = do
    throw_if (not (can_transition payment.status captured))
        (bad_request "Invalid state transition to CAPTURED")
    throw_if (not (is_verified (clients payment.provider) dto payment.amount))
        (bad_request "Invalid payment signature or verification failed")
    capture_verified db store user_id dto payment booking
  if payment.status =p captured then ok (booking, store) else go

-- What the tables are after a payment is verified: as before if it was captured already, and
-- otherwise its status allowed the capture, and the provider's proof was valid for its amount.
abbrev pub Captures :
    (PaymentProvider → ProviderClient)
    → PaymentStore
    → VerifyPaymentDto
    → Payment
    → PaymentStore
    → Type 0
Captures clients store dto payment after =
    HasStatus captured payment.id after.payments
    × (((payment.status ≡ captured) × (after ≡ store))
        ⊎ ((can_transition payment.status captured ≡ true)
            × (is_verified (clients payment.provider) dto payment.amount ≡ true)))

capture_verified-HasStatus :
    (db : Database) (store : PaymentStore) (user_id : ℕ) (dto : VerifyPaymentDto)
    (payment : Payment) (booking b : Booking) (after : PaymentStore)
    → IsKeyed store.payments
    → capture_verified db store user_id dto payment booking ≡ ok (b, after)
    → HasStatus captured payment.id after.payments
unfolding capture_verified
capture_verified-HasStatus db store user_id dto payment booking b after keyed h =
    let p = λ (p : Payment). p.id == payment.id in
    let (latest, el, h1) = or_throw-eq-ok (db.find_first p store.payments) _ _ h in
    elim (if-eq (latest.status =p captured) _ _ h1) [
      | inl (done, e) ↦
          let all = read-HasStatus db p store.payments latest captured el keyed done in
          let same = db.find_first-some p store.payments latest el in
          let named : latest.id ≡ payment.id = ground arith in
          let unchanged : store ≡ after = cc in
          subst (λ s. HasStatus captured payment.id s.payments) unchanged
            (subst (λ i. HasStatus captured i store.payments) named all)
      | inr (_, e) ↦
          let (r, er, h2) = >>=-eq-ok (capture db store payment (capture_by dto)) _ e in
          let all = capture-HasStatus db store payment (capture_by dto) r (λ a. (refl, refl)) er in
          let same : r.1.1.payments ≡ after.payments = cc in
          subst (HasStatus captured payment.id) same all
    ]

-- If a payment is verified, and the identifiers of the payments are distinct, then there are a row
-- of the payments, which is of the order and of the organization, and a row of the bookings, which
-- is the payment's booking and one of the user; each row of that payment is captured afterwards; and
-- either it was captured before and the tables are unchanged, or its status allowed the capture and
-- the provider's check of the checkout was passed for its amount.
pub verify_payment-Captures :
    (db : Database) (clients : PaymentProvider → ProviderClient) (store : PaymentStore)
    (organization_id user_id : ℕ) (dto : VerifyPaymentDto) (b : Booking) (after : PaymentStore)
    → IsKeyed store.payments
    → verify_payment db clients store organization_id user_id dto ≡ ok (b, after)
    → (payment : Payment) × (booking : Booking) × IsAmong payment store.payments
      × IsAmong booking store.bookings
      × (payment.provider_order_id ≡ some dto.provider_order_id)
      × (payment.organization_id ≡ organization_id)
      × (booking.id ≡ payment.booking_id)
      × (booking.user_id ≡ user_id)
      × Captures clients store dto payment after
unfolding verify_payment
verify_payment-Captures db clients store organization_id user_id dto b after keyed h =
    let p = λ (p : Payment). opt_eq p.provider_order_id (some dto.provider_order_id) in
    let (payment, ep, h1) = or_throw-eq-ok (find_payment db p store) _ _ h in
    let (mine, h2) = throw_if-eq-ok (not (payment.organization_id == organization_id)) _ _ h1 in
    let (booking, eb, h3) = or_throw-eq-ok (booking_of db store payment) _ _ h2 in
    let (owned, h4) = throw_if-eq-ok (not (booking.user_id == user_id)) _ _ h3 in
    let order = db.find_first-some p store.payments payment ep in
    let named =
      db.find_first-some (λ (b : Booking). b.id == payment.booking_id) store.bookings booking eb in
    (
      payment,
      booking,
      find_first-IsAmong db p store.payments payment ep,
      find_first-IsAmong db (λ (b : Booking). b.id == payment.booking_id) store.bookings booking eb,
      order_of payment.provider_order_id dto.provider_order_id order,
      ground arith,
      ground arith,
      ground arith,
      elim (if-eq (payment.status =p captured) _ _ h4) [
        | inl (done, e) ↦ (
          subst (λ (s : PaymentStore). HasStatus captured payment.id s.payments)
              (the_same store after booking b e)
              (read-HasStatus db p store.payments payment captured ep keyed done),
          inl (=p-eq payment.status captured done, cc),
        )
        | inr (_, e) ↦
            let (allowed, e1) =
              throw_if-eq-ok (not (can_transition payment.status captured)) _ _ e in
            let (valid, e2) =
              throw_if-eq-ok (not (is_verified (clients payment.provider) dto payment.amount)) _ _
                e1 in
            (
              capture_verified-HasStatus db store user_id dto payment booking b after keyed e2,
              inr (ground arith, ground arith),
            )
      ],
    )
  where
    the_same :
        (s t : PaymentStore) (x y : Booking)
        → ◌≡◌ {A = Result (Booking × PaymentStore)} (ok (x, s)) (ok (y, t))
        → s ≡ t
    the_same s t x y e = cc

    order_of : (o : Option ℕ) (n : ℕ) → opt_eq o (some n) ≡ true → o ≡ some n
    order_of none n e = absurd (cc)
    order_of (some a) n e = ground arith
