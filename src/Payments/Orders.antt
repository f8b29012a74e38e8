-- ===== src/Payments/Orders.antt =====
-- `createOrder` of backend/src/payments/payments.service.ts.
use playhub_playbooking.Common.{
  Bool, List, Option, Result, any, bad_request, conflict, err, filter, find, forbidden,
  if◌then◌else◌, none, not, not_found, ok, opt_eq, or_throw, some, throw_if, ℕ, ◌&&◌, ◌==◌, ◌>>=◌,
  ◌>>◌, ◌||◌, ◌∷◌,
}
use playhub_playbooking.Common.Database.{Database}
use playhub_playbooking.Payments.Types.{PaymentStore, ProviderClient}
use playhub_playbooking.Schema.{
  Booking, BookingStatus, Payment, PaymentProvider, PaymentStatus, authorized, captured, completed,
  initiated, provider_index, ◌=b◌, ◌=p◌,
}

abbrev provider_eq : PaymentProvider → PaymentProvider → Bool
provider_eq a b = provider_index a == provider_index b

abbrev pub is_open : PaymentStatus → Bool
is_open s = s =p initiated || s =p PaymentStatus.pending

abbrev pub is_paid : PaymentStatus → Bool
is_paid s = s =p captured || s =p authorized

abbrev pub payments_for : PaymentStore → Booking → List Payment
payments_for store booking = filter (λ p. p.booking_id == booking.id) store.payments

-- The order at the provider, and the row of the payment.
unfoldable pub insert_payment :
    ProviderClient
    → ℕ
    → PaymentStore
    → Booking
    → PaymentProvider
    → Option ℕ
    → Result (Payment × PaymentStore)
insert_payment client new_id store booking provider key = do
  total_price ← or_throw booking.total_price (bad_request "Booking has no price associated")
  order ← client.create_order total_price booking.id
  let payment : Payment = record {
    id = new_id;
    organization_id = booking.organization_id;
    booking_id = booking.id;
    amount = total_price;
    currency = booking.currency;
    status = initiated;
    provider = provider;
    provider_order_id = some order;
    provider_payment_id = none;
    provider_signature = none;
    idempotency_key = key;
  }
  ok (payment, record store { payments = payment ∷ store.payments })

-- The integrity checks: an open payment of the provider is returned, a paid booking is refused.
unfoldable pub reuse_or_insert :
    ProviderClient
    → ℕ
    → PaymentStore
    → Booking
    → PaymentProvider
    → Option ℕ
    → Result (Payment × PaymentStore)
reuse_or_insert client new_id store booking provider key =
    elim (find (λ p. provider_eq p.provider provider && is_open p.status)
      (payments_for store booking)) [
        | some reused ↦ ok (reused, store)
        | none ↦
            throw_if (any (λ p. is_paid p.status) (payments_for store booking))
              (conflict "Booking is already paid or authorized")
            >> insert_payment client new_id store booking provider key
      ]

-- `findUnique` by an idempotency key.
abbrev pub payment_of_key : Database → Option ℕ → List Payment → Option Payment
payment_of_key db none payments = none
payment_of_key db (some key) payments =
    db.find_first (λ p. opt_eq p.idempotency_key (some key)) payments

unfoldable pub replay_payment :
    PaymentStore
    → ℕ
    → ℕ
    → Option Payment
    → Result (Payment × PaymentStore)
    → Result (Payment × PaymentStore)
replay_payment store organization_id booking_id none rest = rest
replay_payment store organization_id booking_id (some existing) rest =
    if not (existing.booking_id == booking_id) || not (existing.organization_id == organization_id)
    then err (conflict "Idempotency key mismatch")
    else ok (existing, store)

unfoldable pub create_order :
    Database
    → (PaymentProvider → ProviderClient)
    → ℕ
    → PaymentStore
    → ℕ
    → ℕ
    → ℕ
    → Option ℕ
    → PaymentProvider
    → Result (Payment × PaymentStore)
create_order db clients new_id store organization_id user_id booking_id key provider = do
  booking ←
      or_throw
        (db.find_first (λ (b : Booking). b.id == booking_id && b.organization_id == organization_id)
          store.bookings)
        (not_found "Booking not found")
  throw_if (not (booking.user_id == user_id))
      (forbidden "Not authorized to create payment for this booking")
  throw_if (booking.status =b BookingStatus.cancelled || booking.status =b completed)
      (bad_request "Cannot pay for a booking in this status")
  replay_payment store organization_id booking_id (payment_of_key db key store.payments)
      (reuse_or_insert (clients provider) new_id store booking provider key)
