-- ===== src/Payments/Tests.antt =====
-- Tests of the payment service, and instances of its theorems.
use Prim.Native.String.{String}
use playhub_playbooking.Common.{
  List, Result, [], err, false, is_ok, map, none, ok, refl, some, true, ℕ, ◌*◌, ◌+◌, ◌==◌, ◌∷◌, ◌≡◌,
}
use playhub_playbooking.Availability.Tests.{booking}
use playhub_playbooking.Calendar.Utc.{hour}
use playhub_playbooking.Common.Database.{update_many, update_row}
use playhub_playbooking.Common.ListDatabase.{list_database}
use playhub_playbooking.Common.Queries.{IsAmong}
use playhub_playbooking.Payments.{
  HasStatus, IsKeyed, allowed, can_transition, capture, confirm_booking, is_terminal,
}
use playhub_playbooking.Payments.Delivery.{handle_webhook-once}
use playhub_playbooking.Payments.Orders.{
  create_order, insert_payment, replay_payment, reuse_or_insert,
}
use playhub_playbooking.Payments.Refunds.{
  initiate_refund, initiate_refund-once, reconcile_payment, refund_transaction,
}
use playhub_playbooking.Payments.Types.{
  PaymentStore, ProviderClient, VerifyPaymentDto, WebhookPayload, payment_captured,
}
use playhub_playbooking.Payments.Verify.{
  Captures, capture_verified, is_verified, verify_payment, verify_payment-Captures,
}
use playhub_playbooking.Payments.Webhook.{
  WebhookResponse, answer, capture_found, capture_latest, capture_webhook, dispatch, handle_webhook,
  record_webhook_event, refund_found, refund_webhook, success,
}
use playhub_playbooking.Schema.{
  Booking, BookingStatus, Payment, PaymentProvider, PaymentStatus, captured, confirmed, initiated,
  razorpay, refunded,
}

abbrev pub row : ℕ → PaymentStatus → Payment
row id status = record {
  id = id;
  organization_id = 5;
  booking_id = id;
  amount = 60000;
  currency = "INR";
  status = status;
  provider = razorpay;
  provider_order_id = some (70 + id);
  provider_payment_id = none;
  provider_signature = none;
  idempotency_key = none;
}

abbrev pub court : ℕ → BookingStatus → Booking
court id status = booking id (9 * hour) (10 * hour) status

-- An open payment of a pending booking, a captured one, and one of a booking that was cancelled.
abbrev pub store : PaymentStore
store = record {
  bookings =
      court 1 BookingStatus.pending ∷ court 2 confirmed ∷ court 3 BookingStatus.cancelled ∷ [];
  payments = row 1 initiated ∷ row 2 captured ∷ row 3 PaymentStatus.cancelled ∷ row 4 refunded ∷ [];
  webhook_events = [];
  events = [];
}

-- A signature is the order's number; the provider reports every order as paid.
abbrev pub client : ProviderClient
client = record {
  create_order = λ amount booking. ok (70 + booking);
  verify_checkout = some (λ dto amount. dto.signature == dto.provider_order_id);
  verify_signature = λ dto. false;
  verify_webhook_signature = λ payload signature. signature == 9;
  order_is_paid = some (λ order. true);
  initiate_refund = λ payment amount. ok 1;
}

abbrev pub clients : PaymentProvider → ProviderClient
clients provider = client

abbrev pub payload : String → ℕ → WebhookPayload
payload type order = record {
  id = some 500;
  event_id = none;
  event = some type;
  type = none;
  order_id = some order;
  payment_id = none;
  object_id = none;
  payment_intent = none;
  entity_order_id = none;
  entity_id = none;
}

abbrev pub dto : VerifyPaymentDto
dto = record { provider_order_id = 71; provider_payment_id = 90; signature = 71 }

unfoldable pub payment_program : Unit {0}
unfolding verify_payment capture_verified is_verified can_transition is_terminal allowed capture
    confirm_booking update_row update_many handle_webhook answer dispatch capture_webhook
    capture_found capture_latest refund_webhook refund_found record_webhook_event initiate_refund
    refund_transaction reconcile_payment create_order replay_payment reuse_or_insert insert_payment
payment_program = tt

abbrev after_of : {A : Type 0} → Result (A × PaymentStore) → PaymentStore
after_of (ok (a, after)) = after
after_of (err e) = store

abbrev verified : Result (Booking × PaymentStore)
verified = verify_payment list_database clients store 5 11 dto

pub store-IsKeyed : IsKeyed store.payments
store-IsKeyed = ((refl, (refl, (refl, tt))), ((refl, (refl, tt)), ((refl, tt), (tt, tt))))

verify_payment-Captures_example :
    (payment : Payment) × (booking : Booking) × IsAmong payment store.payments
    × IsAmong booking store.bookings
    × (payment.provider_order_id ≡ some 71)
    × (payment.organization_id ≡ 5)
    × (booking.id ≡ payment.booking_id)
    × (booking.user_id ≡ 11)
    × Captures clients store dto payment (after_of verified)
unfolding payment_program
verify_payment-Captures_example =
    verify_payment-Captures list_database clients store 5 11 dto (court 1 confirmed)
      (after_of verified) store-IsKeyed refl

abbrev notified : Result (WebhookResponse × PaymentStore)
notified = handle_webhook list_database clients 0 store razorpay (payload "payment.captured" 71) 9

handle_webhook-once_example :
    (again : WebhookResponse) × (handle_webhook list_database clients 1
        (after_of notified)
        razorpay
        (payload "payment.captured" 71)
        9
      ≡ ok (again, after_of notified))
unfolding payment_program
handle_webhook-once_example =
    handle_webhook-once list_database clients 0 1 store razorpay (payload "payment.captured" 71) 9
      500 success (after_of notified) refl refl

abbrev returned : Result (Payment × PaymentStore)
returned = initiate_refund list_database clients store 5 2

initiate_refund-once_example :
    HasStatus refunded 2 (after_of returned).payments
    × (is_ok (initiate_refund list_database clients (after_of returned) 5 2) ≡ false)
unfolding payment_program
initiate_refund-once_example =
    initiate_refund-once list_database clients store 5 2 (row 2 refunded) (after_of returned)
      store-IsKeyed refl

abbrev statuses : PaymentStore → List PaymentStatus
statuses s = map (λ p. p.status) s.payments

abbrev captured_late : PaymentStore
captured_late =
    after_of
      (handle_webhook list_database clients 0 store razorpay (payload "payment.captured" 73) 9)

-- A capture that arrives for the cancelled payment changes no status, and is emitted as a capture.
handle_webhook-cancelled :
    (statuses captured_late ≡ statuses store)
    × (captured_late.events ≡ payment_captured 3 3 5 11 60000 ∷ [])
unfolding payment_program
handle_webhook-cancelled = (refl, refl)

-- A refund that arrives for the open payment makes it refunded.
handle_webhook-refund :
    statuses (
      after_of
        (handle_webhook list_database clients 0 store razorpay (payload "refund.processed" 71) 9))
    ≡ refunded ∷ captured ∷ PaymentStatus.cancelled ∷ refunded ∷ []
unfolding payment_program
handle_webhook-refund = refl

-- Reconciliation takes the refunded payment back to captured.
reconcile_payment-refunded :
    statuses (after_of (reconcile_payment list_database clients store 5 4))
    ≡ initiated ∷ captured ∷ PaymentStatus.cancelled ∷ captured ∷ []
unfolding payment_program
reconcile_payment-refunded = refl
