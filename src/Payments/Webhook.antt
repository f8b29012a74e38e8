-- ===== src/Payments/Webhook.antt =====
-- `handleWebhook` and `recordWebhookEvent` of backend/src/payments/payments.service.ts.
use Prim.Native.String.{String}
use text.Mathlib.Text.{◌==◌ as str_eq}
use playhub_playbooking.Common.{
  Bool, Option, Result, bad_request, err, error, false, if◌then◌else◌, is_some, none, not, ok,
  opt_eq, or_throw, some, throw_if, ℕ, ◌&&◌, ◌++◌, ◌==◌, ◌>>=◌, ◌>>◌, ◌||◌, ◌∷◌,
}
use playhub_playbooking.Common.Database.{Database, update_row}
use playhub_playbooking.Payments.{
  booking_of, can_transition, capture, captured_event, confirmed_events, find_payment,
}
use playhub_playbooking.Payments.Types.{
  PaymentStore, ProviderClient, WebhookEvent, WebhookPayload, payment_refunded,
}
use playhub_playbooking.Schema.{
  Booking, Payment, PaymentProvider, captured, provider_index, refunded, ◌=p◌,
}

-- The answers to the provider.
pub data WebhookResponse : Type 0 where
  duplicate no_identifier payment_not_found already_processed success : WebhookResponse
  refund_not_found already_refunded received : WebhookResponse

abbrev pub either : Option ℕ → Option ℕ → Option ℕ
either (some a) b = some a
either none b = b

abbrev pub order_id_of : WebhookPayload → Option ℕ
order_id_of payload = either payload.order_id (either payload.object_id payload.entity_order_id)

abbrev pub payment_id_of : WebhookPayload → Option ℕ
payment_id_of payload = either payload.payment_id (either payload.payment_intent payload.entity_id)

abbrev pub event_id_of : WebhookPayload → Option ℕ
event_id_of payload = either payload.id payload.event_id

abbrev pub event_type_of : WebhookPayload → Option String
event_type_of payload = elim payload.event [ some t ↦ some t | none ↦ payload.type ]

-- A condition of a query: a value that is missing matches no row.
abbrev pub refers : Option ℕ → Option ℕ → Bool
refers none actual = false
refers (some n) actual = opt_eq actual (some n)

abbrev pub same_event : PaymentProvider → ℕ → WebhookEvent → Bool
same_event provider event_id e =
    provider_index e.provider == provider_index provider && e.provider_event_id == event_id

-- The event's provider, identifier and type are unique keys or required: `create` fails without
-- them, and the failure is caught.
unfoldable pub record_webhook_event :
    Database → PaymentProvider → ℕ → Option String → String → Option ℕ → PaymentStore → PaymentStore
record_webhook_event db provider event_id none status payment_id store = store
record_webhook_event db provider event_id (some type) status payment_id store =
    if is_some (db.find_first (same_event provider event_id) store.webhook_events)
    then store
    else record store {
      webhook_events =
          record {
            provider = provider;
            provider_event_id = event_id;
            event_type = type;
            status = status;
            payment_id = payment_id;
          }
          ∷ store.webhook_events;
    }

-- The transaction: a payment that may not be captured is left as it is.
unfoldable pub capture_latest :
    Database
    → PaymentStore
    → Payment
    → Payment
    → Option ℕ
    → Result (Payment × (Option Booking × PaymentStore))
capture_latest db store payment latest payment_id =
    if can_transition latest.status captured
    then capture db store payment (λ p. record p {
      status = captured;
      provider_payment_id = either payment_id latest.provider_payment_id;
    })
    else ok (latest, (none, store))

module _ (db : Database) (provider : PaymentProvider) (event_id : ℕ) (type : String)
    (store : PaymentStore) where
  -- The transaction, its record and its events. A payment that may not be captured is left, and
  -- the event is recorded and emitted like that of one that is.
  unfoldable pub capture_found : Option ℕ → Payment → Result (WebhookResponse × PaymentStore)
  capture_found payment_id payment = do
    booking ← or_throw (booking_of db store payment) (error "Booking of a payment not found")
    latest ←
        or_throw (find_payment db (λ p. p.id == payment.id) store)
          (error "Payment record not found")
    r ← capture_latest db store payment latest payment_id
    let after =
        record_webhook_event db provider event_id (some type) "SUCCESS" (some payment.id) r.1.1
    ok (
      success,
      record after {
        events =
            confirmed_events r.1.0 payment.booking_id payment.organization_id booking.user_id
            ++ captured_event payment booking.user_id ∷ after.events;
      },
    )

  unfoldable pub capture_webhook : Option ℕ → Option ℕ → Result (WebhookResponse × PaymentStore)
  capture_webhook order_id payment_id =
      elim (find_payment db
        (λ p. refers order_id p.provider_order_id || refers payment_id p.provider_payment_id)
        store) [
          | none ↦ ok (
            payment_not_found,
            record_webhook_event db provider event_id (some type) "NOT_FOUND" none store,
          )
          | some payment ↦
              let found = capture_found payment_id payment in
              if payment.status =p captured
              then ok (
                already_processed,
                record_webhook_event db provider event_id (some type) "ALREADY_PROCESSED"
                    (some payment.id) store,
              )
              else found
        ]

  -- The update of a refund; its failure is caught.
  unfoldable pub refund_found : Payment → WebhookResponse × PaymentStore
  refund_found payment =
      elim (update_row db (λ (p : Payment). p.id == payment.id && not (p.status =p refunded))
        (λ p. record p { status = refunded }) store.payments) [
          | err e ↦ (success, store)
          | ok (p, payments) ↦
              let after =
                record_webhook_event db provider event_id (some type) "SUCCESS" (some payment.id)
                  (record store { payments = payments }) in
              (
                success,
                record after {
                  events =
                      payment_refunded p.id p.booking_id p.organization_id p.amount ∷ after.events;
                },
              )
        ]

  unfoldable pub refund_webhook : Option ℕ → Option ℕ → WebhookResponse × PaymentStore
  refund_webhook order_id payment_id =
      elim (find_payment db
        (λ p. refers payment_id p.provider_payment_id || refers order_id p.provider_order_id)
        store) [
          | none ↦ (
            refund_not_found,
            record_webhook_event db provider event_id (some type) "NOT_FOUND" none store,
          )
          | some payment ↦
              if payment.status =p refunded
              then (
                already_refunded,
                record_webhook_event db provider event_id (some type) "ALREADY_PROCESSED"
                    (some payment.id) store,
              )
              else refund_found payment
        ]

abbrev pub is_capture : String → Bool
is_capture type =
    str_eq type "payment.captured"
    || str_eq type "checkout.session.completed"
    || str_eq type "payment_intent.succeeded"

abbrev pub is_refund : String → Bool
is_refund type = str_eq type "refund.processed" || str_eq type "charge.refunded"

-- What follows the check for a known event.
unfoldable pub dispatch :
    Database
    → PaymentProvider
    → ℕ
    → Option String
    → PaymentStore
    → WebhookPayload
    → Result (WebhookResponse × PaymentStore)
dispatch db provider event_id none store payload =
    if is_some (order_id_of payload) || is_some (payment_id_of payload)
    then ok (received, store)
    else ok (no_identifier, store)
dispatch db provider event_id (some type) store payload =
    let order_id = order_id_of payload in
    let payment_id = payment_id_of payload in
    let recorded = λ (status : String).
      record_webhook_event db provider event_id (some type) status none store in
    if not (is_some order_id || is_some payment_id)
    then ok (no_identifier, recorded "SKIPPED")
    else if is_capture type
    then capture_webhook db provider event_id type store order_id payment_id
    else if is_refund type
    then ok (
        refund_webhook db provider event_id type store order_id
          (either payload.payment_id payload.payment_intent))
    else ok (received, recorded "UNHANDLED")

-- The check for a known event, and the rest.
unfoldable pub answer :
    Database
    → PaymentProvider
    → ℕ
    → PaymentStore
    → WebhookPayload
    → Result (WebhookResponse × PaymentStore)
answer db provider event_id store payload =
    if is_some (db.find_first (same_event provider event_id) store.webhook_events)
    then ok (duplicate, store)
    else dispatch db provider event_id (event_type_of payload) store payload

abbrev pub id_or : ℕ → Option ℕ → ℕ
id_or generated none = generated
id_or generated (some n) = n

-- `generated` is the identifier that is made up for an event that has none.
unfoldable pub handle_webhook :
    Database
    → (PaymentProvider → ProviderClient)
    → ℕ
    → PaymentStore
    → PaymentProvider
    → WebhookPayload
    → ℕ
    → Result (WebhookResponse × PaymentStore)
handle_webhook db clients generated store provider payload signature = do
  throw_if (not ((clients provider).verify_webhook_signature payload signature))
      (bad_request "Invalid webhook signature")
  answer db provider (id_or generated (event_id_of payload)) store payload
