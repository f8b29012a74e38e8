-- ===== src/Payments/Delivery.antt =====
-- Webhooks of backend/src/payments/payments.service.ts that are delivered more than once.
use Prim.Native.String.{String}
use playhub_playbooking.Common.{
  >>=-eq-ok, Bool-cases, List, Option, Option-cases, Result-cases, arith, if-eq, if◌then◌else◌, inl,
  inr, is_some, none, not, ok, or_throw-eq-ok, refl, some, subst, sym, throw_if-eq-ok, true, ℕ,
  ◌&&◌, ◌==◌, ◌||◌, ◌∷◌, ◌≡◌, ◌⊎◌,
}
use playhub_playbooking.Common.Database.{Database, update_row}
use playhub_playbooking.Payments.{booking_of, find_payment}
use playhub_playbooking.Payments.Types.{
  PaymentStore, ProviderClient, WebhookEvent, WebhookPayload, payment_refunded,
}
use playhub_playbooking.Payments.Webhook.{
  WebhookResponse, already_processed, already_refunded, answer, capture_found, capture_latest,
  capture_webhook, dispatch, duplicate, either, event_id_of, event_type_of, handle_webhook,
  is_capture, is_refund, order_id_of, payment_id_of, payment_not_found, record_webhook_event,
  refers, refund_found, refund_not_found, refund_webhook, same_event, success,
}
use playhub_playbooking.Schema.{Payment, PaymentProvider, captured, refunded, ◌=p◌}

-- The event is known in the table.
abbrev IsKnown : Database → PaymentProvider → ℕ → List WebhookEvent → Type 0
IsKnown db provider event_id events =
    is_some (db.find_first (same_event provider event_id) events) ≡ true

record_webhook_event-IsKnown :
    (db : Database) (provider : PaymentProvider) (event_id : ℕ) (type status : String)
    (payment_id : Option ℕ) (store : PaymentStore)
    → IsKnown db provider event_id
        (record_webhook_event db provider event_id
          (some type)
          status
          payment_id
          store).webhook_events
unfolding record_webhook_event
record_webhook_event-IsKnown db provider event_id type status payment_id store =
    let p = same_event provider event_id in
    elim (Bool-cases (is_some (db.find_first p store.webhook_events))) [
      | inl e ↦ rw e e
      | inr e ↦
          let row : WebhookEvent = record {
            provider = provider;
            provider_event_id = event_id;
            event_type = type;
            status = status;
            payment_id = payment_id;
          } in
          rw e (elim (Option-cases (db.find_first p (row ∷ store.webhook_events))) [
            | inl missing ↦
                absurd
                  (ground (arith, (db.find_first-none p (row ∷ store.webhook_events) missing).0))
            | inr (a, found) ↦ ground arith
          ])
    ]

-- The event is known after the answer, or the answer changes nothing.
abbrev IsSettled : Database → PaymentProvider → ℕ → PaymentStore → PaymentStore → Type 0
IsSettled db provider event_id store after =
    IsKnown db provider event_id after.webhook_events ⊎ (after ≡ store)

module _ (db : Database) (provider : PaymentProvider) (event_id : ℕ) (type : String)
    (store : PaymentStore) (response : WebhookResponse) (after : PaymentStore) where
  recorded-IsSettled :
      (status : String) (payment_id : Option ℕ) (was : PaymentStore)
      → after.webhook_events
        ≡ (record_webhook_event db provider event_id
            (some type)
            status
            payment_id
            was).webhook_events
      → IsSettled db provider event_id store after
  recorded-IsSettled status payment_id was e =
      inl (rw e (record_webhook_event-IsKnown db provider event_id type status payment_id was))

  capture_found-IsSettled :
      (payment_id : Option ℕ) (payment : Payment)
      → capture_found db provider event_id type store payment_id payment ≡ ok (response, after)
      → IsSettled db provider event_id store after
  unfolding capture_found
  capture_found-IsSettled payment_id payment h =
      let (booking, eb, h1) = or_throw-eq-ok (booking_of db store payment) _ _ h in
      let (latest, el, h2) =
        or_throw-eq-ok (find_payment db (λ p. p.id == payment.id) store) _ _ h1 in
      let (r, er, h3) = >>=-eq-ok (capture_latest db store payment latest payment_id) _ h2 in
      recorded-IsSettled "SUCCESS" (some payment.id) r.1.1 (cc)

  capture_webhook-IsSettled :
      (order_id payment_id : Option ℕ)
      → capture_webhook db provider event_id type store order_id payment_id ≡ ok (response, after)
      → IsSettled db provider event_id store after
  unfolding capture_webhook
  capture_webhook-IsSettled order_id payment_id h =
      let p = λ (p : Payment).
        refers order_id p.provider_order_id || refers payment_id p.provider_payment_id in
      elim (Option-cases (find_payment db p store)) [
        | inl e ↦
            let k : ok (
              payment_not_found,
              record_webhook_event db provider event_id (some type) "NOT_FOUND" none store,
            )
                ≡ ok (response, after) =
              rw (capture_webhook, e) at h in
            recorded-IsSettled "NOT_FOUND" none store (cc)
        | inr (payment, e) ↦
            let k : (if payment.status =p captured
                  then ok (
                    already_processed,
                    record_webhook_event db provider event_id (some type) "ALREADY_PROCESSED"
                        (some payment.id) store,
                  )
                  else capture_found db provider event_id type store payment_id payment)
                ≡ ok (response, after) =
              rw (capture_webhook, e) at h in
            elim (if-eq (payment.status =p captured) _ _ k) [
              | inl (_, same) ↦ recorded-IsSettled "ALREADY_PROCESSED" (some payment.id) store (cc)
              | inr (_, found) ↦ capture_found-IsSettled payment_id payment found
            ]
      ]

  refund_found-IsSettled :
      (payment : Payment)
      → refund_found db provider event_id type store payment ≡ (response, after)
      → IsSettled db provider event_id store after
  unfolding refund_found
  refund_found-IsSettled payment h =
      let p = λ (p : Payment). p.id == payment.id && not (p.status =p refunded) in
      let change = λ (p : Payment). record p { status = refunded } in
      elim (Result-cases (update_row db p change store.payments)) [
        | inl ((q, payments), e) ↦
            let was : PaymentStore = record store { payments = payments } in
            let recorded =
              record_webhook_event db provider event_id (some type) "SUCCESS" (some payment.id)
                was in
            let k : (
              success,
              record recorded {
                events =
                    payment_refunded q.id q.booking_id q.organization_id q.amount ∷ recorded.events;
              },
            )
                ≡ (response, after) =
              rw (refund_found, e) at h in
            recorded-IsSettled "SUCCESS" (some payment.id) was (cc)
        | inr (x, e) ↦
            let k : (success, store) ≡ (response, after) = rw (refund_found, e) at h in inr (cc)
      ]

  refund_webhook-IsSettled :
      (order_id payment_id : Option ℕ)
      → refund_webhook db provider event_id type store order_id payment_id ≡ (response, after)
      → IsSettled db provider event_id store after
  unfolding refund_webhook
  refund_webhook-IsSettled order_id payment_id h =
      let p = λ (p : Payment).
        refers payment_id p.provider_payment_id || refers order_id p.provider_order_id in
      elim (Option-cases (find_payment db p store)) [
        | inl e ↦
            let k : (
              refund_not_found,
              record_webhook_event db provider event_id (some type) "NOT_FOUND" none store,
            )
                ≡ (response, after) =
              rw (refund_webhook, e) at h in
            recorded-IsSettled "NOT_FOUND" none store (cc)
        | inr (payment, e) ↦
            let k : (if payment.status =p refunded
                  then (
                    already_refunded,
                    record_webhook_event db provider event_id (some type) "ALREADY_PROCESSED"
                        (some payment.id) store,
                  )
                  else refund_found db provider event_id type store payment)
                ≡ (response, after) =
              rw (refund_webhook, e) at h in
            elim (if-eq (payment.status =p refunded) _ _ k) [
              | inl (_, same) ↦ recorded-IsSettled "ALREADY_PROCESSED" (some payment.id) store (cc)
              | inr (_, found) ↦ refund_found-IsSettled payment found
            ]
      ]

dispatch-IsSettled :
    (db : Database) (provider : PaymentProvider) (event_id : ℕ) (type : Option String)
    (store : PaymentStore) (payload : WebhookPayload) (response : WebhookResponse)
    (after : PaymentStore)
    → dispatch db provider event_id type store payload ≡ ok (response, after)
    → IsSettled db provider event_id store after
unfolding dispatch
dispatch-IsSettled db provider event_id none store payload response after h =
    elim (if-eq (is_some (order_id_of payload) || is_some (payment_id_of payload)) _ _ h) [
      | inl (_, e) ↦ inr (cc)
      | inr (_, e) ↦ inr (cc)
    ]
dispatch-IsSettled db provider event_id (some type) store payload response after h =
    let order_id = order_id_of payload in
    let payment_id = payment_id_of payload in
    elim (if-eq (not (is_some order_id || is_some payment_id)) _ _ h) [
      | inl (_, e) ↦
          recorded-IsSettled db provider event_id type store response after "SKIPPED" none store
            (cc)
      | inr (_, h1) ↦ elim (if-eq (is_capture type) _ _ h1) [
        | inl (_, e) ↦
            capture_webhook-IsSettled db provider event_id type store response after order_id
              payment_id e
        | inr (_, h2) ↦ elim (if-eq (is_refund type) _ _ h2) [
          | inl (_, e) ↦
              refund_webhook-IsSettled db provider event_id type store response after order_id
                (either payload.payment_id payload.payment_intent) (cc)
          | inr (_, e) ↦
              recorded-IsSettled db provider event_id type store response after "UNHANDLED" none
                store (cc)
        ]
      ]
    ]

answer-once :
    (db : Database) (provider : PaymentProvider) (event_id : ℕ) (store : PaymentStore)
    (payload : WebhookPayload) (response : WebhookResponse) (after : PaymentStore)
    → answer db provider event_id store payload ≡ ok (response, after)
    → (again : WebhookResponse) × (answer db provider event_id after payload ≡ ok (again, after))
unfolding answer
answer-once db provider event_id store payload response after h =
    let p = same_event provider event_id in
    let unchanged : after ≡ store
        → answer db provider event_id after payload ≡ ok (response, after) =
      λ same.
        subst (λ s. answer db provider event_id s payload ≡ ok (response, after)) (sym same) h in
    elim (if-eq (is_some (db.find_first p store.webhook_events)) _ _ h) [
      | inl (_, e) ↦ (response, unchanged (cc))
      | inr (_, e) ↦
          elim (dispatch-IsSettled db provider event_id (event_type_of payload) store payload
            response after e) [
              | inl known ↦ (duplicate, rw known refl)
              | inr same ↦ (response, unchanged same)
            ]
    ]

-- If a webhook whose event has an identifier is answered, then the same webhook, delivered again,
-- is answered as well, and changes nothing.
pub handle_webhook-once :
    (db : Database) (clients : PaymentProvider → ProviderClient) (generated later : ℕ)
    (store : PaymentStore) (provider : PaymentProvider) (payload : WebhookPayload)
    (signature event_id : ℕ) (response : WebhookResponse) (after : PaymentStore)
    → event_id_of payload ≡ some event_id
    → handle_webhook db clients generated store provider payload signature ≡ ok (response, after)
    → (again : WebhookResponse) × (handle_webhook db clients later after provider payload signature
        ≡ ok (again, after))
unfolding handle_webhook
handle_webhook-once db clients generated later store provider payload signature event_id response
      after named h =
    let (valid, h1) =
      throw_if-eq-ok (not ((clients provider).verify_webhook_signature payload signature)) _ _ h in
    let first : answer db provider event_id store payload ≡ ok (response, after) = rw named at h1 in
    let (again, e) = answer-once db provider event_id store payload response after first in
    (again, rw (valid, named) e)
