-- ===== src/Webhooks/Received.antt =====
-- The rows that backend/src/webhooks/webhooks.service.ts stores, runs and retries are events whose
-- provider has signed them.
use playhub_playbooking.Common.{
  All, Bool-cases, Option, Option-cases, Result-cases, inl, inr, none, refl, some, true, ℕ, ◌==◌,
  ◌||◌, ◌≡◌,
}
use playhub_playbooking.Common.Database.{Database, update_many-All, update_row}
use playhub_playbooking.Finance.Records.{record_payment, record_refund}
use playhub_playbooking.Payments.{booking_of, find_payment}
use playhub_playbooking.Payments.Types.{ProviderClient}
use playhub_playbooking.Payments.Webhook.{
  either, event_id_of, id_or, is_capture, is_refund, order_id_of, payment_id_of, refers,
}
use playhub_playbooking.Schema.{Booking, Payment, PaymentProvider, captured, refunded, ◌=p◌}
use playhub_playbooking.Webhooks.{Step, current_books, mark, set_failed, set_processed}
use playhub_playbooking.Webhooks.Captured.{
  book_capture, capture_again, capture_payment, process_captured,
}
use playhub_playbooking.Webhooks.Refunded.{process_refund, refund_payment, set_refunded}
use playhub_playbooking.Webhooks.Types.{Hub, WebhookRow, ignored, is_processed, processing}
use playhub_playbooking.Webhooks.Worker.{
  catch_failure, process_event, process_webhook_event, retry_later,
}

-- Some signature of the payload was valid, and the row has the identifier of the event, or, where the
-- payload names none, a generated one.
abbrev pub IsReceived : (PaymentProvider → ProviderClient) → WebhookRow → Type 0
IsReceived clients r =
    ((signature : ℕ) × ((clients r.provider).verify_webhook_signature r.payload signature ≡ true))
    × ((generated : ℕ) × (r.provider_event_id ≡ id_or generated (event_id_of r.payload)))

module _ (clients : PaymentProvider → ProviderClient) where
  abbrev pub AllReceived : Hub → Type 0
  AllReceived hub = All (IsReceived clients) hub.webhooks

  abbrev KeepsEvent : (WebhookRow → WebhookRow) → Type 0
  KeepsEvent change =
      (r : WebhookRow)
      → ((change r).provider ≡ r.provider)
        × ((change r).provider_event_id ≡ r.provider_event_id)
        × ((change r).payload ≡ r.payload)

  pub mark-AllReceived :
      (id : ℕ) (change : WebhookRow → WebhookRow) (hub : Hub)
      → KeepsEvent change
      → AllReceived hub
      → AllReceived (mark id change hub)
  unfolding mark
  mark-AllReceived id change hub keeps all =
      update_many-All (IsReceived clients) (λ (r : WebhookRow). r.id == id) change hub.webhooks
        (λ r _ was. rw ((keeps r).0, (keeps r).1, (keeps r).2) was) all

  book_capture-AllReceived :
      (db : Database) (now new_id : ℕ) (hub : Hub) (event_id : ℕ) (payment : Payment)
      (transitioned : Option Booking)
      → AllReceived hub
      → AllReceived (book_capture db now new_id hub event_id payment transitioned).0
  unfolding book_capture mark
  book_capture-AllReceived db now new_id hub event_id payment transitioned all =
      elim (Option-cases (booking_of db hub.store payment)) [
        | inl e ↦ rw (book_capture, e) all
        | inr (booking, e) ↦
            let recording =
              record_payment db now new_id (current_books hub) payment.id payment.organization_id
                payment.amount in
            elim (Result-cases recording) [
              | inl ((t, books), r) ↦
                  rw (book_capture, e, r)
                    (mark-AllReceived event_id (set_processed payment) hub (λ r. (refl, refl, refl))
                      all)
              | inr (x, r) ↦ rw (book_capture, e, r) all
            ]
      ]

  process_captured-AllReceived :
      (db : Database) (now new_id : ℕ) (hub : Hub) (event_id : ℕ) (order_id payment_id : Option ℕ)
      → AllReceived hub
      → AllReceived (process_captured db now new_id hub event_id order_id payment_id).0
  unfolding process_captured capture_payment
  process_captured-AllReceived db now new_id hub event_id order_id payment_id all =
      let p = λ (p : Payment).
        refers order_id p.provider_order_id || refers payment_id p.provider_payment_id in
      elim (Option-cases (find_payment db p hub.store)) [
        | inl e ↦
            rw (process_captured, e)
              (mark-AllReceived event_id (set_failed "Payment record not found") hub
                (λ r. (refl, refl, refl)) all)
        | inr (payment, e) ↦ elim (Bool-cases (payment.status =p captured)) [
          | inl done ↦
              rw (process_captured, e, done)
                (mark-AllReceived event_id (set_processed payment) hub (λ r. (refl, refl, refl))
                  all)
          | inr go ↦ elim (Result-cases (capture_again db hub.store payment payment_id)) [
            | inl ((transitioned, store), k) ↦
                rw (process_captured, e, go, capture_payment, k)
                  (book_capture-AllReceived db now new_id (record hub { store = store }) event_id
                    payment transitioned all)
            | inr (x, k) ↦ rw (process_captured, e, go, capture_payment, k) all
          ]
        ]
      ]

  refund_payment-AllReceived :
      (db : Database) (now new_id : ℕ) (hub : Hub) (event_id : ℕ) (payment : Payment)
      → AllReceived hub
      → AllReceived (refund_payment db now new_id hub event_id payment).0
  unfolding refund_payment mark
  refund_payment-AllReceived db now new_id hub event_id payment all =
      let q = λ (p : Payment). p.id == payment.id in
      elim (Result-cases (update_row db q set_refunded hub.store.payments)) [
        | inr (x, e) ↦ rw (refund_payment, e) all
        | inl ((updated, payments), e) ↦
            let paid : Hub = record hub { store = record hub.store { payments = payments } } in
            let recording =
              record_refund db now new_id (current_books paid) payment.id payment.organization_id
                payment.amount in
            elim (Result-cases recording) [
              | inl ((t, books), r) ↦
                  rw (refund_payment, e, r)
                    (mark-AllReceived event_id (set_processed payment) hub (λ r. (refl, refl, refl))
                      all)
              | inr (x, r) ↦ rw (refund_payment, e, r) all
            ]
      ]

  process_refund-AllReceived :
      (db : Database) (now new_id : ℕ) (hub : Hub) (event_id : ℕ) (order_id payment_id : Option ℕ)
      → AllReceived hub
      → AllReceived (process_refund db now new_id hub event_id order_id payment_id).0
  unfolding process_refund refund_payment mark
  process_refund-AllReceived db now new_id hub event_id order_id payment_id all =
      let p = λ (p : Payment).
        refers payment_id p.provider_payment_id || refers order_id p.provider_order_id in
      elim (Option-cases (find_payment db p hub.store)) [
        | inl e ↦
            rw (process_refund, e)
              (mark-AllReceived event_id (set_failed "Payment record for refund not found") hub
                (λ r. (refl, refl, refl)) all)
        | inr (payment, e) ↦ elim (Bool-cases (payment.status =p refunded)) [
          | inl done ↦
              rw (process_refund, e, done)
                (mark-AllReceived event_id (set_processed payment) hub (λ r. (refl, refl, refl))
                  all)
          | inr go ↦
              rw (process_refund, e, go)
                (refund_payment-AllReceived db now new_id hub event_id payment all)
        ]
      ]

  process_event-AllReceived :
      (db : Database) (now new_id : ℕ) (hub : Hub) (event : WebhookRow)
      → AllReceived hub
      → AllReceived (process_event db now new_id hub event).0
  unfolding process_event
  process_event-AllReceived db now new_id hub event all =
      let payload = event.payload in
      let order_id = order_id_of payload in
      elim (Bool-cases (is_capture event.event_type)) [
        | inl e ↦
            rw (process_event, e)
              (process_captured-AllReceived db now new_id hub event.id order_id
                (payment_id_of payload) all)
        | inr e ↦ elim (Bool-cases (is_refund event.event_type)) [
          | inl k ↦
              rw (process_event, e, k)
                (process_refund-AllReceived db now new_id hub event.id order_id
                  (either payload.payment_id payload.payment_intent) all)
          | inr k ↦
              rw (process_event, e, k)
                (mark-AllReceived event.id (λ r. record r { status = ignored }) hub
                  (λ r. (refl, refl, refl)) all)
        ]
      ]

  catch_failure-AllReceived :
      (id : ℕ) (s : Step) → AllReceived s.0 → AllReceived (catch_failure id s).0
  unfolding catch_failure
  catch_failure-AllReceived id (hub, none) all = all
  catch_failure-AllReceived id (hub, some e) all =
      mark-AllReceived id (retry_later e) hub (λ r. (refl, refl, refl)) all

  pub process_webhook_event-AllReceived :
      (db : Database) (now new_id : ℕ) (hub : Hub) (id : ℕ)
      → AllReceived hub
      → AllReceived (process_webhook_event db now new_id hub id).0
  unfolding process_webhook_event
  process_webhook_event-AllReceived db now new_id hub id all =
      elim (Option-cases (db.find_first (λ (r : WebhookRow). r.id == id) hub.webhooks)) [
        | inl e ↦ rw (process_webhook_event, e) all
        | inr (event, e) ↦ elim (Bool-cases (is_processed event.status)) [
          | inl done ↦ rw (process_webhook_event, e, done) all
          | inr go ↦
              let begin = λ (r : WebhookRow). record r { status = processing } in
              let started = mark id begin hub in
              rw (process_webhook_event, e, go)
                (catch_failure-AllReceived id (process_event db now new_id started event) (
                  process_event-AllReceived db now new_id started event
                    (mark-AllReceived id begin hub (λ r. (refl, refl, refl)) all)))
        ]
      ]
