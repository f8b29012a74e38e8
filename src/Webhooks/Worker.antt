-- ===== src/Webhooks/Worker.antt =====
-- `processWebhookEvent` and `retryWebhookEvent` of backend/src/webhooks/webhooks.service.ts.
use Prim.Native.String.{String}
use playhub_playbooking.Common.{
  Exception, Result, bad_request, conflict, error, forbidden, if◌then◌else◌, none, not_found, ok,
  or_throw, some, unauthorized, ℕ, ◌+◌, ◌==◌, ◌>>=◌, ◌∷◌,
}
use playhub_playbooking.Common.Database.{Database}
use playhub_playbooking.Payments.Webhook.{either, is_capture, is_refund, order_id_of, payment_id_of}
use playhub_playbooking.Webhooks.{Step, mark}
use playhub_playbooking.Webhooks.Captured.{process_captured}
use playhub_playbooking.Webhooks.Refunded.{process_refund}
use playhub_playbooking.Webhooks.Types.{
  Hub, WebhookRow, failed, ignored, is_processed, processing, queued,
}

-- What is done for the type of the event.
unfoldable pub process_event : Database → ℕ → ℕ → Hub → WebhookRow → Step
process_event db now new_id hub event =
    let payload = event.payload in
    let order_id = order_id_of payload in
    if is_capture event.event_type
    then process_captured db now new_id hub event.id order_id (payment_id_of payload)
    else if is_refund event.event_type
    then process_refund db now new_id hub event.id order_id
        (either payload.payment_id payload.payment_intent)
    else (mark event.id (λ r. record r { status = ignored }) hub, none)

abbrev pub message_of : Exception → String
message_of (error m) = m
message_of (bad_request m) = m
message_of (not_found m) = m
message_of (forbidden m) = m
message_of (conflict m) = m
message_of (unauthorized m) = m

abbrev pub retry_later : Exception → WebhookRow → WebhookRow
retry_later e r = record r {
  status = failed;
  retry_count = r.retry_count + 1;
  last_error = some (message_of e);
}

-- The `catch`: the row is marked, and the exception is thrown on.
unfoldable pub catch_failure : ℕ → Step → Step
catch_failure id (hub, none) = (hub, none)
catch_failure id (hub, some e) = (mark id (retry_later e) hub, some e)

unfoldable pub process_webhook_event : Database → ℕ → ℕ → Hub → ℕ → Step
process_webhook_event db now new_id hub webhook_id =
    elim (db.find_first (λ (r : WebhookRow). r.id == webhook_id) hub.webhooks) [
      | none ↦ (hub, none)
      | some event ↦
          let started = mark webhook_id (λ r. record r { status = processing }) hub in
          if is_processed event.status
          then (hub, none)
          else catch_failure webhook_id (process_event db now new_id started event)
    ]

unfoldable pub retry_webhook_event : Database → Hub → ℕ → Result Hub
retry_webhook_event db hub webhook_id = do
  log ←
      or_throw (db.find_first (λ (r : WebhookRow). r.id == webhook_id) hub.webhooks)
        (not_found "Webhook event log not found")
  let queued_again = mark webhook_id (λ r. record r { status = queued; last_error = none }) hub
  ok (record queued_again { jobs = webhook_id ∷ queued_again.jobs })
