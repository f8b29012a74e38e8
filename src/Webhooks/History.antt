-- ===== src/Webhooks/History.antt =====
-- Any sequence of webhooks, runs of the worker and retries of
-- backend/src/webhooks/webhooks.service.ts.
use playhub_playbooking.Common.{List, Result, [], err, ok, ℕ, ◌∷◌}
use playhub_playbooking.Common.Database.{Database}
use playhub_playbooking.Payments.Types.{ProviderClient, WebhookPayload}
use playhub_playbooking.Schema.{PaymentProvider}
use playhub_playbooking.Webhooks.{Receipt, receive_webhook}
use playhub_playbooking.Webhooks.Types.{Hub}
use playhub_playbooking.Webhooks.Worker.{process_webhook_event, retry_webhook_event}

-- The identifiers are those that the database gives a new row, the time that of a run.
pub data Action : Type 0 where
  receive : (new_id generated : ℕ) → PaymentProvider → WebhookPayload → (signature : ℕ) → Action
  process : (now new_id webhook : ℕ) → Action
  retry : ℕ → Action

abbrev hub_after : Hub → Result (Receipt × Hub) → Hub
hub_after hub (ok (receipt, after)) = after
hub_after hub (err e) = hub

abbrev requeued : Hub → Result Hub → Hub
requeued hub (ok after) = after
requeued hub (err e) = hub

-- The tables after an action; a run of the worker that throws keeps what it has written.
unfoldable pub act : Database → (PaymentProvider → ProviderClient) → Hub → Action → Hub
act db clients hub (receive new_id generated provider payload signature) =
    hub_after hub (receive_webhook db clients new_id generated hub provider payload signature)
act db clients hub (process now new_id webhook) =
    (process_webhook_event db now new_id hub webhook).0
act db clients hub (retry webhook) = requeued hub (retry_webhook_event db hub webhook)

unfoldable pub run : Database → (PaymentProvider → ProviderClient) → Hub → List Action → Hub
run db clients hub [] = hub
run db clients hub (a ∷ rest) = run db clients (act db clients hub a) rest
