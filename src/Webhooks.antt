-- ===== src/Webhooks.antt =====
-- backend/src/webhooks/webhooks.service.ts: a webhook is stored and queued, and a worker then captures
-- or refunds the payment and records it in the books. A worker runs alone on the tables, and what it
-- has written stays written when a later step throws: its result is the tables with an exception or
-- none. `new_id` is the identifier that the database gives the new row.
pub mod Types
pub mod Captured
pub mod Refunded
pub mod Worker
pub mod Outcomes
pub mod Runs
pub mod Received
pub mod History
pub mod Credits
mod Tests
use Prim.Native.String.{String}
use playhub_playbooking.Common.{
  Bool, Exception, Option, Result, bad_request, if◌then◌else◌, is_some, none, not, ok, some,
  throw_if, ℕ, ◌&&◌, ◌==◌, ◌>>◌, ◌∷◌,
}
use playhub_playbooking.Common.Database.{Database, update_many}
use playhub_playbooking.Finance.Types.{Books}
use playhub_playbooking.Payments.Types.{ProviderClient, WebhookPayload}
use playhub_playbooking.Payments.Webhook.{event_id_of, event_type_of, id_or}
use playhub_playbooking.Schema.{Payment, PaymentProvider, provider_index}
use playhub_playbooking.Webhooks.Types.{Hub, WebhookRow, failed, processed, queued}

abbrev pub same_key : PaymentProvider → ℕ → WebhookRow → Bool
same_key provider event_id row =
    provider_index row.provider == provider_index provider && row.provider_event_id == event_id

pub data Receipt : Type 0 where
  duplicate : Receipt
  queued_event : ℕ → Receipt

-- The stored row and the queued job; a row with the same provider and event violates the table's
-- unique key.
unfoldable pub enqueue : Database → ℕ → Hub → PaymentProvider → ℕ → WebhookPayload → Receipt × Hub
enqueue db new_id hub provider event_id payload =
    if is_some (db.find_first (same_key provider event_id) hub.webhooks)
    then (duplicate, hub)
    else (
      queued_event event_id,
      record hub {
        webhooks =
            record {
              id = new_id;
              provider = provider;
              provider_event_id = event_id;
              event_type = elim (event_type_of payload) [ some t ↦ t | none ↦ "unknown.event" ];
              status = queued;
              payload = payload;
              payment_id = none;
              retry_count = 0;
              last_error = none;
            }
            ∷ hub.webhooks;
        jobs = new_id ∷ hub.jobs;
      },
    )

unfoldable pub receive_webhook :
    Database
    → (PaymentProvider → ProviderClient)
    → ℕ
    → ℕ
    → Hub
    → PaymentProvider
    → WebhookPayload
    → ℕ
    → Result (Receipt × Hub)
receive_webhook db clients new_id generated hub provider payload signature =
    throw_if (not ((clients provider).verify_webhook_signature payload signature))
      (bad_request "Invalid webhook signature")
    >> ok (enqueue db new_id hub provider (id_or generated (event_id_of payload)) payload)

-- `update` of the row of an event.
unfoldable pub mark : ℕ → (WebhookRow → WebhookRow) → Hub → Hub
mark id change hub = record hub {
  webhooks = update_many (λ (r : WebhookRow). r.id == id) change hub.webhooks;
}

abbrev pub set_processed : Payment → WebhookRow → WebhookRow
set_processed payment r = record r { status = processed; payment_id = some payment.id }

abbrev pub set_failed : String → WebhookRow → WebhookRow
set_failed message r = record r { status = failed; last_error = some message }

-- The books over the table of payments as it is.
abbrev pub current_books : Hub → Books
current_books hub = record hub.books { payments = hub.store.payments }

-- A worker's step: the tables, with an exception or none.
abbrev pub Step : Type 0
Step = Hub × Option Exception
