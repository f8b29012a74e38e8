-- ===== src/Webhooks/Runs.antt =====
-- The runs of the worker of backend/src/webhooks/webhooks.service.ts, and their failures.
use playhub_playbooking.Common.{
  All, Bool-cases, Exception, List, Option-cases, [], arith, inl, inr, none, refl, some, subst, sym,
  ℕ, ◌<◌, ◌==◌, ◌∙◌, ◌∷◌, ◌≡◌,
}
use playhub_playbooking.Common.Database.{Database, update_many}
use playhub_playbooking.Finance.Ledger.{IsBalanced}
use playhub_playbooking.Finance.Types.{Books}
use playhub_playbooking.Payments.Webhook.{either, is_capture, is_refund, order_id_of, payment_id_of}
use playhub_playbooking.Webhooks.{Step, mark}
use playhub_playbooking.Webhooks.Outcomes.{
  HasDistinctEvents, IsSafe, Keeps, mark-HasDistinctEvents, mark-Keeps, process_captured-IsSafe,
  process_refund-IsSafe,
}
use playhub_playbooking.Webhooks.Types.{Hub, WebhookRow, failed, ignored, is_processed, processing}
use playhub_playbooking.Webhooks.Worker.{
  catch_failure, message_of, process_event, process_webhook_event, retry_later,
}

process_event-IsSafe :
    (db : Database) (now new_id : ℕ) (hub : Hub) (event : WebhookRow)
    → IsSafe hub (process_event db now new_id hub event)
unfolding process_event
process_event-IsSafe db now new_id hub event =
    let payload = event.payload in
    let order_id = order_id_of payload in
    elim (Bool-cases (is_capture event.event_type)) [
      | inl e ↦
          rw (process_event, e)
            (process_captured-IsSafe db now new_id hub event.id order_id (payment_id_of payload))
      | inr e ↦ elim (Bool-cases (is_refund event.event_type)) [
        | inl k ↦
            rw (process_event, e, k)
              (process_refund-IsSafe db now new_id hub event.id order_id
                (either payload.payment_id payload.payment_intent))
        | inr k ↦
            rw (process_event, e, k)
              (mark-Keeps event.id (λ r. record r { status = ignored }) hub (λ r. (refl, refl)))
      ]
    ]

-- After a failed run the rows of the event are failed, with the message.
abbrev pub HasFailed : ℕ → Exception → Hub → Type 0
HasFailed id e hub =
    All
      (λ (r : WebhookRow).
        r.id ≡ id
        → (r.status ≡ failed) × (r.last_error ≡ some (message_of e)) × (0 < r.retry_count))
      hub.webhooks

marked-HasFailed :
    (id : ℕ) (e : Exception) (rows : List WebhookRow)
    → All
        (λ (r : WebhookRow).
          r.id ≡ id
          → (r.status ≡ failed) × (r.last_error ≡ some (message_of e)) × (0 < r.retry_count))
        (update_many (λ (r : WebhookRow). r.id == id) (retry_later e) rows)
unfolding update_many
marked-HasFailed id e [] = tt
marked-HasFailed id e (r ∷ rest) = elim (Bool-cases (r.id == id)) [
  | inl k ↦ rw k ((λ same. (refl, refl, omega arith)), marked-HasFailed id e rest)
  | inr k ↦ rw k ((λ same. absurd (ground arith)), marked-HasFailed id e rest)
]

-- A run of the worker either returns, and then the keys of the rows stay distinct and the ledger
-- stays balanced; or it throws, and then nothing is recorded in the books, no event is emitted, the
-- keys stay distinct, and the rows of the webhook are failed with the message of the exception.
abbrev pub Runs : Hub → ℕ → Step → Type 0
Runs hub id (after, none) = Keeps hub after
Runs hub id (after, some e) =
    (after.books ≡ hub.books)
    × (after.store.events ≡ hub.store.events)
    × HasFailed id e after
    × (HasDistinctEvents hub.webhooks → HasDistinctEvents after.webhooks)

caught-Runs :
    (hub started : Hub) (id : ℕ) (s : Step)
    → started.books ≡ hub.books
    → started.store.events ≡ hub.store.events
    → (HasDistinctEvents hub.webhooks → HasDistinctEvents started.webhooks)
    → IsSafe started s
    → Runs hub id (catch_failure id s)
unfolding catch_failure mark
caught-Runs hub started id (after, none) b e keys (keys', balanced') = (
  λ distinct. keys' (keys distinct),
  λ was. balanced' (subst (λ (books : Books). IsBalanced books.ledger) (sym b) was),
)
caught-Runs hub started id (after, some x) b e keys (b', e', w') = (
  b' ∙ b,
  e' ∙ e,
  marked-HasFailed id x after.webhooks,
  λ distinct.
      mark-HasDistinctEvents id (retry_later x) after (λ r. (refl, refl))
        (subst HasDistinctEvents (sym w') (keys distinct)),
)

-- A run of the worker on an event, from rows with distinct keys and a balanced ledger, either returns,
-- and then the keys stay distinct and the ledger balanced; or it throws, and then nothing is recorded
-- in the books, no event is emitted, the keys stay distinct, and the rows of the webhook, if it is
-- there, are failed with the message of the exception.
pub process_webhook_event-Runs :
    (db : Database) (now new_id : ℕ) (hub : Hub) (id : ℕ)
    → Runs hub id (process_webhook_event db now new_id hub id)
unfolding process_webhook_event mark
process_webhook_event-Runs db now new_id hub id =
    elim (Option-cases (db.find_first (λ (r : WebhookRow). r.id == id) hub.webhooks)) [
      | inl e ↦ rw (process_webhook_event, e) ((λ d. d), (λ b. b))
      | inr (event, e) ↦ elim (Bool-cases (is_processed event.status)) [
        | inl done ↦ rw (process_webhook_event, e, done) ((λ d. d), (λ b. b))
        | inr go ↦
            let begin = λ (r : WebhookRow). record r { status = processing } in
            let started = mark id begin hub in
            rw (process_webhook_event, e, go)
              (caught-Runs hub started id (process_event db now new_id started event) refl refl
                (mark-HasDistinctEvents id begin hub (λ r. (refl, refl)))
                (process_event-IsSafe db now new_id started event))
      ]
    ]
