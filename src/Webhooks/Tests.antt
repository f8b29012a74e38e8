-- ===== src/Webhooks/Tests.antt =====
-- Tests of the webhook service, and instances of its theorems.
use playhub_playbooking.Payments.Tests as PaymentTests
use playhub_playbooking.Finance.Tests as FinanceTests
use playhub_playbooking.Common.{List, [], map, none, refl, some, ◌∷◌, ◌≡◌}
use playhub_playbooking.Common.Int.{pos}
use playhub_playbooking.Common.ListDatabase.{list_database}
use playhub_playbooking.Finance.{available_balance}
use playhub_playbooking.Finance.Records.{payment_transaction}
use playhub_playbooking.Finance.Tests.{books, finance_program, paid}
use playhub_playbooking.Finance.Types.{Transaction}
use playhub_playbooking.Payments.Tests.{clients, payload, payment_program, row}
use playhub_playbooking.Schema.{Payment, captured, initiated, razorpay, refunded}
use playhub_playbooking.Webhooks.{enqueue, mark, receive_webhook}
use playhub_playbooking.Webhooks.Captured.{
  book_capture, capture_again, capture_payment, process_captured,
}
use playhub_playbooking.Webhooks.Credits.{process_captured-once}
use playhub_playbooking.Webhooks.History.{Action, act, process, receive, retry, run}
use playhub_playbooking.Webhooks.Refunded.{process_refund, refund_payment}
use playhub_playbooking.Webhooks.Runs.{Runs, process_webhook_event-Runs}
use playhub_playbooking.Webhooks.Types.{Hub, WebhookRow, processed}
use playhub_playbooking.Webhooks.Worker.{
  catch_failure, process_event, process_webhook_event, retry_webhook_event,
}

abbrev hub : Hub
hub = record {
  store = PaymentTests.store;
  books = record FinanceTests.books { payments = [] };
  webhooks = [];
  jobs = [];
}

unfoldable webhook_program : Unit {0}
unfolding payment_program finance_program receive_webhook enqueue mark process_webhook_event
    process_event process_captured capture_payment capture_again book_capture process_refund
    refund_payment catch_failure retry_webhook_event act run
webhook_program = tt

-- The capture of payment 1, delivered twice and processed twice.
abbrev actions : List Action
actions =
    receive 900 0 razorpay (payload "payment.captured" 71) 9
    ∷ receive 901 0 razorpay (payload "payment.captured" 71) 9
    ∷ process 30 50 900
    ∷ process 31 51 900
    ∷ []

abbrev after : Hub
after = run list_database clients hub actions

run-once :
    (after.jobs ≡ 900 ∷ [])
    × (available_balance 5 after.books.ledger ≡ pos 53500)
    × (map (λ (r : WebhookRow). r.status) after.webhooks ≡ processed ∷ [])
unfolding webhook_program
run-once = (refl, refl, refl)

-- The transaction captures the payment, and a later step throws, here since the booking is missing.
-- The retry finds the payment captured and marks the event processed: the books never get it.
abbrev broken : Hub
broken = record hub { store = record hub.store { bookings = [] } }

abbrev retried : Hub
retried = run list_database clients broken (
    receive 900 0 razorpay (payload "payment.captured" 71) 9
    ∷ process 30 50 900
    ∷ retry 900
    ∷ process 31 51 900
    ∷ [])

retry-unrecorded :
    (map (λ (r : WebhookRow). r.status) retried.webhooks ≡ processed ∷ [])
    × (retried.books.transactions ≡ [])
unfolding webhook_program
retry-unrecorded = (refl, refl)

-- A capture that arrives for the refunded payment captures it again.
abbrev recaptured : Hub
recaptured =
    run list_database clients
      (record hub { store = record hub.store { payments = PaymentTests.row 1 refunded ∷ [] } })
      (receive 900 0 razorpay (payload "payment.captured" 71) 9 ∷ process 30 50 900 ∷ [])

process-refunded : map (λ (p : Payment). p.status) recaptured.store.payments ≡ captured ∷ []
unfolding webhook_program
process-refunded = refl

abbrev broken_queue : Hub
broken_queue =
    run list_database clients broken (receive 900 0 razorpay (payload "payment.captured" 71) 9 ∷ [])

process_webhook_event-Runs_example :
    Runs broken_queue 900 (process_webhook_event list_database 30 50 broken_queue 900)
process_webhook_event-Runs_example = process_webhook_event-Runs list_database 30 50 broken_queue 900

abbrev recorded : Hub
recorded = record hub {
  books = paid;
  store = record hub.store { payments = PaymentTests.row 2 initiated ∷ [] };
}

abbrev recorded_transaction : Transaction
recorded_transaction = payment_transaction 30 1 FinanceTests.books 2 5 60000

abbrev processed_again : Hub
processed_again = (process_captured list_database 31 60 recorded 900 (some 72) none).0

process_captured-once_example :
    (processed_again.books.ledger ≡ paid.ledger)
    × (processed_again.books.transactions ≡ paid.transactions)
unfolding webhook_program
process_captured-once_example =
    process_captured-once list_database 31 60 recorded 900 (some 72) none
      (PaymentTests.row 2 initiated) recorded_transaction refl refl
