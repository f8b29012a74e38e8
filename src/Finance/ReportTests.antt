-- ===== src/Finance/ReportTests.antt =====
-- Tests of the reconciliation and of the listener, and instances of their theorems.
use playhub_playbooking.Common.{All, List, [], map, none, ok, refl, some, true, ℕ, ◌↔◌, ◌∷◌, ◌≡◌}
use playhub_playbooking.Common.ListDatabase.{list_database}
use playhub_playbooking.Common.Queries.{IsAmong}
use playhub_playbooking.Finance.History.{Request, pay, pay_out, refund, run}
use playhub_playbooking.Finance.Listener.{
  handle_payment_captured, handle_payment_captured-once, handle_payment_refunded,
}
use playhub_playbooking.Finance.Reconciliation.{
  DiscrepancyItem, Query, discrepancies_of, mismatches, net_of, payment_amount_mismatch,
  payments_in, payouts_in, run_reconciliation, transactions_in, unbalanced_ledger_transaction,
  unrecorded, unrecorded_payment,
}
use playhub_playbooking.Finance.Records.{record_payment, refunded_so_far}
use playhub_playbooking.Finance.Reports.{
  IsReconciled, Names, run_reconciliation-IsReconciled, run_reconciliation-balanced,
}
use playhub_playbooking.Finance.Tests.{books, finance_program, paid}
use playhub_playbooking.Finance.Types.{Books, Transaction, pay_key}

abbrev query : Query
query = record { start_date = none; end_date = none; organization_id = some 5; provider = none }

abbrev created : ℕ → ℕ
created id = 20

unfoldable report_program : Unit {0}
unfolding finance_program run_reconciliation discrepancies_of payments_in transactions_in payouts_in
    unrecorded mismatches net_of handle_payment_captured handle_payment_refunded
report_program = tt

run_reconciliation-IsReconciled_example :
    ((run_reconciliation list_database created paid query).is_healthy ≡ true)
    ↔ IsReconciled list_database created paid query
run_reconciliation-IsReconciled_example =
    run_reconciliation-IsReconciled list_database created paid query

abbrev requests : List (ℕ × Request)
requests = (30, pay 1 2 5 60000) ∷ (31, refund 2 2 5 10000) ∷ (32, pay_out 3 9 5 40000 none) ∷ []

run_reconciliation-balanced_example :
    All
      (λ d. ¬ Names unbalanced_ledger_transaction d)
      (run_reconciliation list_database created
        (run list_database books requests)
        query).discrepancies
run_reconciliation-balanced_example =
    run_reconciliation-balanced list_database created books requests query (λ t. refl)

-- The report on a recorded payment is healthy; after a refund of a part, it finds that the amount of
-- the refund is not that of the payment.
run_reconciliation-refund :
    ((run_reconciliation list_database created paid query).is_healthy ≡ true)
    × (map
          (λ (d : DiscrepancyItem). d.code)
          (run_reconciliation list_database created
            (run list_database books requests)
            query).discrepancies
        ≡ payment_amount_mismatch ∷ [])
unfolding report_program
run_reconciliation-refund = (refl, refl)

-- A captured payment without a transaction is reported.
run_reconciliation-unrecorded :
    (run_reconciliation list_database created books query).discrepancies
    ≡ record { code = unrecorded_payment; entity_id = 2; organization_id = 5 } ∷ []
unfolding report_program
run_reconciliation-unrecorded = refl

abbrev delivered : Books
delivered = handle_payment_captured list_database 30 1 books 2 5 60000

handle_payment_captured-once_example :
    (handle_payment_captured list_database 31 2 delivered 2 5 60000 ≡ delivered)
    × ((t : Transaction) × IsAmong t delivered.transactions
        × (t.idempotency_key ≡ pay_key 2)
        × (record_payment list_database 31 2 delivered 2 5 60000 ≡ ok (t, delivered)))
handle_payment_captured-once_example =
    handle_payment_captured-once list_database 30 31 1 2 books 2 5 60000

-- The refund of an event that comes after the refund was recorded is stopped by the bound only.
handle_payment_refunded-again :
    let once = handle_payment_refunded list_database 31 2 paid 2 5 20000 in
    let twice = handle_payment_refunded list_database 32 3 once 2 5 20000 in
    (refunded_so_far 2 twice.transactions ≡ 40000)
    × (handle_payment_refunded list_database 33 4 twice 2 5 30000 ≡ twice)
unfolding report_program
handle_payment_refunded-again = (refl, refl)
