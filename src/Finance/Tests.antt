-- ===== src/Finance/Tests.antt =====
-- Tests of the books, and instances of their theorems.
use playhub_playbooking.Common.{
  List, Result, [], err, false, filter, is_ok, none, ok, refl, some, true, ℕ, ◌+◌, ◌∷◌, ◌≡◌, ◌≤◌,
}
use playhub_playbooking.Common.Database.{update_many, update_row}
use playhub_playbooking.Common.Int.{negsuc, pos, ◌+ℤ◌, ◌-ℤ◌, ◌≤ℤ◌}
use playhub_playbooking.Common.ListDatabase.{list_database}
use playhub_playbooking.Common.Queries.{IsAmong}
use playhub_playbooking.Finance.{
  available_balance, create_transaction, first_config, post, resolve_commission_config,
}
use playhub_playbooking.Finance.History.{
  Request, adjust, complete, fail, pay, pay_out, refund, run, run-IsBalanced, serve, settle,
}
use playhub_playbooking.Finance.Keys.{run-IsPaidOnce}
use playhub_playbooking.Finance.Ledger.{IsBalanced}
use playhub_playbooking.Finance.Payouts.{
  complete_payout, end_payout, fail_payout, initiate_payout, initiate_payout-IsCovered,
  post_for_payout,
}
use playhub_playbooking.Finance.Records.{
  credit, payment_transaction, record_adjustment, record_payment, record_refund, refund_row,
  refunded_so_far,
}
use playhub_playbooking.Finance.Repeats.{IsPaidOnce}
use playhub_playbooking.Finance.Retries.{record_payment-once, record_refund-IsBounded}
use playhub_playbooking.Finance.Settlements.{create_settlement, create_settlement-once, is_eligible}
use playhub_playbooking.Finance.Types.{
  Books, CommissionConfig, Organization, Payout, Settlement, Transaction, approved, pay_key,
  processing,
}
use playhub_playbooking.Schema.{Payment, captured, razorpay}

-- 10% and 5 rupees for organization 5, and an older rule of 20% for all.
abbrev pub own_rule : CommissionConfig
own_rule = record {
  organization_id = some 5;
  percentage = 1000;
  fixed_fee = 500;
  priority = 3;
  is_active = true;
  effective_from = none;
  effective_to = none;
  created_at = 20;
}

abbrev global_rule : CommissionConfig
global_rule = record own_rule {
  organization_id = none;
  percentage = 2000;
  fixed_fee = 0;
  priority = 0;
  created_at = 10;
}

abbrev pub payment : Payment
payment = record {
  id = 2;
  organization_id = 5;
  booking_id = 1;
  amount = 60000;
  currency = "INR";
  status = captured;
  provider = razorpay;
  provider_order_id = some 72;
  provider_payment_id = none;
  provider_signature = none;
  idempotency_key = none;
}

abbrev pub organization : Organization
organization = record {
  id = 5;
  kyc_status = approved;
  account_number = some 1;
  ifsc_code = some 2;
  account_holder_name = some 3;
}

abbrev pub books : Books
books = record {
  organizations = organization ∷ [];
  payments = payment ∷ [];
  configs = own_rule ∷ [];
  transactions = [];
  ledger = [];
  payouts = [];
  settlements = [];
}

unfoldable pub finance_program : Unit {0}
unfolding record_payment record_refund record_adjustment initiate_payout end_payout complete_payout
    fail_payout post_for_payout create_settlement is_eligible create_transaction post
    resolve_commission_config first_config refunded_so_far available_balance update_row update_many
    serve run ◌+ℤ◌ ◌-ℤ◌
finance_program = tt

abbrev after_of : {A : Type 0} → Books → Result (A × Books) → Books
after_of was (ok (a, after)) = after
after_of was (err e) = was

-- The rule for all is preferred to the organization's own.
resolve_commission_config-global :
    resolve_commission_config 30 (own_rule ∷ global_rule ∷ []) 5 ≡ (2000, 0)
unfolding finance_program
resolve_commission_config-global = refl

abbrev pub paid : Books
paid = after_of books (record_payment list_database 30 1 books 2 5 60000)

-- 600 rupees: 65 for the platform, 535 for the partner; a full refund takes only 60 of the 65 back.
available_balance-refund :
    (available_balance 5 paid.ledger ≡ pos 53500)
    × (available_balance 5 (after_of paid (record_refund list_database 31 2 paid 2 5 60000)).ledger
        ≡ negsuc 499)
unfolding finance_program
available_balance-refund = (refl, refl)

abbrev requests : List (ℕ × Request)
requests =
    (30, pay 1 2 5 60000)
    ∷ (31, refund 2 2 5 10000)
    ∷ (32, pay_out 3 9 5 40000 none)
    ∷ (33, complete 9)
    ∷ (34, fail 9)
    ∷ (35, adjust 4 77 5 100 credit)
    ∷ (36, settle 1 5 0 40)
    ∷ []

run-IsBalanced_example : IsBalanced (run list_database books requests).ledger
run-IsBalanced_example = run-IsBalanced list_database books requests (λ t. refl)

run-IsPaidOnce_example : IsPaidOnce (run list_database books requests).transactions
run-IsPaidOnce_example = run-IsPaidOnce list_database books requests tt tt

abbrev first_payment : Transaction
first_payment = payment_transaction 30 1 books 2 5 60000

record_payment-once_example :
    (again : Transaction) × IsAmong again paid.transactions
    × (again.idempotency_key ≡ pay_key 2)
    × (record_payment list_database 40 2 paid 2 5 60000 ≡ ok (again, paid))
unfolding finance_program
record_payment-once_example =
    record_payment-once list_database 30 40 1 2 books 2 5 60000 first_payment paid refl

abbrev refunded_books : Books
refunded_books = after_of paid (record_refund list_database 31 2 paid 2 5 10000)

record_refund-IsBounded_example :
    (p : Payment) × IsAmong p paid.payments
    × (p.id ≡ 2)
    × ((refund_row 31 2 2 5 10000 1000 0).amount ≡ 10000)
    × (refunded_so_far 2 refunded_books.transactions ≡ 10000 + refunded_so_far 2 paid.transactions)
    × (refunded_so_far 2 refunded_books.transactions ≤ p.amount + 1)
unfolding finance_program
record_refund-IsBounded_example =
    record_refund-IsBounded list_database 31 2 paid 2 5 10000 (refund_row 31 2 2 5 10000 1000 0)
      refunded_books refl

abbrev paid_out : Result (Payout × Books)
paid_out = initiate_payout list_database 32 3 9 paid 5 40000 none

abbrev payout : Payout
payout = record {
  id = 9;
  organization_id = 5;
  settlement_id = none;
  amount = 40000;
  status = processing;
}

initiate_payout-IsCovered_example :
    (pos 40000 ≤ℤ available_balance 5 paid.ledger)
    × (available_balance 5 (after_of paid paid_out).ledger
        ≡ available_balance 5 paid.ledger -ℤ pos 40000)
    × (pos 0 ≤ℤ available_balance 5 (after_of paid paid_out).ledger)
unfolding finance_program
initiate_payout-IsCovered_example =
    initiate_payout-IsCovered list_database 32 3 9 paid 5 40000 none payout (after_of paid paid_out)
      refl

-- A payout that failed can be completed as well: what is pending is then released twice.
abbrev failed_then_completed : Books
failed_then_completed =
    let one = after_of paid paid_out in
    let two = after_of one (fail_payout list_database one 9) in
    after_of two (complete_payout list_database two 9)

complete_payout-failed :
    available_balance 5 failed_then_completed.ledger ≡ available_balance 5 paid.ledger
unfolding finance_program
complete_payout-failed = refl

abbrev settled : Result (Settlement × Books)
settled = create_settlement list_database 1 paid 5 0 40

abbrev settlement : Settlement
settlement = record {
  id = 1;
  organization_id = 5;
  start_date = 0;
  end_date = 40;
  gross_amount = pos 60000;
  commission = pos 6500;
  net_amount = pos 53500;
}

create_settlement-once_example :
    (filter (is_eligible 5 0 40) (after_of paid settled).transactions ≡ [])
    × (is_ok (create_settlement list_database 2 (after_of paid settled) 5 0 40) ≡ false)
unfolding finance_program
create_settlement-once_example =
    create_settlement-once list_database 1 2 paid 5 0 40 settlement (after_of paid settled) refl
