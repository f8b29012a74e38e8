-- ===== src/Finance/Reconciliation.antt =====
-- backend/src/finance/reconciliation.service.ts. `created_at` gives the time at which the payment
-- with an identifier was created, a column that no other service reads.
use playhub_playbooking.Common.{
  Bool, List, Option, [], any, false, filter, leb, length, none, some, sum_of, true, ℕ, ◌&&◌, ◌++◌,
  ◌+◌, ◌==◌, ◌∷◌,
}
use playhub_playbooking.Common.Database.{Database}
use playhub_playbooking.Common.Int.{eqb_ℤ, pos, ℤ, ◌-ℤ◌}
use playhub_playbooking.Finance.{sum_ℤ}
use playhub_playbooking.Finance.Ledger.{credits, debits}
use playhub_playbooking.Finance.Records.{has_type}
use playhub_playbooking.Finance.Types.{
  Account, Books, LedgerEntry, Payout, PayoutStatus, Transaction, TransactionType, account_index,
  partner_payable, payment_made, platform_revenue, processing, refund_made,
}
use playhub_playbooking.Schema.{
  Payment, PaymentProvider, PaymentStatus, captured, provider_index, refunded, ◌=p◌,
}

pub record Query : Type 0 where
  pub start_date : Option ℕ
  pub end_date : Option ℕ
  pub organization_id : Option ℕ
  pub provider : Option PaymentProvider

pub data Code : Type 0 where
  unrecorded_payment unbalanced_ledger_transaction payment_amount_mismatch : Code
  unrecorded_refund : Code

pub record DiscrepancyItem : Type 0 where
  pub code : Code
  pub entity_id : ℕ
  pub organization_id : ℕ

pub record Report : Type 0 where
  pub is_healthy : Bool
  pub total_checked : ℕ
  pub matched_count : ℤ
  pub discrepancy_count : ℕ
  pub gross_payments : ℕ
  pub total_refunds : ℕ
  pub total_commission : ℤ
  pub net_partner_payable : ℤ
  pub total_completed_payouts : ℕ
  pub outstanding_balance : ℤ
  pub discrepancies : List DiscrepancyItem

abbrev pub in_dates : Query → ℕ → Bool
in_dates query t =
    elim query.start_date [ none ↦ true | some start ↦ leb start t ]
    && elim query.end_date [ none ↦ true | some end ↦ leb t end ]

abbrev pub of_organization : Query → ℕ → Bool
of_organization query id = elim query.organization_id [ none ↦ true | some o ↦ id == o ]

abbrev pub of_provider : Query → PaymentProvider → Bool
of_provider query p = elim query.provider [
  | none ↦ true
  | some q ↦ provider_index p == provider_index q
]

-- The payments of a query in a status, and its transactions and payouts.
unfoldable pub payments_in : (ℕ → ℕ) → Books → Query → PaymentStatus → List Payment
payments_in created_at books query status =
    filter
      (λ (p : Payment).
        of_organization query p.organization_id
        && of_provider query p.provider
        && in_dates query (created_at p.id)
        && p.status =p status)
      books.payments

unfoldable pub transactions_in : Books → Query → List Transaction
transactions_in books query =
    filter
      (λ (t : Transaction). of_organization query t.organization_id && in_dates query t.created_at)
      books.transactions

abbrev pub is_completed : PayoutStatus → Bool
is_completed PayoutStatus.completed = true
is_completed _ = false

abbrev pub is_under_way : PayoutStatus → Bool
is_under_way PayoutStatus.pending = true
is_under_way processing = true
is_under_way PayoutStatus.completed = true
is_under_way _ = false

unfoldable pub payouts_in : Books → Query → List Payout
payouts_in books query =
    filter (λ (p : Payout). of_organization query p.organization_id && is_under_way p.status)
      books.payouts

-- Whether a payment has a transaction of the type.
abbrev pub is_recorded : Books → TransactionType → Payment → Bool
is_recorded books type p = any (has_type type p.id) books.transactions

abbrev item : Code → ℕ → ℕ → DiscrepancyItem
item code id organization = record { code = code; entity_id = id; organization_id = organization }

-- What a check of a row adds to the discrepancies if it fails.
abbrev pub check : Bool → Code → ℕ → ℕ → List DiscrepancyItem → List DiscrepancyItem
check true code id organization found = found
check false code id organization found = item code id organization ∷ found

-- The checks 1 and 4.
unfoldable pub unrecorded : Books → TransactionType → Code → List Payment → List DiscrepancyItem
unrecorded books type code [] = []
unrecorded books type code (p ∷ rest) =
    check (is_recorded books type p) code p.id p.organization_id (unrecorded books type code rest)

abbrev pub is_even : Books → Transaction → Bool
is_even books t = eqb_ℤ (debits t.id books.ledger) (credits t.id books.ledger)

-- The payment of a transaction, by its foreign key.
abbrev pub payment_of : Database → Books → Transaction → Option Payment
payment_of db books t = elim t.payment_id [
  | none ↦ none
  | some id ↦ db.find_first (λ (p : Payment). p.id == id) books.payments
]

abbrev pub matches_payment : Database → Books → Transaction → Bool
matches_payment db books t = elim (payment_of db books t) [
  | none ↦ true
  | some p ↦ t.amount == p.amount
]

-- The checks 2 and 3.
unfoldable pub mismatches : Database → Books → List Transaction → List DiscrepancyItem
mismatches db books [] = []
mismatches db books (t ∷ rest) =
    check (is_even books t) unbalanced_ledger_transaction t.id t.organization_id (
      check (matches_payment db books t) payment_amount_mismatch t.id t.organization_id
        (mismatches db books rest))

-- What was credited to an account less what was debited.
unfoldable pub net_of : Account → Query → List LedgerEntry → ℤ
net_of account query ledger =
    let entries =
      filter
        (λ (e : LedgerEntry).
          account_index e.account == account_index account
          && of_organization query e.organization_id)
        ledger in
    sum_ℤ (λ (e : LedgerEntry). e.credit) entries -ℤ sum_ℤ (λ (e : LedgerEntry). e.debit) entries

unfoldable pub discrepancies_of : Database → (ℕ → ℕ) → Books → Query → List DiscrepancyItem
discrepancies_of db created_at books query =
    unrecorded books payment_made unrecorded_payment (payments_in created_at books query captured)
    ++ (mismatches db books (transactions_in books query)
        ++ unrecorded books refund_made unrecorded_refund
            (payments_in created_at books query refunded))

abbrev pub is_empty : List DiscrepancyItem → Bool
is_empty [] = true
is_empty (d ∷ rest) = false

unfoldable pub run_reconciliation : Database → (ℕ → ℕ) → Books → Query → Report
run_reconciliation db created_at books query =
    let found = discrepancies_of db created_at books query in
    let paid = payments_in created_at books query captured in
    let returned = payments_in created_at books query refunded in
    let checked = length paid + length (transactions_in books query) + length returned in
    record {
      is_healthy = is_empty found;
      total_checked = checked;
      matched_count = pos checked -ℤ pos (length found);
      discrepancy_count = length found;
      gross_payments = sum_of (λ (p : Payment). p.amount) paid;
      total_refunds = sum_of (λ (p : Payment). p.amount) returned;
      total_commission = net_of platform_revenue query books.ledger;
      net_partner_payable = net_of partner_payable query books.ledger;
      total_completed_payouts =
          sum_of (λ (p : Payout). p.amount)
            (filter (λ (p : Payout). is_completed p.status) (payouts_in books query));
      outstanding_balance = net_of partner_payable query books.ledger;
      discrepancies = found;
    }
