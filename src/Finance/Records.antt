-- ===== src/Finance/Records.antt =====
-- `recordPayment`, `recordRefund` and `recordAdjustment` of backend/src/finance/finance.service.ts.
use playhub_playbooking.Common.{
  Bool, List, Option, Result, [], bad_request, filter, find, ltb, none, not_found, ok, opt_eq,
  or_throw, some, sum_of, throw_if, ℕ, ◌&&◌, ◌+◌, ◌==◌, ◌>>=◌, ◌>>◌, ◌∷◌,
}
use playhub_playbooking.Common.Database.{Database}
use playhub_playbooking.Common.Int.{pos, sub_ℕ}
use playhub_playbooking.Finance.{
  Line, commission_of, cr, create_transaction, dr, resolve_commission_config,
}
use playhub_playbooking.Finance.Types.{
  Books, Key, Transaction, TransactionType, adjustment_expense, adjustment_income, adjustment_key,
  adjustment_made, key_eq, partner_payable, pay_key, payment_clearing, payment_made,
  platform_revenue, refund_key, refund_made, type_index,
}
use playhub_playbooking.Schema.{Payment}

abbrev pub payment_transaction : ℕ → ℕ → Books → ℕ → ℕ → ℕ → Transaction
payment_transaction now new_id books payment_id organization_id amount =
    let config = resolve_commission_config now books.configs organization_id in
    record {
      id = new_id;
      organization_id = organization_id;
      type = payment_made;
      amount = amount;
      payment_id = some payment_id;
      payout_id = none;
      settlement_id = none;
      idempotency_key = pay_key payment_id;
      commission_percentage = some config.0;
      commission = commission_of amount config;
      created_at = now;
    }

abbrev pub payment_lines : ℕ → ℕ → List Line
payment_lines amount commission =
    dr payment_clearing (pos amount)
    ∷ cr partner_payable (sub_ℕ amount commission)
    ∷ cr platform_revenue (pos commission)
    ∷ []

abbrev pub has_key : Key → Transaction → Bool
has_key key t = key_eq t.idempotency_key key

unfoldable pub record_payment : Database → ℕ → ℕ → Books → ℕ → ℕ → ℕ → Result (Transaction × Books)
record_payment db now new_id books payment_id organization_id amount =
    let t = payment_transaction now new_id books payment_id organization_id amount in
    elim (db.find_first (has_key (pay_key payment_id)) books.transactions) [
      | some existing ↦ ok (existing, books)
      | none ↦ create_transaction db t (payment_lines amount t.commission) books >>= λ after.
          ok (t, after)
    ]

-- The transactions of a payment.
abbrev pub has_type : TransactionType → ℕ → Transaction → Bool
has_type type payment_id t =
    opt_eq t.payment_id (some payment_id) && type_index t.type == type_index type

unfoldable pub refunded_so_far : ℕ → List Transaction → ℕ
refunded_so_far payment_id transactions =
    sum_of (λ (t : Transaction). t.amount) (filter (has_type refund_made payment_id) transactions)

abbrev pub percentage_or_default : Option ℕ → ℕ
percentage_or_default none = 1000
percentage_or_default (some p) = p

abbrev pub refund_lines : ℕ → ℕ → List Line
refund_lines amount reversed =
    dr partner_payable (sub_ℕ amount reversed)
    ∷ dr platform_revenue (pos reversed)
    ∷ cr payment_clearing (pos amount)
    ∷ []

abbrev pub refund_row : ℕ → ℕ → ℕ → ℕ → ℕ → ℕ → ℕ → Transaction
refund_row now new_id payment_id organization_id amount percentage so_far = record {
  id = new_id;
  organization_id = organization_id;
  type = refund_made;
  amount = amount;
  payment_id = some payment_id;
  payout_id = none;
  settlement_id = none;
  idempotency_key = refund_key payment_id (so_far + amount);
  commission_percentage = some percentage;
  commission = commission_of amount (percentage, 0);
  created_at = now;
}

unfoldable pub record_refund : Database → ℕ → ℕ → Books → ℕ → ℕ → ℕ → Result (Transaction × Books)
record_refund db now new_id books payment_id organization_id amount = do
  payment ←
      or_throw (db.find_first (λ (p : Payment). p.id == payment_id) books.payments)
        (not_found "Payment record not found")
  original ←
      or_throw (find (has_type payment_made payment_id) books.transactions)
        (bad_request "Cannot record refund for unrecorded payment")
  let so_far = refunded_so_far payment_id books.transactions
  throw_if (ltb (payment.amount + 1) (so_far + amount))
      (bad_request "Refund amount exceeds remaining refundable amount")
  let percentage = percentage_or_default original.commission_percentage
  let t = refund_row now new_id payment_id organization_id amount percentage so_far
  after ← create_transaction db t (refund_lines amount t.commission) books
  ok (t, after)

pub data AdjustmentDirection : Type 0 where
  credit debit : AdjustmentDirection

abbrev pub adjustment_lines : AdjustmentDirection → ℕ → List Line
adjustment_lines credit amount =
    dr adjustment_expense (pos amount) ∷ cr partner_payable (pos amount) ∷ []
adjustment_lines debit amount =
    dr partner_payable (pos amount) ∷ cr adjustment_income (pos amount) ∷ []

abbrev pub adjustment_row : ℕ → ℕ → ℕ → ℕ → ℕ → Transaction
adjustment_row now new_id key organization_id amount = record {
  id = new_id;
  organization_id = organization_id;
  type = adjustment_made;
  amount = amount;
  payment_id = none;
  payout_id = none;
  settlement_id = none;
  idempotency_key = adjustment_key key;
  commission_percentage = none;
  commission = 0;
  created_at = now;
}

-- `key` is the text that the clock and the random numbers give.
unfoldable pub record_adjustment :
    Database → ℕ → ℕ → ℕ → Books → ℕ → ℕ → AdjustmentDirection → Result (Transaction × Books)
record_adjustment db now new_id key books organization_id amount direction =
    let t = adjustment_row now new_id key organization_id amount in
    create_transaction db t (adjustment_lines direction amount) books >>= λ after. ok (t, after)
