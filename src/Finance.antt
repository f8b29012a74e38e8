-- ===== src/Finance.antt =====
-- backend/src/finance: commissions, the transactions with their entries in the ledger, payouts and
-- settlements. A request runs alone on the tables; `new_id` is the identifier that the database
-- gives the new transaction, payout or settlement.
pub mod Types
pub mod Ledger
pub mod Records
pub mod Retries
pub mod Payouts
pub mod Settlements
pub mod Balance
pub mod History
pub mod Repeats
pub mod Keys
pub mod Reconciliation
pub mod Reports
pub mod Listener
mod ReportTests
pub mod Tests
use playhub_playbooking.Common.{
  Bool, List, Result, [], error, false, filter, if◌then◌else◌, is_some, leb, ltb, none, ok, some,
  throw_if, true, ℕ, ◌&&◌, ◌*◌, ◌+◌, ◌/◌, ◌==◌, ◌>>=◌, ◌>>◌, ◌||◌, ◌∷◌,
}
use playhub_playbooking.Common.Database.{Database}
use playhub_playbooking.Common.Int.{pos, ℤ, ◌+ℤ◌, ◌-ℤ◌}
use playhub_playbooking.Finance.Types.{
  Account, Books, CommissionConfig, LedgerEntry, Transaction, account_index, key_eq,
  partner_payable,
}
use playhub_playbooking.Schema.{is_active}

-- `findMany` on the conditions of `resolveCommissionConfig`.
abbrev pub is_applicable : ℕ → ℕ → CommissionConfig → Bool
is_applicable now organization_id c =
    c.is_active
    && elim c.organization_id [ none ↦ true | some id ↦ id == organization_id ]
    && elim c.effective_from [ none ↦ true | some from ↦ leb from now ]
    && elim c.effective_to [ none ↦ true | some until ↦ leb now until ]

-- The order of the query: by organization, descending, where PostgreSQL puts the rules without
-- one first; then by priority and by creation, descending.
abbrev pub comes_before : CommissionConfig → CommissionConfig → Bool
comes_before c d =
    let later =
      ltb d.priority c.priority || c.priority == d.priority && ltb d.created_at c.created_at in
    elim c.organization_id [
      | none ↦ elim d.organization_id [ none ↦ later | some e ↦ true ]
      | some o ↦ elim d.organization_id [ none ↦ false | some e ↦ later ]
    ]

-- The first rule in that order.
unfoldable pub first_config : CommissionConfig → List CommissionConfig → CommissionConfig
first_config c [] = c
first_config c (d ∷ rest) = if comes_before d c then first_config d rest else first_config c rest

-- A percentage and a fixed fee; without a rule 10% and none.
unfoldable pub resolve_commission_config : ℕ → List CommissionConfig → ℕ → ℕ × ℕ
unfolding first_config
resolve_commission_config now configs organization_id =
    elim (filter (is_applicable now organization_id) configs) [
      | [] ↦ (1000, 0)
      | c ∷ rest ↦ let best = first_config c rest in (best.percentage, best.fixed_fee)
    ]

-- The commission on an amount, rounded to a paisa.
abbrev pub commission_of : ℕ → ℕ × ℕ → ℕ
commission_of amount config = (amount * config.0 + config.1 * 10000 + 5000) / 10000

-- Sums over a list.
abbrev pub sum_ℤ : {A : Type 0} → (A → ℤ) → List A → ℤ
sum_ℤ f [] = pos 0
sum_ℤ f (a ∷ rest) = f a +ℤ sum_ℤ f rest

-- The line of an entry: the account, its debit and its credit.
abbrev pub Line : Type 0
Line = Account × (ℤ × ℤ)

abbrev pub dr : Account → ℤ → Line
dr account amount = (account, (amount, pos 0))

abbrev pub cr : Account → ℤ → Line
cr account amount = (account, (pos 0, amount))

-- The entries of one transaction.
unfoldable pub post : ℕ → ℕ → List Line → List LedgerEntry → List LedgerEntry
post transaction organization [] ledger = ledger
post transaction organization ((account, (debit, credit)) ∷ lines) ledger =
    record {
      transaction_id = transaction;
      organization_id = organization;
      account = account;
      debit = debit;
      credit = credit;
    }
    ∷ post transaction organization lines ledger

-- A new transaction with its entries: its idempotency key must be new.
unfoldable pub create_transaction : Database → Transaction → List Line → Books → Result Books
create_transaction db t lines books = do
  throw_if
      (is_some (db.find_first (λ u. key_eq u.idempotency_key t.idempotency_key) books.transactions))
      (error "Unique constraint failed: idempotencyKey")
  ok (record books {
    transactions = t ∷ books.transactions;
    ledger = post t.id t.organization_id lines books.ledger;
  })

-- What is in an account, as `getPartnerFinancialSummary` computes the available balance of an
-- organization from the account of what is payable to it.
abbrev pub in_account : ℕ → Account → LedgerEntry → Bool
in_account organization_id account e =
    e.organization_id == organization_id && account_index e.account == account_index account

unfoldable pub available_balance : ℕ → List LedgerEntry → ℤ
available_balance organization_id ledger =
    let entries = filter (in_account organization_id partner_payable) ledger in
    sum_ℤ (λ (e : LedgerEntry). e.credit) entries -ℤ sum_ℤ (λ (e : LedgerEntry). e.debit) entries
