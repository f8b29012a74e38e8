-- ===== src/Finance/Types.antt =====
-- The tables of backend/prisma/schema.prisma that backend/src/finance reads and writes. An amount is
-- in paise, a percentage in hundredths; an entry of the ledger may be negative.
use playhub_playbooking.Common.{Bool, List, Option, false, ℕ, ◌&&◌, ◌==◌}
use playhub_playbooking.Common.Int.{ℤ}
use playhub_playbooking.Schema.{Payment}

pub data Account : Type 0 where
  payment_clearing partner_payable platform_revenue payout_pending : Account
  adjustment_expense adjustment_income : Account

abbrev pub account_index : Account → ℕ
account_index payment_clearing = 0
account_index partner_payable = 1
account_index platform_revenue = 2
account_index payout_pending = 3
account_index adjustment_expense = 4
account_index adjustment_income = 5

pub record LedgerEntry : Type 0 where
  pub transaction_id : ℕ
  pub organization_id : ℕ
  pub account : Account
  pub debit : ℤ
  pub credit : ℤ

pub data TransactionType : Type 0 where
  payment_made refund_made payout_made adjustment_made : TransactionType

abbrev pub type_index : TransactionType → ℕ
type_index payment_made = 0
type_index refund_made = 1
type_index payout_made = 2
type_index adjustment_made = 3

-- The texts of the idempotency keys: pay_<payment>, refund_<payment>_<total>,
-- payout_<organization>_<time>, and the random text of an adjustment.
pub data Key : Type 0 where
  pay_key : ℕ → Key
  refund_key payout_key : ℕ → ℕ → Key
  adjustment_key : ℕ → Key

abbrev pub key_eq : Key → Key → Bool
key_eq (pay_key a) (pay_key b) = a == b
key_eq (refund_key a m) (refund_key b n) = a == b && m == n
key_eq (payout_key a m) (payout_key b n) = a == b && m == n
key_eq (adjustment_key a) (adjustment_key b) = a == b
key_eq _ _ = false

-- The metadata of a payment are the percentage and the commission, those of a refund the
-- percentage and the commission that it reverses.
pub record Transaction : Type 0 where
  pub id : ℕ
  pub organization_id : ℕ
  pub type : TransactionType
  pub amount : ℕ
  pub payment_id : Option ℕ
  pub payout_id : Option ℕ
  pub settlement_id : Option ℕ
  pub idempotency_key : Key
  pub commission_percentage : Option ℕ
  pub commission : ℕ
  pub created_at : ℕ

pub record CommissionConfig : Type 0 where
  pub organization_id : Option ℕ
  pub percentage : ℕ
  pub fixed_fee : ℕ
  pub priority : ℕ
  pub is_active : Bool
  pub effective_from : Option ℕ
  pub effective_to : Option ℕ
  pub created_at : ℕ

pub data KycStatus : Type 0 where
  pending submitted approved rejected : KycStatus

-- An organization's bank details, `none` where a text is missing or empty.
pub record Organization : Type 0 where
  pub id : ℕ
  pub kyc_status : KycStatus
  pub account_number : Option ℕ
  pub ifsc_code : Option ℕ
  pub account_holder_name : Option ℕ

pub data PayoutStatus : Type 0 where
  pending processing completed failed cancelled : PayoutStatus

pub record Payout : Type 0 where
  pub id : ℕ
  pub organization_id : ℕ
  pub settlement_id : Option ℕ
  pub amount : ℕ
  pub status : PayoutStatus

pub record Settlement : Type 0 where
  pub id : ℕ
  pub organization_id : ℕ
  pub start_date : ℕ
  pub end_date : ℕ
  pub gross_amount : ℤ
  pub commission : ℤ
  pub net_amount : ℤ

pub record Books : Type 0 where
  pub organizations : List Organization
  pub payments : List Payment
  pub configs : List CommissionConfig
  pub transactions : List Transaction
  pub ledger : List LedgerEntry
  pub payouts : List Payout
  pub settlements : List Settlement
