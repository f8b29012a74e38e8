-- ===== src/Webhooks/Types.antt =====
-- The tables that backend/src/webhooks/webhooks.service.ts reads and writes, and its queue.
use Prim.Native.String.{String}
use playhub_playbooking.Common.{Bool, List, Option, false, true, ℕ}
use playhub_playbooking.Finance.Types.{Books}
use playhub_playbooking.Payments.Types.{PaymentStore, WebhookPayload}
use playhub_playbooking.Schema.{PaymentProvider}

pub data WebhookStatus : Type 0 where
  received queued processing processed ignored failed : WebhookStatus

abbrev pub is_processed : WebhookStatus → Bool
is_processed processed = true
is_processed _ = false

pub record WebhookRow : Type 0 where
  pub id : ℕ
  pub provider : PaymentProvider
  pub provider_event_id : ℕ
  pub event_type : String
  pub status : WebhookStatus
  pub payload : WebhookPayload
  pub payment_id : Option ℕ
  pub retry_count : ℕ
  pub last_error : Option String

-- The payment service's tables, the books, the rows of the webhooks and the queued jobs, the newest
-- first. The table of payments is one table: the books are read with the payments of `store`.
pub record Hub : Type 0 where
  pub store : PaymentStore
  pub books : Books
  pub webhooks : List WebhookRow
  pub jobs : List ℕ
