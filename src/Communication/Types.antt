-- ===== src/Communication/Types.antt =====
-- The tables of backend/prisma/schema.prisma that backend/src/communication/communication.service.ts
-- reads and writes, and the calls of the providers of messages.
use Prim.Native.String.{String}
use playhub_playbooking.Common.{Bool, List, Option, ℕ}

pub data Channel : Type 0 where
  in_app email sms whatsapp push : Channel

abbrev pub channel_index : Channel → ℕ
channel_index in_app = 0
channel_index email = 1
channel_index sms = 2
channel_index whatsapp = 3
channel_index push = 4

pub data Category : Type 0 where
  transactional marketing security : Category

abbrev pub category_index : Category → ℕ
category_index transactional = 0
category_index marketing = 1
category_index security = 2

pub data DeliveryStatus : Type 0 where
  pending sent delivered failed skipped : DeliveryStatus

pub record Preference : Type 0 where
  pub user_id : ℕ
  pub category : Category
  pub channel : Channel
  pub is_enabled : Bool

pub record Device : Type 0 where
  pub user_id : ℕ
  pub token : ℕ
  pub is_active : Bool

-- How a user is reached.
pub record Contact : Type 0 where
  pub id : ℕ
  pub email : Option ℕ
  pub phone_number : Option ℕ

-- The name of the provider is left out.
pub record LogEntry : Type 0 where
  pub id : ℕ
  pub user_id : ℕ
  pub channel : Channel
  pub status : DeliveryStatus
  pub template_id : String
  pub idempotency_key : Option ℕ
  pub error : Option String
  pub provider_ref : Option ℕ
  pub sent_at : Option ℕ

-- A call of the provider of a channel.
pub record Message : Type 0 where
  pub user_id : ℕ
  pub channel : Channel
  pub template_id : String
  pub idempotency_key : Option ℕ
  pub recipients : List ℕ

pub record Response : Type 0 where
  pub success : Bool
  pub message_id : Option ℕ
  pub error : Option String

pub record Notice : Type 0 where
  pub user_id : ℕ
  pub type : String
  pub category : Category
  pub channels : Option (List Channel)
  pub idempotency_key : Option ℕ

-- The tables, with the calls of the providers, the newest first.
pub record Mailroom : Type 0 where
  pub users : List Contact
  pub preferences : List Preference
  pub devices : List Device
  pub logs : List LogEntry
  pub outbox : List Message
