-- ===== src/Payments/Types.antt =====
-- The tables and events of backend/src/payments/payments.service.ts, the interface of
-- backend/src/payments/interfaces/payment-provider.interface.ts, and the webhook's payload.
use Prim.Native.String.{String}
use playhub_playbooking.Common.{Bool, List, Option, Result, ℕ}
use playhub_playbooking.Schema.{Booking, Payment, PaymentProvider}

pub data PaymentEvent : Type 0 where
  payment_captured : (payment booking organization user amount : ℕ) → PaymentEvent
  payment_refunded : (payment booking organization amount : ℕ) → PaymentEvent
  booking_confirmed : (booking organization user : ℕ) → PaymentEvent

pub record WebhookEvent : Type 0 where
  pub provider : PaymentProvider
  pub provider_event_id : ℕ
  pub event_type : String
  pub status : String
  pub payment_id : Option ℕ

pub record PaymentStore : Type 0 where
  pub bookings : List Booking
  pub payments : List Payment
  pub webhook_events : List WebhookEvent
  pub events : List PaymentEvent

-- What a customer sends back after the checkout.
pub record VerifyPaymentDto : Type 0 where
  pub provider_order_id : ℕ
  pub provider_payment_id : ℕ
  pub signature : ℕ

-- The fields of a webhook's body that the handler reads, `none` where one is missing:
-- `data.object.id`, `data.object.payment_intent`, `payload.payment.entity.order_id` and `.id`.
pub record WebhookPayload : Type 0 where
  pub id : Option ℕ
  pub event_id : Option ℕ
  pub event : Option String
  pub type : Option String
  pub order_id : Option ℕ
  pub payment_id : Option ℕ
  pub object_id : Option ℕ
  pub payment_intent : Option ℕ
  pub entity_order_id : Option ℕ
  pub entity_id : Option ℕ

-- A payment provider, reached over the network: `verify_checkout` and `order_is_paid` are missing
-- where the provider has no such method.
pub record ProviderClient : Type 0 where
  pub create_order : ℕ → ℕ → Result ℕ
  pub verify_checkout : Option (VerifyPaymentDto → ℕ → Bool)
  pub verify_signature : VerifyPaymentDto → Bool
  pub verify_webhook_signature : WebhookPayload → ℕ → Bool
  pub order_is_paid : Option (Option ℕ → Bool)
  pub initiate_refund : Option ℕ → ℕ → Result ℕ
