-- ===== src/Support/Types.antt =====
-- The tables of backend/prisma/schema.prisma that backend/src/support reads and writes, and its
-- requests. A text that the services trim stands for the trimmed text.
use Prim.Native.String.{String}
use playhub_playbooking.Common.{List, Option, ℕ}
use playhub_playbooking.Loyalty.Types.{Points}
use playhub_playbooking.Payments.Types.{PaymentStore}

pub data TicketCategory : Type 0 where
  booking_issue payment_issue refund_issue venue_issue facility_issue : TicketCategory
  cancellation_issue checkin_issue partner_issue technical_issue : TicketCategory
  membership_issue coupon_issue loyalty_issue other : TicketCategory

pub data TicketPriority : Type 0 where
  low medium high urgent : TicketPriority

-- `unknown` stands for every other text that a request may set.
pub data TicketStatus : Type 0 where
  opened in_progress waiting_for_customer resolved closed unknown : TicketStatus

pub data DisputeReason : Type 0 where
  venue_unavailable venue_closed facility_unavailable booking_not_honored : DisputeReason
  incorrect_charge duplicate_charge checkin_failure service_quality other : DisputeReason

-- The subject of a ticket, given or made from the reason of a dispute.
pub data Subject : Type 0 where
  text : String → Subject
  dispute_about : DisputeReason → Subject

pub record SupportTicket : Type 0 where
  pub id : ℕ
  pub organization_id : Option ℕ
  pub user_id : ℕ
  pub booking_id : Option ℕ
  pub category : TicketCategory
  pub subject : Subject
  pub description : String
  pub priority : TicketPriority
  pub status : TicketStatus
  pub assigned_agent_id : Option ℕ
  pub resolution_notes : Option String
  pub closed_at : Option ℕ

pub data SenderRole : Type 0 where
  customer partner support admin : SenderRole

pub record SupportMessage : Type 0 where
  pub ticket_id : ℕ
  pub sender_id : ℕ
  pub sender_role : SenderRole
  pub body : String

pub data DisputeStatus : Type 0 where
  opened under_review decided resolved rejected closed : DisputeStatus

pub data DisputeDecision : Type 0 where
  full_refund partial_refund no_refund goodwill_credit : DisputeDecision

pub record Dispute : Type 0 where
  pub id : ℕ
  pub ticket_id : ℕ
  pub booking_id : ℕ
  pub payment_id : Option ℕ
  pub organization_id : ℕ
  pub customer_id : ℕ
  pub reason : DisputeReason
  pub description : String
  pub status : DisputeStatus
  pub partner_response : Option String
  pub decision : Option DisputeDecision
  pub refund_amount : Option ℕ
  pub goodwill_points : Option ℕ
  pub decided_by_id : Option ℕ
  pub decided_at : Option ℕ

-- The tables of the payments and of the points, and those of the support.
pub record Desk : Type 0 where
  pub store : PaymentStore
  pub points : Points
  pub tickets : List SupportTicket
  pub messages : List SupportMessage
  pub disputes : List Dispute

pub record CreateTicketDto : Type 0 where
  pub booking_id : Option ℕ
  pub category : TicketCategory
  pub subject : String
  pub description : String
  pub priority : Option TicketPriority

pub record CreateDisputeDto : Type 0 where
  pub booking_id : ℕ
  pub reason : DisputeReason
  pub description : String

pub record ResolveDisputeDto : Type 0 where
  pub decision : DisputeDecision
  pub refund_amount : Option ℕ
  pub goodwill_points : Option ℕ
  pub resolution_notes : String
