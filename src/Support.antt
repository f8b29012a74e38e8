-- ===== src/Support.antt =====
-- backend/src/support/support.service.ts: tickets and their messages. The audit log is left out;
-- `new_id` is the identifier that the database gives a new ticket.
use Prim.Native.String.{String}
pub mod Types
pub mod Disputes
pub mod Resolutions
pub mod Consistency
pub mod History
pub mod Access
mod Tests
use playhub_playbooking.Common.{
  Bool, Option, Result, false, forbidden, if◌then◌else◌, none, not, not_found, ok, opt_eq, or_throw,
  some, throw_if, true, ℕ, ◌&&◌, ◌==◌, ◌>>=◌, ◌>>◌, ◌∷◌,
}
use playhub_playbooking.Common.Database.{Database, update_row}
use playhub_playbooking.Schema.{Booking}
use playhub_playbooking.Support.Types.{
  CreateTicketDto, Desk, SenderRole, SupportMessage, SupportTicket, TicketPriority, TicketStatus,
  admin, closed, customer, in_progress, medium, opened, partner, resolved, support, text,
  waiting_for_customer,
}

abbrev pub or_medium : Option TicketPriority → TicketPriority
or_medium none = medium
or_medium (some p) = p

abbrev pub booking_of_user : Database → Desk → ℕ → ℕ → Option Booking
booking_of_user db desk id user_id =
    db.find_first (λ (b : Booking). b.id == id && b.user_id == user_id) desk.store.bookings

-- The organization of the booking that a ticket names; the booking must be the user's.
unfoldable pub organization_of : Database → Desk → ℕ → Option ℕ → Result (Option ℕ)
organization_of db desk user_id none = ok none
organization_of db desk user_id (some id) = do
  booking ←
      or_throw (booking_of_user db desk id user_id)
        (forbidden "Unauthorized access to booking for support ticket")
  ok (some booking.organization_id)

-- A new ticket with the message of the user who opens it.
unfoldable pub open_ticket : SupportTicket → Desk → Desk
open_ticket ticket desk = record desk {
  tickets = ticket ∷ desk.tickets;
  messages =
      record {
        ticket_id = ticket.id;
        sender_id = ticket.user_id;
        sender_role = customer;
        body = ticket.description;
      }
      ∷ desk.messages;
}

unfoldable pub create_ticket :
    Database → ℕ → Desk → ℕ → CreateTicketDto → Result (SupportTicket × Desk)
create_ticket db new_id desk user_id dto = do
  organization ← organization_of db desk user_id dto.booking_id
  let ticket : SupportTicket = record {
    id = new_id;
    organization_id = organization;
    user_id = user_id;
    booking_id = dto.booking_id;
    category = dto.category;
    subject = text dto.subject;
    description = dto.description;
    priority = or_medium dto.priority;
    status = TicketStatus.opened;
    assigned_agent_id = none;
    resolution_notes = none;
    closed_at = none;
  }
  ok (ticket, open_ticket ticket desk)

abbrev pub ticket_with : Database → Desk → ℕ → Option SupportTicket
ticket_with db desk id = db.find_first (λ (t : SupportTicket). t.id == id) desk.tickets

-- Who may read the ticket of a user and the dispute of a customer, unless staff.
unfoldable pub is_stranger : ℕ → ℕ → Option ℕ → Option ℕ → Bool
is_stranger owner user_id organization_id none = not (owner == user_id)
is_stranger owner user_id organization_id (some partner_org_id) =
    not (owner == user_id) && not (opt_eq organization_id (some partner_org_id))

unfoldable pub get_ticket_details : Database → Desk → ℕ → ℕ → Bool → Option ℕ → Result SupportTicket
get_ticket_details db desk user_id ticket_id is_staff partner_org_id = do
  ticket ← or_throw (ticket_with db desk ticket_id) (not_found "Support ticket not found")
  throw_if
      (not is_staff && is_stranger ticket.user_id user_id ticket.organization_id partner_org_id)
      (forbidden "Unauthorized access to support ticket")
  ok ticket

-- The status of a ticket after a message.
unfoldable pub next_status : SenderRole → TicketStatus → TicketStatus
next_status customer waiting_for_customer = in_progress
next_status customer status = status
next_status support status = waiting_for_customer
next_status admin status = waiting_for_customer
next_status partner status = status

unfoldable pub add_message :
    Database → Desk → ℕ → SenderRole → ℕ → String → Result (SupportMessage × Desk)
add_message db desk user_id sender_role ticket_id body = do
  ticket ← or_throw (ticket_with db desk ticket_id) (not_found "Support ticket not found")
  let message : SupportMessage = record {
    ticket_id = ticket_id;
    sender_id = user_id;
    sender_role = sender_role;
    body = body;
  }
  updated ←
      update_row db (λ (t : SupportTicket). t.id == ticket_id)
        (λ t. record t { status = next_status sender_role ticket.status }) desk.tickets
  ok (message, record desk { tickets = updated.1; messages = message ∷ desk.messages })

abbrev pub is_closing : TicketStatus → Bool
is_closing TicketStatus.resolved = true
is_closing TicketStatus.closed = true
is_closing _ = false

abbrev pub or_notes : Option String → Option String → Option String
or_notes none old = old
or_notes (some notes) old = some notes

unfoldable pub update_ticket_status :
    Database → ℕ → Desk → ℕ → ℕ → TicketStatus → Option String → Result (SupportTicket × Desk)
update_ticket_status db now desk agent_id ticket_id status notes = do
  ticket ← or_throw (ticket_with db desk ticket_id) (not_found "Support ticket not found")
  updated ←
      update_row db (λ (t : SupportTicket). t.id == ticket_id)
        (λ t. record t {
          status = status;
          assigned_agent_id = some agent_id;
          resolution_notes = or_notes notes ticket.resolution_notes;
          closed_at = if is_closing status then some now else t.closed_at;
        })
        desk.tickets
  ok (updated.0, record desk { tickets = updated.1 })
