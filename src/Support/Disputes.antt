-- ===== src/Support/Disputes.antt =====
-- backend/src/support/disputes.service.ts: disputes about bookings, which end in a refund by
-- `initiateRefund` of the payment service, in points by `earnPoints` of the loyalty service, or in
-- neither. The audit log is left out.
use Prim.Native.String.{String}
use playhub_playbooking.Common.{
  Bool, Option, Result, bad_request, conflict, err, false, forbidden, is_some, ltb, none, not,
  not_found, ok, or_default, or_none, or_throw, some, throw_if, true, ℕ, ◌&&◌, ◌==◌, ◌>>=◌, ◌>>◌,
  ◌∷◌,
}
use playhub_playbooking.Common.Database.{Database, update_row}
use playhub_playbooking.Loyalty.{earn_points}
use playhub_playbooking.Loyalty.Types.{goodwill_key}
use playhub_playbooking.Payments.Refunds.{initiate_refund}
use playhub_playbooking.Payments.Types.{ProviderClient}
use playhub_playbooking.Schema.{Booking, Payment, PaymentProvider, captured, ◌=p◌}
use playhub_playbooking.Support.{booking_of_user, is_stranger, open_ticket}
use playhub_playbooking.Support.Types.{
  CreateDisputeDto, Desk, Dispute, DisputeDecision, DisputeStatus, ResolveDisputeDto, SupportTicket,
  TicketStatus, decided, dispute_about, full_refund, goodwill_credit, high, in_progress, no_refund,
  partial_refund, refund_issue, under_review,
}

-- Not REJECTED and not CLOSED.
abbrev pub is_active_dispute : DisputeStatus → Bool
is_active_dispute DisputeStatus.rejected = false
is_active_dispute DisputeStatus.closed = false
is_active_dispute _ = true

abbrev pub is_captured_for : ℕ → Payment → Bool
is_captured_for booking_id p = p.booking_id == booking_id && p.status =p captured

-- The captured payment of a booking, or else some payment of it.
abbrev pub disputed_payment : Database → Desk → ℕ → Option ℕ
disputed_payment db desk booking_id =
    elim (db.find_first (is_captured_for booking_id) desk.store.payments) [
      | some p ↦ some p.id
      | none ↦
          elim (db.find_first (λ (p : Payment). p.booking_id == booking_id) desk.store.payments) [
            | some p ↦ some p.id
            | none ↦ none
          ]
    ]

abbrev pub new_dispute : ℕ → ℕ → Option ℕ → Booking → ℕ → CreateDisputeDto → Dispute
new_dispute id ticket_id payment_id booking user_id dto = record {
  id = id;
  ticket_id = ticket_id;
  booking_id = booking.id;
  payment_id = payment_id;
  organization_id = booking.organization_id;
  customer_id = user_id;
  reason = dto.reason;
  description = dto.description;
  status = DisputeStatus.opened;
  partner_response = none;
  decision = none;
  refund_amount = none;
  goodwill_points = none;
  decided_by_id = none;
  decided_at = none;
}

unfoldable pub create_dispute :
    Database → ℕ → ℕ → Desk → ℕ → CreateDisputeDto → Result (Dispute × Desk)
create_dispute db new_id ticket_id desk user_id dto = do
  booking ←
      or_throw (booking_of_user db desk dto.booking_id user_id)
        (forbidden "Unauthorized access or booking not found")
  throw_if
      (is_some (
        db.find_first
          (λ (d : Dispute). d.booking_id == dto.booking_id && is_active_dispute d.status)
          desk.disputes))
      (conflict "An active dispute already exists for this booking")
  let ticket : SupportTicket = record {
    id = ticket_id;
    organization_id = some booking.organization_id;
    user_id = user_id;
    booking_id = some booking.id;
    category = refund_issue;
    subject = dispute_about dto.reason;
    description = dto.description;
    priority = high;
    status = TicketStatus.opened;
    assigned_agent_id = none;
    resolution_notes = none;
    closed_at = none;
  }
  let with_ticket : Desk = open_ticket ticket desk
  let dispute =
      new_dispute new_id ticket_id (disputed_payment db desk booking.id) booking user_id dto
  ok (dispute, record with_ticket { disputes = dispute ∷ desk.disputes })

abbrev pub dispute_with : Database → Desk → ℕ → Option Dispute
dispute_with db desk id = db.find_first (λ (d : Dispute). d.id == id) desk.disputes

unfoldable pub get_dispute_by_id : Database → Desk → ℕ → ℕ → Bool → Option ℕ → Result Dispute
get_dispute_by_id db desk user_id dispute_id is_staff partner_org_id = do
  dispute ← or_throw (dispute_with db desk dispute_id) (not_found "Dispute case not found")
  throw_if
      (not is_staff
        && is_stranger dispute.customer_id user_id (some dispute.organization_id) partner_org_id)
      (forbidden "Unauthorized access to dispute case")
  ok dispute

-- The update of the dispute, then that of its ticket: if the second throws, the first stays.
unfoldable pub update_both :
    Database
    → (Dispute → Dispute)
    → (SupportTicket → SupportTicket)
    → Dispute
    → Desk
    → Result Dispute × Desk
update_both db change change_ticket dispute desk =
    elim (update_row db (λ (d : Dispute). d.id == dispute.id) change desk.disputes) [
      | err e ↦ (err e, desk)
      | ok (updated, disputes) ↦
          let changed : Desk = record desk { disputes = disputes } in
          elim (update_row db (λ (t : SupportTicket). t.id == dispute.ticket_id) change_ticket
            desk.tickets) [
              | err e ↦ (err e, changed)
              | ok (ticket, tickets) ↦ (ok updated, record changed { tickets = tickets })
            ]
    ]

abbrev pub under_review_with : String → Dispute → Dispute
under_review_with response d = record d { partner_response = some response; status = under_review }

unfoldable pub partner_response : Database → Desk → ℕ → ℕ → String → Result Dispute × Desk
partner_response db desk partner_org_id dispute_id response =
    let found = do
      dispute ← or_throw (dispute_with db desk dispute_id) (not_found "Dispute not found")
      throw_if (not (dispute.organization_id == partner_org_id))
          (forbidden "Unauthorized organization context for dispute")
      ok dispute
    in elim found [
      | err e ↦ (err e, desk)
      | ok dispute ↦
          update_both db (under_review_with response) (λ t. record t { status = in_progress })
            dispute desk
    ]

abbrev pub is_final : DisputeStatus → Bool
is_final decided = true
is_final DisputeStatus.resolved = true
is_final DisputeStatus.closed = true
is_final _ = false

abbrev pub is_refund : DisputeDecision → Bool
is_refund full_refund = true
is_refund partial_refund = true
is_refund _ = false

-- The payment of the dispute, or else the captured one of its booking.
unfoldable pub payment_to_refund : Database → Desk → Dispute → Option Payment
payment_to_refund db desk dispute =
    let captured_one = db.find_first (is_captured_for dispute.booking_id) desk.store.payments in
    elim dispute.payment_id [
      | none ↦ captured_one
      | some id ↦ elim (db.find_first (λ (p : Payment). p.id == id) desk.store.payments) [
        | some p ↦ some p
        | none ↦ captured_one
      ]
    ]

abbrev pub requested_refund : DisputeDecision → Option ℕ → ℕ → ℕ
requested_refund full_refund given original = original
requested_refund _ given original = or_default given original

-- The refund of a decision.
unfoldable pub refund_for :
    Database → (PaymentProvider → ProviderClient) → Desk → Dispute → ResolveDisputeDto → Result Desk
refund_for db clients desk dispute dto = do
  payment ←
      or_throw (payment_to_refund db desk dispute)
        (bad_request "No captured payment found on booking to issue refund")
  throw_if (ltb payment.amount (requested_refund dto.decision dto.refund_amount payment.amount))
      (bad_request "Refund amount exceeds captured payment amount")
  refunded_payment ← initiate_refund db clients desk.store dispute.organization_id payment.id
  ok (record desk { store = refunded_payment.1 })

-- The points of a decision.
unfoldable pub points_for : Database → ℕ → ℕ → Desk → Dispute → ℕ → Result Desk
points_for db now new_id desk dispute n = do
  earned ←
      earn_points db now new_id desk.points dispute.customer_id n (some dispute.id)
        (some (goodwill_key dispute.id))
  ok (record desk { points = earned.1 })

-- What a decision does to the payments and the points.
unfoldable pub carry_out :
    Database
    → (PaymentProvider → ProviderClient)
    → ℕ
    → ℕ
    → Desk
    → Dispute
    → ResolveDisputeDto
    → Result Desk
carry_out db clients now new_id desk dispute dto = elim dto.decision [
  | full_refund ↦ refund_for db clients desk dispute dto
  | partial_refund ↦ refund_for db clients desk dispute dto
  | no_refund ↦ ok desk
  | goodwill_credit ↦ elim (or_none dto.goodwill_points) [
    | none ↦ ok desk
    | some n ↦ points_for db now new_id desk dispute n
  ]
]

-- The steps of a resolution up to the updates.
unfoldable pub decide :
    Database
    → (PaymentProvider → ProviderClient)
    → ℕ
    → ℕ
    → Desk
    → ℕ
    → ResolveDisputeDto
    → Result (Dispute × Desk)
decide db clients now new_id desk dispute_id dto = do
  dispute ← or_throw (dispute_with db desk dispute_id) (not_found "Dispute case not found")
  throw_if (is_final dispute.status) (conflict "Dispute is already in terminal status")
  after ← carry_out db clients now new_id desk dispute dto
  ok (dispute, after)

abbrev pub decided_by : ℕ → ℕ → ResolveDisputeDto → Dispute → Dispute
decided_by admin_id now dto d = record d {
  decision = some dto.decision;
  refund_amount = or_none dto.refund_amount;
  goodwill_points = or_none dto.goodwill_points;
  status = decided;
  decided_by_id = some admin_id;
  decided_at = some now;
}

abbrev pub closed_by : ℕ → ℕ → ResolveDisputeDto → SupportTicket → SupportTicket
closed_by admin_id now dto t = record t {
  status = TicketStatus.resolved;
  assigned_agent_id = some admin_id;
  resolution_notes = some dto.resolution_notes;
  closed_at = some now;
}

-- What was carried out stays if one of the updates throws; `new_id` is the identifier of a new
-- account of points.
unfoldable pub resolve_dispute :
    Database
    → (PaymentProvider → ProviderClient)
    → ℕ
    → ℕ
    → Desk
    → ℕ
    → ℕ
    → ResolveDisputeDto
    → Result Dispute × Desk
resolve_dispute db clients now new_id desk admin_id dispute_id dto =
    elim (decide db clients now new_id desk dispute_id dto) [
      | err e ↦ (err e, desk)
      | ok (dispute, after) ↦
          update_both db (decided_by admin_id now dto) (closed_by admin_id now dto) dispute after
    ]
