-- ===== src/Support/Tests.antt =====
-- Tests of tickets and disputes, and instances of their theorems.
use playhub_playbooking.Payments.Tests as PaymentTests
use playhub_playbooking.Loyalty.Types as LoyaltyTypes
use playhub_playbooking.Common.{
  List, Result, [], false, is_ok, map, none, ok, refl, some, true, ℕ, ◌↔◌, ◌∷◌, ◌≡◌,
}
use playhub_playbooking.Common.ListDatabase.{list_database}
use playhub_playbooking.Loyalty.Tests.{bank, empty, loyalty_program}
use playhub_playbooking.Payments.Tests.{clients, payment_program, store-IsKeyed}
use playhub_playbooking.Schema.{Payment, PaymentStatus, initiated, refunded}
use playhub_playbooking.Support.{
  add_message, create_ticket, get_ticket_details, is_stranger, next_status, open_ticket,
  organization_of, update_ticket_status,
}
use playhub_playbooking.Support.Access.{MayRead, get_dispute_by_id-MayRead}
use playhub_playbooking.Support.Consistency.{IsConsistent}
use playhub_playbooking.Support.Disputes.{
  carry_out, create_dispute, decide, decided_by, dispute_with, get_dispute_by_id, is_final,
  partner_response, payment_to_refund, points_for, refund_for, resolve_dispute, update_both,
}
use playhub_playbooking.Support.History.{
  Request, dispute_booking, resolve, respond, run, run-IsConsistent, serve,
}
use playhub_playbooking.Support.Resolutions.{IsRefunded, resolve_dispute-HasStatus}
use playhub_playbooking.Support.Types.{
  Desk, Dispute, DisputeDecision, DisputeStatus, ResolveDisputeDto, customer, decided,
  goodwill_credit, partial_refund, venue_closed,
}

abbrev desk : Desk
desk = record {
  store = PaymentTests.store;
  points = empty;
  tickets = [];
  messages = [];
  disputes = [];
}

-- The payment test's bookings belong to user 11; payment 2 is captured.
abbrev complaint : Request
complaint =
    dispute_booking 1 7 11
      (record { booking_id = 2; reason = venue_closed; description = "Closed" })

abbrev decision : DisputeDecision → ResolveDisputeDto
decision d = record {
  decision = d;
  refund_amount = some 100;
  goodwill_points = some 250;
  resolution_notes = "Done";
}

unfoldable support_program : Unit {0}
unfolding payment_program loyalty_program organization_of open_ticket create_ticket add_message
    next_status update_ticket_status create_dispute update_both partner_response payment_to_refund
    refund_for points_for carry_out decide resolve_dispute is_stranger get_ticket_details
    get_dispute_by_id serve run
support_program = tt

abbrev disputed : Desk
disputed = run bank clients desk ((40, complaint) ∷ [])

-- A second dispute about the booking changes nothing.
create_dispute-again : run bank clients disputed ((41, complaint) ∷ []) ≡ disputed
unfolding support_program
create_dispute-again = refl

abbrev requests : List (ℕ × Request)
requests =
    (40, complaint)
    ∷ (41, respond 5 1 "Open again")
    ∷ (42, resolve 90 1 (decision partial_refund))
    ∷ (43, respond 5 1 "No")
    ∷ (44, resolve 90 1 (decision goodwill_credit))
    ∷ []

run-IsConsistent_example : IsConsistent (run bank clients desk requests)
run-IsConsistent_example = run-IsConsistent bank clients desk requests ((tt, tt), (tt, tt))

-- A response reopens a dispute that was decided: the customer gets the refund, and the points too.
run-reopened :
    (map (λ (p : Payment). p.status) (run bank clients desk requests).store.payments
      ≡ initiated ∷ refunded ∷ PaymentStatus.cancelled ∷ refunded ∷ [])
    × (map
          (λ (a : LoyaltyTypes.Account). a.points_balance)
          (run bank clients desk requests).points.accounts
        ≡ 250 ∷ [])
unfolding support_program
run-reopened = (refl, refl)

-- The dispute of booking 2, as it is opened.
abbrev dispute : Dispute
dispute = record {
  id = 1;
  ticket_id = 7;
  booking_id = 2;
  payment_id = some 2;
  organization_id = 5;
  customer_id = 11;
  reason = venue_closed;
  description = "Closed";
  status = DisputeStatus.opened;
  partner_response = none;
  decision = none;
  refund_amount = none;
  goodwill_points = none;
  decided_by_id = none;
  decided_at = none;
}

-- A refund of a part gives the whole payment back.
abbrev resolution : Result Dispute × Desk
resolution = resolve_dispute list_database clients 42 1 disputed 90 1 (decision partial_refund)

resolve_dispute-HasStatus_example :
    (d : Dispute) × (dispute_with list_database disputed 1 ≡ some d)
    × (is_final d.status ≡ false)
    × (decided ≡ decided)
    × IsRefunded list_database disputed d (decision partial_refund) resolution.1.store.payments
unfolding support_program
resolve_dispute-HasStatus_example =
    resolve_dispute-HasStatus list_database clients 42 1 disputed 90 1 (decision partial_refund)
      (decided_by 90 42 (decision partial_refund) dispute) resolution.1 store-IsKeyed refl refl

get_dispute_by_id-MayRead_example :
    (get_dispute_by_id list_database disputed 12 1 false (some 5) ≡ ok dispute) ↔ (
      (dispute_with list_database disputed 1 ≡ some dispute)
      × MayRead 11 (some 5) 12 false (some 5))
get_dispute_by_id-MayRead_example =
    get_dispute_by_id-MayRead list_database disputed 12 1 false (some 5) dispute

-- A customer writes to the ticket of another one.
add_message-stranger : is_ok (add_message list_database disputed 99 customer 7 "Hello") ≡ true
unfolding support_program
add_message-stranger = refl
