-- ===== src/Support/History.antt =====
-- Any sequence of requests to backend/src/support, on its own tables, the payments and the points.
use Prim.Native.String.{String}
use playhub_playbooking.Common.{
  >>=-eq-ok, List, Option, Result, [], err, if◌then◌else◌, ok, or_throw-eq-ok, refl, some,
  state_of_ok, subst, ℕ, ◌==◌, ◌∷◌, ◌≡◌,
}
use playhub_playbooking.Common.Database.{update_row}
use playhub_playbooking.Loyalty.History.{Bank}
use playhub_playbooking.Payments.Types.{ProviderClient}
use playhub_playbooking.Schema.{PaymentProvider}
use playhub_playbooking.Support.{
  add_message, create_ticket, is_closing, next_status, open_ticket, or_notes, organization_of,
  ticket_with, update_ticket_status,
}
use playhub_playbooking.Support.Consistency.{
  IsConsistent, create_dispute-IsConsistent, partner_response-IsConsistent,
  resolve_dispute-IsConsistent,
}
use playhub_playbooking.Support.Disputes.{create_dispute, partner_response, resolve_dispute}
use playhub_playbooking.Support.Types.{
  CreateDisputeDto, CreateTicketDto, Desk, ResolveDisputeDto, SenderRole, SupportTicket,
  TicketStatus,
}

pub data Request : Type 0 where
  make_ticket : (id user : ℕ) → CreateTicketDto → Request
  write : (user : ℕ) → (role : SenderRole) → (ticket : ℕ) → (body : String) → Request
  set_status : (agent ticket : ℕ) → TicketStatus → (notes : Option String) → Request
  dispute_booking : (id ticket user : ℕ) → CreateDisputeDto → Request
  respond : (organization dispute : ℕ) → (response : String) → Request
  resolve : (admin dispute : ℕ) → ResolveDisputeDto → Request

abbrev desk_after : {A : Type 0} → Desk → Result (A × Desk) → Desk
desk_after desk (ok (a, after)) = after
desk_after desk (err e) = desk

unfoldable pub serve : Bank → (PaymentProvider → ProviderClient) → ℕ → Desk → Request → Desk
serve bank clients now desk (make_ticket id user dto) =
    desk_after desk (create_ticket bank.db id desk user dto)
serve bank clients now desk (write user role ticket body) =
    desk_after desk (add_message bank.db desk user role ticket body)
serve bank clients now desk (set_status agent ticket status notes) =
    desk_after desk (update_ticket_status bank.db now desk agent ticket status notes)
serve bank clients now desk (dispute_booking id ticket user dto) =
    desk_after desk (create_dispute bank.db id ticket desk user dto)
serve bank clients now desk (respond organization dispute response) =
    (partner_response bank.db desk organization dispute response).1
serve bank clients now desk (resolve agent dispute dto) =
    (resolve_dispute bank.db clients now (bank.id_of desk.points) desk agent dispute dto).1

unfoldable pub run : Bank → (PaymentProvider → ProviderClient) → Desk → List (ℕ × Request) → Desk
run bank clients desk [] = desk
run bank clients desk ((now, r) ∷ rest) = run bank clients (serve bank clients now desk r) rest

desk_after-IsConsistent :
    {A : Type 0} (desk : Desk) (result : Result (A × Desk))
    → IsConsistent desk
    → ((a : A) (after : Desk) → result ≡ ok (a, after) → IsConsistent after)
    → IsConsistent (desk_after desk result)
desk_after-IsConsistent desk (ok (a, after)) sound keeps = keeps a after refl
desk_after-IsConsistent desk (err e) sound keeps = sound

serve-IsConsistent :
    (bank : Bank) (clients : PaymentProvider → ProviderClient) (now : ℕ) (desk : Desk) (r : Request)
    → IsConsistent desk
    → IsConsistent (serve bank clients now desk r)
unfolding serve create_ticket open_ticket add_message update_ticket_status
serve-IsConsistent bank clients now desk (make_ticket id user dto) sound =
    desk_after-IsConsistent desk (create_ticket bank.db id desk user dto) sound (λ t after h.
      let (organization, _, k) = >>=-eq-ok (organization_of bank.db desk user dto.booking_id) _ h in
      subst IsConsistent (state_of_ok _ t _ after k) sound)
serve-IsConsistent bank clients now desk (write user role ticket body) sound =
    desk_after-IsConsistent desk (add_message bank.db desk user role ticket body) sound
      (λ m after h.
        let (t, _, k) = or_throw-eq-ok (ticket_with bank.db desk ticket) _ _ h in
        let (updated, _, l) =
          >>=-eq-ok
            (update_row bank.db (λ (t : SupportTicket). t.id == ticket)
              (λ u. record u { status = next_status role t.status }) desk.tickets)
            _ k in
        subst IsConsistent (state_of_ok _ m _ after l) sound)
serve-IsConsistent bank clients now desk (set_status agent ticket status notes) sound =
    desk_after-IsConsistent desk (update_ticket_status bank.db now desk agent ticket status notes)
      sound
      (λ t after h.
        let (row, _, k) = or_throw-eq-ok (ticket_with bank.db desk ticket) _ _ h in
        let (updated, _, l) =
          >>=-eq-ok
            (update_row bank.db (λ (t : SupportTicket). t.id == ticket)
              (λ t. record t {
                status = status;
                assigned_agent_id = some agent;
                resolution_notes = or_notes notes row.resolution_notes;
                closed_at = if is_closing status then some now else t.closed_at;
              })
              desk.tickets)
            _ k in
        subst IsConsistent (state_of_ok updated.0 t _ after l) sound)
serve-IsConsistent bank clients now desk (dispute_booking id ticket user dto) sound =
    desk_after-IsConsistent desk (create_dispute bank.db id ticket desk user dto) sound
      (λ d after h. create_dispute-IsConsistent bank.db id ticket desk user dto d after sound h)
serve-IsConsistent bank clients now desk (respond organization dispute response) sound =
    partner_response-IsConsistent bank.db desk organization dispute response sound
serve-IsConsistent bank clients now desk (resolve agent dispute dto) sound =
    resolve_dispute-IsConsistent bank clients now desk agent dispute dto sound

-- After any sequence of tickets, messages, disputes, responses and resolutions, every booking has one
-- dispute at most, which is neither rejected nor closed, and the balance of points of every account
-- is the sum of its transactions, if all this held before.
pub run-IsConsistent :
    (bank : Bank) (clients : PaymentProvider → ProviderClient) (desk : Desk)
    (requests : List (ℕ × Request))
    → IsConsistent desk
    → IsConsistent (run bank clients desk requests)
unfolding run
run-IsConsistent bank clients desk [] sound = sound
run-IsConsistent bank clients desk ((now, r) ∷ rest) sound =
    run-IsConsistent bank clients (serve bank clients now desk r) rest
      (serve-IsConsistent bank clients now desk r sound)
