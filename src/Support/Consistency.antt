-- ===== src/Support/Consistency.antt =====
-- Every request to backend/src/support/disputes.service.ts leaves one dispute for a booking, and the
-- balances of points accounted for.
use Prim.Native.String.{String}
use playhub_playbooking.Common.{
  >>=-eq-ok, All, All-of_both, Bool, Bool-cases, List, Option-cases, Result-cases, ap, arith, false,
  if◌then◌else◌, inl, inr, is_some, ltb, ok, or_throw-eq-ok, refl, some, state_of_ok, subst, sym,
  throw_if-eq-ok, true, ℕ, ◌&&◌, ◌==◌, ◌∷◌, ◌≡◌,
}
use playhub_playbooking.Common.Database.{
  All-intro, AllPairs, AllPairs-update_many, Database, update_many, update_many-All,
}
use playhub_playbooking.Loyalty.{add_points_internal, earn_points}
use playhub_playbooking.Loyalty.Accounts.{IsAccounted}
use playhub_playbooking.Loyalty.Balance.{add_points_internal-IsAccounted}
use playhub_playbooking.Loyalty.History.{Bank}
use playhub_playbooking.Loyalty.Types.{PointsType, goodwill_key}
use playhub_playbooking.Payments.Refunds.{initiate_refund}
use playhub_playbooking.Payments.Types.{ProviderClient}
use playhub_playbooking.Schema.{Booking, PaymentProvider}
use playhub_playbooking.Support.{booking_of_user, open_ticket}
use playhub_playbooking.Support.Disputes.{
  carry_out, closed_by, create_dispute, decide, decided_by, dispute_with, disputed_payment,
  is_active_dispute, is_final, new_dispute, partner_response, payment_to_refund, points_for,
  refund_for, requested_refund, resolve_dispute, under_review_with, update_both,
}
use playhub_playbooking.Support.Resolutions.{carry_out-cases, update_both-keeps}
use playhub_playbooking.Support.Types.{
  CreateDisputeDto, Desk, Dispute, ResolveDisputeDto, SupportTicket, in_progress,
}

-- Disputes are about different bookings, and none is rejected or closed.
abbrev pub HasOneDispute : List Dispute → Type 0
HasOneDispute disputes =
    AllPairs (λ (a b : Dispute). (a.booking_id == b.booking_id) ≡ false) disputes
    × All (λ (d : Dispute). is_active_dispute d.status ≡ true) disputes

abbrev pub IsConsistent : Desk → Type 0
IsConsistent desk = HasOneDispute desk.disputes × IsAccounted desk.points

-- What leaves the disputes and the points.
same_records :
    (desk after : Desk)
    → after.disputes ≡ desk.disputes
    → after.points ≡ desk.points
    → IsConsistent desk
    → IsConsistent after
same_records desk after d p sound = rw (d, p) sound

changed-HasOneDispute :
    (change : Dispute → Dispute) (id : ℕ) (disputes : List Dispute)
    → ((d : Dispute)
        → ((change d).booking_id ≡ d.booking_id) × (is_active_dispute (change d).status ≡ true))
    → HasOneDispute disputes
    → HasOneDispute (update_many (λ (d : Dispute). d.id == id) change disputes)
changed-HasOneDispute change id disputes keeps (apart, active) = (
  AllPairs-update_many (λ (a b : Dispute). (a.booking_id == b.booking_id) ≡ false) (λ d. Unit {0})
      (λ (d : Dispute). d.id == id) change disputes (λ a b _ _. pair a b (a.id == id) (b.id == id))
      (All-intro (λ d. Unit {0}) disputes (λ d. tt)) apart,
  update_many-All (λ (d : Dispute). is_active_dispute d.status ≡ true) (λ (d : Dispute). d.id == id)
      change disputes (λ d _ _. (keeps d).1) active,
)
  where
    pair :
        (a b : Dispute) (x y : Bool)
        → (a.booking_id == b.booking_id) ≡ false
        → ((if x then change a else a).booking_id == (if y then change b else b).booking_id) ≡ false
    pair a b true true ne = rw ((keeps a).0, (keeps b).0) ne
    pair a b true false ne = rw (keeps a).0 ne
    pair a b false true ne = rw (keeps b).0 ne
    pair a b false false ne = ne

update_both-IsConsistent :
    (db : Database) (change : Dispute → Dispute) (change_ticket : SupportTicket → SupportTicket)
    (dispute : Dispute) (desk : Desk)
    → ((d : Dispute)
        → ((change d).booking_id ≡ d.booking_id) × (is_active_dispute (change d).status ≡ true))
    → IsConsistent desk
    → IsConsistent (update_both db change change_ticket dispute desk).1
update_both-IsConsistent db change change_ticket dispute desk keeps (one, accounted) =
    let (_, points, disputes) = update_both-keeps db change change_ticket dispute desk in
    let changed = changed-HasOneDispute change dispute.id desk.disputes keeps one in
    let IsOne = λ (ds : List Dispute). HasOneDispute ds in
    (
      elim disputes [
        | inl same ↦ subst IsOne (sym same) one
        | inr same ↦ subst IsOne (sym same) changed
      ],
      subst IsAccounted (sym points) accounted,
    )

pub create_dispute-IsConsistent :
    (db : Database) (new_id ticket_id : ℕ) (desk : Desk) (user_id : ℕ) (dto : CreateDisputeDto)
    (dispute : Dispute) (after : Desk)
    → IsConsistent desk
    → create_dispute db new_id ticket_id desk user_id dto ≡ ok (dispute, after)
    → IsConsistent after
unfolding create_dispute open_ticket
create_dispute-IsConsistent db new_id ticket_id desk user_id dto dispute after
      ((apart, active), accounted) h =
    let (booking, found, h1) =
      or_throw-eq-ok (booking_of_user db desk dto.booking_id user_id) _ _ h in
    let p = λ (d : Dispute). d.booking_id == dto.booking_id && is_active_dispute d.status in
    let (fresh, h2) = throw_if-eq-ok (is_some (db.find_first p desk.disputes)) _ _ h1 in
    let made =
      new_dispute new_id ticket_id (disputed_payment db desk booking.id) booking user_id dto in
    let named : (booking.id == dto.booking_id && booking.user_id == user_id) ≡ true =
      db.find_first-some (λ (b : Booking). b.id == dto.booking_id && b.user_id == user_id)
        desk.store.bookings booking found in
    let others : All (λ d. p d ≡ false) desk.disputes =
      elim (Option-cases (db.find_first p desk.disputes)) [
        | inl e ↦ db.find_first-none p desk.disputes e
        | inr (d, e) ↦ absurd (cc (rw e at fresh))
      ] in
    let disputes : after.disputes ≡ made ∷ desk.disputes =
      ap (λ (d : Desk). d.disputes) (sym (state_of_ok made dispute _ after h2)) in
    let points : after.points ≡ desk.points =
      ap (λ (d : Desk). d.points) (sym (state_of_ok made dispute _ after h2)) in
    let distinct : All (λ (d : Dispute). (booking.id == d.booking_id) ≡ false) desk.disputes =
      All-of_both desk.disputes (λ d out is. ground arith) others active in
    (
      subst (λ (ds : List Dispute). HasOneDispute ds) (sym disputes)
          ((distinct, apart), (refl, active)),
      subst IsAccounted (sym points) accounted,
    )

carry_out-IsConsistent :
    (bank : Bank) (clients : PaymentProvider → ProviderClient) (now : ℕ) (desk : Desk)
    (dispute : Dispute) (dto : ResolveDisputeDto) (after : Desk)
    → IsConsistent desk
    → carry_out bank.db clients now (bank.id_of desk.points) desk dispute dto ≡ ok after
    → IsConsistent after
unfolding refund_for points_for earn_points
carry_out-IsConsistent bank clients now desk dispute dto after sound h =
    elim (carry_out-cases bank.db clients now (bank.id_of desk.points) desk dispute dto after h) [
      | inl nothing ↦ let same : desk ≡ after = cc in subst IsConsistent same sound
      | inr (inl paid_back) ↦
          let (payment, _, h1) =
            or_throw-eq-ok (payment_to_refund bank.db desk dispute) _ _ paid_back in
          let asked = requested_refund dto.decision dto.refund_amount payment.amount in
          let (_, h2) = throw_if-eq-ok (ltb payment.amount asked) _ _ h1 in
          let ((p, store), _, h3) =
            >>=-eq-ok
              (initiate_refund bank.db clients desk.store dispute.organization_id payment.id) _
              h2 in
          let same : record desk { store = store } ≡ after = cc in subst IsConsistent same sound
      | inr (inr (n, earned)) ↦
          let id = bank.id_of desk.points in
          let ((t, points), k, h1) =
            >>=-eq-ok
              (add_points_internal bank.db now id desk.points dispute.customer_id n PointsType.earn
                (some dispute.id) (some (goodwill_key dispute.id)))
              _ earned in
          let accounted =
            add_points_internal-IsAccounted bank.db now id desk.points dispute.customer_id n
              PointsType.earn (some dispute.id) (some (goodwill_key dispute.id)) t points
              (bank.id_of-IsFresh desk.points) sound.1 k in
          let same : record desk { points = points } ≡ after = cc in
          subst IsConsistent same (sound.0, accounted)
    ]

pub resolve_dispute-IsConsistent :
    (bank : Bank) (clients : PaymentProvider → ProviderClient) (now : ℕ) (desk : Desk)
    (admin_id dispute_id : ℕ) (dto : ResolveDisputeDto)
    → IsConsistent desk
    → IsConsistent
        (resolve_dispute bank.db clients now
          (bank.id_of desk.points)
          desk
          admin_id
          dispute_id
          dto).1
unfolding resolve_dispute decide
resolve_dispute-IsConsistent bank clients now desk admin_id dispute_id dto sound =
    let id = bank.id_of desk.points in
    elim (Result-cases (decide bank.db clients now id desk dispute_id dto)) [
      | inr (e, k) ↦ rw (resolve_dispute, k) sound
      | inl ((d, carried), k) ↦
          let (dispute, _, k1) = or_throw-eq-ok (dispute_with bank.db desk dispute_id) _ _ k in
          let (_, k2) = throw_if-eq-ok (is_final dispute.status) _ _ k1 in
          let (after, done, k3) =
            >>=-eq-ok (carry_out bank.db clients now id desk dispute dto) _ k2 in
          let kept = carry_out-IsConsistent bank clients now desk dispute dto after sound done in
          let same = state_of_ok dispute d after carried k3 in
          rw (resolve_dispute, k)
            (update_both-IsConsistent bank.db (decided_by admin_id now dto)
              (closed_by admin_id now dto) d carried (λ d. (refl, refl))
              (subst IsConsistent same kept))
    ]

pub partner_response-IsConsistent :
    (db : Database) (desk : Desk) (partner_org_id dispute_id : ℕ) (response : String)
    → IsConsistent desk
    → IsConsistent (partner_response db desk partner_org_id dispute_id response).1
unfolding partner_response
partner_response-IsConsistent db desk partner_org_id dispute_id response sound =
    let p = λ (d : Dispute). d.id == dispute_id in
    elim (Option-cases (dispute_with db desk dispute_id)) [
      | inl e ↦ rw (partner_response, e) sound
      | inr (dispute, e) ↦ elim (Bool-cases (dispute.organization_id == partner_org_id)) [
        | inr k ↦ rw (partner_response, e, k) sound
        | inl k ↦
            rw (partner_response, e, k)
              (update_both-IsConsistent db (under_review_with response)
                (λ t. record t { status = in_progress }) dispute desk (λ d. (refl, refl)) sound)
      ]
    ]
