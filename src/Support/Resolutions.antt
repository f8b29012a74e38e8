-- ===== src/Support/Resolutions.antt =====
-- What the resolutions of backend/src/support/disputes.service.ts leave in the tables.
use playhub_playbooking.Common.{
  >>=-eq-ok, List, Option, Result, Result-cases, ap, arith, false, inl, inr, ltb, none, ok, or_none,
  or_throw-eq-ok, refl, some, subst, sym, throw_if-eq-ok, true, ℕ, ◌==◌, ◌∙◌, ◌≡◌, ◌≤◌, ◌⊎◌,
}
use playhub_playbooking.Common.Database.{Database, update_many, update_row, update_row-ok}
use playhub_playbooking.Payments.{HasStatus, IsKeyed}
use playhub_playbooking.Payments.Refunds.{initiate_refund, initiate_refund-once}
use playhub_playbooking.Payments.Types.{PaymentStore, ProviderClient}
use playhub_playbooking.Schema.{Payment, PaymentProvider, refunded}
use playhub_playbooking.Support.Disputes.{
  carry_out, closed_by, decide, decided_by, dispute_with, is_final, is_refund, payment_to_refund,
  points_for, refund_for, requested_refund, resolve_dispute, update_both,
}
use playhub_playbooking.Support.Types.{
  Desk, Dispute, DisputeDecision, ResolveDisputeDto, SupportTicket, decided, full_refund,
  goodwill_credit, no_refund, partial_refund,
}

module _ (db : Database) (change : Dispute → Dispute)
    (change_ticket : SupportTicket → SupportTicket) (dispute : Dispute) (desk : Desk) where
  -- The updates leave the payments and the points, and change the dispute or nothing.
  pub update_both-keeps :
      let after = (update_both db change change_ticket dispute desk).1 in
      (after.store ≡ desk.store)
      × (after.points ≡ desk.points)
      × ((after.disputes ≡ desk.disputes)
          ⊎ (after.disputes
              ≡ update_many (λ (d : Dispute). d.id == dispute.id) change desk.disputes))
  unfolding update_both
  update_both-keeps =
      let p = λ (d : Dispute). d.id == dispute.id in
      let q = λ (t : SupportTicket). t.id == dispute.ticket_id in
      elim (Result-cases (update_row db p change desk.disputes)) [
        | inr (e, k) ↦ rw (update_both, k) (refl, refl, inl refl)
        | inl ((updated, disputes), k) ↦
            let (_, _, _, same) = update_row-ok db p change desk.disputes (updated, disputes) k in
            elim (Result-cases (update_row db q change_ticket desk.tickets)) [
              | inr (e, l) ↦ rw (update_both, k, l) (refl, refl, inr same)
              | inl ((ticket, tickets), l) ↦ rw (update_both, k, l) (refl, refl, inr same)
            ]
      ]

  pub update_both-ok :
      (updated : Dispute) (after : Desk)
      → update_both db change change_ticket dispute desk ≡ (ok updated, after)
      → (row : Dispute) × ((row.id == dispute.id) ≡ true) × (updated ≡ change row)
  unfolding update_both
  update_both-ok updated after h =
      let p = λ (d : Dispute). d.id == dispute.id in
      let q = λ (t : SupportTicket). t.id == dispute.ticket_id in
      elim (Result-cases (update_row db p change desk.disputes)) [
        | inr (e, k) ↦ absurd (cc (rw (update_both, k) at h))
        | inl ((first, disputes), k) ↦
            let (row, found, made, _) =
              update_row-ok db p change desk.disputes (first, disputes) k in
            elim (Result-cases (update_row db q change_ticket desk.tickets)) [
              | inr (e, l) ↦ absurd (cc (rw (update_both, k, l) at h))
              | inl ((ticket, tickets), l) ↦
                  let same : first ≡ updated = cc (rw (update_both, k, l) at h) in
                  (row, db.find_first-some p desk.disputes row found, sym same ∙ made)
            ]
      ]

-- A refund that does not throw is of a payment that was found, whose rows are REFUNDED afterwards.
abbrev pub IsRefunded : Database → Desk → Dispute → ResolveDisputeDto → List Payment → Type 0
IsRefunded db desk dispute dto payments =
    (payment : Payment) × (payment_to_refund db desk dispute ≡ some payment)
    × (requested_refund dto.decision dto.refund_amount payment.amount ≤ payment.amount)
    × HasStatus refunded payment.id payments

refund_for-IsRefunded :
    (db : Database) (clients : PaymentProvider → ProviderClient) (desk : Desk) (dispute : Dispute)
    (dto : ResolveDisputeDto) (after : Desk)
    → IsKeyed desk.store.payments
    → refund_for db clients desk dispute dto ≡ ok after
    → IsRefunded db desk dispute dto after.store.payments
unfolding refund_for
refund_for-IsRefunded db clients desk dispute dto after keyed h =
    let (payment, found, h1) = or_throw-eq-ok (payment_to_refund db desk dispute) _ _ h in
    let asked = requested_refund dto.decision dto.refund_amount payment.amount in
    let (bounded, h2) = throw_if-eq-ok (ltb payment.amount asked) _ _ h1 in
    let ((p, store), made, h3) =
      >>=-eq-ok (initiate_refund db clients desk.store dispute.organization_id payment.id) _ h2 in
    let (all, _) =
      initiate_refund-once db clients desk.store dispute.organization_id payment.id p store keyed
        made in
    let same : record desk { store = store } ≡ after = cc in
    (
      payment,
      found,
      ground arith,
      subst (λ (d : Desk). HasStatus refunded payment.id d.store.payments) same all,
    )

carry_out_refund :
    (db : Database) (clients : PaymentProvider → ProviderClient) (now new_id : ℕ) (desk : Desk)
    (dispute : Dispute) (dto : ResolveDisputeDto)
    → is_refund dto.decision ≡ true
    → carry_out db clients now new_id desk dispute dto ≡ refund_for db clients desk dispute dto
unfolding carry_out
carry_out_refund db clients now new_id desk dispute dto = by_decision dto.decision
  where
    refund : Result Desk
    refund = refund_for db clients desk dispute dto

    points : Result Desk
    points = elim (or_none dto.goodwill_points) [
      | none ↦ ok desk
      | some n ↦ points_for db now new_id desk dispute n
    ]

    by_decision :
        (d : DisputeDecision)
        → is_refund d ≡ true
        → elim d [
          | full_refund ↦ refund
          | partial_refund ↦ refund
          | no_refund ↦ ok desk
          | goodwill_credit ↦ points
        ]
          ≡ refund
    by_decision full_refund h = refl
    by_decision partial_refund h = refl
    by_decision no_refund h = cc
    by_decision goodwill_credit h = cc

-- If a decision to refund, in full or in part, is carried out without an error, then the dispute was
-- not decided yet, every row of the payment that it refunds is REFUNDED afterwards, whatever part
-- was asked for, provided that payments have distinct identifiers, and the dispute is DECIDED.
pub resolve_dispute-HasStatus :
    (db : Database) (clients : PaymentProvider → ProviderClient) (now new_id : ℕ) (desk : Desk)
    (admin_id dispute_id : ℕ) (dto : ResolveDisputeDto) (updated : Dispute) (after : Desk)
    → IsKeyed desk.store.payments
    → is_refund dto.decision ≡ true
    → resolve_dispute db clients now new_id desk admin_id dispute_id dto ≡ (ok updated, after)
    → (dispute : Dispute) × (dispute_with db desk dispute_id ≡ some dispute)
      × (is_final dispute.status ≡ false)
      × (updated.status ≡ decided)
      × IsRefunded db desk dispute dto after.store.payments
unfolding resolve_dispute decide
resolve_dispute-HasStatus db clients now new_id desk admin_id dispute_id dto updated after keyed
      wants h =
    elim (Result-cases (decide db clients now new_id desk dispute_id dto)) [
      | inr (e, k) ↦ absurd (cc (rw (resolve_dispute, k) at h))
      | inl ((d, paid_back), k) ↦
          let (dispute, found, k1) = or_throw-eq-ok (dispute_with db desk dispute_id) _ _ k in
          let (not_yet, k2) = throw_if-eq-ok (is_final dispute.status) _ _ k1 in
          let (desk', carried, k3) =
            >>=-eq-ok (carry_out db clients now new_id desk dispute dto) _ k2 in
          let same : (dispute, desk') ≡ (d, paid_back) = cc in
          let refunding : refund_for db clients desk dispute dto ≡ ok desk' =
            sym (carry_out_refund db clients now new_id desk dispute dto wants) ∙ carried in
          let refund = refund_for-IsRefunded db clients desk dispute dto desk' keyed refunding in
          let both : update_both db (decided_by admin_id now dto) (closed_by admin_id now dto) d
                paid_back
              ≡ (ok updated, after) =
            rw (resolve_dispute, k) at h in
          let (store, _, _) =
            update_both-keeps db (decided_by admin_id now dto) (closed_by admin_id now dto) d
              paid_back in
          let (row, _, changed) =
            update_both-ok db (decided_by admin_id now dto) (closed_by admin_id now dto) d paid_back
              updated after both in
          let last : after.store ≡ desk'.store =
            ap (λ (r : Result Dispute × Desk). r.1.store) (sym both)
            ∙ store
            ∙ ap (λ (r : Dispute × Desk). r.1.store) (sym same) in
          (
            dispute,
            found,
            not_yet,
            ap (λ (d : Dispute). d.status) changed,
            subst (λ (t : PaymentStore). IsRefunded db desk dispute dto t.payments) (sym last)
                refund,
          )
    ]

-- What is carried out is nothing, a refund, or some points.
pub carry_out-cases :
    (db : Database) (clients : PaymentProvider → ProviderClient) (now new_id : ℕ) (desk : Desk)
    (dispute : Dispute) (dto : ResolveDisputeDto) (after : Desk)
    → carry_out db clients now new_id desk dispute dto ≡ ok after
    → (ok desk ≡ ok after)
      ⊎ ((refund_for db clients desk dispute dto ≡ ok after)
          ⊎ ((n : ℕ) × (points_for db now new_id desk dispute n ≡ ok after)))
unfolding carry_out
carry_out-cases db clients now new_id desk dispute dto after =
    by_decision dto.decision (or_none dto.goodwill_points)
  where
    by_decision :
        (d : DisputeDecision) (points : Option ℕ)
        → elim d [
          | full_refund ↦ refund_for db clients desk dispute dto
          | partial_refund ↦ refund_for db clients desk dispute dto
          | no_refund ↦ ok desk
          | goodwill_credit ↦ elim points [
            | none ↦ ok desk
            | some n ↦ points_for db now new_id desk dispute n
          ]
        ]
          ≡ ok after
        → (ok desk ≡ ok after)
          ⊎ ((refund_for db clients desk dispute dto ≡ ok after)
              ⊎ ((n : ℕ) × (points_for db now new_id desk dispute n ≡ ok after)))
    by_decision full_refund points h = inr (inl h)
    by_decision partial_refund points h = inr (inl h)
    by_decision no_refund points h = inl h
    by_decision goodwill_credit none h = inl h
    by_decision goodwill_credit (some n) h = inr (inr (n, h))
