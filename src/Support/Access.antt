-- ===== src/Support/Access.antt =====
-- Who reads tickets and disputes of backend/src/support.
use playhub_playbooking.Common.{
  ==_iff, Bool, Bool-cases, Option, ap, arith, false, inl, inr, none, not, ok, opt_eq,
  or_throw-eq-ok, refl, some, subst, sym, throw_if-eq-ok, true, ℕ, ◌&&◌, ◌==◌, ◌↔◌, ◌∙◌, ◌≡◌, ◌⊎◌,
}
use playhub_playbooking.Common.Database.{Database}
use playhub_playbooking.Payments.{allowed}
use playhub_playbooking.Support.{is_stranger}
use playhub_playbooking.Support.Disputes.{dispute_with, get_dispute_by_id}
use playhub_playbooking.Support.Types.{Desk, Dispute}

-- Staff, the owner, or a partner of the organization that the row belongs to.
abbrev pub MayRead : ℕ → Option ℕ → ℕ → Bool → Option ℕ → Type 0
MayRead owner organization_id user_id is_staff partner_org_id =
    (is_staff ≡ true)
    ⊎ ((owner ≡ user_id) ⊎ ((id : ℕ) × (partner_org_id ≡ some id) × (organization_id ≡ some id)))

opt_eq-≡ : (o : Option ℕ) (n : ℕ) → (opt_eq o (some n) ≡ true) ↔ (o ≡ some n)
opt_eq-≡ none n = ((λ h. cc), (λ h. cc))
opt_eq-≡ (some m) n =
    ((λ h. ap some ((==_iff m n).0 h)), (λ h. let same : m ≡ n = cc in (==_iff m n).1 same))

is_stranger-MayRead :
    (owner user_id : ℕ) (organization_id : Option ℕ) (is_staff : Bool) (partner_org_id : Option ℕ)
    → ((not is_staff && is_stranger owner user_id organization_id partner_org_id) ≡ false)
      ↔ MayRead owner organization_id user_id is_staff partner_org_id
unfolding is_stranger
is_stranger-MayRead owner user_id organization_id true q = ((λ _. inl refl), (λ _. refl))
is_stranger-MayRead owner user_id organization_id false none = (
  (λ h. inr (inl ((==_iff owner user_id).0 (ground arith)))),
  (λ h. elim h [
    | inl staff ↦ cc
    | inr (inl own) ↦ ground arith
    | inr (inr (id, some_partner, _)) ↦ cc
  ]),
)
is_stranger-MayRead owner user_id organization_id false (some p) =
    elim (Bool-cases (owner == user_id)) [
      | inl e ↦ ((λ _. inr (inl ((==_iff owner user_id).0 e))), (λ _. rw e refl))
      | inr e ↦ (
        (λ h.
            let k : not (opt_eq organization_id (some p)) ≡ false = rw e at h in
            inr (inr (p, refl, (opt_eq-≡ organization_id p).0 (ground arith)))),
        (λ h. elim h [
          | inl staff ↦ cc
          | inr (inl own) ↦ absurd (let k = (==_iff owner user_id).1 own in cc)
          | inr (inr (id, this, owned)) ↦
              let same : organization_id ≡ some p = owned ∙ sym this in
              let k = (opt_eq-≡ organization_id p).1 same in rw (e, k) refl
        ]),
      )
    ]

-- A dispute is returned exactly if it is there and the reader is staff, the customer of the dispute,
-- or a partner of its organization.
pub get_dispute_by_id-MayRead :
    (db : Database) (desk : Desk) (user_id dispute_id : ℕ) (is_staff : Bool)
    (partner_org_id : Option ℕ) (dispute : Dispute)
    → (get_dispute_by_id db desk user_id dispute_id is_staff partner_org_id ≡ ok dispute) ↔ (
        (dispute_with db desk dispute_id ≡ some dispute)
        × MayRead dispute.customer_id
            (some dispute.organization_id)
            user_id
            is_staff
            partner_org_id)
unfolding get_dispute_by_id
get_dispute_by_id-MayRead db desk user_id dispute_id is_staff partner_org_id dispute = (
  (λ h.
      let (d, found, k) = or_throw-eq-ok (dispute_with db desk dispute_id) _ _ h in
      let refused =
        not is_staff && is_stranger d.customer_id user_id (some d.organization_id) partner_org_id in
      let (allowed, same) = throw_if-eq-ok refused _ _ k in
      let it : d ≡ dispute = cc in
      let reads =
        (is_stranger-MayRead d.customer_id user_id (some d.organization_id) is_staff
            partner_org_id).0
          allowed in
      (
        found ∙ ap some it,
        subst
            (λ (d : Dispute).
              MayRead d.customer_id (some d.organization_id) user_id is_staff partner_org_id)
            it reads,
      )),
  (λ (found, reads).
      let allowed =
        (is_stranger-MayRead dispute.customer_id user_id (some dispute.organization_id) is_staff
            partner_org_id).1
          reads in
      rw (get_dispute_by_id, found, allowed) refl),
)
