-- ===== src/Finance/Payouts.antt =====
-- backend/src/finance/payout.service.ts.
use playhub_playbooking.Common.{
  >>=-eq-ok, Bool, List, Option, Result, [], ap, arith, bad_request, error, false, forbidden,
  if◌then◌else◌, is_some, none, not, not_found, ok, opt_eq, or_throw, or_throw-eq-ok, some,
  state_of_ok, sym, throw_if, throw_if-eq-ok, true, ℕ, ◌&&◌, ◌==◌, ◌>>=◌, ◌>>◌, ◌∙◌, ◌∷◌, ◌≡◌,
}
use playhub_playbooking.Common.Database.{Database, update_row}
use playhub_playbooking.Common.Int.{int_laws, ltb_ℤ, pos, ◌-ℤ◌, ◌≤ℤ◌}
use playhub_playbooking.Finance.{Line, available_balance, cr, create_transaction, dr, post}
use playhub_playbooking.Finance.Ledger.{create_transaction-ok}
use playhub_playbooking.Finance.Types.{
  Account, Books, KycStatus, LedgerEntry, Organization, Payout, PayoutStatus, Transaction, approved,
  partner_payable, payment_clearing, payout_key, payout_made, payout_pending, processing,
}

abbrev is_approved : KycStatus → Bool
is_approved approved = true
is_approved _ = false

abbrev pub is_completed : PayoutStatus → Bool
is_completed PayoutStatus.completed = true
is_completed _ = false

abbrev pub is_failed : PayoutStatus → Bool
is_failed PayoutStatus.failed = true
is_failed _ = false

abbrev settles : Option ℕ → Payout → Bool
settles none p = false
settles (some id) p = opt_eq p.settlement_id (some id)

abbrev pub payout_row : ℕ → ℕ → ℕ → ℕ → ℕ → Option ℕ → Transaction
payout_row now new_id payout_id organization_id amount settlement_id = record {
  id = new_id;
  organization_id = organization_id;
  type = payout_made;
  amount = amount;
  payment_id = none;
  payout_id = some payout_id;
  settlement_id = settlement_id;
  idempotency_key = payout_key organization_id now;
  commission_percentage = none;
  commission = 0;
  created_at = now;
}

abbrev pub payout_lines : ℕ → List Line
payout_lines amount = dr partner_payable (pos amount) ∷ cr payout_pending (pos amount) ∷ []

unfoldable pub initiate_payout :
    Database → ℕ → ℕ → ℕ → Books → ℕ → ℕ → Option ℕ → Result (Payout × Books)
initiate_payout db now new_id payout_id books organization_id amount settlement_id = do
  org ←
      or_throw (db.find_first (λ (o : Organization). o.id == organization_id) books.organizations)
        (not_found "Organization not found")
  throw_if (not (is_approved org.kyc_status)) (forbidden "Payouts require APPROVED KYC status")
  throw_if
      (not (is_some org.account_number && is_some org.ifsc_code && is_some org.account_holder_name))
      (bad_request "Settlement bank details are incomplete")
  throw_if (ltb_ℤ (available_balance organization_id books.ledger) (pos amount))
      (bad_request "Requested payout amount exceeds available payable balance")
  throw_if (is_some (db.find_first (settles settlement_id) books.payouts))
      (error "Unique constraint failed: settlementId")
  let payout : Payout = record {
    id = payout_id;
    organization_id = organization_id;
    settlement_id = settlement_id;
    amount = amount;
    status = processing;
  }
  after ←
      create_transaction db (payout_row now new_id payout_id organization_id amount settlement_id)
        (payout_lines amount) books
  ok (payout, record after { payouts = payout ∷ after.payouts })

-- The entries at the end of a payout, for its transaction if there is one.
unfoldable pub post_for_payout : Database → Payout → Account → Books → List LedgerEntry
post_for_payout db payout account books =
    elim (db.find_first (λ (t : Transaction). opt_eq t.payout_id (some payout.id))
      books.transactions) [
        | none ↦ books.ledger
        | some t ↦
            post t.id payout.organization_id
              (dr payout_pending (pos payout.amount) ∷ cr account (pos payout.amount) ∷ [])
              books.ledger
      ]

unfoldable pub end_payout :
    Database → Books → ℕ → PayoutStatus → Account → (PayoutStatus → Bool) → Result (Payout × Books)
end_payout db books payout_id status account is_done = do
  payout ←
      or_throw (db.find_first (λ (p : Payout). p.id == payout_id) books.payouts)
        (not_found "Payout not found")
  let go = do
    updated ←
        update_row db (λ (p : Payout). p.id == payout_id) (λ p. record p { status = status })
          books.payouts
    ok (
      updated.0,
      record books { payouts = updated.1; ledger = post_for_payout db payout account books },
    )
  if is_done payout.status then ok (payout, books) else go

unfoldable pub complete_payout : Database → Books → ℕ → Result (Payout × Books)
complete_payout db books payout_id =
    end_payout db books payout_id PayoutStatus.completed payment_clearing is_completed

unfoldable pub fail_payout : Database → Books → ℕ → Result (Payout × Books)
fail_payout db books payout_id =
    end_payout db books payout_id PayoutStatus.failed partner_payable is_failed

pub initiate_payout-made :
    (db : Database) (now new_id payout_id : ℕ) (books : Books) (organization_id amount : ℕ)
    (settlement_id : Option ℕ) (p : Payout) (after : Books)
    → initiate_payout db now new_id payout_id books organization_id amount settlement_id
      ≡ ok (p, after)
    → (pos amount ≤ℤ available_balance organization_id books.ledger)
      × ((made : Books) × (create_transaction db
              (payout_row now new_id payout_id organization_id amount settlement_id)
              (payout_lines amount)
              books
            ≡ ok made)
          × (made.ledger ≡ after.ledger)
          × (made.transactions ≡ after.transactions))
unfolding initiate_payout
initiate_payout-made db now new_id payout_id books organization_id amount settlement_id p after h =
    let q = λ (o : Organization). o.id == organization_id in
    let (org, eo, h1) = or_throw-eq-ok (db.find_first q books.organizations) _ _ h in
    let (known, h2) = throw_if-eq-ok (not (is_approved org.kyc_status)) _ _ h1 in
    let (bank, h3) =
      throw_if-eq-ok
        (not
          (is_some org.account_number && is_some org.ifsc_code && is_some org.account_holder_name))
        _ _ h2 in
    let balance = available_balance organization_id books.ledger in
    let (covered, h4) = throw_if-eq-ok (ltb_ℤ balance (pos amount)) _ _ h3 in
    let (fresh, h5) =
      throw_if-eq-ok (is_some (db.find_first (settles settlement_id) books.payouts)) _ _ h4 in
    let u = payout_row now new_id payout_id organization_id amount settlement_id in
    let (made, em, h6) = >>=-eq-ok (create_transaction db u (payout_lines amount) books) _ h5 in
    (
      ground arith,
      (
        made,
        em,
        ap (λ (b : Books). b.ledger) (state_of_ok _ p _ after h6),
        ap (λ (b : Books). b.transactions) (state_of_ok _ p _ after h6),
      ),
    )

paid_out_balance :
    (transaction organization amount : ℕ) (ledger : List LedgerEntry)
    → available_balance organization (post transaction organization (payout_lines amount) ledger)
      ≡ available_balance organization ledger -ℤ pos amount
unfolding available_balance post
paid_out_balance transaction organization amount ledger =
    let own : (organization == organization) ≡ true = ground arith in rw own (omega int_laws)

-- If a payout is initiated, then its amount is at most the available balance of the organization,
-- which is smaller by the amount afterwards, and so not negative.
pub initiate_payout-IsCovered :
    (db : Database) (now new_id payout_id : ℕ) (books : Books) (organization_id amount : ℕ)
    (settlement_id : Option ℕ) (p : Payout) (after : Books)
    → initiate_payout db now new_id payout_id books organization_id amount settlement_id
      ≡ ok (p, after)
    → (pos amount ≤ℤ available_balance organization_id books.ledger)
      × (available_balance organization_id after.ledger
          ≡ available_balance organization_id books.ledger -ℤ pos amount)
      × (pos 0 ≤ℤ available_balance organization_id after.ledger)
initiate_payout-IsCovered db now new_id payout_id books organization_id amount settlement_id p after
      h =
    let u = payout_row now new_id payout_id organization_id amount settlement_id in
    let (covered, (made, em, same, _)) =
      initiate_payout-made db now new_id payout_id books organization_id amount settlement_id p
        after h in
    let posted = (create_transaction-ok db u (payout_lines amount) books made em).1 in
    let before = available_balance organization_id books.ledger in
    let left : available_balance organization_id after.ledger ≡ before -ℤ pos amount =
      ap (available_balance organization_id) (sym same ∙ posted)
      ∙ paid_out_balance new_id organization_id amount books.ledger in
    (covered, left, rw left (omega (int_laws, covered)))
