-- ===== src/Finance/Retries.antt =====
-- The idempotency of `recordPayment`, and the bound on refunds, of
-- backend/src/finance/finance.service.ts.
use playhub_playbooking.Common.{
  >>=-eq-ok, All, List, Option-cases, ap, arith, false, find, inl, inr, ltb, none, ok,
  or_throw-eq-ok, refl, some, state_of_ok, subst, sym, throw_if-eq-ok, true, ℕ, ◌+◌, ◌==◌, ◌>>=◌,
  ◌∙◌, ◌∷◌, ◌≡◌, ◌≤◌,
}
use playhub_playbooking.Common.Database.{Database}
use playhub_playbooking.Common.Queries.{IsAmong, find_first-IsAmong}
use playhub_playbooking.Finance.{create_transaction}
use playhub_playbooking.Finance.Ledger.{create_transaction-ok}
use playhub_playbooking.Finance.Records.{
  has_key, has_type, payment_lines, payment_transaction, percentage_or_default, record_payment,
  record_refund, refund_lines, refund_row, refunded_so_far,
}
use playhub_playbooking.Finance.Types.{
  Books, Key, Transaction, adjustment_key, key_eq, pay_key, payment_made, payout_key, refund_key,
  refund_made,
}
use playhub_playbooking.Schema.{Payment}

fresh_payment :
    (db : Database) (now new_id : ℕ) (books : Books) (payment_id organization_id amount : ℕ)
    (t : Transaction) (after : Books)
    → db.find_first (has_key (pay_key payment_id)) books.transactions ≡ none
    → record_payment db now new_id books payment_id organization_id amount ≡ ok (t, after)
    → after.transactions
      ≡ payment_transaction now new_id books payment_id organization_id amount ∷ books.transactions
unfolding record_payment
fresh_payment db now new_id books payment_id organization_id amount t after e h =
    let u = payment_transaction now new_id books payment_id organization_id amount in
    let creation = create_transaction db u (payment_lines amount u.commission) books in
    let k : (creation >>= λ after. ok (u, after)) ≡ ok (t, after) = rw (record_payment, e) at h in
    let (made, em, k1) = >>=-eq-ok creation (λ after. ok (u, after)) k in
    let same : made ≡ after = cc in
    ap (λ (b : Books). b.transactions) (sym same)
    ∙ (create_transaction-ok db u (payment_lines amount u.commission) books made em).0

pub known_payment :
    (db : Database) (now new_id : ℕ) (books : Books) (payment_id organization_id amount : ℕ)
    (u : Transaction)
    → db.find_first (has_key (pay_key payment_id)) books.transactions ≡ some u
    → record_payment db now new_id books payment_id organization_id amount ≡ ok (u, books)
unfolding record_payment
known_payment db now new_id books payment_id organization_id amount u e =
    rw (record_payment, e) refl

pay_key_of : (k : Key) (n : ℕ) → key_eq k (pay_key n) ≡ true → k ≡ pay_key n
pay_key_of (pay_key m) n e = ground arith
pay_key_of (refund_key a m) n e = absurd (cc)
pay_key_of (payout_key a m) n e = absurd (cc)
pay_key_of (adjustment_key a) n e = absurd (cc)

-- After a payment is recorded its key is known.
recorded_is_known :
    (db : Database) (now new_id : ℕ) (books : Books) (payment_id organization_id amount : ℕ)
    (t : Transaction) (after : Books)
    → record_payment db now new_id books payment_id organization_id amount ≡ ok (t, after)
    → ¬ (db.find_first (has_key (pay_key payment_id)) after.transactions ≡ none)
recorded_is_known db now new_id books payment_id organization_id amount t after h missing =
    let p = has_key (pay_key payment_id) in
    elim (Option-cases (db.find_first p books.transactions)) [
      | inl e ↦
          let u = payment_transaction now new_id books payment_id organization_id amount in
          let added =
            fresh_payment db now new_id books payment_id organization_id amount t after e h in
          let none_matches : All (λ a. p a ≡ false) (u ∷ books.transactions) =
            subst (All (λ a. p a ≡ false)) added
              (db.find_first-none p after.transactions missing) in
          let own : (payment_id == payment_id) ≡ false = none_matches.0 in ground arith
      | inr (u, e) ↦
          let known = known_payment db now new_id books payment_id organization_id amount u e in
          let same = state_of_ok u t books after (sym known ∙ h) in
          let found = subst (λ (b : Books). db.find_first p b.transactions ≡ some u) same e in cc
    ]

-- After a payment is recorded, a transaction with its key is in the books; and recording it again, at
-- any time, returns that transaction and changes nothing.
pub record_payment-once :
    (db : Database) (now later new_id next_id : ℕ) (books : Books)
    (payment_id organization_id amount : ℕ) (t : Transaction) (after : Books)
    → record_payment db now new_id books payment_id organization_id amount ≡ ok (t, after)
    → (again : Transaction) × IsAmong again after.transactions
      × (again.idempotency_key ≡ pay_key payment_id)
      × (record_payment db later next_id after payment_id organization_id amount
          ≡ ok (again, after))
record_payment-once db now later new_id next_id books payment_id organization_id amount t after h =
    let p = has_key (pay_key payment_id) in
    elim (Option-cases (db.find_first p after.transactions)) [
      | inl e ↦
          absurd
            (recorded_is_known db now new_id books payment_id organization_id amount t after h e)
      | inr (u, e) ↦ (
        u,
        find_first-IsAmong db p after.transactions u e,
        pay_key_of u.idempotency_key payment_id (db.find_first-some p after.transactions u e),
        known_payment db later next_id after payment_id organization_id amount u e,
      )
    ]

one_more :
    (payment_id : ℕ) (u : Transaction) (rest : List Transaction)
    → has_type refund_made payment_id u ≡ true
    → refunded_so_far payment_id (u ∷ rest) ≡ u.amount + refunded_so_far payment_id rest
unfolding refunded_so_far
one_more payment_id u rest e = rw e refl

-- If a refund is recorded, then there is a row of the payment in the payments, and all recorded
-- refunds of it, with the new one, are at most the amount of that row and one paisa.
pub record_refund-IsBounded :
    (db : Database) (now new_id : ℕ) (books : Books) (payment_id organization_id amount : ℕ)
    (t : Transaction) (after : Books)
    → record_refund db now new_id books payment_id organization_id amount ≡ ok (t, after)
    → (payment : Payment) × IsAmong payment books.payments
      × (payment.id ≡ payment_id)
      × (t.amount ≡ amount)
      × (refunded_so_far payment_id after.transactions
          ≡ amount + refunded_so_far payment_id books.transactions)
      × (refunded_so_far payment_id after.transactions ≤ payment.amount + 1)
unfolding record_refund
record_refund-IsBounded db now new_id books payment_id organization_id amount t after h =
    let p = λ (p : Payment). p.id == payment_id in
    let (payment, ep, h1) = or_throw-eq-ok (db.find_first p books.payments) _ _ h in
    let (original, eo, h2) =
      or_throw-eq-ok (find (has_type payment_made payment_id) books.transactions) _ _ h1 in
    let so_far = refunded_so_far payment_id books.transactions in
    let (bounded, h3) = throw_if-eq-ok (ltb (payment.amount + 1) (so_far + amount)) _ _ h2 in
    let percentage = percentage_or_default original.commission_percentage in
    let u = refund_row now new_id payment_id organization_id amount percentage so_far in
    let creation = create_transaction db u (refund_lines amount u.commission) books in
    let (made, em, h4) = >>=-eq-ok creation _ h3 in
    let added = (create_transaction-ok db u (refund_lines amount u.commission) books made em).0 in
    let same = state_of_ok u t made after h4 in
    let rows : after.transactions ≡ u ∷ books.transactions = cc in
    let total : refunded_so_far payment_id (u ∷ books.transactions) ≡ amount + so_far =
      one_more payment_id u books.transactions (ground arith) in
    let sum : refunded_so_far payment_id after.transactions ≡ amount + so_far = rw rows total in
    (
      payment,
      find_first-IsAmong db p books.payments payment ep,
      ground (arith, db.find_first-some p books.payments payment ep),
      cc,
      sum,
      ground arith,
    )
