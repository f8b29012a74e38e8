-- ===== src/Finance/Keys.antt =====
-- The idempotency keys of the books of backend/src/finance: a payment is
-- recorded under its own key, which no other transaction has.
use playhub_playbooking.Common.{
  >>=-eq-ok, All, Bool, List, Option, Option-cases, Result, [], ap, err, filter, find, if-eq, inl,
  inr, ltb, ok, or_throw-eq-ok, refl, some, state_of_ok, subst, sym, throw_if-eq-ok, ℕ, ◌+◌, ◌==◌,
  ◌∙◌, ◌∷◌, ◌≡◌,
}
use playhub_playbooking.Common.Database.{Database, update_row}
use playhub_playbooking.Finance.History.{
  Request, adjust, books_after, complete, fail, pay, pay_out, refund, run, serve, settle,
}
use playhub_playbooking.Finance.Payouts.{
  complete_payout, end_payout, fail_payout, initiate_payout, initiate_payout-made, is_completed,
  is_failed, payout_lines, payout_row,
}
use playhub_playbooking.Finance.Records.{
  adjustment_lines, adjustment_row, has_key, has_type, payment_lines, payment_transaction,
  percentage_or_default, record_adjustment, record_payment, record_refund, refund_lines, refund_row,
  refunded_so_far,
}
use playhub_playbooking.Finance.Repeats.{
  HasDistinctKeys, IsKeyed, IsOwn, IsPaidOnce, create_transaction-fresh, created-IsKeyed,
  keyed-IsPaidOnce, settled-IsKeyed,
}
use playhub_playbooking.Finance.Retries.{known_payment}
use playhub_playbooking.Finance.Settlements.{create_settlement-made, is_eligible, settled_in}
use playhub_playbooking.Finance.Types.{
  Account, Books, Payout, PayoutStatus, Transaction, partner_payable, pay_key, payment_clearing,
  payment_made,
}
use playhub_playbooking.Schema.{Payment}

some_inj : (a b : ℕ) → ◌≡◌ {A = Option ℕ} (some a) (some b) → a ≡ b
some_inj a b e = cc

record_payment-IsKeyed :
    (db : Database) (now new_id : ℕ) (books : Books) (payment_id organization_id amount : ℕ)
    (t : Transaction) (after : Books)
    → record_payment db now new_id books payment_id organization_id amount ≡ ok (t, after)
    → IsKeyed books.transactions
    → IsKeyed after.transactions
unfolding record_payment
record_payment-IsKeyed db now new_id books payment_id organization_id amount t after h distinct =
    let u = payment_transaction now new_id books payment_id organization_id amount in
    elim (Option-cases (db.find_first (has_key (pay_key payment_id)) books.transactions)) [
      | inl e ↦
          created-IsKeyed db u (payment_lines amount u.commission) books after u t
            (rw (record_payment, e) at h) (λ p paid same. ap pay_key (some_inj payment_id p same))
            distinct
      | inr (x, e) ↦
          let known = known_payment db now new_id books payment_id organization_id amount x e in
          subst (λ (b : Books). IsKeyed b.transactions)
            (state_of_ok x t books after (sym known ∙ h)) distinct
    ]

record_refund-IsKeyed :
    (db : Database) (now new_id : ℕ) (books : Books) (payment_id organization_id amount : ℕ)
    (t : Transaction) (after : Books)
    → record_refund db now new_id books payment_id organization_id amount ≡ ok (t, after)
    → IsKeyed books.transactions
    → IsKeyed after.transactions
unfolding record_refund
record_refund-IsKeyed db now new_id books payment_id organization_id amount t after h distinct =
    let p = λ (p : Payment). p.id == payment_id in
    let (payment, ep, h1) = or_throw-eq-ok (db.find_first p books.payments) _ _ h in
    let (original, eo, h2) =
      or_throw-eq-ok (find (has_type payment_made payment_id) books.transactions) _ _ h1 in
    let so_far = refunded_so_far payment_id books.transactions in
    let (bounded, h3) = throw_if-eq-ok (ltb (payment.amount + 1) (so_far + amount)) _ _ h2 in
    let percentage = percentage_or_default original.commission_percentage in
    let u = refund_row now new_id payment_id organization_id amount percentage so_far in
    created-IsKeyed db u (refund_lines amount u.commission) books after u t h3
      (λ p paid same. absurd (cc)) distinct

initiate_payout-IsKeyed :
    (db : Database) (now new_id payout_id : ℕ) (books : Books) (organization_id amount : ℕ)
    (settlement_id : Option ℕ) (p : Payout) (after : Books)
    → initiate_payout db now new_id payout_id books organization_id amount settlement_id
      ≡ ok (p, after)
    → IsKeyed books.transactions
    → IsKeyed after.transactions
initiate_payout-IsKeyed db now new_id payout_id books organization_id amount settlement_id p after h
      distinct =
    let u = payout_row now new_id payout_id organization_id amount settlement_id in
    let (covered, (made, em, _, same)) =
      initiate_payout-made db now new_id payout_id books organization_id amount settlement_id p
        after h in
    subst IsKeyed same (
      create_transaction-fresh db u (payout_lines amount) books made em (λ p paid same. absurd (cc))
        distinct)

end_payout-transactions :
    (db : Database) (books : Books) (payout_id : ℕ) (status : PayoutStatus) (account : Account)
    (is_done : PayoutStatus → Bool) (p : Payout) (after : Books)
    → end_payout db books payout_id status account is_done ≡ ok (p, after)
    → books.transactions ≡ after.transactions
unfolding end_payout
end_payout-transactions db books payout_id status account is_done p after h =
    let q = λ (p : Payout). p.id == payout_id in
    let (payout, ep, h1) = or_throw-eq-ok (db.find_first q books.payouts) _ _ h in
    elim (if-eq (is_done payout.status) (ok (payout, books)) _ h1) [
      | inl (_, e) ↦ ap (λ (b : Books). b.transactions) (state_of_ok payout p books after e)
      | inr (_, e) ↦
          let change = λ (p : Payout). record p { status = status } in
          let (r, er, h2) = >>=-eq-ok (update_row db q change books.payouts) _ e in
          ap (λ (b : Books). b.transactions) (state_of_ok r.0 p _ after h2)
    ]

books_after-IsKeyed :
    {A : Type 0} (books : Books) (result : Result (A × Books))
    → IsKeyed books.transactions
    → ((a : A) (after : Books) → result ≡ ok (a, after) → IsKeyed after.transactions)
    → IsKeyed (books_after books result).transactions
books_after-IsKeyed books (ok (a, after)) distinct keeps = keeps a after refl
books_after-IsKeyed books (err e) distinct keeps = distinct

serve-IsKeyed :
    (db : Database) (now : ℕ) (books : Books) (r : Request)
    → IsKeyed books.transactions
    → IsKeyed (serve db now books r).transactions
unfolding serve complete_payout fail_payout record_adjustment
serve-IsKeyed db now books (pay id payment organization amount) distinct =
    books_after-IsKeyed books _ distinct (λ t after h.
      record_payment-IsKeyed db now id books payment organization amount t after h distinct)
serve-IsKeyed db now books (refund id payment organization amount) distinct =
    books_after-IsKeyed books _ distinct (λ t after h.
      record_refund-IsKeyed db now id books payment organization amount t after h distinct)
serve-IsKeyed db now books (adjust id key organization amount direction) distinct =
    let u = adjustment_row now id key organization amount in
    books_after-IsKeyed books _ distinct (λ t after h.
      created-IsKeyed db u (adjustment_lines direction amount) books after u t h
        (λ p paid same. absurd (cc)) distinct)
serve-IsKeyed db now books (pay_out id payout organization amount settlement) distinct =
    books_after-IsKeyed books _ distinct (λ p after h.
      initiate_payout-IsKeyed db now id payout books organization amount settlement p after h
        distinct)
serve-IsKeyed db now books (complete payout) distinct =
    books_after-IsKeyed books _ distinct (λ p after h.
      subst IsKeyed
        (end_payout-transactions db books payout PayoutStatus.completed payment_clearing
          is_completed p after h)
        distinct)
serve-IsKeyed db now books (fail payout) distinct =
    books_after-IsKeyed books _ distinct (λ p after h.
      subst IsKeyed
        (end_payout-transactions db books payout PayoutStatus.failed partner_payable is_failed p
          after h)
        distinct)
serve-IsKeyed db now books (settle id organization start end) distinct =
    books_after-IsKeyed books _ distinct (λ s after h.
      subst IsKeyed (sym (create_settlement-made db id books organization start end s after h).1) (
        settled-IsKeyed id
          (settled_in (filter (is_eligible organization start end) books.transactions))
          books.transactions distinct))

serve_all-IsKeyed :
    (db : Database) (books : Books) (requests : List (ℕ × Request))
    → IsKeyed books.transactions
    → IsKeyed (run db books requests).transactions
unfolding run
serve_all-IsKeyed db books [] keyed = keyed
serve_all-IsKeyed db books ((now, r) ∷ rest) keyed =
    serve_all-IsKeyed db (serve db now books r) rest (serve-IsKeyed db now books r keyed)

-- If no two transactions have one idempotency key, and each of type PAYMENT has the key of its
-- payment, then after any sequence of payments, refunds, adjustments, payouts, their completions and
-- failures, and settlements, no payment has two transactions of type PAYMENT.
pub run-IsPaidOnce :
    (db : Database) (books : Books) (requests : List (ℕ × Request))
    → HasDistinctKeys books.transactions
    → All IsOwn books.transactions
    → IsPaidOnce (run db books requests).transactions
run-IsPaidOnce db books requests distinct owns =
    keyed-IsPaidOnce (run db books requests).transactions
      (serve_all-IsKeyed db books requests (distinct, owns))
