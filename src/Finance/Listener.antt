-- ===== src/Finance/Listener.antt =====
-- backend/src/finance/listeners/finance-events.listener.ts: events of the payments, which may be
-- delivered more than once.
use playhub_playbooking.Common.{
  Exception, Option-cases, Result-cases, err, inl, inr, ok, refl, ℕ, ◌≡◌,
}
use playhub_playbooking.Common.Database.{Database}
use playhub_playbooking.Common.Queries.{IsAmong}
use playhub_playbooking.Finance.{create_transaction}
use playhub_playbooking.Finance.Records.{has_key, record_payment, record_refund}
use playhub_playbooking.Finance.Retries.{record_payment-once}
use playhub_playbooking.Finance.Types.{Books, Transaction, pay_key}

-- `handlePaymentCaptured` and `handlePaymentRefunded`: what throws is logged.
unfoldable pub handle_payment_captured : Database → ℕ → ℕ → Books → ℕ → ℕ → ℕ → Books
handle_payment_captured db now new_id books payment_id organization_id amount =
    elim (record_payment db now new_id books payment_id organization_id amount) [
      | ok (t, after) ↦ after
      | err e ↦ books
    ]

unfoldable pub handle_payment_refunded : Database → ℕ → ℕ → Books → ℕ → ℕ → ℕ → Books
handle_payment_refunded db now new_id books payment_id organization_id amount =
    elim (record_refund db now new_id books payment_id organization_id amount) [
      | ok (t, after) ↦ after
      | err e ↦ books
    ]

-- A payment is always recorded, or known.
record_payment-total :
    (db : Database) (now new_id : ℕ) (books : Books) (payment_id organization_id amount : ℕ)
    (e : Exception)
    → ¬ (record_payment db now new_id books payment_id organization_id amount ≡ err e)
unfolding record_payment create_transaction
record_payment-total db now new_id books payment_id organization_id amount x h =
    elim (Option-cases (db.find_first (has_key (pay_key payment_id)) books.transactions)) [
      | inl e ↦ absurd (cc (rw (record_payment, create_transaction, e) at h))
      | inr (t, e) ↦ absurd (cc (rw (record_payment, e) at h))
    ]

-- After the event of a captured payment is delivered, a transaction with the key of the payment is in
-- the books; delivered again at any time, the event changes nothing in them; and recording the payment
-- returns that transaction.
pub handle_payment_captured-once :
    (db : Database) (now later new_id next_id : ℕ) (books : Books)
    (payment_id organization_id amount : ℕ)
    → (handle_payment_captured db later next_id
          (handle_payment_captured db now new_id books payment_id organization_id amount)
          payment_id
          organization_id
          amount
        ≡ handle_payment_captured db now new_id books payment_id organization_id amount)
      × ((t : Transaction) × IsAmong t
            (handle_payment_captured db now new_id books payment_id organization_id
              amount).transactions
          × (t.idempotency_key ≡ pay_key payment_id)
          × (record_payment db later next_id
                (handle_payment_captured db now new_id books payment_id organization_id amount)
                payment_id
                organization_id
                amount
              ≡ ok (
                t,
                handle_payment_captured db now new_id books payment_id organization_id amount,
              )))
unfolding handle_payment_captured
handle_payment_captured-once db now later new_id next_id books payment_id organization_id amount =
    elim (Result-cases (record_payment db now new_id books payment_id organization_id amount)) [
      | inr (x, e) ↦
          absurd (record_payment-total db now new_id books payment_id organization_id amount x e)
      | inl ((t, after), e) ↦
          let (again, among, key, k) =
            record_payment-once db now later new_id next_id books payment_id organization_id amount
              t after e in
          let first : handle_payment_captured db now new_id books payment_id organization_id amount
              ≡ after =
            rw (handle_payment_captured, e) refl in
          let second : handle_payment_captured db later next_id after payment_id organization_id
                amount
              ≡ after =
            rw (handle_payment_captured, k) refl in
          rw first (second, (again, among, key, k))
    ]
