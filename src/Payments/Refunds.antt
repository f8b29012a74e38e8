-- ===== src/Payments/Refunds.antt =====
-- `reconcilePayment` and `initiateRefund` of backend/src/payments/payments.service.ts.
-- `order_is_paid` of a provider is its `getOrderStatus`, compared to `paid` and `succeeded`.
use playhub_playbooking.Common.{
  >>=-eq-ok, Bool, List, Option, Option-cases, Result, arith, bad_request, err, error, false, if-eq,
  if◌then◌else◌, inl, inr, is_ok, none, not, not_found, ok, or_throw, or_throw-eq-ok, refl, some,
  subst, throw_if, throw_if-eq-ok, ℕ, ◌&&◌, ◌==◌, ◌>>=◌, ◌>>◌, ◌||◌, ◌∷◌, ◌≡◌,
}
use playhub_playbooking.Common.Database.{Database, update_row, update_row-ok}
use playhub_playbooking.Payments.{
  =p-eq, HasStatus, IsKeyed, capture, find_payment, read-HasStatus, update_many-HasStatus,
}
use playhub_playbooking.Payments.Orders.{is_paid}
use playhub_playbooking.Payments.Types.{
  PaymentEvent, PaymentStore, ProviderClient, payment_refunded,
}
use playhub_playbooking.Schema.{Payment, PaymentProvider, captured, refunded, ◌=p◌}

unfoldable pub reconcile_payment :
    Database
    → (PaymentProvider → ProviderClient)
    → PaymentStore
    → ℕ
    → ℕ
    → Result (Payment × PaymentStore)
reconcile_payment db clients store organization_id payment_id = do
  payment ←
      or_throw
        (find_payment db (λ p. p.id == payment_id && p.organization_id == organization_id) store)
        (not_found "Payment not found")
  let paid : Bool = elim (clients payment.provider).order_is_paid [
    | some is_paid ↦ is_paid payment.provider_order_id
    | none ↦ false
  ]
  let go = do r ← capture db store payment (λ p. record p { status = captured }); ok (r.0, r.1.1)
  if payment.status =p captured || not paid then ok (payment, store) else go

abbrev or_order_id : Payment → Option ℕ
or_order_id p = elim p.provider_payment_id [ some n ↦ some n | none ↦ p.provider_order_id ]

-- An error of the provider or of the update becomes a bad request.
abbrev caught : {A : Type 0} → Result A → Result A
caught (ok a) = ok a
caught (err e) = err (bad_request "Failed to initiate refund with provider")

caught-ok : {A : Type 0} (r : Result A) (a : A) → caught r ≡ ok a → r ≡ ok a
caught-ok (ok b) a h = h
caught-ok (err e) a h = cc

unfoldable pub refund_transaction :
    Database → ProviderClient → PaymentStore → ℕ → Payment → Result (Payment × List Payment)
refund_transaction db client store payment_id payment = caught (
    client.initiate_refund (or_order_id payment) payment.amount >>= λ refund.
    update_row db (λ (p : Payment). p.id == payment_id && not (p.status =p refunded))
      (λ p. record p { status = refunded }) store.payments)

unfoldable pub initiate_refund :
    Database
    → (PaymentProvider → ProviderClient)
    → PaymentStore
    → ℕ
    → ℕ
    → Result (Payment × PaymentStore)
initiate_refund db clients store organization_id payment_id = do
  payment ←
      or_throw
        (find_payment db (λ p. p.id == payment_id && p.organization_id == organization_id) store)
        (not_found "Payment record not found")
  throw_if (not (payment.status =p captured)) (bad_request "Only captured payments can be refunded")
  latest ←
      or_throw (find_payment db (λ p. p.id == payment_id) store) (error "Payment record not found")
  let go = do
    r ← refund_transaction db (clients payment.provider) store payment_id payment
    let p = r.0
    ok (
      p,
      record store {
        payments = r.1;
        events = payment_refunded p.id p.booking_id p.organization_id p.amount ∷ store.events;
      },
    )
  if latest.status =p refunded then ok (payment, store) else go

refund_transaction-HasStatus :
    (db : Database) (client : ProviderClient) (store : PaymentStore) (payment_id : ℕ)
    (payment : Payment) (r : Payment × List Payment)
    → refund_transaction db client store payment_id payment ≡ ok r
    → HasStatus refunded payment_id r.1
unfolding refund_transaction
refund_transaction-HasStatus db client store payment_id payment r h =
    let p = λ (p : Payment). p.id == payment_id && not (p.status =p refunded) in
    let change = λ (p : Payment). record p { status = refunded } in
    let update = update_row db p change store.payments in
    let (refund, er, h1) =
      >>=-eq-ok (client.initiate_refund (or_order_id payment) payment.amount) (λ refund. update)
        (caught-ok _ r h) in
    let (row, found, _, updated) = update_row-ok db p change store.payments r h1 in
    rw updated (
      update_many-HasStatus p change refunded payment_id store.payments (λ a. refl)
        (λ a same out. =p-eq a.status refunded (ground arith)) (λ a. refl))

payments_after :
    (r : Payment × List Payment) (store after : PaymentStore) (p : Payment)
    (events : List PaymentEvent)
    → ◌≡◌ {A = Result (Payment × PaymentStore)}
        (ok (r.0, record store { payments = r.1; events = events }))
        (ok (p, after))
    → r.1 ≡ after.payments
payments_after r store after p events e = cc

refunded_throws :
    (db : Database) (clients : PaymentProvider → ProviderClient) (store : PaymentStore)
    (organization_id payment_id : ℕ)
    → HasStatus refunded payment_id store.payments
    → is_ok (initiate_refund db clients store organization_id payment_id) ≡ false
unfolding initiate_refund
refunded_throws db clients store organization_id payment_id all =
    let p = λ (p : Payment). p.id == payment_id && p.organization_id == organization_id in
    elim (Option-cases (find_payment db p store)) [
      | inl e ↦ rw (initiate_refund, e) refl
      | inr (payment, e) ↦
          let named = db.find_first-some p store.payments payment e in
          let done : payment.status ≡ refunded =
            db.find_first-All (λ p. p.id ≡ payment_id → p.status ≡ refunded) p store.payments
              payment e all (ground arith) in
          rw (initiate_refund, e, done) refl
    ]

-- If a refund of a payment succeeds, and the identifiers of the payments are distinct, then every
-- row of the payment is refunded afterwards, and another refund of it throws.
pub initiate_refund-once :
    (db : Database) (clients : PaymentProvider → ProviderClient) (store : PaymentStore)
    (organization_id payment_id : ℕ) (p : Payment) (after : PaymentStore)
    → IsKeyed store.payments
    → initiate_refund db clients store organization_id payment_id ≡ ok (p, after)
    → HasStatus refunded payment_id after.payments
      × (is_ok (initiate_refund db clients after organization_id payment_id) ≡ false)
unfolding initiate_refund
initiate_refund-once db clients store organization_id payment_id p after keyed h =
    let (payment, ep, h1) = or_throw-eq-ok (find_payment db _ store) _ _ h in
    let (was_captured, h2) = throw_if-eq-ok (not (payment.status =p captured)) _ _ h1 in
    let q = λ (p : Payment). p.id == payment_id in
    let (latest, el, h3) = or_throw-eq-ok (find_payment db q store) _ _ h2 in
    let all : HasStatus refunded payment_id after.payments =
      elim (if-eq (latest.status =p refunded) _ _ h3) [
        | inl (done, e) ↦
            let k = read-HasStatus db q store.payments latest refunded el keyed done in
            let named = db.find_first-some q store.payments latest el in
            let same : latest.id ≡ payment_id = ground arith in
            let unchanged : store.payments ≡ after.payments = cc in
            subst (HasStatus refunded payment_id) unchanged
              (subst (λ i. HasStatus refunded i store.payments) same k)
        | inr (_, e) ↦
            let client = clients payment.provider in
            let (r, er, h4) =
              >>=-eq-ok (refund_transaction db client store payment_id payment) _ e in
            let k = refund_transaction-HasStatus db client store payment_id payment r er in
            let updated = payments_after r store after p _ h4 in
            subst (HasStatus refunded payment_id) updated k
      ] in
    (all, refunded_throws db clients after organization_id payment_id all)
