-- ===== src/Webhooks/Outcomes.antt =====
-- What every step of the worker of backend/src/webhooks/webhooks.service.ts keeps.
use playhub_playbooking.Common.{
  >>=-eq-ok, Bool, Bool-cases, List, Option, Option-cases, Result, Result-cases, false, if-eq,
  if◌then◌else◌, inl, inr, none, ok, or_throw-eq-ok, refl, some, subst, sym, true, ℕ, ◌==◌, ◌||◌,
  ◌∙◌, ◌≡◌,
}
use playhub_playbooking.Common.Database.{
  All-intro, AllPairs, AllPairs-update_many, Database, update_row,
}
use playhub_playbooking.Finance.Balance.{record_payment-IsBalanced, record_refund-IsBalanced}
use playhub_playbooking.Finance.Ledger.{IsBalanced}
use playhub_playbooking.Finance.Records.{record_payment, record_refund}
use playhub_playbooking.Finance.Types.{Books}
use playhub_playbooking.Payments.{booking_of, capture, find_payment}
use playhub_playbooking.Payments.Types.{PaymentStore}
use playhub_playbooking.Payments.Webhook.{either, refers}
use playhub_playbooking.Schema.{Booking, Payment, captured, refunded, ◌=p◌}
use playhub_playbooking.Webhooks.{Step, current_books, mark, same_key, set_failed, set_processed}
use playhub_playbooking.Webhooks.Captured.{
  book_capture, capture_again, capture_payment, process_captured,
}
use playhub_playbooking.Webhooks.Refunded.{process_refund, refund_payment, set_refunded}
use playhub_playbooking.Webhooks.Types.{Hub, WebhookRow}

-- The rows have distinct providers with event identifiers.
abbrev pub HasDistinctEvents : List WebhookRow → Type 0
HasDistinctEvents rows = AllPairs (λ a b. same_key a.provider a.provider_event_id b ≡ false) rows

-- The tables stay sound.
abbrev pub Keeps : Hub → Hub → Type 0
Keeps hub after =
    (HasDistinctEvents hub.webhooks → HasDistinctEvents after.webhooks)
    × (IsBalanced hub.books.ledger → IsBalanced after.books.ledger)

-- A step that throws has recorded nothing in the books, emitted nothing, and left the rows.
abbrev pub IsSafe : Hub → Step → Type 0
IsSafe hub (after, none) = Keeps hub after
IsSafe hub (after, some e) =
    (after.books ≡ hub.books)
    × (after.store.events ≡ hub.store.events)
    × (after.webhooks ≡ hub.webhooks)

abbrev pub KeepsKey : (WebhookRow → WebhookRow) → Type 0
KeepsKey change =
    (r : WebhookRow)
    → ((change r).provider ≡ r.provider) × ((change r).provider_event_id ≡ r.provider_event_id)

pub mark-HasDistinctEvents :
    (id : ℕ) (change : WebhookRow → WebhookRow) (hub : Hub)
    → KeepsKey change
    → HasDistinctEvents hub.webhooks
    → HasDistinctEvents (mark id change hub).webhooks
unfolding mark
mark-HasDistinctEvents id change hub keeps distinct =
    AllPairs-update_many (λ a b. same_key a.provider a.provider_event_id b ≡ false) (λ r. Unit {0})
      (λ (r : WebhookRow). r.id == id) change hub.webhooks
      (λ a b _ _. pair a b (a.id == id) (b.id == id))
      (All-intro (λ r. Unit {0}) hub.webhooks (λ r. tt)) distinct
  where
    pair :
        (a b : WebhookRow) (x y : Bool)
        → same_key a.provider a.provider_event_id b ≡ false
        → same_key
            (if x then change a else a).provider
            (if x then change a else a).provider_event_id
            (if y then change b else b)
          ≡ false
    pair a b true true h = rw ((keeps a).0, (keeps a).1, (keeps b).0, (keeps b).1) h
    pair a b true false h = rw ((keeps a).0, (keeps a).1) h
    pair a b false true h = rw ((keeps b).0, (keeps b).1) h
    pair a b false false h = h

pub mark-Keeps :
    (id : ℕ) (change : WebhookRow → WebhookRow) (hub : Hub)
    → KeepsKey change
    → Keeps hub (mark id change hub)
unfolding mark
mark-Keeps id change hub keeps = (mark-HasDistinctEvents id change hub keeps, λ b. b)

capture-events :
    (db : Database) (store : PaymentStore) (payment : Payment) (change : Payment → Payment)
    (r : Payment × (Option Booking × PaymentStore))
    → capture db store payment change ≡ ok r
    → r.1.1.events ≡ store.events
unfolding capture
capture-events db store payment change r h =
    let (u, eu, e) =
      >>=-eq-ok (update_row db (λ (p : Payment). p.id == payment.id) change store.payments) _ h in
    cc

capture_again-events :
    (db : Database) (store : PaymentStore) (payment : Payment) (payment_id : Option ℕ)
    (r : Option Booking × PaymentStore)
    → capture_again db store payment payment_id ≡ ok r
    → r.1.events ≡ store.events
unfolding capture_again
capture_again-events db store payment payment_id r h =
    let (latest, el, h1) = or_throw-eq-ok (find_payment db (λ p. p.id == payment.id) store) _ _ h in
    elim (if-eq (latest.status =p captured) _ _ h1) [
      | inl (_, e) ↦
          let same : ◌≡◌ {A = Result (Option Booking × PaymentStore)} (ok (none, store)) (ok r) =
            e in
          cc
      | inr (_, e) ↦
          let change = λ (p : Payment). record p {
            status = captured;
            provider_payment_id = either payment_id latest.provider_payment_id;
          } in
          let (c, ec, e1) = >>=-eq-ok (capture db store payment change) _ e in
          let kept = capture-events db store payment change c ec in
          let same : ◌≡◌ {A = Result (Option Booking × PaymentStore)} (ok c.1) (ok r) = e1 in cc
    ]

book_capture-IsSafe :
    (db : Database) (now new_id : ℕ) (hub : Hub) (event_id : ℕ) (payment : Payment)
    (transitioned : Option Booking)
    → IsSafe hub (book_capture db now new_id hub event_id payment transitioned)
unfolding book_capture mark
book_capture-IsSafe db now new_id hub event_id payment transitioned =
    elim (Option-cases (booking_of db hub.store payment)) [
      | inl e ↦ rw (book_capture, e) (refl, refl, refl)
      | inr (booking, e) ↦
          let recording =
            record_payment db now new_id (current_books hub) payment.id payment.organization_id
              payment.amount in
          elim (Result-cases recording) [
            | inl ((t, books), r) ↦
                rw (book_capture, e, r)
                  (
                    mark-HasDistinctEvents event_id (set_processed payment) hub (λ r. (refl, refl)),
                    λ balanced.
                        record_payment-IsBalanced db now new_id (current_books hub) payment.id
                          payment.organization_id payment.amount t books balanced r,
                  )
            | inr (x, r) ↦ rw (book_capture, e, r) (refl, refl, refl)
          ]
    ]

-- A step of a hub whose tables are the same, apart from payments and bookings.
from_other :
    (hub : Hub) (other : Hub) (s : Step)
    → other.books ≡ hub.books
    → other.webhooks ≡ hub.webhooks
    → other.store.events ≡ hub.store.events
    → IsSafe other s
    → IsSafe hub s
from_other hub other (after, none) b w e (keys, balanced) = (
  λ distinct. keys (rw w distinct),
  λ was. balanced (subst (λ (books : Books). IsBalanced books.ledger) (sym b) was),
)
from_other hub other (after, some x) b w e (b', e', w') = (b' ∙ b, e' ∙ e, w' ∙ w)

capture_payment-IsSafe :
    (db : Database) (now new_id : ℕ) (hub : Hub) (event_id : ℕ) (payment_id : Option ℕ)
    (payment : Payment)
    → IsSafe hub (capture_payment db now new_id hub event_id payment_id payment)
unfolding capture_payment
capture_payment-IsSafe db now new_id hub event_id payment_id payment =
    elim (Result-cases (capture_again db hub.store payment payment_id)) [
      | inl ((transitioned, store), e) ↦
          let other : Hub = record hub { store = store } in
          rw (capture_payment, e)
            (from_other hub other (book_capture db now new_id other event_id payment transitioned)
              refl refl
              (capture_again-events db hub.store payment payment_id (transitioned, store) e)
              (book_capture-IsSafe db now new_id other event_id payment transitioned))
      | inr (x, e) ↦ rw (capture_payment, e) (refl, refl, refl)
    ]

pub process_captured-IsSafe :
    (db : Database) (now new_id : ℕ) (hub : Hub) (event_id : ℕ) (order_id payment_id : Option ℕ)
    → IsSafe hub (process_captured db now new_id hub event_id order_id payment_id)
unfolding process_captured
process_captured-IsSafe db now new_id hub event_id order_id payment_id =
    let p = λ (p : Payment).
      refers order_id p.provider_order_id || refers payment_id p.provider_payment_id in
    elim (Option-cases (find_payment db p hub.store)) [
      | inl e ↦
          rw (process_captured, e)
            (mark-Keeps event_id (set_failed "Payment record not found") hub (λ r. (refl, refl)))
      | inr (payment, e) ↦ elim (Bool-cases (payment.status =p captured)) [
        | inl done ↦
            rw (process_captured, e, done)
              (mark-Keeps event_id (set_processed payment) hub (λ r. (refl, refl)))
        | inr go ↦
            rw (process_captured, e, go)
              (capture_payment-IsSafe db now new_id hub event_id payment_id payment)
      ]
    ]

refund_payment-IsSafe :
    (db : Database) (now new_id : ℕ) (hub : Hub) (event_id : ℕ) (payment : Payment)
    → IsSafe hub (refund_payment db now new_id hub event_id payment)
unfolding refund_payment mark
refund_payment-IsSafe db now new_id hub event_id payment =
    let q = λ (p : Payment). p.id == payment.id in
    elim (Result-cases (update_row db q set_refunded hub.store.payments)) [
      | inr (x, e) ↦ rw (refund_payment, e) (refl, refl, refl)
      | inl ((updated, payments), e) ↦
          let paid : Hub = record hub { store = record hub.store { payments = payments } } in
          let recording =
            record_refund db now new_id (current_books paid) payment.id payment.organization_id
              payment.amount in
          elim (Result-cases recording) [
            | inl ((t, books), r) ↦
                rw (refund_payment, e, r)
                  (
                    mark-HasDistinctEvents event_id (set_processed payment) hub (λ r. (refl, refl)),
                    λ balanced.
                        record_refund-IsBalanced db now new_id (current_books paid) payment.id
                          payment.organization_id payment.amount t books balanced r,
                  )
            | inr (x, r) ↦ rw (refund_payment, e, r) (refl, refl, refl)
          ]
    ]

pub process_refund-IsSafe :
    (db : Database) (now new_id : ℕ) (hub : Hub) (event_id : ℕ) (order_id payment_id : Option ℕ)
    → IsSafe hub (process_refund db now new_id hub event_id order_id payment_id)
unfolding process_refund
process_refund-IsSafe db now new_id hub event_id order_id payment_id =
    let p = λ (p : Payment).
      refers payment_id p.provider_payment_id || refers order_id p.provider_order_id in
    elim (Option-cases (find_payment db p hub.store)) [
      | inl e ↦
          rw (process_refund, e)
            (mark-Keeps event_id (set_failed "Payment record for refund not found") hub
              (λ r. (refl, refl)))
      | inr (payment, e) ↦ elim (Bool-cases (payment.status =p refunded)) [
        | inl done ↦
            rw (process_refund, e, done)
              (mark-Keeps event_id (set_processed payment) hub (λ r. (refl, refl)))
        | inr go ↦
            rw (process_refund, e, go) (refund_payment-IsSafe db now new_id hub event_id payment)
      ]
    ]
