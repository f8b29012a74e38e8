-- ===== src/Webhooks/Credits.antt =====
-- A payment is credited once, by backend/src/webhooks/webhooks.service.ts.
use playhub_playbooking.Common.{
  Bool-cases, Option, Option-cases, Result-cases, inl, inr, refl, some, ℕ, ◌||◌, ◌≡◌,
}
use playhub_playbooking.Common.Database.{Database}
use playhub_playbooking.Finance.Records.{has_key}
use playhub_playbooking.Finance.Retries.{known_payment}
use playhub_playbooking.Finance.Types.{Transaction, pay_key}
use playhub_playbooking.Payments.{booking_of, find_payment}
use playhub_playbooking.Payments.Webhook.{refers}
use playhub_playbooking.Schema.{Booking, Payment, captured, ◌=p◌}
use playhub_playbooking.Webhooks.{current_books, mark}
use playhub_playbooking.Webhooks.Captured.{
  book_capture, capture_again, capture_payment, process_captured,
}
use playhub_playbooking.Webhooks.Types.{Hub}

known_books :
    (db : Database) (now new_id : ℕ) (hub : Hub) (event_id : ℕ) (payment : Payment)
    (transitioned : Option Booking) (t : Transaction)
    → db.find_first (has_key (pay_key payment.id)) hub.books.transactions ≡ some t
    → ((book_capture db now new_id hub event_id payment transitioned).0.books.ledger
        ≡ hub.books.ledger)
      × ((book_capture db now new_id hub event_id payment transitioned).0.books.transactions
          ≡ hub.books.transactions)
unfolding book_capture mark
known_books db now new_id hub event_id payment transitioned t known =
    elim (Option-cases (booking_of db hub.store payment)) [
      | inl e ↦ rw (book_capture, e) (refl, refl)
      | inr (booking, e) ↦
          rw
            (
              book_capture,
              e,
              known_payment db now new_id (current_books hub) payment.id payment.organization_id
                  payment.amount t known,
            )
            (refl, refl)
    ]

-- If the books have a transaction of the payment that an event of a capture refers to, then
-- processing the event, whether it returns or throws, leaves the ledger and the transactions as they
-- are.
pub process_captured-once :
    (db : Database) (now new_id : ℕ) (hub : Hub) (event_id : ℕ) (order_id payment_id : Option ℕ)
    (payment : Payment) (t : Transaction)
    → find_payment db
        (λ p. refers order_id p.provider_order_id || refers payment_id p.provider_payment_id)
        hub.store
      ≡ some payment
    → db.find_first (has_key (pay_key payment.id)) hub.books.transactions ≡ some t
    → ((process_captured db now new_id hub event_id order_id payment_id).0.books.ledger
        ≡ hub.books.ledger)
      × ((process_captured db now new_id hub event_id order_id payment_id).0.books.transactions
          ≡ hub.books.transactions)
unfolding process_captured capture_payment mark
process_captured-once db now new_id hub event_id order_id payment_id payment t found known =
    elim (Bool-cases (payment.status =p captured)) [
      | inl done ↦ rw (process_captured, found, done) (refl, refl)
      | inr go ↦ elim (Result-cases (capture_again db hub.store payment payment_id)) [
        | inl ((transitioned, store), e) ↦
            rw (process_captured, found, go, capture_payment, e)
              (known_books db now new_id (record hub { store = store }) event_id payment
                transitioned t known)
        | inr (x, e) ↦ rw (process_captured, found, go, capture_payment, e) (refl, refl)
      ]
    ]
