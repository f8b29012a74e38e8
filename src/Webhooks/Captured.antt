-- ===== src/Webhooks/Captured.antt =====
-- `processPaymentCapturedEvent` of backend/src/webhooks/webhooks.service.ts.
use playhub_playbooking.Common.{
  Option, Result, err, error, if◌then◌else◌, none, ok, or_throw, some, ℕ, ◌++◌, ◌==◌, ◌>>=◌, ◌||◌,
  ◌∷◌,
}
use playhub_playbooking.Common.Database.{Database}
use playhub_playbooking.Finance.Records.{record_payment}
use playhub_playbooking.Payments.{
  booking_of, capture, captured_event, confirmed_events, find_payment,
}
use playhub_playbooking.Payments.Types.{PaymentStore}
use playhub_playbooking.Payments.Webhook.{either, refers}
use playhub_playbooking.Schema.{Booking, Payment, captured, ◌=p◌}
use playhub_playbooking.Webhooks.{Step, current_books, mark, set_failed, set_processed}
use playhub_playbooking.Webhooks.Types.{Hub}

-- The transaction: the row is read again, and captured unless it is captured already.
unfoldable pub capture_again :
    Database → PaymentStore → Payment → Option ℕ → Result (Option Booking × PaymentStore)
capture_again db store payment payment_id = do
  latest ←
      or_throw (find_payment db (λ p. p.id == payment.id) store) (error "Payment record not found")
  let go = do
    r ← capture db store payment (λ p. record p {
      status = captured;
      provider_payment_id = either payment_id latest.provider_payment_id;
    })
    ok r.1
  if latest.status =p captured then ok (none, store) else go

-- After the transaction: the books, the row of the event, and the domain events.
unfoldable pub book_capture : Database → ℕ → ℕ → Hub → ℕ → Payment → Option Booking → Step
book_capture db now new_id hub event_id payment transitioned =
    elim (booking_of db hub.store payment) [
      | none ↦ (hub, some (error "Booking of a payment not found"))
      | some booking ↦
          elim (record_payment db now new_id (current_books hub) payment.id payment.organization_id
            payment.amount) [
              | err e ↦ (hub, some e)
              | ok (t, books) ↦
                  let marked =
                    mark event_id (set_processed payment) (record hub { books = books }) in
                  (
                    record marked {
                      store = record marked.store {
                        events =
                            confirmed_events transitioned payment.booking_id payment.organization_id
                              booking.user_id
                            ++ captured_event payment booking.user_id ∷ marked.store.events;
                      };
                    },
                    none,
                  )
            ]
    ]

unfoldable pub capture_payment : Database → ℕ → ℕ → Hub → ℕ → Option ℕ → Payment → Step
capture_payment db now new_id hub event_id payment_id payment =
    elim (capture_again db hub.store payment payment_id) [
      | err e ↦ (hub, some e)
      | ok (transitioned, store) ↦
          book_capture db now new_id (record hub { store = store }) event_id payment transitioned
    ]

unfoldable pub process_captured : Database → ℕ → ℕ → Hub → ℕ → Option ℕ → Option ℕ → Step
process_captured db now new_id hub event_id order_id payment_id =
    elim (find_payment db
      (λ p. refers order_id p.provider_order_id || refers payment_id p.provider_payment_id)
      hub.store) [
        | none ↦ (mark event_id (set_failed "Payment record not found") hub, none)
        | some payment ↦
            let go = capture_payment db now new_id hub event_id payment_id payment in
            if payment.status =p captured
            then (mark event_id (set_processed payment) hub, none)
            else go
      ]
