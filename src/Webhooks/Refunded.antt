-- ===== src/Webhooks/Refunded.antt =====
-- `processRefundEvent` of backend/src/webhooks/webhooks.service.ts.
use playhub_playbooking.Common.{Option, err, if◌then◌else◌, none, ok, some, ℕ, ◌==◌, ◌||◌, ◌∷◌}
use playhub_playbooking.Common.Database.{Database, update_row}
use playhub_playbooking.Finance.Records.{record_refund}
use playhub_playbooking.Payments.{find_payment}
use playhub_playbooking.Payments.Types.{payment_refunded}
use playhub_playbooking.Payments.Webhook.{refers}
use playhub_playbooking.Schema.{Payment, refunded, ◌=p◌}
use playhub_playbooking.Webhooks.{Step, current_books, mark, set_failed, set_processed}
use playhub_playbooking.Webhooks.Types.{Hub}

abbrev pub set_refunded : Payment → Payment
set_refunded p = record p { status = refunded }

-- The update, which is on its own, then the books, the row and the domain event.
unfoldable pub refund_payment : Database → ℕ → ℕ → Hub → ℕ → Payment → Step
refund_payment db now new_id hub event_id payment =
    elim (update_row db (λ (p : Payment). p.id == payment.id) set_refunded hub.store.payments) [
      | err e ↦ (hub, some e)
      | ok (updated, payments) ↦
          let paid = record hub { store = record hub.store { payments = payments } } in
          elim (record_refund db now new_id (current_books paid) payment.id payment.organization_id
            payment.amount) [
              | err e ↦ (paid, some e)
              | ok (t, books) ↦
                  let marked =
                    mark event_id (set_processed payment) (record paid { books = books }) in
                  (
                    record marked {
                      store = record marked.store {
                        events =
                            payment_refunded payment.id payment.booking_id payment.organization_id
                              payment.amount
                            ∷ marked.store.events;
                      };
                    },
                    none,
                  )
            ]
    ]

unfoldable pub process_refund : Database → ℕ → ℕ → Hub → ℕ → Option ℕ → Option ℕ → Step
process_refund db now new_id hub event_id order_id payment_id =
    elim (find_payment db
      (λ p. refers payment_id p.provider_payment_id || refers order_id p.provider_order_id)
      hub.store) [
        | none ↦ (mark event_id (set_failed "Payment record for refund not found") hub, none)
        | some payment ↦
            let go = refund_payment db now new_id hub event_id payment in
            if payment.status =p refunded
            then (mark event_id (set_processed payment) hub, none)
            else go
      ]
