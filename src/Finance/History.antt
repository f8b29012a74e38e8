-- ===== src/Finance/History.antt =====
-- Any sequence of requests to the services of backend/src/finance.
use playhub_playbooking.Common.{List, Option, Result, [], err, ok, refl, subst, ℕ, ◌∷◌, ◌≡◌}
use playhub_playbooking.Common.Database.{Database}
use playhub_playbooking.Finance.Balance.{
  end_payout-IsBalanced, initiate_payout-IsBalanced, record_adjustment-IsBalanced,
  record_payment-IsBalanced, record_refund-IsBalanced,
}
use playhub_playbooking.Finance.Ledger.{IsBalanced}
use playhub_playbooking.Finance.Payouts.{
  complete_payout, fail_payout, initiate_payout, is_completed, is_failed,
}
use playhub_playbooking.Finance.Records.{
  AdjustmentDirection, record_adjustment, record_payment, record_refund,
}
use playhub_playbooking.Finance.Settlements.{create_settlement, create_settlement-ledger}
use playhub_playbooking.Finance.Types.{Books, PayoutStatus, partner_payable, payment_clearing}

-- The requests that write to the books, with the identifiers that the database gives new rows.
pub data Request : Type 0 where
  pay refund : (id payment organization amount : ℕ) → Request
  adjust : (id key organization amount : ℕ) → AdjustmentDirection → Request
  pay_out : (id payout organization amount : ℕ) → Option ℕ → Request
  complete fail : ℕ → Request
  settle : (id organization start end : ℕ) → Request

-- The books after a request; one that throws leaves them as they were.
abbrev pub books_after : {A : Type 0} → Books → Result (A × Books) → Books
books_after books (ok (a, after)) = after
books_after books (err e) = books

unfoldable pub serve : Database → ℕ → Books → Request → Books
serve db now books (pay id payment organization amount) =
    books_after books (record_payment db now id books payment organization amount)
serve db now books (refund id payment organization amount) =
    books_after books (record_refund db now id books payment organization amount)
serve db now books (adjust id key organization amount direction) =
    books_after books (record_adjustment db now id key books organization amount direction)
serve db now books (pay_out id payout organization amount settlement) =
    books_after books (initiate_payout db now id payout books organization amount settlement)
serve db now books (complete payout) = books_after books (complete_payout db books payout)
serve db now books (fail payout) = books_after books (fail_payout db books payout)
serve db now books (settle id organization start end) =
    books_after books (create_settlement db id books organization start end)

unfoldable pub run : Database → Books → List (ℕ × Request) → Books
run db books [] = books
run db books ((now, r) ∷ rest) = run db (serve db now books r) rest

books_after-IsBalanced :
    {A : Type 0} (books : Books) (result : Result (A × Books))
    → IsBalanced books.ledger
    → ((a : A) (after : Books) → result ≡ ok (a, after) → IsBalanced after.ledger)
    → IsBalanced (books_after books result).ledger
books_after-IsBalanced books (ok (a, after)) balanced keeps = keeps a after refl
books_after-IsBalanced books (err e) balanced keeps = balanced

serve-IsBalanced :
    (db : Database) (now : ℕ) (books : Books) (r : Request)
    → IsBalanced books.ledger
    → IsBalanced (serve db now books r).ledger
unfolding serve complete_payout fail_payout
serve-IsBalanced db now books (pay id payment organization amount) balanced =
    books_after-IsBalanced books _ balanced (λ t after h.
      record_payment-IsBalanced db now id books payment organization amount t after balanced h)
serve-IsBalanced db now books (refund id payment organization amount) balanced =
    books_after-IsBalanced books _ balanced (λ t after h.
      record_refund-IsBalanced db now id books payment organization amount t after balanced h)
serve-IsBalanced db now books (adjust id key organization amount direction) balanced =
    books_after-IsBalanced books _ balanced (λ t after h.
      record_adjustment-IsBalanced db now id key books organization amount direction t after
        balanced h)
serve-IsBalanced db now books (pay_out id payout organization amount settlement) balanced =
    books_after-IsBalanced books _ balanced (λ p after h.
      initiate_payout-IsBalanced db now id payout books organization amount settlement p after
        balanced h)
serve-IsBalanced db now books (complete payout) balanced =
    books_after-IsBalanced books _ balanced (λ p after h.
      end_payout-IsBalanced db books payout PayoutStatus.completed payment_clearing is_completed p
        after balanced h)
serve-IsBalanced db now books (fail payout) balanced =
    books_after-IsBalanced books _ balanced (λ p after h.
      end_payout-IsBalanced db books payout PayoutStatus.failed partner_payable is_failed p after
        balanced h)
serve-IsBalanced db now books (settle id organization start end) balanced =
    books_after-IsBalanced books _ balanced (λ s after h.
      subst IsBalanced (create_settlement-ledger db id books organization start end s after h)
        balanced)

-- After any sequence of payments, refunds, adjustments, payouts, their completions and failures,
-- and settlements, at any times, the debits of every transaction equal its credits, if this held
-- before.
pub run-IsBalanced :
    (db : Database) (books : Books) (requests : List (ℕ × Request))
    → IsBalanced books.ledger
    → IsBalanced (run db books requests).ledger
unfolding run
run-IsBalanced db books [] balanced = balanced
run-IsBalanced db books ((now, r) ∷ rest) balanced =
    run-IsBalanced db (serve db now books r) rest (serve-IsBalanced db now books r balanced)
