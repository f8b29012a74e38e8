-- ===== src/Finance/Reports.antt =====
-- What the reports of backend/src/finance/reconciliation.service.ts find.
use playhub_playbooking.Common.{
  ==_iff, All, All-append, All-map_of, Any, Bool, Bool-cases, List, Option-cases, [], any, arith,
  false, inl, inr, refl, some, subst, true, ℕ, ◌++◌, ◌+◌, ◌==◌, ◌↔◌, ◌∷◌, ◌≡◌,
}
use playhub_playbooking.Common.Database.{Database}
use playhub_playbooking.Common.Int.{eq_of_parts, eqb_ℤ, neg_part, pos_part, ℤ}
use playhub_playbooking.Finance.History.{Request, run, run-IsBalanced}
use playhub_playbooking.Finance.Ledger.{IsBalanced, credits, debits}
use playhub_playbooking.Finance.Reconciliation.{
  Code, DiscrepancyItem, Query, check, discrepancies_of, is_empty, is_even, is_recorded,
  matches_payment, mismatches, payment_amount_mismatch, payment_of, payments_in, run_reconciliation,
  transactions_in, unbalanced_ledger_transaction, unrecorded, unrecorded_payment, unrecorded_refund,
}
use playhub_playbooking.Finance.Records.{has_type}
use playhub_playbooking.Finance.Types.{
  Books, Transaction, TransactionType, payment_made, refund_made,
}
use playhub_playbooking.Schema.{Payment, captured, refunded}

abbrev IsRecorded : Books → TransactionType → Payment → Type 0
IsRecorded books type p = Any (λ t. has_type type p.id t ≡ true) books.transactions

abbrev IsMatched : Database → Books → Transaction → Type 0
IsMatched db books t =
    (debits t.id books.ledger ≡ credits t.id books.ledger)
    × ((p : Payment) → payment_of db books t ≡ some p → t.amount ≡ p.amount)

-- What a report on the books should find to be so.
abbrev pub IsReconciled : Database → (ℕ → ℕ) → Books → Query → Type 0
IsReconciled db created_at books query =
    All (IsRecorded books payment_made) (payments_in created_at books query captured)
    × All (IsMatched db books) (transactions_in books query)
    × All (IsRecorded books refund_made) (payments_in created_at books query refunded)

any-Any :
    {A : Type 0} (p : A → Bool) (rows : List A) → (any p rows ≡ true) ↔ Any (λ a. p a ≡ true) rows
any-Any p [] = ((λ h. cc), (λ h. absurd h))
any-Any p (a ∷ rest) = elim (Bool-cases (p a)) [
  | inl e ↦ ((λ _. inl e), (λ _. rw e refl))
  | inr e ↦ (
    (λ h. inr ((any-Any p rest).0 (rw e at h))),
    (λ h. elim h [ inl y ↦ cc | inr k ↦ rw e ((any-Any p rest).1 k) ]),
  )
]

check-empty :
    (passed : Bool) (code : Code) (id organization : ℕ) (found : List DiscrepancyItem)
    → (check passed code id organization found ≡ []) ↔ ((passed ≡ true) × (found ≡ []))
check-empty true code id organization found = ((λ h. (refl, h)), (λ h. h.1))
check-empty false code id organization found = ((λ h. cc), (λ h. cc))

unrecorded-All :
    (books : Books) (type : TransactionType) (code : Code) (ps : List Payment)
    → (unrecorded books type code ps ≡ []) ↔ All (IsRecorded books type) ps
unfolding unrecorded
unrecorded-All books type code [] = ((λ _. tt), (λ _. refl))
unrecorded-All books type code (p ∷ rest) =
    let recorded = any-Any (has_type type p.id) books.transactions in
    let others = unrecorded-All books type code rest in
    let passed = check-empty (is_recorded books type p) code p.id p.organization_id _ in
    (
      (λ h. let (a, b) = passed.0 h in (recorded.0 a, others.0 b)),
      (λ h. passed.1 (recorded.1 h.0, others.1 h.1)),
    )

eqb_ℤ-≡ : (a b : ℤ) → (eqb_ℤ a b ≡ true) ↔ (a ≡ b)
eqb_ℤ-≡ a b = (
  (λ h. eq_of_parts a b ((==_iff (pos_part a + neg_part b) (pos_part b + neg_part a)).0 h)),
  (λ h. (==_iff (pos_part a + neg_part b) (pos_part b + neg_part a)).1 (cc)),
)

matches_payment-≡ :
    (db : Database) (books : Books) (t : Transaction)
    → (matches_payment db books t ≡ true)
      ↔ ((p : Payment) → payment_of db books t ≡ some p → t.amount ≡ p.amount)
matches_payment-≡ db books t = elim (Option-cases (payment_of db books t)) [
  | inl e ↦ ((λ _ p f. cc), (λ _. rw (matches_payment, e) refl))
  | inr (q, e) ↦ (
    (λ h p f.
        let k : (t.amount == q.amount) ≡ true = rw (matches_payment, e) at h in
        let same : q ≡ p = cc in subst (λ (p : Payment). t.amount ≡ p.amount) same (ground arith)),
    (λ h. let k = h q e in rw (matches_payment, e) (ground arith)),
  )
]

mismatches-All :
    (db : Database) (books : Books) (ts : List Transaction)
    → (mismatches db books ts ≡ []) ↔ All (IsMatched db books) ts
unfolding mismatches
mismatches-All db books [] = ((λ _. tt), (λ _. refl))
mismatches-All db books (t ∷ rest) =
    let others = mismatches-All db books rest in
    let even = eqb_ℤ-≡ (debits t.id books.ledger) (credits t.id books.ledger) in
    let matches = matches_payment-≡ db books t in
    let first =
      check-empty (is_even books t) unbalanced_ledger_transaction t.id t.organization_id _ in
    let second =
      check-empty (matches_payment db books t) payment_amount_mismatch t.id t.organization_id _ in
    (
      (λ h.
          let (a, k) = first.0 h in
          let (b, l) = second.0 k in ((even.0 a, matches.0 b), others.0 l)),
      (λ h. first.1 (even.1 h.0.0, second.1 (matches.1 h.0.1, others.1 h.1))),
    )

append-empty : {A : Type 0} (xs ys : List A) → (xs ++ ys ≡ []) ↔ ((xs ≡ []) × (ys ≡ []))
append-empty [] ys = ((λ h. (refl, h)), (λ h. h.1))
append-empty (x ∷ xs) ys = ((λ h. cc), (λ h. cc))

is_empty-≡ : (found : List DiscrepancyItem) → (is_empty found ≡ true) ↔ (found ≡ [])
is_empty-≡ [] = ((λ _. refl), (λ _. refl))
is_empty-≡ (d ∷ rest) = ((λ h. cc), (λ h. cc))

-- A report is healthy exactly if each captured payment that it looks at has a transaction of type
-- PAYMENT and each refunded one a transaction of type REFUND, the entries of each transaction debit
-- as much as they credit, and each transaction of a payment has the amount of that payment.
pub run_reconciliation-IsReconciled :
    (db : Database) (created_at : ℕ → ℕ) (books : Books) (query : Query)
    → ((run_reconciliation db created_at books query).is_healthy ≡ true)
      ↔ IsReconciled db created_at books query
unfolding run_reconciliation discrepancies_of
run_reconciliation-IsReconciled db created_at books query =
    let paid = payments_in created_at books query captured in
    let returned = payments_in created_at books query refunded in
    let ts = transactions_in books query in
    let lost = unrecorded books refund_made unrecorded_refund returned in
    let healthy = is_empty-≡ (discrepancies_of db created_at books query) in
    let first =
      append-empty (unrecorded books payment_made unrecorded_payment paid)
        (mismatches db books ts ++ lost) in
    let second = append-empty (mismatches db books ts) lost in
    let payments = unrecorded-All books payment_made unrecorded_payment paid in
    let matches = mismatches-All db books ts in
    let refunds = unrecorded-All books refund_made unrecorded_refund returned in
    (
      (λ h.
          let (a, k) = first.0 (healthy.0 h) in
          let (b, c) = second.0 k in (payments.0 a, matches.0 b, refunds.0 c)),
      (λ (a, b, c). healthy.1 (first.1 (payments.1 a, second.1 (matches.1 b, refunds.1 c)))),
    )

abbrev pub Names : Code → DiscrepancyItem → Type 0
Names code d = d.code ≡ code

unrecorded-Names :
    (books : Books) (type : TransactionType) (code : Code) (ps : List Payment)
    → All (Names code) (unrecorded books type code ps)
unfolding unrecorded
unrecorded-Names books type code [] = tt
unrecorded-Names books type code (p ∷ rest) = elim (Bool-cases (is_recorded books type p)) [
  | inl e ↦ rw e (unrecorded-Names books type code rest)
  | inr e ↦ rw e (refl, unrecorded-Names books type code rest)
]

mismatches-Names :
    (db : Database) (books : Books) (ts : List Transaction)
    → IsBalanced books.ledger
    → All (Names payment_amount_mismatch) (mismatches db books ts)
unfolding mismatches
mismatches-Names db books [] balanced = tt
mismatches-Names db books (t ∷ rest) balanced =
    let even : is_even books t ≡ true =
      (eqb_ℤ-≡ (debits t.id books.ledger) (credits t.id books.ledger)).1 (balanced t.id) in
    elim (Bool-cases (matches_payment db books t)) [
      | inl e ↦ rw (even, e) (mismatches-Names db books rest balanced)
      | inr e ↦ rw (even, e) (refl, mismatches-Names db books rest balanced)
    ]

-- After any sequence of operations on a balanced ledger, a reconciliation, whatever it asks for,
-- reports no unbalanced transaction.
pub run_reconciliation-balanced :
    (db : Database) (created_at : ℕ → ℕ) (books : Books) (requests : List (ℕ × Request))
    (query : Query)
    → IsBalanced books.ledger
    → All
        (λ d. ¬ Names unbalanced_ledger_transaction d)
        (run_reconciliation db created_at (run db books requests) query).discrepancies
unfolding run_reconciliation discrepancies_of
run_reconciliation-balanced db created_at books requests query balanced =
    let after = run db books requests in
    let paid = payments_in created_at after query captured in
    let returned = payments_in created_at after query refunded in
    let ts = transactions_in after query in
    let first = unrecorded after payment_made unrecorded_payment paid in
    let last = unrecorded after refund_made unrecorded_refund returned in
    let Other = λ (d : DiscrepancyItem). ¬ Names unbalanced_ledger_transaction d in
    All-append Other first (mismatches db after ts ++ last)
      (All-map_of first (λ d e k. cc) (unrecorded-Names after payment_made unrecorded_payment paid))
      (All-append Other (mismatches db after ts) last
        (All-map_of (mismatches db after ts) (λ d e k. cc)
          (mismatches-Names db after ts (run-IsBalanced db books requests balanced)))
        (All-map_of last (λ d e k. cc)
          (unrecorded-Names after refund_made unrecorded_refund returned)))
