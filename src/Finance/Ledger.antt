-- ===== src/Finance/Ledger.antt =====
-- The double entries of backend/src/finance: for each transaction the debits equal the credits.
use playhub_playbooking.Common.{
  Bool-cases, List, [], ap, false, filter, inl, inr, is_some, ok, refl, subst, sym, throw_if-eq-ok,
  true, ℕ, ◌==◌, ◌∙◌, ◌∷◌, ◌≡◌,
}
use playhub_playbooking.Common.Database.{Database}
use playhub_playbooking.Common.Int.{+ℤ_assoc, int_laws, ℤ, ◌+ℤ◌}
use playhub_playbooking.Finance.{Line, create_transaction, post, sum_ℤ}
use playhub_playbooking.Finance.Types.{Books, LedgerEntry, Transaction, key_eq}

-- What the entries of a transaction debit, and credit.
abbrev pub debits : ℕ → List LedgerEntry → ℤ
debits t ledger =
    sum_ℤ (λ (e : LedgerEntry). e.debit)
      (filter (λ (e : LedgerEntry). e.transaction_id == t) ledger)

abbrev pub credits : ℕ → List LedgerEntry → ℤ
credits t ledger =
    sum_ℤ (λ (e : LedgerEntry). e.credit)
      (filter (λ (e : LedgerEntry). e.transaction_id == t) ledger)

abbrev pub IsBalanced : List LedgerEntry → Type 0
IsBalanced ledger = (t : ℕ) → debits t ledger ≡ credits t ledger

abbrev pub line_debits : List Line → ℤ
line_debits lines = sum_ℤ (λ (l : Line). l.1.0) lines

abbrev pub line_credits : List Line → ℤ
line_credits lines = sum_ℤ (λ (l : Line). l.1.1) lines

posts_own :
    (t transaction organization : ℕ) (lines : List Line) (ledger : List LedgerEntry)
    → (transaction == t) ≡ true
    → (debits t (post transaction organization lines ledger) ≡ line_debits lines +ℤ debits t ledger)
      × (credits t (post transaction organization lines ledger)
          ≡ line_credits lines +ℤ credits t ledger)
unfolding post
posts_own t transaction organization [] ledger e = (omega int_laws, omega int_laws)
posts_own t transaction organization ((account, (d, c)) ∷ lines) ledger e =
    let (hd, hc) = posts_own t transaction organization lines ledger e in
    rw e (
      ap (λ x. d +ℤ x) hd ∙ +ℤ_assoc d (line_debits lines) (debits t ledger),
      ap (λ x. c +ℤ x) hc ∙ +ℤ_assoc c (line_credits lines) (credits t ledger),
    )

posts_other :
    (t transaction organization : ℕ) (lines : List Line) (ledger : List LedgerEntry)
    → (transaction == t) ≡ false
    → (debits t (post transaction organization lines ledger) ≡ debits t ledger)
      × (credits t (post transaction organization lines ledger) ≡ credits t ledger)
unfolding post
posts_other t transaction organization [] ledger e = (refl, refl)
posts_other t transaction organization ((account, (d, c)) ∷ lines) ledger e =
    rw e (posts_other t transaction organization lines ledger e)

pub post-IsBalanced :
    (transaction organization : ℕ) (lines : List Line) (ledger : List LedgerEntry)
    → line_debits lines ≡ line_credits lines
    → IsBalanced ledger
    → IsBalanced (post transaction organization lines ledger)
post-IsBalanced transaction organization lines ledger same balanced t =
    elim (Bool-cases (transaction == t)) [
      | inl e ↦
          let (hd, hc) = posts_own t transaction organization lines ledger e in
          hd
          ∙ ap (λ x. x +ℤ debits t ledger) same
          ∙ ap (λ x. line_credits lines +ℤ x) (balanced t)
          ∙ sym hc
      | inr e ↦
          let (hd, hc) = posts_other t transaction organization lines ledger e in
          hd ∙ balanced t ∙ sym hc
    ]

pub create_transaction-ok :
    (db : Database) (t : Transaction) (lines : List Line) (books after : Books)
    → create_transaction db t lines books ≡ ok after
    → (after.transactions ≡ t ∷ books.transactions)
      × (after.ledger ≡ post t.id t.organization_id lines books.ledger)
unfolding create_transaction
create_transaction-ok db t lines books after h =
    let (fresh, e) =
      throw_if-eq-ok
        (is_some
          (db.find_first (λ u. key_eq u.idempotency_key t.idempotency_key) books.transactions))
        _ _ h in
    (cc, cc)

pub create_transaction-IsBalanced :
    (db : Database) (t : Transaction) (lines : List Line) (books after : Books)
    → line_debits lines ≡ line_credits lines
    → IsBalanced books.ledger
    → create_transaction db t lines books ≡ ok after
    → IsBalanced after.ledger
create_transaction-IsBalanced db t lines books after same balanced h =
    subst IsBalanced (sym (create_transaction-ok db t lines books after h).1)
      (post-IsBalanced t.id t.organization_id lines books.ledger same balanced)
