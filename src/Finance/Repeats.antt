-- ===== src/Finance/Repeats.antt =====
-- When the idempotency keys of backend/src/finance keep a payment from being recorded twice.
use playhub_playbooking.Common.{
  >>=-eq-ok, All, All-of_both, Bool, List, Option-cases, [], arith, false, if◌then◌else◌, inl, inr,
  is_some, none, ok, some, state_of_ok, subst, sym, throw_if-eq-ok, true, ℕ, ◌>>=◌, ◌∷◌, ◌≡◌,
}
use playhub_playbooking.Common.Database.{
  All-intro, AllPairs, AllPairs-update_many, Database, update_many, update_many-All,
}
use playhub_playbooking.Finance.{Line, create_transaction}
use playhub_playbooking.Finance.Ledger.{create_transaction-ok}
use playhub_playbooking.Finance.Settlements.{settle_into}
use playhub_playbooking.Finance.Types.{Books, Transaction, key_eq, pay_key, payment_made}

-- No two transactions have one key.
abbrev pub HasDistinctKeys : List Transaction → Type 0
HasDistinctKeys ts = AllPairs (λ t u. key_eq u.idempotency_key t.idempotency_key ≡ false) ts

-- A transaction of a payment has the key of that payment.
abbrev pub IsOwn : Transaction → Type 0
IsOwn t = (p : ℕ) → t.type ≡ payment_made → t.payment_id ≡ some p → t.idempotency_key ≡ pay_key p

abbrev pub IsKeyed : List Transaction → Type 0
IsKeyed ts = HasDistinctKeys ts × All IsOwn ts

-- Two transactions that record one payment.
abbrev pub IsRepeat : Transaction → Transaction → Type 0
IsRepeat t u =
    (p : ℕ) × (t.type ≡ payment_made)
    × (u.type ≡ payment_made)
    × (t.payment_id ≡ some p)
    × (u.payment_id ≡ some p)

-- No payment is recorded by two transactions.
abbrev pub IsPaidOnce : List Transaction → Type 0
IsPaidOnce ts = AllPairs (λ t u. ¬ (IsRepeat t u)) ts

not_repeated :
    (t u : Transaction)
    → IsOwn t
    → IsOwn u
    → key_eq u.idempotency_key t.idempotency_key ≡ false
    → ¬ (IsRepeat t u)
not_repeated t u own own' differ (p, paid, paid', e, e') =
    let k : key_eq (pay_key p) (pay_key p) ≡ false = rw (own p paid e, own' p paid' e') at differ in
    ground arith

pub keyed-IsPaidOnce : (ts : List Transaction) → IsKeyed ts → IsPaidOnce ts
keyed-IsPaidOnce [] keyed = tt
keyed-IsPaidOnce (t ∷ rest) ((differ, distinct), (own, owns)) = (
  All-of_both rest (λ u own' d. not_repeated t u own own' d) owns differ,
  keyed-IsPaidOnce rest (distinct, owns),
)

pub create_transaction-fresh :
    (db : Database) (t : Transaction) (lines : List Line) (books after : Books)
    → create_transaction db t lines books ≡ ok after
    → IsOwn t
    → IsKeyed books.transactions
    → IsKeyed after.transactions
unfolding create_transaction
create_transaction-fresh db t lines books after h own (distinct, owns) =
    let p = λ (u : Transaction). key_eq u.idempotency_key t.idempotency_key in
    let (fresh, e) = throw_if-eq-ok (is_some (db.find_first p books.transactions)) _ _ h in
    let missing : db.find_first p books.transactions ≡ none =
      elim (Option-cases (db.find_first p books.transactions)) [
        | inl e ↦ e
        | inr (u, e) ↦ absurd (ground arith)
      ] in
    subst IsKeyed (sym (create_transaction-ok db t lines books after h).0)
      ((db.find_first-none p books.transactions missing, distinct), (own, owns))

pub created-IsKeyed :
    {A : Type 0} (db : Database) (t : Transaction) (lines : List Line) (books after : Books)
    (x y : A)
    → ◌>>=◌ {T = A × Books} (create_transaction db t lines books) (λ b. ok (x, b)) ≡ ok (y, after)
    → IsOwn t
    → IsKeyed books.transactions
    → IsKeyed after.transactions
created-IsKeyed db t lines books after x y h own keyed =
    let (made, em, e) = >>=-eq-ok (create_transaction db t lines books) (λ b. ok (x, b)) h in
    subst (λ (b : Books). IsKeyed b.transactions) (state_of_ok x y made after e)
      (create_transaction-fresh db t lines books made em own keyed)

pub settled-IsKeyed :
    (new_id : ℕ) (p : Transaction → Bool) (ts : List Transaction)
    → IsKeyed ts
    → IsKeyed (update_many p (settle_into new_id) ts)
settled-IsKeyed new_id p ts (distinct, owns) = (
  AllPairs-update_many (λ t u. key_eq u.idempotency_key t.idempotency_key ≡ false) (λ t. Unit {0}) p
      (settle_into new_id) ts (λ t u _ _. pair t u (p t) (p u))
      (All-intro (λ t. Unit {0}) ts (λ t. tt)) distinct,
  update_many-All IsOwn p (settle_into new_id) ts (λ t _ own. own) owns,
)
  where
    pair :
        (t u : Transaction) (x y : Bool)
        → key_eq u.idempotency_key t.idempotency_key ≡ false
        → key_eq
            (if y then settle_into new_id u else u).idempotency_key
            (if x then settle_into new_id t else t).idempotency_key
          ≡ false
    pair t u true true h = h
    pair t u true false h = h
    pair t u false true h = h
    pair t u false false h = h
