-- ===== src/Finance/Settlements.antt =====
-- `createSettlement` of backend/src/finance/settlement.service.ts.
use playhub_playbooking.Common.{
  All, All-map_of, Bool, Bool-cases, List, Result, [], any, ap, arith, bad_request, false, filter,
  inl, inr, is_ok, is_some, leb, not, ok, refl, some, state_of_ok, sym, throw_if, throw_if-eq-ok,
  true, ℕ, ◌&&◌, ◌==◌, ◌>>◌, ◌∷◌, ◌≡◌,
}
use playhub_playbooking.Common.Database.{Database, update_many}
use playhub_playbooking.Common.Int.{pos, ℤ, ◌-ℤ◌}
use playhub_playbooking.Finance.{sum_ℤ}
use playhub_playbooking.Finance.Types.{
  Books, Settlement, Transaction, TransactionType, payment_made, refund_made,
}

unfoldable pub is_eligible : ℕ → ℕ → ℕ → Transaction → Bool
is_eligible organization_id start end t =
    t.organization_id == organization_id
    && not (is_some t.settlement_id)
    && leb start t.created_at
    && leb t.created_at end

-- An amount of a transaction, as it counts for a settlement.
abbrev signed : TransactionType → ℕ → ℤ
signed payment_made amount = pos amount
signed refund_made amount = pos 0 -ℤ pos amount
signed _ amount = pos 0

abbrev pub settled_in : List Transaction → Transaction → Bool
settled_in transactions t = any (λ (u : Transaction). t.id == u.id) transactions

abbrev is_empty : List Transaction → Bool
is_empty [] = true
is_empty (t ∷ rest) = false

abbrev pub settle_into : ℕ → Transaction → Transaction
settle_into id t = record t { settlement_id = some id }

unfoldable pub create_settlement : Database → ℕ → Books → ℕ → ℕ → ℕ → Result (Settlement × Books)
create_settlement db new_id books organization_id start end = do
  throw_if (leb end start) (bad_request "Start date must be before end date")
  let transactions = filter (is_eligible organization_id start end) books.transactions
  throw_if (is_empty transactions)
      (bad_request "No eligible unsettled financial transactions found in date range")
  let gross = sum_ℤ (λ (t : Transaction). signed t.type t.amount) transactions
  let commission = sum_ℤ (λ (t : Transaction). signed t.type t.commission) transactions
  let settlement : Settlement = record {
    id = new_id;
    organization_id = organization_id;
    start_date = start;
    end_date = end;
    gross_amount = gross;
    commission = commission;
    net_amount = gross -ℤ commission;
  }
  ok (
    settlement,
    record books {
      settlements = settlement ∷ books.settlements;
      transactions = update_many (settled_in transactions) (settle_into new_id) books.transactions;
    },
  )

-- What a settlement does to the tables.
pub create_settlement-made :
    (db : Database) (new_id : ℕ) (books : Books) (organization_id start end : ℕ) (s : Settlement)
    (after : Books)
    → create_settlement db new_id books organization_id start end ≡ ok (s, after)
    → (books.ledger ≡ after.ledger)
      × (after.transactions
          ≡ update_many
              (settled_in (filter (is_eligible organization_id start end) books.transactions))
              (settle_into new_id)
              books.transactions)
unfolding create_settlement
create_settlement-made db new_id books organization_id start end s after h =
    let (range, h1) = throw_if-eq-ok (leb end start) _ _ h in
    let (found, h2) =
      throw_if-eq-ok (is_empty (filter (is_eligible organization_id start end) books.transactions))
        _ _ h1 in
    let same = state_of_ok _ s _ after h2 in
    (ap (λ (b : Books). b.ledger) same, sym (ap (λ (b : Books). b.transactions) same))

pub create_settlement-ledger :
    (db : Database) (new_id : ℕ) (books : Books) (organization_id start end : ℕ) (s : Settlement)
    (after : Books)
    → create_settlement db new_id books organization_id start end ≡ ok (s, after)
    → books.ledger ≡ after.ledger
create_settlement-ledger db new_id books organization_id start end s after h =
    (create_settlement-made db new_id books organization_id start end s after h).0

settled_in-filter :
    (p : Transaction → Bool) (transactions : List Transaction)
    → All (λ t. p t ≡ true → settled_in (filter p transactions) t ≡ true) transactions
settled_in-filter p [] = tt
settled_in-filter p (t ∷ rest) =
    let others = settled_in-filter p rest in
    elim (Bool-cases (p t)) [
      | inl e ↦
          let same : filter p (t ∷ rest) ≡ t ∷ filter p rest = rw e refl in
          (
            (λ k. rw same (ground arith)),
            All-map_of rest (λ u h k. rw same (ground (arith, h k))) others,
          )
      | inr e ↦
          let same : filter p (t ∷ rest) ≡ filter p rest = rw e refl in
          ((λ k. absurd (cc)), All-map_of rest (λ u h k. rw same (h k)) others)
    ]

settled_not_eligible :
    (organization_id start end new_id : ℕ) (t : Transaction)
    → is_eligible organization_id start end (settle_into new_id t) ≡ false
unfolding is_eligible
settled_not_eligible organization_id start end new_id t = ground arith

none_left :
    (p q : Transaction → Bool) (f : Transaction → Transaction) (transactions : List Transaction)
    → ((t : Transaction) → p (f t) ≡ false)
    → All (λ t. p t ≡ true → q t ≡ true) transactions
    → filter p (update_many q f transactions) ≡ []
unfolding update_many
none_left p q f [] clears all = refl
none_left p q f (t ∷ rest) clears all =
    let others = none_left p q f rest clears all.1 in
    elim (Bool-cases (q t)) [
      | inl e ↦ rw (e, clears t) others
      | inr e ↦ elim (Bool-cases (p t)) [
        | inl k ↦ let j = all.0 k in absurd (cc)
        | inr k ↦ rw (e, k) others
      ]
    ]

refuses_empty :
    (db : Database) (new_id : ℕ) (books : Books) (organization_id start end : ℕ)
    → filter (is_eligible organization_id start end) books.transactions ≡ []
    → is_ok (create_settlement db new_id books organization_id start end) ≡ false
unfolding create_settlement
refuses_empty db new_id books organization_id start end none_found =
    elim (Bool-cases (leb end start)) [
      | inl e ↦ rw (create_settlement, e) refl
      | inr e ↦ rw (create_settlement, e, none_found) refl
    ]

-- A settlement takes every transaction of its organization and range that is not settled: another
-- one for the same range, right after it, finds none and throws.
pub create_settlement-once :
    (db : Database) (new_id next_id : ℕ) (books : Books) (organization_id start end : ℕ)
    (s : Settlement) (after : Books)
    → create_settlement db new_id books organization_id start end ≡ ok (s, after)
    → (filter (is_eligible organization_id start end) after.transactions ≡ [])
      × (is_ok (create_settlement db next_id after organization_id start end) ≡ false)
unfolding create_settlement
create_settlement-once db new_id next_id books organization_id start end s after h =
    let p = is_eligible organization_id start end in
    let updated = (create_settlement-made db new_id books organization_id start end s after h).1 in
    let left : filter p after.transactions ≡ [] = rw updated (
      none_left p (settled_in (filter p books.transactions)) (settle_into new_id) books.transactions
        (settled_not_eligible organization_id start end new_id)
        (settled_in-filter p books.transactions)) in
    (left, refuses_empty db next_id after organization_id start end left)
