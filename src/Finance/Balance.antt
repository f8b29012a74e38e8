-- ===== src/Finance/Balance.antt =====
-- The operations of backend/src/finance keep the ledger balanced.
use playhub_playbooking.Common.{
  >>=-eq-ok, Bool, Option, Option-cases, [], ap, arith, find, if-eq, inl, inr, ltb, ok, opt_eq,
  or_throw-eq-ok, refl, some, state_of_ok, subst, sym, throw_if-eq-ok, ℕ, ◌+◌, ◌==◌, ◌>>=◌, ◌∷◌,
  ◌≡◌,
}
use playhub_playbooking.Common.Database.{Database, update_row}
use playhub_playbooking.Common.Int.{pos, ◌+ℤ◌}
use playhub_playbooking.Finance.{cr, create_transaction, dr, post}
use playhub_playbooking.Finance.Ledger.{
  IsBalanced, create_transaction-IsBalanced, line_credits, line_debits, post-IsBalanced,
}
use playhub_playbooking.Finance.Payouts.{
  end_payout, initiate_payout, initiate_payout-made, payout_lines, payout_row, post_for_payout,
}
use playhub_playbooking.Finance.Records.{
  AdjustmentDirection, adjustment_lines, adjustment_row, credit, debit, has_key, has_type,
  payment_lines, payment_transaction, percentage_or_default, record_adjustment, record_payment,
  record_refund, refund_lines, refund_row, refunded_so_far,
}
use playhub_playbooking.Finance.Types.{
  Account, Books, Payout, PayoutStatus, Transaction, adjustment_expense, adjustment_income,
  partner_payable, pay_key, payment_made, payout_pending,
}
use playhub_playbooking.Schema.{Payment}

payment_lines_even :
    (amount commission : ℕ)
    → line_debits (payment_lines amount commission) ≡ line_credits (payment_lines amount commission)
unfolding ◌+ℤ◌
payment_lines_even amount commission = ground arith

refund_lines_even :
    (amount reversed : ℕ)
    → line_debits (refund_lines amount reversed) ≡ line_credits (refund_lines amount reversed)
unfolding ◌+ℤ◌
refund_lines_even amount reversed = ground arith

-- A debit of one account and the same credit of another.
pair_even :
    (a b : Account) (amount : ℕ)
    → line_debits (dr a (pos amount) ∷ cr b (pos amount) ∷ [])
      ≡ line_credits (dr a (pos amount) ∷ cr b (pos amount) ∷ [])
unfolding ◌+ℤ◌
pair_even a b amount = ground arith

pub record_payment-IsBalanced :
    (db : Database) (now new_id : ℕ) (books : Books) (payment_id organization_id amount : ℕ)
    (t : Transaction) (after : Books)
    → IsBalanced books.ledger
    → record_payment db now new_id books payment_id organization_id amount ≡ ok (t, after)
    → IsBalanced after.ledger
unfolding record_payment
record_payment-IsBalanced db now new_id books payment_id organization_id amount t after balanced h =
    let p = has_key (pay_key payment_id) in
    let u = payment_transaction now new_id books payment_id organization_id amount in
    let lines = payment_lines amount u.commission in
    elim (Option-cases (db.find_first p books.transactions)) [
      | inl e ↦
          let k : (create_transaction db u lines books >>= λ after. ok (u, after)) ≡ ok (t, after) =
            rw (record_payment, e) at h in
          let (made, em, k1) = >>=-eq-ok (create_transaction db u lines books) _ k in
          subst (λ (b : Books). IsBalanced b.ledger) (state_of_ok u t made after k1)
            (create_transaction-IsBalanced db u lines books made
              (payment_lines_even amount u.commission) balanced em)
      | inr (x, e) ↦
          let k : ok (x, books) ≡ ok (t, after) = rw (record_payment, e) at h in
          subst (λ (b : Books). IsBalanced b.ledger) (state_of_ok x t books after k) balanced
    ]

pub record_refund-IsBalanced :
    (db : Database) (now new_id : ℕ) (books : Books) (payment_id organization_id amount : ℕ)
    (t : Transaction) (after : Books)
    → IsBalanced books.ledger
    → record_refund db now new_id books payment_id organization_id amount ≡ ok (t, after)
    → IsBalanced after.ledger
unfolding record_refund
record_refund-IsBalanced db now new_id books payment_id organization_id amount t after balanced h =
    let p = λ (p : Payment). p.id == payment_id in
    let (payment, ep, h1) = or_throw-eq-ok (db.find_first p books.payments) _ _ h in
    let (original, eo, h2) =
      or_throw-eq-ok (find (has_type payment_made payment_id) books.transactions) _ _ h1 in
    let so_far = refunded_so_far payment_id books.transactions in
    let (bounded, h3) = throw_if-eq-ok (ltb (payment.amount + 1) (so_far + amount)) _ _ h2 in
    let percentage = percentage_or_default original.commission_percentage in
    let u = refund_row now new_id payment_id organization_id amount percentage so_far in
    let lines = refund_lines amount u.commission in
    let (made, em, h4) = >>=-eq-ok (create_transaction db u lines books) _ h3 in
    subst (λ (b : Books). IsBalanced b.ledger) (state_of_ok u t made after h4)
      (create_transaction-IsBalanced db u lines books made (refund_lines_even amount u.commission)
        balanced em)

pub record_adjustment-IsBalanced :
    (db : Database) (now new_id key : ℕ) (books : Books) (organization_id amount : ℕ)
    (direction : AdjustmentDirection) (t : Transaction) (after : Books)
    → IsBalanced books.ledger
    → record_adjustment db now new_id key books organization_id amount direction ≡ ok (t, after)
    → IsBalanced after.ledger
unfolding record_adjustment
record_adjustment-IsBalanced db now new_id key books organization_id amount direction t after
      balanced h =
    let u = adjustment_row now new_id key organization_id amount in
    let lines = adjustment_lines direction amount in
    let (made, em, h1) = >>=-eq-ok (create_transaction db u lines books) _ h in
    subst (λ (b : Books). IsBalanced b.ledger) (state_of_ok u t made after h1)
      (create_transaction-IsBalanced db u lines books made (even direction) balanced em)
  where
    even :
        (d : AdjustmentDirection)
        → line_debits (adjustment_lines d amount) ≡ line_credits (adjustment_lines d amount)
    even credit = pair_even adjustment_expense partner_payable amount
    even debit = pair_even partner_payable adjustment_income amount

pub initiate_payout-IsBalanced :
    (db : Database) (now new_id payout_id : ℕ) (books : Books) (organization_id amount : ℕ)
    (settlement_id : Option ℕ) (p : Payout) (after : Books)
    → IsBalanced books.ledger
    → initiate_payout db now new_id payout_id books organization_id amount settlement_id
      ≡ ok (p, after)
    → IsBalanced after.ledger
initiate_payout-IsBalanced db now new_id payout_id books organization_id amount settlement_id p
      after balanced h =
    let u = payout_row now new_id payout_id organization_id amount settlement_id in
    let (covered, (made, em, same, _)) =
      initiate_payout-made db now new_id payout_id books organization_id amount settlement_id p
        after h in
    subst IsBalanced same (
      create_transaction-IsBalanced db u (payout_lines amount) books made
        (pair_even partner_payable payout_pending amount) balanced em)

post_for_payout-IsBalanced :
    (db : Database) (payout : Payout) (account : Account) (books : Books)
    → IsBalanced books.ledger
    → IsBalanced (post_for_payout db payout account books)
unfolding post_for_payout
post_for_payout-IsBalanced db payout account books balanced =
    let q = λ (t : Transaction). opt_eq t.payout_id (some payout.id) in
    elim (Option-cases (db.find_first q books.transactions)) [
      | inl e ↦
          let same : post_for_payout db payout account books ≡ books.ledger =
            rw (post_for_payout, e) refl in
          subst IsBalanced (sym same) balanced
      | inr (t, e) ↦
          let lines = dr payout_pending (pos payout.amount) ∷ cr account (pos payout.amount) ∷ [] in
          let same : post_for_payout db payout account books
              ≡ post t.id payout.organization_id lines books.ledger =
            rw (post_for_payout, e) refl in
          subst IsBalanced (sym same) (
            post-IsBalanced t.id payout.organization_id lines books.ledger
              (pair_even payout_pending account payout.amount) balanced)
    ]

pub end_payout-IsBalanced :
    (db : Database) (books : Books) (payout_id : ℕ) (status : PayoutStatus) (account : Account)
    (is_done : PayoutStatus → Bool) (p : Payout) (after : Books)
    → IsBalanced books.ledger
    → end_payout db books payout_id status account is_done ≡ ok (p, after)
    → IsBalanced after.ledger
unfolding end_payout
end_payout-IsBalanced db books payout_id status account is_done p after balanced h =
    let q = λ (p : Payout). p.id == payout_id in
    let (payout, ep, h1) = or_throw-eq-ok (db.find_first q books.payouts) _ _ h in
    elim (if-eq (is_done payout.status) (ok (payout, books)) _ h1) [
      | inl (_, e) ↦
          subst (λ (b : Books). IsBalanced b.ledger) (state_of_ok payout p books after e) balanced
      | inr (_, e) ↦
          let change = λ (p : Payout). record p { status = status } in
          let (r, er, h2) = >>=-eq-ok (update_row db q change books.payouts) _ e in
          let same : post_for_payout db payout account books ≡ after.ledger =
            ap (λ (b : Books). b.ledger) (state_of_ok r.0 p _ after h2) in
          subst IsBalanced same (post_for_payout-IsBalanced db payout account books balanced)
    ]
