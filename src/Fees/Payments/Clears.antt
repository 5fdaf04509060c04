-- ===== src/Fees/Payments/Clears.antt =====
-- apps/api/src/modules/fees/payments.ts with account.ts: paying what the account asks for clears it.
use print_q.Base.{
  ◌≡◌, refl, ◌∙◌, ℕ, ◌+◌, ◌==◌, Bool, true, false, ◌&&◌, some, List, [], ◌∷◌, ◌++◌, map, find,
  sum_by, sum_by-append, arith, leb,
}
use print_q.Base.Sorting.{sum_by-sort}
use print_q.Fees.{
  Books, Statement, FeePayment, FeeConfig, outstanding, unpaid_statements, write_rows, is_paid,
  left_over,
}
use print_q.Fees.Account.{
  compute_fee_account, statement_views, view, settled_statements, accrued_paise,
}
use print_q.Fees.Payments.{
  pay_down, post_settlement, settle_order, settle_fee_payment, SettleInput, settled_now, mark_paid,
  order_of,
}
use print_q.Base.Updates.{sum_by-update}
use print_q.Fees.Payments.Exact.{pay_down-remaining}
use print_q.Fees.Payments.Balance.{IsKept, SameMoney, evaluate-SameMoney, post_settlement-IsKept}
use print_q.Fees.Payments.Cover.{unpaid_clear, settled_clear}

sum_by-views :
    (b : Books) (now : ℕ) (ss : List Statement)
    → sum_by (λ v. v.outstanding_paise) (map (view b now) ss) ≡ sum_by outstanding ss
unfolding view
sum_by-views b now [] = refl
sum_by-views b now (s ∷ ss) = omega (arith, sum_by-views b now ss)

-- The total due, as a sum.
total_due :
    (b : Books) (now : ℕ)
    → (compute_fee_account b now).total_due_paise
      ≡ sum_by outstanding (unpaid_statements b.statements)
        + sum_by outstanding (settled_statements b.statements)
        + accrued_paise b
unfolding compute_fee_account statement_views
total_due b now =
    let ss = unpaid_statements b.statements ++ settled_statements b.statements in
    omega (
      arith,
      sum_by-sort (λ v w. leb w.period_end v.period_end) (λ v. v.outstanding_paise)
          (map (view b now) ss),
      sum_by-views b now ss,
      sum_by-append outstanding (unpaid_statements b.statements) (settled_statements b.statements),
    )

total_due-SameMoney :
    (b c : Books) (now : ℕ)
    → SameMoney b c
    → (compute_fee_account c now).total_due_paise ≡ (compute_fee_account b now).total_due_paise
unfolding accrued_paise
total_due-SameMoney b c now (p, _, s, e, l) = rw (total_due c now, total_due b now, p, s, e, l) refl

post_settlement-clears :
    (now later fresh : ℕ) (input : SettleInput) (t : FeePayment → Bool) (p : FeePayment) (b : Books)
    → find t b.payments ≡ some p
    → is_paid p ≡ false
    → IsKept b
    → p.amount_paise ≡ (compute_fee_account b now).total_due_paise
    → (compute_fee_account (post_settlement now fresh input p b) later).total_due_paise ≡ 0
unfolding post_settlement IsKept accrued_paise left_over is_paid
post_settlement-clears now later fresh input t p b there unpaid kept exact =
    let (d, _, sound) = kept in
    let owed = unpaid_statements b.statements in
    let down = pay_down p.id now p.amount_paise owed in
    let g = mark_paid now input.provider_payment_id down.remaining in
    let nothing_over : left_over p ≡ 0 = rw unpaid refl in
    let left : left_over (g p) ≡ down.remaining = refl in
    let due = exact ∙ total_due b now in
    let after = post_settlement-IsKept now fresh input t p b there unpaid kept in
    total_due (post_settlement now fresh input p b) later
    ∙ omega (
      arith,
      due,
      nothing_over,
      left,
      pay_down-remaining p.id now p.amount_paise owed,
      sum_by-update (λ q. q.id) left_over g t b.payments p d there,
      unpaid_clear p.id now p.amount_paise b.statements (omega (arith, due)),
      settled_clear (write_rows down.rows b.statements) after.2,
    )

-- Paying what the account asks for clears the account: if an open order is for exactly the total
-- due, then a captured payment of its amount in its currency settles it, and from then on nothing
-- is due, neither on a statement nor for the current week.
pub settle_fee_payment-clears :
    (cfg : FeeConfig) (now later fresh : ℕ) (input : SettleInput) (p : FeePayment) (b : Books)
    → IsKept b
    → order_of input.provider_order_id b.payments ≡ some p
    → is_paid p ≡ false
    → p.amount_paise ≡ (compute_fee_account b now).total_due_paise
    → input.amount_paise ≡ p.amount_paise
    → input.currency ≡ p.currency
    → let (outcome, b') = settle_fee_payment cfg now fresh input b in
      (outcome ≡ settled_now) × ((compute_fee_account b' later).total_due_paise ≡ 0)
unfolding settle_fee_payment settle_order order_of
settle_fee_payment-clears cfg now later fresh input p b kept there unpaid exact amount currency =
    let posted = post_settlement now fresh input p b in
    let matches : (input.amount_paise == p.amount_paise && input.currency == p.currency) ≡ true =
      rw (amount, currency, same_id p.amount_paise, same_id p.currency) refl in
    rw (there, settle_fee_payment, unpaid, matches)
      (
        refl,
        total_due-SameMoney posted _ later (evaluate-SameMoney cfg now posted)
            ∙ post_settlement-clears now later fresh input
                (λ q. q.provider_order_id == input.provider_order_id) p b there unpaid kept exact,
      )
  where
    same_id : (i : ℕ) → (i == i) ≡ true
    same_id i = ground arith
