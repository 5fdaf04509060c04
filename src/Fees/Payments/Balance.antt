-- ===== src/Fees/Payments/Balance.antt =====
-- apps/api/src/modules/fees/payments.ts: the invariant of a shop's fee books, kept by a settlement.
use print_q.Base.{
  ◌≡◌, refl, ℕ, ◌+◌, ◌==◌, Bool, true, false, ◌&&◌, Option, none, some, map, find, sum_by, All,
  Distinct, if◌then◌else◌, Bool-cases, Option-cases, inl, inr, arith, sum_by-append,
}
use print_q.Base.Updates.{sum_by-update, update-ids}
use print_q.Fees.{Books, Statement, FeePayment, FeeConfig, unpaid_statements, is_paid, left_over}
use print_q.Fees.Enforcement.{
  evaluate_shop_fee_block, decide_block, block_shop, unblock_shop, overdue_statement,
  override_active,
}
use print_q.Fees.Payments.{
  pay_down, post_settlement, settle_order, settle_fee_payment, SettleInput, mark_paid, order_of,
}
use print_q.Fees.Payments.Exact.{
  allocated, pay_down-allocated, IsSound, pay_down-IsSound, write_rows-All, unpaid_statements-All,
}

-- The amount of a payment that went through.
unfoldable pub collected : FeePayment → ℕ
collected p = if is_paid p then p.amount_paise else 0

-- Every paise that the shop paid is on a statement or left over.
abbrev pub IsBalanced : Books → Type 0
IsBalanced b = sum_by collected b.payments ≡ allocated b.allocations + sum_by left_over b.payments

-- No two orders have the same id, the money balances, and no statement is paid beyond what it owes.
unfoldable pub IsKept : Books → Type 0
IsKept b = Distinct (map (λ p. p.id) b.payments) × IsBalanced b × All IsSound b.statements

-- The evaluation of a block moves no money.
abbrev pub SameMoney : Books → Books → Type 0
SameMoney b c =
    (c.payments ≡ b.payments)
    × (c.allocations ≡ b.allocations)
    × (c.statements ≡ b.statements)
    × (c.entries ≡ b.entries)
    × (c.lines ≡ b.lines)

decide_block-SameMoney :
    (s : Option Statement) (o : Bool) (t : Option ℕ) (now : ℕ) (b : Books)
    → SameMoney b (decide_block s o t now b).1
unfolding decide_block block_shop unblock_shop
decide_block-SameMoney (some s) false none now b = (refl, refl, refl, refl, refl)
decide_block-SameMoney (some s) true none now b = (refl, refl, refl, refl, refl)
decide_block-SameMoney none o none now b = (refl, refl, refl, refl, refl)
decide_block-SameMoney none o (some t) now b = (refl, refl, refl, refl, refl)
decide_block-SameMoney (some s) true (some t) now b = (refl, refl, refl, refl, refl)
decide_block-SameMoney (some s) false (some t) now b = (refl, refl, refl, refl, refl)

pub evaluate-SameMoney :
    (cfg : FeeConfig) (now : ℕ) (b : Books) → SameMoney b (evaluate_shop_fee_block cfg now b).1
unfolding evaluate_shop_fee_block
evaluate-SameMoney cfg now b =
    decide_block-SameMoney (overdue_statement cfg now b.statements)
      (override_active now b.fee_block_override_until) b.fee_blocked_at now b

pub SameMoney-IsKept : (b c : Books) → SameMoney b c → IsKept b → IsKept c
unfolding IsKept
SameMoney-IsKept b c (p, a, s, _, _) k = rw (p, a, s) k

pub post_settlement-IsKept :
    (now fresh : ℕ) (input : SettleInput) (t : FeePayment → Bool) (p : FeePayment) (b : Books)
    → find t b.payments ≡ some p
    → is_paid p ≡ false
    → IsKept b
    → IsKept (post_settlement now fresh input p b)
unfolding post_settlement IsKept collected left_over is_paid
post_settlement-IsKept now fresh input t p b there unpaid (d, balanced, sound) =
    let down = pay_down p.id now p.amount_paise (unpaid_statements b.statements) in
    let g = mark_paid now input.provider_payment_id down.remaining in
    let paid_in = sum_by-update (λ q. q.id) collected g t b.payments p d there in
    let over = sum_by-update (λ q. q.id) left_over g t b.payments p d there in
    let nothing : collected p ≡ 0 = rw unpaid refl in
    let nothing_over : left_over p ≡ 0 = rw unpaid refl in
    let all_in : collected (g p) ≡ p.amount_paise = refl in
    let left : left_over (g p) ≡ down.remaining = refl in
    (
      rw (update-ids (λ q. q.id) p.id g b.payments (λ q. refl)) d,
      rw (sum_by-append (λ a. a.amount_paise) down.allocations b.allocations) (
          omega (
            arith,
            paid_in,
            over,
            nothing,
            nothing_over,
            all_in,
            left,
            pay_down-allocated p.id now p.amount_paise (unpaid_statements b.statements),
          )),
      write_rows-All IsSound down.rows b.statements
          (pay_down-IsSound p.id now p.amount_paise (unpaid_statements b.statements)
            (unpaid_statements-All IsSound b.statements sound))
          sound,
    )

settle_order-IsKept :
    (cfg : FeeConfig) (now fresh : ℕ) (input : SettleInput) (t : FeePayment → Bool) (p : FeePayment)
    (b : Books)
    → find t b.payments ≡ some p
    → IsKept b
    → IsKept (settle_order cfg now fresh input p b).1
unfolding settle_order
settle_order-IsKept cfg now fresh input t p b there k = elim (Bool-cases (is_paid p)) [
  | inl e ↦ rw e k
  | inr e ↦
      elim (Bool-cases (input.amount_paise == p.amount_paise && input.currency == p.currency)) [
        | inr f ↦ rw (e, f) (SameMoney-IsKept b _ (refl, refl, refl, refl, refl) k)
        | inl f ↦
            rw (e, f)
              (SameMoney-IsKept (post_settlement now fresh input p b) _
                (evaluate-SameMoney cfg now (post_settlement now fresh input p b))
                (post_settlement-IsKept now fresh input t p b there e k))
      ]
]

-- A settlement keeps the books, whatever its outcome is: no two orders get the same id, what was
-- collected is what is allocated to statements and what is left over, to the paise, and no statement
-- is paid beyond what it owes, nor settled for less.
pub settle_fee_payment-IsKept :
    (cfg : FeeConfig) (now fresh : ℕ) (input : SettleInput) (b : Books)
    → IsKept b
    → IsKept (settle_fee_payment cfg now fresh input b).1
unfolding settle_fee_payment order_of
settle_fee_payment-IsKept cfg now fresh input b k =
    elim (Option-cases (order_of input.provider_order_id b.payments)) [
      | inl e ↦ rw (e, settle_fee_payment) k
      | inr (p, e) ↦
          rw (e, settle_fee_payment)
            (settle_order-IsKept cfg now fresh input
              (λ q. q.provider_order_id == input.provider_order_id) p b e k)
    ]
