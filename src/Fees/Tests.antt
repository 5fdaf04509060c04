-- ===== src/Fees/Tests.antt =====
-- The books of a shop with two unpaid statements, a week's commission and an open order, and the
-- theorems of the fees at them.
use print_q.Base.{
  ◌≡◌, ◌⊎◌, refl, ℕ, ◌&&◌, not, arith, any, is_some, true, false, none, some, [], ◌∷◌, pos, ◌+◌,
  ◌+ℤ◌, ◌*◌, false,
}
use print_q.Fees.{
  Books, Entry, Statement, FeePayment, FeeConfig, StatementStatus, frozen, print_commission,
  created, webhook, is_paid, left_over, owes_money, is_unpaid, unpaid_statements,
}
use print_q.Fees.Account.{
  compute_fee_account, statement_views, settled_statements, is_settled, view, accrued_paise,
  sum_entries,
}
use print_q.Base.Sorting.{sort}
use print_q.Fees.Enforcement.{run_fee_maintenance, evaluate_shop_fee_block, override_active}
use print_q.Fees.Enforcement.Block.{evaluate_shop_fee_block-blocked, is_overdue_shop}
use print_q.Fees.Payments.{
  SettleInput, settle_fee_payment, settle_order, settled_now, already_paid, order_of,
}
use print_q.Fees.Payments.Exact.{IsSound}
use print_q.Fees.Payments.Balance.{IsKept, collected}
use print_q.Fees.Payments.Once.{settle_fee_payment-once, IsPaidOrder}
use print_q.Fees.Payments.Clears.{settle_fee_payment-clears}
use print_q.Fees.Reconcile.{
  FeeProvider, captured, reconcile_fee_order, order_paid, is_capturable, reconcile_with,
  reconcile_loop, is_success,
}
use print_q.Fees.Reconcile.Evidence.{reconcile_fee_order-paid}
use print_q.Fees.Run.{done, step_then, settling, maintaining, run-IsKept}

abbrev terms : FeeConfig
terms = record { enabled = true; payment_terms_days = 7; overdue_block_after_days = 0 }

abbrev statement : ℕ → ℕ → Statement
statement id amount = record {
  id = id;
  period_start = id * 10;
  period_end = id * 10 + 10;
  gross_commission_paise = amount;
  credit_paise = 0;
  amount_due_paise = amount;
  paid_paise = 0;
  status = frozen;
  due_at = some 100;
  frozen_at = some 50;
  settled_at = none;
}

abbrev open_order : FeePayment
open_order = record {
  id = 21;
  provider = 1;
  provider_order_id = 77;
  provider_payment_id = none;
  requested_by_id = 3;
  amount_paise = 1_000;
  currency = 356;
  status = created;
  unallocated_paise = 0;
  created_at = 60;
  expires_at = 3_600_060;
  paid_at = none;
  failed_at = none;
  failure_reason = none;
  last_checked_at = none;
}

abbrev this_week : Entry
this_week = record {
  id = 31;
  kind = print_commission;
  amount_paise = pos 200;
  fee_payment_id = none;
  created_at = 90;
}

abbrev shop_books : Books
shop_books = record {
  fee_blocked_at = none;
  fee_block_reason = none;
  fee_block_override_until = none;
  statements = statement 2 300 ∷ statement 1 500 ∷ [];
  lines = [];
  entries = this_week ∷ [];
  payments = open_order ∷ [];
  allocations = [];
  events = [];
}

abbrev delivery : SettleInput
delivery = record {
  provider_order_id = 77;
  provider_payment_id = 88;
  amount_paise = 1_000;
  currency = 356;
  source = webhook;
}

shop_books-IsKept : IsKept shop_books
unfolding IsKept IsSound collected left_over is_paid
shop_books-IsKept = (
  (refl, tt),
  refl,
  ((omega arith, λ s. absurd (still_open s)), ((omega arith, λ s. absurd (still_open s)), tt)),
)
  where
    still_open : frozen ≡ StatementStatus.settled → ⊥
    still_open h = cc

run-IsKept_example :
    IsKept
      (run_fee_maintenance terms 95 (settle_fee_payment terms 90 41 delivery shop_books).1 []).books
run-IsKept_example =
    run-IsKept
      (step_then (settling terms 90 41 delivery) (step_then (maintaining terms 95 []) done))
      shop_books-IsKept

goes_through : (settle_fee_payment terms 90 41 delivery shop_books).0 ≡ settled_now
unfolding settle_fee_payment order_of settle_order is_paid
goes_through = refl

settle_fee_payment-once_example :
    let b' = (settle_fee_payment terms 90 41 delivery shop_books).1 in
    settle_fee_payment terms 99 42 delivery b' ≡ (already_paid, b')
settle_fee_payment-once_example =
    settle_fee_payment-once terms 90 41 99 42 delivery shop_books goes_through

total_of_books : 1_000 ≡ (compute_fee_account shop_books 90).total_due_paise
unfolding compute_fee_account statement_views sort unpaid_statements is_unpaid owes_money
    settled_statements is_settled view accrued_paise sum_entries ◌+ℤ◌ left_over
total_of_books = refl

order_found : order_of 77 shop_books.payments ≡ some open_order
unfolding order_of
order_found = refl

not_paid : is_paid open_order ≡ false
unfolding is_paid
not_paid = refl

settle_fee_payment-clears_example :
    let (outcome, b') = settle_fee_payment terms 90 41 delivery shop_books in
    (outcome ≡ settled_now) × ((compute_fee_account b' 120).total_due_paise ≡ 0)
settle_fee_payment-clears_example =
    settle_fee_payment-clears terms 90 120 41 delivery open_order shop_books shop_books-IsKept
      order_found not_paid total_of_books refl refl

evaluate_shop_fee_block-blocked_example :
    is_some (evaluate_shop_fee_block terms 120 shop_books).1.fee_blocked_at
    ≡ (is_overdue_shop terms 120 shop_books && not (override_active 120 none))
evaluate_shop_fee_block-blocked_example = evaluate_shop_fee_block-blocked terms 120 shop_books

abbrev provider : FeeProvider
provider = record {
  name = 1;
  fetch_order_payments = λ order.
      record { id = 88; order_id = order; amount_paise = 1_000; currency = 356; status = captured }
      ∷ [];
  verify_checkout_signature = λ a b c. true;
}

reported_paid :
    (reconcile_fee_order terms (some provider) 5 90 41 open_order shop_books).0 ≡ order_paid
unfolding reconcile_fee_order is_paid reconcile_with reconcile_loop is_capturable is_success
    settle_fee_payment order_of settle_order
reported_paid = refl

reconcile_fee_order-paid_example :
    (is_paid open_order ≡ true)
    ⊎ ((any (is_capturable open_order) (provider.fetch_order_payments 77) ≡ true)
        × IsPaidOrder 77
            (reconcile_fee_order terms (some provider) 5 90 41 open_order shop_books).1)
reconcile_fee_order-paid_example =
    reconcile_fee_order-paid terms provider 5 90 41 open_order shop_books reported_paid
