-- ===== src/Fees/Run.antt =====
-- apps/api/src/modules/fees: any sequence of the module's operations on the books of a shop.
mod Maps
use print_q.Base.{
  ◌≡◌, refl, subst, ℕ, Bool, true, false, Option, List, ◌∷◌, [], ◌++◌, map, includes, Result, ok,
  some, keep,
}
use print_q.Fees.{Statement, Books, FeePayment, FeeConfig}
use print_q.Fees.Enforcement.{run_fee_maintenance, evaluate_shop_fee_block, NoticeKey}
use print_q.Fees.Payments.{SettleInput, settle_fee_payment, FeeOrderResult}
use print_q.Fees.Payments.Balance.{IsKept, settle_fee_payment-IsKept}
use print_q.Fees.Stuck.{reconcile_each, reconcile_stuck_fee_orders, is_stale, open_fee_order}
use print_q.Fees.Reconcile.{
  FeeProvider, reconcile_fee_order, mark_fee_attempt_failed, mark_attempted,
}
use print_q.Commission.{StatementPeriod, freeze_weekly_commission_statement}
use print_q.Commission.Freeze.{Leaves}
use print_q.Commission.Kept.{freeze-IsKept}
use print_q.Fees.Run.Maps.{
  run_fee_maintenance-IsKept, open_fee_order-IsKept, reconcile_stuck-IsKept,
  reconcile_fee_order-IsKept, mark_fee_attempt_failed-IsKept, mark_attempted-IsKept,
}

-- The ids of the orders when the transaction of createFeeOrder begins.
abbrev pub ids_after : FeeConfig → FeeProvider → (payment_failed now fresh : ℕ) → Books → List ℕ
ids_after cfg provider payment_failed now fresh b =
    map (λ p. p.id)
      (reconcile_each cfg (some provider) payment_failed now fresh (keep (is_stale now) b.payments)
        b).1.payments

-- One call of the module: the webhook's settlement, a new order under an id that no order has, a
-- check with the provider, the periodic check of stuck orders, a failed or a started attempt, the
-- hourly maintenance, and the freeze of a weekly statement.
pub data FeeStep : Books → Books → Type 0 where
  settling :
      (cfg : FeeConfig) (now fresh : ℕ) (input : SettleInput) {b : Books}
      → FeeStep b (settle_fee_payment cfg now fresh input b).1
  ordering :
      (cfg : FeeConfig) (provider : FeeProvider)
      (payment_failed fresh id provider_order_id by rupee now : ℕ) (result : FeeOrderResult)
      {b b' : Books}
      → includes id (ids_after cfg provider payment_failed now fresh b) ≡ false
      → open_fee_order cfg (some provider) payment_failed fresh id provider_order_id by rupee now b
        ≡ ok (result, b')
      → FeeStep b b'
  checking :
      (cfg : FeeConfig) (provider : Option FeeProvider) (payment_failed now fresh : ℕ)
      (order : FeePayment) {b : Books}
      → FeeStep b (reconcile_fee_order cfg provider payment_failed now fresh order b).1
  sweeping :
      (cfg : FeeConfig) (provider : Option FeeProvider) (payment_failed now fresh : ℕ) {b : Books}
      → FeeStep b (reconcile_stuck_fee_orders cfg provider payment_failed now fresh b).1
  failing :
      (now order reason : ℕ) {b : Books} → FeeStep b (mark_fee_attempt_failed now order reason b).1
  attempting : (id : ℕ) {b : Books} → FeeStep b (mark_attempted id b)
  maintaining :
      (cfg : FeeConfig) (now : ℕ) (notices : List NoticeKey) {b : Books}
      → FeeStep b (run_fee_maintenance cfg now b notices).books
  freezing :
      (cfg : FeeConfig) (now id : ℕ) (period : StatementPeriod) (s : Option Statement)
      {b b' : Books}
      → freeze_weekly_commission_statement cfg now id period b ≡ ok (s, b')
      → FeeStep b b'

pub data FeeRun : Books → Books → Type 0 where
  done : {b : Books} → FeeRun b b
  step_then : {a b c : Books} → FeeStep a b → FeeRun b c → FeeRun a c

step-IsKept : {b c : Books} → FeeStep b c → IsKept b → IsKept c
step-IsKept (settling cfg now fresh input) k = settle_fee_payment-IsKept cfg now fresh input _ k
step-IsKept
      (ordering cfg provider payment_failed fresh id provider_order_id by rupee now result new e)
      k =
    open_fee_order-IsKept cfg provider payment_failed fresh id provider_order_id by rupee now result
      _ _ new e k
step-IsKept (sweeping cfg provider payment_failed now fresh) k =
    reconcile_stuck-IsKept cfg provider payment_failed now fresh _ k
step-IsKept (checking cfg provider payment_failed now fresh order) k =
    reconcile_fee_order-IsKept cfg provider payment_failed now fresh order _ k
step-IsKept (failing now order reason) k = mark_fee_attempt_failed-IsKept now order reason _ k
step-IsKept (attempting id) k = mark_attempted-IsKept id _ k
step-IsKept (maintaining cfg now notices) k = run_fee_maintenance-IsKept cfg now notices _ k
step-IsKept (freezing cfg now id period s {b} e) k =
    subst (Leaves (λ s c. IsKept c)) e (freeze-IsKept cfg now id period b k)

-- Whatever sequence of calls acts on the books of a shop, in any order and at any times: if they
-- are kept at first, they are kept at the end. No two orders share an id, every paise that was
-- collected is allocated or left over, no statement is paid beyond what it owes, and none is settled
-- for less.
pub run-IsKept : {b c : Books} → FeeRun b c → IsKept b → IsKept c
run-IsKept done k = k
run-IsKept (step_then s r) k = run-IsKept r (step-IsKept s k)
