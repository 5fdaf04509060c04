-- ===== src/Fees/Stuck.antt =====
-- apps/api/src/modules/fees/payments.ts: the loops that ask the provider about several orders:
-- reconcileStuckFeeOrders, and the first part of createFeeOrder. A failure of one order is caught
-- there and the loop goes on, so a provider that does not answer is one that reports no payment.
-- The settlement entries that the loop creates are numbered from `fresh`.
use print_q.Base.{
  ℕ, ◌+◌, ltb, leb, not, ◌&&◌, map, keep, take, if◌then◌else◌, Bool, true, false, Option, none,
  some, List, [], ◌∷◌, Result, throw,
}
use print_q.Base.Sorting.{sort}
use print_q.Fees.{
  Books, FeePayment, FeeConfig, is_paid, fee_reconcile_after_ms, fee_reconcile_max_age_ms,
}
use print_q.Fees.Payments.{
  is_open, expire_open, create_fee_order, FeeOrderResult, OrderError, fee_payments_disabled,
}
use print_q.Fees.Reconcile.{FeeProvider, FeeOrderStatus, order_paid, reconcile_fee_order}

abbrev pub is_order_paid : FeeOrderStatus → Bool
is_order_paid s = elim s [ order_paid ↦ true | _ ↦ false ]

-- One call for each order; the answer counts those that turned out to be paid.
unfoldable pub reconcile_each :
    FeeConfig
    → Option FeeProvider
    → (payment_failed now fresh : ℕ) → List FeePayment
    → Books
    → ℕ × Books
reconcile_each cfg provider payment_failed now fresh [] b = (0, b)
reconcile_each cfg provider payment_failed now fresh (o ∷ os) b =
    let one = reconcile_fee_order cfg provider payment_failed now fresh o b in
    let rest = reconcile_each cfg provider payment_failed now (fresh + 1) os one.1 in
    (if is_order_paid one.0 then rest.0 + 1 else rest.0, rest.1)

abbrev pub checked_before : ℕ → Option ℕ → Bool
checked_before now none = true
checked_before now (some t) = ltb (t + fee_reconcile_after_ms) now

-- The `where` of the query; the statuses are all but `paid`.
abbrev pub is_stuck : ℕ → FeePayment → Bool
is_stuck now p =
    not (is_paid p)
    && (ltb (p.created_at + fee_reconcile_after_ms) now
        && (ltb now (p.created_at + fee_reconcile_max_age_ms)
            && checked_before now p.last_checked_at))

abbrev pub older_order : FeePayment → FeePayment → Bool
older_order p q = leb p.created_at q.created_at

unfoldable pub stuck_orders : ℕ → List FeePayment → List FeePayment
stuck_orders now ps = take 50 (sort older_order (keep (is_stuck now) ps))

abbrev pub expire_late : ℕ → FeePayment → FeePayment
expire_late now p = if ltb p.expires_at now then expire_open p else p

unfoldable pub reconcile_stuck_fee_orders :
    FeeConfig → Option FeeProvider → (payment_failed now fresh : ℕ) → Books → ℕ × Books
reconcile_stuck_fee_orders cfg none payment_failed now fresh b = (0, b)
reconcile_stuck_fee_orders cfg (some provider) payment_failed now fresh b =
    let (settled, b') =
      reconcile_each cfg (some provider) payment_failed now fresh (stuck_orders now b.payments) b in
    (settled, record b' { payments = map (expire_late now) b'.payments })

-- `createdAt: { lt: now - 60_000 }` among the open orders.
abbrev pub is_stale : ℕ → FeePayment → Bool
is_stale now p = is_open p && ltb (p.created_at + 60_000) now

-- createFeeOrder whole: what the provider already captured is settled before the amount is computed.
unfoldable pub open_fee_order :
    FeeConfig
    → Option FeeProvider
    → (payment_failed fresh id provider_order_id by rupee now : ℕ) → Books
    → Result OrderError (FeeOrderResult × Books)
open_fee_order cfg none payment_failed fresh id provider_order_id by rupee now b =
    throw fee_payments_disabled
open_fee_order cfg (some provider) payment_failed fresh id provider_order_id by rupee now b =
    let b' =
      (reconcile_each cfg (some provider) payment_failed now fresh (keep (is_stale now) b.payments)
        b).1 in
    create_fee_order id provider.name provider_order_id by rupee now b'
