-- ===== src/Fees/Reconcile/Evidence.antt =====
-- apps/api/src/modules/fees/payments.ts: an order is reported as paid on evidence only.
use print_q.Base.{
  ◌≡◌, ◌≢◌, ◌⊎◌, refl, ℕ, ◌==◌, true, ◌&&◌, ◌||◌, not, some, List, [], ◌∷◌, any, Bool-cases, inl,
  inr,
}
use print_q.Fees.{Books, FeePayment, FeeConfig, is_paid, update_payment}
use print_q.Fees.Payments.{
  settle_fee_payment, SettleOutcome, settled_now, already_paid, unknown_order, mismatch, conflict,
}
use print_q.Fees.Payments.Once.{IsPaidOrder, settle_fee_payment-success}
use print_q.Fees.Reconcile.{
  reconcile_loop, reconcile_with, reconcile_fee_order, reconcile_input, is_capturable, is_success,
  FeeProvider, ProviderPayment, order_paid, order_pending, order_failed, check_row, is_refused,
  is_captured, is_authorized,
}

is_success-cases :
    (o : SettleOutcome) → is_success o ≡ true → (o ≡ settled_now) ⊎ (o ≡ already_paid)
unfolding is_success
is_success-cases settled_now h = inl refl
is_success-cases already_paid h = inr refl
is_success-cases unknown_order h = cc
is_success-cases mismatch h = cc
is_success-cases conflict h = cc

-- The loop succeeds only by a payment that can be captured, and then the order is paid.
reconcile_loop-paid :
    (cfg : FeeConfig) (now fresh : ℕ) (order : FeePayment) (ps : List ProviderPayment) (b : Books)
    → let (done, b') = reconcile_loop cfg now fresh order ps b in
      done ≡ true → (any (is_capturable order) ps ≡ true) × IsPaidOrder order.provider_order_id b'
unfolding reconcile_loop
reconcile_loop-paid cfg now fresh order [] b h = cc
reconcile_loop-paid cfg now fresh order (p ∷ ps) b h =
    let settled = settle_fee_payment cfg now fresh (reconcile_input order p) b in
    elim (Bool-cases (is_capturable order p)) [
      | inr e ↦ let rest = reconcile_loop-paid cfg now fresh order ps b (rw e at h) in rw e rest
      | inl e ↦ elim (Bool-cases (is_success settled.0)) [
        | inl f ↦
            rw (e, f)
              (
                refl,
                settle_fee_payment-success cfg now fresh (reconcile_input order p) b
                    (is_success-cases settled.0 f),
              )
        | inr f ↦
            let rest = reconcile_loop-paid cfg now fresh order ps settled.1 (rw (e, f) at h) in
            rw (e, f) (refl, rest.1)
      ]
    ]

reconcile_with-paid :
    (cfg : FeeConfig) (payment_failed now fresh : ℕ) (order : FeePayment)
    (ps : List ProviderPayment) (b : Books)
    → let (status, b') = reconcile_with cfg payment_failed now fresh order ps b in
      status ≡ order_paid
      → (any (is_capturable order) ps ≡ true) × IsPaidOrder order.provider_order_id b'
unfolding reconcile_with
reconcile_with-paid cfg payment_failed now fresh order ps b h =
    let checked = record b { payments = update_payment order.id (check_row now) b.payments } in
    let loop = reconcile_loop cfg now fresh order ps checked in
    elim (Bool-cases loop.0) [
      | inl e ↦ rw e (reconcile_loop-paid cfg now fresh order ps checked e)
      | inr e ↦
          elim (Bool-cases
            (any is_refused ps && not (any (λ p. is_captured p || is_authorized p) ps))) [
              | inl f ↦ absurd (not_failed (rw (e, f) at h))
              | inr f ↦ absurd (not_pending (rw (e, f) at h))
            ]
    ]
  where
    not_failed : order_failed ≢ order_paid
    not_failed k = cc

    not_pending : order_pending ≢ order_paid
    not_pending k = cc

-- An order is reported as paid on evidence only: either the row already said so, or the provider
-- reports a payment of this very order that is captured, or authorized for exactly its amount and
-- currency, and then the order's row is paid in the books that are left. Without a provider, or with
-- another one than the order's, the row decides.
pub reconcile_fee_order-paid :
    (cfg : FeeConfig) (provider : FeeProvider) (payment_failed now fresh : ℕ) (order : FeePayment)
    (b : Books)
    → let (status, b') = reconcile_fee_order cfg (some provider) payment_failed now fresh order b in
      status ≡ order_paid
      → (is_paid order ≡ true)
        ⊎ ((any (is_capturable order) (provider.fetch_order_payments order.provider_order_id)
              ≡ true)
            × IsPaidOrder order.provider_order_id b')
unfolding reconcile_fee_order
reconcile_fee_order-paid cfg provider payment_failed now fresh order b h =
    elim (Bool-cases (is_paid order)) [
      | inl e ↦ inl e
      | inr e ↦ elim (Bool-cases (provider.name == order.provider)) [
        | inr f ↦ absurd (not_pending (rw (e, f) at h))
        | inl f ↦ inr (
            rw (e, f)
              (reconcile_with-paid cfg payment_failed now fresh order
                (provider.fetch_order_payments order.provider_order_id) b (rw (e, f) at h)))
      ]
    ]
  where
    not_pending : order_pending ≢ order_paid
    not_pending k = cc
