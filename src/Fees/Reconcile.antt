-- ===== src/Fees/Reconcile.antt =====
-- apps/api/src/modules/fees/payments.ts: what follows the creation of an order: a failed attempt, the
-- check of an order with the provider, the checkout callback, the mock payment and the periodic job.
-- The provider is a parameter: its name, the payments it reports for an order, and its check of a
-- checkout signature. A capture of an authorized payment is taken to succeed; where it throws, so
-- does the source, before any write.
pub mod Evidence
use print_q.Base.{
  ◌+◌, ltb, leb, ◌==◌, find, any, map, ◌&&◌, ◌||◌, not, ◌++◌, or_else, keep, take, if◌then◌else◌, ℕ,
  Bool, true, false, Option, none, some, List, [], ◌∷◌, Result, ok, throw,
}
use print_q.Base.Sorting.{sort}
use print_q.Fees.{
  Books, FeePayment, FeePaymentStatus, created, attempted, paid, attempt_failed, expired, FeeConfig,
  reconcile, mock, update_payment, is_paid, fee_reconcile_after_ms, fee_reconcile_max_age_ms,
}
use print_q.Fees.Payments.{
  SettleInput, SettleOutcome, settled_now, already_paid, settle_fee_payment, order_of, is_open,
  expire_open,
}

pub data ProviderStatus : Type 0 where
  captured authorized refused other_status : ProviderStatus

pub record ProviderPayment : Type 0 where
  pub id : ℕ
  pub order_id : ℕ
  pub amount_paise : ℕ
  pub currency : ℕ
  pub status : ProviderStatus

pub record FeeProvider : Type 0 where
  pub name : ℕ
  pub fetch_order_payments : ℕ → List ProviderPayment
  pub verify_checkout_signature : ℕ → ℕ → ℕ → Bool

pub data FeeOrderStatus : Type 0 where
  order_paid order_pending order_failed : FeeOrderStatus

abbrev pub is_attempt : FeePayment → Bool
is_attempt p = elim p.status [ created ↦ true | attempted ↦ true | _ ↦ false ]

abbrev pub fail_row : ℕ → ℕ → FeePayment → FeePayment
fail_row now reason p = record p {
  status = attempt_failed;
  failed_at = some now;
  failure_reason = some reason;
}

-- `where: { providerOrderId, status: { in: ['created', 'attempted'] } }`.
unfoldable pub mark_fee_attempt_failed : (now order reason : ℕ) → Books → Bool × Books
mark_fee_attempt_failed now order reason b =
    let hit : FeePayment → Bool = λ p. p.provider_order_id == order && is_attempt p in
    (
      any hit b.payments,
      record b { payments = map (λ p. if hit p then fail_row now reason p else p) b.payments },
    )

abbrev pub is_created : FeePayment → Bool
is_created p = elim p.status [ created ↦ true | _ ↦ false ]

unfoldable pub mark_attempted : ℕ → Books → Books
mark_attempted id b = record b {
  payments =
      map (λ p. if p.id == id && is_created p then record p { status = attempted } else p)
        b.payments;
}

abbrev pub is_captured : ProviderPayment → Bool
is_captured p = elim p.status [ captured ↦ true | _ ↦ false ]

abbrev pub is_authorized : ProviderPayment → Bool
is_authorized p = elim p.status [ authorized ↦ true | _ ↦ false ]

abbrev pub is_refused : ProviderPayment → Bool
is_refused p = elim p.status [ refused ↦ true | _ ↦ false ]

-- A payment of this order that is captured, or that can be: authorized for exactly its amount.
unfoldable pub is_capturable : FeePayment → ProviderPayment → Bool
is_capturable order p =
    p.order_id == order.provider_order_id
    && (is_captured p
        || (is_authorized p
            && p.amount_paise == order.amount_paise
            && p.currency == order.currency))

abbrev pub reconcile_input : FeePayment → ProviderPayment → SettleInput
reconcile_input order p = record {
  provider_order_id = order.provider_order_id;
  provider_payment_id = p.id;
  amount_paise = p.amount_paise;
  currency = p.currency;
  source = reconcile;
}

unfoldable pub is_success : SettleOutcome → Bool
is_success settled_now = true
is_success already_paid = true
is_success _ = false

-- The loop over the payments that the provider reports; it ends at the first that settles the
-- order, so one fresh entry id serves.
unfoldable pub reconcile_loop :
    FeeConfig → ℕ → ℕ → FeePayment → List ProviderPayment → Books → Bool × Books
reconcile_loop cfg now fresh order [] b = (false, b)
reconcile_loop cfg now fresh order (p ∷ ps) b =
    let (outcome, b') = settle_fee_payment cfg now fresh (reconcile_input order p) b in
    let skip = reconcile_loop cfg now fresh order ps b in
    let next = reconcile_loop cfg now fresh order ps b' in
    if not (is_capturable order p) then skip else if is_success outcome then (true, b') else next

abbrev pub check_row : ℕ → FeePayment → FeePayment
check_row now p = record p { last_checked_at = some now }

-- `payment_failed` is the reason that the source gives.
unfoldable pub reconcile_with :
    FeeConfig
    → (payment_failed now fresh : ℕ) → FeePayment
    → List ProviderPayment
    → Books
    → FeeOrderStatus × Books
reconcile_with cfg payment_failed now fresh order reported b =
    let checked = record b { payments = update_payment order.id (check_row now) b.payments } in
    let (done, b') = reconcile_loop cfg now fresh order reported checked in
    if done
    then (order_paid, b')
    else if any is_refused reported && not (any (λ p. is_captured p || is_authorized p) reported)
    then (order_failed, (mark_fee_attempt_failed now order.provider_order_id payment_failed b').1)
    else (order_pending, b')

unfoldable pub reconcile_fee_order :
    FeeConfig
    → Option FeeProvider
    → (payment_failed now fresh : ℕ) → FeePayment
    → Books
    → FeeOrderStatus × Books
reconcile_fee_order cfg none payment_failed now fresh order b =
    (if is_paid order then order_paid else order_pending, b)
reconcile_fee_order cfg (some provider) payment_failed now fresh order b =
    let reported = provider.fetch_order_payments order.provider_order_id in
    if is_paid order
    then (order_paid, b)
    else if not (provider.name == order.provider)
    then (order_pending, b)
    else reconcile_with cfg payment_failed now fresh order reported b

pub data CheckoutError : Type 0 where
  payments_disabled order_not_found bad_signature : CheckoutError

-- The shop's own orders are those of its books: another shop's order is not found.
unfoldable pub verify_fee_checkout :
    FeeConfig
    → Option FeeProvider
    → (payment_failed now fresh : ℕ) → (order_id payment_id signature : ℕ) → Books
    → Result CheckoutError (FeeOrderStatus × Books)
verify_fee_checkout cfg none payment_failed now fresh order_id payment_id signature b =
    throw payments_disabled
verify_fee_checkout cfg (some provider) payment_failed now fresh order_id payment_id signature b =
    elim (order_of order_id b.payments) [
      | none ↦ throw order_not_found
      | some order ↦
          let b' = mark_attempted order.id b in
          let row = or_else (find (λ p. p.id == order.id) b'.payments) order in
          if not (provider.verify_checkout_signature order_id payment_id signature)
          then throw bad_signature
          else ok (reconcile_fee_order cfg (some provider) payment_failed now fresh row b')
    ]

-- `mock_name` is the name of the mock provider, `made_up` the id of the payment that it makes up.
unfoldable pub mock_pay_fee_order :
    FeeConfig
    → Option FeeProvider
    → (mock_name made_up now fresh payment_id : ℕ) → Books
    → Result CheckoutError (SettleOutcome × Books)
mock_pay_fee_order cfg none mock_name made_up now fresh payment_id b = throw order_not_found
mock_pay_fee_order cfg (some provider) mock_name made_up now fresh payment_id b =
    if not (provider.name == mock_name)
    then throw order_not_found
    else elim (find (λ p. p.id == payment_id) b.payments) [
      | none ↦ throw order_not_found
      | some order ↦
          if is_paid order
          then ok (already_paid, b)
          else ok (
              settle_fee_payment cfg now fresh
                (record {
                  provider_order_id = order.provider_order_id;
                  provider_payment_id = made_up;
                  amount_paise = order.amount_paise;
                  currency = order.currency;
                  source = mock;
                })
                b)
    ]
