-- ===== src/Fees/Payments/Once.antt =====
-- apps/api/src/modules/fees/payments.ts: an order is settled once, and an outcome other than a
-- settlement moves no money.
use print_q.Base.{
  ◌≡◌, ◌≢◌, ◌⊎◌, refl, sym, ◌∙◌, ap, subst, ℕ, ◌==◌, true, ◌&&◌, some, List, [], ◌∷◌, find,
  Bool-cases, Option-cases, inl, inr, arith, opt_eq, if◌then◌else◌,
}
use print_q.Fees.{Books, FeePayment, FeeConfig, is_paid, update_payment}
use print_q.Fees.Payments.{
  post_settlement, settle_order, settle_fee_payment, SettleInput, mark_paid, order_of, settled_now,
  already_paid, unknown_order, mismatch, conflict,
}
use print_q.Fees.Payments.Balance.{evaluate-SameMoney}

-- The order that a settlement found, after the update.
order_of-update :
    (id order : ℕ) (g : FeePayment → FeePayment) (ps : List FeePayment) (p : FeePayment)
    → ((q : FeePayment) → (g q).provider_order_id ≡ q.provider_order_id)
    → order_of order ps ≡ some p
    → order_of order (update_payment id g ps) ≡ some (if p.id == id then g p else p)
unfolding order_of
order_of-update id order g [] p h e = cc
order_of-update id order g (q ∷ qs) p h e = elim (Bool-cases (q.provider_order_id == order)) [
  | inl f ↦
      let same : q ≡ p = ground arith in
      subst
        (λ r.
          find (λ x. x.provider_order_id == order) (update_payment id g (q ∷ qs))
          ≡ some (if r.id == id then g r else r))
        same (first f)
  | inr f ↦
      let later : order_of order qs ≡ some p = ground arith in
      elim (Bool-cases (q.id == id)) [
        | inl k ↦ rw (k, h q, f) (order_of-update id order g qs p h later)
        | inr k ↦ rw (k, f) (order_of-update id order g qs p h later)
      ]
]
  where
    first :
        (q.provider_order_id == order) ≡ true
        → find (λ x. x.provider_order_id == order) (update_payment id g (q ∷ qs))
          ≡ some (if q.id == id then g q else q)
    first f = elim (Bool-cases (q.id == id)) [
      | inl k ↦ rw (k, h q, f) refl
      | inr k ↦ rw (k, f) refl
    ]

settle_order-paid :
    (cfg : FeeConfig) (now fresh : ℕ) (input : SettleInput) (p : FeePayment) (b : Books)
    → is_paid p ≡ true
    → p.provider_payment_id ≡ some input.provider_payment_id
    → settle_order cfg now fresh input p b ≡ (already_paid, b)
unfolding settle_order
settle_order-paid cfg now fresh input p b e f = rw (e, f, self input.provider_payment_id) refl
  where
    self : (i : ℕ) → (i == i) ≡ true
    self i = ground arith

-- What a settlement that goes through leaves in the table of the orders.
settle_order-payments :
    (cfg : FeeConfig) (now fresh : ℕ) (input : SettleInput) (p : FeePayment) (b : Books)
    → (settle_order cfg now fresh input p b).0 ≡ settled_now
    → (r : ℕ) × ((settle_order cfg now fresh input p b).1.payments
        ≡ update_payment p.id (mark_paid now input.provider_payment_id r) b.payments)
unfolding settle_order post_settlement
settle_order-payments cfg now fresh input p b done = elim (Bool-cases (is_paid p)) [
  | inl e ↦ elim (Bool-cases (opt_eq p.provider_payment_id (some input.provider_payment_id))) [
    | inl f ↦ absurd (not_paid (rw (e, f) at done))
    | inr f ↦ absurd (not_conflict (rw (e, f) at done))
  ]
  | inr e ↦
      elim (Bool-cases (input.amount_paise == p.amount_paise && input.currency == p.currency)) [
        | inr f ↦ absurd (not_mismatch (rw (e, f) at done))
        | inl f ↦
            rw (e, f) (_, (evaluate-SameMoney cfg now (post_settlement now fresh input p b)).0)
      ]
]
  where
    not_paid : already_paid ≢ settled_now
    not_paid h = cc

    not_conflict : conflict ≢ settled_now
    not_conflict h = cc

    not_mismatch : mismatch ≢ settled_now
    not_mismatch h = cc

settle_found :
    (cfg : FeeConfig) (now fresh : ℕ) (input : SettleInput) (p : FeePayment) (b : Books)
    → order_of input.provider_order_id b.payments ≡ some p
    → settle_fee_payment cfg now fresh input b ≡ settle_order cfg now fresh input p b
unfolding settle_fee_payment
settle_found cfg now fresh input p b e = rw (e, settle_fee_payment) refl

-- The row that a settlement leaves.
settled_row :
    (now r order : ℕ) (pay : ℕ) (p : FeePayment) (ps : List FeePayment) (c : Books)
    → order_of order ps ≡ some p
    → c.payments ≡ update_payment p.id (mark_paid now pay r) ps
    → order_of order c.payments ≡ some (mark_paid now pay r p)
settled_row now r order pay p ps c there same =
    let g = mark_paid now pay r in
    rw (same, order_of-update p.id order g ps p (λ q. refl) there) (rw (same_id p.id) refl)
  where
    same_id : (i : ℕ) → (i == i) ≡ true
    same_id i = ground arith

settled_again :
    (cfg : FeeConfig) (now fresh r order : ℕ) (input : SettleInput) (p : FeePayment)
    (ps : List FeePayment) (c : Books)
    → order_of input.provider_order_id ps ≡ some p
    → c.payments ≡ update_payment p.id (mark_paid now input.provider_payment_id r) ps
    → settle_fee_payment cfg order fresh input c ≡ (already_paid, c)
unfolding is_paid
settled_again cfg now fresh r order input p ps c there same =
    let row = mark_paid now input.provider_payment_id r p in
    let found =
      settled_row now r input.provider_order_id input.provider_payment_id p ps c there same in
    settle_found cfg order fresh input row c found
    ∙ settle_order-paid cfg order fresh input row c refl refl

-- Duplicate deliveries are no-ops: after a settlement that went through, another delivery of the
-- same payment for the same order, at any later time, answers that it was already paid and changes
-- nothing at all.
pub settle_fee_payment-once :
    (cfg : FeeConfig) (now fresh later fresh' : ℕ) (input : SettleInput) (b : Books)
    → (settle_fee_payment cfg now fresh input b).0 ≡ settled_now
    → let b' = (settle_fee_payment cfg now fresh input b).1 in
      settle_fee_payment cfg later fresh' input b' ≡ (already_paid, b')
unfolding settle_fee_payment
settle_fee_payment-once cfg now fresh later fresh' input b done =
    elim (Option-cases (order_of input.provider_order_id b.payments)) [
      | inl e ↦ absurd (unknown (rw (e, settle_fee_payment) at done))
      | inr (p, e) ↦
          let same = settle_found cfg now fresh input p b e in
          let (r, shape) =
            settle_order-payments cfg now fresh input p b (ap (λ x. x.0) (sym same) ∙ done) in
          subst (λ x. settle_fee_payment cfg later fresh' input x.1 ≡ (already_paid, x.1))
            (sym same) (settled_again cfg now fresh' r later input p b.payments _ e shape)
    ]
  where
    unknown : unknown_order ≢ settled_now
    unknown h = cc

-- The order is in the table, and paid.
abbrev pub IsPaidOrder : ℕ → Books → Type 0
IsPaidOrder order b = (p : FeePayment) × (order_of order b.payments ≡ some p) × (is_paid p ≡ true)

settle_order-already :
    (cfg : FeeConfig) (now fresh : ℕ) (input : SettleInput) (p : FeePayment) (b : Books)
    → (settle_order cfg now fresh input p b).0 ≡ already_paid
    → (is_paid p ≡ true) × ((settle_order cfg now fresh input p b).1 ≡ b)
unfolding settle_order
settle_order-already cfg now fresh input p b done = elim (Bool-cases (is_paid p)) [
  | inl e ↦ rw e (refl, refl)
  | inr e ↦
      elim (Bool-cases (input.amount_paise == p.amount_paise && input.currency == p.currency)) [
        | inr f ↦ absurd (not_mismatch (rw (e, f) at done))
        | inl f ↦ absurd (not_settled (rw (e, f) at done))
      ]
]
  where
    not_mismatch : mismatch ≢ already_paid
    not_mismatch h = cc

    not_settled : settled_now ≢ already_paid
    not_settled h = cc

settle_order-success :
    (cfg : FeeConfig) (now fresh : ℕ) (input : SettleInput) (p : FeePayment) (b : Books)
    → order_of input.provider_order_id b.payments ≡ some p
    → let (outcome, b') = settle_order cfg now fresh input p b in
      (outcome ≡ settled_now) ⊎ (outcome ≡ already_paid) → IsPaidOrder input.provider_order_id b'
unfolding is_paid
settle_order-success cfg now fresh input p b e (inl done) =
    let (r, shape) = settle_order-payments cfg now fresh input p b done in
    let c = (settle_order cfg now fresh input p b).1 in
    (
      mark_paid now input.provider_payment_id r p,
      settled_row now r input.provider_order_id input.provider_payment_id p b.payments c e shape,
      refl,
    )
settle_order-success cfg now fresh input p b e (inr done) =
    let (paid_before, same) = settle_order-already cfg now fresh input p b done in
    subst (IsPaidOrder input.provider_order_id) (sym same) (p, e, paid_before)

-- An answer of success, now or before, means that the order is paid.
pub settle_fee_payment-success :
    (cfg : FeeConfig) (now fresh : ℕ) (input : SettleInput) (b : Books)
    → let (outcome, b') = settle_fee_payment cfg now fresh input b in
      (outcome ≡ settled_now) ⊎ (outcome ≡ already_paid) → IsPaidOrder input.provider_order_id b'
unfolding settle_fee_payment
settle_fee_payment-success cfg now fresh input b done =
    elim (Option-cases (order_of input.provider_order_id b.payments)) [
      | inl e ↦ absurd (unknown (rw (e, settle_fee_payment) at done))
      | inr (p, e) ↦
          let same = settle_found cfg now fresh input p b e in
          subst
            (λ x.
              (x.0 ≡ settled_now) ⊎ (x.0 ≡ already_paid) → IsPaidOrder input.provider_order_id x.1)
            (sym same) (settle_order-success cfg now fresh input p b e) done
    ]
  where
    unknown : (unknown_order ≡ settled_now) ⊎ (unknown_order ≡ already_paid) → ⊥
    unknown (inl h) = cc
    unknown (inr h) = cc
