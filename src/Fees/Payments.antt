-- ===== src/Fees/Payments.antt =====
-- apps/api/src/modules/fees/payments.ts: the order of one shop for exactly what it owes, and the
-- settlement of a captured payment. applyPrepaidToStatement of account.ts is here too, as it moves the
-- same money. `provider_order_id` is what the provider answered for the new order.
pub mod Exact
pub mod Balance
pub mod Cover
pub mod Once
pub mod Clears
use print_q.Base.{
  ◌-◌, leb, ltb, ◌==◌, opt_eq, find, any, map, ◌&&◌, not, min, ◌++◌, or_else, if◌then◌else◌, ℕ, ℤ,
  pos, sub_ℕ, Bool, true, false, Option, none, some, List, [], ◌∷◌, ◌+◌, Result, ok, throw, keep,
}
use print_q.Base.Sorting.{sort}
use print_q.Fees.{
  Books, Statement, StatementStatus, settled, Entry, statement_settlement, FeePayment,
  FeePaymentStatus, created, attempted, paid, attempt_failed, expired, Allocation, FeeConfig,
  Source, outstanding, unpaid_statements, write_rows, update_payment, is_paid, order_created,
  payment_mismatch, payment_settled, fee_order_ttl_ms,
}
use print_q.Fees.Account.{compute_fee_account}
use print_q.Fees.Enforcement.{BlockChange, evaluate_shop_fee_block}

pub data SettleOutcome : Type 0 where
  settled_now already_paid unknown_order mismatch conflict : SettleOutcome

pub record SettleInput : Type 0 where
  pub provider_order_id : ℕ
  pub provider_payment_id : ℕ
  pub amount_paise : ℕ
  pub currency : ℕ
  pub source : Source

-- What the loop over the statements writes: rows, allocations, and what remains of the amount.
pub record PayDown : Type 0 where
  pub rows : List Statement
  pub allocations : List Allocation
  pub remaining : ℕ

-- The update of one statement by `amount`, which is all that is outstanding if it is `fully_paid`.
unfoldable pub pay_row : ℕ → ℕ → Statement → Statement
pay_row now amount s =
    let s' = record s { paid_paise = s.paid_paise + amount } in
    if amount == outstanding s then record s' { status = settled; settled_at = some now } else s'

-- Where nothing is outstanding the subtraction and so `amount` are 0, and the loop continues.
unfoldable pub pay_down : ℕ → ℕ → ℕ → List Statement → PayDown
unfolding pay_row
pay_down id now remaining [] = record { rows = []; allocations = []; remaining = remaining }
pay_down id now remaining (s ∷ ss) =
    let amount = min (outstanding s) remaining in
    let rest = pay_down id now (remaining - amount) ss in
    if remaining == 0
    then record { rows = []; allocations = []; remaining = remaining }
    else if outstanding s == 0
    then rest
    else record {
      rows = pay_row now amount s ∷ rest.rows;
      allocations =
          record { payment_id = id; statement_id = s.id; amount_paise = amount } ∷ rest.allocations;
      remaining = rest.remaining;
    }

abbrev pub settlement_entry : ℕ → ℕ → FeePayment → Entry
settlement_entry fresh now p = record {
  id = fresh;
  kind = statement_settlement;
  amount_paise = sub_ℕ 0 p.amount_paise;
  fee_payment_id = some p.id;
  created_at = now;
}

abbrev pub mark_paid : ℕ → ℕ → ℕ → FeePayment → FeePayment
mark_paid now provider_payment_id remaining p = record p {
  status = paid;
  provider_payment_id = some provider_payment_id;
  paid_at = some now;
  unallocated_paise = remaining;
  failure_reason = none;
}

-- The writes of a settlement of `p` before the block is evaluated; `fresh` is the id of the entry.
unfoldable pub post_settlement : ℕ → ℕ → SettleInput → FeePayment → Books → Books
post_settlement now fresh input p b =
    let paid_down = pay_down p.id now p.amount_paise (unpaid_statements b.statements) in
    record b {
      statements = write_rows paid_down.rows b.statements;
      allocations = paid_down.allocations ++ b.allocations;
      entries = settlement_entry fresh now p ∷ b.entries;
      payments =
          update_payment p.id (mark_paid now input.provider_payment_id paid_down.remaining)
            b.payments;
      events = payment_settled p.id p.amount_paise input.source ∷ b.events;
    }

unfoldable pub settle_order :
    FeeConfig → ℕ → ℕ → SettleInput → FeePayment → Books → SettleOutcome × Books
settle_order cfg now fresh input p b =
    if is_paid p
    then (
      if opt_eq p.provider_payment_id (some input.provider_payment_id)
          then already_paid
          else conflict,
      b,
    )
    else if not (input.amount_paise == p.amount_paise && input.currency == p.currency)
    then (
      mismatch,
      record b {
        events =
            payment_mismatch p.id p.amount_paise input.amount_paise input.currency input.source
            ∷ b.events;
      },
    )
    else (settled_now, (evaluate_shop_fee_block cfg now (post_settlement now fresh input p b)).1)

-- The order of the provider, `where: { providerOrderId }`.
unfoldable pub order_of : ℕ → List FeePayment → Option FeePayment
order_of id ps = find (λ p. p.provider_order_id == id) ps

unfoldable pub settle_fee_payment : FeeConfig → ℕ → ℕ → SettleInput → Books → SettleOutcome × Books
settle_fee_payment cfg now fresh input b = elim (order_of input.provider_order_id b.payments) [
  | none ↦ (unknown_order, b)
  | some p ↦ settle_order cfg now fresh input p b
]

-- `status: { in: ['created', 'attempted', 'failed'] }`.
unfoldable pub is_open : FeePayment → Bool
is_open p = elim p.status [ created ↦ true | attempted ↦ true | attempt_failed ↦ true | _ ↦ false ]

abbrev pub expire_open : FeePayment → FeePayment
expire_open p = if is_open p then record p { status = expired } else p

pub data OrderError : Type 0 where
  fee_payments_disabled nothing_to_pay : OrderError

pub record FeeOrderResult : Type 0 where
  pub reused : Bool
  pub payment_id : ℕ
  pub amount_paise : ℕ
  pub status : FeePaymentStatus
  pub expires_at : ℕ

abbrev pub new_order : (id provider provider_order_id by amount currency now : ℕ) → FeePayment
new_order id provider provider_order_id by amount currency now = record {
  id = id;
  provider = provider;
  provider_order_id = provider_order_id;
  provider_payment_id = none;
  requested_by_id = by;
  amount_paise = amount;
  currency = currency;
  status = created;
  unallocated_paise = 0;
  created_at = now;
  expires_at = now + fee_order_ttl_ms;
  paid_at = none;
  failed_at = none;
  failure_reason = none;
  last_checked_at = none;
}

abbrev pub reusable : ℕ → ℕ → FeePayment → Bool
reusable amount now p = p.amount_paise == amount && ltb now p.expires_at

-- The transaction of createFeeOrder. `rupee` is the default currency of a row; the parameters `id` and
-- `provider_order_id` number the new order here and at the provider.
unfoldable pub create_fee_order :
    (id provider provider_order_id by rupee now : ℕ)
    → Books
    → Result OrderError (FeeOrderResult × Books)
create_fee_order id provider provider_order_id by rupee now b =
    let amount = (compute_fee_account b now).total_due_paise in
    if amount == 0
    then throw nothing_to_pay
    else let open_orders = sort (λ p q. leb q.created_at p.created_at) (keep is_open b.payments) in
      elim (find (reusable amount now) open_orders) [
        | some p ↦ ok (
          record {
            reused = true;
            payment_id = p.id;
            amount_paise = amount;
            status = p.status;
            expires_at = p.expires_at;
          },
          b,
        )
        | none ↦ ok (
          record {
            reused = false;
            payment_id = id;
            amount_paise = amount;
            status = created;
            expires_at = now + fee_order_ttl_ms;
          },
          record b {
            payments =
                map expire_open b.payments
                ++ new_order id provider provider_order_id by amount rupee now ∷ [];
            events = order_created id amount ∷ b.events;
          },
        )
      ]
