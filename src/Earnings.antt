-- ===== src/Earnings.antt =====
-- apps/api/src/modules/earnings/service.ts: the private ledger of one shop, its payouts and the payments
-- of what it owes. Every query is scoped by the shop's id, so `Earnings` holds the rows of one shop
-- (of apps/api/prisma/schema.prisma). The answer of the payout provider is an argument.
pub mod Payouts
pub mod Ledger
pub mod Run
mod Tests
use print_q.Base.{
  ◌+◌, ltb, leb, ◌==◌, opt_eq, find, any, keep, map, take, ◌&&◌, ◌||◌, not, is_some, if◌then◌else◌,
  ℕ, ℤ, pos, sub_ℕ, ◌+ℤ◌, pos_part, neg_part, Bool, true, false, Option, none, some, List, [], ◌∷◌,
  Result, ok, throw,
}
use print_q.Base.Sorting.{sort}
use print_q.Status.{JobStatus, ◌is◌}
use print_q.Job.{Job, is_paid, is_pay_at_shop, is_cash_provider}

pub data LedgerType : Type 0 where
  print_earning cash_settlement balance_payment payout_reserved payout_released adjustment :
      LedgerType

pub record LedgerEntry : Type 0 where
  pub kind : LedgerType
  pub job_id : Option ℕ
  pub payout_id : Option ℕ
  pub balance_payment_id : Option ℕ
  pub amount_paise : ℤ

pub data PayoutStatus : Type 0 where
  requested processing paid failed cancelled : PayoutStatus

pub record Payout : Type 0 where
  pub id : ℕ
  pub amount_paise : ℕ
  pub status : PayoutStatus
  pub provider : ℕ
  pub provider_transfer_id : Option ℕ
  pub requested_by_id : Option ℕ
  pub attempts : ℕ
  pub last_attempt_at : Option ℕ
  pub last_error : Option ℕ
  pub paid_at : Option ℕ
  pub created_at : ℕ

pub data BalancePaymentStatus : Type 0 where
  pending paid failed : BalancePaymentStatus

pub record BalancePayment : Type 0 where
  pub id : ℕ
  pub amount_paise : ℕ
  pub status : BalancePaymentStatus
  pub provider : ℕ
  pub provider_order_id : ℕ
  pub payment_id : Option ℕ
  pub requested_by_id : ℕ
  pub paid_at : Option ℕ
  pub created_at : ℕ

pub record Earnings : Type 0 where
  pub entries : List LedgerEntry
  pub payouts : List Payout
  pub balance_payments : List BalancePayment

abbrev pub same_type : LedgerType → LedgerType → Bool
same_type print_earning print_earning = true
same_type cash_settlement cash_settlement = true
same_type balance_payment balance_payment = true
same_type payout_reserved payout_reserved = true
same_type payout_released payout_released = true
same_type adjustment adjustment = true
same_type _ _ = false

-- The unique keys (jobId, type), (payoutId, type) and (balancePaymentId, type).
abbrev pub of_job : ℕ → LedgerType → LedgerEntry → Bool
of_job id kind e = opt_eq e.job_id (some id) && same_type e.kind kind

abbrev pub of_payout : ℕ → LedgerType → LedgerEntry → Bool
of_payout id kind e = opt_eq e.payout_id (some id) && same_type e.kind kind

abbrev pub of_balance_payment : ℕ → LedgerType → LedgerEntry → Bool
of_balance_payment id kind e = opt_eq e.balance_payment_id (some id) && same_type e.kind kind

-- `upsert` with an empty update: the entry is created unless its key is taken.
unfoldable pub upsert : (LedgerEntry → Bool) → LedgerEntry → List LedgerEntry → List LedgerEntry
upsert key e es = if any key es then es else e ∷ es

-- `aggregate({ _sum: { amountPaise } })`.
unfoldable pub balance : List LedgerEntry → ℤ
balance [] = pos 0
balance (e ∷ es) = e.amount_paise +ℤ balance es

-- `POST_PRINT_STATUSES.includes(status)`.
abbrev pub is_post_print : JobStatus → Bool
is_post_print s =
    s is JobStatus.finishing || s is JobStatus.ready_for_pickup || s is JobStatus.completed

abbrev pub earning_type : Job → LedgerType
earning_type j = if is_cash_provider j.payment_provider then cash_settlement else print_earning

abbrev pub earning_amount : Job → ℤ
earning_amount j =
    if is_cash_provider j.payment_provider
    then sub_ℕ j.shop_base_paise j.total_paise
    else pos j.shop_base_paise

abbrev pub earning_entry : Job → LedgerEntry
earning_entry j = record {
  kind = earning_type j;
  job_id = some j.id;
  payout_id = none;
  balance_payment_id = none;
  amount_paise = earning_amount j;
}

-- The guards of creditPrintEarning, with the one on the base price.
abbrev pub earns : Job → Bool
earns j =
    not (is_pay_at_shop j.payment_provider)
    && (is_post_print j.status && (is_paid j.payment_status && ltb 0 j.shop_base_paise))

unfoldable pub credit_print_earning : ℕ → List Job → Earnings → Earnings
credit_print_earning job_id jobs e = elim (find (λ j. j.id == job_id) jobs) [
  | none ↦ e
  | some j ↦
      if earns j
      then record e { entries = upsert (of_job j.id (earning_type j)) (earning_entry j) e.entries }
      else e
]

abbrev pub is_credited : List LedgerEntry → Job → Bool
is_credited es j = any (of_job j.id print_earning) es || any (of_job j.id cash_settlement) es

unfoldable pub credit_each : List Job → List Job → Earnings → Earnings
credit_each [] jobs e = e
credit_each (j ∷ js) jobs e = credit_each js jobs (credit_print_earning j.id jobs e)

-- `jobs` are the shop's. The query takes 200 in the order of the table; its `{ not: 'pay_at_shop' }`
-- leaves out a null provider.
unfoldable pub reconcile_print_earnings : List Job → Earnings → Earnings
reconcile_print_earnings jobs e =
    credit_each
      (take 200
        (keep (λ j. is_some j.payment_provider && (earns j && not (is_credited e.entries j))) jobs))
      jobs e

-- A cash order that is under way and not in the ledger.
abbrev pub is_unsettled_cash : List LedgerEntry → Job → Bool
is_unsettled_cash es j =
    is_cash_provider j.payment_provider
    && (not (
          j.status is JobStatus.completed
          || j.status is JobStatus.expired
          || j.status is JobStatus.cancelled)
        && not (any (of_job j.id cash_settlement) es))

unfoldable pub unsettled_cash : List LedgerEntry → List Job → ℤ
unsettled_cash es [] = pos 0
unsettled_cash es (j ∷ js) =
    let rest = unsettled_cash es js in
    if is_unsettled_cash es j then sub_ℕ j.shop_base_paise j.total_paise +ℤ rest else rest

unfoldable pub get_projected_cash_settlement_balance : List Job → Earnings → ℤ
get_projected_cash_settlement_balance jobs e = balance e.entries +ℤ unsettled_cash e.entries jobs

-- `projected > -MAX_SHOP_CASH_DEBT_PAISE`.
unfoldable pub can_shop_accept_cash : ℕ → List Job → Earnings → Bool
can_shop_accept_cash max_debt jobs e =
    let projected = get_projected_cash_settlement_balance jobs e in
    ltb (neg_part projected) (pos_part projected + max_debt)

pub data EarningsError : Type 0 where
  no_amount_due no_linked_account below_minimum : EarningsError

abbrev pub is_pending : BalancePayment → Bool
is_pending p = elim p.status [ pending ↦ true | _ ↦ false ]

abbrev pub newest_first : BalancePayment → BalancePayment → Bool
newest_first p q = leb q.created_at p.created_at

-- `id` and `provider_order_id` number the new payment here and at the provider.
unfoldable pub create_shop_balance_payment :
    (id provider provider_order_id by now : ℕ)
    → Earnings
    → Result EarningsError ((Bool × BalancePayment) × Earnings)
create_shop_balance_payment id provider provider_order_id by now e =
    let amount = neg_part (balance e.entries) in
    if amount == 0
    then throw no_amount_due
    else elim (find (λ p. is_pending p && p.amount_paise == amount)
        (sort newest_first e.balance_payments)) [
          | some p ↦ ok ((false, p), e)
          | none ↦
              let p : BalancePayment = record {
                id = id;
                amount_paise = amount;
                status = pending;
                provider = provider;
                provider_order_id = provider_order_id;
                payment_id = none;
                requested_by_id = by;
                paid_at = none;
                created_at = now;
              } in
              ok ((true, p), record e { balance_payments = p ∷ e.balance_payments })
        ]

abbrev pub pay_balance : (payment_id now : ℕ) → BalancePayment → BalancePayment
pay_balance payment_id now p = record p {
  status = BalancePaymentStatus.paid;
  payment_id = some payment_id;
  paid_at = some now;
}

abbrev pub balance_entry : BalancePayment → LedgerEntry
balance_entry p = record {
  kind = balance_payment;
  job_id = none;
  payout_id = none;
  balance_payment_id = some p.id;
  amount_paise = pos p.amount_paise;
}

unfoldable pub confirm_shop_balance_payment :
    (provider_order_id payment_id now : ℕ) → Earnings → Bool × Earnings
confirm_shop_balance_payment provider_order_id payment_id now e =
    elim (find (λ p. p.provider_order_id == provider_order_id) e.balance_payments) [
      | none ↦ (false, e)
      | some p ↦ elim p.status [
        | BalancePaymentStatus.paid ↦ (true, e)
        | BalancePaymentStatus.failed ↦ (false, e)
        | pending ↦ (
          true,
          record e {
            balance_payments =
                map (λ q. if q.id == p.id then pay_balance payment_id now q else q)
                  e.balance_payments;
            entries = upsert (of_balance_payment p.id balance_payment) (balance_entry p) e.entries;
          },
        )
      ]
    ]
