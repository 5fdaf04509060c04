-- ===== src/Fees.antt =====
-- apps/api/src/modules/fees: the platform fee of one shop. Here the rows that the module reads and
-- writes (of apps/api/prisma/schema.prisma), the queries that its operations share and the instants of
-- feeConfig.ts. Every query of the module is scoped by the shop's id, so `Books` holds the rows of one
-- shop. A call of the provider is a parameter.
pub mod Account
pub mod Enforcement
pub mod Payments
pub mod Reconcile
pub mod Prepaid
pub mod Stuck
pub mod Run
mod Tests
use print_q.Base.{
  ◌+◌, ◌-◌, ◌*◌, ◌/◌, leb, ltb, ◌==◌, opt_eq, or_else, find, keep, sum_by, map, ◌&&◌, ◌||◌, not,
  max, if◌then◌else◌, ℕ, ℤ, pos, ◌+ℤ◌, Bool, true, false, Option, none, some, List, [], ◌∷◌,
}
use print_q.Base.Sorting.{sort}

pub data EntryType : Type 0 where
  print_commission refund_credit manual_credit statement_settlement : EntryType

pub record Entry : Type 0 where
  pub id : ℕ
  pub kind : EntryType
  pub amount_paise : ℤ
  pub fee_payment_id : Option ℕ
  pub created_at : ℕ

pub record StatementLine : Type 0 where
  pub statement_id : ℕ
  pub entry_id : ℕ
  pub amount_paise : ℤ

pub data StatementStatus : Type 0 where
  draft frozen notice_sent debit_pending settled failed paused : StatementStatus

pub record Statement : Type 0 where
  pub id : ℕ
  pub period_start : ℕ
  pub period_end : ℕ
  pub gross_commission_paise : ℕ
  pub credit_paise : ℕ
  pub amount_due_paise : ℕ
  pub paid_paise : ℕ
  pub status : StatementStatus
  pub due_at : Option ℕ
  pub frozen_at : Option ℕ
  pub settled_at : Option ℕ

pub data FeePaymentStatus : Type 0 where
  created attempted paid attempt_failed expired : FeePaymentStatus

pub record FeePayment : Type 0 where
  pub id : ℕ
  pub provider : ℕ
  pub provider_order_id : ℕ
  pub provider_payment_id : Option ℕ
  pub requested_by_id : ℕ
  pub amount_paise : ℕ
  pub currency : ℕ
  pub status : FeePaymentStatus
  pub unallocated_paise : ℕ
  pub created_at : ℕ
  pub expires_at : ℕ
  pub paid_at : Option ℕ
  pub failed_at : Option ℕ
  pub failure_reason : Option ℕ
  pub last_checked_at : Option ℕ

pub record Allocation : Type 0 where
  pub payment_id : ℕ
  pub statement_id : ℕ
  pub amount_paise : ℕ

pub data Source : Type 0 where
  webhook reconcile mock : Source

pub data UnblockReason : Type 0 where
  override nothing_overdue : UnblockReason

pub data FeeEvent : Type 0 where
  order_created : (payment_id amount : ℕ) → FeeEvent
  payment_mismatch : (payment_id expected received currency : ℕ) → Source → FeeEvent
  payment_settled : (payment_id amount : ℕ) → Source → FeeEvent
  blocked : (statement_id : ℕ) → Option ℕ → FeeEvent
  unblocked : UnblockReason → FeeEvent

-- The rows of one shop. The reason of a block is the statement that it names.
pub record Books : Type 0 where
  pub fee_blocked_at : Option ℕ
  pub fee_block_reason : Option ℕ
  pub fee_block_override_until : Option ℕ
  pub statements : List Statement
  pub lines : List StatementLine
  pub entries : List Entry
  pub payments : List FeePayment
  pub allocations : List Allocation
  pub events : List FeeEvent

-- The environment: whether a payment provider is set, and the terms.
pub record FeeConfig : Type 0 where
  pub enabled : Bool
  pub payment_terms_days : ℕ
  pub overdue_block_after_days : ℕ

abbrev pub day_ms : ℕ
day_ms = 86_400_000

abbrev pub fee_order_ttl_ms : ℕ
fee_order_ttl_ms = 3_600_000

abbrev pub fee_reconcile_after_ms : ℕ
fee_reconcile_after_ms = 900_000

abbrev pub fee_reconcile_max_age_ms : ℕ
fee_reconcile_max_age_ms = 172_800_000

abbrev pub fee_due_soon_ms : ℕ
fee_due_soon_ms = 2 * day_ms

-- `UNPAID_STATEMENT_STATUSES.includes(status)`.
unfoldable pub owes_money : StatementStatus → Bool
owes_money draft = false
owes_money settled = false
owes_money _ = true

unfoldable pub due_at_for : FeeConfig → ℕ → ℕ
due_at_for cfg frozen_at = frozen_at + cfg.payment_terms_days * day_ms

unfoldable pub block_at_for : FeeConfig → ℕ → ℕ
block_at_for cfg due_at = due_at + cfg.overdue_block_after_days * day_ms

-- The instants before a due date are only ever asked whether they are past, so an instant before
-- the epoch may as well be the epoch.
unfoldable pub reminder_at_for : FeeConfig → ℕ → ℕ
reminder_at_for cfg due_at = due_at - (cfg.payment_terms_days * 4 + 6) / 7 * day_ms

unfoldable pub final_warning_at_for : ℕ → ℕ
final_warning_at_for due_at = due_at - day_ms

unfoldable pub statement_ready_at_for : FeeConfig → ℕ → ℕ
statement_ready_at_for cfg due_at = due_at - cfg.payment_terms_days * day_ms

-- `Math.max(0, s.amountDuePaise - s.paidPaise)`.
abbrev pub outstanding : Statement → ℕ
outstanding s = s.amount_due_paise - s.paid_paise

-- `orderBy: [{ periodEnd: 'asc' }, { id: 'asc' }]`.
abbrev pub older : Statement → Statement → Bool
older s t = ltb s.period_end t.period_end || (s.period_end == t.period_end && leb s.id t.id)

-- `where: { status: { in: UNPAID_STATEMENT_STATUSES }, amountDuePaise: { gt: 0 } }`.
unfoldable pub is_unpaid : Statement → Bool
is_unpaid s = owes_money s.status && ltb 0 s.amount_due_paise

unfoldable pub unpaid_statements : List Statement → List Statement
unpaid_statements ss = sort older (keep is_unpaid ss)

-- `update({ where: { id } })` for each of the rows.
abbrev pub write_row : List Statement → Statement → Statement
write_row rows s = or_else (find (λ r. r.id == s.id) rows) s

unfoldable pub write_rows : List Statement → List Statement → List Statement
write_rows rows ss = map (write_row rows) ss

unfoldable pub is_paid : FeePayment → Bool
is_paid p = elim p.status [ paid ↦ true | _ ↦ false ]

-- What earlier payments have left over.
unfoldable pub left_over : FeePayment → ℕ
unfolding is_paid
left_over p = if is_paid p then p.unallocated_paise else 0

abbrev pub update_payment : ℕ → (FeePayment → FeePayment) → List FeePayment → List FeePayment
update_payment id f ps = map (λ p. if p.id == id then f p else p) ps
