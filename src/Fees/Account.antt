-- ===== src/Fees/Account.antt =====
-- apps/api/src/modules/fees/account.ts: what a shop owes, and the use of earlier overpayment.
use print_q.Base.{
  ◌+◌, ◌-◌, leb, ltb, ◌==◌, find, keep, any, tally, sum_by, take, map, ◌&&◌, not, min, ◌++◌,
  if◌then◌else◌, ℕ, ℤ, pos, ◌+ℤ◌, pos_part, Bool, true, false, Option, none, some, List, [], ◌∷◌,
}
use print_q.Base.Sorting.{sort}
use print_q.Fees.{
  Books, Statement, StatementLine, settled, Entry, statement_settlement, print_commission,
  fee_due_soon_ms, outstanding, unpaid_statements, left_over,
}

pub data FeeState : Type 0 where
  paid_up due overdue shop_blocked : FeeState

pub data Banner : Type 0 where
  due_soon banner_overdue banner_blocked : Banner

pub data ViewStatus : Type 0 where
  view_paid view_unpaid view_overdue : ViewStatus

pub record FeeStatementView : Type 0 where
  pub id : ℕ
  pub period_start : ℕ
  pub period_end : ℕ
  pub orders_count : ℕ
  pub amount_paise : ℕ
  pub paid_paise : ℕ
  pub outstanding_paise : ℕ
  pub due_at : Option ℕ
  pub frozen_at : Option ℕ
  pub settled_at : Option ℕ
  pub status : ViewStatus

pub record FeeAccount : Type 0 where
  pub total_due_paise : ℕ
  pub statements_due_paise : ℕ
  pub accrued_paise : ℕ
  pub next_due_at : Option ℕ
  pub state : FeeState
  pub banner : Option Banner
  pub blocked_at : Option ℕ
  pub statements : List FeeStatementView

-- `where: { status: 'settled', amountDuePaise: { gt: 0 } }, orderBy: { periodEnd: 'desc' }, take: 12`.
unfoldable pub is_settled : Statement → Bool
is_settled s = elim s.status [ settled ↦ ltb 0 s.amount_due_paise | _ ↦ false ]

unfoldable pub settled_statements : List Statement → List Statement
settled_statements ss = take 12 (sort (λ s t. leb t.period_end s.period_end) (keep is_settled ss))

-- `type: { in: ['print_commission', 'refund_credit', 'manual_credit'] }`.
abbrev pub is_billable : Entry → Bool
is_billable e = elim e.kind [ statement_settlement ↦ false | _ ↦ true ]

abbrev pub on_statement : List StatementLine → Entry → Bool
on_statement ls e = any (λ l. l.entry_id == e.id) ls

unfoldable pub sum_entries : List Entry → ℤ
sum_entries [] = pos 0
sum_entries (e ∷ es) = e.amount_paise +ℤ sum_entries es

abbrev pub unstatemented : List StatementLine → List Entry → List Entry
unstatemented ls es = keep (λ e. is_billable e && not (on_statement ls e)) es

-- `Math.max(0, accrued - prepaid)` for a signed `accrued`.
unfoldable pub accrued_paise : Books → ℕ
accrued_paise b =
    pos_part (sum_entries (unstatemented b.lines b.entries)) - sum_by left_over b.payments

abbrev pub is_commission : List Entry → ℕ → Bool
is_commission es id = elim (find (λ e. e.id == id) es) [
  | none ↦ false
  | some e ↦ elim e.kind [ print_commission ↦ true | _ ↦ false ]
]

abbrev pub orders_of : Books → ℕ → ℕ
orders_of b id = tally (λ l. l.statement_id == id && is_commission b.entries l.entry_id) b.lines

abbrev pub passed : ℕ → Option ℕ → Bool
passed now none = false
passed now (some t) = leb t now

unfoldable pub view : Books → ℕ → Statement → FeeStatementView
view b now s = record {
  id = s.id;
  period_start = s.period_start;
  period_end = s.period_end;
  orders_count = orders_of b s.id;
  amount_paise = s.amount_due_paise;
  paid_paise = s.paid_paise;
  outstanding_paise = outstanding s;
  due_at = s.due_at;
  frozen_at = s.frozen_at;
  settled_at = s.settled_at;
  status =
      if outstanding s == 0
      then view_paid
      else if passed now s.due_at
      then view_overdue
      else view_unpaid;
}

-- The earliest due date among the views that owe money.
unfoldable pub next_due : List FeeStatementView → Option ℕ
next_due [] = none
next_due (v ∷ vs) =
    let rest = next_due vs in
    if ltb 0 v.outstanding_paise
    then elim v.due_at [ none ↦ rest | some t ↦ some (elim rest [ none ↦ t | some u ↦ min t u ]) ]
    else rest

abbrev pub is_overdue : FeeStatementView → Bool
is_overdue v = elim v.status [ view_overdue ↦ true | _ ↦ false ]

unfoldable pub statement_views : Books → ℕ → List FeeStatementView
statement_views b now =
    sort (λ v w. leb w.period_end v.period_end)
      (map (view b now) (unpaid_statements b.statements ++ settled_statements b.statements))

unfoldable pub fee_state : Option ℕ → Bool → ℕ → FeeState
fee_state (some t) late total = shop_blocked
fee_state none late total = if late then overdue else if ltb 0 total then due else paid_up

-- `nextDueAt - now <= FEE_DUE_SOON_MS`.
unfoldable pub is_due_soon : ℕ → Option ℕ → ℕ → Bool
is_due_soon statements_due none now = false
is_due_soon statements_due (some t) now = ltb 0 statements_due && leb t (now + fee_due_soon_ms)

unfoldable pub banner_of : FeeState → Bool → Option Banner
banner_of shop_blocked soon = some banner_blocked
banner_of overdue soon = some banner_overdue
banner_of _ soon = if soon then some due_soon else none

unfoldable pub compute_fee_account : Books → ℕ → FeeAccount
compute_fee_account b now =
    let views = statement_views b now in
    let statements_due = sum_by (λ v. v.outstanding_paise) views in
    let accrued = accrued_paise b in
    let next = next_due views in
    let state = fee_state b.fee_blocked_at (any is_overdue views) (statements_due + accrued) in
    record {
      total_due_paise = statements_due + accrued;
      statements_due_paise = statements_due;
      accrued_paise = accrued;
      next_due_at = next;
      state = state;
      banner = banner_of state (is_due_soon statements_due next now);
      blocked_at = b.fee_blocked_at;
      statements = views;
    }
