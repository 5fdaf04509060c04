-- ===== src/Commission.antt =====
-- apps/api/src/modules/commission: statements.ts and statementService.ts, the weekly statement of one
-- shop. The rows are those of `Fees.Books`; the id of the new statement is an argument.
pub mod Amounts
pub mod Freeze
pub mod Kept
pub mod Once
pub mod Week
mod Tests
use print_q.Base.{
  ◌+◌, ◌-◌, ◌==◌, ltb, leb, find, any, keep, map, ◌&&◌, ◌||◌, not, ◌++◌, if◌then◌else◌, ℕ, ℤ, pos,
  negsuc, pos_part, neg_part, suc, Bool, true, false, Option, none, some, List, [], ◌∷◌, Result, ok,
  throw, ◌>>=◌,
}
use print_q.Base.Sorting.{sort}
use print_q.Fees.{Books, Entry, Statement, StatementLine, settled, frozen, FeeConfig, due_at_for}
use print_q.Fees.Account.{is_billable, on_statement}
use print_q.Fees.Prepaid.{apply_prepaid_to_statement, Prepaid}

pub data StatementError : Type 0 where
  invalid_period unsafe_total : StatementError

pub record StatementAmounts : Type 0 where
  pub gross_commission_paise : ℕ
  pub credit_paise : ℕ
  pub amount_due_paise : ℕ

-- `Number.MAX_SAFE_INTEGER`.
abbrev pub max_safe : ℕ
max_safe = 9_007_199_254_740_991

-- The loop, with its two sums. An amount is an integer already.
unfoldable pub sum_amounts : List Entry → ℕ → ℕ → Result StatementError (ℕ × ℕ)
sum_amounts [] gross credit = ok (gross, credit)
sum_amounts (e ∷ es) gross credit =
    let gross' = gross + pos_part e.amount_paise in
    let credit' = credit + neg_part e.amount_paise in
    let rest = sum_amounts es gross' credit' in
    if ltb max_safe gross' || ltb max_safe credit' then throw unsafe_total else rest

abbrev pub amounts_of : ℕ × ℕ → StatementAmounts
amounts_of (gross, credit) = record {
  gross_commission_paise = gross;
  credit_paise = credit;
  amount_due_paise = gross - credit;
}

unfoldable pub derive_statement_amounts : List Entry → Result StatementError StatementAmounts
derive_statement_amounts es = sum_amounts es 0 0 >>= λ sums. ok (amounts_of sums)

unfoldable pub has_unapplied_credit : StatementAmounts → Bool
has_unapplied_credit a = ltb a.gross_commission_paise a.credit_paise

pub record StatementPeriod : Type 0 where
  pub start : ℕ
  pub end : ℕ

-- `where: { shopId_periodStart_periodEnd: … }`.
unfoldable pub statement_of : StatementPeriod → List Statement → Option Statement
statement_of period ss = find (λ s. s.period_start == period.start && s.period_end == period.end) ss

-- `orderBy: [{ createdAt: 'asc' }, { id: 'asc' }]`.
abbrev pub entry_before : Entry → Entry → Bool
entry_before e f = ltb e.created_at f.created_at || (e.created_at == f.created_at && leb e.id f.id)

-- The entries that the statement takes: unstatemented, and created before the end of the period.
abbrev pub is_taken : List StatementLine → ℕ → Entry → Bool
is_taken ls end e = ltb e.created_at end && is_billable e && not (on_statement ls e)

unfoldable pub entries_to_freeze : StatementPeriod → Books → List Entry
entries_to_freeze period b = sort entry_before (keep (is_taken b.lines period.end) b.entries)

abbrev pub line_of : ℕ → Entry → StatementLine
line_of id e = record { statement_id = id; entry_id = e.id; amount_paise = e.amount_paise }

abbrev pub fresh_statement : FeeConfig → ℕ → ℕ → StatementPeriod → StatementAmounts → Statement
fresh_statement cfg now id period a = record {
  id = id;
  period_start = period.start;
  period_end = period.end;
  gross_commission_paise = a.gross_commission_paise;
  credit_paise = a.credit_paise;
  amount_due_paise = a.amount_due_paise;
  paid_paise = 0;
  status = if a.amount_due_paise == 0 then settled else frozen;
  due_at = if ltb 0 a.amount_due_paise && cfg.enabled then some (due_at_for cfg now) else none;
  frozen_at = some now;
  settled_at = if a.amount_due_paise == 0 then some now else none;
}

-- The update after earlier overpayment was applied.
unfoldable pub with_prepaid : ℕ → ℕ → Statement → Statement
with_prepaid now prepaid s =
    if prepaid == 0
    then s
    else let s' = record s { paid_paise = prepaid } in
      if leb s.amount_due_paise prepaid
      then record s' { status = settled; settled_at = some now }
      else s'

-- The writes, from the entries and their amounts.
unfoldable pub write_statement :
    FeeConfig → ℕ → ℕ → StatementPeriod → List Entry → StatementAmounts → Books → Statement × Books
write_statement cfg now id period es a b =
    let prepaid = apply_prepaid_to_statement id a.amount_due_paise b in
    let s = with_prepaid now prepaid.applied (fresh_statement cfg now id period a) in
    (
      s,
      record b {
        statements = b.statements ++ s ∷ [];
        lines = b.lines ++ map (line_of id) es;
        payments = prepaid.payments;
        allocations = prepaid.allocations;
      },
    )

unfoldable pub freeze_entries :
    FeeConfig
    → ℕ
    → ℕ
    → StatementPeriod
    → List Entry
    → Books
    → Result StatementError (Option Statement × Books)
freeze_entries cfg now id period [] b = ok (none, b)
freeze_entries cfg now id period (e ∷ es) b = derive_statement_amounts (e ∷ es) >>= λ a.
    if has_unapplied_credit a
    then ok (none, b)
    else let (s, b') = write_statement cfg now id period (e ∷ es) a b in ok (some s, b')

unfoldable pub freeze_weekly_commission_statement :
    FeeConfig → ℕ → ℕ → StatementPeriod → Books → Result StatementError (Option Statement × Books)
freeze_weekly_commission_statement cfg now id period b =
    if leb period.end period.start
    then throw invalid_period
    else elim (statement_of period b.statements) [
      | some s ↦ ok (some s, b)
      | none ↦ freeze_entries cfg now id period (entries_to_freeze period b) b
    ]
