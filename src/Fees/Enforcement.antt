-- ===== src/Fees/Enforcement.antt =====
-- apps/api/src/modules/fees/enforcement.ts: when a shop is blocked, and which notice a statement is due;
-- emitFeeNotice of notices.ts up to the delivery. The shop is found: the callers hold its row lock.
pub mod Block
pub mod Milestones
pub mod Notices
use print_q.Base.{
  ◌-◌, leb, ltb, ◌==◌, or_else, is_some, is_none, find, keep, any, map, ◌&&◌, ◌||◌, not, ◌++◌,
  tally, if◌then◌else◌, ℕ, Bool, true, false, Option, none, some, List, [], ◌∷◌, ◌+◌,
}
use print_q.Base.Sorting.{sort}
use print_q.Fees.{
  Books, Statement, FeeConfig, outstanding, is_unpaid, block_at_for, due_at_for, reminder_at_for,
  final_warning_at_for, statement_ready_at_for, blocked, unblocked, override, nothing_overdue,
}

pub data BlockChange : Type 0 where
  no_change now_unblocked : BlockChange
  now_blocked : (statement_id outstanding_paise : ℕ) → Option ℕ → BlockChange

-- `orderBy: [{ dueAt: 'asc' }, { id: 'asc' }]`; the query selects no null.
abbrev pub due_before : Statement → Statement → Bool
due_before s t =
    let a = or_else s.due_at 0 in let b = or_else t.due_at 0 in ltb a b || (a == b && leb s.id t.id)

-- `s.dueAt && s.amountDuePaise > s.paidPaise && blockAtFor(s.dueAt) <= now`.
unfoldable pub must_block : FeeConfig → ℕ → Statement → Bool
must_block cfg now s = elim s.due_at [
  | none ↦ false
  | some due_at ↦ ltb s.paid_paise s.amount_due_paise && leb (block_at_for cfg due_at) now
]

unfoldable pub overdue_statement : FeeConfig → ℕ → List Statement → Option Statement
overdue_statement cfg now ss =
    find (must_block cfg now)
      (if cfg.enabled then sort due_before (keep (λ s. is_unpaid s && is_some s.due_at) ss) else [])

-- `Boolean(shop.feeBlockOverrideUntil && shop.feeBlockOverrideUntil > now)`.
abbrev pub override_active : ℕ → Option ℕ → Bool
override_active now none = false
override_active now (some t) = ltb now t

unfoldable pub block_shop : ℕ → Statement → Books → Books
block_shop now s b = record b {
  fee_blocked_at = some now;
  fee_block_reason = some s.id;
  events = blocked s.id s.due_at ∷ b.events;
}

unfoldable pub unblock_shop : Bool → Books → Books
unblock_shop overridden b = record b {
  fee_blocked_at = none;
  fee_block_reason = none;
  events = unblocked (if overridden then override else nothing_overdue) ∷ b.events;
}

-- The decision, from the overdue statement, whether an override is active, and the block there is.
unfoldable pub decide_block : Option Statement → Bool → Option ℕ → ℕ → Books → BlockChange × Books
decide_block (some s) false none now b =
    (now_blocked s.id (s.amount_due_paise - s.paid_paise) s.due_at, block_shop now s b)
decide_block none overridden (some t) now b = (now_unblocked, unblock_shop overridden b)
decide_block (some s) true (some t) now b = (now_unblocked, unblock_shop true b)
decide_block _ _ _ now b = (no_change, b)

unfoldable pub evaluate_shop_fee_block : FeeConfig → ℕ → Books → BlockChange × Books
evaluate_shop_fee_block cfg now b =
    decide_block (overdue_statement cfg now b.statements)
      (override_active now b.fee_block_override_until) b.fee_blocked_at now b

pub data Milestone : Type 0 where
  statement_ready reminder final_warning : Milestone

unfoldable pub milestone_for : FeeConfig → ℕ → ℕ → Option Milestone
milestone_for cfg due_at now =
    if leb (block_at_for cfg due_at) now || leb due_at now
    then none
    else if leb (final_warning_at_for due_at) now
    then some final_warning
    else if leb (reminder_at_for cfg due_at) now
    then some reminder
    else if leb (statement_ready_at_for cfg due_at) now
    then some statement_ready
    else none

-- The unique dedupe keys: `stmt-<id>-<milestone>`, `stmt-<id>-blocked`, `payment-<id>`.
pub data NoticeKey : Type 0 where
  milestone_key : ℕ → Milestone → NoticeKey
  blocked_key payment_key : ℕ → NoticeKey

abbrev pub same_milestone : Milestone → Milestone → Bool
same_milestone statement_ready statement_ready = true
same_milestone reminder reminder = true
same_milestone final_warning final_warning = true
same_milestone _ _ = false

abbrev pub same_key : NoticeKey → NoticeKey → Bool
same_key (milestone_key i m) (milestone_key j n) = i == j && same_milestone m n
same_key (blocked_key i) (blocked_key j) = i == j
same_key (payment_key i) (payment_key j) = i == j
same_key _ _ = false

-- The notice is created unless its key is taken (P2002); the answer says whether it was.
unfoldable pub emit_fee_notice : NoticeKey → List NoticeKey → Bool × List NoticeKey
emit_fee_notice key notices =
    if any (same_key key) notices then (false, notices) else (true, key ∷ notices)

-- Statements frozen while fee payments were off get a due date.
abbrev pub needs_due_date : Statement → Bool
needs_due_date s = is_unpaid s && is_none s.due_at

abbrev pub adopt_row : ℕ → Statement → Statement
adopt_row due s = if needs_due_date s then record s { due_at = some due } else s

unfoldable pub adopt : FeeConfig → ℕ → Books → Books × ℕ
adopt cfg now b =
    if cfg.enabled
    then (
      record b { statements = map (adopt_row (due_at_for cfg now)) b.statements },
      tally needs_due_date b.statements,
    )
    else (b, 0)

-- The notice that one statement is due, or none.
unfoldable pub notice_due : FeeConfig → ℕ → Statement → Option NoticeKey
notice_due cfg now s = elim s.due_at [
  | none ↦ none
  | some due_at ↦
      if leb s.amount_due_paise s.paid_paise then none else elim (milestone_for cfg due_at now) [
        | none ↦ none
        | some m ↦ some (milestone_key s.id m)
      ]
]

abbrev pub count_sent : ℕ → Bool × List NoticeKey → List NoticeKey × ℕ
count_sent sent (made, notices) = (notices, if made then sent + 1 else sent)

-- One round of the loop: the notice that is due, if any, is created.
unfoldable pub offer : Option NoticeKey → List NoticeKey → ℕ → List NoticeKey × ℕ
offer none notices sent = (notices, sent)
offer (some key) notices sent = count_sent sent (emit_fee_notice key notices)

unfoldable pub send_notices :
    FeeConfig → ℕ → List Statement → List NoticeKey → ℕ → List NoticeKey × ℕ
send_notices cfg now [] notices sent = (notices, sent)
send_notices cfg now (s ∷ ss) notices sent =
    let (notices', sent') = offer (notice_due cfg now s) notices sent in
    send_notices cfg now ss notices' sent'

pub record FeeMaintenanceResult : Type 0 where
  pub adopted : ℕ
  pub notices_sent : ℕ
  pub change : BlockChange

-- A shop that neither is blocked nor has an unpaid statement is not evaluated.
unfoldable pub evaluate_if_needed : FeeConfig → ℕ → Books → BlockChange × Books
evaluate_if_needed cfg now b =
    if is_some b.fee_blocked_at || any is_unpaid b.statements
    then evaluate_shop_fee_block cfg now b
    else (no_change, b)

unfoldable pub send_all_notices : FeeConfig → ℕ → Books → List NoticeKey → List NoticeKey × ℕ
send_all_notices cfg now b notices =
    if cfg.enabled
    then send_notices cfg now (keep (λ s. is_unpaid s && is_some s.due_at) b.statements) notices 0
    else (notices, 0)

pub record Maintained : Type 0 where
  pub books : Books
  pub notices : List NoticeKey
  pub result : FeeMaintenanceResult

-- The part of one shop in a run of the maintenance, without the effects after the commit.
unfoldable pub run_fee_maintenance : FeeConfig → ℕ → Books → List NoticeKey → Maintained
run_fee_maintenance cfg now b notices =
    let (adopted_books, adopted) = adopt cfg now b in
    let (change, books) = evaluate_if_needed cfg now adopted_books in
    let (notices', sent) = send_all_notices cfg now books notices in
    record {
      books = books;
      notices = notices';
      result = record { adopted = adopted; notices_sent = sent; change = change };
    }
