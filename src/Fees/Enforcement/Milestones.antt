-- ===== src/Fees/Enforcement/Milestones.antt =====
-- apps/api/src/modules/fees/enforcement.ts: the notices of a statement over time.
use print_q.Base.{◌≡◌, ℕ, ◌≤◌, ◌<◌, Option, none, some, arith}
use print_q.Fees.{
  FeeConfig, due_at_for, block_at_for, reminder_at_for, final_warning_at_for,
  statement_ready_at_for,
}
use print_q.Fees.Enforcement.{Milestone, statement_ready, reminder, final_warning, milestone_for}

-- How far along a statement is: 0 has no notice due.
unfoldable pub urgency : Option Milestone → ℕ
urgency none = 0
urgency (some statement_ready) = 1
urgency (some reminder) = 2
urgency (some final_warning) = 3

-- From the freeze until the due date a statement always has a notice due, and as time passes the
-- notices never become less urgent; at the due date and after it there is none.
pub milestone_for-timeline :
    (cfg : FeeConfig) (frozen_at now later : ℕ)
    → frozen_at ≤ now
    → now ≤ later
    → let due_at = due_at_for cfg frozen_at in
      (later < due_at
        → (1 ≤ urgency (milestone_for cfg due_at now))
          × (urgency (milestone_for cfg due_at now) ≤ urgency (milestone_for cfg due_at later)))
      × (due_at ≤ later → milestone_for cfg due_at later ≡ none)
unfolding urgency milestone_for due_at_for block_at_for reminder_at_for final_warning_at_for
    statement_ready_at_for
milestone_for-timeline cfg frozen_at now later h k = (λ l. ground arith, λ l. ground arith)
