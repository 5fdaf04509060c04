-- ===== src/Printing/Lost.antt =====
-- apps/api/src/modules/jobs/printLease.ts: when a print counts as lost.
use print_q.Base.{◌≡◌, refl, ℕ, ◌*◌, ◌≤◌, arith, true, Option, none, some, is_some}
use print_q.Job.{Job}
use print_q.Printing.{
  Agent, Timeouts, Mode, sweep, staff, agent_holds_lease, agent_gone_for_staff, gone,
  print_lost_reason, late, staff_offline_after_ms,
}

gone-later :
    (env : Timeouts) (job : Job) (a : Option Agent) (now later : ℕ) (mode : Mode)
    → now ≤ later
    → gone env job a now mode ≡ true
    → gone env job a later mode ≡ true
unfolding gone agent_gone_for_staff agent_holds_lease
gone-later env job none now later sweep le h = ground arith
gone-later env job (some a) now later sweep le h = ground arith
gone-later env job none now later staff le h = ground arith
gone-later env job (some a) now later staff le h = ground arith

late-later :
    (env : Timeouts) (job : Job) (now later : ℕ) (accepted : Option ℕ)
    → now ≤ later
    → is_some (late env job now accepted) ≡ true
    → is_some (late env job later accepted) ≡ true
late-later env job now later none le h = ground arith
late-later env job now later (some at) le h = ground arith

-- A print that is lost stays lost: while its row and its agent's row do not change, a later look
-- of the same kind also finds a reason.
pub print_lost_reason-later :
    (env : Timeouts) (job : Job) (a : Option Agent) (now later : ℕ) (mode : Mode)
    → now ≤ later
    → is_some (print_lost_reason env job a now mode) ≡ true
    → is_some (print_lost_reason env job a later mode) ≡ true
unfolding print_lost_reason
print_lost_reason-later env job a now later mode le h = ground (
  arith,
  gone-later env job a now later mode le,
  late-later env job now later job.spool_accepted_at le,
)

gone-staff :
    (env : Timeouts) (job : Job) (a : Option Agent) (now : ℕ)
    → staff_offline_after_ms ≤ env.print_lease_timeout_seconds * 1000
    → gone env job a now sweep ≡ true
    → gone env job a now staff ≡ true
unfolding gone agent_gone_for_staff agent_holds_lease
gone-staff env job none now le h = refl
gone-staff env job (some a) now le h = ground arith

-- Staff never wait longer than the sweep: with a lease of at least the 45 seconds of the staff
-- cut-off, a print that the sweep would fail is one that staff may already treat as lost.
pub print_lost_reason-staff :
    (env : Timeouts) (job : Job) (a : Option Agent) (now : ℕ)
    → staff_offline_after_ms ≤ env.print_lease_timeout_seconds * 1000
    → is_some (print_lost_reason env job a now sweep) ≡ true
    → is_some (print_lost_reason env job a now staff) ≡ true
unfolding print_lost_reason
print_lost_reason-staff env job a now le h = ground (arith, gone-staff env job a now le)
