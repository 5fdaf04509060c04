-- ===== src/Printing/Session.antt =====
-- The two sweeps of apps/api/src/modules/jobs/printLease.ts over the job table: `reconcileAgentSession`
-- and `failOrphanedPrints`. A query without an order gives the rows in the order of the table.
-- `fresh` numbers the audit rows of a loop.
use Prim.Native.Nat.{min}
use print_q.Base.{
  ℕ, ◌+◌, ◌*◌, Bool, false, not, ◌&&◌, ◌||◌, Option, none, some, List, [], ◌∷◌, keep, includes, ltb,
  opt_eq, is_some, is_none, if◌then◌else◌, ◌==◌, Result, ok, ◌>>=◌, take,
}
use print_q.Status.{printing, ◌is◌, InvalidTransition}
use print_q.Job.{Job, PrintError, agent_restarted}
use print_q.Store.{Store}
use print_q.Engine.Absent.{by_system}
use print_q.Printing.{
  Agent, Timeouts, sweep, find_agent, print_lost_reason, mark_print_failed_agent_gone,
}

abbrev pub in_flight_grace_ms : ℕ
in_flight_grace_ms = 15_000

-- `{ claimedBySessionId: { not: sessionId } }`, which SQL does not find true of NULL.
abbrev pub of_other_session : ℕ → Option ℕ → Bool
of_other_session session none = false
of_other_session session (some s) = not (s == session)

-- The second alternative, where the agent has reported its jobs.
abbrev pub unreported : ℕ → Option (List ℕ) → Job → Bool
unreported now none j = false
unreported now (some ids) j = not (includes j.id ids) && ltb (j.updated_at + in_flight_grace_ms) now

unfoldable pub lost_session : ℕ → ℕ → ℕ → Option (List ℕ) → Job → Bool
lost_session now agent_id session in_flight j =
    j.status is printing
    && (opt_eq j.claimed_by_agent_id (some agent_id)
        && (is_none j.spool_accepted_at
            && (of_other_session session j.claimed_by_session_id || unreported now in_flight j)))

-- The loop: each lost job is failed, and the ones that were won are counted.
unfoldable pub fail_each :
    ℕ → ℕ → (Job → Option PrintError) → List Job → Store → ℕ → Result InvalidTransition (Store × ℕ)
unfolding mark_print_failed_agent_gone
fail_each now fresh reason_of [] db failed = ok (db, failed)
fail_each now fresh reason_of (job ∷ jobs) db failed = elim (reason_of job) [
  | none ↦ fail_each now (fresh + 1) reason_of jobs db failed
  | some reason ↦ mark_print_failed_agent_gone now fresh job by_system reason db >>= λ r.
      fail_each now (fresh + 1) reason_of jobs r.0 (if is_some r.1 then failed + 1 else failed)
]

unfoldable pub reconcile_agent_session :
    ℕ → ℕ → ℕ → ℕ → Option (List ℕ) → Store → Result InvalidTransition (Store × ℕ)
unfolding lost_session fail_each
reconcile_agent_session now fresh agent_id session in_flight db =
    fail_each now fresh (λ j. some agent_restarted)
      (take 50 (keep (lost_session now agent_id session in_flight) db.jobs)) db 0

-- The rows that the sweep reads.
unfoldable pub may_be_orphaned : Timeouts → ℕ → Job → Bool
may_be_orphaned env now j =
    let earliest_ms = min env.print_lease_timeout_seconds env.print_claim_timeout_seconds * 1000 in
    j.status is printing
    && (ltb (j.updated_at + earliest_ms) now
        || (is_some j.claimed_by_session_id && is_none j.spool_accepted_at))

abbrev pub holder_of : List Agent → Job → Option Agent
holder_of agents j = elim j.claimed_by_agent_id [
  | none ↦ none
  | some agent_id ↦ find_agent agent_id agents
]

unfoldable pub fail_orphaned_prints :
    Timeouts → ℕ → ℕ → List Agent → Store → Result InvalidTransition (Store × ℕ)
unfolding may_be_orphaned print_lost_reason fail_each
fail_orphaned_prints env now fresh agents db =
    fail_each now fresh (λ j. print_lost_reason env j (holder_of agents j) now sweep)
      (take 200 (keep (may_be_orphaned env now) db.jobs)) db 0
