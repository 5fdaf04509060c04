-- ===== src/Printing.antt =====
-- apps/api/src/modules/jobs/printLease.ts and printCompletion.ts, with the claim of
-- apps/api/src/modules/agents/routes.ts: which computer prints a job, when it has lost it, and how
-- the print ends. Notifications, file deletion and commission that follow a commit are not here.
pub mod Lost
pub mod Held
pub mod Claims
pub mod Session
pub mod Report
mod Tests
use print_q.Base.{
  ℕ, ◌+◌, ◌*◌, Bool, true, false, not, ◌&&◌, ◌||◌, Option, none, some, List, [], ◌∷◌, map, find,
  any, includes, ◌==◌, leb, if◌then◌else◌, is_some, is_none, or_else, opt_eq, Result, ok, throw,
  ◌>>=◌,
}
use print_q.Status.{
  JobStatus, otp_verified, printing, ◌is◌, print_started, print_failed, print_completed,
  finishing_required, InvalidTransition,
}
use print_q.Job.{
  Job, PrintError, agent_offline, agent_restarted, claim_timeout, spool_timeout, no_agent,
  other_error, PrintCompletionMethod, staff_confirmed, simulator,
}
use print_q.Store.{
  Store, Change, Actor, ActorType, agent, system, AuditLabel, print_lease_expired, print_restarted,
  print_claim_timeout, print_spool_timeout, no_guard, apply_transition,
}

-- The columns of an agent row that the decisions read.
pub record Agent : Type 0 where
  pub id : ℕ
  pub shop_id : ℕ
  pub is_offline : Bool
  pub last_heartbeat_at : Option ℕ
  pub created_at : ℕ
  pub session_id : Option ℕ
  pub connected_printer_ids : List ℕ

pub record Timeouts : Type 0 where
  pub print_lease_timeout_seconds : ℕ
  pub print_claim_timeout_seconds : ℕ
  pub print_spool_timeout_seconds : ℕ

abbrev pub staff_offline_after_ms : ℕ
staff_offline_after_ms = 45_000

-- `now - lastSeen <= silentMs`, on integers of any sign.
unfoldable pub agent_holds_lease : Option Agent → ℕ → ℕ → Bool
agent_holds_lease none now silent_ms = false
agent_holds_lease (some a) now silent_ms =
    leb now (or_else a.last_heartbeat_at a.created_at + silent_ms)

unfoldable pub agent_gone_for_staff : Option Agent → ℕ → Bool
unfolding agent_holds_lease
agent_gone_for_staff none now = true
agent_gone_for_staff (some a) now =
    a.is_offline || not (agent_holds_lease (some a) now staff_offline_after_ms)

pub data Mode : Type 0 where
  sweep staff : Mode

-- Both ids are known and differ.
abbrev pub other_session : Option ℕ → Option ℕ → Bool
other_session (some a) (some b) = not (a == b)
other_session _ _ = false

unfoldable pub restarted : Job → Option Agent → Bool
restarted job none = false
restarted job (some a) =
    is_none job.spool_accepted_at && other_session job.claimed_by_session_id a.session_id

-- `now - since >= limit`, on integers of any sign.
abbrev pub aged : ℕ → ℕ → ℕ → Bool
aged now since limit = leb (since + limit) now

unfoldable pub gone : Timeouts → Job → Option Agent → ℕ → Mode → Bool
unfolding agent_gone_for_staff agent_holds_lease
gone env job a now staff = agent_gone_for_staff a now
gone env job a now sweep =
    let lease_ms = env.print_lease_timeout_seconds * 1000 in
    aged now job.updated_at lease_ms && not (agent_holds_lease a now lease_ms)

abbrev pub late : Timeouts → Job → ℕ → Option ℕ → Option PrintError
late env job now none =
    if aged now job.updated_at (env.print_claim_timeout_seconds * 1000)
    then some claim_timeout
    else none
late env job now (some accepted) =
    if aged now accepted (env.print_spool_timeout_seconds * 1000) then some spool_timeout else none

unfoldable pub print_lost_reason : Timeouts → Job → Option Agent → ℕ → Mode → Option PrintError
unfolding restarted gone
print_lost_reason env job a now mode =
    if restarted job a
    then some agent_restarted
    else if gone env job a now mode
    then some agent_offline
    else late env job now job.spool_accepted_at

abbrev pub find_agent : ℕ → List Agent → Option Agent
find_agent agent_id agents = find (λ a. a.id == agent_id) agents

unfoldable pub is_print_orphaned : Timeouts → Job → List Agent → ℕ → Bool
unfolding print_lost_reason
is_print_orphaned env job agents now = elim job.claimed_by_agent_id [
  | none ↦ true
  | some agent_id ↦ is_some (print_lost_reason env job (find_agent agent_id agents) now staff)
]

abbrev pub is_restart : PrintError → Bool
is_restart agent_restarted = true
is_restart _ = false

-- The audit label of a lost print; a reason that `printLostReason` never gives keeps the plain label.
abbrev pub lost_label : PrintError → Option AuditLabel
lost_label agent_offline = some print_lease_expired
lost_label agent_restarted = some print_restarted
lost_label claim_timeout = some print_claim_timeout
lost_label spool_timeout = some print_spool_timeout
lost_label _ = none

abbrev pub lost_change : Job → Actor → PrintError → Change
lost_change job actor reason = record {
  job_id = job.id;
  from = printing;
  event = print_failed;
  actor = actor;
  extra_data = λ j. record j {
    claimed_by_agent_id = none;
    claimed_by_session_id = none;
    print_error = some reason;
  };
  audit_event = lost_label reason;
  guard = λ j.
      opt_eq j.claimed_by_agent_id job.claimed_by_agent_id
      && (not (is_restart reason) || is_none j.spool_accepted_at);
}

unfoldable pub mark_print_failed_agent_gone :
    ℕ → ℕ → Job → Actor → PrintError → Store → Result InvalidTransition (Store × Option Job)
unfolding apply_transition
mark_print_failed_agent_gone now event_id job actor reason db =
    apply_transition now event_id (lost_change job actor reason) db

abbrev pub confirmation : ℕ → Job → Actor → PrintCompletionMethod → Change
confirmation now job actor method = record {
  job_id = job.id;
  from = printing;
  event = if is_some job.specs.binding then finishing_required else print_completed;
  actor = actor;
  extra_data = λ j. record j {
    print_error = none;
    spool_accepted_at = some (or_else job.spool_accepted_at now);
    print_confirmed_at = some now;
    print_confirmed_by_id = elim method [ staff_confirmed ↦ actor.id | simulator ↦ none ];
    print_completion_method = some method;
  };
  audit_event = none;
  guard = no_guard;
}

unfoldable pub confirm_successful_print :
    ℕ
    → ℕ
    → Job
    → Actor
    → PrintCompletionMethod
    → Store
    → Result InvalidTransition (Store × Option Job)
unfolding apply_transition
confirm_successful_print now event_id job actor method db =
    apply_transition now event_id (confirmation now job actor method) db

abbrev pub awaits_spool : ℕ → Job → Bool
awaits_spool job_id j = j.id == job_id && (j.status is printing && is_none j.spool_accepted_at)

-- `updatedAt` is written by every update of the row.
unfoldable pub record_spool_accepted : ℕ → ℕ → Store → Store
record_spool_accepted now job_id db = record db {
  jobs =
      map
        (λ j.
          if awaits_spool job_id j
          then record j { spool_accepted_at = some now; print_error = none; updated_at = now }
          else j)
        db.jobs;
}

-- `NOT_STAFF_HELD`.
abbrev pub not_staff_held : Option PrintError → Bool
not_staff_held (some agent_offline) = false
not_staff_held (some agent_restarted) = false
not_staff_held (some claim_timeout) = false
not_staff_held (some spool_timeout) = false
not_staff_held _ = true

abbrev pub free_for : Agent → Option ℕ → Bool
free_for a none = true
free_for a (some holder) = holder == a.id

abbrev pub reaches : Agent → Option ℕ → Bool
reaches a none = false
reaches a (some printer) = includes printer a.connected_printer_ids

-- WHERE of the claim.
unfoldable pub claimable : Agent → ℕ → Job → Bool
claimable a job_id j =
    j.id == job_id
    && (j.shop_id == a.shop_id
        && (j.status is otp_verified
            && (not_staff_held j.print_error
                && (reaches a j.assigned_printer_id && free_for a j.claimed_by_agent_id))))

abbrev pub claimed : ℕ → Agent → Job → Job
claimed now a j = record j {
  claimed_by_agent_id = some a.id;
  claimed_by_session_id = a.session_id;
  updated_at = now;
}

pub data ClaimFault : Type 0 where
  not_printable state_changed : ClaimFault
  refused : InvalidTransition → ClaimFault

abbrev pub start_change : ℕ → Agent → Change
start_change job_id a = record {
  job_id = job_id;
  from = otp_verified;
  event = print_started;
  actor = record { kind = agent; id = some a.id };
  extra_data = λ j. record j { print_error = none; print_attempts = j.print_attempts + 1 };
  audit_event = none;
  guard = no_guard;
}

-- The first statement of the handler of `/jobs/:id/claim`, the conditional update, and whether it found
-- the row.
unfoldable pub reserve_claim : (now : ℕ) → Agent → (job_id : ℕ) → Store → Bool × Store
unfolding claimable
reserve_claim now a job_id db = (
  any (claimable a job_id) db.jobs,
  record db { jobs = map (λ j. if claimable a job_id j then claimed now a j else j) db.jobs },
)

abbrev pub started :
    Store → Result InvalidTransition (Store × Option Job) → Store × Result ClaimFault Job
started db (ok (db', some j)) = (db', ok j)
started db (ok (db', none)) = (db', throw state_changed)
started db (throw e) = (db, throw (refused e))

-- The second statement, the transition. Where it fails, the columns of the claim stay.
unfoldable pub start_claim :
    (now event_id : ℕ) → Agent → (job_id : ℕ) → Store → Store × Result ClaimFault Job
unfolding apply_transition
start_claim now event_id a job_id db =
    started db (apply_transition now event_id (start_change job_id a) db)

-- The handler. The two statements commit apart: `meanwhile` is what other requests do in between.
unfoldable pub claim :
    (now event_id : ℕ)
    → Agent
    → (job_id : ℕ) → (Store → Store)
    → Store
    → Store × Result ClaimFault Job
unfolding reserve_claim start_claim
claim now event_id a job_id meanwhile db =
    let (won, reserved) = reserve_claim now a job_id db in
    if won
    then start_claim now event_id a job_id (meanwhile reserved)
    else (reserved, throw not_printable)
