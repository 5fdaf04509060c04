-- ===== src/Store.antt =====
-- apps/api/src/modules/jobs/transitions.ts: the database that a status change touches, and
-- `applyTransition`. Its two paths (one SQL statement, or an interactive transaction) write the same
-- rows, so they are one function. The columns that a caller sets are a function on the row, its
-- extra WHERE conditions a test. `now` and the id of the audit row (`randomUUID`) are arguments.
pub mod Race
pub mod Winner
pub mod Audit
mod Tests
use print_q.Base.{
  ℕ, Bool, true, false, Option, none, some, List, [], ◌∷◌, map, ◌==◌, ◌&&◌, if◌then◌else◌, find,
  or_else, Result, ok, throw, ◌>>=◌,
}
use print_q.Status.{JobStatus, JobEvent, ◌is◌, transition, InvalidTransition}
use print_q.Job.{Job}

pub data ActorType : Type 0 where
  student shop agent system : ActorType

pub record Actor : Type 0 where
  pub kind : ActorType
  pub id : Option ℕ

-- The label of an audit row: the event, or the label that the caller gives instead.
pub data AuditLabel : Type 0 where
  plain : JobEvent → AuditLabel
  absent_timeout absent_staff counter_queue_override_release print_lease_expired : AuditLabel
  print_restarted print_claim_timeout print_spool_timeout : AuditLabel

pub record JobEventRow : Type 0 where
  pub id : ℕ
  pub job_id : ℕ
  pub from_status : JobStatus
  pub to_status : JobStatus
  pub label : AuditLabel
  pub actor : Actor

pub record OutboxRow : Type 0 where
  pub job_event_id : ℕ
  pub job_id : ℕ

-- The newest row of a log stands first.
pub record Store : Type 0 where
  pub jobs : List Job
  pub events : List JobEventRow
  pub outbox : List OutboxRow

-- One request to change a status.
pub record Change : Type 0 where
  pub job_id : ℕ
  pub from : JobStatus
  pub event : JobEvent
  pub actor : Actor
  pub extra_data : Job → Job
  pub audit_event : Option AuditLabel
  pub guard : Job → Bool

abbrev pub no_data : Job → Job
no_data j = j

abbrev pub no_guard : Job → Bool
no_guard j = true

-- WHERE of the conditional UPDATE.
abbrev pub matches : Change → Job → Bool
matches c j = j.id == c.job_id && (j.status is c.from && c.guard j)

abbrev pub written : Change → JobStatus → ℕ → Job → Job
written c to now j = record (c.extra_data j) { status = to; updated_at = now }

unfoldable pub update_job : Change → JobStatus → ℕ → List Job → List Job
update_job c to now jobs = map (λ j. if matches c j then written c to now j else j) jobs

abbrev pub audit_row : Change → JobStatus → ℕ → JobEventRow
audit_row c to event_id = record {
  id = event_id;
  job_id = c.job_id;
  from_status = c.from;
  to_status = to;
  label = or_else c.audit_event (plain c.event);
  actor = c.actor;
}

-- The statement: the UPDATE with its audit and outbox rows, and the row that it returns, if any.
unfoldable pub commit : ℕ → ℕ → Change → JobStatus → Store → Store × Option Job
unfolding update_job
commit now event_id c to db = elim (find (matches c) db.jobs) [
  | none ↦ (db, none)
  | some j ↦ (
    record {
      jobs = update_job c to now db.jobs;
      events = audit_row c to event_id ∷ db.events;
      outbox = record { job_event_id = event_id; job_id = c.job_id } ∷ db.outbox;
    },
    some (written c to now j),
  )
]

unfoldable pub apply_transition :
    ℕ → ℕ → Change → Store → Result InvalidTransition (Store × Option Job)
unfolding commit
apply_transition now event_id c db =
    transition c.from c.event >>= λ to. ok (commit now event_id c to db)
