-- ===== src/Printing/Report.antt =====
-- The reports of an agent on its job: the `complete` and `fail` handlers of
-- apps/api/src/modules/agents/routes.ts. A request reads one store and writes to another. The reason
-- of a failure is any text, so it is kept as another error unless it is one of the known codes.
use print_q.Base.{
  ℕ, Bool, not, ◌&&◌, ◌||◌, Option, none, some, List, find, ◌==◌, opt_eq, is_some, if◌then◌else◌,
  Result, ok, throw, ◌≡◌, refl, Distinct,
}
use print_q.Status.{
  printing, ◌is◌, print_failed, InvalidTransition, otp_verified, transition, transitions,
}
use print_q.Job.{Job, PrintError, PrintCompletionMethod, simulator}
use print_q.Store.{Store, Change, Actor, agent, no_guard, apply_transition}
use print_q.Store.Race.{job_ids, apply_transition_race}
use print_q.Printing.{
  Agent, other_session, confirm_successful_print, confirmation, record_spool_accepted,
  mark_print_failed_agent_gone, lost_change,
}

pub data Outcome : Type 0 where
  spool_accepted simulator_complete : Outcome

pub data Answer : Type 0 where
  already_confirmed confirmation_required : Answer
  completed_with : Bool → Answer

pub data ReportFault : Type 0 where
  no_such_job reassigned not_printing simulator_disabled state_moved : ReportFault
  not_allowed : InvalidTransition → ReportFault

abbrev pub by_agent : Agent → Actor
by_agent a = record { kind = agent; id = some a.id }

abbrev pub own_job : ℕ → Agent → List Job → Option Job
own_job job_id a jobs = find (λ j. j.id == job_id && j.shop_id == a.shop_id) jobs

abbrev pub confirmed :
    Job → Result InvalidTransition (Store × Option Job) → Result ReportFault (Store × Answer)
confirmed job (throw e) = throw (not_allowed e)
confirmed job (ok (db, none)) = throw state_moved
confirmed job (ok (db, some row)) = ok (db, completed_with (is_some job.specs.binding))

unfoldable pub complete_print :
    Bool → ℕ → ℕ → Agent → ℕ → Outcome → Store → Store → Result ReportFault (Store × Answer)
unfolding confirm_successful_print record_spool_accepted
complete_print allow_simulated now event_id a job_id outcome seen db =
    elim (own_job job_id a seen.jobs) [
      | none ↦ throw no_such_job
      | some job ↦
          if not (opt_eq job.claimed_by_agent_id (some a.id))
            || other_session job.claimed_by_session_id a.session_id
          then throw reassigned
          else if not (job.status is printing)
          then if is_some job.print_confirmed_at
            then ok (db, already_confirmed)
            else throw not_printing
          else elim outcome [
            | simulator_complete ↦
                if not allow_simulated
                then throw simulator_disabled
                else (confirmed job
                    (confirm_successful_print now event_id job (by_agent a) simulator db))
            | spool_accepted ↦ ok (record_spool_accepted now job.id db, confirmation_required)
          ]
    ]

abbrev pub failure : Job → Agent → PrintError → Change
failure job a reason = record {
  job_id = job.id;
  from = printing;
  event = print_failed;
  actor = by_agent a;
  extra_data = λ j. record j {
    claimed_by_agent_id = none;
    claimed_by_session_id = none;
    print_error = some reason;
  };
  audit_event = none;
  guard = no_guard;
}

abbrev pub failed : Result InvalidTransition (Store × Option Job) → Result ReportFault Store
failed (throw e) = throw (not_allowed e)
failed (ok (db, none)) = throw state_moved
failed (ok (db, some row)) = ok db

unfoldable pub fail_print :
    ℕ → ℕ → Agent → ℕ → PrintError → Store → Store → Result ReportFault Store
unfolding apply_transition
fail_print now event_id a job_id reason seen db =
    elim (find
      (λ j. j.id == job_id && (j.shop_id == a.shop_id && opt_eq j.claimed_by_agent_id (some a.id)))
      seen.jobs) [
        | none ↦ throw no_such_job
        | some job ↦
            if other_session job.claimed_by_session_id a.session_id
            then throw no_such_job
            else if not (job.status is printing)
            then throw not_printing
            else failed (apply_transition now event_id (failure job a reason) db)
      ]

-- In a table of unique ids, after a confirmation that won, failing the same print as lost changes
-- nothing, whoever asks, for whatever reason and from whatever earlier read of the row.
pub confirm_successful_print-once :
    (now event_id later event_id' : ℕ) (job seen : Job) (actor asker : Actor)
    (method : PrintCompletionMethod) (reason : PrintError) (db db' : Store) (row : Job)
    → Distinct (job_ids db.jobs)
    → job.id ≡ seen.id
    → confirm_successful_print now event_id job actor method db ≡ ok (db', some row)
    → mark_print_failed_agent_gone later event_id' seen asker reason db' ≡ ok (db', none)
unfolding confirm_successful_print mark_print_failed_agent_gone transition transitions
confirm_successful_print-once now event_id later event_id' job seen actor asker method reason db db'
      row u same won =
    apply_transition_race now event_id later event_id' (confirmation now job actor method)
      (lost_change seen asker reason) db db' row otp_verified (λ j. refl) u same refl refl won
