-- ===== src/Engine/Absent.antt =====
-- The absent path of apps/api/src/modules/queue/engine.ts: `markAbsent`, `removeFromLiveQueue`,
-- `expireReveal`, the loop of `sweepExpiredReveals`, and the handlers of retired timers.
pub mod Expiry
use print_q.Base.{
  take, ℕ, zero, suc, ◌+◌, Bool, true, false, not, Option, none, some, List, [], ◌∷◌, map, ◌==◌,
  leb, ◌&&◌, ◌||◌, if◌then◌else◌, is_none, is_some, find, keep, Result, ok, throw, ◌>>=◌,
}
use print_q.Base.Sorting.{sort}
use print_q.Status.{JobStatus, awaiting_arrival, queued, notified, no_show, ◌is◌, queue_skipped}
use print_q.Job.{Job, AbsentReason, staff, grace_expired}
use print_q.Store.{
  Store, Change, Actor, ActorType, shop, system, AuditLabel, absent_timeout, absent_staff, no_guard,
  apply_transition,
}
use print_q.Engine.{
  Fault, not_found, conflict, invalid, Reason, only_waiting, state_changed, needs_fresh_check_in,
  lift, find_job, is_waiting,
}

abbrev pub by_system : Actor
by_system = record { kind = system; id = none }

abbrev pub leave_line : ℕ → AbsentReason → Job → Job
leave_line now reason j = record j {
  queued_at = none;
  queue_left_at = some now;
  otp_hash = none;
  otp_code = none;
  otp_expires_at = none;
  revealed_at = none;
  reveal_deadline_at = none;
  arriving_notified_at = none;
  absent_at = some now;
  absent_reason = some reason;
}

abbrev pub absent_label : AbsentReason → AuditLabel
absent_label grace_expired = absent_timeout
absent_label staff = absent_staff

abbrev pub absent_change : ℕ → Job → Actor → AbsentReason → (Job → Bool) → Change
absent_change now job actor reason guard = record {
  job_id = job.id;
  from = job.status;
  event = queue_skipped;
  actor = actor;
  extra_data = leave_line now reason;
  audit_event = some (absent_label reason);
  guard = guard;
}

unfoldable pub mark_absent :
    ℕ → ℕ → Job → Actor → AbsentReason → (Job → Bool) → Store → Result Fault (Store × Option Job)
unfolding apply_transition
mark_absent now event_id job actor reason guard db =
    lift (apply_transition now event_id (absent_change now job actor reason guard) db)

abbrev or_conflict : Store × Option Job → Result Fault (Store × Job)
or_conflict (db, none) = throw (conflict state_changed)
or_conflict (db, some j) = ok (db, j)

-- `removeFromLiveQueue`: the shop's own job only.
unfoldable pub remove_from_live_queue :
    ℕ → ℕ → ℕ → ℕ → Option ℕ → Store → Result Fault (Store × Job)
unfolding mark_absent
remove_from_live_queue now event_id job_id shop_id actor_id db =
    elim (find (λ j. j.id == job_id && j.shop_id == shop_id) db.jobs) [
      | none ↦ throw not_found
      | some job ↦
          if job.status is awaiting_arrival
          then ok (db, job)
          else if not (is_waiting job.status)
          then throw (conflict only_waiting)
          else (mark_absent now event_id job (record { kind = shop; id = actor_id }) staff no_guard
                db
              >>= or_conflict)
    ]

-- `deadline <= now`, and not for null.
abbrev pub past : ℕ → Option ℕ → Bool
past now none = false
past now (some deadline) = leb deadline now

-- The WHERE conditions that `expireReveal` adds, which are also its early returns.
abbrev pub reveal_overdue : ℕ → Job → Bool
reveal_overdue now j = is_some j.revealed_at && past now j.reveal_deadline_at

-- `seen` is the database when the job is read, `db` when the update runs.
unfoldable pub expire_reveal :
    (now event_id job_id : ℕ) → (seen db : Store) → Result Fault (Store × Bool)
unfolding mark_absent
expire_reveal now event_id job_id seen db = elim (find_job job_id seen.jobs) [
  | none ↦ ok (db, false)
  | some job ↦
      if not (is_waiting job.status)
      then ok (db, false)
      else if not (reveal_overdue now job)
      then ok (db, false)
      else (mark_absent now event_id job by_system grace_expired (reveal_overdue now) db >>= λ r.
          ok (r.0, is_some r.1))
]

-- `isLegacyNoShowTimerDue` and the handlers of the retired timed model; `sweeper_id` is the name that
-- the first gives as its actor.
unfoldable pub is_legacy_no_show_timer_due : Option ℕ → ℕ → Bool
is_legacy_no_show_timer_due none now = true
is_legacy_no_show_timer_due (some expires) now = leb expires now

unfoldable pub handle_no_show_check : ℕ → ℕ → ℕ → ℕ → Store → Result Fault Store
unfolding remove_from_live_queue is_legacy_no_show_timer_due
handle_no_show_check now event_id sweeper_id job_id db = elim (find_job job_id db.jobs) [
  | none ↦ ok db
  | some job ↦
      if job.status is notified && is_legacy_no_show_timer_due job.otp_expires_at now
      then (remove_from_live_queue now event_id job.id job.shop_id (some sweeper_id) db >>= λ r.
          ok r.0)
      else ok db
]

unfoldable pub handle_grace_expiry : ℕ → ℕ → ℕ → Store → Result Fault Store
unfolding apply_transition
handle_grace_expiry now event_id job_id db = elim (find_job job_id db.jobs) [
  | none ↦ ok db
  | some job ↦
      if job.status is no_show
      then (lift (
            apply_transition now event_id
              (record {
                job_id = job_id;
                from = no_show;
                event = queue_skipped;
                actor = by_system;
                extra_data = λ j. record j { queued_at = none; queue_left_at = some now };
                audit_event = none;
                guard = no_guard;
              })
              db)
          >>= λ r. ok r.0)
      else ok db
]

-- `requeueJob`: the location-free way back is closed for every job.
unfoldable pub requeue_job : ℕ → ℕ → Store → Result Fault Job
requeue_job job_id student_id db =
    elim (find (λ j. j.id == job_id && j.student_id == student_id) db.jobs) [
      | none ↦ throw not_found
      | some job ↦ throw (conflict needs_fresh_check_in)
    ]

abbrev pub overdue_in_table : ℕ → Job → Bool
overdue_in_table now j = is_waiting j.status && past now j.reveal_deadline_at

-- Nulls cannot occur among the rows that the query selects.
abbrev pub deadline_before : Job → Job → Bool
deadline_before x y = elim x.reveal_deadline_at [
  | none ↦ true
  | some a ↦ elim y.reveal_deadline_at [ none ↦ false | some b ↦ leb a b ]
]

-- The loop: an exception is logged and the next job is tried. `fresh` numbers the audit rows. Nothing
-- else writes while it runs.
unfoldable pub sweep_loop : ℕ → ℕ → List ℕ → Store → ℕ → Store × ℕ
unfolding expire_reveal
sweep_loop now fresh [] db expired = (db, expired)
sweep_loop now fresh (job_id ∷ ids) db expired = elim (expire_reveal now fresh job_id db db) [
  | throw e ↦ sweep_loop now (fresh + 1) ids db expired
  | ok (db', done) ↦ sweep_loop now (fresh + 1) ids db' (if done then expired + 1 else expired)
]

unfoldable pub sweep_expired_reveals : ℕ → ℕ → Store → Store × ℕ
unfolding sweep_loop sort
sweep_expired_reveals now fresh db =
    let overdue = take 100 (sort deadline_before (keep (overdue_in_table now) db.jobs)) in
    sweep_loop now fresh (map (λ j. j.id) overdue) db 0
