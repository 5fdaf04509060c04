-- ===== src/Engine.antt =====
-- apps/api/src/modules/queue/engine.ts over the store of jobs/transitions.ts: what the operations of
-- the live line share. Notifications, socket events and the re-sync of the line that follow a
-- committed change are separate steps; the re-sync is `Queue.Snapshot.reconcile_shop_queue`.
pub mod Absent
pub mod CheckIn
pub mod Visibility
mod Tests
use print_q.Base.{
  ℕ, ◌≡◌, arith, find_sound, Bool, true, false, Option, none, some, List, find, ◌==◌, ◌||◌,
  if◌then◌else◌, Result, ok, throw, ◌>>=◌,
}
use print_q.Status.{JobStatus, queued, notified, ◌is◌, InvalidTransition}
use print_q.Job.{Job}
use print_q.Store.{Store, Change, apply_transition}

-- The 409 and 400 answers, by their message.
pub data Reason : Type 0 where
  cannot_join not_prepared future_location stale_location no_geofence inaccurate_location : Reason
  outside_radius too_early no_printer state_changed only_waiting needs_fresh_check_in : Reason

pub data Fault : Type 0 where
  not_found : Fault
  conflict : Reason → Fault
  invalid : InvalidTransition → Fault

-- `applyTransition`, with its exception as a fault.
abbrev pub lift {ℓ} : {A : Type ℓ} → Result InvalidTransition A → Result Fault A
lift (ok a) = ok a
lift (throw e) = throw (invalid e)

-- `prisma.job.findUnique({ where: { id } })`.
abbrev pub find_job : ℕ → List Job → Option Job
find_job job_id jobs = find (λ j. j.id == job_id) jobs

abbrev pub is_waiting : JobStatus → Bool
is_waiting s = s is queued || s is notified

pub found_id : (k : ℕ) (jobs : List Job) (j : Job) → find_job k jobs ≡ some j → j.id ≡ k
found_id k jobs j h = eqb_eq (find_sound (λ x. x.id == k) jobs j h)
  where
    eqb_eq : {m n : ℕ} → (m == n) ≡ true → m ≡ n
    eqb_eq h = ground arith
