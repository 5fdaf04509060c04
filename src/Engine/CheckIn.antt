-- ===== src/Engine/CheckIn.antt =====
-- `checkInJob` of apps/api/src/modules/queue/engine.ts up to its commit. The request reads a snapshot
-- and commits later, on a store that others may have changed meanwhile: both are arguments.
-- Places are of any type, and `distance_meters` (lib/geo.ts, on floating-point coordinates) is a
-- parameter: it and `accuracy_m` are rounded up to whole metres, which does not change how they
-- compare with the whole metres that a shop sets.
pub mod Entry
pub mod Again
pub mod Back
use Prim.Native.Nat.{min}
use print_q.Base.{
  ℕ, ◌+◌, ◌*◌, Bool, true, false, not, Option, none, some, List, ltb, leb, ◌==◌, ◌&&◌, ◌||◌,
  if◌then◌else◌, find, Result, ok, throw, ◌>>=◌,
}
use print_q.Status.{JobStatus, queued, awaiting_arrival, no_show, requeued, arrived, ◌is◌}
use print_q.Job.{
  Job, is_paid, is_counter_due, is_cash_due, is_pay_at_shop, is_cash_provider, is_scheduled,
}
use print_q.Store.{Store, Change, student, no_guard, apply_transition}
use print_q.Assignment.{PrinterProfile, PrinterRecommendation, rank_from_snapshot}
use print_q.Queue.Pass.{line}
use print_q.Engine.{
  Fault, not_found, conflict, cannot_join, not_prepared, future_location, stale_location,
  no_geofence, inaccurate_location, outside_radius, too_early, no_printer, state_changed, lift,
  find_job,
}

abbrev pub max_location_age_ms : ℕ
max_location_age_ms = 90_000

abbrev pub max_location_accuracy_m : ℕ
max_location_accuracy_m = 100

pub record ArrivalProof (Place : Type 0) : Type 0 where
  pub place : Place
  pub accuracy_m : ℕ
  pub measured_at : ℕ

-- What the request reads of the shop; `agents` are the printers of each online agent.
pub record ShopRow (Place : Type 0) : Type 0 where
  pub place : Option Place
  pub check_in_radius_m : ℕ
  pub printers : List PrinterProfile
  pub agents : List (List ℕ)

abbrev pub may_arrive : JobStatus → Bool
may_arrive s = s is awaiting_arrival || (s is no_show || s is requeued)

abbrev pub payment_ready : Job → Bool
payment_ready j =
    is_paid j.payment_status
    || ((is_pay_at_shop j.payment_provider && is_counter_due j.payment_status)
        || (is_cash_provider j.payment_provider && is_cash_due j.payment_status))

-- `Date.now() < scheduledTime - lead`.
abbrev pub opens_later : ℕ → ℕ → Job → Bool
opens_later now lead_minutes j = elim j.scheduled_time [
  | none ↦ false
  | some slot ↦ is_scheduled j.mode && ltb (now + lead_minutes * 60_000) slot
]

abbrev pub join_line : ℕ → ℕ → Job → Job
join_line now printer_id j = record j {
  assigned_printer_id = some printer_id;
  queued_at = some now;
  arrived_at = some now;
  queue_left_at = none;
  near_front_notified_at = none;
  revealed_at = none;
  reveal_deadline_at = none;
  arriving_notified_at = none;
  absent_at = none;
  absent_reason = none;
  check_in_count = j.check_in_count + 1;
  otp_hash = none;
  otp_code = none;
  otp_expires_at = none;
}

abbrev pub arrival_change : ℕ → Job → ℕ → ℕ → Change
arrival_change now job student_id printer_id = record {
  job_id = job.id;
  from = job.status;
  event = arrived;
  actor = record { kind = student; id = some student_id };
  extra_data = join_line now printer_id;
  audit_event = none;
  guard = no_guard;
}

-- After a lost race: a job that is queued by now counts as checked in.
unfoldable pub settle_check_in : ℕ → Store × Option Job → Result Fault (Store × Job)
settle_check_in job_id (db, some updated) = ok (db, updated)
settle_check_in job_id (db, none) = elim (find_job job_id db.jobs) [
  | none ↦ throw (conflict state_changed)
  | some current ↦
      if current.status is queued then ok (db, current) else throw (conflict state_changed)
]

module _ {Place : Type 0} (distance_meters : Place → Place → ℕ) where
  -- The checks of the location reading.
  unfoldable pub location_fault : ℕ → ArrivalProof Place → ShopRow Place → Option Fault
  location_fault now arrival shop =
      if ltb (now + 10_000) arrival.measured_at
      then some (conflict future_location)
      else if ltb (arrival.measured_at + max_location_age_ms) now
      then some (conflict stale_location)
      else elim shop.place [
        | none ↦ some (conflict no_geofence)
        | some place ↦
            if ltb (min max_location_accuracy_m shop.check_in_radius_m) arrival.accuracy_m
            then some (conflict inaccurate_location)
            else if not (leb (distance_meters arrival.place place) shop.check_in_radius_m)
            then some (conflict outside_radius)
            else none
      ]

  -- Everything between the read and the commit that can refuse the request.
  unfoldable pub check_in_fault : ℕ → ℕ → ArrivalProof Place → ShopRow Place → Job → Option Fault
  unfolding location_fault
  check_in_fault now lead_minutes arrival shop job =
      if not (may_arrive job.status)
      then some (conflict cannot_join)
      else if not (payment_ready job)
      then some (conflict not_prepared)
      else elim (location_fault now arrival shop) [
        | some e ↦ some e
        | none ↦ if opens_later now lead_minutes job then some (conflict too_early) else none
      ]

  unfoldable pub recommended_printer : ShopRow Place → Store → Job → Option PrinterRecommendation
  unfolding rank_from_snapshot line
  recommended_printer shop seen job =
      (rank_from_snapshot shop.printers shop.agents (line job.shop_id seen.jobs) job.specs
        job.pages_per_copy (some job.id)).recommended

  unfoldable pub check_in_job :
      ℕ
      → ℕ
      → ℕ
      → ℕ
      → ℕ
      → ArrivalProof Place
      → ShopRow Place
      → Store
      → Store
      → Result Fault (Store × Job)
  unfolding check_in_fault recommended_printer settle_check_in apply_transition
  check_in_job now event_id lead_minutes job_id student_id arrival shop seen db =
      elim (find (λ j. j.id == job_id && j.student_id == student_id) seen.jobs) [
        | none ↦ throw not_found
        | some job ↦
            if job.status is queued
            then ok (db, job)
            else elim (check_in_fault now lead_minutes arrival shop job) [
              | some e ↦ throw e
              | none ↦ elim (recommended_printer shop seen job) [
                | none ↦ throw (conflict no_printer)
                | some r ↦
                    lift (
                      apply_transition now event_id (arrival_change now job student_id r.printer_id)
                        db)
                    >>= settle_check_in job.id
              ]
            ]
      ]
