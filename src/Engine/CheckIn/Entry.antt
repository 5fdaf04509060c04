-- ===== src/Engine/CheckIn/Entry.antt =====
-- Who can join the live line by a check-in.
use Prim.Native.Nat.{min}
use print_q.Base.{
  ℕ, ◌+◌, ◌≤◌, ◌≡◌, refl, ap, ◌∙◌, inl, inr, Bool, true, false, not, Option, none, some, List, [],
  ◌∷◌, arith, ◌==◌, ◌&&◌, if◌then◌else◌, find, ok, Option-cases,
}
use print_q.Status.{JobStatus, queued, arrived, transition, transitions, ◌is◌, is_refl}
use print_q.Job.{Job}
use print_q.Store.{Store}
use print_q.Store.Winner.{apply_transition_won, after_commit}
use print_q.Assignment.{PrinterRecommendation}
use print_q.Engine.{Fault, find_job, lift, found_id}
use print_q.Engine.CheckIn.{
  ArrivalProof, ShopRow, may_arrive, payment_ready, opens_later, join_line, arrival_change,
  settle_check_in, location_fault, check_in_fault, recommended_printer, check_in_job,
  max_location_age_ms, max_location_accuracy_m,
}

module _ {Place : Type 0} (distance_meters : Place → Place → ℕ) where
  -- What a check-in proves about the student's position.
  pub record IsAtShop (now : ℕ) (arrival : ArrivalProof Place) (shop : ShopRow Place) : Type 0 where
    pub place : Place
    pub geofence : shop.place ≡ some place
    pub not_future : arrival.measured_at ≤ now + 10_000
    pub recent : now ≤ arrival.measured_at + max_location_age_ms
    pub accurate : arrival.accuracy_m ≤ min max_location_accuracy_m shop.check_in_radius_m
    pub near : distance_meters arrival.place place ≤ shop.check_in_radius_m

  location_fault-none :
      (now : ℕ) (arrival : ArrivalProof Place) (shop : ShopRow Place)
      → location_fault distance_meters now arrival shop ≡ none
      → IsAtShop now arrival shop
  unfolding location_fault
  location_fault-none now arrival shop h = elim (Option-cases shop.place) [
    | inl e ↦ absurd (ground arith)
    | inr (place, e) ↦ record {
      place = place;
      geofence = e;
      not_future = ground arith;
      recent = ground arith;
      accurate = ground arith;
      near = ground arith;
    }
  ]

  pub check_in_fault-none :
      (now lead_minutes : ℕ) (arrival : ArrivalProof Place) (shop : ShopRow Place) (job : Job)
      → check_in_fault distance_meters now lead_minutes arrival shop job ≡ none
      → (may_arrive job.status ≡ true)
        × (payment_ready job ≡ true)
        × (location_fault distance_meters now arrival shop ≡ none)
        × (opens_later now lead_minutes job ≡ false)
  unfolding check_in_fault
  check_in_fault-none now lead_minutes arrival shop job h =
      ladder (may_arrive job.status) (payment_ready job)
        (location_fault distance_meters now arrival shop) (opens_later now lead_minutes job) _ _ _ h
    where
      ladder :
          (a b : Bool) (l : Option Fault) (o : Bool) (x y z : Fault)
          → (if not a
              then some x
              else if not b
              then some y
              else elim l [ some e ↦ some e | none ↦ if o then some z else none ])
            ≡ none
          → (a ≡ true) × (b ≡ true) × (l ≡ none) × (o ≡ false)
      ladder a b l o x y z h = ground arith

  -- A check-in that succeeds on a job that was not queued when it was read proves that the order was
  -- prepared or recoverable and payable at the counter (or paid), that the location reading is at
  -- most 90 s old, not more than 10 s in the future, accurate enough and within the shop's radius,
  -- that a scheduled slot's window is open, and that a connected printer can make the job.
  pub check_in_job-entry :
      (now event_id lead_minutes job_id student_id : ℕ) (arrival : ArrivalProof Place)
      (shop : ShopRow Place) (seen db : Store) (job : Job) (r : Store × Job)
      → find (λ j. j.id == job_id && j.student_id == student_id) seen.jobs ≡ some job
      → (job.status is queued) ≡ false
      → check_in_job distance_meters now event_id lead_minutes job_id student_id arrival shop seen
          db
        ≡ ok r
      → (may_arrive job.status ≡ true)
        × (payment_ready job ≡ true)
        × IsAtShop now arrival shop
        × (opens_later now lead_minutes job ≡ false)
        × (p : PrinterRecommendation) × (recommended_printer distance_meters shop seen job ≡ some p)
  unfolding check_in_job
  check_in_job-entry now event_id lead_minutes job_id student_id arrival shop seen db job r found
        fresh h =
      let fault = check_in_fault distance_meters now lead_minutes arrival shop job in
      elim (Option-cases fault) [
        | inr (e, p) ↦ absurd (ground arith)
        | inl p ↦
            let (a, b, c, o) = check_in_fault-none now lead_minutes arrival shop job p in
            elim (Option-cases (recommended_printer distance_meters shop seen job)) [
              | inl q ↦ absurd (ground arith)
              | inr (printer, q) ↦ (a, b, location_fault-none now arrival shop c, o, printer, q)
            ]
      ]

  pub arrives : (s : JobStatus) → may_arrive s ≡ true → transition s arrived ≡ ok queued
  unfolding transition transitions ◌is◌
  arrives s h = ground arith

  find-own :
      (job_id student_id : ℕ) (jobs : List Job) (job : Job)
      → find_job job_id jobs ≡ some job
      → (job.student_id == student_id) ≡ true
      → find (λ j. j.id == job_id && j.student_id == student_id) jobs ≡ some job
  find-own job_id student_id [] job h s = cc
  find-own job_id student_id (j ∷ jobs) job h s =
      ground (arith, find-own job_id student_id jobs job)

  pub check_in_job-result :
      (now event_id lead_minutes job_id student_id : ℕ) (arrival : ArrivalProof Place)
      (shop : ShopRow Place) (db : Store) (job : Job) (p : PrinterRecommendation)
      → find_job job_id db.jobs ≡ some job
      → (job.student_id == student_id) ≡ true
      → (job.status is queued) ≡ false
      → check_in_fault distance_meters now lead_minutes arrival shop job ≡ none
      → recommended_printer distance_meters shop db job ≡ some p
      → check_in_job distance_meters now event_id lead_minutes job_id student_id arrival shop db db
        ≡ ok (
          after_commit now event_id (arrival_change now job student_id p.printer_id) queued db,
          record (join_line now p.printer_id job) { status = queued; updated_at = now },
        )
  unfolding check_in_job settle_check_in
  check_in_job-result now event_id lead_minutes job_id student_id arrival shop db job p h s fresh
        clear best =
      let (may, _, _, _) = check_in_fault-none now lead_minutes arrival shop job clear in
      let own = find-own job_id student_id db.jobs job h s in
      let found : find_job job.id db.jobs ≡ some job =
        ap (λ k. find_job k db.jobs) (found_id job_id db.jobs job h) ∙ h in
      let hit : (job.status is job.status && true) ≡ true = rw (is_refl job.status) refl in
      let (result, row) =
        apply_transition_won now event_id (arrival_change now job student_id p.printer_id) queued db
          job (λ j. refl) (arrives job.status may) found hit in
      rw (own, check_in_job) (rw (fresh, clear, best) (rw (result, lift)))
