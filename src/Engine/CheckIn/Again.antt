-- ===== src/Engine/CheckIn/Again.antt =====
-- checkInJob of apps/api/src/modules/queue/engine.ts: two check-ins of one job at the same time.
use print_q.Base.{
  ℕ, ◌≡◌, refl, sym, subst, ◌∙◌, true, false, none, some, arith, ◌==◌, ◌&&◌, find, Distinct,
  Bool-cases, Option-cases, inl, inr, Result, ok,
}
use print_q.Status.{transition, arrived, queued, ◌is◌, is_refl}
use print_q.Job.{Job}
use print_q.Store.{Store, matches, apply_transition}
use print_q.Store.Race.{
  job_ids, unmatched, find-no_match, apply_transition_lost, apply_transition_race,
}
use print_q.Store.Winner.{apply_transition_won}
use print_q.Assignment.{PrinterRecommendation}
use print_q.Engine.{Fault, find_job, lift}
use print_q.Engine.CheckIn.{
  ArrivalProof, ShopRow, arrival_change, settle_check_in, check_in_fault, recommended_printer,
  check_in_job,
}
use print_q.Engine.CheckIn.Entry.{check_in_fault-none, arrives}

-- A lost check-in leaves the store as it was.
settle-same :
    (job_id : ℕ) (db : Store) (r : Store × Job)
    → settle_check_in job_id (db, none) ≡ ok r
    → db ≡ r.0
unfolding settle_check_in
settle-same job_id db r h = elim (Option-cases (find_job job_id db.jobs)) [
  | inl f ↦ absurd (ground arith)
  | inr (row, f) ↦ ground arith
]

settle-queued :
    (job_id : ℕ) (db : Store) (row : Job)
    → find_job job_id db.jobs ≡ some row
    → (row.status is queued) ≡ true
    → settle_check_in job_id (db, none) ≡ ok (db, row)
unfolding settle_check_in
settle-queued job_id db row f q = rw (f, settle_check_in) (rw q refl)

ok-injective : {r s : Store × Job} → Path (Result Fault (Store × Job)) (ok r) (ok s) → r ≡ s
ok-injective h = cc

module _ {Place : Type 0} (distance_meters : Place → Place → ℕ) where
  -- A request that finds the student's job in its snapshot, not queued, and passes the checks.
  record Passes (now lead_minutes job_id student_id : ℕ) (arrival : ArrivalProof Place)
      (shop : ShopRow Place) (seen : Store) (job : Job) (p : PrinterRecommendation) : Type 0 where
    own : find (λ j. j.id == job_id && j.student_id == student_id) seen.jobs ≡ some job
    fresh : (job.status is queued) ≡ false
    clear : check_in_fault distance_meters now lead_minutes arrival shop job ≡ none
    best : recommended_printer distance_meters shop seen job ≡ some p

  passed_lost :
      (now event_id lead_minutes job_id student_id : ℕ) (arrival : ArrivalProof Place)
      (shop : ShopRow Place) (seen db : Store) (job : Job) (p : PrinterRecommendation)
      → Passes now lead_minutes job_id student_id arrival shop seen job p
      → apply_transition now event_id (arrival_change now job student_id p.printer_id) db
        ≡ ok (db, none)
      → check_in_job distance_meters now event_id lead_minutes job_id student_id arrival shop seen
          db
        ≡ settle_check_in job.id (db, none)
  unfolding check_in_job
  passed_lost now event_id lead_minutes job_id student_id arrival shop seen db job p k lost =
      rw (k.own, check_in_job) (rw (k.fresh, k.clear, k.best) (rw (lost, lift) refl))

  passed_won :
      (now event_id lead_minutes job_id student_id : ℕ) (arrival : ArrivalProof Place)
      (shop : ShopRow Place) (seen db db' : Store) (job row : Job) (p : PrinterRecommendation)
      → Passes now lead_minutes job_id student_id arrival shop seen job p
      → apply_transition now event_id (arrival_change now job student_id p.printer_id) db
        ≡ ok (db', some row)
      → check_in_job distance_meters now event_id lead_minutes job_id student_id arrival shop seen
          db
        ≡ ok (db', row)
  unfolding check_in_job settle_check_in
  passed_won now event_id lead_minutes job_id student_id arrival shop seen db db' job row p k won =
      rw (k.own, check_in_job) (rw (k.fresh, k.clear, k.best) (rw (won, lift) refl))

  Passes-arrives :
      (now lead_minutes job_id student_id : ℕ) (arrival : ArrivalProof Place) (shop : ShopRow Place)
      (seen : Store) (job : Job) (p : PrinterRecommendation)
      → Passes now lead_minutes job_id student_id arrival shop seen job p
      → transition job.status arrived ≡ ok queued
  Passes-arrives now lead_minutes job_id student_id arrival shop seen job p k =
      let (may, _, _, _) =
        check_in_fault-none distance_meters now lead_minutes arrival shop job k.clear in
      arrives distance_meters job.status may

  -- The row was not as both had read it: the second returns what the first did.
  check_in_job-lost :
      (now later event_id event_id' lead_minutes job_id student_id : ℕ)
      (arrival arrival' : ArrivalProof Place) (shop shop' : ShopRow Place) (seen db : Store)
      (job : Job) (p p' : PrinterRecommendation) (r : Store × Job)
      → Passes now lead_minutes job_id student_id arrival shop seen job p
      → Passes later lead_minutes job_id student_id arrival' shop' seen job p'
      → find (matches (arrival_change now job student_id p.printer_id)) db.jobs ≡ none
      → check_in_job distance_meters now event_id lead_minutes job_id student_id arrival shop seen
          db
        ≡ ok r
      → check_in_job distance_meters later event_id' lead_minutes job_id student_id arrival' shop'
          seen r.0
        ≡ ok r
  check_in_job-lost now later event_id event_id' lead_minutes job_id student_id arrival arrival'
        shop shop' seen db job p p' r k k' nobody first =
      let step = Passes-arrives now lead_minutes job_id student_id arrival shop seen job p k in
      let lost =
        passed_lost now event_id lead_minutes job_id student_id arrival shop seen db job p k (
          apply_transition_lost now event_id (arrival_change now job student_id p.printer_id) db
            queued step nobody) in
      let lost_too =
        passed_lost later event_id' lead_minutes job_id student_id arrival' shop' seen db job p' k'
          (apply_transition_lost later event_id' (arrival_change later job student_id p'.printer_id)
            db queued step nobody) in
      let settled = sym lost ∙ first in
      subst
        (λ db'.
          check_in_job distance_meters later event_id' lead_minutes job_id student_id arrival' shop'
            seen db'
          ≡ ok r)
        (settle-same job.id db r settled) (lost_too ∙ settled)

  -- A student who checks in twice at once is in the line once: of two check-ins of a job that read the
  -- same snapshot, in which it is not queued, and both pass the checks, whatever each brings, if the first
  -- succeeds in a table of unique ids, then the second, right after it, returns the same row and changes
  -- nothing: the place in line and the count of check-ins are those of the first.
  pub check_in_job-again :
      (now later event_id event_id' lead_minutes job_id student_id : ℕ)
      (arrival arrival' : ArrivalProof Place) (shop shop' : ShopRow Place) (seen db : Store)
      (job : Job) (p p' : PrinterRecommendation) (r : Store × Job)
      → Distinct (job_ids db.jobs)
      → find (λ j. j.id == job_id && j.student_id == student_id) seen.jobs ≡ some job
      → (job.status is queued) ≡ false
      → check_in_fault distance_meters now lead_minutes arrival shop job ≡ none
      → recommended_printer distance_meters shop seen job ≡ some p
      → check_in_fault distance_meters later lead_minutes arrival' shop' job ≡ none
      → recommended_printer distance_meters shop' seen job ≡ some p'
      → check_in_job distance_meters now event_id lead_minutes job_id student_id arrival shop seen
          db
        ≡ ok r
      → check_in_job distance_meters later event_id' lead_minutes job_id student_id arrival' shop'
          seen r.0
        ≡ ok r
  check_in_job-again now later event_id event_id' lead_minutes job_id student_id arrival arrival'
        shop shop' seen db job p p' r ids own fresh clear best clear' best' first =
      let c = arrival_change now job student_id p.printer_id in
      let k : Passes now lead_minutes job_id student_id arrival shop seen job p = record {
        own = own;
        fresh = fresh;
        clear = clear;
        best = best;
      } in
      let k' : Passes later lead_minutes job_id student_id arrival' shop' seen job p' = record {
        own = own;
        fresh = fresh;
        clear = clear';
        best = best';
      } in
      let step = Passes-arrives now lead_minutes job_id student_id arrival shop seen job p k in
      let lose = λ (nobody : find (matches c) db.jobs ≡ none).
        check_in_job-lost now later event_id event_id' lead_minutes job_id student_id arrival
          arrival' shop shop' seen db job p p' r k k' nobody first in
      elim (Option-cases (find_job job.id db.jobs)) [
        | inl f ↦ lose (find-no_match c db.jobs f)
        | inr (row, f) ↦ elim (Bool-cases (row.status is job.status && true)) [
          | inr miss ↦ lose (unmatched c db.jobs row ids f miss)
          | inl hit ↦
              let (won, found) =
                apply_transition_won now event_id c queued db row (λ j. refl) step f hit in
              let returned = ok-injective (
                sym (
                  passed_won now event_id lead_minutes job_id student_id arrival shop seen db _ job
                    _ p k won)
                ∙ first) in
              let lost =
                apply_transition_race now event_id later event_id' c
                  (arrival_change later job student_id p'.printer_id) db _ _ queued (λ j. refl) ids
                  refl refl step won in
              let second =
                passed_lost later event_id' lead_minutes job_id student_id arrival' shop' seen _ job
                  p' k' lost in
              subst
                (λ s.
                  check_in_job distance_meters later event_id' lead_minutes job_id student_id
                    arrival' shop' seen s.0
                  ≡ ok s)
                returned (second ∙ settle-queued job.id _ _ found (is_refl queued))
        ]
      ]
