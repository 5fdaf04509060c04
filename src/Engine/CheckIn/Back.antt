-- ===== src/Engine/CheckIn/Back.antt =====
-- A check-in starts a fresh place at the back of the line.
use print_q.Base.{
  ℕ, ◌≡◌, refl, ap, ◌∙◌, Bool, true, false, none, some, List, [], ◌∷◌, ◌++◌, arith, ltb, ◌==◌, ◌&&◌,
  ◌||◌, find, keep, All, includes, Distinct, Bool-cases, inl, inr, ok,
}
use print_q.Base.Sorting.{sort_last, sort-All_inv}
use print_q.Status.{JobStatus, queued, notified, ◌is◌, is_refl}
use print_q.Job.{Job}
use print_q.Store.{Store, Change, matches, written, update_job}
use print_q.Store.Race.{job_ids}
use print_q.Queue.{line_before, sort_queue_jobs}
use print_q.Queue.Pass.{in_line, line, is_active}
use print_q.Store.Winner.{after_commit}
use print_q.Assignment.{PrinterRecommendation}
use print_q.Engine.{find_job, found_id}
use print_q.Engine.CheckIn.{
  ArrivalProof, ShopRow, join_line, arrival_change, check_in_fault, recommended_printer,
  check_in_job,
}
use print_q.Engine.CheckIn.Entry.{check_in_job-result}

-- Everyone in the line may stand before `row`, and `row` before none of them.
abbrev Behind : Job → List Job → Type 0
Behind row jobs = All (λ x. (line_before x row ≡ true) × (line_before row x ≡ false)) jobs

update_job_other :
    (c : Change) (to : JobStatus) (now : ℕ) (jobs : List Job)
    → includes c.job_id (job_ids jobs) ≡ false
    → update_job c to now jobs ≡ jobs
unfolding update_job
update_job_other c to now [] h = refl
update_job_other c to now (j ∷ jobs) h = ground (arith, update_job_other c to now jobs)

-- The rows of the shop's line, with the checked-in row at its place in the table.
keep-update_job :
    (shop_id : ℕ) (c : Change) (to : JobStatus) (now : ℕ) (jobs : List Job) (job : Job)
    → Distinct (job_ids jobs)
    → find (λ x. x.id == c.job_id) jobs ≡ some job
    → matches c job ≡ true
    → in_line shop_id job ≡ false
    → in_line shop_id (written c to now job) ≡ true
    → (front : List Job) × (back : List Job) × (keep (in_line shop_id) jobs ≡ front ++ back)
      × (keep (in_line shop_id) (update_job c to now jobs) ≡ front ++ written c to now job ∷ back)
unfolding update_job
keep-update_job shop_id c to now [] job d f m out into = absurd (cc)
keep-update_job shop_id c to now (j ∷ jobs) job (n, d) f m out into =
    elim (Bool-cases (j.id == c.job_id)) [
      | inl e ↦ (
        [],
        keep (in_line shop_id) jobs,
        ground arith,
        ground (arith, update_job_other c to now jobs),
      )
      | inr e ↦
          let (front, back, before, after) =
            keep-update_job shop_id c to now jobs job d (ground arith) m out into in
          let skip : matches c j ≡ false = ground arith in
          elim (Bool-cases (in_line shop_id j)) [
            | inl i ↦ (j ∷ front, back, rw (i, before), rw (skip, i) (ap (◌∷◌ j) after))
            | inr i ↦ (front, back, rw (i, before), rw (skip, i) after)
          ]
    ]

-- Checked in before `now`.
abbrev pub checked_in_before : ℕ → Job → Bool
checked_in_before now j = elim j.queued_at [ none ↦ false | some t ↦ ltb t now ]

behind :
    (now : ℕ) (row : Job) (jobs : List Job)
    → row.queued_at ≡ some now
    → All (λ x. checked_in_before now x ≡ true) jobs
    → Behind row jobs
behind now row [] q h = tt
behind now row (x ∷ jobs) q (h, hs) = ((ground arith, ground arith), behind now row jobs q hs)

update-line :
    (shop_id : ℕ) (c : Change) (to : JobStatus) (now : ℕ) (jobs : List Job) (job : Job)
    → Distinct (job_ids jobs)
    → find (λ x. x.id == c.job_id) jobs ≡ some job
    → matches c job ≡ true
    → in_line shop_id job ≡ false
    → in_line shop_id (written c to now job) ≡ true
    → (written c to now job).queued_at ≡ some now
    → All (λ x. checked_in_before now x ≡ true) (line shop_id jobs)
    → line shop_id (update_job c to now jobs) ≡ line shop_id jobs ++ written c to now job ∷ []
unfolding line sort_queue_jobs
update-line shop_id c to now jobs job d f m out into q early =
    let row = written c to now job in
    let (front, back, before, after) = keep-update_job shop_id c to now jobs job d f m out into in
    let all =
      sort-All_inv line_before (λ x. checked_in_before now x ≡ true) (keep (in_line shop_id) jobs)
        early in
    rw (before, after)
      (sort_last line_before row front back (behind now row (front ++ back) q (rw before at all)))

or_left : (a b : Bool) → a || b ≡ false → a ≡ false
or_left a b h = ground arith

eqb_refl : (k : ℕ) → (k == k) ≡ true
eqb_refl k = ground arith

own_row : (j : Job) → (j.id == j.id && (j.status is j.status && true)) ≡ true
own_row j = rw (eqb_refl j.id, is_refl j.status)

shut_out : (shop_id : ℕ) (j : Job) → is_active j.status ≡ false → in_line shop_id j ≡ false
shut_out shop_id j h = ground arith

let_in : (shop_id : ℕ) → (shop_id == shop_id && (queued is queued || queued is notified)) ≡ true
let_in shop_id = rw (eqb_refl shop_id, is_refl queued)

module _ {Place : Type 0} (distance_meters : Place → Place → ℕ) where
  -- A successful check-in on an unchanged row puts the job at the very end of its shop's line, if
  -- everyone in the line checked in before `now`: nobody who was in the line moves.
  pub check_in_job-last :
      (now event_id lead_minutes job_id student_id : ℕ) (arrival : ArrivalProof Place)
      (shop : ShopRow Place) (db : Store) (job : Job) (p : PrinterRecommendation)
      → Distinct (job_ids db.jobs)
      → find_job job_id db.jobs ≡ some job
      → (job.student_id == student_id) ≡ true
      → is_active job.status ≡ false
      → check_in_fault distance_meters now lead_minutes arrival shop job ≡ none
      → recommended_printer distance_meters shop db job ≡ some p
      → All (λ x. checked_in_before now x ≡ true) (line job.shop_id db.jobs)
      → let row = record (join_line now p.printer_id job) { status = queued; updated_at = now } in
        (db' : Store) × (check_in_job distance_meters now event_id lead_minutes job_id student_id
            arrival shop db db
          ≡ ok (db', row))
        × (line job.shop_id db'.jobs ≡ line job.shop_id db.jobs ++ row ∷ [])
  check_in_job-last now event_id lead_minutes job_id student_id arrival shop db job p d h s idle
        clear best early =
      let c = arrival_change now job student_id p.printer_id in
      let found : find_job job.id db.jobs ≡ some job =
        ap (λ k. find_job k db.jobs) (found_id job_id db.jobs job h) ∙ h in
      (
        after_commit now event_id c queued db,
        check_in_job-result distance_meters now event_id lead_minutes job_id student_id arrival shop
            db job p h s (or_left (job.status is queued) (job.status is notified) idle) clear best,
        update-line job.shop_id c queued now db.jobs job d found (own_row job)
            (shut_out job.shop_id job idle) (let_in job.shop_id) refl early,
      )
