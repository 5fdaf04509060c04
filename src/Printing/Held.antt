-- ===== src/Printing/Held.antt =====
-- The claim of a print against the other changes: agents/routes.ts and jobs/printLease.ts.
use print_q.Base.{
  ℕ, ◌≡◌, refl, sym, ap, ◌∙◌, Bool, false, Option, some, List, [], ◌∷◌, map, arith, any, find,
  includes, Distinct, ok, throw, Bool-cases, inl, inr, if◌then◌else◌, ◌==◌,
}
use print_q.Status.{JobStatus, transitions}
use print_q.Job.{Job, PrintError}
use print_q.Store.{Store, Change, Actor, matches, written, update_job, apply_transition}
use print_q.Store.Race.{job_ids, match-absent, apply_transition_ok, commit_won}
use print_q.Printing.{
  Timeouts, Mode, print_lost_reason, Agent, lost_change, mark_print_failed_agent_gone, claim,
  reserve_claim, claimable, not_staff_held, not_printable, claimed,
}

-- A test that only the row of the request can pass.
abbrev Only : Change → (Job → Bool) → Type 0
Only c p = (j : Job) → (j.id == c.job_id) ≡ false → p j ≡ false

any-update_absent :
    (p : Job → Bool) (c : Change) (to : JobStatus) (now : ℕ) (jobs : List Job)
    → Only c p
    → includes c.job_id (job_ids jobs) ≡ false
    → any p (update_job c to now jobs) ≡ false
unfolding update_job
any-update_absent p c to now [] only h = refl
any-update_absent p c to now (j ∷ jobs) only h =
    ground (arith, only j, any-update_absent p c to now jobs only)

-- Where the new version of the row fails the test, no row passes it.
any-update_job :
    (p : Job → Bool) (c : Change) (to : JobStatus) (now : ℕ) (jobs : List Job) (w : Job)
    → Only c p
    → ((j : Job) → p (written c to now j) ≡ false)
    → Distinct (job_ids jobs)
    → find (matches c) jobs ≡ some w
    → any p (update_job c to now jobs) ≡ false
unfolding update_job
any-update_job p c to now [] w only held u h = cc
any-update_job p c to now (j ∷ jobs) w only held (n, u) h = elim (Bool-cases (j.id == c.job_id)) [
  | inl e ↦ ground (arith, held j, match-absent c jobs, any-update_absent p c to now jobs only)
  | inr e ↦ ground (arith, only j, any-update_job p c to now jobs w only held u)
]

-- A conditional update that finds no row writes none.
map-none :
    (p : Job → Bool) (f : Job → Job) (jobs : List Job)
    → any p jobs ≡ false
    → map (λ j. if p j then f j else j) jobs ≡ jobs
map-none p f [] h = refl
map-none p f (j ∷ jobs) h = ground (arith, map-none p f jobs)

claimable-Only : (a : Agent) (c : Change) → Only c (claimable a c.job_id)
unfolding claimable
claimable-Only a c j h = ground arith

-- The claim after a transition whose new row cannot be claimed.
claim_after :
    (now event_id : ℕ) (a : Agent) (earlier event_id' : ℕ) (c : Change) (db db' : Store) (w : Job)
    → ((to : JobStatus) (j : Job)
        → transitions c.from c.event ≡ some to
        → claimable a c.job_id (written c to earlier j) ≡ false)
    → Distinct (job_ids db.jobs)
    → apply_transition earlier event_id' c db ≡ ok (db', some w)
    → (meanwhile : Store → Store)
    → claim now event_id a c.job_id meanwhile db' ≡ (db', throw not_printable)
unfolding claim reserve_claim
claim_after now event_id a earlier event_id' c db db' w held u won meanwhile =
    let (to, step, result) = apply_transition_ok earlier event_id' c db (db', some w) won in
    let (j, found, left) = commit_won earlier event_id' c to db db' w (sym result) in
    let none_left : any (claimable a c.job_id) db'.jobs ≡ false =
      ap (any (claimable a c.job_id)) left
      ∙ any-update_job (claimable a c.job_id) c to earlier db.jobs j (claimable-Only a c)
          (λ x. held to x step) u found in
    rw (none_left, map-none (claimable a c.job_id) (claimed now a) db'.jobs none_left) refl

-- Every reason that a lost print is given is one that waits for staff.
lost-held :
    (env : Timeouts) (seen : Job) (a : Option Agent) (at : ℕ) (mode : Mode) (reason : PrintError)
    → print_lost_reason env seen a at mode ≡ some reason
    → not_staff_held (some reason) ≡ false
unfolding print_lost_reason
lost-held env seen a at mode reason h = ground arith

-- A lost print waits for staff: once a print has been failed for a reason that `printLostReason`
-- gives (whatever it looked at), every claim of the job from the store that this leaves is refused
-- and changes nothing.
pub mark_print_failed-claim :
    (env : Timeouts) (seen : Job) (holder : Option Agent) (at : ℕ) (mode : Mode)
    (reason : PrintError)
    → print_lost_reason env seen holder at mode ≡ some reason
    → (earlier event_id' : ℕ) (actor : Actor) (db db' : Store) (w : Job)
    → Distinct (job_ids db.jobs)
    → mark_print_failed_agent_gone earlier event_id' seen actor reason db ≡ ok (db', some w)
    → (now event_id : ℕ) (a : Agent) (meanwhile : Store → Store)
    → claim now event_id a seen.id meanwhile db' ≡ (db', throw not_printable)
unfolding mark_print_failed_agent_gone claimable
mark_print_failed-claim env seen holder at mode reason lost earlier event_id' actor db db' w u won
      now event_id a =
    claim_after now event_id a earlier event_id' (lost_change seen actor reason) db db' w
      (λ to j step. unclaimable to j) u won
  where
    held : not_staff_held (some reason) ≡ false
    held = lost-held env seen holder at mode reason lost

    unclaimable :
        (to : JobStatus) (j : Job)
        → claimable a seen.id (written (lost_change seen actor reason) to earlier j) ≡ false
    unclaimable to j = ground (arith, held)
