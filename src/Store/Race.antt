-- ===== src/Store/Race.antt =====
-- Optimistic concurrency of `applyTransition`: of two requests that expect the same status, one wins.
use print_q.Base.{
  subst, ◌&&◌, ℕ, ◌≡◌, refl, sym, ap, ◌∙◌, inl, inr, false, Option, none, some, List, [], ◌∷◌, map,
  arith, find, includes, Distinct, ok, Bool-cases, Option-cases, ◌==◌,
}
use print_q.Status.{JobStatus, JobEvent, transitions, transition, ◌is◌}
use print_q.Job.{Job}
use print_q.Store.{Store, Change, matches, update_job, commit, apply_transition}

pub transitions-ne :
    (s : JobStatus) (e : JobEvent) (t : JobStatus) → transitions s e ≡ some t → (t is s) ≡ false
unfolding transitions ◌is◌
transitions-ne s e t h = ground arith

-- The caller's columns never include the primary key.
abbrev pub KeepsId : Change → Type 0
KeepsId c = (j : Job) → (c.extra_data j).id ≡ j.id

abbrev pub job_ids : List Job → List ℕ
job_ids jobs = map (λ j. j.id) jobs

find-absent :
    (c d : Change) (to : JobStatus) (now : ℕ) (jobs : List Job)
    → KeepsId c
    → includes d.job_id (job_ids jobs) ≡ false
    → find (matches d) (update_job c to now jobs) ≡ none
unfolding update_job
find-absent c d to now [] k h = refl
find-absent c d to now (j ∷ jobs) k h = ground (arith, k j, find-absent c d to now jobs k)

pub match-absent :
    (c : Change) (jobs : List Job)
    → includes c.job_id (job_ids jobs) ≡ false
    → find (matches c) jobs ≡ none
match-absent c [] h = refl
match-absent c (j ∷ jobs) h = ground (arith, match-absent c jobs)

pub find-no_match :
    (c : Change) (jobs : List Job)
    → find (λ x. x.id == c.job_id) jobs ≡ none
    → find (matches c) jobs ≡ none
find-no_match c [] f = refl
find-no_match c (x ∷ jobs) f = ground (arith, find-no_match c jobs)

-- With unique ids, a request whose row is not as it expects finds none.
pub unmatched :
    (c : Change) (jobs : List Job) (j : Job)
    → Distinct (job_ids jobs)
    → find (λ x. x.id == c.job_id) jobs ≡ some j
    → (j.status is c.from && c.guard j) ≡ false
    → find (matches c) jobs ≡ none
unmatched c [] j d h m = refl
unmatched c (x ∷ jobs) j (d, ds) h m = elim (Bool-cases (x.id == c.job_id)) [
  | inl e ↦
      let same : x ≡ j = ground arith in
      let id : x.id ≡ c.job_id = ground arith in
      let fails : (x.status is c.from && c.guard x) ≡ false =
        subst (λ y. (y.status is c.from && c.guard y) ≡ false) (sym same) m in
      let rest = match-absent c jobs (subst (λ i. includes i (job_ids jobs) ≡ false) id d) in
      rw (e, fails) rest
  | inr e ↦ ground (arith, unmatched c jobs j ds)
]

find-update_job :
    (c d : Change) (to : JobStatus) (now : ℕ) (jobs : List Job) (w : Job)
    → KeepsId c
    → Distinct (job_ids jobs)
    → c.job_id ≡ d.job_id
    → c.from ≡ d.from
    → (to is c.from) ≡ false
    → find (matches c) jobs ≡ some w
    → find (matches d) (update_job c to now jobs) ≡ none
unfolding update_job
find-update_job c d to now [] w k u same from ne h = cc
find-update_job c d to now (j ∷ jobs) w k (n, u) same from ne h =
    elim (Bool-cases (j.id == c.job_id)) [
      | inl e ↦ ground (arith, k j, match-absent c jobs, find-absent c d to now jobs k)
      | inr e ↦ ground (arith, k j, find-update_job c d to now jobs w k u same from ne)
    ]

-- The result of a request whose event the table allows.
pub apply_transition_ok :
    (now event_id : ℕ) (c : Change) (db : Store) (r : Store × Option Job)
    → apply_transition now event_id c db ≡ ok r
    → (to : JobStatus) × (transitions c.from c.event ≡ some to) × (r ≡ commit now event_id c to db)
unfolding apply_transition transition
apply_transition_ok now event_id c db r h = elim (Option-cases (transitions c.from c.event)) [
  | inl p ↦ absurd (ground arith)
  | inr (to, p) ↦ (to, p, ground arith)
]

pub commit_won :
    (now event_id : ℕ) (c : Change) (to : JobStatus) (db db' : Store) (j : Job)
    → commit now event_id c to db ≡ (db', some j)
    → (w : Job) × (find (matches c) db.jobs ≡ some w) × (db'.jobs ≡ update_job c to now db.jobs)
unfolding commit
commit_won now event_id c to db db' j h = elim (Option-cases (find (matches c) db.jobs)) [
  | inl p ↦ absurd (ground arith)
  | inr (w, p) ↦ (w, p, ground arith)
]

-- A request that the table allows and that finds no row in the expected status under its guard
-- returns null and leaves jobs, audit log and outbox as they were.
pub apply_transition_lost :
    (now event_id : ℕ) (c : Change) (db : Store) (to : JobStatus)
    → transition c.from c.event ≡ ok to
    → find (matches c) db.jobs ≡ none
    → apply_transition now event_id c db ≡ ok (db, none)
unfolding apply_transition commit
apply_transition_lost now event_id c db to h lost = rw h (rw (lost, commit))

-- Two requests for the same job that expect the same status, whatever their events, columns and
-- guards, cannot both win: if the first returns a row, the second, made on the store that the
-- first left, returns null and changes nothing.
pub apply_transition_race :
    (now event_id later event_id' : ℕ) (c d : Change) (db db' : Store) (j : Job) (to : JobStatus)
    → KeepsId c
    → Distinct (job_ids db.jobs)
    → c.job_id ≡ d.job_id
    → c.from ≡ d.from
    → transition d.from d.event ≡ ok to
    → apply_transition now event_id c db ≡ ok (db', some j)
    → apply_transition later event_id' d db' ≡ ok (db', none)
apply_transition_race now event_id later event_id' c d db db' j to k u same from allowed won =
    let (to', step, result) = apply_transition_ok now event_id c db (db', some j) won in
    let (w, found, left) = commit_won now event_id c to' db db' j (sym result) in
    apply_transition_lost later event_id' d db' to allowed (
      ap (find (matches d)) left
      ∙ find-update_job c d to' now db.jobs w k u same from (transitions-ne c.from c.event to' step)
          found)
