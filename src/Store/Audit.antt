-- ===== src/Store/Audit.antt =====
-- What the audit log and the outbox say of the jobs, after any sequence of status changes.
use print_q.Base.{
  ℕ, ◌≡◌, refl, sym, ap, ◌∙◌, inl, inr, false, Option, some, List, [], ◌∷◌, map, arith, All, find,
  includes, Distinct, ok, Option-cases, if◌then◌else◌, ◌==◌, find_sound,
}
use print_q.Status.{JobStatus, JobEvent, pending_payment, transitions, eq_of_is}
use print_q.Job.{Job}
use print_q.Store.{
  Store, Change, JobEventRow, matches, update_job, audit_row, commit, apply_transition,
}
use print_q.Store.Race.{KeepsId, job_ids, match-absent, apply_transition_ok}

-- The status that the log gives a job: that of its newest row.
abbrev pub logged_status : List JobEventRow → ℕ → JobStatus
logged_status [] k = pending_payment
logged_status (e ∷ events) k =
    let older = logged_status events k in if e.job_id == k then e.to_status else older

-- Each row leaves the status that the older rows give the job, along an entry of the table.
abbrev pub Chained : List JobEventRow → Type 0
Chained [] = Unit
Chained (e ∷ events) =
    (logged_status events e.job_id ≡ e.from_status)
    × ((v : JobEvent) × (transitions e.from_status v ≡ some e.to_status))
    × Chained events

pub record IsAudited (db : Store) : Type 0 where
  pub unique : Distinct (job_ids db.jobs)
  pub current : All (λ j. j.status ≡ logged_status db.events j.id) db.jobs
  pub chained : Chained db.events
  pub projected : map (λ o. o.job_event_id) db.outbox ≡ map (λ e. e.id) db.events

update_job-ids :
    (c : Change) (to : JobStatus) (now : ℕ) (jobs : List Job)
    → KeepsId c
    → job_ids (update_job c to now jobs) ≡ job_ids jobs
unfolding update_job
update_job-ids c to now [] k = refl
update_job-ids c to now (j ∷ jobs) k = ground (arith, k j, update_job-ids c to now jobs k)

update_job-current_other :
    (c : Change) (to : JobStatus) (now : ℕ) (jobs : List Job) (log : List JobEventRow)
    (e : JobEventRow)
    → e.job_id ≡ c.job_id
    → includes c.job_id (job_ids jobs) ≡ false
    → All (λ j. j.status ≡ logged_status log j.id) jobs
    → All (λ j. j.status ≡ logged_status (e ∷ log) j.id) (update_job c to now jobs)
unfolding update_job
update_job-current_other c to now [] log e same h a = tt
update_job-current_other c to now (j ∷ jobs) log e same h a =
    ground (arith, update_job-current_other c to now jobs log e same)

update_job-current :
    (c : Change) (to : JobStatus) (now : ℕ) (jobs : List Job) (log : List JobEventRow)
    (e : JobEventRow) (w : Job)
    → KeepsId c
    → e.job_id ≡ c.job_id
    → e.to_status ≡ to
    → Distinct (job_ids jobs)
    → find (matches c) jobs ≡ some w
    → All (λ j. j.status ≡ logged_status log j.id) jobs
    → All (λ j. j.status ≡ logged_status (e ∷ log) j.id) (update_job c to now jobs)
unfolding update_job
update_job-current c to now [] log e w k same goes u f a = tt
update_job-current c to now (j ∷ jobs) log e w k same goes (n, u) f (a, rest) = ground (
  arith,
  k j,
  update_job-current c to now jobs log e w k same goes u,
  update_job-current_other c to now jobs log e same,
  match-absent c jobs,
)

find-current :
    (c : Change) (jobs : List Job) (log : List JobEventRow) (w : Job)
    → find (matches c) jobs ≡ some w
    → All (λ j. j.status ≡ logged_status log j.id) jobs
    → w.status ≡ logged_status log w.id
find-current c [] log w f a = cc
find-current c (j ∷ jobs) log w f (a, rest) = ground (arith, find-current c jobs log w)

commit-IsAudited :
    (now event_id : ℕ) (c : Change) (to : JobStatus) (db : Store)
    → KeepsId c
    → transitions c.from c.event ≡ some to
    → IsAudited db
    → IsAudited (commit now event_id c to db).0
unfolding commit
commit-IsAudited now event_id c to db k step a = elim (Option-cases (find (matches c) db.jobs)) [
  | inl p ↦ rw (p, commit) a
  | inr (w, p) ↦
      let hit = find_sound (matches c) db.jobs w p in
      let before = find-current c db.jobs db.events w p a.current in
      let was = eq_of_is w.status c.from (ground arith) in
      let me : w.id ≡ c.job_id = ground arith in
      rw (p, commit)
        (record {
          unique = rw (update_job-ids c to now db.jobs k) a.unique;
          current =
              update_job-current c to now db.jobs db.events (audit_row c to event_id) w k refl refl
                a.unique p a.current;
          chained = (
            ap (logged_status db.events) (sym me) ∙ sym before ∙ was,
            (c.event, step),
            a.chained,
          );
          projected = ap (◌∷◌ event_id) a.projected;
        })
]

-- Every call of `applyTransition` keeps the database audited: each job's status is the one that its
-- newest audit row records, each audit row continues the previous one of its job along an entry of
-- the transition table, and the outbox holds exactly one row for each audit row, in the same order.
pub apply_transition-IsAudited :
    (now event_id : ℕ) (c : Change) (db : Store) (r : Store × Option Job)
    → KeepsId c
    → IsAudited db
    → apply_transition now event_id c db ≡ ok r
    → IsAudited r.0
apply_transition-IsAudited now event_id c db r k a h =
    let (to, step, result) = apply_transition_ok now event_id c db r h in
    rw result (commit-IsAudited now event_id c to db k step a)
