-- ===== src/Store/Winner.antt =====
-- The request that wins: what `applyTransition` returns and writes when the row is as expected.
use print_q.Base.{ℕ, ◌≡◌, true, some, List, [], ◌∷◌, arith, find, ok, ◌==◌, ◌&&◌}
use print_q.Status.{JobStatus, transition, ◌is◌}
use print_q.Job.{Job}
use print_q.Store.{Store, Change, matches, written, update_job, audit_row, commit, apply_transition}
use print_q.Store.Race.{KeepsId}

find-matches :
    (c : Change) (jobs : List Job) (j : Job)
    → find (λ x. x.id == c.job_id) jobs ≡ some j
    → (j.status is c.from && c.guard j) ≡ true
    → find (matches c) jobs ≡ some j
find-matches c [] j h m = cc
find-matches c (x ∷ jobs) j h m = ground (arith, find-matches c jobs j)

find-update_job :
    (c : Change) (to : JobStatus) (now : ℕ) (jobs : List Job) (j : Job)
    → KeepsId c
    → find (λ x. x.id == c.job_id) jobs ≡ some j
    → (j.status is c.from && c.guard j) ≡ true
    → find (λ x. x.id == c.job_id) (update_job c to now jobs) ≡ some (written c to now j)
unfolding update_job
find-update_job c to now [] j k h m = cc
find-update_job c to now (x ∷ jobs) j k h m = ground (arith, k x, find-update_job c to now jobs j k)

abbrev pub after_commit : ℕ → ℕ → Change → JobStatus → Store → Store
after_commit now event_id c to db = record {
  jobs = update_job c to now db.jobs;
  events = audit_row c to event_id ∷ db.events;
  outbox = record { job_event_id = event_id; job_id = c.job_id } ∷ db.outbox;
}

-- The result of a winning request, and the row that a later read finds.
pub apply_transition_won :
    (now event_id : ℕ) (c : Change) (to : JobStatus) (db : Store) (j : Job)
    → KeepsId c
    → transition c.from c.event ≡ ok to
    → find (λ x. x.id == c.job_id) db.jobs ≡ some j
    → (j.status is c.from && c.guard j) ≡ true
    → (apply_transition now event_id c db
        ≡ ok (after_commit now event_id c to db, some (written c to now j)))
      × (find (λ x. x.id == c.job_id) (after_commit now event_id c to db).jobs
          ≡ some (written c to now j))
unfolding apply_transition commit
apply_transition_won now event_id c to db j k h f m =
    (rw h (rw (find-matches c db.jobs j f m, commit)), find-update_job c to now db.jobs j k f m)
