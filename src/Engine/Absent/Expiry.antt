-- ===== src/Engine/Absent/Expiry.antt =====
-- expireReveal of apps/api/src/modules/queue/engine.ts: the absent timer, when it acts, and what it
-- leaves behind.
use print_q.Base.{
  Distinct, Option, Option-cases, Bool-cases, ℕ, ◌≡◌, refl, sym, ap, ◌∙◌, ◌⊎◌, inl, inr, Bool, true,
  false, none, some, arith, find, ok, ◌==◌, ◌&&◌,
}
use print_q.Status.{JobStatus, awaiting_arrival, queue_skipped, transition, transitions, ◌is◌}
use print_q.Job.{Job, grace_expired}
use print_q.Store.{Store, Change, matches}
use print_q.Store.Race.{find-no_match, job_ids, unmatched, apply_transition_lost}
use print_q.Store.Winner.{apply_transition_won, after_commit}
use print_q.Engine.{found_id, find_job, is_waiting, lift}
use print_q.Engine.Absent.{by_system, absent_change, mark_absent, expire_reveal, reveal_overdue}

waiting-skips :
    (s : JobStatus) → is_waiting s ≡ true → transition s queue_skipped ≡ ok awaiting_arrival
unfolding transition transitions ◌is◌
waiting-skips s h = ground arith

and_right : (a b : Bool) → a && b ≡ true → b ≡ true
and_right a b h = ground arith

abbrev pub expiry : ℕ → Job → Change
expiry now job = absent_change now job by_system grace_expired (reveal_overdue now)

same_waits : (s t : JobStatus) → (s is t) ≡ true → is_waiting t ≡ true → is_waiting s ≡ true
unfolding ◌is◌
same_waits s t h w = ground arith

-- Whether the update of the timer finds the row that it expects: the row as it was read is waiting and
-- overdue, and the row as it is now has the same status and is overdue.
abbrev pub still_overdue : ℕ → Option Job → Option Job → Bool
still_overdue now (some read) (some row) =
    (is_waiting read.status && reveal_overdue now read)
    && (row.status is read.status && reveal_overdue now row)
still_overdue now _ _ = false

-- What the timer did on a job: the row was waiting and overdue when the update ran, and lost its place,
-- its reveal and the clear code, while everything else of it stays; or nothing was written.
abbrev pub Expired : (now event_id job_id : ℕ) → (seen db : Store) → Type 0
Expired now event_id job_id seen db =
    (db' : Store) × (expire_reveal now event_id job_id seen db ≡ ok (db', true))
    × (row : Job) × (find_job job_id db.jobs ≡ some row)
    × (is_waiting row.status ≡ true)
    × (reveal_overdue now row ≡ true)
    × (find_job job_id db'.jobs
        ≡ some (record row {
          status = awaiting_arrival;
          updated_at = now;
          queued_at = none;
          queue_left_at = some now;
          otp_hash = none;
          otp_code = none;
          otp_expires_at = none;
          revealed_at = none;
          reveal_deadline_at = none;
          arriving_notified_at = none;
          absent_at = some now;
          absent_reason = some grace_expired;
        }))

expire_unmatched :
    (now event_id job_id : ℕ) (seen db : Store) (job : Job)
    → find_job job_id seen.jobs ≡ some job
    → is_waiting job.status ≡ true
    → reveal_overdue now job ≡ true
    → find (matches (expiry now job)) db.jobs ≡ none
    → expire_reveal now event_id job_id seen db ≡ ok (db, false)
unfolding expire_reveal mark_absent
expire_unmatched now event_id job_id seen db job h waits overdue lost =
    let result =
      apply_transition_lost now event_id (expiry now job) db awaiting_arrival
        (waiting-skips job.status waits) lost in
    rw (h, expire_reveal) (rw (waits, overdue) (rw (result, lift) refl))

expire_matched :
    (now event_id job_id : ℕ) (seen db : Store) (job row : Job)
    → find_job job_id seen.jobs ≡ some job
    → is_waiting job.status ≡ true
    → reveal_overdue now job ≡ true
    → find_job job_id db.jobs ≡ some row
    → (row.status is job.status && reveal_overdue now row) ≡ true
    → Expired now event_id job_id seen db
unfolding expire_reveal mark_absent
expire_matched now event_id job_id seen db job row h waits overdue f hit =
    let c = expiry now job in
    let same : job.id ≡ job_id = found_id job_id seen.jobs job h in
    let found : find (λ x. x.id == c.job_id) db.jobs ≡ some row =
      ap (λ k. find_job k db.jobs) same ∙ f in
    let (result, after) =
      apply_transition_won now event_id c awaiting_arrival db row (λ j. refl)
        (waiting-skips job.status waits) found hit in
    (
      after_commit now event_id c awaiting_arrival db,
      rw (h, expire_reveal) (rw (waits, overdue) (rw (result, lift) refl)),
      row,
      f,
      same_waits row.status job.status (and_left _ _ hit) waits,
      and_right _ _ hit,
      ap (λ k. find_job k (after_commit now event_id c awaiting_arrival db).jobs) (sym same)
          ∙ after,
    )
  where
    and_left : (a b : Bool) → a && b ≡ true → a ≡ true
    and_left a b h = ground arith

abbrev pub ExpiryOutcome : (now event_id job_id : ℕ) → (seen db : Store) → Type 0
ExpiryOutcome now event_id job_id seen db =
    Expired now event_id job_id seen db
    ⊎ ((expire_reveal now event_id job_id seen db ≡ ok (db, false))
        × (still_overdue now (find_job job_id seen.jobs) (find_job job_id db.jobs) ≡ false))

-- The row that was read is overdue, so the row at the update decides.
expire_overdue :
    (now event_id job_id : ℕ) (seen db : Store) (job : Job)
    → find_job job_id seen.jobs ≡ some job
    → is_waiting job.status ≡ true
    → reveal_overdue now job ≡ true
    → Distinct (job_ids db.jobs)
    → ExpiryOutcome now event_id job_id seen db
expire_overdue now event_id job_id seen db job h w o ids =
    let same : job.id ≡ job_id = found_id job_id seen.jobs job h in
    let lose = expire_unmatched now event_id job_id seen db job h w o in
    elim (Option-cases (find_job job_id db.jobs)) [
      | inl f ↦ inr (
        lose (find-no_match (expiry now job) db.jobs (ap (λ k. find_job k db.jobs) same ∙ f)),
        rw (h, f) refl,
      )
      | inr (row, f) ↦ elim (Bool-cases (row.status is job.status && reveal_overdue now row)) [
        | inl hit ↦ inl (expire_matched now event_id job_id seen db job row h w o f hit)
        | inr miss ↦ inr (
          lose (
              unmatched (expiry now job) db.jobs row ids (ap (λ k. find_job k db.jobs) same ∙ f)
                miss),
          rw (h, f) (rw (w, o) miss),
        )
      ]
    ]

-- The absent timer against staff and other calls that write between its read and its update: in a
-- table of unique ids `expireReveal` never throws. It either returns true, and then the row was waiting,
-- revealed and overdue when the update ran, and is now in `awaiting_arrival` without place in line,
-- reveal, deadline, "coming up" time and clear code, marked absent by the timer at that time, with all
-- else (its payment and its counter code among it) as it was then; or it returns false and changes
-- nothing, and then the row as read was not waiting or not overdue, or the row has another status by
-- now or is no longer overdue, or there is no row.
pub expire_reveal_race :
    (now event_id job_id : ℕ) (seen db : Store)
    → Distinct (job_ids db.jobs)
    → ExpiryOutcome now event_id job_id seen db
unfolding expire_reveal
expire_reveal_race now event_id job_id seen db ids =
    elim (Option-cases (find_job job_id seen.jobs)) [
      | inl h ↦ inr (rw (h, expire_reveal) refl, rw h refl)
      | inr (job, h) ↦ elim (Bool-cases (is_waiting job.status)) [
        | inr w ↦ inr (rw (h, expire_reveal) (rw w refl), idle now job _ (rw w refl) h)
        | inl w ↦ elim (Bool-cases (reveal_overdue now job)) [
          | inr o ↦ inr (rw (h, expire_reveal) (rw (w, o) refl), idle now job _ (rw (w, o) refl) h)
          | inl o ↦ expire_overdue now event_id job_id seen db job h w o ids
        ]
      ]
    ]
  where
    idle :
        (now : ℕ) (job : Job) (r : Option Job)
        → (is_waiting job.status && reveal_overdue now job) ≡ false
        → find_job job_id seen.jobs ≡ some job
        → still_overdue now (find_job job_id seen.jobs) r ≡ false
    idle now job none e h = rw h refl
    idle now job (some row) e h = rw (h, e) refl
