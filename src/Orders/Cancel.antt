-- ===== src/Orders/Cancel.antt =====
-- apps/api/src/modules/jobs/routes.ts: cancelling an order (POST /:id/cancel) up to its commit. The row is
-- read first and committed later, on a store that others may have changed: both are arguments.
use print_q.Base.{
  ◌≡◌, refl, ap, sym, ◌∙◌, ℕ, ◌==◌, ◌&&◌, ◌||◌, not, if◌then◌else◌, Bool, true, false, Bool-cases,
  Option-cases, inl, inr, find, Option, none, some, Result, ok, throw, arith,
}
use print_q.Status.{JobStatus, JobEvent, InvalidTransition, transition, transitions}
use print_q.Job.{Job, PaymentStatus, is_paid, is_pay_at_shop, is_counter_due, is_cash_due}
use print_q.Store.{Store, Change, ActorType, no_guard, apply_transition, commit, written, matches}

pub data CancelFault : Type 0 where
  not_found not_cancellable paid_at_counter state_changed : CancelFault
  refused : InvalidTransition → CancelFault

abbrev pub own_order : (id student_id : ℕ) → Job → Bool
own_order id student_id j = j.id == id && j.student_id == student_id

unfoldable pub is_cancellable : JobStatus → Bool
is_cancellable JobStatus.awaiting_arrival = true
is_cancellable JobStatus.queued = true
is_cancellable JobStatus.notified = true
is_cancellable JobStatus.pending_payment = true
is_cancellable _ = false

abbrev pub is_paid_at_counter : Job → Bool
is_paid_at_counter j = is_pay_at_shop j.payment_provider && is_paid j.payment_status

-- The columns are chosen by the row that was read.
abbrev pub cancel_data : Job → Job → Job
cancel_data seen j =
    if is_counter_due seen.payment_status || is_cash_due seen.payment_status
    then record j { payment_status = PaymentStatus.failed }
    else j

abbrev pub cancel_change : ℕ → Job → Change
cancel_change student_id seen = record {
  job_id = seen.id;
  from = seen.status;
  event = JobEvent.cancel;
  actor = record { kind = ActorType.student; id = some student_id };
  extra_data = cancel_data seen;
  audit_event = none;
  guard = no_guard;
}

abbrev pub cancelled_or_conflict :
    Result InvalidTransition (Store × Option Job) → Result CancelFault (Job × Store)
cancelled_or_conflict (throw e) = throw (refused e)
cancelled_or_conflict (ok (db, none)) = throw state_changed
cancelled_or_conflict (ok (db, some row)) = ok (row, db)

unfoldable pub cancel_read :
    (student_id event_id now : ℕ) → Store → Option Job → Result CancelFault (Job × Store)
unfolding is_cancellable
cancel_read student_id event_id now db none = throw not_found
cancel_read student_id event_id now db (some j) =
    if not (is_cancellable j.status)
    then throw not_cancellable
    else if is_paid_at_counter j
    then throw paid_at_counter
    else cancelled_or_conflict (apply_transition now event_id (cancel_change student_id j) db)

unfoldable pub cancel_job :
    (id student_id event_id now : ℕ) (seen db : Store) → Result CancelFault (Job × Store)
unfolding cancel_read
cancel_job id student_id event_id now seen db =
    cancel_read student_id event_id now db (find (own_order id student_id) seen.jobs)

-- What a cancellation that succeeds says of the job that it read and of the row that it returns.
pub record IsCancelled (seen row : Job) : Type 0 where
  pub was_cancellable : is_cancellable seen.status ≡ true
  pub not_paid_there : is_paid_at_counter seen ≡ false
  pub is_over : row.status ≡ JobStatus.cancelled
  pub not_due :
      (is_counter_due seen.payment_status || is_cash_due seen.payment_status) ≡ true
      → row.payment_status ≡ PaymentStatus.failed

cancel_to :
    (s : JobStatus)
    → is_cancellable s ≡ true
    → transition s JobEvent.cancel ≡ ok JobStatus.cancelled
unfolding is_cancellable transition transitions
cancel_to s h = ground arith

-- The row that the statement returns is one that it wrote.
commit-written :
    (now event_id : ℕ) (c : Change) (to : JobStatus) (db after : Store) (row : Job)
    → commit now event_id c to db ≡ (after, some row)
    → (j : Job) × (row ≡ written c to now j)
unfolding commit
commit-written now event_id c to db after row h = elim (Option-cases (find (matches c) db.jobs)) [
  | inl e ↦ absurd (no_row (ap (λ x. x.1) (rw (e, commit) at h)))
  | inr (j, e) ↦ (j, some_injective (sym (ap (λ x. x.1) (rw (e, commit) at h))))
]
  where
    no_row : Path (Option Job) none (some row) → ⊥
    no_row e = cc

    some_injective : {x y : Job} → Path (Option Job) (some x) (some y) → x ≡ y
    some_injective e = cc

committed :
    (r : Store × Option Job) (row : Job) (after : Store)
    → cancelled_or_conflict (ok r) ≡ ok (row, after)
    → r ≡ (after, some row)
committed (db, none) row after h = cc
committed (db, some x) row after h = cc

cancel_committed :
    (student_id event_id now : ℕ) (j row : Job) (db after : Store)
    → is_cancellable j.status ≡ true
    → is_paid_at_counter j ≡ false
    → cancelled_or_conflict (apply_transition now event_id (cancel_change student_id j) db)
      ≡ ok (row, after)
    → IsCancelled j row
unfolding apply_transition
cancel_committed student_id event_id now j row db after h unpaid k =
    let to = cancel_to j.status h in
    let (x, e) =
      commit-written now event_id (cancel_change student_id j) JobStatus.cancelled db after row (
        committed (commit now event_id (cancel_change student_id j) JobStatus.cancelled db) row
          after (rw to at k)) in
    record {
      was_cancellable = h;
      not_paid_there = unpaid;
      is_over = ap (λ r. r.status) e;
      not_due = λ due. ap (λ r. r.payment_status) e ∙ rw due refl;
    }

-- A cancellation that succeeds is the student's own, in time and not of a paid counter order: the order
-- that was read is the student's, waits for payment, arrival or its turn, and was not paid at the
-- counter; the row that is returned is cancelled, and if that order's payment was due, it is failed now.
pub cancel_job-IsCancelled :
    (id student_id event_id now : ℕ) (seen db after : Store) (row : Job)
    → cancel_job id student_id event_id now seen db ≡ ok (row, after)
    → (j : Job) × (find (own_order id student_id) seen.jobs ≡ some j) × IsCancelled j row
unfolding cancel_job cancel_read
cancel_job-IsCancelled id student_id event_id now seen db after row h =
    elim (Option-cases (find (own_order id student_id) seen.jobs)) [
      | inl e ↦ absurd (no_order (rw e at h))
      | inr (j, e) ↦ (j, e, read j (rw e at h))
    ]
  where
    no_order : Path (Result CancelFault (Job × Store)) (throw not_found) (ok (row, after)) → ⊥
    no_order e = cc

    read :
        (j : Job)
        → cancel_read student_id event_id now db (some j) ≡ ok (row, after)
        → IsCancelled j row
    read j k = elim (Bool-cases (is_cancellable j.status)) [
      | inr late ↦ absurd (no_late (rw late at k))
      | inl in_time ↦ elim (Bool-cases (is_paid_at_counter j)) [
        | inl paid_there ↦ absurd (no_paid (rw (in_time, paid_there) at k))
        | inr unpaid ↦
            cancel_committed student_id event_id now j row db after in_time unpaid
              (rw (in_time, unpaid) at k)
      ]
    ]
      where
        no_late :
            Path (Result CancelFault (Job × Store)) (throw not_cancellable) (ok (row, after)) → ⊥
        no_late e = cc

        no_paid :
            Path (Result CancelFault (Job × Store)) (throw paid_at_counter) (ok (row, after)) → ⊥
        no_paid e = cc
