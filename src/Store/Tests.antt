-- ===== src/Store/Tests.antt =====
-- Two requests about one job, and the theorems on status changes at them.
use print_q.Base.{◌≡◌, refl, some, none, [], ◌∷◌, ok}
use print_q.Status.{
  pending_payment, queued, cancelled, otp_verified, cancel, counter_release, ◌is◌, transition,
  transitions,
}
use print_q.Job.{Job}
use print_q.Store.{Store, Change, student, shop, no_data, no_guard, apply_transition, written}
use print_q.Store.Race.{apply_transition_race}
use print_q.Store.Winner.{apply_transition_won, after_commit}
use print_q.Store.Audit.{apply_transition-IsAudited, IsAudited}
use print_q.Samples.{job_at}

abbrev waiting_job : Job
waiting_job = job_at 1 queued (some 10) none

abbrev before : Store
before = record { jobs = waiting_job ∷ []; events = []; outbox = [] }

-- The student cancels while staff release the same job.
abbrev by_student : Change
by_student = record {
  job_id = 1;
  from = queued;
  event = cancel;
  actor = record { kind = student; id = some 101 };
  extra_data = no_data;
  audit_event = none;
  guard = no_guard;
}

abbrev by_staff : Change
by_staff = record {
  job_id = 1;
  from = queued;
  event = counter_release;
  actor = record { kind = shop; id = some 8 };
  extra_data = no_data;
  audit_event = none;
  guard = no_guard;
}

cancel_won :
    apply_transition 50 900 by_student before
    ≡ ok (
      after_commit 50 900 by_student cancelled before,
      some (written by_student cancelled 50 waiting_job),
    )
unfolding transition transitions ◌is◌
cancel_won =
    (apply_transition_won 50 900 by_student cancelled before waiting_job (λ j. refl) refl refl
      refl).0

apply_transition_race_example :
    apply_transition 51 901 by_staff (after_commit 50 900 by_student cancelled before)
    ≡ ok (after_commit 50 900 by_student cancelled before, none)
unfolding transition transitions
apply_transition_race_example =
    apply_transition_race 50 900 51 901 by_student by_staff before
      (after_commit 50 900 by_student cancelled before)
      (written by_student cancelled 50 waiting_job) otp_verified (λ j. refl) (refl, tt) refl refl
      refl cancel_won

-- A new order, whose log is empty.
abbrev new_order : Job
new_order = job_at 1 pending_payment none none

abbrev ordered : Store
ordered = record { jobs = new_order ∷ []; events = []; outbox = [] }

abbrev withdrawn : Change
withdrawn = record by_student { from = pending_payment }

withdraw_won :
    apply_transition 50 900 withdrawn ordered
    ≡ ok (
      after_commit 50 900 withdrawn cancelled ordered,
      some (written withdrawn cancelled 50 new_order),
    )
unfolding transition transitions ◌is◌
withdraw_won =
    (apply_transition_won 50 900 withdrawn cancelled ordered new_order (λ j. refl) refl refl refl).0

apply_transition-IsAudited_example : IsAudited (after_commit 50 900 withdrawn cancelled ordered)
apply_transition-IsAudited_example =
    apply_transition-IsAudited 50 900 withdrawn ordered
      (
        after_commit 50 900 withdrawn cancelled ordered,
        some (written withdrawn cancelled 50 new_order),
      )
      (λ j. refl)
      (record { unique = (refl, tt); current = (refl, tt); chained = tt; projected = refl })
      withdraw_won
