-- ===== src/Status.antt =====
-- packages/shared/src/types.ts (the job states) and packages/shared/src/stateMachine.ts: the states
-- and events of a print job, and the one table by which its status changes.
pub mod Lifecycle
mod Tests
use print_q.Base.{
  ◌≡◌, refl, sym, ap, ◌∙◌, arith, ℕ, zero, suc, Bool, true, false, Option, none, some, List, [],
  ◌∷◌, is_some, Result, ok, throw, ◌==◌,
}

pub data JobStatus : Type 0 where
  pending_payment awaiting_arrival queued notified otp_verified printing finishing : JobStatus
  ready_for_pickup completed no_show requeued expired cancelled : JobStatus

pub data JobEvent : Type 0 where
  payment_confirmed cash_selected arrived queue_skipped counter_release front_reached : JobEvent
  event_otp_verified print_started print_completed finishing_required finishing_completed : JobEvent
  print_failed cash_returned counter_payment_returned handed_over cancel : JobEvent

abbrev pub job_events : List JobEvent
job_events =
    payment_confirmed ∷ cash_selected ∷ arrived ∷ queue_skipped ∷ counter_release ∷ front_reached
    ∷ event_otp_verified ∷ print_started ∷ print_completed ∷ finishing_required
    ∷ finishing_completed ∷ print_failed ∷ cash_returned ∷ counter_payment_returned ∷ handed_over
    ∷ cancel ∷ []

-- The table `TRANSITIONS`: `none` where it has no entry.
unfoldable pub transitions : JobStatus → JobEvent → Option JobStatus
transitions pending_payment payment_confirmed = some awaiting_arrival
transitions pending_payment cash_selected = some awaiting_arrival
transitions pending_payment cancel = some cancelled
transitions awaiting_arrival arrived = some queued
transitions awaiting_arrival counter_release = some otp_verified
transitions awaiting_arrival cancel = some cancelled
transitions queued front_reached = some notified
transitions queued counter_release = some otp_verified
transitions queued queue_skipped = some awaiting_arrival
transitions queued cancel = some cancelled
transitions notified event_otp_verified = some otp_verified
transitions notified counter_release = some otp_verified
transitions notified queue_skipped = some awaiting_arrival
transitions notified cancel = some cancelled
transitions no_show arrived = some queued
transitions no_show counter_release = some otp_verified
transitions no_show queue_skipped = some awaiting_arrival
transitions requeued arrived = some queued
transitions requeued counter_release = some otp_verified
transitions requeued queue_skipped = some awaiting_arrival
transitions otp_verified print_started = some printing
transitions otp_verified cash_returned = some cancelled
transitions otp_verified counter_payment_returned = some cancelled
transitions printing print_completed = some ready_for_pickup
transitions printing finishing_required = some finishing
transitions printing print_failed = some otp_verified
transitions finishing finishing_completed = some ready_for_pickup
transitions ready_for_pickup handed_over = some completed
transitions _ _ = none

-- The exception that a refused transition throws.
pub record InvalidTransition : Type 0 where
  pub source : JobStatus
  pub event : JobEvent

unfoldable pub transition : JobStatus → JobEvent → Result InvalidTransition JobStatus
transition from event = elim (transitions from event) [
  | some next ↦ ok next
  | none ↦ throw (record { source = from; event = event })
]

unfoldable pub can_transition : JobStatus → JobEvent → Bool
can_transition from event = is_some (transitions from event)

-- `===` on statuses.
abbrev pub status_index : JobStatus → ℕ
status_index pending_payment = 0
status_index awaiting_arrival = 1
status_index queued = 2
status_index notified = 3
status_index otp_verified = 4
status_index printing = 5
status_index finishing = 6
status_index ready_for_pickup = 7
status_index completed = 8
status_index no_show = 9
status_index requeued = 10
status_index expired = 11
status_index cancelled = 12

infix 50 ◌is◌
unfoldable pub ◌is◌ : JobStatus → JobStatus → Bool
a is b = status_index a == status_index b

index_eq : (m n : ℕ) → (m == n) ≡ true → m ≡ n
index_eq m n h = ground arith

pub is_refl : (s : JobStatus) → (s is s) ≡ true
unfolding ◌is◌
is_refl s = ground arith

-- The status with a given index, so that equal indices mean equal statuses.
abbrev at_index : ℕ → JobStatus
at_index zero = pending_payment
at_index (suc zero) = awaiting_arrival
at_index (suc (suc zero)) = queued
at_index (suc (suc (suc zero))) = notified
at_index (suc (suc (suc (suc zero)))) = otp_verified
at_index (suc (suc (suc (suc (suc zero))))) = printing
at_index (suc (suc (suc (suc (suc (suc zero)))))) = finishing
at_index (suc (suc (suc (suc (suc (suc (suc zero))))))) = ready_for_pickup
at_index (suc (suc (suc (suc (suc (suc (suc (suc zero)))))))) = completed
at_index (suc (suc (suc (suc (suc (suc (suc (suc (suc zero))))))))) = no_show
at_index (suc (suc (suc (suc (suc (suc (suc (suc (suc (suc zero)))))))))) = requeued
at_index (suc (suc (suc (suc (suc (suc (suc (suc (suc (suc (suc zero))))))))))) = expired
at_index (suc (suc (suc (suc (suc (suc (suc (suc (suc (suc (suc (suc n)))))))))))) = cancelled

at_index-status_index : (s : JobStatus) → at_index (status_index s) ≡ s
at_index-status_index pending_payment = refl
at_index-status_index _ = refl

pub eq_of_is : (a b : JobStatus) → (a is b) ≡ true → a ≡ b
unfolding ◌is◌
eq_of_is a b h =
    let same : status_index a ≡ status_index b = index_eq (status_index a) (status_index b) h in
    sym (at_index-status_index a) ∙ ap at_index same ∙ at_index-status_index b

abbrev pub active_queue_statuses : List JobStatus
active_queue_statuses = queued ∷ notified ∷ []

abbrev pub terminal_statuses : List JobStatus
terminal_statuses = completed ∷ expired ∷ cancelled ∷ []
