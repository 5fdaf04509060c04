-- ===== src/Status/Lifecycle.antt =====
-- What the transition table of packages/shared/src/stateMachine.ts allows a job to go through.
use print_q.Base.{
  ◌≡◌, refl, ◌↔◌, ◌⊎◌, inl, inr, Bool, true, false, some, List, [], ◌∷◌, any, not, arith,
  Option-cases, Bool-cases, ◌>>=◌, Result, ok,
}
use print_q.Status.{
  JobStatus, pending_payment, awaiting_arrival, queued, notified, otp_verified, printing, finishing,
  ready_for_pickup, completed, no_show, requeued, expired, cancelled, JobEvent, job_events,
  payment_confirmed, cash_selected, queue_skipped, counter_release, event_otp_verified,
  print_started, print_completed, finishing_required, finishing_completed, cash_returned,
  handed_over, cancel, transitions, transition, can_transition, InvalidTransition,
  terminal_statuses, ◌is◌,
}

-- The statuses that a sequence of events leads through; the first refused event throws.
unfoldable pub run : JobStatus → List JobEvent → Result InvalidTransition JobStatus
run s [] = ok s
run s (e ∷ es) = transition s e >>= λ t. run t es

-- A status is terminal exactly when the table lets no event leave it.
pub terminal_iff :
    (s : JobStatus)
    → (any (can_transition s) job_events ≡ false) ↔ (any (λ t. s is t) terminal_statuses ≡ true)
unfolding can_transition transitions ◌is◌
terminal_iff s = ground arith

-- A set of statuses that can be entered only by events of a certain kind.
abbrev Gate : (JobStatus → Bool) → (JobEvent → Bool) → Type 0
Gate inside key =
    (s : JobStatus) (e : JobEvent) (t : JobStatus)
    → transitions s e ≡ some t
    → inside s ≡ false
    → inside t ≡ true
    → key e ≡ true

run-cons :
    (s : JobStatus) (e : JobEvent) (es : List JobEvent) (t : JobStatus)
    → run s (e ∷ es) ≡ ok t
    → (u : JobStatus) × (transitions s e ≡ some u) × (run u es ≡ ok t)
unfolding run transition
run-cons s e es t h = elim (Option-cases (transitions s e)) [
  | inl p ↦ absurd (ground arith)
  | inr (u, p) ↦ (u, p, ground arith)
]

-- A run that enters such a set contains one of its events.
Gate-run :
    (inside : JobStatus → Bool) (key : JobEvent → Bool)
    → Gate inside key
    → (s : JobStatus) (es : List JobEvent) (t : JobStatus) → run s es ≡ ok t
    → inside s ≡ false
    → inside t ≡ true
    → any key es ≡ true
unfolding run
Gate-run inside key gate s [] t h out into = ground arith
Gate-run inside key gate s (e ∷ es) t h out into =
    let (u, step, rest) = run-cons s e es t h in
    elim (Bool-cases (inside u)) [
      | inl p ↦ rw (gate s e u step out p)
      | inr p ↦ ground (arith, Gate-run inside key gate u es t rest p into)
    ]

abbrev pub is_commitment : JobEvent → Bool
is_commitment payment_confirmed = true
is_commitment cash_selected = true
is_commitment _ = false

abbrev pub is_release : JobEvent → Bool
is_release counter_release = true
is_release event_otp_verified = true
is_release _ = false

abbrev pub is_start : JobEvent → Bool
is_start print_started = true
is_start _ = false

abbrev pub is_output : JobEvent → Bool
is_output print_completed = true
is_output finishing_required = true
is_output _ = false

abbrev pub is_handover : JobEvent → Bool
is_handover handed_over = true
is_handover _ = false

abbrev is_committed : JobStatus → Bool
is_committed pending_payment = false
is_committed cancelled = false
is_committed expired = false
is_committed _ = true

-- Paper has been produced.
abbrev pub is_printed : JobStatus → Bool
is_printed finishing = true
is_printed ready_for_pickup = true
is_printed completed = true
is_printed _ = false

abbrev is_started : JobStatus → Bool
is_started printing = true
is_started s = is_printed s

abbrev is_released : JobStatus → Bool
is_released otp_verified = true
is_released s = is_started s

abbrev is_completed : JobStatus → Bool
is_completed completed = true
is_completed _ = false

abbrev pub is_retired : JobStatus → Bool
is_retired no_show = true
is_retired requeued = true
is_retired expired = true
is_retired _ = false

gates :
    Gate is_committed is_commitment
    × Gate is_released is_release
    × Gate is_started is_start
    × Gate is_printed is_output
    × Gate is_completed is_handover
unfolding transitions
gates = (
  λ s e t p out into. ground arith,
  λ s e t p out into. ground arith,
  λ s e t p out into. ground arith,
  λ s e t p out into. ground arith,
  λ s e t p out into. ground arith,
)

no_exits : Gate (λ s. not (is_printed s)) (λ _. false) × Gate is_retired (λ _. false)
unfolding transitions
no_exits = (λ s e t p out into. ground arith, λ s e t p out into. ground arith)

-- A job that goes from creation to `completed` was paid online or committed to pay at the shop, was
-- released at the counter, was sent to a printer, was reported as printed and was handed over.
pub run-completed :
    (es : List JobEvent)
    → run pending_payment es ≡ ok completed
    → (any is_commitment es ≡ true)
      × (any is_release es ≡ true)
      × (any is_start es ≡ true)
      × (any is_output es ≡ true)
      × (any is_handover es ≡ true)
run-completed es h = (
  Gate-run is_committed is_commitment gates.0 pending_payment es completed h refl refl,
  Gate-run is_released is_release gates.1 pending_payment es completed h refl refl,
  Gate-run is_started is_start gates.2 pending_payment es completed h refl refl,
  Gate-run is_printed is_output gates.3 pending_payment es completed h refl refl,
  Gate-run is_completed is_handover gates.4 pending_payment es completed h refl refl,
)

any-const_false : (es : List JobEvent) → any (λ _. false) es ≡ false
any-const_false [] = refl
any-const_false (e ∷ es) = any-const_false es

-- Once paper has been produced the job stays printed through every further sequence of events: it
-- is never cancelled, and never goes back to be released or printed again.
pub run-is_printed :
    (s : JobStatus) (es : List JobEvent) (t : JobStatus)
    → run s es ≡ ok t
    → is_printed s ≡ true
    → is_printed t ≡ true
run-is_printed s es t h p = elim (Bool-cases (is_printed t)) [
  | inl e ↦ e
  | inr e ↦
      let found =
        Gate-run (λ s. not (is_printed s)) (λ _. false) no_exits.0 s es t h (ground arith)
          (ground arith) in
      ground (arith, found, any-const_false es)
]

-- A job created in `pending_payment` never enters a retired status (`no_show`, `requeued`,
-- `expired`): these are only found on rows of the older model.
pub run-is_retired :
    (es : List JobEvent) (t : JobStatus) → run pending_payment es ≡ ok t → is_retired t ≡ false
run-is_retired es t h = elim (Bool-cases (is_retired t)) [
  | inl e ↦
      let found = Gate-run is_retired (λ _. false) no_exits.1 pending_payment es t h refl e in
      ground (arith, found, any-const_false es)
  | inr e ↦ e
]

-- A shortest way out of each status that is not yet final.
abbrev way_out : JobStatus → List JobEvent
way_out pending_payment = cancel ∷ []
way_out awaiting_arrival = cancel ∷ []
way_out queued = cancel ∷ []
way_out notified = cancel ∷ []
way_out otp_verified = cash_returned ∷ []
way_out printing = print_completed ∷ handed_over ∷ []
way_out finishing = finishing_completed ∷ handed_over ∷ []
way_out ready_for_pickup = handed_over ∷ []
way_out no_show = queue_skipped ∷ cancel ∷ []
way_out requeued = queue_skipped ∷ cancel ∷ []
way_out _ = []

abbrev way_out_end : JobStatus → JobStatus
way_out_end printing = completed
way_out_end finishing = completed
way_out_end ready_for_pickup = completed
way_out_end completed = completed
way_out_end expired = expired
way_out_end _ = cancelled

-- No status is a dead end: from every one a sequence of events leads to a terminal status, and a
-- printed job gets there as `completed`.
pub run_reaches_terminal :
    (s : JobStatus)
    → (es : List JobEvent) × (t : JobStatus) × (run s es ≡ ok t)
      × (any (λ u. t is u) terminal_statuses ≡ true)
      × ((is_printed s ≡ false) ⊎ (t ≡ completed))
unfolding run transition transitions ◌is◌
run_reaches_terminal s = (way_out s, way_out_end s, ground arith, ground arith, ground arith)
