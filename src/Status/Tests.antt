-- ===== src/Status/Tests.antt =====
-- Runs of the transition table, and the lifecycle theorems at them.
use print_q.Base.{◌≡◌, ◌⊎◌, refl, true, false, any, List, [], ◌∷◌, ok}
use print_q.Status.{
  JobStatus, pending_payment, printing, completed, JobEvent, cash_selected, arrived,
  counter_release, print_started, print_failed, finishing_required, finishing_completed,
  handed_over, transitions, transition, terminal_statuses, ◌is◌,
}
use print_q.Status.Lifecycle.{
  run, run-completed, is_printed, is_commitment, is_release, is_start, is_output, is_handover,
  run_reaches_terminal,
}

-- A pay-at-shop order with a binding whose first print fails.
abbrev bound_order : List JobEvent
bound_order =
    cash_selected ∷ arrived ∷ counter_release ∷ print_started ∷ print_failed ∷ print_started
    ∷ finishing_required ∷ finishing_completed ∷ handed_over ∷ []

bound_order_completes : run pending_payment bound_order ≡ ok completed
unfolding run transition transitions
bound_order_completes = refl

run-completed_example :
    (any is_commitment bound_order ≡ true)
    × (any is_release bound_order ≡ true)
    × (any is_start bound_order ≡ true)
    × (any is_output bound_order ≡ true)
    × (any is_handover bound_order ≡ true)
run-completed_example = run-completed bound_order bound_order_completes

run_reaches_terminal_example :
    (es : List JobEvent) × (t : JobStatus) × (run printing es ≡ ok t)
    × (any (λ u. t is u) terminal_statuses ≡ true)
    × ((is_printed printing ≡ false) ⊎ (t ≡ completed))
run_reaches_terminal_example = run_reaches_terminal printing
