-- ===== src/Queueing/Tests.antt =====
-- A walk-in and a scheduled job near its slot, and the theorems on promotion at them.
use print_q.Base.{◌≡◌, refl, some, none, [], ◌∷◌}
use print_q.Job.{instant, scheduled}
use print_q.Queueing.{QueueCandidate, pick_next_job}

abbrev walk_in : QueueCandidate
walk_in = record { id = 1; mode = instant; queued_at = 40; scheduled_time = none }

abbrev near_slot : QueueCandidate
near_slot = record { id = 2; mode = scheduled; queued_at = 10; scheduled_time = some 100 }

both_waiting : pick_next_job (walk_in ∷ near_slot ∷ []) (some scheduled) 90 15 ≡ some walk_in
unfolding pick_next_job
both_waiting = refl
