-- ===== src/Engine/Visibility.antt =====
-- apps/api/src/modules/queue/visibility.ts: when the student may see the counter code, and when
-- staff may serve a job without an override.
use print_q.Base.{Bool, true, false, Option, some, ℕ, is_some, ◌&&◌, ◌||◌, if◌then◌else◌}
use print_q.Status.{JobStatus, queued, notified, ready_for_pickup, ◌is◌}
use print_q.Bands.{QueueBand, revealed}

unfoldable pub is_counter_code_available : JobStatus → Option ℕ → Bool
is_counter_code_available status revealed_at =
    if status is ready_for_pickup
    then true
    else (status is queued || status is notified) && is_some revealed_at

abbrev is_revealed_band : Option QueueBand → Bool
is_revealed_band (some revealed) = true
is_revealed_band _ = false

unfoldable pub is_normal_counter_release : JobStatus → Option QueueBand → Bool
is_normal_counter_release status band =
    (status is queued || status is notified) && is_revealed_band band
