-- ===== src/Bands.antt =====
-- packages/shared/src/queueBands.ts: the counter-capacity bands of a shop's line. Positions and
-- capacities are whole numbers here, so `Number.isInteger` and `Math.floor` have nothing to do.
pub mod Rank
pub mod Positional
pub mod Capacity
mod Tests
use print_q.Base.{
  ℕ, zero, suc, ◌+◌, ◌-◌, ◌*◌, max, Bool, true, false, Option, none, some, List, [], ◌∷◌, ltb, leb,
  ◌==◌, if◌then◌else◌, tally,
}

pub data QueueBand : Type 0 where
  revealed arriving waiting : QueueBand

abbrev pub counter_capacity_min : ℕ
counter_capacity_min = 1

unfoldable pub queue_band : Option ℕ → ℕ → Option QueueBand
queue_band none capacity = none
queue_band (some position) capacity =
    let cap = max counter_capacity_min capacity in
    if ltb position 1
    then none
    else if leb position cap
    then some revealed
    else if leb position (cap * 2)
    then some arriving
    else some waiting

pub record BandInput : Type 0 where
  pub id : ℕ
  -- Revealed earlier.
  pub was_revealed : Bool

-- `Map<string, V>`, of which the code uses `set` and `get` alone.
abbrev pub Dict : Type 0 → Type 0
Dict V = ℕ → Option V

abbrev pub new_dict : {V : Type 0} → Dict V
new_dict k = none

abbrev pub dict_set : {V : Type 0} → Dict V → ℕ → V → Dict V
dict_set out id v = λ k. if id == k then some v else out k

-- The body of the loop: the band of one item, and the two counters after it.
unfoldable pub place : Bool → ℕ → ℕ → QueueBand × ℕ × ℕ
place was_revealed free left =
    if was_revealed
    then (revealed, free, left)
    else if ltb 0 free
    then (revealed, free - 1, left)
    else if ltb 0 left
    then (arriving, free, left - 1)
    else (waiting, free, left)

unfoldable pub assign_loop : List BandInput → ℕ → ℕ → Dict QueueBand → Dict QueueBand
unfolding place
assign_loop [] free left out = out
assign_loop (item ∷ queue) free left out =
    let (band, free', left') = place item.was_revealed free left in
    assign_loop queue free' left' (dict_set out item.id band)

abbrev pub already_revealed : List BandInput → ℕ
already_revealed queue = tally (λ q. q.was_revealed) queue

unfoldable pub assign_bands : List BandInput → ℕ → Dict QueueBand
unfolding assign_loop
assign_bands queue capacity =
    let cap = max counter_capacity_min capacity in
    assign_loop queue (cap - already_revealed queue) cap new_dict
