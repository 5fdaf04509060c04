-- ===== src/Bands/Rank.antt =====
-- `assignBands` counts down two counters; the SQL of the reveal pass ranks the unrevealed jobs. The
-- two agree: the band of an item depends on its rank among the unrevealed items before it.
use print_q.Base.{
  ℕ, zero, suc, ◌+◌, ◌-◌, max, ◌≡◌, refl, ap, ◌∙◌, Bool, true, false, some, List, [], ◌∷◌, map,
  arith, ltb, if◌then◌else◌, includes, Distinct, get_elem?,
}
use print_q.Bands.{
  QueueBand, revealed, arriving, waiting, BandInput, Dict, dict_set, new_dict, place, assign_loop,
  assign_bands, already_revealed, counter_capacity_min,
}

-- The rule that the comment of `lockedRevealPass` states: free slots go to the earliest unrevealed
-- items, and the next ones are arriving.
abbrev pub band_of_rank : ℕ → ℕ → Bool → ℕ → QueueBand
band_of_rank free cap true rank = revealed
band_of_rank free cap false rank =
    if ltb rank free then revealed else if ltb rank (free + cap) then arriving else waiting

abbrev pub ids : List BandInput → List ℕ
ids queue = map (λ q. q.id) queue

-- How many of the first `i` items are not yet revealed.
abbrev pub rank_at : ℕ → List BandInput → ℕ
rank_at zero queue = 0
rank_at (suc i) [] = 0
rank_at (suc i) (q ∷ queue) =
    let rest = rank_at i queue in if q.was_revealed then rest else suc rest

pub assign_loop_other :
    (queue : List BandInput) (free left : ℕ) (out : Dict QueueBand) (k : ℕ)
    → includes k (ids queue) ≡ false
    → assign_loop queue free left out k ≡ out k
unfolding assign_loop
assign_loop_other [] free left out k h = refl
assign_loop_other (q ∷ queue) free left out k h =
    let (band, free', left') = place q.was_revealed free left in
    assign_loop_other queue free' left' (dict_set out q.id band) k (ground arith) ∙ ground arith

-- The counters after an item, seen from the ranks of the items behind it.
place-rank :
    (r s : Bool) (free left n : ℕ)
    → let (band, free', left') = place r free left in
      (band ≡ band_of_rank free left r 0)
      × (band_of_rank free' left' s n ≡ band_of_rank free left s (if r then n else suc n))
unfolding place
place-rank r s free left n = ground arith

includes-get :
    (queue : List BandInput) (i : ℕ) (x : BandInput)
    → get_elem? queue i ≡ some x
    → includes x.id (ids queue) ≡ true
includes-get [] i x h = cc
includes-get (q ∷ queue) zero x h = ground arith
includes-get (q ∷ queue) (suc i) x h = ground (arith, includes-get queue i x h)

assign_loop-rank :
    (queue : List BandInput) (free left : ℕ) (out : Dict QueueBand) (i : ℕ) (x : BandInput)
    → Distinct (ids queue)
    → get_elem? queue i ≡ some x
    → assign_loop queue free left out x.id
      ≡ some (band_of_rank free left x.was_revealed (rank_at i queue))
unfolding assign_loop
assign_loop-rank [] free left out i x d h = cc
assign_loop-rank (q ∷ queue) free left out zero x (n, d) h = ground (
  arith,
  place-rank q.was_revealed x.was_revealed free left 0,
  assign_loop_other queue (place q.was_revealed free left).1 (place q.was_revealed free left).2
      (dict_set out q.id (place q.was_revealed free left).0) q.id n,
)
assign_loop-rank (q ∷ queue) free left out (suc i) x (n, d) h =
    let (band, free', left') = place q.was_revealed free left in
    assign_loop-rank queue free' left' (dict_set out q.id band) i x d h
    ∙ ap some ((place-rank q.was_revealed x.was_revealed free left (rank_at i queue)).1)

-- In a queue without repeated ids, `assignBands` gives every item the band of its rank among the
-- unrevealed items: with `cap` the capacity (at least 1) and `free` the slots of it that are not
-- taken by revealed items, revealed items keep their band, the first `free` others are revealed,
-- the next `cap` are arriving and the rest wait.
pub assign_bands-band_of_rank :
    (queue : List BandInput) (capacity i : ℕ) (x : BandInput)
    → Distinct (ids queue)
    → get_elem? queue i ≡ some x
    → let cap = max counter_capacity_min capacity in
      assign_bands queue capacity x.id
      ≡ some (band_of_rank (cap - already_revealed queue) cap x.was_revealed (rank_at i queue))
unfolding assign_bands
assign_bands-band_of_rank queue capacity i x d h =
    assign_loop-rank queue (max counter_capacity_min capacity - already_revealed queue)
      (max counter_capacity_min capacity) new_dict i x d h
