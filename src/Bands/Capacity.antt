-- ===== src/Bands/Capacity.antt =====
-- How many items of a queue `assignBands` puts into each band.
use Prim.Native.Nat.{min}
use print_q.Base.{
  ℕ, ◌+◌, ◌-◌, max, ◌≡◌, Bool, true, false, Option, none, some, List, [], ◌∷◌, arith, length, tally,
  Distinct, if◌then◌else◌,
}
use print_q.Bands.{
  QueueBand, revealed, arriving, BandInput, Dict, dict_set, place, assign_loop, assign_bands,
  already_revealed, counter_capacity_min,
}
use print_q.Bands.Rank.{ids, assign_loop_other}

abbrev pub is_revealed : Option QueueBand → Bool
is_revealed (some revealed) = true
is_revealed _ = false

abbrev pub is_arriving : Option QueueBand → Bool
is_arriving (some arriving) = true
is_arriving _ = false

abbrev pub in_band : (Option QueueBand → Bool) → List BandInput → Dict QueueBand → ℕ
in_band test queue bands = tally (λ q. test (bands q.id)) queue

abbrev unrevealed : List BandInput → ℕ
unrevealed queue = tally (λ q. if q.was_revealed then false else true) queue

assign_loop-in_band :
    (queue : List BandInput) (free left : ℕ) (out : Dict QueueBand)
    → Distinct (ids queue)
    → let bands = assign_loop queue free left out in
      (in_band is_revealed queue bands ≡ already_revealed queue + min free (unrevealed queue))
      × (in_band is_arriving queue bands ≡ min left (unrevealed queue - free))
unfolding assign_loop place
assign_loop-in_band [] free left out d = omega arith
assign_loop-in_band (q ∷ queue) free left out (n, d) =
    let (band, free', left') = place q.was_revealed free left in
    ground (
      arith,
      assign_loop-in_band queue free' left' (dict_set out q.id band) d,
      assign_loop_other queue free' left' (dict_set out q.id band) q.id n,
    )

unrevealed-length :
    (queue : List BandInput) → unrevealed queue + already_revealed queue ≡ length queue
unrevealed-length [] = omega arith
unrevealed-length (q ∷ queue) = ground (arith, unrevealed-length queue)

-- In a queue without repeated ids the revealed band holds as many items as the capacity (at least 1)
-- or the queue allows, but never fewer than were revealed before; the arriving band holds at most
-- the capacity, and fills up before anyone waits.
pub assign_bands-in_band :
    (queue : List BandInput) (capacity : ℕ)
    → Distinct (ids queue)
    → let cap = max counter_capacity_min capacity in
      let bands = assign_bands queue capacity in
      (in_band is_revealed queue bands ≡ max (already_revealed queue) (min cap (length queue)))
      × (in_band is_arriving queue bands
          ≡ min cap (length queue - max (already_revealed queue) (min cap (length queue))))
unfolding assign_bands
assign_bands-in_band queue capacity d =
    let cap = max counter_capacity_min capacity in
    omega (
      arith,
      assign_loop-in_band queue (cap - already_revealed queue) cap (λ k. none) d,
      unrevealed-length queue,
    )
