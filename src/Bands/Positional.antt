-- ===== src/Bands/Positional.antt =====
-- The comment of `assignBands`: with no earlier reveals it equals `queueBand` at every position.
use print_q.Base.{
  ℕ, zero, suc, ◌+◌, max, ◌≡◌, ◌∙◌, false, some, List, [], ◌∷◌, arith, get_elem?, Distinct,
}
use print_q.Bands.{BandInput, queue_band, assign_bands, already_revealed, counter_capacity_min}
use print_q.Bands.Rank.{ids, rank_at, band_of_rank, assign_bands-band_of_rank}

fresh_rank :
    (queue : List BandInput) (i : ℕ) (x : BandInput)
    → already_revealed queue ≡ 0
    → get_elem? queue i ≡ some x
    → (rank_at i queue ≡ i) × (x.was_revealed ≡ false)
fresh_rank [] i x h e = absurd (cc)
fresh_rank (q ∷ queue) zero x h e = ground arith
fresh_rank (q ∷ queue) (suc i) x h e = ground (arith, fresh_rank queue i x)

positional :
    (i capacity : ℕ)
    → let cap = max counter_capacity_min capacity in
      some (band_of_rank cap cap false i) ≡ queue_band (some (i + 1)) capacity
unfolding queue_band
positional i capacity = ground arith

-- If no item of a queue without repeated ids was revealed before, `assignBands` gives the item at
-- index `i` exactly the band that `queueBand` gives position `i + 1`.
pub assign_bands-queue_band :
    (queue : List BandInput) (capacity i : ℕ) (x : BandInput)
    → Distinct (ids queue)
    → already_revealed queue ≡ 0
    → get_elem? queue i ≡ some x
    → assign_bands queue capacity x.id ≡ queue_band (some (i + 1)) capacity
assign_bands-queue_band queue capacity i x d none_yet h =
    let (rank, unrevealed) = fresh_rank queue i x none_yet h in
    assign_bands-band_of_rank queue capacity i x d h ∙ ground (arith, positional i capacity)
