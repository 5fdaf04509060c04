-- ===== src/Bands/Tests.antt =====
-- A short line, and the band theorems at it.
use print_q.Base.{◌≡◌, refl, ℕ, true, false, some, List, [], ◌∷◌}
use print_q.Bands.{BandInput, waiting, assign_bands}
use print_q.Bands.Rank.{assign_bands-band_of_rank}
use print_q.Bands.Capacity.{assign_bands-in_band, in_band, is_revealed, is_arriving}

abbrev hidden : ℕ → BandInput
hidden k = record { id = k; was_revealed = false }

-- The second of four was revealed before.
abbrev mixed : List BandInput
mixed = hidden 5 ∷ record { id = 6; was_revealed = true } ∷ hidden 7 ∷ hidden 8 ∷ []

assign_bands-band_of_rank_example : assign_bands mixed 1 7 ≡ some waiting
assign_bands-band_of_rank_example =
    assign_bands-band_of_rank mixed 1 2 (hidden 7) (refl, (refl, (refl, (refl, tt)))) refl

assign_bands-in_band_example :
    (in_band is_revealed mixed (assign_bands mixed 2) ≡ 2)
    × (in_band is_arriving mixed (assign_bands mixed 2) ≡ 2)
assign_bands-in_band_example = assign_bands-in_band mixed 2 (refl, (refl, (refl, (refl, tt))))
