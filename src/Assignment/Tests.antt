-- ===== src/Assignment/Tests.antt =====
-- A shop with one printer, and the theorems on ranking and capability at it.
use print_q.Base.{◌≡◌, ◌≢◌, refl, true, some, none, List, [], ◌∷◌, keep, All}
use print_q.Job.{JobSpecs}
use print_q.Assignment.{
  PrinterProfile, PrinterRecommendation, QueuedJobLite, rank_printers, printer_matches_specs,
  recommendation, ranks_before, unsupported_specs,
}
use print_q.Assignment.Ranking.{Fits, rank_printers-recommended}
use print_q.Assignment.Capability.{unsupported_specs-rank_printers}
use print_q.Samples.{profile, plain_specs}

-- A faster printer beside it, with one job of four pages waiting.
abbrev printers : List PrinterProfile
printers = profile ∷ record profile { id = 8; avg_pages_per_minute = 12 } ∷ []

abbrev waiting : List QueuedJobLite
waiting = record { id = 1; assigned_printer_id = some 8; pages = 4; copies = 1 } ∷ []

abbrev chosen : PrinterRecommendation
chosen = record { printer_id = 8; estimated_wait_minutes = 1; queue_length = 1 }

rank_printers-recommended_example :
    Fits plain_specs 3 waiting printers chosen
    × All
        (λ p. ranks_before chosen (recommendation plain_specs 3 waiting p) ≡ true)
        (keep (λ p. printer_matches_specs p plain_specs) printers)
unfolding rank_printers
rank_printers-recommended_example =
    rank_printers-recommended plain_specs 3 waiting printers chosen refl

-- Colour, which neither printer has.
abbrev color_specs : JobSpecs
color_specs = record plain_specs { color = true }

color_is_refused : unsupported_specs printers color_specs ≢ []
unfolding unsupported_specs
color_is_refused h = cc

unsupported_specs-rank_printers_example :
    (rank_printers printers color_specs 3 waiting).recommended ≡ none
unsupported_specs-rank_printers_example =
    unsupported_specs-rank_printers printers color_specs 3 waiting color_is_refused
