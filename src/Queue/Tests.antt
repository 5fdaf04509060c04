-- ===== src/Queue/Tests.antt =====
-- The line of the sample table, and the theorems of the reveal pass at it.
use print_q.Base.{◌≡◌, refl, inr, false, some, none, List, [], ◌∷◌, map, get_elem?}
use print_q.Status.{queued, awaiting_arrival, ◌is◌}
use print_q.Job.{Job}
use print_q.Bands.{assign_bands}
use print_q.Queue.{band_inputs}
use print_q.Queue.Pass.{line, locked_reveal_pass}
use print_q.Queue.Snapshot.{needs_reconcile, load_shop_queue}
use print_q.Queue.Refines.{mark, locked_reveal_pass-assign_bands}
use print_q.Queue.Settled.{needs_reconcile-locked_reveal_pass, locked_reveal_pass-once}
use print_q.Queue.Untouched.{locked_reveal_pass_other}
use print_q.Samples.{table, one_slot, two_slots, slow_printer, job_at}

locked_reveal_pass-assign_bands_example :
    line 1 (locked_reveal_pass 1 (some two_slots) 50 table).0
    ≡ map (λ j. mark 50 60 (assign_bands (band_inputs (line 1 table)) 2 j.id) j) (line 1 table)
locked_reveal_pass-assign_bands_example =
    locked_reveal_pass-assign_bands 1 50 two_slots table (refl, (refl, (refl, (refl, tt))))

locked_reveal_pass-once_example :
    (needs_reconcile (
        load_shop_queue
          (some two_slots)
          (slow_printer ∷ [])
          1
          (locked_reveal_pass 1 (some two_slots) 50 table).0)
      ≡ false)
    × (locked_reveal_pass 1 (some two_slots) 80 (locked_reveal_pass 1 (some two_slots) 50 table).0
        ≡ ((locked_reveal_pass 1 (some two_slots) 50 table).0, []))
locked_reveal_pass-once_example =
    locked_reveal_pass-once two_slots (slow_printer ∷ []) 1 50 80 table
      (refl, (refl, (refl, (refl, tt))))

-- With one slot and its holder in place, and nobody else in the line.
abbrev alone : List Job
alone = job_at 1 queued (some 10) (some 12) ∷ job_at 4 awaiting_arrival none none ∷ []

needs_reconcile-locked_reveal_pass_example :
    locked_reveal_pass 1 (some one_slot) 50 alone ≡ (alone, [])
unfolding needs_reconcile load_shop_queue ◌is◌ assign_bands
needs_reconcile-locked_reveal_pass_example =
    needs_reconcile-locked_reveal_pass one_slot [] 1 50 alone (refl, (refl, tt)) refl

locked_reveal_pass_other_example :
    get_elem? (locked_reveal_pass 1 (some two_slots) 50 table).0 1
    ≡ some (job_at 1 queued (some 10) (some 12))
locked_reveal_pass_other_example =
    locked_reveal_pass_other 1 50 two_slots table 1 (job_at 1 queued (some 10) (some 12)) refl
      (inr refl)
