-- ===== src/Queue/Settled.antt =====
-- `needsReconcile` is exactly the question whether a pass would pick a row, and one pass leaves
-- nothing for the next.
use print_q.Base.{
  ℕ, ◌+◌, ◌-◌, ◌≤◌, max, min, ◌≡◌, refl, sym, ap, ap₂, ◌∙◌, Bool, true, false, some, List, [], ◌∷◌,
  map, if◌then◌else◌, is_none, is_some, keep, tally, arith, includes, Distinct, any,
}
use native.Mathlib.Decide.{dec_le}
use print_q.Job.{Job}
use print_q.Bands.{
  QueueBand, Dict, dict_set, new_dict, place, assign_loop, assign_bands, counter_capacity_min,
}
use print_q.Bands.Rank.{assign_loop_other}
use print_q.Queue.{Settings, Printer, speeds, band_inputs, queue_entries, queue_entry}
use print_q.Queue.Pass.{
  line, revealed_count, pick_rows, find_pick, update_row, returned, pass_picks, locked_reveal_pass,
}
use print_q.Queue.Order.{line-Distinct, update_row-KeepsPlace}
use print_q.Queue.Refines.{Agree, walk, job_ids, ids-band_inputs, pass_line, revealed_count-inputs}
use print_q.Queue.Snapshot.{entry_needs, needs_reconcile, load_shop_queue}

abbrev is_cons {ℓ} : {A : Type ℓ} → List A → Bool
is_cons [] = false
is_cons (x ∷ xs) = true

any-queue_entries :
    (bands : Dict QueueBand) (ppm ahead : Dict ℕ) (index : ℕ) (jobs : List Job)
    → any (λ e. entry_needs e.job e.band) (queue_entries bands ppm ahead index jobs)
      ≡ any (λ j. entry_needs j (bands j.id)) jobs
unfolding queue_entries
any-queue_entries bands ppm ahead index [] = refl
any-queue_entries bands ppm ahead index (j ∷ jobs) =
    let (entry, ahead') = queue_entry bands ppm ahead index j in
    ground (arith, any-queue_entries bands ppm ahead' (index + 1) jobs)

needs-picks :
    (total room free left urank : ℕ) (out : Dict QueueBand) (jobs : List Job)
    → Distinct (job_ids jobs)
    → Agree total room free left urank
    → any (λ j. entry_needs j (assign_loop (band_inputs jobs) free left out j.id)) jobs
      ≡ is_cons (pick_rows total room urank (keep (λ j. is_none j.revealed_at) jobs))
unfolding assign_loop pick_rows
needs-picks total room free left urank out [] d a = refl
needs-picks total room free left urank out (j ∷ jobs) (n, d) a =
    let (band, free', left') = place (is_some j.revealed_at) free left in
    let out' = dict_set out j.id band in
    let head =
      assign_loop_other (band_inputs jobs) free' left' out' j.id
        (ap (includes j.id) (ids-band_inputs jobs) ∙ n) in
    ground (
      arith,
      head,
      needs-picks total room free' left' (if is_some j.revealed_at then urank else urank + 1) out'
          jobs d,
    )

needs_reconcile-picks :
    (s : Settings) (printers : List Printer) (shop_id : ℕ) (table : List Job)
    → Distinct (job_ids table)
    → needs_reconcile (load_shop_queue (some s) printers shop_id table)
      ≡ is_cons (pass_picks shop_id s table)
unfolding needs_reconcile load_shop_queue assign_bands pass_picks
needs_reconcile-picks s printers shop_id table d =
    let q = line shop_id table in
    let room = max counter_capacity_min s.counter_capacity in
    any-queue_entries (assign_bands (band_inputs q) s.counter_capacity) (speeds printers) new_dict 0
      q
    ∙ ap
        (λ n.
          any (λ j. entry_needs j (assign_loop (band_inputs q) (room - n) room new_dict j.id)) q)
        (sym (revealed_count-inputs q))
    ∙ needs-picks (room - revealed_count q) room (room - revealed_count q) room 1 new_dict q
        (line-Distinct shop_id table d) (omega arith)

abbrev unrevealed_count : List Job → ℕ
unrevealed_count jobs = tally (λ j. is_none j.revealed_at) jobs

count-walk :
    (now grace free left : ℕ) (jobs : List Job)
    → (revealed_count (walk now grace free left jobs)
        ≡ revealed_count jobs + min free (unrevealed_count jobs))
unfolding walk
count-walk now grace free left [] = omega arith
count-walk now grace free left (j ∷ jobs) =
    let (band, free', left') = place (is_some j.revealed_at) free left in
    ground (arith, count-walk now grace free' left' jobs)

-- With no slot left, the rows of a walked line that are still hidden are told or out of reach.
picks-walk_full :
    (now grace room free left urank : ℕ) (jobs : List Job)
    → 1 ≤ urank
    → 1 + room ≤ urank + left
    → pick_rows 0 room urank (keep (λ j. is_none j.revealed_at) (walk now grace free left jobs))
      ≡ []
unfolding walk pick_rows
picks-walk_full now grace room free left urank [] p h = refl
picks-walk_full now grace room free left urank (j ∷ jobs) p h =
    let (band, free', left') = place (is_some j.revealed_at) free left in
    ground (
      arith,
      picks-walk_full now grace room free' left' urank jobs,
      picks-walk_full now grace room free' left' (urank + 1) jobs,
    )

-- With a slot for everyone, nobody is hidden.
walk_all :
    (now grace free left : ℕ) (jobs : List Job)
    → unrevealed_count jobs ≤ free
    → keep (λ j. is_none j.revealed_at) (walk now grace free left jobs) ≡ []
unfolding walk
walk_all now grace free left [] h = refl
walk_all now grace free left (j ∷ jobs) h =
    let (band, free', left') = place (is_some j.revealed_at) free left in
    ground (arith, walk_all now grace free' left' jobs)

pass_picks-settled :
    (shop_id now : ℕ) (s : Settings) (table : List Job)
    → Distinct (job_ids table)
    → pass_picks shop_id s (locked_reveal_pass shop_id (some s) now table).0 ≡ []
unfolding pass_picks
pass_picks-settled shop_id now s table d =
    let q = line shop_id table in
    let grace = s.reveal_grace_seconds in
    let room = max counter_capacity_min s.counter_capacity in
    let free = room - revealed_count q in
    rw (pass_line shop_id now s table d) (elim (dec_le (unrevealed_count q) free) [
      | yes h ↦ rw (walk_all now grace free room q h) (unfold pick_rows in refl)
      | no h ↦
          let full : room - revealed_count (walk now grace free room q) ≡ 0 =
            omega (arith, count-walk now grace free room q) in
          rw full (picks-walk_full now grace room free room 1 q (omega arith) (omega arith))
    ])

map-ids :
    (f : Job → Job) (table : List Job)
    → ((j : Job) → (f j).id ≡ j.id)
    → job_ids (map f table) ≡ job_ids table
map-ids f [] h = refl
map-ids f (j ∷ table) h = ap₂ (◌∷◌) (h j) (map-ids f table h)

find_pick-nil :
    (shop_id now grace : ℕ) (table : List Job)
    → (map (λ j. update_row shop_id now grace (find_pick j.id []) j) table ≡ table)
      × (returned shop_id now grace [] table ≡ [])
unfolding find_pick update_row returned
find_pick-nil shop_id now grace [] = (refl, refl)
find_pick-nil shop_id now grace (j ∷ table) =
    let (same, none_won) = find_pick-nil shop_id now grace table in (ap (◌∷◌ j) same, none_won)

idle_pass :
    (shop_id now : ℕ) (s : Settings) (table : List Job)
    → pass_picks shop_id s table ≡ []
    → locked_reveal_pass shop_id (some s) now table ≡ (table, [])
unfolding locked_reveal_pass
idle_pass shop_id now s table h =
    let (same, none_won) = find_pick-nil shop_id now s.reveal_grace_seconds table in
    rw h (rw (same, none_won))

pub pass-Distinct :
    (shop_id now : ℕ) (s : Settings) (table : List Job)
    → Distinct (job_ids table)
    → Distinct (job_ids (locked_reveal_pass shop_id (some s) now table).0)
unfolding locked_reveal_pass
pass-Distinct shop_id now s table d =
    let picks = pass_picks shop_id s table in
    rw
      (map-ids (λ j. update_row shop_id now s.reveal_grace_seconds (find_pick j.id picks) j) table
        (update_row-KeepsPlace shop_id now s.reveal_grace_seconds (λ k. find_pick k picks)).same_id)
      d

-- If `needsReconcile` says no of a fresh read of the line, a pass over the same table would change
-- no row and win nothing: skipping it loses no reveal and no notification.
pub needs_reconcile-locked_reveal_pass :
    (s : Settings) (printers : List Printer) (shop_id now : ℕ) (table : List Job)
    → Distinct (job_ids table)
    → needs_reconcile (load_shop_queue (some s) printers shop_id table) ≡ false
    → locked_reveal_pass shop_id (some s) now table ≡ (table, [])
needs_reconcile-locked_reveal_pass s printers shop_id now table d h =
    idle_pass shop_id now s table (ground (arith, needs_reconcile-picks s printers shop_id table d))

-- One pass is enough, and each reveal and each "coming up" is won once: after a pass a fresh read
-- needs no reconcile, and a further pass at any later time changes no row and wins nothing.
pub locked_reveal_pass-once :
    (s : Settings) (printers : List Printer) (shop_id now later : ℕ) (table : List Job)
    → Distinct (job_ids table)
    → let table' = (locked_reveal_pass shop_id (some s) now table).0 in
      (needs_reconcile (load_shop_queue (some s) printers shop_id table') ≡ false)
      × (locked_reveal_pass shop_id (some s) later table' ≡ (table', []))
locked_reveal_pass-once s printers shop_id now later table d =
    let table' = (locked_reveal_pass shop_id (some s) now table).0 in
    let settled = pass_picks-settled shop_id now s table d in
    (
      needs_reconcile-picks s printers shop_id table' (pass-Distinct shop_id now s table d)
          ∙ ap is_cons settled,
      idle_pass shop_id later s table' settled,
    )
