-- ===== src/Queue/Refines.antt =====
-- The locked pass against `assignBands`: the statement writes to the line exactly what the bands of
-- the line ask for.
use print_q.Base.{
  ℕ, ◌+◌, ◌-◌, ◌≤◌, max, ◌≡◌, refl, sym, ap, ap₂, ◌∙◌, Bool, true, false, Option, none, some, List,
  [], ◌∷◌, map, leb, ◌&&◌, ◌||◌, if◌then◌else◌, is_none, is_some, keep, arith, includes, Distinct,
  All,
}
use print_q.Job.{Job}
use print_q.Bands.{
  QueueBand, revealed, arriving, Dict, dict_set, new_dict, place, assign_loop, assign_bands,
  already_revealed, counter_capacity_min,
}
use print_q.Bands.Rank.{ids, assign_loop_other}
use print_q.Queue.{Settings, band_inputs}
use print_q.Queue.Pass.{
  in_line, line, revealed_count, pick_rows, find_pick, set_reveal, set_arriving, update_row,
  pass_picks, locked_reveal_pass,
}
use print_q.Queue.Order.{line-Distinct, line-in_line, line-map, update_row-KeepsPlace}

-- What a band asks for: a reveal or a "coming up" that has not happened yet.
abbrev pub mark : ℕ → ℕ → Option QueueBand → Job → Job
mark now grace (some revealed) j = if is_none j.revealed_at then set_reveal now grace j else j
mark now grace (some arriving) j = if is_none j.arriving_notified_at then set_arriving now j else j
mark now grace _ j = j

-- Both sides as one walk down the line with the two counters of `assignBands`.
unfoldable pub walk : ℕ → ℕ → ℕ → ℕ → List Job → List Job
unfolding place
walk now grace free left [] = []
walk now grace free left (j ∷ jobs) =
    let (band, free', left') = place (is_some j.revealed_at) free left in
    mark now grace (some band) j ∷ walk now grace free' left' jobs

abbrev pub job_ids : List Job → List ℕ
job_ids jobs = map (λ j. j.id) jobs

pub ids-band_inputs : (jobs : List Job) → ids (band_inputs jobs) ≡ job_ids jobs
ids-band_inputs [] = refl
ids-band_inputs (j ∷ jobs) = ap (◌∷◌ j.id) (ids-band_inputs jobs)

pub revealed_count-inputs :
    (jobs : List Job) → revealed_count jobs ≡ already_revealed (band_inputs jobs)
revealed_count-inputs [] = refl
revealed_count-inputs (j ∷ jobs) = ground (arith, revealed_count-inputs jobs)

walk-bands :
    (now grace : ℕ) (jobs : List Job) (free left : ℕ) (out : Dict QueueBand)
    → Distinct (job_ids jobs)
    → map (λ j. mark now grace (assign_loop (band_inputs jobs) free left out j.id) j) jobs
      ≡ walk now grace free left jobs
unfolding walk assign_loop
walk-bands now grace [] free left out d = refl
walk-bands now grace (j ∷ jobs) free left out (n, d) =
    let (band, free', left') = place (is_some j.revealed_at) free left in
    let out' = dict_set out j.id band in
    let head =
      assign_loop_other (band_inputs jobs) free' left' out' j.id
        (ap (includes j.id) (ids-band_inputs jobs) ∙ n) in
    ap₂ (λ b js. mark now grace b j ∷ js) {y = some band} (head ∙ ground arith)
      (walk-bands now grace jobs free' left' out' d)

find_pick_other :
    (free cap urank k : ℕ) (jobs : List Job)
    → includes k (job_ids jobs) ≡ false
    → find_pick k (pick_rows free cap urank (keep (λ j. is_none j.revealed_at) jobs)) ≡ none
unfolding find_pick pick_rows
find_pick_other free cap urank k [] h = refl
find_pick_other free cap urank k (j ∷ jobs) h =
    ground
      (arith, find_pick_other free cap urank k jobs, find_pick_other free cap (urank + 1) k jobs)

-- The picks of the rows behind an unrevealed row, and of the row itself.
find_pick-tail :
    (free cap urank k : ℕ) (j : Job) (jobs : List Job)
    → includes j.id (job_ids jobs) ≡ false
    → includes k (job_ids jobs) ≡ true
    → find_pick k (pick_rows free cap urank (keep (λ j. is_none j.revealed_at) (j ∷ jobs)))
      ≡ find_pick k (
          pick_rows free cap
            (if is_some j.revealed_at then urank else urank + 1)
            (keep (λ j. is_none j.revealed_at) jobs))
unfolding find_pick pick_rows
find_pick-tail free cap urank k j jobs n h = ground arith

find_pick-head :
    (free cap urank : ℕ) (j : Job) (jobs : List Job)
    → includes j.id (job_ids jobs) ≡ false
    → find_pick j.id (pick_rows free cap urank (keep (λ j. is_none j.revealed_at) (j ∷ jobs))) ≡ (
        if is_none j.revealed_at
          && (leb urank free || (leb urank (free + cap) && is_none j.arriving_notified_at))
        then some (leb urank free)
        else none)
unfolding find_pick pick_rows
find_pick-head free cap urank j jobs n = ground (
  arith,
  find_pick_other free cap urank j.id jobs n,
  find_pick_other free cap (urank + 1) j.id jobs n,
)

-- The rank of the next unrevealed row, seen from the two counters.
pub record Agree (total room free left urank : ℕ) : Type 0 where
  pub free_le : free ≤ total
  pub left_le : left ≤ room
  pub in_order : 1 ≤ free → left ≡ room
  pub ranked : 1 ≤ free + left → urank + free + left ≡ 1 + total + room
  pub behind : 1 + total + room ≤ urank + free + left

row_step :
    (shop_id now grace total room free left urank : ℕ) (j : Job)
    → Agree total room free left urank
    → in_line shop_id j ≡ true
    → let (band, free', left') = place (is_some j.revealed_at) free left in
      (update_row shop_id now grace
          (if is_none j.revealed_at
              && (leb urank total || (leb urank (total + room) && is_none j.arriving_notified_at))
            then some (leb urank total)
            else none)
          j
        ≡ mark now grace (some band) j)
      × Agree total room free' left' (if is_some j.revealed_at then urank else urank + 1)
unfolding place update_row
row_step shop_id now grace total room free left urank j a h = ground arith

walk-picks :
    (shop_id now grace total room free left urank : ℕ) (full : List (ℕ × Bool)) (jobs : List Job)
    → Distinct (job_ids jobs)
    → All (λ j. in_line shop_id j ≡ true) jobs
    → Agree total room free left urank
    → ((k : ℕ)
        → includes k (job_ids jobs) ≡ true
        → find_pick k full
          ≡ find_pick k (pick_rows total room urank (keep (λ j. is_none j.revealed_at) jobs)))
    → map (λ j. update_row shop_id now grace (find_pick j.id full) j) jobs
      ≡ walk now grace free left jobs
unfolding walk
walk-picks shop_id now grace total room free left urank full [] d w a same = refl
walk-picks shop_id now grace total room free left urank full (j ∷ jobs) (n, d) (w, ws) a same =
    let (band, free', left') = place (is_some j.revealed_at) free left in
    let (row, agree) = row_step shop_id now grace total room free left urank j a w in
    let head = same j.id (ground arith) ∙ find_pick-head total room urank j jobs n in
    ap₂ (◌∷◌) (ap (λ p. update_row shop_id now grace p j) head ∙ row) (
      walk-picks shop_id now grace total room free' left'
        (if is_some j.revealed_at then urank else urank + 1) full jobs d ws agree
        (λ k h. same k (ground arith) ∙ find_pick-tail total room urank k j jobs n h))

pub pass_line :
    (shop_id now : ℕ) (s : Settings) (table : List Job)
    → Distinct (job_ids table)
    → let q = line shop_id table in
      let cap' = max counter_capacity_min s.counter_capacity in
      line shop_id (locked_reveal_pass shop_id (some s) now table).0
      ≡ walk now s.reveal_grace_seconds (cap' - revealed_count q) cap' q
unfolding locked_reveal_pass pass_picks
pass_line shop_id now s table d =
    let q = line shop_id table in
    let room = max counter_capacity_min s.counter_capacity in
    let picks = pass_picks shop_id s table in
    line-map shop_id _ table
      (update_row-KeepsPlace shop_id now s.reveal_grace_seconds (λ k. find_pick k picks))
    ∙ walk-picks shop_id now s.reveal_grace_seconds (room - revealed_count q) room
        (room - revealed_count q) room 1 picks q (line-Distinct shop_id table d)
        (line-in_line shop_id table) (omega arith) (λ k h. refl)

-- The comment of `lockedRevealPass`, "applies exactly the rule of assignBands()": in a table
-- without repeated ids the pass leaves the shop's line in the same order, and changes each job of it
-- as its band under `assignBands` asks: an unrevealed job in the revealed band gets the reveal time
-- and the deadline, one in the arriving band that was not told gets the "coming up" time, and no
-- other is touched.
pub locked_reveal_pass-assign_bands :
    (shop_id now : ℕ) (s : Settings) (table : List Job)
    → Distinct (job_ids table)
    → let q = line shop_id table in
      line shop_id (locked_reveal_pass shop_id (some s) now table).0
      ≡ map
          (λ j.
            mark now s.reveal_grace_seconds
              (assign_bands (band_inputs q) s.counter_capacity j.id)
              j)
          q
unfolding assign_bands
locked_reveal_pass-assign_bands shop_id now s table d =
    let q = line shop_id table in
    let room = max counter_capacity_min s.counter_capacity in
    pass_line shop_id now s table d
    ∙ ap (λ n. walk now s.reveal_grace_seconds (room - n) room q) (revealed_count-inputs q)
    ∙ sym (
        walk-bands now s.reveal_grace_seconds q (room - already_revealed (band_inputs q)) room
          new_dict (line-Distinct shop_id table d))
