-- ===== src/Queue/Pass.antt =====
-- `lockedRevealPass` and `runRevealPass` of apps/api/src/modules/queue/bands.ts. The statement is
-- modelled part by part (`sh`, `q`, `st`, `un`, `pick`, the UPDATE, RETURNING) over the table of jobs.
-- The advisory lock makes a pass one step. Timers and pushes are what `run_reveal_pass` returns.
use print_q.Base.{
  ℕ, ◌+◌, ◌-◌, ◌*◌, max, Bool, Option, none, some, List, [], ◌∷◌, map, leb, ◌==◌, ◌&&◌, ◌||◌, not,
  if◌then◌else◌, is_none, is_some, keep, tally,
}
use print_q.Status.{JobStatus, queued, notified, ◌is◌}
use print_q.Job.{Job}
use print_q.Bands.{counter_capacity_min}
use print_q.Queue.{sort_queue_jobs, Settings}

abbrev pub is_active : JobStatus → Bool
is_active s = s is queued || s is notified

-- The rows of the shop in an active status.
abbrev pub in_line : ℕ → Job → Bool
in_line shop_id j = j.shop_id == shop_id && is_active j.status

-- `q`: the shop's line.
unfoldable pub line : ℕ → List Job → List Job
unfolding sort_queue_jobs
line shop_id table = sort_queue_jobs (keep (in_line shop_id) table)

abbrev pub revealed_count : List Job → ℕ
revealed_count jobs = tally (λ j. is_some j.revealed_at) jobs

-- `un` and `pick`: unrevealed rows by rank, with whether the pick is a reveal.
unfoldable pub pick_rows : ℕ → ℕ → ℕ → List Job → List (ℕ × Bool)
pick_rows free cap urank [] = []
pick_rows free cap urank (j ∷ un) =
    let rest = pick_rows free cap (urank + 1) un in
    if leb urank free || (leb urank (free + cap) && is_none j.arriving_notified_at)
    then (j.id, leb urank free) ∷ rest
    else rest

-- The join `j."id" = pick."id"`.
unfoldable pub find_pick : ℕ → List (ℕ × Bool) → Option Bool
find_pick k [] = none
find_pick k ((id, is_reveal) ∷ picks) =
    let rest = find_pick k picks in if id == k then some is_reveal else rest

-- SET of a reveal, and of a "coming up".
abbrev pub set_reveal : ℕ → ℕ → Job → Job
set_reveal now grace j = record j {
  revealed_at = some now;
  reveal_deadline_at = some (now + grace * 1000);
  updated_at = now;
}

abbrev pub set_arriving : ℕ → Job → Job
set_arriving now j = record j { arriving_notified_at = some now; updated_at = now }

-- WHERE of the UPDATE, for a row that joins a pick.
abbrev pub may_win : ℕ → Bool → Job → Bool
may_win shop_id is_reveal j =
    in_line shop_id j && is_none j.revealed_at && (is_reveal || is_none j.arriving_notified_at)

unfoldable pub update_row : ℕ → ℕ → ℕ → Option Bool → Job → Job
update_row shop_id now grace none j = j
update_row shop_id now grace (some is_reveal) j =
    if may_win shop_id is_reveal j
    then if is_reveal then set_reveal now grace j else set_arriving now j
    else j

pub record PassRow : Type 0 where
  pub id : ℕ
  pub student_id : ℕ
  pub check_in_count : ℕ
  pub is_reveal : Bool
  pub grace_seconds : ℕ
  pub revealed_at : Option ℕ
  pub reveal_deadline_at : Option ℕ

abbrev pub row_won : Bool → ℕ → Job → PassRow
row_won is_reveal grace j = record {
  id = j.id;
  student_id = j.student_id;
  check_in_count = j.check_in_count;
  is_reveal = is_reveal;
  grace_seconds = grace;
  revealed_at = j.revealed_at;
  reveal_deadline_at = j.reveal_deadline_at;
}

-- RETURNING.
unfoldable pub returned : ℕ → ℕ → ℕ → List (ℕ × Bool) → List Job → List PassRow
unfolding update_row find_pick
returned shop_id now grace picks [] = []
returned shop_id now grace picks (j ∷ table) =
    let rest = returned shop_id now grace picks table in
    elim (find_pick j.id picks) [
      | none ↦ rest
      | some r ↦
          if may_win shop_id r j
          then row_won r grace (update_row shop_id now grace (some r) j) ∷ rest
          else rest
    ]

-- The picks of a pass, from the settings of the shop.
unfoldable pub pass_picks : ℕ → Settings → List Job → List (ℕ × Bool)
unfolding pick_rows line
pass_picks shop_id s table =
    let cap = max counter_capacity_min s.counter_capacity in
    let q = line shop_id table in
    pick_rows (cap - revealed_count q) cap 1 (keep (λ j. is_none j.revealed_at) q)

-- The table after the pass and the rows it won; a shop that does not exist has no `sh` row.
unfoldable pub locked_reveal_pass : ℕ → Option Settings → ℕ → List Job → List Job × List PassRow
unfolding pass_picks update_row find_pick returned
locked_reveal_pass shop_id none now table = (table, [])
locked_reveal_pass shop_id (some s) now table =
    let picks = pass_picks shop_id s table in
    (
      map (λ j. update_row shop_id now s.reveal_grace_seconds (find_pick j.id picks) j) table,
      returned shop_id now s.reveal_grace_seconds picks table,
    )

pub record Reveal : Type 0 where
  pub job_id : ℕ
  pub student_id : ℕ
  pub grace_seconds : ℕ
  pub revealed_at : Option ℕ
  pub reveal_deadline_at : Option ℕ

pub record Arrival : Type 0 where
  pub job_id : ℕ
  pub student_id : ℕ
  pub check_in_count : ℕ
  pub arriving_notified_at : ℕ

pub record RevealPass : Type 0 where
  pub reveals : List Reveal
  pub arrivals : List Arrival

abbrev pub as_reveal : PassRow → Reveal
as_reveal w = record {
  job_id = w.id;
  student_id = w.student_id;
  grace_seconds = w.grace_seconds;
  revealed_at = w.revealed_at;
  reveal_deadline_at = w.reveal_deadline_at;
}

abbrev pub as_arrival : ℕ → PassRow → Arrival
as_arrival won_at w = record {
  job_id = w.id;
  student_id = w.student_id;
  check_in_count = w.check_in_count;
  arriving_notified_at = won_at;
}

unfoldable pub run_reveal_pass : ℕ → Option Settings → ℕ → ℕ → List Job → List Job × RevealPass
unfolding locked_reveal_pass
run_reveal_pass shop_id s now won_at table =
    let (table', won) = locked_reveal_pass shop_id s now table in
    (
      table',
      record {
        reveals = map as_reveal (keep (λ w. w.is_reveal) won);
        arrivals = map (as_arrival won_at) (keep (λ w. not w.is_reveal) won);
      },
    )
