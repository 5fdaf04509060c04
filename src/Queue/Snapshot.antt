-- ===== src/Queue/Snapshot.antt =====
-- The snapshots of apps/api/src/modules/queue/bands.ts: `needsReconcile`, `loadShopQueue`,
-- `applyPassToQueue`, `rebuildQueue` and `reconcileShopQueue`, and `liveMetricsFromQueue` of
-- apps/api/src/modules/queue/engine.ts. Job ids are the table's primary key.
use print_q.Base.{
  ℕ, ◌+◌, Bool, true, false, Option, none, some, List, [], ◌∷◌, map, ◌==◌, ◌&&◌, if◌then◌else◌,
  is_none, any, find, length,
}
use print_q.Job.{Job}
use print_q.Bands.{QueueBand, revealed, arriving}
use print_q.Queue.{QueueEntry, ShopQueue, Settings, Printer, build_shop_queue}
use print_q.Queue.Pass.{line, RevealPass, Reveal, Arrival, run_reveal_pass}

-- What `needsReconcile` asks of one entry.
abbrev pub entry_needs : Job → Option QueueBand → Bool
entry_needs j (some revealed) = is_none j.revealed_at
entry_needs j (some arriving) = is_none j.revealed_at && is_none j.arriving_notified_at
entry_needs j _ = false

unfoldable pub needs_reconcile : ShopQueue → Bool
needs_reconcile queue = any (λ e. entry_needs e.job e.band) queue.entries

-- A read of the shop's settings, printers and active jobs in line order.
unfoldable pub load_shop_queue : Option Settings → List Printer → ℕ → List Job → ShopQueue
unfolding build_shop_queue line
load_shop_queue settings printers shop_id table =
    build_shop_queue settings printers (line shop_id table)

abbrev pub has_job : ℕ → List QueueEntry → Bool
has_job k entries = any (λ e. e.job.id == k) entries

unfoldable pub patch_job : ℕ → (Job → Job) → List QueueEntry → List QueueEntry
patch_job k f entries = map (λ e. if e.job.id == k then record e { job = f e.job } else e) entries

abbrev pub patch_reveal : Reveal → Job → Job
patch_reveal r j = record j {
  revealed_at = r.revealed_at;
  reveal_deadline_at = r.reveal_deadline_at;
}

abbrev pub patch_arrival : Arrival → Job → Job
patch_arrival a j = record j { arriving_notified_at = some a.arriving_notified_at }

-- The two loops of `applyPassToQueue`: whether every job was found, and the patched entries.
unfoldable pub patch_arrivals : List Arrival → List QueueEntry → Bool × List QueueEntry
patch_arrivals [] entries = (true, entries)
patch_arrivals (a ∷ arrivals) entries =
    let rest = patch_arrivals arrivals (patch_job a.job_id (patch_arrival a) entries) in
    if has_job a.job_id entries then rest else (false, entries)

unfoldable pub patch_reveals : List Reveal → List Arrival → List QueueEntry → Bool × List QueueEntry
unfolding patch_arrivals
patch_reveals [] arrivals entries = patch_arrivals arrivals entries
patch_reveals (r ∷ reveals) arrivals entries =
    let rest = patch_reveals reveals arrivals (patch_job r.job_id (patch_reveal r) entries) in
    if has_job r.job_id entries then rest else (false, entries)

unfoldable pub apply_pass_to_queue : ShopQueue → RevealPass → Bool × ShopQueue
unfolding patch_reveals patch_job
apply_pass_to_queue queue pass =
    let (found, entries) = patch_reveals pass.reveals pass.arrivals queue.entries in
    (found, record queue { entries = entries })

unfoldable pub rebuild_queue : ShopQueue → ShopQueue
unfolding build_shop_queue
rebuild_queue queue =
    build_shop_queue
      (some (record {
        counter_capacity = queue.counter_capacity;
        reveal_grace_seconds = queue.reveal_grace_seconds;
      }))
      queue.printers (map (λ e. e.job) queue.entries)

pub record Reconciled : Type 0 where
  pub queue : ShopQueue
  pub count : ℕ
  -- The table after the call, and the notifications that the pass dispatches.
  pub table : List Job
  pub pass : RevealPass

abbrev pub no_pass : RevealPass
no_pass = record { reveals = []; arrivals = [] }

-- One call with no other writer between its read, its pass and its second read.
unfoldable pub reconcile_shop_queue :
    Option Settings → List Printer → ℕ → ℕ → ℕ → List Job → Reconciled
unfolding load_shop_queue needs_reconcile run_reveal_pass apply_pass_to_queue rebuild_queue
reconcile_shop_queue settings printers shop_id now won_at table =
    let preview = load_shop_queue settings printers shop_id table in
    let (table', pass) = run_reveal_pass shop_id settings now won_at table in
    let (found, patched) = apply_pass_to_queue preview pass in
    if needs_reconcile preview
    then record {
      queue =
          if found then rebuild_queue patched else load_shop_queue settings printers shop_id table';
      count = length pass.reveals + length pass.arrivals;
      table = table';
      pass = pass;
    }
    else record { queue = preview; count = 0; table = table; pass = no_pass }

pub record JobLiveMetrics : Type 0 where
  pub position : Option ℕ
  pub eta_minutes : Option ℕ
  pub band : Option QueueBand
  pub reveal_deadline_at : Option ℕ

abbrev pub not_in_line : JobLiveMetrics
not_in_line = record { position = none; eta_minutes = none; band = none; reveal_deadline_at = none }

abbrev pub deadline_of : Option QueueBand → Option ℕ → Option ℕ
deadline_of (some revealed) deadline = deadline
deadline_of _ deadline = none

unfoldable pub live_metrics_from_queue : ShopQueue → ℕ → JobLiveMetrics
live_metrics_from_queue queue job_id = elim (find (λ e. e.job.id == job_id) queue.entries) [
  | none ↦ not_in_line
  | some entry ↦ record {
    position = some entry.position;
    eta_minutes = entry.eta_minutes;
    band = entry.band;
    reveal_deadline_at = deadline_of entry.band entry.job.reveal_deadline_at;
  }
]
