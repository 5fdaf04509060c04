-- ===== src/Queue.antt =====
-- apps/api/src/modules/queue/bands.ts: a shop's line with its bands, the reveal pass, and the patch
-- of a snapshot by what the pass won.
pub mod Pass
pub mod Snapshot
pub mod Refines
pub mod Order
pub mod Settled
pub mod Untouched
mod Tests
use print_q.Base.{
  ℕ, zero, suc, ◌+◌, ◌-◌, ◌*◌, ◌/◌, max, Bool, true, false, Option, none, some, List, [], ◌∷◌, map,
  ltb, leb, ◌==◌, ◌&&◌, ◌||◌, if◌then◌else◌, is_none, is_some, or_else, keep, any, find,
}
use print_q.Base.Sorting.{sort}
use print_q.Status.{JobStatus, queued, notified, ◌is◌, active_queue_statuses}
use print_q.Job.{Job, JobSpecs}
use print_q.Bands.{
  QueueBand, revealed, arriving, waiting, BandInput, Dict, new_dict, dict_set, assign_bands,
  counter_capacity_min,
}

pub record Printer : Type 0 where
  pub id : ℕ
  pub pages_per_minute : ℕ

pub record QueueEntry : Type 0 where
  pub job : Job
  pub position : ℕ
  pub band : Option QueueBand
  pub eta_minutes : Option ℕ

pub record ShopQueue : Type 0 where
  pub counter_capacity : ℕ
  pub reveal_grace_seconds : ℕ
  pub printers : List Printer
  pub entries : List QueueEntry

pub record Settings : Type 0 where
  pub counter_capacity : ℕ
  pub reveal_grace_seconds : ℕ

-- `Math.ceil(a / b)` at b > 0.
abbrev pub ceil_div : ℕ → ℕ → ℕ
ceil_div a b = (a + (b - 1)) / b

abbrev pub band_inputs : List Job → List BandInput
band_inputs jobs = map (λ j. record { id = j.id; was_revealed = is_some j.revealed_at }) jobs

abbrev pub speeds : List Printer → Dict ℕ
speeds [] = new_dict
speeds (p ∷ printers) = λ k.
    let rest = speeds printers k in
    elim rest [
      | some v ↦ some v
      | none ↦ if p.id == k then some (max p.pages_per_minute 1) else none
    ]

-- One entry, and the pages ahead on each printer after it.
unfoldable pub queue_entry : Dict QueueBand → Dict ℕ → Dict ℕ → ℕ → Job → QueueEntry × Dict ℕ
queue_entry bands ppm ahead index job = elim job.assigned_printer_id [
  | none ↦
      (record { job = job; position = index + 1; band = bands job.id; eta_minutes = none }, ahead)
  | some pid ↦
      let pages_ahead = or_else (ahead pid) 0 in
      (
        record {
          job = job;
          position = index + 1;
          band = bands job.id;
          eta_minutes = some (ceil_div pages_ahead (or_else (ppm pid) 15));
        },
        dict_set ahead pid (pages_ahead + job.pages_per_copy * job.specs.copies),
      )
]

unfoldable pub queue_entries : Dict QueueBand → Dict ℕ → Dict ℕ → ℕ → List Job → List QueueEntry
unfolding queue_entry
queue_entries bands ppm ahead index [] = []
queue_entries bands ppm ahead index (job ∷ jobs) =
    let (entry, ahead') = queue_entry bands ppm ahead index job in
    entry ∷ queue_entries bands ppm ahead' (index + 1) jobs

abbrev pub capacity_of : Option Settings → ℕ
capacity_of none = 5
capacity_of (some s) = s.counter_capacity

abbrev pub grace_of : Option Settings → ℕ
grace_of none = 60
grace_of (some s) = s.reveal_grace_seconds

unfoldable pub build_shop_queue : Option Settings → List Printer → List Job → ShopQueue
unfolding queue_entries
build_shop_queue settings printers jobs =
    let capacity = capacity_of settings in
    let grace = grace_of settings in
    record {
      counter_capacity = capacity;
      reveal_grace_seconds = grace;
      printers = printers;
      entries =
          queue_entries (assign_bands (band_inputs jobs) capacity) (speeds printers) new_dict 0
            jobs;
    }

-- The comparison of `sortQueueJobs`: `queuedAt` ascending with null last, then `createdAt`.
abbrev pub line_before : Job → Job → Bool
line_before x y = elim x.queued_at [
  | none ↦ elim y.queued_at [ none ↦ leb x.created_at y.created_at | some b ↦ false ]
  | some a ↦ elim y.queued_at [
    | none ↦ true
    | some b ↦ if a == b then leb x.created_at y.created_at else ltb a b
  ]
]

unfoldable pub sort_queue_jobs : List Job → List Job
unfolding sort
sort_queue_jobs jobs = sort line_before jobs
