-- ===== src/Assignment.antt =====
-- packages/shared/src/assignment.ts and capability.ts: which printers can make a job, their ranking,
-- and what a shop cannot do at all; `rankFromSnapshot` of apps/api/src/modules/queue/engine.ts.
pub mod Ranking
pub mod Capability
mod Tests
use print_q.Base.{
  ℕ, ◌+◌, ◌-◌, ◌*◌, ◌/◌, max, Bool, true, false, Option, none, some, List, [], ◌∷◌, ◌++◌, map, not,
  ltb, leb, ◌==◌, ◌&&◌, ◌||◌, opt_eq, if◌then◌else◌, keep, any, length, head?, includes,
}
use print_q.Base.Sorting.{sort}
use print_q.Job.{Job, JobSpecs}

pub data PrinterStatus : Type 0 where
  online offline jammed : PrinterStatus

pub record PrinterProfile : Type 0 where
  pub id : ℕ
  pub paper_sizes_loaded : List ℕ
  pub color_support : Bool
  pub finishing_options : List ℕ
  pub avg_pages_per_minute : ℕ
  pub status : PrinterStatus

pub record QueuedJobLite : Type 0 where
  pub id : ℕ
  pub assigned_printer_id : Option ℕ
  pub pages : ℕ
  pub copies : ℕ

pub record PrinterRecommendation : Type 0 where
  pub printer_id : ℕ
  pub estimated_wait_minutes : ℕ
  pub queue_length : ℕ

pub record AssignmentResult : Type 0 where
  pub eligible : List PrinterRecommendation
  pub recommended : Option PrinterRecommendation

abbrev pub is_online : PrinterStatus → Bool
is_online online = true
is_online _ = false

abbrev pub binding_ok : Option ℕ → List ℕ → Bool
binding_ok none finishing = true
binding_ok (some b) finishing = includes b finishing

-- The three tests that both files make of a printer's hardware.
abbrev pub paper_loaded : JobSpecs → PrinterProfile → Bool
paper_loaded specs p = includes specs.paper_size p.paper_sizes_loaded

abbrev pub color_able : JobSpecs → PrinterProfile → Bool
color_able specs p = not specs.color || p.color_support

abbrev pub binding_able : JobSpecs → PrinterProfile → Bool
binding_able specs p = binding_ok specs.binding p.finishing_options

unfoldable pub printer_matches_specs : PrinterProfile → JobSpecs → Bool
printer_matches_specs p specs =
    if not (is_online p.status)
    then false
    else if not (paper_loaded specs p)
    then false
    else if not (color_able specs p)
    then false
    else if not (binding_able specs p)
    then false
    else true

abbrev pub queued_pages : List QueuedJobLite → ℕ
queued_pages [] = 0
queued_pages (j ∷ jobs) = j.pages * j.copies + queued_pages jobs

-- `Math.ceil((queuedPages + newJobPages) / ppm)` with `ppm` at least 1, for one printer.
unfoldable pub recommendation :
    JobSpecs → ℕ → List QueuedJobLite → PrinterProfile → PrinterRecommendation
recommendation specs job_pages queued_jobs p =
    let queue = keep (λ j. opt_eq j.assigned_printer_id (some p.id)) queued_jobs in
    let ppm = max p.avg_pages_per_minute 1 in
    record {
      printer_id = p.id;
      estimated_wait_minutes = (queued_pages queue + job_pages * specs.copies + (ppm - 1)) / ppm;
      queue_length = length queue;
    }

-- The loop that fills `eligible`.
unfoldable pub eligible_printers :
    JobSpecs → ℕ → List QueuedJobLite → List PrinterProfile → List PrinterRecommendation
unfolding printer_matches_specs recommendation
eligible_printers specs job_pages queued_jobs [] = []
eligible_printers specs job_pages queued_jobs (p ∷ printers) =
    let rest = eligible_printers specs job_pages queued_jobs printers in
    if printer_matches_specs p specs
    then recommendation specs job_pages queued_jobs p ∷ rest
    else rest

-- `compare(a, b) <= 0`: by waiting time, then by queue length.
abbrev pub ranks_before : PrinterRecommendation → PrinterRecommendation → Bool
ranks_before a b =
    if a.estimated_wait_minutes == b.estimated_wait_minutes
    then leb a.queue_length b.queue_length
    else ltb a.estimated_wait_minutes b.estimated_wait_minutes

unfoldable pub rank_printers :
    List PrinterProfile → JobSpecs → ℕ → List QueuedJobLite → AssignmentResult
unfolding eligible_printers sort
rank_printers printers specs job_pages queued_jobs =
    let eligible = sort ranks_before (eligible_printers specs job_pages queued_jobs printers) in
    record { eligible = eligible; recommended = head? eligible }

abbrev pub as_lite : Job → QueuedJobLite
as_lite j = record {
  id = j.id;
  assigned_printer_id = j.assigned_printer_id;
  pages = j.pages_per_copy;
  copies = j.specs.copies;
}

-- `reachable.has(id)` for the printers that the online agents drive.
abbrev pub reachable : List (List ℕ) → ℕ → Bool
reachable agents k = any (includes k) agents

unfoldable pub rank_from_snapshot :
    List PrinterProfile → List (List ℕ) → List Job → JobSpecs → ℕ → Option ℕ → AssignmentResult
unfolding rank_printers
rank_from_snapshot printers agents active_jobs specs pages_per_copy exclude =
    rank_printers (keep (λ p. reachable agents p.id) printers) specs pages_per_copy
      (map as_lite (keep (λ j. not (opt_eq (some j.id) exclude)) active_jobs))

pub data UnsupportedCode : Type 0 where
  color paper_size binding combination : UnsupportedCode

abbrev pub note_unless : Bool → UnsupportedCode → List UnsupportedCode
note_unless passed code = if passed then [] else code ∷ []

-- The codes of `unsupportedSpecs`, without their messages.
unfoldable pub unsupported_specs : List PrinterProfile → JobSpecs → List UnsupportedCode
unsupported_specs [] specs = []
unsupported_specs (p ∷ more) specs =
    let printers = p ∷ more in
    let out =
      note_unless (any (paper_loaded specs) printers) paper_size
      ++ (note_unless (any (color_able specs) printers) color
          ++ note_unless (any (binding_able specs) printers) binding) in
    let jointly =
      any (λ q. paper_loaded specs q && color_able specs q && binding_able specs q) printers in
    elim out [ [] ↦ note_unless jointly combination | code ∷ codes ↦ code ∷ codes ]
