-- ===== src/Release.antt =====
-- apps/api/src/modules/queue/release.ts: the counter-code input of the shop, and `dispatchJob` of
-- apps/api/src/modules/queue/engine.ts with the online agents that the caller has read. The digest of
-- a code and the check of an old hash are cryptography (`digest_release_code`, `verify_otp_hash`):
-- parameters. As in a check-in, the request reads one store and writes to another. The shop of a job
-- exists, by the foreign key.
pub mod Commit
pub mod Paid
pub mod Released
mod Tests
use print_q.Base.{
  ℕ, ◌+◌, Bool, true, false, not, ◌&&◌, ◌||◌, Option, none, some, List, [], ◌∷◌, map, find, any,
  keep, head?, includes, ◌==◌, leb, ltb, if◌then◌else◌, is_some, is_none, opt_eq, Result, ok, throw,
  ◌>>=◌,
}
use print_q.Base.Sorting.{sort}
use print_q.Status.{
  JobStatus, awaiting_arrival, queued, notified, no_show, requeued, otp_verified, printing,
  finishing, ready_for_pickup, ◌is◌, counter_release, event_otp_verified, InvalidTransition,
}
use print_q.Job.{
  Job, PaymentStatus, paid, is_paid, is_counter_due, is_cash_due, is_pay_at_shop, is_cash_provider,
  CounterPaymentMethod, cash, shop_upi, no_agent,
}
use print_q.Store.{
  Store, Change, shop, AuditLabel, counter_queue_override_release, no_guard, apply_transition,
}
use print_q.Assignment.{PrinterProfile, PrinterRecommendation, AssignmentResult, rank_from_snapshot}
use print_q.Queue.{Settings, Printer, build_shop_queue}
use print_q.Queue.Pass.{line}
use print_q.Queue.Snapshot.{JobLiveMetrics, live_metrics_from_queue}
use print_q.Engine.{find_job, is_waiting}
use print_q.Engine.CheckIn.{payment_ready}
use print_q.Engine.Visibility.{is_normal_counter_release}

-- The columns of the shop that a release reads; an agent is its id and its printers.
pub record ReleaseShop : Type 0 where
  pub auto_assign_enabled : Bool
  pub counter_upi_vpa : Option ℕ
  pub counter_upi_verified_at : Option ℕ
  pub settings : Settings
  pub printers : List PrinterProfile
  pub agents : List (ℕ × List ℕ)

pub record PaymentConfirmation : Type 0 where
  pub method : CounterPaymentMethod
  pub reference : Option ℕ

-- What staff ask for.
pub record ReleaseRequest : Type 0 where
  pub shop_id : ℕ
  pub otp : ℕ
  pub shop_user_id : ℕ
  pub manual_printer_id : Option ℕ
  pub override_queue : Bool
  pub payment_confirmation : Option PaymentConfirmation

-- `ok: true`, and the three answers with `ok: false`.
pub data ReleaseResult : Type 0 where
  released : Job → ReleaseResult
  requires_queue_override : Job → Option ℕ → ReleaseResult
  requires_manual_assignment : Job → List PrinterRecommendation → ReleaseResult
  requires_payment_confirmation : Job → ℕ → ReleaseResult

pub data ReleaseFault : Type 0 where
  otp_invalid otp_expired already_released already_printed wrong_printer upi_unverified changed :
      ReleaseFault
  refused : InvalidTransition → ReleaseFault

abbrev pub counter_code_lookup_statuses : List JobStatus
counter_code_lookup_statuses =
    awaiting_arrival ∷ queued ∷ notified ∷ no_show ∷ requeued ∷ otp_verified ∷ printing ∷ finishing
    ∷ ready_for_pickup ∷ []

unfoldable pub is_direct_counter_release_recoverable : JobStatus → Bool
is_direct_counter_release_recoverable s =
    any (λ t. s is t) (awaiting_arrival ∷ queued ∷ notified ∷ no_show ∷ requeued ∷ [])

-- WHERE of the lookup by digest, and of the lookup of old temporary codes.
abbrev pub has_code : ℕ → ℕ → Job → Bool
has_code shop_id digest j =
    j.shop_id == shop_id
    && (opt_eq j.release_code_digest (some digest)
        && (payment_ready j && any (λ t. j.status is t) counter_code_lookup_statuses))

abbrev pub hash_matches : (ℕ → Bool) → Option ℕ → Bool
hash_matches verify none = false
hash_matches verify (some hash) = verify hash

abbrev pub has_old_code : ℕ → (ℕ → Bool) → Job → Bool
has_old_code shop_id verify j =
    j.shop_id == shop_id
    && (j.status is notified && (is_paid j.payment_status && hash_matches verify j.otp_hash))

-- `orderBy: { createdAt: 'desc' }`.
abbrev pub newer : Job → Job → Bool
newer x y = leb y.created_at x.created_at

unfoldable pub match_code : ℕ → ℕ → (ℕ → Bool) → List Job → Option Job
unfolding sort
match_code shop_id digest verify jobs =
    elim (head? (sort newer (keep (has_code shop_id digest) jobs))) [
      | some j ↦ some j
      | none ↦ find (has_old_code shop_id verify) jobs
    ]

abbrev pub expired : ℕ → Option ℕ → Bool
expired now none = false
expired now (some t) = ltb t now

-- The refusals before the queue is looked at.
unfoldable pub early_fault : ℕ → Job → Option ReleaseFault
early_fault now job =
    if is_none job.release_code_digest && expired now job.otp_expires_at
    then some otp_expired
    else if job.status is otp_verified || (job.status is printing || job.status is finishing)
    then some already_released
    else if job.status is ready_for_pickup
    then some already_printed
    else none

-- `disarmAbsentTimer`: a change of the row also writes `updatedAt`.
unfoldable pub disarm_absent_timer : ℕ → Job → ℕ → Store → Store
disarm_absent_timer now matched shop_id db =
    if is_waiting matched.status && is_some matched.reveal_deadline_at
    then record db {
      jobs =
          map
            (λ j.
              if j.id == matched.id && (j.shop_id == shop_id && is_waiting j.status)
              then record j { reveal_deadline_at = none; updated_at = now }
              else j)
            db.jobs;
    }
    else db

abbrev pub as_printer : PrinterProfile → Printer
as_printer p = record { id = p.id; pages_per_minute = p.avg_pages_per_minute }

unfoldable pub live_of : ReleaseShop → List Job → ℕ → JobLiveMetrics
unfolding build_shop_queue live_metrics_from_queue
live_of s jobs job_id =
    live_metrics_from_queue (build_shop_queue (some s.settings) (map as_printer s.printers) jobs)
      job_id

unfoldable pub ranking : ReleaseShop → List Job → Job → AssignmentResult
unfolding rank_from_snapshot
ranking s jobs job =
    rank_from_snapshot s.printers (map (λ a. a.1) s.agents) jobs job.specs job.pages_per_copy
      (some job.id)

abbrev pub is_eligible : List PrinterRecommendation → ℕ → Bool
is_eligible eligible printer = any (λ e. e.printer_id == printer) eligible

abbrev pub keep_assigned :
    List PrinterRecommendation → Option ℕ → Option PrinterRecommendation → Option ℕ
keep_assigned eligible (some p) (some r) =
    if is_eligible eligible p then some p else some r.printer_id
keep_assigned eligible (some p) none = if is_eligible eligible p then some p else none
keep_assigned eligible none (some r) = some r.printer_id
keep_assigned eligible none none = none

-- The final printer: `none` where staff must choose.
unfoldable pub choose_printer :
    ReleaseShop → AssignmentResult → Option ℕ → Option ℕ → Result ReleaseFault (Option ℕ)
choose_printer s r (some manual) assigned =
    if is_eligible r.eligible manual then ok (some manual) else throw wrong_printer
choose_printer s r none assigned =
    ok (if s.auto_assign_enabled then keep_assigned r.eligible assigned r.recommended else none)
