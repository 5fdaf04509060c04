-- ===== src/Release/Commit.antt =====
-- `releaseByOtp` of apps/api/src/modules/queue/release.ts: the payment, the commit and the composition.
use print_q.Base.{
  ℕ, Bool, true, false, not, ◌&&◌, ◌||◌, Option, none, some, List, [], ◌∷◌, map, find, any,
  includes, ◌==◌, if◌then◌else◌, is_some, is_none, Result, ok, throw,
}
use print_q.Status.{
  JobStatus, awaiting_arrival, no_show, requeued, otp_verified, ◌is◌, counter_release,
  event_otp_verified, InvalidTransition,
}
use print_q.Job.{
  Job, paid, is_counter_due, is_cash_due, is_pay_at_shop, is_cash_provider, CounterPaymentMethod,
  cash, shop_upi, no_agent,
}
use print_q.Store.{Store, Change, shop, counter_queue_override_release, no_guard, apply_transition}
use print_q.Assignment.{PrinterRecommendation}
use print_q.Queue.Pass.{line}
use print_q.Engine.Visibility.{is_normal_counter_release}
use print_q.Release.{
  ReleaseShop, PaymentConfirmation, ReleaseRequest, ReleaseResult, released,
  requires_queue_override, requires_manual_assignment, requires_payment_confirmation, ReleaseFault,
  otp_invalid, upi_unverified, changed, refused, is_direct_counter_release_recoverable, match_code,
  early_fault, disarm_absent_timer, live_of, ranking, choose_printer,
}

abbrev pub payment_due : Job → Bool
payment_due j =
    (is_pay_at_shop j.payment_provider && is_counter_due j.payment_status)
    || (is_cash_provider j.payment_provider && is_cash_due j.payment_status)

abbrev pub is_cash : CounterPaymentMethod → Bool
is_cash cash = true
is_cash shop_upi = false

abbrev pub upi_refused : ReleaseShop → Option PaymentConfirmation → Bool
upi_refused s none = false
upi_refused s (some c) =
    not (is_cash c.method) && (is_none s.counter_upi_vpa || is_none s.counter_upi_verified_at)

-- The payment columns of a confirmed counter payment; `payment_ref` stands for the text that is made
-- of the method and the job's id.
abbrev pub confirm_payment :
    ℕ → ℕ → ℕ → (CounterPaymentMethod → ℕ → ℕ) → PaymentConfirmation → Job → Job
confirm_payment now user amount payment_ref c j = record j {
  payment_status = paid;
  payment_id = some (payment_ref c.method j.id);
  cash_collected_at = if is_cash c.method then some now else none;
  counter_payment_method = some c.method;
  counter_payment_confirmed_at = some now;
  counter_payment_confirmed_by = some user;
  counter_payment_reference = c.reference;
  counter_payment_amount = some amount;
}

abbrev pub pay_if_due :
    Bool → (PaymentConfirmation → Job → Job) → Option PaymentConfirmation → Job → Job
pay_if_due true pay (some c) j = pay c j
pay_if_due _ pay _ j = j

abbrev pub arrive_at_counter : ℕ → Bool → Job → Job
arrive_at_counter now true j = record j {
  arrived_at = some now;
  queued_at = none;
  queue_left_at = some now;
}
arrive_at_counter now false j = j

abbrev pub is_away : JobStatus → Bool
is_away s = any (λ t. s is t) (awaiting_arrival ∷ no_show ∷ requeued ∷ [])

abbrev pub release_change :
    ℕ → (CounterPaymentMethod → ℕ → ℕ) → ReleaseRequest → Job → ℕ → Bool → Change
release_change now payment_ref req job printer normal = record {
  job_id = job.id;
  from = job.status;
  event = if is_some job.release_code_digest then counter_release else event_otp_verified;
  actor = record { kind = shop; id = some req.shop_user_id };
  extra_data = λ j. arrive_at_counter now (is_away job.status) (
      pay_if_due (payment_due job)
        (confirm_payment now req.shop_user_id job.total_paise payment_ref) req.payment_confirmation
        (record j {
          assigned_printer_id = some printer;
          claimed_by_agent_id = none;
          claimed_by_session_id = none;
          print_error = none;
          otp_hash = none;
          otp_code = none;
          otp_expires_at = none;
        }));
  audit_event = if normal then none else some counter_queue_override_release;
  guard = no_guard;
}

-- `dispatchJob`: with no online agent for the printer the error is noted on the row.
unfoldable pub dispatch_job : ℕ → Job → List (ℕ × List ℕ) → Store → Store
dispatch_job now job agents db = elim job.assigned_printer_id [
  | none ↦ db
  | some printer ↦ if any (λ a. includes printer a.1) agents then db else record db {
    jobs =
        map
          (λ j.
            if j.id == job.id && j.status is otp_verified
            then record j { print_error = some no_agent; updated_at = now }
            else j)
          db.jobs;
  }
]

-- After the commit: a winning change is dispatched; after a lost race the row is read again.
unfoldable pub settle_release :
    ℕ
    → Job
    → ReleaseRequest
    → List (ℕ × List ℕ)
    → Result InvalidTransition (Store × Option Job)
    → Result ReleaseFault (Store × ReleaseResult)
unfolding dispatch_job is_direct_counter_release_recoverable
settle_release now matched req agents (throw e) = throw (refused e)
settle_release now matched req agents (ok (db, some row)) =
    ok (dispatch_job now row agents db, released row)
settle_release now matched req agents (ok (db, none)) =
    elim (find (λ j. j.id == matched.id && j.shop_id == req.shop_id) db.jobs) [
      | none ↦ throw changed
      | some current ↦
          if is_direct_counter_release_recoverable current.status
            && not (current.status is matched.status)
          then ok (db, requires_queue_override current none)
          else throw changed
    ]

-- From the chosen printer on.
unfoldable pub release_on :
    ℕ
    → ℕ
    → (CounterPaymentMethod → ℕ → ℕ)
    → ReleaseRequest
    → ReleaseShop
    → Job
    → Bool
    → ℕ
    → Store
    → Result ReleaseFault (Store × ReleaseResult)
unfolding settle_release apply_transition disarm_absent_timer
release_on now event_id payment_ref req s matched normal printer db =
    if payment_due matched && is_none req.payment_confirmation
    then ok (
      disarm_absent_timer now matched req.shop_id db,
      requires_payment_confirmation matched printer,
    )
    else if upi_refused s req.payment_confirmation
    then throw upi_unverified
    else settle_release now matched req s.agents (
        apply_transition now event_id (release_change now payment_ref req matched printer normal)
          db)

-- On the answer of the printer choice.
unfoldable pub release_choice :
    ℕ
    → ℕ
    → (CounterPaymentMethod → ℕ → ℕ)
    → ReleaseRequest
    → ReleaseShop
    → Job
    → Bool
    → List PrinterRecommendation
    → Result ReleaseFault (Option ℕ)
    → Store
    → Result ReleaseFault (Store × ReleaseResult)
unfolding release_on disarm_absent_timer
release_choice now event_id payment_ref req s matched normal eligible (throw e) db = throw e
release_choice now event_id payment_ref req s matched normal eligible (ok none) db =
    ok (disarm_absent_timer now matched req.shop_id db, requires_manual_assignment matched eligible)
release_choice now event_id payment_ref req s matched normal eligible (ok (some printer)) db =
    release_on now event_id payment_ref req s matched normal printer db

-- From the matched job on.
unfoldable pub release_matched :
    ℕ
    → ℕ
    → (CounterPaymentMethod → ℕ → ℕ)
    → ReleaseRequest
    → ReleaseShop
    → List Job
    → Job
    → Store
    → Result ReleaseFault (Store × ReleaseResult)
unfolding live_of ranking choose_printer release_choice disarm_absent_timer
    is_normal_counter_release
release_matched now event_id payment_ref req s jobs matched db =
    let live = live_of s jobs matched.id in
    let normal = is_normal_counter_release matched.status live.band in
    let ranked = ranking s jobs matched in
    if not normal && not req.override_queue
    then ok (
      disarm_absent_timer now matched req.shop_id db,
      requires_queue_override matched live.position,
    )
    else (release_choice now event_id payment_ref req s matched normal ranked.eligible
        (choose_printer s ranked req.manual_printer_id matched.assigned_printer_id) db)

module _ (digest_release_code : ℕ → ℕ → ℕ) (verify_otp_hash : ℕ → ℕ → Bool)
    (payment_ref : CounterPaymentMethod → ℕ → ℕ) where
  unfoldable pub release_by_otp :
      ℕ
      → ℕ
      → ReleaseRequest
      → ReleaseShop
      → Store
      → Store
      → Result ReleaseFault (Store × ReleaseResult)
  unfolding match_code early_fault release_matched line
  release_by_otp now event_id req s seen db =
      elim (match_code req.shop_id (digest_release_code req.shop_id req.otp)
        (λ hash. verify_otp_hash hash req.otp) seen.jobs) [
          | none ↦ throw otp_invalid
          | some matched ↦ elim (early_fault now matched) [
            | some e ↦ throw e
            | none ↦
                release_matched now event_id payment_ref req s (line req.shop_id seen.jobs) matched
                  db
          ]
        ]
