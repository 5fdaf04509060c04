-- ===== src/Orders/Prepare.antt =====
-- apps/api/src/modules/jobs/routes.ts: the part of `createPreparedJob` that writes, with newCounterCode,
-- counterCodeInUse and allocatePayAtShopCode of queue/engine.ts. `draws` are the codes that
-- `generateOtp` gives, the candidate first.
use print_q.Base.{
  ℕ, ◌-◌, ltb, ◌==◌, opt_eq, any, keep, take, not, ◌&&◌, ◌||◌, if◌then◌else◌, Bool, Option, none,
  some, List, [], ◌∷◌, Result, ok, throw,
}
use print_q.Status.{JobStatus, JobEvent, ◌is◌, InvalidTransition}
use print_q.Job.{Job, PaymentStatus, pay_at_shop, is_scheduled}
use print_q.Store.{Store, Change, ActorType, no_guard, apply_transition}
use print_q.Orders.{
  OrderEnv, OrderRequest, OrderFault, UploadedFile, Tables, Accepted, accept_order,
  is_active_file_status, redeem_coupon, duplicate_order, no_release_code, bad_transition,
}

-- The row that `prisma.job.create` makes; columns that are not given have their defaults.
abbrev pub new_job : (id now : ℕ) → OrderRequest → Accepted → Job
new_job id now r a = record {
  id = id;
  shop_id = a.file.shop_id;
  student_id = r.student_id;
  file_id = a.file.id;
  specs = r.specs;
  pages_per_copy = a.breakdown.pages_per_copy;
  total_paise = a.breakdown.total_paise;
  shop_base_paise = a.shop_base.total_paise;
  platform_markup_paise = a.marked_up.total_paise - a.shop_base.total_paise;
  coupon_code = a.coupon;
  discount_paise = a.breakdown.discount_paise;
  payment_status = PaymentStatus.pending;
  payment_provider = some pay_at_shop;
  payment_id = none;
  cash_collected_at = none;
  counter_payment_method = none;
  counter_payment_confirmed_at = none;
  counter_payment_confirmed_by = none;
  counter_payment_reference = none;
  counter_payment_amount = none;
  mode = r.mode;
  scheduled_time = if is_scheduled r.mode then r.scheduled_time else none;
  status = JobStatus.pending_payment;
  assigned_printer_id = none;
  otp_hash = none;
  otp_code = none;
  otp_expires_at = none;
  release_code_digest = none;
  release_code_encrypted = none;
  release_code_generated_at = none;
  near_front_notified_at = none;
  revealed_at = none;
  reveal_deadline_at = none;
  arriving_notified_at = none;
  absent_at = none;
  absent_reason = none;
  queued_at = none;
  arrived_at = none;
  queue_left_at = none;
  check_in_count = 0;
  claimed_by_agent_id = none;
  claimed_by_session_id = none;
  print_error = none;
  print_attempts = 0;
  spool_accepted_at = none;
  print_confirmed_at = none;
  print_confirmed_by_id = none;
  print_completion_method = none;
  created_at = now;
  updated_at = now;
}

-- `status: { notIn: ['completed', 'expired', 'cancelled'] }`.
abbrev pub is_unfinished : JobStatus → Bool
is_unfinished s =
    not (s is JobStatus.completed || s is JobStatus.expired || s is JobStatus.cancelled)

abbrev pub holds_code : (shop_id digest : ℕ) → Job → Bool
holds_code shop_id digest j =
    j.shop_id == shop_id && (opt_eq j.release_code_digest (some digest) && is_unfinished j.status)

-- `counterCodeInUse(shopId, digest) > 0`.
unfoldable pub counter_code_in_use : (shop_id digest : ℕ) → List Job → Bool
counter_code_in_use shop_id digest jobs = any (holds_code shop_id digest) jobs

-- The first drawn code that is not in use.
unfoldable pub free_code : OrderEnv → ℕ → List Job → List ℕ → Option ℕ
unfolding counter_code_in_use
free_code env shop_id jobs [] = none
free_code env shop_id jobs (c ∷ cs) =
    let rest = free_code env shop_id jobs cs in
    if counter_code_in_use shop_id (env.digest_release_code shop_id c) jobs then rest else some c

abbrev pub coded : (code_digest code_encrypted now : ℕ) → Job → Job
coded code_digest code_encrypted now j = record j {
  payment_status = PaymentStatus.counter_due;
  payment_provider = some pay_at_shop;
  release_code_digest = some code_digest;
  release_code_encrypted = some code_encrypted;
  release_code_generated_at = some now;
}

abbrev pub code_change : OrderEnv → (code now : ℕ) → Job → Change
code_change env code now j = record {
  job_id = j.id;
  from = JobStatus.pending_payment;
  event = JobEvent.cash_selected;
  actor = record { kind = ActorType.system; id = none };
  extra_data =
      coded (env.digest_release_code j.shop_id code) (env.encrypt_release_code j.shop_id code) now;
  audit_event = none;
  guard = no_guard;
}

abbrev pub first_of : Option ℕ → Option ℕ → Option ℕ
first_of none other = other
first_of (some code) other = some code

abbrev pub as_order_fault :
    Result InvalidTransition (Store × Option Job) → Result OrderFault (Store × Option Job)
as_order_fault (ok r) = ok r
as_order_fault (throw e) = throw (bad_transition e)

unfoldable pub give_code :
    OrderEnv → (event_id now : ℕ) → Job → Option ℕ → Store → Result OrderFault (Store × Option Job)
give_code env event_id now j none db = throw no_release_code
give_code env event_id now j (some code) db =
    as_order_fault (apply_transition now event_id (code_change env code now j) db)

-- `preallocated` is the candidate where it collides with nothing; the loop draws at most 20 others.
unfoldable pub allocate_pay_at_shop_code :
    OrderEnv
    → (event_id now : ℕ) → Job
    → Option ℕ
    → List ℕ
    → Store
    → Result OrderFault (Store × Option Job)
unfolding free_code give_code
allocate_pay_at_shop_code env event_id now j preallocated draws db =
    let search = free_code env j.shop_id db.jobs (take 20 draws) in
    give_code env event_id now j (first_of preallocated search) db

-- An active order of the same file that was created before, or at the same instant with a lower id.
abbrev pub is_rival : Job → Job → Bool
is_rival j r =
    r.file_id == j.file_id
    && (not (r.id == j.id)
        && (is_active_file_status r.status
            && (ltb r.created_at j.created_at || (r.created_at == j.created_at && ltb r.id j.id))))

unfoldable pub has_rival : Job → List Job → Bool
has_rival j jobs = any (is_rival j) jobs

abbrev pub delete_job : ℕ → List Job → List Job
delete_job id jobs = keep (λ j. not (j.id == id)) jobs

pub record OrderAnswer : Type 0 where
  pub job_id : ℕ
  pub total_paise : ℕ

abbrev pub redeem_if : OrderEnv → Option ℕ → Tables → Tables
redeem_if env none db = db
redeem_if env (some code) db = record db { coupons = redeem_coupon env code db.coupons }

abbrev pub answer_of : Job → OrderAnswer
answer_of j = record { job_id = j.id; total_paise = j.total_paise }

abbrev pub answered :
    Tables → Job → Result OrderFault (Store × Option Job) → Tables × Result OrderFault OrderAnswer
answered db j (throw e) = (db, throw e)
answered db j (ok (store, row)) = (record db { store = store }, ok (answer_of j))

-- What follows the insert of the row `j`.
unfoldable pub finish_order :
    OrderEnv
    → (event_id now : ℕ) → Option ℕ
    → Option ℕ
    → List ℕ
    → Job
    → Tables
    → Tables × Result OrderFault OrderAnswer
unfolding has_rival allocate_pay_at_shop_code
finish_order env event_id now coupon preallocated draws j db =
    let redeemed = redeem_if env coupon db in
    if has_rival j db.store.jobs
    then (
      record db { store = record db.store { jobs = delete_job j.id db.store.jobs } },
      throw duplicate_order,
    )
    else answered redeemed j
        (allocate_pay_at_shop_code env event_id now j preallocated draws redeemed.store)

abbrev pub insert_job : Job → Tables → Tables
insert_job j db = record db { store = record db.store { jobs = j ∷ db.store.jobs } }

-- The collision check of the candidate runs beside the insert; the new row has no code yet.
abbrev pub preallocate : OrderEnv → (shop_id candidate : ℕ) → List Job → Option ℕ
preallocate env shop_id candidate jobs =
    if counter_code_in_use shop_id (env.digest_release_code shop_id candidate) jobs
    then none
    else some candidate

unfoldable pub create_accepted :
    OrderEnv
    → (id event_id now candidate : ℕ) → List ℕ
    → OrderRequest
    → Tables
    → Result OrderFault Accepted
    → Tables × Result OrderFault OrderAnswer
unfolding finish_order
create_accepted env id event_id now candidate draws r db (throw e) = (db, throw e)
create_accepted env id event_id now candidate draws r db (ok a) =
    let j = new_job id now r a in
    let code = preallocate env a.file.shop_id candidate db.store.jobs in
    finish_order env event_id now a.coupon code draws j (insert_job j db)

unfoldable pub create_prepared_job :
    OrderEnv
    → (id event_id now candidate : ℕ) → List ℕ
    → OrderRequest
    → List UploadedFile
    → Tables
    → Tables × Result OrderFault OrderAnswer
unfolding create_accepted accept_order
create_prepared_job env id event_id now candidate draws r files db =
    create_accepted env id event_id now candidate draws r db (accept_order env now r files db)
