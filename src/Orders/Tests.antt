-- ===== src/Orders/Tests.antt =====
-- Orders of one student on a small table.
use print_q.Base.{
  ◌≡◌, ◌⊎◌, ap, map, includes, refl, ◌+◌, ◌*◌, ◌/◌, true, false, some, none, [], ◌∷◌, arith, find,
  ok, throw, ◌==◌, Result,
}
use print_q.Status.{JobStatus, ◌is◌, transition, transitions}
use print_q.Job.{Job, PaymentStatus, pay_at_shop, instant}
use print_q.Samples.{plain_specs, job_at, profile}
use print_q.Pricing.{
  compute_price, binding_choice, apply_platform_markup, apply_coupon, raw_discount,
}
use print_q.PageRange.{count_selected_pages}
use print_q.Assignment.{unsupported_specs}
use print_q.Shops.{is_shop_operational_from}
use print_q.Store.{Store, written, apply_transition, commit, update_job}
use print_q.Store.Winner.{after_commit}
use print_q.Orders.Cancel.{
  cancel_job, cancel_read, is_cancellable, cancel_change, own_order, IsCancelled,
  cancel_job-IsCancelled,
}
use print_q.Orders.{
  OrderEnv, OrderRequest, OrderFault, UploadedFile, Tables, Coupon, ready, accept_order,
  with_coupon, resolve_coupon, redeem_coupon, is_active_file_status, is_printed_file_job,
  assert_file_can_back_new_job_from, duplicate_order, no_release_code,
}
use print_q.Orders.Prepare.{
  OrderAnswer, answer_of, create_prepared_job, create_accepted, finish_order, has_rival,
  allocate_pay_at_shop_code, give_code, free_code, counter_code_in_use,
}
use print_q.Orders.Prepared.{IsPrepared, create_prepared_job-IsPrepared}
use print_q.Orders.Refused.{create_prepared_job-refused}

-- A markup of a tenth; the digest of a code is itself.
abbrev env : OrderEnv
env = record {
  platform_markup_bps = 1_000;
  mark_up = λ bps x. x + x * bps / 10_000;
  canonical = λ c. c;
  digest_release_code = λ shop_id c. c;
  encrypt_release_code = λ shop_id c. c;
}

abbrev document : UploadedFile
document = record {
  id = 50;
  student_id = 7;
  shop_id = 1;
  status = ready;
  pages = some 3;
  deletion_scheduled_at = none;
  shop = record {
    accepting_orders = true;
    fee_blocked_at = none;
    located = true;
    agents = (9 ∷ []) ∷ [];
    printers = (9, true) ∷ [];
  };
  printers = profile ∷ [];
  options = record {
    papers = record { id = 4; label = 1; bw_paise = 100; color_paise = none } ∷ [];
    bindings = [];
    duplex_enabled = true;
  };
}

abbrev welcome : Coupon
welcome = record {
  code = 11;
  shop_id = none;
  percent_off = some 10;
  paise_off = none;
  expires_at = none;
  max_redemptions = none;
  redeemed_count = 4;
}

-- One order of another student waits, and holds the code 3.
abbrev tables : Tables
tables = record {
  store = record { jobs = job_at 3 JobStatus.queued none none ∷ []; events = []; outbox = [] };
  coupons = welcome ∷ [];
}

abbrev request : OrderRequest
request = record {
  student_id = 7;
  file_id = 50;
  specs = plain_specs;
  mode = instant;
  scheduled_time = none;
  coupon_code = some 11;
}

-- The candidate code 3 is taken, so the first of the others is used: 6 pages at 110 paise less 10 percent.
abbrev first_order : Tables × Result OrderFault OrderAnswer
first_order = create_prepared_job env 90 5 1_000 3 (3 ∷ 8 ∷ []) request (document ∷ []) tables

abbrev second_order : Tables × Result OrderFault OrderAnswer
second_order = create_prepared_job env 91 6 1_001 4 [] request (document ∷ []) first_order.0

order_answered : first_order.1 ≡ ok (record { job_id = 90; total_paise = 594 })
unfolding create_prepared_job create_accepted finish_order has_rival allocate_pay_at_shop_code
    give_code free_code counter_code_in_use accept_order with_coupon resolve_coupon
    is_active_file_status is_printed_file_job assert_file_can_back_new_job_from compute_price
    binding_choice count_selected_pages apply_platform_markup apply_coupon raw_discount
    unsupported_specs is_shop_operational_from apply_transition transition transitions ◌is◌
order_answered = refl

create_prepared_job-IsPrepared_example :
    (j : Job) × (find (λ x. x.id == 90) first_order.0.store.jobs ≡ some j)
    × (record { job_id = 90; total_paise = 594 } ≡ answer_of j)
    × IsPrepared env tables.store.jobs j
create_prepared_job-IsPrepared_example =
    create_prepared_job-IsPrepared env (λ bps x. omega arith) 90 5 1_000 3 (3 ∷ 8 ∷ []) request
      (document ∷ []) tables first_order.0 (record { job_id = 90; total_paise = 594 })
      (ap (λ x. (first_order.0, x)) order_answered)

order_refused : second_order.1 ≡ throw duplicate_order
unfolding create_prepared_job create_accepted finish_order has_rival allocate_pay_at_shop_code
    give_code free_code counter_code_in_use accept_order with_coupon resolve_coupon
    is_active_file_status is_printed_file_job assert_file_can_back_new_job_from compute_price
    binding_choice count_selected_pages apply_platform_markup apply_coupon raw_discount
    unsupported_specs is_shop_operational_from apply_transition transition transitions ◌is◌
    redeem_coupon commit update_job
order_refused = refl

new_id : includes 91 (map (λ j. j.id) first_order.0.store.jobs) ≡ false
unfolding create_prepared_job create_accepted finish_order has_rival allocate_pay_at_shop_code
    give_code free_code counter_code_in_use accept_order with_coupon resolve_coupon
    is_active_file_status is_printed_file_job assert_file_can_back_new_job_from compute_price
    binding_choice count_selected_pages apply_platform_markup apply_coupon raw_discount
    unsupported_specs is_shop_operational_from apply_transition transition transitions ◌is◌
    redeem_coupon commit update_job
new_id = refl

create_prepared_job-refused_example :
    (second_order.0 ≡ first_order.0) ⊎ (duplicate_order ≡ no_release_code)
create_prepared_job-refused_example =
    create_prepared_job-refused env 91 6 1_001 4 [] request (document ∷ []) first_order.0
      second_order.0 duplicate_order new_id (ap (λ x. (second_order.0, x)) order_refused)

abbrev prepared : Job
prepared = record (job_at 4 JobStatus.awaiting_arrival none none) {
  payment_status = PaymentStatus.counter_due;
  payment_provider = some pay_at_shop;
}

abbrev prepared_store : Store
prepared_store = record { jobs = prepared ∷ []; events = []; outbox = [] }

abbrev withdrawn : Job
withdrawn = written (cancel_change 104 prepared) JobStatus.cancelled 70 prepared

abbrev withdrawn_store : Store
withdrawn_store = after_commit 70 12 (cancel_change 104 prepared) JobStatus.cancelled prepared_store

order_cancelled :
    cancel_job 4 104 12 70 prepared_store prepared_store ≡ ok (withdrawn, withdrawn_store)
unfolding cancel_job cancel_read is_cancellable apply_transition transition transitions commit
    update_job ◌is◌
order_cancelled = refl

cancel_job-IsCancelled_example :
    (j : Job) × (find (own_order 4 104) prepared_store.jobs ≡ some j) × IsCancelled j withdrawn
cancel_job-IsCancelled_example =
    cancel_job-IsCancelled 4 104 12 70 prepared_store prepared_store withdrawn_store withdrawn
      order_cancelled
