-- ===== src/Orders/Prepared.antt =====
-- apps/api/src/modules/jobs/routes.ts: what a prepared order is.
use print_q.Base.{
  ◌≡◌, refl, ℕ, ◌+◌, ◌≤◌, false, any, arith, some, List, ◌∷◌, find, Result, ok, throw, Bool, ◌==◌,
  ◌&&◌,
}
use print_q.Status.{JobStatus}
use print_q.Job.{Job, PaymentStatus}
use print_q.Pricing.{min_order_paise}
use print_q.Orders.{
  OrderEnv, OrderRequest, OrderFault, UploadedFile, Tables, Accepted, accept_order,
  is_active_file_status,
}
use print_q.Orders.Prepare.{
  OrderAnswer, new_job, counter_code_in_use, answer_of, preallocate, create_accepted,
  create_prepared_job,
}
use print_q.Orders.Price.{IsAccepted, accept_order-IsAccepted}
use print_q.Orders.Coded.{prepared_row, no_answer, finish_order-prepared}

-- Another order under way for the same file, by the same student at the same shop.
abbrev pub is_same_order : Job → Job → Bool
is_same_order j x =
    x.file_id == j.file_id
    && (x.student_id == j.student_id && (x.shop_id == j.shop_id && is_active_file_status x.status))

-- The row of a prepared order, against the orders that were there before.
pub record IsPrepared (env : OrderEnv) (before : List Job) (j : Job) : Type 0 where
  pub waits : j.status ≡ JobStatus.awaiting_arrival
  pub due : j.payment_status ≡ PaymentStatus.counter_due
  pub enough : min_order_paise ≤ j.total_paise
  pub sums : j.shop_base_paise + j.platform_markup_paise ≡ j.total_paise + j.discount_paise
  pub first : any (is_same_order j) before ≡ false
  pub code : ℕ
  pub code_kept : j.release_code_digest ≡ some (env.digest_release_code j.shop_id code)
  pub code_free :
      counter_code_in_use j.shop_id (env.digest_release_code j.shop_id code) before ≡ false

preallocate-free :
    (env : OrderEnv) (shop_id candidate : ℕ) (jobs : List Job) (c : ℕ)
    → preallocate env shop_id candidate jobs ≡ some c
    → counter_code_in_use shop_id (env.digest_release_code shop_id c) jobs ≡ false
preallocate-free env shop_id candidate jobs c h = ground arith

-- The new row holds no code yet.
new_free :
    (id now : ℕ) (r : OrderRequest) (a : Accepted) (digest : ℕ) (jobs : List Job)
    → counter_code_in_use a.file.shop_id digest jobs ≡ false
    → counter_code_in_use a.file.shop_id digest (new_job id now r a ∷ jobs) ≡ false
unfolding counter_code_in_use
new_free id now r a digest jobs h = ground arith

old_free :
    (id now : ℕ) (r : OrderRequest) (a : Accepted) (digest : ℕ) (jobs : List Job)
    → counter_code_in_use a.file.shop_id digest (new_job id now r a ∷ jobs) ≡ false
    → counter_code_in_use a.file.shop_id digest jobs ≡ false
unfolding counter_code_in_use
old_free id now r a digest jobs h = ground arith

-- A prepared order is payable, priced and alone: if the handler answers, and no rounded markup is below
-- its price, then the table holds a row with the new id and the answered total that waits for the
-- student with its payment due at the counter; it costs at least the minimum; the shop's price and the
-- platform's markup together are the total and the discount; before it the student had no order under
-- way for the file at the shop; and its counter code was held by no unfinished order of the shop.
pub create_prepared_job-IsPrepared :
    (env : OrderEnv)
    → ((bps x : ℕ) → x ≤ env.mark_up bps x)
    → (id event_id now candidate : ℕ) (draws : List ℕ) (r : OrderRequest)
      (files : List UploadedFile) (db after : Tables) (answer : OrderAnswer)
    → create_prepared_job env id event_id now candidate draws r files db ≡ (after, ok answer)
    → (j : Job) × (find (λ x. x.id == id) after.store.jobs ≡ some j)
      × (answer ≡ answer_of j)
      × IsPrepared env db.store.jobs j
unfolding create_prepared_job create_accepted
create_prepared_job-IsPrepared env law id event_id now candidate draws r files db after answer h =
    by_acceptance (accept_order env now r files db) (accept_order-IsAccepted env law now r files db)
      h
  where
    by_acceptance :
        (accepted : Result OrderFault Accepted)
        → ((a : Accepted) → accepted ≡ ok a → IsAccepted r db.store.jobs a)
        → create_accepted env id event_id now candidate draws r db accepted ≡ (after, ok answer)
        → (j : Job) × (find (λ x. x.id == id) after.store.jobs ≡ some j)
          × (answer ≡ answer_of j)
          × IsPrepared env db.store.jobs j
    by_acceptance (throw f) sound k = absurd (no_answer db after f answer k)
    by_acceptance (ok a) sound k =
        let j = new_job id now r a in
        let s = sound a refl in
        let (answered_so, (c, free, found)) =
          finish_order-prepared env event_id now a.coupon
            (preallocate env a.file.shop_id candidate db.store.jobs) draws j db after answer refl
            (λ c e.
              new_free id now r a _ db.store.jobs
                (preallocate-free env a.file.shop_id candidate db.store.jobs c e))
            k in
        (
          prepared_row env now c j,
          found,
          answered_so,
          record {
            waits = refl;
            due = refl;
            enough = s.enough;
            sums = omega (arith, s.above, s.sums);
            first = s.first;
            code = c;
            code_kept = refl;
            code_free = old_free id now r a _ db.store.jobs free;
          },
        )
