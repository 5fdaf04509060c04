-- ===== src/Orders/Refused.antt =====
-- apps/api/src/modules/jobs/routes.ts: what a refused order leaves behind.
use print_q.Base.{
  ◌≡◌, ◌≢◌, take, ◌⊎◌, inl, inr, refl, ap, sym, ◌∙◌, Bool-cases, ℕ, false, List, [], ◌∷◌, map,
  includes, arith, Option, none, some, Result, ok, throw,
}
use print_q.Base.Updates.{same_id}
use print_q.Job.{Job}
use print_q.Status.{InvalidTransition, transition, transitions}
use print_q.Store.{Store, apply_transition}
use print_q.Orders.{
  OrderEnv, OrderRequest, OrderFault, UploadedFile, Tables, Accepted, accept_order, no_release_code,
}
use print_q.Orders.Prepare.{
  first_of, code_change, free_code, give_code, answered, create_accepted, preallocate, new_job,
  create_prepared_job, finish_order, allocate_pay_at_shop_code, delete_job, insert_job, has_rival,
  redeem_if,
}

delete_absent :
    (id : ℕ) (jobs : List Job)
    → includes id (map (λ j. j.id) jobs) ≡ false
    → delete_job id jobs ≡ jobs
delete_absent id [] h = refl
delete_absent id (j ∷ jobs) h = ground (arith, delete_absent id jobs)

delete_new :
    (j : Job) (jobs : List Job)
    → includes j.id (map (λ x. x.id) jobs) ≡ false
    → delete_job j.id (j ∷ jobs) ≡ jobs
delete_new j jobs h = rw (same_id j.id) (delete_absent j.id jobs h)

apply_code :
    (env : OrderEnv) (event_id now c : ℕ) (j : Job) (db : Store) (e : InvalidTransition)
    → apply_transition now event_id (code_change env c now j) db ≢ throw e
unfolding apply_transition transition transitions
apply_code env event_id now c j db e h = cc

give_code-fault :
    (env : OrderEnv) (event_id now : ℕ) (j : Job) (code : Option ℕ) (db : Store) (e : OrderFault)
    → give_code env event_id now j code db ≡ throw e
    → e ≡ no_release_code
unfolding give_code apply_transition transition transitions
give_code-fault env event_id now j none db e h = cc
give_code-fault env event_id now j (some c) db e h = cc

allocate-fault :
    (env : OrderEnv) (event_id now : ℕ) (j : Job) (pre : Option ℕ) (draws : List ℕ) (db : Store)
    (e : OrderFault)
    → allocate_pay_at_shop_code env event_id now j pre draws db ≡ throw e
    → e ≡ no_release_code
unfolding allocate_pay_at_shop_code
allocate-fault env event_id now j pre draws db =
    give_code-fault env event_id now j
      (first_of pre (free_code env j.shop_id db.jobs (take 20 draws))) db

answered-fault :
    (j : Job) (e : OrderFault) (db after : Tables) (given : Result OrderFault (Store × Option Job))
    → ((f : OrderFault) → given ≡ throw f → f ≡ no_release_code)
    → answered db j given ≡ (after, throw e)
    → e ≡ no_release_code
answered-fault j e db after (throw f) faults h = faults e cc
answered-fault j e db after (ok (s, row)) faults h = cc

-- A refusal after the insert: the row is gone again, or the codes ran out.
finish_order-refused :
    (env : OrderEnv) (event_id now : ℕ) (coupon pre : Option ℕ) (draws : List ℕ) (j : Job)
    (db after : Tables) (e : OrderFault)
    → includes j.id (map (λ x. x.id) db.store.jobs) ≡ false
    → finish_order env event_id now coupon pre draws j (insert_job j db) ≡ (after, throw e)
    → (after ≡ db) ⊎ (e ≡ no_release_code)
unfolding finish_order
finish_order-refused env event_id now coupon pre draws j db after e new h =
    elim (Bool-cases (has_rival j (j ∷ db.store.jobs))) [
      | inl yes_rival ↦
          inl (sym (ap (λ x. x.0) (rw yes_rival at h)) ∙ rw (delete_new j db.store.jobs new) refl)
      | inr alone ↦
          let redeemed = redeem_if env coupon (insert_job j db) in
          inr (
            answered-fault j e redeemed after
              (allocate_pay_at_shop_code env event_id now j pre draws redeemed.store)
              (allocate-fault env event_id now j pre draws redeemed.store) (rw alone at h))
    ]

-- A refused order leaves no trace, whatever the reason, unless the counter codes ran out: if the id of
-- the new row is new, then after every other error the orders and the coupons are as before.
pub create_prepared_job-refused :
    (env : OrderEnv) (id event_id now candidate : ℕ) (draws : List ℕ) (r : OrderRequest)
    (files : List UploadedFile) (db after : Tables) (e : OrderFault)
    → includes id (map (λ j. j.id) db.store.jobs) ≡ false
    → create_prepared_job env id event_id now candidate draws r files db ≡ (after, throw e)
    → (after ≡ db) ⊎ (e ≡ no_release_code)
unfolding create_prepared_job create_accepted
create_prepared_job-refused env id event_id now candidate draws r files db after e new h =
    by_acceptance (accept_order env now r files db) h
  where
    by_acceptance :
        (accepted : Result OrderFault Accepted)
        → create_accepted env id event_id now candidate draws r db accepted ≡ (after, throw e)
        → (after ≡ db) ⊎ (e ≡ no_release_code)
    by_acceptance (throw f) k = inl (sym (ap (λ x. x.0) k))
    by_acceptance (ok a) k =
        finish_order-refused env event_id now a.coupon
          (preallocate env a.file.shop_id candidate db.store.jobs) draws (new_job id now r a) db
          after e new k
