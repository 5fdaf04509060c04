-- ===== src/Orders/Coded.antt =====
-- apps/api/src/modules/jobs/routes.ts: the code and the row that an order has when the part after its insert
-- answers.
use print_q.Base.{
  ◌≡◌, refl, ap, subst, ℕ, false, arith, Option, none, some, List, [], ◌∷◌, find, take, Result, ok,
  throw, inl, inr, Bool-cases, ◌==◌,
}
use print_q.Base.Updates.{same_id}
use print_q.Status.{JobStatus, ◌is◌, transition, transitions}
use print_q.Job.{Job}
use print_q.Store.{Store}
use print_q.Store.Winner.{apply_transition_won, after_commit}
use print_q.Orders.{OrderEnv, OrderFault, Tables, no_release_code, duplicate_order}
use print_q.Orders.Prepare.{
  OrderAnswer, counter_code_in_use, free_code, coded, code_change, first_of, give_code,
  allocate_pay_at_shop_code, has_rival, redeem_if, answer_of, answered, finish_order, insert_job,
}

free_code-free :
    (env : OrderEnv) (shop_id : ℕ) (jobs : List Job) (draws : List ℕ) (c : ℕ)
    → free_code env shop_id jobs draws ≡ some c
    → counter_code_in_use shop_id (env.digest_release_code shop_id c) jobs ≡ false
unfolding free_code
free_code-free env shop_id jobs [] c h = cc
free_code-free env shop_id jobs (d ∷ draws) c h =
    let rest = free_code-free env shop_id jobs draws c in ground arith

-- The row that the order ends with.
abbrev pub prepared_row : OrderEnv → (now code : ℕ) → Job → Job
prepared_row env now code j =
    record (coded (env.digest_release_code j.shop_id code) (env.encrypt_release_code j.shop_id code)
      now j) { status = JobStatus.awaiting_arrival; updated_at = now }

give_code-prepared :
    (env : OrderEnv) (event_id now code : ℕ) (j : Job) (jobs : List Job) (db : Store)
    → db.jobs ≡ j ∷ jobs
    → j.status ≡ JobStatus.pending_payment
    → (after : Store) × (give_code env event_id now j (some code) db
        ≡ ok (after, some (prepared_row env now code j)))
      × (find (λ x. x.id == j.id) after.jobs ≡ some (prepared_row env now code j))
unfolding give_code ◌is◌ transition transitions
give_code-prepared env event_id now code j jobs db e p =
    let (won, found) =
      apply_transition_won now event_id (code_change env code now j) JobStatus.awaiting_arrival db j
        (λ x. refl) refl (rw (e, same_id j.id) refl) (rw p refl) in
    (
      after_commit now event_id (code_change env code now j) JobStatus.awaiting_arrival db,
      rw won refl,
      found,
    )

redeem_if-store :
    (env : OrderEnv) (coupon : Option ℕ) (db : Tables) → (redeem_if env coupon db).store ≡ db.store
redeem_if-store env none db = refl
redeem_if-store env (some c) db = refl

-- What the part after the insert answers when it does not throw.
abbrev pub IsFinished : OrderEnv → (now : ℕ) → Job → List Job → Tables → OrderAnswer → Type 0
IsFinished env now j before after answer =
    (answer ≡ answer_of j)
    × ((c : ℕ) × (counter_code_in_use j.shop_id (env.digest_release_code j.shop_id c) (j ∷ before)
          ≡ false)
        × (find (λ x. x.id == j.id) after.store.jobs ≡ some (prepared_row env now c j)))

pub no_answer :
    (db after : Tables) (f : OrderFault) (answer : OrderAnswer)
    → Path (Tables × Result OrderFault OrderAnswer) (db, throw f) (after, ok answer)
    → ⊥
no_answer db after f answer h =
    let both : Path (Result OrderFault OrderAnswer) (throw f) (ok answer) = ap (λ x. x.1) h in cc

same_answer : (x y : OrderAnswer) → Path (Result OrderFault OrderAnswer) (ok x) (ok y) → y ≡ x
same_answer x y h = cc

give_code-none :
    (env : OrderEnv) (event_id now : ℕ) (j : Job) (db : Store)
    → give_code env event_id now j none db ≡ throw no_release_code
unfolding give_code
give_code-none env event_id now j db = refl

first_of-some :
    (P : ℕ → Type 0) (pre rest : Option ℕ)
    → ((c : ℕ) → pre ≡ some c → P c)
    → ((c : ℕ) → rest ≡ some c → P c)
    → (c : ℕ) → first_of pre rest ≡ some c
    → P c
first_of-some P none rest h k = k
first_of-some P (some d) rest h k = h

answered-prepared :
    (env : OrderEnv) (event_id now : ℕ) (code : Option ℕ) (j : Job) (before : List Job)
    (db after : Tables) (answer : OrderAnswer)
    → db.store.jobs ≡ j ∷ before
    → j.status ≡ JobStatus.pending_payment
    → ((c : ℕ)
        → code ≡ some c
        → counter_code_in_use j.shop_id (env.digest_release_code j.shop_id c) (j ∷ before) ≡ false)
    → answered db j (give_code env event_id now j code db.store) ≡ (after, ok answer)
    → IsFinished env now j before after answer
answered-prepared env event_id now none j before db after answer e p free h = absurd (
    no_answer db after no_release_code answer
      (rw (give_code-none env event_id now j db.store) at h))
answered-prepared env event_id now (some c) j before db after answer e p free h =
    let (store, given, found) = give_code-prepared env event_id now c j before db.store e p in
    let same : Path (Tables × Result OrderFault OrderAnswer)
        (record db { store = store }, ok (answer_of j)) (after, ok answer) =
      rw given at h in
    (
      same_answer (answer_of j) answer (ap (λ x. x.1) same),
      (
        c,
        free c refl,
        subst (λ t. find (λ x. x.id == j.id) t.store.jobs ≡ some (prepared_row env now c j))
            (ap (λ x. x.0) same) found,
      ),
    )

pub finish_order-prepared :
    (env : OrderEnv) (event_id now : ℕ) (coupon pre : Option ℕ) (draws : List ℕ) (j : Job)
    (db after : Tables) (answer : OrderAnswer)
    → j.status ≡ JobStatus.pending_payment
    → ((c : ℕ)
        → pre ≡ some c
        → counter_code_in_use j.shop_id (env.digest_release_code j.shop_id c) (j ∷ db.store.jobs)
          ≡ false)
    → finish_order env event_id now coupon pre draws j (insert_job j db) ≡ (after, ok answer)
    → IsFinished env now j db.store.jobs after answer
unfolding finish_order allocate_pay_at_shop_code
finish_order-prepared env event_id now coupon pre draws j db after answer p free h =
    elim (Bool-cases (has_rival j (j ∷ db.store.jobs))) [
      | inl raced ↦ absurd (no_answer _ after duplicate_order answer (rw raced at h))
      | inr alone ↦
          let redeemed = redeem_if env coupon (insert_job j db) in
          let rows = ap (λ s. s.jobs) (redeem_if-store env coupon (insert_job j db)) in
          answered-prepared env event_id now
            (first_of pre (free_code env j.shop_id redeemed.store.jobs (take 20 draws))) j
            db.store.jobs redeemed after answer rows p
            (first_of-some Free pre (free_code env j.shop_id redeemed.store.jobs (take 20 draws))
              free
              (λ c k.
                subst
                  (λ js.
                    counter_code_in_use j.shop_id (env.digest_release_code j.shop_id c) js ≡ false)
                  rows (free_code-free env j.shop_id redeemed.store.jobs (take 20 draws) c k)))
            (rw alone at h)
    ]
  where
    Free : ℕ → Type 0
    Free c =
        counter_code_in_use j.shop_id (env.digest_release_code j.shop_id c) (j ∷ db.store.jobs)
        ≡ false
