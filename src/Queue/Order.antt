-- ===== src/Queue/Order.antt =====
-- The order of the line (`sortQueueJobs` and the ORDER BY of the queries), and the line of a table
-- whose rows were updated.
use print_q.Base.{
  ℕ, ◌≡◌, ap, ◌∙◌, Bool, true, false, Option, List, map, arith, All, Distinct, keep, keep-All,
  keep-map, keep-Distinct,
}
use mathlib.Core.List.{Perm}
use print_q.Base.Sorting.{
  sort, sort-perm, sort-IsSorted, sort-All, sort-map, sort-Distinct, IsSorted,
}
use print_q.Job.{Job}
use print_q.Queue.{line_before, sort_queue_jobs}
use print_q.Queue.Pass.{in_line, line, update_row}

line_before_total : (x y : Job) → line_before x y ≡ false → line_before y x ≡ true
line_before_total x y h = ground arith

line_before_trans :
    (x y z : Job) → line_before x y ≡ true → line_before y z ≡ true → line_before x z ≡ true
line_before_trans x y z h k = ground arith

-- `sortQueueJobs` rearranges the jobs into line order: nobody stands before a job with an earlier
-- check-in, or with the same check-in instant and an earlier creation; jobs that never checked in
-- come last.
pub sort_queue_jobs_lem :
    (jobs : List Job)
    → Perm (sort_queue_jobs jobs) jobs × IsSorted line_before (sort_queue_jobs jobs)
unfolding sort_queue_jobs
sort_queue_jobs_lem jobs =
    (sort-perm line_before jobs, sort-IsSorted line_before line_before_total line_before_trans jobs)

pub line-Distinct :
    (shop_id : ℕ) (table : List Job)
    → Distinct (map (λ j. j.id) table)
    → Distinct (map (λ j. j.id) (line shop_id table))
unfolding line sort_queue_jobs
line-Distinct shop_id table d =
    sort-Distinct line_before (λ j. j.id) (keep (in_line shop_id) table)
      (keep-Distinct (λ j. j.id) (in_line shop_id) table d)

pub line-in_line :
    (shop_id : ℕ) (table : List Job) → All (λ j. in_line shop_id j ≡ true) (line shop_id table)
unfolding line sort_queue_jobs
line-in_line shop_id table =
    sort-All line_before (λ j. in_line shop_id j ≡ true) (keep (in_line shop_id) table)
      (keep-All (in_line shop_id) table)

-- An update that leaves the shop, the status and the times of the line alone.
pub record KeepsPlace (f : Job → Job) : Type 0 where
  pub same_shop : (j : Job) → (f j).shop_id ≡ j.shop_id
  pub same_status : (j : Job) → (f j).status ≡ j.status
  pub same_queued : (j : Job) → (f j).queued_at ≡ j.queued_at
  pub same_created : (j : Job) → (f j).created_at ≡ j.created_at
  pub same_id : (j : Job) → (f j).id ≡ j.id

pub line-map :
    (shop_id : ℕ) (f : Job → Job) (table : List Job)
    → KeepsPlace f
    → line shop_id (map f table) ≡ map f (line shop_id table)
unfolding line sort_queue_jobs
line-map shop_id f table k =
    ap (sort line_before)
      (keep-map (in_line shop_id) f (λ j. ground (arith, k.same_shop j, k.same_status j)) table)
    ∙ sort-map line_before f
        (λ x y.
          ground (arith, k.same_queued x, k.same_queued y, k.same_created x, k.same_created y))
        (keep (in_line shop_id) table)

pub update_row-KeepsPlace :
    (shop_id now grace : ℕ) (pick : ℕ → Option Bool)
    → KeepsPlace (λ j. update_row shop_id now grace (pick j.id) j)
unfolding update_row
update_row-KeepsPlace shop_id now grace pick = record {
  same_shop = λ j. ground arith;
  same_status = λ j. ground arith;
  same_queued = λ j. ground arith;
  same_created = λ j. ground arith;
  same_id = λ j. ground arith;
}
