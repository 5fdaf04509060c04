-- ===== src/Release/Paid.antt =====
-- The rows that a release may return: apps/api/src/modules/queue/release.ts.
use print_q.Base.{
  ℕ, ◌≡◌, refl, sym, ap, ◌∙◌, subst, ◌⊎◌, inl, inr, arith, Bool, true, false, ◌&&◌, Option, none,
  some, List, [], ◌∷◌, head?, find, All, keep, keep-All, find_sound, Option-cases, Bool-cases,
  is_some, is_none, Result, ok, throw, if◌then◌else◌,
}
use print_q.Base.Sorting.{sort, sort-All}
use print_q.Status.{
  JobStatus, otp_verified, transitions, counter_release, event_otp_verified, InvalidTransition,
}
use print_q.Job.{Job, paid, is_paid, CounterPaymentMethod}
use print_q.Store.{Store, Change, written, matches, commit, apply_transition}
use print_q.Store.Race.{apply_transition_ok}
use print_q.Engine.CheckIn.{payment_ready}
use print_q.Release.{ReleaseRequest, released, match_code, has_code, has_old_code, newer}
use print_q.Release.Commit.{payment_due, release_change, settle_release, arrive_at_counter, is_away}

head-All : (P : Job → Type 0) (jobs : List Job) (j : Job) → All P jobs → head? jobs ≡ some j → P j
head-All P [] j ps h = cc
head-All P (x ∷ jobs) j (p, ps) h = subst P (ground arith) p

pub match_code-payment_ready :
    (shop_id digest : ℕ) (verify : ℕ → Bool) (jobs : List Job) (m : Job)
    → match_code shop_id digest verify jobs ≡ some m
    → payment_ready m ≡ true
unfolding match_code
match_code-payment_ready shop_id digest verify jobs m h =
    let coded = keep (has_code shop_id digest) jobs in
    elim (Option-cases (head? (sort newer coded))) [
      | inl e ↦
          let found : find (has_old_code shop_id verify) jobs ≡ some m = rw (e, match_code) at h in
          let old = find_sound (has_old_code shop_id verify) jobs m found in ground arith
      | inr (j, e) ↦
          let same : some j ≡ some m = rw (e, match_code) at h in
          let has =
            head-All (λ x. has_code shop_id digest x ≡ true) (sort newer coded) j
              (sort-All newer (λ x. has_code shop_id digest x ≡ true) coded
                (keep-All (has_code shop_id digest) jobs))
              e in
          ground arith
    ]

commit-row :
    (now event_id : ℕ) (c : Change) (to : JobStatus) (db db' : Store) (row : Job)
    → commit now event_id c to db ≡ (db', some row)
    → (j : Job) × (row ≡ written c to now j)
unfolding commit
commit-row now event_id c to db db' row h = elim (Option-cases (find (matches c) db.jobs)) [
  | inl p ↦ absurd (ground arith)
  | inr (w, p) ↦ (w, ground arith)
]

-- The order was paid before, or the row carries a confirmed counter payment of the server's amount.
abbrev pub IsSettled : ReleaseRequest → Job → Job → Type 0
IsSettled req m row =
    (is_paid m.payment_status ≡ true)
    ⊎ ((is_some req.payment_confirmation ≡ true)
        × (row.payment_status ≡ paid)
        × (row.counter_payment_amount ≡ some m.total_paise))

release_change-IsSettled :
    (now : ℕ) (payment_ref : CounterPaymentMethod → ℕ → ℕ) (req : ReleaseRequest) (m : Job)
    (printer : ℕ) (normal : Bool) (to : JobStatus) (j : Job)
    → payment_ready m ≡ true
    → (payment_due m && is_none req.payment_confirmation) ≡ false
    → IsSettled req m (written (release_change now payment_ref req m printer normal) to now j)
release_change-IsSettled now payment_ref req m printer normal to j ready held =
    elim (Bool-cases (payment_due m)) [
      | inr e ↦ inl (ground (arith, e))
      | inl e ↦ elim (Option-cases req.payment_confirmation) [
        | inl none_yet ↦ absurd (ground arith)
        | inr (c, confirmed) ↦ inr (
          ground arith,
          rw (e, confirmed) (kept (is_away m.status) _).0,
          rw (e, confirmed) (kept (is_away m.status) _).1,
        )
      ]
    ]
  where
    kept :
        (away : Bool) (k : Job)
        → ((arrive_at_counter now away k).payment_status ≡ k.payment_status)
          × ((arrive_at_counter now away k).counter_payment_amount ≡ k.counter_payment_amount)
    kept true k = (refl, refl)
    kept false k = (refl, refl)

release_to :
    (coded : Bool) (from to : JobStatus)
    → transitions from (if coded then counter_release else event_otp_verified) ≡ some to
    → to ≡ otp_verified
unfolding transitions
release_to coded from to h = ground arith

pub settle-released :
    (now : ℕ) (m : Job) (req : ReleaseRequest) (agents : List (ℕ × List ℕ))
    (r : Result InvalidTransition (Store × Option Job)) (db' : Store) (row : Job)
    → settle_release now m req agents r ≡ ok (db', released row)
    → (db : Store) × (r ≡ ok (db, some row))
unfolding settle_release
settle-released now m req agents (throw e) db' row h = absurd (ground arith)
settle-released now m req agents (ok (db, some j)) db' row h = (db, ground arith)
settle-released now m req agents (ok (db, none)) db' row h = absurd (ground arith)

won-row :
    (now event_id : ℕ) (c : Change) (db db' : Store) (row : Job)
    → apply_transition now event_id c db ≡ ok (db', some row)
    → (to : JobStatus) × (j : Job) × (transitions c.from c.event ≡ some to)
      × (row ≡ written c to now j)
won-row now event_id c db db' row won =
    let (to, step, result) = apply_transition_ok now event_id c db (db', some row) won in
    let (j, same) = commit-row now event_id c to db db' row (sym result) in (to, j, step, same)

-- The facts about the row that is written hold of the row that is returned.
same_row :
    (req : ReleaseRequest) (m row w : Job) (to : JobStatus)
    → row ≡ w
    → w.status ≡ to
    → to ≡ otp_verified
    → IsSettled req m w
    → (row.status ≡ otp_verified) × IsSettled req m row
same_row req m row w to same at goes settled =
    (ap (λ x. x.status) same ∙ at ∙ goes, subst (IsSettled req m) (sym same) settled)

pub release_change-released :
    (now event_id : ℕ) (payment_ref : CounterPaymentMethod → ℕ → ℕ) (req : ReleaseRequest) (m : Job)
    (normal : Bool) (printer : ℕ) (db db' : Store) (row : Job)
    → payment_ready m ≡ true
    → (payment_due m && is_none req.payment_confirmation) ≡ false
    → apply_transition now event_id (release_change now payment_ref req m printer normal) db
      ≡ ok (db', some row)
    → (row.status ≡ otp_verified) × IsSettled req m row
release_change-released now event_id payment_ref req m normal printer db db' row ready held won =
    let (to, j, step, same) =
      won-row now event_id (release_change now payment_ref req m printer normal) db db' row won in
    same_row req m row (written (release_change now payment_ref req m printer normal) to now j) to
      same refl (release_to (is_some m.release_code_digest) m.status to step)
      (release_change-IsSettled now payment_ref req m printer normal to j ready held)
