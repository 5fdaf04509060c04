-- ===== src/Printing/Claims.antt =====
-- apps/api/src/modules/agents/routes.ts: the claims of one job by several agents, whose statements come in
-- any order.
use print_q.Base.{
  ◌≡◌, refl, sym, subst, ◌∙◌, ℕ, ◌≤◌, ◌==◌, ◌||◌, Bool, true, false, some, List, [], ◌∷◌, ◌++◌, map,
  find, any, includes, Distinct, All, length, arith, if◌then◌else◌, Bool-cases, inl, inr, Result,
  ok, throw,
}
use print_q.Status.{otp_verified, printing, ◌is◌, transition, transitions}
use print_q.Job.{Job}
use print_q.Store.{Store, written, update_job}
use print_q.Store.Race.{unmatched, job_ids, apply_transition_lost}
use print_q.Store.Winner.{apply_transition_won}
use print_q.Printing.{
  Agent, claimable, claimed, free_for, start_change, ClaimFault, reserve_claim, start_claim,
}

-- What the claims of a job share: the store, the agents between their two statements, and the agents
-- that were given the job.
pub record ClaimState : Type 0 where
  pub store : Store
  pub waiting : List Agent
  pub winners : List Agent

unfoldable pub reserve : (now : ℕ) → Agent → (job_id : ℕ) → ClaimState → ClaimState
unfolding reserve_claim
reserve now a job_id s =
    let (won, db) = reserve_claim now a job_id s.store in
    record s { store = db; waiting = if won then a ∷ s.waiting else s.waiting }

abbrev pub with_winner : Agent → Result ClaimFault Job → List Agent → List Agent
with_winner a (ok j) winners = a ∷ winners
with_winner a (throw e) winners = winners

unfoldable pub start :
    (now event_id : ℕ) → Agent → (job_id : ℕ) → List Agent → ClaimState → ClaimState
unfolding start_claim
start now event_id a job_id others s =
    let (db, result) = start_claim now event_id a job_id s.store in
    record s { store = db; waiting = others; winners = with_winner a result s.winners }

pub data ClaimStep (job_id : ℕ) : ClaimState → ClaimState → Type 0 where
  reserving : (now : ℕ) (a : Agent) {s : ClaimState} → ClaimStep job_id s (reserve now a job_id s)
  starting :
      (now event_id : ℕ) (before : List Agent) (a : Agent) (after : List Agent) {s : ClaimState}
      → s.waiting ≡ before ++ a ∷ after
      → ClaimStep job_id s (start now event_id a job_id (before ++ after) s)

pub data ClaimRun (job_id : ℕ) : ClaimState → ClaimState → Type 0 where
  done : {s : ClaimState} → ClaimRun job_id s s
  step_then :
      {a b c : ClaimState} → ClaimStep job_id a b → ClaimRun job_id b c → ClaimRun job_id a c

-- The row names this agent as the one that has it.
abbrev pub Names : Job → Agent → Type 0
Names j a = j.claimed_by_agent_id ≡ some a.id

-- What every step keeps: the agents that wait or have won against the row, and the row's status against
-- the number of winners.
pub record IsHeld (job_id : ℕ) (s : ClaimState) : Type 0 where
  pub ids : Distinct (job_ids s.store.jobs)
  pub row : Job
  pub found : find (λ j. j.id == job_id) s.store.jobs ≡ some row
  pub waits : All (Names row) s.waiting
  pub wins : All (Names row) s.winners
  pub one : length s.winners ≤ (if row.status is otp_verified then 0 else 1)

All-imp : (P Q : Agent → Type 0) (xs : List Agent) → ((a : Agent) → P a → Q a) → All P xs → All Q xs
All-imp P Q [] f h = tt
All-imp P Q (x ∷ xs) f (h, hs) = (f x h, All-imp P Q xs f hs)

All-at :
    (P : Agent → Type 0) (before : List Agent) (a : Agent) (after : List Agent)
    → All P (before ++ a ∷ after)
    → P a × All P (before ++ after)
All-at P [] a after (h, hs) = (h, hs)
All-at P (x ∷ before) a after (h, hs) =
    let (here, others) = All-at P before a after hs in (here, (h, others))

find-reserved :
    (now : ℕ) (a : Agent) (k : ℕ) (jobs : List Job) (j : Job)
    → find (λ x. x.id == k) jobs ≡ some j
    → find (λ x. x.id == k) (map (λ x. if claimable a k x then claimed now a x else x) jobs)
      ≡ some (if claimable a k j then claimed now a j else j)
find-reserved now a k [] j h = cc
find-reserved now a k (x ∷ jobs) j h = ground (arith, find-reserved now a k jobs j)

reserved-ids :
    (now : ℕ) (a : Agent) (k : ℕ) (jobs : List Job)
    → job_ids (map (λ j. if claimable a k j then claimed now a j else j) jobs) ≡ job_ids jobs
reserved-ids now a k [] = refl
reserved-ids now a k (j ∷ jobs) = ground (arith, reserved-ids now a k jobs)

any-absent :
    (a : Agent) (k : ℕ) (jobs : List Job)
    → includes k (job_ids jobs) ≡ false
    → any (claimable a k) jobs ≡ false
unfolding claimable
any-absent a k [] h = refl
any-absent a k (x ∷ jobs) h = ground (arith, any-absent a k jobs)

-- With unique ids the update finds a row exactly if the row of the id passes its test.
any-claimable :
    (a : Agent) (k : ℕ) (jobs : List Job) (j : Job)
    → Distinct (job_ids jobs)
    → find (λ x. x.id == k) jobs ≡ some j
    → any (claimable a k) jobs ≡ claimable a k j
unfolding claimable
any-claimable a k [] j d h = cc
any-claimable a k (x ∷ jobs) j (d, ds) h = elim (Bool-cases (x.id == k)) [
  | inl e ↦
      let same : x ≡ j = ground arith in
      let id : x.id ≡ k = ground arith in
      let rest = any-absent a k jobs (subst (λ i. includes i (job_ids jobs) ≡ false) id d) in
      subst (λ y. any (claimable a k) (x ∷ jobs) ≡ claimable a k y) same (or_none rest)
  | inr e ↦ ground (arith, any-claimable a k jobs j ds)
]
  where
    or_none : {b c : Bool} → c ≡ false → (b || c) ≡ b
    or_none h = ground arith

named_free :
    (j : Job) (k now : ℕ) (a b : Agent)
    → claimable a k j ≡ true
    → Names j b
    → Names (claimed now a j) b
unfolding claimable
named_free j k now a b h n =
    let free : free_for a j.claimed_by_agent_id ≡ true = ground arith in
    let same : (b.id == a.id) ≡ true = rw n at free in ground arith

reserve-IsHeld :
    (now : ℕ) (a : Agent) (k : ℕ) (s : ClaimState) → IsHeld k s → IsHeld k (reserve now a k s)
unfolding reserve reserve_claim
reserve-IsHeld now a k s h =
    let ids = reserved-ids now a k s.store.jobs in
    let found = find-reserved now a k s.store.jobs h.row h.found in
    let won = any-claimable a k s.store.jobs h.row h.ids h.found in
    elim (Bool-cases (claimable a k h.row)) [
      | inl e ↦
          let keeps = λ (b : Agent) (n : Names h.row b). named_free h.row k now a b e n in
          rw (won ∙ e) (record {
            ids = rw ids h.ids;
            row = claimed now a h.row;
            found = rw e at found;
            waits = (refl, All-imp (Names h.row) _ s.waiting keeps h.waits);
            wins = All-imp (Names h.row) _ s.winners keeps h.wins;
            one = h.one;
          })
      | inr e ↦ rw (won ∙ e) (record {
        ids = rw ids h.ids;
        row = h.row;
        found = rw e at found;
        waits = h.waits;
        wins = h.wins;
        one = h.one;
      })
    ]

started-ids :
    (k now : ℕ) (a : Agent) (jobs : List Job)
    → job_ids (update_job (start_change k a) printing now jobs) ≡ job_ids jobs
unfolding update_job
started-ids k now a [] = refl
started-ids k now a (j ∷ jobs) = ground (arith, started-ids k now a jobs)

start-IsHeld :
    (now event_id : ℕ) (before : List Agent) (a : Agent) (after : List Agent) (k : ℕ)
    (s : ClaimState)
    → s.waiting ≡ before ++ a ∷ after
    → IsHeld k s
    → IsHeld k (start now event_id a k (before ++ after) s)
unfolding start start_claim transition transitions ◌is◌
start-IsHeld now event_id before a after k s e h =
    let (named, others) =
      All-at (Names h.row) before a after (subst (All (Names h.row)) e h.waits) in
    elim (Bool-cases (h.row.status is otp_verified)) [
      | inl o ↦
          let (won, found) =
            apply_transition_won now event_id (start_change k a) printing s.store h.row (λ j. refl)
              refl h.found (rw o refl) in
          rw won (record {
            ids = rw (started-ids k now a s.store.jobs) h.ids;
            row = written (start_change k a) printing now h.row;
            found = found;
            waits = others;
            wins = (named, h.wins);
            one = first_winner s h.one o;
          })
      | inr o ↦
          let lost =
            apply_transition_lost now event_id (start_change k a) s.store printing refl
              (unmatched (start_change k a) s.store.jobs h.row h.ids h.found (rw o refl)) in
          rw lost (record {
            ids = h.ids;
            row = h.row;
            found = h.found;
            waits = others;
            wins = h.wins;
            one = h.one;
          })
    ]
  where
    first_winner :
        {b : Bool} (s : ClaimState)
        → length s.winners ≤ (if b then 0 else 1)
        → b ≡ true
        → length (a ∷ s.winners) ≤ 1
    first_winner s h o = ground arith

step-IsHeld : {k : ℕ} {s t : ClaimState} → ClaimStep k s t → IsHeld k s → IsHeld k t
step-IsHeld {k} (reserving now a) h = reserve-IsHeld now a k _ h
step-IsHeld {k} (starting now event_id before a after e) h =
    start-IsHeld now event_id before a after k _ e h

run-IsHeld : {k : ℕ} {s t : ClaimState} → ClaimRun k s t → IsHeld k s → IsHeld k t
run-IsHeld done h = h
run-IsHeld (step_then x r) h = run-IsHeld r (step-IsHeld x h)

le_one : (b : Bool) (n : ℕ) → n ≤ (if b then 0 else 1) → n ≤ 1
le_one b n h = ground arith

-- The conditional update of a claim is a lock: however the two statements of any number of claims of a
-- job are interleaved, by the same agents or others, if no claim was under way before in a table of
-- unique ids that has the job, then at most one claim is given the job, and its agent and every agent
-- between its two statements is the one that the row names. Nothing else writes the row meanwhile.
pub claim_race :
    {k : ℕ} {s t : ClaimState}
    → ClaimRun k s t
    → (j : Job) → Distinct (job_ids s.store.jobs)
    → find (λ x. x.id == k) s.store.jobs ≡ some j
    → s.waiting ≡ []
    → s.winners ≡ []
    → (length t.winners ≤ 1)
      × ((row : Job) × (find (λ x. x.id == k) t.store.jobs ≡ some row)
          × All (Names row) t.waiting
          × All (Names row) t.winners)
claim_race {k} {s} run j ids found no_waiting no_winner =
    let held = run-IsHeld run (record {
      ids = ids;
      row = j;
      found = found;
      waits = subst (All (Names j)) (sym no_waiting) tt;
      wins = subst (All (Names j)) (sym no_winner) tt;
      one =
          subst (λ ws. length ws ≤ (if j.status is otp_verified then 0 else 1)) (sym no_winner)
            (omega arith);
    }) in
    (le_one _ _ held.one, (held.row, held.found, held.waits, held.wins))
