-- ===== src/Queueing/Fair.antt =====
-- packages/shared/src/queueing.ts: the promotion serves both groups and never runs early.
use print_q.Base.{
  ◌≡◌, refl, ◌⊎◌, inl, inr, ℕ, ◌+◌, arith, Bool, true, false, Option, none, some, List, [], ◌∷◌,
  keep, head?, any, ap₂, ◌↔◌, ◌||◌, ap, ◌∙◌, All, keep-All,
}
use print_q.Base.Sorting.{sort, sort-head, sort-nil, sort-All}
use print_q.Job.{JobMode}
use print_q.Queueing.{
  QueueCandidate, is_due, by_slot, by_queued_at, is_instant, due_scheduled, instants, choose,
  pick_next_job, last_was_scheduled,
}

-- One who may be promoted now.
unfoldable pub may_run : ℕ → QueueCandidate → Bool
unfolding is_due
may_run limit c = is_instant c || is_due limit c

any-keep-nil : {A : Type 0} (p : A → Bool) (xs : List A) → keep p xs ≡ [] → any p xs ≡ false
any-keep-nil p [] h = refl
any-keep-nil p (x ∷ xs) h = ground (arith, any-keep-nil p xs)

any-keep-cons :
    {A : Type 0} (p : A → Bool) (xs : List A) (a : A) → head? (keep p xs) ≡ some a → any p xs ≡ true
any-keep-cons p [] a h = cc
any-keep-cons p (x ∷ xs) a h = ground (arith, any-keep-cons p xs a)

-- The first of the sorted group: it passes the group's test and none of the group comes before it.
first_of_group :
    (le : QueueCandidate → QueueCandidate → Bool)
    → ((a b : QueueCandidate) → le a b ≡ false → le b a ≡ true)
    → ((a b c : QueueCandidate) → le a b ≡ true → le b c ≡ true → le a c ≡ true)
    → (p : QueueCandidate → Bool) (cs : List QueueCandidate) (c : QueueCandidate)
    → head? (sort le (keep p cs)) ≡ some c
    → (p c ≡ true) × All (λ y. le c y ≡ true) (keep p cs)
first_of_group le total tr p cs c h = (
  head-All (sort le (keep p cs)) (sort-All le (λ y. p y ≡ true) (keep p cs) (keep-All p cs)) h,
  sort-head le total tr (keep p cs) c h,
)
  where
    head-All :
        (xs : List QueueCandidate) → All (λ y. p y ≡ true) xs → head? xs ≡ some c → p c ≡ true
    head-All [] ps e = cc
    head-All (x ∷ xs) (q, qs) e = ground arith

choose-some :
    (last : Bool) (due inst : List QueueCandidate) (c : QueueCandidate)
    → choose last due inst ≡ some c
    → ((head? inst ≡ some c) × ((last ≡ true) ⊎ (due ≡ [])))
      ⊎ ((head? due ≡ some c) × ((last ≡ false) ⊎ (inst ≡ [])))
unfolding choose
choose-some last [] inst c h = inl (h, inr refl)
choose-some last (d ∷ due) [] c h = inr (h, inr refl)
choose-some true (d ∷ due) (i ∷ inst) c h = inl (h, inl refl)
choose-some false (d ∷ due) (i ∷ inst) c h = inr (h, inl refl)

choose-none :
    (last : Bool) (due inst : List QueueCandidate)
    → choose last due inst ≡ none
    → (due ≡ []) × (inst ≡ [])
unfolding choose
choose-none last [] [] h = (refl, refl)
choose-none last [] (i ∷ inst) h = cc
choose-none last (d ∷ due) [] h = cc
choose-none last (d ∷ due) (i ∷ inst) h = ground arith

-- An empty sorted group has no members.
empty_group :
    (le : QueueCandidate → QueueCandidate → Bool) (p : QueueCandidate → Bool)
    → (cs : List QueueCandidate) → sort le (keep p cs) ≡ []
    → any p cs ≡ false
empty_group le p cs h = any-keep-nil p cs (sort-nil le (keep p cs) (ap head? h))

-- What `pick_next_job` promises of its answer `c`, for the mode promoted last.
-- `c` may run now, no job of its own group that may run now comes before it, and it belongs to the
-- group promoted last only where no job of the other group may run now.
unfoldable pub Serves : List QueueCandidate → Option JobMode → ℕ → QueueCandidate → Type 0
Serves cs last limit c =
    ((is_instant c ≡ true)
      × All (λ y. by_queued_at c y ≡ true) (keep is_instant cs)
      × ((last_was_scheduled last ≡ true) ⊎ (any (is_due limit) cs ≡ false)))
    ⊎ ((is_due limit c ≡ true)
        × All (λ y. by_slot c y ≡ true) (keep (is_due limit) cs)
        × ((last_was_scheduled last ≡ false) ⊎ (any is_instant cs ≡ false)))

-- A promoted job may run now, none of its group that may run now comes before it (by slot for the
-- scheduled group, by payment time for walk-ins), and it is from the group promoted last (walk-ins,
-- where none was) only where nobody of the other group may run.
pub pick_next_job-Serves :
    (cs : List QueueCandidate) (last : Option JobMode) (now lead_ms : ℕ) (c : QueueCandidate)
    → pick_next_job cs last now lead_ms ≡ some c
    → Serves cs last (now + lead_ms) c
unfolding pick_next_job due_scheduled instants Serves
pick_next_job-Serves cs last now lead_ms c h =
    elim (choose-some (last_was_scheduled last) _ _ c h) [
      | inl (first, turn) ↦
          let (mine, least) =
            first_of_group by_queued_at total_queued trans_queued is_instant cs c first in
          inl (mine, least, other turn)
      | inr (first, turn) ↦
          let (mine, least) =
            first_of_group by_slot total_slot trans_slot (is_due (now + lead_ms)) cs c first in
          inr (mine, least, walk_ins turn)
    ]
  where
    total_queued : (a b : QueueCandidate) → by_queued_at a b ≡ false → by_queued_at b a ≡ true
    total_queued a b k = ground arith

    trans_queued :
        (a b d : QueueCandidate)
        → by_queued_at a b ≡ true
        → by_queued_at b d ≡ true
        → by_queued_at a d ≡ true
    trans_queued a b d k l = ground arith

    total_slot : (a b : QueueCandidate) → by_slot a b ≡ false → by_slot b a ≡ true
    total_slot a b k = ground arith

    trans_slot :
        (a b d : QueueCandidate) → by_slot a b ≡ true → by_slot b d ≡ true → by_slot a d ≡ true
    trans_slot a b d k l = ground arith

    other :
        ((last_was_scheduled last ≡ true) ⊎ (due_scheduled cs now lead_ms ≡ []))
        → (last_was_scheduled last ≡ true) ⊎ (any (is_due (now + lead_ms)) cs ≡ false)
    other (inl e) = inl e
    other (inr e) = inr (empty_group by_slot _ cs e)

    walk_ins :
        ((last_was_scheduled last ≡ false) ⊎ (instants cs ≡ []))
        → (last_was_scheduled last ≡ false) ⊎ (any is_instant cs ≡ false)
    walk_ins (inl e) = inl e
    walk_ins (inr e) = inr (empty_group by_queued_at _ cs e)

any-keep-false : {A : Type 0} (p : A → Bool) (xs : List A) → any p xs ≡ false → keep p xs ≡ []
any-keep-false p [] h = refl
any-keep-false p (x ∷ xs) h = ground (arith, any-keep-false p xs)

any-or :
    {A : Type 0} (p q : A → Bool) (xs : List A) → any (λ x. p x || q x) xs ≡ (any p xs || any q xs)
any-or p q [] = refl
any-or p q (x ∷ xs) = ground (arith, any-or p q xs)

-- Nobody is promoted exactly when nobody may run now: no walk-in waits and no scheduled job is
-- within the lead of its slot.
pub pick_next_job-none :
    (cs : List QueueCandidate) (last : Option JobMode) (now lead_ms : ℕ)
    → (pick_next_job cs last now lead_ms ≡ none) ↔ (any (may_run (now + lead_ms)) cs ≡ false)
unfolding pick_next_job due_scheduled instants may_run choose sort
pick_next_job-none cs last now lead_ms = (forth, back)
  where
    forth : pick_next_job cs last now lead_ms ≡ none → any (may_run (now + lead_ms)) cs ≡ false
    forth h =
        let (due, inst) =
          choose-none (last_was_scheduled last) (due_scheduled cs now lead_ms) (instants cs) h in
        any-or is_instant (is_due (now + lead_ms)) cs
        ∙ ap₂ ◌||◌ (empty_group by_queued_at is_instant cs inst)
            (empty_group by_slot (is_due (now + lead_ms)) cs due)

    back : any (may_run (now + lead_ms)) cs ≡ false → pick_next_job cs last now lead_ms ≡ none
    back h =
        let due : any (is_due (now + lead_ms)) cs ≡ false =
          ground (arith, any-or is_instant (is_due (now + lead_ms)) cs) in
        let inst : any is_instant cs ≡ false =
          ground (arith, any-or is_instant (is_due (now + lead_ms)) cs) in
        rw (any-keep-false _ cs due, any-keep-false _ cs inst)
