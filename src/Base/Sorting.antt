-- ===== src/Base/Sorting.antt =====
-- `Array.prototype.sort`, which is stable: a stable insertion sort under a comparison that answers
-- whether its first argument may stand before its second (`compare(a, b) <= 0`).
use Prim.Native.Nat.{ℕ, ◌+◌}
use mathlib.Core.Path.{◌≡◌, refl, ◌∙◌, subst}
use mathlib.Core.Option.{none, some}
use mathlib.Core.Logic.{inl, inr}
use mathlib.Core.Bool.{Bool, true, false, ◌||◌}
use mathlib.Core.List.{List, [], ◌∷◌, ◌++◌, map, Perm}
use mathlib.Core.List.Perm
use native.Mathlib.Omega.{arith}
use print_q.Base.Tests.{if◌then◌else◌, ◌==◌, Bool-cases}
use print_q.Base.Lists.{All, any, sum_by, head?, includes, Distinct}

module _ {ℓ} {A : Type ℓ} (le : A → A → Bool) where
  pub insert_sorted : A → List A → List A
  insert_sorted a [] = a ∷ []
  insert_sorted a (x ∷ xs) =
      let rest = insert_sorted a xs in if le a x then a ∷ x ∷ xs else x ∷ rest

  unfoldable pub sort : List A → List A
  unfolding insert_sorted
  sort [] = []
  sort (x ∷ xs) = insert_sorted x (sort xs)

  -- Every element may stand before all that follow it.
  abbrev pub IsSorted : List A → Type 0
  IsSorted [] = Unit {0}
  IsSorted (x ∷ xs) = All (λ y. le x y ≡ true) xs × IsSorted xs

  insert_sorted-perm : (a : A) (xs : List A) → Perm (insert_sorted a xs) (a ∷ xs)
  unfolding insert_sorted
  insert_sorted-perm a [] = Perm.refl _
  insert_sorted-perm a (x ∷ xs) = elim (Bool-cases (le a x)) [
    | inl e ↦ rw e (Perm.refl _)
    | inr e ↦ rw e (Perm.trans (Perm.cons x (insert_sorted-perm a xs)) (Perm.swap a x xs))
  ]

  pub sort-perm : (xs : List A) → Perm (sort xs) xs
  unfolding sort
  sort-perm [] = Perm.refl _
  sort-perm (x ∷ xs) = Perm.trans (insert_sorted-perm x (sort xs)) (Perm.cons x (sort-perm xs))

  insert_sorted-All :
      (P : A → Type 0) (a : A) (xs : List A) → P a → All P xs → All P (insert_sorted a xs)
  unfolding insert_sorted
  insert_sorted-All P a [] p ps = (p, tt)
  insert_sorted-All P a (x ∷ xs) p (q, qs) = elim (Bool-cases (le a x)) [
    | inl e ↦ rw e (p, (q, qs))
    | inr e ↦ rw e (q, insert_sorted-All P a xs p qs)
  ]

  pub sort-All : (P : A → Type 0) (xs : List A) → All P xs → All P (sort xs)
  unfolding sort
  sort-All P [] ps = tt
  sort-All P (x ∷ xs) (p, ps) = insert_sorted-All P x (sort xs) p (sort-All P xs ps)

  insert_sorted-All_inv :
      (P : A → Type 0) (a : A) (xs : List A) → All P (insert_sorted a xs) → P a × All P xs
  unfolding insert_sorted
  insert_sorted-All_inv P a [] ps = ps
  insert_sorted-All_inv P a (x ∷ xs) ps = elim (Bool-cases (le a x)) [
    | inl e ↦ rw e at ps
    | inr e ↦
        let split : P x × All P (insert_sorted a xs) = rw e at ps in
        let (p, qs) = insert_sorted-All_inv P a xs split.1 in (p, (split.0, qs))
  ]

  pub sort-All_inv : (P : A → Type 0) (xs : List A) → All P (sort xs) → All P xs
  unfolding sort
  sort-All_inv P [] ps = tt
  sort-All_inv P (x ∷ xs) ps =
      let (p, qs) = insert_sorted-All_inv P x (sort xs) ps in (p, sort-All_inv P xs qs)

  insert_sorted-sum_by :
      (f : A → ℕ) (a : A) (xs : List A) → sum_by f (insert_sorted a xs) ≡ f a + sum_by f xs
  unfolding insert_sorted
  insert_sorted-sum_by f a [] = refl
  insert_sorted-sum_by f a (x ∷ xs) = ground (arith, insert_sorted-sum_by f a xs)

  -- A sum does not depend on the order.
  pub sum_by-sort : (f : A → ℕ) (xs : List A) → sum_by f (sort xs) ≡ sum_by f xs
  unfolding sort
  sum_by-sort f [] = refl
  sum_by-sort f (x ∷ xs) = omega (arith, insert_sorted-sum_by f x (sort xs), sum_by-sort f xs)

  insert_sorted-any :
      (p : A → Bool) (a : A) (xs : List A) → any p (insert_sorted a xs) ≡ (p a || any p xs)
  unfolding insert_sorted
  insert_sorted-any p a [] = refl
  insert_sorted-any p a (x ∷ xs) = ground (arith, insert_sorted-any p a xs)

  pub any-sort : (p : A → Bool) (xs : List A) → any p (sort xs) ≡ any p xs
  unfolding sort
  any-sort p [] = refl
  any-sort p (x ∷ xs) = rw (insert_sorted-any p x (sort xs), any-sort p xs) refl

  -- An element that all others may stand before, and that may stand before none, ends up last.
  insert_sorted_last :
      (a : A) (xs : List A)
      → All (λ x. (le x a ≡ true) × (le a x ≡ false)) xs
      → insert_sorted a xs ≡ xs ++ a ∷ []
  unfolding insert_sorted
  insert_sorted_last a [] h = refl
  insert_sorted_last a (x ∷ xs) ((_, h), hs) = rw (h, insert_sorted_last a xs hs)

  insert_sorted-last :
      (b a : A) (xs : List A)
      → le b a ≡ true
      → insert_sorted b (xs ++ a ∷ []) ≡ insert_sorted b xs ++ a ∷ []
  unfolding insert_sorted
  insert_sorted-last b a [] h = rw h
  insert_sorted-last b a (x ∷ xs) h = elim (Bool-cases (le b x)) [
    | inl e ↦ rw e
    | inr e ↦ rw (e, insert_sorted-last b a xs h)
  ]

  pub sort_last :
      (a : A) (xs ys : List A)
      → All (λ x. (le x a ≡ true) × (le a x ≡ false)) (xs ++ ys)
      → sort (xs ++ a ∷ ys) ≡ sort (xs ++ ys) ++ a ∷ []
  unfolding sort
  sort_last a [] ys h = insert_sorted_last a (sort ys) (sort-All _ ys h)
  sort_last a (x ∷ xs) ys ((h, _), hs) =
      rw (sort_last a xs ys hs) (insert_sorted-last x a (sort (xs ++ ys)) h)

  insert_sorted-ne-nil : (a : A) (xs : List A) → head? (insert_sorted a xs) ≡ none → ⊥
  unfolding insert_sorted
  insert_sorted-ne-nil a [] h = cc
  insert_sorted-ne-nil a (x ∷ xs) h = ground arith

  pub sort-nil : (xs : List A) → head? (sort xs) ≡ none → xs ≡ []
  unfolding sort
  sort-nil [] h = refl
  sort-nil (x ∷ xs) h = absurd (insert_sorted-ne-nil x (sort xs) h)

  All-trans :
      ((a b c : A) → le a b ≡ true → le b c ≡ true → le a c ≡ true)
      → (a x : A) (xs : List A) → le a x ≡ true
      → All (λ y. le x y ≡ true) xs
      → All (λ y. le a y ≡ true) xs
  All-trans tr a x [] h hs = tt
  All-trans tr a x (y ∷ ys) h (k, ks) = (tr a x y h k, All-trans tr a x ys h ks)

  module _ (total : (a b : A) → le a b ≡ false → le b a ≡ true)
      (le_trans : (a b c : A) → le a b ≡ true → le b c ≡ true → le a c ≡ true) where
    insert_sorted-IsSorted : (a : A) (xs : List A) → IsSorted xs → IsSorted (insert_sorted a xs)
    unfolding insert_sorted
    insert_sorted-IsSorted a [] s = (tt, tt)
    insert_sorted-IsSorted a (x ∷ xs) (h, s) = elim (Bool-cases (le a x)) [
      | inl e ↦ rw e ((e, All-trans le_trans a x xs e h), (h, s))
      | inr e ↦ rw e (
        insert_sorted-All (λ y. le x y ≡ true) a xs (total a x e) h,
        insert_sorted-IsSorted a xs s,
      )
    ]

    pub sort-IsSorted : (xs : List A) → IsSorted (sort xs)
    unfolding sort
    sort-IsSorted [] = tt
    sort-IsSorted (x ∷ xs) = insert_sorted-IsSorted x (sort xs) (sort-IsSorted xs)

    first-All :
        (xs : List A) (r : A) → IsSorted xs → head? xs ≡ some r → All (λ y. le r y ≡ true) xs
    first-All [] r s h = cc
    first-All (x ∷ xs) r (first, s) h =
        let same : x ≡ r = ground arith in
        subst (λ z. All (λ y. le z y ≡ true) (x ∷ xs)) same (self x, first)
      where
        self : (z : A) → le z z ≡ true
        self z = elim (Bool-cases (le z z)) [ inl e ↦ e | inr e ↦ total z z e ]

    -- The first element of the sorted list may stand before every element of the list.
    pub sort-head : (xs : List A) (r : A) → head? (sort xs) ≡ some r → All (λ y. le r y ≡ true) xs
    sort-head xs r h =
        sort-All_inv (λ y. le r y ≡ true) xs (first-All (sort xs) r (sort-IsSorted xs) h)

  module _ (f : A → A) (same : (a b : A) → le (f a) (f b) ≡ le a b) where
    insert_sorted-map :
        (a : A) (xs : List A) → insert_sorted (f a) (map f xs) ≡ map f (insert_sorted a xs)
    unfolding insert_sorted
    insert_sorted-map a [] = refl
    insert_sorted-map a (x ∷ xs) = elim (Bool-cases (le a x)) [
      | inl e ↦ rw (same a x, e)
      | inr e ↦ rw (same a x, e, insert_sorted-map a xs)
    ]

    -- A change of the elements that the comparison does not see commutes with the sort.
    pub sort-map : (xs : List A) → sort (map f xs) ≡ map f (sort xs)
    unfolding sort
    sort-map [] = refl
    sort-map (x ∷ xs) = rw (sort-map xs) (insert_sorted-map x (sort xs))

  module _ (id : A → ℕ) where
    includes-insert_sorted :
        (k : ℕ) (a : A) (xs : List A)
        → includes k (map id (insert_sorted a xs)) ≡ (k == id a || includes k (map id xs))
    unfolding insert_sorted
    includes-insert_sorted k a [] = refl
    includes-insert_sorted k a (x ∷ xs) = ground (arith, includes-insert_sorted k a xs)

    pub includes-sort :
        (k : ℕ) (xs : List A) → includes k (map id (sort xs)) ≡ includes k (map id xs)
    unfolding sort
    includes-sort k [] = refl
    includes-sort k (x ∷ xs) = rw (includes-insert_sorted k x (sort xs), includes-sort k xs)

    insert_sorted-Distinct :
        (a : A) (xs : List A)
        → includes (id a) (map id xs) ≡ false
        → Distinct (map id xs)
        → Distinct (map id (insert_sorted a xs))
    unfolding insert_sorted
    insert_sorted-Distinct a [] h d = (refl, tt)
    insert_sorted-Distinct a (x ∷ xs) h d =
        ground (arith, includes-insert_sorted (id x) a xs, insert_sorted-Distinct a xs)

    pub sort-Distinct : (xs : List A) → Distinct (map id xs) → Distinct (map id (sort xs))
    unfolding sort
    sort-Distinct [] d = tt
    sort-Distinct (x ∷ xs) (h, d) =
        insert_sorted-Distinct x (sort xs) (includes-sort (id x) xs ∙ h) (sort-Distinct xs d)
