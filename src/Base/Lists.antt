-- ===== src/Base/Lists.antt =====
-- Lists measured by native numbers, the list methods of JavaScript that the code calls, and their laws.
use Prim.Native.Nat.{ℕ, zero, suc, ◌+◌, ◌≤◌}
use mathlib.Core.Path.{◌≡◌, refl}
use mathlib.Core.Logic.{inl, inr}
use mathlib.Core.Bool.{Bool, true, false, ◌||◌}
use mathlib.Core.Option.{Option, none, some}
use mathlib.Core.List.{List, [], ◌∷◌, ◌++◌, map}
use native.Mathlib.Omega.{arith}
use print_q.Base.Tests.{◌==◌, if◌then◌else◌, Bool-cases}

module _ {ℓ} {A : Type ℓ} where
  abbrev pub length : List A → ℕ
  length [] = 0
  length (x ∷ xs) = suc (length xs)

  abbrev pub get_elem? : List A → ℕ → Option A
  get_elem? [] i = none
  get_elem? (x ∷ xs) zero = some x
  get_elem? (x ∷ xs) (suc i) = get_elem? xs i

  abbrev pub head? : List A → Option A
  head? [] = none
  head? (x ∷ xs) = some x

  -- `xs.filter(p)`, `xs.some(p)` and `xs.find(p)`.
  abbrev pub keep : (A → Bool) → List A → List A
  keep p [] = []
  keep p (x ∷ xs) = let rest = keep p xs in if p x then x ∷ rest else rest

  abbrev pub any : (A → Bool) → List A → Bool
  any p [] = false
  any p (x ∷ xs) = p x || any p xs

  abbrev pub find : (A → Bool) → List A → Option A
  find p [] = none
  find p (x ∷ xs) = let rest = find p xs in if p x then some x else rest

  -- How many elements pass the test.
  abbrev pub tally : (A → Bool) → List A → ℕ
  tally p [] = 0
  tally p (x ∷ xs) = let rest = tally p xs in if p x then suc rest else rest

  -- `xs.reduce((sum, x) => sum + f(x), 0)`.
  abbrev pub sum_by : (A → ℕ) → List A → ℕ
  sum_by f [] = 0
  sum_by f (x ∷ xs) = f x + sum_by f xs

  -- `xs.slice(0, n)`, also the `take: n` of a query.
  abbrev pub take : ℕ → List A → List A
  take zero xs = []
  take (suc n) [] = []
  take (suc n) (x ∷ xs) = x ∷ take n xs

  abbrev pub All {κ} : (A → Type κ) → List A → Type κ
  All P [] = Unit
  All P (x ∷ xs) = P x × All P xs

-- `xs.includes(a)` on ids.
abbrev pub includes : ℕ → List ℕ → Bool
includes a [] = false
includes a (x ∷ xs) = a == x || includes a xs

-- No id occurs twice.
abbrev pub Distinct : List ℕ → Type 0
Distinct [] = Unit
Distinct (x ∷ xs) = (includes x xs ≡ false) × Distinct xs

module _ {ℓ} {A : Type ℓ} where
  pub length-append : (xs ys : List A) → length (xs ++ ys) ≡ length xs + length ys
  length-append [] ys = omega arith
  length-append (x ∷ xs) ys = omega (arith, length-append xs ys)

  pub length-keep : (p : A → Bool) (xs : List A) → length (keep p xs) ≡ tally p xs
  length-keep p [] = refl
  length-keep p (x ∷ xs) = ground (arith, length-keep p xs)

  pub tally-le-length : (p : A → Bool) (xs : List A) → tally p xs ≤ length xs
  tally-le-length p [] = omega arith
  tally-le-length p (x ∷ xs) = ground (arith, tally-le-length p xs)

  pub All-keep {κ} : (P : A → Type κ) (p : A → Bool) (xs : List A) → All P xs → All P (keep p xs)
  All-keep P p [] h = tt
  All-keep P p (x ∷ xs) (h, hs) = elim (Bool-cases (p x)) [
    | inl e ↦ rw e (h, All-keep P p xs hs)
    | inr e ↦ rw e (All-keep P p xs hs)
  ]

  -- What the filter keeps passes its test.
  pub keep-All : (p : A → Bool) (xs : List A) → All (λ x. p x ≡ true) (keep p xs)
  keep-All p [] = tt
  keep-All p (x ∷ xs) = elim (Bool-cases (p x)) [
    | inl e ↦ rw e (e, keep-All p xs)
    | inr e ↦ rw e (keep-All p xs)
  ]

  pub find_sound : (p : A → Bool) (xs : List A) (a : A) → find p xs ≡ some a → p a ≡ true
  find_sound p [] a h = cc
  find_sound p (x ∷ xs) a h = ground (arith, find_sound p xs a)

  -- A map that does not change the test commutes with the filter.
  pub keep-map :
      (p : A → Bool) (f : A → A) (h : (a : A) → p (f a) ≡ p a) (xs : List A)
      → keep p (map f xs) ≡ map f (keep p xs)
  keep-map p f h [] = refl
  keep-map p f h (x ∷ xs) = ground (arith, h x, keep-map p f h xs)

module _ {ℓ} {A : Type ℓ} (id : A → ℕ) where
  includes-keep :
      (k : ℕ) (p : A → Bool) (xs : List A)
      → includes k (map id xs) ≡ false
      → includes k (map id (keep p xs)) ≡ false
  includes-keep k p [] h = refl
  includes-keep k p (x ∷ xs) h = ground (arith, includes-keep k p xs)

  pub keep-Distinct :
      (p : A → Bool) (xs : List A) → Distinct (map id xs) → Distinct (map id (keep p xs))
  keep-Distinct p [] d = tt
  keep-Distinct p (x ∷ xs) (h, d) = ground (arith, includes-keep (id x) p xs, keep-Distinct p xs d)

module _ {ℓ} {A : Type ℓ} (f : A → ℕ) where
  pub sum_by-append : (xs ys : List A) → sum_by f (xs ++ ys) ≡ sum_by f xs + sum_by f ys
  sum_by-append [] ys = omega arith
  sum_by-append (x ∷ xs) ys = omega (arith, sum_by-append xs ys)

  pub sum_by_zero : (xs : List A) → All (λ x. f x ≡ 0) xs → sum_by f xs ≡ 0
  sum_by_zero [] h = refl
  sum_by_zero (x ∷ xs) (h, hs) = omega (arith, sum_by_zero xs hs)
