-- ===== src/Base/Updates.antt =====
-- Updates of the rows of a table by their id, `update({ where: { id }, data })`.
use Prim.Native.Nat.{ℕ, ◌+◌}
use mathlib.Core.Path.{◌≡◌, refl, sym, subst}
use mathlib.Core.Option.{some}
use mathlib.Core.Logic.{inl, inr}
use mathlib.Core.Bool.{Bool, true, false}
use mathlib.Core.List.{List, [], ◌∷◌, map}
use native.Mathlib.Omega.{arith}
use print_q.Base.Tests.{if◌then◌else◌, ◌==◌, Bool-cases}
use print_q.Base.Lists.{sum_by, includes, Distinct, find, All}

pub same_id : (i : ℕ) → (i == i) ≡ true
same_id i = ground arith

pub find-All :
    {A : Type 0} (P : A → Type 0) (p : A → Bool) (xs : List A) (a : A)
    → All P xs
    → find p xs ≡ some a
    → P a
find-All P p [] a h e = cc
find-All P p (x ∷ xs) a (h, hs) e = elim (Bool-cases (p x)) [
  | inl f ↦ let same : x ≡ a = ground arith in subst P same h
  | inr f ↦ find-All P p xs a hs (ground arith)
]

pub not_same :
    (i j : ℕ) (ids : List ℕ) → includes i ids ≡ false → includes j ids ≡ true → (i == j) ≡ false
not_same i j ids h k = elim (Bool-cases (i == j)) [
  | inl e ↦
      let same : i ≡ j = ground arith in
      absurd (apart (subst (λ x. includes x ids ≡ false) same h) k)
  | inr e ↦ e
]
  where
    apart : {b : Bool} → b ≡ false → b ≡ true → ⊥
    apart p q = cc

module _ {A : Type 0} (id_of : A → ℕ) where
  abbrev pub update_where : ℕ → (A → A) → List A → List A
  update_where id g xs = map (λ x. if id_of x == id then g x else x) xs

  update_absent :
      (id : ℕ) (g : A → A) (xs : List A)
      → includes id (map id_of xs) ≡ false
      → update_where id g xs ≡ xs
  update_absent id g [] h = refl
  update_absent id g (x ∷ xs) h = ground (arith, update_absent id g xs)

  pub find-includes :
      (t : A → Bool) (xs : List A) (x : A)
      → find t xs ≡ some x
      → includes (id_of x) (map id_of xs) ≡ true
  find-includes t [] x h = cc
  find-includes t (y ∷ ys) x h = ground (arith, find-includes t ys x)

  -- The sum over the rows when one of them, found by any test, is updated by its id.
  pub sum_by-update :
      (f : A → ℕ) (g : A → A) (t : A → Bool) (xs : List A) (x : A)
      → Distinct (map id_of xs)
      → find t xs ≡ some x
      → sum_by f (update_where (id_of x) g xs) + f x ≡ sum_by f xs + f (g x)
  sum_by-update f g t [] x d h = cc
  sum_by-update f g t (y ∷ ys) x (d, ds) h = elim (Bool-cases (t y)) [
    | inl e ↦
        let same : y ≡ x = ground arith in
        let at_y : f (if id_of y == id_of y then g y else y)
              + sum_by f (update_where (id_of y) g ys)
              + f y
            ≡ f y + sum_by f ys + f (g y) =
          rw (same_id (id_of y), update_absent (id_of y) g ys d) (omega arith) in
        subst
          (λ r.
            f (if id_of y == id_of r then g y else y) + sum_by f (update_where (id_of r) g ys) + f r
            ≡ f y + sum_by f ys + f (g r))
          same at_y
    | inr e ↦
        let later : find t ys ≡ some x = ground arith in
        let there = find-includes t ys x later in
        let other : (id_of y == id_of x) ≡ false =
          not_same (id_of y) (id_of x) (map id_of ys) d there in
        rw other (omega (arith, sum_by-update f g t ys x ds later))
  ]

  pub update-ids :
      (id : ℕ) (g : A → A) (xs : List A)
      → ((x : A) → id_of (g x) ≡ id_of x)
      → map id_of (update_where id g xs) ≡ map id_of xs
  update-ids id g [] h = refl
  update-ids id g (x ∷ xs) h = elim (Bool-cases (id_of x == id)) [
    | inl e ↦ rw (e, h x, update-ids id g xs h)
    | inr e ↦ rw (e, update-ids id g xs h)
  ]

  -- What holds of every row, and is kept for the updated ones, holds after the update.
  pub update-All :
      (P : A → Type 0) (id : ℕ) (g : A → A) (xs : List A)
      → All P xs
      → ((x : A) → P x → P (g x))
      → All P (update_where id g xs)
  update-All P id g [] h k = tt
  update-All P id g (x ∷ xs) (h, hs) k = elim (Bool-cases (id_of x == id)) [
    | inl e ↦ rw e (k x h, update-All P id g xs hs k)
    | inr e ↦ rw e (h, update-All P id g xs hs k)
  ]

  -- The same where only the row of `x` is updated: the others keep what holds of them.
  pub update_at-All :
      (P Q : A → Type 0) (g : A → A) (xs : List A) (x : A)
      → Distinct (map id_of xs)
      → find (λ y. id_of y == id_of x) xs ≡ some x
      → All P xs
      → ((y : A) → (id_of y == id_of x) ≡ false → P y → Q y)
      → Q (g x)
      → All Q (update_where (id_of x) g xs)
  update_at-All P Q g [] x d f h k q = tt
  update_at-All P Q g (y ∷ ys) x (d, ds) f (h, hs) k q = elim (Bool-cases (id_of y == id_of x)) [
    | inl e ↦
        let same : y ≡ x = ground arith in
        let absent : includes (id_of x) (map id_of ys) ≡ false =
          subst (λ z. includes (id_of z) (map id_of ys) ≡ false) same d in
        rw e (subst (λ z. Q (g z)) (sym same) q, rest ys absent hs)
    | inr e ↦ rw e (k y e h, update_at-All P Q g ys x ds (ground arith) hs k q)
  ]
    where
      rest :
          (zs : List A)
          → includes (id_of x) (map id_of zs) ≡ false
          → All P zs
          → All Q (update_where (id_of x) g zs)
      rest [] a h = tt
      rest (z ∷ zs) a (h, hs) =
          let other : (id_of z == id_of x) ≡ false = ground arith in
          rw other (k z other h, rest zs (ground arith) hs)
