-- ===== src/Fees/Payments/Cover.antt =====
-- apps/api/src/modules/fees/payments.ts: an amount that covers what is owed leaves nothing owed.
use Prim.Native.Nat.{min}
use print_q.Base.{
  ◌≡◌, ◌≤◌, refl, sym, ◌∙◌, subst, ℕ, zero, suc, ◌-◌, ◌==◌, Bool, true, false, ◌||◌, none, some,
  List, [], ◌∷◌, find, any, keep, take, sum_by, sum_by_zero, All, Bool-cases, Option-cases, inl,
  inr, arith, if◌then◌else◌,
}
use print_q.Base.Sorting.{sum_by-sort, sort-All, sort-All_inv}
use print_q.Fees.{
  Statement, outstanding, older, is_unpaid, unpaid_statements, write_row, write_rows,
}
use print_q.Fees.Account.{settled_statements, is_settled}
use print_q.Fees.Payments.{pay_down, pay_row}
use print_q.Base.Updates.{find-All}
use print_q.Fees.Payments.Exact.{IsSound}

module _ {A : Type 0} (P : A → Type 0) (p : A → Bool) where
  keep-All_inv : (xs : List A) → All P (keep p xs) → All (λ x. p x ≡ true → P x) xs
  keep-All_inv [] h = tt
  keep-All_inv (x ∷ xs) h = elim (Bool-cases (p x)) [
    | inl e ↦ let (q, qs) : P x × All P (keep p xs) = rw e at h in (λ _. q, keep-All_inv xs qs)
    | inr e ↦
        let qs : All P (keep p xs) = rw e at h in (λ t. absurd (apart e t), keep-All_inv xs qs)
  ]
    where
      apart : {b : Bool} → b ≡ false → b ≡ true → ⊥
      apart f t = cc

  keep-All_if : (xs : List A) → All (λ x. p x ≡ true → P x) xs → All P (keep p xs)
  keep-All_if [] h = tt
  keep-All_if (x ∷ xs) (h, hs) = elim (Bool-cases (p x)) [
    | inl e ↦ rw e (h e, keep-All_if xs hs)
    | inr e ↦ rw e (keep-All_if xs hs)
  ]

take-All : {A : Type 0} (P : A → Type 0) (n : ℕ) (xs : List A) → All P xs → All P (take n xs)
take-All P zero xs h = tt
take-All P (suc n) [] h = tt
take-All P (suc n) (x ∷ xs) (h, hs) = (h, take-All P n xs hs)

abbrev Clear : Statement → Type 0
Clear s = outstanding s ≡ 0

-- A payment that is large enough pays every statement in full.
pay_row-Clear : (now : ℕ) (s : Statement) → Clear (pay_row now (outstanding s) s)
unfolding pay_row
pay_row-Clear now s = elim (Bool-cases (outstanding s == outstanding s)) [
  | inl e ↦ rw e (omega arith)
  | inr e ↦ rw e (omega arith)
]

enough : (o r : ℕ) → o ≤ r → min o r ≡ o
enough o r h = omega arith

pay_down-Clear :
    (id now r : ℕ) (ss : List Statement)
    → sum_by outstanding ss ≤ r
    → All Clear (pay_down id now r ss).rows
unfolding pay_down
pay_down-Clear id now r [] h = tt
pay_down-Clear id now r (s ∷ ss) h =
    let full = enough (outstanding s) r (omega arith) in
    let tail = pay_down-Clear id now (r - min (outstanding s) r) ss (omega arith) in
    elim (Bool-cases (r == 0)) [
      | inl e ↦ rw e tt
      | inr e ↦ elim (Bool-cases (outstanding s == 0)) [
        | inl f ↦ rw (e, f) tail
        | inr f ↦ rw (e, f) (rw full (pay_row-Clear now s), tail)
      ]
    ]

-- Nothing is owed on `s`, or its row is among the updated ones.
abbrev covered : List Statement → Statement → Bool
covered rows s = (outstanding s == 0) || any (λ r. r.id == s.id) rows

covered-cons :
    (row : Statement) (rows ss : List Statement)
    → All (λ s. covered rows s ≡ true) ss
    → All (λ s. covered (row ∷ rows) s ≡ true) ss
covered-cons row rows [] h = tt
covered-cons row rows (s ∷ ss) (h, hs) = (ground arith, covered-cons row rows ss hs)

pay_row-id : (now a : ℕ) (s : Statement) → (pay_row now a s).id ≡ s.id
unfolding pay_row
pay_row-id now a s = ground arith

nothing-covered :
    (rows ss : List Statement) → sum_by outstanding ss ≤ 0 → All (λ s. covered rows s ≡ true) ss
nothing-covered rows [] h = tt
nothing-covered rows (s ∷ ss) h =
    let none_here : outstanding s ≡ 0 = omega arith in
    (rw none_here refl, nothing-covered rows ss (omega arith))

pay_down-rows :
    (id now r : ℕ) (s : Statement) (ss : List Statement)
    → (r == 0) ≡ false
    → let rest = (pay_down id now (r - min (outstanding s) r) ss).rows in
      (pay_down id now r (s ∷ ss)).rows
      ≡ (if outstanding s == 0 then rest else pay_row now (min (outstanding s) r) s ∷ rest)
unfolding pay_down
pay_down-rows id now r s ss e = elim (Bool-cases (outstanding s == 0)) [
  | inl f ↦ rw (e, f) refl
  | inr f ↦ rw (e, f) refl
]

pay_down-covered :
    (id now r : ℕ) (ss : List Statement)
    → sum_by outstanding ss ≤ r
    → All (λ s. covered (pay_down id now r ss).rows s ≡ true) ss
pay_down-covered id now r [] h = tt
pay_down-covered id now r (s ∷ ss) h =
    let rest = pay_down id now (r - min (outstanding s) r) ss in
    let tail = pay_down-covered id now (r - min (outstanding s) r) ss (omega arith) in
    let row = pay_row now (min (outstanding s) r) s in
    elim (Bool-cases (r == 0)) [
      | inl e ↦ nothing-covered (pay_down id now r (s ∷ ss)).rows (s ∷ ss) (ground arith)
      | inr e ↦
          subst (λ rows. All (λ t. covered rows t ≡ true) (s ∷ ss))
            (sym (pay_down-rows id now r s ss e))
            (elim (Bool-cases (outstanding s == 0)) [
              | inl f ↦
                  subst
                    (λ b.
                      All (λ t. covered (if b then rest.rows else row ∷ rest.rows) t ≡ true)
                        (s ∷ ss))
                    (sym f) (rw f refl, tail)
              | inr f ↦
                  subst
                    (λ b.
                      All (λ t. covered (if b then rest.rows else row ∷ rest.rows) t ≡ true)
                        (s ∷ ss))
                    (sym f)
                    (
                      same_row row (pay_row-id now (min (outstanding s) r) s) rest.rows,
                      covered-cons row rest.rows ss tail,
                    )
            ])
    ]
  where
    same_row :
        (row : Statement) → row.id ≡ s.id → (rows : List Statement) → covered (row ∷ rows) s ≡ true
    same_row row e rows = ground arith

find-none : (t : Statement → Bool) (rows : List Statement) → find t rows ≡ none → any t rows ≡ false
find-none t [] h = refl
find-none t (r ∷ rows) h = elim (Bool-cases (t r)) [
  | inl e ↦ absurd (apart (rw e at h))
  | inr e ↦ rw e (find-none t rows (rw e at h))
]
  where
    apart : {a : Statement} → some a ≡ none → ⊥
    apart k = cc

write_row-Clear :
    (rows : List Statement) (s : Statement)
    → All Clear rows
    → (is_unpaid s ≡ true → covered rows s ≡ true)
    → is_unpaid (write_row rows s) ≡ true
    → Clear (write_row rows s)
write_row-Clear rows s clear cov unpaid = elim (Option-cases (find (λ r. r.id == s.id) rows)) [
  | inr (r, e) ↦ rw e (find-All Clear (λ r. r.id == s.id) rows r clear e)
  | inl e ↦ rw e (
      let still = cov (rw e at unpaid) in
      let missed = find-none (λ r. r.id == s.id) rows e in owes still missed)
]
  where
    owes : covered rows s ≡ true → any (λ r. r.id == s.id) rows ≡ false → Clear s
    owes h k = ground arith

write_rows-Clear :
    (rows ss : List Statement)
    → All Clear rows
    → All (λ s. is_unpaid s ≡ true → covered rows s ≡ true) ss
    → All (λ s. is_unpaid s ≡ true → Clear s) (write_rows rows ss)
unfolding write_rows
write_rows-Clear rows [] clear h = tt
write_rows-Clear rows (s ∷ ss) clear (h, hs) =
    (write_row-Clear rows s clear h, write_rows-Clear rows ss clear hs)

pub unpaid_clear :
    (id now amount : ℕ) (ss : List Statement)
    → sum_by outstanding (unpaid_statements ss) ≤ amount
    → let rows = (pay_down id now amount (unpaid_statements ss)).rows in
      sum_by outstanding (unpaid_statements (write_rows rows ss)) ≡ 0
unfolding unpaid_statements
unpaid_clear id now amount ss h =
    let rows = (pay_down id now amount (unpaid_statements ss)).rows in
    let cov =
      sort-All_inv older (λ s. covered rows s ≡ true) (keep is_unpaid ss)
        (pay_down-covered id now amount (unpaid_statements ss) h) in
    let clear =
      write_rows-Clear rows ss (pay_down-Clear id now amount (unpaid_statements ss) h)
        (keep-All_inv (λ s. covered rows s ≡ true) is_unpaid ss cov) in
    sum_by-sort older outstanding (keep is_unpaid (write_rows rows ss))
    ∙ sum_by_zero outstanding (keep is_unpaid (write_rows rows ss))
        (keep-All_if Clear is_unpaid (write_rows rows ss) clear)

settled-Clear : (s : Statement) → IsSound s → is_settled s ≡ true → Clear s
unfolding IsSound is_settled
settled-Clear s (h, k) e = ground arith

All-settled-Clear :
    (ss : List Statement) → All IsSound ss → All (λ s. is_settled s ≡ true → Clear s) ss
All-settled-Clear [] h = tt
All-settled-Clear (s ∷ ss) (h, hs) = (settled-Clear s h, All-settled-Clear ss hs)

-- Settled statements owe nothing.
pub settled_clear :
    (ss : List Statement) → All IsSound ss → sum_by outstanding (settled_statements ss) ≡ 0
unfolding settled_statements
settled_clear ss h = sum_by_zero outstanding (settled_statements ss) (
    take-All Clear 12 _ (
      sort-All _ Clear (keep is_settled ss)
        (keep-All_if Clear is_settled ss (All-settled-Clear ss h))))
