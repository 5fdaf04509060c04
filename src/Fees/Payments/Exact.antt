-- ===== src/Fees/Payments/Exact.antt =====
-- apps/api/src/modules/fees/payments.ts: a settlement loses no paise, creates none, and never puts more
-- on a statement than it owes.
use Prim.Native.Nat.{min}
use print_q.Base.{
  ◌≡◌, refl, ap, ℕ, ◌+◌, ◌-◌, ◌≤◌, ◌==◌, List, [], ◌∷◌, ◌++◌, keep, find, sum_by, All, All-keep,
  Bool-cases, Option-cases, inl, inr, arith,
}
use print_q.Base.Sorting.{sort-All}
use print_q.Base.Updates.{find-All}
use print_q.Fees.{
  Statement, settled, Allocation, outstanding, is_unpaid, unpaid_statements, write_row, write_rows,
  older,
}
use print_q.Fees.Payments.{pay_row, pay_down}

abbrev pub allocated : List Allocation → ℕ
allocated xs = sum_by (λ a. a.amount_paise) xs

pub pay_down-remaining :
    (id now r : ℕ) (ss : List Statement)
    → (pay_down id now r ss).remaining ≡ r - sum_by outstanding ss
unfolding pay_down
pay_down-remaining id now r [] = omega arith
pay_down-remaining id now r (s ∷ ss) =
    ground (arith, pay_down-remaining id now (r - min (outstanding s) r) ss)

pub pay_down-allocated :
    (id now r : ℕ) (ss : List Statement)
    → let d = pay_down id now r ss in allocated d.allocations + d.remaining ≡ r
unfolding pay_down
pay_down-allocated id now r [] = omega arith
pay_down-allocated id now r (s ∷ ss) =
    ground (arith, pay_down-allocated id now (r - min (outstanding s) r) ss)

pay_down-broke : (id now : ℕ) (ss : List Statement) → (pay_down id now 0 ss).allocations ≡ []
unfolding pay_down
pay_down-broke id now [] = refl
pay_down-broke id now (s ∷ ss) = refl

-- What is left after the first statement, in the two ways that the next lemma needs.
rest_amount : (o r k : ℕ) → r - (o + k) ≡ r - min o r - k
rest_amount o r k = ground arith

-- The oldest statements are paid first: of an amount paid on a list of statements, those of a later
-- part get what they would get from the amount less all that the earlier part owes.
pub pay_down-oldest :
    (id now r : ℕ) (ss ts : List Statement)
    → (pay_down id now r (ss ++ ts)).allocations
      ≡ (pay_down id now r ss).allocations
        ++ (pay_down id now (r - sum_by outstanding ss) ts).allocations
unfolding pay_down
pay_down-oldest id now r [] ts = ap (λ k. (pay_down id now k ts).allocations) (same r)
  where
    same : (n : ℕ) → n ≡ n - 0
    same n = omega arith
pay_down-oldest id now r (s ∷ ss) ts = elim (Bool-cases (r == 0)) [
  | inl e ↦
      let zero_left : r - sum_by outstanding (s ∷ ss) ≡ 0 = ground arith in
      rw (e, zero_left, pay_down-broke id now ts)
  | inr e ↦ elim (Bool-cases (outstanding s == 0)) [
    | inl f ↦
        rw (e, f, rest_amount (outstanding s) r (sum_by outstanding ss))
          (pay_down-oldest id now (r - min (outstanding s) r) ss ts)
    | inr f ↦ rw (
      e,
      f,
      rest_amount (outstanding s) r (sum_by outstanding ss),
      pay_down-oldest id now (r - min (outstanding s) r) ss ts,
    )
  ]
]

-- A statement owes at least what was paid on it, and exactly that if it is settled.
unfoldable pub IsSound : Statement → Type 0
IsSound s =
    (s.paid_paise ≤ s.amount_due_paise) × (s.status ≡ settled → s.amount_due_paise ≤ s.paid_paise)

pay_row-IsSound :
    (now amount : ℕ) (s : Statement)
    → IsSound s
    → amount ≤ outstanding s
    → IsSound (pay_row now amount s)
unfolding IsSound pay_row
pay_row-IsSound now amount s (h, k) le = elim (Bool-cases (amount == outstanding s)) [
  | inl e ↦
      let all_of_it : amount ≡ outstanding s = ground arith in rw e (omega arith, λ st. omega arith)
  | inr e ↦ rw e (omega arith, λ st. omega (arith, k st))
]

pub pay_down-IsSound :
    (id now r : ℕ) (ss : List Statement) → All IsSound ss → All IsSound (pay_down id now r ss).rows
unfolding pay_down
pay_down-IsSound id now r [] h = tt
pay_down-IsSound id now r (s ∷ ss) (h, hs) =
    let tail = pay_down-IsSound id now (r - min (outstanding s) r) ss hs in
    elim (Bool-cases (r == 0)) [
      | inl e ↦ rw e tt
      | inr e ↦ elim (Bool-cases (outstanding s == 0)) [
        | inl f ↦ rw (e, f) tail
        | inr f ↦ rw (e, f) (pay_row-IsSound now (min (outstanding s) r) s h (omega arith), tail)
      ]
    ]

write_row-All :
    (P : Statement → Type 0) (rows : List Statement) (s : Statement)
    → All P rows
    → P s
    → P (write_row rows s)
write_row-All P rows s h k = elim (Option-cases (find (λ r. r.id == s.id) rows)) [
  | inl e ↦ rw e k
  | inr (a, e) ↦ rw e (find-All P (λ r. r.id == s.id) rows a h e)
]

pub write_rows-All :
    (P : Statement → Type 0) (rows ss : List Statement)
    → All P rows
    → All P ss
    → All P (write_rows rows ss)
unfolding write_rows
write_rows-All P rows [] h k = tt
write_rows-All P rows (s ∷ ss) h (k, ks) =
    (write_row-All P rows s h k, write_rows-All P rows ss h ks)

pub unpaid_statements-All :
    (P : Statement → Type 0) (ss : List Statement) → All P ss → All P (unpaid_statements ss)
unfolding unpaid_statements
unpaid_statements-All P ss h = sort-All older P (keep is_unpaid ss) (All-keep P is_unpaid ss h)
