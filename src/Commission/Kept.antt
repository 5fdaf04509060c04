-- ===== src/Commission/Kept.antt =====
-- apps/api/src/modules/commission/statementService.ts: a freeze keeps the books, takes every entry once,
-- and is done once for a period.
use print_q.Base.{
  ◌≡◌, refl, ap, ℕ, ◌==◌, ◌≤◌, leb, ltb, Bool, true, false, ◌&&◌, not, Option, none, some, List, [],
  ◌∷◌, ◌++◌, map, find, keep, keep-All, All, includes, Distinct, keep-Distinct, Bool-cases, inl,
  inr, arith, if◌then◌else◌,
}
use print_q.Base.Sorting.{sort, sort-All, sort-Distinct}
use print_q.Fees.{Books, Entry, Statement, settled, frozen, StatementLine, FeeConfig}
use print_q.Fees.Account.{on_statement, is_billable}
use print_q.Fees.Prepaid.{apply_prepaid_to_statement, apply_prepaid_to_statement-Moved}
use print_q.Fees.Payments.Exact.{IsSound}
use print_q.Fees.Payments.Balance.{IsKept}
use print_q.Commission.{
  StatementAmounts, StatementPeriod, statement_of, entry_before, is_taken, entries_to_freeze,
  line_of, fresh_statement, with_prepaid, write_statement, freeze_weekly_commission_statement,
}
use print_q.Commission.Freeze.{Leaves, freeze-Leaves}

with_prepaid-IsSound :
    (cfg : FeeConfig) (now id prepaid : ℕ) (period : StatementPeriod) (a : StatementAmounts)
    → prepaid ≤ a.amount_due_paise
    → IsSound (with_prepaid now prepaid (fresh_statement cfg now id period a))
unfolding IsSound with_prepaid
with_prepaid-IsSound cfg now id prepaid period a h = elim (Bool-cases (prepaid == 0)) [
  | inl e ↦ rw e (omega arith, λ s. free a.amount_due_paise s)
  | inr e ↦ elim (Bool-cases (leb a.amount_due_paise prepaid)) [
    | inl f ↦ rw (e, f) (h, λ s. ground arith)
    | inr f ↦ rw (e, f) (h, λ s. ground arith)
  ]
]
  where
    free : (n : ℕ) → (if n == 0 then settled else frozen) ≡ settled → n ≤ 0
    free n s = ground arith

append-All :
    {A : Type 0} (P : A → Type 0) (xs : List A) (a : A) → All P xs → P a → All P (xs ++ a ∷ [])
append-All P [] a h k = (k, tt)
append-All P (x ∷ xs) a (h, hs) k = (h, append-All P xs a hs k)

write_statement-IsKept :
    (cfg : FeeConfig) (now id : ℕ) (period : StatementPeriod) (es : List Entry)
    (a : StatementAmounts) (b : Books)
    → IsKept b
    → IsKept (write_statement cfg now id period es a b).1
unfolding write_statement IsKept
write_statement-IsKept cfg now id period es a b (d, balanced, sound) =
    let (is, cols, lefts, applied) = apply_prepaid_to_statement-Moved id a.amount_due_paise b d in
    let prepaid = apply_prepaid_to_statement id a.amount_due_paise b in
    (
      rw is d,
      omega (arith, balanced, cols, lefts),
      append-All IsSound b.statements _ sound
          (with_prepaid-IsSound cfg now id prepaid.applied period a (omega (arith, applied))),
    )

-- Freezing a week keeps the books: the earlier overpayment that it uses moves to the statement.
pub freeze-IsKept :
    (cfg : FeeConfig) (now id : ℕ) (period : StatementPeriod) (b : Books)
    → IsKept b
    → Leaves (λ s c. IsKept c) (freeze_weekly_commission_statement cfg now id period b)
freeze-IsKept cfg now id period b k =
    freeze-Leaves (λ s c. IsKept c) cfg now id period b k (λ s e. k) (λ e a d u. written a)
  where
    written :
        (a : StatementAmounts)
        → IsKept (write_statement cfg now id period (entries_to_freeze period b) a b).1
    written a = write_statement-IsKept cfg now id period (entries_to_freeze period b) a b k

-- Lines of different entries.
abbrev pub IsBilledOnce : Books → Type 0
IsBilledOnce b = Distinct (map (λ l. l.entry_id) b.lines)

not_among :
    (x : ℕ) (xs ys : List ℕ)
    → All (λ y. includes y (x ∷ xs) ≡ false) ys
    → (includes x ys ≡ false) × All (λ y. includes y xs ≡ false) ys
not_among x xs [] h = (refl, tt)
not_among x xs (y ∷ ys) (h, hs) =
    let (absent, rest) = not_among x xs ys hs in (ground arith, (ground arith, rest))

includes-append :
    (x : ℕ) (xs ys : List ℕ)
    → includes x xs ≡ false
    → includes x ys ≡ false
    → includes x (xs ++ ys) ≡ false
includes-append x [] ys h k = k
includes-append x (z ∷ zs) ys h k = ground (arith, includes-append x zs ys)

Distinct-append :
    (xs ys : List ℕ)
    → Distinct xs
    → Distinct ys
    → All (λ y. includes y xs ≡ false) ys
    → Distinct (xs ++ ys)
Distinct-append [] ys d e f = e
Distinct-append (x ∷ xs) ys (d, ds) e f =
    let (absent, rest) = not_among x xs ys f in
    (includes-append x xs ys d absent, Distinct-append xs ys ds e rest)

on_statement-includes :
    (ls : List StatementLine) (e : Entry)
    → on_statement ls e ≡ false
    → includes e.id (map (λ l. l.entry_id) ls) ≡ false
on_statement-includes [] e h = refl
on_statement-includes (l ∷ ls) e h = ground (arith, on_statement-includes ls e)

taken-absent :
    (ls : List StatementLine) (end : ℕ) (es : List Entry)
    → All (λ e. is_taken ls end e ≡ true) es
    → All (λ i. includes i (map (λ l. l.entry_id) ls) ≡ false) (map (λ e. e.id) es)
taken-absent ls end [] h = tt
taken-absent ls end (e ∷ es) (h, hs) = (
  on_statement-includes ls e (last (ltb e.created_at end) (is_billable e) (on_statement ls e) h),
  taken-absent ls end es hs,
)
  where
    last : (p q r : Bool) → (p && q && not r) ≡ true → r ≡ false
    last p q r k = ground arith

lines-ids :
    (id : ℕ) (ls : List StatementLine) (es : List Entry)
    → map (λ l. l.entry_id) (ls ++ map (line_of id) es)
      ≡ map (λ l. l.entry_id) ls ++ map (λ e. e.id) es
lines-ids id [] [] = refl
lines-ids id [] (e ∷ es) = ap (λ xs. e.id ∷ xs) (lines-ids id [] es)
lines-ids id (l ∷ ls) es = ap (λ xs. l.entry_id ∷ xs) (lines-ids id ls es)

write_statement-IsBilledOnce :
    (cfg : FeeConfig) (now id : ℕ) (period : StatementPeriod) (a : StatementAmounts) (b : Books)
    → Distinct (map (λ e. e.id) b.entries)
    → IsBilledOnce b
    → IsBilledOnce (write_statement cfg now id period (entries_to_freeze period b) a b).1
unfolding write_statement entries_to_freeze
write_statement-IsBilledOnce cfg now id period a b d once =
    let test = is_taken b.lines period.end in
    let kept = keep test b.entries in
    let taken = sort-All entry_before _ kept (keep-All test b.entries) in
    rw (lines-ids id b.lines (sort entry_before kept)) (
      Distinct-append (map (λ l. l.entry_id) b.lines) _ once
        (sort-Distinct entry_before (λ e. e.id) kept (keep-Distinct (λ e. e.id) test b.entries d))
        (taken-absent b.lines period.end (sort entry_before kept) taken))

-- No commission is charged twice: if the ids of the entries differ and every entry is on at most one
-- line of a statement, then so it is after a freeze, whatever the period.
pub freeze-IsBilledOnce :
    (cfg : FeeConfig) (now id : ℕ) (period : StatementPeriod) (b : Books)
    → Distinct (map (λ e. e.id) b.entries)
    → IsBilledOnce b
    → Leaves (λ s c. IsBilledOnce c) (freeze_weekly_commission_statement cfg now id period b)
freeze-IsBilledOnce cfg now id period b d once =
    freeze-Leaves (λ s c. IsBilledOnce c) cfg now id period b once (λ s e. once)
      (λ e a due u. write_statement-IsBilledOnce cfg now id period a b d once)

-- What the statement of a period is, after a call that returned it.
abbrev pub IsStored : StatementPeriod → Option Statement → Books → Type 0
IsStored period none b = Unit
IsStored period (some s) b = statement_of period b.statements ≡ some s

find-append :
    (t : Statement → Bool) (ss : List Statement) (s : Statement)
    → find t ss ≡ none
    → t s ≡ true
    → find t (ss ++ s ∷ []) ≡ some s
find-append t [] s h k = rw k refl
find-append t (x ∷ xs) s h k = ground (arith, find-append t xs s)

pub with_prepaid-period :
    (now prepaid : ℕ) (s : Statement)
    → let s' = with_prepaid now prepaid s in
      (s'.period_start ≡ s.period_start)
      × (s'.period_end ≡ s.period_end)
      × (s'.amount_due_paise ≡ s.amount_due_paise)
unfolding with_prepaid
with_prepaid-period now prepaid s = ground arith

pub freeze-IsStored :
    (cfg : FeeConfig) (now id : ℕ) (period : StatementPeriod) (b : Books)
    → Leaves (IsStored period) (freeze_weekly_commission_statement cfg now id period b)
unfolding write_statement statement_of
freeze-IsStored cfg now id period b =
    freeze-Leaves (IsStored period) cfg now id period b tt (λ s e. e)
      (λ e a due u.
        let prepaid = apply_prepaid_to_statement id a.amount_due_paise b in
        let s = fresh_statement cfg now id period a in
        let (start, end, _) = with_prepaid-period now prepaid.applied s in
        find-append _ b.statements _ e (rw (start, end) (same period.start period.end)))
  where
    same : (i j : ℕ) → (i == i && j == j) ≡ true
    same i j = ground arith
