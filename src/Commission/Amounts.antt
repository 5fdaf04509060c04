-- ===== src/Commission/Amounts.antt =====
-- apps/api/src/modules/commission/statements.ts: a statement is due the sum of its entries.
use print_q.Base.{
  ◌≡◌, refl, subst, ℕ, ◌+◌, ◌-◌, ◌≤◌, ltb, ℤ, pos, pos_part, neg_part, +ℤ_parts, sum_by, List, [],
  ◌∷◌, false, ◌||◌, Bool-cases, inl, inr, arith, Result, ok, throw, ◌>>=◌,
}
use print_q.Fees.{Entry}
use print_q.Fees.Account.{sum_entries}
use print_q.Commission.{
  StatementError, StatementAmounts, sum_amounts, derive_statement_amounts, has_unapplied_credit,
  amounts_of, max_safe,
}

abbrev gross_of : Entry → ℕ
gross_of e = pos_part e.amount_paise

abbrev credit_of : Entry → ℕ
credit_of e = neg_part e.amount_paise

-- The sums of a result, and 0 for an error.
abbrev Sums : Result StatementError (ℕ × ℕ) → ℕ → ℕ → Type 0
Sums (throw e) gross credit = Unit
Sums (ok (g, c)) gross credit = (g ≡ gross) × (c ≡ credit)

sum_amounts-Sums :
    (es : List Entry) (gross credit : ℕ)
    → Sums (sum_amounts es gross credit) (gross + sum_by gross_of es) (credit + sum_by credit_of es)
unfolding sum_amounts
sum_amounts-Sums [] gross credit = (omega arith, omega arith)
sum_amounts-Sums (e ∷ es) gross credit =
    let gross' = gross + gross_of e in
    let credit' = credit + credit_of e in
    let rest = sum_amounts-Sums es gross' credit' in
    elim (Bool-cases (ltb max_safe gross' || ltb max_safe credit')) [
      | inl h ↦ rw h tt
      | inr h ↦ rw h (
          subst (λ g. Sums (sum_amounts es gross' credit') g (credit + sum_by credit_of (e ∷ es)))
            (regroup gross (gross_of e) (sum_by gross_of es))
            (subst (Sums (sum_amounts es gross' credit') (gross' + sum_by gross_of es))
              (regroup credit (credit_of e) (sum_by credit_of es)) rest))
    ]
  where
    regroup : (a b c : ℕ) → a + b + c ≡ a + (b + c)
    regroup a b c = omega arith

sum_entries-parts :
    (es : List Entry)
    → pos_part (sum_entries es) + sum_by credit_of es
      ≡ neg_part (sum_entries es) + sum_by gross_of es
unfolding sum_entries
sum_entries-parts [] = refl
sum_entries-parts (e ∷ es) =
    omega (arith, +ℤ_parts e.amount_paise (sum_entries es), sum_entries-parts es)

of_parts : (a : ℤ) (g c : ℕ) → pos_part a + c ≡ neg_part a + g → c ≤ g → a ≡ pos (g - c)
of_parts a g c h le = ground arith

-- The amounts are those of the entries: what is due is their sum, unless the credit exceeds it.
abbrev pub IsDue : List Entry → Result StatementError StatementAmounts → Type 0
IsDue es (throw e) = Unit
IsDue es (ok a) = has_unapplied_credit a ≡ false → sum_entries es ≡ pos a.amount_due_paise

derive_statement_amounts-ok :
    (es : List Entry) (r : Result StatementError (ℕ × ℕ))
    → Sums r (sum_by gross_of es) (sum_by credit_of es)
    → IsDue es (r >>= λ sums. ok (amounts_of sums))
unfolding has_unapplied_credit
derive_statement_amounts-ok es (throw e) s = tt
derive_statement_amounts-ok es (ok (g, c)) (eg, ec) =
    λ applied. of_parts (sum_entries es) g c (omega (arith, sum_entries-parts es)) (ground arith)

-- A statement without surplus credit is due exactly the sum of its signed entries.
pub derive_statement_amounts-IsDue : (es : List Entry) → IsDue es (derive_statement_amounts es)
unfolding derive_statement_amounts
derive_statement_amounts-IsDue es =
    derive_statement_amounts-ok es (sum_amounts es 0 0)
      (start (sum_amounts es 0 0) (sum_amounts-Sums es 0 0))
  where
    zero_left : (n : ℕ) → 0 + n ≡ n
    zero_left n = omega arith

    start :
        (r : Result StatementError (ℕ × ℕ))
        → Sums r (0 + sum_by gross_of es) (0 + sum_by credit_of es)
        → Sums r (sum_by gross_of es) (sum_by credit_of es)
    start r h =
        subst (λ g. Sums r g (sum_by credit_of es)) (zero_left (sum_by gross_of es))
          (subst (Sums r (0 + sum_by gross_of es)) (zero_left (sum_by credit_of es)) h)
