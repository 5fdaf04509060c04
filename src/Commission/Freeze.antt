-- ===== src/Commission/Freeze.antt =====
-- apps/api/src/modules/commission/statementService.ts: freezing a week.
use print_q.Base.{
  ◌≡◌, ℕ, leb, false, Option, none, some, List, [], ◌∷◌, Bool-cases, Option-cases, inl, inr,
  if◌then◌else◌, Result, ok, throw, ◌>>=◌,
}
use print_q.Fees.{Books, Entry, Statement, FeeConfig}
use print_q.Commission.{
  StatementError, StatementAmounts, StatementPeriod, derive_statement_amounts, has_unapplied_credit,
  statement_of, entries_to_freeze, write_statement, freeze_entries,
  freeze_weekly_commission_statement,
}
use print_q.Commission.Amounts.{IsDue, derive_statement_amounts-IsDue}

-- A property of what a call leaves; nothing is asked of a call that throws.
abbrev pub Leaves :
    (Option Statement → Books → Type 0) → Result StatementError (Option Statement × Books) → Type 0
Leaves P (throw e) = Unit
Leaves P (ok (s, b)) = P s b

-- A property holds after a freeze if it holds of the books before with no statement or with the
-- existing one, and of what a new statement leaves.
module _ (P : Option Statement → Books → Type 0) (cfg : FeeConfig) (now id : ℕ)
    (period : StatementPeriod) (b : Books) where
  abbrev Writes : Type 0
  Writes =
      (a : StatementAmounts)
      → IsDue (entries_to_freeze period b) (ok a)
      → has_unapplied_credit a ≡ false
      → let (s, b') = write_statement cfg now id period (entries_to_freeze period b) a b in
        P (some s) b'

  freeze_amounts-Leaves :
      (e : Entry) (es : List Entry) (r : Result StatementError StatementAmounts)
      → P none b
      → IsDue (e ∷ es) r
      → ((a : StatementAmounts)
          → IsDue (e ∷ es) (ok a)
          → has_unapplied_credit a ≡ false
          → let (s, b') = write_statement cfg now id period (e ∷ es) a b in P (some s) b')
      → Leaves P (
          r >>= λ a.
          if has_unapplied_credit a
          then ok (none, b)
          else let (s, b') = write_statement cfg now id period (e ∷ es) a b in ok (some s, b'))
  freeze_amounts-Leaves e es (throw x) n d w = tt
  freeze_amounts-Leaves e es (ok a) n d w = elim (Bool-cases (has_unapplied_credit a)) [
    | inl h ↦ rw h n
    | inr h ↦ rw h (w a d h)
  ]

  freeze_entries-Leaves :
      (es : List Entry)
      → P none b
      → ((a : StatementAmounts)
          → IsDue es (ok a)
          → has_unapplied_credit a ≡ false
          → let (s, b') = write_statement cfg now id period es a b in P (some s) b')
      → Leaves P (freeze_entries cfg now id period es b)
  unfolding freeze_entries
  freeze_entries-Leaves [] n w = n
  freeze_entries-Leaves (e ∷ es) n w =
      freeze_amounts-Leaves e es (derive_statement_amounts (e ∷ es)) n
        (derive_statement_amounts-IsDue (e ∷ es)) w

  pub freeze-Leaves :
      P none b
      → ((s : Statement) → statement_of period b.statements ≡ some s → P (some s) b)
      → (statement_of period b.statements ≡ none → Writes)
      → Leaves P (freeze_weekly_commission_statement cfg now id period b)
  unfolding freeze_weekly_commission_statement
  freeze-Leaves n old w = elim (Bool-cases (leb period.end period.start)) [
    | inl e ↦ rw e tt
    | inr e ↦ elim (Option-cases (statement_of period b.statements)) [
      | inr (s, f) ↦ rw (e, f) (old s f)
      | inl f ↦ rw (e, f) (freeze_entries-Leaves (entries_to_freeze period b) n (w f))
    ]
  ]
