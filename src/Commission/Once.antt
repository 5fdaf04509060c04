-- ===== src/Commission/Once.antt =====
-- apps/api/src/modules/commission/statementService.ts: a week is frozen once, for exactly its entries.
use Prim.Native.Nat.{min}
use print_q.Base.{
  ◌≡◌, refl, sym, ◌∙◌, ap, subst, ℕ, leb, false, Option, none, some, ◌++◌, map, sum_by, Distinct,
  Bool-cases, inl, inr, arith, Result, ok, throw, pos,
}
use print_q.Fees.{Books, Statement, FeeConfig, left_over}
use print_q.Fees.Account.{sum_entries}
use print_q.Fees.Prepaid.{apply_prepaid_to_statement, apply_prepaid_to_statement-Moved}
use print_q.Commission.{
  StatementError, StatementPeriod, statement_of, entries_to_freeze, line_of, fresh_statement,
  with_prepaid, write_statement, freeze_weekly_commission_statement,
}
use print_q.Commission.Freeze.{Leaves, freeze-Leaves}
use print_q.Commission.Kept.{IsStored, freeze-IsStored, with_prepaid-period}

abbrev IsOk : Result StatementError (Option Statement × Books) → Type 0
IsOk (throw e) = ⊥
IsOk (ok r) = Unit

freeze_stored :
    (cfg : FeeConfig) (now id : ℕ) (period : StatementPeriod) (s : Statement) (c : Books)
    → leb period.end period.start ≡ false
    → statement_of period c.statements ≡ some s
    → freeze_weekly_commission_statement cfg now id period c ≡ ok (some s, c)
unfolding freeze_weekly_commission_statement
freeze_stored cfg now id period s c e f = rw (freeze_weekly_commission_statement, e, f) refl

freeze_valid :
    (cfg : FeeConfig) (now id : ℕ) (period : StatementPeriod) (b : Books)
    → IsOk (freeze_weekly_commission_statement cfg now id period b)
    → leb period.end period.start ≡ false
unfolding freeze_weekly_commission_statement
freeze_valid cfg now id period b h = elim (Bool-cases (leb period.end period.start)) [
  | inr e ↦ e
  | inl e ↦ let no : ⊥ = rw e at h in absurd no
]

-- Freezing is idempotent: once a call has returned the statement of a period, every later call for
-- that period, at whatever time, under whatever terms and with whatever new id, returns the same
-- statement and changes nothing.
pub freeze_weekly_commission_statement-again :
    (cfg cfg' : FeeConfig) (now later id id' : ℕ) (period : StatementPeriod) (s : Statement)
    (b c : Books)
    → freeze_weekly_commission_statement cfg now id period b ≡ ok (some s, c)
    → freeze_weekly_commission_statement cfg' later id' period c ≡ ok (some s, c)
freeze_weekly_commission_statement-again cfg cfg' now later id id' period s b c e =
    freeze_stored cfg' later id' period s c
      (freeze_valid cfg now id period b (subst IsOk (sym e) tt))
      (subst (Leaves (IsStored period)) e (freeze-IsStored cfg now id period b))

-- A statement made of exactly these entries.
abbrev IsExact : StatementPeriod → Books → Option Statement → Books → Type 0
IsExact period b none c = Unit
IsExact period b (some s) c =
    statement_of period b.statements ≡ none
    → (sum_entries (entries_to_freeze period b) ≡ pos s.amount_due_paise)
      × (c.lines ≡ b.lines ++ map (line_of s.id) (entries_to_freeze period b))
      × (s.paid_paise ≡ min s.amount_due_paise (sum_by left_over b.payments))

with_prepaid-paid :
    (now prepaid : ℕ) (s : Statement)
    → s.paid_paise ≡ 0
    → let s' = with_prepaid now prepaid s in (s'.paid_paise ≡ prepaid) × (s'.id ≡ s.id)
unfolding with_prepaid
with_prepaid-paid now prepaid s h = ground arith

freeze-IsExact :
    (cfg : FeeConfig) (now id : ℕ) (period : StatementPeriod) (b : Books)
    → Distinct (map (λ p. p.id) b.payments)
    → Leaves (IsExact period b) (freeze_weekly_commission_statement cfg now id period b)
unfolding write_statement
freeze-IsExact cfg now id period b d =
    freeze-Leaves (IsExact period b) cfg now id period b tt (λ s e. λ n. absurd (apart (sym e ∙ n)))
      (λ e a due applied. λ n.
        let prepaid = apply_prepaid_to_statement id a.amount_due_paise b in
        let s = fresh_statement cfg now id period a in
        let (_, _, amount) = with_prepaid-period now prepaid.applied s in
        let (paid, same_id) = with_prepaid-paid now prepaid.applied s refl in
        let (_, _, _, exact) = apply_prepaid_to_statement-Moved id a.amount_due_paise b d in
        (
          due applied ∙ ap pos (sym amount),
          rw same_id refl,
          paid ∙ exact ∙ ap (λ n. min n (sum_by left_over b.payments)) (sym amount),
        ))
  where
    apart : {s : Statement} → some s ≡ none → ⊥
    apart h = cc

-- A new statement charges exactly its entries: if the period had no statement, the amount due is the
-- sum of the signed amounts of the entries that no statement had taken and that were created before
-- the end of the period, there is one new line for each of them, and of what is due as much is paid
-- at once as earlier payments left over.
pub freeze_weekly_commission_statement-exact :
    (cfg : FeeConfig) (now id : ℕ) (period : StatementPeriod) (s : Statement) (b c : Books)
    → Distinct (map (λ p. p.id) b.payments)
    → statement_of period b.statements ≡ none
    → freeze_weekly_commission_statement cfg now id period b ≡ ok (some s, c)
    → (sum_entries (entries_to_freeze period b) ≡ pos s.amount_due_paise)
      × (c.lines ≡ b.lines ++ map (line_of s.id) (entries_to_freeze period b))
      × (s.paid_paise ≡ min s.amount_due_paise (sum_by left_over b.payments))
freeze_weekly_commission_statement-exact cfg now id period s b c d none_before e =
    subst (Leaves (IsExact period b)) e (freeze-IsExact cfg now id period b d) none_before
