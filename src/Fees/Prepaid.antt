-- ===== src/Fees/Prepaid.antt =====
-- apps/api/src/modules/fees/account.ts: applyPrepaidToStatement, which pays a fresh statement from
-- what earlier payments left over, the oldest payment first.
use print_q.Base.{
  ◌≡◌, ◌≤◌, refl, ◌∙◌, ap, ℕ, ◌+◌, ◌-◌, ◌==◌, ltb, leb, or_else, Bool, true, false, ◌&&◌, ◌||◌,
  some, List, [], ◌∷◌, map, find, keep, min, sum_by, All, All-keep, Distinct, includes,
  keep-Distinct, keep-All, Bool-cases, inl, inr, arith, if◌then◌else◌,
}
use print_q.Base.Sorting.{sort, sort-All, sort-Distinct, sum_by-sort}
use print_q.Fees.{Books, FeePayment, Allocation, update_payment, is_paid, left_over}
use print_q.Base.Updates.{sum_by-update, update-ids}
use print_q.Fees.Payments.Exact.{allocated}
use print_q.Fees.Payments.Balance.{collected}

-- `orderBy: [{ paidAt: 'asc' }, { id: 'asc' }]`; a payment that is paid has an instant.
abbrev pub paid_before : FeePayment → FeePayment → Bool
paid_before p q =
    let a = or_else p.paid_at 0 in
    let b = or_else q.paid_at 0 in ltb a b || (a == b && leb p.id q.id)

unfoldable pub prepaid_payments : List FeePayment → List FeePayment
prepaid_payments ps = sort paid_before (keep (λ p. is_paid p && ltb 0 p.unallocated_paise) ps)

abbrev pub use_up : ℕ → FeePayment → FeePayment
use_up amount p = record p { unallocated_paise = p.unallocated_paise - amount }

pub record Prepaid : Type 0 where
  pub payments : List FeePayment
  pub allocations : List Allocation
  pub applied : ℕ

-- The loop over the selected payments; the tables and the sum are its state.
unfoldable pub prepaid_loop : ℕ → ℕ → List FeePayment → Prepaid → Prepaid
prepaid_loop statement_id remaining [] t = t
prepaid_loop statement_id remaining (p ∷ ps) t =
    let amount = min remaining p.unallocated_paise in
    let rest = prepaid_loop statement_id (remaining - amount) ps (record {
      payments = update_payment p.id (use_up amount) t.payments;
      allocations =
          record { payment_id = p.id; statement_id = statement_id; amount_paise = amount }
          ∷ t.allocations;
      applied = t.applied + amount;
    }) in
    if remaining == 0 then t else rest

unfoldable pub apply_prepaid_to_statement : ℕ → ℕ → Books → Prepaid
apply_prepaid_to_statement statement_id amount_due b =
    prepaid_loop statement_id amount_due (prepaid_payments b.payments)
      (record { payments = b.payments; allocations = b.allocations; applied = 0 })

-- The selected rows are still in the table as they were read.
abbrev Fresh : List FeePayment → List FeePayment → Type 0
Fresh table ps = All (λ p. find (λ q. q.id == p.id) table ≡ some p) ps

find-update :
    (id other : ℕ) (g : FeePayment → FeePayment) (table : List FeePayment)
    → ((q : FeePayment) → (g q).id ≡ q.id)
    → (id == other) ≡ false
    → find (λ q. q.id == other) (update_payment id g table) ≡ find (λ q. q.id == other) table
find-update id other g [] h k = refl
find-update id other g (q ∷ qs) h k = elim (Bool-cases (q.id == id)) [
  | inl e ↦
      let moved : (q.id == other) ≡ false = ground arith in
      rw (e, h q, moved) (find-update id other g qs h k)
  | inr e ↦ rw e (ap (λ r. if q.id == other then some q else r) (find-update id other g qs h k))
]

update-Fresh :
    (id : ℕ) (g : FeePayment → FeePayment) (table ps : List FeePayment)
    → ((q : FeePayment) → (g q).id ≡ q.id)
    → includes id (map (λ q. q.id) ps) ≡ false
    → Fresh table ps
    → Fresh (update_payment id g table) ps
update-Fresh id g table [] h d f = tt
update-Fresh id g table (p ∷ ps) h d (f, fs) = (
  find-update id p.id g table h (ground arith) ∙ f,
  update-Fresh id g table ps h (ground arith) fs,
)

cons-Fresh :
    (x : FeePayment) (table ps : List FeePayment)
    → includes x.id (map (λ q. q.id) ps) ≡ false
    → Fresh table ps
    → Fresh (x ∷ table) ps
cons-Fresh x table [] d f = tt
cons-Fresh x table (p ∷ ps) d (f, fs) =
    let other : (x.id == p.id) ≡ false = ground arith in
    (rw other f, cons-Fresh x table ps (ground arith) fs)

Fresh-refl : (ps : List FeePayment) → Distinct (map (λ q. q.id) ps) → Fresh ps ps
Fresh-refl [] d = tt
Fresh-refl (p ∷ ps) (d, ds) = (rw (same_id p.id) refl, cons-Fresh p ps ps d (Fresh-refl ps ds))
  where
    same_id : (i : ℕ) → (i == i) ≡ true
    same_id i = ground arith

-- Two states of the loop hold the same orders, collected the same, and what left the payments is
-- in the allocations; `amount` is what was applied between them.
abbrev Moved : Prepaid → Prepaid → ℕ → Type 0
Moved t u amount =
    (map (λ p. p.id) u.payments ≡ map (λ p. p.id) t.payments)
    × (sum_by collected u.payments ≡ sum_by collected t.payments)
    × (allocated u.allocations + sum_by left_over u.payments
        ≡ allocated t.allocations + sum_by left_over t.payments)
    × (u.applied ≡ t.applied + amount)

use_up-sums :
    (amount : ℕ) (p : FeePayment)
    → is_paid p ≡ true
    → amount ≤ p.unallocated_paise
    → (collected (use_up amount p) ≡ collected p)
      × (left_over (use_up amount p) + amount ≡ left_over p)
unfolding collected left_over is_paid
use_up-sums amount p paid le = (refl, ground arith)

prepaid_loop-Moved :
    (id remaining : ℕ) (ps : List FeePayment) (t : Prepaid)
    → Distinct (map (λ p. p.id) t.payments)
    → Distinct (map (λ p. p.id) ps)
    → Fresh t.payments ps
    → All (λ p. is_paid p ≡ true) ps
    → Moved t
        (prepaid_loop id remaining ps t)
        (min remaining (sum_by (λ p. p.unallocated_paise) ps))
unfolding prepaid_loop
prepaid_loop-Moved id remaining [] t d dp f paid = (refl, refl, refl, omega arith)
prepaid_loop-Moved id remaining (p ∷ ps) t d (dp, dps) (f, fs) (paid, paids) =
    let amount = min remaining p.unallocated_paise in
    let next : Prepaid = record {
      payments = update_payment p.id (use_up amount) t.payments;
      allocations =
          record { payment_id = p.id; statement_id = id; amount_paise = amount } ∷ t.allocations;
      applied = t.applied + amount;
    } in
    let ids = update-ids (λ q. q.id) p.id (use_up amount) t.payments (λ q. refl) in
    let (c, l) = use_up-sums amount p paid (omega arith) in
    let cs =
      sum_by-update (λ q. q.id) collected (use_up amount) (λ q. q.id == p.id) t.payments p d f in
    let ls =
      sum_by-update (λ q. q.id) left_over (use_up amount) (λ q. q.id == p.id) t.payments p d f in
    let (is, cols, lefts, applied) =
      prepaid_loop-Moved id (remaining - amount) ps next (rw ids d) dps
        (update-Fresh p.id (use_up amount) t.payments ps (λ q. refl) dp fs) paids in
    elim (Bool-cases (remaining == 0)) [
      | inl e ↦ rw e (refl, refl, refl, ground arith)
      | inr e ↦ rw e (
        is ∙ ids,
        omega (arith, cols, cs, c),
        omega (arith, lefts, ls, l),
        omega (arith, applied),
      )
    ]

prepaid-left_over :
    (ps : List FeePayment)
    → sum_by (λ p. p.unallocated_paise) (keep (λ p. is_paid p && ltb 0 p.unallocated_paise) ps)
      ≡ sum_by left_over ps
unfolding left_over is_paid
prepaid-left_over [] = refl
prepaid-left_over (p ∷ ps) = ground (arith, prepaid-left_over ps)

keep_paid :
    (ps : List FeePayment)
    → All (λ p. (is_paid p && ltb 0 p.unallocated_paise) ≡ true) ps
    → All (λ p. is_paid p ≡ true) ps
keep_paid [] h = tt
keep_paid (p ∷ ps) (h, hs) = (ground arith, keep_paid ps hs)

-- What earlier payments left over goes to the statement: exactly the smaller of what it is due and
-- what was left over in all, and the money only moves from the payments to the allocations.
pub apply_prepaid_to_statement-Moved :
    (id amount_due : ℕ) (b : Books)
    → Distinct (map (λ p. p.id) b.payments)
    → let u = apply_prepaid_to_statement id amount_due b in
      (map (λ p. p.id) u.payments ≡ map (λ p. p.id) b.payments)
      × (sum_by collected u.payments ≡ sum_by collected b.payments)
      × (allocated u.allocations + sum_by left_over u.payments
          ≡ allocated b.allocations + sum_by left_over b.payments)
      × (u.applied ≡ min amount_due (sum_by left_over b.payments))
unfolding apply_prepaid_to_statement prepaid_payments
apply_prepaid_to_statement-Moved id amount_due b d =
    let test : FeePayment → Bool = λ p. is_paid p && ltb 0 p.unallocated_paise in
    let kept = keep test b.payments in
    let start : Prepaid = record {
      payments = b.payments;
      allocations = b.allocations;
      applied = 0;
    } in
    let fresh =
      sort-All paid_before _ kept (All-keep _ test b.payments (Fresh-refl b.payments d)) in
    let distinct =
      sort-Distinct paid_before (λ p. p.id) kept (keep-Distinct (λ p. p.id) test b.payments d) in
    let paid = sort-All paid_before _ kept (keep_paid kept (keep-All test b.payments)) in
    let (is, cols, lefts, applied) =
      prepaid_loop-Moved id amount_due (sort paid_before kept) start d distinct fresh paid in
    (
      is,
      cols,
      lefts,
      omega (
        arith,
        applied,
        prepaid-left_over b.payments,
        sum_by-sort paid_before (λ p. p.unallocated_paise) kept,
      ),
    )
