-- ===== src/Earnings/Ledger/Rows.antt =====
-- apps/api/src/modules/earnings/service.ts: what the write of a payout's row, and the failure of a payout,
-- do to the agreement of the ledger and the payouts.
use print_q.Base.{
  ◌≡◌, refl, sym, ◌∙◌, subst, ℕ, ◌+◌, ◌==◌, find, map, includes, Distinct, sum_by, All, arith, ◌||◌,
  if◌then◌else◌, Bool, true, false, Bool-cases, inl, inr, some, List, [], ◌∷◌, pos,
}
use print_q.Base.Updates.{same_id}
use print_q.Earnings.{LedgerEntry, payout_released, Payout, Earnings, upsert, of_payout}
use print_q.Earnings.Payouts.{payout_entry, release_payout}
use print_q.Earnings.Ledger.{has_release, returned_amount, IsReturned, IsLedgered, map-IsLedgered}

pub found_id :
    (id : ℕ) (ps : List Payout) (p : Payout) → find (λ q. q.id == id) ps ≡ some p → p.id ≡ id
found_id id [] p h = cc
found_id id (q ∷ qs) p h = ground (arith, found_id id qs p)

new_release :
    (i id amount : ℕ) (es : List LedgerEntry)
    → has_release id (payout_entry payout_released (pos amount) i ∷ es)
      ≡ (i == id || has_release id es)
new_release i id amount es = ground arith

sum_unreleased :
    (i amount : ℕ) (es : List LedgerEntry) (ps : List Payout)
    → includes i (map (λ p. p.id) ps) ≡ false
    → sum_by (returned_amount (payout_entry payout_released (pos amount) i ∷ es)) ps
      ≡ sum_by (returned_amount es) ps
sum_unreleased i amount es [] h = refl
sum_unreleased i amount es (p ∷ ps) h =
    let other : (i == p.id) ≡ false = ground arith in
    let rest = sum_unreleased i amount es ps (ground arith) in
    rw (new_release i p.id amount es, other, rest) refl

-- An entry that puts back a payout which had none adds the amount of that payout.
sum_released :
    (i amount : ℕ) (es : List LedgerEntry) (ps : List Payout) (p : Payout)
    → Distinct (map (λ q. q.id) ps)
    → find (λ q. q.id == i) ps ≡ some p
    → has_release i es ≡ false
    → sum_by (returned_amount (payout_entry payout_released (pos amount) i ∷ es)) ps
      ≡ sum_by (returned_amount es) ps + p.amount_paise
sum_released i amount es [] p d h n = cc
sum_released i amount es (q ∷ qs) p (d, ds) h n = elim (Bool-cases (q.id == i)) [
  | inl e ↦
      let same : q ≡ p = ground arith in
      let id : q.id ≡ i = ground arith in
      let absent =
        sum_unreleased i amount es qs (subst (λ j. includes j (map (λ x. x.id) qs) ≡ false) id d) in
      let before : has_release q.id es ≡ false = subst (λ j. has_release j es ≡ false) (sym id) n in
      let now_there : (i == q.id) ≡ true = rw (sym id) (same_id q.id) in
      rw (new_release i q.id amount es, now_there, before, absent, sym same) (omega arith)
  | inr e ↦
      let other : (i == q.id) ≡ false = ground arith in
      let rest = sum_released i amount es qs p ds (ground arith) n in
      rw (new_release i q.id amount es, other) (omega (arith, rest))
]

each_released :
    (i amount : ℕ) (es : List LedgerEntry) (ps : List Payout)
    → All (IsReturned es) ps
    → All (IsReturned (payout_entry payout_released (pos amount) i ∷ es)) ps
each_released i amount es [] h = tt
each_released i amount es (p ∷ ps) (h, hs) = (
  λ f. new_release i p.id amount es ∙ or_true (i == p.id) (has_release p.id es) (h f),
  each_released i amount es ps hs,
)
  where
    or_true : (a b : Bool) → b ≡ true → (a || b) ≡ true
    or_true a b h = ground arith

abbrev with_release : Payout → List LedgerEntry → List LedgerEntry
with_release p es =
    upsert (of_payout p.id payout_released) (payout_entry payout_released (pos p.amount_paise) p.id)
      es

-- The amount of a payout goes back, unless it did before: afterwards it has.
upsert_release :
    (p : Payout) (e : Earnings)
    → find (λ q. q.id == p.id) e.payouts ≡ some p
    → IsLedgered e
    → IsLedgered (record e { entries = with_release p e.entries })
      × (has_release p.id (with_release p e.entries) ≡ true)
unfolding upsert
upsert_release p e there k = elim (Bool-cases (has_release p.id e.entries)) [
  | inl f ↦ rw f (k, f)
  | inr f ↦ rw f (
    record {
      ids = k.ids;
      reserved = omega (arith, k.reserved);
      released =
          omega (
            arith,
            k.released,
            sum_released p.id p.amount_paise e.entries e.payouts p k.ids there f,
          );
      each = each_released p.id p.amount_paise e.entries e.payouts k.each;
    },
    new_release p.id p.id p.amount_paise e.entries ∙ rw (same_id p.id) refl,
  )
]

-- A payout fails, whatever its status was, and its amount goes back.
pub released-IsLedgered :
    (p : Payout) (f : Payout → Payout) (e : Earnings)
    → find (λ q. q.id == p.id) e.payouts ≡ some p
    → ((q : Payout) → ((f q).id ≡ q.id) × ((f q).amount_paise ≡ q.amount_paise))
    → IsLedgered e
    → IsLedgered (release_payout f p e)
unfolding release_payout
released-IsLedgered p f e there same k =
    let (back, has) = upsert_release p e there k in
    map-IsLedgered (λ q. if q.id == p.id then f q else q)
      (record e { entries = with_release p e.entries })
      (λ q. quiet (with_release p e.entries) q has) back
  where
    quiet :
        (es : List LedgerEntry) (q : Payout)
        → has_release p.id es ≡ true
        → let g = if q.id == p.id then f q else q in
          (g.id ≡ q.id) × (g.amount_paise ≡ q.amount_paise) × (IsReturned es q → IsReturned es g)
    quiet es q has = elim (Bool-cases (q.id == p.id)) [
      | inl e ↦
          let id : (f q).id ≡ p.id = ground (arith, (same q).0) in
          rw e ((same q).0, (same q).1, λ h k. rw id has)
      | inr e ↦ rw e (refl, refl, λ h. h)
    ]
