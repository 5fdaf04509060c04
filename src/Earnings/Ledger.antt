-- ===== src/Earnings/Ledger.antt =====
-- apps/api/src/modules/earnings/service.ts: the ledger and the payouts agree.
pub mod Rows
pub mod Steps
use print_q.Base.{
  ◌≡◌, refl, sym, ap, subst, ◌∙◌, ℕ, ◌+◌, ◌==◌, opt_eq, find, any, map, sum_by, includes, Distinct,
  All, Bool-cases, Option-cases, inl, inr, arith, ◌&&◌, ◌||◌, if◌then◌else◌, pos_part, neg_part,
  Bool, true, false, Option, none, some, List, [], ◌∷◌, Result, ok, throw, pos, ltb, is_none, sub_ℕ,
  ◌⊎◌,
}
use print_q.Base.Updates.{
  sum_by-update, update-ids, update_at-All, find-All, find-includes, not_same, same_id,
}
use print_q.Job.{Job}
use print_q.Earnings.{
  LedgerEntry, payout_reserved, payout_released, Payout, PayoutStatus, processing, Earnings,
  of_payout, upsert, balance, EarningsError, BalancePayment, credit_print_earning,
  create_shop_balance_payment, confirm_shop_balance_payment, of_job, earns, earning_type,
  earning_entry, balance_entry, of_balance_payment, is_pending, balance_payment, pay_balance,
  newest_first, same_type,
}
use print_q.Earnings.Payouts.{
  payout_entry, PayoutConfig, reserve_full_balance, claim_payout, finish_payout, SendOutcome,
  release_payout, apply_payout_provider_status, TransferStatus, is_claimable, claim_row, sent_row,
  error_row, fail_payout, revert_row, settle_row, is_under_way, is_over, transfer_of, uncertain,
  refused, transfer_processing, transfer_paid, processed, transfer_failed, reversed,
}

abbrev pub is_failed : Payout → Bool
is_failed p = elim p.status [ PayoutStatus.failed ↦ true | _ ↦ false ]

abbrev pub reserved_of : LedgerEntry → ℕ
reserved_of e = if same_type e.kind payout_reserved then neg_part e.amount_paise else 0

abbrev pub released_of : LedgerEntry → ℕ
released_of e = if same_type e.kind payout_released then pos_part e.amount_paise else 0

abbrev pub has_release : ℕ → List LedgerEntry → Bool
has_release id es = any (of_payout id payout_released) es

-- What the ledger put back for a payout.
abbrev pub returned_amount : List LedgerEntry → Payout → ℕ
returned_amount es p = if has_release p.id es then p.amount_paise else 0

abbrev pub IsReturned : List LedgerEntry → Payout → Type 0
IsReturned es p = is_failed p ≡ true → has_release p.id es ≡ true

-- No two payouts share an id; the ledger took out exactly what was reserved for payouts; it put back
-- the whole amount of each payout with an entry that does, once, and nothing else; and each payout that
-- has failed has such an entry.
pub record IsLedgered (e : Earnings) : Type 0 where
  pub ids : Distinct (map (λ p. p.id) e.payouts)
  pub reserved : sum_by reserved_of e.entries ≡ sum_by (λ p. p.amount_paise) e.payouts
  pub released : sum_by released_of e.entries ≡ sum_by (returned_amount e.entries) e.payouts
  pub each : All (IsReturned e.entries) e.payouts

-- Entries that are not about payouts do not count.
abbrev pub IsOther : LedgerEntry → Type 0
IsOther x = (x.payout_id ≡ none) × (reserved_of x ≡ 0) × (released_of x ≡ 0)

other-has_release :
    (id : ℕ) (x : LedgerEntry) (es : List LedgerEntry)
    → x.payout_id ≡ none
    → has_release id (x ∷ es) ≡ has_release id es
other-has_release id x es h = rw h refl

-- Entries that put nothing back for any payout do not count.
pub each-cong :
    (es fs : List LedgerEntry) (ps : List Payout)
    → ((id : ℕ) → has_release id fs ≡ has_release id es)
    → All (IsReturned es) ps
    → All (IsReturned fs) ps
each-cong es fs [] h k = tt
each-cong es fs (p ∷ ps) h (k, ks) = (λ f. h p.id ∙ k f, each-cong es fs ps h ks)

pub returned-cong :
    (es fs : List LedgerEntry) (ps : List Payout)
    → ((id : ℕ) → has_release id fs ≡ has_release id es)
    → sum_by (returned_amount fs) ps ≡ sum_by (returned_amount es) ps
returned-cong es fs [] h = refl
returned-cong es fs (p ∷ ps) h = rw (h p.id, returned-cong es fs ps h) refl

pub upsert-IsLedgered :
    (key : LedgerEntry → Bool) (x : LedgerEntry) (bs : List BalancePayment) (e : Earnings)
    → IsOther x
    → IsLedgered e
    → IsLedgered (record e { entries = upsert key x e.entries; balance_payments = bs })
unfolding upsert
upsert-IsLedgered key x bs e (no_payout, r, s) k = elim (Bool-cases (any key e.entries)) [
  | inl f ↦
      rw f (record { ids = k.ids; reserved = k.reserved; released = k.released; each = k.each })
  | inr f ↦ rw f (record {
    ids = k.ids;
    reserved = omega (arith, r, k.reserved);
    released = omega (
      arith,
      s,
      k.released,
      returned-cong e.entries (x ∷ e.entries) e.payouts
          (λ id. other-has_release id x e.entries no_payout),
    );
    each =
        each-cong e.entries (x ∷ e.entries) e.payouts
          (λ id. other-has_release id x e.entries no_payout) k.each;
  })
]

earning-IsOther : (j : Job) → IsOther (earning_entry j)
earning-IsOther j = ground arith

pub credit_print_earning-IsLedgered :
    (job_id : ℕ) (jobs : List Job) (e : Earnings)
    → IsLedgered e
    → IsLedgered (credit_print_earning job_id jobs e)
unfolding credit_print_earning
credit_print_earning-IsLedgered job_id jobs e k =
    elim (Option-cases (find (λ j. j.id == job_id) jobs)) [
      | inl f ↦ rw (credit_print_earning, f) k
      | inr (j, f) ↦ elim (Bool-cases (earns j)) [
        | inl g ↦
            rw (credit_print_earning, f, g)
              (upsert-IsLedgered (of_job j.id (earning_type j)) (earning_entry j) e.balance_payments
                e (earning-IsOther j) k)
        | inr g ↦ rw (credit_print_earning, f, g) k
      ]
    ]

-- The update keeps the id and the amount of a payout, and a payout that it leaves failed was returned.
abbrev pub IsQuiet : List LedgerEntry → (Payout → Payout) → Type 0
IsQuiet es f =
    (p : Payout)
    → ((f p).id ≡ p.id)
      × ((f p).amount_paise ≡ p.amount_paise)
      × (IsReturned es p → IsReturned es (f p))

quiet_sums :
    (f : Payout → Payout) (es : List LedgerEntry)
    → IsQuiet es f
    → (ps : List Payout)
    → (map (λ p. p.id) (map f ps) ≡ map (λ p. p.id) ps)
      × (sum_by (λ p. p.amount_paise) (map f ps) ≡ sum_by (λ p. p.amount_paise) ps)
      × (sum_by (returned_amount es) (map f ps) ≡ sum_by (returned_amount es) ps)
      × (All (IsReturned es) ps → All (IsReturned es) (map f ps))
quiet_sums f es q [] = (refl, refl, refl, λ h. tt)
quiet_sums f es q (p ∷ ps) =
    let (i, a, s) = q p in
    let (is, ams, ss, alls) = quiet_sums f es q ps in
    (rw (i, is) refl, rw (a, ams) refl, rw (ss, i, a) refl, λ h. (s h.0, alls h.1))

pub map-IsLedgered :
    (f : Payout → Payout) (e : Earnings)
    → IsQuiet e.entries f
    → IsLedgered e
    → IsLedgered (record e { payouts = map f e.payouts })
map-IsLedgered f e q k =
    let (is, ams, ss, alls) = quiet_sums f e.entries q e.payouts in
    record {
      ids = rw is k.ids;
      reserved = k.reserved ∙ sym ams;
      released = k.released ∙ sym ss;
      each = alls k.each;
    }

claim-IsQuiet :
    (es : List LedgerEntry) (id now : ℕ)
    → IsQuiet es (λ p. if p.id == id && is_claimable now p then claim_row now p else p)
claim-IsQuiet es id now p = elim (Bool-cases (p.id == id && is_claimable now p)) [
  | inl e ↦ rw e (refl, refl, λ h k. absurd (cc))
  | inr e ↦ rw e (refl, refl, λ h. h)
]

pub claim_payout-IsLedgered :
    (id now : ℕ) (e : Earnings) → IsLedgered e → IsLedgered (claim_payout id now e).1
unfolding claim_payout
claim_payout-IsLedgered id now e k = map-IsLedgered _ e (claim-IsQuiet e.entries id now) k

-- A write of one row by its id, after which the row is not failed.
pub write-IsQuiet :
    (es : List LedgerEntry) (id : ℕ) (f : Payout → Payout)
    → ((p : Payout)
        → ((f p).id ≡ p.id) × ((f p).amount_paise ≡ p.amount_paise) × (is_failed (f p) ≡ false))
    → IsQuiet es (λ p. if p.id == id then f p else p)
write-IsQuiet es id f same p = elim (Bool-cases (p.id == id)) [
  | inl e ↦ rw e ((same p).0, (same p).1, λ h k. absurd (not_both (same p).2 k))
  | inr e ↦ rw e (refl, refl, λ h. h)
]
  where
    not_both : {b : Bool} → b ≡ false → b ≡ true → ⊥
    not_both h k = cc

pub settle-IsQuiet :
    (es : List LedgerEntry) (id now : ℕ)
    → IsQuiet es (λ p. if p.id == id && is_under_way p then settle_row now p else p)
settle-IsQuiet es id now p = elim (Bool-cases (p.id == id && is_under_way p)) [
  | inl e ↦ rw e (refl, refl, λ h k. absurd (cc))
  | inr e ↦ rw e (refl, refl, λ h. h)
]

pub error-IsQuiet :
    (es : List LedgerEntry) (id : ℕ) → IsQuiet es (λ p. if p.id == id then error_row p else p)
error-IsQuiet es id p = elim (Bool-cases (p.id == id)) [
  | inl e ↦ rw e (refl, refl, λ h. h)
  | inr e ↦ rw e (refl, refl, λ h. h)
]
