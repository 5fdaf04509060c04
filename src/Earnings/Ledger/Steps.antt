-- ===== src/Earnings/Ledger/Steps.antt =====
-- apps/api/src/modules/earnings/service.ts: the writes of a payout keep the ledger and the payouts in
-- agreement.
use print_q.Base.{
  ◌≡◌, refl, sym, subst, ℕ, ◌==◌, opt_eq, find, map, includes, Distinct, Bool-cases, Option-cases,
  inl, inr, arith, true, ◌&&◌, if◌then◌else◌, pos_part, neg_part, Bool, false, Option, none, some,
  List, [], ◌∷◌, Result, ok, throw, ltb, is_none, sub_ℕ,
}
use print_q.Base.Updates.{find-includes, not_same, same_id}
use print_q.Earnings.{
  LedgerEntry, payout_reserved, Payout, PayoutStatus, processing, Earnings, balance, EarningsError,
}
use print_q.Earnings.Payouts.{
  payout_entry, PayoutConfig, reserve_full_balance, finish_payout, SendOutcome, release_payout,
  apply_payout_provider_status, TransferStatus, sent_row, error_row, write_payout, fail_payout,
  revert_row, settle_row, is_under_way, is_over, transfer_of, uncertain, refused,
  transfer_processing, transfer_paid, processed, transfer_failed, reversed,
}
use print_q.Earnings.Ledger.{
  is_failed, has_release, returned_amount, IsLedgered, each-cong, returned-cong, map-IsLedgered,
  settle-IsQuiet, error-IsQuiet, write-IsQuiet,
}
use print_q.Earnings.Ledger.Rows.{found_id, released-IsLedgered}

-- A payout under a new id reserves what is in the balance.
reserved-IsLedgered :
    (p : Payout) (e : Earnings)
    → includes p.id (map (λ q. q.id) e.payouts) ≡ false
    → has_release p.id e.entries ≡ false
    → is_failed p ≡ false
    → IsLedgered e
    → IsLedgered (record e {
      payouts = p ∷ e.payouts;
      entries = payout_entry payout_reserved (sub_ℕ 0 p.amount_paise) p.id ∷ e.entries;
    })
reserved-IsLedgered p e new unreleased fresh k =
    let x = payout_entry payout_reserved (sub_ℕ 0 p.amount_paise) p.id in
    let unreturned : returned_amount (x ∷ e.entries) p ≡ 0 =
      rw (kept p.id p e.entries, unreleased) refl in
    record {
      ids = (new, k.ids);
      reserved = omega (arith, k.reserved, taken p.amount_paise);
      released = omega (
        arith,
        k.released,
        unreturned,
        returned-cong e.entries (x ∷ e.entries) e.payouts (λ id. kept id p e.entries),
      );
      each = (
        λ failed. absurd (not_both fresh failed),
        each-cong e.entries (x ∷ e.entries) e.payouts (λ id. kept id p e.entries) k.each,
      );
    }
  where
    taken : (n : ℕ) → neg_part (sub_ℕ 0 n) ≡ n
    taken n = ground arith

    not_both : {b : Bool} → b ≡ false → b ≡ true → ⊥
    not_both h k = cc

    kept :
        (id : ℕ) (p : Payout) (es : List LedgerEntry)
        → has_release id (payout_entry payout_reserved (sub_ℕ 0 p.amount_paise) p.id ∷ es)
          ≡ has_release id es
    kept id p es = ground arith

abbrev After : Earnings → Result EarningsError (Payout × Earnings) → Type 0
After e (throw x) = Unit
After e (ok (p, e')) = IsLedgered e'

reserve-After :
    (cfg : PayoutConfig) (linked by : Option ℕ) (id now : ℕ) (e : Earnings)
    → includes id (map (λ q. q.id) e.payouts) ≡ false
    → has_release id e.entries ≡ false
    → IsLedgered e
    → After e (reserve_full_balance cfg linked by id now e)
unfolding reserve_full_balance
reserve-After cfg linked by id now e new unreleased k =
    elim (Bool-cases (cfg.needs_linked_account && is_none linked)) [
      | inl f ↦ rw f tt
      | inr f ↦ elim (Bool-cases (ltb (pos_part (balance e.entries)) cfg.min_shop_payout_paise)) [
        | inl g ↦ rw (f, g) tt
        | inr g ↦ rw (f, g) (reserved-IsLedgered _ e new unreleased refl k)
      ]
    ]

pub reserve-IsLedgered :
    (cfg : PayoutConfig) (linked by : Option ℕ) (id now : ℕ) (p : Payout) (e e' : Earnings)
    → includes id (map (λ q. q.id) e.payouts) ≡ false
    → has_release id e.entries ≡ false
    → reserve_full_balance cfg linked by id now e ≡ ok (p, e')
    → IsLedgered e
    → IsLedgered e'
reserve-IsLedgered cfg linked by id now p e e' new unreleased h k =
    subst (After e) h (reserve-After cfg linked by id now e new unreleased k)

at_own_id :
    (id : ℕ) (ps : List Payout) (p : Payout)
    → find (λ q. q.id == id) ps ≡ some p
    → find (λ q. q.id == p.id) ps ≡ some p
at_own_id id ps p h = subst (λ i. find (λ q. q.id == i) ps ≡ some p) (sym (found_id id ps p h)) h

-- The answer of the provider, whatever became of the payout meanwhile.
pub finish_payout-IsLedgered :
    (id now : ℕ) (outcome : SendOutcome) (e : Earnings)
    → IsLedgered e
    → IsLedgered (finish_payout id now outcome e)
unfolding finish_payout
finish_payout-IsLedgered id now outcome e k =
    elim (Option-cases (find (λ p. p.id == id) e.payouts)) [
      | inl h ↦ rw (finish_payout, h) k
      | inr (p, h) ↦ rw (finish_payout, h) (by_outcome outcome p h)
    ]
  where
    by_outcome :
        (outcome : SendOutcome) (p : Payout)
        → find (λ q. q.id == id) e.payouts ≡ some p
        → IsLedgered (elim outcome [
          | transfer_processing t ↦ write_payout p.id (sent_row t processing none) e
          | transfer_paid t ↦ write_payout p.id (sent_row t PayoutStatus.paid (some now)) e
          | uncertain ↦ write_payout p.id error_row e
          | refused error ↦ release_payout (fail_payout error) p e
        ])
    by_outcome (transfer_processing t) p h =
        map-IsLedgered _ e
          (write-IsQuiet e.entries p.id (sent_row t processing none) (λ q. (refl, refl, refl))) k
    by_outcome (transfer_paid t) p h =
        map-IsLedgered _ e
          (write-IsQuiet e.entries p.id (sent_row t PayoutStatus.paid (some now))
            (λ q. (refl, refl, refl)))
          k
    by_outcome uncertain p h = map-IsLedgered _ e (error-IsQuiet e.entries p.id) k
    by_outcome (refused error) p h =
        released-IsLedgered p (fail_payout error) e (at_own_id id e.payouts p h) (λ q. (refl, refl))
          k

-- A row that a test of its own columns finds first is the row of its id, as ids are unique.
find-own :
    (t : Payout → Bool) (ps : List Payout) (p : Payout)
    → Distinct (map (λ q. q.id) ps)
    → find t ps ≡ some p
    → find (λ q. q.id == p.id) ps ≡ some p
find-own t [] p d h = cc
find-own t (q ∷ qs) p (d, ds) h = elim (Bool-cases (t q)) [
  | inl e ↦
      let same : q ≡ p = ground arith in
      subst (λ r. find (λ x. x.id == r.id) (q ∷ qs) ≡ some r) same (rw (same_id q.id) refl)
  | inr e ↦
      let later : find t qs ≡ some p = ground arith in
      let there = find-includes (λ r. r.id) t qs p later in
      let other = not_same q.id p.id (map (λ r. r.id) qs) d there in
      rw other (find-own t qs p ds later)
]

pub apply_payout_provider_status-IsLedgered :
    (transfer reason now : ℕ) (status : TransferStatus) (e : Earnings)
    → IsLedgered e
    → IsLedgered (apply_payout_provider_status transfer reason now status e)
unfolding apply_payout_provider_status
apply_payout_provider_status-IsLedgered transfer reason now status e k =
    elim (Option-cases (transfer_of transfer e.payouts)) [
      | inl h ↦ rw (apply_payout_provider_status, h) k
      | inr (p, h) ↦ rw (apply_payout_provider_status, h) (by_status status p h)
    ]
  where
    back :
        (p : Payout)
        → transfer_of transfer e.payouts ≡ some p
        → IsLedgered (if is_over p then e else release_payout (revert_row reason) p e)
    back p h = elim (Bool-cases (is_over p)) [
      | inl o ↦ rw o k
      | inr o ↦ rw o (
          released-IsLedgered p (revert_row reason) e
            (find-own (λ q. opt_eq q.provider_transfer_id (some transfer)) e.payouts p k.ids h)
            (λ q. (refl, refl)) k)
    ]

    by_status :
        (status : TransferStatus) (p : Payout)
        → transfer_of transfer e.payouts ≡ some p
        → IsLedgered (elim status [
          | processed ↦ record e {
            payouts =
                map (λ q. if q.id == p.id && is_under_way q then settle_row now q else q) e.payouts;
          }
          | _ ↦ if is_over p then e else release_payout (revert_row reason) p e
        ])
    by_status processed p h = map-IsLedgered _ e (settle-IsQuiet e.entries p.id now) k
    by_status transfer_failed p h = back p h
    by_status reversed p h = back p h
