-- ===== src/Earnings/Payouts.antt =====
-- apps/api/src/modules/earnings/service.ts: payouts. processPayout is a claim, a call of the provider
-- outside every transaction, and a write of what it answered: `claim_payout` and `finish_payout`, so
-- that other calls can act between them.
use print_q.Base.{
  ◌+◌, ltb, ◌==◌, opt_eq, find, any, map, ◌&&◌, if◌then◌else◌, ℕ, ℤ, pos, sub_ℕ, pos_part, Bool,
  true, false, Option, none, some, List, ◌∷◌, Result, ok, throw, is_none,
}
use print_q.Earnings.{
  LedgerEntry, LedgerType, payout_reserved, payout_released, Payout, PayoutStatus, requested,
  processing, Earnings, EarningsError, no_linked_account, below_minimum, of_payout, upsert, balance,
}

abbrev pub payout_entry : LedgerType → ℤ → ℕ → LedgerEntry
payout_entry kind amount id = record {
  kind = kind;
  job_id = none;
  payout_id = some id;
  balance_payment_id = none;
  amount_paise = amount;
}

-- The terms of payouts: the provider, whether it needs a linked account, and the least amount.
pub record PayoutConfig : Type 0 where
  pub provider : ℕ
  pub needs_linked_account : Bool
  pub min_shop_payout_paise : ℕ

-- `amountPaise < MIN_SHOP_PAYOUT_PAISE` of a balance that may be negative; the minimum is positive.
unfoldable pub reserve_full_balance :
    PayoutConfig
    → (linked_account requested_by : Option ℕ) → (id now : ℕ) → Earnings
    → Result EarningsError (Payout × Earnings)
reserve_full_balance cfg linked_account requested_by id now e =
    let amount = pos_part (balance e.entries) in
    let p : Payout = record {
      id = id;
      amount_paise = amount;
      status = requested;
      provider = cfg.provider;
      provider_transfer_id = none;
      requested_by_id = requested_by;
      attempts = 0;
      last_attempt_at = none;
      last_error = none;
      paid_at = none;
      created_at = now;
    } in
    if cfg.needs_linked_account && is_none linked_account
    then throw no_linked_account
    else if ltb amount cfg.min_shop_payout_paise
    then throw below_minimum
    else ok (
      p,
      record e {
        payouts = p ∷ e.payouts;
        entries = payout_entry payout_reserved (sub_ℕ 0 amount) id ∷ e.entries;
      },
    )

abbrev pub retry_after_ms : ℕ
retry_after_ms = 300_000

-- `lastAttemptAt: { lt: retryBefore }`, or null.
abbrev pub may_retry : ℕ → Option ℕ → Bool
may_retry now none = true
may_retry now (some t) = ltb (t + retry_after_ms) now

abbrev pub is_claimable : ℕ → Payout → Bool
is_claimable now p = elim p.status [
  | requested ↦ true
  | processing ↦ may_retry now p.last_attempt_at
  | _ ↦ false
]

abbrev pub claim_row : ℕ → Payout → Payout
claim_row now p = record p {
  status = processing;
  attempts = p.attempts + 1;
  last_attempt_at = some now;
  last_error = none;
}

-- The conditional update, and whether it found the row.
unfoldable pub claim_payout : (id now : ℕ) → Earnings → Bool × Earnings
claim_payout id now e = (
  any (λ p. p.id == id && is_claimable now p) e.payouts,
  record e {
    payouts = map (λ p. if p.id == id && is_claimable now p then claim_row now p else p) e.payouts;
  },
)

-- What the provider answered: a transfer that is under way or paid, an error that may pass, or a
-- refusal.
pub data SendOutcome : Type 0 where
  transfer_processing transfer_paid : ℕ → SendOutcome
  uncertain : SendOutcome
  refused : ℕ → SendOutcome

abbrev pub fail_payout : ℕ → Payout → Payout
fail_payout error p = record p { status = PayoutStatus.failed; last_error = some error }

-- The row fails and the reserved amount goes back, unless it did before.
unfoldable pub release_payout : (Payout → Payout) → Payout → Earnings → Earnings
release_payout f p e = record e {
  payouts = map (λ q. if q.id == p.id then f q else q) e.payouts;
  entries =
      upsert (of_payout p.id payout_released)
        (payout_entry payout_released (pos p.amount_paise) p.id) e.entries;
}

abbrev pub pending_message : ℕ
pending_message = 1

abbrev pub sent_row : ℕ → PayoutStatus → Option ℕ → Payout → Payout
sent_row transfer status paid_at p = record p {
  provider_transfer_id = some transfer;
  status = status;
  paid_at = paid_at;
}

abbrev pub error_row : Payout → Payout
error_row p = record p { last_error = some pending_message }

-- `update({ where: { id: payout.id } })`.
abbrev pub write_payout : ℕ → (Payout → Payout) → Earnings → Earnings
write_payout id f e = record e { payouts = map (λ q. if q.id == id then f q else q) e.payouts }

-- The write after the provider answered; it does not look at the status that the row has by then.
unfoldable pub finish_payout : (id now : ℕ) → SendOutcome → Earnings → Earnings
finish_payout id now outcome e = elim (find (λ p. p.id == id) e.payouts) [
  | none ↦ e
  | some p ↦ elim outcome [
    | transfer_processing t ↦ write_payout p.id (sent_row t processing none) e
    | transfer_paid t ↦ write_payout p.id (sent_row t PayoutStatus.paid (some now)) e
    | uncertain ↦ write_payout p.id error_row e
    | refused error ↦ release_payout (fail_payout error) p e
  ]
]

-- `send` is the provider.
unfoldable pub process_payout : (Payout → SendOutcome) → (id now : ℕ) → Earnings → Earnings
process_payout send id now e =
    let (claimed, e') = claim_payout id now e in
    if claimed
    then (elim (find (λ p. p.id == id) e'.payouts) [
      | none ↦ e'
      | some p ↦ finish_payout id now (send p) e'
    ])
    else e'

pub data TransferStatus : Type 0 where
  processed transfer_failed reversed : TransferStatus

abbrev pub is_under_way : Payout → Bool
is_under_way p = elim p.status [ requested ↦ true | processing ↦ true | _ ↦ false ]

abbrev pub settle_row : ℕ → Payout → Payout
settle_row now p = record p { status = PayoutStatus.paid; paid_at = some now; last_error = none }

abbrev pub revert_row : ℕ → Payout → Payout
revert_row reason p = record p {
  status = PayoutStatus.failed;
  paid_at = none;
  last_error = some reason;
}

abbrev pub is_over : Payout → Bool
is_over p = elim p.status [ PayoutStatus.failed ↦ true | PayoutStatus.cancelled ↦ true | _ ↦ false ]

abbrev pub transfer_of : ℕ → List Payout → Option Payout
transfer_of transfer ps = find (λ p. opt_eq p.provider_transfer_id (some transfer)) ps

-- The webhook of the provider.
unfoldable pub apply_payout_provider_status :
    (transfer reason now : ℕ) → TransferStatus → Earnings → Earnings
apply_payout_provider_status transfer reason now status e = elim (transfer_of transfer e.payouts) [
  | none ↦ e
  | some p ↦ elim status [
    | processed ↦ record e {
      payouts = map (λ q. if q.id == p.id && is_under_way q then settle_row now q else q) e.payouts;
    }
    | _ ↦ if is_over p then e else release_payout (revert_row reason) p e
  ]
]
