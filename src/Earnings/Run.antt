-- ===== src/Earnings/Run.antt =====
-- apps/api/src/modules/earnings/service.ts: any sequence of the module's operations on the ledger of a
-- shop. A payout is claimed in one step and finished in a later one, as the provider is called in
-- between; every other call may happen there.
use print_q.Base.{
  ◌≡◌, refl, subst, ℕ, ◌==◌, find, map, includes, ◌&&◌, neg_part, if◌then◌else◌, Bool, true, false,
  Option, List, [], ◌∷◌, Result, ok, throw, Option-cases, Bool-cases, inl, inr,
}
use print_q.Base.Sorting.{sort}
use print_q.Job.{Job}
use print_q.Earnings.{
  Earnings, EarningsError, Payout, BalancePayment, BalancePaymentStatus, pending,
  credit_print_earning, create_shop_balance_payment, confirm_shop_balance_payment, upsert,
  is_pending, newest_first, balance, of_balance_payment, balance_payment, balance_entry,
  pay_balance, reconcile_print_earnings, credit_each,
}
use print_q.Earnings.Payouts.{
  PayoutConfig, reserve_full_balance, claim_payout, finish_payout, SendOutcome,
  apply_payout_provider_status, TransferStatus,
}
use print_q.Earnings.Ledger.{
  IsLedgered, has_release, credit_print_earning-IsLedgered, claim_payout-IsLedgered,
  upsert-IsLedgered,
}
use print_q.Earnings.Ledger.Steps.{
  reserve-IsLedgered, finish_payout-IsLedgered, apply_payout_provider_status-IsLedgered,
}

-- `finishing` is the write of a provider's answer, whatever became of the payout while it was asked.
pub data LedgerStep : Earnings → Earnings → Type 0 where
  crediting :
      (job_id : ℕ) (jobs : List Job) {e : Earnings}
      → LedgerStep e (credit_print_earning job_id jobs e)
  repairing : (jobs : List Job) {e : Earnings} → LedgerStep e (reconcile_print_earnings jobs e)
  billing :
      (id provider provider_order_id by now : ℕ) (r : Bool × BalancePayment) {e e' : Earnings}
      → create_shop_balance_payment id provider provider_order_id by now e ≡ ok (r, e')
      → LedgerStep e e'
  confirming :
      (provider_order_id payment_id now : ℕ) {e : Earnings}
      → LedgerStep e (confirm_shop_balance_payment provider_order_id payment_id now e).1
  reserving :
      (cfg : PayoutConfig) (linked by : Option ℕ) (id now : ℕ) (p : Payout) {e e' : Earnings}
      → includes id (map (λ q. q.id) e.payouts) ≡ false
      → has_release id e.entries ≡ false
      → reserve_full_balance cfg linked by id now e ≡ ok (p, e')
      → LedgerStep e e'
  claiming : (id now : ℕ) {e : Earnings} → LedgerStep e (claim_payout id now e).1
  finishing :
      (id now : ℕ) (outcome : SendOutcome) {e : Earnings}
      → LedgerStep e (finish_payout id now outcome e)
  hearing :
      (transfer reason now : ℕ) (status : TransferStatus) {e : Earnings}
      → LedgerStep e (apply_payout_provider_status transfer reason now status e)

pub data LedgerRun : Earnings → Earnings → Type 0 where
  done : {e : Earnings} → LedgerRun e e
  step_then : {a b c : Earnings} → LedgerStep a b → LedgerRun b c → LedgerRun a c

credit_each-IsLedgered :
    (js jobs : List Job) (e : Earnings) → IsLedgered e → IsLedgered (credit_each js jobs e)
unfolding credit_each
credit_each-IsLedgered [] jobs e k = k
credit_each-IsLedgered (j ∷ js) jobs e k =
    credit_each-IsLedgered js jobs _ (credit_print_earning-IsLedgered j.id jobs e k)

same_books :
    (bs : List BalancePayment) (e : Earnings)
    → IsLedgered e
    → IsLedgered (record e { balance_payments = bs })
same_books bs e k = record {
  ids = k.ids;
  reserved = k.reserved;
  released = k.released;
  each = k.each;
}

abbrev Billed : Result EarningsError ((Bool × BalancePayment) × Earnings) → Type 0
Billed (throw x) = Unit
Billed (ok (r, e)) = IsLedgered e

create-Billed :
    (id provider provider_order_id by now : ℕ) (e : Earnings)
    → IsLedgered e
    → Billed (create_shop_balance_payment id provider provider_order_id by now e)
unfolding create_shop_balance_payment
create-Billed id provider provider_order_id by now e k =
    let amount = neg_part (balance e.entries) in
    elim (Bool-cases (amount == 0)) [
      | inl f ↦ rw (create_shop_balance_payment, f) tt
      | inr f ↦
          elim (Option-cases (
            find (λ p. is_pending p && p.amount_paise == amount)
              (sort newest_first e.balance_payments))) [
                | inl g ↦ rw (create_shop_balance_payment, f, g) (same_books _ e k)
                | inr (p, g) ↦ rw (create_shop_balance_payment, f, g) k
              ]
    ]

confirm-IsLedgered :
    (provider_order_id payment_id now : ℕ) (e : Earnings)
    → IsLedgered e
    → IsLedgered (confirm_shop_balance_payment provider_order_id payment_id now e).1
unfolding confirm_shop_balance_payment
confirm-IsLedgered provider_order_id payment_id now e k =
    elim (Option-cases (find (λ p. p.provider_order_id == provider_order_id) e.balance_payments)) [
      | inl f ↦ rw (confirm_shop_balance_payment, f) k
      | inr (p, f) ↦ rw (confirm_shop_balance_payment, f) (by_status p.status p)
    ]
  where
    by_status :
        (s : BalancePaymentStatus) (p : BalancePayment)
        → IsLedgered
            (elim s as (λ t. Bool × Earnings) [
              | BalancePaymentStatus.paid ↦ (true, e)
              | BalancePaymentStatus.failed ↦ (false, e)
              | pending ↦ (
                true,
                record e {
                  balance_payments =
                      map
                        (λ q. if q.id == p.id then pay_balance payment_id now q else q)
                        e.balance_payments;
                  entries =
                      upsert (of_balance_payment p.id balance_payment) (balance_entry p) e.entries;
                },
              )
            ]).1
    by_status pending p = upsert-IsLedgered _ (balance_entry p) _ e (refl, refl, refl) k
    by_status BalancePaymentStatus.paid p = k
    by_status BalancePaymentStatus.failed p = k

step-IsLedgered : {a b : Earnings} → LedgerStep a b → IsLedgered a → IsLedgered b
unfolding reconcile_print_earnings
step-IsLedgered (crediting job_id jobs) k = credit_print_earning-IsLedgered job_id jobs _ k
step-IsLedgered (repairing jobs) k = credit_each-IsLedgered _ jobs _ k
step-IsLedgered (billing id provider provider_order_id by now r h) k =
    subst Billed h (create-Billed id provider provider_order_id by now _ k)
step-IsLedgered (confirming provider_order_id payment_id now) k =
    confirm-IsLedgered provider_order_id payment_id now _ k
step-IsLedgered (reserving cfg linked by id now p new unreleased h) k =
    reserve-IsLedgered cfg linked by id now p _ _ new unreleased h k
step-IsLedgered (claiming id now) k = claim_payout-IsLedgered id now _ k
step-IsLedgered (finishing id now outcome) k = finish_payout-IsLedgered id now outcome _ k
step-IsLedgered (hearing transfer reason now status) k =
    apply_payout_provider_status-IsLedgered transfer reason now status _ k

-- Whatever sequence of calls acts on the ledger of a shop, in any order, a webhook between the call of
-- the provider and the write of its answer included, where a new payout has a new id: if no two payouts
-- share an id, the ledger took out exactly what was reserved for payouts, put back the whole amount of
-- each payout that has an entry for it, once, and nothing else, and has such an entry for each payout
-- that failed, then all of this holds at the end. A payout with such an entry need not be failed.
pub run-IsLedgered : {a b : Earnings} → LedgerRun a b → IsLedgered a → IsLedgered b
run-IsLedgered done k = k
run-IsLedgered (step_then s r) k = run-IsLedgered r (step-IsLedgered s k)
