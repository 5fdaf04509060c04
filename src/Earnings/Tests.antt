-- ===== src/Earnings/Tests.antt =====
-- A shop with one printed online order that asks for a payout, whose transfer fails later.
use print_q.Base.{◌≡◌, refl, ◌+ℤ◌, true, none, some, [], ◌∷◌, ok, negsuc}
use print_q.Status.{ready_for_pickup, ◌is◌}
use print_q.Job.{Job, online_provider}
use print_q.Samples.{job_at}
use print_q.Earnings.{
  Earnings, Payout, requested, balance, credit_print_earning, payout_reserved, upsert,
}
use print_q.Earnings.Payouts.{
  PayoutConfig, reserve_full_balance, claim_payout, finish_payout, transfer_processing,
  transfer_failed, apply_payout_provider_status, payout_entry,
}
use print_q.Earnings.Ledger.{IsLedgered}
use print_q.Earnings.Run.{
  done, step_then, crediting, reserving, claiming, finishing, hearing, run-IsLedgered,
}

abbrev new_ledger : Earnings
new_ledger = record { entries = []; payouts = []; balance_payments = [] }

abbrev printed_job : Job
printed_job = record (job_at 1 ready_for_pickup none none) {
  payment_provider = some online_provider;
}

abbrev credited : Earnings
credited = credit_print_earning 1 (printed_job ∷ []) new_ledger

abbrev terms : PayoutConfig
terms = record { provider = 3; needs_linked_account = true; min_shop_payout_paise = 500 }

abbrev whole_balance : Payout
whole_balance = record {
  id = 5;
  amount_paise = 1_000;
  status = requested;
  provider = 3;
  provider_transfer_id = none;
  requested_by_id = some 8;
  attempts = 0;
  last_attempt_at = none;
  last_error = none;
  paid_at = none;
  created_at = 60;
}

abbrev after_reserve : Earnings
after_reserve = record credited {
  payouts = whole_balance ∷ [];
  entries = payout_entry payout_reserved (negsuc 999) 5 ∷ credited.entries;
}

reserves :
    reserve_full_balance terms (some 9) (some 8) 5 60 credited ≡ ok (whole_balance, after_reserve)
unfolding reserve_full_balance credit_print_earning balance ◌+ℤ◌ ◌is◌ upsert
reserves = refl

run-IsLedgered_example : IsLedgered (
    apply_payout_provider_status 77 4 90 transfer_failed
      (finish_payout 5 71 (transfer_processing 77) (claim_payout 5 70 after_reserve).1))
unfolding credit_print_earning ◌is◌ upsert claim_payout
run-IsLedgered_example =
    run-IsLedgered
      (step_then {a = new_ledger} (crediting 1 (printed_job ∷ [])) (
        step_then (reserving terms (some 9) (some 8) 5 60 whole_balance refl refl reserves) (
          step_then (claiming 5 70) (
            step_then (finishing 5 71 (transfer_processing 77))
              (step_then (hearing 77 4 90 transfer_failed) done)))))
      (record { ids = tt; reserved = refl; released = refl; each = tt })
