-- ===== src/Printing/Tests.antt =====
-- A print whose agent goes silent, and the theorems on lost prints and claims at it.
use print_q.Base.{
  ◌≡◌, ◌≤◌, ◌==◌, refl, false, some, none, [], ◌∷◌, map, find, length, All, ok, throw,
}
use print_q.Status.{printing, otp_verified, ◌is◌, transition, transitions}
use print_q.Job.{Job, agent_offline}
use print_q.Store.{Store, written, apply_transition, commit}
use print_q.Store.Winner.{apply_transition_won, after_commit}
use print_q.Printing.{
  Agent, Timeouts, sweep, print_lost_reason, mark_print_failed_agent_gone, lost_change, claim,
  not_printable, claimable, reserve_claim, start_claim,
}
use print_q.Printing.Held.{mark_print_failed-claim}
use print_q.Printing.Claims.{
  ClaimState, ClaimRun, reserve, start, reserving, starting, done, step_then, Names, claim_race,
}
use print_q.Engine.Absent.{by_system}
use print_q.Samples.{job_at}

abbrev env : Timeouts
env = record {
  print_lease_timeout_seconds = 90;
  print_claim_timeout_seconds = 120;
  print_spool_timeout_seconds = 900;
}

abbrev computer : Agent
computer = record {
  id = 5;
  shop_id = 1;
  is_offline = false;
  last_heartbeat_at = some 10;
  created_at = 1;
  session_id = some 6;
  connected_printer_ids = 9 ∷ [];
}

abbrev in_print : Job
in_print = record (job_at 1 printing none none) {
  claimed_by_agent_id = some 5;
  claimed_by_session_id = some 6;
}

abbrev before : Store
before = record { jobs = in_print ∷ []; events = []; outbox = [] }

lost_won :
    mark_print_failed_agent_gone 100_000 900 in_print by_system agent_offline before
    ≡ ok (
      after_commit 100_000 900 (lost_change in_print by_system agent_offline) otp_verified before,
      some (written (lost_change in_print by_system agent_offline) otp_verified 100_000 in_print),
    )
unfolding mark_print_failed_agent_gone transition transitions ◌is◌
lost_won =
    (apply_transition_won 100_000 900 (lost_change in_print by_system agent_offline) otp_verified
      before in_print (λ j. refl) refl refl refl).0

mark_print_failed-claim_example :
    claim 100_001 901 computer 1
      (λ db. db)
      (after_commit 100_000 900 (lost_change in_print by_system agent_offline) otp_verified before)
    ≡ (
      after_commit 100_000 900 (lost_change in_print by_system agent_offline) otp_verified before,
      throw not_printable,
    )
unfolding print_lost_reason
mark_print_failed-claim_example =
    mark_print_failed-claim env in_print (some computer) 100_000 sweep agent_offline refl 100_000
      900 by_system before
      (after_commit 100_000 900 (lost_change in_print by_system agent_offline) otp_verified before)
      (written (lost_change in_print by_system agent_offline) otp_verified 100_000 in_print)
      (refl, tt) lost_won 100_001 901 computer (λ db. db)

abbrev released : Store
released = record { jobs = job_at 1 otp_verified none none ∷ []; events = []; outbox = [] }

abbrev other : Agent
other = record computer { id = 4 }

abbrev no_claims : ClaimState
no_claims = record { store = released; waiting = []; winners = [] }

-- One computer reserves the job, another tries between its two statements, and the first goes on.
abbrev both_claimed : ClaimState
both_claimed = reserve 21 other 1 (reserve 20 computer 1 no_claims)

abbrev after_claims : ClaimState
after_claims = start 22 900 computer 1 [] both_claimed

racing : ClaimRun 1 no_claims after_claims
unfolding reserve reserve_claim claimable ◌is◌
racing =
    step_then (reserving 20 computer)
      (step_then (reserving 21 other) (step_then (starting 22 900 [] computer [] refl) done))

one_winner : map (λ a. a.id) after_claims.winners ≡ 5 ∷ []
unfolding start start_claim reserve reserve_claim claimable ◌is◌ apply_transition transition
    transitions commit
one_winner = refl

claim_race_example :
    (length after_claims.winners ≤ 1)
    × ((row : Job) × (find (λ x. x.id == 1) after_claims.store.jobs ≡ some row)
        × All (Names row) after_claims.waiting
        × All (Names row) after_claims.winners)
claim_race_example = claim_race racing (job_at 1 otp_verified none none) (refl, tt) refl refl refl
