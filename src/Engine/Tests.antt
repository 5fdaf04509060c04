-- ===== src/Engine/Tests.antt =====
-- A student who checks in, and one whose timer has run out, with the theorems of the live line at
-- them. Places are points on a line here, and the distance between two is their difference.
use print_q.Base.{
  map, ◌==◌, if◌then◌else◌, ◌≡◌, ◌++◌, refl, ℕ, ◌+◌, ◌-◌, true, false, some, none, [], ◌∷◌, ok,
}
use print_q.Status.{transition, transitions, queued, awaiting_arrival, ◌is◌}
use print_q.Job.{Job}
use print_q.Store.{Store, apply_transition, commit}
use print_q.Store.Winner.{after_commit}
use print_q.Assignment.{PrinterRecommendation}
use print_q.Queue.Pass.{line}
use print_q.Engine.Absent.{sweep_expired_reveals, sweep_loop, expire_reveal, mark_absent}
use print_q.Engine.Absent.Expiry.{ExpiryOutcome, expire_reveal_race}
use print_q.Engine.CheckIn.{
  ArrivalProof, ShopRow, check_in_job, check_in_fault, recommended_printer, join_line, may_arrive,
  payment_ready, opens_later, arrival_change,
}
use print_q.Engine.CheckIn.Entry.{IsAtShop, check_in_job-entry, check_in_job-result}
use print_q.Engine.CheckIn.Again.{check_in_job-again}
use print_q.Engine.CheckIn.Back.{check_in_job-last}
use print_q.Samples.{store, job_at, profile}

-- The timer reads job 1, which was revealed and is overdue; staff find it at the counter, which disarms
-- the timer, before the update runs.
abbrev disarmed : Store
disarmed = record store {
  jobs = map (λ j. if j.id == 1 then record j { reveal_deadline_at = none } else j) store.jobs;
}

expire_reveal_race_example : ExpiryOutcome 90 900 1 store disarmed
expire_reveal_race_example =
    expire_reveal_race 90 900 1 store disarmed (refl, (refl, (refl, (refl, tt))))

-- Left alone, the sweep expires it.
swept : (sweep_expired_reveals 90 900 store).1 ≡ 1
unfolding sweep_expired_reveals sweep_loop expire_reveal mark_absent apply_transition commit
    transition transitions ◌is◌
swept = refl

abbrev distance : ℕ → ℕ → ℕ
distance a b = (a - b) + (b - a)

abbrev proof : ArrivalProof ℕ
proof = record { place = 130; accuracy_m = 20; measured_at = 85 }

abbrev shop_row : ShopRow ℕ
shop_row = record {
  place = some 100;
  check_in_radius_m = 50;
  printers = profile ∷ [];
  agents = (9 ∷ []) ∷ [];
}

abbrev absentee : Job
absentee = job_at 4 awaiting_arrival none none

-- Three jobs of three pages, two copies each, are ahead on the only printer.
abbrev best : PrinterRecommendation
best = record { printer_id = 9; estimated_wait_minutes = 8; queue_length = 3 }

no_fault : check_in_fault distance 90 15 proof shop_row absentee ≡ none
unfolding check_in_fault ◌is◌
no_fault = refl

best_printer : recommended_printer distance shop_row store absentee ≡ some best
unfolding recommended_printer ◌is◌
best_printer = refl

abbrev joined : Job
joined = record (join_line 90 9 absentee) { status = queued; updated_at = 90 }

abbrev after_check_in : Store
after_check_in = after_commit 90 900 (arrival_change 90 absentee 104 9) queued store

checked_in :
    check_in_job distance 90 900 15 4 104 proof shop_row store store ≡ ok (after_check_in, joined)
unfolding ◌is◌
checked_in =
    check_in_job-result distance 90 900 15 4 104 proof shop_row store absentee best refl refl refl
      no_fault best_printer

check_in_job-entry_example :
    (may_arrive awaiting_arrival ≡ true)
    × (payment_ready absentee ≡ true)
    × IsAtShop distance 90 proof shop_row
    × (opens_later 90 15 absentee ≡ false)
    × (p : PrinterRecommendation) × (recommended_printer distance shop_row store absentee ≡ some p)
unfolding ◌is◌
check_in_job-entry_example =
    check_in_job-entry distance 90 900 15 4 104 proof shop_row store store absentee
      (after_check_in, joined) refl refl checked_in

check_in_job-last_example :
    (db' : Store) × (check_in_job distance 90 900 15 4 104 proof shop_row store store
      ≡ ok (db', joined))
    × (line 1 db'.jobs ≡ line 1 store.jobs ++ joined ∷ [])
unfolding line ◌is◌
check_in_job-last_example =
    check_in_job-last distance 90 900 15 4 104 proof shop_row store absentee best
      (refl, (refl, (refl, (refl, tt)))) refl refl refl no_fault best_printer
      (refl, (refl, (refl, tt)))

-- The same student taps twice; the second request reads what the first read, and brings a newer reading.
newer : check_in_fault distance 91 15 (record proof { measured_at = 88 }) shop_row absentee ≡ none
unfolding check_in_fault ◌is◌
newer = refl

check_in_job-again_example :
    check_in_job distance 91 901 15 4 104
      (record proof { measured_at = 88 })
      shop_row
      store
      after_check_in
    ≡ ok (after_check_in, joined)
unfolding ◌is◌
check_in_job-again_example =
    check_in_job-again distance 90 91 900 901 15 4 104 proof (record proof { measured_at = 88 })
      shop_row shop_row store store absentee best best (after_check_in, joined)
      (refl, (refl, (refl, (refl, tt)))) refl refl no_fault best_printer newer best_printer
      checked_in
