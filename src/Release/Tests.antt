-- ===== src/Release/Tests.antt =====
-- A pay-at-shop order that is paid in cash at the counter, and the theorem on releases at it.
use print_q.Base.{◌≡◌, ◌⊎◌, refl, ℕ, true, false, some, none, [], ◌∷◌, ok, ◌+◌, ◌==◌}
use print_q.Status.{queued, otp_verified, ◌is◌, transition, transitions}
use print_q.Job.{Job, counter_due, pay_at_shop, cash, CounterPaymentMethod}
use print_q.Store.{Store, written}
use print_q.Store.Winner.{after_commit}
use print_q.Bands.{assign_bands}
use print_q.Queue.Pass.{line}
use print_q.Engine.Visibility.{is_normal_counter_release}
use print_q.Release.{ReleaseShop, ReleaseRequest, released, live_of}
use print_q.Release.Commit.{release_by_otp, release_change}
use print_q.Release.Paid.{IsSettled}
use print_q.Release.Released.{looked_up, release_by_otp-released}
use print_q.Samples.{job_at, profile, two_slots}

-- The digest of a code, the check of an old hash and the payment id, as functions on numbers.
abbrev digest : ℕ → ℕ → ℕ
digest shop_id otp = shop_id + otp

abbrev payment_ref : CounterPaymentMethod → ℕ → ℕ
payment_ref method id = id

abbrev at_counter : Job
at_counter = record (job_at 1 queued (some 10) (some 12)) {
  payment_status = counter_due;
  payment_provider = some pay_at_shop;
  release_code_digest = some 501;
}

abbrev before : Store
before = record { jobs = at_counter ∷ []; events = []; outbox = [] }

abbrev shop_row : ReleaseShop
shop_row = record {
  auto_assign_enabled = true;
  counter_upi_vpa = none;
  counter_upi_verified_at = none;
  settings = two_slots;
  printers = profile ∷ [];
  agents = (5, 9 ∷ []) ∷ [];
}

abbrev request : ReleaseRequest
request = record {
  shop_id = 1;
  otp = 500;
  shop_user_id = 8;
  manual_printer_id = none;
  override_queue = false;
  payment_confirmation = some (record { method = cash; reference = none });
}

abbrev handed_out : Job
handed_out =
    written (release_change 90 payment_ref request at_counter 9 true) otp_verified 90 at_counter

abbrev after_release : Store
after_release =
    after_commit 90 900 (release_change 90 payment_ref request at_counter 9 true) otp_verified
      before

release_succeeds :
    release_by_otp digest ◌==◌ payment_ref 90 900 request shop_row before before
    ≡ ok (after_release, released handed_out)
unfolding release_by_otp ◌is◌ transition transitions assign_bands
release_succeeds = refl

release_by_otp-released_example :
    (m : Job) × (looked_up digest ◌==◌ payment_ref request before ≡ some m)
    × (handed_out.status ≡ otp_verified)
    × IsSettled request m handed_out
    × ((is_normal_counter_release m.status (live_of shop_row (line 1 before.jobs) m.id).band ≡ true)
        ⊎ (request.override_queue ≡ true))
release_by_otp-released_example =
    release_by_otp-released digest ◌==◌ payment_ref 90 900 request shop_row before before
      after_release handed_out release_succeeds
