-- ===== src/Release/Released.antt =====
-- What a successful release proves: apps/api/src/modules/queue/release.ts.
use print_q.Base.{
  ℕ, ◌≡◌, refl, ◌⊎◌, inl, inr, arith, Bool, true, false, not, ◌&&◌, Option, none, some, List,
  Option-cases, is_none, Result, ok, throw, if◌then◌else◌,
}
use print_q.Status.{otp_verified}
use print_q.Job.{Job, CounterPaymentMethod}
use print_q.Store.{Store}
use print_q.Assignment.{PrinterRecommendation}
use print_q.Queue.Pass.{line}
use print_q.Engine.CheckIn.{payment_ready}
use print_q.Engine.Visibility.{is_normal_counter_release}
use print_q.Release.{
  ReleaseShop, ReleaseRequest, ReleaseResult, released, requires_payment_confirmation,
  requires_manual_assignment, requires_queue_override, ReleaseFault, match_code, early_fault,
  live_of,
}
use print_q.Release.Commit.{
  payment_due, release_on, release_matched, release_choice, release_by_otp, upi_refused,
}
use print_q.Release.Paid.{
  IsSettled, match_code-payment_ready, settle-released, release_change-released,
}

if-ok :
    {E A : Type 0} (b c : Bool) (x y : Result E A) (e : E) (a : A)
    → (if b then x else (if c then throw e else y)) ≡ ok a
    → ((b ≡ true) × (x ≡ ok a)) ⊎ ((b ≡ false) × (y ≡ ok a))
if-ok true c x y e a h = inl (refl, h)
if-ok false true x y e a h = absurd (ground arith)
if-ok false false x y e a h = inr (refl, h)

abbrev as_result : Store × ReleaseResult → Result ReleaseFault (Store × ReleaseResult)
as_result x = ok x

ok-answer : (x y : Store × ReleaseResult) → as_result x ≡ as_result y → x.1 ≡ y.1
ok-answer (a, b) (c, d) h = ground arith

abbrev is_release_answer : ReleaseResult → Bool
is_release_answer (released row) = true
is_release_answer _ = false

other_answer : (r : ReleaseResult) (row : Job) → is_release_answer r ≡ false → r ≡ released row → ⊥
other_answer r row h e = ground arith

release_on-released :
    (now event_id : ℕ) (payment_ref : CounterPaymentMethod → ℕ → ℕ) (req : ReleaseRequest)
    (s : ReleaseShop) (m : Job) (normal : Bool) (printer : ℕ) (db db' : Store) (row : Job)
    → payment_ready m ≡ true
    → release_on now event_id payment_ref req s m normal printer db ≡ ok (db', released row)
    → (row.status ≡ otp_verified) × IsSettled req m row
unfolding release_on
release_on-released now event_id payment_ref req s m normal printer db db' row ready h =
    elim (if-ok (payment_due m && is_none req.payment_confirmation)
      (upi_refused s req.payment_confirmation) _ _ _ _ h) [
        | inl (_, asks) ↦
            absurd
              (other_answer (requires_payment_confirmation m printer) row refl (ok-answer _ _ asks))
        | inr (held, settled) ↦
            let (db0, won) = settle-released now m req s.agents _ db' row settled in
            release_change-released now event_id payment_ref req m normal printer db db0 row ready
              held won
      ]

release_choice-released :
    (now event_id : ℕ) (payment_ref : CounterPaymentMethod → ℕ → ℕ) (req : ReleaseRequest)
    (s : ReleaseShop) (m : Job) (normal : Bool) (eligible : List PrinterRecommendation)
    (choice : Result ReleaseFault (Option ℕ)) (db db' : Store) (row : Job)
    → payment_ready m ≡ true
    → release_choice now event_id payment_ref req s m normal eligible choice db
      ≡ ok (db', released row)
    → (row.status ≡ otp_verified) × IsSettled req m row
unfolding release_choice
release_choice-released now event_id payment_ref req s m normal eligible (throw e) db db' row ready
      h =
    absurd (ground arith)
release_choice-released now event_id payment_ref req s m normal eligible (ok none) db db' row ready
      h =
    absurd (other_answer (requires_manual_assignment m eligible) row refl (ok-answer _ _ h))
release_choice-released now event_id payment_ref req s m normal eligible (ok (some p)) db db' row
      ready h =
    release_on-released now event_id payment_ref req s m normal p db db' row ready h

if-cases :
    {A : Type 0} (b : Bool) (x y a : A)
    → (if b then x else y) ≡ a
    → ((b ≡ true) × (x ≡ a)) ⊎ ((b ≡ false) × (y ≡ a))
if-cases true x y a h = inl (refl, h)
if-cases false x y a h = inr (refl, h)

either_of : (b c : Bool) → (not b && not c) ≡ false → (b ≡ true) ⊎ (c ≡ true)
either_of true c h = inl refl
either_of false true h = inr refl
either_of false false h = absurd (ground arith)

release_matched-released :
    (now event_id : ℕ) (payment_ref : CounterPaymentMethod → ℕ → ℕ) (req : ReleaseRequest)
    (s : ReleaseShop) (jobs : List Job) (m : Job) (db db' : Store) (row : Job)
    → payment_ready m ≡ true
    → release_matched now event_id payment_ref req s jobs m db ≡ ok (db', released row)
    → (row.status ≡ otp_verified)
      × IsSettled req m row
      × ((is_normal_counter_release m.status (live_of s jobs m.id).band ≡ true)
          ⊎ (req.override_queue ≡ true))
unfolding release_matched
release_matched-released now event_id payment_ref req s jobs m db db' row ready h =
    let normal = is_normal_counter_release m.status (live_of s jobs m.id).band in
    elim (if-cases (not normal && not req.override_queue) _ _ _ h) [
      | inl (_, asks) ↦ absurd (
          other_answer (requires_queue_override m (live_of s jobs m.id).position) row refl
            (ok-answer _ _ asks))
      | inr (held, chosen) ↦
          let (status, settled) =
            release_choice-released now event_id payment_ref req s m normal _ _ db db' row ready
              chosen in
          (status, settled, either_of normal req.override_queue held)
    ]

no_answer : {A : Type 0} {f : ReleaseFault} {a : A} → throw f ≡ ok a → ⊥
no_answer h = ground arith

module _ (digest_release_code : ℕ → ℕ → ℕ) (verify_otp_hash : ℕ → ℕ → Bool)
    (payment_ref : CounterPaymentMethod → ℕ → ℕ) where
  abbrev pub looked_up : ReleaseRequest → Store → Option Job
  looked_up req seen =
      match_code req.shop_id (digest_release_code req.shop_id req.otp)
        (λ hash. verify_otp_hash hash req.otp) seen.jobs

  -- A release that succeeds hands out no unpaid print and serves nobody out of turn unasked: the code
  -- belongs to an order of the shop; the returned row is released; the order was paid when it was
  -- looked up, or staff confirmed the payment, which the row records with the amount that the
  -- server had computed; and the student was in the revealed band, or staff asked for an override.
  pub release_by_otp-released :
      (now event_id : ℕ) (req : ReleaseRequest) (s : ReleaseShop) (seen db db' : Store) (row : Job)
      → release_by_otp digest_release_code verify_otp_hash payment_ref now event_id req s seen db
        ≡ ok (db', released row)
      → (m : Job) × (looked_up req seen ≡ some m)
        × (row.status ≡ otp_verified)
        × IsSettled req m row
        × ((is_normal_counter_release m.status (live_of s (line req.shop_id seen.jobs) m.id).band
              ≡ true)
            ⊎ (req.override_queue ≡ true))
  unfolding release_by_otp
  release_by_otp-released now event_id req s seen db db' row h =
      elim (Option-cases (looked_up req seen)) [
        | inl e ↦ absurd (no_answer (rw (e, release_by_otp) at h))
        | inr (m, e) ↦ elim (Option-cases (early_fault now m)) [
          | inr (f, g) ↦ absurd (no_answer (rw (e, g, release_by_otp) at h))
          | inl g ↦
              let (status, settled, turn) =
                release_matched-released now event_id payment_ref req s (line req.shop_id seen.jobs)
                  m db db' row
                  (match_code-payment_ready req.shop_id (digest_release_code req.shop_id req.otp)
                    (λ hash. verify_otp_hash hash req.otp) seen.jobs m e)
                  (rw (e, g, release_by_otp) at h) in
              (m, e, status, settled, turn)
        ]
      ]
