-- ===== src/Refunds/Once.antt =====
-- apps/api/src/modules/payments/refund.ts: how often the provider pays a job back.
use print_q.Base.{
  ◌≡◌, refl, subst, ap, ◌∙◌, ℕ, suc, ◌+◌, ◌≤◌, arith, Bool, true, false, List, [], ◌∷◌, ◌++◌,
  length, Bool-cases, inl, inr, if◌then◌else◌, ◌&&◌,
}
use print_q.Job.{Job, PaymentStatus, is_paid}
use print_q.Refunds.{
  RefundState, RefundAnswer, refund_done, refund_refused, refund_unanswered, is_refunding,
  is_refundable, start_refund, end_refund, stop_refund, RefundStep, starting, ending, stopping,
  RefundRun, done, step_then,
}

abbrev pub is_refunded : PaymentStatus → Bool
is_refunded PaymentStatus.refunded = true
is_refunded _ = false

-- The refunds that the server knows of: one, once the row says so.
abbrev pub known_refunds : PaymentStatus → ℕ
known_refunds p = if is_refunded p then 1 else 0

-- How many calls may wait by the status of the row, and how many refunds have been paid.
abbrev pub Allowed : PaymentStatus → (calls sent unseen : ℕ) → Type 0
Allowed p calls sent unseen =
    (calls ≤ (if is_refunding p then 1 else 0)) × (sent ≡ unseen + known_refunds p)

unfoldable pub IsOnce : RefundState → Type 0
IsOnce s = Allowed s.row.payment_status (length s.calls) (length s.sent) (length s.unseen)

length-split :
    (before : List Job) (seen : Job) (after : List Job)
    → length (before ++ seen ∷ after) ≡ suc (length (before ++ after))
length-split [] seen after = refl
length-split (x ∷ before) seen after = ap suc (length-split before seen after)

-- A job that says `paid` can be reserved.
paid-Allowed :
    (p : PaymentStatus) (calls sent unseen : ℕ)
    → is_paid p ≡ true
    → Allowed p calls sent unseen
    → Allowed PaymentStatus.refunding (suc calls) sent unseen
paid-Allowed p calls sent unseen h k = ground arith

-- A call can only wait while the row is reserved.
reserved :
    (p : PaymentStatus) (calls sent unseen : ℕ)
    → Allowed p (suc calls) sent unseen
    → (p ≡ PaymentStatus.refunding) × (calls ≡ 0) × (sent ≡ unseen)
reserved p calls sent unseen k = ground arith

and-right : (a b : Bool) → (a && b) ≡ true → b ≡ true
and-right a b h = ground arith

starting-IsOnce : (seen : Job) (s : RefundState) → IsOnce s → IsOnce (start_refund seen s)
unfolding IsOnce start_refund
starting-IsOnce seen s k = elim (Bool-cases (is_refundable seen && is_paid s.row.payment_status)) [
  | inl go ↦ rw go (
      paid-Allowed s.row.payment_status (length s.calls) (length s.sent) (length s.unseen)
        (and-right _ _ go) k)
  | inr back ↦ rw back k
]

waiting_call :
    (before : List Job) (seen : Job) (after : List Job) (s : RefundState)
    → s.calls ≡ before ++ seen ∷ after
    → IsOnce s
    → (s.row.payment_status ≡ PaymentStatus.refunding)
      × (length (before ++ after) ≡ 0)
      × (length s.sent ≡ length s.unseen)
unfolding IsOnce
waiting_call before seen after s e k =
    reserved s.row.payment_status (length (before ++ after)) (length s.sent) (length s.unseen) (
      subst (λ n. Allowed s.row.payment_status n (length s.sent) (length s.unseen))
        (ap length e ∙ length-split before seen after) k)

ending-IsOnce :
    (answer : RefundAnswer) (logged : Bool) (before : List Job) (seen : Job) (after : List Job)
    (s : RefundState)
    → s.calls ≡ before ++ seen ∷ after
    → IsOnce s
    → IsOnce (end_refund answer logged seen (before ++ after) s)
unfolding IsOnce end_refund
ending-IsOnce refund_done logged before seen after s e k =
    let (refunding, none_left, none_known) = waiting_call before seen after s e k in
    rw refunding (omega (arith, none_left), omega (arith, none_known))
ending-IsOnce refund_refused logged before seen after s e k =
    let (refunding, none_left, none_known) = waiting_call before seen after s e k in
    rw refunding (omega (arith, none_left), omega (arith, none_known))
ending-IsOnce (refund_unanswered true) logged before seen after s e k =
    let (refunding, none_left, none_known) = waiting_call before seen after s e k in
    rw refunding (omega (arith, none_left), omega (arith, none_known))
ending-IsOnce (refund_unanswered false) logged before seen after s e k =
    let (refunding, none_left, none_known) = waiting_call before seen after s e k in
    rw refunding (omega (arith, none_left), omega (arith, none_known))

stopping-IsOnce :
    (paid_back : Bool) (before : List Job) (seen : Job) (after : List Job) (s : RefundState)
    → s.calls ≡ before ++ seen ∷ after
    → IsOnce s
    → IsOnce (stop_refund paid_back seen (before ++ after) s)
unfolding IsOnce stop_refund
stopping-IsOnce true before seen after s e k =
    let (refunding, none_left, none_known) = waiting_call before seen after s e k in
    rw refunding (omega (arith, none_left), omega (arith, none_known))
stopping-IsOnce false before seen after s e k =
    let (refunding, none_left, none_known) = waiting_call before seen after s e k in
    rw refunding (omega (arith, none_left), omega (arith, none_known))

step-IsOnce : {a b : RefundState} → RefundStep a b → IsOnce a → IsOnce b
step-IsOnce (starting seen) k = starting-IsOnce seen _ k
step-IsOnce (ending answer logged before seen after e) k =
    ending-IsOnce answer logged before seen after _ e k
step-IsOnce (stopping paid_back before seen after e) k =
    stopping-IsOnce paid_back before seen after _ e k

run-IsOnce : {a b : RefundState} → RefundRun a b → IsOnce a → IsOnce b
run-IsOnce done k = k
run-IsOnce (step_then s r) k = run-IsOnce r (step-IsOnce s k)

no_calls :
    (p : PaymentStatus) (calls sent unseen : ℕ)
    → is_refunded p ≡ false
    → calls ≡ 0
    → sent ≡ 0
    → unseen ≡ 0
    → Allowed p calls sent unseen
no_calls p calls sent unseen f h k l = ground arith

at_most_one :
    (p : PaymentStatus) (calls sent unseen : ℕ)
    → Allowed p calls sent unseen
    → (calls ≤ 1) × (sent ≡ unseen + known_refunds p)
at_most_one p calls sent unseen k = ground arith

-- The server never asks twice knowingly: however many calls of refundIfPaid act on a job, from whatever
-- reads of its row, in whatever order their steps come, however the provider answers and wherever the
-- server stops, if no call waited, nothing was paid back before and the row was not refunded, then at
-- most one call waits for the provider at the end, and the refunds that were paid are one if the row
-- says refunded (none otherwise) and those whose answer was lost. So a second refund needs a lost answer.
-- Nothing else writes the payment status meanwhile.
pub RefundRun-once :
    {a b : RefundState}
    → RefundRun a b
    → is_refunded a.row.payment_status ≡ false
    → a.calls ≡ []
    → a.sent ≡ []
    → a.unseen ≡ []
    → (length b.calls ≤ 1) × (length b.sent ≡ length b.unseen + known_refunds b.row.payment_status)
unfolding IsOnce
RefundRun-once {a} {b} run not_yet no_call no_sent no_unseen =
    at_most_one b.row.payment_status (length b.calls) (length b.sent) (length b.unseen) (
      run-IsOnce run (
        no_calls a.row.payment_status _ _ _ not_yet (ap length no_call) (ap length no_sent)
          (ap length no_unseen)))
