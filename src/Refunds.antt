-- ===== src/Refunds.antt =====
-- apps/api/src/modules/payments/refund.ts: refundIfPaid, which cancellation, expiry and a sweeper may call
-- at the same time for one job. `RefundState` is what such calls share: the job's row, the calls that
-- wait for the payment provider (each with the job as it was read), the amounts that the provider has
-- paid back, those of them whose answer the server never saw, and the payment events. A call is
-- `start_refund`, the provider's answer, and `end_refund`; a server that stops in between is `stop_refund`.
pub mod Once
mod Tests
use print_q.Base.{
  ◌≡◌, ℕ, Bool, true, false, not, ◌&&◌, if◌then◌else◌, Option, is_some, List, [], ◌∷◌, ◌++◌,
}
use print_q.Job.{Job, PaymentStatus, is_paid, is_pay_at_shop}

pub record RefundEvent : Type 0 where
  pub job_id : ℕ
  pub amount_paise : ℕ

pub record RefundState : Type 0 where
  pub row : Job
  pub calls : List Job
  pub sent : List ℕ
  pub unseen : List ℕ
  pub events : List RefundEvent

abbrev pub is_refunding : PaymentStatus → Bool
is_refunding PaymentStatus.refunding = true
is_refunding _ = false

-- The early returns, on the job as it was read.
abbrev pub is_refundable : Job → Bool
is_refundable seen =
    is_paid seen.payment_status
    && (is_some seen.payment_id && not (is_pay_at_shop seen.payment_provider))

abbrev pub with_status : PaymentStatus → Job → Job
with_status status j = record j { payment_status = status }

-- The guards and the reservation; a call that reserves the refund goes on to the provider.
unfoldable pub start_refund : Job → RefundState → RefundState
start_refund seen s =
    if is_refundable seen && is_paid s.row.payment_status
    then (record s { row = with_status PaymentStatus.refunding s.row; calls = seen ∷ s.calls })
    else s

abbrev pub refund_event : Job → RefundEvent
refund_event seen = record { job_id = seen.id; amount_paise = seen.total_paise }

-- `update ... where paymentStatus: 'refunding'` of the `catch`.
abbrev pub undo_refund : Job → Job
undo_refund row =
    if is_refunding row.payment_status then with_status PaymentStatus.paid row else row

-- How `paymentProvider.refund` ends. It throws on a refusal, and also where the connection fails or times
-- out: then the provider may have paid, or not.
pub data RefundAnswer : Type 0 where
  refund_done refund_refused : RefundAnswer
  refund_unanswered : Bool → RefundAnswer

-- A refund that the provider paid and the server does not know of.
abbrev pub pay_unseen : Bool → Job → RefundState → RefundState
pay_unseen false seen s = s
pay_unseen true seen s = record s {
  sent = seen.total_paise ∷ s.sent;
  unseen = seen.total_paise ∷ s.unseen;
}

-- The `catch`: the row goes back to `paid`, whatever the provider did.
abbrev pub fail_refund : List Job → RefundState → RefundState
fail_refund others s = record s { row = undo_refund s.row; calls = others }

abbrev pub log_refund : Bool → Job → List RefundEvent → List RefundEvent
log_refund logged seen events = if logged then refund_event seen ∷ events else events

-- `others` are the calls that still wait; `logged` is whether the payment event could be written.
unfoldable pub end_refund : RefundAnswer → Bool → Job → List Job → RefundState → RefundState
end_refund refund_refused logged seen others s = fail_refund others s
end_refund (refund_unanswered paid_back) logged seen others s =
    fail_refund others (pay_unseen paid_back seen s)
end_refund refund_done logged seen others s =
    if is_refunding s.row.payment_status
    then (record s {
      row = with_status PaymentStatus.refunded s.row;
      calls = others;
      sent = seen.total_paise ∷ s.sent;
      events = log_refund logged seen s.events;
    })
    else (record s { calls = others; sent = seen.total_paise ∷ s.sent })

-- The server stops while the call waits: nothing more is written.
unfoldable pub stop_refund : Bool → Job → List Job → RefundState → RefundState
stop_refund paid_back seen others s = record (pay_unseen paid_back seen s) { calls = others }

-- The calls that act on one job, in any order.
pub data RefundStep : RefundState → RefundState → Type 0 where
  starting : (seen : Job) {s : RefundState} → RefundStep s (start_refund seen s)
  ending :
      (answer : RefundAnswer) (logged : Bool) (before : List Job) (seen : Job) (after : List Job)
      {s : RefundState}
      → s.calls ≡ before ++ seen ∷ after
      → RefundStep s (end_refund answer logged seen (before ++ after) s)
  stopping :
      (paid_back : Bool) (before : List Job) (seen : Job) (after : List Job) {s : RefundState}
      → s.calls ≡ before ++ seen ∷ after
      → RefundStep s (stop_refund paid_back seen (before ++ after) s)

pub data RefundRun : RefundState → RefundState → Type 0 where
  done : {s : RefundState} → RefundRun s s
  step_then : {a b c : RefundState} → RefundStep a b → RefundRun b c → RefundRun a c
