-- ===== src/Refunds/Tests.antt =====
-- Calls that race to refund one cancelled order.
use print_q.Base.{◌≡◌, refl, ◌≤◌, ◌+◌, true, some, none, [], length}
use print_q.Status.{JobStatus}
use print_q.Job.{Job, online_provider}
use print_q.Samples.{job_at}
use print_q.Refunds.{
  RefundState, RefundRun, start_refund, end_refund, starting, ending, refund_done,
  refund_unanswered, done, step_then,
}
use print_q.Refunds.Once.{known_refunds, RefundRun-once}

abbrev cancelled_order : Job
cancelled_order = record (job_at 1 JobStatus.cancelled none none) {
  payment_provider = some online_provider;
}

abbrev before_refund : RefundState
before_refund = record { row = cancelled_order; calls = []; sent = []; unseen = []; events = [] }

abbrev first_waits : RefundState
first_waits = start_refund cancelled_order (start_refund cancelled_order before_refund)

-- The first call reserves, the second finds nothing to do, the provider pays but the answer is lost, and
-- a later call refunds again.
abbrev after_calls : RefundState
after_calls = end_refund refund_done true cancelled_order [] (
    start_refund cancelled_order
      (end_refund (refund_unanswered true) true cancelled_order [] first_waits))

racing : RefundRun before_refund after_calls
unfolding start_refund end_refund
racing = step_then (starting cancelled_order) (
    step_then (starting cancelled_order) (
      step_then (ending (refund_unanswered true) true [] cancelled_order [] refl) (
        step_then (starting cancelled_order)
          (step_then (ending refund_done true [] cancelled_order [] refl) done))))

-- The retry after a lost answer pays the same job twice.
paid_back_twice : length after_calls.sent ≡ 2
unfolding start_refund end_refund
paid_back_twice = refl

RefundRun-once_example :
    (length after_calls.calls ≤ 1)
    × (length after_calls.sent
        ≡ length after_calls.unseen + known_refunds after_calls.row.payment_status)
RefundRun-once_example = RefundRun-once racing refl refl refl refl
