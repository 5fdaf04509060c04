-- ===== src/Queueing.antt =====
-- packages/shared/src/queueing.ts: which waiting job is promoted next, scheduled ones near their
-- slot against walk-ins.
pub mod Fair
mod Tests
use print_q.Base.{
  ℕ, ◌+◌, Bool, true, false, not, ◌&&◌, Option, none, some, List, [], ◌∷◌, leb, ltb, if◌then◌else◌,
  or_else, keep, head?,
}
use print_q.Base.Sorting.{sort}
use print_q.Job.{JobMode, is_scheduled}

pub record QueueCandidate : Type 0 where
  pub id : ℕ
  pub mode : JobMode
  -- The payment-confirmation time.
  pub queued_at : ℕ
  pub scheduled_time : Option ℕ

-- `c.scheduledTime !== null && c.scheduledTime.getTime() <= limit`.
abbrev pub within : Option ℕ → ℕ → Bool
within none limit = false
within (some slot) limit = leb slot limit

unfoldable pub is_due : ℕ → QueueCandidate → Bool
is_due limit c = is_scheduled c.mode && within c.scheduled_time limit

abbrev pub slot_of : QueueCandidate → ℕ
slot_of c = or_else c.scheduled_time 0

abbrev pub by_slot : QueueCandidate → QueueCandidate → Bool
by_slot a b = leb (slot_of a) (slot_of b)

abbrev pub by_queued_at : QueueCandidate → QueueCandidate → Bool
by_queued_at a b = leb a.queued_at b.queued_at

unfoldable pub due_scheduled : List QueueCandidate → ℕ → ℕ → List QueueCandidate
unfolding is_due sort
due_scheduled candidates now lead_ms = sort by_slot (keep (is_due (now + lead_ms)) candidates)

abbrev pub is_instant : QueueCandidate → Bool
is_instant c = not (is_scheduled c.mode)

unfoldable pub instants : List QueueCandidate → List QueueCandidate
unfolding sort
instants candidates = sort by_queued_at (keep is_instant candidates)

-- `lastPromotedMode === 'scheduled'`.
abbrev pub last_was_scheduled : Option JobMode → Bool
last_was_scheduled none = false
last_was_scheduled (some mode) = is_scheduled mode

unfoldable pub choose : Bool → List QueueCandidate → List QueueCandidate → Option QueueCandidate
choose last_scheduled [] instant = head? instant
choose last_scheduled (d ∷ due) [] = some d
choose last_scheduled (d ∷ due) (i ∷ instant) = if last_scheduled then some i else some d

unfoldable pub pick_next_job : List QueueCandidate → Option JobMode → ℕ → ℕ → Option QueueCandidate
unfolding choose due_scheduled instants
pick_next_job candidates last_promoted_mode now lead_ms =
    choose (last_was_scheduled last_promoted_mode) (due_scheduled candidates now lead_ms)
      (instants candidates)

-- `c.scheduledTime !== null && c.scheduledTime.getTime() > now + leadMs`.
abbrev pub beyond : Option ℕ → ℕ → Bool
beyond none limit = false
beyond (some slot) limit = ltb limit slot

unfoldable pub is_pending_scheduled : QueueCandidate → ℕ → ℕ → Bool
is_pending_scheduled c now lead_ms = is_scheduled c.mode && beyond c.scheduled_time (now + lead_ms)
