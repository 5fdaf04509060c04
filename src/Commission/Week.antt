-- ===== src/Commission/Week.antt =====
-- apps/api/src/modules/commission/statementService.ts: lastCompletedWeeklyPeriodInIndia.
use print_q.Base.{◌≡◌, ℕ, ◌+◌, ◌-◌, ◌*◌, ◌/◌, ◌%◌, ◌≤◌, ◌<◌, arith}
use print_q.Fees.{day_ms}
use print_q.Commission.{StatementPeriod}

abbrev pub ist_offset_ms : ℕ
ist_offset_ms = 19_800_000

-- The day of an instant in India, counted from 1 January 1970, a Thursday.
abbrev pub local_day : ℕ → ℕ
local_day now = (now + ist_offset_ms) / day_ms

-- `(local.getUTCDay() + 6) % 7`.
abbrev pub days_since_monday : ℕ → ℕ
days_since_monday now = (local_day now + 3) % 7

-- `Date.UTC(year, month, date - daysSinceMonday) - IST_OFFSET_MS`.
unfoldable pub current_monday : ℕ → ℕ
current_monday now = (local_day now - days_since_monday now) * day_ms - ist_offset_ms

unfoldable pub last_completed_weekly_period : ℕ → StatementPeriod
last_completed_weekly_period now = record {
  start = current_monday now - 7 * day_ms;
  end = current_monday now;
}

-- From the third week of 1970 on, the period is the last whole week from Monday to Monday of India:
-- it ends at most a week before now, it is seven days long, it starts and ends at a midnight of India
-- that begins a Monday, and the period asked for a week later starts where this one ends.
pub last_completed_weekly_period-tiles :
    (now : ℕ)
    → 14 * day_ms ≤ now
    → let period = last_completed_weekly_period now in
      (period.end ≤ now)
      × (now < period.end + 7 * day_ms)
      × (period.end ≡ period.start + 7 * day_ms)
      × ((period.end + ist_offset_ms) % day_ms ≡ 0)
      × (days_since_monday period.end ≡ 0)
      × ((last_completed_weekly_period (now + 7 * day_ms)).start ≡ period.end)
unfolding last_completed_weekly_period current_monday
last_completed_weekly_period-tiles now h =
    (omega arith, omega arith, omega arith, omega arith, omega arith, omega arith)
