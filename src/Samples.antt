-- ===== src/Samples.antt =====
-- Small concrete jobs, printers and tables that the tests of several modules run on.
use print_q.Base.{ℕ, ◌+◌, false, Option, none, some, List, [], ◌∷◌}
use print_q.Status.{JobStatus, awaiting_arrival, queued}
use print_q.Job.{JobSpecs, Job, paid, instant}
use print_q.Assignment.{PrinterProfile, online}
use print_q.Queue.{Settings, Printer}
use print_q.Store.{Store}

-- Two copies on paper 4, black and white.
abbrev pub plain_specs : JobSpecs
plain_specs = record {
  copies = 2;
  paper_size = 4;
  color = false;
  duplex = false;
  binding = none;
  page_range = none;
}

-- A paid job of shop 1: its id, its status, its check-in and its reveal.
abbrev pub job_at : ℕ → JobStatus → Option ℕ → Option ℕ → Job
job_at id status queued_at revealed_at = record {
  id = id;
  shop_id = 1;
  student_id = id + 100;
  file_id = id + 200;
  specs = plain_specs;
  pages_per_copy = 3;
  total_paise = 1_200;
  shop_base_paise = 1_000;
  platform_markup_paise = 200;
  coupon_code = none;
  discount_paise = 0;
  payment_status = paid;
  payment_provider = none;
  payment_id = some 7;
  cash_collected_at = none;
  counter_payment_method = none;
  counter_payment_confirmed_at = none;
  counter_payment_confirmed_by = none;
  counter_payment_reference = none;
  counter_payment_amount = none;
  mode = instant;
  scheduled_time = none;
  status = status;
  assigned_printer_id = some 9;
  otp_hash = none;
  otp_code = none;
  otp_expires_at = none;
  release_code_digest = some id;
  release_code_encrypted = some id;
  release_code_generated_at = some 1;
  near_front_notified_at = none;
  revealed_at = revealed_at;
  reveal_deadline_at = revealed_at;
  arriving_notified_at = none;
  absent_at = none;
  absent_reason = none;
  queued_at = queued_at;
  arrived_at = queued_at;
  queue_left_at = none;
  check_in_count = 1;
  claimed_by_agent_id = none;
  claimed_by_session_id = none;
  print_error = none;
  print_attempts = 0;
  spool_accepted_at = none;
  print_confirmed_at = none;
  print_confirmed_by_id = none;
  print_completion_method = none;
  created_at = id;
  updated_at = id;
}

-- A line of three with one slot taken, out of order in the table, and one job that has not arrived.
abbrev pub table : List Job
table =
    job_at 3 queued (some 30) none
    ∷ job_at 1 queued (some 10) (some 12)
    ∷ job_at 4 awaiting_arrival none none
    ∷ job_at 2 queued (some 20) none
    ∷ []

abbrev pub one_slot : Settings
one_slot = record { counter_capacity = 1; reveal_grace_seconds = 60 }

abbrev pub two_slots : Settings
two_slots = record { counter_capacity = 2; reveal_grace_seconds = 60 }

abbrev pub slow_printer : Printer
slow_printer = record { id = 9; pages_per_minute = 3 }

-- A printer with paper 4 that binds nothing.
abbrev pub profile : PrinterProfile
profile = record {
  id = 9;
  paper_sizes_loaded = 4 ∷ [];
  color_support = false;
  finishing_options = [];
  avg_pages_per_minute = 3;
  status = online;
}

abbrev pub store : Store
store = record { jobs = table; events = []; outbox = [] }
