-- ===== src/Job.antt =====
-- The job row of apps/api/prisma/schema.prisma with the specs and payment types of
-- packages/shared/src/types.ts. Ids (of rows, papers, bindings, hashes) are only compared by the
-- code, so they are numbers; an instant is its number of milliseconds, as `Date.getTime` gives it.
use print_q.Base.{ℕ, Bool, true, false, Option, some, List}
use print_q.Status.{JobStatus}

pub data PaymentStatus : Type 0 where
  pending counter_due cash_due paid refunding refunded failed : PaymentStatus

-- `paymentProvider`: the two that the code tells apart, and any online provider.
pub data PaymentProvider : Type 0 where
  pay_at_shop cash_provider online_provider : PaymentProvider

pub data JobMode : Type 0 where
  instant scheduled : JobMode

pub data AbsentReason : Type 0 where
  staff grace_expired : AbsentReason

pub data CounterPaymentMethod : Type 0 where
  cash shop_upi : CounterPaymentMethod

pub data PrintCompletionMethod : Type 0 where
  staff_confirmed simulator : PrintCompletionMethod

-- `printError`: the stable codes of lib/printProblem.ts, and any other text.
pub data PrintError : Type 0 where
  agent_offline agent_restarted claim_timeout spool_timeout no_agent : PrintError
  other_error : ℕ → PrintError

-- `binding` and `pageRange` are tested for truth, so `none` stands for null and for the empty text.
pub record JobSpecs : Type 0 where
  pub copies : ℕ
  pub paper_size : ℕ
  pub color : Bool
  pub duplex : Bool
  pub binding : Option ℕ
  pub page_range : Option (List ℕ)

pub record Job : Type 0 where
  pub id : ℕ
  pub shop_id : ℕ
  pub student_id : ℕ
  pub file_id : ℕ
  pub specs : JobSpecs
  pub pages_per_copy : ℕ
  pub total_paise : ℕ
  pub shop_base_paise : ℕ
  pub platform_markup_paise : ℕ
  pub coupon_code : Option ℕ
  pub discount_paise : ℕ
  pub payment_status : PaymentStatus
  pub payment_provider : Option PaymentProvider
  pub payment_id : Option ℕ
  pub cash_collected_at : Option ℕ
  pub counter_payment_method : Option CounterPaymentMethod
  pub counter_payment_confirmed_at : Option ℕ
  pub counter_payment_confirmed_by : Option ℕ
  pub counter_payment_reference : Option ℕ
  pub counter_payment_amount : Option ℕ
  pub mode : JobMode
  pub scheduled_time : Option ℕ
  pub status : JobStatus
  pub assigned_printer_id : Option ℕ
  pub otp_hash : Option ℕ
  pub otp_code : Option ℕ
  pub otp_expires_at : Option ℕ
  pub release_code_digest : Option ℕ
  pub release_code_encrypted : Option ℕ
  pub release_code_generated_at : Option ℕ
  pub near_front_notified_at : Option ℕ
  pub revealed_at : Option ℕ
  pub reveal_deadline_at : Option ℕ
  pub arriving_notified_at : Option ℕ
  pub absent_at : Option ℕ
  pub absent_reason : Option AbsentReason
  pub queued_at : Option ℕ
  pub arrived_at : Option ℕ
  pub queue_left_at : Option ℕ
  pub check_in_count : ℕ
  pub claimed_by_agent_id : Option ℕ
  pub claimed_by_session_id : Option ℕ
  pub print_error : Option PrintError
  pub print_attempts : ℕ
  pub spool_accepted_at : Option ℕ
  pub print_confirmed_at : Option ℕ
  pub print_confirmed_by_id : Option ℕ
  pub print_completion_method : Option PrintCompletionMethod
  pub created_at : ℕ
  pub updated_at : ℕ

-- `===` on the enumerations.
abbrev pub is_paid : PaymentStatus → Bool
is_paid paid = true
is_paid _ = false

abbrev pub is_counter_due : PaymentStatus → Bool
is_counter_due counter_due = true
is_counter_due _ = false

abbrev pub is_cash_due : PaymentStatus → Bool
is_cash_due cash_due = true
is_cash_due _ = false

abbrev pub is_pay_at_shop : Option PaymentProvider → Bool
is_pay_at_shop (some pay_at_shop) = true
is_pay_at_shop _ = false

abbrev pub is_cash_provider : Option PaymentProvider → Bool
is_cash_provider (some cash_provider) = true
is_cash_provider _ = false

abbrev pub is_scheduled : JobMode → Bool
is_scheduled scheduled = true
is_scheduled _ = false
