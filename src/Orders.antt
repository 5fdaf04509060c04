-- ===== src/Orders.antt =====
-- apps/api/src/modules/jobs: preparing an order (routes.ts, `createPreparedJob`, up to the row that it
-- inserts), coupons.ts, and the guards of lib/fileRetention.ts. Orders/Prepare inserts the row and gives
-- it its counter code. A file is read together with what the handler needs of its shop. Coupon codes
-- are numbers; `canonical` stands for `code.trim().toUpperCase()`.
pub mod Prepare
pub mod Rival
pub mod Cancel
pub mod Refused
pub mod Price
pub mod Coded
pub mod Prepared
mod Tests
use print_q.Base.{
  ℕ, suc, ltb, leb, ◌==◌, opt_eq, find, any, map, not, ◌&&◌, ◌||◌, if◌then◌else◌, Bool, true, false,
  Option, none, some, is_some, is_none, List, [], ◌∷◌, Result, ok, throw, ◌>>=◌,
}
use print_q.Status.{JobStatus, ◌is◌, InvalidTransition}
use print_q.Job.{Job, JobSpecs, JobMode}
use print_q.Assignment.{PrinterProfile, UnsupportedCode, unsupported_specs}
use print_q.Pricing.{
  PrintOptions, PriceBreakdown, PricingError, ResolvedCoupon, compute_price, apply_platform_markup,
  apply_coupon, min_order_paise,
}
use print_q.Shops.{OperationalShopRows, is_shop_operational_from}
use print_q.Store.{Store}

pub record Coupon : Type 0 where
  pub code : ℕ
  pub shop_id : Option ℕ
  pub percent_off : Option ℕ
  pub paise_off : Option ℕ
  pub expires_at : Option ℕ
  pub max_redemptions : Option ℕ
  pub redeemed_count : ℕ

pub data FileStatus : Type 0 where
  uploaded converting ready failed deleted : FileStatus

-- The joined row of `loadFileForOrder`: the file, and of its shop what availability reads, the printer
-- profiles and the print menu.
pub record UploadedFile : Type 0 where
  pub id : ℕ
  pub student_id : ℕ
  pub shop_id : ℕ
  pub status : FileStatus
  pub pages : Option ℕ
  pub deletion_scheduled_at : Option ℕ
  pub shop : OperationalShopRows
  pub printers : List PrinterProfile
  pub options : PrintOptions

pub record Tables : Type 0 where
  pub store : Store
  pub coupons : List Coupon

pub record OrderRequest : Type 0 where
  pub student_id : ℕ
  pub file_id : ℕ
  pub specs : JobSpecs
  pub mode : JobMode
  pub scheduled_time : Option ℕ
  pub coupon_code : Option ℕ

-- The rate of the markup with its rounding, and the functions on codes.
pub record OrderEnv : Type 0 where
  pub platform_markup_bps : ℕ
  pub mark_up : ℕ → ℕ → ℕ
  pub canonical : ℕ → ℕ
  pub digest_release_code : ℕ → ℕ → ℕ
  pub encrypt_release_code : ℕ → ℕ → ℕ

pub data OrderFault : Type 0 where
  file_not_ready duplicate_order already_printed about_to_be_deleted shop_paused : OrderFault
  unsupported : List UnsupportedCode → OrderFault
  bad_price : PricingError → OrderFault
  invalid_coupon coupon_of_other_shop coupon_expired coupon_used_up below_minimum : OrderFault
  no_release_code : OrderFault
  bad_transition : InvalidTransition → OrderFault

abbrev pub is_file_ready : FileStatus → Bool
is_file_ready ready = true
is_file_ready _ = false

-- `ACTIVE_FILE_JOB_STATUSES.includes(status)`.
unfoldable pub is_active_file_status : JobStatus → Bool
is_active_file_status JobStatus.pending_payment = true
is_active_file_status JobStatus.awaiting_arrival = true
is_active_file_status JobStatus.queued = true
is_active_file_status JobStatus.notified = true
is_active_file_status JobStatus.otp_verified = true
is_active_file_status JobStatus.printing = true
is_active_file_status JobStatus.no_show = true
is_active_file_status JobStatus.requeued = true
is_active_file_status _ = false

unfoldable pub is_printed_file_job : Job → Bool
is_printed_file_job j =
    is_some j.print_confirmed_at
    || (j.status is JobStatus.finishing
        || j.status is JobStatus.ready_for_pickup
        || j.status is JobStatus.completed)

-- The `where` of loadFileForOrder.
abbrev pub is_own_file : (file_id student_id : ℕ) → UploadedFile → Bool
is_own_file file_id student_id f =
    f.id == file_id && (f.student_id == student_id && is_file_ready f.status)

-- An order of this student for this file, at its shop, that is under way.
abbrev pub is_own_active : ℕ → UploadedFile → Job → Bool
is_own_active student_id f j =
    j.file_id == f.id
    && (j.student_id == student_id && (j.shop_id == f.shop_id && is_active_file_status j.status))

abbrev pub printed_for : UploadedFile → Job → Bool
printed_for f j = j.file_id == f.id && is_printed_file_job j

unfoldable pub assert_file_can_back_new_job_from : UploadedFile → Bool → Result OrderFault Bool
assert_file_can_back_new_job_from f printed =
    if printed
    then throw already_printed
    else if is_some f.deletion_scheduled_at
    then throw about_to_be_deleted
    else ok true

abbrev pub is_expired : ℕ → Coupon → Bool
is_expired now c = elim c.expires_at [ none ↦ false | some t ↦ ltb t now ]

abbrev pub is_used_up : Coupon → Bool
is_used_up c = elim c.max_redemptions [ none ↦ false | some n ↦ leb n c.redeemed_count ]

abbrev pub of_other_shop : ℕ → Coupon → Bool
of_other_shop shop_id c = elim c.shop_id [ none ↦ false | some s ↦ not (s == shop_id) ]

abbrev pub check_coupon : (shop_id now : ℕ) → Coupon → Result OrderFault ResolvedCoupon
check_coupon shop_id now c =
    if of_other_shop shop_id c
    then throw coupon_of_other_shop
    else if is_expired now c
    then throw coupon_expired
    else if is_used_up c
    then throw coupon_used_up
    else ok (record { code = c.code; percent_off = c.percent_off; paise_off = c.paise_off })

unfoldable pub resolve_coupon :
    OrderEnv → (code shop_id now : ℕ) → List Coupon → Result OrderFault ResolvedCoupon
resolve_coupon env code shop_id now coupons =
    elim (find (λ c. c.code == env.canonical code) coupons) [
      | none ↦ throw invalid_coupon
      | some c ↦ check_coupon shop_id now c
    ]

abbrev pub increment_redeemed : Coupon → Coupon
increment_redeemed c = record c { redeemed_count = suc c.redeemed_count }

unfoldable pub redeem_coupon : OrderEnv → ℕ → List Coupon → List Coupon
redeem_coupon env code coupons =
    map (λ c. if c.code == env.canonical code then increment_redeemed c else c) coupons

-- The price with the coupon, if there is one, and the coupon's own code.
unfoldable pub with_coupon :
    OrderEnv
    → Option ℕ
    → (shop_id now : ℕ) → List Coupon
    → PriceBreakdown
    → Result OrderFault (PriceBreakdown × Option ℕ)
unfolding resolve_coupon
with_coupon env none shop_id now coupons p = ok (p, none)
with_coupon env (some code) shop_id now coupons p = do
  resolved ← resolve_coupon env code shop_id now coupons
  ok (apply_coupon p resolved, some resolved.code)

abbrev pub price_error {ℓ} : {A : Type ℓ} → Result PricingError A → Result OrderFault A
price_error (ok a) = ok a
price_error (throw e) = throw (bad_price e)

abbrev pub require : Bool → OrderFault → Result OrderFault Bool
require test e = if test then ok true else throw e

abbrev pub or_unsupported : List UnsupportedCode → Result OrderFault Bool
or_unsupported [] = ok true
or_unsupported (c ∷ cs) = throw (unsupported (c ∷ cs))

-- A `file.pages` that is there, of a file that was found.
abbrev pub loaded : Option UploadedFile → Result OrderFault (UploadedFile × ℕ)
loaded none = throw file_not_ready
loaded (some f) = elim f.pages [ none ↦ throw file_not_ready | some n ↦ ok (f, n) ]

-- What an accepted order costs: the shop's price, the marked-up one, and the final one with its coupon.
pub record Accepted : Type 0 where
  pub file : UploadedFile
  pub shop_base : PriceBreakdown
  pub marked_up : PriceBreakdown
  pub breakdown : PriceBreakdown
  pub coupon : Option ℕ

-- The part of createPreparedJob that only reads.
unfoldable pub accept_order :
    OrderEnv → ℕ → OrderRequest → List UploadedFile → Tables → Result OrderFault Accepted
unfolding with_coupon assert_file_can_back_new_job_from
accept_order env now r files db = do
  found ← loaded (find (is_own_file r.file_id r.student_id) files)
  let file = found.0
  free ← require (not (any (is_own_active r.student_id file) db.store.jobs)) duplicate_order
  usable ← assert_file_can_back_new_job_from file (any (printed_for file) db.store.jobs)
  taking ← require (is_shop_operational_from file.shop) shop_paused
  able ← or_unsupported (unsupported_specs file.printers r.specs)
  shop_base ← price_error (compute_price r.specs found.1 file.options)
  marked_up ← price_error (apply_platform_markup env.mark_up shop_base env.platform_markup_bps)
  priced ← with_coupon env r.coupon_code file.shop_id now db.coupons marked_up
  enough ← require (leb min_order_paise priced.0.total_paise) below_minimum
  ok (record {
    file = file;
    shop_base = shop_base;
    marked_up = marked_up;
    breakdown = priced.0;
    coupon = priced.1;
  })
