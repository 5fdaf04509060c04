-- ===== src/Pricing.antt =====
-- packages/shared/src/pricing.ts: what a job costs, in integer paise. `computePrice` is the authority
-- on the base price, `applyPlatformMarkup` and `applyCoupon` give the price that students see.
-- `Math.round(x * ((10000 + bps) / 10000))` goes through a binary fraction, so the markup of a unit
-- price is a parameter, with the laws that the code relies on. The discount divides an integer by
-- 100 and is exact for totals below 2^44 paise, so its rounding is written out.
pub mod Laws
pub mod Coupon
mod Tests
use Prim.Native.Nat.{min}
use print_q.Base.{
  ℕ, ◌+◌, ◌-◌, ◌*◌, ◌/◌, max, Bool, true, false, not, Option, none, some, List, ltb, ◌==◌,
  if◌then◌else◌, find, or_else, Result, ok, throw, ◌>>=◌,
}
use print_q.Job.{JobSpecs}
use print_q.PageRange.{PageRangeError, count_selected_pages}

pub record PaperOption : Type 0 where
  pub id : ℕ
  pub label : ℕ
  pub bw_paise : ℕ
  pub color_paise : Option ℕ

pub record BindingOption : Type 0 where
  pub id : ℕ
  pub label : ℕ
  pub paise : ℕ

pub record PrintOptions : Type 0 where
  pub papers : List PaperOption
  pub bindings : List BindingOption
  pub duplex_enabled : Bool

pub record PriceBreakdown : Type 0 where
  pub paper_label : ℕ
  pub pages_per_copy : ℕ
  pub copies : ℕ
  pub per_page_paise : ℕ
  pub pages_total_paise : ℕ
  pub binding_label : Option ℕ
  pub binding_paise : ℕ
  pub discount_paise : ℕ
  pub total_paise : ℕ

pub data PricingError : Type 0 where
  no_such_paper bw_only no_such_binding bad_markup : PricingError
  bad_range : PageRangeError → PricingError

-- The price per page of a paper, `none` where it is printed in black and white only.
abbrev pub per_page : Bool → PaperOption → Option ℕ
per_page color paper = if color then paper.color_paise else some paper.bw_paise

abbrev pub or_throw {ℓ} : {A : Type ℓ} → PricingError → Option A → Result PricingError A
or_throw e none = throw e
or_throw e (some a) = ok a

abbrev pub range_error : Result PageRangeError ℕ → Result PricingError ℕ
range_error (ok n) = ok n
range_error (throw e) = throw (bad_range e)

-- The label and the price of the binding that the specs ask for.
unfoldable pub binding_choice : Option ℕ → List BindingOption → Result PricingError (Option ℕ × ℕ)
binding_choice none bindings = ok (none, 0)
binding_choice (some id) bindings = elim (find (λ b. b.id == id) bindings) [
  | none ↦ throw no_such_binding
  | some b ↦ ok (some b.label, b.paise)
]

unfoldable pub compute_price : JobSpecs → ℕ → PrintOptions → Result PricingError PriceBreakdown
unfolding binding_choice count_selected_pages
compute_price specs total_pages options = do
  paper ← or_throw no_such_paper (find (λ p. p.id == specs.paper_size) options.papers)
  per_page_paise ← or_throw bw_only (per_page specs.color paper)
  pages_per_copy ← range_error (count_selected_pages specs.page_range total_pages)
  let pages_total = per_page_paise * pages_per_copy * specs.copies
  chosen ← binding_choice specs.binding options.bindings
  ok (record {
    paper_label = paper.label;
    pages_per_copy = pages_per_copy;
    copies = specs.copies;
    per_page_paise = per_page_paise;
    pages_total_paise = pages_total;
    binding_label = chosen.0;
    binding_paise = chosen.1;
    discount_paise = 0;
    total_paise = pages_total + chosen.1;
  })

-- `mark_up bps x` is `Math.round(x * ((10000 + bps) / 10000))`.
unfoldable pub apply_platform_markup :
    (ℕ → ℕ → ℕ) → PriceBreakdown → ℕ → Result PricingError PriceBreakdown
apply_platform_markup mark_up base markup_bps =
    let per_page_paise = mark_up markup_bps base.per_page_paise in
    let pages_total = per_page_paise * base.pages_per_copy * base.copies in
    let binding_paise = mark_up markup_bps base.binding_paise in
    if ltb 10_000 markup_bps
    then throw bad_markup
    else (ok (record base {
      per_page_paise = per_page_paise;
      pages_total_paise = pages_total;
      binding_paise = binding_paise;
      discount_paise = 0;
      total_paise = pages_total + binding_paise;
    }))

abbrev pub min_order_paise : ℕ
min_order_paise = 100

pub record ResolvedCoupon : Type 0 where
  pub code : ℕ
  pub percent_off : Option ℕ
  pub paise_off : Option ℕ

-- `percentOff ? Math.round(total * percentOff / 100) : (paiseOff ?? 0)`: 0 percent counts as none.
unfoldable pub raw_discount : ResolvedCoupon → ℕ → ℕ
raw_discount coupon total =
    if or_else coupon.percent_off 0 == 0
    then or_else coupon.paise_off 0
    else (total * or_else coupon.percent_off 0 + 50) / 100

-- `Math.max(0, total - MIN_ORDER_PAISE)` is the truncated difference.
unfoldable pub apply_coupon : PriceBreakdown → ResolvedCoupon → PriceBreakdown
unfolding raw_discount
apply_coupon breakdown coupon =
    let total = breakdown.pages_total_paise + breakdown.binding_paise in
    let discount = min (raw_discount coupon total) (total - min_order_paise) in
    record breakdown { discount_paise = discount; total_paise = total - discount }
