-- ===== src/Pricing/Laws.antt =====
-- packages/shared/src/pricing.ts: the base price and the price that students see.

use native.Mathlib.Nat.{mul-le-mul_right}
use print_q.Base.{
  ◌⊎◌, ◌<◌, ◌≡◌, refl, ℕ, ◌+◌, ◌*◌, ◌≤◌, arith, Bool-cases, ok, throw, inl, inr, ltb,
}
use print_q.Job.{JobSpecs}
use print_q.PageRange.Bounds.{count_selected_pages-le}
use print_q.Pricing.{bad_markup, PriceBreakdown, PrintOptions, compute_price, apply_platform_markup}

-- A base price adds up: the total is the price per page times the selected pages times the ordered
-- copies, plus the binding; it counts at most the pages of the document, and no discount.
pub compute_price-total :
    (specs : JobSpecs) (total_pages : ℕ) (options : PrintOptions) (p : PriceBreakdown)
    → compute_price specs total_pages options ≡ ok p
    → (p.total_paise ≡ p.per_page_paise * p.pages_per_copy * specs.copies + p.binding_paise)
      × (p.pages_total_paise ≡ p.per_page_paise * p.pages_per_copy * specs.copies)
      × (p.pages_per_copy ≤ total_pages)
      × (p.discount_paise ≡ 0)
unfolding compute_price
compute_price-total specs total_pages options p h =
    ground (arith, count_selected_pages-le specs.page_range total_pages p.pages_per_copy)

-- The markup is refused above 100% and for no other rate.
-- Otherwise the students' price adds up in the same way from the marked-up unit prices, for the
-- pages and copies of the base price, and no unit costs less than the shop asks, provided that the
-- rounded markup of a price is never below the price.
pub apply_platform_markup-total :
    (mark_up : ℕ → ℕ → ℕ)
    → ((bps x : ℕ) → x ≤ mark_up bps x)
    → (base : PriceBreakdown) (bps : ℕ)
    → ((10_000 < bps) × (apply_platform_markup mark_up base bps ≡ throw bad_markup))
      ⊎ ((bps ≤ 10_000)
          × ((q : PriceBreakdown) × (apply_platform_markup mark_up base bps ≡ ok q)
              × (q.total_paise
                  ≡ q.per_page_paise * base.pages_per_copy * base.copies + q.binding_paise)
              × (base.per_page_paise * base.pages_per_copy * base.copies + base.binding_paise
                  ≤ q.total_paise)))
unfolding apply_platform_markup
apply_platform_markup-total mark_up law base bps = elim (Bool-cases (ltb 10_000 bps)) [
  | inl e ↦ inl (ground arith, rw e)
  | inr e ↦
      inr (ground arith, (marked, rw e, refl, ground (arith, law bps base.binding_paise, units)))
]
  where
    marked : PriceBreakdown
    marked = record base {
      per_page_paise = mark_up bps base.per_page_paise;
      pages_total_paise = mark_up bps base.per_page_paise * base.pages_per_copy * base.copies;
      binding_paise = mark_up bps base.binding_paise;
      discount_paise = 0;
      total_paise =
          mark_up bps base.per_page_paise * base.pages_per_copy * base.copies
          + mark_up bps base.binding_paise;
    }

    units :
        base.per_page_paise * base.pages_per_copy * base.copies
        ≤ mark_up bps base.per_page_paise * base.pages_per_copy * base.copies
    units =
        mul-le-mul_right base.copies
          (mul-le-mul_right base.pages_per_copy (law bps base.per_page_paise))
