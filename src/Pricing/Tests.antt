-- ===== src/Pricing/Tests.antt =====
-- A bound order in colour, and the theorems on prices at it.
use print_q.Base.{◌≡◌, ◌≤◌, ◌⊎◌, refl, arith, ℕ, ◌+◌, ◌*◌, ◌/◌, true, some, none, [], ◌∷◌, ok}
use print_q.Job.{JobSpecs}
use print_q.Pricing.{
  PrintOptions, PriceBreakdown, ResolvedCoupon, compute_price, apply_coupon, raw_discount,
}
use print_q.Pricing.Coupon.{apply_coupon-floor}
use print_q.Samples.{plain_specs}

abbrev options : PrintOptions
options = record {
  papers = record { id = 4; label = 4; bw_paise = 200; color_paise = some 1_000 } ∷ [];
  bindings = record { id = 1; label = 1; paise = 3_000 } ∷ [];
  duplex_enabled = true;
}

-- Pages 2 and 3, twice, in colour and bound.
abbrev bound_specs : JobSpecs
bound_specs = record plain_specs {
  color = true;
  binding = some 1;
  page_range = some (b'2' ∷ b'-' ∷ b'3' ∷ []);
}

abbrev price : PriceBreakdown
price = record {
  paper_label = 4;
  pages_per_copy = 2;
  copies = 2;
  per_page_paise = 1_000;
  pages_total_paise = 4_000;
  binding_label = some 1;
  binding_paise = 3_000;
  discount_paise = 0;
  total_paise = 7_000;
}

price_computed : compute_price bound_specs 5 options ≡ ok price
unfolding compute_price
price_computed = refl

-- The markup with halves rounded up, as `Math.round` rounds them.
abbrev add_markup : ℕ → ℕ → ℕ
add_markup bps x = x + (x * bps + 5_000) / 10_000

never_below : (bps x : ℕ) → x ≤ add_markup bps x
never_below bps x = omega arith

-- 99 percent off, which the order floor stops.
abbrev coupon : ResolvedCoupon
coupon = record { code = 1; percent_off = some 99; paise_off = none }

apply_coupon-floor_example :
    ((apply_coupon price coupon).discount_paise + (apply_coupon price coupon).total_paise ≡ 7_000)
    × (100 ≤ (apply_coupon price coupon).total_paise)
    × ((apply_coupon price coupon).discount_paise ≤ raw_discount coupon 7_000)
    × (((apply_coupon price coupon).discount_paise ≡ raw_discount coupon 7_000)
        ⊎ ((apply_coupon price coupon).total_paise ≡ 100))
apply_coupon-floor_example = apply_coupon-floor price coupon
