-- ===== src/Pricing/Coupon.antt =====
-- packages/shared/src/pricing.ts: what a coupon takes off.
use Prim.Native.Nat.{min}
use print_q.Base.{◌≡◌, ◌⊎◌, ◌+◌, ◌≤◌, arith}
use print_q.Pricing.{PriceBreakdown, ResolvedCoupon, raw_discount, apply_coupon, min_order_paise}

-- A coupon never brings a price below the order floor: the discount and the new total add up to the
-- price without it, the total is at least the smaller of 100 paise and that price, the discount is
-- at most what the coupon grants, and it is exactly that unless the floor was reached.
pub apply_coupon-floor :
    (p : PriceBreakdown) (c : ResolvedCoupon)
    → let pre = p.pages_total_paise + p.binding_paise in
      let q = apply_coupon p c in
      (q.discount_paise + q.total_paise ≡ pre)
      × (min min_order_paise pre ≤ q.total_paise)
      × (q.discount_paise ≤ raw_discount c pre)
      × ((q.discount_paise ≡ raw_discount c pre) ⊎ (q.total_paise ≡ min min_order_paise pre))
unfolding apply_coupon
apply_coupon-floor p c = ground arith
