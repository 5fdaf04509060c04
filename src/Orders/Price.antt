-- ===== src/Orders/Price.antt =====
-- apps/api/src/modules/jobs/routes.ts: what an order that passed every check costs.
use print_q.Base.{
  ◌≡◌, ◌≢◌, subst, ◌*◌, refl, sym, ◌∙◌, ℕ, ◌+◌, ◌≤◌, true, false, not, any, arith, leb, Option,
  none, some, List, find, Result, ok, throw, ◌>>=◌, inl, inr, Bool,
}
use print_q.Job.{Job, JobSpecs}
use print_q.Pricing.{
  bad_markup, PriceBreakdown, PrintOptions, PricingError, compute_price, apply_platform_markup,
  min_order_paise, apply_coupon,
}
use print_q.Pricing.Coupon.{apply_coupon-floor}
use print_q.Pricing.Laws.{compute_price-total, apply_platform_markup-total}
use print_q.Assignment.{unsupported_specs}
use print_q.Shops.{is_shop_operational_from}
use print_q.Orders.{
  OrderEnv, OrderRequest, OrderFault, UploadedFile, Tables, Accepted, accept_order, with_coupon,
  is_own_active, is_own_file, loaded, require, or_unsupported, price_error,
  assert_file_can_back_new_job_from, printed_for, Coupon, resolve_coupon, duplicate_order,
  shop_paused, below_minimum,
}

-- What a chain that succeeds leads to, from what its first step gave.
bind-leads {ℓ κ μ ν} :
    {E : Type ℓ} {A : Type κ} {B : Type μ} (P : B → Type ν) (m : Result E A) {f : A → Result E B}
    → ((a : A) → m ≡ ok a → (b : B) → f a ≡ ok b → P b)
    → (b : B) → m >>= f ≡ ok b
    → P b
bind-leads P (ok a) k b h = k a refl b h
bind-leads P (throw e) k b h = cc

price_error-ok : {A : Type 0} (m : Result PricingError A) (a : A) → price_error m ≡ ok a → m ≡ ok a
price_error-ok (ok b) a h = cc
price_error-ok (throw e) a h = cc

require-ok : (b : Bool) (e : OrderFault) (x : Bool) → require b e ≡ ok x → b ≡ true
require-ok true e x h = refl
require-ok false e x h = cc

compute_price-copies :
    (specs : JobSpecs) (pages : ℕ) (options : PrintOptions) (p : PriceBreakdown)
    → compute_price specs pages options ≡ ok p
    → p.copies ≡ specs.copies
unfolding compute_price
compute_price-copies specs pages options p h = ground arith

markup_sums :
    (mark_up : ℕ → ℕ → ℕ) (p q : PriceBreakdown) (bps : ℕ)
    → apply_platform_markup mark_up p bps ≡ ok q
    → (q.discount_paise ≡ 0) × (q.total_paise ≡ q.pages_total_paise + q.binding_paise)
unfolding apply_platform_markup
markup_sums mark_up p q bps k = ground arith

not-true : {b : Bool} → not b ≡ true → b ≡ false
not-true {b} h = ground arith

-- The markup is never negative.
markup_above :
    (env : OrderEnv) (law : (bps x : ℕ) → x ≤ env.mark_up bps x) (specs : JobSpecs) (pages : ℕ)
    (options : PrintOptions) (p q : PriceBreakdown)
    → compute_price specs pages options ≡ ok p
    → apply_platform_markup env.mark_up p env.platform_markup_bps ≡ ok q
    → p.total_paise ≤ q.total_paise
markup_above env law specs pages options p q h k =
    let (total, _, _, _) = compute_price-total specs pages options p h in
    let copies = compute_price-copies specs pages options p h in
    let base : p.total_paise ≡ p.per_page_paise * p.pages_per_copy * p.copies + p.binding_paise =
      rw copies total in
    elim (apply_platform_markup-total env.mark_up law p env.platform_markup_bps) [
      | inl (_, refused) ↦ absurd (no_price (sym refused ∙ k))
      | inr (_, (x, e, _, above)) ↦
          subst (λ y. p.total_paise ≤ y.total_paise) (ok_injective (sym e ∙ k))
            (subst (λ n. n ≤ x.total_paise) (sym base) above)
    ]
  where
    no_price : throw bad_markup ≢ ok q
    no_price e = cc

    ok_injective :
        {x y : PriceBreakdown} → Path (Result PricingError PriceBreakdown) (ok x) (ok y) → x ≡ y
    ok_injective e = cc

with_coupon-total :
    (env : OrderEnv) (code : Option ℕ) (shop_id now : ℕ) (coupons : List Coupon)
    (q : PriceBreakdown) (r : PriceBreakdown × Option ℕ)
    → q.discount_paise ≡ 0
    → q.total_paise ≡ q.pages_total_paise + q.binding_paise
    → with_coupon env code shop_id now coupons q ≡ ok r
    → r.0.total_paise + r.0.discount_paise ≡ q.total_paise
unfolding with_coupon apply_coupon
with_coupon-total env none shop_id now coupons q r d t h = ground arith
with_coupon-total env (some c) shop_id now coupons q r d t h =
    bind-leads (λ x. x.0.total_paise + x.0.discount_paise ≡ q.total_paise)
      (resolve_coupon env c shop_id now coupons)
      (λ coupon _ x e. let (sums, _, _, _) = apply_coupon-floor q coupon in ground arith) r h

-- An accepted order has a sound price, and nothing else of the file is under way.
pub record IsAccepted (r : OrderRequest) (jobs : List Job) (a : Accepted) : Type 0 where
  pub enough : min_order_paise ≤ a.breakdown.total_paise
  pub sums : a.breakdown.total_paise + a.breakdown.discount_paise ≡ a.marked_up.total_paise
  pub above : a.shop_base.total_paise ≤ a.marked_up.total_paise
  pub first : any (is_own_active r.student_id a.file) jobs ≡ false

-- The part of the chain that computes the price.
priced_chain : OrderEnv → ℕ → OrderRequest → Tables → UploadedFile → ℕ → Result OrderFault Accepted
priced_chain env now r db file pages = do
  shop_base ← price_error (compute_price r.specs pages file.options)
  marked_up ← price_error (apply_platform_markup env.mark_up shop_base env.platform_markup_bps)
  priced ← with_coupon env r.coupon_code file.shop_id now db.coupons marked_up
  enough ← require (leb min_order_paise priced.0.total_paise) below_minimum
  ok (record {
    file = file;
    shop_base = shop_base;
    marked_up = marked_up;
    breakdown = priced.0;
    coupon = priced.1;
  })

priced_chain-IsAccepted :
    (env : OrderEnv) (law : (bps x : ℕ) → x ≤ env.mark_up bps x) (now : ℕ) (r : OrderRequest)
    (db : Tables) (file : UploadedFile) (pages : ℕ)
    → any (is_own_active r.student_id file) db.store.jobs ≡ false
    → (a : Accepted) → priced_chain env now r db file pages ≡ ok a
    → IsAccepted r db.store.jobs a
unfolding priced_chain
priced_chain-IsAccepted env law now r db file pages alone =
    bind-leads P (price_error (compute_price r.specs pages file.options)) (λ p base.
      bind-leads P (price_error (apply_platform_markup env.mark_up p env.platform_markup_bps))
        (λ q marked.
          bind-leads P (with_coupon env r.coupon_code file.shop_id now db.coupons q) (λ s priced.
            bind-leads P (require (leb min_order_paise s.0.total_paise) below_minimum)
              (λ b enough a e.
                final p q s (price_error-ok _ p base) (price_error-ok _ q marked) priced
                  (require-ok _ _ b enough) a e))))
  where
    P : Accepted → Type 0
    P = IsAccepted r db.store.jobs

    ok_injective : {x y : Accepted} → Path (Result OrderFault Accepted) (ok x) (ok y) → x ≡ y
    ok_injective e = cc

    final :
        (p q : PriceBreakdown) (s : PriceBreakdown × Option ℕ)
        → compute_price r.specs pages file.options ≡ ok p
        → apply_platform_markup env.mark_up p env.platform_markup_bps ≡ ok q
        → with_coupon env r.coupon_code file.shop_id now db.coupons q ≡ ok s
        → leb min_order_paise s.0.total_paise ≡ true
        → (a : Accepted)
        → Path
            (Result OrderFault Accepted)
            (ok
              (record { file = file; shop_base = p; marked_up = q; breakdown = s.0; coupon = s.1 }))
            (ok a)
        → IsAccepted r db.store.jobs a
    final p q s base marked priced enough a e =
        let (d, t) = markup_sums env.mark_up p q env.platform_markup_bps marked in
        subst P (ok_injective e) (record {
          enough = ground arith;
          sums = with_coupon-total env r.coupon_code file.shop_id now db.coupons q s d t priced;
          above = markup_above env law r.specs pages file.options p q base marked;
          first = alone;
        })

pub accept_order-IsAccepted :
    (env : OrderEnv) (law : (bps x : ℕ) → x ≤ env.mark_up bps x) (now : ℕ) (r : OrderRequest)
    (files : List UploadedFile) (db : Tables) (a : Accepted)
    → accept_order env now r files db ≡ ok a
    → IsAccepted r db.store.jobs a
unfolding accept_order priced_chain
accept_order-IsAccepted env law now r files db =
    bind-leads P (loaded (find (is_own_file r.file_id r.student_id) files)) (λ found _.
      bind-leads P
        (require (not (any (is_own_active r.student_id found.0) db.store.jobs)) duplicate_order)
        (λ b free.
          bind-leads P
            (assert_file_can_back_new_job_from found.0 (any (printed_for found.0) db.store.jobs))
            (λ _ _.
              bind-leads P (require (is_shop_operational_from found.0.shop) shop_paused) (λ _ _.
                bind-leads P (or_unsupported (unsupported_specs found.0.printers r.specs)) (λ _ _.
                  priced_chain-IsAccepted env law now r db found.0 found.1
                    (not-true (require-ok _ _ b free)))))))
  where
    P : Accepted → Type 0
    P = IsAccepted r db.store.jobs
