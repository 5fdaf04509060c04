-- ===== src/Fees/Run/Maps.antt =====
-- apps/api/src/modules/fees: updates that move no money keep the books.
use print_q.Base.{
  ◌≡◌, refl, ap, subst, ℕ, ◌+◌, ◌==◌, false, ◌&&◌, ◌||◌, not, Option, none, some, List, [], ◌∷◌,
  ◌++◌, map, find, any, keep, is_some, sum_by, sum_by-append, All, includes, Distinct, Bool-cases,
  Option-cases, inl, inr, arith, if◌then◌else◌, Result, ok, throw, leb,
}
use print_q.Base.Sorting.{sort}
use print_q.Fees.{
  Books, FeeEvent, is_unpaid, Statement, FeePayment, FeeConfig, is_paid, left_over, update_payment,
  attempted,
}
use print_q.Fees.Account.{compute_fee_account}
use print_q.Fees.Enforcement.{
  run_fee_maintenance, evaluate_if_needed, adopt, adopt_row, needs_due_date, NoticeKey,
}
use print_q.Fees.Payments.{
  create_fee_order, FeeOrderResult, is_open, expire_open, new_order, reusable, OrderError,
  settle_fee_payment,
}
use print_q.Fees.Payments.Exact.{IsSound}
use print_q.Fees.Payments.Balance.{
  IsKept, collected, SameMoney-IsKept, evaluate-SameMoney, settle_fee_payment-IsKept,
}
use print_q.Fees.Stuck.{
  reconcile_each, reconcile_stuck_fee_orders, stuck_orders, expire_late, is_stale, open_fee_order,
}
use print_q.Fees.Reconcile.{
  FeeProvider, ProviderPayment, reconcile_fee_order, reconcile_with, reconcile_loop,
  reconcile_input, is_capturable, is_success, mark_fee_attempt_failed, mark_attempted, fail_row,
  is_attempt, is_created, check_row, is_refused, is_captured, is_authorized,
}

-- The update keeps the order's id, and what it brought in and left over.
abbrev IsQuiet : (FeePayment → FeePayment) → Type 0
IsQuiet f =
    (p : FeePayment)
    → ((f p).id ≡ p.id) × (collected (f p) ≡ collected p) × (left_over (f p) ≡ left_over p)

quiet_sums :
    (f : FeePayment → FeePayment)
    → IsQuiet f
    → (ps : List FeePayment)
    → (map (λ p. p.id) (map f ps) ≡ map (λ p. p.id) ps)
      × (sum_by collected (map f ps) ≡ sum_by collected ps)
      × (sum_by left_over (map f ps) ≡ sum_by left_over ps)
quiet_sums f q [] = (refl, refl, refl)
quiet_sums f q (p ∷ ps) =
    let (i, c, l) = q p in
    let (is, cs, ls) = quiet_sums f q ps in (rw (i, is) refl, rw (c, cs) refl, rw (l, ls) refl)

map-IsKept :
    (f : FeePayment → FeePayment)
    → IsQuiet f
    → (b : Books) → IsKept b
    → IsKept (record b { payments = map f b.payments })
unfolding IsKept
map-IsKept f q b (d, balanced, sound) =
    let (is, cs, ls) = quiet_sums f q b.payments in (rw is d, rw (cs, ls) balanced, sound)

mark_attempted-IsQuiet :
    (id : ℕ)
    → IsQuiet (λ p. if p.id == id && is_created p then record p { status = attempted } else p)
unfolding collected left_over is_paid
mark_attempted-IsQuiet id p = ground arith

fail-IsQuiet :
    (now order reason : ℕ)
    → IsQuiet
        (λ p. if p.provider_order_id == order && is_attempt p then fail_row now reason p else p)
unfolding collected left_over is_paid
fail-IsQuiet now order reason p = ground arith

check-IsQuiet : (id now : ℕ) → IsQuiet (λ p. if p.id == id then check_row now p else p)
unfolding collected left_over is_paid
check-IsQuiet id now p = ground arith

expire-IsQuiet : IsQuiet expire_open
unfolding collected left_over is_paid is_open
expire-IsQuiet p = ground arith

pub mark_attempted-IsKept : (id : ℕ) (b : Books) → IsKept b → IsKept (mark_attempted id b)
unfolding mark_attempted
mark_attempted-IsKept id b k = map-IsKept _ (mark_attempted-IsQuiet id) b k

pub mark_fee_attempt_failed-IsKept :
    (now order reason : ℕ) (b : Books)
    → IsKept b
    → IsKept (mark_fee_attempt_failed now order reason b).1
unfolding mark_fee_attempt_failed
mark_fee_attempt_failed-IsKept now order reason b k =
    map-IsKept _ (fail-IsQuiet now order reason) b k

reconcile_loop-IsKept :
    (cfg : FeeConfig) (now fresh : ℕ) (order : FeePayment) (ps : List ProviderPayment) (b : Books)
    → IsKept b
    → IsKept (reconcile_loop cfg now fresh order ps b).1
unfolding reconcile_loop
reconcile_loop-IsKept cfg now fresh order [] b k = k
reconcile_loop-IsKept cfg now fresh order (p ∷ ps) b k =
    let settled = settle_fee_payment cfg now fresh (reconcile_input order p) b in
    let k' = settle_fee_payment-IsKept cfg now fresh (reconcile_input order p) b k in
    elim (Bool-cases (is_capturable order p)) [
      | inr e ↦ rw e (reconcile_loop-IsKept cfg now fresh order ps b k)
      | inl e ↦ elim (Bool-cases (is_success settled.0)) [
        | inl f ↦ rw (e, f) k'
        | inr f ↦ rw (e, f) (reconcile_loop-IsKept cfg now fresh order ps settled.1 k')
      ]
    ]

reconcile_with-IsKept :
    (cfg : FeeConfig) (payment_failed now fresh : ℕ) (order : FeePayment)
    (ps : List ProviderPayment) (b : Books)
    → IsKept b
    → IsKept (reconcile_with cfg payment_failed now fresh order ps b).1
unfolding reconcile_with
reconcile_with-IsKept cfg payment_failed now fresh order ps b k =
    let checked = record b { payments = update_payment order.id (check_row now) b.payments } in
    let k' = map-IsKept _ (check-IsQuiet order.id now) b k in
    let loop = reconcile_loop cfg now fresh order ps checked in
    let k'' = reconcile_loop-IsKept cfg now fresh order ps checked k' in
    elim (Bool-cases loop.0) [
      | inl e ↦ rw e k''
      | inr e ↦
          elim (Bool-cases
            (any is_refused ps && not (any (λ p. is_captured p || is_authorized p) ps))) [
              | inl f ↦
                  rw (e, f)
                    (mark_fee_attempt_failed-IsKept now order.provider_order_id payment_failed
                      loop.1 k'')
              | inr f ↦ rw (e, f) k''
            ]
    ]

pub reconcile_fee_order-IsKept :
    (cfg : FeeConfig) (provider : Option FeeProvider) (payment_failed now fresh : ℕ)
    (order : FeePayment) (b : Books)
    → IsKept b
    → IsKept (reconcile_fee_order cfg provider payment_failed now fresh order b).1
unfolding reconcile_fee_order
reconcile_fee_order-IsKept cfg none payment_failed now fresh order b k = k
reconcile_fee_order-IsKept cfg (some provider) payment_failed now fresh order b k =
    elim (Bool-cases (is_paid order)) [
      | inl e ↦ rw e k
      | inr e ↦ elim (Bool-cases (provider.name == order.provider)) [
        | inr f ↦ rw (e, f) k
        | inl f ↦
            rw (e, f)
              (reconcile_with-IsKept cfg payment_failed now fresh order
                (provider.fetch_order_payments order.provider_order_id) b k)
      ]
    ]

-- Statements that get a due date stay sound.
adopt_rows-IsSound :
    (due : ℕ) (ss : List Statement) → All IsSound ss → All IsSound (map (adopt_row due) ss)
unfolding IsSound
adopt_rows-IsSound due [] h = tt
adopt_rows-IsSound due (s ∷ ss) (h, hs) = elim (Bool-cases (needs_due_date s)) [
  | inl e ↦ rw e (h, adopt_rows-IsSound due ss hs)
  | inr e ↦ rw e (h, adopt_rows-IsSound due ss hs)
]

adopt-IsKept : (cfg : FeeConfig) (now : ℕ) (b : Books) → IsKept b → IsKept (adopt cfg now b).0
unfolding adopt IsKept
adopt-IsKept cfg now b (d, balanced, sound) = elim (Bool-cases cfg.enabled) [
  | inl e ↦ rw e (d, balanced, adopt_rows-IsSound _ b.statements sound)
  | inr e ↦ rw e (d, balanced, sound)
]

late-IsQuiet : (now : ℕ) → IsQuiet (expire_late now)
unfolding collected left_over is_paid is_open
late-IsQuiet now p = ground arith

reconcile_each-IsKept :
    (cfg : FeeConfig) (provider : Option FeeProvider) (payment_failed now fresh : ℕ)
    (os : List FeePayment) (b : Books)
    → IsKept b
    → IsKept (reconcile_each cfg provider payment_failed now fresh os b).1
unfolding reconcile_each
reconcile_each-IsKept cfg provider payment_failed now fresh [] b k = k
reconcile_each-IsKept cfg provider payment_failed now fresh (o ∷ os) b k =
    reconcile_each-IsKept cfg provider payment_failed now (fresh + 1) os _
      (reconcile_fee_order-IsKept cfg provider payment_failed now fresh o b k)

pub reconcile_stuck-IsKept :
    (cfg : FeeConfig) (provider : Option FeeProvider) (payment_failed now fresh : ℕ) (b : Books)
    → IsKept b
    → IsKept (reconcile_stuck_fee_orders cfg provider payment_failed now fresh b).1
unfolding reconcile_stuck_fee_orders
reconcile_stuck-IsKept cfg none payment_failed now fresh b k = k
reconcile_stuck-IsKept cfg (some provider) payment_failed now fresh b k =
    map-IsKept (expire_late now) (late-IsQuiet now) _ (
      reconcile_each-IsKept cfg (some provider) payment_failed now fresh
        (stuck_orders now b.payments) b k)

pub run_fee_maintenance-IsKept :
    (cfg : FeeConfig) (now : ℕ) (notices : List NoticeKey) (b : Books)
    → IsKept b
    → IsKept (run_fee_maintenance cfg now b notices).books
unfolding run_fee_maintenance evaluate_if_needed
run_fee_maintenance-IsKept cfg now notices b k =
    let c = (adopt cfg now b).0 in
    let k' = adopt-IsKept cfg now b k in
    elim (Bool-cases (is_some c.fee_blocked_at || any is_unpaid c.statements)) [
      | inl e ↦ rw e (SameMoney-IsKept c _ (evaluate-SameMoney cfg now c) k')
      | inr e ↦ rw e k'
    ]

Distinct-snoc :
    (i : ℕ) (ids : List ℕ) → includes i ids ≡ false → Distinct ids → Distinct (ids ++ i ∷ [])
Distinct-snoc i [] h d = (refl, tt)
Distinct-snoc i (j ∷ ids) h (d, ds) =
    (absent j ids d (ground arith), Distinct-snoc i ids (ground arith) ds)
  where
    absent :
        (j : ℕ) (ids : List ℕ)
        → includes j ids ≡ false
        → (j == i) ≡ false
        → includes j (ids ++ i ∷ []) ≡ false
    absent j [] h k = rw k refl
    absent j (x ∷ xs) h k = ground (arith, absent j xs)

map-snoc :
    (ps : List FeePayment) (p : FeePayment)
    → map (λ q. q.id) (ps ++ p ∷ []) ≡ map (λ q. q.id) ps ++ p.id ∷ []
map-snoc [] p = refl
map-snoc (q ∷ qs) p = ap (λ xs. q.id ∷ xs) (map-snoc qs p)

ordered-IsKept :
    (p : FeePayment) (b : Books) (events : List FeeEvent)
    → includes p.id (map (λ q. q.id) b.payments) ≡ false
    → collected p ≡ 0
    → left_over p ≡ 0
    → IsKept b
    → IsKept (record b { payments = map expire_open b.payments ++ p ∷ []; events = events })
unfolding IsKept
ordered-IsKept p b events new c l k =
    let (d, balanced, sound) = map-IsKept expire_open expire-IsQuiet b k in
    let (same_ids, _, _) = quiet_sums expire_open expire-IsQuiet b.payments in
    (
      rw (map-snoc (map expire_open b.payments) p) (Distinct-snoc p.id _ (rw same_ids new) d),
      rw
          (
            sum_by-append collected (map expire_open b.payments) (p ∷ []),
            sum_by-append left_over (map expire_open b.payments) (p ∷ []),
          )
          (omega (arith, balanced, c, l)),
      sound,
    )

-- The books after a call: a call that throws leaves them.
abbrev books_after : Books → Result OrderError (FeeOrderResult × Books) → Books
books_after b (throw e) = b
books_after b (ok (result, b')) = b'

create_fee_order-after :
    (id provider provider_order_id by rupee now : ℕ) (b : Books)
    → includes id (map (λ p. p.id) b.payments) ≡ false
    → IsKept b
    → IsKept (books_after b (create_fee_order id provider provider_order_id by rupee now b))
unfolding create_fee_order collected left_over is_paid
create_fee_order-after id provider provider_order_id by rupee now b new k =
    let amount = (compute_fee_account b now).total_due_paise in
    let open_orders = sort (λ p q. leb q.created_at p.created_at) (keep is_open b.payments) in
    elim (Bool-cases (amount == 0)) [
      | inl f ↦ rw (create_fee_order, f) k
      | inr f ↦ elim (Option-cases (find (reusable amount now) open_orders)) [
        | inl g ↦
            rw (create_fee_order, f, g)
              (ordered-IsKept (new_order id provider provider_order_id by amount rupee now) b _ new
                refl refl k)
        | inr (p, g) ↦ rw (create_fee_order, f, g) k
      ]
    ]

pub create_fee_order-IsKept :
    (id provider provider_order_id by rupee now : ℕ) (result : FeeOrderResult) (b b' : Books)
    → includes id (map (λ p. p.id) b.payments) ≡ false
    → create_fee_order id provider provider_order_id by rupee now b ≡ ok (result, b')
    → IsKept b
    → IsKept b'
create_fee_order-IsKept id provider provider_order_id by rupee now result b b' new e k =
    subst IsKept (ap (books_after b) e)
      (create_fee_order-after id provider provider_order_id by rupee now b new k)

-- The whole of createFeeOrder, under an id that no order has after the stale ones were settled.
pub open_fee_order-IsKept :
    (cfg : FeeConfig) (provider : FeeProvider)
    (payment_failed fresh id provider_order_id by rupee now : ℕ) (result : FeeOrderResult)
    (b b' : Books)
    → let c =
        (reconcile_each cfg
          (some provider)
          payment_failed
          now
          fresh
          (keep (is_stale now) b.payments)
          b).1 in
      includes id (map (λ p. p.id) c.payments) ≡ false
      → open_fee_order cfg (some provider) payment_failed fresh id provider_order_id by rupee now b
        ≡ ok (result, b')
      → IsKept b
      → IsKept b'
unfolding open_fee_order
open_fee_order-IsKept cfg provider payment_failed fresh id provider_order_id by rupee now result b
      b' new e k =
    create_fee_order-IsKept id provider.name provider_order_id by rupee now result _ b' new e (
      reconcile_each-IsKept cfg (some provider) payment_failed now fresh
        (keep (is_stale now) b.payments) b k)
