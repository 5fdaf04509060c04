-- ===== src/Fees/Enforcement/Block.antt =====
-- apps/api/src/modules/fees/enforcement.ts: when a shop is blocked.
use print_q.Base.{
  ◌≡◌, refl, ◌∙◌, ap, ap₂, ℕ, Bool, true, false, ◌&&◌, ◌||◌, not, Option, List, [], ◌∷◌, is_some,
  any, keep, find, arith, if◌then◌else◌,
}
use print_q.Base.Sorting.{sort, any-sort}
use print_q.Fees.{Books, Statement, FeeConfig, is_unpaid}
use print_q.Fees.Enforcement.{
  no_change, evaluate_shop_fee_block, decide_block, block_shop, unblock_shop, overdue_statement,
  override_active, must_block, due_before,
}

-- Whether the shop has an unpaid statement whose block instant is past, while fee payments are on.
unfoldable pub is_overdue_shop : FeeConfig → ℕ → Books → Bool
is_overdue_shop cfg now b =
    cfg.enabled && any (λ s. is_unpaid s && must_block cfg now s) b.statements

find-some : {A : Type 0} (p : A → Bool) (xs : List A) → is_some (find p xs) ≡ any p xs
find-some p [] = refl
find-some p (x ∷ xs) = ground (arith, find-some p xs)

any-keep :
    {A : Type 0} (p q : A → Bool) (xs : List A) → any p (keep q xs) ≡ any (λ x. q x && p x) xs
any-keep p q [] = refl
any-keep p q (x ∷ xs) = ground (arith, any-keep p q xs)

-- The query leaves out the statements without a due date, which are never past it.
any-due :
    (cfg : FeeConfig) (now : ℕ) (ss : List Statement)
    → any (λ s. (is_unpaid s && is_some s.due_at) && must_block cfg now s) ss
      ≡ any (λ s. is_unpaid s && must_block cfg now s) ss
unfolding must_block
any-due cfg now [] = refl
any-due cfg now (s ∷ ss) =
    rw (any-due cfg now ss)
      (ap (λ b. b || any (λ s. is_unpaid s && must_block cfg now s) ss) (one s.due_at))
  where
    one :
        (d : Option ℕ)
        → (is_unpaid s && is_some d && must_block cfg now (record s { due_at = d }))
          ≡ (is_unpaid s && must_block cfg now (record s { due_at = d }))
    one d = ground arith

overdue-some :
    (cfg : FeeConfig) (now : ℕ) (b : Books)
    → is_some (overdue_statement cfg now b.statements) ≡ is_overdue_shop cfg now b
unfolding overdue_statement is_overdue_shop
overdue-some cfg now b = by_switch cfg.enabled
  where
    listed : List Statement
    listed = sort due_before (keep (λ s. is_unpaid s && is_some s.due_at) b.statements)

    by_switch :
        (on : Bool)
        → is_some (find (must_block cfg now) (if on then listed else []))
          ≡ (on && any (λ s. is_unpaid s && must_block cfg now s) b.statements)
    by_switch false = refl
    by_switch true =
        find-some (must_block cfg now) listed
        ∙ any-sort due_before (must_block cfg now) _
        ∙ any-keep (must_block cfg now) (λ s. is_unpaid s && is_some s.due_at) b.statements
        ∙ any-due cfg now b.statements

decide_block-blocked :
    (s : Option Statement) (o : Bool) (t : Option ℕ) (now : ℕ) (b : Books)
    → b.fee_blocked_at ≡ t
    → is_some (decide_block s o t now b).1.fee_blocked_at ≡ (is_some s && not o)
unfolding decide_block block_shop unblock_shop
decide_block-blocked s o t now b e = ground arith

decide_block-again :
    (s : Option Statement) (o : Bool) (t : Option ℕ) (now later : ℕ) (b : Books)
    → b.fee_blocked_at ≡ t
    → let b' = (decide_block s o t now b).1 in
      decide_block s o b'.fee_blocked_at later b' ≡ (no_change, b')
unfolding decide_block block_shop unblock_shop
decide_block-again s o t now later b e = ground arith

decide_block-kept :
    (s : Option Statement) (o : Bool) (t : Option ℕ) (now : ℕ) (b : Books)
    → let b' = (decide_block s o t now b).1 in
      (b'.statements ≡ b.statements) × (b'.fee_block_override_until ≡ b.fee_block_override_until)
unfolding decide_block block_shop unblock_shop
decide_block-kept s o t now b = ground arith

-- After an evaluation a shop is blocked exactly if fee payments are on, some unpaid statement is
-- past its block instant, and support's override is not active; whether the shop was blocked
-- before does not matter.
pub evaluate_shop_fee_block-blocked :
    (cfg : FeeConfig) (now : ℕ) (b : Books)
    → is_some (evaluate_shop_fee_block cfg now b).1.fee_blocked_at
      ≡ (is_overdue_shop cfg now b && not (override_active now b.fee_block_override_until))
unfolding evaluate_shop_fee_block
evaluate_shop_fee_block-blocked cfg now b =
    decide_block-blocked (overdue_statement cfg now b.statements)
      (override_active now b.fee_block_override_until) b.fee_blocked_at now b refl
    ∙ ap (λ o. o && not (override_active now b.fee_block_override_until)) (overdue-some cfg now b)

-- A second evaluation at the same instant changes nothing, so nothing is announced twice.
pub evaluate_shop_fee_block-again :
    (cfg : FeeConfig) (now : ℕ) (b : Books)
    → let b' = (evaluate_shop_fee_block cfg now b).1 in
      evaluate_shop_fee_block cfg now b' ≡ (no_change, b')
unfolding evaluate_shop_fee_block
evaluate_shop_fee_block-again cfg now b =
    let s = overdue_statement cfg now b.statements in
    let o = override_active now b.fee_block_override_until in
    let b' = (decide_block s o b.fee_blocked_at now b).1 in
    let (statements, until) = decide_block-kept s o b.fee_blocked_at now b in
    ap₂
      (λ ss t.
        decide_block (overdue_statement cfg now ss) (override_active now t) b'.fee_blocked_at now
          b')
      statements until
    ∙ decide_block-again s o b.fee_blocked_at now now b refl

pub evaluate_shop_fee_block-statements :
    (cfg : FeeConfig) (now : ℕ) (b : Books)
    → (evaluate_shop_fee_block cfg now b).1.statements ≡ b.statements
unfolding evaluate_shop_fee_block
evaluate_shop_fee_block-statements cfg now b =
    (decide_block-kept (overdue_statement cfg now b.statements)
      (override_active now b.fee_block_override_until) b.fee_blocked_at now b).0
