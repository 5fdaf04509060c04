-- ===== src/Fees/Enforcement/Notices.antt =====
-- apps/api/src/modules/fees/enforcement.ts: what a second run of the maintenance does.
use print_q.Base.{
  ◌≡◌, refl, sym, ap₂, subst, ℕ, Bool, true, false, ◌&&◌, ◌||◌, Option, none, some, List, [], ◌∷◌,
  is_some, any, All, keep, tally, map, Bool-cases, inl, inr, arith, if◌then◌else◌,
}
use print_q.Fees.{Books, Statement, FeeConfig, is_unpaid, due_at_for}
use print_q.Fees.Enforcement.{
  NoticeKey, same_key, emit_fee_notice, notice_due, send_notices, send_all_notices,
  evaluate_if_needed, offer, adopt, adopt_row, needs_due_date, run_fee_maintenance, no_change,
  evaluate_shop_fee_block,
}
use print_q.Fees.Enforcement.Block.{
  evaluate_shop_fee_block-again, evaluate_shop_fee_block-statements,
}

same_key_refl : (k : NoticeKey) → same_key k k ≡ true
same_key_refl k = ground arith

-- No notice is due, or it was created.
abbrev served : Option NoticeKey → List NoticeKey → Bool
served none notices = true
served (some key) notices = any (same_key key) notices

offer-kept :
    (k : NoticeKey) (due : Option NoticeKey) (ns : List NoticeKey) (sent : ℕ)
    → any (same_key k) ns ≡ true
    → any (same_key k) (offer due ns sent).0 ≡ true
unfolding offer emit_fee_notice
offer-kept k none ns sent h = h
offer-kept k (some key) ns sent h = elim (Bool-cases (any (same_key key) ns)) [
  | inl e ↦ rw e h
  | inr e ↦ rw e (ground (arith, h))
]

offer-served :
    (due : Option NoticeKey) (ns : List NoticeKey) (sent : ℕ)
    → served due (offer due ns sent).0 ≡ true
unfolding offer emit_fee_notice
offer-served none ns sent = refl
offer-served (some key) ns sent = elim (Bool-cases (any (same_key key) ns)) [
  | inl e ↦ rw e e
  | inr e ↦ rw (e, same_key_refl key) refl
]

offer-again :
    (due : Option NoticeKey) (ns : List NoticeKey) (sent : ℕ)
    → served due ns ≡ true
    → offer due ns sent ≡ (ns, sent)
unfolding offer emit_fee_notice
offer-again none ns sent h = refl
offer-again (some key) ns sent h = rw h refl

served-kept :
    (due : Option NoticeKey) (ns ms : List NoticeKey)
    → ((k : NoticeKey) → any (same_key k) ns ≡ true → any (same_key k) ms ≡ true)
    → served due ns ≡ true
    → served due ms ≡ true
served-kept none ns ms grow h = refl
served-kept (some key) ns ms grow h = grow key h

send_notices-kept :
    (cfg : FeeConfig) (now : ℕ) (k : NoticeKey) (ss : List Statement) (ns : List NoticeKey)
    (sent : ℕ)
    → any (same_key k) ns ≡ true
    → any (same_key k) (send_notices cfg now ss ns sent).0 ≡ true
unfolding send_notices
send_notices-kept cfg now k [] ns sent h = h
send_notices-kept cfg now k (s ∷ ss) ns sent h =
    send_notices-kept cfg now k ss _ _ (offer-kept k (notice_due cfg now s) ns sent h)

send_notices-served :
    (cfg : FeeConfig) (now : ℕ) (ss : List Statement) (ns : List NoticeKey) (sent : ℕ)
    → All (λ s. served (notice_due cfg now s) (send_notices cfg now ss ns sent).0 ≡ true) ss
unfolding send_notices
send_notices-served cfg now [] ns sent = tt
send_notices-served cfg now (s ∷ ss) ns sent =
    let next = offer (notice_due cfg now s) ns sent in
    (
      served-kept (notice_due cfg now s) next.0 _
          (λ k. send_notices-kept cfg now k ss next.0 next.1)
          (offer-served (notice_due cfg now s) ns sent),
      send_notices-served cfg now ss next.0 next.1,
    )

send_notices-again :
    (cfg : FeeConfig) (now : ℕ) (ss : List Statement) (ns : List NoticeKey) (sent : ℕ)
    → All (λ s. served (notice_due cfg now s) ns ≡ true) ss
    → send_notices cfg now ss ns sent ≡ (ns, sent)
unfolding send_notices
send_notices-again cfg now [] ns sent h = refl
send_notices-again cfg now (s ∷ ss) ns sent (h, hs) =
    rw (offer-again (notice_due cfg now s) ns sent h) (send_notices-again cfg now ss ns sent hs)

send_all_notices-again :
    (cfg : FeeConfig) (now : ℕ) (b : Books) (ns : List NoticeKey)
    → let sent = (send_all_notices cfg now b ns).0 in send_all_notices cfg now b sent ≡ (sent, 0)
unfolding send_all_notices
send_all_notices-again cfg now b ns = by_switch cfg.enabled
  where
    ss : List Statement
    ss = keep (λ s. is_unpaid s && is_some s.due_at) b.statements

    by_switch :
        (on : Bool)
        → let sent = (if on then send_notices cfg now ss ns 0 else (ns, 0)).0 in
          (if on then send_notices cfg now ss sent 0 else (sent, 0)) ≡ (sent, 0)
    by_switch false = refl
    by_switch true = send_notices-again cfg now ss _ 0 (send_notices-served cfg now ss ns 0)

adopt_row-done : (due : ℕ) (s : Statement) → needs_due_date (adopt_row due s) ≡ false
unfolding is_unpaid
adopt_row-done due s = elim (Bool-cases (needs_due_date s)) [
  | inl e ↦ rw e (ground arith)
  | inr e ↦ rw e e
]

adopt_rows-again :
    (due : ℕ) (ss : List Statement)
    → (map (adopt_row due) (map (adopt_row due) ss) ≡ map (adopt_row due) ss)
      × (tally needs_due_date (map (adopt_row due) ss) ≡ 0)
adopt_rows-again due [] = (refl, refl)
adopt_rows-again due (s ∷ ss) =
    let (rows, count) = adopt_rows-again due ss in
    let done = adopt_row-done due s in (rw (done, rows) refl, rw (done, count) refl)

-- The statements of the books need no due date any more.
abbrev IsAdopted : FeeConfig → ℕ → List Statement → Type 0
IsAdopted cfg now ss =
    (map (adopt_row (due_at_for cfg now)) ss ≡ ss) × (tally needs_due_date ss ≡ 0)

abbrev adopt_if : Bool → FeeConfig → ℕ → Books → Books × ℕ
adopt_if on cfg now b =
    if on
    then (
      record b { statements = map (adopt_row (due_at_for cfg now)) b.statements },
      tally needs_due_date b.statements,
    )
    else (b, 0)

adopt-IsAdopted :
    (cfg : FeeConfig) (now : ℕ) (b : Books)
    → cfg.enabled ≡ true
    → IsAdopted cfg now (adopt cfg now b).0.statements
unfolding adopt
adopt-IsAdopted cfg now b on =
    subst (λ on. IsAdopted cfg now (adopt_if on cfg now b).0.statements) (sym on)
      (adopt_rows-again (due_at_for cfg now) b.statements)

adopt-again :
    (cfg : FeeConfig) (now : ℕ) (b : Books)
    → (cfg.enabled ≡ true → IsAdopted cfg now b.statements)
    → adopt cfg now b ≡ (b, 0)
unfolding adopt
adopt-again cfg now b h = by_switch cfg.enabled h
  where
    by_switch :
        (on : Bool) → (on ≡ true → IsAdopted cfg now b.statements) → adopt_if on cfg now b ≡ (b, 0)
    by_switch false k = refl
    by_switch true k =
        let (rows, count) = k refl in ap₂ (λ ss n. (record b { statements = ss }, n)) rows count

evaluate_if_needed-again :
    (cfg : FeeConfig) (now : ℕ) (b : Books)
    → let b' = (evaluate_if_needed cfg now b).1 in
      (evaluate_if_needed cfg now b' ≡ (no_change, b')) × (b'.statements ≡ b.statements)
unfolding evaluate_if_needed
evaluate_if_needed-again cfg now b =
    by_need (is_some b.fee_blocked_at || any is_unpaid b.statements) refl
  where
    settle :
        (c : Books)
        → evaluate_shop_fee_block cfg now c ≡ (no_change, c)
        → evaluate_if_needed cfg now c ≡ (no_change, c)
    settle c e = elim (Bool-cases (is_some c.fee_blocked_at || any is_unpaid c.statements)) [
      | inl f ↦ rw (evaluate_if_needed, f) e
      | inr f ↦ rw (evaluate_if_needed, f) refl
    ]

    by_need :
        (need : Bool)
        → need ≡ (is_some b.fee_blocked_at || any is_unpaid b.statements)
        → let b' = (if need then evaluate_shop_fee_block cfg now b else (no_change, b)).1 in
          (evaluate_if_needed cfg now b' ≡ (no_change, b')) × (b'.statements ≡ b.statements)
    by_need true e = (
      settle _ (evaluate_shop_fee_block-again cfg now b),
      evaluate_shop_fee_block-statements cfg now b,
    )
    by_need false e = (rw (evaluate_if_needed, sym e) refl, refl)

-- The maintenance of a shop is idempotent: run again at the same instant, it adopts no statement,
-- blocks or unblocks nothing, creates no notice, and leaves the books and the notices as they are.
pub run_fee_maintenance-again :
    (cfg : FeeConfig) (now : ℕ) (b : Books) (notices : List NoticeKey)
    → let m = run_fee_maintenance cfg now b notices in
      run_fee_maintenance cfg now m.books m.notices
      ≡ record m { result = record { adopted = 0; notices_sent = 0; change = no_change } }
unfolding run_fee_maintenance
run_fee_maintenance-again cfg now b notices =
    let b₁ = (adopt cfg now b).0 in
    let b₂ = (evaluate_if_needed cfg now b₁).1 in
    let (still, same) = evaluate_if_needed-again cfg now b₁ in
    let adopted =
      adopt-again cfg now b₂
        (λ on. subst (IsAdopted cfg now) (sym same) (adopt-IsAdopted cfg now b on)) in
    rw (adopted, still, send_all_notices-again cfg now b₂ notices) refl
