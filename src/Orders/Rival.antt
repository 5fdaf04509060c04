-- ===== src/Orders/Rival.antt =====
-- apps/api/src/modules/jobs/routes.ts: two creations of an order for one file that raced.
use mathlib.Core.List.{Memᴰ}
use print_q.Base.{
  subst, ◌⊎◌, inl, inr, ◌≡◌, refl, ◌==◌, true, false, Bool, List, [], ◌∷◌, any, arith,
}
use print_q.Job.{Job}
use print_q.Orders.{is_active_file_status}
use print_q.Orders.Prepare.{has_rival, is_rival}

any-Mem : (p : Job → Bool) (x : Job) (xs : List Job) → Memᴰ x xs → p x ≡ true → any p xs ≡ true
any-Mem p x [] m h = elim m [ ]
any-Mem p x (y ∷ ys) (Memᴰ.head e) h = rw (subst (λ z. p z ≡ true) e h) refl
any-Mem p x (y ∷ ys) (Memᴰ.tail m) h = let rest = any-Mem p x ys m h in ground arith

is_rival-some :
    (a b : Job)
    → a.file_id ≡ b.file_id
    → (a.id == b.id) ≡ false
    → is_active_file_status a.status ≡ true
    → is_active_file_status b.status ≡ true
    → (is_rival a b ≡ true) ⊎ (is_rival b a ≡ true)
is_rival-some a b file apart active_a active_b = ground arith

-- Of two active orders of one file that are both in the table, with different ids, at least one has a
-- rival in that table.
pub has_rival_race :
    (a b : Job) (jobs : List Job)
    → Memᴰ a jobs
    → Memᴰ b jobs
    → a.file_id ≡ b.file_id
    → (a.id == b.id) ≡ false
    → is_active_file_status a.status ≡ true
    → is_active_file_status b.status ≡ true
    → (has_rival a jobs ≡ true) ⊎ (has_rival b jobs ≡ true)
unfolding has_rival
has_rival_race a b jobs in_a in_b file apart active_a active_b =
    let seen_by_a = any-Mem (is_rival a) b jobs in_b in
    let seen_by_b = any-Mem (is_rival b) a jobs in_a in
    elim (is_rival-some a b file apart active_a active_b) [
      | inl h ↦ inl (seen_by_a h)
      | inr h ↦ inr (seen_by_b h)
    ]
