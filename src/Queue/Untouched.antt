-- ===== src/Queue/Untouched.antt =====
-- What a reveal pass leaves alone.
use print_q.Base.{
  ℕ, zero, suc, ◌≡◌, ap, ◌∙◌, ◌⊎◌, Bool, true, false, Option, some, List, [], ◌∷◌, map, get_elem?,
  is_some, arith,
}
use print_q.Job.{Job}
use print_q.Queue.{Settings}
use print_q.Queue.Pass.{in_line, find_pick, update_row, pass_picks, locked_reveal_pass}

get_elem?-map :
    (f : Job → Job) (xs : List Job) (i : ℕ) (j : Job)
    → get_elem? xs i ≡ some j
    → get_elem? (map f xs) i ≡ some (f j)
get_elem?-map f [] i j h = cc
get_elem?-map f (x ∷ xs) zero j h = ground arith
get_elem?-map f (x ∷ xs) (suc i) j h = get_elem?-map f xs i j h

update_row_other :
    (shop_id now grace : ℕ) (pick : Option Bool) (j : Job)
    → (in_line shop_id j ≡ false) ⊎ (is_some j.revealed_at ≡ true)
    → update_row shop_id now grace pick j ≡ j
unfolding update_row
update_row_other shop_id now grace pick j h = ground arith

-- A pass for a shop changes no job of another shop, no job that is not queued or notified, and no
-- job that was revealed before: a reveal is never undone, and its deadline never moves.
pub locked_reveal_pass_other :
    (shop_id now : ℕ) (s : Settings) (table : List Job) (i : ℕ) (j : Job)
    → get_elem? table i ≡ some j
    → (in_line shop_id j ≡ false) ⊎ (is_some j.revealed_at ≡ true)
    → get_elem? (locked_reveal_pass shop_id (some s) now table).0 i ≡ some j
unfolding locked_reveal_pass
locked_reveal_pass_other shop_id now s table i j h other =
    let picks = pass_picks shop_id s table in
    get_elem?-map (λ j. update_row shop_id now s.reveal_grace_seconds (find_pick j.id picks) j)
      table i j h
    ∙ ap some (update_row_other shop_id now s.reveal_grace_seconds (find_pick j.id picks) j other)
