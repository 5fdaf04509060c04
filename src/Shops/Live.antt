-- ===== src/Shops/Live.antt =====
-- apps/api/src/modules/shops: how publication, visibility and availability fit together.
use print_q.Base.{
  ◌≡◌, ◌↔◌, ◌⊎◌, refl, ap, ℕ, Bool, true, false, ◌&&◌, ◌||◌, none, List, [], ◌∷◌, any, map,
  includes, Bool-cases, inl, inr, arith, ◌==◌,
}
use print_q.Shops.{
  Shop, Agent, Printer, is_published_shop, shop_visibility, has_online_printer_path,
  is_shop_operational, online_agents, reaches, printer_reached, live, hidden_by_admin,
  pending_review, publish_if_ready, is_ready, linked_online, campus_ok,
}

path-rows :
    (connected : List (List ℕ)) (printers : List Printer)
    → any (printer_reached connected) (map (λ p. (p.id, p.online)) printers)
      ≡ any (reaches connected) printers
path-rows connected [] = refl
path-rows connected (p ∷ ps) = ap (λ b. reaches connected p || b) (path-rows connected ps)

-- Students see a published shop as live exactly when they can order there, unless it paused orders or
-- is blocked: for a published shop that accepts orders and has no fee block, the visibility state is
-- `live` exactly if the shop is operational.
pub shop_visibility-live :
    (s : Shop)
    → is_published_shop s ≡ true
    → s.accepting_orders ≡ true
    → s.fee_blocked_at ≡ none
    → ((shop_visibility s).state ≡ live) ↔ (is_shop_operational s ≡ true)
unfolding is_published_shop shop_visibility is_shop_operational has_online_printer_path
shop_visibility-live s published accepting unblocked =
    let same = path-rows (online_agents s.agents) s.printers in (ground arith, ground arith)

-- An online printer with this id.
has_online : ℕ → List Printer → Bool
has_online id ps = any (λ p. p.online && id == p.id) ps

linked-has_online :
    (id : ℕ) (ps : List Printer) → includes id (linked_online ps) ≡ true → has_online id ps ≡ true
unfolding has_online
linked-has_online id [] h = cc
linked-has_online id (p ∷ ps) h = ground (arith, linked-has_online id ps)

-- An online printer that one agent is connected to is reached, whatever the other agents drive.
any-reaches-head :
    (c : List ℕ) (cs : List (List ℕ)) (ps : List Printer) (id : ℕ)
    → includes id c ≡ true
    → has_online id ps ≡ true
    → any (reaches (c ∷ cs)) ps ≡ true
unfolding has_online
any-reaches-head c cs [] id h k = k
any-reaches-head c cs (p ∷ ps) id h k = ground (arith, any-reaches-head c cs ps id h)

any-reaches-tail :
    (c : List ℕ) (cs : List (List ℕ)) (ps : List Printer)
    → any (reaches cs) ps ≡ true
    → any (reaches (c ∷ cs)) ps ≡ true
any-reaches-tail c cs [] h = h
any-reaches-tail c cs (p ∷ ps) h = ground (arith, any-reaches-tail c cs ps)

any-linked :
    (c : List ℕ) (cs : List (List ℕ)) (ps : List Printer) (ids : List ℕ)
    → ((id : ℕ) → includes id ids ≡ true → includes id c ≡ true)
    → any (λ id. includes id (linked_online ps)) ids ≡ true
    → any (reaches (c ∷ cs)) ps ≡ true
any-linked c cs ps [] sub h = cc
any-linked c cs ps (i ∷ ids) sub h = elim (Bool-cases (includes i (linked_online ps))) [
  | inl here ↦ any-reaches-head c cs ps i (sub i (ground arith)) (linked-has_online i ps here)
  | inr gone ↦ any-linked c cs ps ids (λ id k. sub id (ground arith)) (ground arith)
]

-- An agent that can print on a linked printer is what makes a shop ready.
abbrev drives : List Printer → Agent → Bool
drives ps a = a.online && any (λ id. includes id (linked_online ps)) a.connected_printer_ids

any-drives :
    (ps : List Printer) (agents : List Agent)
    → any (drives ps) agents ≡ true
    → any (reaches (online_agents agents)) ps ≡ true
any-drives ps [] h = cc
any-drives ps (a ∷ agents) h =
    let linked =
      any-linked a.connected_printer_ids (online_agents agents) ps a.connected_printer_ids
        (λ id k. k) in
    let others = any-reaches-tail a.connected_printer_ids (online_agents agents) ps in
    let later = any-drives ps agents in ground arith

-- A shop that publishes by itself can be seen, if nothing that the update does not ask again changed
-- after it was read: when `publishIfReady` publishes a row whose location, computers and printers are
-- those that it had read, and whose campus is active (or that has none), students see it as live.
pub publish_if_ready-live :
    (now : ℕ) (seen row : Shop)
    → row.located ≡ seen.located
    → row.agents ≡ seen.agents
    → row.printers ≡ seen.printers
    → campus_ok row ≡ true
    → (publish_if_ready now seen row).0 ≡ true
    → (shop_visibility (publish_if_ready now seen row).1).state ≡ live
unfolding publish_if_ready shop_visibility is_published_shop is_ready has_online_printer_path
publish_if_ready-live now seen row place computers printers campus h =
    let path = any-drives seen.printers seen.agents in
    let reached : has_online_printer_path row.agents row.printers
        ≡ has_online_printer_path seen.agents seen.printers =
      rw (computers, printers) refl in
    ground arith

-- The automatic publication never overrides a review: whatever it had read before, a shop that students
-- see as hidden by an admin or as pending review when the update runs stays as it is.
pub publish_if_ready-review :
    (now : ℕ) (seen row : Shop)
    → ((shop_visibility row).state ≡ hidden_by_admin)
      ⊎ ((shop_visibility row).state ≡ pending_review)
    → publish_if_ready now seen row ≡ (false, row)
unfolding publish_if_ready shop_visibility is_published_shop
publish_if_ready-review now seen row reviewed = ground arith
