-- ===== src/Shops/Tests.antt =====
-- Runs of apps/api/src/modules/shops on small shops.
use print_q.Base.{◌≡◌, refl, ◌↔◌, true, some, none, [], ◌∷◌}
use print_q.Pricing.{PaperOption}
use print_q.Shops.{
  Shop, Agent, Printer, shop_visibility, is_shop_operational, publish_if_ready, live, draft,
  is_published_shop, is_ready, linked_names, count_detected_printers, detected_names, add_names,
  publish,
}
use print_q.Shops.Live.{shop_visibility-live, publish_if_ready-live}

abbrev a4 : PaperOption
a4 = record { id = 4; label = 0; bw_paise = 200; color_paise = some 800 }

abbrev desk_printer : Printer
desk_printer = record { id = 1; online = true; os_printer_name = some 9 }

abbrev shop_pc : Agent
shop_pc = record {
  online = true;
  connected_printer_ids = 1 ∷ [];
  detected_printers = some 9 ∷ some 8 ∷ none ∷ some 8 ∷ [];
}

abbrev new_shop : Shop
new_shop = record {
  auto_live = true;
  verification_status = draft;
  verification_submitted_at = none;
  verified_at = none;
  published_at = none;
  campus_id = none;
  campus_active = none;
  located = true;
  accepting_orders = true;
  fee_blocked_at = none;
  papers = a4 ∷ [];
  agents = shop_pc ∷ [];
  printers = desk_printer ∷ [];
  last_admin_action = none;
}

abbrev open_shop : Shop
open_shop = publish 5 new_shop

-- One detected name is not linked to a profile.
count_detected : count_detected_printers (shop_pc ∷ []) (desk_printer ∷ []) ≡ 1
unfolding count_detected_printers detected_names add_names linked_names
count_detected = refl

published_at_once : (publish_if_ready 5 new_shop new_shop).0 ≡ true
unfolding publish_if_ready is_ready
published_at_once = refl

shop_visibility-live_example :
    ((shop_visibility open_shop).state ≡ live) ↔ (is_shop_operational open_shop ≡ true)
unfolding is_published_shop
shop_visibility-live_example = shop_visibility-live open_shop refl refl refl

publish_if_ready-live_example :
    (shop_visibility (publish_if_ready 5 new_shop new_shop).1).state ≡ live
publish_if_ready-live_example =
    publish_if_ready-live 5 new_shop new_shop refl refl refl refl published_at_once
