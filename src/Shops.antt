-- ===== src/Shops.antt =====
-- apps/api/src/modules/shops: visibility.ts (what students can see of a shop), availability.ts (whether
-- it takes orders) and autoLive.ts (when a new shop is published by itself), with isPublishedShop of
-- public/discovery.ts. A coordinate is only asked whether it is there, so `located` says that both are.
-- The print menu, `shopOptions(shop)`, is a column here.
pub mod Live
mod Tests
use print_q.Base.{
  ℕ, Bool, true, false, not, ◌&&◌, ◌||◌, Option, none, some, is_some, is_none, List, [], ◌∷◌, ◌++◌,
  any, keep, map, includes, length, take, if◌then◌else◌,
}
use print_q.PageRange.{trim}
use print_q.Pricing.{PaperOption}

pub data VerificationStatus : Type 0 where
  draft submitted verified rejected : VerificationStatus

pub data AdminActionKind : Type 0 where
  shop_published shop_unpublished shop_verified shop_rejected : AdminActionKind

-- The newest audit event of the kinds above; `reason` is its reason, where that is a text.
pub record AdminAction : Type 0 where
  pub action : AdminActionKind
  pub reason : Option (List ℕ)

pub record Agent : Type 0 where
  pub online : Bool
  pub connected_printer_ids : List ℕ
  pub detected_printers : List (Option ℕ)

pub record Printer : Type 0 where
  pub id : ℕ
  pub online : Bool
  pub os_printer_name : Option ℕ

-- `campus_active` is that of the joined campus row, if there is one.
pub record Shop : Type 0 where
  pub auto_live : Bool
  pub verification_status : VerificationStatus
  pub verification_submitted_at : Option ℕ
  pub verified_at : Option ℕ
  pub published_at : Option ℕ
  pub campus_id : Option ℕ
  pub campus_active : Option Bool
  pub located : Bool
  pub accepting_orders : Bool
  pub fee_blocked_at : Option ℕ
  pub papers : List PaperOption
  pub agents : List Agent
  pub printers : List Printer
  pub last_admin_action : Option AdminAction

pub data ShopVisibilityState : Type 0 where
  live live_pc_offline not_ready hidden_by_admin campus_inactive pending_review :
      ShopVisibilityState

pub record ShopVisibility : Type 0 where
  pub state : ShopVisibilityState
  pub reason : Option (List ℕ)

abbrev pub is_verified : VerificationStatus → Bool
is_verified verified = true
is_verified _ = false

abbrev pub is_rejected : VerificationStatus → Bool
is_rejected rejected = true
is_rejected _ = false

abbrev pub is_submitted : VerificationStatus → Bool
is_submitted submitted = true
is_submitted _ = false

-- `status === 'draft' || status === 'submitted'`.
abbrev pub is_unreviewed : VerificationStatus → Bool
is_unreviewed draft = true
is_unreviewed submitted = true
is_unreviewed _ = false

abbrev pub is_active : Option Bool → Bool
is_active none = false
is_active (some active) = active

abbrev pub campus_ok : Shop → Bool
campus_ok s = is_none s.campus_id || is_active s.campus_active

unfoldable pub is_published_shop : Shop → Bool
is_published_shop s = is_verified s.verification_status && (is_some s.published_at && campus_ok s)

abbrev pub nonempty_reason : List ℕ → Option (List ℕ)
nonempty_reason [] = none
nonempty_reason (c ∷ cs) = some (take 300 (c ∷ cs))

unfoldable pub recorded_reason : Option (List ℕ) → Option (List ℕ)
recorded_reason none = none
recorded_reason (some text) = nonempty_reason (trim text)

-- `last?.action === kind ? recordedReason(last) : null`, and whether the action is that.
abbrev pub reason_of_rejection : Option AdminAction → Option (List ℕ)
reason_of_rejection none = none
reason_of_rejection (some a) = elim a.action [ shop_rejected ↦ recorded_reason a.reason | _ ↦ none ]

abbrev pub is_unpublished : Option AdminAction → Bool
is_unpublished none = false
is_unpublished (some a) = elim a.action [ shop_unpublished ↦ true | _ ↦ false ]

abbrev pub reason_of : Option AdminAction → Option (List ℕ)
reason_of none = none
reason_of (some a) = recorded_reason a.reason

-- The printers that some agent drives, and whether one of them is online.
abbrev pub online_agents : List Agent → List (List ℕ)
online_agents agents = map (λ a. a.connected_printer_ids) (keep (λ a. a.online) agents)

abbrev pub reaches : List (List ℕ) → Printer → Bool
reaches connected p = p.online && any (includes p.id) connected

unfoldable pub has_online_printer_path : List Agent → List Printer → Bool
has_online_printer_path agents printers = any (reaches (online_agents agents)) printers

abbrev pub without_reason : ShopVisibilityState → ShopVisibility
without_reason state = record { state = state; reason = none }

unfoldable pub shop_visibility : Shop → ShopVisibility
unfolding is_published_shop
shop_visibility s =
    if is_rejected s.verification_status
    then (record { state = hidden_by_admin; reason = reason_of_rejection s.last_admin_action })
    else if is_verified s.verification_status
        && (is_none s.published_at && is_unpublished s.last_admin_action)
    then (record { state = hidden_by_admin; reason = reason_of s.last_admin_action })
    else if not (campus_ok s)
    then without_reason campus_inactive
    else if is_published_shop s
    then (if not s.located
        then without_reason not_ready
        else if has_online_printer_path s.agents s.printers
        then without_reason live
        else without_reason live_pc_offline)
    else if (is_submitted s.verification_status && not s.auto_live)
        || is_verified s.verification_status
    then without_reason pending_review
    else without_reason not_ready

-- What availability.ts asks of a shop; `agents` are the printers of its online agents.
pub record OperationalShopRows : Type 0 where
  pub accepting_orders : Bool
  pub fee_blocked_at : Option ℕ
  pub located : Bool
  pub agents : List (List ℕ)
  pub printers : List (ℕ × Bool)

abbrev pub printer_reached : List (List ℕ) → ℕ × Bool → Bool
printer_reached agents (id, online) = online && any (includes id) agents

unfoldable pub is_shop_operational_from : OperationalShopRows → Bool
is_shop_operational_from shop =
    if not shop.accepting_orders || (is_some shop.fee_blocked_at || not shop.located)
    then false
    else any (printer_reached shop.agents) shop.printers

abbrev pub operational_rows : Shop → OperationalShopRows
operational_rows s = record {
  accepting_orders = s.accepting_orders;
  fee_blocked_at = s.fee_blocked_at;
  located = s.located;
  agents = online_agents s.agents;
  printers = map (λ p. (p.id, p.online)) s.printers;
}

unfoldable pub is_shop_operational : Shop → Bool
unfolding is_shop_operational_from
is_shop_operational s = is_shop_operational_from (operational_rows s)

-- `Set.add` on the names that an online agent detects and no profile is linked to.
abbrev pub add_name : List ℕ → List ℕ → Option ℕ → List ℕ
add_name linked found none = found
add_name linked found (some name) =
    if includes name linked || includes name found then found else name ∷ found

unfoldable pub add_names : List ℕ → List ℕ → List (Option ℕ) → List ℕ
add_names linked found [] = found
add_names linked found (n ∷ ns) = add_names linked (add_name linked found n) ns

unfoldable pub linked_names : List Printer → List ℕ
linked_names [] = []
linked_names (p ∷ ps) = elim p.os_printer_name [
  | none ↦ linked_names ps
  | some name ↦ name ∷ linked_names ps
]

unfoldable pub detected_names : List ℕ → List ℕ → List Agent → List ℕ
detected_names linked found [] = found
detected_names linked found (a ∷ more) =
    detected_names linked (if a.online then add_names linked found a.detected_printers else found)
      more

unfoldable pub count_detected_printers : List Agent → List Printer → ℕ
count_detected_printers agents printers = length (detected_names (linked_names printers) [] agents)

-- The gate of publishIfReady, which the conditional update asks again.
abbrev pub may_publish : Shop → Bool
may_publish s = s.auto_live && (is_none s.published_at && is_unreviewed s.verification_status)

abbrev pub linked_online : List Printer → List ℕ
linked_online printers =
    map (λ p. p.id) (keep (λ p. is_some p.os_printer_name && p.online) printers)

abbrev pub is_nonempty : List PaperOption → Bool
is_nonempty [] = false
is_nonempty (p ∷ ps) = true

unfoldable pub is_ready : Shop → Bool
is_ready s =
    s.located
    && (is_nonempty s.papers
        && any
            (λ a.
              a.online
              && any (λ id. includes id (linked_online s.printers)) a.connected_printer_ids)
            s.agents)

abbrev pub publish : ℕ → Shop → Shop
publish now s = record s {
  verification_status = verified;
  verification_submitted_at = some now;
  verified_at = some now;
  published_at = some now;
}

-- `seen` is the shop as it was read, `row` as the update finds it.
unfoldable pub publish_if_ready : ℕ → Shop → Shop → Bool × Shop
publish_if_ready now seen row =
    if may_publish seen && (is_ready seen && may_publish row)
    then (true, publish now row)
    else (false, row)
