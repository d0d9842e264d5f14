-- ===== src/Web/Orders.antt =====
-- The orders of a contact as the client shows and merges them (web/src/lib/order-ui.ts).
pub mod Bundle
use whatsapp_inbox.Shared.{
  ℕ, String, Bool, Option, none, some, List, [], ◌∷◌, ◌++◌, str_eq, if◌then◌else◌, get_or, length,
  take, any,
}
use whatsapp_inbox.Db.{delete_many}
use whatsapp_inbox.Order.{sort}
use whatsapp_inbox.Order.Descending.{higher}
use whatsapp_inbox.Web.Types.{GourmetifyOrder}

unfoldable pub order_chip_classes : String → String
order_chip_classes kind =
    if str_eq kind "pending"
    then "border border-sumi bg-rice font-semibold text-sumi"
    else if str_eq kind "in_progress"
    then "bg-nori-soft font-medium text-nori"
    else if str_eq kind "ready"
    then "bg-nori font-semibold text-rice"
    else if str_eq kind "done"
    then "bg-piedra-soft text-sumi/60"
    else if str_eq kind "cancelled"
    then "bg-piedra-soft text-sumi/50 line-through"
    else "bg-piedra-soft text-sumi/60"

-- The order of the chip, and how many more there are.
unfoldable pub active_order_chip : List GourmetifyOrder → Option (GourmetifyOrder × ℕ)
active_order_chip [] = none
active_order_chip (order ∷ rest) = some (order, length rest)

pub record OrdersBundle : Type 0 where
  pub active : List GourmetifyOrder
  pub recent : List GourmetifyOrder

abbrev pub active_kinds : List String
active_kinds = "pending" ∷ "in_progress" ∷ "ready" ∷ []

abbrev pub recent_limit : ℕ
recent_limit = 3

unfoldable pub is_active_order_kind : String → Bool
is_active_order_kind kind = any (λ k. str_eq k kind) active_kinds

abbrev pub created : GourmetifyOrder → ℕ
created o = o.order_created_at

-- `byCreatedDesc(a, b) < 0`
unfoldable pub by_created_desc : GourmetifyOrder → GourmetifyOrder → Bool
by_created_desc a b = higher created a b

unfoldable pub is_order : String → GourmetifyOrder → Bool
is_order id o = str_eq o.id id

merge_into : OrdersBundle → GourmetifyOrder → OrdersBundle
unfolding is_order is_active_order_kind by_created_desc sort delete_many
merge_into bundle order =
    let active = delete_many (is_order order.id) bundle.active in
    let recent = delete_many (is_order order.id) bundle.recent in
    if is_active_order_kind order.status_kind
    then record { active = sort by_created_desc (active ++ order ∷ []); recent = recent }
    else record {
      active = active;
      recent = take recent_limit (sort by_created_desc (recent ++ order ∷ []));
    }

-- A contact without a bundle has an empty one.
unfoldable pub merge_order : Option OrdersBundle → GourmetifyOrder → OrdersBundle
unfolding merge_into
merge_order bundle order = merge_into (get_or bundle (record { active = []; recent = [] })) order
