-- ===== src/Web/Rows.antt =====
-- The list of conversations as the client merges it (web/src/lib/merge.ts).
pub mod Ranked
pub mod Merged
use whatsapp_inbox.Shared.{
  String, Bool, not, Option, none, some, List, [], ◌∷◌, ◌++◌, str_eq, or_else,
}
use whatsapp_inbox.Db.{find_first, delete_many}
use whatsapp_inbox.Order.{newest_first, str_lt, sort}
use whatsapp_inbox.Web.Types.{Conversation}

-- `conversationOrder(a, b) < 0`
unfoldable pub conversation_order : Conversation → Conversation → Bool
unfolding newest_first
conversation_order a b =
    let tie = not (str_lt a.id b.id) in
    newest_first a.pinned_at b.pinned_at tie
      (newest_first a.last_message_at b.last_message_at tie tie)

unfoldable pub sort_conversations : List Conversation → List Conversation
sort_conversations list = sort conversation_order list

unfoldable pub row_of : String → Conversation → Bool
row_of id c = str_eq c.id id

-- The row of the list gives what the incoming one lacks.
unfoldable pub merged : Conversation → Option Conversation → Conversation
merged incoming none = incoming
merged incoming (some existing) = record incoming {
  contact = or_else incoming.contact existing.contact;
  has_active_order = or_else incoming.has_active_order existing.has_active_order;
  active_order_number = or_else incoming.active_order_number existing.active_order_number;
  tags = or_else incoming.tags existing.tags;
}

unfoldable pub upsert_conversation : List Conversation → Conversation → List Conversation
unfolding row_of merged sort_conversations find_first delete_many
upsert_conversation list incoming =
    let existing = find_first (row_of incoming.id) list in
    let rest = delete_many (row_of incoming.id) list in
    sort_conversations (rest ++ merged incoming existing ∷ [])
