-- ===== src/Web/Events.antt =====
-- The events of the socket (web/src/lib/store.ts).
pub mod Tab
use whatsapp_inbox.Shared.{
  String, Bool, true, not, ◌&&◌, Option, none, some, map, str_eq, if◌then◌else◌, is_some, or_else,
  any,
}
use whatsapp_inbox.Db.{delete_many}
use whatsapp_inbox.Web.Types.{Message, Conversation, GourmetifyOrder}
use whatsapp_inbox.Web.Thread.{apply_message_changes}
use whatsapp_inbox.Web.Rows.{row_of, upsert_conversation}
use whatsapp_inbox.Web.Orders.{merge_order, is_active_order_kind}
use whatsapp_inbox.Web.State.{set, InboxState, thread_of, put_message, status_matches_filter}

-- A thread that was never opened stays so.
unfoldable pub on_message_created : String → Message → InboxState → InboxState
unfolding put_message
on_message_created conversation_id message s =
    if is_some (s.messages conversation_id) then put_message conversation_id message s else s

unfoldable pub on_message_updated : String → String → (Message → Message) → InboxState → InboxState
unfolding apply_message_changes
on_message_updated id conversation_id changes s = record s {
  messages =
      set s.messages conversation_id
        (apply_message_changes (thread_of s conversation_id) id changes);
}

light_up : String → GourmetifyOrder → Conversation → Conversation
light_up contact_id order c =
    if str_eq c.contact_id contact_id
    then record c {
      has_active_order = some true;
      active_order_number = or_else order.number c.active_order_number;
    }
    else c

order_for : String → GourmetifyOrder → InboxState → InboxState
unfolding merge_order is_active_order_kind light_up
order_for contact_id order s = record s {
  orders = set s.orders contact_id (merge_order (s.orders contact_id) order);
  conversations =
      if is_active_order_kind order.status_kind
      then map (light_up contact_id order) s.conversations
      else s.conversations;
}

-- An order without a contact, or with one whose id is empty, has no place.
unfoldable pub on_order_updated : GourmetifyOrder → Option String → InboxState → InboxState
unfolding order_for
on_order_updated order none s = s
on_order_updated order (some contact_id) s =
    if str_eq contact_id "" then s else order_for contact_id order s

-- Outside a search, a conversation that is not of the tab.
unfoldable pub leaves_tab : Conversation → InboxState → Bool
unfolding status_matches_filter
leaves_tab c s = str_eq s.search_query "" && not (status_matches_filter c.status s.filter)

unfoldable pub on_conversation_updated : Conversation → InboxState → InboxState
unfolding leaves_tab row_of delete_many upsert_conversation
on_conversation_updated c s =
    if leaves_tab c s
    then (if any (row_of c.id) s.conversations
        then record s { conversations = delete_many (row_of c.id) s.conversations }
        else s)
    else record s { conversations = upsert_conversation s.conversations c }

-- The reply to a change of state.
unfoldable pub set_status_finish : Conversation → InboxState → InboxState
unfolding leaves_tab row_of delete_many upsert_conversation
set_status_finish c s = record s {
  conversations =
      if leaves_tab c s
      then delete_many (row_of c.id) s.conversations
      else upsert_conversation s.conversations c;
}
