-- ===== src/Web/ListTests.antt =====
-- Runs of the client's list at concrete inputs (web/src/lib).
use whatsapp_inbox.Shared.{
  ℕ, String, ◌≡◌, refl, sym, ap, ◌∙◌, ◌≢◌, ◌↔◌, ◌⊎◌, true, Option, none, some, List, [], ◌∷◌, ◌++◌,
  Memᴰ, arith, ◌==◌, if◌then◌else◌, get_or, ne_of_test, Memᴰ-single,
}
use whatsapp_inbox.Schema.{ConversationStatus}
use whatsapp_inbox.Db.Rows.{Distinct}
use whatsapp_inbox.Order.Sorted.{IsSorted}
use whatsapp_inbox.Web.Types.{Conversation, GourmetifyOrder}
use whatsapp_inbox.Web.Rows.{conversation_order, upsert_conversation}
use whatsapp_inbox.Web.Rows.Ranked.{row_id}
use whatsapp_inbox.Web.Rows.Merged.{merged_in, OwnRow, upsert_conversation-Merges}
use whatsapp_inbox.Web.Orders.{OrdersBundle, is_active_order_kind, merge_order}
use whatsapp_inbox.Web.Orders.Bundle.{order_id, IsBundle, Listed, merge_order-IsBundle}
use whatsapp_inbox.Web.State.{
  InboxState, ListFilter, initial_state, Reply, reply, unauthorized, failure, status_matches_filter,
}
use whatsapp_inbox.Web.Lists.{ListPage, ListChange, list_start, load_finish, load_more_finish}
use whatsapp_inbox.Web.Lists.Race.{
  ListEvent, changed, arrived, list_run, first_run, waits, Shows, list_run-ShowsNewest,
  load_more_finish_late,
}
use whatsapp_inbox.Web.Events.{on_conversation_updated}
use whatsapp_inbox.Web.Events.Tab.{OfTab, TabRow, on_conversation_updated-OfTab}
use whatsapp_inbox.Web.Edits.{set_tags_start, set_tags_finish, fail}
use whatsapp_inbox.Web.Edits.Rejected.{set_tags_rejected}

abbrev row : String → ConversationStatus → Option ℕ → Conversation
row id status pinned = record {
  id = id;
  contact_id = "contact";
  whatsapp_account_id = "account";
  status = status;
  assigned_user_id = none;
  unread_count = 0;
  last_inbound_at = some 3;
  last_outbound_at = none;
  last_message_at = some 3;
  last_message_preview = none;
  pinned_at = pinned;
  created_at = 1;
  is_window_open = true;
  window_expires_at = none;
  contact = none;
  has_active_order = some true;
  active_order_number = none;
  tags = some [];
}

abbrev two_rows : List Conversation
two_rows = row "a" ConversationStatus.opened none ∷ row "b" ConversationStatus.opened (some 4) ∷ []

two_rows-Distinct : Distinct row_id two_rows
two_rows-Distinct = ((ne_of_test "b" "a" refl, tt), (tt, tt))

abbrev closed_a : Conversation
closed_a = row "a" ConversationStatus.closed none

-- As an event brings it, without the tags and the order.
abbrev bare_a : Conversation
bare_a = record closed_a { has_active_order = none; tags = none }

upsert_conversation-Merges_example :
    Distinct row_id (upsert_conversation two_rows bare_a)
    × IsSorted conversation_order (upsert_conversation two_rows bare_a)
    × ((z : Conversation)
        → Memᴰ z (upsert_conversation two_rows bare_a)
          ↔ ((z ≡ merged_in two_rows bare_a) ⊎ (Memᴰ z two_rows × (z.id ≢ bare_a.id))))
    × OwnRow two_rows bare_a (merged_in two_rows bare_a)
upsert_conversation-Merges_example = upsert_conversation-Merges two_rows bare_a two_rows-Distinct

abbrev open_tab : InboxState
open_tab = record initial_state { conversations = two_rows }

two_rows-OfTab : OfTab open_tab.filter open_tab.conversations
unfolding status_matches_filter
two_rows-OfTab = (refl, (refl, tt))

on_conversation_updated-OfTab_example :
    OfTab open_tab.filter (on_conversation_updated closed_a open_tab).conversations
    × Distinct row_id (on_conversation_updated closed_a open_tab).conversations
    × ((z : Conversation)
        → Memᴰ z (on_conversation_updated closed_a open_tab).conversations
          ↔ TabRow closed_a open_tab z)
on_conversation_updated-OfTab_example =
    on_conversation_updated-OfTab closed_a open_tab refl two_rows-Distinct two_rows-OfTab

set_tags_rejected_example :
    let (previous, optimistic) = set_tags_start "b" ("t" ∷ []) open_tab in
    (set_tags_finish "b" previous unauthorized optimistic ≡ open_tab)
    × (set_tags_finish "b" previous (failure (some "no")) optimistic
        ≡ fail (get_or (some "no") "No pudimos guardar las etiquetas.") open_tab)
set_tags_rejected_example = set_tags_rejected "b" ("t" ∷ []) (some "no") open_tab two_rows-Distinct

abbrev order : String → String → ℕ → GourmetifyOrder
order id kind at_ = record {
  id = id;
  gourmetify_order_id = id;
  contact_id = some "contact";
  number = some id;
  status_label = kind;
  status_kind = kind;
  summary = none;
  total_label = none;
  delivery_label = none;
  scheduled_label = none;
  order_created_at = at_;
}

abbrev bundle : OrdersBundle
bundle = record { active = order "o1" "ready" 5 ∷ []; recent = order "o0" "done" 2 ∷ [] }

bundle-IsBundle : IsBundle bundle
unfolding is_active_order_kind
bundle-IsBundle = record {
  active_kind = (refl, tt);
  recent_kind = (refl, tt);
  active_ids = (tt, tt);
  recent_ids = (tt, tt);
  once = λ x y k m e.
      ne_of_test "o1" "o0" refl
        (sym (ap order_id (Memᴰ-single k)) ∙ e ∙ ap order_id (Memᴰ-single m));
  active_dates = (tt, tt);
  recent_dates = (tt, tt);
  capped = omega arith;
}

merge_order-IsBundle_example :
    IsBundle (merge_order (some bundle) (order "o1" "done" 5))
    × Listed (order "o1" "done" 5) (merge_order (some bundle) (order "o1" "done" 5))
merge_order-IsBundle_example = merge_order-IsBundle (order "o1" "done" 5) bundle bundle-IsBundle

abbrev page : String → ListPage
page id = record {
  conversations = row id ConversationStatus.opened none ∷ [];
  next_cursor = none;
  timezone = "UTC";
}

abbrev pages : ℕ → Reply ListPage
pages n = reply (if n == 1 then page "old" else page "new")

-- Two loads, the replies in the other order.
abbrev crossed : List ListEvent
crossed = changed ListChange.reload ∷ changed ListChange.reload ∷ arrived 2 ∷ arrived 1 ∷ []

list_run-ShowsNewest_example :
    ((list_run pages crossed first_run).store.conversations_loading
      ≡ waits
          (list_run pages crossed first_run).store.list_request_seq
          (list_run pages crossed first_run).pending)
    × ((waits
            (list_run pages crossed first_run).store.list_request_seq
            (list_run pages crossed first_run).pending
          ≡ true)
        ⊎ Shows
            (pages (list_run pages crossed first_run).store.list_request_seq)
            (list_run pages crossed first_run).store)
unfolding list_run
list_run-ShowsNewest_example = list_run-ShowsNewest pages crossed (omega arith)

load_more_finish_late_example :
    let asked = list_start (ListChange.set_filter ListFilter.closed) open_tab in
    let loaded = load_finish asked.list_request_seq (reply (page "c")) asked in
    let late = load_more_finish open_tab.conversations (reply (page "d")) loaded in
    (loaded.conversations ≡ (page "c").conversations)
    × (late.filter ≡ ListFilter.closed)
    × (late.conversations ≡ open_tab.conversations ++ (page "d").conversations)
load_more_finish_late_example =
    load_more_finish_late ListFilter.closed open_tab (page "c") (page "d")
