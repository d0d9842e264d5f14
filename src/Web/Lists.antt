-- ===== src/Web/Lists.antt =====
-- Loading the list of conversations and the threads (web/src/lib/store.ts). An operation that waits
-- for the server is two functions: what it does before the wait, with the request, and what it does
-- with the reply, on the state that it then finds. A reload that an operation starts is part of it.
pub mod Race
use mathlib.Core.List.{filter, reverse}
use whatsapp_inbox.Shared.{
  ℕ, ◌+◌, String, Bool, true, false, not, ◌&&◌, Option, none, some, List, [], ◌∷◌, ◌++◌, ltb, ◌==◌,
  str_eq, if◌then◌else◌, is_some, get_or, any, is_nil,
}
use whatsapp_inbox.Db.{find_first, delete_many}
use whatsapp_inbox.Web.Types.{Message, Conversation, Me}
use whatsapp_inbox.Web.Thread.{sort_messages}
use whatsapp_inbox.Web.Orders.{OrdersBundle}
use whatsapp_inbox.Web.Rows.{row_of}
use whatsapp_inbox.Web.State.{
  set, ListFilter, mine, InboxState, Connection, api_filter_of, thread_of, Reply, reply,
  unauthorized, failure,
}

-- The parameters of `api.listConversations`.
pub record ListRequest : Type 0 where
  pub filter : ListFilter
  pub assigned_to_me : Bool
  pub cursor : Option String
  pub q : String
  pub tag_ids : List String

pub record ListPage : Type 0 where
  pub conversations : List Conversation
  pub next_cursor : Option String
  pub timezone : String

is_mine : ListFilter → Bool
is_mine mine = true
is_mine _ = false

-- `!!me?.userId`
has_user : Option Me → Bool
has_user none = false
has_user (some me) = not (str_eq (get_or me.user_id "") "")

unfoldable pub list_request : Option String → InboxState → ListRequest
unfolding is_mine has_user api_filter_of
list_request cursor s = record {
  filter = api_filter_of s.filter;
  assigned_to_me = is_mine s.filter && has_user s.me;
  cursor = cursor;
  q = s.search_query;
  tag_ids = s.tag_filter;
}

-- The number of the request, the request, and the state while it is under way.
unfoldable pub load_start : InboxState → ℕ × ListRequest × InboxState
unfolding list_request
load_start s =
    let seq = s.list_request_seq + 1 in
    (seq, list_request none s, record s { list_request_seq = seq; conversations_loading = true })

take_page : Reply ListPage → InboxState → InboxState
take_page (reply page) s = record s {
  conversations = page.conversations;
  next_cursor = page.next_cursor;
  timezone = page.timezone;
  conversations_loading = false;
}
take_page unauthorized s = record s { conversations_loading = false }
take_page (failure _) s = record s {
  conversations_loading = false;
  last_error = some "No pudimos cargar las conversaciones — revisá la conexión y reintentá.";
}

-- A reply is taken only if its request is the newest.
unfoldable pub load_finish : ℕ → Reply ListPage → InboxState → InboxState
unfolding take_page
load_finish seq r s = if seq == s.list_request_seq then take_page r s else s

unfoldable pub load_more_start : InboxState → Option ListRequest
unfolding list_request
load_more_start s =
    if str_eq (get_or s.next_cursor "") "" then none else some (list_request s.next_cursor s)

-- `shown` is the list at the time of the request.
unfoldable pub load_more_finish : List Conversation → Reply ListPage → InboxState → InboxState
load_more_finish shown (reply page) s = record s {
  conversations = shown ++ page.conversations;
  next_cursor = page.next_cursor;
}
load_more_finish shown unauthorized s = s
load_more_finish shown (failure _) s = record s {
  last_error = some "No pudimos cargar más conversaciones — reintentá.";
}

-- What starts a load: a reload, which is also what the debounce of the search does, a change of tab,
-- and the filter by tags.
pub data ListChange : Type 0 where
  reload : ListChange
  set_filter : ListFilter → ListChange
  toggle_tag_filter : String → ListChange
  clear_tag_filter : ListChange

unfoldable pub change_list : ListChange → InboxState → InboxState
unfolding delete_many
change_list reload s = s
change_list (set_filter f) s = record s { filter = f; search_query = "" }
change_list (toggle_tag_filter tag_id) s = record s {
  tag_filter =
      if any (λ id. str_eq id tag_id) s.tag_filter
      then delete_many (λ id. str_eq id tag_id) s.tag_filter
      else s.tag_filter ++ tag_id ∷ [];
}
change_list clear_tag_filter s = record s { tag_filter = [] }

-- The text of the search, at once; its load waits for the debounce.
unfoldable pub set_search_query : String → InboxState → InboxState
set_search_query q s = record s { search_query = q }

-- The start of an operation that changes what the list is of; with no tag in the filter there is
-- nothing to clear.
unfoldable pub starts_load : ListChange → InboxState → Bool
starts_load clear_tag_filter s = not (is_nil s.tag_filter)
starts_load reload s = true
starts_load (set_filter f) s = true
starts_load (toggle_tag_filter tag_id) s = true

unfoldable pub list_start : ListChange → InboxState → InboxState
unfolding change_list load_start starts_load
list_start c s = if starts_load c s then (load_start (change_list c s)).2 else s

pub record MessagePage : Type 0 where
  pub messages : List Message
  pub next_cursor : Option String

set_cursor : String → Option String → InboxState → InboxState
set_cursor id cursor s = record s {
  messages_cursor = λ k. if str_eq k id then cursor else s.messages_cursor k;
}

-- The server's page has the newest message first.
unfoldable pub show_thread : String → MessagePage → InboxState → InboxState
unfolding sort_messages set_cursor
show_thread id page s =
    set_cursor id page.next_cursor
      (record s { messages = set s.messages id (sort_messages (reverse page.messages)) })

unfoldable pub select_start : Option String → InboxState → InboxState
select_start id s = record s { selected_id = id }

-- Whether the operation goes on to mark the conversation as read.
unfoldable pub is_unread : String → InboxState → Bool
unfolding find_first row_of
is_unread id s = elim (find_first (row_of id) s.conversations) [
  | none ↦ false
  | some c ↦ ltb 0 c.unread_count
]

unfoldable pub select_finish : String → Reply MessagePage → InboxState → InboxState × Bool
unfolding show_thread is_unread
select_finish id (reply page) s = (show_thread id page s, is_unread id (show_thread id page s))
select_finish id unauthorized s = (s, false)
select_finish id (failure _) s =
    (record s { last_error = some "No pudimos abrir la conversación — reintentá." }, false)

unfoldable pub load_older_finish : String → MessagePage → InboxState → InboxState
unfolding sort_messages set_cursor
load_older_finish id page s =
    set_cursor id page.next_cursor
      (record s { messages = set s.messages id (sort_messages (page.messages ++ thread_of s id)) })

-- The contact whose orders are asked for.
unfoldable pub orders_contact : String → InboxState → Option String
unfolding find_first row_of
orders_contact id s = elim (find_first (row_of id) s.conversations) [
  | none ↦ none
  | some c ↦ elim c.contact [ none ↦ none | some contact ↦ some contact.id ]
]

-- A failure is passed over in silence.
unfoldable pub load_orders_finish : String → Reply OrdersBundle → InboxState → InboxState
load_orders_finish contact_id (reply bundle) s = record s {
  orders = set s.orders contact_id bundle;
}
load_orders_finish contact_id unauthorized s = s
load_orders_finish contact_id (failure _) s = s

-- `refetchAfterReconnect`: without a session nothing is asked for.
unfoldable pub reconnect_start : InboxState → InboxState
unfolding list_start
reconnect_start s = if is_some s.me then list_start reload s else s

-- The thread that was open after the reload of the list.
unfoldable pub reconnect_finish : String → Reply MessagePage → InboxState → InboxState
unfolding show_thread
reconnect_finish selected (reply page) s = show_thread selected page s
reconnect_finish selected unauthorized s = s
reconnect_finish selected (failure _) s = record s {
  last_error = some "No pudimos actualizar al reconectar — recargá si algo se ve viejo.";
}

unfoldable pub set_connection : Connection → InboxState → InboxState
set_connection c s = record s { connection = c }
