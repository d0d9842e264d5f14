-- ===== src/Web/State.antt =====
-- The state of the client (web/src/lib/store.ts), and the helpers that its operations share.
use whatsapp_inbox.Shared.{
  ℕ, String, Bool, true, false, not, Option, none, some, List, [], str_eq, if◌then◌else◌, get_or,
}
use whatsapp_inbox.Schema.{ConversationStatus}
use whatsapp_inbox.Web.Types.{Message, Conversation, Tag, Me, Template, QuickReply, AgentUser}
use whatsapp_inbox.Web.Composer.{OutboxEntry}
use whatsapp_inbox.Web.Orders.{OrdersBundle}
use whatsapp_inbox.Web.Thread.{upsert_message}

-- `Record<string, A>`: an object by its keys.
abbrev pub Dict : Type 0 → Type 0
Dict A = String → Option A

abbrev pub set : {A : Type 0} → Dict A → String → A → Dict A
set d key value = λ k. if str_eq k key then some value else d k

abbrev pub delete : {A : Type 0} → Dict A → String → Dict A
delete d key = λ k. if str_eq k key then none else d k

pub data ListFilter : Type 0 where
  opened everything mine closed unread expiring : ListFilter

pub data Connection : Type 0 where
  online reconnecting : Connection

-- `list_request_seq` is the counter beside the store.
pub record InboxState : Type 0 where
  pub me : Option Me
  pub timezone : String
  pub connection : Connection
  pub filter : ListFilter
  pub conversations : List Conversation
  pub users : List AgentUser
  pub search_query : String
  pub conversations_loading : Bool
  pub next_cursor : Option String
  pub selected_id : Option String
  pub messages : Dict (List Message)
  pub messages_cursor : Dict String
  pub orders : Dict OrdersBundle
  pub templates : List Template
  pub quick_replies : List QuickReply
  pub tags : List Tag
  pub tag_filter : List String
  pub outbox : Dict OutboxEntry
  pub upload_progress : Dict ℕ
  pub last_error : Option String
  pub list_request_seq : ℕ

abbrev pub initial_state : InboxState
initial_state = record {
  me = none;
  timezone = "UTC";
  connection = reconnecting;
  filter = opened;
  conversations = [];
  users = [];
  search_query = "";
  conversations_loading = true;
  next_cursor = none;
  selected_id = none;
  messages = λ _. none;
  messages_cursor = λ _. none;
  orders = λ _. none;
  templates = [];
  quick_replies = [];
  tags = [];
  tag_filter = [];
  outbox = λ _. none;
  upload_progress = λ _. none;
  last_error = none;
  list_request_seq = 0;
}

is_closed : ConversationStatus → Bool
is_closed ConversationStatus.closed = true
is_closed ConversationStatus.opened = false
is_closed ConversationStatus.pending = false

unfoldable pub status_matches_filter : ConversationStatus → ListFilter → Bool
unfolding is_closed
status_matches_filter status closed = is_closed status
status_matches_filter status everything = true
status_matches_filter status opened = not (is_closed status)
status_matches_filter status mine = not (is_closed status)
status_matches_filter status unread = not (is_closed status)
status_matches_filter status expiring = not (is_closed status)

unfoldable pub api_filter_of : ListFilter → ListFilter
api_filter_of mine = opened
api_filter_of opened = opened
api_filter_of everything = everything
api_filter_of closed = closed
api_filter_of unread = unread
api_filter_of expiring = expiring

-- `s.messages[id] ?? []`
abbrev pub thread_of : InboxState → String → List Message
thread_of s id = get_or (s.messages id) []

unfoldable pub put_message : String → Message → InboxState → InboxState
put_message conversation_id message s = record s {
  messages = set s.messages conversation_id (upsert_message (thread_of s conversation_id) message);
}

-- What a call of the API comes to: its answer, or an error, which is that of a session that has
-- ended or has perhaps a text.
pub data Reply (A : Type 0) : Type 0 where
  reply : A → Reply A
  unauthorized : Reply A
  failure : Option String → Reply A
