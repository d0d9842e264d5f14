-- ===== src/Inbox/Listing.antt =====
-- The list of conversations and the thread of one (`list` and `listMessages` of
-- src/inbox/conversations.service.ts). The client of the database hides deleted rows. `fold` and
-- `like` are those of the search; the queries for a page's contacts, orders and tags are one for
-- each row here.
pub mod Pinned
pub mod Complete
use whatsapp_inbox.Shared.{
  ℕ, ◌+◌, ◌-◌, String, Bool, true, false, not, ◌&&◌, ◌||◌, Option, none, some, List, [], ◌∷◌, ◌++◌,
  map, ltb, leb, ◌==◌, str_eq, opt_is, if◌then◌else◌, is_none, is_some, get_or, take, any, Text,
  is_nil, trim,
}
use whatsapp_inbox.Schema.{Contact, Conversation, ConversationStatus, Message}
use whatsapp_inbox.Db.{find_first, delete_many}
use whatsapp_inbox.Order.{str_lt, sort}
use whatsapp_inbox.Order.Descending.{higher}
use whatsapp_inbox.Window.{service_window_ms, expiring_threshold_ms}
use whatsapp_inbox.Inbox.Pages.{Cursor, recency, find_many, fetch_page}
use whatsapp_inbox.Inbox.Tags.{Tag, ConversationTag, tags_for}
use whatsapp_inbox.Inbox.Search.{search_contacts, search_tag_ids, has_any_tag, search_where}

abbrev pub conversations_page_size : ℕ
conversations_page_size = 30

abbrev pub messages_page_size : ℕ
messages_page_size = 50

abbrev pub max_pinned : ℕ
max_pinned = 20

pub data ConversationListFilter : Type 0 where
  opened closed everything expiring unread : ConversationListFilter

pub record GourmetifyOrder : Type 0 where
  pub tenant_id : String
  pub contact_id : Option String
  pub number : Option Text
  pub status_kind : String
  pub order_created_at : ℕ

pub record InboxDb : Type 0 where
  pub contacts : List Contact
  pub conversations : List Conversation
  pub messages : List Message
  pub orders : List GourmetifyOrder
  pub tags : List Tag
  pub joins : List ConversationTag

pub record ListOptions : Type 0 where
  pub filter : ConversationListFilter
  pub assigned_to_me : Bool
  pub cursor : Option Cursor
  pub q : Text
  pub tag_ids : List String

not_closed : ConversationStatus → Bool
not_closed ConversationStatus.closed = false
not_closed ConversationStatus.opened = true
not_closed ConversationStatus.pending = true

-- The window is open, for two hours at most.
expires_soon : ℕ → Option ℕ → Bool
expires_soon now none = false
expires_soon now (some t) =
    ltb now (t + service_window_ms) && leb (t + (service_window_ms - expiring_threshold_ms)) now

unfoldable pub status_where : ConversationListFilter → ℕ → Conversation → Bool
unfolding not_closed expires_soon
status_where everything now c = true
status_where closed now c = not (not_closed c.status)
status_where unread now c = not_closed c.status && ltb 0 c.unread_count
status_where expiring now c = not_closed c.status && expires_soon now c.last_inbound_at
status_where opened now c = not_closed c.status

tag_where : List String → String → List ConversationTag → Conversation → Bool
unfolding has_any_tag delete_many
tag_where tag_ids tenant_id joins c =
    let chosen = delete_many (λ id. str_eq id "") tag_ids in
    is_nil chosen || has_any_tag tenant_id chosen joins c

assigned_where : Bool → Option String → Conversation → Bool
assigned_where assigned_to_me user_id c =
    not assigned_to_me || is_none user_id || opt_is c.assigned_user_id (get_or user_id "")

-- What every query of a request asks for; `found` is the test of the search, `none` without one.
unfoldable pub base_where :
    String
    → Option String
    → ListOptions
    → Option (Conversation → Bool)
    → ℕ
    → List ConversationTag
    → Conversation
    → Bool
unfolding status_where tag_where assigned_where
base_where tenant_id user_id options found now joins c =
    str_eq c.tenant_id tenant_id
    && is_none c.deleted_at
    && elim found [ none ↦ status_where options.filter now c | some test ↦ test c ]
    && tag_where options.tag_ids tenant_id joins c
    && assigned_where options.assigned_to_me user_id c

abbrev pub row_id : Conversation → String
row_id c = c.id

abbrev pub last_message : Conversation → Option ℕ
last_message c = c.last_message_at

-- The order of the pinned ones, and of the list of those about to expire.
unfoldable pub pinned_first : Conversation → Conversation → Bool
unfolding recency
pinned_first = recency row_id (λ (c : Conversation). c.pinned_at)

unfoldable pub urgent_first : Conversation → Conversation → Bool
urgent_first a b =
    let x = get_or a.last_inbound_at 0 in
    let y = get_or b.last_inbound_at 0 in if x == y then str_lt b.id a.id else ltb x y

is_expiring : ConversationListFilter → Bool
is_expiring expiring = true
is_expiring _ = false

-- The page of rows and its cursor. The pinned rows come before the first page and are of none.
unfoldable pub list_rows :
    (Conversation → Bool)
    → Bool
    → Option Cursor
    → List Conversation
    → List Conversation × Option Cursor
unfolding find_many pinned_first urgent_first fetch_page
list_rows base urgent cursor rows =
    if urgent
    then (
      take conversations_page_size (find_many base urgent_first (conversations_page_size + 1) rows),
      none,
    )
    else let pinned =
        if is_none cursor
        then find_many (λ c. base c && is_some c.pinned_at) pinned_first max_pinned rows
        else [] in
      let (page, next) =
        fetch_page row_id last_message conversations_page_size (λ c. base c && is_none c.pinned_at)
          cursor rows in
      (pinned ++ page, next)

pub record ListedConversation : Type 0 where
  pub conversation : Conversation
  pub contact : Option Contact
  pub has_active_order : Bool
  pub active_order_number : Option Text
  pub tags : List Tag

is_active_order : String → String → GourmetifyOrder → Bool
is_active_order tenant_id contact_id o =
    str_eq o.tenant_id tenant_id
    && opt_is o.contact_id contact_id
    && any (λ k. str_eq k o.status_kind) ("pending" ∷ "in_progress" ∷ "ready" ∷ [])

-- The newest of the contact's active orders.
unfoldable pub active_order : String → List GourmetifyOrder → String → Option GourmetifyOrder
unfolding find_first sort is_active_order
active_order tenant_id orders contact_id =
    find_first (is_active_order tenant_id contact_id)
      (sort (higher (λ (o : GourmetifyOrder). o.order_created_at)) orders)

unfoldable pub embed : String → InboxDb → Conversation → ListedConversation
unfolding find_first active_order tags_for
embed tenant_id db c =
    let order = active_order tenant_id db.orders c.contact_id in
    record {
      conversation = c;
      contact =
          find_first
            (λ k. str_eq k.tenant_id tenant_id && str_eq k.id c.contact_id && is_none k.deleted_at)
            db.contacts;
      has_active_order = is_some order;
      active_order_number = elim order [ none ↦ none | some o ↦ o.number ];
      tags = tags_for tenant_id db.tags db.joins c.id;
    }

-- `some` with a test if there is a search, and whether the search has found nothing at all.
unfoldable pub search_of :
    (Text → Text)
    → (Text → Text → Bool)
    → String
    → Text
    → InboxDb
    → Option (Conversation → Bool) × Bool
unfolding trim search_contacts search_tag_ids search_where
search_of fold like tenant_id raw db =
    let q = trim raw in
    let contacts = search_contacts like tenant_id q db.contacts in
    let ids = search_tag_ids fold like tenant_id q db.tags in
    if is_nil q
    then (none, false)
    else (some (search_where contacts ids db.joins tenant_id), is_nil contacts && is_nil ids)

unfoldable pub list :
    (Text → Text)
    → (Text → Text → Bool)
    → String
    → Option String
    → ListOptions
    → ℕ
    → InboxDb
    → List ListedConversation × Option Cursor
unfolding search_of base_where is_expiring list_rows embed
list fold like tenant_id user_id options now db =
    let (found, nothing) = search_of fold like tenant_id options.q db in
    let base = base_where tenant_id user_id options found now db.joins in
    let (page, next) =
      list_rows base (is_none found && is_expiring options.filter) options.cursor
        db.conversations in
    if nothing then ([], none) else (map (embed tenant_id db) page, next)

abbrev pub message_id : Message → String
message_id m = m.id

abbrev pub sent_at : Message → Option ℕ
sent_at m = some m.timestamp

unfoldable pub of_thread : String → String → Message → Bool
of_thread tenant_id conversation_id m =
    str_eq m.tenant_id tenant_id && str_eq m.conversation_id conversation_id && is_none m.deleted_at

-- `none` is a conversation that the tenant does not have.
unfoldable pub list_messages :
    String → String → Option Cursor → InboxDb → Option (List Message × Option Cursor)
unfolding fetch_page of_thread
list_messages tenant_id conversation_id cursor db =
    if any
      (λ c. str_eq c.id conversation_id && str_eq c.tenant_id tenant_id && is_none c.deleted_at)
      db.conversations
    then some (
        fetch_page message_id sent_at messages_page_size (of_thread tenant_id conversation_id)
          cursor db.messages)
    else none
