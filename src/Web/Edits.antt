-- ===== src/Web/Edits.antt =====
-- The edits of conversations and tags (web/src/lib/store.ts), in two parts around each wait.
pub mod Rejected
use whatsapp_inbox.Shared.{
  String, Bool, true, false, not, Option, none, some, List, [], ◌∷◌, ◌++◌, map, str_eq,
  if◌then◌else◌, is_none, get_or, any,
}
use whatsapp_inbox.Db.{find_first, delete_many}
use whatsapp_inbox.Order.{sort}
use whatsapp_inbox.Web.Types.{Conversation, Contact, Tag, Me, Template, QuickReply, AgentUser}
use whatsapp_inbox.Web.Rows.{row_of, upsert_conversation}
use whatsapp_inbox.Web.State.{InboxState, Reply, reply, unauthorized, failure}
use whatsapp_inbox.Web.Lists.{reload, list_start}

unfoldable pub fail : String → InboxState → InboxState
fail message s = record s { last_error = some message }

-- The replies of `markRead`, `markUnread` and `assign`.
unfoldable pub take_conversation : Conversation → InboxState → InboxState
unfolding upsert_conversation
take_conversation c s = record s { conversations = upsert_conversation s.conversations c }

-- Whether the conversation is to be pinned.
unfoldable pub toggle_pin_start : String → InboxState → Bool
unfolding find_first row_of
toggle_pin_start id s = elim (find_first (row_of id) s.conversations) [
  | none ↦ true
  | some c ↦ is_none c.pinned_at
]

unfoldable pub toggle_pin_finish : Reply Conversation → InboxState → InboxState
unfolding take_conversation fail
toggle_pin_finish (reply c) s = take_conversation c s
toggle_pin_finish unauthorized s = s
toggle_pin_finish (failure _) s = fail "No pudimos anclar la conversación — reintentá." s

unfoldable pub retag : String → Option (List Tag) → Conversation → Conversation
unfolding row_of
retag id tags c = if row_of id c then record c { tags = tags } else c

unfoldable pub put_tags : String → Option (List Tag) → List Conversation → List Conversation
unfolding retag
put_tags id tags list = map (retag id tags) list

unfoldable pub tags_of : String → List Conversation → Option (List Tag)
unfolding find_first row_of
tags_of id list = elim (find_first (row_of id) list) [ none ↦ none | some c ↦ c.tags ]

-- `list.includes(x)`
abbrev pub includes : List String → String → Bool
includes list x = any (λ y. str_eq y x) list

-- The tags that the row had, and the state with those chosen.
unfoldable pub set_tags_start : String → List String → InboxState → Option (List Tag) × InboxState
unfolding put_tags tags_of delete_many
set_tags_start id tag_ids s =
    let chosen = delete_many (λ (t : Tag). not (includes tag_ids t.id)) s.tags in
    (
      tags_of id s.conversations,
      record s { conversations = put_tags id (some chosen) s.conversations },
    )

unfoldable pub set_tags_finish :
    String → Option (List Tag) → Reply (List Tag) → InboxState → InboxState
unfolding put_tags fail
set_tags_finish id previous (reply tags) s = record s {
  conversations = put_tags id (some tags) s.conversations;
}
set_tags_finish id previous unauthorized s = record s {
  conversations = put_tags id previous s.conversations;
}
set_tags_finish id previous (failure message) s =
    fail (get_or message "No pudimos guardar las etiquetas.")
      (record s { conversations = put_tags id previous s.conversations })

-- A tag that is there already is replaced. `before` is the order of names that the language's
-- `localeCompare` gives for Spanish.
add_tag : (String → String → Bool) → Tag → List Tag → List Tag
unfolding sort
add_tag before tag tags =
    if any (λ (t : Tag). str_eq t.id tag.id) tags
    then map (λ (t : Tag). if str_eq t.id tag.id then tag else t) tags
    else sort (λ (a b : Tag). before a.name b.name) (tags ++ tag ∷ [])

unfoldable pub create_tag_finish :
    (String → String → Bool) → Reply Tag → InboxState → InboxState × Option Tag
unfolding add_tag fail
create_tag_finish before (reply tag) s = (record s { tags = add_tag before tag s.tags }, some tag)
create_tag_finish before unauthorized s = (s, none)
create_tag_finish before (failure message) s =
    (fail (get_or message "No pudimos crear la etiqueta.") s, none)

-- Without tags the rest goes on.
unfoldable pub load_tags_finish : Reply (List Tag) → InboxState → InboxState
load_tags_finish (reply tags) s = record s { tags = tags }
load_tags_finish unauthorized s = s
load_tags_finish (failure _) s = s

put_contact : Contact → Conversation → Conversation
put_contact contact c = elim c.contact [
  | none ↦ c
  | some old ↦ if str_eq old.id contact.id then record c { contact = some contact } else c
]

-- The contact comes back from the server with its notes.
unfoldable pub save_notes_finish : Contact → InboxState → InboxState
unfolding put_contact
save_notes_finish contact s = record s { conversations = map (put_contact contact) s.conversations }

unfoldable pub dismiss_error : InboxState → InboxState
dismiss_error s = record s { last_error = none }

pub record Boot : Type 0 where
  pub templates : List Template
  pub quick_replies : List QuickReply
  pub users : List AgentUser
  pub tags : List Tag

-- `bootstrap`: without a session nothing follows, otherwise the accessories come (a list that fails
-- to come is empty) and then the list of conversations.
unfoldable pub bootstrap_finish : Reply Me → Boot → InboxState → InboxState
unfolding list_start fail
bootstrap_finish (reply me) boot s = list_start reload (record s {
  me = some me;
  timezone = me.timezone;
  templates = boot.templates;
  quick_replies = boot.quick_replies;
  users = boot.users;
  tags = boot.tags;
})
bootstrap_finish unauthorized boot s = s
bootstrap_finish (failure _) boot s =
    fail "No pudimos conectar con el servidor — revisá que la API esté corriendo."
      (record s { conversations_loading = false })
