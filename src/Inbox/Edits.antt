-- ===== src/Inbox/Edits.antt =====
-- The edits of a conversation and of a contact (src/inbox/conversations.service.ts). The client of
-- the database hides deleted rows from reads; updates see them.
pub mod Phone
pub mod Opened
pub mod Lookups
pub mod Refused
use mathlib.Core.Option
use whatsapp_inbox.Shared.{
  ℕ, String, Bool, true, false, ◌&&◌, Option, none, some, List, [], ◌∷◌, ◌==◌, str_eq,
  if◌then◌else◌, is_none, is_some, any, Text, is_nil, trim,
}
use whatsapp_inbox.Schema.{
  ConversationStatus, MessageDirection, WhatsappAccount, Contact, Conversation, Message,
}
use whatsapp_inbox.Db.{find_first, update_many}
use whatsapp_inbox.Order.{sort}
use whatsapp_inbox.Users.{User}
use whatsapp_inbox.Inbox.Pages.{recency}
use whatsapp_inbox.Inbox.Tags.{Tag, ConversationTag, Answer, refused, ok, tags_for}
use whatsapp_inbox.Inbox.Tags.Assign.{set_for_conversation}
use whatsapp_inbox.Inbox.Listing.{message_id, sent_at}

pub data EditError : Type 0 where
  conversation_not_found contact_not_found user_not_in_tenant : EditError
  invalid_phone no_account contact_exists : EditError

-- `failed` is an exception, thrown before the first write.
pub data Edited (A : Type 0) : Type 0 where
  failed : EditError → Edited A
  done : A → Edited A

-- The event `conversation.updated`, with the tags where it carries them.
pub record Updated : Type 0 where
  pub tenant_id : String
  pub conversation : Conversation
  pub tags : Option (List Tag)

-- What an edit leaves: the table, the events, and the conversation that is answered.
pub record Change : Type 0 where
  pub conversations : List Conversation
  pub events : List Updated
  pub answer : Option Conversation

-- A conversation of the tenant, as reads see it.
unfoldable pub is_visible : String → String → Conversation → Bool
is_visible tenant_id id c = str_eq c.id id && str_eq c.tenant_id tenant_id && is_none c.deleted_at

-- A conversation of the tenant, as updates see it.
unfoldable pub is_row : String → String → Conversation → Bool
is_row tenant_id id c = str_eq c.id id && str_eq c.tenant_id tenant_id

unfoldable pub must_get : String → String → List Conversation → Edited Conversation
unfolding find_first is_visible
must_get tenant_id id conversations = elim (find_first (is_visible tenant_id id) conversations) [
  | none ↦ failed conversation_not_found
  | some c ↦ done c
]

unfoldable pub emit_and_return : String → String → List Conversation → Change
unfolding find_first is_visible
emit_and_return tenant_id id conversations =
    let fresh = find_first (is_visible tenant_id id) conversations in
    record {
      conversations = conversations;
      events = elim fresh [
        | none ↦ []
        | some c ↦ record { tenant_id = tenant_id; conversation = c; tags = none } ∷ []
      ];
      answer = fresh;
    }

-- The shape of every edit: the conversation must be there, the rows that pass the test are
-- updated, and the result is sent and answered.
edit :
    String
    → String
    → (Conversation → Bool)
    → (Conversation → Conversation)
    → List Conversation
    → Edited Change
unfolding must_get update_many emit_and_return
edit tenant_id id where_ data_ conversations = elim (must_get tenant_id id conversations) [
  | failed e ↦ failed e
  | done c ↦ done (emit_and_return tenant_id id (update_many where_ data_ conversations))
]

is_inbound_on : String → String → Message → Bool
is_inbound_on tenant_id id m =
    str_eq m.tenant_id tenant_id
    && str_eq m.conversation_id id
    && elim m.direction [ MessageDirection.inbound ↦ true | MessageDirection.outbound ↦ false ]
    && is_some m.wamid
    && is_none m.deleted_at

-- The last message of the customer, and the account on whose behalf Meta is told that it was read.
unfoldable pub mark_read_on_meta :
    String → Conversation → List Message → List WhatsappAccount → Option (WhatsappAccount × String)
unfolding find_first sort recency is_inbound_on
mark_read_on_meta tenant_id c messages accounts =
    elim (find_first (is_inbound_on tenant_id c.id) (sort (recency message_id sent_at) messages)) [
      | none ↦ none
      | some m ↦ elim m.wamid [
        | none ↦ none
        | some w ↦
            Option.map (λ a. (a, w))
              (find_first (λ (a : WhatsappAccount). str_eq a.id c.whatsapp_account_id) accounts)
      ]
    ]

-- With the call to Meta, whose failure changes nothing.
unfoldable pub mark_read :
    String
    → String
    → List Message
    → List WhatsappAccount
    → List Conversation
    → Edited (Change × Option (WhatsappAccount × String))
unfolding must_get update_many emit_and_return mark_read_on_meta is_row
mark_read tenant_id id messages accounts conversations =
    elim (must_get tenant_id id conversations) [
      | failed e ↦ failed e
      | done c ↦ done (
        emit_and_return tenant_id id
            (update_many (is_row tenant_id id) (λ c. record c { unread_count = 0 }) conversations),
        mark_read_on_meta tenant_id c messages accounts,
      )
    ]

unfoldable pub mark_unread : String → String → List Conversation → Edited Change
unfolding edit is_row
mark_unread tenant_id id conversations =
    edit tenant_id id (λ c. is_row tenant_id id c && c.unread_count == 0)
      (λ c. record c { unread_count = 1 }) conversations

-- The user is an active one of the tenant, or nobody.
may_be_assigned : String → Option String → List User → Bool
may_be_assigned tenant_id none users = true
may_be_assigned tenant_id (some user_id) users =
    any (λ (u : User). str_eq u.id user_id && str_eq u.tenant_id tenant_id && u.is_active) users

unfoldable pub assign :
    String → String → Option String → List User → List Conversation → Edited Change
unfolding must_get may_be_assigned edit is_row
assign tenant_id id user_id users conversations = elim (must_get tenant_id id conversations) [
  | failed e ↦ failed e
  | done c ↦
      if may_be_assigned tenant_id user_id users
      then edit tenant_id id (is_row tenant_id id) (λ c. record c { assigned_user_id = user_id })
          conversations
      else failed user_not_in_tenant
]

unfoldable pub set_pinned : String → String → Bool → ℕ → List Conversation → Edited Change
unfolding edit is_row
set_pinned tenant_id id pinned now conversations =
    edit tenant_id id (is_row tenant_id id)
      (λ c. record c { pinned_at = if pinned then some now else none }) conversations

unfoldable pub set_status : String → String → ConversationStatus → List Conversation → Edited Change
unfolding edit is_row
set_status tenant_id id status conversations =
    edit tenant_id id (is_row tenant_id id) (λ c. record c { status = status }) conversations

-- The tags of the conversation are replaced, and the event carries them.
unfoldable pub set_tags :
    String
    → String
    → Option (List String)
    → ℕ
    → List Conversation
    → List Tag
    → List ConversationTag
    → Answer (List ConversationTag × List Updated)
unfolding set_for_conversation tags_for find_first is_visible
set_tags tenant_id id raw now conversations tags joins =
    elim (set_for_conversation tenant_id id raw now conversations tags joins) [
      | refused problem ↦ refused problem
      | ok joins' ↦ ok (
        joins',
        elim (find_first (is_visible tenant_id id) conversations) [
          | none ↦ []
          | some c ↦
              record {
                tenant_id = tenant_id;
                conversation = c;
                tags = some (tags_for tenant_id tags joins' id);
              }
              ∷ []
        ],
      )
    ]

-- `notes?.trim() ? notes : null`
notes_of : Option Text → Option Text
unfolding trim
notes_of none = none
notes_of (some notes) = if is_nil (trim notes) then none else some notes

unfoldable pub update_contact_notes :
    String → String → Option Text → List Contact → Edited (List Contact)
unfolding update_many notes_of
update_contact_notes tenant_id id notes contacts =
    if any (λ (c : Contact). str_eq c.id id && str_eq c.tenant_id tenant_id && is_none c.deleted_at)
      contacts
    then done (
        update_many (λ (c : Contact). str_eq c.id id && str_eq c.tenant_id tenant_id)
          (λ c. record c { notes = notes_of notes }) contacts)
    else failed contact_not_found
