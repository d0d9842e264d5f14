-- ===== src/Inbound.antt =====
-- Inbound messages (src/webhook-worker/inbound-messages.service.ts).
pub mod Upserts
pub mod Left
pub mod Twice
pub mod Counting
pub mod Unread
pub mod Steps
pub mod Grows
pub mod Rows
pub mod Received
mod Tests
use whatsapp_inbox.Shared.{
  ℕ, suc, String, Bool, true, false, not, ◌&&◌, ◌||◌, Option, none, some, List, [], ◌∷◌, ◌++◌, leb,
  str_eq, opt_is, if◌then◌else◌, is_none, get_or, or_else, Text,
}
use whatsapp_inbox.Json.{Json}
use whatsapp_inbox.Meta.{MetaContact, MetaInboundMessage}
use whatsapp_inbox.Numbers.{parse_epoch_seconds}
use whatsapp_inbox.Schema.{
  ConversationStatus, MessageDirection, MessageStatus, MediaStatus, WhatsappAccount, Contact,
  Conversation, Message,
}
use whatsapp_inbox.Db.{find_first, update_many, create, upsert}
use whatsapp_inbox.Mapping.{
  MappedInboundMessage, map_inbound_message, build_message_preview, wa_id_to_e164, truthy,
}

pub record Db : Type 0 where
  pub contacts : List Contact
  pub conversations : List Conversation
  pub messages : List Message

-- The ids that the database makes for new rows.
pub record NewIds : Type 0 where
  pub contact : String
  pub conversation : String
  pub message : String

-- What is done after the transaction, in order: the job of the download, the events, and the
-- automatic answer.
pub data Effect : Type 0 where
  media_download : String → String → Effect
  message_created : String → Message → Effect
  conversation_updated : String → Conversation → Effect
  maybe_reply : String → String → Effect

abbrev pub is_contact : String → String → Contact → Bool
is_contact tenant_id wa_id c = str_eq c.tenant_id tenant_id && str_eq c.wa_id wa_id

abbrev pub is_thread : String → String → String → Conversation → Bool
is_thread tenant_id account_id contact_id c =
    str_eq c.tenant_id tenant_id
    && (str_eq c.whatsapp_account_id account_id && str_eq c.contact_id contact_id)

abbrev pub is_conversation : String → String → Conversation → Bool
is_conversation tenant_id id c = str_eq c.id id && str_eq c.tenant_id tenant_id

-- The unique constraint on (tenantId, wamid): nulls do not clash.
abbrev pub same_wamid : Message → Message → Bool
same_wamid row x = str_eq x.tenant_id row.tenant_id && opt_opt_is x.wamid row.wamid
  where
    opt_opt_is : Option String → Option String → Bool
    opt_opt_is a none = false
    opt_opt_is a (some w) = opt_is a w

unfoldable pub new_contact : String → String → String → Option Text → Contact
unfolding wa_id_to_e164
new_contact id tenant_id wa_id profile_name = record {
  id = id;
  tenant_id = tenant_id;
  wa_id = wa_id;
  phone_e164 = wa_id_to_e164 wa_id;
  profile_name = profile_name;
  notes = none;
  deleted_at = none;
}

unfoldable pub refresh_contact : Option Text → Contact → Contact
refresh_contact profile_name c = record c {
  deleted_at = none;
  profile_name = or_else (truthy profile_name) c.profile_name;
}

unfoldable pub new_conversation : String → String → String → String → Conversation
new_conversation id tenant_id account_id contact_id = record {
  id = id;
  tenant_id = tenant_id;
  whatsapp_account_id = account_id;
  contact_id = contact_id;
  status = ConversationStatus.opened;
  last_inbound_at = none;
  last_outbound_at = none;
  last_auto_reply_at = none;
  last_message_at = none;
  last_message_preview = none;
  unread_count = 0;
  pinned_at = none;
  assigned_user_id = none;
  deleted_at = none;
}

unfoldable pub restore : Conversation → Conversation
restore c = record c { deleted_at = none }

unfoldable pub new_message :
    String
    → WhatsappAccount
    → String
    → String
    → MetaInboundMessage
    → MappedInboundMessage
    → ℕ
    → Message
new_message id account conversation_id wamid msg mapped timestamp = record {
  id = id;
  tenant_id = account.tenant_id;
  conversation_id = conversation_id;
  whatsapp_account_id = account.id;
  wamid = some wamid;
  client_dedup_key = none;
  direction = MessageDirection.inbound;
  type_ = mapped.type_;
  status = MessageStatus.delivered;
  body = mapped.body;
  reply_to_wamid = mapped.reply_to_wamid;
  template_name = none;
  template_language = none;
  template_params = none;
  media_id = mapped.media_id;
  media_url = none;
  media_mime_type = mapped.media_mime_type;
  media_filename = mapped.media_filename;
  media_size_bytes = none;
  media_sha256 = mapped.media_sha256;
  media_status = if mapped.has_media then some MediaStatus.pending else none;
  is_auto_reply = false;
  billable = none;
  pricing_model = none;
  pricing_category = none;
  pricing_type = none;
  error_code = mapped.error_code;
  error_title = mapped.error_title;
  error_detail = mapped.error_detail;
  sent_by_user_id = none;
  timestamp = timestamp;
  delivered_at = none;
  read_at = none;
  failed_at = none;
  deleted_at = none;
  raw = if mapped.keep_raw then some msg else none;
}

-- `OR: [{ field: null }, { field: { lte: timestamp } }]`
abbrev pub not_after : Option ℕ → ℕ → Bool
not_after none t = true
not_after (some s) t = leb s t

unfoldable pub touch_message : ℕ → Text → Conversation → Conversation
touch_message t preview c =
    if not_after c.last_message_at t
    then record c { last_message_at = some t; last_message_preview = some preview }
    else c

unfoldable pub touch_inbound : ℕ → Conversation → Conversation
touch_inbound t c =
    if not_after c.last_inbound_at t then record c { last_inbound_at = some t } else c

abbrev pub is_closed : ConversationStatus → Bool
is_closed ConversationStatus.closed = true
is_closed _ = false

unfoldable pub bump : Bool → Bool → Conversation → Conversation
bump is_reaction was_closed c = record c {
  unread_count = if is_reaction then c.unread_count else suc c.unread_count;
  status = if was_closed then ConversationStatus.opened else c.status;
}

-- The three updates of the fourth step.
unfoldable pub count_in :
    String → String → ℕ → Text → Bool → Bool → List Conversation → List Conversation
unfolding update_many touch_message touch_inbound bump
count_in tenant_id id t preview is_reaction was_closed conversations =
    let here = is_conversation tenant_id id in
    let dated =
      update_many here (touch_inbound t)
        (update_many here (touch_message t preview) conversations) in
    if is_reaction && not was_closed
    then dated
    else update_many here (bump is_reaction was_closed) dated

abbrev pub profile_of : List MetaContact → String → Option Text
profile_of [] wa_id = none
profile_of (c ∷ cs) wa_id = if opt_is c.wa_id wa_id then c.profile_name else profile_of cs wa_id

-- After the commit.
unfoldable pub effects : String → Bool → Bool → Message → List Conversation → List Effect
unfolding find_first
effects tenant_id has_media is_reaction message conversations =
    (if has_media then Effect.media_download tenant_id message.id ∷ [] else [])
    ++ (Effect.message_created tenant_id message
        ∷ (elim (find_first
              (λ c. is_none c.deleted_at && is_conversation tenant_id message.conversation_id c)
              conversations) [ none ↦ [] | some c ↦ Effect.conversation_updated tenant_id c ∷ [] ]
            ++ (if is_reaction
                then []
                else Effect.maybe_reply tenant_id message.conversation_id ∷ [])))

-- The rest of the transaction, once the contact and the conversation are there.
unfoldable pub receive :
    WhatsappAccount
    → String
    → MetaInboundMessage
    → MappedInboundMessage
    → ℕ
    → String
    → List Contact
    → List Conversation × Conversation
    → List Message
    → Db × List Effect
unfolding create new_message count_in effects build_message_preview
receive account wamid msg mapped t message_id contacts (conversations, conversation) messages =
    let row = new_message message_id account conversation.id wamid msg mapped t in
    let counted =
      count_in account.tenant_id conversation.id t (build_message_preview mapped) mapped.is_reaction
        (is_closed conversation.status) conversations in
    elim (create same_wamid row messages) [
      | none ↦
          (record { contacts = contacts; conversations = conversations; messages = messages }, [])
      | some messages' ↦ (
        record { contacts = contacts; conversations = counted; messages = messages' },
        effects account.tenant_id mapped.has_media mapped.is_reaction row counted,
      )
    ]

-- The transaction of a message that has an id and a sender.
unfoldable pub accept :
    WhatsappAccount
    → String
    → String
    → Option Text
    → MetaInboundMessage
    → MappedInboundMessage
    → ℕ
    → NewIds
    → Db
    → Db × List Effect
unfolding upsert new_contact refresh_contact new_conversation restore receive
accept a w wa_id profile msg m t ids db =
    let contacts =
      upsert (is_contact a.tenant_id wa_id) (new_contact ids.contact a.tenant_id wa_id profile)
        (refresh_contact profile) db.contacts in
    receive a w msg m t ids.message contacts.0
      (upsert (is_thread a.tenant_id a.id contacts.1.id)
        (new_conversation ids.conversation a.tenant_id a.id contacts.1.id) restore db.conversations)
      db.messages

-- `now` is the clock, read where Meta sends no usable timestamp, and `stringify` is `JSON.stringify`.
unfoldable pub process_message :
    (Json → Text)
    → WhatsappAccount
    → List MetaContact
    → MetaInboundMessage
    → ℕ
    → NewIds
    → Db
    → Db × List Effect
unfolding accept map_inbound_message
process_message stringify account value_contacts msg now ids db =
    let wamid = get_or msg.id "" in
    let wa_id = get_or msg.from "" in
    if str_eq wamid "" || str_eq wa_id ""
    then (db, [])
    else accept account wamid wa_id (profile_of value_contacts wa_id) msg
        (map_inbound_message stringify msg) (get_or (parse_epoch_seconds msg.timestamp) now) ids db
