-- ===== src/Statuses.antt =====
-- Delivery statuses of outbound messages (src/webhook-worker/message-statuses.service.ts).
pub mod Rows
pub mod Order
pub mod Plan
pub mod Laws
pub mod Effect
mod Tests
use whatsapp_inbox.Shared.{
  ℕ, String, Bool, true, false, not, ◌&&◌, ◌||◌, Option, none, some, List, [], ◌∷◌, ltb, str_eq,
  opt_is, if◌then◌else◌, is_none, is_some, get_or, or_else, any, Text,
}
use whatsapp_inbox.Meta.{MetaStatus, MetaPricing, MetaError}
use whatsapp_inbox.Schema.{MessageStatus, MessageDirection, Message, Conversation, WhatsappAccount}
use whatsapp_inbox.Db.{find_first, update_many}
use whatsapp_inbox.Numbers.{parse_epoch_seconds}

pub record Db : Type 0 where
  pub messages : List Message
  pub conversations : List Conversation

-- The payload of a `message.updated` event.
pub record MessageUpdated : Type 0 where
  pub id : String
  pub conversation_id : String
  pub status : MessageStatus
  pub delivered_at : Option ℕ
  pub read_at : Option ℕ
  pub failed_at : Option ℕ
  pub error_code : Option ℕ
  pub error_title : Option Text
  pub error_detail : Option Text

pub record Advance : Type 0 where
  pub to : MessageStatus
  pub from : List MessageStatus

unfoldable pub advance_from : String → Option Advance
advance_from meta_status =
    if str_eq meta_status "sent"
    then some (record { to = MessageStatus.sent; from = MessageStatus.pending ∷ [] })
    else if str_eq meta_status "delivered"
    then some (record {
      to = MessageStatus.delivered;
      from = MessageStatus.pending ∷ MessageStatus.sent ∷ [];
    })
    else if str_eq meta_status "read"
    then some (record {
      to = MessageStatus.read;
      from = MessageStatus.pending ∷ MessageStatus.sent ∷ MessageStatus.delivered ∷ [];
    })
    else none

abbrev pub status_eq : MessageStatus → MessageStatus → Bool
status_eq MessageStatus.pending MessageStatus.pending = true
status_eq MessageStatus.sent MessageStatus.sent = true
status_eq MessageStatus.delivered MessageStatus.delivered = true
status_eq MessageStatus.read MessageStatus.read = true
status_eq MessageStatus.failed MessageStatus.failed = true
status_eq _ _ = false

-- `SEAL_FIELD`, and the update that seals the field if it is null.
unfoldable pub seal : String → ℕ → Message → Message
seal meta_status ts m =
    if str_eq meta_status "delivered"
    then (if is_none m.delivered_at then record m { delivered_at = some ts } else m)
    else if str_eq meta_status "read"
    then (if is_none m.read_at then record m { read_at = some ts } else m)
    else m

unfoldable pub advance : Advance → Message → Message
advance a m = if any (status_eq m.status) a.from then record m { status = a.to } else m

abbrev first_error : List MetaError → Option MetaError
first_error [] = none
first_error (e ∷ _) = some e

abbrev error_code_of : Option MetaError → Option ℕ
error_code_of none = none
error_code_of (some e) = e.code

abbrev error_title_of : Option MetaError → Option Text
error_title_of none = none
error_title_of (some e) = e.title

abbrev error_detail_of : Option MetaError → Option Text
error_detail_of none = none
error_detail_of (some e) = or_else e.details e.message

-- The two updates of the `failed` branch.
unfoldable pub fail : List MetaError → ℕ → Message → Message
fail errors ts m =
    let e = first_error errors in
    let m' =
      (if status_eq m.status MessageStatus.failed then m else record m {
        status = MessageStatus.failed;
        error_code = error_code_of e;
        error_title = error_title_of e;
        error_detail = error_detail_of e;
      }) in
    if is_none m'.failed_at then record m' { failed_at = some ts } else m'

-- `pricingToUpdate`: only the keys that are present are written.
unfoldable pub pricing_to_update : MetaPricing → Message → Message
pricing_to_update p m = record m {
  billable = or_else p.billable m.billable;
  pricing_model = or_else p.pricing_model m.pricing_model;
  pricing_category = or_else p.category m.pricing_category;
  pricing_type = or_else p.type_ m.pricing_type;
}

-- What the branches on the status do to the row of the message.
unfoldable pub status_update : String → List MetaError → ℕ → Message → Message
unfolding seal advance fail advance_from
status_update meta_status errors ts m =
    if str_eq meta_status "failed"
    then fail errors ts m
    else elim (advance_from meta_status) [ none ↦ m | some a ↦ seal meta_status ts (advance a m) ]

unfoldable pub pricing_update : Option MetaPricing → Message → Message
unfolding pricing_to_update
pricing_update none m = m
pricing_update (some p) m = pricing_to_update p m

abbrev is_outbound : MessageDirection → Bool
is_outbound MessageDirection.outbound = true
is_outbound MessageDirection.inbound = false

-- A confirmed outbound message moves `lastOutboundAt` forwards.
unfoldable pub confirm_outbound : ℕ → Conversation → Conversation
confirm_outbound timestamp c = elim c.last_outbound_at [
  | none ↦ record c { last_outbound_at = some timestamp }
  | some t ↦ if ltb t timestamp then record c { last_outbound_at = some timestamp } else c
]

-- `findUnique` by (tenantId, wamid); reads leave soft-deleted rows out.
abbrev pub has_wamid : String → String → Message → Bool
has_wamid tenant_id wamid m =
    is_none m.deleted_at && (str_eq m.tenant_id tenant_id && opt_is m.wamid wamid)

abbrev pub is_row : String → String → Message → Bool
is_row tenant_id id m = str_eq m.id id && str_eq m.tenant_id tenant_id

abbrev pub is_conversation : String → String → Conversation → Bool
is_conversation tenant_id id c = str_eq c.id id && str_eq c.tenant_id tenant_id

updated_event : Message → MessageUpdated
updated_event m = record {
  id = m.id;
  conversation_id = m.conversation_id;
  status = m.status;
  delivered_at = m.delivered_at;
  read_at = m.read_at;
  failed_at = m.failed_at;
  error_code = m.error_code;
  error_title = m.error_title;
  error_detail = m.error_detail;
}

abbrev emits : String → Bool
unfolding advance_from
emits meta_status = str_eq meta_status "failed" || is_some (advance_from meta_status)

-- The event of the row as it is read again, if the status is one that the code knows.
unfoldable pub events_of : String → String → String → List Message → List MessageUpdated
unfolding find_first updated_event advance_from
events_of tenant_id id meta_status messages =
    if emits meta_status
    then elim (find_first (λ m. is_none m.deleted_at && is_row tenant_id id m) messages) [
      | none ↦ []
      | some m ↦ updated_event m ∷ []
    ]
    else []

-- `apply` on the message that was found.
unfoldable pub apply_to : String → String → MetaStatus → ℕ → Message → Db → Db × List MessageUpdated
unfolding update_many status_update pricing_update confirm_outbound events_of
apply_to tenant_id meta_status status now message db =
    let ts = get_or (parse_epoch_seconds status.timestamp) now in
    let row = is_row tenant_id message.id in
    let stamped = update_many row (status_update meta_status status.errors ts) db.messages in
    let priced = update_many row (pricing_update status.pricing) stamped in
    let confirmed =
      (if is_outbound message.direction && not (str_eq meta_status "failed")
        then update_many (is_conversation tenant_id message.conversation_id)
            (confirm_outbound message.timestamp) db.conversations
        else db.conversations) in
    (
      record { messages = priced; conversations = confirmed },
      events_of tenant_id message.id meta_status priced,
    )

-- `now` is the clock, read where Meta sends no usable timestamp.
unfoldable pub apply : WhatsappAccount → MetaStatus → ℕ → Db → Db × List MessageUpdated
unfolding apply_to find_first
apply account status now db = elim status.id [
  | none ↦ (db, [])
  | some wamid ↦ elim status.status [
    | none ↦ (db, [])
    | some meta_status ↦
        if str_eq wamid "" || str_eq meta_status ""
        then (db, [])
        else elim (find_first (has_wamid account.tenant_id wamid) db.messages) [
          | none ↦ (db, [])
          | some message ↦ apply_to account.tenant_id meta_status status now message db
        ]
  ]
]
