-- ===== src/Mapping.antt =====
-- What the worker reads from a message of Meta (src/webhook-worker/message-mapping.ts).
pub mod Laws
use whatsapp_inbox.Shared.{
  ℕ, ◌-◌, String, Bool, true, false, ◌&&◌, ◌||◌, Option, none, some, List, [], ◌∷◌, ◌++◌, ltb, leb,
  str_eq, if◌then◌else◌, is_some, get_or, or_else, length, take, all, Text, utf16,
}
use whatsapp_inbox.Json.{Json}
use whatsapp_inbox.Meta.{MetaMedia, MetaInboundMessage}
use whatsapp_inbox.Numbers.{is_digit}
use whatsapp_inbox.Schema.{MessageType}

abbrev pub preview_max_chars : ℕ
preview_max_chars = 120

-- `META_TYPE_TO_MESSAGE_TYPE`, and UNSUPPORTED for all other types.
unfoldable pub map_meta_message_type : Option String → MessageType
map_meta_message_type none = MessageType.unsupported
map_meta_message_type (some t) =
    if str_eq t "text"
    then MessageType.text
    else if str_eq t "image"
    then MessageType.image
    else if str_eq t "document"
    then MessageType.document
    else if str_eq t "audio"
    then MessageType.audio
    else if str_eq t "video"
    then MessageType.video
    else if str_eq t "sticker"
    then MessageType.sticker
    else if str_eq t "location"
    then MessageType.location
    else if str_eq t "contacts"
    then MessageType.contacts
    else if str_eq t "button"
    then MessageType.button
    else if str_eq t "interactive"
    then MessageType.interactive
    else if str_eq t "reaction"
    then MessageType.reaction
    else if str_eq t "system"
    then MessageType.system
    else MessageType.unsupported

-- `/^\d{5,15}$/`
unfoldable pub wa_id_to_e164 : String → Option Text
wa_id_to_e164 wa_id =
    let digits = utf16 wa_id in
    if all is_digit digits && (leb 5 (length digits) && leb (length digits) 15)
    then some (b'+' ∷ digits)
    else none

abbrev pub is_media_type : MessageType → Bool
is_media_type MessageType.image = true
is_media_type MessageType.video = true
is_media_type MessageType.audio = true
is_media_type MessageType.document = true
is_media_type MessageType.sticker = true
is_media_type _ = false

abbrev pub is_unsupported : MessageType → Bool
is_unsupported MessageType.unsupported = true
is_unsupported _ = false

abbrev pub is_document : MessageType → Bool
is_document MessageType.document = true
is_document _ = false

abbrev pub is_reaction_type : MessageType → Bool
is_reaction_type MessageType.reaction = true
is_reaction_type _ = false

pub record MappedInboundMessage : Type 0 where
  pub type_ : MessageType
  pub body : Option Text
  pub reply_to_wamid : Option String
  pub media_id : Option Text
  pub media_mime_type : Option Text
  pub media_sha256 : Option Text
  pub media_filename : Option Text
  pub has_media : Bool
  pub is_reaction : Bool
  pub keep_raw : Bool
  pub error_code : Option ℕ
  pub error_title : Option Text
  pub error_detail : Option Text

-- `msg[msg.type]` where the type is one of media.
abbrev pub media_of : MessageType → MetaInboundMessage → Option MetaMedia
media_of MessageType.image msg = msg.image
media_of MessageType.video msg = msg.video
media_of MessageType.audio msg = msg.audio
media_of MessageType.document msg = msg.document
media_of MessageType.sticker msg = msg.sticker
media_of _ msg = none

-- `o?.field ?? null`
abbrev pub field {ℓ κ} : {A : Type ℓ} {B : Type κ} → (A → Option B) → Option A → Option B
field f none = none
field f (some a) = f a

abbrev pub stringified : (Json → Text) → Option Json → Option Text
stringified stringify none = none
stringified stringify (some v) = some (stringify v)

abbrev pub body_of : (Json → Text) → MessageType → MetaInboundMessage → Option Text
body_of stringify MessageType.text msg = msg.text_body
body_of stringify MessageType.image msg = field (λ m. m.caption) msg.image
body_of stringify MessageType.video msg = field (λ m. m.caption) msg.video
body_of stringify MessageType.document msg = field (λ m. m.caption) msg.document
body_of stringify MessageType.audio msg = field (λ m. m.caption) msg.audio
body_of stringify MessageType.sticker msg = field (λ m. m.caption) msg.sticker
body_of stringify MessageType.location msg = stringified stringify msg.location
body_of stringify MessageType.contacts msg = stringified stringify msg.contacts
body_of stringify MessageType.button msg = msg.button_text
body_of stringify MessageType.interactive msg = or_else msg.button_reply_title msg.list_reply_title
body_of stringify MessageType.reaction msg = msg.reaction_emoji
body_of stringify MessageType.system msg = msg.system_body
body_of stringify _ msg = none

abbrev pub first_of {ℓ} : {A : Type ℓ} → List A → Option A
first_of [] = none
first_of (e ∷ _) = some e

-- `stringify` is `JSON.stringify`.
unfoldable pub map_inbound_message : (Json → Text) → MetaInboundMessage → MappedInboundMessage
unfolding map_meta_message_type
map_inbound_message stringify msg =
    let type_ = map_meta_message_type msg.type_ in
    let media = media_of type_ msg in
    let has_media = is_media_type type_ in
    let first_error = first_of msg.errors in
    let error_code = field (λ e. e.code) first_error in
    record {
      type_ = type_;
      body = body_of stringify type_ msg;
      reply_to_wamid = or_else msg.reaction_message_id msg.context_id;
      media_id = if has_media then field (λ m. m.id) media else none;
      media_mime_type = if has_media then field (λ m. m.mime_type) media else none;
      media_sha256 = if has_media then field (λ m. m.sha256) media else none;
      media_filename = if is_document type_ then field (λ m. m.filename) media else none;
      has_media = has_media;
      is_reaction = is_reaction_type type_;
      keep_raw = is_unsupported type_ || is_some error_code;
      error_code = error_code;
      error_title = field (λ e. e.title) first_error;
      error_detail = field (λ e. or_else e.details e.message) first_error;
    }

-- The enum's own text.
abbrev pub type_text : MessageType → String
type_text MessageType.text = "TEXT"
type_text MessageType.image = "IMAGE"
type_text MessageType.document = "DOCUMENT"
type_text MessageType.audio = "AUDIO"
type_text MessageType.video = "VIDEO"
type_text MessageType.sticker = "STICKER"
type_text MessageType.location = "LOCATION"
type_text MessageType.contacts = "CONTACTS"
type_text MessageType.template = "TEMPLATE"
type_text MessageType.interactive = "INTERACTIVE"
type_text MessageType.button = "BUTTON"
type_text MessageType.reaction = "REACTION"
type_text MessageType.system = "SYSTEM"
type_text MessageType.unsupported = "UNSUPPORTED"

-- Null and the empty text are false.
abbrev pub truthy : Option Text → Option Text
truthy none = none
truthy (some []) = none
truthy (some (c ∷ cs)) = some (c ∷ cs)

-- With an ellipsis where something was cut off.
unfoldable pub truncate : Text → Text
truncate s =
    if ltb preview_max_chars (length s) then take (preview_max_chars - 1) s ++ utf16 "…" else s

abbrev pub labelled : String → String → Option Text → Text
labelled label alone none = utf16 alone
labelled label alone (some s) = utf16 label ++ s

abbrev pub reacted : Option Text → Text
unfolding truncate
reacted none = utf16 "Quitó una reacción"
reacted (some s) = truncate (utf16 "Reaccionó " ++ s)

-- The cases of the switch on the type.
unfoldable pub preview_of : MessageType → MappedInboundMessage → Text
unfolding truncate reacted
preview_of MessageType.image mapped = truncate (labelled "📷 " "📷 Imagen" (truthy mapped.body))
preview_of MessageType.video mapped = truncate (labelled "🎥 " "🎥 Video" (truthy mapped.body))
preview_of MessageType.audio mapped = utf16 "🎙" ++ 0xfe0f ∷ utf16 " Audio"
preview_of MessageType.sticker mapped = utf16 "Sticker"
preview_of MessageType.document mapped =
    truncate (labelled "📄 " "📄 Documento" (truthy mapped.media_filename))
preview_of MessageType.location mapped = utf16 "📍 Ubicación"
preview_of MessageType.contacts mapped = utf16 "👤 Contacto compartido"
preview_of MessageType.reaction mapped = reacted (truthy mapped.body)
preview_of MessageType.unsupported mapped = utf16 "Mensaje no soportado"
preview_of t mapped = truncate (get_or mapped.body (utf16 (type_text t)))

unfoldable pub build_message_preview : MappedInboundMessage → Text
unfolding preview_of
build_message_preview mapped = preview_of mapped.type_ mapped
