-- ===== src/Send.antt =====
-- The sending of a message (src/messaging/send-message.service.ts). `begin` is `send` up to the
-- call of Meta, `settle` what follows the answer; other requests run between the two, and between
-- the search for an earlier message and the creation of the new one.
pub mod Steps
pub mod Settle
pub mod Recorded
pub mod Calls
pub mod Reopened
pub mod Kept
pub mod Settled
pub mod Reported
mod Tests
use whatsapp_inbox.Shared.{
  ℕ, String, Bool, true, false, not, ◌&&◌, Option, none, some, List, [], ◌∷◌, ◌++◌, ◌==◌, str_eq,
  if◌then◌else◌, get_or, length, Text, utf16,
}
use whatsapp_inbox.Schema.{
  TemplateStatus, MessageType, WhatsappAccount, Contact, Conversation, Message, MessageTemplate,
}
use whatsapp_inbox.Db.{find_first}
use whatsapp_inbox.Window.{window_expires_at, is_window_open}
use whatsapp_inbox.Templates.{render_template_body}
use whatsapp_inbox.SendErrors.{SendErrorCode, UserMessage}

pub record Db : Type 0 where
  pub contacts : List Contact
  pub accounts : List WhatsappAccount
  pub conversations : List Conversation
  pub messages : List Message
  pub templates : List MessageTemplate

abbrev pub preview_max_chars : ℕ
preview_max_chars = 120

pub data MediaKind : Type 0 where
  image video audio document : MediaKind

pub record MediaRequest : Type 0 where
  pub kind : MediaKind
  pub meta_media_id : Text
  pub media_key : Text
  pub media_mime_type : Text
  pub media_size_bytes : ℕ
  pub filename : Option Text
  pub caption : Option Text
  pub forced_message_id : String

pub data Content : Type 0 where
  text : Text → Bool → Content  -- the body, and `isAutoReply`
  template : String → List Text → Content
  media : MediaRequest → Content

pub record SendRequest : Type 0 where
  pub client_dedup_key : String
  pub content : Content

pub data Payload : Type 0 where
  text : String → Text → Payload
  media : String → MediaKind → Text → Option Text → Option Text → Payload
  template : String → Text → Text → List Text → Payload

pub data OutcomeCode : Type 0 where
  domain : SendErrorCode → OutcomeCode
  template_invalid : OutcomeCode

pub data OutcomeMessage : Type 0 where
  user : UserMessage → OutcomeMessage
  window_is_closed : OutcomeMessage
  not_approved : Text → TemplateStatus → OutcomeMessage
  wrong_params : Text → ℕ → ℕ → OutcomeMessage

pub record OutcomeError : Type 0 where
  pub code : OutcomeCode
  pub message : OutcomeMessage
  pub window_expires_at : Option ℕ

pub record SendOutcome : Type 0 where
  pub http_status : ℕ
  pub message : Option Message
  pub error : Option OutcomeError

pub data NotFound : Type 0 where
  no_conversation no_contact_or_account no_template : NotFound

pub record Prepared : Type 0 where
  pub payload : Payload
  pub body : Option Text
  pub preview : Text
  pub message_type : MessageType
  pub template_name : Option Text
  pub template_language : Option Text
  pub template_params : Option (List Text)
  pub media_fields : Option MediaRequest

pub data Preparation : Type 0 where
  threw : NotFound → Preparation
  refused : SendOutcome → Preparation
  prepared : Prepared → Preparation

unfoldable pub window_expired_outcome : Conversation → SendOutcome
unfolding window_expires_at
window_expired_outcome c = record {
  http_status = 422;
  message = none;
  error = some (record {
    code = OutcomeCode.domain SendErrorCode.window_expired;
    message = OutcomeMessage.window_is_closed;
    window_expires_at = window_expires_at c;
  });
}

abbrev invalid_template : OutcomeMessage → SendOutcome
invalid_template message = record {
  http_status = 422;
  message = none;
  error =
      some (record {
        code = OutcomeCode.template_invalid;
        message = message;
        window_expires_at = none;
      });
}

abbrev media_type : MediaKind → MessageType
media_type MediaKind.image = MessageType.image
media_type MediaKind.video = MessageType.video
media_type MediaKind.audio = MessageType.audio
media_type MediaKind.document = MessageType.document

abbrev is_audio : MediaKind → Bool
is_audio MediaKind.audio = true
is_audio _ = false

abbrev is_document : MediaKind → Bool
is_document MediaKind.document = true
is_document _ = false

-- Null and the empty text are false.
abbrev pub filled : Option Text → Option Text
filled none = none
filled (some []) = none
filled (some (c ∷ cs)) = some (c ∷ cs)

abbrev captioned : Text → Text → Option Text → Text
captioned sign alone none = sign ++ alone
captioned sign alone (some caption) = sign ++ 0x20 ∷ caption

abbrev media_preview : MediaRequest → Text
media_preview r = elim r.kind [
  | MediaKind.document ↦ utf16 "📄 " ++ get_or r.filename (utf16 "Documento")
  | MediaKind.image ↦ captioned (utf16 "📷") (utf16 " Imagen") (filled r.caption)
  | MediaKind.video ↦ captioned (utf16 "🎥") (utf16 " Video") (filled r.caption)
  | MediaKind.audio ↦ captioned (utf16 "🎙" ++ 0xfe0f ∷ []) (utf16 " Audio") (filled r.caption)
]

unfoldable pub prepare_text : Contact → Text → Prepared
prepare_text contact body = record {
  payload = Payload.text contact.wa_id body;
  body = some body;
  preview = body;
  message_type = MessageType.text;
  template_name = none;
  template_language = none;
  template_params = none;
  media_fields = none;
}

unfoldable pub prepare_media : Contact → MediaRequest → Prepared
prepare_media contact r = record {
  payload =
      Payload.media contact.wa_id r.kind r.meta_media_id
        (if is_audio r.kind then none else filled r.caption)
        (if is_document r.kind then filled r.filename else none);
  body = r.caption;
  preview = media_preview r;
  message_type = media_type r.kind;
  template_name = none;
  template_language = none;
  template_params = none;
  media_fields = some r;
}

abbrev is_approved : TemplateStatus → Bool
is_approved TemplateStatus.approved = true
is_approved _ = false

unfoldable pub prepare_template : Contact → List Text → MessageTemplate → Preparation
unfolding render_template_body
prepare_template contact params t =
    let rendered = render_template_body t.body_text params in
    if not (is_approved t.status)
    then Preparation.refused (invalid_template (OutcomeMessage.not_approved t.name t.status))
    else if not (length params == t.variable_count)
    then Preparation.refused
        (invalid_template (OutcomeMessage.wrong_params t.name t.variable_count (length params)))
    else Preparation.prepared (record {
      payload = Payload.template contact.wa_id t.name t.language params;
      body = some rendered;
      preview = rendered;
      message_type = MessageType.template;
      template_name = some t.name;
      template_language = some t.language;
      template_params = some params;
      media_fields = none;
    })

abbrev is_template : String → String → String → MessageTemplate → Bool
is_template tenant_id id account_id t =
    str_eq t.id id && (str_eq t.tenant_id tenant_id && str_eq t.whatsapp_account_id account_id)

unfoldable pub prepare :
    String → Conversation → Contact → Content → ℕ → List MessageTemplate → Preparation
unfolding find_first is_window_open prepare_text prepare_media prepare_template
    window_expired_outcome
prepare tenant_id conversation contact (Content.text body auto) now templates =
    if is_window_open conversation now
    then Preparation.prepared (prepare_text contact body)
    else Preparation.refused (window_expired_outcome conversation)
prepare tenant_id conversation contact (Content.media r) now templates =
    if is_window_open conversation now
    then Preparation.prepared (prepare_media contact r)
    else Preparation.refused (window_expired_outcome conversation)
prepare tenant_id conversation contact (Content.template id params) now templates =
    elim (find_first (is_template tenant_id id conversation.whatsapp_account_id) templates) [
      | none ↦ Preparation.threw NotFound.no_template
      | some t ↦ prepare_template contact params t
    ]
