-- ===== src/Schema.antt =====
-- The rows of the tables that the core reads and writes (prisma/schema.prisma). A nullable column
-- is an `Option`, an instant is the number of milliseconds since the epoch.
use whatsapp_inbox.Shared.{ℕ, String, Bool, Option, List, Text}
use whatsapp_inbox.Meta.{MetaInboundMessage}

pub data WhatsappAccountStatus : Type 0 where
  pending active token_expired disconnected suspended : WhatsappAccountStatus

pub data UserRole : Type 0 where
  owner admin agent : UserRole

pub data ConversationStatus : Type 0 where
  opened pending closed : ConversationStatus

pub data MessageDirection : Type 0 where
  inbound outbound : MessageDirection

pub data MessageStatus : Type 0 where
  pending sent delivered read failed : MessageStatus

pub data MediaStatus : Type 0 where
  pending downloaded failed : MediaStatus

pub data TemplateStatus : Type 0 where
  pending approved rejected paused disabled : TemplateStatus

pub data MessageType : Type 0 where
  text image document audio video sticker location contacts : MessageType
  template interactive button reaction system unsupported : MessageType

pub record WhatsappAccount : Type 0 where
  pub id : String
  pub tenant_id : String
  pub phone_number_id : String
  pub status : WhatsappAccountStatus
  pub last_error_code : Option ℕ
  pub last_error_at : Option ℕ

pub record Contact : Type 0 where
  pub id : String
  pub tenant_id : String
  pub wa_id : String
  pub phone_e164 : Option Text
  pub profile_name : Option Text
  pub notes : Option Text
  pub deleted_at : Option ℕ

pub record Conversation : Type 0 where
  pub id : String
  pub tenant_id : String
  pub whatsapp_account_id : String
  pub contact_id : String
  pub status : ConversationStatus
  pub assigned_user_id : Option String
  pub last_inbound_at : Option ℕ
  pub last_outbound_at : Option ℕ
  pub last_auto_reply_at : Option ℕ
  pub last_message_at : Option ℕ
  pub last_message_preview : Option Text
  pub unread_count : ℕ
  pub pinned_at : Option ℕ
  pub deleted_at : Option ℕ

pub record Message : Type 0 where
  pub id : String
  pub tenant_id : String
  pub conversation_id : String
  pub whatsapp_account_id : String
  pub wamid : Option String
  pub client_dedup_key : Option String
  pub direction : MessageDirection
  pub type_ : MessageType
  pub status : MessageStatus
  pub body : Option Text
  pub reply_to_wamid : Option String
  pub template_name : Option Text
  pub template_language : Option Text
  pub template_params : Option (List Text)
  pub media_id : Option Text
  pub media_url : Option Text
  pub media_mime_type : Option Text
  pub media_filename : Option Text
  pub media_size_bytes : Option ℕ
  pub media_sha256 : Option Text
  pub media_status : Option MediaStatus
  pub is_auto_reply : Bool
  pub billable : Option Bool
  pub pricing_model : Option Text
  pub pricing_category : Option Text
  pub pricing_type : Option Text
  pub error_code : Option ℕ
  pub error_title : Option Text
  pub error_detail : Option Text
  pub sent_by_user_id : Option String
  pub timestamp : ℕ
  pub delivered_at : Option ℕ
  pub read_at : Option ℕ
  pub failed_at : Option ℕ
  pub deleted_at : Option ℕ
  pub raw : Option MetaInboundMessage

pub record MessageTemplate : Type 0 where
  pub id : String
  pub tenant_id : String
  pub whatsapp_account_id : String
  pub name : Text
  pub language : Text
  pub status : TemplateStatus
  pub body_text : Text
  pub variable_count : ℕ
