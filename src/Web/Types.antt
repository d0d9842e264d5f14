-- ===== src/Web/Types.antt =====
-- What the client holds (web/src/lib/types.ts). A date is the number of milliseconds that
-- `Date.parse` reads from its text; a field that may be null or missing is an `Option`.
use whatsapp_inbox.Shared.{ℕ, String, Bool, Option, List}
use whatsapp_inbox.Schema.{MessageDirection, MessageStatus, MediaStatus, ConversationStatus}

pub data Local : Type 0 where
  sending failed_network : Local

pub record Message : Type 0 where
  pub id : String
  pub conversation_id : String
  pub wamid : Option String
  pub client_dedup_key : Option String
  pub direction : MessageDirection
  pub type_ : String
  pub status : MessageStatus
  pub body : Option String
  pub reply_to_wamid : Option String
  pub template_name : Option String
  pub template_language : Option String
  pub media_mime_type : Option String
  pub media_filename : Option String
  pub media_size_bytes : Option ℕ
  pub media_status : Option MediaStatus
  pub transcription : Option String
  pub is_auto_reply : Bool
  pub error_code : Option ℕ
  pub error_title : Option String
  pub error_detail : Option String
  pub sent_by_user_id : Option String
  pub timestamp : ℕ
  pub delivered_at : Option ℕ
  pub read_at : Option ℕ
  pub failed_at : Option ℕ
  pub created_at : ℕ
  pub local : Option Local

pub record Contact : Type 0 where
  pub id : String
  pub wa_id : String
  pub phone_e164 : Option String
  pub profile_name : Option String
  pub notes : Option String
  pub is_blocked : Bool

pub record Tag : Type 0 where
  pub id : String
  pub name : String
  pub slug : String
  pub color : String
  pub usage_count : Option ℕ

pub record Conversation : Type 0 where
  pub id : String
  pub contact_id : String
  pub whatsapp_account_id : String
  pub status : ConversationStatus
  pub assigned_user_id : Option String
  pub unread_count : ℕ
  pub last_inbound_at : Option ℕ
  pub last_outbound_at : Option ℕ
  pub last_message_at : Option ℕ
  pub last_message_preview : Option String
  pub pinned_at : Option ℕ
  pub created_at : ℕ
  pub is_window_open : Bool
  pub window_expires_at : Option ℕ
  pub contact : Option Contact
  pub has_active_order : Option Bool
  pub active_order_number : Option String
  pub tags : Option (List Tag)

-- The kind of a state is the text that the server sends: nothing checks it at run time.
pub record GourmetifyOrder : Type 0 where
  pub id : String
  pub gourmetify_order_id : String
  pub contact_id : Option String
  pub number : Option String
  pub status_label : String
  pub status_kind : String
  pub summary : Option String
  pub total_label : Option String
  pub delivery_label : Option String
  pub scheduled_label : Option String
  pub order_created_at : ℕ

pub record SendError : Type 0 where
  pub code : String
  pub message : String

pub record SendResult : Type 0 where
  pub http_status : ℕ
  pub message : Option Message
  pub error : Option SendError

pub record Me : Type 0 where
  pub tenant_id : String
  pub user_id : Option String
  pub timezone : String

pub record Template : Type 0 where
  pub id : String
  pub name : String
  pub language : String
  pub category : String
  pub body_text : String
  pub variable_count : ℕ

pub record QuickReply : Type 0 where
  pub id : String
  pub shortcut : String
  pub title : String
  pub body : String
  pub is_active : Bool
  pub is_favorite : Bool

pub record AgentUser : Type 0 where
  pub id : String
  pub name : String
  pub role : String
