-- ===== src/Fixtures.antt =====
-- Rows that the tests of the components start from.
use whatsapp_inbox.Shared.{String, false, none, some, [], utf16}
use whatsapp_inbox.Meta.{MetaStatus, MetaInboundMessage}
use whatsapp_inbox.Schema.{
  WhatsappAccountStatus, ConversationStatus, MessageDirection, MessageStatus, MessageType,
  WhatsappAccount, Contact, Conversation, Message,
}

abbrev pub account : WhatsappAccount
account = record {
  id = "wa1";
  tenant_id = "nova";
  phone_number_id = "pn1";
  status = WhatsappAccountStatus.active;
  last_error_code = none;
  last_error_at = none;
}

abbrev pub contact : Contact
contact = record {
  id = "ct1";
  tenant_id = "nova";
  wa_id = "54911";
  phone_e164 = none;
  profile_name = some (utf16 "Ana");
  notes = none;
  deleted_at = none;
}

abbrev pub conversation : Conversation
conversation = record {
  id = "cv1";
  tenant_id = "nova";
  whatsapp_account_id = "wa1";
  contact_id = "ct1";
  status = ConversationStatus.opened;
  last_inbound_at = some 1_000_000_000;
  last_outbound_at = none;
  last_auto_reply_at = none;
  last_message_at = none;
  last_message_preview = none;
  unread_count = 0;
  pinned_at = none;
  assigned_user_id = none;
  deleted_at = none;
}

-- An outbound message that waits for its first status.
abbrev pub outgoing : Message
outgoing = record {
  id = "m1";
  tenant_id = "nova";
  conversation_id = "cv1";
  whatsapp_account_id = "wa1";
  wamid = some "wamid.1";
  client_dedup_key = some "k1";
  direction = MessageDirection.outbound;
  type_ = MessageType.text;
  status = MessageStatus.pending;
  body = some (utf16 "hola");
  reply_to_wamid = none;
  template_name = none;
  template_language = none;
  template_params = none;
  media_id = none;
  media_url = none;
  media_mime_type = none;
  media_filename = none;
  media_size_bytes = none;
  media_sha256 = none;
  media_status = none;
  is_auto_reply = false;
  billable = none;
  pricing_model = none;
  pricing_category = none;
  pricing_type = none;
  error_code = none;
  error_title = none;
  error_detail = none;
  sent_by_user_id = none;
  timestamp = 1_000_000_500;
  delivered_at = none;
  read_at = none;
  failed_at = none;
  deleted_at = none;
  raw = none;
}

abbrev pub status_of : String → String → MetaStatus
status_of wamid kind = record {
  id = some wamid;
  status = some kind;
  timestamp = some (utf16 "1000001");
  pricing = none;
  errors = [];
}

abbrev pub inbound_text : MetaInboundMessage
inbound_text = record {
  from = some "54911";
  id = some "wamid.in";
  timestamp = some (utf16 "2000000");
  type_ = some "text";
  text_body = some (utf16 "hola");
  image = none;
  video = none;
  audio = none;
  document = none;
  sticker = none;
  location = none;
  contacts = none;
  button_text = none;
  button_reply_title = none;
  list_reply_title = none;
  reaction_message_id = none;
  reaction_emoji = none;
  system_body = none;
  context_id = none;
  errors = [];
}
