-- ===== src/Send/Steps.antt =====
-- The steps of `send` and their order (src/messaging/send-message.service.ts).
use whatsapp_inbox.Shared.{
  ℕ, String, Bool, false, ◌&&◌, ◌||◌, Option, none, some, List, str_eq, opt_is, if◌then◌else◌,
  is_none, Text,
}
use whatsapp_inbox.Schema.{
  MessageDirection, MessageStatus, MediaStatus, WhatsappAccount, Contact, Conversation, Message,
}
use whatsapp_inbox.Db.{find_first, create}
use whatsapp_inbox.SendErrors.{GraphApiError, code_is, meta_error_rate_limited}
use whatsapp_inbox.Send.{
  Db, MediaRequest, Content, SendRequest, SendOutcome, NotFound, Prepared, Preparation, prepare,
}

-- Reads leave soft-deleted rows out.
abbrev pub is_conversation : String → String → Conversation → Bool
is_conversation tenant_id id c = str_eq c.id id && str_eq c.tenant_id tenant_id

abbrev pub is_message : String → String → Message → Bool
is_message tenant_id id m = str_eq m.id id && str_eq m.tenant_id tenant_id

abbrev pub is_contact : String → String → Contact → Bool
is_contact tenant_id id c = is_none c.deleted_at && (str_eq c.id id && str_eq c.tenant_id tenant_id)

abbrev pub has_key : String → String → Message → Bool
has_key tenant_id key m =
    is_none m.deleted_at && (str_eq m.tenant_id tenant_id && opt_is m.client_dedup_key key)

-- The primary key, and the unique constraint on (tenantId, clientDedupKey).
abbrev opt_same : Option String → Option String → Bool
opt_same a none = false
opt_same a (some k) = opt_is a k

abbrev pub clash : Message → Message → Bool
clash row x =
    str_eq x.id row.id
    || (str_eq x.tenant_id row.tenant_id && opt_same x.client_dedup_key row.client_dedup_key)

abbrev pub answered_with : Option Message → SendOutcome
answered_with message = record { http_status = 200; message = message; error = none }

pub record Attempt : Type 0 where
  pub message_id : String
  pub conversation : Conversation
  pub account : WhatsappAccount
  pub prepared : Prepared
  pub started_at : ℕ

pub data Begun : Type 0 where
  threw : NotFound → Begun
  answered : SendOutcome → Begun
  pending : List Message → Attempt → Begun

abbrev is_auto : Content → Bool
is_auto (Content.text body auto) = auto
is_auto _ = false

abbrev pub forced_id : Option MediaRequest → String → String
forced_id none id = id
forced_id (some r) id = r.forced_message_id

abbrev media_field {ℓ} : {A : Type ℓ} → (MediaRequest → A) → Option MediaRequest → Option A
media_field f none = none
media_field f (some r) = some (f r)

abbrev optional {ℓ} : {A : Type ℓ} → (MediaRequest → Option A) → Option MediaRequest → Option A
optional f none = none
optional f (some r) = f r

unfoldable pub new_message :
    String
    → String
    → String
    → WhatsappAccount
    → Conversation
    → SendRequest
    → Prepared
    → Option String
    → ℕ
    → Message
new_message id tenant_id key account conversation request p sent_by now = record {
  id = id;
  tenant_id = tenant_id;
  conversation_id = conversation.id;
  whatsapp_account_id = account.id;
  wamid = none;
  client_dedup_key = some key;
  direction = MessageDirection.outbound;
  type_ = p.message_type;
  status = MessageStatus.pending;
  body = p.body;
  reply_to_wamid = none;
  template_name = p.template_name;
  template_language = p.template_language;
  template_params = p.template_params;
  media_id = media_field (λ r. r.meta_media_id) p.media_fields;
  media_url = media_field (λ r. r.media_key) p.media_fields;
  media_mime_type = media_field (λ r. r.media_mime_type) p.media_fields;
  media_filename = optional (λ r. r.filename) p.media_fields;
  media_size_bytes = media_field (λ r. r.media_size_bytes) p.media_fields;
  media_sha256 = none;
  media_status = media_field (λ r. MediaStatus.downloaded) p.media_fields;
  is_auto_reply = is_auto request.content;
  billable = none;
  pricing_model = none;
  pricing_category = none;
  pricing_type = none;
  error_code = none;
  error_title = none;
  error_detail = none;
  sent_by_user_id = sent_by;
  timestamp = now;
  delivered_at = none;
  read_at = none;
  failed_at = none;
  deleted_at = none;
  raw = none;
}

-- The third step, on the messages as they are when the row is created; another request may have
-- created it meanwhile.
unfoldable pub persist :
    String
    → SendRequest
    → Option String
    → ℕ
    → String
    → Conversation
    → WhatsappAccount
    → Prepared
    → List Message
    → Begun
unfolding create new_message find_first
persist tenant_id request sent_by now new_id conversation account p messages =
    let id = forced_id p.media_fields new_id in
    let row =
      new_message id tenant_id request.client_dedup_key account conversation request p sent_by
        now in
    elim (create clash row messages) [
      | none ↦
          Begun.answered
            (answered_with (find_first (has_key tenant_id request.client_dedup_key) messages))
      | some messages' ↦ Begun.pending messages' (record {
        message_id = id;
        conversation = conversation;
        account = account;
        prepared = p;
        started_at = now;
      })
    ]

abbrev pub prepared_then : (Prepared → Begun) → Preparation → Begun
prepared_then next (Preparation.threw e) = Begun.threw e
prepared_then next (Preparation.refused o) = Begun.answered o
prepared_then next (Preparation.prepared p) = next p

-- `db` is read first, `later` holds the messages when the row is created.
unfoldable pub begin :
    String → String → SendRequest → Option String → ℕ → String → Db → List Message → Begun
unfolding find_first prepare persist
begin tenant_id conversation_id request sent_by now new_id db later =
    elim (find_first (λ c. is_none c.deleted_at && is_conversation tenant_id conversation_id c)
      db.conversations) [
        | none ↦ Begun.threw NotFound.no_conversation
        | some conversation ↦
            elim (find_first (is_contact tenant_id conversation.contact_id) db.contacts) [
              | none ↦ Begun.threw NotFound.no_contact_or_account
              | some contact ↦
                  elim (find_first (λ a. str_eq a.id conversation.whatsapp_account_id)
                    db.accounts) [
                      | none ↦ Begun.threw NotFound.no_contact_or_account
                      | some account ↦
                          elim (find_first (has_key tenant_id request.client_dedup_key)
                            db.messages) [
                              | some existing ↦ Begun.answered (answered_with (some existing))
                              | none ↦
                                  prepared_then
                                    (λ p.
                                      persist tenant_id request sent_by now new_id conversation
                                        account p later)
                                    (prepare tenant_id conversation contact request.content now
                                      db.templates)
                            ]
                    ]
            ]
      ]

-- What Meta, or the network, answers to a call.
pub data Answer : Type 0 where
  sent : Option String → Answer
  graph_error : GraphApiError → Answer
  transport_error : Text → Answer

abbrev pub is_rate_limited : Answer → Bool
is_rate_limited (Answer.graph_error e) = code_is e.code meta_error_rate_limited
is_rate_limited _ = false

-- The answer that counts and the number of calls; `second` is the answer to a call that follows.
unfoldable pub call_meta_with_retry : Answer → Answer → Answer × ℕ
call_meta_with_retry first second = if is_rate_limited first then (second, 2) else (first, 1)
