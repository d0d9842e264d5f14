-- ===== src/Send/Settle.antt =====
-- What follows the answer of Meta, and `send` as a whole (the steps 4 and 5 of
-- src/messaging/send-message.service.ts).
use whatsapp_inbox.Shared.{
  ℕ, zero, suc, ◌-◌, String, Bool, true, false, ◌&&◌, Option, none, some, List, [], ◌∷◌, ◌++◌, ltb,
  leb, str_eq, if◌then◌else◌, is_none, length, take, Text, utf16,
}
use whatsapp_inbox.Schema.{
  WhatsappAccountStatus, MessageStatus, WhatsappAccount, Conversation, Message,
}
use whatsapp_inbox.Db.{find_first, update_many}
use whatsapp_inbox.Window.{expired_last_inbound_at}
use whatsapp_inbox.SendErrors.{
  SendErrorCode, MappedSendError, map_meta_send_error, map_transport_send_error, code_is,
  meta_error_window_expired,
}
use whatsapp_inbox.Send.{
  Db, preview_max_chars, SendRequest, Payload, OutcomeCode, OutcomeMessage, SendOutcome,
}
use whatsapp_inbox.Send.Steps.{
  is_conversation, is_message, Attempt, Begun, begin, Answer, call_meta_with_retry,
}

pub data Event : Type 0 where
  message_created : String → Message → Event
  conversation_updated : Conversation → Event

unfoldable pub live_message : String → String → List Message → Option Message
unfolding find_first
live_message tenant_id id messages =
    find_first (λ m. is_none m.deleted_at && is_message tenant_id id m) messages

message_events : String → Option Message → List Event
message_events conversation_id none = []
message_events conversation_id (some m) = Event.message_created conversation_id m ∷ []

conversation_events : String → String → List Conversation → List Event
unfolding find_first
conversation_events tenant_id id conversations =
    elim (find_first (λ c. is_none c.deleted_at && is_conversation tenant_id id c) conversations) [
      | none ↦ []
      | some c ↦ Event.conversation_updated c ∷ []
    ]

-- `OR: [{ field: null }, { field: { lte: t } }]`
abbrev pub not_after : Option ℕ → ℕ → Bool
not_after none t = true
not_after (some s) t = leb s t

unfoldable pub mark_failed : MappedSendError → ℕ → Message → Message
mark_failed e now m = record m {
  status = MessageStatus.failed;
  failed_at = some now;
  error_code = e.meta_code;
  error_title = e.meta_title;
  error_detail = e.meta_detail;
}

-- Only if no inbound message came after the attempt began.
unfoldable pub rewind : ℕ → ℕ → Conversation → Conversation
unfolding expired_last_inbound_at
rewind started_at now c =
    if not_after c.last_inbound_at started_at
    then record c { last_inbound_at = some (expired_last_inbound_at now) }
    else c

unfoldable pub expire_token : MappedSendError → ℕ → WhatsappAccount → WhatsappAccount
expire_token e now a = record a {
  status = WhatsappAccountStatus.token_expired;
  last_error_code = e.meta_code;
  last_error_at = some now;
}

abbrev pub is_account_error : SendErrorCode → Bool
is_account_error SendErrorCode.account_error = true
is_account_error _ = false

unfoldable pub fail : String → Attempt → MappedSendError → ℕ → Db → Db × SendOutcome × List Event
unfolding update_many mark_failed rewind expire_token message_events conversation_events
fail tenant_id attempt e now db =
    let messages =
      update_many (is_message tenant_id attempt.message_id) (mark_failed e now) db.messages in
    let expired = code_is e.meta_code meta_error_window_expired in
    let conversations =
      (if expired
        then update_many (is_conversation tenant_id attempt.conversation.id)
            (rewind attempt.started_at now) db.conversations
        else db.conversations) in
    let accounts =
      (if is_account_error e.domain_code
        then update_many (λ a. str_eq a.id attempt.account.id) (expire_token e now) db.accounts
        else db.accounts) in
    let failed = live_message tenant_id attempt.message_id messages in
    (
      record db { messages = messages; conversations = conversations; accounts = accounts },
      record {
        http_status = e.http_status;
        message = failed;
        error = some (record {
          code = OutcomeCode.domain e.domain_code;
          message = OutcomeMessage.user e.user_message;
          window_expires_at = none;
        });
      },
      message_events attempt.conversation.id failed
          ++ (if expired
              then conversation_events tenant_id attempt.conversation.id conversations
              else []),
    )

unfoldable pub preview_of : Text → Text
preview_of s =
    if ltb preview_max_chars (length s) then take (preview_max_chars - 1) s ++ utf16 "…" else s

unfoldable pub touch_message : ℕ → Text → Conversation → Conversation
touch_message now preview c =
    if not_after c.last_message_at now
    then record c { last_message_at = some now; last_message_preview = some preview }
    else c

unfoldable pub touch_outbound : ℕ → Conversation → Conversation
touch_outbound now c =
    if not_after c.last_outbound_at now then record c { last_outbound_at = some now } else c

unfoldable pub succeed : String → Attempt → Option String → ℕ → Db → Db × SendOutcome × List Event
unfolding update_many preview_of touch_message touch_outbound message_events conversation_events
succeed tenant_id attempt wamid now db =
    let messages =
      update_many (is_message tenant_id attempt.message_id) (λ m. record m { wamid = wamid })
        db.messages in
    let here = is_conversation tenant_id attempt.conversation.id in
    let shown =
      update_many here (touch_message now (preview_of attempt.prepared.preview)) db.conversations in
    let conversations = update_many here (touch_outbound now) shown in
    let sent = live_message tenant_id attempt.message_id messages in
    (
      record db { messages = messages; conversations = conversations },
      record { http_status = 201; message = sent; error = none },
      message_events attempt.conversation.id sent
          ++ conversation_events tenant_id attempt.conversation.id conversations,
    )

unfoldable pub settle : String → Attempt → Answer → ℕ → Db → Db × SendOutcome × List Event
unfolding fail succeed map_meta_send_error map_transport_send_error
settle tenant_id attempt (Answer.sent wamid) now db = succeed tenant_id attempt wamid now db
settle tenant_id attempt (Answer.graph_error e) now db =
    fail tenant_id attempt (map_meta_send_error e) now db
settle tenant_id attempt (Answer.transport_error detail) now db =
    fail tenant_id attempt (map_transport_send_error detail) now db

-- What happens around a request: what others do to the tables before the row is created and while
-- Meta is called, Meta's answers, and the clock.
pub record World : Type 0 where
  pub before_create : Db → Db
  pub during_call : Db → Db
  pub first : Answer
  pub second : Answer
  pub started : ℕ
  pub finished : ℕ
  pub new_id : String

pub record Sent : Type 0 where
  pub result : Option SendOutcome  -- `none` where an exception is thrown
  pub calls : List Payload
  pub at_call : Db  -- the tables when Meta is called
  pub after : Db
  pub events : List Event

abbrev pub calls_of : ℕ → Payload → List Payload
calls_of zero p = []
calls_of (suc n) p = p ∷ calls_of n p

-- `later` holds the tables when the row is created.
unfoldable pub finish : String → World → Db → Begun → Sent
unfolding settle call_meta_with_retry
finish tenant_id w later (Begun.threw e) = record {
  result = none;
  calls = [];
  at_call = later;
  after = later;
  events = [];
}
finish tenant_id w later (Begun.answered o) = record {
  result = some o;
  calls = [];
  at_call = later;
  after = later;
  events = [];
}
finish tenant_id w later (Begun.pending messages attempt) =
    let stored = record later { messages = messages } in
    let (answer, n) = call_meta_with_retry w.first w.second in
    let (db', outcome, events) =
      settle tenant_id attempt answer w.finished (w.during_call stored) in
    record {
      result = some outcome;
      calls = calls_of n attempt.prepared.payload;
      at_call = stored;
      after = db';
      events = events;
    }

unfoldable pub send : String → String → SendRequest → Option String → World → Db → Sent
unfolding begin finish
send tenant_id conversation_id request sent_by w db =
    let later = w.before_create db in
    finish tenant_id w later
      (begin tenant_id conversation_id request sent_by w.started w.new_id db later.messages)
