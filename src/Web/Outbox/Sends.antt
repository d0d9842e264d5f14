-- ===== src/Web/Outbox/Sends.antt =====
-- The sends of the client and the retry of a message that failed (web/src/lib/store.ts).
use mathlib.Core.Option
use package.text.Mathlib.Text.{starts_with}
use whatsapp_inbox.Shared.{ℕ, String, Option, none, some, List, str_eq, if◌then◌else◌, get_or}
use whatsapp_inbox.Schema.{MediaStatus}
use whatsapp_inbox.Web.Types.{Message}
use whatsapp_inbox.Web.Composer.{OutboxStatus, start_send, manual_retry}
use whatsapp_inbox.Web.State.{delete, InboxState, put_message}
use whatsapp_inbox.Web.Outbox.{optimistic_message, Call, run_send}

-- A chosen file.
pub record Upload : Type 0 where
  pub name : String
  pub mime : String
  pub size : ℕ

-- The bodies of the requests that send (`api.sendMessage`, `api.sendMedia`).
pub data SendBody : Type 0 where
  text : String → String → String → SendBody
  template : String → String → String → List String → SendBody
  media : String → String → Upload → Option String → SendBody

abbrev pub Api : Type 0
Api = SendBody → Call

unfoldable pub send_text : Api → String → String → String → ℕ → InboxState → Option (InboxState × ℕ)
unfolding start_send optimistic_message put_message run_send
send_text api conversation_id body fresh now s =
    let key = (start_send fresh).client_dedup_key in
    run_send conversation_id key (api (text conversation_id key body)) (
      put_message conversation_id
        (record (optimistic_message conversation_id key now) { body = some body }) s)

unfoldable pub send_template :
    Api → String → String → List String → String → String → ℕ → InboxState → Option (InboxState × ℕ)
unfolding start_send optimistic_message put_message run_send
send_template api conversation_id template_id params preview fresh now s =
    let key = (start_send fresh).client_dedup_key in
    run_send conversation_id key (api (template conversation_id key template_id params)) (
      put_message conversation_id
        (record (optimistic_message conversation_id key now) {
          type_ = "TEMPLATE";
          body = some preview;
        })
        s)

unfoldable pub kind_of : String → String
kind_of mime =
    if starts_with mime "image/"
    then "IMAGE"
    else if starts_with mime "video/"
    then "VIDEO"
    else if starts_with mime "audio/"
    then "AUDIO"
    else "DOCUMENT"

drop_progress : String → InboxState × ℕ → InboxState × ℕ
drop_progress key (s, n) = (record s { upload_progress = delete s.upload_progress key }, n)

-- The progress of the upload is written by `call`.
unfoldable pub send_media :
    Api → String → Upload → Option String → String → ℕ → InboxState → Option (InboxState × ℕ)
unfolding start_send optimistic_message put_message run_send kind_of drop_progress
send_media api conversation_id file caption fresh now s =
    let key = (start_send fresh).client_dedup_key in
    Option.map (drop_progress key) (
      run_send conversation_id key (api (media conversation_id key file caption)) (
        put_message conversation_id
          (record (optimistic_message conversation_id key now) {
            type_ = kind_of file.mime;
            body = caption;
            media_filename = some file.name;
            media_size_bytes = some file.size;
            media_mime_type = some file.mime;
            media_status = some MediaStatus.pending;
          })
          s))

-- `if (message.body) …`
unfoldable pub resend_body :
    Api → String → Option String → String → ℕ → InboxState → Option (InboxState × ℕ)
unfolding send_text
resend_body api conversation_id none fresh now s = some (s, 0)
resend_body api conversation_id (some body) fresh now s =
    if str_eq body "" then some (s, 0) else send_text api conversation_id body fresh now s

unfoldable pub retry_with_key :
    Api → Message → String → String → String → ℕ → InboxState → Option (InboxState × ℕ)
unfolding manual_retry run_send resend_body
retry_with_key api message key fresh fresh' now s =
    let current =
      get_or (s.outbox key)
        (record { client_dedup_key = key; attempts = 1; status = OutboxStatus.failed_domain }) in
    let next = manual_retry current fresh in
    if str_eq next.client_dedup_key key
    then run_send message.conversation_id key
        (api (text message.conversation_id key (get_or message.body ""))) s
    else resend_body api message.conversation_id message.body fresh' now s

unfoldable pub retry_of_key :
    Api → Message → Option String → String → String → ℕ → InboxState → Option (InboxState × ℕ)
unfolding retry_with_key
retry_of_key api message none fresh fresh' now s = some (s, 0)
retry_of_key api message (some key) fresh fresh' now s =
    if str_eq key "" then some (s, 0) else retry_with_key api message key fresh fresh' now s

-- The two keys are those of `manualRetry` and of the new send.
unfoldable pub retry_send :
    Api → Message → String → String → ℕ → InboxState → Option (InboxState × ℕ)
unfolding retry_of_key
retry_send api message fresh fresh' now s =
    retry_of_key api message message.client_dedup_key fresh fresh' now s
