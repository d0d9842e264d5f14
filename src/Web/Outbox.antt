-- ===== src/Web/Outbox.antt =====
-- Sending from the client: the optimistic message, the call with its retry, and what its outcome
-- does to the state (web/src/lib/store.ts). What others write to the state while a call is under
-- way is part of the argument `call`, which gives the state and the outcome of the n-th call;
-- an outcome `none` is a call that threw. A fresh key and the clock are arguments.
pub mod Sends
pub mod Settled
pub mod Retried
use Prim.Native.String.{◌++◌ as str_append}
use whatsapp_inbox.Shared.{
  ℕ, zero, suc, String, Bool, true, false, Option, none, some, List, map, if◌then◌else◌, get_or,
}
use whatsapp_inbox.Schema.{MessageStatus, MediaStatus, MessageDirection}
use whatsapp_inbox.Web.Types.{Message, Local, SendResult, SendError}
use whatsapp_inbox.Web.Composer.{
  OutboxEntry, OutboxStatus, start_send, on_network_error, should_auto_retry, next_network_attempt,
  on_domain_failure,
}
use whatsapp_inbox.Web.Thread.{has_key}
use whatsapp_inbox.Web.State.{set, delete, InboxState, thread_of, put_message}

unfoldable pub optimistic_message : String → String → ℕ → Message
optimistic_message conversation_id key now = record {
  id = str_append "local-" key;
  conversation_id = conversation_id;
  wamid = none;
  client_dedup_key = some key;
  direction = MessageDirection.outbound;
  type_ = "TEXT";
  status = MessageStatus.pending;
  body = none;
  reply_to_wamid = none;
  template_name = none;
  template_language = none;
  media_mime_type = none;
  media_filename = none;
  media_size_bytes = none;
  media_status = none;
  transcription = none;
  is_auto_reply = false;
  error_code = none;
  error_title = none;
  error_detail = none;
  sent_by_user_id = none;
  timestamp = now;
  delivered_at = none;
  read_at = none;
  failed_at = none;
  created_at = now;
  local = some Local.sending;
}

-- The rows with the key, marked as failed.
unfoldable pub fail_rows : String → (Message → Message) → List Message → List Message
unfolding has_key
fail_rows key mark list = map (λ m. if has_key key m then mark m else m) list

unfoldable pub mark_domain : String → Message → Message
mark_domain detail m = record m {
  status = MessageStatus.failed;
  error_detail = some detail;
  media_status = some MediaStatus.failed;
}

unfoldable pub mark_network : Message → Message
mark_network m = record m { status = MessageStatus.failed; local = some Local.failed_network }

unfoldable pub fail_thread : String → String → (Message → Message) → InboxState → InboxState
unfolding fail_rows
fail_thread conversation_id key mark s = record s {
  messages = set s.messages conversation_id (fail_rows key mark (thread_of s conversation_id));
}

-- The message of the result, or its error if there is none.
show_result : String → String → Option Message → Option SendError → InboxState → InboxState
unfolding put_message fail_thread mark_domain
show_result conversation_id key (some message) error s = put_message conversation_id message s
show_result conversation_id key none (some error) s =
    fail_thread conversation_id key (mark_domain error.message) s
show_result conversation_id key none none s = s

is_failed : MessageStatus → Bool
is_failed MessageStatus.failed = true
is_failed _ = false

failed_or_missing : Option Message → Bool
unfolding is_failed
failed_or_missing none = true
failed_or_missing (some m) = is_failed m.status

note_result : String → Option Message → Option SendError → InboxState → InboxState
unfolding failed_or_missing on_domain_failure start_send
note_result key message (some error) s = record s {
  outbox = set s.outbox key (
      if failed_or_missing message
      then on_domain_failure (get_or (s.outbox key) (start_send key))
      else record { client_dedup_key = key; attempts = 1; status = OutboxStatus.sending });
  last_error = some error.message;
}
note_result key message none s = record s { outbox = delete s.outbox key }

unfoldable pub apply_send_result : String → String → SendResult → InboxState → InboxState
unfolding show_result note_result
apply_send_result conversation_id key result s =
    note_result key result.message result.error
      (show_result conversation_id key result.message result.error s)

-- The state and what the n-th call came to.
abbrev pub Call : Type 0
Call = ℕ → InboxState → InboxState × Option SendResult

pub data Attempt : Type 0 where
  done : InboxState → Attempt
  again : OutboxEntry → InboxState → Attempt

give_up : String → String → OutboxEntry → InboxState → InboxState
unfolding fail_thread mark_network
give_up conversation_id key entry s =
    fail_thread conversation_id key mark_network (record s { outbox = set s.outbox key entry })

unfoldable pub after_call : String → String → OutboxEntry → InboxState × Option SendResult → Attempt
unfolding apply_send_result on_network_error should_auto_retry next_network_attempt give_up
after_call conversation_id key entry (s, some result) =
    done (apply_send_result conversation_id key result s)
after_call conversation_id key entry (s, none) =
    let failed = on_network_error entry in
    if should_auto_retry failed
    then again (next_network_attempt failed)
        (record s { outbox = set s.outbox key (next_network_attempt failed) })
    else done (give_up conversation_id key failed s)

-- The loop, on fuel: the state at its end, and the number of calls made.
unfoldable pub send_loop :
    ℕ → String → String → Call → ℕ → OutboxEntry → InboxState → Option (InboxState × ℕ)
unfolding after_call
send_loop zero conversation_id key call n entry s = none
send_loop (suc fuel) conversation_id key call n entry s =
    elim (after_call conversation_id key entry (call n s)) [
      | done s' ↦ some (s', suc n)
      | again entry' s' ↦ send_loop fuel conversation_id key call (suc n) entry' s'
    ]

abbrev pub send_fuel : ℕ
send_fuel = 3

unfoldable pub run_send : String → String → Call → InboxState → Option (InboxState × ℕ)
unfolding send_loop
run_send conversation_id key call s =
    let entry =
      get_or (s.outbox key)
        (record { client_dedup_key = key; attempts = 1; status = OutboxStatus.sending }) in
    send_loop send_fuel conversation_id key call 0 entry
      (record s { outbox = set s.outbox key entry })
