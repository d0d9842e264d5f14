-- ===== src/Web/Tests.antt =====
-- Runs of the client at concrete inputs (web/src/lib).

use whatsapp_inbox.Shared.{
  ℕ, zero, suc, ◌≤◌, String, ◌≡◌, refl, sym, ap, ◌∙◌, ◌↔◌, ◌⊎◌, Bool, true, false, Option, none,
  some, List, [], ◌∷◌, Memᴰ, if◌then◌else◌, Memᴰ-single,
}
use whatsapp_inbox.Schema.{MessageDirection, MessageStatus}
use whatsapp_inbox.Order.Sorted.{IsSorted}
use whatsapp_inbox.Web.Types.{Message, Local}
use whatsapp_inbox.Web.Composer.{OutboxStatus}
use whatsapp_inbox.Web.Thread.{message_order, cleaned, has_key, upsert_message}
use whatsapp_inbox.Web.Thread.Merged.{message_id, IsThread, Consistent, Stale}
use whatsapp_inbox.Web.Thread.Arrivals.{Apart, upsert_message-Merges, upsert_message_comm}
use whatsapp_inbox.Web.State.{InboxState, initial_state, set, put_message}
use whatsapp_inbox.Web.Outbox.{Call, run_send}
use whatsapp_inbox.Web.Outbox.Settled.{
  Ends, ThreadSettled, Answers, Sound, attempts_of, run_send-Ends, calls_left,
}
use whatsapp_inbox.Web.Outbox.Sends.{Api, text, template, media, retry_send}
use whatsapp_inbox.Web.Outbox.Retried.{retry_send-Requests}

abbrev message : String → Option String → ℕ → Message
message id key at_ = record {
  id = id;
  conversation_id = "conv";
  wamid = none;
  client_dedup_key = key;
  direction = MessageDirection.outbound;
  type_ = "TEXT";
  status = MessageStatus.sent;
  body = some "hola";
  reply_to_wamid = none;
  template_name = none;
  template_language = none;
  media_mime_type = none;
  media_filename = none;
  media_size_bytes = none;
  media_status = none;
  transcription = none;
  is_auto_reply = false;
  error_code = none;
  error_title = none;
  error_detail = none;
  sent_by_user_id = none;
  timestamp = at_;
  delivered_at = none;
  read_at = none;
  failed_at = none;
  created_at = at_;
  local = none;
}

abbrev pending_row : Message
pending_row = record (message "local-k1" (some "k1") 5) {
  status = MessageStatus.pending;
  local = some Local.sending;
}

abbrev server_copy : Message
server_copy = message "srv1" (some "k1") 7

abbrev inbound_row : Message
inbound_row = message "in1" none 6

abbrev one_pending : List Message
one_pending = pending_row ∷ []

one_pending-IsThread : IsThread one_pending
one_pending-IsThread = record {
  ids = (tt, tt);
  keys = λ k x y i j e f. Memᴰ-single i ∙ sym (Memᴰ-single j);
}

Consistent-copy : Consistent server_copy one_pending
Consistent-copy z k e = ap (λ (w : Message). w.client_dedup_key) (Memᴰ-single k)

Consistent-inbound : Consistent inbound_row one_pending
Consistent-inbound z k e = absurd (cc (ap message_id (Memᴰ-single k), e))

copy-inbound-Apart : Apart server_copy inbound_row
unfolding has_key
copy-inbound-Apart = record { ids = λ e. absurd (cc e); keys = refl; keys' = refl }

upsert_message-Merges_example :
    IsThread (upsert_message one_pending server_copy)
    × IsSorted message_order (upsert_message one_pending server_copy)
    × ((z : Message)
        → Memᴰ z (upsert_message one_pending server_copy)
          ↔ ((z ≡ cleaned server_copy) ⊎ (Memᴰ z one_pending × ¬ Stale server_copy z)))
upsert_message-Merges_example =
    upsert_message-Merges one_pending server_copy one_pending-IsThread Consistent-copy

upsert_message_comm_example :
    upsert_message (upsert_message one_pending server_copy) inbound_row
    ≡ upsert_message (upsert_message one_pending inbound_row) server_copy
upsert_message_comm_example =
    upsert_message_comm one_pending server_copy inbound_row one_pending-IsThread Consistent-copy
      Consistent-inbound copy-inbound-Apart

-- The state after the row was put, while the first call is under way.
abbrev sending_state : InboxState
sending_state = record initial_state { messages = set initial_state.messages "conv" one_pending }

-- The first call throws, the second is answered with the server's copy; while each is under way the
-- socket brings a message of another conversation.
abbrev flaky : Call
flaky zero s = (put_message "other" inbound_row s, none)
flaky (suc n) s = (
  put_message "other" inbound_row s,
  some (record { http_status = 201; message = some server_copy; error = none }),
)

flaky-Answers : Answers "conv" "k1" "srv1" flaky
unfolding put_message
flaky-Answers zero s t = (t, tt)
flaky-Answers (suc n) s t = (t, (refl, refl))

one_pending-Sound : Sound "conv" "k1" "srv1" one_pending
one_pending-Sound = record {
  thread = one_pending-IsThread;
  own_id = λ z k e. ap (λ (w : Message). w.client_dedup_key) (Memᴰ-single k);
}

run_send-Ends_example :
    Ends
      (λ s' m.
        ThreadSettled "conv" "k1" "srv1" s'
        × (1 ≤ m)
        × (m ≤ calls_left (attempts_of "conv" "k1" "srv1" sending_state)))
      (run_send "conv" "k1" flaky sending_state)
run_send-Ends_example =
    run_send-Ends "conv" "k1" "srv1" flaky sending_state refl flaky-Answers one_pending-Sound

abbrev failed_state : InboxState
failed_state = record sending_state {
  outbox =
      set initial_state.outbox "k1"
        (record { client_dedup_key = "k1"; attempts = 2; status = OutboxStatus.failed_network });
}

abbrev failed_template : Message
failed_template = record pending_row {
  type_ = "TEMPLATE";
  status = MessageStatus.failed;
  local = some Local.failed_network;
}

-- Two servers that differ only in what they answer to templates.
abbrev template_server : Bool → Api
template_server b (text c k body) = flaky
template_server b (template c k id params) = λ n s. (if b then initial_state else s, none)
template_server b (media c k file caption) = flaky

retry_send-Requests_example :
    retry_send (template_server true) failed_template "k2" "k3" 9 failed_state
    ≡ retry_send (template_server false) failed_template "k2" "k3" 9 failed_state
retry_send-Requests_example =
    retry_send-Requests (template_server true) (template_server false) failed_template "k1" "k2"
      "k3" 9 failed_state refl refl refl (λ body. refl)
