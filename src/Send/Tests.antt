-- ===== src/Send/Tests.antt =====
-- A cashier answers a customer: the window is open, then Meta says that it is not
-- (src/messaging/send-message.service.ts).
use whatsapp_inbox.Shared.{
  ℕ, ◌+◌, ◌≡◌, refl, ◌⊎◌, false, Option, none, some, [], ◌∷◌, arith, ltb, if◌then◌else◌, length,
  utf16,
}
use whatsapp_inbox.Fixtures.{account, contact, conversation, outgoing}
use whatsapp_inbox.Db.{find_first, update_many, create}
use whatsapp_inbox.Window.{window_expires_at, is_window_open, expired_last_inbound_at}
use whatsapp_inbox.Templates.{match_variable, count_template_variables, render_template_body}
use whatsapp_inbox.SendErrors.{map_meta_send_error, map_transport_send_error}
use whatsapp_inbox.Send.{
  Db, Content, SendRequest, Payload, SendOutcome, Prepared, prepare, prepare_text, prepare_media,
  prepare_template, window_expired_outcome,
}
use whatsapp_inbox.Send.Steps.{Attempt, new_message, persist, begin, Answer, call_meta_with_retry}
use whatsapp_inbox.Send.Settle.{
  live_message, mark_failed, rewind, expire_token, fail, preview_of, touch_message, touch_outbound,
  succeed, settle, World, finish, send, not_after,
}
use whatsapp_inbox.Send.Calls.{Called, Repeated, send-Called, send-Repeated}
use whatsapp_inbox.Window.{is_window_open}
use whatsapp_inbox.Inbound.{touch_inbound}
use whatsapp_inbox.Send.Reopened.{rewind_reopens}
use whatsapp_inbox.Send.Settled.{Settles, settle-Settles}
use whatsapp_inbox.Send.Reported.{Result, settle-Result}

abbrev start : Db
start = record {
  contacts = contact ∷ [];
  accounts = account ∷ [];
  conversations = conversation ∷ [];
  messages = outgoing ∷ [];
  templates = [];
}

abbrev request : SendRequest
request = record { client_dedup_key = "k2"; content = Content.text (utf16 "hola") false }

abbrev repeated : SendRequest
repeated = record request { client_dedup_key = "k1" }

abbrev undisturbed : Db → Db
undisturbed db = db

abbrev graph : ℕ → ℕ → Answer
graph status code =
    Answer.graph_error
      (record { code = some code; http_status = status; meta_message = none; details = none })

abbrev meta : Answer → Answer → World
meta first second = record {
  before_create = undisturbed;
  during_call = undisturbed;
  first = first;
  second = second;
  started = 1_000_001_000;
  finished = 1_000_002_000;
  new_id = "m2";
}

runs : Unit {0}
unfolding find_first update_many create window_expires_at is_window_open expired_last_inbound_at
    match_variable count_template_variables render_template_body map_meta_send_error
    map_transport_send_error prepare prepare_text prepare_media prepare_template
    window_expired_outcome new_message persist begin call_meta_with_retry live_message mark_failed
    rewind expire_token fail preview_of touch_message touch_outbound succeed settle finish send
runs = tt

abbrev later : World
later = record (meta (Answer.sent none) (Answer.sent none)) {
  started = 1_000_003_000;
  new_id = "m3";
}

abbrev http_of : Option SendOutcome → ℕ
http_of none = 500
http_of (some o) = o.http_status

one_retry :
    let s =
      send "nova" "cv1" request none
        (meta (graph 429 130429) (Answer.sent (some "wamid.9")))
        start in
    (s.calls ≡ Payload.text "54911" (utf16 "hola") ∷ Payload.text "54911" (utf16 "hola") ∷ [])
    × (http_of s.result ≡ 201)
    × (length s.after.messages ≡ 2)
unfolding runs
one_retry = (refl, refl, refl)

-- The customer's last message is rewound, and the next free text is refused without a call.
meta_closes :
    let s = send "nova" "cv1" request none (meta (graph 400 131047) (Answer.sent none)) start in
    let next = send "nova" "cv1" (record request { client_dedup_key = "k3" }) none later s.after in
    (http_of s.result ≡ 422) × (http_of next.result ≡ 422) × (next.calls ≡ [])
unfolding runs
meta_closes = (refl, refl, refl)

variables :
    (render_template_body
        (utf16 "Hola {{ 1 }}, van {{2}} y {{1}}{{x}}")
        (utf16 "Ana" ∷ utf16 "3" ∷ [])
      ≡ utf16 "Hola Ana, van 3 y Ana{{x}}")
    × (count_template_variables (utf16 "Hola {{ 1 }}, van {{2}} y {{1}}{{x}}") ≡ 2)
unfolding runs
variables = (refl, refl)

send-Called_example :
    let s = send "nova" "cv1" request none (meta (graph 429 130429) (Answer.sent none)) start in
    ((s.calls ≡ []) × (s.after ≡ start))
    ⊎ Called "nova" "cv1" request (meta (graph 429 130429) (Answer.sent none)) start s
send-Called_example =
    send-Called "nova" "cv1" request none (meta (graph 429 130429) (Answer.sent none)) start

send-Repeated_example :
    let s = send "nova" "cv1" repeated none (meta (Answer.sent none) (Answer.sent none)) start in
    (s.calls ≡ []) × (s.after ≡ start) × Repeated "nova" "cv1" start outgoing s.result
unfolding runs
send-Repeated_example =
    send-Repeated "nova" "cv1" repeated none (meta (Answer.sent none) (Answer.sent none)) start
      outgoing refl

abbrev prepared : Prepared
prepared = prepare_text contact (utf16 "hola")

abbrev attempt : Attempt
attempt = record {
  message_id = "m1";
  conversation = conversation;
  account = account;
  prepared = prepared;
  started_at = 1_000_001_000;
}

settle-Settles_example :
    Settles "nova" attempt
      (graph 401 190)
      1_000_002_000
      start
      (settle "nova" attempt (graph 401 190) 1_000_002_000 start).0
settle-Settles_example = settle-Settles "nova" attempt (graph 401 190) 1_000_002_000 start

settle-Result_example :
    let r = settle "nova" attempt (graph 401 190) 1_000_002_000 start in
    Result "nova" attempt (graph 401 190) 1_000_002_000 outgoing (r.0, r.1)
unfolding runs
settle-Result_example =
    settle-Result "nova" attempt (graph 401 190) 1_000_002_000 start outgoing refl

rewind_reopens_example :
    ((x : ℕ)
      → is_window_open (rewind 1_000_001_000 1_050_000_000 conversation) x ≡ (
          if not_after conversation.last_inbound_at 1_000_001_000
          then ltb x 1_050_000_000
          else is_window_open conversation x))
    × ((x : ℕ)
        → is_window_open
            (touch_inbound 1_050_000_007 (rewind 1_000_001_000 1_050_000_000 conversation))
            x
          ≡ ltb x (1_050_000_007 + 86_400_000))
rewind_reopens_example =
    rewind_reopens conversation 1_000_001_000 1_050_000_000 1_050_000_007 (omega arith)
      (omega arith) refl
