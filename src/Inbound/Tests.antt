-- ===== src/Inbound/Tests.antt =====
-- A customer writes twice, and Meta delivers the first message two times.
use whatsapp_inbox.Shared.{◌≤◌, ◌≡◌, refl, some, [], ◌∷◌, arith, eq_iff, length, Text, utf16}
use whatsapp_inbox.Json.{Json}
use whatsapp_inbox.Meta.{MetaInboundMessage}
use whatsapp_inbox.Numbers.{parse_epoch_seconds}
use whatsapp_inbox.Db.{find_first, update_many, create, upsert, count}
use whatsapp_inbox.Mapping.{
  map_meta_message_type, map_inbound_message, truncate, preview_of, build_message_preview,
  wa_id_to_e164, preview_max_chars,
}
use whatsapp_inbox.Fixtures.{account, contact, conversation, inbound_text}
use whatsapp_inbox.Inbound.{
  Db, NewIds, new_contact, refresh_contact, new_conversation, restore, new_message, touch_message,
  touch_inbound, bump, count_in, effects, receive, accept, process_message,
}
use whatsapp_inbox.Mapping.Laws.{length-build_message_preview}
use whatsapp_inbox.Inbound.Twice.{process_message_idem}
use whatsapp_inbox.Inbound.Counting.{unread, received}
use whatsapp_inbox.Inbound.Unread.{Balanced, Deliveries, Deliveries-unread}
use whatsapp_inbox.Inbound.Grows.{Grows, process_message-Grows}
use whatsapp_inbox.Inbound.Rows.{Received}
use whatsapp_inbox.Inbound.Received.{process_message-Received}

abbrev no_json : Json → Text
no_json v = []

abbrev start : Db
start = record { contacts = contact ∷ []; conversations = conversation ∷ []; messages = [] }

abbrev ids : NewIds
ids = record { contact = "ct9"; conversation = "cv9"; message = "m9" }

abbrev other_ids : NewIds
other_ids = record { contact = "ct8"; conversation = "cv8"; message = "m8" }

abbrev thumbs_up : MetaInboundMessage
thumbs_up = record inbound_text {
  id = some "wamid.up";
  type_ = some "reaction";
  reaction_emoji = some (utf16 "👍");
}

abbrev once : Db
once = (process_message no_json account [] inbound_text 5 ids start).0

abbrev twice : Db
twice = (process_message no_json account [] inbound_text 9 other_ids once).0

runs : Unit {0}
unfolding find_first update_many create upsert count map_meta_message_type map_inbound_message
    truncate preview_of build_message_preview wa_id_to_e164 new_contact refresh_contact
    new_conversation restore new_message touch_message touch_inbound bump count_in effects receive
    accept process_message parse_epoch_seconds unread received
runs = tt

counters :
    (unread "cv1" once.conversations ≡ 1)
    × (unread "cv1" twice.conversations ≡ 1)
    × (received "cv1" twice.messages ≡ 1)
unfolding runs
counters = (refl, refl, refl)

reactions_do_not_count :
    unread "cv1" (process_message no_json account [] thumbs_up 5 ids start).0.conversations ≡ 0
unfolding runs
reactions_do_not_count = refl

preview : build_message_preview (map_inbound_message no_json thumbs_up) ≡ utf16 "Reaccionó 👍"
unfolding runs
preview = refl

process_message_idem_example :
    process_message no_json account [] inbound_text 9 other_ids once ≡ (once, [])
process_message_idem_example =
    process_message_idem no_json account [] inbound_text 5 9 ids other_ids start

process_message-Grows_example : Grows "nova" start once
process_message-Grows_example = process_message-Grows no_json account [] inbound_text 5 ids start

Deliveries-unread_example : Balanced start twice
unfolding runs
Deliveries-unread_example =
    Deliveries-unread {stringify = no_json} {db = start} {db' = twice} (tt, tt)
      (Deliveries.then
        (Deliveries.then Deliveries.nothing account [] inbound_text 5 ids
          ((λ e. ground (arith, eq_iff "cv1" "cv9")), tt))
        account [] inbound_text 9 other_ids ((λ e. ground (arith, eq_iff "cv1" "cv8")), tt))

process_message-Received_example : Received account "wamid.in" "54911" 2_000_000_000 once
unfolding runs
process_message-Received_example =
    process_message-Received no_json account [] inbound_text 5 ids start "wamid.in" "54911" refl
      refl (λ e. ground (arith, eq_iff "wamid.in" "")) (λ e. ground (arith, eq_iff "54911" ""))
      (λ m k. elim k [ ])

length-build_message_preview_example :
    length (build_message_preview (map_inbound_message no_json thumbs_up)) ≤ preview_max_chars
length-build_message_preview_example =
    length-build_message_preview (map_inbound_message no_json thumbs_up)
