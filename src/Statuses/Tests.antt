-- ===== src/Statuses/Tests.antt =====
-- Statuses of one message, step by step (src/webhook-worker/message-statuses.service.ts).
use whatsapp_inbox.Shared.{
  String, ◌≡◌, refl, ◌≢◌, Option, none, some, List, [], ◌∷◌, map, arith, eq_iff,
}
use whatsapp_inbox.Schema.{MessageStatus, Message}
use whatsapp_inbox.Db.{find_first}
use whatsapp_inbox.Db.Laws.{Pointwise}
use whatsapp_inbox.Fixtures.{account, conversation, outgoing, status_of}
use whatsapp_inbox.Numbers.{parse_epoch_seconds}
use whatsapp_inbox.Statuses.{Db, has_wamid, apply}
use whatsapp_inbox.Statuses.Rows.{Advances}
use whatsapp_inbox.Statuses.Laws.{
  apply-Advances, apply_idem, apply_comm, SameIfForeign, apply_isolated,
}
use whatsapp_inbox.Statuses.Effect.{Reached, apply-Reached}

abbrev db : Db
db = record {
  messages = outgoing ∷ record outgoing { id = "m2"; tenant_id = "otro" } ∷ [];
  conversations = conversation ∷ [];
}

after_read : Db
after_read = (apply account (status_of "wamid.1" "read") 7 db).0

abbrev statuses : List Message → List MessageStatus
statuses ms = map (λ m. m.status) ms

read_then_delivered :
    statuses (apply account (status_of "wamid.1" "delivered") 8 after_read).0.messages
    ≡ MessageStatus.read ∷ MessageStatus.pending ∷ []
unfolding after_read apply
read_then_delivered = refl

delivered_late_is_stamped :
    map
      (λ m. m.delivered_at)
      (apply account (status_of "wamid.1" "delivered") 8 after_read).0.messages
    ≡ some 1_000_001_000 ∷ none ∷ []
unfolding after_read apply parse_epoch_seconds
delivered_late_is_stamped = refl

one_event :
    map (λ e. e.status) (apply account (status_of "wamid.1" "read") 7 db).1
    ≡ MessageStatus.read ∷ []
unfolding apply
one_event = refl

unknown_wamid_is_no_event : (apply account (status_of "wamid.9" "read") 7 db) ≡ (db, [])
unfolding apply
unknown_wamid_is_no_event = refl

apply-Advances_example :
    Pointwise Advances db.messages (apply account (status_of "wamid.1" "read") 7 db).0.messages
apply-Advances_example = apply-Advances account (status_of "wamid.1" "read") 7 db

apply_idem_example :
    (apply account
      (status_of "wamid.1" "failed")
      9
      (apply account (status_of "wamid.1" "failed") 7 db).0).0
    ≡ (apply account (status_of "wamid.1" "failed") 7 db).0
apply_idem_example = apply_idem account (status_of "wamid.1" "failed") 7 9 db

delivered-ne-read : ◌≢◌ {A = Option String} (some "delivered") (some "read")
delivered-ne-read e = ground (arith, eq_iff "delivered" "read")

apply_comm_example :
    (apply account
      (status_of "wamid.1" "read")
      8
      (apply account (status_of "wamid.1" "delivered") 7 db).0).0
    ≡ (apply account
        (status_of "wamid.1" "delivered")
        7
        (apply account (status_of "wamid.1" "read") 8 db).0).0
apply_comm_example =
    apply_comm account (status_of "wamid.1" "delivered") (status_of "wamid.1" "read") 7 8 db
      delivered-ne-read refl

apply_isolated_example :
    Pointwise
      (SameIfForeign (λ m. m.tenant_id) "nova")
      db.messages
      (apply account (status_of "wamid.1" "read") 7 db).0.messages
    × Pointwise
        (SameIfForeign (λ c. c.tenant_id) "nova")
        db.conversations
        (apply account (status_of "wamid.1" "read") 7 db).0.conversations
apply_isolated_example = apply_isolated account (status_of "wamid.1" "read") 7 db

wamid-ne-nil : ◌≢◌ {A = String} "wamid.1" ""
wamid-ne-nil e = ground (arith, eq_iff "wamid.1" "")

read-ne-nil : ◌≢◌ {A = String} "read" ""
read-ne-nil e = ground (arith, eq_iff "read" "")

apply-Reached_example :
    (m' : Message) × (find_first
        (has_wamid "nova" "wamid.1")
        (apply account (status_of "wamid.1" "read") 7 db).0.messages
      ≡ some m')
    × Reached "read" m'
unfolding find_first
apply-Reached_example =
    apply-Reached account (status_of "wamid.1" "read") 7 db "wamid.1" "read" outgoing refl refl
      wamid-ne-nil read-ne-nil refl
