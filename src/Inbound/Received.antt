-- ===== src/Inbound/Received.antt =====
-- The effect of a message that comes in for the first time (`processMessage` of
-- src/webhook-worker/inbound-messages.service.ts).
use whatsapp_inbox.Shared.{
  ℕ, String, ◌≡◌, refl, sym, ap, ◌∙◌, ◌≢◌, true, false, ◌||◌, Option, none, some, List, [], ◌∷◌,
  ◌++◌, Memᴰ, arith, eq_iff, str_eq, and_true, get_or, Text,
}
use whatsapp_inbox.Json.{Json}
use whatsapp_inbox.Meta.{MetaContact, MetaInboundMessage}
use whatsapp_inbox.Numbers.{parse_epoch_seconds}
use whatsapp_inbox.Schema.{WhatsappAccount, Contact, Conversation, Message}
use whatsapp_inbox.Db.{create, upsert}
use whatsapp_inbox.Db.Laws.{find_first_sound}
use whatsapp_inbox.Db.Rows.{find_first-Memᴰ}
use whatsapp_inbox.Mapping.{MappedInboundMessage, map_inbound_message, build_message_preview}
use whatsapp_inbox.Inbound.{
  Db, NewIds, is_contact, is_thread, is_conversation, is_closed, new_contact, refresh_contact,
  new_conversation, restore, new_message, profile_of, receive, accept, process_message,
}
use whatsapp_inbox.Inbound.Upserts.{upsert-found, upsert-Settled, Settled-find_first}
use whatsapp_inbox.Inbound.Left.{refresh_idem, refresh-new, refresh-key}
use whatsapp_inbox.Inbound.Twice.{is_contact-new}
use whatsapp_inbox.Inbound.Counting.{counted, count_in_lem}
use whatsapp_inbox.Inbound.Steps.{counted-dates}
use whatsapp_inbox.Inbound.Rows.{
  update-Memᴰ, Received, counted-thread, counted-status, moved-window, FirstTime, not_taken,
}

-- What the second step hands on.
record Thread (a : WhatsappAccount) (contact : Contact) (threads : List Conversation × Conversation)
    : Type 0 where
  member : Memᴰ threads.1 threads.0
  key : is_thread a.tenant_id a.id contact.id threads.1 ≡ true
  live : threads.1.deleted_at ≡ none

thread_lem :
    (a : WhatsappAccount) (contact : Contact) (id : String) (cs : List Conversation)
    → Thread a contact (
        upsert
          (is_thread a.tenant_id a.id contact.id)
          (new_conversation id a.tenant_id a.id contact.id)
          restore
          cs)
unfolding new_conversation restore
thread_lem a contact id cs =
    let key = is_thread a.tenant_id a.id contact.id in
    let new = new_conversation id a.tenant_id a.id contact.id in
    let rows = (upsert key new restore cs).0 in
    let found =
      upsert-found key restore (λ _. refl) new cs
        (ground (
          arith,
          eq_iff a.tenant_id a.tenant_id,
          eq_iff a.id a.id,
          eq_iff contact.id contact.id,
        )) in
    let settled = upsert-Settled key restore (λ _. refl) new cs (λ _. refl) refl in
    record {
      member = find_first-Memᴰ key rows found;
      key = find_first_sound key rows found;
      live = sym (
          ap (λ (c : Conversation). c.deleted_at)
            (Settled-find_first key restore rows settled found));
    }

Memᴰ-last : {A : Type 0} (xs : List A) (x : A) → Memᴰ x (xs ++ x ∷ [])
Memᴰ-last [] x = Memᴰ.head refl
Memᴰ-last (y ∷ xs) x = Memᴰ.tail (Memᴰ-last xs x)

receive-Received :
    (a : WhatsappAccount) (w wa_id : String) (msg : MetaInboundMessage) (m : MappedInboundMessage)
    (t : ℕ) (mid : String) (contacts : List Contact) (contact : Contact)
    (threads : List Conversation × Conversation) (ms : List Message)
    → FirstTime a w ms
    → Memᴰ contact contacts
    → (contact.tenant_id ≡ a.tenant_id) × (contact.wa_id ≡ wa_id) × (contact.deleted_at ≡ none)
    → Thread a contact threads
    → Received a w wa_id t (receive a w msg m t mid contacts threads ms).0
unfolding receive create new_message
receive-Received a w wa_id msg m t mid contacts contact threads ms first mem own th =
    let c = threads.1 in
    let preview = build_message_preview m in
    let closed = is_closed c.status in
    let free = not_taken a w mid c.id msg m t ms first in
    let (key', live', id') =
      counted-thread a.tenant_id a.id contact.id t preview m.is_reaction closed c in
    let key = key' ∙ th.key in
    let here : is_conversation a.tenant_id c.id c ≡ true =
      ground (arith, eq_iff c.id c.id, th.key) in
    rw (receive, create, free)
      (record {
        contact = contact;
        conversation = counted t preview m.is_reaction closed c;
        message = new_message mid a c.id w msg m t;
        contact_stored = mem;
        conversation_stored =
            rw (count_in_lem a.tenant_id c.id t preview m.is_reaction closed threads.0) (
              update-Memᴰ (is_conversation a.tenant_id c.id)
                (counted t preview m.is_reaction closed) threads.0 th.member here);
        message_stored = Memᴰ-last ms (new_message mid a c.id w msg m t);
        from_sender = own;
        in_thread = (
          (eq_iff _ _).0 (and_true key).0,
          (eq_iff _ _).0 (and_true (and_true key).1).0,
          (eq_iff _ _).0 (and_true (and_true key).1).1,
          live' ∙ th.live,
        );
        is_message = (refl, refl, sym id', refl, refl);
        reopened = counted-status t preview m.is_reaction c;
        window =
            let (u, e, l) = moved-window c.last_inbound_at t in
            (u, (counted-dates t preview m.is_reaction closed c).0 ∙ e, l);
      })

refreshed_live :
    (profile : Option Text) (c : Contact) → refresh_contact profile c ≡ c → c.deleted_at ≡ none
unfolding refresh_contact
refreshed_live profile c e = sym (ap (λ (c : Contact). c.deleted_at) e)

accept-Received :
    (a : WhatsappAccount) (wamid wa_id : String) (profile : Option Text) (msg : MetaInboundMessage)
    (m : MappedInboundMessage) (t : ℕ) (ids : NewIds) (db : Db)
    → FirstTime a wamid db.messages
    → Received a wamid wa_id t (accept a wamid wa_id profile msg m t ids db).0
unfolding accept
accept-Received a wamid wa_id profile msg m t ids db first =
    let key = is_contact a.tenant_id wa_id in
    let new = new_contact ids.contact a.tenant_id wa_id profile in
    let contacts = upsert key new (refresh_contact profile) db.contacts in
    let refreshed = refresh-key a.tenant_id wa_id profile in
    let found =
      upsert-found key (refresh_contact profile) refreshed new db.contacts
        (is_contact-new ids.contact a.tenant_id wa_id profile) in
    let settled =
      upsert-Settled key (refresh_contact profile) refreshed new db.contacts (refresh_idem profile)
        (refresh-new ids.contact a.tenant_id wa_id profile) in
    let own = and_true (find_first_sound key contacts.0 found) in
    receive-Received a wamid wa_id msg m t ids.message contacts.0 contacts.1
      (upsert (is_thread a.tenant_id a.id contacts.1.id)
        (new_conversation ids.conversation a.tenant_id a.id contacts.1.id) restore db.conversations)
      db.messages first (find_first-Memᴰ key contacts.0 found)
      (
        (eq_iff _ _).0 own.0,
        (eq_iff _ _).0 own.1,
        refreshed_live profile contacts.1
            (Settled-find_first key (refresh_contact profile) contacts.0 settled found),
      )
      (thread_lem a contacts.1 ids.conversation db.conversations)

process-accept :
    (stringify : Json → Text) (a : WhatsappAccount) (senders : List MetaContact)
    (msg : MetaInboundMessage) (now : ℕ) (ids : NewIds) (db : Db) (wamid wa_id : String)
    → msg.id ≡ some wamid
    → msg.from ≡ some wa_id
    → wamid ≢ ""
    → wa_id ≢ ""
    → process_message stringify a senders msg now ids db
      ≡ accept a wamid wa_id
          (profile_of senders wa_id)
          msg
          (map_inbound_message stringify msg)
          (get_or (parse_epoch_seconds msg.timestamp) now)
          ids
          db
unfolding process_message
process-accept stringify a senders msg now ids db wamid wa_id i f ni nf =
    let w : get_or msg.id "" ≡ wamid = ap (λ o. get_or o "") i in
    let s : get_or msg.from "" ≡ wa_id = ap (λ o. get_or o "") f in
    let kept : (str_eq wamid "" || str_eq wa_id "") ≡ false =
      ground (arith, eq_iff wamid "", eq_iff wa_id "") in
    let kept' : (str_eq (get_or msg.id "") "" || str_eq (get_or msg.from "") "") ≡ false =
      rw (w, s) kept in
    rw kept' (λ j.
      accept a (w j) (s j) (profile_of senders (s j)) msg (map_inbound_message stringify msg)
        (get_or (parse_epoch_seconds msg.timestamp) now) ids db)

-- A message that has an id and a sender and whose id the tenant has not stored: after the delivery
-- it is stored, at the time that Meta gives, in a conversation of its sender with the account; the
-- sender and the conversation are not deleted, the conversation is not closed, and its window counts
-- from the message or from a later one.
pub process_message-Received :
    (stringify : Json → Text) (a : WhatsappAccount) (senders : List MetaContact)
    (msg : MetaInboundMessage) (now : ℕ) (ids : NewIds) (db : Db) (wamid wa_id : String)
    → msg.id ≡ some wamid
    → msg.from ≡ some wa_id
    → wamid ≢ ""
    → wa_id ≢ ""
    → FirstTime a wamid db.messages
    → Received a wamid wa_id
        (get_or (parse_epoch_seconds msg.timestamp) now)
        (process_message stringify a senders msg now ids db).0
process_message-Received stringify a senders msg now ids db wamid wa_id i f ni nf first =
    rw (process-accept stringify a senders msg now ids db wamid wa_id i f ni nf) (
      accept-Received a wamid wa_id (profile_of senders wa_id) msg
        (map_inbound_message stringify msg) (get_or (parse_epoch_seconds msg.timestamp) now) ids db
        first)
