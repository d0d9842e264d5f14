-- ===== src/Inbound/Twice.antt =====
-- Messages that Meta sends again (the steps 1 to 3 of `processMessage` in
-- src/webhook-worker/inbound-messages.service.ts).
use whatsapp_inbox.Shared.{
  ℕ, String, ◌≡◌, refl, sym, subst, inl, inr, true, ◌||◌, Option, some, List, [], arith, eq_iff,
  str_eq, Bool-cases, get_or, any, Text,
}
use whatsapp_inbox.Json.{Json}
use whatsapp_inbox.Meta.{MetaContact, MetaInboundMessage}
use whatsapp_inbox.Numbers.{parse_epoch_seconds}
use whatsapp_inbox.Schema.{WhatsappAccount, Contact}
use whatsapp_inbox.Db.{find_first, upsert}
use whatsapp_inbox.Mapping.{MappedInboundMessage, map_inbound_message}
use whatsapp_inbox.Inbound.{
  Db, NewIds, is_contact, is_thread, same_wamid, new_contact, refresh_contact, new_conversation,
  restore, new_message, profile_of, accept, process_message,
}
use whatsapp_inbox.Inbound.Upserts.{
  Settled, upsert-found, upsert-Settled, upsert_again, Settled-find_first,
}
use whatsapp_inbox.Inbound.Left.{
  Ready, Ready-upsert, refresh_idem, refresh-new, refresh-key, receive-Left, receive-taken,
}

-- The tables know the message: its sender, their conversation, and the message itself.
record Known (a : WhatsappAccount) (w wa_id : String) (profile : Option Text) (db : Db)
    : Type 0 where
  contact : Contact
  settled : Settled (is_contact a.tenant_id wa_id) (refresh_contact profile) db.contacts
  found : find_first (is_contact a.tenant_id wa_id) db.contacts ≡ some contact
  ready : Ready a.tenant_id a.id contact.id db.conversations
  taken :
      (id c : String) (msg : MetaInboundMessage) (m : MappedInboundMessage) (t : ℕ)
      → any (same_wamid (new_message id a c w msg m t)) db.messages ≡ true

pub is_contact-new :
    (id tenant wa_id : String) (profile : Option Text)
    → is_contact tenant wa_id (new_contact id tenant wa_id profile) ≡ true
unfolding new_contact
is_contact-new id tenant wa_id profile = ground (arith, eq_iff tenant tenant, eq_iff wa_id wa_id)

accept-Known :
    (a : WhatsappAccount) (w wa_id : String) (profile : Option Text) (msg : MetaInboundMessage)
    (m : MappedInboundMessage) (t : ℕ) (ids : NewIds) (db : Db)
    → Known a w wa_id profile (accept a w wa_id profile msg m t ids db).0
unfolding accept
accept-Known a w wa_id profile msg m t ids db =
    let key = is_contact a.tenant_id wa_id in
    let new = new_contact ids.contact a.tenant_id wa_id profile in
    let contacts = upsert key new (refresh_contact profile) db.contacts in
    let threads =
      upsert (is_thread a.tenant_id a.id contacts.1.id)
        (new_conversation ids.conversation a.tenant_id a.id contacts.1.id) restore
        db.conversations in
    let left =
      receive-Left a w msg m t ids.message contacts.1.id contacts.0 threads.0 threads.1 db.messages
        (Ready-upsert a.tenant_id a.id contacts.1.id ids.conversation db.conversations) in
    record {
      contact = contacts.1;
      settled = subst (Settled key (refresh_contact profile)) (sym left.same_contacts) (
          upsert-Settled key (refresh_contact profile) (refresh-key a.tenant_id wa_id profile) new
            db.contacts (refresh_idem profile) (refresh-new ids.contact a.tenant_id wa_id profile));
      found =
          subst (λ cs. find_first key cs ≡ some contacts.1) (sym left.same_contacts)
            (upsert-found key (refresh_contact profile) (refresh-key a.tenant_id wa_id profile) new
              db.contacts (is_contact-new ids.contact a.tenant_id wa_id profile));
      ready = left.ready;
      taken = left.taken;
    }

accept-again :
    (a : WhatsappAccount) (w wa_id : String) (profile : Option Text) (msg : MetaInboundMessage)
    (m : MappedInboundMessage) (t : ℕ) (ids : NewIds) (db : Db)
    → Known a w wa_id profile db
    → accept a w wa_id profile msg m t ids db ≡ (db, [])
unfolding accept
accept-again a w wa_id profile msg m t ids db k =
    let contacts =
      upsert_again (is_contact a.tenant_id wa_id) (refresh_contact profile)
        (new_contact ids.contact a.tenant_id wa_id profile) db.contacts k.settled k.found
        (Settled-find_first (is_contact a.tenant_id wa_id) (refresh_contact profile) db.contacts
          k.settled k.found) in
    let (s, c, e) = k.ready in
    let threads =
      upsert_again (is_thread a.tenant_id a.id k.contact.id) restore
        (new_conversation ids.conversation a.tenant_id a.id k.contact.id) db.conversations s e
        (Settled-find_first (is_thread a.tenant_id a.id k.contact.id) restore db.conversations s
          e) in
    rw (contacts, threads)
      (receive-taken a w msg m t ids.message db.contacts db.conversations c db.messages
        (k.taken ids.message c.id msg m t))

-- A message that Meta sends again, at any later time: the tables stay exactly as the first delivery
-- left them (no counter, no date, no second row), and nothing is queued, published or answered.
pub process_message_idem :
    (stringify : Json → Text) (a : WhatsappAccount) (senders : List MetaContact)
    (msg : MetaInboundMessage) (now later : ℕ) (ids ids' : NewIds) (db : Db)
    → let once = (process_message stringify a senders msg now ids db).0 in
      process_message stringify a senders msg later ids' once ≡ (once, [])
unfolding process_message accept
process_message_idem stringify a senders msg now later ids ids' db =
    let w = get_or msg.id "" in
    let wa_id = get_or msg.from "" in
    let profile = profile_of senders wa_id in
    let m = map_inbound_message stringify msg in
    elim (Bool-cases (str_eq w "" || str_eq wa_id "")) [
      | inl e ↦ rw e refl
      | inr e ↦ rw e (
          accept-again a w wa_id profile msg m (get_or (parse_epoch_seconds msg.timestamp) later)
            ids' _
            (accept-Known a w wa_id profile msg m (get_or (parse_epoch_seconds msg.timestamp) now)
              ids db))
    ]
