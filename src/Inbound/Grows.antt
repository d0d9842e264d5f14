-- ===== src/Inbound/Grows.antt =====
-- What a delivery may do to the rows of the three tables (`processMessage` of
-- src/webhook-worker/inbound-messages.service.ts).
use whatsapp_inbox.Shared.{
  ℕ, String, ◌≡◌, refl, ◌∙◌, inl, inr, Bool, ◌||◌, Option, List, arith, eq_iff, str_eq, Bool-cases,
  and_true, get_or, any, Text,
}
use whatsapp_inbox.Json.{Json}
use whatsapp_inbox.Meta.{MetaContact, MetaInboundMessage}
use whatsapp_inbox.Numbers.{parse_epoch_seconds}
use whatsapp_inbox.Schema.{WhatsappAccount, Contact, Conversation}
use whatsapp_inbox.Db.{create, upsert}
use whatsapp_inbox.Db.Laws.{Pointwise, Pointwise-refl, Pointwise-update_many}
use whatsapp_inbox.Mapping.{MappedInboundMessage, map_inbound_message, build_message_preview}
use whatsapp_inbox.Inbound.{
  Db, NewIds, is_contact, is_thread, is_conversation, is_closed, same_wamid, new_contact,
  refresh_contact, new_conversation, restore, new_message, count_in, profile_of, receive, accept,
  process_message,
}
use whatsapp_inbox.Inbound.Upserts.{upsert_cases}
use whatsapp_inbox.Inbound.Counting.{counted, count_in_lem}
use whatsapp_inbox.Db.Extends.{Extends, Extends-snoc, Extends-Pointwise, Extends-trans}
use whatsapp_inbox.Inbound.Steps.{
  ContactStep, ConversationStep, Later-refl, step_refl, step_trans, counted-step,
}

-- What a delivery does to the tables.
pub record Grows (tenant : String) (db db' : Db) : Type 0 where
  pub contacts : Extends (ContactStep tenant) (λ c. c.tenant_id ≡ tenant) db.contacts db'.contacts
  pub conversations :
      Extends
        (ConversationStep tenant)
        (λ c. c.tenant_id ≡ tenant)
        db.conversations
        db'.conversations
  pub messages : Extends (λ m m'. m' ≡ m) (λ m. m.tenant_id ≡ tenant) db.messages db'.messages

contact_refl : (tenant : String) (c : Contact) → ContactStep tenant c c
contact_refl tenant c = record {
  same_id = refl;
  same_tenant = refl;
  same_wa_id = refl;
  foreign = λ _. refl;
}

contacts-step :
    (tenant wa_id id : String) (profile : Option Text) (cs : List Contact)
    → Extends
        (ContactStep tenant)
        (λ c. c.tenant_id ≡ tenant)
        cs
        (upsert
          (is_contact tenant wa_id)
          (new_contact id tenant wa_id profile)
          (refresh_contact profile)
          cs).0
unfolding new_contact refresh_contact
contacts-step tenant wa_id id profile cs =
    let key = is_contact tenant wa_id in
    upsert_cases (Extends (ContactStep tenant) (λ c. c.tenant_id ≡ tenant) cs) key
      (refresh_contact profile) _ cs
      (Extends-snoc _ _ (contact_refl tenant) cs (new_contact id tenant wa_id profile) refl)
      (Extends-Pointwise _ _ cs _ (
        Pointwise-update_many (ContactStep tenant) key (refresh_contact profile)
          (contact_refl tenant)
          (λ c h. record {
            same_id = refl;
            same_tenant = refl;
            same_wa_id = refl;
            foreign = λ n. absurd (n ((eq_iff _ _).0 (and_true h).0));
          })
          cs))

threads-step :
    (tenant account_id contact_id id : String) (cs : List Conversation)
    → Extends
        (ConversationStep tenant)
        (λ c. c.tenant_id ≡ tenant)
        cs
        (upsert
          (is_thread tenant account_id contact_id)
          (new_conversation id tenant account_id contact_id)
          restore
          cs).0
unfolding new_conversation restore
threads-step tenant account_id contact_id id cs =
    let key = is_thread tenant account_id contact_id in
    upsert_cases (Extends (ConversationStep tenant) (λ c. c.tenant_id ≡ tenant) cs) key restore _ cs
      (Extends-snoc _ _ (step_refl tenant) cs (new_conversation id tenant account_id contact_id)
        refl)
      (Extends-Pointwise _ _ cs _ (
        Pointwise-update_many (ConversationStep tenant) key restore (step_refl tenant)
          (λ c h. record {
            same_id = refl;
            same_tenant = refl;
            same_account = refl;
            same_contact = refl;
            inbound = Later-refl c.last_inbound_at;
            message = Later-refl c.last_message_at;
            outbound = refl;
            unread = omega arith;
            foreign = λ n. absurd (n ((eq_iff _ _).0 (and_true h).0));
          })
          cs))

counted-Pointwise :
    (tenant id : String) (t : ℕ) (preview : Text) (r w : Bool) (cs : List Conversation)
    → Pointwise (ConversationStep tenant) cs (count_in tenant id t preview r w cs)
counted-Pointwise tenant id t preview r w cs = rw (count_in_lem tenant id t preview r w cs) (
    Pointwise-update_many (ConversationStep tenant) (is_conversation tenant id)
      (counted t preview r w) (step_refl tenant)
      (λ c h. counted-step tenant t preview r w c ((eq_iff _ _).0 (and_true h).1)) cs)

receive-Grows :
    (a : WhatsappAccount) (w : String) (msg : MetaInboundMessage) (m : MappedInboundMessage) (t : ℕ)
    (mid : String) (contacts : List Contact) (threads : List Conversation × Conversation) (db : Db)
    → Extends (ContactStep a.tenant_id) (λ c. c.tenant_id ≡ a.tenant_id) db.contacts contacts
    → Extends
        (ConversationStep a.tenant_id)
        (λ c. c.tenant_id ≡ a.tenant_id)
        db.conversations
        threads.0
    → Grows a.tenant_id db (receive a w msg m t mid contacts threads db.messages).0
unfolding receive create new_message
receive-Grows a w msg m t mid contacts threads db h k =
    let row = new_message mid a threads.1.id w msg m t in
    elim (Bool-cases (any (same_wamid row) db.messages)) [
      | inl e ↦
          rw (receive, create, e)
            (record {
              contacts = h;
              conversations = k;
              messages =
                  Extends-Pointwise _ _ db.messages db.messages
                    (Pointwise-refl _ (λ _. refl) db.messages);
            })
      | inr e ↦
          rw (receive, create, e)
            (record {
              contacts = h;
              conversations =
                  Extends-trans _ _ (step_trans a.tenant_id) (λ x y s o. s.same_tenant ∙ o)
                    db.conversations threads.0 _ k
                    (counted-Pointwise a.tenant_id threads.1.id t (build_message_preview m)
                      m.is_reaction (is_closed threads.1.status) threads.0);
              messages = Extends-snoc _ _ (λ _. refl) db.messages row refl;
            })
    ]

-- A delivery for an account leaves all stored messages as they are and adds at most rows of the
-- account's tenant; a row of another tenant stays as it is, in all three tables; the dates of a
-- conversation's last message and of its last inbound message never go back, its unread counter
-- never falls, and no row changes its identity.
pub process_message-Grows :
    (stringify : Json → Text) (a : WhatsappAccount) (senders : List MetaContact)
    (msg : MetaInboundMessage) (now : ℕ) (ids : NewIds) (db : Db)
    → Grows a.tenant_id db (process_message stringify a senders msg now ids db).0
unfolding process_message accept
process_message-Grows stringify a senders msg now ids db =
    let w = get_or msg.id "" in
    let wa_id = get_or msg.from "" in
    let profile = profile_of senders wa_id in
    let contacts =
      upsert (is_contact a.tenant_id wa_id) (new_contact ids.contact a.tenant_id wa_id profile)
        (refresh_contact profile) db.contacts in
    elim (Bool-cases (str_eq w "" || str_eq wa_id "")) [
      | inl e ↦ rw e (record {
        contacts =
            Extends-Pointwise _ _ db.contacts db.contacts
              (Pointwise-refl _ (contact_refl a.tenant_id) db.contacts);
        conversations =
            Extends-Pointwise _ _ db.conversations db.conversations
              (Pointwise-refl _ (step_refl a.tenant_id) db.conversations);
        messages =
            Extends-Pointwise _ _ db.messages db.messages
              (Pointwise-refl _ (λ _. refl) db.messages);
      })
      | inr e ↦ rw e (
          receive-Grows a w msg (map_inbound_message stringify msg)
            (get_or (parse_epoch_seconds msg.timestamp) now) ids.message contacts.0
            (upsert (is_thread a.tenant_id a.id contacts.1.id)
              (new_conversation ids.conversation a.tenant_id a.id contacts.1.id) restore
              db.conversations)
            db (contacts-step a.tenant_id wa_id ids.contact profile db.contacts)
            (threads-step a.tenant_id a.id contacts.1.id ids.conversation db.conversations))
    ]
