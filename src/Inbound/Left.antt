-- ===== src/Inbound/Left.antt =====
-- What the transaction of a message leaves for the next one (`processMessage` of
-- src/webhook-worker/inbound-messages.service.ts).
use whatsapp_inbox.Shared.{
  ℕ, String, ◌≡◌, refl, sym, ap, ◌∙◌, inl, inr, Bool, true, not, ◌&&◌, Option, none, some, List, [],
  ◌∷◌, ◌++◌, arith, eq_iff, if◌then◌else◌, Bool-cases, or-true, any, Text,
}
use mathlib.Core.Option
use whatsapp_inbox.Meta.{MetaInboundMessage}
use whatsapp_inbox.Schema.{WhatsappAccount, Contact, Conversation, Message}
use whatsapp_inbox.Db.{find_first, update_many, create, upsert}
use whatsapp_inbox.Db.Laws.{find_first-update_many}
use whatsapp_inbox.Mapping.{MappedInboundMessage, build_message_preview}
use whatsapp_inbox.Inbound.{
  Db, is_contact, is_thread, is_conversation, is_closed, same_wamid, new_contact, refresh_contact,
  new_conversation, restore, new_message, touch_message, touch_inbound, bump, count_in, receive,
}
use whatsapp_inbox.Inbound.Upserts.{Settled, All-update_many, upsert-found, upsert-Settled}

pub refresh_idem :
    (profile : Option Text) (c : Contact)
    → refresh_contact profile (refresh_contact profile c) ≡ refresh_contact profile c
unfolding refresh_contact
refresh_idem none c = refl
refresh_idem (some []) c = refl
refresh_idem (some (u ∷ us)) c = refl

pub refresh-new :
    (id tenant wa_id : String) (profile : Option Text)
    → refresh_contact profile (new_contact id tenant wa_id profile)
      ≡ new_contact id tenant wa_id profile
unfolding refresh_contact new_contact
refresh-new id tenant wa_id none = refl
refresh-new id tenant wa_id (some []) = refl
refresh-new id tenant wa_id (some (u ∷ us)) = refl

pub refresh-key :
    (tenant wa_id : String) (profile : Option Text) (c : Contact)
    → is_contact tenant wa_id (refresh_contact profile c) ≡ is_contact tenant wa_id c
unfolding refresh_contact
refresh-key tenant wa_id profile c = refl

-- What the fourth step may do to a conversation.
record Counts (g : Conversation → Conversation) : Type 0 where
  key : (t a k : String) (c : Conversation) → is_thread t a k (g c) ≡ is_thread t a k c
  live : (c : Conversation) → restore c ≡ c → restore (g c) ≡ g c

touch_message-Counts : (t : ℕ) (preview : Text) → Counts (touch_message t preview)
unfolding touch_message restore
touch_message-Counts t preview = record {
  key = λ u a k c. ground arith;
  live = λ c h. ground arith;
}

touch_inbound-Counts : (t : ℕ) → Counts (touch_inbound t)
unfolding touch_inbound restore
touch_inbound-Counts t = record { key = λ u a k c. ground arith; live = λ c h. ground arith }

bump-Counts : (is_reaction was_closed : Bool) → Counts (bump is_reaction was_closed)
unfolding bump restore
bump-Counts r w = record { key = λ u a k c. refl; live = λ c h. ground arith }

module _ (tenant account_id contact_id : String) where
  -- The conversation of the key is there, and restored.
  abbrev pub Ready : List Conversation → Type 0
  Ready cs =
      Settled (is_thread tenant account_id contact_id) restore cs
      × (c : Conversation) × (find_first (is_thread tenant account_id contact_id) cs ≡ some c)

  Ready-update :
      (q : Conversation → Bool) (g : Conversation → Conversation)
      → Counts g
      → (cs : List Conversation) → Ready cs
      → Ready (update_many q g cs)
  Ready-update q g k cs (s, c, e) = (
    All-update_many (λ x. is_thread tenant account_id contact_id x ≡ true → restore x ≡ x) q g
        (λ x h t. k.live x (h (sym (k.key tenant account_id contact_id x) ∙ t))) cs s,
    if q c then g c else c,
    find_first-update_many q (is_thread tenant account_id contact_id) g
          (k.key tenant account_id contact_id) cs
        ∙ ap (Option.map (λ x. if q x then g x else x)) e,
  )

  Ready-count_in :
      (u id : String) (t : ℕ) (preview : Text) (r w : Bool) (cs : List Conversation)
      → Ready cs
      → Ready (count_in u id t preview r w cs)
  unfolding count_in
  Ready-count_in u id t preview r w cs h =
      let here = is_conversation u id in
      let first =
        Ready-update here (touch_message t preview) (touch_message-Counts t preview) cs h in
      let dated = Ready-update here (touch_inbound t) (touch_inbound-Counts t) _ first in
      elim (Bool-cases (r && not w)) [
        | inl e ↦ rw e dated
        | inr e ↦ rw e (Ready-update here (bump r w) (bump-Counts r w) _ dated)
      ]

  restore_idem : (c : Conversation) → restore (restore c) ≡ restore c
  unfolding restore
  restore_idem c = refl

  pub Ready-upsert :
      (id : String) (cs : List Conversation)
      → Ready
          (upsert
            (is_thread tenant account_id contact_id)
            (new_conversation id tenant account_id contact_id)
            restore
            cs).0
  unfolding new_conversation restore
  Ready-upsert id cs = (
    upsert-Settled (is_thread tenant account_id contact_id) restore (λ _. refl)
        (new_conversation id tenant account_id contact_id) cs restore_idem refl,
    _,
    upsert-found (is_thread tenant account_id contact_id) restore (λ _. refl)
        (new_conversation id tenant account_id contact_id) cs
        (ground (
          arith,
          eq_iff tenant tenant,
          eq_iff account_id account_id,
          eq_iff contact_id contact_id,
        )),
  )

same_wamid_lem :
    (a : WhatsappAccount) (m m' : MappedInboundMessage) (msg msg' : MetaInboundMessage)
    (id id' c c' w : String) (t t' : ℕ)
    → same_wamid (new_message id a c w msg m t) (new_message id' a c' w msg' m' t') ≡ true
unfolding new_message
same_wamid_lem a m m' msg msg' id id' c c' w t t' =
    ground (arith, eq_iff a.tenant_id a.tenant_id, eq_iff w w)

any-snoc :
    {A : Type 0} (q : A → Bool) (xs : List A) (x : A) → q x ≡ true → any q (xs ++ x ∷ []) ≡ true
any-snoc q [] x h = rw h
any-snoc q (y ∷ xs) x h = rw (any-snoc q xs x h) (or-true (q y))

-- What a run leaves, for the next run with the same key.
pub record Left (account : WhatsappAccount) (contact_id wamid : String) (contacts : List Contact)
    (db : Db) : Type 0 where
  pub same_contacts : db.contacts ≡ contacts
  pub ready : Ready account.tenant_id account.id contact_id db.conversations
  pub taken :
      (id c : String) (msg : MetaInboundMessage) (m : MappedInboundMessage) (t : ℕ)
      → any (same_wamid (new_message id account c wamid msg m t)) db.messages ≡ true

pub receive-Left :
    (a : WhatsappAccount) (w : String) (msg : MetaInboundMessage) (m : MappedInboundMessage) (t : ℕ)
    (id contact_id : String) (contacts : List Contact) (cs : List Conversation) (c : Conversation)
    (ms : List Message)
    → Ready a.tenant_id a.id contact_id cs
    → Left a contact_id w contacts (receive a w msg m t id contacts (cs, c) ms).0
unfolding receive create new_message
receive-Left a w msg m t id contact_id contacts cs c ms h =
    elim (Bool-cases (any (same_wamid (new_message id a c.id w msg m t)) ms)) [
      | inl e ↦
          rw (receive, create, e)
            (record { same_contacts = refl; ready = h; taken = λ id' c' msg' m' t'. e })
      | inr e ↦
          rw (receive, create, e)
            (record {
              same_contacts = refl;
              ready =
                  Ready-count_in a.tenant_id a.id contact_id a.tenant_id c.id t
                    (build_message_preview m) m.is_reaction (is_closed c.status) cs h;
              taken = λ id' c' msg' m' t'.
                  any-snoc _ ms _ (same_wamid_lem a m' m msg' msg id' id c' c.id w t' t);
            })
    ]

pub receive-taken :
    (a : WhatsappAccount) (w : String) (msg : MetaInboundMessage) (m : MappedInboundMessage) (t : ℕ)
    (id : String) (contacts : List Contact) (cs : List Conversation) (c : Conversation)
    (ms : List Message)
    → any (same_wamid (new_message id a c.id w msg m t)) ms ≡ true
    → receive a w msg m t id contacts (cs, c) ms
      ≡ (record { contacts = contacts; conversations = cs; messages = ms }, [])
unfolding receive create
receive-taken a w msg m t id contacts cs c ms h = rw (receive, create, h) refl
