-- ===== src/Inbound/Rows.antt =====
-- The rows that a delivery leaves (`processMessage` of
-- src/webhook-worker/inbound-messages.service.ts).
use whatsapp_inbox.Shared.{
  ℕ, ◌≤◌, String, ◌≡◌, refl, ap, subst, ◌≢◌, inl, inr, Bool, true, false, ◌&&◌, Option, none, some,
  List, [], ◌∷◌, Memᴰ, arith, eq_iff, leb, str_eq, opt_is, Bool-cases, any, any→Memᴰ, Text,
}
use whatsapp_inbox.Meta.{MetaInboundMessage}
use whatsapp_inbox.Schema.{
  ConversationStatus, MessageDirection, WhatsappAccount, Contact, Conversation, Message,
}
use whatsapp_inbox.Db.{update_many}
use whatsapp_inbox.Mapping.{MappedInboundMessage}
use whatsapp_inbox.Inbound.{Db, is_thread, is_closed, same_wamid, new_message}
use whatsapp_inbox.Inbound.Counting.{counted}
use whatsapp_inbox.Inbound.Steps.{moved}

-- The message `wamid` of `wa_id` is stored, in a conversation of its sender with the account that is
-- open to answers at the time `t`.
pub record Received (a : WhatsappAccount) (wamid wa_id : String) (t : ℕ) (db : Db) : Type 0 where
  pub contact : Contact
  pub conversation : Conversation
  pub message : Message
  pub contact_stored : Memᴰ contact db.contacts
  pub conversation_stored : Memᴰ conversation db.conversations
  pub message_stored : Memᴰ message db.messages
  pub from_sender :
      (contact.tenant_id ≡ a.tenant_id) × (contact.wa_id ≡ wa_id) × (contact.deleted_at ≡ none)
  pub in_thread :
      (conversation.tenant_id ≡ a.tenant_id)
      × (conversation.whatsapp_account_id ≡ a.id)
      × (conversation.contact_id ≡ contact.id)
      × (conversation.deleted_at ≡ none)
  pub is_message :
      (message.tenant_id ≡ a.tenant_id)
      × (message.wamid ≡ some wamid)
      × (message.conversation_id ≡ conversation.id)
      × (message.direction ≡ MessageDirection.inbound)
      × (message.timestamp ≡ t)
  pub reopened : conversation.status ≢ ConversationStatus.closed
  pub window : (u : ℕ) × (conversation.last_inbound_at ≡ some u) × (t ≤ u)

pub counted-thread :
    (tenant account_id contact_id : String) (t : ℕ) (preview : Text) (r w : Bool) (c : Conversation)
    → (is_thread tenant account_id contact_id (counted t preview r w c)
        ≡ is_thread tenant account_id contact_id c)
      × ((counted t preview r w c).deleted_at ≡ c.deleted_at)
      × ((counted t preview r w c).id ≡ c.id)
unfolding counted
counted-thread tenant account_id contact_id t preview r w c =
    (ground arith, ground arith, ground arith)

pub counted-status :
    (t : ℕ) (preview : Text) (r : Bool) (c : Conversation)
    → (counted t preview r (is_closed c.status) c).status ≢ ConversationStatus.closed
unfolding counted
counted-status t preview r c = ground arith

pub moved-window : (o : Option ℕ) (t : ℕ) → (u : ℕ) × (moved o t ≡ some u) × (t ≤ u)
moved-window none t = (t, refl, omega arith)
moved-window (some s) t = elim (Bool-cases (leb s t)) [
  | inl e ↦ rw e (t, refl, omega arith)
  | inr e ↦ rw e (s, refl, ground arith)
]

pub update-Memᴰ :
    {A : Type 0} (q : A → Bool) (g : A → A) (xs : List A) {x : A}
    → Memᴰ x xs
    → q x ≡ true
    → Memᴰ (g x) (update_many q g xs)
unfolding update_many
update-Memᴰ q g [] m h = elim m [ ]
update-Memᴰ q g (y ∷ xs) (Memᴰ.head e) h =
    let k : q y ≡ true = subst (λ z. q z ≡ true) e h in Memᴰ.head (rw k (ap g e))
update-Memᴰ q g (y ∷ xs) (Memᴰ.tail m) h = Memᴰ.tail (update-Memᴰ q g xs m h)

clash_lem :
    (u tenant : String) (o : Option String) (w : String)
    → (str_eq u tenant && opt_is o w) ≡ true
    → (u ≡ tenant) × (o ≡ some w)
clash_lem u tenant none w h = absurd (ground arith)
clash_lem u tenant (some v) w h = (ground (arith, eq_iff u tenant), ground (arith, eq_iff v w))

-- No message of the tenant has the id.
abbrev pub FirstTime : WhatsappAccount → String → List Message → Type 0
FirstTime a w ms = (m : Message) → Memᴰ m ms → m.tenant_id ≡ a.tenant_id → m.wamid ≢ some w

pub not_taken :
    (a : WhatsappAccount) (w id cid : String) (msg : MetaInboundMessage) (m : MappedInboundMessage)
    (t : ℕ) (ms : List Message)
    → FirstTime a w ms
    → any (same_wamid (new_message id a cid w msg m t)) ms ≡ false
unfolding new_message
not_taken a w id cid msg m t ms h =
    elim (Bool-cases (any (same_wamid (new_message id a cid w msg m t)) ms)) [
      | inr k ↦ k
      | inl k ↦
          let (x, mem, q) = any→Memᴰ (same_wamid (new_message id a cid w msg m t)) ms k in
          let (owner, taken) = clash_lem x.tenant_id a.tenant_id x.wamid w q in
          absurd (h x mem owner taken)
    ]
