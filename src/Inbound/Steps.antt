-- ===== src/Inbound/Steps.antt =====
-- How the row of a contact or of a conversation may change (`processMessage` of
-- src/webhook-worker/inbound-messages.service.ts).
use whatsapp_inbox.Shared.{
  ℕ, ◌≤◌, String, ◌≡◌, refl, sym, ◌∙◌, subst, ◌≢◌, inl, inr, Bool, Option, none, some, arith, leb,
  if◌then◌else◌, Bool-cases, Text,
}
use whatsapp_inbox.Schema.{Contact, Conversation}
use whatsapp_inbox.Inbound.{not_after}
use whatsapp_inbox.Inbound.Counting.{counted}

-- No earlier than before.
abbrev pub Later : Option ℕ → Option ℕ → Type 0
Later none o = Unit
Later (some a) (some b) = a ≤ b
Later (some a) none = ⊥

pub record ContactStep (tenant : String) (c c' : Contact) : Type 0 where
  pub same_id : c'.id ≡ c.id
  pub same_tenant : c'.tenant_id ≡ c.tenant_id
  pub same_wa_id : c'.wa_id ≡ c.wa_id
  pub foreign : c.tenant_id ≢ tenant → c' ≡ c

pub record ConversationStep (tenant : String) (c c' : Conversation) : Type 0 where
  pub same_id : c'.id ≡ c.id
  pub same_tenant : c'.tenant_id ≡ c.tenant_id
  pub same_account : c'.whatsapp_account_id ≡ c.whatsapp_account_id
  pub same_contact : c'.contact_id ≡ c.contact_id
  pub inbound : Later c.last_inbound_at c'.last_inbound_at
  pub message : Later c.last_message_at c'.last_message_at
  pub outbound : c'.last_outbound_at ≡ c.last_outbound_at
  pub unread : c.unread_count ≤ c'.unread_count
  pub foreign : c.tenant_id ≢ tenant → c' ≡ c

pub Later-refl : (o : Option ℕ) → Later o o
Later-refl none = tt
Later-refl (some a) = omega arith

Later-trans : (o p q : Option ℕ) → Later o p → Later p q → Later o q
Later-trans none p q h k = tt
Later-trans (some a) (some b) (some c) h k = omega arith
Later-trans (some a) none q h k = elim h [ ]
Later-trans (some a) (some b) none h k = elim k [ ]

pub step_refl : (tenant : String) (c : Conversation) → ConversationStep tenant c c
step_refl tenant c = record {
  same_id = refl;
  same_tenant = refl;
  same_account = refl;
  same_contact = refl;
  inbound = Later-refl c.last_inbound_at;
  message = Later-refl c.last_message_at;
  outbound = refl;
  unread = omega arith;
  foreign = λ _. refl;
}

pub step_trans :
    (tenant : String) (c d e : Conversation)
    → ConversationStep tenant c d
    → ConversationStep tenant d e
    → ConversationStep tenant c e
step_trans tenant c d e h k = record {
  same_id = k.same_id ∙ h.same_id;
  same_tenant = k.same_tenant ∙ h.same_tenant;
  same_account = k.same_account ∙ h.same_account;
  same_contact = k.same_contact ∙ h.same_contact;
  inbound = Later-trans c.last_inbound_at d.last_inbound_at e.last_inbound_at h.inbound k.inbound;
  message = Later-trans c.last_message_at d.last_message_at e.last_message_at h.message k.message;
  outbound = k.outbound ∙ h.outbound;
  unread = omega (arith, h.unread, k.unread);
  foreign = λ n. k.foreign (λ t. n (sym h.same_tenant ∙ t)) ∙ h.foreign n;
}

-- The later of the two.
abbrev pub moved : Option ℕ → ℕ → Option ℕ
moved o t = if not_after o t then some t else o

Later-moved : (o : Option ℕ) (t : ℕ) → Later o (moved o t)
Later-moved none t = tt
Later-moved (some a) t = elim (Bool-cases (leb a t)) [
  | inl e ↦ rw e (ground arith)
  | inr e ↦ rw e (omega arith)
]

pub counted-dates :
    (t : ℕ) (preview : Text) (r w : Bool) (c : Conversation)
    → ((counted t preview r w c).last_inbound_at ≡ moved c.last_inbound_at t)
      × ((counted t preview r w c).last_message_at ≡ moved c.last_message_at t)
unfolding counted
counted-dates t preview r w c = (ground arith, ground arith)

pub counted-step :
    (tenant : String) (t : ℕ) (preview : Text) (r w : Bool) (c : Conversation)
    → c.tenant_id ≡ tenant
    → ConversationStep tenant c (counted t preview r w c)
unfolding counted
counted-step tenant t preview r w c e = record {
  same_id = ground arith;
  same_tenant = ground arith;
  same_account = ground arith;
  same_contact = ground arith;
  inbound =
      subst (Later c.last_inbound_at) (sym (counted-dates t preview r w c).0)
        (Later-moved c.last_inbound_at t);
  message =
      subst (Later c.last_message_at) (sym (counted-dates t preview r w c).1)
        (Later-moved c.last_message_at t);
  outbound = ground arith;
  unread = ground arith;
  foreign = λ n. absurd (n e);
}
