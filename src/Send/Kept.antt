-- ===== src/Send/Kept.antt =====
-- What may happen to a conversation while an attempt is settled (the step 5 of
-- src/messaging/send-message.service.ts).
use whatsapp_inbox.Shared.{
  ℕ, ◌≤◌, ◌<◌, String, ◌≡◌, refl, sym, ◌∙◌, subst, ◌≢◌, inl, inr, Bool, true, false, ◌||◌, Option,
  none, some, arith, leb, ◌==◌, if◌then◌else◌, Bool-cases, Text,
}
use whatsapp_inbox.Schema.{Conversation}
use whatsapp_inbox.SendErrors.{code_is, meta_error_window_expired, meta_error_invalid_token}
use whatsapp_inbox.Send.Steps.{Attempt, Answer}
use whatsapp_inbox.Send.Settle.{not_after, rewind, touch_message, touch_outbound}

-- Meta says that the window is closed.
abbrev pub says_closed : Answer → Bool
says_closed (Answer.graph_error e) = code_is e.code meta_error_window_expired
says_closed _ = false

-- Meta refuses the account's token.
abbrev pub refuses_token : Answer → Bool
refuses_token (Answer.graph_error e) =
    e.http_status == 401 || code_is e.code meta_error_invalid_token
refuses_token _ = false

-- No earlier than before.
abbrev pub Later : Option ℕ → Option ℕ → Type 0
Later none o = Unit
Later (some a) (some b) = a ≤ b
Later (some a) none = ⊥

-- What may happen to a conversation.
pub record ConversationKept (tenant : String) (a : Attempt) (answer : Answer) (now : ℕ)
    (c c' : Conversation) : Type 0 where
  pub same_id :
      (c'.id ≡ c.id)
      × (c'.tenant_id ≡ c.tenant_id)
      × (c'.status ≡ c.status)
      × (c'.unread_count ≡ c.unread_count)
  pub foreign : c.tenant_id ≢ tenant → c' ≡ c
  pub message : Later c.last_message_at c'.last_message_at
  pub outbound : Later c.last_outbound_at c'.last_outbound_at
  pub fresher :
      (t : ℕ) → c.last_inbound_at ≡ some t → a.started_at < t → c'.last_inbound_at ≡ some t
  pub believed : says_closed answer ≡ false → c'.last_inbound_at ≡ c.last_inbound_at

Later-refl : (o : Option ℕ) → Later o o
Later-refl none = tt
Later-refl (some a) = omega arith

Later-moved : (o : Option ℕ) (t : ℕ) → Later o (if not_after o t then some t else o)
Later-moved none t = tt
Later-moved (some a) t = elim (Bool-cases (leb a t)) [
  | inl e ↦ rw e (ground arith)
  | inr e ↦ rw e (omega arith)
]

pub kept_refl :
    (tenant : String) (a : Attempt) (answer : Answer) (now : ℕ) (c : Conversation)
    → ConversationKept tenant a answer now c c
kept_refl tenant a answer now c = record {
  same_id = (refl, refl, refl, refl);
  foreign = λ _. refl;
  message = Later-refl c.last_message_at;
  outbound = Later-refl c.last_outbound_at;
  fresher = λ t e _. e;
  believed = λ _. refl;
}

rewind-inbound :
    (s now : ℕ) (c : Conversation)
    → ((rewind s now c).last_message_at ≡ c.last_message_at)
      × ((rewind s now c).last_outbound_at ≡ c.last_outbound_at)
unfolding rewind
rewind-inbound s now c = (ground arith, ground arith)

rewind-same :
    (s now : ℕ) (c : Conversation)
    → ((rewind s now c).id ≡ c.id)
      × ((rewind s now c).tenant_id ≡ c.tenant_id)
      × ((rewind s now c).status ≡ c.status)
      × ((rewind s now c).unread_count ≡ c.unread_count)
unfolding rewind
rewind-same s now c = (ground arith, ground arith, ground arith, ground arith)

rewind-newer :
    (s now : ℕ) (c : Conversation) (t : ℕ)
    → c.last_inbound_at ≡ some t
    → s < t
    → (rewind s now c).last_inbound_at ≡ some t
unfolding rewind
rewind-newer s now c t e l =
    let stays : not_after c.last_inbound_at s ≡ false = rw e (ground arith) in rw stays e

pub rewind-kept :
    (tenant : String) (a : Attempt) (answer : Answer) (now : ℕ) (c : Conversation)
    → says_closed answer ≡ true
    → c.tenant_id ≡ tenant
    → ConversationKept tenant a answer now c (rewind a.started_at now c)
rewind-kept tenant a answer now c closed own = record {
  same_id = rewind-same a.started_at now c;
  foreign = λ n. absurd (n own);
  message =
      subst (Later c.last_message_at) (sym (rewind-inbound a.started_at now c).0)
        (Later-refl c.last_message_at);
  outbound =
      subst (Later c.last_outbound_at) (sym (rewind-inbound a.started_at now c).1)
        (Later-refl c.last_outbound_at);
  fresher = λ t e l. rewind-newer a.started_at now c t e l;
  believed = λ b. absurd (ground (arith, closed, b));
}

touched-same :
    (now : ℕ) (preview : Text) (c : Conversation)
    → let c' = touch_outbound now (touch_message now preview c) in
      ((c'.id ≡ c.id)
        × (c'.tenant_id ≡ c.tenant_id)
        × (c'.status ≡ c.status)
        × (c'.unread_count ≡ c.unread_count))
      × (c'.last_inbound_at ≡ c.last_inbound_at)
unfolding touch_outbound touch_message
touched-same now preview c =
    ((ground arith, ground arith, ground arith, ground arith), ground arith)

touched-dates :
    (now : ℕ) (preview : Text) (c : Conversation)
    → let c' = touch_outbound now (touch_message now preview c) in
      (c'.last_message_at
        ≡ (if not_after c.last_message_at now then some now else c.last_message_at))
      × (c'.last_outbound_at
          ≡ (if not_after c.last_outbound_at now then some now else c.last_outbound_at))
unfolding touch_outbound touch_message
touched-dates now preview c = (ground arith, ground arith)

pub touched-kept :
    (tenant : String) (a : Attempt) (answer : Answer) (now : ℕ) (preview : Text) (c : Conversation)
    → c.tenant_id ≡ tenant
    → ConversationKept tenant a answer now c (touch_outbound now (touch_message now preview c))
touched-kept tenant a answer now preview c own =
    let (same, inbound) = touched-same now preview c in
    let (m, o) = touched-dates now preview c in
    record {
      same_id = same;
      foreign = λ n. absurd (n own);
      message = subst (Later c.last_message_at) (sym m) (Later-moved c.last_message_at now);
      outbound = subst (Later c.last_outbound_at) (sym o) (Later-moved c.last_outbound_at now);
      fresher = λ t e _. inbound ∙ e;
      believed = λ _. inbound;
    }
