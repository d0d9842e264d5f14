-- ===== src/Send/Recorded.antt =====
-- What is known once the row of a request has been created (the steps 1 to 3 of
-- src/messaging/send-message.service.ts).
use whatsapp_inbox.Shared.{
  ℕ, String, ◌≡◌, refl, sym, ◌∙◌, subst, ◌≢◌, inl, inr, Bool, true, false, ◌&&◌, ◌||◌, Option, none,
  some, List, [], ◌∷◌, ◌++◌, Memᴰ, arith, eq_iff, str_eq, opt_is, Option-cases, is_none,
}
use whatsapp_inbox.Schema.{
  MessageStatus, WhatsappAccount, Contact, Conversation, Message, MessageTemplate,
}
use whatsapp_inbox.Db.{find_first, create}
use whatsapp_inbox.Db.Rows.{All, create_lem}
use whatsapp_inbox.Window.{is_window_open}
use whatsapp_inbox.Send.{Db, Content, SendRequest, Prepared, Preparation, prepare}
use whatsapp_inbox.Send.Steps.{
  is_conversation, is_contact, has_key, clash, prepared_then, Attempt, Begun, new_message, persist,
  begin, forced_id,
}

-- Free text and media need the open window; a template does not.
abbrev pub is_free : Content → Bool
is_free (Content.template id params) = false
is_free _ = true

prepare-open :
    (tenant : String) (c : Conversation) (contact : Contact) (content : Content) (now : ℕ)
    (ts : List MessageTemplate) (p : Prepared)
    → prepare tenant c contact content now ts ≡ Preparation.prepared p
    → is_free content ≡ true
    → is_window_open c now ≡ true
unfolding prepare
prepare-open tenant c contact (Content.text body auto) now ts p h f = ground arith
prepare-open tenant c contact (Content.media r) now ts p h f = ground arith
prepare-open tenant c contact (Content.template id params) now ts p h f = absurd (ground arith)

-- What is known when the row has been created.
pub record Recorded (tenant : String) (request : SendRequest) (before after : List Message)
    : Type 0 where
  pub message : Message
  pub stored : Memᴰ message after
  pub pending : (message.status ≡ MessageStatus.pending) × (message.wamid ≡ none)
  pub owned :
      (message.tenant_id ≡ tenant) × (message.client_dedup_key ≡ some request.client_dedup_key)
  pub only_one :
      All (λ m. m.tenant_id ≡ tenant → m.client_dedup_key ≢ some request.client_dedup_key) before

Memᴰ-last : {A : Type 0} (xs : List A) (x : A) → Memᴰ x (xs ++ x ∷ [])
Memᴰ-last [] x = Memᴰ.head refl
Memᴰ-last (y ∷ xs) x = Memᴰ.tail (Memᴰ-last xs x)

clash_lem :
    (tenant key u : String) (o : Option String) (b : Bool)
    → (b || (str_eq u tenant && opt_is o key)) ≡ false
    → u ≡ tenant
    → o ≢ some key
clash_lem tenant key u o b h e k = ground (
  arith,
  eq_iff u tenant,
  eq_iff key key,
  subst (λ o. (b || (str_eq u tenant && opt_is o key)) ≡ false) k h,
)

none_clash :
    (tenant key id : String) (ms : List Message)
    → All
        (λ x.
          (str_eq x.id id || (str_eq x.tenant_id tenant && opt_is x.client_dedup_key key)) ≡ false)
        ms
    → All (λ m. m.tenant_id ≡ tenant → m.client_dedup_key ≢ some key) ms
none_clash tenant key id [] h = tt
none_clash tenant key id (m ∷ ms) (h, hs) = (
  clash_lem tenant key m.tenant_id m.client_dedup_key (str_eq m.id id) h,
  none_clash tenant key id ms hs,
)

pending-eq :
    (ms ms' : List Message) (a a' : Attempt)
    → Begun.pending ms a ≡ Begun.pending ms' a'
    → (ms ≡ ms') × (a ≡ a')
pending-eq ms ms' a a' h = (ground arith, ground arith)

persist-Recorded :
    (tenant : String) (request : SendRequest) (sent_by : Option String) (now : ℕ) (new_id : String)
    (c : Conversation) (account : WhatsappAccount) (p : Prepared) (before after : List Message)
    (attempt : Attempt)
    → persist tenant request sent_by now new_id c account p before ≡ Begun.pending after attempt
    → Recorded tenant request before after
unfolding persist new_message
persist-Recorded tenant request sent_by now new_id c account p before after attempt h =
    let id = forced_id p.media_fields new_id in
    let row = new_message id tenant request.client_dedup_key account c request p sent_by now in
    elim (Option-cases (create clash row before)) [
      | inl e ↦ absurd (ground (arith, rw (persist, e) at h))
      | inr (ms, e) ↦
          let (same, _) = pending-eq ms after _ attempt (rw (persist, e) at h) in
          let (grown, free) = create_lem clash row before ms e in
          record {
            message = row;
            stored = subst (Memᴰ row) (sym grown ∙ same) (Memᴰ-last before row);
            pending = (refl, refl);
            owned = (refl, refl);
            only_one = none_clash tenant request.client_dedup_key id before free;
          }
    ]

-- The conversation that was read, and the checks that were passed.
pub record Allowed (tenant conversation_id : String) (request : SendRequest) (now : ℕ) (db : Db)
    : Type 0 where
  pub conversation : Conversation
  pub found :
      find_first
        (λ c. is_none c.deleted_at && is_conversation tenant conversation_id c)
        db.conversations
      ≡ some conversation
  pub open_ : is_free request.content ≡ true → is_window_open conversation now ≡ true

prepared-cases :
    (x : Preparation) (next : Prepared → Begun) (ms : List Message) (a : Attempt)
    → prepared_then next x ≡ Begun.pending ms a
    → (p : Prepared) × (x ≡ Preparation.prepared p) × (next p ≡ Begun.pending ms a)
prepared-cases (Preparation.threw e) next ms a h = absurd (ground arith)
prepared-cases (Preparation.refused o) next ms a h = absurd (ground arith)
prepared-cases (Preparation.prepared p) next ms a h = (p, refl, h)

pub begin-Allowed :
    (tenant cid : String) (request : SendRequest) (sent_by : Option String) (now : ℕ)
    (new_id : String) (db : Db) (before after : List Message) (attempt : Attempt)
    → begin tenant cid request sent_by now new_id db before ≡ Begun.pending after attempt
    → Allowed tenant cid request now db × Recorded tenant request before after
unfolding begin
begin-Allowed tenant cid request sent_by now new_id db before after attempt h =
    elim (Option-cases
      (find_first (λ c. is_none c.deleted_at && is_conversation tenant cid c) db.conversations)) [
        | inl e ↦ absurd (ground (arith, rw (begin, e) at h))
        | inr (c, e) ↦
            elim (Option-cases (find_first (is_contact tenant c.contact_id) db.contacts)) [
              | inl f ↦ absurd (ground (arith, rw (begin, e, f) at h))
              | inr (contact, f) ↦
                  elim (Option-cases (
                    find_first (λ (a : WhatsappAccount). str_eq a.id c.whatsapp_account_id)
                      db.accounts)) [
                        | inl g ↦ absurd (ground (arith, rw (begin, e, f, g) at h))
                        | inr (account, g) ↦
                            elim (Option-cases
                              (find_first (has_key tenant request.client_dedup_key) db.messages)) [
                                | inr (m, k) ↦ absurd (ground (arith, rw (begin, e, f, g, k) at h))
                                | inl k ↦
                                    let (p, x, y) =
                                      prepared-cases
                                        (prepare tenant c contact request.content now db.templates)
                                        (λ p.
                                          persist tenant request sent_by now new_id c account p
                                            before)
                                        after attempt (rw (begin, e, f, g, k) at h) in
                                    (
                                      record {
                                        conversation = c;
                                        found = e;
                                        open_ =
                                            prepare-open tenant c contact request.content now
                                              db.templates p x;
                                      },
                                      persist-Recorded tenant request sent_by now new_id c account p
                                          before after attempt y,
                                    )
                              ]
                      ]
            ]
      ]
