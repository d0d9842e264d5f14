-- ===== src/Inbound/Counting.antt =====
-- The counters and dates of a conversation (the step 4 of `processMessage` in
-- src/webhook-worker/inbound-messages.service.ts).
use whatsapp_inbox.Shared.{
  ℕ, ◌+◌, String, ◌≡◌, refl, sym, ap, ◌∙◌, subst, ◌≢◌, inl, inr, Bool, true, false, not, ◌&&◌, List,
  [], ◌∷◌, Memᴰ, arith, eq_iff, str_eq, if◌then◌else◌, Bool-cases, Text,
}
use whatsapp_inbox.Schema.{Conversation, Message, MessageDirection}
use whatsapp_inbox.Db.{update_many, count}
use whatsapp_inbox.Mapping.{is_reaction_type}
use mathlib.Core.Path.{fun_ext}
use whatsapp_inbox.Db.Laws.{update_many-comp}
use whatsapp_inbox.Db.Rows.{All, All-Memᴰ, Distinct}
use whatsapp_inbox.Inbound.{is_conversation, touch_message, touch_inbound, bump, count_in}

unfoldable pub counted : ℕ → Text → Bool → Bool → Conversation → Conversation
unfolding bump touch_inbound touch_message
counted t preview r w c = bump r w (touch_inbound t (touch_message t preview c))

touch_message_stays :
    (tenant id : String) (t : ℕ) (preview : Text) (c : Conversation)
    → is_conversation tenant id (touch_message t preview c) ≡ is_conversation tenant id c
unfolding touch_message
touch_message_stays tenant id t preview c = ground arith

touch_inbound_stays :
    (tenant id : String) (t : ℕ) (c : Conversation)
    → is_conversation tenant id (touch_inbound t c) ≡ is_conversation tenant id c
unfolding touch_inbound
touch_inbound_stays tenant id t c = ground arith

bump_nothing : (r w : Bool) (c : Conversation) → (r && not w) ≡ true → bump r w c ≡ c
unfolding bump
bump_nothing true false c h = refl
bump_nothing true true c h = absurd (ground arith)
bump_nothing false w c h = absurd (ground arith)

-- The three updates are one.
pub count_in_lem :
    (tenant id : String) (t : ℕ) (preview : Text) (r w : Bool) (cs : List Conversation)
    → count_in tenant id t preview r w cs
      ≡ update_many (is_conversation tenant id) (counted t preview r w) cs
unfolding count_in counted
count_in_lem tenant id t preview r w cs =
    let here = is_conversation tenant id in
    let both : Conversation → Conversation = λ c. touch_inbound t (touch_message t preview c) in
    let dated : update_many here (touch_inbound t) (update_many here (touch_message t preview) cs)
        ≡ update_many here both cs =
      update_many-comp here (touch_message t preview) (touch_inbound t)
        (touch_message_stays tenant id t preview) cs in
    elim (Bool-cases (r && not w)) [
      | inl e ↦ rw e (
          dated
          ∙ ap (λ g. update_many here g cs) (fun_ext (λ c. sym (bump_nothing r w (both c) e))))
      | inr e ↦ rw e (
          ap (update_many here (bump r w)) dated
          ∙ update_many-comp here both (bump r w)
              (λ c.
                touch_inbound_stays tenant id t (touch_message t preview c)
                ∙ touch_message_stays tenant id t preview c)
              cs)
    ]

-- The unread counter of the conversation with the id.
unfoldable pub unread : String → List Conversation → ℕ
unread id [] = 0
unread id (c ∷ cs) = (if str_eq c.id id then c.unread_count else 0) + unread id cs

abbrev pub counts : String → Message → Bool
counts id m =
    str_eq m.conversation_id id && (is_inbound m.direction && not (is_reaction_type m.type_))
  where
    is_inbound : MessageDirection → Bool
    is_inbound MessageDirection.inbound = true
    is_inbound MessageDirection.outbound = false

-- The messages of customers in the conversation that are no reactions.
unfoldable pub received : String → List Message → ℕ
unfolding count
received id ms = count (counts id) ms

unread-elsewhere :
    (id tenant k : String) (g : Conversation → Conversation) (cs : List Conversation)
    → All (λ c. c.id ≢ k) cs
    → unread id (update_many (is_conversation tenant k) g cs) ≡ unread id cs
unfolding unread update_many
unread-elsewhere id tenant k g [] h = refl
unread-elsewhere id tenant k g (c ∷ cs) (n, h) =
    let no : is_conversation tenant k c ≡ false = ground (arith, eq_iff c.id k) in
    rw (no, unread-elsewhere id tenant k g cs h)

unread-head :
    (id tenant : String) (n : ℕ) (g : Conversation → Conversation) (cs : List Conversation)
    (c : Conversation)
    → ((c : Conversation) → ((g c).id ≡ c.id) × ((g c).unread_count ≡ n + c.unread_count))
    → All (λ (y : Conversation). y.id ≢ c.id) cs
    → c.tenant_id ≡ tenant
    → unread id (update_many (is_conversation tenant c.id) g (c ∷ cs))
      ≡ (if str_eq c.id id then n else 0) + unread id (c ∷ cs)
unfolding unread update_many
unread-head id tenant n g cs c k d e =
    let yes : is_conversation tenant c.id c ≡ true =
      ground (arith, eq_iff c.id c.id, eq_iff c.tenant_id tenant) in
    rw (yes, (k c).0, (k c).1, unread-elsewhere id tenant c.id g cs d) (ground arith)

-- One row has the id, so the counter moves once.
pub unread-update :
    (id tenant : String) (n : ℕ) (g : Conversation → Conversation) (cs : List Conversation)
    {c0 : Conversation}
    → ((c : Conversation) → ((g c).id ≡ c.id) × ((g c).unread_count ≡ n + c.unread_count))
    → Distinct (λ (c : Conversation). c.id) cs
    → Memᴰ c0 cs
    → c0.tenant_id ≡ tenant
    → unread id (update_many (is_conversation tenant c0.id) g cs)
      ≡ (if str_eq c0.id id then n else 0) + unread id cs
unfolding unread update_many
unread-update id tenant n g [] k d m e = elim m [ ]
unread-update id tenant n g (c ∷ cs) {c0} k (d, ds) (Memᴰ.head h) e =
    subst
      (λ (z : Conversation).
        unread id (update_many (is_conversation tenant z.id) g (c ∷ cs))
        ≡ (if str_eq z.id id then n else 0) + unread id (c ∷ cs))
      (sym h)
      (unread-head id tenant n g cs c k d (ap (λ (z : Conversation). z.tenant_id) (sym h) ∙ e))
unread-update id tenant n g (c ∷ cs) {c0} k (d, ds) (Memᴰ.tail m) e =
    let other : is_conversation tenant c0.id c ≡ false =
      ground (arith, eq_iff c.id c0.id, All-Memᴰ (λ (y : Conversation). y.id ≢ c.id) cs d m) in
    rw (other, unread-update id tenant n g cs k ds m e) (omega arith)
