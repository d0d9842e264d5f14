-- ===== src/Inbound/Unread.antt =====
-- The unread counters over any number of deliveries (`processMessage` of
-- src/webhook-worker/inbound-messages.service.ts).
use whatsapp_inbox.Shared.{
  ℕ, ◌+◌, String, ◌≡◌, refl, ap, ◌≢◌, inl, inr, Bool, true, ◌||◌, List, [], ◌∷◌, ◌++◌, Memᴰ, arith,
  eq_iff, str_eq, if◌then◌else◌, Bool-cases, and_true, get_or, any, Text,
}
use whatsapp_inbox.Json.{Json}
use whatsapp_inbox.Meta.{MetaContact, MetaInboundMessage}
use whatsapp_inbox.Numbers.{parse_epoch_seconds}
use whatsapp_inbox.Schema.{WhatsappAccount, Contact, Conversation}
use whatsapp_inbox.Db.{update_many, create, upsert, count}
use whatsapp_inbox.Db.Laws.{Pointwise-update_many, find_first_sound}
use whatsapp_inbox.Db.Rows.{All, Distinct, Distinct-append, Distinct-Pointwise, find_first-Memᴰ}
use whatsapp_inbox.Mapping.{
  MappedInboundMessage, map_inbound_message, build_message_preview, is_reaction_type,
}
use whatsapp_inbox.Inbound.{
  Db, NewIds, is_contact, is_thread, is_conversation, is_closed, same_wamid, new_contact,
  refresh_contact, new_conversation, restore, new_message, profile_of, receive, accept,
  process_message,
}
use whatsapp_inbox.Inbound.Upserts.{upsert-found, upsert_cases}
use whatsapp_inbox.Inbound.Counting.{counted, count_in_lem, unread, counts, received, unread-update}

pub id_of : Conversation → String
id_of c = c.id

counted_lem :
    (t : ℕ) (preview : Text) (r w : Bool) (c : Conversation)
    → ((counted t preview r w c).id ≡ c.id)
      × ((counted t preview r w c).unread_count ≡ (if r then 0 else 1) + c.unread_count)
unfolding counted
counted_lem t preview r w c = (ground arith, ground arith)

unread-restore :
    (id : String) (q : Conversation → Bool) (cs : List Conversation)
    → unread id (update_many q restore cs) ≡ unread id cs
unfolding unread update_many restore
unread-restore id q [] = refl
unread-restore id q (c ∷ cs) = elim (Bool-cases (q c)) [
  | inl e ↦ rw (e, unread-restore id q cs)
  | inr e ↦ rw (e, unread-restore id q cs)
]

unread-snoc :
    (id : String) (cs : List Conversation) (c : Conversation)
    → c.unread_count ≡ 0
    → unread id (cs ++ c ∷ []) ≡ unread id cs
unfolding unread
unread-snoc id [] c z = ground arith
unread-snoc id (d ∷ cs) c z = rw (unread-snoc id cs c z)

count-snoc :
    {A : Type 0} (q : A → Bool) (xs : List A) (x : A)
    → count q (xs ++ x ∷ []) ≡ (if q x then 1 else 0) + count q xs
unfolding count
count-snoc q [] x = refl
count-snoc q (y ∷ xs) x = rw (count-snoc q xs x) (omega arith)

-- The conversations after the second step.
record Threads (tenant account_id contact_id : String) (cs : List Conversation)
    (threads : List Conversation × Conversation) : Type 0 where
  distinct : Distinct (λ (c : Conversation). c.id) threads.0
  member : Memᴰ threads.1 threads.0
  owner : threads.1.tenant_id ≡ tenant
  same : (id : String) → unread id threads.0 ≡ unread id cs

threads_lem :
    (tenant account_id contact_id new_id : String) (cs : List Conversation)
    → Distinct (λ (c : Conversation). c.id) cs
    → All (λ (c : Conversation). c.id ≢ new_id) cs
    → Threads tenant account_id contact_id cs (
        upsert
          (is_thread tenant account_id contact_id)
          (new_conversation new_id tenant account_id contact_id)
          restore
          cs)
unfolding new_conversation restore
threads_lem tenant account_id contact_id new_id cs d fresh =
    let key = is_thread tenant account_id contact_id in
    let new = new_conversation new_id tenant account_id contact_id in
    let is_new : key new ≡ true =
      ground
        (arith, eq_iff tenant tenant, eq_iff account_id account_id, eq_iff contact_id contact_id) in
    let found = upsert-found key restore (λ _. refl) new cs is_new in
    let own = find_first_sound key (upsert key new restore cs).0 found in
    record {
      distinct =
          upsert_cases (Distinct (λ (c : Conversation). c.id)) key restore new cs
            (Distinct-append (λ (c : Conversation). c.id) cs new d fresh)
            (Distinct-Pointwise (λ (c : Conversation). c.id) cs (update_many key restore cs)
              (Pointwise-update_many (λ (x y : Conversation). y.id ≡ x.id) key restore (λ _. refl)
                (λ _ _. refl) cs)
              d);
      member = find_first-Memᴰ key (upsert key new restore cs).0 found;
      owner = (eq_iff _ _).0 (and_true own).0;
      same = λ id.
          upsert_cases (λ rows. unread id rows ≡ unread id cs) key restore new cs
            (unread-snoc id cs new refl) (unread-restore id key cs);
    }

counts-new :
    (id mid cid wamid : String) (a : WhatsappAccount) (msg : MetaInboundMessage)
    (m : MappedInboundMessage) (t : ℕ)
    → m.is_reaction ≡ is_reaction_type m.type_
    → ◌≡◌ {A = ℕ}
        (if counts id (new_message mid a cid wamid msg m t) then 1 else 0)
        (if str_eq cid id then (if m.is_reaction then 0 else 1) else 0)
unfolding new_message
counts-new id mid cid wamid a msg m t e = ground (arith, e)

-- The counters have moved with the messages.
abbrev pub Balanced : Db → Db → Type 0
Balanced before after =
    (id : String)
    → unread id after.conversations + received id before.messages
      ≡ unread id before.conversations + received id after.messages

balance : (u u' s r r' k k' : ℕ) → u' ≡ k + s → s ≡ u → r' ≡ k' + r → k' ≡ k → u' + r ≡ u + r'
balance u u' s r r' k k' a b c d = omega arith

receive-Balanced :
    (a : WhatsappAccount) (w : String) (msg : MetaInboundMessage) (m : MappedInboundMessage) (t : ℕ)
    (mid contact_id : String) (contacts : List Contact) (threads : List Conversation × Conversation)
    (db : Db)
    → m.is_reaction ≡ is_reaction_type m.type_
    → Threads a.tenant_id a.id contact_id db.conversations threads
    → Balanced db (receive a w msg m t mid contacts threads db.messages).0
      × Distinct
          (λ (c : Conversation). c.id)
          (receive a w msg m t mid contacts threads db.messages).0.conversations
unfolding receive create received
receive-Balanced a w msg m t mid contact_id contacts threads db r h =
    let preview = build_message_preview m in
    let closed = is_closed threads.1.status in
    let bumped : ℕ = if m.is_reaction then 0 else 1 in
    let row = new_message mid a threads.1.id w msg m t in
    let here = is_conversation a.tenant_id threads.1.id in
    let after = update_many here (counted t preview m.is_reaction closed) threads.0 in
    elim (Bool-cases (any (same_wamid (new_message mid a threads.1.id w msg m t)) db.messages)) [
      | inl e ↦
          rw (receive, create, e)
            ((λ id. ap (λ n. n + received id db.messages) (h.same id)), h.distinct)
      | inr e ↦
          rw (receive, create, e)
            (
              rw (count_in_lem a.tenant_id threads.1.id t preview m.is_reaction closed threads.0)
                  (λ id.
                    balance (unread id db.conversations) (unread id after) (unread id threads.0)
                      (received id db.messages) (count (counts id) (db.messages ++ row ∷ []))
                      (if str_eq threads.1.id id then bumped else 0)
                      (if counts id row then 1 else 0)
                      (unread-update id a.tenant_id bumped (counted t preview m.is_reaction closed)
                        threads.0 (counted_lem t preview m.is_reaction closed) h.distinct h.member
                        h.owner)
                      (h.same id) (count-snoc (counts id) db.messages row)
                      (counts-new id mid threads.1.id w a msg m t r)),
              rw (count_in_lem a.tenant_id threads.1.id t preview m.is_reaction closed threads.0) (
                  Distinct-Pointwise (λ (c : Conversation). c.id) threads.0 after
                    (Pointwise-update_many (λ (x y : Conversation). y.id ≡ x.id) here
                      (counted t preview m.is_reaction closed) (λ _. refl)
                      (λ c _. (counted_lem t preview m.is_reaction closed c).0) threads.0)
                    h.distinct),
            )
    ]

process-Balanced :
    (stringify : Json → Text) (a : WhatsappAccount) (senders : List MetaContact)
    (msg : MetaInboundMessage) (now : ℕ) (ids : NewIds) (db : Db)
    → Distinct (λ (c : Conversation). c.id) db.conversations
    → All (λ (c : Conversation). c.id ≢ ids.conversation) db.conversations
    → Balanced db (process_message stringify a senders msg now ids db).0
      × Distinct
          (λ (c : Conversation). c.id)
          (process_message stringify a senders msg now ids db).0.conversations
unfolding process_message accept map_inbound_message
process-Balanced stringify a senders msg now ids db d fresh =
    let w = get_or msg.id "" in
    let wa_id = get_or msg.from "" in
    let profile = profile_of senders wa_id in
    let contacts =
      upsert (is_contact a.tenant_id wa_id) (new_contact ids.contact a.tenant_id wa_id profile)
        (refresh_contact profile) db.contacts in
    elim (Bool-cases (str_eq w "" || str_eq wa_id "")) [
      | inl e ↦ rw e ((λ id. refl), d)
      | inr e ↦ rw e (
          receive-Balanced a w msg (map_inbound_message stringify msg)
            (get_or (parse_epoch_seconds msg.timestamp) now) ids.message contacts.1.id contacts.0
            (upsert (is_thread a.tenant_id a.id contacts.1.id)
              (new_conversation ids.conversation a.tenant_id a.id contacts.1.id) restore
              db.conversations)
            db refl
            (threads_lem a.tenant_id a.id contacts.1.id ids.conversation db.conversations d fresh))
    ]

-- Deliveries one after the other, of any messages to any accounts.
pub data Deliveries (stringify : Json → Text) (db : Db) : Db → Type 0 where
  nothing : Deliveries stringify db db
  then :
      {db' : Db}
      → Deliveries stringify db db'
      → (a : WhatsappAccount) (senders : List MetaContact) (msg : MetaInboundMessage) (now : ℕ)
        (ids : NewIds)
      → All (λ (c : Conversation). c.id ≢ ids.conversation) db'.conversations
      → Deliveries stringify db (process_message stringify a senders msg now ids db').0

deliveries :
    {stringify : Json → Text} {db db' : Db}
    → Distinct (λ (c : Conversation). c.id) db.conversations
    → Deliveries stringify db db'
    → Balanced db db' × Distinct (λ (c : Conversation). c.id) db'.conversations
deliveries d Deliveries.nothing = ((λ id. refl), d)
deliveries {stringify} {db} d (Deliveries.then {db'} ds a senders msg now ids fresh) =
    let (b, d') = deliveries d ds in
    let (b', d'') = process-Balanced stringify a senders msg now ids db' d' fresh in
    ((λ id. omega (arith, b id, b' id)), d'')

-- After any sequence of deliveries, repeated ones and reactions among them and in any order, the
-- unread counter of every conversation has grown by exactly the number of messages of customers, no
-- reactions, that were stored in it: if ids of conversations differ and new ones are fresh.
pub Deliveries-unread :
    {stringify : Json → Text} {db db' : Db}
    → Distinct (λ (c : Conversation). c.id) db.conversations
    → Deliveries stringify db db'
    → Balanced db db'
Deliveries-unread d ds = (deliveries d ds).0
