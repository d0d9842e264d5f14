-- ===== src/Send/Calls.antt =====
-- When Meta is called (`send` of src/messaging/send-message.service.ts).
use whatsapp_inbox.Shared.{
  ℕ, String, ◌≡◌, refl, ◌⊎◌, inl, inr, true, ◌&&◌, Option, none, some, List, [], ◌∷◌, str_eq,
  Bool-cases, Option-cases, is_none,
}
use whatsapp_inbox.Schema.{WhatsappAccount, Contact, Conversation, Message}
use whatsapp_inbox.Db.{find_first}
use whatsapp_inbox.Send.{Db, SendRequest, Payload, SendOutcome}
use whatsapp_inbox.Send.Steps.{
  is_conversation, is_contact, has_key, Attempt, Begun, begin, is_rate_limited,
  call_meta_with_retry,
}
use whatsapp_inbox.Send.Settle.{World, Sent, finish, send}
use whatsapp_inbox.Send.Recorded.{Recorded, Allowed, begin-Allowed}

-- A run that called Meta.
pub record Called (tenant conversation_id : String) (request : SendRequest) (w : World) (db : Db)
    (s : Sent) : Type 0 where
  pub allowed : Allowed tenant conversation_id request w.started db
  pub recorded : Recorded tenant request (w.before_create db).messages s.at_call.messages
  pub payload : Payload
  pub once_or_twice :
      (s.calls ≡ payload ∷ [])
      ⊎ ((s.calls ≡ payload ∷ payload ∷ []) × (is_rate_limited w.first ≡ true))

finish-calls :
    (tenant : String) (w : World) (later : Db) (ms : List Message) (a : Attempt)
    → let s = finish tenant w later (Begun.pending ms a) in
      (s.at_call.messages ≡ ms)
      × ((s.calls ≡ a.prepared.payload ∷ [])
          ⊎ ((s.calls ≡ a.prepared.payload ∷ a.prepared.payload ∷ [])
              × (is_rate_limited w.first ≡ true)))
unfolding finish call_meta_with_retry
finish-calls tenant w later ms a = elim (Bool-cases (is_rate_limited w.first)) [
  | inl e ↦ (refl, inr (rw e refl, e))
  | inr e ↦ (refl, inl (rw e refl))
]

finish-Called :
    (tenant cid : String) (request : SendRequest) (sent_by : Option String) (w : World) (db : Db)
    (b : Begun)
    → begin tenant cid request sent_by w.started w.new_id db (w.before_create db).messages ≡ b
    → let s = finish tenant w (w.before_create db) b in
      ((s.calls ≡ []) × (s.after ≡ w.before_create db)) ⊎ Called tenant cid request w db s
unfolding finish
finish-Called tenant cid request sent_by w db (Begun.threw e) h = inl (refl, refl)
finish-Called tenant cid request sent_by w db (Begun.answered o) h = inl (refl, refl)
finish-Called tenant cid request sent_by w db (Begun.pending ms a) h =
    let (allowed, recorded) =
      begin-Allowed tenant cid request sent_by w.started w.new_id db (w.before_create db).messages
        ms a h in
    let (at_call, n) = finish-calls tenant w (w.before_create db) ms a in
    inr (record {
      allowed = allowed;
      recorded = recorded;
      payload = a.prepared.payload;
      once_or_twice = n;
    })

-- Whatever others do meanwhile and whatever Meta answers: a request either calls nobody and writes
-- nothing, or it calls Meta with one payload, once, or twice if the first answer was the rate limit.
-- Before the call its row is stored, pending and without a wamid, and no row of the tenant had its
-- key when it was created. Free text and media are sent only with the window open when the
-- conversation was read.
pub send-Called :
    (tenant cid : String) (request : SendRequest) (sent_by : Option String) (w : World) (db : Db)
    → let s = send tenant cid request sent_by w db in
      ((s.calls ≡ []) × (s.after ≡ w.before_create db)) ⊎ Called tenant cid request w db s
unfolding send
send-Called tenant cid request sent_by w db =
    finish-Called tenant cid request sent_by w db
      (begin tenant cid request sent_by w.started w.new_id db (w.before_create db).messages) refl

module _ (tenant cid : String) (db : Db) where
  abbrev read_conversation : Option Conversation
  read_conversation =
      find_first (λ c. is_none c.deleted_at && is_conversation tenant cid c) db.conversations

  abbrev read_contact : Conversation → Option Contact
  read_contact c = find_first (is_contact tenant c.contact_id) db.contacts

  abbrev read_account : Conversation → Option WhatsappAccount
  read_account c = find_first (λ a. str_eq a.id c.whatsapp_account_id) db.accounts

  -- What a request with the key of `m` comes to: an exception exactly where a row that it needs is
  -- missing, and `m` with status 200 and no error where none is.
  pub data Repeated (m : Message) : Option SendOutcome → Type 0 where
    no_conversation : read_conversation ≡ none → Repeated m none
    no_contact :
        (c : Conversation) → read_conversation ≡ some c → read_contact c ≡ none → Repeated m none
    no_account :
        (c : Conversation) → read_conversation ≡ some c → read_account c ≡ none → Repeated m none
    same_message :
        (c : Conversation) (contact : Contact) (account : WhatsappAccount)
        → read_conversation ≡ some c
        → read_contact c ≡ some contact
        → read_account c ≡ some account
        → Repeated m (some (record { http_status = 200; message = some m; error = none }))

  abbrev outcome_of : Begun → Option SendOutcome
  outcome_of (Begun.answered o) = some o
  outcome_of _ = none

  -- A begun request whose key is taken leaves nothing pending.
  abbrev Stops : Begun → Type 0
  Stops (Begun.pending ms a) = ⊥
  Stops (Begun.threw e) = Unit
  Stops (Begun.answered o) = Unit

  begin-Repeated :
      (request : SendRequest) (sent_by : Option String) (now : ℕ) (new_id : String)
      (before : List Message) (m : Message)
      → find_first (has_key tenant request.client_dedup_key) db.messages ≡ some m
      → let b = begin tenant cid request sent_by now new_id db before in
        Stops b × Repeated m (outcome_of b)
  unfolding begin
  begin-Repeated request sent_by now new_id before m k = elim (Option-cases read_conversation) [
    | inl e ↦ rw (begin, e) (tt, Repeated.no_conversation e)
    | inr (c, e) ↦ elim (Option-cases (read_contact c)) [
      | inl f ↦ rw (begin, e, f) (tt, Repeated.no_contact c e f)
      | inr (contact, f) ↦ elim (Option-cases (read_account c)) [
        | inl g ↦ rw (begin, e, f, g) (tt, Repeated.no_account c e g)
        | inr (account, g) ↦
            rw (begin, e, f, g, k) (tt, Repeated.same_message c contact account e f g)
      ]
    ]
  ]

  finish-Repeated :
      (w : World) (later : Db) (m : Message) (b : Begun)
      → Stops b
      → Repeated m (outcome_of b)
      → let s = finish tenant w later b in (s.calls ≡ []) × (s.after ≡ later) × Repeated m s.result
  unfolding finish
  finish-Repeated w later m (Begun.threw e) h r = (refl, refl, r)
  finish-Repeated w later m (Begun.answered o) h r = (refl, refl, r)
  finish-Repeated w later m (Begun.pending ms a) h r = absurd h

-- A request whose key a live message of the tenant has: Meta is not called and nothing is written.
-- If the conversation, its contact and its account are there, the answer is that message as it is,
-- with status 200 and no error; an exception is thrown only if one of them is missing.
pub send-Repeated :
    (tenant cid : String) (request : SendRequest) (sent_by : Option String) (w : World) (db : Db)
    (m : Message)
    → find_first (has_key tenant request.client_dedup_key) db.messages ≡ some m
    → let s = send tenant cid request sent_by w db in
      (s.calls ≡ []) × (s.after ≡ w.before_create db) × Repeated tenant cid db m s.result
unfolding send
send-Repeated tenant cid request sent_by w db m k =
    let (stops, r) =
      begin-Repeated tenant cid db request sent_by w.started w.new_id (w.before_create db).messages
        m k in
    finish-Repeated tenant cid db w (w.before_create db) m
      (begin tenant cid request sent_by w.started w.new_id db (w.before_create db).messages) stops r
