-- ===== src/Send/Settled.antt =====
-- The tables and the answer after Meta's answer (the step 5 of
-- src/messaging/send-message.service.ts).
use whatsapp_inbox.Shared.{
  ℕ, String, ◌≡◌, refl, sym, ap, ◌∙◌, ◌≢◌, inl, inr, true, false, Option, List, arith, eq_iff,
  str_eq, Bool-cases, and_true, Text,
}
use whatsapp_inbox.Schema.{WhatsappAccount, Conversation, Message}
use whatsapp_inbox.Db.{update_many}
use whatsapp_inbox.Db.Laws.{Pointwise, Pointwise-refl, Pointwise-update_many, update_many-comp}
use whatsapp_inbox.SendErrors.{
  GraphApiError, MappedSendError, map_meta_send_error, map_transport_send_error, code_is,
  meta_error_window_expired,
}
use whatsapp_inbox.Send.{Db}
use whatsapp_inbox.Send.Steps.{is_conversation, is_message, Attempt, Answer}
use whatsapp_inbox.Send.Settle.{
  mark_failed, rewind, expire_token, is_account_error, fail, preview_of, touch_message,
  touch_outbound, succeed, settle,
}
use whatsapp_inbox.Send.Kept.{
  says_closed, refuses_token, ConversationKept, kept_refl, rewind-kept, touched-kept,
}

-- What a settled attempt may have changed.
pub record Settles (tenant : String) (a : Attempt) (answer : Answer) (now : ℕ) (db db' : Db)
    : Type 0 where
  pub messages :
      Pointwise (λ m m'. is_message tenant a.message_id m ≡ false → m' ≡ m) db.messages db'.messages
  pub conversations :
      Pointwise (ConversationKept tenant a answer now) db.conversations db'.conversations
  pub accounts :
      Pointwise
        (λ x x'. (x.id ≢ a.account.id → x' ≡ x) × (refuses_token answer ≡ false → x' ≡ x))
        db.accounts
        db'.accounts
  pub others : (db'.contacts ≡ db.contacts) × (db'.templates ≡ db.templates)

only_row :
    (tenant id : String) (f : Message → Message) (ms : List Message)
    → Pointwise
        (λ m m'. is_message tenant id m ≡ false → m' ≡ m)
        ms
        (update_many (is_message tenant id) f ms)
only_row tenant id f ms =
    Pointwise-update_many _ (is_message tenant id) f (λ _ _. refl)
      (λ m h n. absurd (ground (arith, h, n))) ms

same_accounts :
    (answer : Answer) (id : String) (xs : List WhatsappAccount)
    → Pointwise (λ x x'. (x.id ≢ id → x' ≡ x) × (refuses_token answer ≡ false → x' ≡ x)) xs xs
same_accounts answer id xs = Pointwise-refl _ (λ _. ((λ _. refl), (λ _. refl))) xs

touched-row :
    (now : ℕ) (preview : Text) (tenant id : String) (c : Conversation)
    → is_conversation tenant id (touch_message now preview c) ≡ is_conversation tenant id c
unfolding touch_message
touched-row now preview tenant id c = ground arith

succeed-Settles :
    (tenant : String) (a : Attempt) (wamid : Option String) (now : ℕ) (db : Db)
    → Settles tenant a (Answer.sent wamid) now db (succeed tenant a wamid now db).0
unfolding succeed
succeed-Settles tenant a wamid now db =
    let here = is_conversation tenant a.conversation.id in
    let preview = preview_of a.prepared.preview in
    record {
      messages = only_row tenant a.message_id (λ m. record m { wamid = wamid }) db.messages;
      conversations =
          rw
            (update_many-comp here (touch_message now preview) (touch_outbound now)
              (touched-row now preview tenant a.conversation.id) db.conversations)
            (Pointwise-update_many _ here (λ c. touch_outbound now (touch_message now preview c))
              (kept_refl tenant a (Answer.sent wamid) now)
              (λ c h.
                touched-kept tenant a (Answer.sent wamid) now preview c
                  ((eq_iff _ _).0 (and_true h).1))
              db.conversations);
      accounts = same_accounts (Answer.sent wamid) a.account.id db.accounts;
      others = (refl, refl);
    }

rewound :
    (tenant : String) (a : Attempt) (answer : Answer) (now : ℕ)
    → says_closed answer ≡ true
    → (cs : List Conversation)
    → Pointwise
        (ConversationKept tenant a answer now)
        cs
        (update_many (is_conversation tenant a.conversation.id) (rewind a.started_at now) cs)
rewound tenant a answer now closed cs =
    Pointwise-update_many _ (is_conversation tenant a.conversation.id) (rewind a.started_at now)
      (kept_refl tenant a answer now)
      (λ c h. rewind-kept tenant a answer now c closed ((eq_iff _ _).0 (and_true h).1)) cs

expired :
    (answer : Answer) (id : String) (e : MappedSendError) (now : ℕ)
    → (refuses_token answer ≡ false → ⊥)
    → (xs : List WhatsappAccount)
    → Pointwise
        (λ x x'. (x.id ≢ id → x' ≡ x) × (refuses_token answer ≡ false → x' ≡ x))
        xs
        (update_many (λ x. str_eq x.id id) (expire_token e now) xs)
expired answer id e now refused xs =
    Pointwise-update_many _ (λ x. str_eq x.id id) (expire_token e now)
      (λ _. ((λ _. refl), (λ _. refl)))
      (λ x h. ((λ n. absurd (n ((eq_iff _ _).0 h))), (λ r. absurd (refused r)))) xs

fail-Settles :
    (tenant : String) (a : Attempt) (answer : Answer) (e : MappedSendError) (now : ℕ) (db : Db)
    → code_is e.meta_code meta_error_window_expired ≡ says_closed answer
    → (refuses_token answer ≡ false → is_account_error e.domain_code ≡ false)
    → Settles tenant a answer now db (fail tenant a e now db).0
unfolding fail
fail-Settles tenant a answer e now db closed token = record {
  messages = only_row tenant a.message_id (mark_failed e now) db.messages;
  conversations = elim (Bool-cases (code_is e.meta_code meta_error_window_expired)) [
    | inl k ↦ rw k (rewound tenant a answer now (sym closed ∙ k) db.conversations)
    | inr k ↦ rw k (Pointwise-refl _ (kept_refl tenant a answer now) db.conversations)
  ];
  accounts = elim (Bool-cases (is_account_error e.domain_code)) [
    | inl k ↦
        rw k
          (expired answer a.account.id e now (λ r. absurd (ground (arith, k, token r))) db.accounts)
    | inr k ↦ rw k (same_accounts answer a.account.id db.accounts)
  ];
  others = (refl, refl);
}

map_meta_send_error_lem :
    (e : GraphApiError)
    → ((map_meta_send_error e).meta_code ≡ e.code)
      × (refuses_token (Answer.graph_error e) ≡ false
          → is_account_error (map_meta_send_error e).domain_code ≡ false)
unfolding map_meta_send_error
map_meta_send_error_lem e = (ground arith, λ h. ground arith)

transport_lem :
    (d : Text)
    → (code_is (map_transport_send_error d).meta_code meta_error_window_expired ≡ false)
      × (is_account_error (map_transport_send_error d).domain_code ≡ false)
unfolding map_transport_send_error
transport_lem d = (refl, refl)

-- Whatever Meta answers and whatever others wrote while it was called: only the row of the attempt
-- changes among the messages; a conversation of another tenant stays as it is; the dates of the last
-- message and of the last outbound one never go back; an inbound message that came after the attempt
-- began keeps its date, and all keep it unless Meta says that the window is closed; an account
-- changes only if it is the attempt's and Meta refuses its token.
pub settle-Settles :
    (tenant : String) (a : Attempt) (answer : Answer) (now : ℕ) (db : Db)
    → Settles tenant a answer now db (settle tenant a answer now db).0
unfolding settle
settle-Settles tenant a (Answer.sent wamid) now db = succeed-Settles tenant a wamid now db
settle-Settles tenant a (Answer.graph_error e) now db =
    let (code, token) = map_meta_send_error_lem e in
    fail-Settles tenant a (Answer.graph_error e) (map_meta_send_error e) now db
      (ap (λ c. code_is c meta_error_window_expired) code) token
settle-Settles tenant a (Answer.transport_error d) now db =
    fail-Settles tenant a (Answer.transport_error d) (map_transport_send_error d) now db
      (transport_lem d).0 (λ _. (transport_lem d).1)
