-- ===== src/Send/Reported.antt =====
-- What the caller of `send` is told after Meta's answer (the step 5 of
-- src/messaging/send-message.service.ts).
use whatsapp_inbox.Shared.{
  ℕ, ◌≤◌, String, ◌≡◌, refl, sym, ap, ◌∙◌, subst, Bool, true, ◌&&◌, none, some, List, arith, str_eq,
  if◌then◌else◌, and_true, is_none, is_some, Text,
}
use mathlib.Core.Option
use whatsapp_inbox.Schema.{MessageStatus, Message}
use whatsapp_inbox.Db.{update_many}
use whatsapp_inbox.Db.Laws.{find_first-update_many, find_first_sound}
use whatsapp_inbox.SendErrors.{
  GraphApiError, MappedSendError, map_meta_send_error, map_transport_send_error,
}
use whatsapp_inbox.Send.{Db, SendOutcome}
use whatsapp_inbox.Send.Steps.{is_message, Attempt, Answer}
use whatsapp_inbox.Send.Settle.{live_message, mark_failed, fail, succeed, settle}

-- The row before and after, and the outcome.
pub Reported : Answer → ℕ → Message → Message → SendOutcome → Type 0
Reported (Answer.sent wamid) now m m' o =
    (o.error ≡ none) × (o.http_status ≡ 201) × (m'.wamid ≡ wamid) × (m'.status ≡ m.status)
Reported answer now m m' o =
    (is_some o.error ≡ true)
    × (400 ≤ o.http_status)
    × (m'.status ≡ MessageStatus.failed)
    × (m'.failed_at ≡ some now)

found_after :
    (tenant id : String) (f : Message → Message) (ms : List Message) {m : Message}
    → ((x : Message)
        → ((f x).id ≡ x.id) × ((f x).tenant_id ≡ x.tenant_id) × ((f x).deleted_at ≡ x.deleted_at))
    → live_message tenant id ms ≡ some m
    → live_message tenant id (update_many (is_message tenant id) f ms) ≡ some (f m)
unfolding live_message
found_after tenant id f ms {m} k e =
    let q : Message → Bool = λ m. is_none m.deleted_at && is_message tenant id m in
    let here : is_message tenant id m ≡ true = (and_true (find_first_sound q ms e)).1 in
    find_first-update_many (is_message tenant id) q f
      (λ x. let (i, t, d) = k x in λ j. is_none (d j) && (str_eq (i j) id && str_eq (t j) tenant))
      ms
    ∙ ap (Option.map (λ x. if is_message tenant id x then f x else x)) e
    ∙ rw here refl

failed_same :
    (e : MappedSendError) (now : ℕ) (x : Message)
    → ((mark_failed e now x).id ≡ x.id)
      × ((mark_failed e now x).tenant_id ≡ x.tenant_id)
      × ((mark_failed e now x).deleted_at ≡ x.deleted_at)
unfolding mark_failed
failed_same e now x = (refl, refl, refl)

-- The row of the attempt and what is said of it.
abbrev pub Result : String → Attempt → Answer → ℕ → Message → Db × SendOutcome → Type 0
Result tenant a answer now m (db', o) =
    (m' : Message) × (o.message ≡ some m')
    × (live_message tenant a.message_id db'.messages ≡ some m')
    × Reported answer now m m' o

fail-Result :
    (tenant : String) (a : Attempt) (answer : Answer) (e : MappedSendError) (now : ℕ) (db : Db)
    (m : Message)
    → live_message tenant a.message_id db.messages ≡ some m
    → ((m' : Message) (o : SendOutcome)
        → is_some o.error ≡ true
        → o.http_status ≡ e.http_status
        → m'.status ≡ MessageStatus.failed
        → m'.failed_at ≡ some now
        → Reported answer now m m' o)
    → Result tenant a answer now m ((fail tenant a e now db).0, (fail tenant a e now db).1)
unfolding fail mark_failed
fail-Result tenant a answer e now db m found report =
    let after =
      found_after tenant a.message_id (mark_failed e now) db.messages (failed_same e now) found in
    (mark_failed e now m, after, after, report (mark_failed e now m) _ refl refl refl refl)

mapped_status : (e : GraphApiError) → 400 ≤ (map_meta_send_error e).http_status
unfolding map_meta_send_error
mapped_status e = ground arith

transport_status : (d : Text) → 400 ≤ (map_transport_send_error d).http_status
unfolding map_transport_send_error
transport_status d = omega arith

-- If the attempt's row is still there when Meta has answered: it is found afterwards, and the outcome
-- shows it as it then is. After a success it has Meta's wamid and the state it had, with status 201;
-- after any error it is FAILED with the time of the failure, and the caller is told an error with an
-- HTTP status of 400 or more.
pub settle-Result :
    (tenant : String) (a : Attempt) (answer : Answer) (now : ℕ) (db : Db) (m : Message)
    → live_message tenant a.message_id db.messages ≡ some m
    → let r = settle tenant a answer now db in Result tenant a answer now m (r.0, r.1)
unfolding settle succeed Reported
settle-Result tenant a (Answer.sent wamid) now db m found =
    let after =
      found_after tenant a.message_id (λ x. record x { wamid = wamid }) db.messages
        (λ x. (refl, refl, refl)) found in
    (record m { wamid = wamid }, after, after, (refl, refl, refl, refl))
settle-Result tenant a (Answer.graph_error e) now db m found =
    fail-Result tenant a (Answer.graph_error e) (map_meta_send_error e) now db m found
      (λ m' o err http st at. (err, subst (λ n. 400 ≤ n) (sym http) (mapped_status e), st, at))
settle-Result tenant a (Answer.transport_error d) now db m found =
    fail-Result tenant a (Answer.transport_error d) (map_transport_send_error d) now db m found
      (λ m' o err http st at. (err, subst (λ n. 400 ≤ n) (sym http) (transport_status d), st, at))
