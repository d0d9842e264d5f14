-- ===== src/Web/Outbox/Settled.antt =====
-- How a send ends (`runSend` of web/src/lib/store.ts).
use whatsapp_inbox.Shared.{
  ℕ, zero, suc, ◌+◌, ◌-◌, ◌≤◌, ◌<◌, String, ◌≡◌, refl, sym, ap, ◌∙◌, subst, ◌⊎◌, inl, inr, true,
  false, Option, none, some, List, [], ◌∷◌, Memᴰ, arith, eq_refl, ltb, str_eq, if◌then◌else◌,
  Bool-cases, ltb→lt, get_or,
}
use whatsapp_inbox.Schema.{MessageStatus}
use whatsapp_inbox.Web.Types.{Message, SendResult, SendError}
use whatsapp_inbox.Web.State.{set, InboxState, thread_of, put_message}
use whatsapp_inbox.Web.Composer.{
  OutboxEntry, OutboxStatus, on_network_error, should_auto_retry, next_network_attempt,
}
use whatsapp_inbox.Web.Thread.{has_key, cleaned, upsert_message}
use whatsapp_inbox.Web.Thread.Merged.{IsThread, Consistent, mem-upsert_message}
use whatsapp_inbox.Web.Outbox.{
  Call, Attempt, send_loop, run_send, send_fuel, after_call, done, again, apply_send_result,
  show_result, note_result, give_up, fail_thread, fail_rows, mark_domain, mark_network,
}

-- The calls that a send makes at most, by the attempts that its entry counts.
abbrev pub calls_left : ℕ → ℕ
calls_left attempts = if ltb attempts 2 then 3 - attempts else 1

abbrev pub Ends : (InboxState → ℕ → Type 0) → Option (InboxState × ℕ) → Type 0
Ends P none = ⊥
Ends P (some (s, n)) = P s n

mark_domain_failed :
    (detail : String) (m : Message) → (mark_domain detail m).status ≡ MessageStatus.failed
unfolding mark_domain
mark_domain_failed detail m = refl

mark_network_failed : (m : Message) → (mark_network m).status ≡ MessageStatus.failed
unfolding mark_network
mark_network_failed m = refl

module _ (conversation_id key sent_id : String) where
  -- A thread without an id or a key twice, in which the id that the server gives to the message with
  -- the key stands for no other message.
  pub record Sound (l : List Message) : Type 0 where
    pub thread : IsThread l
    pub own_id : (z : Message) → Memᴰ z l → z.id ≡ sent_id → z.client_dedup_key ≡ some key

  -- What the reply to a call says: the message that was sent, with the key, or an error.
  abbrev Told : Option Message → Option SendError → InboxState → Type 0
  Told (some m) error s =
      (m.client_dedup_key ≡ some key) × (m.id ≡ sent_id) × Sound (thread_of s conversation_id)
  Told none (some error) s = Unit
  Told none none s = ⊥

  abbrev Reply : Option Message → Option SendError → Type 0
  Reply (some m) error = (m.client_dedup_key ≡ some key) × (m.id ≡ sent_id)
  Reply none (some error) = Unit
  Reply none none = ⊥

  abbrev Replies : Option SendResult → Type 0
  Replies none = Unit
  Replies (some result) = Reply result.message result.error

  abbrev Answered : InboxState × Option SendResult → Type 0
  Answered (s, none) = Unit
  Answered (s, some result) = Told result.message result.error s

  -- While a call is under way the thread stays sound, if it was, whatever others write; no call is
  -- answered with neither a message nor an error, and a message has the key that was sent and the id
  -- that the server has for it.
  abbrev pub Answers : Call → Type 0
  Answers call =
      (n : ℕ) (s : InboxState)
      → Sound (thread_of s conversation_id)
      → Sound (thread_of (call n s).0 conversation_id) × Replies (call n s).1

  Answered-call :
      (r : InboxState × Option SendResult)
      → Sound (thread_of r.0 conversation_id) × Replies r.1
      → Answered r
  Answered-call (s, none) (t, h) = tt
  Answered-call (s, some result) (t, h) = told result.message result.error h
    where
      told : (m : Option Message) (e : Option SendError) → Reply m e → Told m e s
      told (some m) e (k, i) = (k, i, t)
      told none (some e) h = tt
      told none none h = h

  -- The row is the server's, or it says that it failed.
  abbrev pub RowSettled : Message → Type 0
  RowSettled z = (z.local ≡ none) ⊎ (z.status ≡ MessageStatus.failed)

  abbrev pub ThreadSettled : InboxState → Type 0
  ThreadSettled s =
      (z : Message) → Memᴰ z (thread_of s conversation_id) → has_key key z ≡ true → RowSettled z

  fail_rows-Settled :
      (mark : Message → Message)
      → ((m : Message) → (mark m).status ≡ MessageStatus.failed)
      → (l : List Message) (z : Message) → Memᴰ z (fail_rows key mark l)
      → has_key key z ≡ true
      → RowSettled z
  unfolding fail_rows
  fail_rows-Settled mark h [] z m e = elim m [ ]
  fail_rows-Settled mark h (x ∷ l) z (Memᴰ.head q) e = elim (Bool-cases (has_key key x)) [
    | inl k ↦
        inr (ap (λ (w : Message). w.status) (subst (λ b. z ≡ (if b then mark x else x)) k q) ∙ h x)
    | inr k ↦ absurd (cc (ap (has_key key) (subst (λ b. z ≡ (if b then mark x else x)) k q), k, e))
  ]
  fail_rows-Settled mark h (x ∷ l) z (Memᴰ.tail m) e = fail_rows-Settled mark h l z m e

  fail_thread-Settled :
      (mark : Message → Message)
      → ((m : Message) → (mark m).status ≡ MessageStatus.failed)
      → (s : InboxState) → ThreadSettled (fail_thread conversation_id key mark s)
  unfolding fail_thread
  fail_thread-Settled mark h s z m e =
      fail_rows-Settled mark h (thread_of s conversation_id) z (rw (eq_refl conversation_id) at m) e

  put-Settled :
      (m : Message) (s : InboxState)
      → str_eq key "" ≡ false
      → Told (some m) none s
      → ThreadSettled (put_message conversation_id m s)
  unfolding put_message cleaned
  put-Settled m s n (k, own, t) z i e =
      let c : Consistent m (thread_of s conversation_id) =
        λ z i h. t.own_id z i (h ∙ own) ∙ sym k in
      let i' : Memᴰ z (upsert_message (thread_of s conversation_id) m) =
        rw (eq_refl conversation_id) at i in
      elim (mem-upsert_message m (thread_of s conversation_id) t.thread c i') [
        | inl q ↦ inl (ap (λ (w : Message). w.local) q ∙ refl)
        | inr (i'', h) ↦ absurd (h (inr (rw k (rw n e))))
      ]

  note_result-thread :
      (m : Option Message) (error : Option SendError) (s : InboxState)
      → thread_of (note_result key m error s) conversation_id ≡ thread_of s conversation_id
  unfolding note_result
  note_result-thread m none s = refl
  note_result-thread m (some error) s = refl

  show_result-Settled :
      (m : Option Message) (error : Option SendError) (s : InboxState)
      → str_eq key "" ≡ false
      → Told m error s
      → ThreadSettled (show_result conversation_id key m error s)
  unfolding show_result
  show_result-Settled (some m) error s n t = put-Settled m s n t
  show_result-Settled none (some error) s n t =
      fail_thread-Settled (mark_domain error.message) (mark_domain_failed error.message) s
  show_result-Settled none none s n t = absurd t

  apply_send_result-Settled :
      (result : SendResult) (s : InboxState)
      → str_eq key "" ≡ false
      → Told result.message result.error s
      → ThreadSettled (apply_send_result conversation_id key result s)
  unfolding apply_send_result
  apply_send_result-Settled result s n t z i =
      show_result-Settled result.message result.error s n t z (
        rw
          (note_result-thread result.message result.error
            (show_result conversation_id key result.message result.error s))
          at i)

  -- What an attempt comes to: the end, with the thread settled, or one more attempt of those allowed.
  abbrev Attempted : OutboxEntry → Attempt → Type 0
  Attempted entry (done s) = ThreadSettled s
  Attempted entry (again entry' s) =
      (entry'.attempts ≡ entry.attempts + 1)
      × (entry.attempts < 2)
      × Sound (thread_of s conversation_id)

  after_call-Attempted :
      (entry : OutboxEntry) (r : InboxState × Option SendResult)
      → str_eq key "" ≡ false
      → Sound (thread_of r.0 conversation_id)
      → Answered r
      → Attempted entry (after_call conversation_id key entry r)
  unfolding after_call on_network_error should_auto_retry next_network_attempt give_up
  after_call-Attempted entry (s, some result) n g t = apply_send_result-Settled result s n t
  after_call-Attempted entry (s, none) n g t = elim (Bool-cases (ltb entry.attempts 2)) [
    | inl e ↦ rw e (refl, ltb→lt _ _ e, g)
    | inr e ↦ rw e (
        fail_thread-Settled mark_network mark_network_failed
          (record s { outbox = set s.outbox key (on_network_error entry) }))
  ]

  -- What a loop at an entry comes to: an end with the thread settled, and the number of calls.
  abbrev Outcome : ℕ → OutboxEntry → InboxState → ℕ → Type 0
  Outcome n entry s m = ThreadSettled s × (n < m) × (m ≤ n + calls_left entry.attempts)

  Outcome-again :
      (n : ℕ) (entry entry' : OutboxEntry) (o : Option (InboxState × ℕ))
      → entry'.attempts ≡ entry.attempts + 1
      → entry.attempts < 2
      → Ends (Outcome (suc n) entry') o
      → Ends (Outcome n entry) o
  Outcome-again n entry entry' none e h k = k
  Outcome-again n entry entry' (some (s, m)) e h (t, l, u) = (t, omega arith, ground arith)

  Ends-after :
      (fuel n : ℕ) (call : Call) (entry : OutboxEntry) (r : Attempt)
      → Attempted entry r
      → 3 ≤ suc fuel + entry.attempts
      → ((entry' : OutboxEntry) (s' : InboxState)
          → 1 ≤ fuel
          → 3 ≤ fuel + entry'.attempts
          → Sound (thread_of s' conversation_id)
          → Ends
              (Outcome (suc n) entry')
              (send_loop fuel conversation_id key call (suc n) entry' s'))
      → Ends (Outcome n entry) (elim r [
        | done s' ↦ some (s', suc n)
        | again entry' s' ↦ send_loop fuel conversation_id key call (suc n) entry' s'
      ])
  Ends-after fuel n call entry (done s) t g rest = (t, omega arith, ground arith)
  Ends-after fuel n call entry (again entry' s') (e, h, t) g rest =
      Outcome-again n entry entry' (send_loop fuel conversation_id key call (suc n) entry' s') e h
        (rest entry' s' (omega arith) (omega arith) t)

  send_loop-Ends :
      (fuel : ℕ) (call : Call) (n : ℕ) (entry : OutboxEntry) (s : InboxState)
      → str_eq key "" ≡ false
      → Answers call
      → Sound (thread_of s conversation_id)
      → 1 ≤ fuel
      → 3 ≤ fuel + entry.attempts
      → Ends (Outcome n entry) (send_loop fuel conversation_id key call n entry s)
  unfolding send_loop
  send_loop-Ends zero call n entry s h a t f g = absurd (omega arith)
  send_loop-Ends (suc fuel) call n entry s h a t f g =
      let r = a n s t in
      Ends-after fuel n call entry (after_call conversation_id key entry (call n s))
        (after_call-Attempted entry (call n s) h r.0 (Answered-call (call n s) r)) g
        (λ entry' s' f' g' t'. send_loop-Ends fuel call (suc n) entry' s' h a t' f' g')

  -- The attempts of the entry that a send starts from.
  abbrev pub attempts_of : InboxState → ℕ
  attempts_of s =
      (get_or (s.outbox key)
        (record { client_dedup_key = key; attempts = 1; status = OutboxStatus.sending })).attempts

  Ends-from_zero :
      (entry : OutboxEntry) (o : Option (InboxState × ℕ))
      → Ends (Outcome 0 entry) o
      → Ends (λ s' m. ThreadSettled s' × (1 ≤ m) × (m ≤ calls_left entry.attempts)) o
  Ends-from_zero entry none h = h
  Ends-from_zero entry (some (s, m)) (t, l, u) = (t, omega arith, omega arith)

  -- Every send ends: after one or two calls where its entry counts one attempt or the key is new, and
  -- after one call where it counts more. At its end each message with the key is the server's own copy
  -- or is marked as failed. This is for a key that is not empty; for calls whose answer, if they do
  -- not throw, has an error or a message with that key and the id `sent_id`; and for a thread that is
  -- sound at the start and that others, who may write anything while a call is under way, leave sound:
  -- no id and no key twice, and `sent_id` the id of no message with another key.
  pub run_send-Ends :
      (call : Call) (s : InboxState)
      → str_eq key "" ≡ false
      → Answers call
      → Sound (thread_of s conversation_id)
      → Ends
          (λ s' m. ThreadSettled s' × (1 ≤ m) × (m ≤ calls_left (attempts_of s)))
          (run_send conversation_id key call s)
  unfolding run_send
  run_send-Ends call s h a t =
      let entry =
        get_or (s.outbox key)
          (record { client_dedup_key = key; attempts = 1; status = OutboxStatus.sending }) in
      Ends-from_zero entry _ (
        send_loop-Ends send_fuel call 0 entry (record s { outbox = set s.outbox key entry }) h a t
          (omega arith) (omega arith))
