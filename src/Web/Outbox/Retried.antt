-- ===== src/Web/Outbox/Retried.antt =====
-- What a retry of a failed message asks of the server (`retrySend` of web/src/lib/store.ts).
use whatsapp_inbox.Shared.{
  ℕ, String, ◌≡◌, refl, ap, inl, inr, Bool, true, false, not, Option, none, some, eq_refl, str_eq,
  if◌then◌else◌, Bool-cases, get_or,
}
use whatsapp_inbox.Web.Types.{Message}
use whatsapp_inbox.Web.Composer.{OutboxEntry, OutboxStatus, start_send, manual_retry, retry_of}
use whatsapp_inbox.Web.State.{InboxState}
use whatsapp_inbox.Web.Outbox.{Call, run_send}
use whatsapp_inbox.Web.Outbox.Sends.{
  text, Api, send_text, resend_body, retry_with_key, retry_of_key, retry_send,
}

abbrev pub is_domain : OutboxStatus → Bool
is_domain OutboxStatus.failed_domain = true
is_domain OutboxStatus.failed_network = false
is_domain OutboxStatus.sending = false

retry_of_key_lem :
    (status : OutboxStatus) (entry : OutboxEntry) (key fresh : String)
    → entry.client_dedup_key ≡ key
    → str_eq fresh key ≡ false
    → str_eq (retry_of status entry fresh).client_dedup_key key ≡ not (is_domain status)
unfolding retry_of
retry_of_key_lem OutboxStatus.failed_domain entry key fresh e n = n
retry_of_key_lem OutboxStatus.failed_network entry key fresh e n = rw e (eq_refl key)
retry_of_key_lem OutboxStatus.sending entry key fresh e n = rw e (eq_refl key)

-- The entry of a key in the outbox; a message without one failed on the server.
abbrev pub entry_of : InboxState → String → OutboxEntry
entry_of s key =
    get_or (s.outbox key)
      (record { client_dedup_key = key; attempts = 1; status = OutboxStatus.failed_domain })

-- The key of the next call: a new one if the server has answered that the message failed.
abbrev pub retried_key : InboxState → String → String → String
retried_key s key fresh = if is_domain (entry_of s key).status then fresh else key

module _ (api api' : Api) where
  send_text-ext :
      (conversation_id body key : String) (now : ℕ) (s : InboxState)
      → api (text conversation_id key body) ≡ api' (text conversation_id key body)
      → send_text api conversation_id body key now s ≡ send_text api' conversation_id body key now s
  unfolding send_text start_send
  send_text-ext conversation_id body key now s h = rw h

  resend_body-ext :
      (conversation_id : String) (body : Option String) (key : String) (now : ℕ) (s : InboxState)
      → ((b : String) → api (text conversation_id key b) ≡ api' (text conversation_id key b))
      → resend_body api conversation_id body key now s
        ≡ resend_body api' conversation_id body key now s
  unfolding resend_body
  resend_body-ext conversation_id none key now s h = refl
  resend_body-ext conversation_id (some body) key now s h =
      rw (send_text-ext conversation_id body key now s (h body))

  -- A retry asks the server only to send texts of the message's conversation, a failed template or
  -- file included: under the message's key, if its calls threw, and under the new key, if the server
  -- had answered that it failed. That is: two servers that answer those requests alike leave the
  -- client in one state. The key that `manualRetry` makes is not the message's, and the outbox keeps
  -- an entry under its own key.
  pub retry_send-Requests :
      (m : Message) (key fresh fresh' : String) (now : ℕ) (s : InboxState)
      → m.client_dedup_key ≡ some key
      → str_eq fresh key ≡ false
      → (entry_of s key).client_dedup_key ≡ key
      → ((body : String)
          → api (text m.conversation_id (retried_key s key fresh') body)
            ≡ api' (text m.conversation_id (retried_key s key fresh') body))
      → retry_send api m fresh fresh' now s ≡ retry_send api' m fresh fresh' now s
  unfolding retry_send retry_of_key retry_with_key manual_retry
  retry_send-Requests m key fresh fresh' now s k n e h =
      let same = retry_of_key_lem (entry_of s key).status (entry_of s key) key fresh e n in
      rw k (elim (Bool-cases (is_domain (entry_of s key).status)) [
        | inl d ↦
            rw (same, d)
              (ap (λ o. if str_eq key "" then some (s, 0) else o)
                (resend_body-ext m.conversation_id m.body fresh' now s (λ b. rw d at (h b))))
        | inr d ↦
            rw (same, d)
              (ap
                (λ (c : Call).
                  if str_eq key "" then some (s, 0) else run_send m.conversation_id key c s)
                (rw d at (h (get_or m.body ""))))
      ])
