-- ===== src/Replies/Cooldown.antt =====
-- The claim of the cooldown (`maybeReply` of src/messaging/auto-reply.service.ts).
use whatsapp_inbox.Shared.{
  ℕ, ◌+◌, ◌≤◌, String, ◌≡◌, refl, ◌≢◌, inl, inr, Bool, true, false, Option, none, some, List, [],
  ◌∷◌, arith, eq_iff, ◌==◌, str_eq, Bool-cases, Option-cases,
}
use whatsapp_inbox.Schema.{Conversation}
use whatsapp_inbox.Db.{update_many, count}
use whatsapp_inbox.Db.Rows.{All, Distinct}
use whatsapp_inbox.AutoReply.{DateParts, auto_reply_cooldown_ms, is_open_at}
use whatsapp_inbox.Send.{SendRequest}
use whatsapp_inbox.Replies.{Tenant, claimable, configured, maybe_reply}

claim : ℕ → Conversation → Conversation
claim now c = record c { last_auto_reply_at = some now }

claimed_lem :
    (tenant id : String) (now later : ℕ) (c : Conversation)
    → later ≤ now + auto_reply_cooldown_ms
    → claimable tenant id later (claim now c) ≡ false
unfolding claimable claim
claimed_lem tenant id now later c soon = ground arith

other_lem :
    (tenant id : String) (now : ℕ) (c : Conversation)
    → str_eq c.id id ≡ false
    → claimable tenant id now c ≡ false
unfolding claimable
other_lem tenant id now c h = rw h refl

-- Rows with other ids are never free.
count-others :
    (tenant id : String) (now : ℕ) (cs : List Conversation)
    → All (λ c. str_eq c.id id ≡ false) cs
    → count (claimable tenant id now) cs ≡ 0
unfolding count
count-others tenant id now [] h = refl
count-others tenant id now (c ∷ cs) (h, hs) =
    rw (other_lem tenant id now c h, count-others tenant id now cs hs) refl

update-none :
    (p : Conversation → Bool) (f : Conversation → Conversation) (cs : List Conversation)
    → count p cs ≡ 0
    → update_many p f cs ≡ cs
unfolding update_many count
update-none p f [] h = refl
update-none p f (c ∷ cs) h = elim (Bool-cases (p c)) [
  | inl e ↦ absurd (ground (arith, rw e at h))
  | inr e ↦ rw (e, update-none p f cs (omega (arith, rw e at h)))
]

different :
    (id k : String) (cs : List Conversation)
    → k ≡ id
    → All (λ (c : Conversation). c.id ≢ k) cs
    → All (λ c. str_eq c.id id ≡ false) cs
different id k [] e h = tt
different id k (c ∷ cs) e (h, hs) = (ground (arith, eq_iff c.id id, e), different id k cs e hs)

count-claimed :
    (tenant id : String) (now later : ℕ) (cs : List Conversation)
    → Distinct (λ (c : Conversation). c.id) cs
    → count (claimable tenant id now) cs ≢ 0
    → later ≤ now + auto_reply_cooldown_ms
    → count (claimable tenant id later) (update_many (claimable tenant id now) (claim now) cs) ≡ 0
unfolding count update_many
count-claimed tenant id now later [] d n soon = absurd (n refl)
count-claimed tenant id now later (c ∷ cs) (d, ds) n soon = elim (Bool-cases (str_eq c.id id)) [
  | inl e ↦
      let rest = different id c.id cs ((eq_iff _ _).0 e) d in
      let none_now = count-others tenant id now cs rest in
      elim (Bool-cases (claimable tenant id now c)) [
        | inl k ↦
            rw (k, update-none (claimable tenant id now) (claim now) cs none_now)
              (rw (claimed_lem tenant id now later c soon, count-others tenant id later cs rest)
                refl)
        | inr k ↦ absurd (n (rw (k, none_now) refl))
      ]
  | inr e ↦
      let out = other_lem tenant id now c e in
      rw out (
        rw
          (
            other_lem tenant id later c e,
            count-claimed tenant id now later cs ds (λ z. n (rw (out, z) refl)) soon,
          )
          refl)
]

-- An answer was sent because the row was free.
sent-count :
    (format : ℕ → String → DateParts) (key : String → ℕ → String) (t : Option Tenant)
    (tenant id : String) (now : ℕ) (cs : List Conversation) (r : SendRequest)
    → (maybe_reply format key t tenant id now cs).1 ≡ some r
    → (count (claimable tenant id now) cs ≢ 0)
      × ((maybe_reply format key t tenant id now cs).0
          ≡ update_many (claimable tenant id now) (claim now) cs)
unfolding maybe_reply claim
sent-count format key t tenant id now cs r h = elim (Option-cases (configured t)) [
  | inl e ↦ absurd (ground (arith, rw (maybe_reply, e) at h))
  | inr ((config, zone), e) ↦ elim (Bool-cases (is_open_at format config.schedule now zone)) [
    | inl o ↦ absurd (ground (arith, rw (maybe_reply, e, o) at h))
    | inr o ↦ elim (Bool-cases (count (claimable tenant id now) cs == 0)) [
      | inl z ↦ absurd (ground (arith, rw (maybe_reply, e, o, z) at h))
      | inr z ↦ ((λ n. ground (arith, n, z)), rw (maybe_reply, e, o, z) refl)
    ]
  ]
]

silent :
    (format : ℕ → String → DateParts) (key : String → ℕ → String) (t : Option Tenant)
    (tenant id : String) (now : ℕ) (cs : List Conversation)
    → count (claimable tenant id now) cs ≡ 0
    → maybe_reply format key t tenant id now cs ≡ (cs, none)
unfolding maybe_reply claim
silent format key t tenant id now cs n =
    let zero_ : (count (claimable tenant id now) cs == 0) ≡ true = ground (arith, n) in
    elim (Option-cases (configured t)) [
      | inl e ↦ rw (maybe_reply, e) refl
      | inr ((config, zone), e) ↦ elim (Bool-cases (is_open_at format config.schedule now zone)) [
        | inl o ↦ rw (maybe_reply, e, o) refl
        | inr o ↦
            rw (maybe_reply, e, o, zero_)
              (λ i. (update-none (claimable tenant id now) (claim now) cs n i, none))
      ]
    ]

-- Two calls for one conversation, the second at most six hours after the first: if the first sends
-- an answer, the second sends none and leaves the conversations as they are. Ids of conversations
-- are distinct; the configuration may have changed meanwhile.
pub maybe_reply_once :
    (format : ℕ → String → DateParts) (key : String → ℕ → String) (t t' : Option Tenant)
    (tenant id : String) (now later : ℕ) (cs : List Conversation) (r : SendRequest)
    → Distinct (λ (c : Conversation). c.id) cs
    → (maybe_reply format key t tenant id now cs).1 ≡ some r
    → later ≤ now + auto_reply_cooldown_ms
    → let after = (maybe_reply format key t tenant id now cs).0 in
      maybe_reply format key t' tenant id later after ≡ (after, none)
maybe_reply_once format key t t' tenant id now later cs r d h soon =
    let (free, claimed) = sent-count format key t tenant id now cs r h in
    silent format key t' tenant id later (maybe_reply format key t tenant id now cs).0
      (rw claimed (count-claimed tenant id now later cs d free soon))
