-- ===== src/Statuses/Effect.antt =====
-- The row of the message that a status names (src/webhook-worker/message-statuses.service.ts).
use whatsapp_inbox.Shared.{
  ℕ, ◌≤◌, String, ◌≡◌, sym, subst, ◌≢◌, inl, inr, true, some, List, arith, eq_iff, eq_refl,
  Option-cases, is_some,
}
use whatsapp_inbox.Meta.{MetaStatus, MetaError}
use whatsapp_inbox.Schema.{MessageStatus, Message, WhatsappAccount}
use whatsapp_inbox.Db.{find_first}
use whatsapp_inbox.Db.Laws.{find_first-update_many, find_first_sound}
use whatsapp_inbox.Statuses.{
  Db, Advance, advance_from, has_wamid, is_row, status_update, pricing_update, apply,
}
use whatsapp_inbox.Statuses.Rows.{rank}
use whatsapp_inbox.Statuses.Plan.{time_of, effect, effect_stays, run, apply-run, plan-some}

-- A message has reached the status `k` of Meta.
pub record Reached (k : String) (m : Message) : Type 0 where
  pub advanced : (a : Advance) → advance_from k ≡ some a → rank a.to ≤ rank m.status
  pub failed : k ≡ "failed" → (m.status ≡ MessageStatus.failed) × (is_some m.failed_at ≡ true)
  pub delivered : k ≡ "delivered" → is_some m.delivered_at ≡ true
  pub read : k ≡ "read" → is_some m.read_at ≡ true

delivered_seals :
    (errors : List MetaError) (ts : ℕ) (m : Message)
    → is_some (status_update "delivered" errors ts m).delivered_at ≡ true
unfolding status_update
delivered_seals errors ts m = ground arith

read_seals :
    (errors : List MetaError) (ts : ℕ) (m : Message)
    → is_some (status_update "read" errors ts m).read_at ≡ true
unfolding status_update
read_seals errors ts m = ground arith

status_update-Reached :
    (k : String) (s : MetaStatus) (ts : ℕ) (m : Message) → Reached k (status_update k s.errors ts m)
unfolding status_update advance_from
status_update-Reached k s ts m = record {
  advanced = λ a e.
      ground (arith, eq_iff k "failed", eq_iff k "sent", eq_iff k "delivered", eq_iff k "read");
  failed = λ e. ground (arith, eq_iff k "failed");
  delivered = λ e.
      subst (λ j. is_some (status_update j s.errors ts m).delivered_at ≡ true) (sym e)
        (delivered_seals s.errors ts m);
  read = λ e.
      subst (λ j. is_some (status_update j s.errors ts m).read_at ≡ true) (sym e)
        (read_seals s.errors ts m);
}

effect-Reached : (k : String) (s : MetaStatus) (ts : ℕ) (m : Message) → Reached k (effect s k ts m)
unfolding effect pricing_update
effect-Reached k s ts m = elim (Option-cases s.pricing) [
  | inl e ↦ rw e (status_update-Reached k s ts m)
  | inr (p, e) ↦
      let r = status_update-Reached k s ts m in
      rw e (record {
        advanced = r.advanced;
        failed = r.failed;
        delivered = r.delivered;
        read = r.read;
      })
]

is_row_self :
    (tenant wamid : String) (m : Message)
    → has_wamid tenant wamid m ≡ true
    → is_row tenant m.id m ≡ true
is_row_self tenant wamid m h = ground (arith, eq_refl m.id)

-- A status that names a live message of the account's tenant by its wamid reaches it: the row that
-- the wamid finds afterwards is at least SENT, DELIVERED or READ after `sent`, `delivered` or
-- `read`, with the time of delivery or reading set, and FAILED with its time set after `failed`.
pub apply-Reached :
    (a : WhatsappAccount) (s : MetaStatus) (now : ℕ) (db : Db) (wamid k : String) (m : Message)
    → s.id ≡ some wamid
    → s.status ≡ some k
    → wamid ≢ ""
    → k ≢ ""
    → find_first (has_wamid a.tenant_id wamid) db.messages ≡ some m
    → (m' : Message) × (find_first (has_wamid a.tenant_id wamid) (apply a s now db).0.messages
        ≡ some m')
      × Reached k m'
unfolding run
apply-Reached a s now db wamid k m named known wn kn found =
    let T = a.tenant_id in
    let ts = time_of s now in
    let row : is_row T m.id m ≡ true =
      is_row_self T wamid m (find_first_sound (has_wamid T wamid) db.messages found) in
    (
      effect s k ts m,
      rw (apply-run a s now db, plan-some T s db.messages wamid k m named known wn kn found)
          (rw
            (find_first-update_many (is_row T m.id) (has_wamid T wamid) (effect s k ts)
              (λ x. (effect_stays T m.id wamid s k ts x).1) db.messages)
            (rw (found, row))),
      effect-Reached k s ts m,
    )
