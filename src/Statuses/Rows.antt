-- ===== src/Statuses/Rows.antt =====
-- One status and the row of its message (src/webhook-worker/message-statuses.service.ts).
use whatsapp_inbox.Shared.{ℕ, ◌≤◌, String, ◌≡◌, refl, ap, ◌∙◌, Option, none, some, List, arith}
use whatsapp_inbox.Meta.{MetaError, MetaPricing}
use whatsapp_inbox.Schema.{MessageStatus, Message}
use whatsapp_inbox.Statuses.{status_update, pricing_update, is_row, has_wamid}

-- PENDING < SENT < DELIVERED < READ, and FAILED is above all.
abbrev pub rank : MessageStatus → ℕ
rank MessageStatus.pending = 0
rank MessageStatus.sent = 1
rank MessageStatus.delivered = 2
rank MessageStatus.read = 3
rank MessageStatus.failed = 4

-- A column that may be filled once.
abbrev pub Kept {ℓ} : {A : Type ℓ} → Option A → Option A → Type ℓ
Kept {A} old new = (a : A) → old ≡ some a → new ≡ some a

pub record Advances (m m' : Message) : Type 0 where
  pub forwards : rank m.status ≤ rank m'.status
  pub delivered_kept : Kept m.delivered_at m'.delivered_at
  pub read_kept : Kept m.read_at m'.read_at
  pub failed_kept : Kept m.failed_at m'.failed_at
  pub final_error :
      m.status ≡ MessageStatus.failed
      → (m'.error_code ≡ m.error_code)
        × (m'.error_title ≡ m.error_title)
        × (m'.error_detail ≡ m.error_detail)
  pub same_id : m'.id ≡ m.id
  pub same_tenant : m'.tenant_id ≡ m.tenant_id
  pub same_conversation : m'.conversation_id ≡ m.conversation_id
  pub same_body : m'.body ≡ m.body
  pub same_time : m'.timestamp ≡ m.timestamp

pub status_update-Advances :
    (s : String) (errors : List MetaError) (ts : ℕ) (m : Message)
    → Advances m (status_update s errors ts m)
unfolding status_update
status_update-Advances s errors ts m = ground arith

pub Advances-refl : (m : Message) → Advances m m
Advances-refl m = ground arith

failed_of_rank : (s : MessageStatus) → 4 ≤ rank s → s ≡ MessageStatus.failed
failed_of_rank s h = ground arith

final_error_trans :
    (a b c : Message)
    → Advances a b
    → Advances b c
    → a.status ≡ MessageStatus.failed
    → (c.error_code ≡ a.error_code)
      × (c.error_title ≡ a.error_title)
      × (c.error_detail ≡ a.error_detail)
final_error_trans a b c h k e =
    let b_failed : b.status ≡ MessageStatus.failed =
      failed_of_rank b.status (omega (arith, h.forwards, ap rank e)) in
    let (c1, t1, d1) = h.final_error e in
    let (c2, t2, d2) = k.final_error b_failed in (c2 ∙ c1, t2 ∙ t1, d2 ∙ d1)

pub Advances-trans : (a b c : Message) → Advances a b → Advances b c → Advances a c
Advances-trans a b c h k = record {
  forwards = omega (arith, h.forwards, k.forwards);
  delivered_kept = λ t e. k.delivered_kept t (h.delivered_kept t e);
  read_kept = λ t e. k.read_kept t (h.read_kept t e);
  failed_kept = λ t e. k.failed_kept t (h.failed_kept t e);
  final_error = λ e. final_error_trans a b c h k e;
  same_id = k.same_id ∙ h.same_id;
  same_tenant = k.same_tenant ∙ h.same_tenant;
  same_conversation = k.same_conversation ∙ h.same_conversation;
  same_body = k.same_body ∙ h.same_body;
  same_time = k.same_time ∙ h.same_time;
}

pub pricing_update-Advances :
    (p : Option MetaPricing) (m : Message) → Advances m (pricing_update p m)
unfolding pricing_update
pricing_update-Advances none m = Advances-refl m
pricing_update-Advances (some p) m = ground arith

-- The columns by which a row is found stay.
pub row_stays :
    (tenant id wamid : String) (s : String) (errors : List MetaError) (ts : ℕ) (m : Message)
    → (is_row tenant id (status_update s errors ts m) ≡ is_row tenant id m)
      × (has_wamid tenant wamid (status_update s errors ts m) ≡ has_wamid tenant wamid m)
unfolding status_update
row_stays tenant id wamid s errors ts m = ground arith

pub row_stays_priced :
    (tenant id wamid : String) (p : Option MetaPricing) (m : Message)
    → (is_row tenant id (pricing_update p m) ≡ is_row tenant id m)
      × (has_wamid tenant wamid (pricing_update p m) ≡ has_wamid tenant wamid m)
unfolding pricing_update
row_stays_priced tenant id wamid none m = (refl, refl)
row_stays_priced tenant id wamid (some p) m = (refl, refl)
