-- ===== src/Statuses/Order.antt =====
-- The columns that a delivery status writes, apart from the rest of the row
-- (src/webhook-worker/message-statuses.service.ts).
use whatsapp_inbox.Shared.{
  ℕ, String, ◌≡◌, refl, sym, ap, ◌≢◌, inl, inr, false, Option, none, some, List, arith, eq_iff,
  str_eq, if◌then◌else◌, Bool-cases, Text,
}
use mathlib.Core.Path.{◌≡⟨◌⟩◌, ◌∎}
use whatsapp_inbox.Meta.{MetaError, MetaPricing}
use whatsapp_inbox.Schema.{MessageStatus, Message}
use whatsapp_inbox.Statuses.{
  status_eq, error_code_of, error_title_of, error_detail_of, first_error, status_update,
  pricing_to_update, pricing_update,
}

record Delivery : Type 0 where
  status : MessageStatus
  delivered_at : Option ℕ
  read_at : Option ℕ
  failed_at : Option ℕ
  error_code : Option ℕ
  error_title : Option Text
  error_detail : Option Text

abbrev delivery : Message → Delivery
delivery m = record {
  status = m.status;
  delivered_at = m.delivered_at;
  read_at = m.read_at;
  failed_at = m.failed_at;
  error_code = m.error_code;
  error_title = m.error_title;
  error_detail = m.error_detail;
}

abbrev put : Message → Delivery → Message
put m d = record m {
  status = d.status;
  delivered_at = d.delivered_at;
  read_at = d.read_at;
  failed_at = d.failed_at;
  error_code = d.error_code;
  error_title = d.error_title;
  error_detail = d.error_detail;
}

abbrev fill : Option ℕ → ℕ → Option ℕ
fill none ts = some ts
fill (some t) ts = some t

-- The status as one of the kinds that the code tells apart.
data Kind : Type 0 where
  sent delivered read failed other : Kind

kind_of : String → Kind
kind_of s =
    if str_eq s "failed"
    then Kind.failed
    else if str_eq s "sent"
    then Kind.sent
    else if str_eq s "delivered"
    then Kind.delivered
    else if str_eq s "read"
    then Kind.read
    else Kind.other

next : Kind → MessageStatus → MessageStatus
next Kind.failed s = MessageStatus.failed
next Kind.sent MessageStatus.pending = MessageStatus.sent
next Kind.delivered MessageStatus.pending = MessageStatus.delivered
next Kind.delivered MessageStatus.sent = MessageStatus.delivered
next Kind.read MessageStatus.pending = MessageStatus.read
next Kind.read MessageStatus.sent = MessageStatus.read
next Kind.read MessageStatus.delivered = MessageStatus.read
next _ s = s

step : Kind → List MetaError → ℕ → Delivery → Delivery
unfolding next
step Kind.failed errors ts d =
    let final = status_eq d.status MessageStatus.failed in
    let e = first_error errors in
    record d {
      status = MessageStatus.failed;
      failed_at = fill d.failed_at ts;
      error_code = if final then d.error_code else error_code_of e;
      error_title = if final then d.error_title else error_title_of e;
      error_detail = if final then d.error_detail else error_detail_of e;
    }
step Kind.delivered errors ts d = record d {
  status = next Kind.delivered d.status;
  delivered_at = fill d.delivered_at ts;
}
step Kind.read errors ts d = record d {
  status = next Kind.read d.status;
  read_at = fill d.read_at ts;
}
step Kind.sent errors ts d = record d { status = next Kind.sent d.status }
step Kind.other errors ts d = d

failed-put :
    (errors : List MetaError) (ts : ℕ) (m : Message)
    → status_update "failed" errors ts m ≡ put m (step Kind.failed errors ts (delivery m))
unfolding status_update step
failed-put errors ts m = ground arith

other-put :
    (s : String) (errors : List MetaError) (ts : ℕ) (m : Message)
    → str_eq s "failed" ≡ false
    → str_eq s "sent" ≡ false
    → str_eq s "delivered" ≡ false
    → str_eq s "read" ≡ false
    → status_update s errors ts m ≡ put m (step Kind.other errors ts (delivery m))
unfolding status_update step
other-put s errors ts m e1 e2 e3 e4 = rw (e1, e2, e3, e4)

pricing_to_update_idem :
    (p : MetaPricing) (m : Message)
    → pricing_to_update p (pricing_to_update p m) ≡ pricing_to_update p m
unfolding pricing_to_update
pricing_to_update_idem p m = ground arith

sent-put :
    (errors : List MetaError) (ts : ℕ) (m : Message)
    → status_update "sent" errors ts m ≡ put m (step Kind.sent errors ts (delivery m))
unfolding status_update step
sent-put errors ts m = ground arith

delivered-put :
    (errors : List MetaError) (ts : ℕ) (m : Message)
    → status_update "delivered" errors ts m ≡ put m (step Kind.delivered errors ts (delivery m))
unfolding status_update step
delivered-put errors ts m = ground arith

read-put :
    (errors : List MetaError) (ts : ℕ) (m : Message)
    → status_update "read" errors ts m ≡ put m (step Kind.read errors ts (delivery m))
unfolding status_update step
read-put errors ts m = ground arith

kind-put :
    (s : String) (errors : List MetaError) (ts : ℕ) (m : Message)
    → status_update s errors ts m ≡ put m (step (kind_of s) errors ts (delivery m))
unfolding kind_of
kind-put s errors ts m = elim (Bool-cases (str_eq s "failed")) [
  | inl e ↦ rw e (rw ((eq_iff s "failed").0 e) (failed-put errors ts m))
  | inr e1 ↦ elim (Bool-cases (str_eq s "sent")) [
    | inl e ↦ rw (e1, e) (rw ((eq_iff s "sent").0 e) (sent-put errors ts m))
    | inr e2 ↦ elim (Bool-cases (str_eq s "delivered")) [
      | inl e ↦ rw (e1, e2, e) (rw ((eq_iff s "delivered").0 e) (delivered-put errors ts m))
      | inr e3 ↦ elim (Bool-cases (str_eq s "read")) [
        | inl e ↦ rw (e1, e2, e3, e) (rw ((eq_iff s "read").0 e) (read-put errors ts m))
        | inr e4 ↦ rw (e1, e2, e3, e4) (other-put s errors ts m e1 e2 e3 e4)
      ]
    ]
  ]
]

kind_of-eq : (s s' : String) → s ≢ s' → kind_of s ≡ kind_of s' → kind_of s ≡ Kind.other
unfolding kind_of
kind_of-eq s s' ne = ground (
  arith,
  eq_iff s "failed",
  eq_iff s "sent",
  eq_iff s "delivered",
  eq_iff s "read",
  eq_iff s' "failed",
  eq_iff s' "sent",
  eq_iff s' "delivered",
  eq_iff s' "read",
)

step_comm :
    (k k' : Kind) (errors errors' : List MetaError) (ts ts' : ℕ) (d : Delivery)
    → (k ≡ k' → k ≡ Kind.other)
    → step k errors ts (step k' errors' ts' d) ≡ step k' errors' ts' (step k errors ts d)
unfolding step
step_comm Kind.other k' errors errors' ts ts' d h = refl
step_comm k Kind.other errors errors' ts ts' d h = refl
step_comm k k' errors errors' ts ts' d h = ground arith

step_idem :
    (k : Kind) (errors : List MetaError) (ts ts' : ℕ) (d : Delivery)
    → step k errors ts' (step k errors ts d) ≡ step k errors ts d
unfolding step
step_idem Kind.other errors ts ts' d = refl
step_idem k errors ts ts' d = ground arith

-- Two statuses of different kinds may come in either order.
pub status_update_comm :
    (s s' : String) (errors errors' : List MetaError) (ts ts' : ℕ) (m : Message)
    → s ≢ s'
    → status_update s errors ts (status_update s' errors' ts' m)
      ≡ status_update s' errors' ts' (status_update s errors ts m)
status_update_comm s s' errors errors' ts ts' m ne =
    status_update s errors ts (status_update s' errors' ts' m)
    ≡⟨ ap (status_update s errors ts) (kind-put s' errors' ts' m) ⟩
      status_update s errors ts (put m (step (kind_of s') errors' ts' (delivery m)))
    ≡⟨ kind-put s errors ts (put m (step (kind_of s') errors' ts' (delivery m))) ⟩
      put m (step (kind_of s) errors ts (step (kind_of s') errors' ts' (delivery m)))
    ≡⟨ ap (put m) (
        step_comm (kind_of s) (kind_of s') errors errors' ts ts' (delivery m)
          (kind_of-eq s s' ne)) ⟩
      put m (step (kind_of s') errors' ts' (step (kind_of s) errors ts (delivery m)))
    ≡⟨ sym (kind-put s' errors' ts' (put m (step (kind_of s) errors ts (delivery m)))) ⟩
      status_update s' errors' ts' (put m (step (kind_of s) errors ts (delivery m)))
    ≡⟨ ap (status_update s' errors' ts') (sym (kind-put s errors ts m)) ⟩
      status_update s' errors' ts' (status_update s errors ts m) ∎

-- A second delivery of the status, whatever the clock says then, changes nothing.
pub status_update_idem :
    (s : String) (errors : List MetaError) (ts ts' : ℕ) (m : Message)
    → status_update s errors ts' (status_update s errors ts m) ≡ status_update s errors ts m
status_update_idem s errors ts ts' m =
    status_update s errors ts' (status_update s errors ts m)
    ≡⟨ ap (status_update s errors ts') (kind-put s errors ts m) ⟩
      status_update s errors ts' (put m (step (kind_of s) errors ts (delivery m)))
    ≡⟨ kind-put s errors ts' (put m (step (kind_of s) errors ts (delivery m))) ⟩
      put m (step (kind_of s) errors ts' (step (kind_of s) errors ts (delivery m)))
    ≡⟨ ap (put m) (step_idem (kind_of s) errors ts ts' (delivery m)) ⟩
      put m (step (kind_of s) errors ts (delivery m))
    ≡⟨ sym (kind-put s errors ts m) ⟩ status_update s errors ts m ∎

pub pricing_update_idem :
    (p : Option MetaPricing) (m : Message)
    → pricing_update p (pricing_update p m) ≡ pricing_update p m
unfolding pricing_update
pricing_update_idem none m = refl
pricing_update_idem (some p) m = pricing_to_update_idem p m

pub pricing-status_comm :
    (p : Option MetaPricing) (s : String) (errors : List MetaError) (ts : ℕ) (m : Message)
    → pricing_update p (status_update s errors ts m)
      ≡ status_update s errors ts (pricing_update p m)
unfolding pricing_update
pricing-status_comm none s errors ts m = refl
pricing-status_comm (some p) s errors ts m =
    pricing_to_update p (status_update s errors ts m)
    ≡⟨ ap (pricing_to_update p) (kind-put s errors ts m) ⟩
      pricing_to_update p (put m (step (kind_of s) errors ts (delivery m)))
    ≡⟨ refl ⟩ put (pricing_to_update p m) (step (kind_of s) errors ts (delivery m))
    ≡⟨ sym (kind-put s errors ts (pricing_to_update p m)) ⟩
      status_update s errors ts (pricing_to_update p m) ∎
