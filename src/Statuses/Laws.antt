-- ===== src/Statuses/Laws.antt =====
-- Statuses one after the other, on whole tables (src/webhook-worker/message-statuses.service.ts).
use whatsapp_inbox.Shared.{
  ℕ, String, ◌≡◌, refl, sym, ap, ◌∙◌, ◌≢◌, inl, inr, not, ◌&&◌, Option, none, some, List, arith,
  eq_iff, str_eq, Bool-cases, and_true,
}
use mathlib.Core.Path.{fun_ext, ◌≡⟨◌⟩◌, ◌∎}
use whatsapp_inbox.Meta.{MetaStatus}
use whatsapp_inbox.Schema.{Message, Conversation, WhatsappAccount}
use whatsapp_inbox.Db.Laws.{
  Pointwise, Pointwise-refl, Pointwise-update_many, update_many-comp, update_many_comm,
}
use whatsapp_inbox.Statuses.{
  Db, is_row, is_conversation, is_outbound, status_update, pricing_update, confirm_outbound, apply,
}
use whatsapp_inbox.Statuses.Rows.{
  Advances, Advances-refl, Advances-trans, status_update-Advances, pricing_update-Advances,
}
use whatsapp_inbox.Statuses.Order.{
  status_update_comm, status_update_idem, pricing_update_idem, pricing-status_comm,
}
use whatsapp_inbox.Statuses.Plan.{
  plan, plan-status, time_of, effect, effect_stays, confirm, run, apply-run, run-plan-run,
}

effect-Advances :
    (s : MetaStatus) (k : String) (ts : ℕ) (m : Message) → Advances m (effect s k ts m)
unfolding effect
effect-Advances s k ts m =
    Advances-trans m (status_update k s.errors ts m) _ (status_update-Advances k s.errors ts m)
      (pricing_update-Advances s.pricing (status_update k s.errors ts m))

run-Advances :
    (tenant : String) (s : MetaStatus) (ts : ℕ) (p : Option (String × Message)) (db : Db)
    → Pointwise Advances db.messages (run tenant s ts p db).messages
unfolding run
run-Advances tenant s ts none db = Pointwise-refl Advances Advances-refl db.messages
run-Advances tenant s ts (some (k, m)) db =
    Pointwise-update_many Advances (is_row tenant m.id) (effect s k ts) Advances-refl
      (λ x _. effect-Advances s k ts x) db.messages

-- Whatever status arrives, in whatever order: no message of the table goes back in
-- PENDING < SENT < DELIVERED < READ < FAILED, a delivery, read or failure time that is set stays as
-- it is, a message that has failed keeps its error, and no row changes its identity or contents.
pub apply-Advances :
    (a : WhatsappAccount) (s : MetaStatus) (now : ℕ) (db : Db)
    → Pointwise Advances db.messages (apply a s now db).0.messages
apply-Advances a s now db =
    rw (apply-run a s now db)
      (run-Advances a.tenant_id s (time_of s now) (plan a.tenant_id s db.messages) db)

effect_idem :
    (s : MetaStatus) (k : String) (ts ts' : ℕ) (m : Message)
    → effect s k ts' (effect s k ts m) ≡ effect s k ts m
unfolding effect
effect_idem s k ts ts' m =
    let st = status_update k s.errors ts m in
    pricing_update s.pricing (status_update k s.errors ts' (pricing_update s.pricing st))
    ≡⟨ ap (pricing_update s.pricing) (sym (pricing-status_comm s.pricing k s.errors ts' st)) ⟩
      pricing_update s.pricing (pricing_update s.pricing (status_update k s.errors ts' st))
    ≡⟨ pricing_update_idem s.pricing (status_update k s.errors ts' st) ⟩
      pricing_update s.pricing (status_update k s.errors ts' st)
    ≡⟨ ap (pricing_update s.pricing) (status_update_idem k s.errors ts ts' m) ⟩
      pricing_update s.pricing st ∎

confirm_stays :
    (tenant id : String) (t : ℕ) (c : Conversation)
    → is_conversation tenant id (confirm_outbound t c) ≡ is_conversation tenant id c
unfolding confirm_outbound
confirm_stays tenant id t c = ground arith

confirm_outbound_idem :
    (t : ℕ) (c : Conversation) → confirm_outbound t (confirm_outbound t c) ≡ confirm_outbound t c
unfolding confirm_outbound
confirm_outbound_idem t c = ground arith

confirm_outbound_comm :
    (t u : ℕ) (c : Conversation)
    → confirm_outbound t (confirm_outbound u c) ≡ confirm_outbound u (confirm_outbound t c)
unfolding confirm_outbound
confirm_outbound_comm t u c = ground arith

confirm_idem :
    (tenant k : String) (m : Message) (cs : List Conversation)
    → confirm tenant k m (confirm tenant k m cs) ≡ confirm tenant k m cs
unfolding confirm
confirm_idem tenant k m cs =
    elim (Bool-cases (is_outbound m.direction && not (str_eq k "failed"))) [
      | inr e ↦ rw e
      | inl e ↦ rw e (
          rw
            (update_many-comp (is_conversation tenant m.conversation_id)
              (confirm_outbound m.timestamp) (confirm_outbound m.timestamp)
              (confirm_stays tenant m.conversation_id m.timestamp) cs)
            (rw (fun_ext (confirm_outbound_idem m.timestamp))))
    ]

confirm_comm :
    (tenant k k' : String) (m m' : Message) (cs : List Conversation)
    → confirm tenant k' m' (confirm tenant k m cs) ≡ confirm tenant k m (confirm tenant k' m' cs)
unfolding confirm
confirm_comm tenant k k' m m' cs =
    elim (Bool-cases (is_outbound m.direction && not (str_eq k "failed"))) [
      | inr e ↦ rw e
      | inl e ↦ elim (Bool-cases (is_outbound m'.direction && not (str_eq k' "failed"))) [
        | inr e' ↦ rw e'
        | inl e' ↦
            rw (e, e')
              (update_many_comm (is_conversation tenant m.conversation_id)
                (is_conversation tenant m'.conversation_id) (confirm_outbound m.timestamp)
                (confirm_outbound m'.timestamp)
                (confirm_stays tenant m.conversation_id m'.timestamp)
                (confirm_stays tenant m'.conversation_id m.timestamp)
                (confirm_outbound_comm m'.timestamp m.timestamp) cs)
      ]
    ]

effect_comm :
    (s s' : MetaStatus) (k k' : String) (ts ts' : ℕ) (m : Message)
    → k ≢ k'
    → s.pricing ≡ none
    → effect s' k' ts' (effect s k ts m) ≡ effect s k ts (effect s' k' ts' m)
unfolding effect pricing_update
effect_comm s s' k k' ts ts' m ne free = rw free (
    pricing_update s'.pricing (status_update k' s'.errors ts' (status_update k s.errors ts m))
    ≡⟨ ap (pricing_update s'.pricing)
        (status_update_comm k' k s'.errors s.errors ts' ts m (λ e. ne (sym e))) ⟩
      pricing_update s'.pricing (status_update k s.errors ts (status_update k' s'.errors ts' m))
    ≡⟨ pricing-status_comm s'.pricing k s.errors ts (status_update k' s'.errors ts' m) ⟩
      status_update k s.errors ts (pricing_update s'.pricing (status_update k' s'.errors ts' m)) ∎)

run_idem :
    (tenant : String) (s : MetaStatus) (ts ts' : ℕ) (p : Option (String × Message)) (db : Db)
    → run tenant s ts' p (run tenant s ts p db) ≡ run tenant s ts p db
unfolding run
run_idem tenant s ts ts' none db = refl
run_idem tenant s ts ts' (some (k, m)) db = rw (
  update_many-comp (is_row tenant m.id) (effect s k ts) (effect s k ts')
      (λ x. (effect_stays tenant m.id "" s k ts x).0) db.messages,
  fun_ext (effect_idem s k ts ts'),
  confirm_idem tenant k m db.conversations,
)

run_comm :
    (tenant : String) (s s' : MetaStatus) (ts ts' : ℕ) (k k' : String) (m m' : Message) (db : Db)
    → k ≢ k'
    → s.pricing ≡ none
    → run tenant s' ts' (some (k', m')) (run tenant s ts (some (k, m)) db)
      ≡ run tenant s ts (some (k, m)) (run tenant s' ts' (some (k', m')) db)
unfolding run
run_comm tenant s s' ts ts' k k' m m' db ne free = rw (
  update_many_comm (is_row tenant m.id) (is_row tenant m'.id) (effect s k ts) (effect s' k' ts')
      (λ x. (effect_stays tenant m.id "" s' k' ts' x).0)
      (λ x. (effect_stays tenant m'.id "" s k ts x).0) (λ x. effect_comm s s' k k' ts ts' x ne free)
      db.messages,
  confirm_comm tenant k k' m m' db.conversations,
)

-- Meta may send a status twice, and the worker may run twice: the second time, at any later clock,
-- leaves both tables as the first left them.
pub apply_idem :
    (a : WhatsappAccount) (s : MetaStatus) (now later : ℕ) (db : Db)
    → (apply a s later (apply a s now db).0).0 ≡ (apply a s now db).0
apply_idem a s now later db =
    let once = run a.tenant_id s (time_of s now) (plan a.tenant_id s db.messages) db in
    (apply a s later (apply a s now db).0).0
    ≡⟨ ap (λ d. (apply a s later d).0) (apply-run a s now db) ⟩ (apply a s later once).0
    ≡⟨ apply-run a s later once ⟩
      run a.tenant_id s (time_of s later) (plan a.tenant_id s once.messages) once
    ≡⟨ run-plan-run a.tenant_id s s (time_of s now) (time_of s later)
        (plan a.tenant_id s db.messages) db once ⟩
      run a.tenant_id s (time_of s later) (plan a.tenant_id s db.messages) once
    ≡⟨ run_idem a.tenant_id s (time_of s now) (time_of s later) (plan a.tenant_id s db.messages)
        db ⟩
      once
    ≡⟨ sym (apply-run a s now db) ⟩ (apply a s now db).0 ∎

run_comm_plans :
    (tenant : String) (s s' : MetaStatus) (ts ts' : ℕ) (p p' : Option (String × Message)) (db : Db)
    → ((k k' : String) (m m' : Message) → p ≡ some (k, m) → p' ≡ some (k', m') → k ≢ k')
    → s.pricing ≡ none
    → run tenant s' ts' p' (run tenant s ts p db) ≡ run tenant s ts p (run tenant s' ts' p' db)
unfolding run
run_comm_plans tenant s s' ts ts' none p' db ne free = refl
run_comm_plans tenant s s' ts ts' (some (k, m)) none db ne free = refl
run_comm_plans tenant s s' ts ts' (some (k, m)) (some (k', m')) db ne free =
    run_comm tenant s s' ts ts' k k' m m' db (ne k k' m m' refl refl) free

apply-apply :
    (a : WhatsappAccount) (s s' : MetaStatus) (now now' : ℕ) (db : Db)
    → (apply a s' now' (apply a s now db).0).0
      ≡ run a.tenant_id s'
          (time_of s' now')
          (plan a.tenant_id s' db.messages)
          (run a.tenant_id s (time_of s now) (plan a.tenant_id s db.messages) db)
apply-apply a s s' now now' db =
    let once = run a.tenant_id s (time_of s now) (plan a.tenant_id s db.messages) db in
    (apply a s' now' (apply a s now db).0).0
    ≡⟨ ap (λ d. (apply a s' now' d).0) (apply-run a s now db) ⟩ (apply a s' now' once).0
    ≡⟨ apply-run a s' now' once ⟩
      run a.tenant_id s' (time_of s' now') (plan a.tenant_id s' once.messages) once
    ≡⟨ run-plan-run a.tenant_id s s' (time_of s now) (time_of s' now')
        (plan a.tenant_id s db.messages) db once ⟩
      run a.tenant_id s' (time_of s' now') (plan a.tenant_id s' db.messages) once ∎

-- Statuses of different kinds, of one message or of two, may arrive in either order: both tables
-- end up the same, if at least one of the two brings no pricing.
pub apply_comm :
    (a : WhatsappAccount) (s s' : MetaStatus) (now now' : ℕ) (db : Db)
    → s.status ≢ s'.status
    → s.pricing ≡ none
    → (apply a s' now' (apply a s now db).0).0 ≡ (apply a s now (apply a s' now' db).0).0
apply_comm a s s' now now' db ne free =
    let p = plan a.tenant_id s db.messages in
    let p' = plan a.tenant_id s' db.messages in
    apply-apply a s s' now now' db
    ∙ run_comm_plans a.tenant_id s s' (time_of s now) (time_of s' now') p p' db
        (λ k k' m m' e e' same. ne (
          plan-status a.tenant_id s db.messages k m e
          ∙ ap some same
          ∙ sym (plan-status a.tenant_id s' db.messages k' m' e')))
        free
    ∙ sym (apply-apply a s' s now' now db)

-- A row that another tenant owns.
abbrev pub SameIfForeign : {A : Type 0} → (A → String) → String → A → A → Type 0
SameIfForeign tenant_of tenant x y = tenant_of x ≢ tenant → y ≡ x

run_isolated :
    (tenant : String) (s : MetaStatus) (ts : ℕ) (p : Option (String × Message)) (db : Db)
    → Pointwise
        (SameIfForeign (λ m. m.tenant_id) tenant)
        db.messages
        (run tenant s ts p db).messages
      × Pointwise
          (SameIfForeign (λ c. c.tenant_id) tenant)
          db.conversations
          (run tenant s ts p db).conversations
unfolding run confirm
run_isolated tenant s ts none db =
    (Pointwise-refl _ (λ x _. refl) db.messages, Pointwise-refl _ (λ x _. refl) db.conversations)
run_isolated tenant s ts (some (k, m)) db = (
  Pointwise-update_many _ (is_row tenant m.id) (effect s k ts) (λ x _. refl)
      (λ x e ne. absurd (ne ((eq_iff _ _).0 (and_true e).1))) db.messages,
  elim (Bool-cases (is_outbound m.direction && not (str_eq k "failed"))) [
    | inr e ↦ rw e (Pointwise-refl _ (λ x _. refl) db.conversations)
    | inl e ↦ rw e (
        Pointwise-update_many _ (is_conversation tenant m.conversation_id)
          (confirm_outbound m.timestamp) (λ x _. refl)
          (λ x e ne. absurd (ne ((eq_iff _ _).0 (and_true e).1))) db.conversations)
  ],
)

-- A status that comes in for an account changes no message and no conversation of another tenant.
pub apply_isolated :
    (a : WhatsappAccount) (s : MetaStatus) (now : ℕ) (db : Db)
    → Pointwise
        (SameIfForeign (λ m. m.tenant_id) a.tenant_id)
        db.messages
        (apply a s now db).0.messages
      × Pointwise
          (SameIfForeign (λ c. c.tenant_id) a.tenant_id)
          db.conversations
          (apply a s now db).0.conversations
apply_isolated a s now db =
    rw (apply-run a s now db)
      (run_isolated a.tenant_id s (time_of s now) (plan a.tenant_id s db.messages) db)
