-- ===== src/Statuses/Plan.antt =====
-- `apply` as a search for the message followed by updates of its row
-- (src/webhook-worker/message-statuses.service.ts).
use whatsapp_inbox.Shared.{
  ℕ, String, ◌≡◌, refl, ◌∙◌, ◌≢◌, inl, inr, not, ◌&&◌, ◌||◌, Option, none, some, List, arith,
  eq_iff, str_eq, if◌then◌else◌, Bool-cases, Option-cases, get_or,
}
use mathlib.Core.Option
use whatsapp_inbox.Meta.{MetaStatus}
use whatsapp_inbox.Schema.{Message, Conversation, WhatsappAccount}
use whatsapp_inbox.Numbers.{parse_epoch_seconds}
use whatsapp_inbox.Db.{find_first, update_many}
use whatsapp_inbox.Db.Laws.{find_first-update_many, update_many-comp}
use whatsapp_inbox.Statuses.{
  Db, has_wamid, is_row, is_conversation, is_outbound, status_update, pricing_update,
  confirm_outbound, apply_to, apply,
}
use whatsapp_inbox.Statuses.Rows.{row_stays, row_stays_priced}

-- The status and the message that `apply` works on, if it works at all.
pub plan : String → MetaStatus → List Message → Option (String × Message)
plan tenant status messages = elim status.id [
  | none ↦ none
  | some wamid ↦ elim status.status [
    | none ↦ none
    | some meta_status ↦
        if str_eq wamid "" || str_eq meta_status ""
        then none
        else Option.map (λ m. (meta_status, m)) (find_first (has_wamid tenant wamid) messages)
  ]
]

abbrev pub time_of : MetaStatus → ℕ → ℕ
time_of status now = get_or (parse_epoch_seconds status.timestamp) now

-- What `apply` does to the row of its message.
unfoldable pub effect : MetaStatus → String → ℕ → Message → Message
effect status meta_status ts m =
    pricing_update status.pricing (status_update meta_status status.errors ts m)

unfoldable pub confirm : String → String → Message → List Conversation → List Conversation
confirm tenant meta_status m conversations =
    if is_outbound m.direction && not (str_eq meta_status "failed")
    then update_many (is_conversation tenant m.conversation_id) (confirm_outbound m.timestamp)
        conversations
    else conversations

unfoldable pub run : String → MetaStatus → ℕ → Option (String × Message) → Db → Db
unfolding effect confirm
run tenant status ts none db = db
run tenant status ts (some (meta_status, m)) db = record {
  messages = update_many (is_row tenant m.id) (effect status meta_status ts) db.messages;
  conversations = confirm tenant meta_status m db.conversations;
}

apply_to-run :
    (tenant meta_status : String) (status : MetaStatus) (now : ℕ) (m : Message) (db : Db)
    → (apply_to tenant meta_status status now m db).0
      ≡ run tenant status (time_of status now) (some (meta_status, m)) db
unfolding apply_to run
apply_to-run tenant meta_status status now m db = rw (
    update_many-comp (is_row tenant m.id)
      (status_update meta_status status.errors (time_of status now)) (pricing_update status.pricing)
      (λ x. (row_stays tenant m.id "" meta_status status.errors (time_of status now) x).0)
      db.messages)

pub apply-run :
    (a : WhatsappAccount) (status : MetaStatus) (now : ℕ) (db : Db)
    → (apply a status now db).0
      ≡ run a.tenant_id status (time_of status now) (plan a.tenant_id status db.messages) db
unfolding apply plan run
apply-run a status now db = elim (Option-cases status.id) [
  | inl e ↦ rw (e, apply, plan)
  | inr (wamid, e) ↦ elim (Option-cases status.status) [
    | inl k ↦ rw (e, k, apply, plan)
    | inr (s, k) ↦ elim (Bool-cases (str_eq wamid "" || str_eq s "")) [
      | inl n ↦ rw (e, k, n, apply, plan)
      | inr n ↦ elim (Option-cases (find_first (has_wamid a.tenant_id wamid) db.messages)) [
        | inl f ↦ rw (e, k, n, f, apply, plan)
        | inr (m, f) ↦ rw (e, k, n, f, apply, plan) (apply_to-run a.tenant_id s status now m db)
      ]
    ]
  ]
]

pub effect_stays :
    (tenant id wamid : String) (status : MetaStatus) (k : String) (ts : ℕ) (m : Message)
    → (is_row tenant id (effect status k ts m) ≡ is_row tenant id m)
      × (has_wamid tenant wamid (effect status k ts m) ≡ has_wamid tenant wamid m)
unfolding effect
effect_stays tenant id wamid status k ts m =
    let (row, wam) = row_stays tenant id wamid k status.errors ts m in
    let (row', wam') =
      row_stays_priced tenant id wamid status.pricing (status_update k status.errors ts m) in
    (row' ∙ row, wam' ∙ wam)

-- The columns that decide what `apply` does with a message that it found.
abbrev Same : Message → Message → Type 0
Same m m' =
    (m'.id ≡ m.id)
    × (m'.conversation_id ≡ m.conversation_id)
    × (m'.direction ≡ m.direction)
    × (m'.timestamp ≡ m.timestamp)

status_update-Same :
    (k : String) (status : MetaStatus) (ts : ℕ) (m : Message)
    → Same m (status_update k status.errors ts m)
unfolding status_update
status_update-Same k status ts m = ground arith

pricing_update-Same : (status : MetaStatus) (m : Message) → Same m (pricing_update status.pricing m)
unfolding pricing_update
pricing_update-Same status m = elim (Option-cases status.pricing) [
  | inl e ↦ rw e (refl, refl, refl, refl)
  | inr (p, e) ↦ rw e (refl, refl, refl, refl)
]

effect-Same :
    (status : MetaStatus) (k : String) (ts : ℕ) (m : Message) → Same m (effect status k ts m)
unfolding effect
effect-Same status k ts m =
    let (a, b, c, d) = status_update-Same k status ts m in
    let (a', b', c', d') = pricing_update-Same status (status_update k status.errors ts m) in
    (a' ∙ a, b' ∙ b, c' ∙ c, d' ∙ d)

run-Same :
    (tenant : String) (status : MetaStatus) (ts : ℕ) (k : String) (m m' : Message) (db : Db)
    → Same m m'
    → run tenant status ts (some (k, m')) db ≡ run tenant status ts (some (k, m)) db
unfolding run
run-Same tenant status ts k m m' db (a, b, c, d) = rw (a, b, c, d)

abbrev touch : String → String → MetaStatus → String → ℕ → Message → Message
touch tenant id status k ts m = if is_row tenant id m then effect status k ts m else m

plan-update_many :
    (tenant id : String) (status status' : MetaStatus) (k : String) (ts : ℕ)
    (messages : List Message)
    → plan tenant status' (update_many (is_row tenant id) (effect status k ts) messages)
      ≡ Option.map (λ km. (km.0, touch tenant id status k ts km.1)) (plan tenant status' messages)
unfolding plan
plan-update_many tenant id status status' k ts messages = elim (Option-cases status'.id) [
  | inl e ↦ rw (e, plan)
  | inr (wamid, e) ↦ elim (Option-cases status'.status) [
    | inl u ↦ rw (e, u, plan)
    | inr (s, u) ↦ elim (Bool-cases (str_eq wamid "" || str_eq s "")) [
      | inl n ↦ rw (e, u, n, plan)
      | inr n ↦
          rw (e, u, n, plan)
            (rw
              (find_first-update_many (is_row tenant id) (has_wamid tenant wamid)
                (effect status k ts) (λ x. (effect_stays tenant id wamid status k ts x).1) messages)
              (elim (Option-cases (find_first (has_wamid tenant wamid) messages)) [
                | inl f ↦ rw f
                | inr (m, f) ↦ rw f
              ]))
    ]
  ]
]

run-touch :
    (tenant id : String) (status status' : MetaStatus) (k : String) (ts ts' : ℕ)
    (p : Option (String × Message)) (db : Db)
    → run tenant status' ts' (Option.map (λ km. (km.0, touch tenant id status k ts km.1)) p) db
      ≡ run tenant status' ts' p db
run-touch tenant id status status' k ts ts' none db = refl
run-touch tenant id status status' k ts ts' (some (k', m)) db =
    elim (Bool-cases (is_row tenant id m)) [
      | inl e ↦ rw e (run-Same tenant status' ts' k' m _ db (effect-Same status k ts m))
      | inr e ↦ rw e
    ]

-- After a status was applied, the search of any other finds the message that it would have found,
-- and `apply` runs the same way.
pub run-plan-run :
    (tenant : String) (status status' : MetaStatus) (ts ts' : ℕ) (p : Option (String × Message))
    (db db' : Db)
    → run tenant status' ts' (plan tenant status' (run tenant status ts p db).messages) db'
      ≡ run tenant status' ts' (plan tenant status' db.messages) db'
unfolding run
run-plan-run tenant status status' ts ts' none db db' = refl
run-plan-run tenant status status' ts ts' (some (k, m)) db db' =
    rw (plan-update_many tenant m.id status status' k ts db.messages)
      (run-touch tenant m.id status status' k ts ts' (plan tenant status' db.messages) db')

pub plan-status :
    (tenant : String) (s : MetaStatus) (messages : List Message) (k : String) (m : Message)
    → plan tenant s messages ≡ some (k, m)
    → s.status ≡ some k
unfolding plan
plan-status tenant s messages k m e = ground arith

pub plan-some :
    (tenant : String) (s : MetaStatus) (messages : List Message) (wamid k : String) (m : Message)
    → s.id ≡ some wamid
    → s.status ≡ some k
    → wamid ≢ ""
    → k ≢ ""
    → find_first (has_wamid tenant wamid) messages ≡ some m
    → plan tenant s messages ≡ some (k, m)
unfolding plan
plan-some tenant s messages wamid k m named known wn kn found =
    rw (named, known, found, plan) (ground (arith, eq_iff wamid "", eq_iff k ""))
