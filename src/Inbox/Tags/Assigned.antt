-- ===== src/Inbox/Tags/Assigned.antt =====
-- The tags of a conversation after they were replaced (`setForConversation` of
-- src/inbox/tags.service.ts).
use whatsapp_inbox.Shared.{
  ℕ, ◌≤◌, String, ◌≡◌, refl, sym, ap, ◌∙◌, subst, ◌≢◌, ◌⊎◌, inl, inr, Bool, true, false, not, ◌&&◌,
  ◌||◌, none, some, List, [], ◌∷◌, ◌++◌, Memᴰ, arith, eq_iff, str_eq, if◌then◌else◌, Bool-cases,
  and_true, Option-cases, not_true, length, any, any→Memᴰ,
}
use whatsapp_inbox.Schema.{Conversation}
use whatsapp_inbox.Db.{find_first, delete_many, upsert}
use whatsapp_inbox.Db.Laws.{update_many-same}
use whatsapp_inbox.Db.Rows.{All}
use whatsapp_inbox.Inbox.Tags.{Tag, ConversationTag, ok, max_tags_per_conversation, includes}
use whatsapp_inbox.Inbox.Tags.Assign.{
  unique, joined, add_tags, unwanted, is_conversation, set_tags, set_for_conversation,
}

includes-delete_many :
    (x t : String) (l : List String)
    → includes (delete_many (λ y. str_eq y x) l) t ≡ (not (str_eq x t) && includes l t)
unfolding delete_many
includes-delete_many x t [] = ground arith
includes-delete_many x t (y ∷ l) =
    ground (arith, eq_iff y x, eq_iff x t, eq_iff y t, includes-delete_many x t l)

includes-unique : (t : String) (l : List String) → includes (unique l) t ≡ includes l t
unfolding unique
includes-unique t [] = refl
includes-unique t (x ∷ l) =
    rw (includes-delete_many x t (unique l), includes-unique t l) (ground arith)

any-append_one :
    (q : ConversationTag → Bool) (l : List ConversationTag) (r : ConversationTag)
    → any q (l ++ r ∷ []) ≡ (any q l || q r)
any-append_one q [] r = ground arith
any-append_one q (x ∷ l) r = ground (arith, any-append_one q l r)

any_of_found :
    (p : ConversationTag → Bool) (l : List ConversationTag) {r : ConversationTag}
    → find_first p l ≡ some r
    → any p l ≡ true
unfolding find_first
any_of_found p [] h = absurd (cc)
any_of_found p (x ∷ l) {r} h = elim (Bool-cases (p x)) [
  | inl e ↦ rw e
  | inr e ↦ rw e (any_of_found p l {r = r} (ground arith))
]

upsert_absent :
    (p : ConversationTag → Bool) (r : ConversationTag) (l : List ConversationTag)
    → find_first p l ≡ none
    → (upsert p r (λ j. j) l).0 ≡ l ++ r ∷ []
unfolding upsert
upsert_absent p r l h = rw (h, upsert)

upsert_present :
    (p : ConversationTag → Bool) (r w : ConversationTag) (l : List ConversationTag)
    → find_first p l ≡ some w
    → (upsert p r (λ j. j) l).0 ≡ l
unfolding upsert
upsert_present p r w l h = rw (h, upsert) (update_many-same p l)

-- One upsert of a tag that a conversation is to have.
any-upsert :
    (c t conv tag : String) (r : ConversationTag) (l : List ConversationTag)
    → r.conversation_id ≡ conv
    → r.tag_id ≡ tag
    → any (joined c t) (upsert (joined conv tag) r (λ j. j) l).0
      ≡ (any (joined c t) l || joined c t r)
unfolding joined
any-upsert c t conv tag r l e f = elim (Option-cases (find_first (joined conv tag) l)) [
  | inl h ↦ rw (upsert_absent (joined conv tag) r l h) (any-append_one (joined c t) l r)
  | inr (w, h) ↦ rw (upsert_present (joined conv tag) r w l h) (
      or_same (any (joined c t) l) (joined c t r) (λ k.
        let c' : conv ≡ c =
          sym e ∙ (eq_iff r.conversation_id c).0 (and_true {a = str_eq r.conversation_id c} k).0 in
        let t' : tag ≡ t =
          sym f ∙ (eq_iff r.tag_id t).0 (and_true {a = str_eq r.conversation_id c} k).1 in
        subst (λ d. any (joined d t) l ≡ true) c'
          (subst (λ u. any (joined conv u) l ≡ true) t' (any_of_found (joined conv tag) l h))))
]
  where
    or_same : (a b : Bool) → (b ≡ true → a ≡ true) → a ≡ (a || b)
    or_same a b h = ground arith

any-add_tags :
    (tenant_id conv : String) (now : ℕ) (ids : List String) (c t : String)
    (l : List ConversationTag)
    → any (joined c t) (add_tags tenant_id conv now ids l)
      ≡ (any (joined c t) l || (str_eq conv c && includes ids t))
unfolding add_tags
any-add_tags tenant_id conv now [] c t l = ground arith
any-add_tags tenant_id conv now (tag ∷ ids) c t l =
    let r : ConversationTag = record {
      tenant_id = tenant_id;
      conversation_id = conv;
      tag_id = tag;
      created_at = now;
    } in
    rw
      (
        any-add_tags tenant_id conv now ids c t (upsert (joined conv tag) r (λ j. j) l).0,
        any-upsert c t conv tag r l refl refl,
      )
      (split (any (joined c t) l) (str_eq conv c) (str_eq tag t) (includes ids t))
  where
    split : (a b d e : Bool) → ((a || (b && d)) || (b && e)) ≡ (a || (b && (d || e)))
    split a b d e = ground arith

str_eq_comm : (a b : String) → str_eq a b ≡ str_eq b a
str_eq_comm a b = ground (arith, eq_iff a b, eq_iff b a)

-- For a row that a test finds, the deletion decides as the wish for its tag does.
unwanted_row :
    (tenant_id conv : String) (ids : List String) (c t : String) (j : ConversationTag)
    → (j.conversation_id ≢ conv) ⊎ (j.tenant_id ≡ tenant_id)
    → joined c t j ≡ true
    → unwanted tenant_id conv ids j ≡ not (not (str_eq conv c) || includes ids t)
unfolding unwanted joined
unwanted_row tenant_id conv ids c t j h q =
    let c' = (eq_iff j.conversation_id c).0 (and_true {a = str_eq j.conversation_id c} q).0 in
    let t' = (eq_iff j.tag_id t).0 (and_true {a = str_eq j.conversation_id c} q).1 in
    subst (λ d. unwanted tenant_id conv ids j ≡ not (not (str_eq conv d) || includes ids t)) c'
      (subst
        (λ u.
          unwanted tenant_id conv ids j
          ≡ not (not (str_eq conv j.conversation_id) || includes ids u))
        t'
        (rw (str_eq_comm conv j.conversation_id) (
          decide (str_eq j.tenant_id tenant_id) (str_eq j.conversation_id conv)
            (includes ids j.tag_id) own)))
  where
    own : (str_eq j.conversation_id conv ≡ false) ⊎ (str_eq j.tenant_id tenant_id ≡ true)
    own = elim h [
      | inl n ↦ inl (not_true (λ e. n ((eq_iff j.conversation_id conv).0 e)))
      | inr e ↦ inr ((eq_iff j.tenant_id tenant_id).1 e)
    ]

    decide : (a b i : Bool) → (b ≡ false) ⊎ (a ≡ true) → (a && b && not i) ≡ not (not b || i)
    decide a b i h = ground arith

any-unwanted :
    (tenant_id conv : String) (ids : List String) (c t : String) (l : List ConversationTag)
    → All (λ j. (j.conversation_id ≢ conv) ⊎ (j.tenant_id ≡ tenant_id)) l
    → any (joined c t) (delete_many (unwanted tenant_id conv ids) l)
      ≡ (any (joined c t) l && (not (str_eq conv c) || includes ids t))
unfolding delete_many
any-unwanted tenant_id conv ids c t [] h = refl
any-unwanted tenant_id conv ids c t (j ∷ l) (h, hs) =
    let rest = any-unwanted tenant_id conv ids c t l hs in
    let row = unwanted_row tenant_id conv ids c t j h in
    elim (Bool-cases (unwanted tenant_id conv ids j)) [
      | inl e ↦
          rw (e, rest)
            (gone (joined c t j) (any (joined c t) l) (not (str_eq conv c) || includes ids t)
              (λ q. sym (row q) ∙ e))
      | inr e ↦
          rw (e, rest)
            (kept (joined c t j) (any (joined c t) l) (not (str_eq conv c) || includes ids t)
              (λ q. sym (row q) ∙ e))
    ]
  where
    gone : (q a k : Bool) → (q ≡ true → not k ≡ true) → (a && k) ≡ ((q || a) && k)
    gone q a k h = ground arith

    kept : (q a k : Bool) → (q ≡ true → not k ≡ false) → (q || (a && k)) ≡ ((q || a) && k)
    kept q a k h = ground arith

set_tags-ok :
    (tenant_id conv : String) (ids : List String) (now : ℕ) (conversations : List Conversation)
    (tags : List Tag) (joins joins' : List ConversationTag)
    → set_tags tenant_id conv ids now conversations tags joins ≡ ok joins'
    → (length ids ≤ max_tags_per_conversation)
      × (any (is_conversation tenant_id conv) conversations ≡ true)
      × (add_tags tenant_id conv now ids (delete_many (unwanted tenant_id conv ids) joins) ≡ joins')
unfolding set_tags
set_tags-ok tenant_id conv ids now conversations tags joins joins' e = ground arith

is_conversation-live :
    (tenant_id conv : String) (c : Conversation)
    → is_conversation tenant_id conv c ≡ true
    → (c.id ≡ conv) × (c.tenant_id ≡ tenant_id) × (c.deleted_at ≡ none)
unfolding is_conversation
is_conversation-live tenant_id conv c e =
    let (both, z) = and_true {a = str_eq c.id conv && str_eq c.tenant_id tenant_id} e in
    let (x, y) = and_true {a = str_eq c.id conv} both in
    ((eq_iff c.id conv).0 x, (eq_iff c.tenant_id tenant_id).0 y, ground (arith, z))

live_conversation :
    (tenant_id conv : String) (conversations : List Conversation)
    → any (is_conversation tenant_id conv) conversations ≡ true
    → (c : Conversation) × Memᴰ c conversations
      × (c.id ≡ conv)
      × (c.tenant_id ≡ tenant_id)
      × (c.deleted_at ≡ none)
live_conversation tenant_id conv conversations h =
    let (c, m, e) = any→Memᴰ (is_conversation tenant_id conv) conversations h in
    let (x, y, z) = is_conversation-live tenant_id conv c e in (c, m, x, y, z)

-- The tags of a conversation are replaced as a whole: if the request is not refused, the conversation
-- is one of the tenant that is not deleted; it then has exactly the tags that the request names, at
-- most six, and every other conversation has those that it had. The rows of the conversation's tags
-- are of the tenant.
pub set_for_conversation-Sets :
    (tenant_id conv : String) (raw : List String) (now : ℕ) (conversations : List Conversation)
    (tags : List Tag) (joins joins' : List ConversationTag)
    → All (λ j. (j.conversation_id ≢ conv) ⊎ (j.tenant_id ≡ tenant_id)) joins
    → set_for_conversation tenant_id conv (some raw) now conversations tags joins ≡ ok joins'
    → (length (unique raw) ≤ max_tags_per_conversation)
      × ((c : Conversation) × Memᴰ c conversations
          × (c.id ≡ conv)
          × (c.tenant_id ≡ tenant_id)
          × (c.deleted_at ≡ none))
      × ((c t : String)
          → any (joined c t) joins'
            ≡ (if str_eq conv c then includes raw t else any (joined c t) joins))
unfolding set_for_conversation set_tags
set_for_conversation-Sets tenant_id conv raw now conversations tags joins joins' h e =
    let ids = unique raw in
    let (few, there, same) = set_tags-ok tenant_id conv ids now conversations tags joins joins' e in
    (
      few,
      live_conversation tenant_id conv conversations there,
      λ c t.
          subst
            (λ js.
              any (joined c t) js
              ≡ (if str_eq conv c then includes raw t else any (joined c t) joins))
            same
            (any-add_tags tenant_id conv now ids c t
                (delete_many (unwanted tenant_id conv ids) joins)
              ∙ ap (λ b. b || (str_eq conv c && includes ids t))
                  (any-unwanted tenant_id conv ids c t joins h)
              ∙ ap
                  (λ b.
                    (any (joined c t) joins && (not (str_eq conv c) || b)) || (str_eq conv c && b))
                  (includes-unique t raw)
              ∙ pick (any (joined c t) joins) (str_eq conv c) (includes raw t)),
    )
  where
    pick : (a b d : Bool) → ((a && (not b || d)) || (b && d)) ≡ (if b then d else a)
    pick a b d = ground arith
