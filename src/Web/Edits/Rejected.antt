-- ===== src/Web/Edits/Rejected.antt =====
-- Tags that the server does not accept (`setConversationTags` of web/src/lib/store.ts).
use whatsapp_inbox.Shared.{
  String, ◌≡◌, refl, sym, ap, ◌∙◌, subst, ◌≢◌, inl, inr, true, false, not, Option, some, List, [],
  ◌∷◌, Bool-cases, get_or, not_true,
}
use whatsapp_inbox.Db.{find_first, delete_many}
use whatsapp_inbox.Db.Rows.{All, Distinct}
use whatsapp_inbox.Web.Types.{Conversation, Tag}
use whatsapp_inbox.Web.Rows.{row_of}
use whatsapp_inbox.Web.Rows.Ranked.{row_id}
use whatsapp_inbox.Web.Rows.Merged.{row_of_iff}
use whatsapp_inbox.Web.State.{InboxState, unauthorized, failure}
use whatsapp_inbox.Web.Edits.{
  retag, put_tags, includes, tags_of, set_tags_start, set_tags_finish, fail,
}

retag_other :
    (id : String) (t : Option (List Tag)) (c : Conversation)
    → row_of id c ≡ false
    → retag id t c ≡ c
unfolding retag
retag_other id t c e = rw e

retag_id : (id : String) (t : Option (List Tag)) (c : Conversation) → (retag id t c).id ≡ c.id
unfolding retag
retag_id id t c = elim (Bool-cases (row_of id c)) [ inl e ↦ rw e | inr e ↦ rw e ]

retag_back :
    (id : String) (t : Option (List Tag)) (c : Conversation)
    → row_of id c ≡ true
    → retag id c.tags (retag id t c) ≡ c
unfolding retag row_of
retag_back id t c e = rw (e, e)

put_tags_absent :
    (id : String) (t : Option (List Tag)) (l : List Conversation)
    → All (λ c. row_of id c ≡ false) l
    → put_tags id t l ≡ l
unfolding put_tags
put_tags_absent id t [] h = refl
put_tags_absent id t (c ∷ l) (h, hs) = λ i. retag_other id t c h i ∷ put_tags_absent id t l hs i

others_absent :
    (id : String) (c : Conversation) (l : List Conversation)
    → row_of id c ≡ true
    → All (λ y. y.id ≢ c.id) l
    → All (λ y. row_of id y ≡ false) l
others_absent id c [] e h = tt
others_absent id c (y ∷ l) e (n, h) = (
  not_true (λ k. n ((row_of_iff id y).0 k ∙ sym ((row_of_iff id c).0 e))),
  others_absent id c l e h,
)

tags_of_head :
    (id : String) (c : Conversation) (l : List Conversation)
    → row_of id c ≡ true
    → tags_of id (c ∷ l) ≡ c.tags
unfolding tags_of find_first
tags_of_head id c l e = rw (e, tags_of)

tags_of_tail :
    (id : String) (c : Conversation) (l : List Conversation)
    → row_of id c ≡ false
    → tags_of id (c ∷ l) ≡ tags_of id l
unfolding tags_of find_first
tags_of_tail id c l e = rw (e, tags_of)

-- Back to what the row had.
put_tags-restores :
    (id : String) (t : Option (List Tag)) (l : List Conversation)
    → Distinct row_id l
    → put_tags id (tags_of id l) (put_tags id t l) ≡ l
unfolding put_tags
put_tags-restores id t [] d = refl
put_tags-restores id t (c ∷ l) (n, d) = elim (Bool-cases (row_of id c)) [
  | inl e ↦
      let absent = others_absent id c l e n in
      subst (λ u. put_tags id u (put_tags id t (c ∷ l)) ≡ c ∷ l) (sym (tags_of_head id c l e))
        (λ i.
          retag_back id t c e i
          ∷ (ap (put_tags id c.tags) (put_tags_absent id t l absent)
                ∙ put_tags_absent id c.tags l absent)
              i)
  | inr e ↦
      subst (λ u. put_tags id u (put_tags id t (c ∷ l)) ≡ c ∷ l) (sym (tags_of_tail id c l e))
        (λ i.
          (ap (retag id (tags_of id l)) (retag_other id t c e) ∙ retag_other id (tags_of id l) c e)
            i
          ∷ put_tags-restores id t l d i)
]

-- The chips that a change of tags shows at once go back to what they were when the server does not
-- accept it: each row is then as before, whether the session ended or the server refused, and only
-- a refusal is told. No two rows have one id, and nothing else changes the list meanwhile.
pub set_tags_rejected :
    (id : String) (tag_ids : List String) (message : Option String) (s : InboxState)
    → Distinct row_id s.conversations
    → let (previous, optimistic) = set_tags_start id tag_ids s in
      (set_tags_finish id previous unauthorized optimistic ≡ s)
      × (set_tags_finish id previous (failure message) optimistic
          ≡ fail (get_or message "No pudimos guardar las etiquetas.") s)
unfolding set_tags_start set_tags_finish
set_tags_rejected id tag_ids message s d =
    let chosen = delete_many (λ (t : Tag). not (includes tag_ids t.id)) s.tags in
    let back = put_tags-restores id (some chosen) s.conversations d in
    let with_rows : List Conversation → InboxState = λ rows. record s { conversations = rows } in
    (
      ap with_rows back,
      ap (λ rows. fail (get_or message "No pudimos guardar las etiquetas.") (with_rows rows)) back,
    )
