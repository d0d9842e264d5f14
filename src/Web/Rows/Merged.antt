-- ===== src/Web/Rows/Merged.antt =====
-- What `upsertConversation` makes of the list (web/src/lib/merge.ts).
use whatsapp_inbox.Shared.{
  String, ◌≡◌, refl, ◌∙◌, ◌≢◌, ◌↔◌, ◌⊎◌, inl, inr, true, false, Option, none, some, List, [], ◌∷◌,
  ◌++◌, Memᴰ, eq_iff, Option-cases, or_else, not_true,
}
use whatsapp_inbox.Db.{find_first, delete_many}
use whatsapp_inbox.Db.Rows.{
  find_first-Memᴰ, Distinct, Distinct-append, Memᴰ-append_left, Memᴰ-append_right,
  Memᴰ-append_cases,
}
use whatsapp_inbox.Db.Laws.{find_first_sound}
use whatsapp_inbox.Db.Kept.{
  find_first-none, mem-delete_many, mem-delete_many_kept, Distinct-delete_many,
}
use whatsapp_inbox.Order.Sorted.{
  IsSorted, All-of_mem, mem-sort, mem_of_mem-sort, Distinct-sort, IsSorted-sort,
}
use whatsapp_inbox.Web.Types.{Conversation}
use whatsapp_inbox.Web.Rows.{
  conversation_order, sort_conversations, row_of, merged, upsert_conversation,
}
use whatsapp_inbox.Web.Rows.Ranked.{row_id, conversation_order-Ranks}

pub row_of_iff : (id : String) (c : Conversation) → (row_of id c ≡ true) ↔ (c.id ≡ id)
unfolding row_of
row_of_iff id c = eq_iff c.id id

pub row_of_ne : (id : String) (c : Conversation) → row_of id c ≡ false → c.id ≢ id
row_of_ne id c h e = absurd (cc ((row_of_iff id c).1 e, h))

merged_id : (c : Conversation) (o : Option Conversation) → (merged c o).id ≡ c.id
unfolding merged
merged_id c none = refl
merged_id c (some e) = refl

-- The row that the list has for a conversation after the merge.
abbrev pub merged_in : List Conversation → Conversation → Conversation
merged_in list incoming = merged incoming (find_first (row_of incoming.id) list)

-- What a field is after the merge: the incoming value, or the one of the row before if there is none.
pub data Filled {A : Type 0} : Option A → Option A → Option A → Type 0 where
  own : (x : A) (before : Option A) → Filled (some x) before (some x)
  kept : (before : Option A) → Filled none before before

or_else-Filled : {A : Type 0} (a b : Option A) → Filled a b (or_else a b)
or_else-Filled none b = Filled.kept b
or_else-Filled (some x) b = Filled.own x b

-- The conversation `z` is `c` in every field, but that the four that a row can lack are filled from
-- the row before `e`.
pub record FilledFrom (c e z : Conversation) : Type 0 where
  pub contact : Filled c.contact e.contact z.contact
  pub has_active_order : Filled c.has_active_order e.has_active_order z.has_active_order
  pub active_order_number : Filled c.active_order_number e.active_order_number z.active_order_number
  pub tags : Filled c.tags e.tags z.tags
  pub rest :
      record z {
        contact = c.contact;
        has_active_order = c.has_active_order;
        active_order_number = c.active_order_number;
        tags = c.tags;
      }
      ≡ c

-- The row of a conversation that comes in: it is new as it is, or it is filled from the row that the
-- list had for it.
pub data OwnRow (l : List Conversation) (c z : Conversation) : Type 0 where
  fresh : ((e : Conversation) → Memᴰ e l → e.id ≢ c.id) → z ≡ c → OwnRow l c z
  filled : (e : Conversation) → Memᴰ e l → e.id ≡ c.id → FilledFrom c e z → OwnRow l c z

merged_in-OwnRow : (l : List Conversation) (c : Conversation) → OwnRow l c (merged_in l c)
unfolding merged
merged_in-OwnRow l c = elim (Option-cases (find_first (row_of c.id) l)) [
  | inl n ↦
      rw n (OwnRow.fresh (λ e m. row_of_ne c.id e (find_first-none (row_of c.id) l n e m)) refl)
  | inr (e, f) ↦ rw f (
      OwnRow.filled e (find_first-Memᴰ (row_of c.id) l f)
        ((row_of_iff c.id e).0 (find_first_sound (row_of c.id) l f))
        (record {
          contact = or_else-Filled c.contact e.contact;
          has_active_order = or_else-Filled c.has_active_order e.has_active_order;
          active_order_number = or_else-Filled c.active_order_number e.active_order_number;
          tags = or_else-Filled c.tags e.tags;
          rest = refl;
        }))
]

module _ (l : List Conversation) (c : Conversation) where
  abbrev unsorted : List Conversation
  unsorted = delete_many (row_of c.id) l ++ merged_in l c ∷ []

  Distinct-unsorted : Distinct row_id l → Distinct row_id unsorted
  Distinct-unsorted d =
      Distinct-append row_id (delete_many (row_of c.id) l) (merged_in l c)
        (Distinct-delete_many (row_of c.id) row_id l d)
        (All-of_mem _ (delete_many (row_of c.id) l) (λ x k e.
          row_of_ne c.id x (mem-delete_many (row_of c.id) l k).1
            (e ∙ merged_id c (find_first (row_of c.id) l))))

  -- A conversation that comes in leaves a list without an id twice so, in the order of the list:
  -- pinned rows first, then by date. Its rows are the other rows as they were and the conversation's
  -- own: that is the conversation itself if it is new, and otherwise the conversation with its
  -- contact, its active order and its tags taken from its row before where it lacks them.
  pub upsert_conversation-Merges :
      Distinct row_id l
      → Distinct row_id (upsert_conversation l c)
        × IsSorted conversation_order (upsert_conversation l c)
        × ((z : Conversation)
            → Memᴰ z (upsert_conversation l c) ↔ ((z ≡ merged_in l c) ⊎ (Memᴰ z l × (z.id ≢ c.id))))
        × OwnRow l c (merged_in l c)
  unfolding upsert_conversation sort_conversations
  upsert_conversation-Merges d = (
    Distinct-sort row_id conversation_order unsorted (Distinct-unsorted d),
    IsSorted-sort row_id conversation_order conversation_order-Ranks unsorted (Distinct-unsorted d),
    λ z. (into z, back z),
    merged_in-OwnRow l c,
  )
    where
      into :
          (z : Conversation)
          → Memᴰ z (upsert_conversation l c)
          → (z ≡ merged_in l c) ⊎ (Memᴰ z l × (z.id ≢ c.id))
      into z k =
          elim (Memᴰ-append_cases (delete_many (row_of c.id) l)
            (mem_of_mem-sort conversation_order unsorted k)) [
              | inl m ↦
                  let (m', n) = mem-delete_many (row_of c.id) l m in inr (m', row_of_ne c.id z n)
              | inr e ↦ inl e
            ]

      back :
          (z : Conversation)
          → (z ≡ merged_in l c) ⊎ (Memᴰ z l × (z.id ≢ c.id))
          → Memᴰ z (upsert_conversation l c)
      back z (inl e) =
          mem-sort conversation_order unsorted
            (Memᴰ-append_right (delete_many (row_of c.id) l) (Memᴰ.head e))
      back z (inr (m, n)) = mem-sort conversation_order unsorted (
          Memᴰ-append_left (delete_many (row_of c.id) l) _
            (mem-delete_many_kept (row_of c.id) l m (not_true (λ e. n ((row_of_iff c.id z).0 e)))))
