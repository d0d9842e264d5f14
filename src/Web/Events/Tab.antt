-- ===== src/Web/Events/Tab.antt =====
-- The list keeps to its tab when conversations change (`onConversationUpdated` and
-- `setConversationStatus` of web/src/lib/store.ts).
use whatsapp_inbox.Shared.{
  ◌≡◌, refl, sym, ap, ◌∙◌, ◌≢◌, ◌↔◌, ◌⊎◌, inl, inr, true, false, not, Option, none, some, List,
  Memᴰ, Bool-cases, not_true, any,
}
use whatsapp_inbox.Db.{find_first}
use whatsapp_inbox.Db.Rows.{All, All-Memᴰ, Distinct}
use whatsapp_inbox.Db.Kept.{
  mem-delete_many, mem-delete_many_kept, Distinct-delete_many, delete_many_none,
}
use whatsapp_inbox.Order.Sorted.{All-of_mem}
use whatsapp_inbox.Web.Types.{Conversation}
use whatsapp_inbox.Web.Rows.{row_of, merged}
use whatsapp_inbox.Web.Rows.Ranked.{row_id}
use whatsapp_inbox.Web.Rows.Merged.{row_of_iff, row_of_ne, merged_in, upsert_conversation-Merges}
use whatsapp_inbox.Web.State.{InboxState, ListFilter, status_matches_filter}
use whatsapp_inbox.Web.Events.{leaves_tab, on_conversation_updated, set_status_finish}

-- The reply to a change of state and the event of the same change leave one list.
pub on_conversation_updated-set_status_finish :
    (c : Conversation) (s : InboxState)
    → (on_conversation_updated c s).conversations ≡ (set_status_finish c s).conversations
unfolding on_conversation_updated set_status_finish
on_conversation_updated-set_status_finish c s = elim (Bool-cases (leaves_tab c s)) [
  | inl e ↦ elim (Bool-cases (any (row_of c.id) s.conversations)) [
    | inl k ↦ rw (e, k)
    | inr k ↦ rw (e, k) (sym (delete_many_none (row_of c.id) s.conversations k))
  ]
  | inr e ↦ rw e
]

abbrev pub OfTab : ListFilter → List Conversation → Type 0
OfTab f l = All (λ c. status_matches_filter c.status f ≡ true) l

-- The rows of a list after a change: the others as they were, and the changed one if the tab has it.
abbrev pub TabRow : Conversation → InboxState → Conversation → Type 0
TabRow c s z =
    (Memᴰ z s.conversations × (z.id ≢ c.id))
    ⊎ ((status_matches_filter c.status s.filter ≡ true) × (z ≡ merged_in s.conversations c))

merged_status : (c : Conversation) (o : Option Conversation) → (merged c o).status ≡ c.status
unfolding merged
merged_status c none = refl
merged_status c (some e) = refl

leaves_tab_lem :
    (c : Conversation) (s : InboxState)
    → s.search_query ≡ ""
    → leaves_tab c s ≡ not (status_matches_filter c.status s.filter)
unfolding leaves_tab
leaves_tab_lem c s e = rw e

module _ (c : Conversation) (s : InboxState) (q : s.search_query ≡ "")
    (d : Distinct row_id s.conversations) where
  Tab-rows : (z : Conversation) → Memᴰ z (set_status_finish c s).conversations ↔ TabRow c s z
  unfolding set_status_finish
  Tab-rows z = elim (Bool-cases (status_matches_filter c.status s.filter)) [
    | inl e ↦
        let stays : leaves_tab c s ≡ false = leaves_tab_lem c s q ∙ ap not e in
        let (a, b) = (upsert_conversation-Merges s.conversations c d).2 z in
        rw stays (
          λ k. elim (a k) [ inl w ↦ inr (e, w) | inr w ↦ inl w ],
          λ r. elim r [ inl w ↦ b (inr w) | inr w ↦ b (inl w.1) ],
        )
    | inr e ↦
        let leaves : leaves_tab c s ≡ true = leaves_tab_lem c s q ∙ ap not e in
        rw leaves (
          λ k. inl (
              let (m, n) = mem-delete_many (row_of c.id) s.conversations k in
              (m, row_of_ne c.id z n)),
          λ r. elim r [
            | inl w ↦
                mem-delete_many_kept (row_of c.id) s.conversations w.0
                  (not_true (λ h. w.1 ((row_of_iff c.id z).0 h)))
            | inr w ↦ absurd (cc (w.0, e))
          ],
        )
  ]

  Tab-ids : Distinct row_id (set_status_finish c s).conversations
  unfolding set_status_finish
  Tab-ids = elim (Bool-cases (leaves_tab c s)) [
    | inl e ↦ rw e (Distinct-delete_many (row_of c.id) row_id s.conversations d)
    | inr e ↦ rw e (upsert_conversation-Merges s.conversations c d).0
  ]

  -- Outside a search, an event on a conversation leaves a list of one tab a list of that tab, without
  -- an id twice: its rows are the other rows as they were and, exactly if the tab has conversations in
  -- that state, the conversation's own.
  pub on_conversation_updated-OfTab :
      OfTab s.filter s.conversations
      → OfTab s.filter (on_conversation_updated c s).conversations
        × Distinct row_id (on_conversation_updated c s).conversations
        × ((z : Conversation) → Memᴰ z (on_conversation_updated c s).conversations ↔ TabRow c s z)
  on_conversation_updated-OfTab h = rw (on_conversation_updated-set_status_finish c s) (
    All-of_mem _ (set_status_finish c s).conversations (λ z k. of_tab z ((Tab-rows z).0 k)),
    Tab-ids,
    Tab-rows,
  )
    where
      of_tab : (z : Conversation) → TabRow c s z → status_matches_filter z.status s.filter ≡ true
      of_tab z (inl (k, n)) =
          All-Memᴰ (λ w. status_matches_filter w.status s.filter ≡ true) s.conversations h k
      of_tab z (inr (e, w)) =
          ap (λ (v : Conversation). status_matches_filter v.status s.filter) w
          ∙ ap (λ v. status_matches_filter v s.filter)
              (merged_status c (find_first (row_of c.id) s.conversations))
          ∙ e
