-- ===== src/Inbox/Listing/Complete.antt =====
-- The whole list of conversations, in every view (`list` of src/inbox/conversations.service.ts).
use whatsapp_inbox.Shared.{
  ℕ, zero, suc, ◌≤◌, ◌<◌, ◌≡◌, ap, ◌∙◌, Bool, true, false, not, none, some, List, Memᴰ, arith,
  length,
}
use whatsapp_inbox.Schema.{Conversation}
use whatsapp_inbox.Db.{delete_many}
use whatsapp_inbox.Db.Rows.{Distinct}
use whatsapp_inbox.Db.Kept.{mem-delete_many, mem-delete_many_kept, Distinct-delete_many}
use whatsapp_inbox.Order.{sort}
use whatsapp_inbox.Order.Sorted.{length-sort, mem-sort, mem_of_mem-sort, Distinct-sort}
use whatsapp_inbox.Inbox.Pages.{find_many, go_on}
use whatsapp_inbox.Inbox.Pages.Suffix.{take_short, take-take_suc}
use whatsapp_inbox.Inbox.Listing.{
  row_id, conversations_page_size, max_pinned, urgent_first, list_rows,
}
use whatsapp_inbox.Inbox.Listing.Pinned.{walk_list, pinned_rows, Complete, walk_list-Complete_paged}

abbrev pub matching_rows : (Conversation → Bool) → List Conversation → List Conversation
matching_rows base rows = delete_many (λ c. not (base c)) rows

-- As many as the code has room for outside the pages: the list of those about to expire is one page,
-- and the pinned ones of another list stand before its first page.
abbrev pub Fits : Bool → (Conversation → Bool) → List Conversation → Type 0
Fits true base rows = length (matching_rows base rows) ≤ conversations_page_size
Fits false base rows = length (pinned_rows base rows) ≤ max_pinned

walk_list_urgent :
    (fuel : ℕ) (base : Conversation → Bool) (rows : List Conversation)
    → length rows < fuel
    → length (matching_rows base rows) ≤ conversations_page_size
    → walk_list fuel base true none rows ≡ some (sort urgent_first (matching_rows base rows))
unfolding walk_list list_rows go_on find_many
walk_list_urgent zero base rows h few = absurd (omega arith)
walk_list_urgent (suc fuel) base rows h few =
    let sorted = sort urgent_first (matching_rows base rows) in
    ap some (
      take-take_suc conversations_page_size sorted
      ∙ take_short sorted conversations_page_size
          (omega (arith, length-sort urgent_first (matching_rows base rows))))

-- Going from page to page of a list of conversations ends and gives each that matches exactly once:
-- no page skips one, and none repeats one. The list of those about to expire (`urgent`) has one page
-- and is complete if no more than thirty match; any other is if no more than twenty of those that
-- match are pinned. The ids of the conversations are distinct.
pub walk_list-Complete :
    (fuel : ℕ) (base : Conversation → Bool) (urgent : Bool) (rows : List Conversation)
    → Distinct row_id rows
    → length rows < fuel
    → Fits urgent base rows
    → Complete base rows (walk_list fuel base urgent none rows)
walk_list-Complete fuel base false rows d h few = walk_list-Complete_paged fuel base rows d h few
walk_list-Complete fuel base true rows d h few = (
  sort urgent_first (matching_rows base rows),
  walk_list_urgent fuel base rows h few,
  Distinct-sort row_id urgent_first (matching_rows base rows)
      (Distinct-delete_many _ row_id rows d),
  λ z. (into z, onto z),
)
  where
    into :
        (z : Conversation)
        → Memᴰ z (sort urgent_first (matching_rows base rows))
        → Memᴰ z rows × (base z ≡ true)
    into z m =
        let (k, e) =
          mem-delete_many _ rows (mem_of_mem-sort urgent_first (matching_rows base rows) m) in
        (k, ground arith)

    onto :
        (z : Conversation)
        → Memᴰ z rows × (base z ≡ true)
        → Memᴰ z (sort urgent_first (matching_rows base rows))
    onto z (m, e) =
        mem-sort urgent_first (matching_rows base rows)
          (mem-delete_many_kept _ rows m (ground arith))
