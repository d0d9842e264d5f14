-- ===== src/Inbox/Tests.antt =====
-- The inbox on small tables (src/inbox).
use whatsapp_inbox.Shared.{
  ℕ, ◌≤◌, String, ◌≡◌, refl, ◌↔◌, inr, Bool, true, false, not, ◌&&◌, Option, none, some, List, [],
  ◌∷◌, Memᴰ, arith, str_eq, if◌then◌else◌, is_some, ne_of_test, length, any, utf16,
}
use whatsapp_inbox.Schema.{Contact, Conversation}
use whatsapp_inbox.Fixtures.{account, contact, conversation}
use whatsapp_inbox.Db.{delete_many}
use whatsapp_inbox.Db.Rows.{Distinct}
use whatsapp_inbox.Inbox.Tags.{Tag, ConversationTag, ok, max_tags_per_conversation, includes}
use whatsapp_inbox.Inbox.Tags.Assign.{unique, joined, set_for_conversation}
use whatsapp_inbox.Inbox.Tags.Assigned.{set_for_conversation-Sets}
use whatsapp_inbox.Inbox.Listing.{row_id, max_pinned}
use whatsapp_inbox.Inbox.Listing.Pinned.{walk_list}
use whatsapp_inbox.Inbox.Listing.Complete.{walk_list-Complete}
use whatsapp_inbox.Inbox.Edits.{failed, done, contact_exists}
use whatsapp_inbox.Inbox.Edits.Phone.{Opening, open_by_phone}
use whatsapp_inbox.Inbox.Edits.Refused.{Refused, open_by_phone-Refused}
use whatsapp_inbox.Inbox.Edits.Opened.{open_by_phone_again}

abbrev tag_of : String → Tag
tag_of id = record {
  id = id;
  tenant_id = "nova";
  name = utf16 id;
  slug = utf16 id;
  color = utf16 "nori";
}

abbrev tags : List Tag
tags = tag_of "t1" ∷ tag_of "t2" ∷ tag_of "t3" ∷ []

abbrev join_of : String → String → ℕ → ConversationTag
join_of conversation_id tag_id now = record {
  tenant_id = "nova";
  conversation_id = conversation_id;
  tag_id = tag_id;
  created_at = now;
}

abbrev joins : List ConversationTag
joins = join_of "cv1" "t1" 1 ∷ join_of "cv2" "t1" 2 ∷ join_of "cv1" "t2" 3 ∷ []

-- The first tag goes, the third comes, and the other conversation keeps its own.
abbrev joins_after : List ConversationTag
joins_after = join_of "cv2" "t1" 2 ∷ join_of "cv1" "t2" 3 ∷ join_of "cv1" "t3" 9 ∷ []

tags_replaced :
    set_for_conversation "nova" "cv1"
      (some ("t2" ∷ "t3" ∷ "t2" ∷ []))
      9
      (conversation ∷ [])
      tags
      joins
    ≡ ok joins_after
unfolding set_for_conversation
tags_replaced = refl

set_for_conversation-Sets_example :
    (length (unique ("t2" ∷ "t3" ∷ "t2" ∷ [])) ≤ max_tags_per_conversation)
    × ((c : Conversation) × Memᴰ c (conversation ∷ [])
        × (c.id ≡ "cv1")
        × (c.tenant_id ≡ "nova")
        × (c.deleted_at ≡ none))
    × ((c t : String)
        → any (joined c t) joins_after ≡ (
            if str_eq "cv1" c
            then includes ("t2" ∷ "t3" ∷ "t2" ∷ []) t
            else any (joined c t) joins))
set_for_conversation-Sets_example =
    set_for_conversation-Sets "nova" "cv1" ("t2" ∷ "t3" ∷ "t2" ∷ []) 9 (conversation ∷ []) tags
      joins joins_after (inr refl, (inr refl, (inr refl, tt))) tags_replaced

abbrev row : String → Option ℕ → Option ℕ → Conversation
row id last pinned = record conversation { id = id; last_message_at = last; pinned_at = pinned }

abbrev rows : List Conversation
rows =
    row "c1" (some 5) none
    ∷ row "c2" (some 9) none
    ∷ row "c3" none (some 2)
    ∷ row "c4" none none
    ∷ []

abbrev every_row : Conversation → Bool
every_row c = true

walked :
    walk_list 5 every_row false none rows
    ≡ some (
        row "c3" none (some 2)
        ∷ row "c2" (some 9) none
        ∷ row "c1" (some 5) none
        ∷ row "c4" none none
        ∷ [])
unfolding walk_list
walked = refl

ids : Distinct row_id rows
ids = (
  (ne_of_test "c2" "c1" refl, (ne_of_test "c3" "c1" refl, (ne_of_test "c4" "c1" refl, tt))),
  (
    (ne_of_test "c3" "c2" refl, (ne_of_test "c4" "c2" refl, tt)),
    ((ne_of_test "c4" "c3" refl, tt), (tt, tt)),
  ),
)

one_pinned : length (delete_many (λ c. not (every_row c && is_some c.pinned_at)) rows) ≤ max_pinned
unfolding delete_many
one_pinned = omega arith

walk_list-Complete_example :
    (pages : List Conversation) × (walk_list 5 every_row false none rows ≡ some pages)
    × Distinct row_id pages
    × ((z : Conversation) → Memᴰ z pages ↔ (Memᴰ z rows × (every_row z ≡ true)))
walk_list-Complete_example = walk_list-Complete 5 every_row false rows ids (omega arith) one_pinned

abbrev phone : String
phone = "+54 9 11 5555-0000"

abbrev phone_ana : Contact
phone_ana = record contact {
  id = "ct9";
  wa_id = "5491155550000";
  phone_e164 = some (utf16 "+5491155550000");
  profile_name = none;
}

abbrev new_thread : Conversation
new_thread = record conversation { id = "cv9"; contact_id = "ct9"; last_inbound_at = none }

abbrev first_opening : Opening
first_opening = record {
  contacts = phone_ana ∷ [];
  conversations = new_thread ∷ [];
  conversation = new_thread;
  contact = phone_ana;
  events = record { tenant_id = "nova"; conversation = new_thread; tags = none } ∷ [];
}

opened : open_by_phone "ct9" "cv9" "nova" phone (account ∷ []) [] [] ≡ done first_opening
unfolding open_by_phone
opened = refl

open_by_phone_again_example :
    open_by_phone "ct7" "cv7" "nova" phone
      (account ∷ [])
      first_opening.contacts
      first_opening.conversations
    ≡ done first_opening
open_by_phone_again_example =
    open_by_phone_again "ct9" "cv9" "ct7" "cv7" "nova" phone (account ∷ []) [] [] first_opening
      opened

abbrev gone : Contact
gone = record contact { wa_id = "5491155550000"; deleted_at = some 7 }

open_by_phone-Refused_example :
    (open_by_phone "ct9" "cv9" "nova" phone (account ∷ []) (gone ∷ []) [] ≡ failed contact_exists)
    ↔ Refused "nova" phone (account ∷ []) (gone ∷ []) contact_exists
open_by_phone-Refused_example =
    open_by_phone-Refused "ct9" "cv9" "nova" phone (account ∷ []) (gone ∷ []) [] contact_exists

not_opened :
    open_by_phone "ct9" "cv9" "nova" phone (account ∷ []) (gone ∷ []) [] ≡ failed contact_exists
unfolding open_by_phone
not_opened = refl
