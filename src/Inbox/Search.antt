-- ===== src/Inbox/Search.antt =====
-- The search of conversations by contact and by tag (`searchContacts` and the filters of `list` in
-- src/inbox/conversations.service.ts, `searchTagIds` of src/inbox/tags.service.ts). `fold` is that of the tags, and `like` the test
-- `contains` of the database without regard to case.
use whatsapp_inbox.Shared.{
  String, Bool, true, false, not, ◌&&◌, ◌||◌, Option, none, some, List, [], ◌∷◌, map, leb, ◌==◌,
  str_eq, if◌then◌else◌, is_none, take, any, Text, utf16, is_nil,
}
use whatsapp_inbox.Schema.{Contact, Conversation}
use whatsapp_inbox.Db.{delete_many}
use whatsapp_inbox.Inbox.Tags.{Tag, ConversationTag, tag_slug, includes}

-- `contains`: a run of the text.
unfoldable pub starts_with : Text → Text → Bool
starts_with [] s = true
starts_with (c ∷ cs) [] = false
starts_with (c ∷ cs) (d ∷ s) = c == d && starts_with cs s

unfoldable pub contains : Text → Text → Bool
unfolding starts_with
contains part [] = is_nil part
contains part (c ∷ s) = starts_with part (c ∷ s) || contains part s

-- `tagSlug(q) || ' '`
slug_part : (Text → Text) → Text → Text
slug_part fold q = let slug = tag_slug fold q in if is_nil slug then 0x20 ∷ [] else slug

unfoldable pub search_tag_ids :
    (Text → Text) → (Text → Text → Bool) → String → Text → List Tag → List String
unfolding delete_many slug_part contains
search_tag_ids fold like tenant_id q tags =
    map (λ (t : Tag). t.id)
      (take 50 (
        delete_many
          (λ t.
            not (
              str_eq t.tenant_id tenant_id
              && (like q t.name || contains (slug_part fold q) t.slug)))
          tags))

-- `q.replace(/\D/g, '')`
unfoldable pub digits_of : Text → Text
unfolding delete_many
digits_of q = delete_many (λ c. not (leb b'0' c && leb c b'9')) q

has_part : Text → Option Text → Bool
unfolding contains
has_part part none = false
has_part part (some s) = contains part s

named_like : (Text → Text → Bool) → Text → Option Text → Bool
named_like like q none = false
named_like like q (some name) = like q name

contact_matches : (Text → Text → Bool) → String → Text → Contact → Bool
unfolding digits_of has_part named_like contains
contact_matches like tenant_id q c =
    let digits = digits_of q in
    str_eq c.tenant_id tenant_id
    && is_none c.deleted_at
    && (named_like like q c.profile_name
        || (not (is_nil digits)
            && (has_part digits c.phone_e164 || contains digits (utf16 c.wa_id))))

unfoldable pub search_contacts : (Text → Text → Bool) → String → Text → List Contact → List Contact
unfolding delete_many contact_matches
search_contacts like tenant_id q contacts =
    take 200 (delete_many (λ c. not (contact_matches like tenant_id q c)) contacts)

unfoldable pub has_any_tag : String → List String → List ConversationTag → Conversation → Bool
has_any_tag tenant_id ids joins c =
    any (λ j. str_eq j.conversation_id c.id && includes ids j.tag_id) joins

-- By a contact that was found or by a tag that was.
unfoldable pub search_where :
    List Contact → List String → List ConversationTag → String → Conversation → Bool
unfolding has_any_tag
search_where contacts ids joins tenant_id c =
    any (λ (k : Contact). str_eq k.id c.contact_id) contacts || has_any_tag tenant_id ids joins c
