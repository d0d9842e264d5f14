-- ===== src/Inbox/Tags/Assign.antt =====
-- The replacement of the tags of a conversation (`setForConversation` of src/inbox/tags.service.ts).
use whatsapp_inbox.Shared.{
  ℕ, String, Bool, not, ◌&&◌, Option, none, some, List, [], ◌∷◌, ltb, ◌==◌, str_eq, if◌then◌else◌,
  is_none, length, any,
}
use whatsapp_inbox.Schema.{Conversation}
use whatsapp_inbox.Db.{delete_many, upsert, count}
use whatsapp_inbox.Inbox.Tags.{
  Tag, ConversationTag, Answer, ok, refused, unknown_tag, bad_ids, too_many_tags,
  unknown_conversation, max_tags_per_conversation, includes,
}

-- `[...new Set(ids)]`: each id where it first stands.
unfoldable pub unique : List String → List String
unfolding delete_many
unique [] = []
unique (x ∷ xs) = x ∷ delete_many (λ y. str_eq y x) (unique xs)

unfoldable pub joined : String → String → ConversationTag → Bool
joined conversation_id tag_id j = str_eq j.conversation_id conversation_id && str_eq j.tag_id tag_id

unfoldable pub add_tags :
    String → String → ℕ → List String → List ConversationTag → List ConversationTag
unfolding joined upsert
add_tags tenant_id conversation_id now [] joins = joins
add_tags tenant_id conversation_id now (tag_id ∷ ids) joins =
    add_tags tenant_id conversation_id now ids
      (upsert (joined conversation_id tag_id)
        (record {
          tenant_id = tenant_id;
          conversation_id = conversation_id;
          tag_id = tag_id;
          created_at = now;
        })
        (λ j. j) joins).0

-- A tag of the conversation that is not among those wanted; no tag has the id `—` that the code names
-- in the place of an empty list.
unfoldable pub unwanted : String → String → List String → ConversationTag → Bool
unwanted tenant_id conversation_id ids j =
    str_eq j.tenant_id tenant_id
    && str_eq j.conversation_id conversation_id
    && not (includes ids j.tag_id)

-- A conversation of the tenant, as reads see it: deleted ones are hidden.
unfoldable pub is_conversation : String → String → Conversation → Bool
is_conversation tenant_id id c =
    str_eq c.id id && str_eq c.tenant_id tenant_id && is_none c.deleted_at

unfoldable pub set_tags :
    String
    → String
    → List String
    → ℕ
    → List Conversation
    → List Tag
    → List ConversationTag
    → Answer (List ConversationTag)
unfolding count is_conversation delete_many unwanted add_tags
set_tags tenant_id conversation_id ids now conversations tags joins =
    if ltb max_tags_per_conversation (length ids)
    then refused too_many_tags
    else if not (any (is_conversation tenant_id conversation_id) conversations)
    then refused unknown_conversation
    else if not (count (λ t. str_eq t.tenant_id tenant_id && includes ids t.id) tags == length ids)
    then refused unknown_tag
    else ok (
        add_tags tenant_id conversation_id now ids
          (delete_many (unwanted tenant_id conversation_id ids) joins))

-- `none` is a list of ids that is no list of texts.
unfoldable pub set_for_conversation :
    String
    → String
    → Option (List String)
    → ℕ
    → List Conversation
    → List Tag
    → List ConversationTag
    → Answer (List ConversationTag)
unfolding set_tags unique
set_for_conversation tenant_id conversation_id none now conversations tags joins = refused bad_ids
set_for_conversation tenant_id conversation_id (some raw) now conversations tags joins =
    set_tags tenant_id conversation_id (unique raw) now conversations tags joins
