-- ===== src/Inbox/Tags.antt =====
-- The tags of conversations (src/inbox/tags.service.ts, src/inbox/tag-colors.ts). `fold` is what
-- `normalize('NFD')`, the removal of marks and `toLowerCase` make of a text.
pub mod Assign
pub mod Assigned
use whatsapp_inbox.Shared.{
  ℕ, String, Bool, true, false, not, ◌&&◌, ◌||◌, Option, none, some, List, [], ◌∷◌, ltb, leb, ◌==◌,
  str_eq, if◌then◌else◌, or_else, length, any, Text, utf16, is_nil, text_eq, is_space, trim,
}
use whatsapp_inbox.Db.{find_first, update_many, delete_many, create, count}
use whatsapp_inbox.Order.{sort}

pub record Tag : Type 0 where
  pub id : String
  pub tenant_id : String
  pub name : Text
  pub slug : Text
  pub color : Text

pub record ConversationTag : Type 0 where
  pub tenant_id : String
  pub conversation_id : String
  pub tag_id : String
  pub created_at : ℕ

pub data Problem : Type 0 where
  no_name long_name no_slug bad_color tag_exists unknown_tag : Problem
  bad_ids too_many_tags unknown_conversation unique_violation : Problem

pub data Answer (A : Type 0) : Type 0 where
  refused : Problem → Answer A
  ok : A → Answer A

abbrev pub tag_colors : List Text
tag_colors =
    utf16 "piedra" ∷ utf16 "nori" ∷ utf16 "shoyu" ∷ utf16 "wasabi" ∷ utf16 "ume" ∷ utf16 "ai" ∷ []

abbrev pub default_tag_color : Text
default_tag_color = utf16 "piedra"

unfoldable pub is_tag_color : Text → Bool
is_tag_color color = any (λ c. text_eq c color) tag_colors

abbrev pub tag_name_max : ℕ
tag_name_max = 24

abbrev pub max_tags_per_conversation : ℕ
max_tags_per_conversation = 6

-- Each run of characters that pass the test becomes one character; the flag says whether such a run
-- is under way.
unfoldable pub squash : (ℕ → Bool) → ℕ → Bool → Text → Text
squash p by running [] = []
squash p by running (c ∷ cs) =
    let in_run = squash p by true cs in
    let out_of_run = squash p by false cs in
    if p c then (if running then in_run else by ∷ in_run) else c ∷ out_of_run

is_slug_char : ℕ → Bool
is_slug_char c = (leb b'a' c && leb c b'z') || (leb b'0' c && leb c b'9')

drop_dashes : Text → Text
drop_dashes [] = []
drop_dashes (c ∷ cs) = let rest = drop_dashes cs in if c == b'-' then rest else c ∷ cs

-- Dashes at the end go where nothing else follows them.
drop_last_dashes : Text → Text
drop_last_dashes [] = []
drop_last_dashes (c ∷ cs) =
    let rest = drop_last_dashes cs in if c == b'-' && is_nil rest then [] else c ∷ rest

unfoldable pub tag_slug : (Text → Text) → Text → Text
unfolding squash is_slug_char drop_dashes drop_last_dashes
tag_slug fold name =
    drop_last_dashes (drop_dashes (squash (λ c. not (is_slug_char c)) b'-' false (fold name)))

-- `trim().replace(/\s+/g, ' ')`; a name that is no text is empty.
unfoldable pub tag_name : Option Text → Text
unfolding trim squash
tag_name none = []
tag_name (some name) = squash is_space 0x20 false (trim name)

check_name : (Text → Text) → Text → Option Problem
unfolding tag_slug
check_name fold name =
    if is_nil name
    then some no_name
    else if ltb tag_name_max (length name)
    then some long_name
    else if is_nil (tag_slug fold name)
    then some no_slug
    else none

-- The color of a request: missing, no text, or a text.
unfoldable pub check_color : Option (Option Text) → Option Problem
unfolding is_tag_color
check_color none = none
check_color (some none) = some bad_color
check_color (some (some color)) = if is_tag_color color then none else some bad_color

unfoldable pub color_of : Option (Option Text) → Text
color_of (some (some color)) = color
color_of (some none) = default_tag_color
color_of none = default_tag_color

unfoldable pub has_slug : String → Text → Tag → Bool
has_slug tenant_id slug t = str_eq t.tenant_id tenant_id && text_eq t.slug slug

-- `@@unique([tenantId, slug])`
clash : Tag → Tag → Bool
unfolding has_slug
clash row t = has_slug row.tenant_id row.slug t

unfoldable pub is_tag : String → String → Tag → Bool
is_tag tenant_id id t = str_eq t.id id && str_eq t.tenant_id tenant_id

-- The tag that another request made first, if the unique constraint refused this one.
winner : Option Tag → List Tag → Answer (List Tag × Tag)
winner none tags = refused unique_violation
winner (some t) tags = ok (tags, t)

insert_tag : Tag → List Tag → Answer (List Tag × Tag)
unfolding create clash find_first has_slug winner
insert_tag row tags = elim (create clash row tags) [
  | some tags' ↦ ok (tags', row)
  | none ↦ winner (find_first (has_slug row.tenant_id row.slug) tags) tags
]

-- `between` is what other requests write between the search and the creation.
unfoldable pub create_tag :
    (Text → Text)
    → (List Tag → List Tag)
    → String
    → String
    → Option Text
    → Option (Option Text)
    → List Tag
    → Answer (List Tag × Tag)
unfolding tag_name check_name check_color color_of has_slug find_first insert_tag
create_tag fold between id tenant_id name color tags =
    let named = tag_name name in
    let slug = tag_slug fold named in
    elim (or_else (check_name fold named) (check_color color)) [
      | some problem ↦ refused problem
      | none ↦ elim (find_first (has_slug tenant_id slug) tags) [
        | some existing ↦ ok (tags, existing)
        | none ↦
            insert_tag
              (record {
                id = id;
                tenant_id = tenant_id;
                name = named;
                slug = slug;
                color = color_of color;
              })
              (between tags)
      ]
    ]

-- Another tag of the tenant with the slug.
other_with_slug : String → String → Text → Tag → Bool
unfolding has_slug
other_with_slug tenant_id id slug t = has_slug tenant_id slug t && not (str_eq t.id id)

rename_tag : (Text → Text) → String → String → Option (Option Text) → List Tag → Answer (Tag → Tag)
unfolding tag_name check_name find_first other_with_slug
rename_tag fold tenant_id id none tags = ok (λ t. t)
rename_tag fold tenant_id id (some name) tags =
    let named = tag_name name in
    let slug = tag_slug fold named in
    elim (check_name fold named) [
      | some problem ↦ refused problem
      | none ↦ elim (find_first (other_with_slug tenant_id id slug) tags) [
        | some other ↦ refused tag_exists
        | none ↦ ok (λ t. record t { name = named; slug = slug })
      ]
    ]

recolor_tag : Option (Option Text) → Answer (Tag → Tag)
unfolding check_color
recolor_tag none = ok (λ t. t)
recolor_tag (some color) = elim (check_color (some color)) [
  | some problem ↦ refused problem
  | none ↦ ok (λ t. record t { color = color_of (some color) })
]

unfoldable pub update_tag :
    (Text → Text)
    → String
    → String
    → Option (Option Text)
    → Option (Option Text)
    → List Tag
    → Answer (List Tag)
unfolding find_first is_tag rename_tag recolor_tag update_many
update_tag fold tenant_id id name color tags = elim (find_first (is_tag tenant_id id) tags) [
  | none ↦ refused unknown_tag
  | some tag ↦ elim (rename_tag fold tenant_id id name tags) [
    | refused problem ↦ refused problem
    | ok rename ↦ elim (recolor_tag color) [
      | refused problem ↦ refused problem
      | ok recolor ↦ ok (update_many (is_tag tenant_id id) (λ t. recolor (rename t)) tags)
    ]
  ]
]

-- The cascade of the join takes the tag off the conversations.
unfoldable pub remove_tag :
    String → String → List Tag → List ConversationTag → Answer (List Tag × List ConversationTag)
unfolding delete_many is_tag
remove_tag tenant_id id tags joins =
    if any (is_tag tenant_id id) tags
    then ok (delete_many (is_tag tenant_id id) tags, delete_many (λ j. str_eq j.tag_id id) joins)
    else refused unknown_tag

-- How many conversations use each tag.
unfoldable pub usage_count : String → List ConversationTag → Tag → ℕ
unfolding count
usage_count tenant_id joins t =
    count (λ j. str_eq j.tenant_id tenant_id && str_eq j.tag_id t.id) joins

-- `list.includes(x)`
abbrev pub includes : List String → String → Bool
includes list x = any (λ y. str_eq y x) list

-- The tags of a conversation, in the order in which they were put on it.
tag_rows : List ConversationTag → List Tag → List Tag
unfolding find_first
tag_rows [] tags = []
tag_rows (j ∷ joins) tags = elim (find_first (λ t. str_eq t.id j.tag_id) tags) [
  | none ↦ tag_rows joins tags
  | some t ↦ t ∷ tag_rows joins tags
]

unfoldable pub tags_for : String → List Tag → List ConversationTag → String → List Tag
unfolding delete_many sort tag_rows
tags_for tenant_id tags joins conversation_id =
    tag_rows
      (sort (λ (a b : ConversationTag). ltb a.created_at b.created_at)
        (delete_many
          (λ j. not (str_eq j.tenant_id tenant_id && str_eq j.conversation_id conversation_id))
          joins))
      tags
