-- ===== src/Tenancy/SoftDelete.antt =====
-- The filter of soft deletes (src/prisma/soft-delete.ts).
use whatsapp_inbox.Shared.{
  String, Bool, false, ◌&&◌, ◌||◌, List, [], ◌∷◌, str_eq, if◌then◌else◌, utf16,
}
use whatsapp_inbox.Json.{Json, Fields, field_of, is_plain_object}
use whatsapp_inbox.Tenancy.Guard.{includes}

abbrev pub soft_delete_models : List String
soft_delete_models = "Contact" ∷ "Conversation" ∷ "Message" ∷ []

abbrev pub filtered_read_ops : List String
filtered_read_ops =
    "findMany" ∷ "findFirst" ∷ "findFirstOrThrow" ∷ "count" ∷ "aggregate" ∷ "groupBy" ∷ []

unfoldable pub fields_of : Json → Fields
fields_of (Json.obj fs) = fs
fields_of _ = Fields.end

unfoldable pub has_field : String → Fields → Bool
has_field key Fields.end = false
has_field key (Fields.field k v fs) = let rest = has_field key fs in str_eq k key || rest

-- `o[key] = value`: the entry keeps its place if there is one, and is the last if there is none.
unfoldable pub set : String → Json → Fields → Fields
set key value Fields.end = Fields.field key value Fields.end
set key value (Fields.field k v fs) =
    let rest = set key value fs in
    if str_eq k key then Fields.field k value fs else Fields.field k v rest

-- `Object.assign(out, source)`
unfoldable pub assign : Fields → Fields → Fields
assign out Fields.end = out
assign out (Fields.field k v fs) = assign (set k v out) fs

-- Of the object `where`, which `?? {}` makes of an absent one.
unfoldable pub add_deleted_filter : Fields → Fields
add_deleted_filter fs = if has_field "deletedAt" fs then fs else set "deletedAt" Json.null fs

unfoldable pub inject_deleted_filter : Json → Json
unfolding fields_of add_deleted_filter
inject_deleted_filter args = Json.obj (
    set "where" (Json.obj (add_deleted_filter (fields_of (field_of "where" args))))
      (fields_of args))

-- The loop over the entries, with the object written so far.
unfoldable pub expand_into : Fields → Fields → Fields
expand_into out Fields.end = out
expand_into out (Fields.field key value fs) =
    if includes (utf16 "_") (utf16 key) && is_plain_object value
    then expand_into (assign out (fields_of value)) fs
    else expand_into (set key value out) fs

unfoldable pub expand_unique_where : Fields → Fields
unfolding expand_into
expand_unique_where where_ = expand_into Fields.end where_
