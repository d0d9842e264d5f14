-- ===== src/Tenancy/Guard.antt =====
-- The guard of the tenants' isolation (src/prisma/tenant-guard.ts).
use whatsapp_inbox.Shared.{
  String, Bool, true, false, not, ◌&&◌, ◌||◌, Option, none, some, List, [], ◌∷◌, ◌==◌, str_eq,
  if◌then◌else◌, any, all, Text, utf16, is_nil,
}
use whatsapp_inbox.Json.{Json, Items, Fields, items, entries, get, field_of, is_plain_object}

abbrev pub has_name : List String → String → Bool
has_name names name = any (str_eq name) names

abbrev pub tenant_scoped_models : List String
tenant_scoped_models =
    "Contact" ∷ "Conversation" ∷ "Message" ∷ "MessageTemplate" ∷ "QuickReply" ∷ "GourmetifyOrder"
    ∷ []

is_prefix : Text → Text → Bool
is_prefix [] s = true
is_prefix (a ∷ part) [] = false
is_prefix (a ∷ part) (b ∷ bs) = let rest = is_prefix part bs in (a == b) && rest

-- `s.includes(part)`
unfoldable pub includes : Text → Text → Bool
unfolding is_prefix
includes part [] = is_nil part
includes part (c ∷ cs) = let rest = includes part cs in is_prefix part (c ∷ cs) || rest

-- `typeof value === 'string' && value.length > 0`
abbrev pub is_filled : Json → Bool
is_filled (Json.str s) = not (is_nil s)
is_filled _ = false

abbrev pub is_text : Json → Bool
is_text (Json.str s) = true
is_text _ = false

abbrev pub is_empty : List Json → Bool
is_empty [] = true
is_empty (v ∷ vs) = false

-- A text, or the filter `{ equals: … }`.
unfoldable pub tenant_id_present : Json → Bool
tenant_id_present (Json.str s) = is_filled (Json.str s)
tenant_id_present (Json.obj fs) = is_filled (get "equals" (entries fs))
tenant_id_present _ = false

-- A compound unique key: `tenantId_waId`, `tenantId_wamid`, …
unfoldable pub is_scoped_key : String → Json → Bool
unfolding tenant_id_present
is_scoped_key key value =
    includes (utf16 "tenantId") (utf16 key)
    && (is_plain_object value && tenant_id_present (field_of "tenantId" value))

unfoldable mutual
  pub has_tenant_scope : Json → Bool
  has_tenant_scope (Json.obj fs) = tenant_id_present (get "tenantId" (entries fs)) || any_entry fs
  has_tenant_scope _ = false

  -- The loop over `Object.entries(where)`.
  pub any_entry : Fields → Bool
  any_entry Fields.end = false
  any_entry (Fields.field key value rest) =
      (if str_eq key "AND" then any_branch value else is_scoped_key key value) || any_entry rest

  -- `(Array.isArray(value) ? value : [value]).some(hasTenantScope)`, where `hasTenantScope` of a
  -- single branch is written out.
  pub any_branch : Json → Bool
  any_branch (Json.arr is) = any_item is
  any_branch (Json.obj fs) = tenant_id_present (get "tenantId" (entries fs)) || any_entry fs
  any_branch _ = false

  pub any_item : Items → Bool
  any_item Items.nil = false
  any_item (Items.cons branch rest) = has_tenant_scope branch || any_item rest

unfoldable pub data_has_tenant : Json → Bool
unfolding get
data_has_tenant (Json.obj fs) =
    let connect = field_of "connect" (get "tenant" (entries fs)) in
    is_filled (get "tenantId" (entries fs))
    || (is_plain_object connect
        && (is_text (field_of "id" connect) || is_text (field_of "slug" connect)))
data_has_tenant _ = false

abbrev pub where_ops : List String
where_ops =
    "findUnique" ∷ "findUniqueOrThrow" ∷ "findFirst" ∷ "findFirstOrThrow" ∷ "findMany" ∷ "update"
    ∷ "updateMany" ∷ "updateManyAndReturn" ∷ "delete" ∷ "deleteMany" ∷ "count" ∷ "aggregate"
    ∷ "groupBy" ∷ []

abbrev pub create_ops : List String
create_ops = "create" ∷ "createMany" ∷ "createManyAndReturn" ∷ []

-- The detail of a `MissingTenantScopeError`.
pub data Missing : Type 0 where
  in_where in_data in_create operation_unknown : Missing

-- `Array.isArray(data) ? data : [data]`
abbrev pub rows_of : Json → List Json
rows_of (Json.arr is) = items is
rows_of data_ = data_ ∷ []

-- `none` where the query may run.
unfoldable pub assert_tenant_scoped : String → String → Json → Option Missing
unfolding has_tenant_scope
assert_tenant_scoped model operation args =
    if not (has_name tenant_scoped_models model)
    then none
    else if has_name where_ops operation
    then (if has_tenant_scope (field_of "where" args) then none else some Missing.in_where)
    else if has_name create_ops operation
    then (let rows = rows_of (field_of "data" args) in
        if is_empty rows || not (all data_has_tenant rows) then some Missing.in_data else none)
    else if str_eq operation "upsert"
    then (if not (has_tenant_scope (field_of "where" args))
        then some Missing.in_where
        else if data_has_tenant (field_of "create" args)
        then none
        else some Missing.in_create)
    else some Missing.operation_unknown
