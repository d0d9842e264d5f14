-- ===== src/Tenancy/Tests.antt =====
-- Queries of a tenant's contacts, through the client.
use whatsapp_inbox.Shared.{String, ◌≡◌, refl, ◌↔◌, true, none, Text, utf16}
use whatsapp_inbox.Json.{Json, Items, Fields, get}
use whatsapp_inbox.Tenancy.Guard.{
  includes, tenant_id_present, is_scoped_key, has_tenant_scope, data_has_tenant, Missing,
  assert_tenant_scoped,
}
use whatsapp_inbox.Tenancy.SoftDelete.{
  fields_of, has_field, set, assign, add_deleted_filter, inject_deleted_filter, expand_into,
  expand_unique_where,
}
use whatsapp_inbox.Tenancy.Client.{Query, guarded, query}
use whatsapp_inbox.Tenancy.Scope.{Demands, has_tenant_scope_iff}
use whatsapp_inbox.Tenancy.Confined.{Confined, query-Confined}
use whatsapp_inbox.Tenancy.Deleted.{asked_where, query-hides_deleted}
use whatsapp_inbox.Tenancy.Engine.{Row, lower, meets, meets-Matching}

runs : Unit {0}
unfolding includes tenant_id_present is_scoped_key has_tenant_scope data_has_tenant
    assert_tenant_scoped get has_field set assign add_deleted_filter inject_deleted_filter
    expand_into expand_unique_where guarded query asked_where fields_of meets
runs = tt

abbrev one : String → Json → Fields
one key v = Fields.field key v Fields.end

abbrev asked : Fields → Json
asked where_ = Json.obj (one "where" (Json.obj where_))

abbrev nova : Json
nova = Json.str (utf16 "nova")

abbrev by_wa_id : Fields
by_wa_id =
    one "tenantId_waId"
      (Json.obj (Fields.field "tenantId" nova (one "waId" (Json.str (utf16 "5491100000000")))))

abbrev by_wa_id_expanded : Fields
by_wa_id_expanded =
    Fields.field "tenantId" nova
      (Fields.field "waId" (Json.str (utf16 "5491100000000")) (one "deletedAt" Json.null))

expanded :
    query "Contact" "findUnique" (asked by_wa_id)
    ≡ Query.engine "Contact" "findFirst" (asked by_wa_id_expanded)
unfolding runs
expanded = refl

-- A tenant in one branch of an `OR` is none; one in a conjunct is.
alternatives :
    (query "Message" "findMany"
        (asked (one "OR" (Json.arr (Items.cons (Json.obj (one "tenantId" nova)) Items.nil))))
      ≡ Query.refused Missing.in_where)
    × (has_tenant_scope
          (Json.obj (one "AND" (Json.arr (Items.cons (Json.obj (one "tenantId" nova)) Items.nil))))
        ≡ true)
unfolding runs
alternatives = (refl, refl)

unknown_operation :
    query "Contact" "findRaw" (asked (one "tenantId" nova))
    ≡ Query.refused Missing.operation_unknown
unfolding runs
unknown_operation = refl

has_tenant_scope_iff_example :
    (has_tenant_scope (Json.obj by_wa_id) ≡ true) ↔ ((t : Text) × Demands t (Json.obj by_wa_id))
has_tenant_scope_iff_example = has_tenant_scope_iff (Json.obj by_wa_id)

query-Confined_example :
    Confined (λ (r : Row). r.tenant) lower meets "findFirst" (asked by_wa_id_expanded)
unfolding runs
query-Confined_example =
    query-Confined meets-Matching "Contact" "findUnique" (asked by_wa_id) refl expanded

abbrev contact_row : Row
contact_row = record { tenant = utf16 "nova"; deleted = none }

query-hides_deleted_example : contact_row.deleted ≡ none
unfolding runs
query-hides_deleted_example =
    query-hides_deleted meets-Matching "Contact" "findUnique" (asked by_wa_id) refl refl refl
      expanded contact_row refl
