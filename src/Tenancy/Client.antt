-- ===== src/Tenancy/Client.antt =====
-- The client that all services use (`createExtendedClient` of src/prisma/prisma.service.ts): what
-- the engine is asked to do for a call.
use whatsapp_inbox.Shared.{String, not, ◌||◌, Option, none, some, str_eq, if◌then◌else◌}
use whatsapp_inbox.Json.{Json, field_of}
use whatsapp_inbox.Tenancy.Guard.{has_name, Missing, assert_tenant_scoped}
use whatsapp_inbox.Tenancy.SoftDelete.{
  soft_delete_models, filtered_read_ops, fields_of, set, add_deleted_filter, inject_deleted_filter,
  expand_unique_where,
}

pub data Query : Type 0 where
  engine : String → String → Json → Query
  refused : Missing → Query

abbrev pub checked : Option Missing → String → String → Json → Query
checked none model operation args = engine model operation args
checked (some missing) model operation args = refused missing

-- `tenantGuardExtension`
unfoldable pub guarded : String → String → Json → Query
guarded model operation args =
    checked (assert_tenant_scoped model operation args) model operation args

-- `softDeleteExtension`, whose `query` is the guarded client.
unfoldable pub query : String → String → Json → Query
unfolding guarded inject_deleted_filter expand_unique_where
query model operation args =
    if not (has_name soft_delete_models model)
    then guarded model operation args
    else if has_name filtered_read_ops operation
    then guarded model operation (inject_deleted_filter args)
    else if str_eq operation "findUnique" || str_eq operation "findUniqueOrThrow"
    then (let where_ =
          add_deleted_filter (expand_unique_where (fields_of (field_of "where" args))) in
        guarded model (if str_eq operation "findUnique" then "findFirst" else "findFirstOrThrow")
          (Json.obj (set "where" (Json.obj where_) (fields_of args))))
    else guarded model operation args
