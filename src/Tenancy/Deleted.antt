-- ===== src/Tenancy/Deleted.antt =====
-- Which deleted rows a read can reach through the client (src/prisma/soft-delete.ts).
use whatsapp_inbox.Shared.{
  ℕ, String, ◌≡◌, sym, ap, ◌∙◌, subst, inl, inr, Bool, true, false, ◌||◌, Option, none, ◌∷◌, arith,
  eq_iff, str_eq, if◌then◌else◌, Bool-cases, Text,
}
use whatsapp_inbox.Json.{Json, Fields, get, field_of, entries}
use whatsapp_inbox.Tenancy.Guard.{has_name, assert_tenant_scoped}
use whatsapp_inbox.Tenancy.SoftDelete.{
  soft_delete_models, filtered_read_ops, fields_of, has_field, set, add_deleted_filter,
  inject_deleted_filter, expand_unique_where,
}
use whatsapp_inbox.Tenancy.Client.{Query, guarded, query}
use whatsapp_inbox.Tenancy.Confined.{Matching, checked-engine}

get-set : (key : String) (v : Json) (fs : Fields) → get key (entries (set key v fs)) ≡ v
unfolding get set
get-set key v Fields.end = ground (arith, eq_iff key key)
get-set key v (Fields.field k w fs) = elim (Bool-cases (str_eq k key)) [
  | inl e ↦ rw e (rw e)
  | inr e ↦ rw e (rw e (get-set key v fs))
]

-- The `where` that a read asks for: of a unique one, with its compound keys expanded.
unfoldable pub asked_where : String → Json → Fields
asked_where operation args =
    if has_name filtered_read_ops operation
    then fields_of (field_of "where" args)
    else expand_unique_where (fields_of (field_of "where" args))

where-set :
    (w : Fields) (args : Json)
    → field_of "where" (Json.obj (set "where" (Json.obj w) (fields_of args))) ≡ Json.obj w
where-set w args = get-set "where" (Json.obj w) (fields_of args)

deleted-null :
    (fs : Fields)
    → has_field "deletedAt" fs ≡ false
    → get "deletedAt" (entries (add_deleted_filter fs)) ≡ Json.null
unfolding add_deleted_filter
deleted-null fs h = rw h (get-set "deletedAt" Json.null fs)

either : (a b c : Bool) → (a || (b || c)) ≡ true → c ≡ false → (a || b) ≡ true
either a b c h f = ground arith

module _ {Row : Type 0} {tenant : Row → Text} {deleted : Row → Option ℕ} {fold : Text → Text}
    {matches : Json → Row → Bool} (law : Matching tenant deleted fold matches) where
  guarded-hides :
      (model operation : String) (where_ : Fields) (args : Json) {model' operation' : String}
      {args' : Json}
      → has_field "deletedAt" where_ ≡ false
      → guarded model operation
          (Json.obj (set "where" (Json.obj (add_deleted_filter where_)) (fields_of args)))
        ≡ Query.engine model' operation' args'
      → (r : Row) → matches (field_of "where" args') r ≡ true
      → deleted r ≡ none
  unfolding guarded
  guarded-hides model operation where_ args n h r m =
      let asked = Json.obj (set "where" (Json.obj (add_deleted_filter where_)) (fields_of args)) in
      let (_, _, a) =
        checked-engine (assert_tenant_scoped model operation asked) model operation asked h in
      law.no_value r (deleted-null where_ n) (
        subst (λ w. matches w r ≡ true)
          (ap (field_of "where") (sym a) ∙ where-set (add_deleted_filter where_) args) m)

  -- A read of a model with soft deletes, one that takes a filter or a unique key, whose `where` does
  -- not mention `deletedAt`: the query that reaches the engine matches no deleted row, if
  -- Prisma reads a `where` as `law` says.
  pub query-hides_deleted :
      (model operation : String) (args : Json) {model' operation' : String} {args' : Json}
      → has_name soft_delete_models model ≡ true
      → has_name ("findUnique" ∷ "findUniqueOrThrow" ∷ filtered_read_ops) operation ≡ true
      → has_field "deletedAt" (asked_where operation args) ≡ false
      → query model operation args ≡ Query.engine model' operation' args'
      → (r : Row) → matches (field_of "where" args') r ≡ true
      → deleted r ≡ none
  unfolding query inject_deleted_filter asked_where
  query-hides_deleted model operation args s o n h =
      elim (Bool-cases (has_name filtered_read_ops operation)) [
        | inl f ↦
            guarded-hides model operation (fields_of (field_of "where" args)) args (rw f at n)
              (rw (s, f) at h)
        | inr f ↦
            let u : (str_eq operation "findUnique" || str_eq operation "findUniqueOrThrow") ≡ true =
              either _ _ _ o f in
            guarded-hides model _ (expand_unique_where (fields_of (field_of "where" args))) args
              (rw f at n) (rw (s, f, u) at h)
      ]
