-- ===== src/Tenancy/Confined.antt =====
-- Which rows the engine can reach through the client (src/prisma/prisma.service.ts).
use whatsapp_inbox.Shared.{
  ℕ, String, ◌≡◌, refl, ap, ◌≢◌, ◌⊎◌, inl, inr, Bool, true, false, ◌||◌, Option, none, some, List,
  [], Memᴰ, arith, eq_iff, str_eq, Bool-cases, all, Text, utf16, text_eq, text_eq_iff,
}
use whatsapp_inbox.Json.{Json, Fields, entries, get, field_of}
use whatsapp_inbox.Db.Rows.{All}
use whatsapp_inbox.Tenancy.Guard.{
  has_name, includes, tenant_scoped_models, has_tenant_scope, data_has_tenant, where_ops,
  create_ops, Missing, is_empty, rows_of, assert_tenant_scoped,
}
use whatsapp_inbox.Tenancy.Names.{NamesTenant, NamesTenant-data, all-NamesTenant}
use whatsapp_inbox.Tenancy.Scope.{Only, branches, Demands, has_tenant_scope_iff}
use whatsapp_inbox.Tenancy.SoftDelete.{soft_delete_models, filtered_read_ops, inject_deleted_filter}
use whatsapp_inbox.Tenancy.Client.{Query, checked, guarded, query}

-- A filter on a column with the mode that compares without regard to case.
abbrev pub AnyCase : Json → Type 0
AnyCase filter = field_of "mode" filter ≡ Json.str (utf16 "insensitive")

-- What Prisma documents of a `where`: all its entries hold of a row that it matches, an `AND` means
-- all its conjuncts, a compound unique key means each of its columns, and `null` no value. The mode
-- `insensitive` of a filter compares what `fold` makes of the texts.
pub record Matching {Row : Type 0} (tenant : Row → Text) (deleted : Row → Option ℕ)
    (fold : Text → Text) (matches : Json → Row → Bool) : Type 0 where
  pub column :
      {fs : Fields} {t : Text} (r : Row)
      → Only t (get "tenantId" (entries fs))
      → ¬ AnyCase (get "tenantId" (entries fs))
      → matches (Json.obj fs) r ≡ true
      → tenant r ≡ t
  pub column_any_case :
      {fs : Fields} {t : Text} (r : Row)
      → Only t (get "tenantId" (entries fs))
      → AnyCase (get "tenantId" (entries fs))
      → matches (Json.obj fs) r ≡ true
      → fold (tenant r) ≡ fold t
  pub compound_key :
      {fs gs : Fields} {key : String} {t : Text} (r : Row)
      → Memᴰ (key, Json.obj gs) (entries fs)
      → includes (utf16 "tenantId") (utf16 key) ≡ true
      → Only t (get "tenantId" (entries gs))
      → matches (Json.obj fs) r ≡ true
      → tenant r ≡ t
  pub conjunct :
      {fs : Fields} {value branch : Json} (r : Row)
      → Memᴰ ("AND", value) (entries fs)
      → Memᴰ branch (branches value)
      → matches (Json.obj fs) r ≡ true
      → matches branch r ≡ true
  pub no_value :
      {fs : Fields} (r : Row)
      → get "deletedAt" (entries fs) ≡ Json.null
      → matches (Json.obj fs) r ≡ true
      → deleted r ≡ none

Demands-filled : {t : Text} {w : Json} → Demands t w → t ≢ []
Demands-filled (Demands.direct o) = o.0
Demands-filled (Demands.compound m inc o) = o.0
Demands-filled (Demands.conjunct m b d) = Demands-filled d

-- Somewhere the `where` asks for a tenant without regard to case: in its filter on `tenantId`, or in
-- a conjunct of an `AND`.
pub data Insensitive : Json → Type 0 where
  here : {fs : Fields} → AnyCase (get "tenantId" (entries fs)) → Insensitive (Json.obj fs)
  within :
      {fs : Fields} {value branch : Json}
      → Memᴰ ("AND", value) (entries fs)
      → Memᴰ branch (branches value)
      → Insensitive branch
      → Insensitive (Json.obj fs)

-- The rows that the `where` matches are of the one tenant `t`; or it asks without regard to case, and
-- they are of tenants whose ids are `t` but for the case.
abbrev pub Reaches :
    {Row : Type 0} → (Row → Text) → (Text → Text) → (Json → Row → Bool) → Text → Json → Type 0
Reaches {Row = Row} tenant fold matches t w =
    ((r : Row) → matches w r ≡ true → tenant r ≡ t)
    ⊎ (Insensitive w × ((r : Row) → matches w r ≡ true → fold (tenant r) ≡ fold t))

-- What a query of the engine may touch: the rows of one tenant, and new rows that name theirs.
pub data Confined {Row : Type 0} (tenant : Row → Text) (fold : Text → Text)
    (matches : Json → Row → Bool) (operation : String) (args : Json) : Type 0 where
  reaches :
      has_name where_ops operation ≡ true
      → (t : Text) → t ≢ []
      → Reaches tenant fold matches t (field_of "where" args)
      → Confined tenant fold matches operation args
  creates :
      has_name create_ops operation ≡ true
      → rows_of (field_of "data" args) ≢ []
      → All NamesTenant (rows_of (field_of "data" args))
      → Confined tenant fold matches operation args
  upserts :
      operation ≡ "upsert"
      → (t : Text) → t ≢ []
      → Reaches tenant fold matches t (field_of "where" args)
      → NamesTenant (field_of "create" args)
      → Confined tenant fold matches operation args

some_row : (rows : List Json) → is_empty rows ≡ false → rows ≢ []
some_row rows h e = ground arith

pub checked-engine :
    (x : Option Missing) (model operation : String) (args : Json) {model' operation' : String}
    {args' : Json}
    → checked x model operation args ≡ Query.engine model' operation' args'
    → (x ≡ none) × (operation ≡ operation') × (args ≡ args')
checked-engine none model operation args h = (refl, ground arith, ground arith)
checked-engine (some m) model operation args h = absurd (ground arith)

text_cases : (t : Text) (v : Json) → (v ≡ Json.str t) ⊎ ¬ (v ≡ Json.str t)
text_cases t (Json.str s) = elim (Bool-cases (text_eq s t)) [
  | inl e ↦ inl (ap Json.str ((text_eq_iff s t).0 e))
  | inr e ↦ inr (λ k. absurd (cc ((text_eq_iff s t).1 (string_inj k), e)))
]
  where
    string_inj : {a b : Text} → Json.str a ≡ Json.str b → a ≡ b
    string_inj k = cc
text_cases t Json.undefined = inr (λ k. absurd (cc k))
text_cases t Json.null = inr (λ k. absurd (cc k))
text_cases t (Json.bool b) = inr (λ k. absurd (cc k))
text_cases t (Json.num n) = inr (λ k. absurd (cc k))
text_cases t (Json.arr is) = inr (λ k. absurd (cc k))
text_cases t (Json.obj fs) = inr (λ k. absurd (cc k))

module _ {Row : Type 0} {tenant : Row → Text} {deleted : Row → Option ℕ} {fold : Text → Text}
    {matches : Json → Row → Bool} (law : Matching tenant deleted fold matches) where
  Demands-Reaches : {t : Text} {w : Json} → Demands t w → Reaches tenant fold matches t w
  Demands-Reaches (Demands.direct {fs = fs} o) =
      elim (text_cases (utf16 "insensitive") (field_of "mode" (get "tenantId" (entries fs)))) [
        | inl e ↦ inr (Insensitive.here e, λ r h. law.column_any_case r o e h)
        | inr n ↦ inl (λ r h. law.column r o n h)
      ]
  Demands-Reaches (Demands.compound m inc o) = inl (λ r h. law.compound_key r m inc o h)
  Demands-Reaches (Demands.conjunct m b d) = elim (Demands-Reaches d) [
    | inl own ↦ inl (λ r h. own r (law.conjunct r m b h))
    | inr (i, own) ↦ inr (Insensitive.within m b i, λ r h. own r (law.conjunct r m b h))
  ]

  scoped :
      (w : Json)
      → has_tenant_scope w ≡ true
      → (t : Text) × (t ≢ []) × Reaches tenant fold matches t w
  scoped w h = let (t, d) = (has_tenant_scope_iff w).0 h in (t, Demands-filled d, Demands-Reaches d)

  guard-Confined :
      (model operation : String) (args : Json)
      → has_name tenant_scoped_models model ≡ true
      → assert_tenant_scoped model operation args ≡ none
      → Confined tenant fold matches operation args
  unfolding assert_tenant_scoped
  guard-Confined model operation args s h = elim (Bool-cases (has_name where_ops operation)) [
    | inl e ↦
        let (t, n, own) = scoped (field_of "where" args) (ground arith) in
        Confined.reaches e t n own
    | inr e ↦ elim (Bool-cases (has_name create_ops operation)) [
      | inl c ↦
          let rows = rows_of (field_of "data" args) in
          let every : all data_has_tenant rows ≡ true = ground arith in
          Confined.creates c (some_row rows (ground arith)) (all-NamesTenant rows every)
      | inr c ↦
          let (t, n, own) = scoped (field_of "where" args) (ground arith) in
          Confined.upserts (ground (arith, eq_iff operation "upsert")) t n own
            (NamesTenant-data (field_of "create" args) (ground arith))
    ]
  ]

  guarded-Confined :
      (model operation : String) (args : Json) {model' operation' : String} {args' : Json}
      → has_name tenant_scoped_models model ≡ true
      → guarded model operation args ≡ Query.engine model' operation' args'
      → Confined tenant fold matches operation' args'
  unfolding guarded
  guarded-Confined model operation args s h =
      let (passes, op, a) =
        checked-engine (assert_tenant_scoped model operation args) model operation args h in
      rw (← op, ← a) (guard-Confined model operation args s passes)

  -- For every model of the tenants' domain, whatever the operation and its arguments: a query that
  -- the client passes on to the engine matches the rows of a single tenant, and each row it creates
  -- names its tenant, by its id or by a connection through its id or slug. Where the filter on the
  -- tenant has the mode `insensitive`, the rows are of tenants whose ids agree but for the case.
  -- Prisma's reading of a `where` is the hypothesis `law`.
  pub query-Confined :
      (model operation : String) (args : Json) {model' operation' : String} {args' : Json}
      → has_name tenant_scoped_models model ≡ true
      → query model operation args ≡ Query.engine model' operation' args'
      → Confined tenant fold matches operation' args'
  unfolding query
  query-Confined model operation args s h = elim (Bool-cases (has_name soft_delete_models model)) [
    | inr e ↦ guarded-Confined model operation args s (rw e at h)
    | inl e ↦ elim (Bool-cases (has_name filtered_read_ops operation)) [
      | inl f ↦ guarded-Confined model operation (inject_deleted_filter args) s (rw (e, f) at h)
      | inr f ↦
          elim (Bool-cases
            (str_eq operation "findUnique" || str_eq operation "findUniqueOrThrow")) [
              | inl u ↦ guarded-Confined model _ _ s (rw (e, f, u) at h)
              | inr u ↦ guarded-Confined model operation args s (rw (e, f, u) at h)
            ]
    ]
  ]
