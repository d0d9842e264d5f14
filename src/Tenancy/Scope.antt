-- ===== src/Tenancy/Scope.antt =====
-- Which tenant a `where` demands, as Prisma reads it (the comment of `hasTenantScope` in
-- src/prisma/tenant-guard.ts).
use whatsapp_inbox.Shared.{
  String, ◌≡◌, refl, sym, subst, ◌≢◌, ◌↔◌, ◌⊎◌, inl, inr, Bool, true, false, ◌||◌, List, [], ◌∷◌,
  Memᴰ, arith, eq_iff, str_eq, if◌then◌else◌, Bool-cases, or-true, Text, utf16, is_nil,
}
use whatsapp_inbox.Json.{Json, Items, Fields, items, entries, get}
use whatsapp_inbox.Tenancy.Guard.{
  includes, is_filled, tenant_id_present, is_scoped_key, has_tenant_scope, any_entry, any_branch,
  any_item,
}

-- The filter `v` on a column allows the text `t` only.
abbrev pub Only : Text → Json → Type 0
Only t v =
    (t ≢ [])
    × ((v ≡ Json.str t)
        ⊎ ((fs : Fields) × (v ≡ Json.obj fs) × (get "equals" (entries fs) ≡ Json.str t)))

abbrev pub branches : Json → List Json
branches (Json.arr is) = items is
branches v = v ∷ []

-- The `where` demands the tenant `t`.
pub data Demands (t : Text) : Json → Type 0 where
  direct : {fs : Fields} → Only t (get "tenantId" (entries fs)) → Demands t (Json.obj fs)
  compound :
      {fs gs : Fields} {key : String}
      → Memᴰ (key, Json.obj gs) (entries fs)
      → includes (utf16 "tenantId") (utf16 key) ≡ true
      → Only t (get "tenantId" (entries gs))
      → Demands t (Json.obj fs)
  conjunct :
      {fs : Fields} {value branch : Json}
      → Memᴰ ("AND", value) (entries fs)
      → Memᴰ branch (branches value)
      → Demands t branch
      → Demands t (Json.obj fs)

pub filled : (v : Json) → is_filled v ≡ true → (t : Text) × (t ≢ []) × (v ≡ Json.str t)
filled (Json.str []) h = absurd (ground arith)
filled (Json.str (c ∷ s)) h = (c ∷ s, (λ e. ground arith), refl)
filled Json.undefined h = absurd (ground arith)
filled Json.null h = absurd (ground arith)
filled (Json.bool b) h = absurd (ground arith)
filled (Json.num n) h = absurd (ground arith)
filled (Json.arr is) h = absurd (ground arith)
filled (Json.obj fs) h = absurd (ground arith)

present : (v : Json) → tenant_id_present v ≡ true → (t : Text) × Only t v
unfolding tenant_id_present
present (Json.str s) h = let (t, n, e) = filled (Json.str s) h in (t, (n, inl e))
present (Json.obj fs) h =
    let (t, n, e) = filled (get "equals" (entries fs)) h in (t, (n, inr (fs, refl, e)))
present Json.undefined h = absurd (ground arith)
present Json.null h = absurd (ground arith)
present (Json.bool b) h = absurd (ground arith)
present (Json.num n) h = absurd (ground arith)
present (Json.arr is) h = absurd (ground arith)

only : (t : Text) (v : Json) → Only t v → tenant_id_present v ≡ true
unfolding tenant_id_present is_nil
only [] v (n, h) = absurd (n refl)
only (c ∷ t) v (n, inl e) = rw e
only (c ∷ t) v (n, inr (fs, e, f)) = rw (e, f)

-- What the loop over the entries finds.
abbrev Found : List (String × Json) → Type 0
Found kvs =
    (t : Text) × (key : String) × (value : Json) × Memᴰ (key, value) kvs
    × (((gs : Fields) × (value ≡ Json.obj gs)
          × (includes (utf16 "tenantId") (utf16 key) ≡ true)
          × Only t (get "tenantId" (entries gs)))
        ⊎ ((branch : Json) × (key ≡ "AND") × Memᴰ branch (branches value) × Demands t branch))

later : (kv : String × Json) (kvs : List (String × Json)) → Found kvs → Found (kv ∷ kvs)
later kv kvs (t, key, value, mem, h) = (t, key, value, Memᴰ.tail mem, h)

found-Demands : (fs : Fields) → Found (entries fs) → (t : Text) × Demands t (Json.obj fs)
found-Demands fs (t, key, value, mem, inl (gs, e, inc, o)) =
    (t, Demands.compound (subst (λ v. Memᴰ (key, v) (entries fs)) e mem) inc o)
found-Demands fs (t, key, value, mem, inr (branch, e, b, d)) =
    (t, Demands.conjunct (subst (λ k. Memᴰ (k, value) (entries fs)) e mem) b d)

scoped_key :
    (key : String) (value : Json) (kvs : List (String × Json))
    → is_scoped_key key value ≡ true
    → Found ((key, value) ∷ kvs)
unfolding is_scoped_key
scoped_key key (Json.obj gs) kvs h =
    let (t, o) = present (get "tenantId" (entries gs)) (ground arith) in
    (t, key, Json.obj gs, Memᴰ.head refl, inl (gs, refl, ground arith, o))
scoped_key key _ kvs h = absurd (ground arith)

abbrev object_scope : Fields → Bool
object_scope fs = tenant_id_present (get "tenantId" (entries fs)) || any_entry fs

object-Demands :
    (fs : Fields)
    → (any_entry fs ≡ true → Found (entries fs))
    → object_scope fs ≡ true
    → (t : Text) × Demands t (Json.obj fs)
object-Demands fs entry h = elim (Bool-cases (tenant_id_present (get "tenantId" (entries fs)))) [
  | inl e ↦ let (t, o) = present (get "tenantId" (entries fs)) e in (t, Demands.direct o)
  | inr e ↦ found-Demands fs (entry (rw e at h))
]

mutual
  unfolding has_tenant_scope

  scope-Demands : (w : Json) → has_tenant_scope w ≡ true → (t : Text) × Demands t w
  scope-Demands (Json.obj fs) h = object-Demands fs (entry-Found fs) h
  scope-Demands Json.undefined h = absurd (ground arith)
  scope-Demands Json.null h = absurd (ground arith)
  scope-Demands (Json.bool b) h = absurd (ground arith)
  scope-Demands (Json.num n) h = absurd (ground arith)
  scope-Demands (Json.str s) h = absurd (ground arith)
  scope-Demands (Json.arr is) h = absurd (ground arith)

  entry-Found : (fs : Fields) → any_entry fs ≡ true → Found (entries fs)
  entry-Found Fields.end h = absurd (ground arith)
  entry-Found (Fields.field key value fs) h =
      elim (Bool-cases (if str_eq key "AND" then any_branch value else is_scoped_key key value)) [
        | inl e ↦ elim (Bool-cases (str_eq key "AND")) [
          | inl a ↦
              let (t, branch, b, d) = branch-Demands value (rw a at e) in
              (t, key, value, Memᴰ.head refl, inr (branch, ground (arith, eq_iff key "AND"), b, d))
          | inr a ↦ scoped_key key value (entries fs) (rw a at e)
        ]
        | inr e ↦ later (key, value) (entries fs) (entry-Found fs (rw e at h))
      ]

  branch-Demands :
      (v : Json)
      → any_branch v ≡ true
      → (t : Text) × (branch : Json) × Memᴰ branch (branches v) × Demands t branch
  branch-Demands (Json.arr is) h = item-Demands is h
  branch-Demands (Json.obj fs) h =
      let (t, d) = object-Demands fs (entry-Found fs) h in (t, Json.obj fs, Memᴰ.head refl, d)
  branch-Demands Json.undefined h = absurd (ground arith)
  branch-Demands Json.null h = absurd (ground arith)
  branch-Demands (Json.bool b) h = absurd (ground arith)
  branch-Demands (Json.num n) h = absurd (ground arith)
  branch-Demands (Json.str s) h = absurd (ground arith)

  item-Demands :
      (is : Items)
      → any_item is ≡ true
      → (t : Text) × (branch : Json) × Memᴰ branch (items is) × Demands t branch
  item-Demands Items.nil h = absurd (ground arith)
  item-Demands (Items.cons v is) h = elim (Bool-cases (has_tenant_scope v)) [
    | inl e ↦ let (t, d) = scope-Demands v e in (t, v, Memᴰ.head refl, d)
    | inr e ↦ let (t, b, m, d) = item-Demands is (rw e at h) in (t, b, Memᴰ.tail m, d)
  ]

item-any :
    (is : Items) {branch : Json}
    → Memᴰ branch (items is)
    → has_tenant_scope branch ≡ true
    → any_item is ≡ true
unfolding has_tenant_scope
item-any Items.nil m h = elim m [ ]
item-any (Items.cons v is) (Memᴰ.head e) h = rw (sym e) (rw h)
item-any (Items.cons v is) (Memᴰ.tail m) h = rw (item-any is m h) (or-true _)

pub single {ℓ} : {A : Type ℓ} {x y : A} → Memᴰ x (y ∷ []) → x ≡ y
single (Memᴰ.head e) = e
single (Memᴰ.tail m) = elim m [ ]

branch-any :
    (v : Json) {branch : Json}
    → Memᴰ branch (branches v)
    → has_tenant_scope branch ≡ true
    → any_branch v ≡ true
unfolding has_tenant_scope
branch-any (Json.arr is) m h = item-any is m h
branch-any v m h = subst (λ b. has_tenant_scope b ≡ true) (single m) h

entry-any :
    (fs : Fields) {key : String} {value : Json}
    → Memᴰ (key, value) (entries fs)
    → (if str_eq key "AND" then any_branch value else is_scoped_key key value) ≡ true
    → any_entry fs ≡ true
unfolding has_tenant_scope
entry-any Fields.end m h = elim m [ ]
entry-any (Fields.field k v fs) (Memᴰ.head e) h =
    subst
      (λ (kv : String × Json).
        ((if str_eq (kv.0) "AND" then any_branch (kv.1) else is_scoped_key (kv.0) (kv.1))
          || any_entry fs)
        ≡ true)
      e (rw h)
entry-any (Fields.field k v fs) (Memᴰ.tail m) h = rw (entry-any fs m h) (or-true _)

pub not_and :
    (key : String) → includes (utf16 "tenantId") (utf16 key) ≡ true → str_eq key "AND" ≡ false
unfolding includes
not_and key inc = elim (Bool-cases (str_eq key "AND")) [
  | inl a ↦
      let same : key ≡ "AND" = ground (arith, eq_iff key "AND") in
      absurd (ground (arith, subst (λ k. includes (utf16 "tenantId") (utf16 k) ≡ true) same inc))
  | inr a ↦ a
]

Demands-scope : {t : Text} {w : Json} → Demands t w → has_tenant_scope w ≡ true
unfolding has_tenant_scope is_scoped_key
Demands-scope {t} (Demands.direct {fs} o) = rw (only t (get "tenantId" (entries fs)) o)
Demands-scope {t} (Demands.compound {fs} {gs} {key} m inc o) =
    let other : str_eq key "AND" ≡ false = not_and key inc in
    rw (entry-any fs m (rw (other, inc, only t (get "tenantId" (entries gs)) o))) (or-true _)
Demands-scope {t} (Demands.conjunct {fs} m b d) =
    rw (entry-any fs m (branch-any _ b (Demands-scope d))) (or-true _)

-- The guard finds a scope exactly if the `where` demands some tenant: in the filter on `tenantId`, in
-- a compound unique key, or in a conjunct of an `AND`, at any depth, and nowhere else.
pub has_tenant_scope_iff : (w : Json) → (has_tenant_scope w ≡ true) ↔ ((t : Text) × Demands t w)
has_tenant_scope_iff w = (scope-Demands w, λ d. Demands-scope (d.1))
