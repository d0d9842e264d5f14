-- ===== src/Tenancy/Engine.antt =====
-- A small engine that reads the part of a `where` that the guard looks at, for the tests.
use whatsapp_inbox.Shared.{
  ℕ, ◌+◌, String, ◌≡◌, sym, ap, ◌∙◌, subst, inl, inr, Bool, true, false, ◌&&◌, Option, none, map,
  Memᴰ, arith, leb, str_eq, if◌then◌else◌, Bool-cases, is_none, Text, utf16, text_eq, text_eq_iff,
}
use whatsapp_inbox.Json.{Json, Items, Fields, items, entries, get, field_of}
use whatsapp_inbox.Tenancy.Guard.{includes}
use whatsapp_inbox.Tenancy.Scope.{Only, branches, single, not_and}
use whatsapp_inbox.Tenancy.Confined.{Matching, AnyCase}

pub record Row : Type 0 where
  pub tenant : Text
  pub deleted : Option ℕ

abbrev equals_ok : Json → Text → Bool
equals_ok (Json.str t) tenant = text_eq tenant t
equals_ok _ tenant = true

-- A column of a compound unique key.
abbrev key_ok : Json → Text → Bool
key_ok (Json.str t) tenant = text_eq tenant t
key_ok (Json.obj fs) tenant = equals_ok (get "equals" (entries fs)) tenant
key_ok _ tenant = true

-- `toLowerCase` on the Latin letters of ids.
abbrev pub lower : Text → Text
lower t = map (λ c. if leb b'A' c && leb c b'Z' then c + 32 else c) t

abbrev equals_ok_lower : Json → Text → Bool
equals_ok_lower (Json.str t) tenant = text_eq (lower tenant) (lower t)
equals_ok_lower _ tenant = true

abbrev is_insensitive : Json → Bool
is_insensitive (Json.str s) = text_eq s (utf16 "insensitive")
is_insensitive _ = false

abbrev column_ok : Json → Text → Bool
column_ok (Json.str t) tenant = text_eq tenant t
column_ok (Json.obj fs) tenant =
    if is_insensitive (get "mode" (entries fs))
    then equals_ok_lower (get "equals" (entries fs)) tenant
    else equals_ok (get "equals" (entries fs)) tenant
column_ok _ tenant = true

abbrev deleted_ok : Json → Option ℕ → Bool
deleted_ok Json.null deleted = is_none deleted
deleted_ok _ deleted = true

unfoldable mutual
  pub meets : Json → Row → Bool
  meets (Json.obj fs) r =
      column_ok (get "tenantId" (entries fs)) r.tenant
      && (deleted_ok (get "deletedAt" (entries fs)) r.deleted && entries_ok fs r)
  meets _ r = true

  entries_ok : Fields → Row → Bool
  entries_ok Fields.end r = true
  entries_ok (Fields.field key value fs) r =
      (if str_eq key "AND"
        then branch_ok value r
        else if includes (utf16 "tenantId") (utf16 key)
        then key_ok (field_of "tenantId" value) r.tenant
        else true)
      && entries_ok fs r

  branch_ok : Json → Row → Bool
  branch_ok (Json.arr is) r = items_ok is r
  branch_ok (Json.obj fs) r =
      column_ok (get "tenantId" (entries fs)) r.tenant
      && (deleted_ok (get "deletedAt" (entries fs)) r.deleted && entries_ok fs r)
  branch_ok _ r = true

  items_ok : Items → Row → Bool
  items_ok Items.nil r = true
  items_ok (Items.cons v is) r = meets v r && items_ok is r

key_lem : (v : Json) (t tenant : Text) → Only t v → key_ok v tenant ≡ true → tenant ≡ t
key_lem v t tenant (n, inl e) h = (text_eq_iff tenant t).0 (subst (λ v. key_ok v tenant ≡ true) e h)
key_lem v t tenant (n, inr (fs, e, f)) h =
    (text_eq_iff tenant t).0
      (subst (λ v. equals_ok v tenant ≡ true) f (subst (λ v. key_ok v tenant ≡ true) e h))

is_insensitive_iff : (v : Json) → is_insensitive v ≡ true → v ≡ Json.str (utf16 "insensitive")
is_insensitive_iff (Json.str s) h = ap Json.str ((text_eq_iff s (utf16 "insensitive")).0 h)
is_insensitive_iff Json.undefined h = absurd (ground arith)
is_insensitive_iff Json.null h = absurd (ground arith)
is_insensitive_iff (Json.bool b) h = absurd (ground arith)
is_insensitive_iff (Json.num n) h = absurd (ground arith)
is_insensitive_iff (Json.arr is) h = absurd (ground arith)
is_insensitive_iff (Json.obj fs) h = absurd (ground arith)

column_lem :
    (v : Json) (t tenant : Text) → Only t v → ¬ AnyCase v → column_ok v tenant ≡ true → tenant ≡ t
column_lem v t tenant (n, inl e) exact h =
    (text_eq_iff tenant t).0 (subst (λ v. column_ok v tenant ≡ true) e h)
column_lem v t tenant (n, inr (fs, e, f)) exact h =
    let found : column_ok (Json.obj fs) tenant ≡ true =
      subst (λ v. column_ok v tenant ≡ true) e h in
    elim (Bool-cases (is_insensitive (get "mode" (entries fs)))) [
      | inl k ↦
          absurd (exact (ap (field_of "mode") e ∙ is_insensitive_iff (get "mode" (entries fs)) k))
      | inr k ↦ (text_eq_iff tenant t).0 (subst (λ v. equals_ok v tenant ≡ true) f (rw k at found))
    ]

column_any_case_lem :
    (v : Json) (t tenant : Text)
    → Only t v
    → AnyCase v
    → column_ok v tenant ≡ true
    → lower tenant ≡ lower t
column_any_case_lem v t tenant (n, inl e) any_case h =
    ap lower ((text_eq_iff tenant t).0 (subst (λ v. column_ok v tenant ≡ true) e h))
column_any_case_lem v t tenant (n, inr (fs, e, f)) any_case h =
    let mode : get "mode" (entries fs) ≡ Json.str (utf16 "insensitive") =
      sym (ap (field_of "mode") e) ∙ any_case in
    let found : column_ok (Json.obj fs) tenant ≡ true =
      subst (λ v. column_ok v tenant ≡ true) e h in
    (text_eq_iff (lower tenant) (lower t)).0
      (subst (λ v. equals_ok_lower v tenant ≡ true) f (rw (ap is_insensitive mode) at found))

deleted_lem :
    (v : Json) (deleted : Option ℕ) → v ≡ Json.null → deleted_ok v deleted ≡ true → deleted ≡ none
deleted_lem v deleted e h = ground (arith, subst (λ v. deleted_ok v deleted ≡ true) e h)

first : (a b : Bool) → (a && b) ≡ true → a ≡ true
first a b h = ground arith

second : (a b : Bool) → (a && b) ≡ true → b ≡ true
second a b h = ground arith

entry_ok : String → Json → Row → Bool
unfolding meets
entry_ok key value r =
    if str_eq key "AND"
    then branch_ok value r
    else if includes (utf16 "tenantId") (utf16 key)
    then key_ok (field_of "tenantId" value) r.tenant
    else true

entries-mem :
    (fs : Fields) (r : Row) {key : String} {value : Json}
    → Memᴰ (key, value) (entries fs)
    → entries_ok fs r ≡ true
    → entry_ok key value r ≡ true
unfolding meets entry_ok
entries-mem Fields.end r m h = elim m [ ]
entries-mem (Fields.field k v fs) r (Memᴰ.head e) h =
    subst (λ (kv : String × Json). entry_ok (kv.0) (kv.1) r ≡ true) (sym e)
      (first _ (entries_ok fs r) h)
entries-mem (Fields.field k v fs) r (Memᴰ.tail m) h = entries-mem fs r m (second _ _ h)

items-mem :
    (is : Items) (r : Row) {branch : Json}
    → Memᴰ branch (items is)
    → items_ok is r ≡ true
    → meets branch r ≡ true
unfolding meets
items-mem Items.nil r m h = elim m [ ]
items-mem (Items.cons v is) r (Memᴰ.head e) h =
    subst (λ b. meets b r ≡ true) (sym e) (first _ (items_ok is r) h)
items-mem (Items.cons v is) r (Memᴰ.tail m) h = items-mem is r m (second (meets v r) _ h)

branches-mem :
    (v : Json) (r : Row) {branch : Json}
    → Memᴰ branch (branches v)
    → branch_ok v r ≡ true
    → meets branch r ≡ true
unfolding meets
branches-mem (Json.arr is) r m h = items-mem is r m h
branches-mem v r m h = subst (λ b. meets b r ≡ true) (sym (single m)) h

entries_of : (fs : Fields) (r : Row) → meets (Json.obj fs) r ≡ true → entries_ok fs r ≡ true
unfolding meets
entries_of fs r h = second _ _ (second (column_ok (get "tenantId" (entries fs)) r.tenant) _ h)

and_entry : (v : Json) (r : Row) → entry_ok "AND" v r ≡ true → branch_ok v r ≡ true
unfolding entry_ok
and_entry v r h = h

pub meets-Matching : Matching (λ (r : Row). r.tenant) (λ r. r.deleted) lower meets
unfolding meets entry_ok
meets-Matching = record {
  column = λ r o n h. column_lem _ _ r.tenant o n (first _ _ h);
  column_any_case = λ r o e h. column_any_case_lem _ _ r.tenant o e (first _ _ h);
  compound_key = λ {fs} {gs} {key} {t} r m inc o h.
      key_lem (get "tenantId" (entries gs)) t r.tenant o
        (rw (not_and key inc, inc) at (entries-mem fs r m (entries_of fs r h)));
  conjunct = λ {fs} {value} r m b h.
      branches-mem value r b (and_entry value r (entries-mem fs r m (entries_of fs r h)));
  no_value = λ {fs} r e h.
      deleted_lem (get "deletedAt" (entries fs)) r.deleted e
        (first _ (entries_ok fs r) (second (column_ok (get "tenantId" (entries fs)) r.tenant) _ h));
}
