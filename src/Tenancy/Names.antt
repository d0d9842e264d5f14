-- ===== src/Tenancy/Names.antt =====
-- The data of a new row that names its tenant (`dataHasTenant` of src/prisma/tenant-guard.ts).
use whatsapp_inbox.Shared.{
  String, ◌≡◌, refl, ap, ◌∙◌, subst, ◌≢◌, ◌⊎◌, inl, inr, true, ◌||◌, List, [], ◌∷◌, arith,
  Bool-cases, and_true, all, Text,
}
use whatsapp_inbox.Json.{Json, Fields, entries, get, field_of, is_plain_object}
use whatsapp_inbox.Db.Rows.{All}
use whatsapp_inbox.Tenancy.Guard.{data_has_tenant, is_filled, is_text}
use whatsapp_inbox.Tenancy.Scope.{filled}

-- The `data` of a new row names its tenant: by its id, or by a connection through the id or the slug.
pub data NamesTenant : Json → Type 0 where
  by_id :
      {fs : Fields} {t : Text}
      → t ≢ []
      → get "tenantId" (entries fs) ≡ Json.str t
      → NamesTenant (Json.obj fs)
  by_connection :
      {fs gs hs : Fields} {key : String} {t : Text}
      → (key ≡ "id") ⊎ (key ≡ "slug")
      → get "tenant" (entries fs) ≡ Json.obj gs
      → get "connect" (entries gs) ≡ Json.obj hs
      → get key (entries hs) ≡ Json.str t
      → NamesTenant (Json.obj fs)

text_of : (v : Json) → is_text v ≡ true → (t : Text) × (v ≡ Json.str t)
text_of (Json.str s) h = (s, refl)
text_of Json.undefined h = absurd (ground arith)
text_of Json.null h = absurd (ground arith)
text_of (Json.bool b) h = absurd (ground arith)
text_of (Json.num n) h = absurd (ground arith)
text_of (Json.arr is) h = absurd (ground arith)
text_of (Json.obj fs) h = absurd (ground arith)

object_of : (v : Json) → is_plain_object v ≡ true → (fs : Fields) × (v ≡ Json.obj fs)
object_of (Json.obj fs) h = (fs, refl)
object_of Json.undefined h = absurd (ground arith)
object_of Json.null h = absurd (ground arith)
object_of (Json.bool b) h = absurd (ground arith)
object_of (Json.num n) h = absurd (ground arith)
object_of (Json.arr is) h = absurd (ground arith)
object_of (Json.str s) h = absurd (ground arith)

-- A field that is an object belongs to an object.
field_object :
    (key : String) (v : Json)
    → is_plain_object (field_of key v) ≡ true
    → (gs : Fields) × (hs : Fields) × (v ≡ Json.obj gs) × (get key (entries gs) ≡ Json.obj hs)
field_object key (Json.obj gs) h =
    let (hs, e) = object_of (get key (entries gs)) h in (gs, hs, refl, e)
field_object key Json.undefined h = absurd (ground arith)
field_object key Json.null h = absurd (ground arith)
field_object key (Json.bool b) h = absurd (ground arith)
field_object key (Json.num n) h = absurd (ground arith)
field_object key (Json.arr is) h = absurd (ground arith)
field_object key (Json.str s) h = absurd (ground arith)

NamesTenant-connected :
    (fs gs hs : Fields)
    → get "tenant" (entries fs) ≡ Json.obj gs
    → get "connect" (entries gs) ≡ Json.obj hs
    → (is_text (get "id" (entries hs)) || is_text (get "slug" (entries hs))) ≡ true
    → NamesTenant (Json.obj fs)
NamesTenant-connected fs gs hs e f h = elim (Bool-cases (is_text (get "id" (entries hs)))) [
  | inl k ↦
      let (t, q) = text_of (get "id" (entries hs)) k in NamesTenant.by_connection (inl refl) e f q
  | inr k ↦
      let (t, q) = text_of (get "slug" (entries hs)) (ground arith) in
      NamesTenant.by_connection (inr refl) e f q
]

pub NamesTenant-data : (d : Json) → data_has_tenant d ≡ true → NamesTenant d
unfolding data_has_tenant
NamesTenant-data (Json.obj fs) h = elim (Bool-cases (is_filled (get "tenantId" (entries fs)))) [
  | inl k ↦ let (t, n, e) = filled (get "tenantId" (entries fs)) k in NamesTenant.by_id n e
  | inr k ↦
      let tenant = get "tenant" (entries fs) in
      let connected = (rw k at h) in
      let (o, named) = and_true {a = is_plain_object (field_of "connect" tenant)} connected in
      let (gs, hs, e, f) = field_object "connect" tenant o in
      let same : field_of "connect" tenant ≡ Json.obj hs = ap (field_of "connect") e ∙ f in
      NamesTenant-connected fs gs hs e f
        (subst (λ v. (is_text (field_of "id" v) || is_text (field_of "slug" v)) ≡ true) same named)
]
NamesTenant-data Json.undefined h = absurd (ground arith)
NamesTenant-data Json.null h = absurd (ground arith)
NamesTenant-data (Json.bool b) h = absurd (ground arith)
NamesTenant-data (Json.num n) h = absurd (ground arith)
NamesTenant-data (Json.arr is) h = absurd (ground arith)
NamesTenant-data (Json.str s) h = absurd (ground arith)

pub all-NamesTenant : (vs : List Json) → all data_has_tenant vs ≡ true → All NamesTenant vs
all-NamesTenant [] h = tt
all-NamesTenant (v ∷ vs) h =
    let (a, b) = and_true {a = data_has_tenant v} h in (NamesTenant-data v a, all-NamesTenant vs b)
