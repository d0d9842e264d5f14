-- ===== src/Users/Owners.antt =====
-- The owners of every tenant, over runs of the management operations (src/auth/users.service.ts).
use whatsapp_inbox.Shared.{
  String, ◌≡◌, refl, sym, ap, ◌∙◌, subst, ◌≢◌, inl, inr, false, some, List, [], ◌∷◌, Memᴰ, arith,
  eq_iff, str_eq, Bool-cases, Option-cases, Text,
}
use whatsapp_inbox.Schema.{UserRole}
use whatsapp_inbox.Db.{create}
use whatsapp_inbox.Db.Laws.{Pointwise}
use whatsapp_inbox.Db.Rows.{
  All, Memᴰ-append_left, Memᴰ-append_cases, Pointwise_forwards, Pointwise_backwards, create_lem,
  Distinct, Distinct-append, Distinct-Pointwise,
}
use whatsapp_inbox.Users.{
  User, TenantContext, Db, ok, CreateInput, UpdateInput, Patch, clash, patch_user, update,
  create_user, new_user,
}
use whatsapp_inbox.Users.Policy.{IsAllowed, assignable_role-ne-owner}
use whatsapp_inbox.Users.Edits.{Edited, update-Updated, create_inversion}

-- One management operation that succeeds; `lower` and `hash` are as in `create_user`.
pub data Change (lower hash : Text → Text) (db : Db) : Db → Type 0 where
  edit :
      {db' : Db} (caller : TenantContext) (id : String) (input : UpdateInput)
      → update caller id input db ≡ ok db'
      → Change lower hash db db'
  join :
      {db' : Db} (caller : TenantContext) (input : CreateInput) (fresh : String)
      → create_user lower hash caller input fresh db ≡ ok db'
      → Change lower hash db db'

pub data Reach (lower hash : Text → Text) (db : Db) : Db → Type 0 where
  here : Reach lower hash db db
  next :
      {db' db'' : Db}
      → Reach lower hash db db'
      → Change lower hash db' db''
      → Reach lower hash db db''

-- The same owner: identity, tenant, role and activity.
abbrev pub SameOwner : User → User → Type 0
SameOwner u u' =
    (u'.id ≡ u.id)
    × (u'.tenant_id ≡ u.tenant_id)
    × (u'.role ≡ UserRole.owner)
    × (u'.is_active ≡ u.is_active)

pub record OwnersKept (db db' : Db) : Type 0 where
  pub kept :
      (u : User)
      → Memᴰ u db.users
      → u.role ≡ UserRole.owner
      → (u' : User) × Memᴰ u' db'.users × SameOwner u u'
  pub none_new :
      (u' : User)
      → Memᴰ u' db'.users
      → u'.role ≡ UserRole.owner
      → (u : User) × Memᴰ u db.users × (u.role ≡ UserRole.owner) × (u.id ≡ u'.id)
  pub distinct : Distinct (λ u. u.id) db'.users

abbrev OwnerStep : User → User → Type 0
OwnerStep u u' =
    (u.role ≡ UserRole.owner → SameOwner u u')
    × (u'.role ≡ UserRole.owner → (u.role ≡ UserRole.owner) × (u.id ≡ u'.id))
    × (u'.id ≡ u.id)

OwnerStep-refl : (u : User) → OwnerStep u u
OwnerStep-refl u = (λ e. (refl, refl, e, refl), λ e. (e, refl), refl)

patched_owner :
    (caller : TenantContext) (u : User) (p : Patch)
    → IsAllowed caller u p
    → OwnerStep u (patch_user p u)
unfolding patch_user
patched_owner caller u p allowed = elim (Option-cases p.role) [
  | inl r ↦ elim (Option-cases p.is_active) [
    | inl a ↦ rw (r, a) (λ e. (refl, refl, e, refl), λ e. (e, refl), refl)
    | inr (b, a) ↦ rw (r, a) (λ e. absurd ((allowed.activity b a).0 e), λ e. (e, refl), refl)
  ]
  | inr (s, r) ↦ rw r (
    λ e. absurd ((allowed.role_change s r).1 e),
    λ e. absurd ((allowed.role_change s r).0 e),
    refl,
  )
]

Edited-owner :
    (caller : TenantContext) (target : User) (p : Patch) (u u' : User)
    → IsAllowed caller target p
    → Edited target p u u'
    → OwnerStep u u'
Edited-owner caller target p u u' allowed (other, same) =
    elim (Bool-cases (str_eq u.id target.id)) [
      | inl e ↦
          let (is_target, patched) = same ((eq_iff u.id target.id).0 e) in
          subst (OwnerStep u) (sym patched)
            (patched_owner caller u p (subst (λ t. IsAllowed caller t p) (sym is_target) allowed))
      | inr e ↦
          subst (OwnerStep u) (sym (other (λ s. absurd (cc ((eq_iff u.id target.id).1 s)))))
            (OwnerStep-refl u)
    ]

map_Pointwise :
    {A : Type 0} (R S : A → A → Type 0)
    → ((x y : A) → R x y → S x y)
    → (xs ys : List A) → Pointwise R xs ys
    → Pointwise S xs ys
map_Pointwise R S f [] [] h = tt
map_Pointwise R S f (x ∷ xs) (y ∷ ys) (h, hs) = (f x y h, map_Pointwise R S f xs ys hs)
map_Pointwise R S f [] (y ∷ ys) h = elim h [ ]
map_Pointwise R S f (x ∷ xs) [] h = elim h [ ]

OwnersKept-steps :
    (db db' : Db)
    → Distinct (λ u. u.id) db.users
    → Pointwise OwnerStep db.users db'.users
    → OwnersKept db db'
OwnersKept-steps db db' d h = record {
  kept = λ u m e.
      let (u', m', step) = Pointwise_forwards OwnerStep db.users db'.users h m in
      (u', m', step.0 e);
  none_new = λ u' m' e.
      let (u, m, step) = Pointwise_backwards OwnerStep db.users db'.users h m' in
      (u, m, (step.1 e).0, (step.1 e).1);
  distinct =
      Distinct-Pointwise (λ u. u.id) db.users db'.users
        (map_Pointwise OwnerStep (λ u u'. u'.id ≡ u.id) (λ u u' s. s.2) db.users db'.users h) d;
}

not-clash_id : (row u : User) → clash row u ≡ false → u.id ≢ row.id
unfolding clash
not-clash_id row u h e = ground (arith, eq_iff u.id row.id)

All-map :
    {A : Type 0} (P Q : A → Type 0) → ((x : A) → P x → Q x) → (xs : List A) → All P xs → All Q xs
All-map P Q f [] h = tt
All-map P Q f (x ∷ xs) (h, hs) = (f x h, All-map P Q f xs hs)

join-OwnersKept :
    (db db' : Db) (row : User)
    → Distinct (λ u. u.id) db.users
    → row.role ≢ UserRole.owner
    → create clash row db.users ≡ some db'.users
    → OwnersKept db db'
join-OwnersKept db db' row d ne h =
    let (rows, apart) = create_lem clash row db.users db'.users h in
    record {
      kept = λ u m e. (u, rw rows (Memᴰ-append_left db.users (row ∷ []) m), (refl, refl, e, refl));
      none_new = λ u' m' e. elim (Memᴰ-append_cases db.users (rw rows at m')) [
        | inl m ↦ (u', m, e, refl)
        | inr same ↦ absurd (ne (sym (ap (λ v. v.role) same) ∙ e))
      ];
      distinct = rw rows (
          Distinct-append (λ u. u.id) db.users row d
            (All-map (λ u. clash row u ≡ false) (λ u. u.id ≢ row.id) (not-clash_id row) db.users
              apart));
    }

Change-OwnersKept :
    {lower hash : Text → Text} {db db' : Db}
    → Distinct (λ u. u.id) db.users
    → Change lower hash db db'
    → OwnersKept db db'
Change-OwnersKept {db} d (edit {db' = db'} caller id input h) =
    let up = update-Updated caller id input db db' d h in
    OwnersKept-steps db db' d (
      map_Pointwise (Edited up.target up.patch) OwnerStep
        (λ u u' e. Edited-owner caller up.target up.patch u u' up.allowed e) db.users db'.users
        up.rows)
Change-OwnersKept {lower} {hash} {db} d (join {db' = db'} caller input fresh h) =
    let (role, assigned, made, _, _) = create_inversion lower hash caller input fresh db db' h in
    join-OwnersKept db db' (new_user lower hash caller input role fresh) d
      (assignable_role-ne-owner input.role role assigned) made

OwnersKept-trans : (a b c : Db) → OwnersKept a b → OwnersKept b c → OwnersKept a c
OwnersKept-trans a b c h k = record {
  kept = λ u m e.
      let (v, n, (i, t, r, act)) = h.kept u m e in
      let (w, o, (i', t', r', act')) = k.kept v n r in (w, o, (i' ∙ i, t' ∙ t, r', act' ∙ act));
  none_new = λ u m e.
      let (v, n, r, i) = k.none_new u m e in
      let (w, o, r', i') = h.none_new v n r in (w, o, r', i' ∙ i);
  distinct = k.distinct;
}

-- Whoever calls the creation and the edit of users, and however often: every owner stays an owner of the same tenant, as active as
-- before, and nobody becomes an owner; ids stay distinct.
pub Reach-OwnersKept :
    {lower hash : Text → Text} {db db' : Db}
    → Distinct (λ u. u.id) db.users
    → Reach lower hash db db'
    → OwnersKept db db'
Reach-OwnersKept {db} d here = record {
  kept = λ u m e. (u, m, (refl, refl, e, refl));
  none_new = λ u m e. (u, m, e, refl);
  distinct = d;
}
Reach-OwnersKept {db} d (next {db' = db'} {db'' = db''} r c) =
    let before = Reach-OwnersKept d r in
    OwnersKept-trans db db' db'' before (Change-OwnersKept before.distinct c)
