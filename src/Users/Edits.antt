-- ===== src/Users/Edits.antt =====
-- The table after an edit of a user and after a creation (src/auth/users.service.ts).
use whatsapp_inbox.Shared.{
  String, ◌≡◌, refl, ◌≢◌, ◌⊎◌, inl, inr, true, false, none, some, List, Memᴰ, arith, eq_iff, str_eq,
  if◌then◌else◌, and_true, Option-cases, Text,
}
use whatsapp_inbox.Schema.{UserRole}
use whatsapp_inbox.Db.{find_first, update_many, create}
use whatsapp_inbox.Db.Laws.{Pointwise, find_first_sound}
use whatsapp_inbox.Db.Rows.{
  All, Pointwise-update_many_mem, find_first-Memᴰ, All-delete_many, Distinct, Distinct-eq,
}
use whatsapp_inbox.Users.{
  User, UserSession, TenantContext, Db, Outcome, ok, thrown, CreateInput, UpdateInput, Patch, clash,
  update_plan, patch_user, update, is_user, revoke_all_for_user, deactivates, create_user, new_user,
  assignable_role,
}
use whatsapp_inbox.Users.Policy.{IsAllowed, update_plan-IsAllowed}

-- One user's row, if the edit of `target` with the data `p` runs.
abbrev pub Edited : User → Patch → User → User → Type 0
Edited target p u u' =
    (u.id ≢ target.id → u' ≡ u) × (u.id ≡ target.id → (u ≡ target) × (u' ≡ patch_user p u))

-- What a successful `update` did: it found the target in the caller's tenant, the matrix of roles
-- allows the edit, no other user's row changed, and if it deactivates the target then no session
-- of the target is left.
pub record Updated (caller : TenantContext) (target_id : String) (db db' : Db) : Type 0 where
  pub target : User
  pub patch : Patch
  pub found : Memᴰ target db.users
  pub has_id : target.id ≡ target_id
  pub own_tenant : target.tenant_id ≡ caller.tenant_id
  pub allowed : IsAllowed caller target patch
  pub rows : Pointwise (Edited target patch) db.users db'.users
  pub revoked :
      patch.is_active ≡ some false → All (λ s. str_eq s.user_id target.id ≡ false) db'.sessions

update_inversion :
    (caller : TenantContext) (id : String) (input : UpdateInput) (db db' : Db)
    → update caller id input db ≡ ok db'
    → (target : User) × (p : Patch) × (find_first (is_user caller.tenant_id id) db.users
        ≡ some target)
      × (update_plan caller target input ≡ ok p)
      × (db'.users ≡ update_many (λ u. str_eq u.id target.id) (patch_user p) db.users)
      × (db'.sessions ≡ (
          if deactivates p.is_active
          then revoke_all_for_user target.id none db.sessions
          else db.sessions))
unfolding update
update_inversion caller id input db db' h =
    elim (Option-cases (find_first (is_user caller.tenant_id id) db.users)) [
      | inl e ↦ absurd (ground arith)
      | inr (target, e) ↦ elim (plan_cases (update_plan caller target input)) [
        | inl (x, k) ↦ absurd (ground arith)
        | inr (p, k) ↦ (target, p, e, k, ground arith, ground arith)
      ]
    ]
  where
    plan_cases : (r : Outcome Patch) → ((x : _) × (r ≡ thrown x)) ⊎ ((p : Patch) × (r ≡ ok p))
    plan_cases (ok p) = inr (p, refl)
    plan_cases (thrown x) = inl (x, refl)

is_user_id : (tenant id : String) (u : User) → is_user tenant id u ≡ true → u.id ≡ id
unfolding is_user
is_user_id tenant id u h = (eq_iff _ _).0 (and_true h).0

is_user_tenant : (tenant id : String) (u : User) → is_user tenant id u ≡ true → u.tenant_id ≡ tenant
unfolding is_user
is_user_tenant tenant id u h = (eq_iff _ _).0 (and_true h).1

revoked_lem :
    (id : String) (sessions : List UserSession)
    → All (λ s. str_eq s.user_id id ≡ false) (revoke_all_for_user id none sessions)
unfolding revoke_all_for_user
revoked_lem id sessions = All-delete_many (λ s. str_eq s.user_id id) sessions

-- Every edit of a user that succeeds is one that the matrix of roles allows, and writes the row of
-- its target alone, if ids are distinct.
pub update-Updated :
    (caller : TenantContext) (id : String) (input : UpdateInput) (db db' : Db)
    → Distinct (λ u. u.id) db.users
    → update caller id input db ≡ ok db'
    → Updated caller id db db'
update-Updated caller id input db db' distinct h =
    let (target, p, found, planned, users, sessions) = update_inversion caller id input db db' h in
    let member = find_first-Memᴰ (is_user caller.tenant_id id) db.users found in
    let is_it = find_first_sound (is_user caller.tenant_id id) db.users found in
    record {
      target = target;
      patch = p;
      found = member;
      has_id = is_user_id caller.tenant_id id target is_it;
      own_tenant = is_user_tenant caller.tenant_id id target is_it;
      allowed = update_plan-IsAllowed caller target input p planned;
      rows = rw users (
          Pointwise-update_many_mem (Edited target p) (λ u. str_eq u.id target.id) (patch_user p)
            db.users (λ u m e. (λ ne. refl, λ same. absurd (cc ((eq_iff u.id target.id).1 same))))
            (λ u m e. (
              λ ne. absurd (ne ((eq_iff u.id target.id).0 e)),
              λ same. (Distinct-eq (λ v. v.id) db.users distinct m member same, refl),
            )));
      revoked = λ e. rw sessions (rw e (revoked_lem target.id db.sessions));
    }

pub create_inversion :
    (lower hash : Text → Text) (caller : TenantContext) (input : CreateInput) (fresh : String)
    (db db' : Db)
    → create_user lower hash caller input fresh db ≡ ok db'
    → (role : UserRole) × (assignable_role input.role ≡ some role)
      × (create clash (new_user lower hash caller input role fresh) db.users ≡ some db'.users)
      × (role ≡ UserRole.admin → caller.role ≡ UserRole.owner)
      × (db'.sessions ≡ db.sessions)
unfolding create_user
create_inversion lower hash caller input fresh db db' h =
    elim (Option-cases (assignable_role input.role)) [
      | inl e ↦ absurd (ground arith)
      | inr (role, e) ↦ (role, e, ground arith, λ a. ground arith, ground arith)
    ]
