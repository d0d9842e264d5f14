-- ===== src/Users/Policy.antt =====
-- The checks of `update` and `create` (src/auth/users.service.ts).
use whatsapp_inbox.Shared.{◌≡◌, ◌≢◌, ◌⊎◌, Bool, false, Option, some, [], arith, eq_iff, Text}
use whatsapp_inbox.Json.{Json}
use whatsapp_inbox.Schema.{UserRole}
use whatsapp_inbox.Users.{
  User, TenantContext, ok, UpdateInput, Patch, check_name, check_role, check_active, update_plan,
  assignable_role,
}

-- The matrix of roles, for one edit of `target` by `caller`.
pub record IsAllowed (caller : TenantContext) (target : User) (p : Patch) : Type 0 where
  -- An owner is edited by nobody else, an administrator by nobody else but an owner.
  pub owner_edits_self : target.role ≡ UserRole.owner → target.id ≡ caller.user_id
  pub admin_edited_by :
      target.role ≡ UserRole.admin → (target.id ≡ caller.user_id) ⊎ (caller.role ≡ UserRole.owner)
  -- A role that is written is no owner's, is not taken from an owner, and is new only if an owner
  -- writes it.
  pub role_change :
      (r : UserRole)
      → p.role ≡ some r
      → (r ≢ UserRole.owner)
        × (target.role ≢ UserRole.owner)
        × ((caller.role ≡ UserRole.owner) ⊎ (r ≡ target.role))
  -- Nobody switches an owner on or off, or himself off.
  pub activity :
      (b : Bool)
      → p.is_active ≡ some b
      → (target.role ≢ UserRole.owner) × (b ≡ false → target.id ≢ caller.user_id)
  -- A name that is written is not empty.
  pub named : (n : Text) → p.name ≡ some n → n ≢ []

check_name_lem :
    (v : Json) (n : Option Text) → check_name v ≡ ok n → (t : Text) → n ≡ some t → t ≢ []
unfolding check_name
check_name_lem v n h t e = ground arith

pub assignable_role-ne-owner :
    (v : Json) (r : UserRole) → assignable_role v ≡ some r → r ≢ UserRole.owner
assignable_role-ne-owner v r h = ground arith

check_role_lem :
    (caller : TenantContext) (target : User) (v : Json) (role : Option UserRole)
    → check_role caller target v ≡ ok role
    → (r : UserRole) → role ≡ some r
    → (r ≢ UserRole.owner)
      × (target.role ≢ UserRole.owner)
      × ((caller.role ≡ UserRole.owner) ⊎ (r ≡ target.role))
unfolding check_role
check_role_lem caller target v role h r e = ground (arith, assignable_role-ne-owner v r)

check_active_lem :
    (caller : TenantContext) (target : User) (v : Json) (active : Option Bool)
    → check_active caller target v ≡ ok active
    → (b : Bool) → active ≡ some b
    → (target.role ≢ UserRole.owner) × (b ≡ false → target.id ≢ caller.user_id)
unfolding check_active
check_active_lem caller target v active h b e = ground (arith, eq_iff target.id caller.user_id)

plan_parts :
    (caller : TenantContext) (target : User) (input : UpdateInput) (p : Patch)
    → update_plan caller target input ≡ ok p
    → (check_name input.name ≡ ok p.name)
      × (check_role caller target input.role ≡ ok p.role)
      × (check_active caller target input.is_active ≡ ok p.is_active)
unfolding update_plan
plan_parts caller target input p h = (ground arith, ground arith, ground arith)

plan_guards :
    (caller : TenantContext) (target : User) (input : UpdateInput) (p : Patch)
    → update_plan caller target input ≡ ok p
    → (target.role ≡ UserRole.owner → target.id ≡ caller.user_id)
      × (target.role ≡ UserRole.admin
          → (target.id ≡ caller.user_id) ⊎ (caller.role ≡ UserRole.owner))
unfolding update_plan
plan_guards caller target input p h = (
  λ e. ground (arith, eq_iff target.id caller.user_id),
  λ e. ground (arith, eq_iff target.id caller.user_id),
)

pub update_plan-IsAllowed :
    (caller : TenantContext) (target : User) (input : UpdateInput) (p : Patch)
    → update_plan caller target input ≡ ok p
    → IsAllowed caller target p
update_plan-IsAllowed caller target input p h =
    let (name, role, active) = plan_parts caller target input p h in
    let (owners, admins) = plan_guards caller target input p h in
    record {
      owner_edits_self = owners;
      admin_edited_by = admins;
      role_change = λ r e. check_role_lem caller target input.role p.role role r e;
      activity = λ b e. check_active_lem caller target input.is_active p.is_active active b e;
      named = λ t e. check_name_lem input.name p.name name t e;
    }
