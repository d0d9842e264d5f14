-- ===== src/Users.antt =====
-- Roles and the management of users (src/auth/roles.ts, src/auth/users.service.ts and the password
-- policy of src/auth/passwords.ts). An exception is a `Failure`; every one is thrown before the
-- first write.
pub mod Policy
pub mod Edits
pub mod Owners
mod Tests
use whatsapp_inbox.Shared.{
  ℕ, String, Bool, true, false, not, ◌&&◌, ◌||◌, Option, none, some, List, [], ltb, leb, ◌==◌,
  str_eq, if◌then◌else◌, is_none, is_some, get_or, length, any, Text, utf16, is_nil, text_eq, trim,
}
use whatsapp_inbox.Json.{Json}
use whatsapp_inbox.Schema.{UserRole}
use whatsapp_inbox.Db.{find_first, update_many, delete_many, create}

pub record User : Type 0 where
  pub id : String
  pub tenant_id : String
  pub email : Text
  pub name : Text
  pub role : UserRole
  pub password_hash : Option Text
  pub is_active : Bool
  pub must_change_password : Bool

pub record UserSession : Type 0 where
  pub id : String
  pub token_hash : String
  pub user_id : String
  pub tenant_id : String
  pub user_agent : Option Text
  pub last_used_at : ℕ
  pub expires_at : ℕ

-- Who makes the request.
pub record TenantContext : Type 0 where
  pub tenant_id : String
  pub user_id : String
  pub role : UserRole

pub record Db : Type 0 where
  pub users : List User
  pub sessions : List UserSession

pub data Failure : Type 0 where
  invalid_email empty_name invalid_role weak_password email_taken : Failure
  only_owner_creates_admins unknown_user owner_locked admin_locked : Failure
  owner_role_fixed only_owner_changes_roles active_not_boolean : Failure
  owner_not_deactivated not_yourself unique_violation : Failure

pub data Outcome {ℓ} (A : Type ℓ) : Type ℓ where
  thrown : Failure → Outcome A
  ok : A → Outcome A

-- What follows runs only if nothing was thrown.
infixl 5 ◌>>=◌
abbrev pub ◌>>=◌ {ℓ κ} : {A : Type ℓ} {B : Type κ} → Outcome A → (A → Outcome B) → Outcome B
thrown why >>= next = thrown why
ok value >>= next = next value

infixl 5 ◌>>◌
abbrev pub ◌>>◌ {ℓ} : {B : Type ℓ} → Outcome (Unit {0}) → Outcome B → Outcome B
thrown why >> next = thrown why
ok done >> next = next

-- `if (bad) throw failure`
abbrev pub throw_if : Bool → Failure → Outcome (Unit {0})
throw_if true e = thrown e
throw_if false e = ok tt

abbrev pub role_rank : UserRole → ℕ
role_rank UserRole.agent = 0
role_rank UserRole.admin = 1
role_rank UserRole.owner = 2

unfoldable pub role_at_least : UserRole → UserRole → Bool
role_at_least role minimum = leb (role_rank minimum) (role_rank role)

abbrev pub role_eq : UserRole → UserRole → Bool
role_eq a b = role_rank a == role_rank b

abbrev pub min_password_length : ℕ
min_password_length = 10

unfoldable pub password_policy_error : Text → Option Failure
password_policy_error password =
    if ltb (length password) min_password_length then some weak_password else none

-- `typeof v === 'string' ? v : ''`
abbrev string_or_empty : Json → Text
string_or_empty (Json.str s) = s
string_or_empty _ = []

abbrev is_undefined : Json → Bool
is_undefined Json.undefined = true
is_undefined _ = false

-- `'AGENT'` or `'ADMIN'`; every other value is refused.
abbrev pub assignable_role : Json → Option UserRole
assignable_role (Json.str s) =
    if text_eq s (utf16 "AGENT")
    then some UserRole.agent
    else if text_eq s (utf16 "ADMIN")
    then some UserRole.admin
    else none
assignable_role _ = none

pub record CreateInput : Type 0 where
  pub email : Json
  pub name : Json
  pub role : Json
  pub password : Json

pub record UpdateInput : Type 0 where
  pub name : Json
  pub role : Json
  pub is_active : Json

-- What `update` writes: the keys that are present.
pub record Patch : Type 0 where
  pub name : Option Text
  pub role : Option UserRole
  pub is_active : Option Bool

has_email : String → Text → User → Bool
has_email tenant_id email u = str_eq u.tenant_id tenant_id && text_eq u.email email

unfoldable pub is_user : String → String → User → Bool
is_user tenant_id id u = str_eq u.id id && str_eq u.tenant_id tenant_id

-- The primary key, and the unique constraint on (tenantId, email).
unfoldable pub clash : User → User → Bool
clash a b = str_eq b.id a.id || (str_eq b.tenant_id a.tenant_id && text_eq b.email a.email)

unfoldable pub check_name : Json → Outcome (Option Text)
check_name v =
    let name = trim (string_or_empty v) in
    if is_undefined v then ok none else if is_nil name then thrown empty_name else ok (some name)

unfoldable pub check_role : TenantContext → User → Json → Outcome (Option UserRole)
check_role caller target v = if is_undefined v then ok none else elim (assignable_role v) [
  | none ↦ thrown invalid_role
  | some role ↦
      if role_eq target.role UserRole.owner
      then thrown owner_role_fixed
      else if not (role_eq caller.role UserRole.owner) && not (role_eq role target.role)
      then thrown only_owner_changes_roles
      else ok (some role)
]

unfoldable pub check_active : TenantContext → User → Json → Outcome (Option Bool)
check_active caller target Json.undefined = ok none
check_active caller target (Json.bool b) =
    if role_eq target.role UserRole.owner
    then thrown owner_not_deactivated
    else if str_eq target.id caller.user_id && not b
    then thrown not_yourself
    else ok (some b)
check_active caller target _ = thrown active_not_boolean

-- The checks of `update`, in their order, and the data that they leave.
unfoldable pub update_plan : TenantContext → User → UpdateInput → Outcome Patch
update_plan caller target input = do
  let editing_self = str_eq target.id caller.user_id
  throw_if (role_eq target.role UserRole.owner && not editing_self) owner_locked
  throw_if
      (role_eq target.role UserRole.admin
        && not editing_self
        && not (role_eq caller.role UserRole.owner))
      admin_locked
  name ← check_name input.name
  role ← check_role caller target input.role
  is_active ← check_active caller target input.is_active
  ok (record { name = name; role = role; is_active = is_active })

unfoldable pub patch_user : Patch → User → User
patch_user p u = record u {
  name = get_or p.name u.name;
  role = get_or p.role u.role;
  is_active = get_or p.is_active u.is_active;
}

-- All sessions of the user, but the one that is named; the empty id names none.
unfoldable pub revoke_all_for_user : String → Option String → List UserSession → List UserSession
unfolding delete_many
revoke_all_for_user user_id none sessions = delete_many (λ s. str_eq s.user_id user_id) sessions
revoke_all_for_user user_id (some kept) sessions =
    delete_many (λ s. str_eq s.user_id user_id && (str_eq kept "" || not (str_eq s.id kept)))
      sessions

abbrev pub deactivates : Option Bool → Bool
deactivates (some false) = true
deactivates _ = false

unfoldable pub update : TenantContext → String → UpdateInput → Db → Outcome Db
unfolding is_user
update caller target_id input db = elim (find_first (is_user caller.tenant_id target_id) db.users) [
  | none ↦ thrown unknown_user
  | some target ↦ do
    patch ← update_plan caller target input
    ok (record {
      users = update_many (λ u. str_eq u.id target.id) (patch_user patch) db.users;
      sessions =
          if deactivates patch.is_active
          then revoke_all_for_user target.id none db.sessions
          else db.sessions;
    })
]

abbrev user_role_or : Option UserRole → UserRole
user_role_or (some r) = r
user_role_or none = UserRole.agent

abbrev fail_with : Option Failure → Outcome (Unit {0})
fail_with none = ok tt
fail_with (some e) = thrown e

abbrev created : Option (List User) → List UserSession → Outcome Db
created none sessions = thrown unique_violation
created (some users) sessions = ok (record { users = users; sessions = sessions })

-- `fresh` is the id that the database generates, `hash` the password hash (argon2) and `lower` the
-- language's `toLowerCase`.
module _ (lower : Text → Text) (hash : Text → Text) where
  abbrev pub new_user : TenantContext → CreateInput → UserRole → String → User
  new_user caller input role fresh = record {
    id = fresh;
    tenant_id = caller.tenant_id;
    email = lower (trim (string_or_empty input.email));
    name = trim (string_or_empty input.name);
    role = role;
    password_hash = some (hash (string_or_empty input.password));
    is_active = true;
    must_change_password = true;
  }

  unfoldable pub create_user : TenantContext → CreateInput → String → Db → Outcome Db
  unfolding has_email password_policy_error
  create_user caller input fresh db = do
    let email = lower (trim (string_or_empty input.email))
    let name = trim (string_or_empty input.name)
    let password = string_or_empty input.password
    let role = user_role_or (assignable_role input.role)
    throw_if (is_nil email || not (any (λ c. c == b'@') email)) invalid_email
    throw_if (is_nil name) empty_name
    throw_if (is_none (assignable_role input.role)) invalid_role
    throw_if (role_eq role UserRole.admin && not (role_eq caller.role UserRole.owner))
        only_owner_creates_admins
    fail_with (password_policy_error password)
    throw_if (is_some (find_first (has_email caller.tenant_id email) db.users)) email_taken
    created (create clash (new_user caller input role fresh) db.users) db.sessions
