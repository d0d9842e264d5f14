-- ===== src/Users/Tests.antt =====
-- A small team: who may edit whom (src/auth/users.service.ts).
use whatsapp_inbox.Shared.{
  String, ◌≡◌, refl, true, false, none, [], ◌∷◌, ◌++◌, arith, eq_iff, Text, utf16, trim,
}
use whatsapp_inbox.Json.{Json}
use whatsapp_inbox.Schema.{UserRole}
use whatsapp_inbox.Db.{find_first, update_many}
use whatsapp_inbox.Db.Rows.{Distinct}
use whatsapp_inbox.Users.{
  User, TenantContext, Db, Failure, ok, thrown, CreateInput, UpdateInput, update_plan, check_name,
  UserSession, check_role, check_active, update, create_user, revoke_all_for_user, patch_user,
  password_policy_error,
}
use whatsapp_inbox.Users.Edits.{Updated, update-Updated}
use whatsapp_inbox.Users.Owners.{Change, Reach, OwnersKept, Reach-OwnersKept}

abbrev member : String → Text → UserRole → User
member id name role = record {
  id = id;
  tenant_id = "nova";
  email = name ++ utf16 "@nova.ar";
  name = name;
  role = role;
  password_hash = none;
  is_active = true;
  must_change_password = false;
}

abbrev session : String → String → UserSession
session id user_id = record {
  id = id;
  token_hash = id;
  user_id = user_id;
  tenant_id = "nova";
  user_agent = none;
  last_used_at = 0;
  expires_at = 1000;
}

abbrev team : Db
team = record {
  users =
      member "o" (utf16 "olga") UserRole.owner
      ∷ member "d" (utf16 "dan") UserRole.admin
      ∷ member "a" (utf16 "ana") UserRole.agent
      ∷ [];
  sessions = session "s1" "a" ∷ session "s2" "d" ∷ session "s3" "a" ∷ [];
}

abbrev admin_context : TenantContext
admin_context = record { tenant_id = "nova"; user_id = "d"; role = UserRole.admin }

abbrev owner_context : TenantContext
owner_context = record { tenant_id = "nova"; user_id = "o"; role = UserRole.owner }

abbrev nothing : UpdateInput
nothing = record { name = Json.undefined; role = Json.undefined; is_active = Json.undefined }

abbrev deactivate : UpdateInput
deactivate = record nothing { is_active = Json.bool false }

abbrev promote : UpdateInput
promote = record nothing { role = Json.str (utf16 "ADMIN") }

abbrev team_after : Db
team_after = record {
  users =
      member "o" (utf16 "olga") UserRole.owner
      ∷ member "d" (utf16 "dan") UserRole.admin
      ∷ record (member "a" (utf16 "ana") UserRole.agent) { is_active = false }
      ∷ [];
  sessions = session "s2" "d" ∷ [];
}

runs : Unit {0}
unfolding update update_plan check_name check_role check_active find_first update_many
    revoke_all_for_user patch_user create_user password_policy_error trim
runs = tt

admin_deactivates_agent : update admin_context "a" deactivate team ≡ ok team_after
unfolding runs
admin_deactivates_agent = refl

refusals :
    (update admin_context "o" deactivate team ≡ thrown Failure.owner_locked)
    × (update admin_context "d" deactivate team ≡ thrown Failure.not_yourself)
    × (update admin_context "a" promote team ≡ thrown Failure.only_owner_changes_roles)
    × (update owner_context "o" promote team ≡ thrown Failure.owner_role_fixed)
    × (update (record owner_context { tenant_id = "otro" }) "a" promote team
        ≡ thrown Failure.unknown_user)
unfolding runs
refusals = (refl, refl, refl, refl, refl)

abbrev ask : CreateInput
ask = record {
  email = Json.str (utf16 " eva@nova.ar ");
  name = Json.str (utf16 "Eva");
  role = Json.str (utf16 "AGENT");
  password = Json.str (utf16 "una clave larga");
}

abbrev same : Text → Text
same t = t

short_password :
    create_user same same admin_context
      (record ask { password = Json.str (utf16 "corta") })
      "n"
      team
    ≡ thrown Failure.weak_password
unfolding runs
short_password = refl

admins_make_no_admins :
    create_user same same admin_context (record ask { role = Json.str (utf16 "ADMIN") }) "n" team
    ≡ thrown Failure.only_owner_creates_admins
unfolding runs
admins_make_no_admins = refl

ids_differ : Distinct (λ u. u.id) team.users
ids_differ = (
  (λ e. ground (arith, eq_iff "d" "o"), (λ e. ground (arith, eq_iff "a" "o"), tt)),
  ((λ e. ground (arith, eq_iff "a" "d"), tt), (tt, tt)),
)

update-Updated_example : Updated admin_context "a" team team_after
update-Updated_example =
    update-Updated admin_context "a" deactivate team team_after ids_differ admin_deactivates_agent

Reach-OwnersKept_example : OwnersKept team team_after
Reach-OwnersKept_example =
    Reach-OwnersKept {lower = same} {hash = same} ids_differ
      (Reach.next Reach.here (Change.edit admin_context "a" deactivate admin_deactivates_agent))
