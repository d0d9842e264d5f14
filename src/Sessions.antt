-- ===== src/Sessions.antt =====
-- Sessions (src/auth/sessions.service.ts). `hash` is the SHA-256 of a token, and the token of a new
-- session is an argument.
pub mod Alive
mod Tests
use whatsapp_inbox.Shared.{
  ℕ, ◌+◌, ◌-◌, ◌*◌, String, Bool, Option, none, some, List, [], ◌∷◌, ◌++◌, ltb, leb, str_eq,
  if◌then◌else◌, take, Text, is_nil,
}
use whatsapp_inbox.Db.{find_first, update_many, delete_many, count}
use whatsapp_inbox.Schema.{UserRole}
use whatsapp_inbox.Users.{User, UserSession}

abbrev pub session_ttl_ms : ℕ
session_ttl_ms = 30 * 24 * 60 * 60 * 1000

abbrev pub touch_throttle_ms : ℕ
touch_throttle_ms = 60 * 60 * 1000

pub record AuthenticatedSession : Type 0 where
  pub tenant_id : String
  pub user_id : String
  pub role : UserRole
  pub must_change_password : Bool
  pub session_id : String
  pub user : User

pub data SessionValidation : Type 0 where
  valid : AuthenticatedSession → SessionValidation
  no_token unknown_token expired user_inactive : SessionValidation

-- `userAgent ? userAgent.slice(0, 255) : null`
agent_of : Option Text → Option Text
agent_of none = none
agent_of (some agent) = if is_nil agent then none else some (take 255 agent)

unfoldable pub create_session :
    (String → String)
    → String
    → String
    → User
    → Option Text
    → ℕ
    → List UserSession
    → List UserSession
unfolding agent_of
create_session hash id token user agent now sessions =
    sessions
    ++ record {
      id = id;
      token_hash = hash token;
      user_id = user.id;
      tenant_id = user.tenant_id;
      user_agent = agent_of agent;
      last_used_at = now;
      expires_at = now + session_ttl_ms;
    }
      ∷ []

unfoldable pub has_hash : String → UserSession → Bool
has_hash hashed s = str_eq s.token_hash hashed

unfoldable pub is_session : String → UserSession → Bool
is_session id s = str_eq s.id id

unfoldable pub touch : ℕ → UserSession → UserSession
touch now s = record s { last_used_at = now; expires_at = now + session_ttl_ms }

-- The sliding expiry, written once an hour at most.
unfoldable pub slide : ℕ → UserSession → List UserSession → List UserSession
unfolding update_many is_session touch
slide now s sessions =
    if ltb touch_throttle_ms (now - s.last_used_at)
    then update_many (is_session s.id) (touch now) sessions
    else sessions

unfoldable pub authenticated : UserSession → User → AuthenticatedSession
authenticated s u = record {
  tenant_id = s.tenant_id;
  user_id = u.id;
  role = u.role;
  must_change_password = u.must_change_password;
  session_id = s.id;
  user = u;
}

unfoldable pub active_user : String → List User → Option User
unfolding find_first
active_user id users = elim (find_first (λ (u : User). str_eq u.id id) users) [
  | none ↦ none
  | some u ↦ if u.is_active then some u else none
]

-- A session that has expired, or whose user is gone, is deleted.
unfoldable pub inspect_row :
    ℕ → UserSession → List User → List UserSession → SessionValidation × List UserSession
unfolding delete_many is_session active_user slide authenticated
inspect_row now s users sessions =
    if leb s.expires_at now
    then (expired, delete_many (is_session s.id) sessions)
    else elim (active_user s.user_id users) [
      | none ↦ (user_inactive, delete_many (is_session s.id) sessions)
      | some u ↦ (valid (authenticated s u), slide now s sessions)
    ]

unfoldable pub inspect :
    (String → String)
    → Option String
    → ℕ
    → List User
    → List UserSession
    → SessionValidation × List UserSession
unfolding find_first has_hash inspect_row
inspect hash none now users sessions = (no_token, sessions)
inspect hash (some token) now users sessions =
    if str_eq token ""
    then (no_token, sessions)
    else elim (find_first (has_hash (hash token)) sessions) [
      | none ↦ (unknown_token, sessions)
      | some s ↦ inspect_row now s users sessions
    ]

session_of : SessionValidation → Option AuthenticatedSession
session_of (valid a) = some a
session_of no_token = none
session_of unknown_token = none
session_of expired = none
session_of user_inactive = none

unfoldable pub validate :
    (String → String)
    → Option String
    → ℕ
    → List User
    → List UserSession
    → Option AuthenticatedSession × List UserSession
unfolding inspect session_of
validate hash token now users sessions =
    let (result, sessions') = inspect hash token now users sessions in
    (session_of result, sessions')

unfoldable pub revoke_by_token :
    (String → String) → Option String → List UserSession → List UserSession
unfolding delete_many has_hash
revoke_by_token hash none sessions = sessions
revoke_by_token hash (some token) sessions =
    if str_eq token "" then sessions else delete_many (has_hash (hash token)) sessions

-- With the number of those deleted.
unfoldable pub delete_expired : ℕ → List UserSession → ℕ × List UserSession
unfolding count delete_many
delete_expired now sessions =
    (count (λ s. ltb s.expires_at now) sessions, delete_many (λ s. ltb s.expires_at now) sessions)
