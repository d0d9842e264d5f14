-- ===== src/Sessions/Tests.antt =====
-- A session from its creation to its expiry (src/auth/sessions.service.ts).
use whatsapp_inbox.Shared.{
  ℕ, ◌+◌, ◌≤◌, String, ◌≡◌, refl, true, false, none, some, [], ◌∷◌, arith, leb, if◌then◌else◌,
  utf16,
}
use whatsapp_inbox.Schema.{UserRole}
use whatsapp_inbox.Users.{User, UserSession}
use whatsapp_inbox.Sessions.{
  valid, expired, session_ttl_ms, touch_throttle_ms, create_session, authenticated, inspect,
}
use whatsapp_inbox.Sessions.Alive.{inspect-alive}

abbrev hash : String → String
hash token = "h"

abbrev user : User
user = record {
  id = "u1";
  tenant_id = "nova";
  email = utf16 "ana@nova.ar";
  name = utf16 "Ana";
  role = UserRole.agent;
  password_hash = none;
  is_active = true;
  must_change_password = false;
}

abbrev stored : ℕ → UserSession
stored now = record {
  id = "s1";
  token_hash = "h";
  user_id = "u1";
  tenant_id = "nova";
  user_agent = none;
  last_used_at = now;
  expires_at = now + session_ttl_ms;
}

created : create_session hash "s1" "token" user none 1000 [] ≡ stored 1000 ∷ []
unfolding create_session
created = refl

-- A use two hours later.
used :
    inspect hash (some "token") 7_201_000 (user ∷ []) (stored 1000 ∷ [])
    ≡ (valid (authenticated (stored 1000) user), stored 7_201_000 ∷ [])
unfolding inspect authenticated
used = refl

inspect-alive_example :
    (end : ℕ) × (7_201_000 + session_ttl_ms ≤ end + touch_throttle_ms)
    × (end ≤ 7_201_000 + session_ttl_ms)
    × ((now : ℕ)
        → (inspect hash (some "token") now (user ∷ []) (stored 7_201_000 ∷ [])).0
          ≡ (if leb end now then expired else valid (authenticated (stored 1000) user)))
inspect-alive_example =
    inspect-alive hash "token" 7_201_000 (user ∷ []) (stored 1000 ∷ []) (stored 7_201_000 ∷ [])
      (authenticated (stored 1000) user) ((refl, omega arith), tt) used
