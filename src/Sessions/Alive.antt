-- ===== src/Sessions/Alive.antt =====
-- How long a session lives (`inspect` of src/auth/sessions.service.ts).
use mathlib.Core.Option
use whatsapp_inbox.Shared.{
  ℕ, ◌+◌, ◌-◌, ◌≤◌, String, ◌≡◌, refl, ap, ◌∙◌, subst, inl, inr, false, some, List, arith, eq_refl,
  ltb, leb, str_eq, if◌then◌else◌, Bool-cases, Option-cases,
}
use whatsapp_inbox.Db.{find_first, update_many}
use whatsapp_inbox.Db.Laws.{find_first-update_many}
use whatsapp_inbox.Db.Rows.{All, All-Memᴰ, find_first-Memᴰ}
use whatsapp_inbox.Users.{User, UserSession}
use whatsapp_inbox.Sessions.{
  AuthenticatedSession, SessionValidation, valid, expired, session_ttl_ms, touch_throttle_ms,
  has_hash, is_session, touch, slide, authenticated, active_user, inspect_row, inspect,
}

-- A session expires thirty days after its last use, which lies in the past.
abbrev pub IsUsed : ℕ → UserSession → Type 0
IsUsed now s = (s.expires_at ≡ s.last_used_at + session_ttl_ms) × (s.last_used_at ≤ now)

-- The row that a token finds after a use that was valid.
slide-found :
    (hashed : String) (t : ℕ) (s : UserSession) (sessions : List UserSession)
    → find_first (has_hash hashed) sessions ≡ some s
    → find_first (has_hash hashed) (slide t s sessions)
      ≡ some (if ltb touch_throttle_ms (t - s.last_used_at) then touch t s else s)
unfolding slide is_session touch has_hash
slide-found hashed t s sessions e = elim (Bool-cases (ltb touch_throttle_ms (t - s.last_used_at))) [
  | inl k ↦ rw k (written ∙ ap (λ b. some (if b then touch t s else s)) (eq_refl s.id))
  | inr k ↦ rw k e
]
  where
    written :
        find_first (has_hash hashed) (update_many (is_session s.id) (touch t) sessions)
        ≡ some (if is_session s.id s then touch t s else s)
    written =
        find_first-update_many (is_session s.id) (has_hash hashed) (touch t) (λ x. refl) sessions
        ∙ ap (Option.map (λ x. if is_session s.id x then touch t x else x)) e

-- What an inspection says of the row that it finds.
inspect-row :
    (hash : String → String) (token : String) (users : List User) (sessions : List UserSession)
    (r : UserSession) (u : User)
    → str_eq token "" ≡ false
    → find_first (has_hash (hash token)) sessions ≡ some r
    → active_user r.user_id users ≡ some u
    → (now : ℕ)
    → (inspect hash (some token) now users sessions).0
      ≡ (if leb r.expires_at now then expired else valid (authenticated r u))
unfolding inspect inspect_row
inspect-row hash token users sessions r u k e f now = elim (Bool-cases (leb r.expires_at now)) [
  | inl g ↦ rw (inspect, k, e) (rw (inspect_row, g) refl)
  | inr g ↦ rw (inspect, k, e) (rw (inspect_row, g, f) refl)
]

-- What the row that a token finds says after a valid use at `t`.
record Used (hash : String → String) (token : String) (t : ℕ) (users : List User)
    (sessions : List UserSession) (a : AuthenticatedSession) : Type 0 where
  row : UserSession
  user : User
  filled : str_eq token "" ≡ false
  found : find_first (has_hash (hash token)) sessions ≡ some row
  active : active_user row.user_id users ≡ some user
  same : authenticated row user ≡ a
  late : t + session_ttl_ms ≤ row.expires_at + touch_throttle_ms
  early : row.expires_at ≤ t + session_ttl_ms

valid-pair :
    {a b : AuthenticatedSession} {l l' : List UserSession}
    → ◌≡◌ {A = SessionValidation × List UserSession} (valid a, l) (valid b, l')
    → (a ≡ b) × (l ≡ l')
valid-pair e = let v : valid _ ≡ valid _ = ap (λ p. p.0) e in (cc, ap (λ p. p.1) e)

slide-Used :
    (hash : String → String) (token : String) (t : ℕ) (users : List User)
    (sessions : List UserSession) (s : UserSession) (u : User)
    → str_eq token "" ≡ false
    → find_first (has_hash (hash token)) sessions ≡ some s
    → active_user s.user_id users ≡ some u
    → IsUsed t s
    → Used hash token t users (slide t s sessions) (authenticated s u)
unfolding touch authenticated
slide-Used hash token t users sessions s u k e f (x, y) =
    elim (Bool-cases (ltb touch_throttle_ms (t - s.last_used_at))) [
      | inl g ↦ record {
        row = touch t s;
        user = u;
        filled = k;
        found =
            slide-found (hash token) t s sessions e ∙ ap (λ b. some (if b then touch t s else s)) g;
        active = f;
        same = refl;
        late = omega arith;
        early = omega arith;
      }
      | inr g ↦ record {
        row = s;
        user = u;
        filled = k;
        found =
            slide-found (hash token) t s sessions e ∙ ap (λ b. some (if b then touch t s else s)) g;
        active = f;
        same = refl;
        late = ground (arith, x, g);
        early = omega arith;
      }
    ]

row-Used :
    (hash : String → String) (token : String) (t : ℕ) (users : List User)
    (sessions sessions' : List UserSession) (s : UserSession) (a : AuthenticatedSession)
    → str_eq token "" ≡ false
    → find_first (has_hash (hash token)) sessions ≡ some s
    → IsUsed t s
    → inspect_row t s users sessions ≡ (valid a, sessions')
    → Used hash token t users sessions' a
unfolding inspect_row
row-Used hash token t users sessions sessions' s a k n i e =
    elim (Bool-cases (leb s.expires_at t)) [
      | inl g ↦ absurd (cc (ap (λ p. p.0) (rw (inspect_row, g) at e)))
      | inr g ↦ elim (Option-cases (active_user s.user_id users)) [
        | inl f ↦ absurd (cc (ap (λ p. p.0) (rw (inspect_row, g, f) at e)))
        | inr (u, f) ↦
            let (same, left) = valid-pair (rw (inspect_row, g, f) at e) in
            subst (λ l. Used hash token t users l a) left
              (subst (λ b. Used hash token t users (slide t s sessions) b) same
                (slide-Used hash token t users sessions s u k n f i))
      ]
    ]

inspect-Used :
    (hash : String → String) (token : String) (t : ℕ) (users : List User)
    (sessions sessions' : List UserSession) (a : AuthenticatedSession)
    → All (IsUsed t) sessions
    → inspect hash (some token) t users sessions ≡ (valid a, sessions')
    → Used hash token t users sessions' a
unfolding inspect
inspect-Used hash token t users sessions sessions' a h e = elim (Bool-cases (str_eq token "")) [
  | inl k ↦ absurd (cc (ap (λ p. p.0) (rw (inspect, k) at e)))
  | inr k ↦ elim (Option-cases (find_first (has_hash (hash token)) sessions)) [
    | inl n ↦ absurd (cc (ap (λ p. p.0) (rw (inspect, k, n) at e)))
    | inr (s, n) ↦
        row-Used hash token t users sessions sessions' s a k n
          (All-Memᴰ (IsUsed t) sessions h (find_first-Memᴰ (has_hash (hash token)) sessions n))
          (rw (inspect, k, n) at e)
  ]
]

-- How long a session lives after a use at `t` that was valid: until some time between 30 days less
-- an hour and 30 days after it the token is the same session whenever it is asked for, and from
-- that time on it has expired. This is for sessions that expire thirty days after their last use,
-- and while neither they nor the users are written.
pub inspect-alive :
    (hash : String → String) (token : String) (t : ℕ) (users : List User)
    (sessions sessions' : List UserSession) (a : AuthenticatedSession)
    → All (IsUsed t) sessions
    → inspect hash (some token) t users sessions ≡ (valid a, sessions')
    → (end : ℕ) × (t + session_ttl_ms ≤ end + touch_throttle_ms)
      × (end ≤ t + session_ttl_ms)
      × ((now : ℕ)
          → (inspect hash (some token) now users sessions').0
            ≡ (if leb end now then expired else valid a))
inspect-alive hash token t users sessions sessions' a h e =
    let k = inspect-Used hash token t users sessions sessions' a h e in
    (
      k.row.expires_at,
      k.late,
      k.early,
      λ now.
          inspect-row hash token users sessions' k.row k.user k.filled k.found k.active now
          ∙ ap (λ b. if leb k.row.expires_at now then expired else valid b) k.same,
    )
