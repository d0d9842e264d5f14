-- ===== src/Window.antt =====
-- The 24-hour service window: the server's (src/messaging/window.ts) and what the client shows of
-- it (web/src/lib/window-ui.ts).
pub mod Laws
mod Tests
use whatsapp_inbox.Shared.{
  ℕ, ◌+◌, ◌-◌, ◌*◌, Bool, false, Option, none, some, ltb, leb, if◌then◌else◌,
}
use whatsapp_inbox.Schema.{Conversation}

abbrev pub service_window_hours : ℕ
service_window_hours = 24

abbrev pub service_window_ms : ℕ
service_window_ms = service_window_hours * 60 * 60 * 1000

unfoldable pub window_expires_at : Conversation → Option ℕ
window_expires_at conversation = elim conversation.last_inbound_at [
  | none ↦ none
  | some t ↦ some (t + service_window_ms)
]

unfoldable pub is_window_open : Conversation → ℕ → Bool
unfolding window_expires_at
is_window_open conversation now = elim (window_expires_at conversation) [
  | none ↦ false
  | some expires_at ↦ ltb now expires_at
]

-- The difference is exact for a clock past the first day of the epoch.
unfoldable pub expired_last_inbound_at : ℕ → ℕ
expired_last_inbound_at now = now - service_window_ms

-- What the client receives of a conversation.
pub record ServerWindow : Type 0 where
  pub is_window_open : Bool
  pub window_expires_at : Option ℕ

pub data WindowMode : Type 0 where
  open_ expiring closed : WindowMode

pub record WindowView : Type 0 where
  pub mode : WindowMode
  pub ms_left : Option ℕ

abbrev pub expiring_threshold_ms : ℕ
expiring_threshold_ms = 2 * 60 * 60 * 1000

-- `expiresAt - now` is negative where `now` is later: that is the branch of `Math.max(0, …)`, to
-- which the truncated difference is equal.
view_until : ℕ → ℕ → WindowView
view_until now expires_at =
    let ms_left = expires_at - now in
    if leb ms_left expiring_threshold_ms
    then record { mode = WindowMode.expiring; ms_left = some ms_left }
    else record { mode = WindowMode.open_; ms_left = some ms_left }

unfoldable pub window_view : ServerWindow → ℕ → WindowView
unfolding view_until
window_view w now =
    if w.is_window_open
    then elim w.window_expires_at [
      | none ↦ record { mode = WindowMode.open_; ms_left = none }
      | some expires_at ↦ view_until now expires_at
    ]
    else record { mode = WindowMode.closed; ms_left = none }
