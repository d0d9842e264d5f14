-- ===== src/Window/Laws.antt =====
-- The open window (src/messaging/window.ts) and the client's view of it (web/src/lib/window-ui.ts).
use whatsapp_inbox.Shared.{
  ℕ, ◌+◌, ◌-◌, ◌≤◌, ◌<◌, ◌≡◌, ◌↔◌, inl, inr, true, false, some, arith, Option-cases,
}
use whatsapp_inbox.Schema.{Conversation}
use whatsapp_inbox.Window.{
  service_window_ms, window_expires_at, is_window_open, ServerWindow, WindowMode, window_view,
  expiring_threshold_ms,
}

pub is_window_open_iff :
    (c : Conversation) (now : ℕ)
    → (is_window_open c now ≡ true)
      ↔ ((t : ℕ) × (c.last_inbound_at ≡ some t) × (now < t + service_window_ms))
unfolding is_window_open
is_window_open_iff c now = elim (Option-cases c.last_inbound_at) [
  | inl e ↦ (ground arith, λ (t, s, _). cc)
  | inr (t, e) ↦ (λ h. (t, e, ground arith), λ (u, s, lt). ground arith)
]

abbrev pub served : Conversation → ℕ → ServerWindow
served c at = record {
  is_window_open = is_window_open c at;
  window_expires_at = window_expires_at c;
}

-- Whatever the client's clock `now` says, it shows the window closed exactly when the server found
-- it closed; where it is open the client warns exactly if at most two hours are left on its clock,
-- and it always shows what is left, 0 for a clock that is past the end. Where it is closed it shows
-- no time.
pub window_view-served :
    (c : Conversation) (at now : ℕ)
    → let v = window_view (served c at) now in
      ((v.mode ≡ WindowMode.closed) ↔ (is_window_open c at ≡ false))
      × ((v.mode ≡ WindowMode.expiring) ↔ (
          (t : ℕ) × (c.last_inbound_at ≡ some t)
          × (at < t + service_window_ms)
          × (t + service_window_ms ≤ now + expiring_threshold_ms)))
      × ((left : ℕ)
          → (v.ms_left ≡ some left) ↔ (
              (t : ℕ) × (c.last_inbound_at ≡ some t)
              × (at < t + service_window_ms)
              × (left ≡ t + service_window_ms - now)))
unfolding window_view is_window_open
window_view-served c at now = elim (Option-cases c.last_inbound_at) [
  | inl e ↦ (
    (λ h. ground arith, λ h. ground arith),
    (λ h. ground arith, λ h. ground arith),
    λ left. (λ h. ground arith, λ h. ground arith),
  )
  | inr (t, e) ↦ (
    (λ h. ground arith, λ h. ground arith),
    (λ h. (t, e, ground arith, ground arith), λ h. ground arith),
    λ left. (λ h. (t, e, ground arith, ground arith), λ h. ground arith),
  )
]
