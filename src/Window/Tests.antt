-- ===== src/Window/Tests.antt =====
-- The window of one conversation (src/messaging/window.ts).
use whatsapp_inbox.Shared.{ℕ, ◌+◌, ◌-◌, ◌≤◌, ◌<◌, ◌≡◌, refl, ◌↔◌, true, false, some}
use whatsapp_inbox.Fixtures.{conversation}
use whatsapp_inbox.Window.{
  service_window_ms, is_window_open, WindowMode, window_view, expiring_threshold_ms,
}
use whatsapp_inbox.Window.Laws.{served, window_view-served}

open_for_a_day : is_window_open conversation 1_086_399_999 ≡ true
unfolding is_window_open
open_for_a_day = refl

closed_after_a_day : is_window_open conversation 1_086_400_000 ≡ false
unfolding is_window_open
closed_after_a_day = refl

warns_in_the_last_hours :
    (window_view (served conversation 1_080_000_000) 1_080_000_000).mode ≡ WindowMode.expiring
unfolding window_view is_window_open
warns_in_the_last_hours = refl

window_view-served_example :
    let v = window_view (served conversation 1_000_000_001) 1_085_000_000 in
    ((v.mode ≡ WindowMode.closed) ↔ (is_window_open conversation 1_000_000_001 ≡ false))
    × ((v.mode ≡ WindowMode.expiring) ↔ (
        (t : ℕ) × (conversation.last_inbound_at ≡ some t)
        × (1_000_000_001 < t + service_window_ms)
        × (t + service_window_ms ≤ 1_085_000_000 + expiring_threshold_ms)))
    × ((left : ℕ)
        → (v.ms_left ≡ some left) ↔ (
            (t : ℕ) × (conversation.last_inbound_at ≡ some t)
            × (1_000_000_001 < t + service_window_ms)
            × (left ≡ t + service_window_ms - 1_085_000_000)))
window_view-served_example = window_view-served conversation 1_000_000_001 1_085_000_000
