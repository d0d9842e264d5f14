-- ===== src/Send/Reopened.antt =====
-- The window after Meta has found it closed, and after the customer's next message (the rewind of
-- src/messaging/send-message.service.ts and the dates that
-- src/webhook-worker/inbound-messages.service.ts writes).
use whatsapp_inbox.Shared.{
  ℕ, ◌+◌, ◌≤◌, ◌≡◌, refl, inl, inr, true, arith, ltb, if◌then◌else◌, Bool-cases,
}
use whatsapp_inbox.Schema.{Conversation}
use whatsapp_inbox.Window.{service_window_ms, is_window_open}
use whatsapp_inbox.Inbound.{touch_inbound}
use whatsapp_inbox.Send.Settle.{not_after, rewind}

-- At any instant `x`.
rewound_window :
    (c : Conversation) (started now x : ℕ)
    → service_window_ms ≤ now
    → is_window_open (rewind started now c) x
      ≡ (if not_after c.last_inbound_at started then ltb x now else is_window_open c x)
unfolding rewind is_window_open
rewound_window c started now x day = elim (Bool-cases (not_after c.last_inbound_at started)) [
  | inl e ↦ rw e (ground arith)
  | inr e ↦ rw e refl
]

touched_window :
    (c : Conversation) (t x : ℕ)
    → not_after c.last_inbound_at t ≡ true
    → is_window_open (touch_inbound t c) x ≡ ltb x (t + 86_400_000)
unfolding touch_inbound is_window_open
touched_window c t x h = rw h refl

rewound_before :
    (c : Conversation) (started now t : ℕ)
    → now ≤ t
    → not_after c.last_inbound_at t ≡ true
    → not_after (rewind started now c).last_inbound_at t ≡ true
unfolding rewind
rewound_before c started now t le h = elim (Bool-cases (not_after c.last_inbound_at started)) [
  | inl e ↦ rw e (ground arith)
  | inr e ↦ rw e h
]

-- Where Meta finds the window closed at `now`, for an attempt that began at `started`: it is then
-- open at the instants before `now` and closed from `now` on, if no inbound message came after
-- `started`, and otherwise as it was. The next inbound message, stamped at `t`, not before `now` and
-- not before an earlier one, leaves it open until exactly 24 hours after `t`.
pub rewind_reopens :
    (c : Conversation) (started now t : ℕ)
    → service_window_ms ≤ now
    → now ≤ t
    → not_after c.last_inbound_at t ≡ true
    → ((x : ℕ)
        → is_window_open (rewind started now c) x
          ≡ (if not_after c.last_inbound_at started then ltb x now else is_window_open c x))
      × ((x : ℕ)
          → is_window_open (touch_inbound t (rewind started now c)) x ≡ ltb x (t + 86_400_000))
rewind_reopens c started now t day le h = (
  λ x. rewound_window c started now x day,
  λ x. touched_window (rewind started now c) t x (rewound_before c started now t le h),
)
