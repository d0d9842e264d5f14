-- ===== src/AutoReply/Times.antt =====
-- Times "HH:MM" and minutes of the day (`TIME_RE` and `toMinutes` of src/messaging/auto-reply.ts).
use whatsapp_inbox.Shared.{
  ℕ, ◌+◌, ◌-◌, ◌*◌, ◌/◌, ◌%◌, ◌≤◌, ◌<◌, ◌≡◌, sym, ap, ◌∙◌, ◌≢◌, true, false, some, [], ◌∷◌, arith,
  Text, text_eq, text_eq_iff,
}
use whatsapp_inbox.AutoReply.{is_time, to_minutes}

-- "HH:MM" of a minute of the day.
abbrev pub time_text : ℕ → Text
time_text n =
    (b'0' + n / 60 / 10)
    ∷ (b'0' + n / 60 % 10)
    ∷ b':'
    ∷ (b'0' + n % 60 / 10)
    ∷ (b'0' + n % 60 % 10)
    ∷ []

-- The minutes that five characters of a time stand for.
abbrev minutes_of : (a b d e : ℕ) → ℕ
minutes_of a b d e = (10 * (a - b'0') + (b - b'0')) * 60 + (10 * (d - b'0') + (e - b'0'))

record Digits (a b c d e : ℕ) : Type 0 where
  a_low : b'0' ≤ a
  b_low : b'0' ≤ b
  d_low : b'0' ≤ d
  e_low : b'0' ≤ e
  hours : 10 * (a - b'0') + (b - b'0') < 24
  a_high : a ≤ b'2'
  b_high : b ≤ b'9'
  d_high : d ≤ b'5'
  e_high : e ≤ b'9'
  colon : c ≡ b':'

Digits-of : (a b c d e : ℕ) → is_time (a ∷ b ∷ c ∷ d ∷ e ∷ []) ≡ true → Digits a b c d e
unfolding is_time
Digits-of a b c d e h = ground arith

to_minutes_of :
    (a b c d e : ℕ)
    → Digits a b c d e
    → to_minutes (a ∷ b ∷ c ∷ d ∷ e ∷ []) ≡ some (minutes_of a b d e)
unfolding to_minutes
to_minutes_of a b c d e h = ground arith

text_of :
    (a b c d e : ℕ)
    → Digits a b c d e
    → ◌≡◌ {A = Text} (a ∷ b ∷ c ∷ d ∷ e ∷ []) (time_text (minutes_of a b d e))
text_of a b c d e g =
    let pa : a ≡ b'0' + minutes_of a b d e / 60 / 10 = omega arith in
    let pb : b ≡ b'0' + minutes_of a b d e / 60 % 10 = omega arith in
    let pd : d ≡ b'0' + minutes_of a b d e % 60 / 10 = omega arith in
    let pe : e ≡ b'0' + minutes_of a b d e % 60 % 10 = omega arith in
    λ i. pa i ∷ pb i ∷ g.colon i ∷ pd i ∷ pe i ∷ []

-- A text that passes the test is the time of a minute of the day, and is read as that minute.
pub is_time_lem :
    (t : Text)
    → is_time t ≡ true
    → (n : ℕ) × (to_minutes t ≡ some n) × (n < 1440) × (t ≡ time_text n)
unfolding is_time
is_time_lem (a ∷ b ∷ c ∷ d ∷ e ∷ []) h =
    let g = Digits-of a b c d e h in
    (minutes_of a b d e, to_minutes_of a b c d e g, omega arith, text_of a b c d e g)
is_time_lem _ h = absurd (ground arith)

-- Two different times are different minutes.
pub to_minutes-ne :
    (s t : Text)
    → is_time s ≡ true
    → is_time t ≡ true
    → text_eq s t ≡ false
    → to_minutes s ≢ to_minutes t
to_minutes-ne s t hs ht ne same =
    let (n, en, _, sn) = is_time_lem s hs in
    let (m, em, _, tm) = is_time_lem t ht in
    let nm : n ≡ m = cc in absurd (cc ((text_eq_iff s t).1 (sn ∙ ap time_text nm ∙ sym tm)))
