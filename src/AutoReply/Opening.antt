-- ===== src/AutoReply/Opening.antt =====
-- Opening hours as intervals on the circle of the week's 10080 minutes (`isOpenAt` of
-- src/messaging/auto-reply.ts).
use whatsapp_inbox.Shared.{
  ℕ, ◌+◌, ◌*◌, ◌%◌, ◌≤◌, ◌<◌, ◌≡◌, refl, sym, ap, ◌∙◌, subst, ◌≢◌, ◌↔◌, ◌⊎◌, inl, inr, true, false,
  some, Memᴰ, arith, ltb, if◌then◌else◌, Bool-cases, or-true, any, any→Memᴰ, Memᴰ→any, text_eq,
}
use whatsapp_inbox.Db.Rows.{All, All-Memᴰ}
use whatsapp_inbox.AutoReply.{
  TimeRange, WeekSchedule, is_time, to_minutes, ranges_of, covers_own, covers_after_midnight,
  is_open_on,
}
use whatsapp_inbox.AutoReply.Times.{is_time_lem, to_minutes-ne}

pub record IsValidRange (r : TimeRange) : Type 0 where
  pub from_time : is_time r.from ≡ true
  pub to_time : is_time r.to ≡ true
  pub lasts : text_eq r.from r.to ≡ false

abbrev pub IsValidSchedule : WeekSchedule → Type 0
IsValidSchedule schedule = (day : ℕ) → day < 7 → All IsValidRange (ranges_of schedule day)

-- The minute `m` of the weekday `w` lies in a range of the schedule: the range of a day starts at
-- its first time on that day and stops at its second, which is on the next day if it is not later.
-- The week is a circle: the night of Saturday goes on to Sunday.
pub record Covered (schedule : WeekSchedule) (w m : ℕ) : Type 0 where
  pub day : ℕ
  pub range : TimeRange
  pub from : ℕ
  pub to : ℕ
  pub in_week : day < 7
  pub listed : Memᴰ range (ranges_of schedule day)
  pub starts : to_minutes range.from ≡ some from
  pub stops : to_minutes range.to ≡ some to
  pub within :
      let start = day * 1440 + from in
      let stop = day * 1440 + (if ltb from to then to else 1440 + to) in
      let now = w * 1440 + m in
      ((start ≤ now) × (now < stop)) ⊎ ((start ≤ now + 10080) × (now + 10080 < stop))

record Minutes (r : TimeRange) : Type 0 where
  f : ℕ
  t : ℕ
  starts : to_minutes r.from ≡ some f
  stops : to_minutes r.to ≡ some t
  f_day : f < 1440
  t_day : t < 1440
  differ : f ≢ t

minutes : (r : TimeRange) → IsValidRange r → Minutes r
minutes r v =
    let (f, ef, lf, _) = is_time_lem r.from v.from_time in
    let (t, et, lt, _) = is_time_lem r.to v.to_time in
    record {
      f = f;
      t = t;
      starts = ef;
      stops = et;
      f_day = lf;
      t_day = lt;
      differ =
          λ e. to_minutes-ne r.from r.to v.from_time v.to_time v.lasts (ef ∙ ap some e ∙ sym et);
    }

covers_own_iff :
    (r : TimeRange) (f t m : ℕ)
    → to_minutes r.from ≡ some f
    → to_minutes r.to ≡ some t
    → (covers_own (some m) r ≡ true) ↔ ((f ≤ m) × (f < t → m < t))
unfolding covers_own
covers_own_iff r f t m ef et = rw (ef, et) (ground arith)

covers_after_midnight_iff :
    (r : TimeRange) (f t m : ℕ)
    → to_minutes r.from ≡ some f
    → to_minutes r.to ≡ some t
    → (covers_after_midnight (some m) r ≡ true) ↔ ((t < f) × (m < t))
unfolding covers_after_midnight
covers_after_midnight_iff r f t m ef et = rw (ef, et) (ground arith)

-- Which of the two tests of the code finds the interval.
on_circle :
    (d w f t m : ℕ)
    → d < 7
    → w < 7
    → f < 1440
    → t < 1440
    → m < 1440
    → f ≢ t
    → let start = d * 1440 + f in
      let stop = d * 1440 + (if ltb f t then t else 1440 + t) in
      let now = w * 1440 + m in
      ((start ≤ now) × (now < stop)) ⊎ ((start ≤ now + 10080) × (now + 10080 < stop))
      → ((d ≡ w) × (f ≤ m) × (f < t → m < t)) ⊎ ((d ≡ (w + 6) % 7) × (t < f) × (m < t))
on_circle d w f t m hd hw hf ht hm ne h = ground arith

own_within :
    (w f t m : ℕ)
    → m < 1440
    → f ≤ m
    → (f < t → m < t)
    → (w * 1440 + f ≤ w * 1440 + m) × (w * 1440 + m < w * 1440 + (if ltb f t then t else 1440 + t))
own_within w f t m hm low high = ground arith

night_within :
    (d w f t m : ℕ)
    → w < 7
    → f < 1440
    → t < f
    → m < t
    → d ≡ (w + 6) % 7
    → let start = d * 1440 + f in
      let stop = d * 1440 + (if ltb f t then t else 1440 + t) in
      let now = w * 1440 + m in
      ((start ≤ now) × (now < stop)) ⊎ ((start ≤ now + 10080) × (now + 10080 < stop))
night_within d w f t m hw hf lt hm e = ground arith

opens_own :
    (schedule : WeekSchedule) (w m : ℕ)
    → w < 7
    → m < 1440
    → IsValidSchedule schedule
    → any (covers_own (some m)) (ranges_of schedule w) ≡ true
    → Covered schedule w m
opens_own schedule w m hw hm valid h =
    let (r, mem, c) = any→Memᴰ (covers_own (some m)) (ranges_of schedule w) h in
    let k = minutes r (All-Memᴰ IsValidRange (ranges_of schedule w) (valid w hw) mem) in
    let (low, high) = (covers_own_iff r k.f k.t m k.starts k.stops).0 c in
    record {
      day = w;
      range = r;
      from = k.f;
      to = k.t;
      in_week = hw;
      listed = mem;
      starts = k.starts;
      stops = k.stops;
      within = inl (own_within w k.f k.t m hm low high);
    }

opens_night :
    (schedule : WeekSchedule) (w m : ℕ)
    → w < 7
    → m < 1440
    → IsValidSchedule schedule
    → any (covers_after_midnight (some m)) (ranges_of schedule ((w + 6) % 7)) ≡ true
    → Covered schedule w m
opens_night schedule w m hw hm valid h =
    let d = (w + 6) % 7 in
    let hd : (w + 6) % 7 < 7 = omega arith in
    let (r, mem, c) = any→Memᴰ (covers_after_midnight (some m)) (ranges_of schedule d) h in
    let k = minutes r (All-Memᴰ IsValidRange (ranges_of schedule d) (valid d hd) mem) in
    let (night, low) = (covers_after_midnight_iff r k.f k.t m k.starts k.stops).0 c in
    record {
      day = d;
      range = r;
      from = k.f;
      to = k.t;
      in_week = hd;
      listed = mem;
      starts = k.starts;
      stops = k.stops;
      within = night_within d w k.f k.t m hw k.f_day night low refl;
    }

Covered-is_open_on :
    (schedule : WeekSchedule) (w m : ℕ)
    → w < 7
    → m < 1440
    → IsValidSchedule schedule
    → Covered schedule w m
    → is_open_on schedule w (some m) ≡ true
unfolding is_open_on
Covered-is_open_on schedule w m hw hm valid c =
    let k =
      minutes c.range
        (All-Memᴰ IsValidRange (ranges_of schedule c.day) (valid c.day c.in_week) c.listed) in
    let ef : c.from ≡ k.f = cc (c.starts, k.starts) in
    let et : c.to ≡ k.t = cc (c.stops, k.stops) in
    elim (on_circle c.day w c.from c.to m c.in_week hw (rw ef k.f_day) (rw et k.t_day) hm
      (λ e. k.differ (sym ef ∙ e ∙ et)) c.within) [
        | inl (d, low, high) ↦ rw (
            Memᴰ→any (covers_own (some m)) (ranges_of schedule w)
              (subst (λ x. Memᴰ c.range (ranges_of schedule x)) d c.listed)
              ((covers_own_iff c.range c.from c.to m c.starts c.stops).1 (low, high)))
        | inr (d, night, low) ↦
            rw
              (Memᴰ→any (covers_after_midnight (some m)) (ranges_of schedule ((w + 6) % 7))
                (subst (λ x. Memᴰ c.range (ranges_of schedule x)) d c.listed)
                ((covers_after_midnight_iff c.range c.from c.to m c.starts c.stops).1 (night, low)))
              (or-true _)
      ]

-- For a valid schedule the code finds the restaurant open at a minute of the week exactly when the
-- minute lies in one of the schedule's ranges, seen as intervals on the circle of the week.
pub is_open_on_iff :
    (schedule : WeekSchedule) (w m : ℕ)
    → w < 7
    → m < 1440
    → IsValidSchedule schedule
    → (is_open_on schedule w (some m) ≡ true) ↔ Covered schedule w m
unfolding is_open_on
is_open_on_iff schedule w m hw hm valid = (
  λ h. elim (Bool-cases (any (covers_own (some m)) (ranges_of schedule w))) [
    | inl e ↦ opens_own schedule w m hw hm valid e
    | inr e ↦ opens_night schedule w m hw hm valid (rw e at h)
  ],
  Covered-is_open_on schedule w m hw hm valid,
)
