-- ===== src/AutoReply/Stored.antt =====
-- What `updateConfig` stores and `getConfig` reads back (src/messaging/auto-reply.service.ts): the
-- accepted configuration as a JSON value.
use whatsapp_inbox.Shared.{
  suc, String, ◌≡◌, refl, sym, ap, subst, ◌≢◌, Bool, true, false, ◌&&◌, List, [], ◌∷◌, ◌++◌, arith,
  ltb, length, Text, is_nil, trim,
}
use whatsapp_inbox.Json.{Json, Items, Fields, items, get}
use whatsapp_inbox.Db.Rows.{All}
use whatsapp_inbox.AutoReply.{
  TimeRange, WeekSchedule, AutoReplyConfig, max_ranges_per_day, max_message_length, Problem, Parsed,
  RangeResult, settle, parse_range, parse_ranges, parse_day, parse_days, week_keys,
  parse_auto_reply_config, when,
}
use whatsapp_inbox.AutoReply.Opening.{IsValidRange}
use whatsapp_inbox.AutoReply.Parsing.{
  IsValidDay, IsWeek, IsValidConfig, parse_auto_reply_config-IsValidConfig,
}

abbrev pub range_json : TimeRange → Json
range_json r =
    Json.obj (Fields.field "from" (Json.str r.from) (Fields.field "to" (Json.str r.to) Fields.end))

abbrev ranges_json : List TimeRange → Items
ranges_json [] = Items.nil
ranges_json (r ∷ rs) = Items.cons (range_json r) (ranges_json rs)

abbrev schedule_json : WeekSchedule → Fields
schedule_json [] = Fields.end
schedule_json ((key, ranges) ∷ days) =
    Fields.field key (Json.arr (ranges_json ranges)) (schedule_json days)

-- `parsed.config as unknown as Prisma.InputJsonValue`
unfoldable pub config_json : AutoReplyConfig → Json
config_json c = Json.obj (
    Fields.field "enabled" (Json.bool c.enabled) (
      Fields.field "message" (Json.str c.message)
        (Fields.field "schedule" (Json.obj (schedule_json c.schedule)) Fields.end)))

parse_range-json :
    (key : String) (r : TimeRange)
    → IsValidRange r
    → parse_range key (range_json r) ≡ RangeResult.range r
unfolding parse_range
parse_range-json key r v = ground (arith, v.from_time, v.to_time, v.lasts)

length-items : (rs : List TimeRange) → length (items (ranges_json rs)) ≡ length rs
length-items [] = refl
length-items (r ∷ rs) = ap suc (length-items rs)

parse_ranges-json :
    (key : String) (rs : List TimeRange)
    → All IsValidRange rs
    → parse_ranges key (items (ranges_json rs)) ≡ (rs, [])
unfolding parse_ranges
parse_ranges-json key [] v = refl
parse_ranges-json key (r ∷ rs) (v, vs) = rw (parse_range-json key r v, parse_ranges-json key rs vs)

parse_day-json :
    (key : String) (rs : List TimeRange)
    → IsValidDay rs
    → parse_day key (Json.arr (ranges_json rs)) ≡ ((key, rs) ∷ [], [])
unfolding parse_day
parse_day-json key rs (vs, len) =
    let few : ltb max_ranges_per_day (length (items (ranges_json rs))) ≡ false =
      ground (arith, length-items rs) in
    rw (few, parse_ranges-json key rs vs)

abbrev week : (a b c d e f g : List TimeRange) → WeekSchedule
week a b c d e f g = ("0", a) ∷ ("1", b) ∷ ("2", c) ∷ ("3", d) ∷ ("4", e) ∷ ("5", f) ∷ ("6", g) ∷ []

week-json :
    (a b c d e f g : List TimeRange)
    → IsWeek week_keys (week a b c d e f g)
    → parse_days week_keys (Json.obj (schedule_json (week a b c d e f g)))
      ≡ (week a b c d e f g, [])
unfolding parse_days
week-json a b c d e f g (_, va, (_, vb, (_, vc, (_, vd, (_, ve, (_, vf, (_, vg, _))))))) = rw (
  parse_day-json "0" a va,
  parse_day-json "1" b vb,
  parse_day-json "2" c vc,
  parse_day-json "3" d vd,
  parse_day-json "4" e ve,
  parse_day-json "5" f vf,
  parse_day-json "6" g vg,
)

schedule-json :
    (s : WeekSchedule)
    → IsWeek week_keys s
    → parse_days week_keys (Json.obj (schedule_json s)) ≡ (s, [])
schedule-json ((k0, a) ∷ (k1, b) ∷ (k2, c) ∷ (k3, d) ∷ (k4, e) ∷ (k5, f) ∷ (k6, g) ∷ [])
      (e0, va, (e1, vb, (e2, vc, (e3, vd, (e4, ve, (e5, vf, (e6, vg, _))))))) =
    let keys : (k0, a) ∷ (k1, b) ∷ (k2, c) ∷ (k3, d) ∷ (k4, e) ∷ (k5, f) ∷ (k6, g) ∷ []
        ≡ week a b c d e f g =
      λ i. (e0 i, a) ∷ (e1 i, b) ∷ (e2 i, c) ∷ (e3 i, d) ∷ (e4 i, e) ∷ (e5 i, f) ∷ (e6 i, g) ∷ [] in
    subst (λ s. parse_days week_keys (Json.obj (schedule_json s)) ≡ (s, [])) (sym keys)
      (week-json a b c d e f g
        (refl, va, (refl, vb, (refl, vc, (refl, vd, (refl, ve, (refl, vf, (refl, vg, tt))))))))
schedule-json _ h = absurd (ground arith)

not_empty : (enabled : Bool) (s : Text) → (enabled ≡ true → s ≢ []) → (enabled && is_nil s) ≡ false
unfolding is_nil
not_empty false s h = refl
not_empty true [] h = absurd (h refl refl)
not_empty true (c ∷ s) h = refl

settle-IsValidConfig :
    (c : AutoReplyConfig) (message : Text) (days : WeekSchedule × List Problem)
    → IsValidConfig c
    → message ≡ c.message
    → days ≡ (c.schedule, [])
    → settle
        (record { enabled = c.enabled; message = message; schedule = days.0 })
        (when (c.enabled && is_nil message) Problem.empty_message
          ++ (when (ltb max_message_length (length message)) Problem.message_too_long ++ days.1))
      ≡ Parsed.ok c
unfolding settle
settle-IsValidConfig c message days v m d =
    let answers : (c.enabled && is_nil c.message) ≡ false =
      not_empty c.enabled c.message v.answers in
    let short : ltb max_message_length (length c.message) ≡ false = ground (arith, v.short) in
    rw (m, d, answers, short)

-- What is stored for an accepted configuration, read again, is accepted as that configuration.
pub parse_auto_reply_config-config_json :
    (raw : Json) (c : AutoReplyConfig)
    → parse_auto_reply_config raw ≡ Parsed.ok c
    → parse_auto_reply_config (config_json c) ≡ Parsed.ok c
unfolding parse_auto_reply_config get config_json
parse_auto_reply_config-config_json raw c h =
    let v = parse_auto_reply_config-IsValidConfig raw c h in
    settle-IsValidConfig c (trim c.message)
      (parse_days week_keys (Json.obj (schedule_json c.schedule))) v v.trimmed
      (schedule-json c.schedule v.week)
