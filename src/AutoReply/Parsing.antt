-- ===== src/AutoReply/Parsing.antt =====
-- Configurations that the parser accepts (`parseAutoReplyConfig` of src/messaging/auto-reply.ts).
use whatsapp_inbox.Shared.{
  suc, ◌≤◌, String, ◌≡◌, refl, sym, ap, ◌∙◌, subst, ◌≢◌, inl, inr, Bool, true, false, ◌&&◌, List,
  [], ◌∷◌, ◌++◌, arith, ltb, str_eq, if◌then◌else◌, Bool-cases, length, Text, is_nil, trim,
  trim_idem,
}
use whatsapp_inbox.Json.{Json, items, entries, get, field_of}
use whatsapp_inbox.Db.Rows.{All}
use whatsapp_inbox.AutoReply.{
  TimeRange, WeekSchedule, AutoReplyConfig, ranges_of, max_ranges_per_day, max_message_length,
  Problem, Parsed, RangeResult, add_range, with_key, lookup_day, is_true, text_or_empty, when,
  settle, parse_range, parse_ranges, parse_day, parse_days, week_keys, parse_auto_reply_config,
}
use whatsapp_inbox.AutoReply.Opening.{IsValidRange, IsValidSchedule}

abbrev pub IsValidDay : List TimeRange → Type 0
IsValidDay ranges = All IsValidRange ranges × (length ranges ≤ max_ranges_per_day)

-- One entry for each key, in order, each a valid day.
abbrev pub IsWeek : List String → WeekSchedule → Type 0
IsWeek [] [] = Unit
IsWeek (key ∷ keys) ((k, ranges) ∷ days) = (k ≡ key) × IsValidDay ranges × IsWeek keys days
IsWeek [] (d ∷ ds) = ⊥
IsWeek (key ∷ keys) [] = ⊥

pub record IsValidConfig (c : AutoReplyConfig) : Type 0 where
  pub answers : c.enabled ≡ true → c.message ≢ []
  pub short : length c.message ≤ max_message_length
  pub trimmed : trim c.message ≡ c.message
  pub week : IsWeek week_keys c.schedule

parse_range-IsValidRange :
    (key : String) (raw : Json) (r : TimeRange)
    → parse_range key raw ≡ RangeResult.range r
    → IsValidRange r
unfolding parse_range
parse_range-IsValidRange key raw r h = ground arith

add_range-nil :
    (x : RangeResult) (acc : List TimeRange × List Problem) (rs : List TimeRange)
    → add_range x acc ≡ (rs, [])
    → (r : TimeRange) × (x ≡ RangeResult.range r) × (rs ≡ r ∷ acc.0) × (acc.1 ≡ [])
add_range-nil (RangeResult.range r) (ranges, problems) rs h = (r, refl, ground arith, ground arith)
add_range-nil (RangeResult.problem p) (ranges, problems) rs h = absurd (ground arith)

parse_ranges-All :
    (key : String) (raws : List Json) (rs : List TimeRange)
    → parse_ranges key raws ≡ (rs, [])
    → All IsValidRange rs × (length rs ≡ length raws)
unfolding parse_ranges
parse_ranges-All key [] rs h =
    let e : [] ≡ rs = ap (λ (x : List TimeRange × List Problem). x.0) h in
    subst (λ x. All IsValidRange x × (length x ≡ 0)) e (tt, refl)
parse_ranges-All key (raw ∷ raws) rs h =
    let (r, read, cons, none_left) =
      add_range-nil (parse_range key raw) (parse_ranges key raws) rs h in
    let (valid, len) =
      parse_ranges-All key raws (parse_ranges key raws).0
        (λ i. ((parse_ranges key raws).0, none_left i)) in
    subst (λ x. All IsValidRange x × (length x ≡ suc (length raws))) (sym cons)
      ((parse_range-IsValidRange key raw r read, valid), omega (arith, len))

parse_day-arr :
    (key : String) (raws : List Json) (day : WeekSchedule)
    → (if ltb max_ranges_per_day (length raws)
        then ([], Problem.too_many_ranges key ∷ [])
        else with_key key (parse_ranges key raws))
      ≡ (day, [])
    → (rs : List TimeRange) × (day ≡ (key, rs) ∷ []) × IsValidDay rs
parse_day-arr key raws day h = elim (Bool-cases (ltb max_ranges_per_day (length raws))) [
  | inl e ↦ absurd (ground arith)
  | inr e ↦
      let k : with_key key (parse_ranges key raws) ≡ (day, []) = rw e at h in
      let none_left : (parse_ranges key raws).1 ≡ [] =
        ap (λ (x : WeekSchedule × List Problem). x.1) k in
      let (valid, len) =
        parse_ranges-All key raws (parse_ranges key raws).0
          (λ i. ((parse_ranges key raws).0, none_left i)) in
      (
        (parse_ranges key raws).0,
        sym (ap (λ (x : WeekSchedule × List Problem). x.0) k),
        (valid, ground (arith, len)),
      )
]

parse_day-IsValidDay :
    (key : String) (raw : Json) (day : WeekSchedule)
    → parse_day key raw ≡ (day, [])
    → (rs : List TimeRange) × (day ≡ (key, rs) ∷ []) × IsValidDay rs
unfolding parse_day
parse_day-IsValidDay key Json.undefined day h = ([], ground arith, (tt, omega arith))
parse_day-IsValidDay key Json.null day h = ([], ground arith, (tt, omega arith))
parse_day-IsValidDay key (Json.arr raws) day h = parse_day-arr key (items raws) day h
parse_day-IsValidDay key _ day h = absurd (ground arith)

pub append-nil_left {ℓ} : {A : Type ℓ} (xs ys : List A) → xs ++ ys ≡ [] → (xs ≡ []) × (ys ≡ [])
append-nil_left [] ys h = (refl, h)
append-nil_left (x ∷ xs) ys h = absurd (ground arith)

pub parse_days-IsWeek :
    (keys : List String) (raw : Json) (days : WeekSchedule)
    → parse_days keys raw ≡ (days, [])
    → IsWeek keys days
unfolding parse_days
parse_days-IsWeek [] raw days h =
    let e : [] ≡ days = ap (λ (x : WeekSchedule × List Problem). x.0) h in subst (IsWeek []) e tt
parse_days-IsWeek (key ∷ keys) raw days h =
    let day = parse_day key (field_of key raw) in
    let more = parse_days keys raw in
    let e : day.0 ++ more.0 ≡ days = ap (λ (x : WeekSchedule × List Problem). x.0) h in
    let (none_here, none_later) =
      append-nil_left day.1 more.1 (ap (λ (x : WeekSchedule × List Problem). x.1) h) in
    let (rs, entry, valid) =
      parse_day-IsValidDay key (field_of key raw) day.0 (λ i. (day.0, none_here i)) in
    let rest = parse_days-IsWeek keys raw more.0 (λ i. (more.0, none_later i)) in
    subst (IsWeek (key ∷ keys)) (sym (ap (λ x. x ++ more.0) entry) ∙ e) (refl, valid, rest)

settle-ok :
    (config c : AutoReplyConfig) (problems : List Problem)
    → settle config problems ≡ Parsed.ok c
    → (config ≡ c) × (problems ≡ [])
unfolding settle
settle-ok config c [] h = (ground arith, refl)
settle-ok config c (p ∷ ps) h = absurd (ground arith)

when-nil : (b : Bool) (p : Problem) → when b p ≡ [] → b ≡ false
when-nil true p h = absurd (ground arith)
when-nil false p h = refl

text_or_empty-trimmed : (v : Json) → trim (text_or_empty v) ≡ text_or_empty v
unfolding trim
text_or_empty-trimmed (Json.str s) = trim_idem s
text_or_empty-trimmed Json.null = refl
text_or_empty-trimmed _ = refl

not_nil : (enabled : Bool) (s : Text) → (enabled && is_nil s) ≡ false → enabled ≡ true → s ≢ []
not_nil enabled s h e n = ground arith

-- A configuration that is accepted has a message if it is enabled, of at most 1000 code units and
-- with no white space around it, and for each day of the week, in order, at most two ranges, each
-- between two different times.
pub parse_auto_reply_config-IsValidConfig :
    (raw : Json) (c : AutoReplyConfig) → parse_auto_reply_config raw ≡ Parsed.ok c → IsValidConfig c
unfolding parse_auto_reply_config
parse_auto_reply_config-IsValidConfig (Json.obj fs) c h =
    let enabled = is_true (get "enabled" (entries fs)) in
    let message = text_or_empty (get "message" (entries fs)) in
    let days = parse_days week_keys (get "schedule" (entries fs)) in
    let config : AutoReplyConfig = record {
      enabled = enabled;
      message = message;
      schedule = days.0;
    } in
    let (same, none_left) = settle-ok config c _ h in
    let (answers, rest) =
      append-nil_left (when (enabled && is_nil message) Problem.empty_message) _ none_left in
    let (short, no_days) =
      append-nil_left (when (ltb max_message_length (length message)) Problem.message_too_long) _
        rest in
    let short' =
      when-nil (ltb max_message_length (length message)) Problem.message_too_long short in
    subst IsValidConfig same (record {
      answers =
          not_nil enabled message
            (when-nil (enabled && is_nil message) Problem.empty_message answers);
      short = ground arith;
      trimmed = text_or_empty-trimmed (get "message" (entries fs));
      week =
          parse_days-IsWeek week_keys (get "schedule" (entries fs)) days.0
            (λ i. (days.0, no_days i));
    })
parse_auto_reply_config-IsValidConfig _ c h = absurd (ground arith)

lookup_day-All :
    (keys : List String) (days : WeekSchedule) (key : String)
    → IsWeek keys days
    → All IsValidRange (lookup_day key days)
unfolding lookup_day
lookup_day-All [] [] key h = tt
lookup_day-All (k ∷ keys) ((j, ranges) ∷ days) key (e, v, h) = elim (Bool-cases (str_eq j key)) [
  | inl s ↦ rw s v.0
  | inr s ↦ rw s (lookup_day-All keys days key h)
]
lookup_day-All [] (d ∷ days) key h = elim h [ ]
lookup_day-All (k ∷ keys) [] key h = elim h [ ]

-- So its schedule is one for which being open is characterised.
pub IsValidConfig-IsValidSchedule :
    (c : AutoReplyConfig) → IsValidConfig c → IsValidSchedule c.schedule
unfolding ranges_of
IsValidConfig-IsValidSchedule c v day h = lookup_day-All week_keys c.schedule _ v.week
