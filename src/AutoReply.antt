-- ===== src/AutoReply.antt =====
-- The automatic answer outside opening hours: its configuration and the question whether the
-- restaurant is open (src/messaging/auto-reply.ts).
pub mod Times
pub mod Opening
pub mod Parsing
pub mod Stored
mod Tests
use whatsapp_inbox.Shared.{
  ℕ, zero, suc, ◌+◌, ◌*◌, ◌%◌, String, Bool, true, false, not, ◌&&◌, ◌||◌, Option, none, some, List,
  [], ◌∷◌, ◌++◌, ltb, leb, ◌==◌, str_eq, if◌then◌else◌, get_or, length, any, Text, utf16, is_nil,
  text_eq, trim,
}
use whatsapp_inbox.Json.{Json, items, entries, get, field_of}
use whatsapp_inbox.Numbers.{is_digit, number}

pub record TimeRange : Type 0 where
  pub from : Text
  pub to : Text

-- The keys are "0" (Sunday) to "6" (Saturday).
abbrev pub WeekSchedule : Type 0
WeekSchedule = List (String × List TimeRange)

pub record AutoReplyConfig : Type 0 where
  pub enabled : Bool
  pub message : Text
  pub schedule : WeekSchedule

abbrev pub max_ranges_per_day : ℕ
max_ranges_per_day = 2

abbrev pub max_message_length : ℕ
max_message_length = 1000

abbrev pub auto_reply_cooldown_ms : ℕ
auto_reply_cooldown_ms = 6 * 60 * 60 * 1000

-- `TIME_RE`: two digits up to 23, a colon, two digits up to 59.
unfoldable pub is_time : Text → Bool
is_time (a ∷ b ∷ c ∷ d ∷ e ∷ []) =
    (((a == b'0' || a == b'1') && is_digit b) || (a == b'2' && (leb b'0' b && leb b b'3')))
    && (c == b':' && ((leb b'0' d && leb d b'5') && is_digit e))
is_time _ = false

-- The pieces of `split(':')`: the first, and all others.
split_colon : Text → Text × List Text
split_colon [] = ([], [])
split_colon (c ∷ cs) =
    let (head, rest) = split_colon cs in if c == b':' then ([], head ∷ rest) else (c ∷ head, rest)

abbrev number_of_first : List Text → Option ℕ
number_of_first [] = none
number_of_first (s ∷ _) = number s

abbrev hours_minutes : Option ℕ → Option ℕ → Option ℕ
hours_minutes (some h) (some m) = some (h * 60 + m)
hours_minutes _ _ = none

-- `none` is NaN.
unfoldable pub to_minutes : Text → Option ℕ
unfolding split_colon number
to_minutes hhmm =
    let (h, rest) = split_colon hhmm in hours_minutes (number h) (number_of_first rest)

-- Comparisons are false where a side is NaN.
abbrev pub lt_num : Option ℕ → Option ℕ → Bool
lt_num (some a) (some b) = ltb a b
lt_num _ _ = false

abbrev pub le_num : Option ℕ → Option ℕ → Bool
le_num (some a) (some b) = leb a b
le_num _ _ = false

-- `String(day)`
abbrev pub day_key : ℕ → String
day_key zero = "0"
day_key (suc zero) = "1"
day_key (suc (suc zero)) = "2"
day_key (suc (suc (suc zero))) = "3"
day_key (suc (suc (suc (suc zero)))) = "4"
day_key (suc (suc (suc (suc (suc zero))))) = "5"
day_key (suc (suc (suc (suc (suc (suc zero)))))) = "6"
day_key _ = "7"

lookup_day : String → WeekSchedule → List TimeRange
lookup_day key [] = []
lookup_day key ((k, ranges) ∷ rest) = if str_eq k key then ranges else lookup_day key rest

-- `schedule[String(day)] ?? []`
unfoldable pub ranges_of : WeekSchedule → ℕ → List TimeRange
unfolding lookup_day
ranges_of schedule day = lookup_day (day_key day) schedule

-- A range of the day itself covers the minute.
unfoldable pub covers_own : Option ℕ → TimeRange → Bool
covers_own minutes range =
    let from = to_minutes range.from in
    let to = to_minutes range.to in
    if lt_num from to then le_num from minutes && lt_num minutes to else le_num from minutes

-- A range of the day before reaches past midnight to the minute.
unfoldable pub covers_after_midnight : Option ℕ → TimeRange → Bool
covers_after_midnight minutes range =
    let to = to_minutes range.to in lt_num to (to_minutes range.from) && lt_num minutes to

unfoldable pub is_open_on : WeekSchedule → ℕ → Option ℕ → Bool
unfolding ranges_of covers_own covers_after_midnight
is_open_on schedule weekday minutes =
    any (covers_own minutes) (ranges_of schedule weekday)
    || any (covers_after_midnight minutes) (ranges_of schedule ((weekday + 6) % 7))

-- The parts that `Intl.DateTimeFormat` gives for an instant in a timezone.
pub record DateParts : Type 0 where
  pub weekday : Option Text
  pub hour : Option Text
  pub minute : Option Text

abbrev weekday_index : Text → ℕ
weekday_index name =
    if text_eq name (utf16 "Mon")
    then 1
    else if text_eq name (utf16 "Tue")
    then 2
    else if text_eq name (utf16 "Wed")
    then 3
    else if text_eq name (utf16 "Thu")
    then 4
    else if text_eq name (utf16 "Fri")
    then 5
    else if text_eq name (utf16 "Sat")
    then 6
    else 0

abbrev mod_24 : Option ℕ → Option ℕ
mod_24 none = none
mod_24 (some h) = some (h % 24)

-- The weekday (0 is Sunday) and the minute of the day; an unknown weekday counts as Sunday.
unfoldable pub local_parts : DateParts → ℕ × Option ℕ
unfolding number
local_parts parts = (
  weekday_index (get_or parts.weekday []),
  hours_minutes (mod_24 (number (get_or parts.hour []))) (number (get_or parts.minute [])),
)

-- `format` is `Intl.DateTimeFormat`: an instant and a timezone to the parts.
unfoldable pub is_open_at : (ℕ → String → DateParts) → WeekSchedule → ℕ → String → Bool
unfolding local_parts is_open_on
is_open_at format schedule date timezone =
    let (weekday, minutes) = local_parts (format date timezone) in
    is_open_on schedule weekday minutes

-- Why a configuration is refused, with the day and the texts that the message cites.
pub data Problem : Type 0 where
  not_an_object empty_message message_too_long : Problem
  day_not_a_list too_many_ranges range_without_times : String → Problem
  bad_times lasts_nothing : String → Text → Text → Problem

pub data Parsed : Type 0 where
  ok : AutoReplyConfig → Parsed
  refused : List Problem → Parsed

pub data RangeResult : Type 0 where
  range : TimeRange → RangeResult
  problem : Problem → RangeResult

times_of : String → Json → Json → RangeResult
times_of key (Json.str from) (Json.str to) =
    if not (is_time from) || not (is_time to)
    then problem (bad_times key from to)
    else if text_eq from to
    then problem (lasts_nothing key from to)
    else range (record { from = from; to = to })
times_of key _ _ = problem (range_without_times key)

unfoldable pub parse_range : String → Json → RangeResult
unfolding times_of is_time get
parse_range key raw = times_of key (field_of "from" raw) (field_of "to" raw)

abbrev add_range : RangeResult → List TimeRange × List Problem → List TimeRange × List Problem
add_range (range r) (ranges, problems) = (r ∷ ranges, problems)
add_range (problem p) (ranges, problems) = (ranges, p ∷ problems)

unfoldable pub parse_ranges : String → List Json → List TimeRange × List Problem
parse_ranges key [] = ([], [])
parse_ranges key (raw ∷ rest) = add_range (parse_range key raw) (parse_ranges key rest)

abbrev with_key : String → List TimeRange × List Problem → WeekSchedule × List Problem
with_key key (ranges, problems) = ((key, ranges) ∷ [], problems)

-- The entry of the day, none where the loop goes on without writing it.
unfoldable pub parse_day : String → Json → WeekSchedule × List Problem
unfolding parse_ranges
parse_day key Json.undefined = ((key, []) ∷ [], [])
parse_day key Json.null = ((key, []) ∷ [], [])
parse_day key (Json.arr raws) =
    if ltb max_ranges_per_day (length (items raws))
    then ([], too_many_ranges key ∷ [])
    else with_key key (parse_ranges key (items raws))
parse_day key _ = ([], day_not_a_list key ∷ [])

unfoldable pub parse_days : List String → Json → WeekSchedule × List Problem
unfolding get
parse_days [] raw = ([], [])
parse_days (key ∷ keys) raw =
    let (day, problems) = parse_day key (field_of key raw) in
    let (days, more) = parse_days keys raw in (day ++ days, problems ++ more)

abbrev pub week_keys : List String
week_keys = "0" ∷ "1" ∷ "2" ∷ "3" ∷ "4" ∷ "5" ∷ "6" ∷ []

abbrev pub is_true : Json → Bool
is_true (Json.bool b) = b
is_true _ = false

abbrev pub text_or_empty : Json → Text
text_or_empty (Json.str s) = trim s
text_or_empty _ = []

abbrev pub when : Bool → Problem → List Problem
when true p = p ∷ []
when false p = []

unfoldable pub settle : AutoReplyConfig → List Problem → Parsed
settle config [] = ok config
settle config (p ∷ ps) = refused (p ∷ ps)

unfoldable pub parse_auto_reply_config : Json → Parsed
unfolding parse_days settle get
parse_auto_reply_config (Json.obj fs) =
    let enabled = is_true (get "enabled" (entries fs)) in
    let message = text_or_empty (get "message" (entries fs)) in
    let (schedule, problems) = parse_days week_keys (get "schedule" (entries fs)) in
    settle (record { enabled = enabled; message = message; schedule = schedule })
      (when (enabled && is_nil message) empty_message
        ++ (when (ltb max_message_length (length message)) message_too_long ++ problems))
parse_auto_reply_config _ = refused (not_an_object ∷ [])
