-- ===== src/AutoReply/Tests.antt =====
-- The automatic answer of a pizzeria that is open on Saturday nights until half past two.
use whatsapp_inbox.Shared.{
  ℕ, String, ◌≡◌, refl, ◌↔◌, true, false, some, [], ◌∷◌, arith, utf16, trim,
}
use whatsapp_inbox.Json.{Json, Items, Fields, get}
use whatsapp_inbox.Numbers.{number}
use whatsapp_inbox.AutoReply.{
  TimeRange, AutoReplyConfig, Problem, Parsed, RangeResult, is_time, to_minutes, covers_own,
  covers_after_midnight, lookup_day, ranges_of, is_open_on, local_parts, is_open_at, DateParts,
  parse_range, parse_ranges, parse_day, parse_days, settle, parse_auto_reply_config,
}
use whatsapp_inbox.AutoReply.Opening.{Covered, is_open_on_iff}
use whatsapp_inbox.AutoReply.Parsing.{
  IsValidConfig, parse_auto_reply_config-IsValidConfig, IsValidConfig-IsValidSchedule,
}
use whatsapp_inbox.AutoReply.Stored.{range_json, config_json, parse_auto_reply_config-config_json}

abbrev night : TimeRange
night = record { from = utf16 "20:00"; to = utf16 "02:30" }

abbrev closed_week : Fields → Json
closed_week saturday = Json.obj (Fields.field "0" Json.null saturday)

abbrev request : Json
request = Json.obj (
    Fields.field "enabled" (Json.bool true) (
      Fields.field "message" (Json.str (utf16 "  Abrimos a las 20  ")) (
        Fields.field "schedule"
          (closed_week
            (Fields.field "6" (Json.arr (Items.cons (range_json night) Items.nil)) Fields.end))
          Fields.end)))

abbrev pizzeria : AutoReplyConfig
pizzeria = record {
  enabled = true;
  message = utf16 "Abrimos a las 20";
  schedule =
      ("0", [])
      ∷ ("1", [])
      ∷ ("2", [])
      ∷ ("3", [])
      ∷ ("4", [])
      ∷ ("5", [])
      ∷ ("6", night ∷ [])
      ∷ [];
}

runs : Unit {0}
unfolding is_time to_minutes ranges_of lookup_day covers_own covers_after_midnight is_open_on
    parse_range parse_ranges parse_day parse_days settle parse_auto_reply_config get local_parts
    is_open_at number trim config_json
runs = tt

accepted : parse_auto_reply_config request ≡ Parsed.ok pizzeria
unfolding runs
accepted = refl

refusals :
    (parse_auto_reply_config Json.null ≡ Parsed.refused (Problem.not_an_object ∷ []))
    × (parse_auto_reply_config (
          Json.obj (
            Fields.field "enabled" (Json.bool true) (
              Fields.field "schedule"
                (closed_week (Fields.field "6" (Json.bool true) Fields.end))
                Fields.end)))
        ≡ Parsed.refused (Problem.empty_message ∷ Problem.day_not_a_list "6" ∷ []))
    × (parse_range "3" (range_json (record { from = utf16 "24:00"; to = utf16 "01:00" }))
        ≡ RangeResult.problem (Problem.bad_times "3" (utf16 "24:00") (utf16 "01:00")))
unfolding runs
refusals = (refl, refl, refl)

-- Saturday at 23:00 and the night after it, but not Sunday at 2:30.
open_hours :
    (is_open_on pizzeria.schedule 6 (some 1380) ≡ true)
    × (is_open_on pizzeria.schedule 0 (some 149) ≡ true)
    × (is_open_on pizzeria.schedule 0 (some 150) ≡ false)
unfolding runs
open_hours = (refl, refl, refl)

abbrev saturday_night : ℕ → String → DateParts
saturday_night date timezone = record {
  weekday = some (utf16 "Sat");
  hour = some (utf16 "24");
  minute = some (utf16 "05");
}

-- An hour of 24 is midnight, the start of the same day.
midnight : is_open_at saturday_night pizzeria.schedule 0 "UTC" ≡ false
unfolding runs
midnight = refl

pizzeria-IsValidConfig : IsValidConfig pizzeria
pizzeria-IsValidConfig = parse_auto_reply_config-IsValidConfig request pizzeria accepted

parse_auto_reply_config-IsValidConfig_example : IsValidConfig pizzeria
parse_auto_reply_config-IsValidConfig_example =
    parse_auto_reply_config-IsValidConfig request pizzeria accepted

is_open_on_iff_example :
    (is_open_on pizzeria.schedule 0 (some 149) ≡ true) ↔ Covered pizzeria.schedule 0 149
is_open_on_iff_example =
    is_open_on_iff pizzeria.schedule 0 149 (omega arith) (omega arith)
      (IsValidConfig-IsValidSchedule pizzeria pizzeria-IsValidConfig)

parse_auto_reply_config-config_json_example :
    parse_auto_reply_config (config_json pizzeria) ≡ Parsed.ok pizzeria
parse_auto_reply_config-config_json_example =
    parse_auto_reply_config-config_json request pizzeria accepted
