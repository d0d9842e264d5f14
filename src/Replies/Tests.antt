-- ===== src/Replies/Tests.antt =====
-- A restaurant that is never open answers once (src/messaging/auto-reply.service.ts).
use whatsapp_inbox.Shared.{
  ℕ, String, ◌≡◌, refl, true, false, none, some, [], ◌∷◌, arith, utf16, trim,
}
use whatsapp_inbox.Json.{Json, Fields, get}
use whatsapp_inbox.Fixtures.{conversation}
use whatsapp_inbox.Numbers.{number}
use whatsapp_inbox.Db.{update_many, count}
use whatsapp_inbox.AutoReply.{
  DateParts, is_open_at, is_open_on, ranges_of, local_parts, parse_auto_reply_config, parse_days,
  parse_day, settle,
}
use whatsapp_inbox.Send.{Content, SendRequest}
use whatsapp_inbox.Replies.{Tenant, claimable, maybe_reply, get_config}
use whatsapp_inbox.Replies.Cooldown.{maybe_reply_once}

abbrev monday : ℕ → String → DateParts
monday date timezone = record {
  weekday = some (utf16 "Mon");
  hour = some (utf16 "10");
  minute = some (utf16 "00");
}

abbrev key : String → ℕ → String
key id now = id

abbrev tenant : Tenant
tenant = record {
  timezone = "UTC";
  auto_reply = some (
      Json.obj (
        Fields.field "enabled" (Json.bool true)
          (Fields.field "message" (Json.str (utf16 "Ya volvemos")) Fields.end)));
}

abbrev reply : SendRequest
reply = record { client_dedup_key = "cv1"; content = Content.text (utf16 "Ya volvemos") true }

runs : Unit {0}
unfolding update_many count is_open_at is_open_on ranges_of local_parts parse_auto_reply_config
    parse_days parse_day settle claimable maybe_reply get_config get trim number
runs = tt

answers :
    (maybe_reply monday key (some tenant) "nova" "cv1" 30_000_000 (conversation ∷ [])).1
    ≡ some reply
unfolding runs
answers = refl

off_by_default : get_config none ≡ record {
  enabled = false;
  message = [];
  schedule = ("0", []) ∷ ("1", []) ∷ ("2", []) ∷ ("3", []) ∷ ("4", []) ∷ ("5", []) ∷ ("6", []) ∷ [];
}
unfolding runs
off_by_default = refl

maybe_reply_once_example :
    let after =
      (maybe_reply monday key (some tenant) "nova" "cv1" 30_000_000 (conversation ∷ [])).0 in
    maybe_reply monday key (some tenant) "nova" "cv1" 40_000_000 after ≡ (after, none)
maybe_reply_once_example =
    maybe_reply_once monday key (some tenant) (some tenant) "nova" "cv1" 30_000_000 40_000_000
      (conversation ∷ []) reply (tt, tt) answers (omega arith)
