-- ===== src/Replies.antt =====
-- The service of the automatic answer (src/messaging/auto-reply.service.ts).
pub mod Cooldown
mod Tests
use whatsapp_inbox.Shared.{
  ℕ, ◌-◌, String, Bool, true, false, not, ◌&&◌, Option, none, some, List, [], ltb, ◌==◌, str_eq,
  if◌then◌else◌, get_or, is_nil,
}
use whatsapp_inbox.Json.{Json, Fields}
use whatsapp_inbox.Schema.{Conversation}
use whatsapp_inbox.Db.{update_many, count}
use whatsapp_inbox.AutoReply.{
  AutoReplyConfig, Parsed, DateParts, auto_reply_cooldown_ms, is_open_at, parse_auto_reply_config,
}
use whatsapp_inbox.Send.{Content, SendRequest}

-- The columns of a tenant that are read here.
pub record Tenant : Type 0 where
  pub timezone : String
  pub auto_reply : Option Json

abbrev pub empty_config : AutoReplyConfig
empty_config = record { enabled = false; message = []; schedule = [] }

abbrev config_or_empty : Parsed → AutoReplyConfig
config_or_empty (Parsed.ok config) = config
config_or_empty (Parsed.refused problems) = empty_config

abbrev stored : Option Tenant → Json
stored none = Json.obj Fields.end
stored (some t) = get_or t.auto_reply (Json.obj Fields.end)

unfoldable pub get_config : Option Tenant → AutoReplyConfig
unfolding parse_auto_reply_config
get_config tenant = config_or_empty (parse_auto_reply_config (stored tenant))

-- The cooldown is free: never answered, or before `now` less six hours.
abbrev pub before : Option ℕ → ℕ → Bool
before none floor = true
before (some t) floor = ltb t floor

unfoldable pub claimable : String → String → ℕ → Conversation → Bool
claimable tenant_id id now c =
    (str_eq c.id id && str_eq c.tenant_id tenant_id)
    && before c.last_auto_reply_at (now - auto_reply_cooldown_ms)

abbrev answers : Parsed → Option AutoReplyConfig
answers (Parsed.ok config) =
    if config.enabled && not (is_nil config.message) then some config else none
answers (Parsed.refused problems) = none

abbrev pub configured : Option Tenant → Option (AutoReplyConfig × String)
unfolding parse_auto_reply_config
configured none = none
configured (some t) = elim t.auto_reply [
  | none ↦ none
  | some raw ↦ elim (answers (parse_auto_reply_config raw)) [
    | none ↦ none
    | some config ↦ some (config, t.timezone)
  ]
]

-- The conversations after the claim, and the request that is sent, if any. `format` is
-- `Intl.DateTimeFormat`, `key` makes the text of the request's key.
unfoldable pub maybe_reply :
    (ℕ → String → DateParts)
    → (String → ℕ → String)
    → Option Tenant
    → String
    → String
    → ℕ
    → List Conversation
    → List Conversation × Option SendRequest
unfolding configured is_open_at update_many count claimable
maybe_reply format key tenant tenant_id conversation_id now conversations =
    elim (configured tenant) [
      | none ↦ (conversations, none)
      | some (config, timezone) ↦
          let free = claimable tenant_id conversation_id now in
          let claimed =
            update_many free (λ c. record c { last_auto_reply_at = some now }) conversations in
          if is_open_at format config.schedule now timezone
          then (conversations, none)
          else if count free conversations == 0
          then (claimed, none)
          else (
            claimed,
            some (record {
              client_dedup_key = key conversation_id now;
              content = Content.text config.message true;
            }),
          )
    ]
