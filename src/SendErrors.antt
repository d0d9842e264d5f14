-- ===== src/SendErrors.antt =====
-- What the errors of Meta mean to the inbox (src/messaging/meta-send-errors.ts).
use whatsapp_inbox.Shared.{ℕ, Bool, false, ◌||◌, Option, none, some, ◌==◌, if◌then◌else◌, Text}

-- `GraphApiError` of src/whatsapp/graph-api.client.ts, the fields that are read here.
pub record GraphApiError : Type 0 where
  pub code : Option ℕ
  pub http_status : ℕ
  pub meta_message : Option Text
  pub details : Option Text

pub data SendErrorCode : Type 0 where
  window_expired recipient_unreachable rate_limited account_error send_failed : SendErrorCode

-- The text for the operator, by what it says.
pub data UserMessage : Type 0 where
  window_closed not_delivered limited reconnect : UserMessage
  rejected : Option ℕ → UserMessage
  not_contacted : UserMessage

pub record MappedSendError : Type 0 where
  pub domain_code : SendErrorCode
  pub http_status : ℕ
  pub user_message : UserMessage
  pub meta_code : Option ℕ
  pub meta_title : Option Text
  pub meta_detail : Option Text

abbrev pub meta_error_window_expired : ℕ
meta_error_window_expired = 131047

abbrev pub meta_error_recipient_unreachable : ℕ
meta_error_recipient_unreachable = 131026

abbrev pub meta_error_rate_limited : ℕ
meta_error_rate_limited = 130429

abbrev pub meta_error_invalid_token : ℕ
meta_error_invalid_token = 190

abbrev pub code_is : Option ℕ → ℕ → Bool
code_is none n = false
code_is (some c) n = c == n

mapped : GraphApiError → SendErrorCode → ℕ → UserMessage → MappedSendError
mapped error code http_status message = record {
  domain_code = code;
  http_status = http_status;
  user_message = message;
  meta_code = error.code;
  meta_title = error.meta_message;
  meta_detail = error.details;
}

-- A code 0 is not cited.
abbrev cited : Option ℕ → Option ℕ
cited none = none
cited (some c) = if c == 0 then none else some c

unfoldable pub map_meta_send_error : GraphApiError → MappedSendError
unfolding mapped
map_meta_send_error error =
    if code_is error.code meta_error_window_expired
    then mapped error SendErrorCode.window_expired 422 UserMessage.window_closed
    else if code_is error.code meta_error_recipient_unreachable
    then mapped error SendErrorCode.recipient_unreachable 422 UserMessage.not_delivered
    else if code_is error.code meta_error_rate_limited
    then mapped error SendErrorCode.rate_limited 429 UserMessage.limited
    else if error.http_status == 401 || code_is error.code meta_error_invalid_token
    then mapped error SendErrorCode.account_error 502 UserMessage.reconnect
    else mapped error SendErrorCode.send_failed 502 (UserMessage.rejected (cited error.code))

-- `detail` is the error's message.
unfoldable pub map_transport_send_error : Text → MappedSendError
map_transport_send_error detail = record {
  domain_code = SendErrorCode.send_failed;
  http_status = 502;
  user_message = UserMessage.not_contacted;
  meta_code = none;
  meta_title = none;
  meta_detail = some detail;
}
