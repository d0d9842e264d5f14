-- ===== src/Web/Composer.antt =====
-- The states of a message that is being sent (web/src/lib/composer.ts). A fresh key is the
-- argument `fresh`.
use whatsapp_inbox.Shared.{ℕ, ◌+◌, String, Bool, ltb}

pub data OutboxStatus : Type 0 where
  sending failed_network failed_domain : OutboxStatus

pub record OutboxEntry : Type 0 where
  pub client_dedup_key : String
  pub attempts : ℕ
  pub status : OutboxStatus

unfoldable pub start_send : String → OutboxEntry
start_send fresh = record { client_dedup_key = fresh; attempts = 1; status = sending }

unfoldable pub on_network_error : OutboxEntry → OutboxEntry
on_network_error entry = record entry { status = failed_network }

unfoldable pub should_auto_retry : OutboxEntry → Bool
should_auto_retry entry = ltb entry.attempts 2

unfoldable pub next_network_attempt : OutboxEntry → OutboxEntry
next_network_attempt entry = record {
  client_dedup_key = entry.client_dedup_key;
  attempts = entry.attempts + 1;
  status = sending;
}

unfoldable pub on_domain_failure : OutboxEntry → OutboxEntry
on_domain_failure entry = record entry { status = failed_domain }

unfoldable pub retry_of : OutboxStatus → OutboxEntry → String → OutboxEntry
retry_of failed_domain entry fresh = record {
  client_dedup_key = fresh;
  attempts = 1;
  status = sending;
}
retry_of sending entry fresh = record {
  client_dedup_key = entry.client_dedup_key;
  attempts = entry.attempts + 1;
  status = sending;
}
retry_of failed_network entry fresh = record {
  client_dedup_key = entry.client_dedup_key;
  attempts = entry.attempts + 1;
  status = sending;
}

unfoldable pub manual_retry : OutboxEntry → String → OutboxEntry
unfolding retry_of
manual_retry entry fresh = retry_of entry.status entry fresh
