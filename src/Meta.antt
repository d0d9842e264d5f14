-- ===== src/Meta.antt =====
-- The payload of a webhook of the WhatsApp Cloud API (src/webhook-worker/meta-webhook.types.ts):
-- the fields that the code reads. Everything is optional, since it is input that is not trusted.
use whatsapp_inbox.Shared.{ℕ, String, Bool, Option, List, Text}
use whatsapp_inbox.Json.{Json}

pub record MetaMedia : Type 0 where
  pub id : Option Text
  pub mime_type : Option Text
  pub sha256 : Option Text
  pub caption : Option Text
  pub filename : Option Text

pub record MetaError : Type 0 where
  pub code : Option ℕ
  pub title : Option Text
  pub message : Option Text
  pub details : Option Text  -- error_data.details

pub record MetaContact : Type 0 where
  pub wa_id : Option String
  pub profile_name : Option Text  -- profile.name

-- `text.body` and the like are one optional field each.
pub record MetaInboundMessage : Type 0 where
  pub from : Option String
  pub id : Option String
  pub timestamp : Option Text
  pub type_ : Option String
  pub text_body : Option Text
  pub image : Option MetaMedia
  pub video : Option MetaMedia
  pub audio : Option MetaMedia
  pub document : Option MetaMedia
  pub sticker : Option MetaMedia
  pub location : Option Json
  pub contacts : Option Json
  pub button_text : Option Text
  pub button_reply_title : Option Text
  pub list_reply_title : Option Text
  pub reaction_message_id : Option String
  pub reaction_emoji : Option Text
  pub system_body : Option Text
  pub context_id : Option String
  pub errors : List MetaError

pub record MetaPricing : Type 0 where
  pub billable : Option Bool
  pub pricing_model : Option Text
  pub category : Option Text
  pub type_ : Option Text

pub record MetaStatus : Type 0 where
  pub id : Option String
  pub status : Option String
  pub timestamp : Option Text
  pub pricing : Option MetaPricing
  pub errors : List MetaError
