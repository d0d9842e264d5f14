-- ===== src/Inbox/Edits/Phone.antt =====
-- The link that opens a conversation by phone number (`openByPhone` of
-- src/inbox/conversations.service.ts). Reads hide deleted rows, the unique constraints do not.
use Prim.Native.Char.{code}
use whatsapp_inbox.Shared.{
  String, Bool, true, false, ◌&&◌, ◌||◌, Option, none, some, List, [], ◌∷◌, ltb, leb, str_eq,
  if◌then◌else◌, is_none, or_else, length, utf16,
}
use whatsapp_inbox.Schema.{WhatsappAccountStatus, WhatsappAccount, Contact, Conversation}
use whatsapp_inbox.Db.{find_first, create, upsert}
use whatsapp_inbox.Inbound.{new_conversation}
use whatsapp_inbox.Inbox.Edits.{
  Edited, failed, done, invalid_phone, no_account, contact_exists, Updated,
}

abbrev pub is_active : WhatsappAccount → Bool
is_active a = elim a.status [
  | WhatsappAccountStatus.active ↦ true
  | WhatsappAccountStatus.pending ↦ false
  | WhatsappAccountStatus.token_expired ↦ false
  | WhatsappAccountStatus.disconnected ↦ false
  | WhatsappAccountStatus.suspended ↦ false
]

-- An active account of the tenant before any other.
unfoldable pub account_for : String → List WhatsappAccount → Option WhatsappAccount
unfolding find_first
account_for tenant_id accounts =
    or_else (find_first (λ a. str_eq a.tenant_id tenant_id && is_active a) accounts)
      (find_first (λ (a : WhatsappAccount). str_eq a.tenant_id tenant_id) accounts)

-- `String(rawPhone ?? '').replace(/\D/g, '')`
unfoldable pub phone_digits : String → String
phone_digits String.[] = String.[]
phone_digits (String.◌∷◌ c s) =
    let rest = phone_digits s in
    if leb b'0' (code c) && leb (code c) b'9' then String.◌∷◌ c rest else rest

unfoldable pub bad_phone : String → Bool
bad_phone digits = let n = length (utf16 digits) in ltb n 8 || ltb 15 n

-- A contact with the number, deleted or not: `@@unique([tenantId, waId])`.
unfoldable pub has_number : String → String → Contact → Bool
has_number tenant_id wa_id c = str_eq c.tenant_id tenant_id && str_eq c.wa_id wa_id

unfoldable pub is_reachable : String → String → Contact → Bool
unfolding has_number
is_reachable tenant_id wa_id c = has_number tenant_id wa_id c && is_none c.deleted_at

unfoldable pub phone_contact : String → String → String → Contact
phone_contact id tenant_id digits = record {
  id = id;
  tenant_id = tenant_id;
  wa_id = digits;
  phone_e164 = some (b'+' ∷ utf16 digits);
  profile_name = none;
  notes = none;
  deleted_at = none;
}

-- `@@unique([tenantId, whatsappAccountId, contactId])`
unfoldable pub is_thread : String → String → String → Conversation → Bool
is_thread tenant_id account_id contact_id c =
    str_eq c.tenant_id tenant_id
    && str_eq c.whatsapp_account_id account_id
    && str_eq c.contact_id contact_id

-- The table of contacts with the contact of the number, found or new.
unfoldable pub contact_by_phone :
    String → String → String → List Contact → Edited (List Contact × Contact)
unfolding find_first create is_reachable has_number phone_contact
contact_by_phone id tenant_id digits contacts =
    elim (find_first (is_reachable tenant_id digits) contacts) [
      | some c ↦ done (contacts, c)
      | none ↦
          let row = phone_contact id tenant_id digits in
          elim (create (λ row c. has_number row.tenant_id row.wa_id c) row contacts) [
            | none ↦ failed contact_exists
            | some contacts' ↦ done (contacts', row)
          ]
    ]

-- The tables after, and the conversation and the contact that are answered.
pub record Opening : Type 0 where
  pub contacts : List Contact
  pub conversations : List Conversation
  pub conversation : Conversation
  pub contact : Contact
  pub events : List Updated

unfoldable pub open_thread :
    String → String → String → List Contact × Contact → List Conversation → Opening
unfolding upsert is_thread new_conversation
open_thread id tenant_id account_id (contacts, contact) conversations =
    let (rows, c) =
      upsert (is_thread tenant_id account_id contact.id)
        (new_conversation id tenant_id account_id contact.id) (λ c. c) conversations in
    record {
      contacts = contacts;
      conversations = rows;
      conversation = c;
      contact = contact;
      events = record { tenant_id = tenant_id; conversation = c; tags = none } ∷ [];
    }

-- `contact_id` and `conversation_id` are the ids that the database makes.
unfoldable pub open_by_phone :
    String
    → String
    → String
    → String
    → List WhatsappAccount
    → List Contact
    → List Conversation
    → Edited Opening
unfolding phone_digits bad_phone account_for contact_by_phone open_thread
open_by_phone contact_id conversation_id tenant_id raw accounts contacts conversations =
    let digits = phone_digits raw in
    if bad_phone digits then failed invalid_phone else elim (account_for tenant_id accounts) [
      | none ↦ failed no_account
      | some a ↦ elim (contact_by_phone contact_id tenant_id digits contacts) [
        | failed e ↦ failed e
        | done found ↦ done (open_thread conversation_id tenant_id a.id found conversations)
      ]
    ]
