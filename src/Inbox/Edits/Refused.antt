-- ===== src/Inbox/Edits/Refused.antt =====
-- When a phone number opens no conversation (`openByPhone` of src/inbox/conversations.service.ts).
use whatsapp_inbox.Shared.{
  ◌<◌, String, ◌≡◌, refl, sym, ◌∙◌, subst, ◌≢◌, ◌↔◌, inl, inr, true, none, List, Memᴰ, Bool-cases,
  Option-cases,
}
use whatsapp_inbox.Schema.{WhatsappAccount, Contact, Conversation}
use whatsapp_inbox.Inbox.Edits.{
  EditError, Edited, failed, invalid_phone, no_account, contact_exists,
}
use whatsapp_inbox.Inbox.Edits.Lookups.{
  digits_count, IsPhone, Numbered, IsPhone-digits, bad_phone-digits, account_for-none,
  account_for-some, contact_by_phone-failed, contact_by_phone-deleted, bad_phone-true,
  bad_phone-long, bad_phone-short,
}
use whatsapp_inbox.Inbox.Edits.Opened.{Edited-cases}
use whatsapp_inbox.Inbox.Edits.Phone.{
  Opening, contact_by_phone, open_by_phone, phone_digits, bad_phone, account_for,
}

-- The reasons for which a number opens nothing.
pub data Refused (tenant_id raw : String) (accounts : List WhatsappAccount)
    (contacts : List Contact) : EditError → Type 0 where
  short : digits_count raw < 8 → Refused tenant_id raw accounts contacts invalid_phone
  long : 15 < digits_count raw → Refused tenant_id raw accounts contacts invalid_phone
  no_own_account :
      IsPhone raw
      → ((a : WhatsappAccount) → Memᴰ a accounts → a.tenant_id ≢ tenant_id)
      → Refused tenant_id raw accounts contacts no_account
  only_deleted :
      IsPhone raw
      → (a : WhatsappAccount) → Memᴰ a accounts
      → a.tenant_id ≡ tenant_id
      → (c : Contact) → Memᴰ c contacts
      → Numbered tenant_id raw c
      → ((d : Contact) → Memᴰ d contacts → Numbered tenant_id raw d → d.deleted_at ≢ none)
      → Refused tenant_id raw accounts contacts contact_exists

refused :
    (i j tenant_id raw : String) (accounts : List WhatsappAccount) (contacts : List Contact)
    (conversations : List Conversation) (w : EditError)
    → Refused tenant_id raw accounts contacts w
    → open_by_phone i j tenant_id raw accounts contacts conversations ≡ failed w
unfolding open_by_phone
refused i j tenant_id raw accounts contacts conversations w (Refused.short h) =
    rw (open_by_phone, bad_phone-short raw h)
refused i j tenant_id raw accounts contacts conversations w (Refused.long h) =
    rw (open_by_phone, bad_phone-long raw h)
refused i j tenant_id raw accounts contacts conversations w (Refused.no_own_account p none_own) =
    elim (Option-cases (account_for tenant_id accounts)) [
      | inl n ↦ rw (open_by_phone, bad_phone-digits raw p, n)
      | inr (a, n) ↦ let (m, e) = account_for-some tenant_id accounts a n in absurd (none_own a m e)
    ]
refused i j tenant_id raw accounts contacts conversations w
      (Refused.only_deleted p a m e c k n gone) =
    elim (Option-cases (account_for tenant_id accounts)) [
      | inl f ↦ absurd (account_for-none tenant_id accounts f a m e)
      | inr (b, f) ↦
          rw (open_by_phone, bad_phone-digits raw p, f)
            (rw (contact_by_phone-deleted i tenant_id raw contacts c k n gone) refl)
    ]

open_by_phone-failed :
    (i j tenant_id raw : String) (accounts : List WhatsappAccount) (contacts : List Contact)
    (conversations : List Conversation) (w : EditError)
    → open_by_phone i j tenant_id raw accounts contacts conversations ≡ failed w
    → Refused tenant_id raw accounts contacts w
unfolding open_by_phone
open_by_phone-failed i j tenant_id raw accounts contacts conversations w h =
    elim (Bool-cases (bad_phone (phone_digits raw))) [
      | inl e ↦
          let bad : failed invalid_phone ≡ failed w = rw (open_by_phone, e) at h in
          subst (Refused tenant_id raw accounts contacts) (failed_same bad) (bad_number e)
      | inr e ↦ elim (Option-cases (account_for tenant_id accounts)) [
        | inl n ↦
            let missing : failed no_account ≡ failed w = rw (open_by_phone, e, n) at h in
            subst (Refused tenant_id raw accounts contacts) (failed_same missing) (
              Refused.no_own_account (IsPhone-digits raw e) (account_for-none tenant_id accounts n))
        | inr (a, n) ↦
            elim (Edited-cases (contact_by_phone i tenant_id (phone_digits raw) contacts)) [
              | inr (found, f) ↦ absurd (cc (rw (open_by_phone, e, n, f) at h))
              | inl (v, f) ↦
                  let same : failed v ≡ failed w = rw (open_by_phone, e, n, f) at h in
                  let (k, (c, m, q), gone) = contact_by_phone-failed i tenant_id raw contacts v f in
                  let (b, own) = account_for-some tenant_id accounts a n in
                  subst (Refused tenant_id raw accounts contacts) (sym k ∙ failed_same same)
                    (Refused.only_deleted (IsPhone-digits raw e) a b own c m q gone)
            ]
      ]
    ]
  where
    failed_same : {v w : EditError} → ◌≡◌ {A = Edited Opening} (failed v) (failed w) → v ≡ w
    failed_same e = cc

    bad_number :
        bad_phone (phone_digits raw) ≡ true → Refused tenant_id raw accounts contacts invalid_phone
    bad_number e = elim (bad_phone-true raw e) [ inl l ↦ Refused.short l | inr l ↦ Refused.long l ]

-- A phone number opens no conversation exactly for these reasons, each with its error: it has less
-- than eight digits or more than fifteen; or it has not, and the tenant has no account; or the tenant
-- has one, and contacts of the tenant have the number, all of them deleted, which the unique
-- constraint sees and the search does not. For any other number a conversation is opened.
pub open_by_phone-Refused :
    (i j tenant_id raw : String) (accounts : List WhatsappAccount) (contacts : List Contact)
    (conversations : List Conversation) (w : EditError)
    → (open_by_phone i j tenant_id raw accounts contacts conversations ≡ failed w)
      ↔ Refused tenant_id raw accounts contacts w
open_by_phone-Refused i j tenant_id raw accounts contacts conversations w = (
  open_by_phone-failed i j tenant_id raw accounts contacts conversations w,
  refused i j tenant_id raw accounts contacts conversations w,
)
