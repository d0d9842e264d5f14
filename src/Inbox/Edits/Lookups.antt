-- ===== src/Inbox/Edits/Lookups.antt =====
-- The number, the account and the contact that `openByPhone` of src/inbox/conversations.service.ts
-- looks up.
use whatsapp_inbox.Shared.{
  ℕ, ◌≤◌, ◌<◌, String, ◌≡◌, ◌∙◌, ◌≢◌, ◌⊎◌, inl, inr, Bool, true, false, ◌&&◌, none, some, List,
  Memᴰ, arith, eq_iff, ltb, str_eq, Bool-cases, ltb→lt, and_true, Option-cases, length, any,
  any→Memᴰ, Memᴰ→any, utf16,
}
use whatsapp_inbox.Schema.{WhatsappAccount, Contact}
use whatsapp_inbox.Db.{find_first, create}
use whatsapp_inbox.Db.Laws.{find_first_sound}
use whatsapp_inbox.Db.Rows.{find_first-Memᴰ}
use whatsapp_inbox.Db.Kept.{find_first-none}
use whatsapp_inbox.Inbox.Edits.{EditError, failed, contact_exists}
use whatsapp_inbox.Inbox.Edits.Phone.{
  is_active, has_number, is_reachable, phone_contact, contact_by_phone, phone_digits, bad_phone,
  account_for,
}

abbrev pub digits_count : String → ℕ
digits_count raw = length (utf16 (phone_digits raw))

abbrev pub IsPhone : String → Type 0
IsPhone raw = (8 ≤ digits_count raw) × (digits_count raw ≤ 15)

-- The contact has the number, whether it is deleted or not.
abbrev pub Numbered : String → String → Contact → Type 0
Numbered tenant_id raw c = (c.tenant_id ≡ tenant_id) × (c.wa_id ≡ phone_digits raw)

pub IsPhone-digits : (raw : String) → bad_phone (phone_digits raw) ≡ false → IsPhone raw
unfolding bad_phone
IsPhone-digits raw h = (ground arith, ground arith)

pub bad_phone-digits : (raw : String) → IsPhone raw → bad_phone (phone_digits raw) ≡ false
unfolding bad_phone
bad_phone-digits raw (l, u) = ground arith

pub account_for-none :
    (tenant_id : String) (accounts : List WhatsappAccount)
    → account_for tenant_id accounts ≡ none
    → (a : WhatsappAccount) → Memᴰ a accounts
    → a.tenant_id ≢ tenant_id
unfolding account_for
account_for-none tenant_id accounts h a m e =
    elim (Option-cases (find_first (λ a. str_eq a.tenant_id tenant_id && is_active a) accounts)) [
      | inl n ↦
          let k =
            find_first-none (λ (a : WhatsappAccount). str_eq a.tenant_id tenant_id) accounts
              (rw n at h) a m in
          absurd (cc ((eq_iff a.tenant_id tenant_id).1 e, k))
      | inr (b, n) ↦ absurd (cc (rw n at h))
    ]

pub account_for-some :
    (tenant_id : String) (accounts : List WhatsappAccount) (a : WhatsappAccount)
    → account_for tenant_id accounts ≡ some a
    → Memᴰ a accounts × (a.tenant_id ≡ tenant_id)
unfolding account_for
account_for-some tenant_id accounts a h =
    let active : WhatsappAccount → Bool = λ a. str_eq a.tenant_id tenant_id && is_active a in
    let own : WhatsappAccount → Bool = λ a. str_eq a.tenant_id tenant_id in
    elim (Option-cases (find_first active accounts)) [
      | inl n ↦
          let k : find_first own accounts ≡ some a = rw n at h in
          (
            find_first-Memᴰ own accounts k,
            (eq_iff a.tenant_id tenant_id).0 (find_first_sound own accounts k),
          )
      | inr (b, n) ↦
          let same : some b ≡ some a = rw n at h in
          let k : find_first active accounts ≡ some a = n ∙ same in
          (
            find_first-Memᴰ active accounts k,
            (eq_iff a.tenant_id tenant_id).0
                (and_true {a = str_eq a.tenant_id tenant_id}
                  (find_first_sound active accounts k)).0,
          )
    ]

Numbered-test :
    (tenant_id raw : String) (c : Contact)
    → has_number tenant_id (phone_digits raw) c ≡ true
    → Numbered tenant_id raw c
unfolding has_number
Numbered-test tenant_id raw c h =
    let (a, b) = and_true {a = str_eq c.tenant_id tenant_id} h in
    ((eq_iff c.tenant_id tenant_id).0 a, (eq_iff c.wa_id (phone_digits raw)).0 b)

has_number-Numbered :
    (tenant_id raw : String) (c : Contact)
    → Numbered tenant_id raw c
    → has_number tenant_id (phone_digits raw) c ≡ true
unfolding has_number
has_number-Numbered tenant_id raw c (a, b) =
    rw ((eq_iff c.tenant_id tenant_id).1 a, (eq_iff c.wa_id (phone_digits raw)).1 b)

is_reachable-none :
    (tenant_id raw : String) (c : Contact)
    → Numbered tenant_id raw c
    → c.deleted_at ≡ none
    → is_reachable tenant_id (phone_digits raw) c ≡ true
unfolding is_reachable
is_reachable-none tenant_id raw c n d = rw (has_number-Numbered tenant_id raw c n, d)

is_reachable-Numbered :
    (tenant_id raw : String) (c : Contact)
    → is_reachable tenant_id (phone_digits raw) c ≡ true
    → Numbered tenant_id raw c × (c.deleted_at ≡ none)
unfolding is_reachable
is_reachable-Numbered tenant_id raw c h =
    let (a, b) = and_true {a = has_number tenant_id (phone_digits raw) c} h in
    (Numbered-test tenant_id raw c a, ground arith)

-- A contact of the number that is there, or none that can be written.
pub contact_by_phone-failed :
    (id tenant_id raw : String) (contacts : List Contact) (w : EditError)
    → contact_by_phone id tenant_id (phone_digits raw) contacts ≡ failed w
    → (w ≡ contact_exists)
      × ((c : Contact) × Memᴰ c contacts × Numbered tenant_id raw c)
      × ((d : Contact) → Memᴰ d contacts → Numbered tenant_id raw d → d.deleted_at ≢ none)
unfolding contact_by_phone create phone_contact
contact_by_phone-failed id tenant_id raw contacts w h =
    let reachable = is_reachable tenant_id (phone_digits raw) in
    let numbered = has_number tenant_id (phone_digits raw) in
    elim (Option-cases (find_first reachable contacts)) [
      | inr (k, e) ↦ absurd (cc (rw (contact_by_phone, e) at h))
      | inl e ↦ elim (Bool-cases (any numbered contacts)) [
        | inr f ↦ absurd (cc (rw (contact_by_phone, e, f) at h))
        | inl f ↦
            let (c, m, n) = any→Memᴰ numbered contacts f in
            let exists : failed contact_exists ≡ failed w = rw (contact_by_phone, e, f) at h in
            (
              cc,
              (c, m, Numbered-test tenant_id raw c n),
              λ d i n k. absurd (
                  cc (
                    find_first-none reachable contacts e d i,
                    is_reachable-none tenant_id raw d n k,
                  )),
            )
      ]
    ]

pub contact_by_phone-deleted :
    (id tenant_id raw : String) (contacts : List Contact) (c : Contact)
    → Memᴰ c contacts
    → Numbered tenant_id raw c
    → ((d : Contact) → Memᴰ d contacts → Numbered tenant_id raw d → d.deleted_at ≢ none)
    → contact_by_phone id tenant_id (phone_digits raw) contacts ≡ failed contact_exists
unfolding contact_by_phone create phone_contact
contact_by_phone-deleted id tenant_id raw contacts c m n gone =
    let reachable = is_reachable tenant_id (phone_digits raw) in
    let numbered = has_number tenant_id (phone_digits raw) in
    elim (Option-cases (find_first reachable contacts)) [
      | inr (k, e) ↦
          let (a, b) =
            is_reachable-Numbered tenant_id raw k (find_first_sound reachable contacts e) in
          absurd (gone k (find_first-Memᴰ reachable contacts e) a b)
      | inl e ↦ rw (
        contact_by_phone,
        e,
        Memᴰ→any numbered contacts m (has_number-Numbered tenant_id raw c n),
      )
    ]

pub bad_phone-true :
    (raw : String)
    → bad_phone (phone_digits raw) ≡ true
    → (digits_count raw < 8) ⊎ (15 < digits_count raw)
unfolding bad_phone
bad_phone-true raw h = elim (Bool-cases (ltb (digits_count raw) 8)) [
  | inl e ↦ inl (ltb→lt _ _ e)
  | inr e ↦ inr (ground arith)
]

pub bad_phone-long : (raw : String) → 15 < digits_count raw → bad_phone (phone_digits raw) ≡ true
unfolding bad_phone
bad_phone-long raw h = ground arith

pub bad_phone-short : (raw : String) → digits_count raw < 8 → bad_phone (phone_digits raw) ≡ true
unfolding bad_phone
bad_phone-short raw h = ground arith
