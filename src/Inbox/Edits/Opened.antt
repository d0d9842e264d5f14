-- ===== src/Inbox/Edits/Opened.antt =====
-- The conversation that a phone number opens (`openByPhone` of
-- src/inbox/conversations.service.ts).
use whatsapp_inbox.Shared.{
  String, ◌≡◌, refl, sym, ap, ◌∙◌, subst, ◌⊎◌, inl, inr, Bool, true, some, List, arith, eq_iff,
  Bool-cases, Option-cases,
}
use whatsapp_inbox.Schema.{WhatsappAccount, Contact, Conversation}
use whatsapp_inbox.Db.{find_first, create, upsert}
use whatsapp_inbox.Db.Laws.{update_many-same}
use whatsapp_inbox.Db.Rows.{create_lem}
use whatsapp_inbox.Inbound.{new_conversation}
use whatsapp_inbox.Inbound.Upserts.{find_first-snoc, upsert-found}
use whatsapp_inbox.Inbox.Edits.{EditError, Edited, failed, done}
use whatsapp_inbox.Inbox.Edits.Phone.{
  Opening, has_number, is_reachable, phone_contact, is_thread, contact_by_phone, open_thread,
  open_by_phone, phone_digits, bad_phone, account_for,
}

phone_contact-reachable :
    (id tenant_id digits : String)
    → is_reachable tenant_id digits (phone_contact id tenant_id digits) ≡ true
unfolding is_reachable has_number phone_contact
phone_contact-reachable id tenant_id digits =
    ground (arith, eq_iff tenant_id tenant_id, eq_iff digits digits)

pub Edited-cases :
    {A : Type 0} (x : Edited A) → ((w : EditError) × (x ≡ failed w)) ⊎ ((a : A) × (x ≡ done a))
Edited-cases (failed w) = inl (w, refl)
Edited-cases (done a) = inr (a, refl)

contact_by_phone-reached :
    (id tenant_id digits : String) (contacts : List Contact) (c : Contact)
    → find_first (is_reachable tenant_id digits) contacts ≡ some c
    → contact_by_phone id tenant_id digits contacts ≡ done (contacts, c)
unfolding contact_by_phone
contact_by_phone-reached id tenant_id digits contacts c e = rw (contact_by_phone, e)

done-same : {A : Type 0} {a b : A} → done a ≡ done b → a ≡ b
done-same e = cc

done-pair :
    {cs ds : List Contact} {c d : Contact}
    → ◌≡◌ {A = Edited (List Contact × Contact)} (done (cs, c)) (done (ds, d))
    → (cs ≡ ds) × (c ≡ d)
done-pair e = let same = done-same e in (ap (λ p. p.0) same, ap (λ p. p.1) same)

-- The contact that was answered is the one that the next search finds.
contact_by_phone-found :
    (id tenant_id digits : String) (contacts cs : List Contact) (c : Contact)
    → contact_by_phone id tenant_id digits contacts ≡ done (cs, c)
    → find_first (is_reachable tenant_id digits) cs ≡ some c
unfolding contact_by_phone
contact_by_phone-found id tenant_id digits contacts cs c h =
    let row = phone_contact id tenant_id digits in
    let clash : Contact → Contact → Bool = λ row c. has_number row.tenant_id row.wa_id c in
    elim (Option-cases (find_first (is_reachable tenant_id digits) contacts)) [
      | inr (k, e) ↦
          let (a, b) = done-pair (rw (contact_by_phone, e) at h) in
          subst (λ l. find_first (is_reachable tenant_id digits) l ≡ some c) a (e ∙ ap some b)
      | inl e ↦ elim (Option-cases (create clash row contacts)) [
        | inl n ↦ absurd (cc (rw (contact_by_phone, e, n) at h))
        | inr (rows, n) ↦
            let (a, b) = done-pair (rw (contact_by_phone, e, n) at h) in
            subst (λ l. find_first (is_reachable tenant_id digits) l ≡ some c)
              (sym (create_lem clash row contacts rows n).0 ∙ a)
              (find_first-snoc (is_reachable tenant_id digits) row contacts e
                  (phone_contact-reachable id tenant_id digits)
                ∙ ap some b)
      ]
    ]

upsert-kept :
    {A : Type 0} (p : A → Bool) (new : A) (rows : List A) {row : A}
    → find_first p rows ≡ some row
    → upsert p new (λ x. x) rows ≡ (rows, row)
unfolding upsert
upsert-kept p new rows {row} e = rw (upsert, e) (ap (λ l. (l, row)) (update_many-same p rows))

new_conversation-thread :
    (id tenant_id account_id contact_id : String)
    → is_thread tenant_id account_id contact_id
        (new_conversation id tenant_id account_id contact_id)
      ≡ true
unfolding is_thread new_conversation
new_conversation-thread id tenant_id account_id contact_id =
    ground (
      arith,
      eq_iff tenant_id tenant_id,
      eq_iff account_id account_id,
      eq_iff contact_id contact_id,
    )

open_thread_again :
    (id id' tenant_id account_id : String) (cs : List Contact) (c : Contact)
    (conversations : List Conversation)
    → open_thread id' tenant_id account_id
        (cs, c)
        (open_thread id tenant_id account_id (cs, c) conversations).conversations
      ≡ open_thread id tenant_id account_id (cs, c) conversations
unfolding open_thread
open_thread_again id id' tenant_id account_id cs c conversations =
    let p = is_thread tenant_id account_id c.id in
    let new = new_conversation id tenant_id account_id c.id in
    rw (
      upsert-kept p (new_conversation id' tenant_id account_id c.id)
        (upsert p new (λ x. x) conversations).0
        (upsert-found p (λ x. x) (λ x. refl) new conversations
          (new_conversation-thread id tenant_id account_id c.id)))

-- The same number opens the same conversation: a second call, whatever ids the database would make,
-- finds the contact and the conversation of the first, gives the same answer and changes no table.
pub open_by_phone_again :
    (i j k l tenant_id raw : String) (accounts : List WhatsappAccount) (contacts : List Contact)
    (conversations : List Conversation) (o : Opening)
    → open_by_phone i j tenant_id raw accounts contacts conversations ≡ done o
    → open_by_phone k l tenant_id raw accounts o.contacts o.conversations ≡ done o
unfolding open_by_phone open_thread
open_by_phone_again i j k l tenant_id raw accounts contacts conversations o h =
    elim (Bool-cases (bad_phone (phone_digits raw))) [
      | inl e ↦ absurd (cc (rw (open_by_phone, e) at h))
      | inr e ↦ elim (Option-cases (account_for tenant_id accounts)) [
        | inl n ↦ absurd (cc (rw (open_by_phone, e, n) at h))
        | inr (a, n) ↦
            elim (Edited-cases (contact_by_phone i tenant_id (phone_digits raw) contacts)) [
              | inl (w, f) ↦ absurd (cc (rw (open_by_phone, e, n, f) at h))
              | inr ((cs, c), f) ↦
                  let answered : done (open_thread j tenant_id a.id (cs, c) conversations)
                      ≡ done o =
                    rw (open_by_phone, e, n, f) at h in
                  subst
                    (λ o.
                      open_by_phone k l tenant_id raw accounts o.contacts o.conversations ≡ done o)
                    (done-same answered)
                    (rw (open_by_phone, e, n)
                      (rw
                        (contact_by_phone-reached k tenant_id (phone_digits raw) cs c
                          (contact_by_phone-found i tenant_id (phone_digits raw) contacts cs c f))
                        (ap done (open_thread_again j l tenant_id a.id cs c conversations))))
            ]
      ]
    ]
