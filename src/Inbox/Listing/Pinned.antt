-- ===== src/Inbox/Listing/Pinned.antt =====
-- The pages of the list of conversations, with the pinned ones before the first (`list` of
-- src/inbox/conversations.service.ts).
use mathlib.Core.Option
use mathlib.Core.List.{append_assoc}
use whatsapp_inbox.Shared.{
  ℕ, zero, suc, ◌≤◌, ◌<◌, ◌≡◌, refl, ap, ◌∙◌, subst, ◌≢◌, ◌↔◌, ◌⊎◌, inl, inr, Bool, true, false,
  not, ◌&&◌, Option, none, some, List, [], ◌∷◌, ◌++◌, Memᴰ, arith, and_true, Option-cases, is_none,
  is_some, length, take, Memᴰ-cons,
}
use whatsapp_inbox.Schema.{Conversation}
use whatsapp_inbox.Db.{delete_many}
use whatsapp_inbox.Db.Rows.{All, Memᴰ-append_left, Memᴰ-append_right, Distinct, Distinct-eq}
use whatsapp_inbox.Db.Kept.{
  length-delete_many-le, mem-delete_many, mem-delete_many_kept, Distinct-delete_many,
}
use whatsapp_inbox.Order.{sort}
use whatsapp_inbox.Order.Sorted.{length-sort, mem-sort, mem_of_mem-sort, Distinct-sort, All-of_mem}
use whatsapp_inbox.Inbox.Pages.{Cursor, recency, find_many, fetch_page, go_on, walk}
use whatsapp_inbox.Inbox.Pages.Suffix.{take_short}
use whatsapp_inbox.Inbox.Pages.Walk.{walk-listed, none-Closed}
use whatsapp_inbox.Inbox.Listing.{
  row_id, last_message, conversations_page_size, max_pinned, pinned_first, list_rows,
}

-- All pages of the list, one after the other, where `urgent` says that it is the list of those about
-- to expire; `none` means that the fuel ran out.
unfoldable pub walk_list :
    ℕ
    → (Conversation → Bool)
    → Bool
    → Option Cursor
    → List Conversation
    → Option (List Conversation)
unfolding list_rows go_on
walk_list zero base urgent cursor rows = none
walk_list (suc fuel) base urgent cursor rows =
    go_on (list_rows base urgent cursor rows) (λ c. walk_list fuel base urgent (some c) rows)

abbrev is_pinned : (Conversation → Bool) → Conversation → Bool
is_pinned base c = base c && is_some c.pinned_at

abbrev not_pinned : (Conversation → Bool) → Conversation → Bool
not_pinned base c = base c && is_none c.pinned_at

abbrev pub pinned_rows : (Conversation → Bool) → List Conversation → List Conversation
pinned_rows base rows = delete_many (λ c. not (is_pinned base c)) rows

abbrev unpinned_rows : (Conversation → Bool) → List Conversation → List Conversation
unpinned_rows base rows = delete_many (λ c. not (not_pinned base c && true)) rows

go_on-ap :
    {A : Type 0} (p : List A × Option Cursor) (f g : Cursor → Option (List A))
    → ((c : Cursor) → f c ≡ g c)
    → go_on p f ≡ go_on p g
unfolding go_on
go_on-ap (page, none) f g h = refl
go_on-ap (page, some c) f g h = ap (Option.map (λ more. page ++ more)) (h c)

go_on-before :
    {A : Type 0} (xs page : List A) (next : Option Cursor) (f : Cursor → Option (List A))
    (l : List A)
    → go_on (page, next) f ≡ some l
    → go_on (xs ++ page, next) f ≡ some (xs ++ l)
unfolding go_on
go_on-before xs page none f l h = ap (λ o. Option.map (λ m. xs ++ m) o) h
go_on-before xs page (some c) f l h = elim (Option-cases (f c)) [
  | inl n ↦ absurd (cc (rw n at h))
  | inr (more, e) ↦
      let whole : some (page ++ more) ≡ some l = rw e at h in
      rw e (ap some (append_assoc xs page more) ∙ ap (λ o. Option.map (λ m. xs ++ m) o) whole)
]

walk_list-walk :
    (fuel : ℕ) (base : Conversation → Bool) (c : Cursor) (rows : List Conversation)
    → walk_list fuel base false (some c) rows
      ≡ walk row_id last_message fuel conversations_page_size (not_pinned base) (some c) rows
unfolding walk_list walk list_rows
walk_list-walk zero base c rows = refl
walk_list-walk (suc fuel) base c rows =
    go_on-ap
      (fetch_page row_id last_message conversations_page_size (not_pinned base) (some c) rows) _ _
      (λ d. walk_list-walk fuel base d rows)

walk_list_lem :
    (fuel : ℕ) (base : Conversation → Bool) (rows : List Conversation)
    → Distinct row_id rows
    → length rows < fuel
    → walk_list fuel base false none rows
      ≡ some (
          take max_pinned (sort pinned_first (pinned_rows base rows))
          ++ sort (recency row_id last_message) (unpinned_rows base rows))
unfolding walk_list walk list_rows find_many
walk_list_lem zero base rows d h = absurd (omega arith)
walk_list_lem (suc fuel) base rows d h =
    let few : length (sort (recency row_id last_message) (unpinned_rows base rows)) < suc fuel =
      omega (
        arith,
        length-sort (recency row_id last_message) (unpinned_rows base rows),
        length-delete_many-le (λ c. not (not_pinned base c && true)) rows,
      ) in
    let whole =
      walk-listed row_id last_message (not_pinned base) rows d (suc fuel) 29 none
        (none-Closed row_id last_message) few in
    let first =
      fetch_page row_id last_message conversations_page_size (not_pinned base) none rows in
    go_on-before (take max_pinned (sort pinned_first (pinned_rows base rows))) first.0 first.1
      (λ c. walk_list fuel base false (some c) rows) _
      (go_on-ap first _ _ (λ c. walk_list-walk fuel base c rows) ∙ whole)

All-both : {A : Type 0} (P : A → Type 0) (xs ys : List A) → All P xs → All P ys → All P (xs ++ ys)
All-both P [] ys h k = k
All-both P (x ∷ xs) ys (h, hs) k = (h, All-both P xs ys hs k)

Distinct-both :
    (xs ys : List Conversation)
    → Distinct row_id xs
    → Distinct row_id ys
    → ((x y : Conversation) → Memᴰ x xs → Memᴰ y ys → row_id y ≢ row_id x)
    → Distinct row_id (xs ++ ys)
Distinct-both [] ys d e n = e
Distinct-both (x ∷ xs) ys (h, d) e n = (
  All-both (λ y. row_id y ≢ row_id x) xs ys h (All-of_mem _ ys (λ y m. n x y (Memᴰ.head refl) m)),
  Distinct-both xs ys d e (λ z y m k. n z y (Memᴰ.tail m) k),
)

mem-both :
    (xs ys : List Conversation) {z : Conversation} → Memᴰ z (xs ++ ys) → Memᴰ z xs ⊎ Memᴰ z ys
mem-both [] ys m = inr m
mem-both (x ∷ xs) ys m = elim (Memᴰ-cons m) [
  | inl e ↦ inl (Memᴰ.head e)
  | inr k ↦ elim (mem-both xs ys k) [ inl l ↦ inl (Memᴰ.tail l) | inr r ↦ inr r ]
]

-- All pages together: each conversation that matches exactly once, and no other.
abbrev pub Complete :
    (Conversation → Bool) → List Conversation → Option (List Conversation) → Type 0
Complete base rows o =
    (pages : List Conversation) × (o ≡ some pages)
    × Distinct row_id pages
    × ((z : Conversation) → Memᴰ z pages ↔ (Memᴰ z rows × (base z ≡ true)))

pub walk_list-Complete_paged :
    (fuel : ℕ) (base : Conversation → Bool) (rows : List Conversation)
    → Distinct row_id rows
    → length rows < fuel
    → length (pinned_rows base rows) ≤ max_pinned
    → Complete base rows (walk_list fuel base false none rows)
walk_list-Complete_paged fuel base rows d h few =
    (pins ++ rest, walk ∙ ap (λ l. some (l ++ rest)) whole, ids, λ z. (into z, onto z))
  where
    pins : List Conversation
    pins = sort pinned_first (pinned_rows base rows)

    rest : List Conversation
    rest = sort (recency row_id last_message) (unpinned_rows base rows)

    walk : walk_list fuel base false none rows ≡ some (take max_pinned pins ++ rest)
    walk = walk_list_lem fuel base rows d h

    whole : take max_pinned pins ≡ pins
    whole =
        take_short pins max_pinned (omega (arith, length-sort pinned_first (pinned_rows base rows)))

    of_pins : (z : Conversation) → Memᴰ z pins → Memᴰ z rows × (is_pinned base z ≡ true)
    of_pins z m =
        let (k, e) =
          mem-delete_many _ rows (mem_of_mem-sort pinned_first (pinned_rows base rows) m) in
        (k, ground arith)

    of_rest : (z : Conversation) → Memᴰ z rest → Memᴰ z rows × (not_pinned base z ≡ true)
    of_rest z m =
        let (k, e) =
          mem-delete_many _ rows
            (mem_of_mem-sort (recency row_id last_message) (unpinned_rows base rows) m) in
        (k, ground arith)

    split : (b : Bool) (p : Option ℕ) → (b && is_some p) ≡ true → (b && is_none p) ≡ true → ⊥
    split b none e k = ground arith
    split b (some t) e k = ground arith

    into : (z : Conversation) → Memᴰ z (pins ++ rest) → Memᴰ z rows × (base z ≡ true)
    into z m = elim (mem-both pins rest m) [
      | inl k ↦ let (n, e) = of_pins z k in (n, (and_true {a = base z} e).0)
      | inr k ↦ let (n, e) = of_rest z k in (n, (and_true {a = base z} e).0)
    ]

    onto : (z : Conversation) → Memᴰ z rows × (base z ≡ true) → Memᴰ z (pins ++ rest)
    onto z (m, e) = elim (Option-cases z.pinned_at) [
      | inl n ↦ Memᴰ-append_right pins (
          mem-sort (recency row_id last_message) (unpinned_rows base rows)
            (mem-delete_many_kept _ rows m (rw (e, n) refl)))
      | inr (t, n) ↦ Memᴰ-append_left pins rest (
          mem-sort pinned_first (pinned_rows base rows)
            (mem-delete_many_kept _ rows m (rw (e, n) refl)))
    ]

    ids : Distinct row_id (pins ++ rest)
    ids =
        Distinct-both pins rest
          (Distinct-sort row_id pinned_first (pinned_rows base rows)
            (Distinct-delete_many _ row_id rows d))
          (Distinct-sort row_id (recency row_id last_message) (unpinned_rows base rows)
            (Distinct-delete_many _ row_id rows d))
          (λ x y m n e.
            let (i, p) = of_pins x m in
            let (j, q) = of_rest y n in
            let same : y ≡ x = Distinct-eq row_id rows d j i e in
            split (base x) x.pinned_at p (subst (λ c. not_pinned base c ≡ true) same q))
