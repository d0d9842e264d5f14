-- ===== src/Inbox/Pages/Walk.antt =====
-- The pages that a client goes through, one cursor after the other, against the whole list
-- (src/inbox/conversations.service.ts).
use mathlib.Core.Option
use whatsapp_inbox.Shared.{
  ℕ, zero, suc, ◌<◌, String, ◌≡◌, refl, sym, ap, ◌∙◌, inl, inr, Bool, true, false, not, ◌&&◌,
  Option, none, some, List, Memᴰ, arith, ltb, if◌then◌else◌, Bool-cases, ltb→lt, Option-cases,
  length, take,
}
use whatsapp_inbox.Db.{delete_many}
use whatsapp_inbox.Db.Rows.{Distinct}
use whatsapp_inbox.Db.Kept.{mem-delete_many, mem-delete_many_kept, Distinct-delete_many}
use whatsapp_inbox.Order.{str_lt, newest_first, sort}
use whatsapp_inbox.Order.Laws.{str_lt_asym, str_lt_total, str_lt_trans}
use whatsapp_inbox.Order.Newest.{newest_first_asym, newest_first_total, newest_first_trans}
use whatsapp_inbox.Order.Sorted.{
  Ranks, IsSorted, mem-sort, mem_of_mem-sort, Distinct-sort, IsSorted-sort, IsSorted-eq_of_mem,
}
use whatsapp_inbox.Inbox.Pages.{
  Cursor, find_many, last, recency, cursor_where, from_cursor, cursor_of, fetch_page, go_on, walk,
}
use whatsapp_inbox.Inbox.Pages.Suffix.{
  drop, mem-drop, Distinct-drop, length-drop, take-drop, take_short, take-take_suc, ltb-length-take,
  last_of_long, last-Memᴰ, IsSorted-drop, drop_after, after_drop,
}

module _ {A : Type 0} (key : A → String) (time : A → Option ℕ) where
  recency_asym : (a b : A) → recency key time a b ≡ true → recency key time b a ≡ false
  unfolding recency
  recency_asym a b =
      newest_first_asym (time a) (time b) _ _ _ _ (str_lt_asym (key b) (key a))
        (str_lt_asym (key b) (key a))

  recency_trans :
      (a b c : A)
      → recency key time a b ≡ true
      → recency key time b c ≡ true
      → recency key time a c ≡ true
  unfolding recency
  recency_trans a b c =
      let ties = λ (h : str_lt (key b) (key a) ≡ true) (k : str_lt (key c) (key b) ≡ true).
        str_lt_trans (key c) (key b) (key a) k h in
      newest_first_trans (time a) (time b) (time c) _ _ _ _ _ _ ties ties

  pub recency-Ranks : Ranks key (recency key time)
  unfolding recency
  recency-Ranks = record {
    asym = λ a b n. recency_asym a b;
    total = λ a b n.
        let tie = str_lt_total (key b) (key a) (λ e. n (sym e)) in
        newest_first_total (time a) (time b) _ _ _ _ tie tie;
    trans = λ a b c n n' n''. recency_trans a b c;
  }

  -- The rows after the cursor of a row are those that the row comes before.
  cursor_where-recency :
      (k a : A) → cursor_where key time (cursor_of key time k) a ≡ recency key time k a
  unfolding cursor_where cursor_of recency newest_first
  cursor_where-recency k a = elim (Option-cases (time k)) [
    | inl e ↦ elim (Option-cases (time a)) [ inl f ↦ rw (e, f) | inr (x, f) ↦ rw (e, f) ]
    | inr (t, e) ↦ elim (Option-cases (time a)) [
      | inl f ↦ rw (e, f)
      | inr (x, f) ↦ rw (e, f) (ground arith)
    ]
  ]

  from_cursor-some :
      (c : Cursor) (z : A) → from_cursor key time (some c) z ≡ cursor_where key time c z
  unfolding from_cursor
  from_cursor-some c z = refl

  -- What a row behind the cursor comes before stands behind the cursor too.
  abbrev pub Closed : Option Cursor → Type 0
  Closed cursor =
      (k z : A)
      → from_cursor key time cursor k ≡ true
      → recency key time k z ≡ true
      → from_cursor key time cursor z ≡ true

  pub none-Closed : Closed none
  unfolding from_cursor
  none-Closed k z e r = refl

  cursor_of-Closed : (k : A) → Closed (some (cursor_of key time k))
  cursor_of-Closed k x z e r =
      from_cursor-some (cursor_of key time k) z
      ∙ cursor_where-recency k z
      ∙ recency_trans k x z
          (sym (cursor_where-recency k x) ∙ sym (from_cursor-some (cursor_of key time k) x) ∙ e) r

  module _ (where_ : A → Bool) (rows : List A) (d : Distinct key rows) where
    abbrev pub matching : Option Cursor → List A
    matching cursor = delete_many (λ x. not (where_ x && from_cursor key time cursor x)) rows

    -- The whole list behind a cursor.
    abbrev pub listed : Option Cursor → List A
    listed cursor = sort (recency key time) (matching cursor)

    listed-Distinct : (cursor : Option Cursor) → Distinct key (listed cursor)
    listed-Distinct cursor =
        Distinct-sort key (recency key time) (matching cursor) (Distinct-delete_many _ key rows d)

    listed-IsSorted : (cursor : Option Cursor) → IsSorted (recency key time) (listed cursor)
    listed-IsSorted cursor =
        IsSorted-sort key (recency key time) recency-Ranks (matching cursor)
          (Distinct-delete_many _ key rows d)

    mem-listed :
        (cursor : Option Cursor) {z : A}
        → Memᴰ z (listed cursor)
        → Memᴰ z rows × (where_ z ≡ true) × (from_cursor key time cursor z ≡ true)
    mem-listed cursor {z} m =
        let (k, e) =
          mem-delete_many _ rows (mem_of_mem-sort (recency key time) (matching cursor) m) in
        (k, ground arith, ground arith)

    listed-mem :
        (cursor : Option Cursor) {z : A}
        → Memᴰ z rows
        → where_ z ≡ true
        → from_cursor key time cursor z ≡ true
        → Memᴰ z (listed cursor)
    listed-mem cursor {z} m w f =
        mem-sort (recency key time) (matching cursor) (mem-delete_many_kept _ rows m (ground arith))

    -- From the cursor of the last row of a page, the list is what the page left.
    listed-next :
        (n : ℕ) (cursor : Option Cursor) (k : A)
        → last (take n (listed cursor)) ≡ some k
        → ((z : A) → recency key time k z ≡ true → from_cursor key time cursor z ≡ true)
        → listed (some (cursor_of key time k)) ≡ drop n (listed cursor)
    listed-next n cursor k h back =
        IsSorted-eq_of_mem key (recency key time) recency-Ranks
          (listed (some (cursor_of key time k))) (drop n (listed cursor)) (listed-Distinct _)
          (Distinct-drop key n (listed cursor) (listed-Distinct cursor)) (listed-IsSorted _)
          (IsSorted-drop (recency key time) n (listed cursor) (listed-IsSorted cursor)) into onto
      where
        into :
            (z : A)
            → Memᴰ z (listed (some (cursor_of key time k)))
            → Memᴰ z (drop n (listed cursor))
        into z m =
            let (i, w, f) = mem-listed (some (cursor_of key time k)) m in
            let r =
              sym (cursor_where-recency k z)
              ∙ sym (from_cursor-some (cursor_of key time k) z)
              ∙ f in
            after_drop (recency key time) recency_asym n (listed cursor) (listed-IsSorted cursor) h
              (listed-mem cursor i w (back z r)) r

        onto :
            (z : A)
            → Memᴰ z (drop n (listed cursor))
            → Memᴰ z (listed (some (cursor_of key time k)))
        onto z m =
            let (i, w, f) = mem-listed cursor (mem-drop n (listed cursor) m) in
            let r = drop_after (recency key time) n (listed cursor) (listed-IsSorted cursor) h m in
            listed-mem (some (cursor_of key time k)) i w
              (from_cursor-some (cursor_of key time k) z ∙ cursor_where-recency k z ∙ r)

    fetch_page_lem :
        (size : ℕ) (cursor : Option Cursor)
        → fetch_page key time size where_ cursor rows ≡ (
          take size (listed cursor),
          if ltb size (length (listed cursor))
              then Option.map (cursor_of key time) (last (take size (listed cursor)))
              else none,
        )
    unfolding fetch_page find_many
    fetch_page_lem size cursor =
        rw (take-take_suc size (listed cursor), ltb-length-take size (listed cursor))

    pub walk-listed :
        (fuel n : ℕ) (cursor : Option Cursor)
        → Closed cursor
        → length (listed cursor) < fuel
        → walk key time fuel (suc n) where_ cursor rows ≡ some (listed cursor)
    unfolding walk go_on
    walk-listed zero n cursor c h = absurd (omega arith)
    walk-listed (suc fuel) n cursor c h = elim (Bool-cases (ltb (suc n) (length (listed cursor)))) [
      | inl e ↦
          let long : suc n < length (listed cursor) = ltb→lt (suc n) (length (listed cursor)) e in
          let (k, l) = last_of_long n (listed cursor) (omega arith) in
          let next = some (cursor_of key time k) in
          let rest =
            listed-next (suc n) cursor k l
              (λ z r. c k z (mem-listed cursor (last-Memᴰ (suc n) (listed cursor) l)).2 r) in
          let shorter : length (listed next) < fuel =
            rw rest (omega (arith, length-drop (suc n) (listed cursor))) in
          rw
            (
              fetch_page_lem (suc n) cursor,
              e,
              l,
              walk-listed fuel n next (cursor_of-Closed k) shorter,
              rest,
            )
            (ap some (take-drop (suc n) (listed cursor)))
      | inr e ↦
          rw (fetch_page_lem (suc n) cursor, e)
            (ap some (take_short (listed cursor) (suc n) (ground arith)))
    ]
