-- ===== src/Inbox/Pages.antt =====
-- Keyset pagination (src/inbox/cursor.ts, and `cursorWhere` with the queries of
-- src/inbox/conversations.service.ts). A cursor is held as it is before its encoding as text;
-- the order of ids is that of their characters.
pub mod Suffix
pub mod Walk
use mathlib.Core.Option
use whatsapp_inbox.Shared.{
  ℕ, zero, suc, ◌+◌, String, Bool, true, not, ◌&&◌, ◌||◌, Option, none, some, List, [], ◌∷◌, ◌++◌,
  ltb, ◌==◌, if◌then◌else◌, is_none, length, take,
}
use whatsapp_inbox.Db.{delete_many}
use whatsapp_inbox.Order.{str_lt, newest_first, sort}

pub record Cursor : Type 0 where
  pub t : Option ℕ
  pub id : String

module _ {A : Type 0} where
  -- `findMany`: the rows that match, in order, at most so many of them.
  unfoldable pub find_many : (A → Bool) → (A → A → Bool) → ℕ → List A → List A
  unfolding delete_many sort
  find_many where_ order_by n rows = take n (sort order_by (delete_many (λ x. not (where_ x)) rows))

  unfoldable pub last : List A → Option A
  last [] = none
  last (x ∷ []) = some x
  last (x ∷ y ∷ xs) = last (y ∷ xs)

-- A page, and what follows it if there is a cursor.
unfoldable pub go_on :
    {A : Type 0} → List A × Option Cursor → (Cursor → Option (List A)) → Option (List A)
go_on (page, none) rest = some page
go_on (page, some c) rest = Option.map (λ more. page ++ more) (rest c)

module _ {A : Type 0} (key : A → String) (time : A → Option ℕ) where
  -- `orderBy: [{ time: desc, nulls: last }, { id: desc }]`
  unfoldable pub recency : A → A → Bool
  unfolding newest_first
  recency a b = let tie = str_lt (key b) (key a) in newest_first (time a) (time b) tie tie

  -- The rows that come after the cursor; those without a date come last.
  unfoldable pub cursor_where : Cursor → A → Bool
  cursor_where c a = elim c.t [
    | none ↦ is_none (time a) && str_lt (key a) c.id
    | some t ↦ elim (time a) [ none ↦ true | some x ↦ ltb x t || (x == t && str_lt (key a) c.id) ]
  ]

  -- Without a cursor every row.
  unfoldable pub from_cursor : Option Cursor → A → Bool
  unfolding cursor_where
  from_cursor none a = true
  from_cursor (some c) a = cursor_where c a

  unfoldable pub cursor_of : A → Cursor
  cursor_of a = record { t = time a; id = key a }

  -- One more row than the page holds says whether there is another page.
  unfoldable pub fetch_page : ℕ → (A → Bool) → Option Cursor → List A → List A × Option Cursor
  unfolding find_many last recency from_cursor cursor_of
  fetch_page size where_ cursor rows =
      let found = find_many (λ a. where_ a && from_cursor cursor a) recency (size + 1) rows in
      let page = take size found in
      (page, if ltb size (length found) then Option.map cursor_of (last page) else none)

  -- All pages, one after the other, each from the cursor that the one before gave; `none` means
  -- that the fuel ran out.
  unfoldable pub walk : ℕ → ℕ → (A → Bool) → Option Cursor → List A → Option (List A)
  unfolding go_on
  walk zero size where_ cursor rows = none
  walk (suc fuel) size where_ cursor rows =
      go_on (fetch_page size where_ cursor rows) (λ c. walk fuel size where_ (some c) rows)
