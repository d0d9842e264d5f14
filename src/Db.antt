-- ===== src/Db.antt =====
-- Tables as lists of rows, with the operations that the services call, as the repository's own
-- in-memory database runs them (test/support/fake-db.ts): a `where` is a test on a row, a `data` a
-- function on it, and a unique constraint a test on two rows.
pub mod Laws
pub mod Rows
pub mod Extends
pub mod Kept
use whatsapp_inbox.Shared.{
  ℕ, ◌+◌, Bool, Option, none, some, List, [], ◌∷◌, ◌++◌, if◌then◌else◌, any,
}

module _ {ℓ} {A : Type ℓ} where
  unfoldable pub find_first : (A → Bool) → List A → Option A
  find_first where_ [] = none
  find_first where_ (row ∷ rows) = if where_ row then some row else find_first where_ rows

  unfoldable pub update_many : (A → Bool) → (A → A) → List A → List A
  update_many where_ data_ [] = []
  update_many where_ data_ (row ∷ rows) =
      (if where_ row then data_ row else row) ∷ update_many where_ data_ rows

  unfoldable pub delete_many : (A → Bool) → List A → List A
  delete_many where_ [] = []
  delete_many where_ (row ∷ rows) =
      let rest = delete_many where_ rows in if where_ row then rest else row ∷ rest

  unfoldable pub count : (A → Bool) → List A → ℕ
  count where_ [] = 0
  count where_ (row ∷ rows) = (if where_ row then 1 else 0) + count where_ rows

  -- `none` is the violation of a unique constraint (P2002).
  unfoldable pub create : (A → A → Bool) → A → List A → Option (List A)
  create clash row rows = if any (clash row) rows then none else some (rows ++ row ∷ [])

  -- The rows after, and the row that was written.
  unfoldable pub upsert : (A → Bool) → A → (A → A) → List A → List A × A
  unfolding find_first update_many
  upsert where_ create_ update_ rows = elim (find_first where_ rows) [
    | none ↦ (rows ++ create_ ∷ [], create_)
    | some row ↦ (update_many where_ update_ rows, update_ row)
  ]
