-- ===== src/Order.antt =====
-- The order of texts by their characters (`a < b` in the language), and `sort` with a comparator:
-- the stable sort of the language, by the sign of what the comparator returns.
pub mod Laws
pub mod Sorted
pub mod Descending
pub mod Newest
use Prim.Native.String.{compare}
use Prim.Native.Nat.{Ordering}
use whatsapp_inbox.Shared.{
  ℕ, String, Bool, true, false, Option, none, some, List, [], ◌∷◌, ltb, ◌==◌, if◌then◌else◌,
}

abbrev pub str_lt : String → String → Bool
str_lt a b = elim (compare a b) [ Ordering.lt ↦ true | _ ↦ false ]

-- The later date first and a missing one last; `tie` where the dates are equal, `next` where both
-- are missing.
unfoldable pub newest_first : Option ℕ → Option ℕ → Bool → Bool → Bool
newest_first none none tie next = next
newest_first none (some b) tie next = false
newest_first (some a) none tie next = true
newest_first (some a) (some b) tie next = if a == b then tie else ltb b a

module _ {ℓ} {A : Type ℓ} (before : A → A → Bool) where
  -- An element goes behind all those at the front that come before it.
  unfoldable pub insert : A → List A → List A
  insert x [] = x ∷ []
  insert x (y ∷ ys) = let rest = insert x ys in if before y x then y ∷ rest else x ∷ y ∷ ys

  unfoldable pub sort : List A → List A
  unfolding insert
  sort [] = []
  sort (x ∷ xs) = insert x (sort xs)
