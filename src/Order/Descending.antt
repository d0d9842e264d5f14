-- ===== src/Order/Descending.antt =====
-- `sort` by a number, the largest first, where several elements may have one number.
use whatsapp_inbox.Shared.{
  ℕ, zero, suc, ◌≤◌, String, ◌≢◌, inl, inr, Bool, List, [], ◌∷◌, Memᴰ, arith, ltb, Bool-cases,
  length, take,
}
use whatsapp_inbox.Db.Rows.{All, Distinct}
use whatsapp_inbox.Order.{insert, sort}
use whatsapp_inbox.Order.Sorted.{All-insert}

module _ {A : Type 0} where
  pub All-take : (P : A → Type 0) (n : ℕ) (xs : List A) → All P xs → All P (take n xs)
  All-take P zero xs h = tt
  All-take P (suc n) [] h = tt
  All-take P (suc n) (x ∷ xs) (h, hs) = (h, All-take P n xs hs)

  pub Distinct-take :
      (key : A → String) (n : ℕ) (xs : List A) → Distinct key xs → Distinct key (take n xs)
  Distinct-take key zero xs d = tt
  Distinct-take key (suc n) [] d = tt
  Distinct-take key (suc n) (x ∷ xs) (h, d) =
      (All-take (λ y. key y ≢ key x) n xs h, Distinct-take key n xs d)

  pub length-take-le : (n : ℕ) (xs : List A) → length (take n xs) ≤ n
  length-take-le zero xs = omega arith
  length-take-le (suc n) [] = omega arith
  length-take-le (suc n) (x ∷ xs) = omega (arith, length-take-le n xs)

  pub mem-take : (n : ℕ) (xs : List A) {z : A} → Memᴰ z (take n xs) → Memᴰ z xs
  mem-take zero xs m = elim m [ ]
  mem-take (suc n) [] m = elim m [ ]
  mem-take (suc n) (x ∷ xs) (Memᴰ.head e) = Memᴰ.head e
  mem-take (suc n) (x ∷ xs) (Memᴰ.tail m) = Memᴰ.tail (mem-take n xs m)

module _ {A : Type 0} (rank : A → ℕ) where
  abbrev pub higher : A → A → Bool
  higher a b = ltb (rank b) (rank a)

  abbrev pub IsDescending : List A → Type 0
  IsDescending [] = Unit
  IsDescending (x ∷ xs) = All (λ y. rank y ≤ rank x) xs × IsDescending xs

  All-below :
      (x y : A) (ys : List A)
      → rank y ≤ rank x
      → All (λ z. rank z ≤ rank y) ys
      → All (λ z. rank z ≤ rank x) ys
  All-below x y [] h hs = tt
  All-below x y (z ∷ ys) h (k, ks) = (omega arith, All-below x y ys h ks)

  IsDescending-insert : (x : A) (xs : List A) → IsDescending xs → IsDescending (insert higher x xs)
  unfolding insert
  IsDescending-insert x [] d = (tt, tt)
  IsDescending-insert x (y ∷ ys) (h, d) = elim (Bool-cases (higher y x)) [
    | inl e ↦
        rw e (
          All-insert higher (λ z. rank z ≤ rank y) x ys (ground arith) h,
          IsDescending-insert x ys d,
        )
    | inr e ↦ let le : rank y ≤ rank x = ground arith in rw e ((le, All-below x y ys le h), (h, d))
  ]

  pub IsDescending-sort : (xs : List A) → IsDescending (sort higher xs)
  unfolding sort
  IsDescending-sort [] = tt
  IsDescending-sort (x ∷ xs) = IsDescending-insert x (sort higher xs) (IsDescending-sort xs)

  pub IsDescending-take : (n : ℕ) (xs : List A) → IsDescending xs → IsDescending (take n xs)
  IsDescending-take zero xs d = tt
  IsDescending-take (suc n) [] d = tt
  IsDescending-take (suc n) (x ∷ xs) (h, d) =
      (All-take (λ y. rank y ≤ rank x) n xs h, IsDescending-take n xs d)
