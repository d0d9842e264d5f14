-- ===== src/Db/Kept.antt =====
-- The rows that a deletion keeps (`deleteMany` of test/support/fake-db.ts, `filter` of the language).
use whatsapp_inbox.Shared.{
  ◌≤◌, String, ◌≡◌, refl, ap, ◌∙◌, ◌≢◌, inl, inr, Bool, false, none, List, [], ◌∷◌, Memᴰ, arith,
  Bool-cases, length, any, Memᴰ-cons,
}
use whatsapp_inbox.Db.{delete_many, find_first}
use whatsapp_inbox.Db.Rows.{All, All-Memᴰ, All-delete_many, Distinct}

module _ {A : Type 0} (p : A → Bool) where
  mem_of_kept : (xs : List A) {z : A} → Memᴰ z (delete_many p xs) → Memᴰ z xs
  unfolding delete_many
  mem_of_kept [] m = m
  mem_of_kept (y ∷ ys) m = elim (Bool-cases (p y)) [
    | inl e ↦ Memᴰ.tail (mem_of_kept ys (rw e at m))
    | inr e ↦ elim (Memᴰ-cons (rw e at m)) [
      | inl q ↦ Memᴰ.head q
      | inr n ↦ Memᴰ.tail (mem_of_kept ys n)
    ]
  ]

  pub mem-delete_many :
      (xs : List A) {z : A} → Memᴰ z (delete_many p xs) → Memᴰ z xs × (p z ≡ false)
  mem-delete_many xs k =
      (mem_of_kept xs k, All-Memᴰ (λ x. p x ≡ false) (delete_many p xs) (All-delete_many p xs) k)

  pub mem-delete_many_kept :
      (xs : List A) {z : A} → Memᴰ z xs → p z ≡ false → Memᴰ z (delete_many p xs)
  unfolding delete_many
  mem-delete_many_kept [] k h = k
  mem-delete_many_kept (x ∷ xs) {z} k h = elim (Bool-cases (p x)) [
    | inl e ↦ elim (Memᴰ-cons k) [
      | inl q ↦ absurd (cc (ap p q))
      | inr n ↦ rw e (mem-delete_many_kept xs n h)
    ]
    | inr e ↦ elim (Memᴰ-cons k) [
      | inl q ↦ rw e (Memᴰ.head q)
      | inr n ↦ rw e (Memᴰ.tail (mem-delete_many_kept xs n h))
    ]
  ]

  pub All-kept : (P : A → Type 0) (xs : List A) → All P xs → All P (delete_many p xs)
  unfolding delete_many
  All-kept P [] h = tt
  All-kept P (x ∷ xs) (h, hs) = elim (Bool-cases (p x)) [
    | inl e ↦ rw e (All-kept P xs hs)
    | inr e ↦ rw e (h, All-kept P xs hs)
  ]

  pub Distinct-delete_many :
      (key : A → String) (xs : List A) → Distinct key xs → Distinct key (delete_many p xs)
  unfolding delete_many
  Distinct-delete_many key [] d = tt
  Distinct-delete_many key (x ∷ xs) (n, d) = elim (Bool-cases (p x)) [
    | inl e ↦ rw e (Distinct-delete_many key xs d)
    | inr e ↦ rw e (All-kept (λ y. key y ≢ key x) xs n, Distinct-delete_many key xs d)
  ]

  pub find_first-none : (xs : List A) → find_first p xs ≡ none → (z : A) → Memᴰ z xs → p z ≡ false
  unfolding find_first
  find_first-none [] h z k = elim k [ ]
  find_first-none (x ∷ xs) h z k = elim (Bool-cases (p x)) [
    | inl e ↦ absurd (ground arith)
    | inr e ↦ elim (Memᴰ-cons k) [
      | inl q ↦ ap p q ∙ e
      | inr n ↦ find_first-none xs (ground arith) z n
    ]
  ]

  pub length-delete_many-le : (xs : List A) → length (delete_many p xs) ≤ length xs
  unfolding delete_many
  length-delete_many-le [] = omega arith
  length-delete_many-le (x ∷ xs) = ground (arith, length-delete_many-le xs)

  pub delete_many_none : (xs : List A) → any p xs ≡ false → delete_many p xs ≡ xs
  unfolding delete_many
  delete_many_none [] h = refl
  delete_many_none (x ∷ xs) h = ground (arith, delete_many_none xs)
