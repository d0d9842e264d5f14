-- ===== src/Web/Thread/Replaced.antt =====
-- The elements of a list after one of them was replaced (`findIndex` and `map` of
-- web/src/lib/merge.ts).
use whatsapp_inbox.Shared.{
  String, ◌≡◌, refl, sym, ap, ◌∙◌, ◌≢◌, ◌⊎◌, inl, inr, Bool, true, false, List, [], ◌∷◌, Memᴰ,
  arith, Bool-cases, any, Memᴰ-cons,
}
use whatsapp_inbox.Db.Rows.{All, All-Memᴰ, Distinct}
use whatsapp_inbox.Order.Sorted.{All-of_mem}
use whatsapp_inbox.Web.Thread.{replace_first}

module _ {A : Type 0} (p : A → Bool) where
  -- At most one element passes the test.
  abbrev pub Alone : List A → Type 0
  Alone xs = (x y : A) → Memᴰ x xs → Memᴰ y xs → p x ≡ true → p y ≡ true → x ≡ y

  pub mem-replace_first_new :
      (m : A) (xs : List A) → any p xs ≡ true → Memᴰ m (replace_first p m xs)
  unfolding replace_first
  mem-replace_first_new m [] h = absurd (cc)
  mem-replace_first_new m (x ∷ xs) h = elim (Bool-cases (p x)) [
    | inl e ↦ rw e (Memᴰ.head refl)
    | inr e ↦ rw e (Memᴰ.tail (mem-replace_first_new m xs (ground arith)))
  ]

  pub mem-replace_first_old :
      (m : A) (xs : List A) {z : A} → Memᴰ z xs → p z ≡ false → Memᴰ z (replace_first p m xs)
  unfolding replace_first
  mem-replace_first_old m [] k h = elim k [ ]
  mem-replace_first_old m (x ∷ xs) {z} (Memᴰ.head e) h = elim (Bool-cases (p x)) [
    | inl q ↦ absurd (cc (ap p e))
    | inr q ↦ rw q (Memᴰ.head e)
  ]
  mem-replace_first_old m (x ∷ xs) (Memᴰ.tail k) h = elim (Bool-cases (p x)) [
    | inl q ↦ rw q (Memᴰ.tail k)
    | inr q ↦ rw q (Memᴰ.tail (mem-replace_first_old m xs k h))
  ]

  -- The element that is replaced by itself leaves the list as it is.
  pub replace_first_same :
      (m : A) (xs : List A) → ((z : A) → Memᴰ z xs → p z ≡ true → z ≡ m) → replace_first p m xs ≡ xs
  unfolding replace_first
  replace_first_same m [] h = refl
  replace_first_same m (x ∷ xs) h = elim (Bool-cases (p x)) [
    | inl e ↦ rw e (ap (λ w. w ∷ xs) (sym (h x (Memᴰ.head refl) e)))
    | inr e ↦ rw (e, replace_first_same m xs (λ z k. h z (Memᴰ.tail k)))
  ]

module _ {A : Type 0} (key : A → String) (p : A → Bool) where
  All-replace_first :
      (k : String) (m : A) (xs : List A)
      → key m ≢ k
      → All (λ y. key y ≢ k) xs
      → All (λ y. key y ≢ k) (replace_first p m xs)
  unfolding replace_first
  All-replace_first k m [] n h = tt
  All-replace_first k m (x ∷ xs) n (h, hs) = elim (Bool-cases (p x)) [
    | inl e ↦ rw e (n, hs)
    | inr e ↦ rw e (h, All-replace_first k m xs n hs)
  ]

  -- The new element takes the place of the only one whose key it may have.
  pub Distinct-replace_first :
      (m : A) (xs : List A)
      → Distinct key xs
      → Alone p xs
      → ((z : A) → Memᴰ z xs → p z ≡ false → key z ≢ key m)
      → Distinct key (replace_first p m xs)
  unfolding replace_first
  Distinct-replace_first m [] d g h = tt
  Distinct-replace_first m (x ∷ xs) (n, d) g h = elim (Bool-cases (p x)) [
    | inl e ↦ rw e (All-of_mem _ xs (others e), d)
    | inr e ↦ rw e (
      All-replace_first (key x) m xs (λ q. h x (Memᴰ.head refl) e (sym q)) n,
      Distinct-replace_first m xs d (λ z w k l. g z w (Memᴰ.tail k) (Memᴰ.tail l))
          (λ z k. h z (Memᴰ.tail k)),
    )
  ]
    where
      others : p x ≡ true → (y : A) → Memᴰ y xs → key y ≢ key m
      others e y k = elim (Bool-cases (p y)) [
        | inl f ↦
            let same = g y x (Memᴰ.tail k) (Memᴰ.head refl) f e in
            absurd (All-Memᴰ (λ w. key w ≢ key x) xs n k (ap key same))
        | inr f ↦ h y (Memᴰ.tail k) f
      ]

  -- What stays are the other elements.
  pub mem-replace_first_apart :
      (m : A) (xs : List A) {z : A}
      → Distinct key xs
      → Alone p xs
      → Memᴰ z (replace_first p m xs)
      → (z ≡ m) ⊎ (Memᴰ z xs × (p z ≡ false))
  unfolding replace_first
  mem-replace_first_apart m [] d g k = elim k [ ]
  mem-replace_first_apart m (x ∷ xs) {z} (n, d) g k = elim (Bool-cases (p x)) [
    | inl e ↦ elim (Memᴰ-cons (rw e at k)) [ inl q ↦ inl q | inr l ↦ inr (Memᴰ.tail l, other e l) ]
    | inr e ↦ elim (Memᴰ-cons (rw e at k)) [
      | inl q ↦ inr (Memᴰ.head q, ap p q ∙ e)
      | inr l ↦
          elim (mem-replace_first_apart m xs d (λ z w k l. g z w (Memᴰ.tail k) (Memᴰ.tail l)) l) [
            | inl q ↦ inl q
            | inr (l', f) ↦ inr (Memᴰ.tail l', f)
          ]
    ]
  ]
    where
      other : p x ≡ true → Memᴰ z xs → p z ≡ false
      other e l = elim (Bool-cases (p z)) [
        | inl f ↦ absurd (
            All-Memᴰ (λ w. key w ≢ key x) xs n l
              (ap key (g z x (Memᴰ.tail l) (Memᴰ.head refl) f e)))
        | inr f ↦ f
      ]
