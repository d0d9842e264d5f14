-- ===== src/Order/Sorted.antt =====
-- `sort` on lists whose elements have distinct keys: order, elements, and uniqueness of the result.
use whatsapp_inbox.Shared.{
  suc, String, ◌≡◌, refl, sym, ap, ◌∙◌, subst, ◌≢◌, inl, inr, Bool, true, false, List, [], ◌∷◌,
  Memᴰ, arith, Bool-cases, length,
}
use whatsapp_inbox.Db.Rows.{All, All-Memᴰ, Distinct}
use whatsapp_inbox.Order.{insert, sort}

module _ {A : Type 0} where
  pub All-of_mem : (P : A → Type 0) (xs : List A) → ((x : A) → Memᴰ x xs → P x) → All P xs
  All-of_mem P [] h = tt
  All-of_mem P (x ∷ xs) h = (h x (Memᴰ.head refl), All-of_mem P xs (λ y m. h y (Memᴰ.tail m)))

module _ {A : Type 0} (before : A → A → Bool) where
  abbrev pub IsSorted : List A → Type 0
  IsSorted [] = Unit
  IsSorted (x ∷ xs) = All (λ y. before x y ≡ true) xs × IsSorted xs

  pub All-insert :
      (P : A → Type 0) (x : A) (xs : List A) → P x → All P xs → All P (insert before x xs)
  unfolding insert
  All-insert P x [] h hs = (h, tt)
  All-insert P x (y ∷ ys) h (k, ks) = elim (Bool-cases (before y x)) [
    | inl e ↦ rw e (k, All-insert P x ys h ks)
    | inr e ↦ rw e (h, (k, ks))
  ]

  mem-insert_self : (x : A) (xs : List A) → Memᴰ x (insert before x xs)
  unfolding insert
  mem-insert_self x [] = Memᴰ.head refl
  mem-insert_self x (y ∷ ys) = elim (Bool-cases (before y x)) [
    | inl e ↦ rw e (Memᴰ.tail (mem-insert_self x ys))
    | inr e ↦ rw e (Memᴰ.head refl)
  ]

  mem-insert : (x : A) (xs : List A) {z : A} → Memᴰ z xs → Memᴰ z (insert before x xs)
  unfolding insert
  mem-insert x [] m = elim m [ ]
  mem-insert x (y ∷ ys) {z} (Memᴰ.head k) = elim (Bool-cases (before y x)) [
    | inl e ↦ rw e (Memᴰ.head k)
    | inr e ↦ rw e (Memᴰ.tail (Memᴰ.head k))
  ]
  mem-insert x (y ∷ ys) {z} (Memᴰ.tail m) = elim (Bool-cases (before y x)) [
    | inl e ↦ rw e (Memᴰ.tail (mem-insert x ys m))
    | inr e ↦ rw e (Memᴰ.tail (Memᴰ.tail m))
  ]

  pub All-sort : (P : A → Type 0) (xs : List A) → All P xs → All P (sort before xs)
  unfolding sort
  All-sort P [] h = tt
  All-sort P (x ∷ xs) (h, hs) = All-insert P x (sort before xs) h (All-sort P xs hs)

  length-insert : (x : A) (xs : List A) → length (insert before x xs) ≡ suc (length xs)
  unfolding insert
  length-insert x [] = refl
  length-insert x (y ∷ ys) = ground (arith, length-insert x ys)

  pub length-sort : (xs : List A) → length (sort before xs) ≡ length xs
  unfolding sort
  length-sort [] = refl
  length-sort (x ∷ xs) = length-insert x (sort before xs) ∙ ap suc (length-sort xs)

  pub mem-sort : (xs : List A) {z : A} → Memᴰ z xs → Memᴰ z (sort before xs)
  unfolding sort
  mem-sort [] m = elim m [ ]
  mem-sort (x ∷ xs) {z} (Memᴰ.head e) =
      subst (λ w. Memᴰ w (sort before (x ∷ xs))) (sym e) (mem-insert_self x (sort before xs))
  mem-sort (x ∷ xs) (Memᴰ.tail m) = mem-insert x (sort before xs) (mem-sort xs m)

  pub mem_of_mem-sort : (xs : List A) {z : A} → Memᴰ z (sort before xs) → Memᴰ z xs
  mem_of_mem-sort xs m =
      All-Memᴰ (λ w. Memᴰ w xs) (sort before xs)
        (All-sort (λ w. Memᴰ w xs) xs (All-of_mem _ xs (λ _ k. k))) m

module _ {A : Type 0} (key : A → String) (before : A → A → Bool) where
  -- On elements with different keys the comparator is a strict total order.
  pub record Ranks : Type 0 where
    pub asym : (a b : A) → key a ≢ key b → before a b ≡ true → before b a ≡ false
    pub total : (a b : A) → key a ≢ key b → before a b ≡ false → before b a ≡ true
    pub trans :
        (a b c : A)
        → key a ≢ key b
        → key b ≢ key c
        → key a ≢ key c
        → before a b ≡ true
        → before b c ≡ true
        → before a c ≡ true

  Distinct-insert :
      (x : A) (xs : List A)
      → All (λ y. key y ≢ key x) xs
      → Distinct key xs
      → Distinct key (insert before x xs)
  unfolding insert
  Distinct-insert x [] n d = (tt, tt)
  Distinct-insert x (y ∷ ys) (n, ns) (h, d) = elim (Bool-cases (before y x)) [
    | inl e ↦
        rw e (
          All-insert before (λ w. key w ≢ key y) x ys (λ k. n (sym k)) h,
          Distinct-insert x ys ns d,
        )
    | inr e ↦ rw e ((n, ns), (h, d))
  ]

  pub Distinct-sort : (xs : List A) → Distinct key xs → Distinct key (sort before xs)
  unfolding sort
  Distinct-sort [] d = tt
  Distinct-sort (x ∷ xs) (h, d) =
      Distinct-insert x (sort before xs) (All-sort before (λ w. key w ≢ key x) xs h)
        (Distinct-sort xs d)

  module _ (r : Ranks) where
    All-before :
        (x y : A) (ys : List A)
        → key y ≢ key x
        → before x y ≡ true
        → All (λ z. key z ≢ key x) ys
        → All (λ z. key z ≢ key y) ys
        → All (λ z. before y z ≡ true) ys
        → All (λ z. before x z ≡ true) ys
    All-before x y [] n e hx hy h = tt
    All-before x y (z ∷ ys) n e (kx, hx) (ky, hy) (k, h) = (
      r.trans x y z (λ p. n (sym p)) (λ p. ky (sym p)) (λ p. kx (sym p)) e k,
      All-before x y ys n e hx hy h,
    )

    IsSorted-insert :
        (x : A) (xs : List A)
        → All (λ y. key y ≢ key x) xs
        → Distinct key xs
        → IsSorted before xs
        → IsSorted before (insert before x xs)
    unfolding insert
    IsSorted-insert x [] n d s = (tt, tt)
    IsSorted-insert x (y ∷ ys) (n, ns) (h, d) (k, s) = elim (Bool-cases (before y x)) [
      | inl e ↦
          rw e (All-insert before (λ z. before y z ≡ true) x ys e k, IsSorted-insert x ys ns d s)
      | inr e ↦ let f = r.total y x n e in rw e ((f, All-before x y ys n f ns h k), (k, s))
    ]

    pub IsSorted-sort : (xs : List A) → Distinct key xs → IsSorted before (sort before xs)
    unfolding sort
    IsSorted-sort [] d = tt
    IsSorted-sort (x ∷ xs) (h, d) =
        IsSorted-insert x (sort before xs) (All-sort before (λ w. key w ≢ key x) xs h)
          (Distinct-sort xs d) (IsSorted-sort xs d)

    -- Two sorted lists with the same elements are equal.
    pub IsSorted-eq_of_mem :
        (xs ys : List A)
        → Distinct key xs
        → Distinct key ys
        → IsSorted before xs
        → IsSorted before ys
        → ((z : A) → Memᴰ z xs → Memᴰ z ys)
        → ((z : A) → Memᴰ z ys → Memᴰ z xs)
        → xs ≡ ys
    IsSorted-eq_of_mem [] [] d d' s s' f g = refl
    IsSorted-eq_of_mem [] (y ∷ ys) d d' s s' f g = elim (g y (Memᴰ.head refl)) [ ]
    IsSorted-eq_of_mem (x ∷ xs) [] d d' s s' f g = elim (f x (Memᴰ.head refl)) [ ]
    IsSorted-eq_of_mem (x ∷ xs) (y ∷ ys) (h, d) (h', d') (s, t) (s', t') f g =
        let e = heads (f x (Memᴰ.head refl)) (g y (Memᴰ.head refl)) in
        λ i.
          e i
          ∷ IsSorted-eq_of_mem xs ys d d' t t' (λ z m. rest x y xs ys e h z m (f z (Memᴰ.tail m)))
              (λ z m. rest y x ys xs (sym e) h' z m (g z (Memᴰ.tail m))) i
      where
        heads : Memᴰ x (y ∷ ys) → Memᴰ y (x ∷ xs) → x ≡ y
        heads (Memᴰ.head e) n = e
        heads (Memᴰ.tail m) (Memᴰ.head e) = sym e
        heads (Memᴰ.tail m) (Memᴰ.tail n) =
            let yx = All-Memᴰ (λ z. before y z ≡ true) ys s' m in
            let xy = All-Memᴰ (λ z. before x z ≡ true) xs s n in
            let ne = All-Memᴰ (λ z. key z ≢ key x) xs h n in absurd (cc (r.asym y x ne yx, xy))

        rest :
            (a b : A) (as_ bs : List A)
            → a ≡ b
            → All (λ w. key w ≢ key a) as_
            → (z : A) → Memᴰ z as_
            → Memᴰ z (b ∷ bs)
            → Memᴰ z bs
        rest a b as_ bs e k z m (Memᴰ.head q) =
            absurd (All-Memᴰ (λ w. key w ≢ key a) as_ k m (ap key (q ∙ sym e)))
        rest a b as_ bs e k z m (Memᴰ.tail n) = n

    pub sort_of_IsSorted :
        (xs : List A) → Distinct key xs → IsSorted before xs → sort before xs ≡ xs
    sort_of_IsSorted xs d s =
        IsSorted-eq_of_mem (sort before xs) xs (Distinct-sort xs d) d (IsSorted-sort xs d) s
          (λ z m. mem_of_mem-sort before xs m) (λ z m. mem-sort before xs m)
