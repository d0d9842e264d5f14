-- ===== src/Db/Rows.antt =====
-- Rows of a table by membership, and tables whose rows have distinct keys
-- (test/support/fake-db.ts).
use whatsapp_inbox.Shared.{
  String, ◌≡◌, refl, sym, ap, ◌∙◌, subst, ◌≢◌, ◌⊎◌, inl, inr, Bool, true, false, some, List, [],
  ◌∷◌, ◌++◌, Memᴰ, arith, Bool-cases, any,
}
use whatsapp_inbox.Db.{find_first, update_many, create, delete_many}
use whatsapp_inbox.Db.Laws.{Pointwise}

module _ {ℓ} {A : Type ℓ} where
  abbrev pub All : (A → Type 0) → List A → Type 0
  All P [] = Unit
  All P (x ∷ xs) = P x × All P xs

  pub All-Memᴰ : (P : A → Type 0) (xs : List A) {x : A} → All P xs → Memᴰ x xs → P x
  All-Memᴰ P [] h m = elim m [ ]
  All-Memᴰ P (y ∷ xs) (h, hs) (Memᴰ.head e) = subst P (sym e) h
  All-Memᴰ P (y ∷ xs) (h, hs) (Memᴰ.tail m) = All-Memᴰ P xs hs m

  pub All-append : (P : A → Type 0) (xs : List A) {x : A} → All P xs → P x → All P (xs ++ x ∷ [])
  All-append P [] hs h = (h, tt)
  All-append P (y ∷ xs) (k, hs) h = (k, All-append P xs hs h)

  pub Memᴰ-append_left : (xs ys : List A) {x : A} → Memᴰ x xs → Memᴰ x (xs ++ ys)
  Memᴰ-append_left [] ys m = elim m [ ]
  Memᴰ-append_left (y ∷ xs) ys (Memᴰ.head e) = Memᴰ.head e
  Memᴰ-append_left (y ∷ xs) ys (Memᴰ.tail m) = Memᴰ.tail (Memᴰ-append_left xs ys m)

  pub Memᴰ-append_right : (xs : List A) {ys : List A} {x : A} → Memᴰ x ys → Memᴰ x (xs ++ ys)
  Memᴰ-append_right [] m = m
  Memᴰ-append_right (y ∷ xs) m = Memᴰ.tail (Memᴰ-append_right xs m)

  pub Memᴰ-append_cases : (xs : List A) {x y : A} → Memᴰ x (xs ++ y ∷ []) → Memᴰ x xs ⊎ (x ≡ y)
  Memᴰ-append_cases [] (Memᴰ.head e) = inr e
  Memᴰ-append_cases [] (Memᴰ.tail m) = elim m [ ]
  Memᴰ-append_cases (z ∷ xs) (Memᴰ.head e) = inl (Memᴰ.head e)
  Memᴰ-append_cases (z ∷ xs) (Memᴰ.tail m) = elim (Memᴰ-append_cases xs m) [
    | inl k ↦ inl (Memᴰ.tail k)
    | inr e ↦ inr e
  ]

  pub Pointwise_forwards :
      (R : A → A → Type 0) (xs ys : List A) {x : A}
      → Pointwise R xs ys
      → Memᴰ x xs
      → (y : A) × Memᴰ y ys × R x y
  Pointwise_forwards R [] ys h m = elim m [ ]
  Pointwise_forwards R (z ∷ xs) (y ∷ ys) {x} (h, hs) (Memᴰ.head e) =
      (y, Memᴰ.head refl, subst (λ w. R w y) (sym e) h)
  Pointwise_forwards R (z ∷ xs) (y ∷ ys) (h, hs) (Memᴰ.tail m) =
      let (w, k, r) = Pointwise_forwards R xs ys hs m in (w, Memᴰ.tail k, r)
  Pointwise_forwards R (z ∷ xs) [] h m = elim h [ ]

  pub Pointwise_backwards :
      (R : A → A → Type 0) (xs ys : List A) {y : A}
      → Pointwise R xs ys
      → Memᴰ y ys
      → (x : A) × Memᴰ x xs × R x y
  Pointwise_backwards R [] [] h m = elim m [ ]
  Pointwise_backwards R (x ∷ xs) [] h m = elim h [ ]
  Pointwise_backwards R (x ∷ xs) (z ∷ ys) {y} (h, hs) (Memᴰ.head e) =
      (x, Memᴰ.head refl, subst (λ w. R x w) (sym e) h)
  Pointwise_backwards R (x ∷ xs) (z ∷ ys) (h, hs) (Memᴰ.tail m) =
      let (w, k, r) = Pointwise_backwards R xs ys hs m in (w, Memᴰ.tail k, r)
  Pointwise_backwards R [] (z ∷ ys) h m = elim h [ ]

  -- A bulk update, where what it does to a row may be known only for rows of the table.
  pub Pointwise-update_many_mem :
      (R : A → A → Type 0) (p : A → Bool) (f : A → A)
      → (xs : List A) → ((x : A) → Memᴰ x xs → p x ≡ false → R x x)
      → ((x : A) → Memᴰ x xs → p x ≡ true → R x (f x))
      → Pointwise R xs (update_many p f xs)
  unfolding update_many
  Pointwise-update_many_mem R p f [] r h = tt
  Pointwise-update_many_mem R p f (x ∷ xs) r h =
      let rest =
        Pointwise-update_many_mem R p f xs (λ y m. r y (Memᴰ.tail m)) (λ y m. h y (Memᴰ.tail m)) in
      elim (Bool-cases (p x)) [
        | inl e ↦ rw e (h x (Memᴰ.head refl) e, rest)
        | inr e ↦ rw e (r x (Memᴰ.head refl) e, rest)
      ]

  pub find_first-Memᴰ : (q : A → Bool) (xs : List A) {x : A} → find_first q xs ≡ some x → Memᴰ x xs
  unfolding find_first
  find_first-Memᴰ q [] e = absurd (cc)
  find_first-Memᴰ q (y ∷ xs) {x} e = elim (Bool-cases (q y)) [
    | inl k ↦ Memᴰ.head (ground arith)
    | inr k ↦ Memᴰ.tail (find_first-Memᴰ q xs (ground arith))
  ]

  pub All-delete_many : (q : A → Bool) (xs : List A) → All (λ x. q x ≡ false) (delete_many q xs)
  unfolding delete_many
  All-delete_many q [] = tt
  All-delete_many q (x ∷ xs) = elim (Bool-cases (q x)) [
    | inl e ↦ rw e (All-delete_many q xs)
    | inr e ↦ rw e (e, All-delete_many q xs)
  ]

  -- What a row that was created says: no row of the table clashes with it.
  pub create_lem :
      (clash : A → A → Bool) (row : A) (rows rows' : List A)
      → create clash row rows ≡ some rows'
      → (rows' ≡ rows ++ row ∷ []) × All (λ x. clash row x ≡ false) rows
  unfolding create
  create_lem clash row rows rows' h = elim (Bool-cases (any (clash row) rows)) [
    | inl e ↦ absurd (ground arith)
    | inr e ↦ (ground arith, none_clash rows e)
  ]
    where
      none_clash : (xs : List A) → any (clash row) xs ≡ false → All (λ x. clash row x ≡ false) xs
      none_clash [] k = tt
      none_clash (x ∷ xs) k = (ground arith, none_clash xs (ground arith))

module _ {ℓ} {A : Type ℓ} (key : A → String) where
  abbrev pub Distinct : List A → Type 0
  Distinct [] = Unit
  Distinct (x ∷ xs) = All (λ y. key y ≢ key x) xs × Distinct xs

  pub Distinct-eq :
      (xs : List A) {x y : A} → Distinct xs → Memᴰ x xs → Memᴰ y xs → key x ≡ key y → x ≡ y
  Distinct-eq [] d m n s = elim m [ ]
  Distinct-eq (z ∷ xs) (h, hs) (Memᴰ.head e) (Memᴰ.head k) s = e ∙ sym k
  Distinct-eq (z ∷ xs) {x} {y} (h, hs) (Memᴰ.head e) (Memᴰ.tail m) s =
      absurd (All-Memᴰ (λ w. key w ≢ key z) xs h m (sym s ∙ ap key e))
  Distinct-eq (z ∷ xs) (h, hs) (Memᴰ.tail m) (Memᴰ.head k) s =
      absurd (All-Memᴰ (λ w. key w ≢ key z) xs h m (s ∙ ap key k))
  Distinct-eq (z ∷ xs) (h, hs) (Memᴰ.tail m) (Memᴰ.tail n) s = Distinct-eq xs hs m n s

  pub Distinct-append :
      (xs : List A) (x : A) → Distinct xs → All (λ y. key y ≢ key x) xs → Distinct (xs ++ x ∷ [])
  Distinct-append [] x d h = (tt, tt)
  Distinct-append (y ∷ xs) x (k, d) (h, hs) =
      (All-append (λ w. key w ≢ key y) xs k (λ e. h (sym e)), Distinct-append xs x d hs)

  All-Pointwise :
      (k : String) (xs ys : List A)
      → Pointwise (λ x y. key y ≡ key x) xs ys
      → All (λ w. key w ≢ k) xs
      → All (λ w. key w ≢ k) ys
  All-Pointwise k [] [] h a = tt
  All-Pointwise k (x ∷ xs) (y ∷ ys) (h, hs) (n, a) =
      (λ e. n (sym h ∙ e), All-Pointwise k xs ys hs a)
  All-Pointwise k [] (y ∷ ys) h a = elim h [ ]
  All-Pointwise k (x ∷ xs) [] h a = elim h [ ]

  -- Updates that leave the key alone keep keys distinct.
  pub Distinct-Pointwise :
      (xs ys : List A) → Pointwise (λ x y. key y ≡ key x) xs ys → Distinct xs → Distinct ys
  Distinct-Pointwise [] [] h d = tt
  Distinct-Pointwise (x ∷ xs) (y ∷ ys) (h, hs) (n, d) =
      (rw h (All-Pointwise (key x) xs ys hs n), Distinct-Pointwise xs ys hs d)
  Distinct-Pointwise [] (y ∷ ys) h d = elim h [ ]
  Distinct-Pointwise (x ∷ xs) [] h d = elim h [ ]
