-- ===== src/Inbox/Pages/Suffix.antt =====
-- What comes after an element of a sorted list.
use native.Mathlib.Numerals.{add-one}
use whatsapp_inbox.Shared.{
  ℕ, zero, suc, ◌+◌, ◌-◌, ◌≤◌, String, ◌≡◌, refl, ap, subst, inl, inr, Bool, true, false, some,
  List, [], ◌∷◌, ◌++◌, Memᴰ, arith, ltb, length, take, Memᴰ-cons,
}
use whatsapp_inbox.Db.Rows.{All, All-Memᴰ, Distinct}
use whatsapp_inbox.Order.Sorted.{IsSorted}
use whatsapp_inbox.Inbox.Pages.{last}

module _ {A : Type 0} where
  unfoldable pub drop : ℕ → List A → List A
  drop zero xs = xs
  drop (suc n) [] = []
  drop (suc n) (x ∷ xs) = drop n xs

  pub mem-drop : (n : ℕ) (xs : List A) {z : A} → Memᴰ z (drop n xs) → Memᴰ z xs
  unfolding drop
  mem-drop zero xs m = m
  mem-drop (suc n) [] m = m
  mem-drop (suc n) (x ∷ xs) m = Memᴰ.tail (mem-drop n xs m)

  All-drop : (P : A → Type 0) (n : ℕ) (xs : List A) → All P xs → All P (drop n xs)
  unfolding drop
  All-drop P zero xs h = h
  All-drop P (suc n) [] h = h
  All-drop P (suc n) (x ∷ xs) (h, hs) = All-drop P n xs hs

  pub Distinct-drop :
      (key : A → String) (n : ℕ) (xs : List A) → Distinct key xs → Distinct key (drop n xs)
  unfolding drop
  Distinct-drop key zero xs d = d
  Distinct-drop key (suc n) [] d = d
  Distinct-drop key (suc n) (x ∷ xs) (h, d) = Distinct-drop key n xs d

  pub length-drop : (n : ℕ) (xs : List A) → length (drop n xs) ≡ length xs - n
  unfolding drop
  length-drop zero xs = omega arith
  length-drop (suc n) [] = omega arith
  length-drop (suc n) (x ∷ xs) = omega (arith, length-drop n xs)

  pub take-drop : (n : ℕ) (xs : List A) → take n xs ++ drop n xs ≡ xs
  unfolding drop
  take-drop zero xs = refl
  take-drop (suc n) [] = refl
  take-drop (suc n) (x ∷ xs) = ap (◌∷◌ x) (take-drop n xs)

  -- A short list is taken whole.
  pub take_short : (list : List A) (bound : ℕ) → length list ≤ bound → take bound list ≡ list
  take_short [] zero short = refl
  take_short [] (suc bound) short = refl
  take_short (first ∷ list) (suc bound) short =
      let shorter : length list ≤ bound = omega arith in rw (take_short list bound shorter) refl
  take_short (first ∷ list) zero short = elim (none_left (length list) short) [ ]
    where
      none_left : (n : ℕ) → suc n ≤ 0 → ⊥
      none_left n e = omega arith

  pub take-take_suc : (n : ℕ) (xs : List A) → take n (take (n + 1) xs) ≡ take n xs
  take-take_suc n xs = rw add-one (go n xs)
    where
      go : (n : ℕ) (xs : List A) → take n (take (suc n) xs) ≡ take n xs
      go zero xs = refl
      go (suc n) [] = refl
      go (suc n) (x ∷ xs) = ap (◌∷◌ x) (go n xs)

  pub ltb-length-take : (n : ℕ) (xs : List A) → ltb n (length (take (n + 1) xs)) ≡ ltb n (length xs)
  ltb-length-take n xs = rw add-one (go n xs)
    where
      go : (n : ℕ) (xs : List A) → ltb n (length (take (suc n) xs)) ≡ ltb n (length xs)
      go zero [] = refl
      go zero (x ∷ xs) = ground arith
      go (suc n) [] = refl
      go (suc n) (x ∷ xs) = ground (arith, go n xs)

  pub last_of_long :
      (n : ℕ) (xs : List A) → suc n ≤ length xs → (k : A) × (last (take (suc n) xs) ≡ some k)
  unfolding last
  last_of_long n [] h = absurd (omega arith)
  last_of_long zero (x ∷ xs) h = (x, refl)
  last_of_long (suc n) (x ∷ []) h = absurd (omega arith)
  last_of_long (suc n) (x ∷ y ∷ xs) h = last_of_long n (y ∷ xs) (omega arith)

  pub last-Memᴰ : (n : ℕ) (xs : List A) {k : A} → last (take n xs) ≡ some k → Memᴰ k xs
  unfolding last
  last-Memᴰ zero xs h = absurd (cc)
  last-Memᴰ (suc n) [] h = absurd (cc)
  last-Memᴰ (suc zero) (x ∷ xs) h = Memᴰ.head (ground arith)
  last-Memᴰ (suc (suc n)) (x ∷ []) h = Memᴰ.head (ground arith)
  last-Memᴰ (suc (suc n)) (x ∷ y ∷ xs) h = Memᴰ.tail (last-Memᴰ (suc n) (y ∷ xs) h)

module _ {A : Type 0} (before : A → A → Bool) where
  pub IsSorted-drop : (n : ℕ) (xs : List A) → IsSorted before xs → IsSorted before (drop n xs)
  unfolding drop
  IsSorted-drop zero xs s = s
  IsSorted-drop (suc n) [] s = s
  IsSorted-drop (suc n) (x ∷ xs) (h, s) = IsSorted-drop n xs s

  -- Behind the last element of the first `n` stand those that it comes before.
  pub drop_after :
      (n : ℕ) (xs : List A) {k z : A}
      → IsSorted before xs
      → last (take n xs) ≡ some k
      → Memᴰ z (drop n xs)
      → before k z ≡ true
  unfolding drop last
  drop_after zero xs s h m = absurd (cc)
  drop_after (suc n) [] s h m = absurd (cc)
  drop_after (suc zero) (x ∷ xs) {k} {z} (b, s) h m =
      let e : x ≡ k = ground arith in
      subst (λ w. before w z ≡ true) e (All-Memᴰ (λ y. before x y ≡ true) xs b m)
  drop_after (suc (suc n)) (x ∷ []) s h m = elim m [ ]
  drop_after (suc (suc n)) (x ∷ y ∷ xs) (b, s) h m = drop_after (suc n) (y ∷ xs) s h m

  pub after_drop :
      ((a b : A) → before a b ≡ true → before b a ≡ false)
      → (n : ℕ) (xs : List A) {k z : A} → IsSorted before xs
      → last (take n xs) ≡ some k
      → Memᴰ z xs
      → before k z ≡ true
      → Memᴰ z (drop n xs)
  unfolding drop last
  after_drop asym zero xs s h m e = m
  after_drop asym (suc n) [] s h m e = m
  after_drop asym (suc zero) (x ∷ xs) {k} {z} (b, s) h m e = elim (Memᴰ-cons m) [
    | inl q ↦
        let same : k ≡ z = ground arith in
        absurd (cc (asym k z e, ap (before k) same, ap (λ w. before w k) same, e))
    | inr m' ↦ m'
  ]
  after_drop asym (suc (suc n)) (x ∷ []) {k} {z} s h m e = elim (Memᴰ-cons m) [
    | inl q ↦
        let same : k ≡ z = ground arith in
        absurd (cc (asym k z e, ap (before k) same, ap (λ w. before w k) same, e))
    | inr m' ↦ m'
  ]
  after_drop asym (suc (suc n)) (x ∷ y ∷ xs) {k} {z} (b, s) h m e = elim (Memᴰ-cons m) [
    | inl q ↦
        let l = All-Memᴰ (λ w. before x w ≡ true) (y ∷ xs) b (last-Memᴰ (suc n) (y ∷ xs) h) in
        absurd (cc (asym x k l, ap (before k) q, e))
    | inr m' ↦ after_drop asym (suc n) (y ∷ xs) s h m' e
  ]
