-- ===== src/Db/Laws.antt =====
-- Bulk updates and searches on the rows of a table (`updateMany` and `findFirst` of
-- test/support/fake-db.ts).
use whatsapp_inbox.Shared.{
  ◌≡◌, refl, inl, inr, Bool, true, some, List, [], ◌∷◌, arith, if◌then◌else◌, Bool-cases,
}
use mathlib.Core.Option
use whatsapp_inbox.Db.{find_first, update_many}

-- Row by row, in order.
abbrev pub Pointwise {ℓ} : {A : Type ℓ} → (A → A → Type 0) → List A → List A → Type 0
Pointwise R [] [] = Unit
Pointwise R (x ∷ xs) (y ∷ ys) = R x y × Pointwise R xs ys
Pointwise R [] (y ∷ ys) = ⊥
Pointwise R (x ∷ xs) [] = ⊥

module _ {ℓ} {A : Type ℓ} (R : A → A → Type 0) where
  pub Pointwise-refl : ((x : A) → R x x) → (xs : List A) → Pointwise R xs xs
  Pointwise-refl r [] = tt
  Pointwise-refl r (x ∷ xs) = (r x, Pointwise-refl r xs)

  pub Pointwise-trans :
      ((x y z : A) → R x y → R y z → R x z)
      → (xs ys zs : List A) → Pointwise R xs ys
      → Pointwise R ys zs
      → Pointwise R xs zs
  Pointwise-trans t [] [] [] h k = tt
  Pointwise-trans t (x ∷ xs) (y ∷ ys) (z ∷ zs) (h, hs) (k, ks) =
      (t x y z h k, Pointwise-trans t xs ys zs hs ks)
  Pointwise-trans t [] [] (z ∷ zs) h k = elim k [ ]
  Pointwise-trans t [] (y ∷ ys) zs h k = elim h [ ]
  Pointwise-trans t (x ∷ xs) [] zs h k = elim h [ ]
  Pointwise-trans t (x ∷ xs) (y ∷ ys) [] h k = elim k [ ]

  pub Pointwise-update_many :
      (p : A → Bool) (f : A → A)
      → ((x : A) → R x x)
      → ((x : A) → p x ≡ true → R x (f x))
      → (xs : List A) → Pointwise R xs (update_many p f xs)
  unfolding update_many
  Pointwise-update_many p f r h [] = tt
  Pointwise-update_many p f r h (x ∷ xs) = elim (Bool-cases (p x)) [
    | inl e ↦ rw e (h x e, Pointwise-update_many p f r h xs)
    | inr e ↦ rw e (r x, Pointwise-update_many p f r h xs)
  ]

module _ {ℓ} {A : Type ℓ} where
  -- An update that changes no row.
  pub update_many-same : (p : A → Bool) (xs : List A) → update_many p (λ x. x) xs ≡ xs
  unfolding update_many
  update_many-same p [] = refl
  update_many-same p (x ∷ xs) = ground (arith, update_many-same p xs)

  -- One update after another is one update, if the first leaves the second's test alone.
  pub update_many-update_many :
      (p q : A → Bool) (f g : A → A)
      → ((x : A) → q (f x) ≡ q x)
      → (xs : List A)
      → update_many q g (update_many p f xs)
        ≡ update_many
            (λ _. true)
            (λ x. let y = (if p x then f x else x) in if q x then g y else y)
            xs
  unfolding update_many
  update_many-update_many p q f g h [] = refl
  update_many-update_many p q f g h (x ∷ xs) = elim (Bool-cases (p x)) [
    | inl e ↦ rw (e, h x, update_many-update_many p q f g h xs)
    | inr e ↦ rw (e, update_many-update_many p q f g h xs)
  ]

  -- Two updates that agree on every row.
  pub update_many-ext :
      (p q : A → Bool) (f g : A → A)
      → ((x : A) → ◌≡◌ {A = A} (if p x then f x else x) (if q x then g x else x))
      → (xs : List A) → update_many p f xs ≡ update_many q g xs
  unfolding update_many
  update_many-ext p q f g h [] = refl
  update_many-ext p q f g h (x ∷ xs) = λ i. h x i ∷ update_many-ext p q f g h xs i

  pub find_first-update_many :
      (p q : A → Bool) (f : A → A)
      → ((x : A) → q (f x) ≡ q x)
      → (xs : List A)
      → find_first q (update_many p f xs)
        ≡ Option.map (λ x. if p x then f x else x) (find_first q xs)
  unfolding find_first update_many
  find_first-update_many p q f h [] = refl
  find_first-update_many p q f h (x ∷ xs) = elim (Bool-cases (p x)) [
    | inl e ↦ elim (Bool-cases (q x)) [
      | inl k ↦ rw (e, h x, k, e)
      | inr k ↦ rw (e, h x, k, find_first-update_many p q f h xs)
    ]
    | inr e ↦ elim (Bool-cases (q x)) [
      | inl k ↦ rw (e, k, e)
      | inr k ↦ rw (e, k, find_first-update_many p q f h xs)
    ]
  ]

  pub find_first_sound :
      (q : A → Bool) (xs : List A) {x : A} → find_first q xs ≡ some x → q x ≡ true
  unfolding find_first
  find_first_sound q [] e = cc
  find_first_sound q (y ∷ xs) {x} e = elim (Bool-cases (q y)) [
    | inl k ↦ ground arith
    | inr k ↦ find_first_sound q xs (ground arith)
  ]

module _ {ℓ} {A : Type ℓ} where
  pub update_many-comp :
      (p : A → Bool) (f g : A → A)
      → ((x : A) → p (f x) ≡ p x)
      → (xs : List A) → update_many p g (update_many p f xs) ≡ update_many p (λ x. g (f x)) xs
  unfolding update_many
  update_many-comp p f g h [] = refl
  update_many-comp p f g h (x ∷ xs) = elim (Bool-cases (p x)) [
    | inl e ↦ rw (e, h x, e, update_many-comp p f g h xs)
    | inr e ↦ rw (e, e, update_many-comp p f g h xs)
  ]

  -- Updates whose functions commute, and of which neither moves a row into or out of the other's
  -- test, may be run in either order.
  pub update_many_comm :
      (p q : A → Bool) (f g : A → A)
      → ((x : A) → p (g x) ≡ p x)
      → ((x : A) → q (f x) ≡ q x)
      → ((x : A) → g (f x) ≡ f (g x))
      → (xs : List A) → update_many q g (update_many p f xs) ≡ update_many p f (update_many q g xs)
  unfolding update_many
  update_many_comm p q f g hp hq c [] = refl
  update_many_comm p q f g hp hq c (x ∷ xs) = elim (Bool-cases (p x)) [
    | inl e ↦ elim (Bool-cases (q x)) [
      | inl k ↦ rw (e, k, hp x, hq x, e, k, c x, update_many_comm p q f g hp hq c xs)
      | inr k ↦ rw (e, k, hq x, e, k, update_many_comm p q f g hp hq c xs)
    ]
    | inr e ↦ elim (Bool-cases (q x)) [
      | inl k ↦ rw (e, k, hp x, e, update_many_comm p q f g hp hq c xs)
      | inr k ↦ rw (e, k, e, update_many_comm p q f g hp hq c xs)
    ]
  ]
