-- ===== src/Shared/Lists.antt =====
-- Lists measured by native numbers, Boolean quantifiers, and predicates by recursion.
use Prim.Native.Nat.{ℕ, zero, suc}
use mathlib.Core.Path.{◌≡◌, refl}
use mathlib.Core.Logic.{◌⊎◌, inl, inr}
use mathlib.Core.Bool.{Bool, true, false, ◌&&◌, ◌||◌}
use mathlib.Core.List.{List, [], ◌∷◌, Memᴰ}
use native.Mathlib.Omega.{arith}
use whatsapp_inbox.Shared.Tests.{Bool-cases}

pub or-true : (b : Bool) → (b || true) ≡ true
or-true true = refl
or-true false = refl

module _ {ℓ} {A : Type ℓ} where
  abbrev pub length : List A → ℕ
  length [] = 0
  length (x ∷ xs) = suc (length xs)

  abbrev pub take : ℕ → List A → List A
  take zero xs = []
  take (suc n) [] = []
  take (suc n) (x ∷ xs) = x ∷ take n xs

  -- `xs.some(p)` and `xs.every(p)`
  abbrev pub any : (A → Bool) → List A → Bool
  any p [] = false
  any p (x ∷ xs) = p x || any p xs

  abbrev pub all : (A → Bool) → List A → Bool
  all p [] = true
  all p (x ∷ xs) = p x && all p xs

  pub any→Memᴰ : (p : A → Bool) (xs : List A) → any p xs ≡ true → (x : A) × Memᴰ x xs × (p x ≡ true)
  any→Memᴰ p (x ∷ xs) h = elim (Bool-cases (p x)) [
    | inl e ↦ (x, Memᴰ.head refl, e)
    | inr e ↦ let (y, m, q) = any→Memᴰ p xs (ground arith) in (y, Memᴰ.tail m, q)
  ]
  any→Memᴰ p [] h = ground arith

  pub Memᴰ→any : (p : A → Bool) (xs : List A) {x : A} → Memᴰ x xs → p x ≡ true → any p xs ≡ true
  Memᴰ→any p [] m e = elim m [ ]
  Memᴰ→any p (y ∷ xs) (Memᴰ.head k) e = rw (← k) (rw e)
  Memᴰ→any p (y ∷ xs) (Memᴰ.tail m) e = rw (Memᴰ→any p xs m e) (or-true (p y))

  pub Memᴰ-cons : {x z : A} {xs : List A} → Memᴰ z (x ∷ xs) → (z ≡ x) ⊎ Memᴰ z xs
  Memᴰ-cons (Memᴰ.head e) = inl e
  Memᴰ-cons (Memᴰ.tail m) = inr m

  pub Memᴰ-single : {x z : A} → Memᴰ z (x ∷ []) → z ≡ x
  Memᴰ-single (Memᴰ.head e) = e
  Memᴰ-single (Memᴰ.tail m) = elim m [ ]
