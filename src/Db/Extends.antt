-- ===== src/Db/Extends.antt =====
-- Tables that grow: every row is followed by its new version, and new rows come after
-- (test/support/fake-db.ts).
use whatsapp_inbox.Shared.{List, [], ◌∷◌, ◌++◌}
use whatsapp_inbox.Db.Laws.{Pointwise}
use whatsapp_inbox.Db.Rows.{All}

-- Row by row, in order, and then new rows.
abbrev pub Extends : {A : Type 0} → (A → A → Type 0) → (A → Type 0) → List A → List A → Type 0
Extends R N [] ys = All N ys
Extends R N (x ∷ xs) [] = ⊥
Extends R N (x ∷ xs) (y ∷ ys) = R x y × Extends R N xs ys

module _ {A : Type 0} (R : A → A → Type 0) (N : A → Type 0) where
  pub Extends-snoc : ((x : A) → R x x) → (xs : List A) (y : A) → N y → Extends R N xs (xs ++ y ∷ [])
  Extends-snoc r [] y n = (n, tt)
  Extends-snoc r (x ∷ xs) y n = (r x, Extends-snoc r xs y n)

  pub Extends-Pointwise : (xs ys : List A) → Pointwise R xs ys → Extends R N xs ys
  Extends-Pointwise [] [] h = tt
  Extends-Pointwise (x ∷ xs) (y ∷ ys) (h, hs) = (h, Extends-Pointwise xs ys hs)
  Extends-Pointwise [] (y ∷ ys) h = elim h [ ]
  Extends-Pointwise (x ∷ xs) [] h = elim h [ ]

  All-Pointwise :
      ((x y : A) → R x y → N x → N y) → (xs ys : List A) → Pointwise R xs ys → All N xs → All N ys
  All-Pointwise k [] [] h a = tt
  All-Pointwise k (x ∷ xs) (y ∷ ys) (h, hs) (a, as_) = (k x y h a, All-Pointwise k xs ys hs as_)
  All-Pointwise k [] (y ∷ ys) h a = elim h [ ]
  All-Pointwise k (x ∷ xs) [] h a = elim h [ ]

  pub Extends-trans :
      ((x y z : A) → R x y → R y z → R x z)
      → ((x y : A) → R x y → N x → N y)
      → (xs ys zs : List A) → Extends R N xs ys
      → Pointwise R ys zs
      → Extends R N xs zs
  Extends-trans t k [] ys zs h p = All-Pointwise k ys zs p h
  Extends-trans t k (x ∷ xs) (y ∷ ys) (z ∷ zs) (h, hs) (p, ps) =
      (t x y z h p, Extends-trans t k xs ys zs hs ps)
  Extends-trans t k (x ∷ xs) [] zs h p = elim h [ ]
  Extends-trans t k (x ∷ xs) (y ∷ ys) [] h p = elim p [ ]
