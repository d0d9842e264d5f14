-- ===== src/Inbound/Upserts.antt =====
-- Upserts by a unique key, run twice (`contact.upsert` and `conversation.upsert` of
-- src/webhook-worker/inbound-messages.service.ts).
use whatsapp_inbox.Shared.{
  ◌≡◌, refl, inl, inr, Bool, true, false, none, some, List, [], ◌∷◌, ◌++◌, arith, Bool-cases,
  Option-cases,
}
use whatsapp_inbox.Db.{find_first, update_many, upsert}
use whatsapp_inbox.Db.Laws.{find_first-update_many, find_first_sound}
use whatsapp_inbox.Db.Rows.{All, All-append, All-Memᴰ, find_first-Memᴰ}

module _ {ℓ} {A : Type ℓ} (p : A → Bool) where
  pub find_first-snoc :
      (x : A) (xs : List A)
      → find_first p xs ≡ none
      → p x ≡ true
      → find_first p (xs ++ x ∷ []) ≡ some x
  unfolding find_first
  find_first-snoc x [] n h = rw h
  find_first-snoc x (y ∷ xs) n h = elim (Bool-cases (p y)) [
    | inl e ↦ absurd (ground arith)
    | inr e ↦ rw e (find_first-snoc x xs (rw e at n) h)
  ]

  none-All : (xs : List A) → find_first p xs ≡ none → All (λ x. p x ≡ false) xs
  unfolding find_first
  none-All [] n = tt
  none-All (x ∷ xs) n = elim (Bool-cases (p x)) [
    | inl e ↦ absurd (ground arith)
    | inr e ↦ (e, none-All xs (rw e at n))
  ]

pub All-map {ℓ} :
    {A : Type ℓ} {P Q : A → Type 0} → ((x : A) → P x → Q x) → (xs : List A) → All P xs → All Q xs
All-map h [] a = tt
All-map h (x ∷ xs) (a, as_) = (h x a, All-map h xs as_)

pub All-update_many {ℓ} :
    {A : Type ℓ} (P : A → Type 0) (q : A → Bool) (g : A → A)
    → ((x : A) → P x → P (g x))
    → (xs : List A) → All P xs
    → All P (update_many q g xs)
unfolding update_many
All-update_many P q g h [] a = tt
All-update_many P q g h (x ∷ xs) (a, as_) = elim (Bool-cases (q x)) [
  | inl e ↦ rw e (h x a, All-update_many P q g h xs as_)
  | inr e ↦ rw e (a, All-update_many P q g h xs as_)
]

-- All rows with the key are as the upsert's update leaves them.
abbrev pub Settled : {A : Type 0} → (A → Bool) → (A → A) → List A → Type 0
Settled p f rows = All (λ x. p x ≡ true → f x ≡ x) rows

module _ {A : Type 0} (p : A → Bool) (f : A → A) (same : (x : A) → p (f x) ≡ p x) where
  updated-Settled : ((x : A) → f (f x) ≡ f x) → (rows : List A) → Settled p f (update_many p f rows)
  unfolding update_many
  updated-Settled idem [] = tt
  updated-Settled idem (x ∷ rows) = elim (Bool-cases (p x)) [
    | inl e ↦ rw e ((λ _. idem x), updated-Settled idem rows)
    | inr e ↦ rw e ((λ k. absurd (ground (arith, e, k))), updated-Settled idem rows)
  ]

  pub upsert-found :
      (new : A) (rows : List A)
      → p new ≡ true
      → find_first p (upsert p new f rows).0 ≡ some (upsert p new f rows).1
  unfolding upsert
  upsert-found new rows h = elim (Option-cases (find_first p rows)) [
    | inl e ↦ rw (upsert, e) (find_first-snoc p new rows e h)
    | inr (r, e) ↦
        let q : p r ≡ true = find_first_sound p rows e in
        rw (upsert, e) (rw (find_first-update_many p p f same rows, e) (rw q))
  ]

  pub upsert-Settled :
      (new : A) (rows : List A)
      → ((x : A) → f (f x) ≡ f x)
      → f new ≡ new
      → Settled p f (upsert p new f rows).0
  unfolding upsert
  upsert-Settled new rows idem n = elim (Option-cases (find_first p rows)) [
    | inl e ↦
        rw (upsert, e)
          (All-append (λ x. p x ≡ true → f x ≡ x) rows
            (All-map (λ x k t. absurd (ground (arith, k, t))) rows (none-All p rows e)) (λ _. n))
    | inr (r, e) ↦ rw (upsert, e) (updated-Settled idem rows)
  ]

Settled-update_many :
    {A : Type 0} (p : A → Bool) (f : A → A) (rows : List A)
    → Settled p f rows
    → update_many p f rows ≡ rows
unfolding update_many
Settled-update_many p f [] s = refl
Settled-update_many p f (x ∷ rows) (h, s) = elim (Bool-cases (p x)) [
  | inl e ↦ rw (e, h e, Settled-update_many p f rows s)
  | inr e ↦ rw (e, Settled-update_many p f rows s)
]

-- On settled rows an upsert that finds its row writes nothing.
pub upsert_again :
    {A : Type 0} (p : A → Bool) (f : A → A) (new : A) (rows : List A) {row : A}
    → Settled p f rows
    → find_first p rows ≡ some row
    → f row ≡ row
    → upsert p new f rows ≡ (rows, row)
unfolding upsert
upsert_again p f new rows {row} s e k = rw (upsert, e) (rw (Settled-update_many p f rows s, k))

-- What holds of both outcomes holds of the table after.
pub upsert_cases :
    {A : Type 0} (P : List A → Type 0) (p : A → Bool) (f : A → A) (new : A) (rows : List A)
    → P (rows ++ new ∷ [])
    → P (update_many p f rows)
    → P (upsert p new f rows).0
unfolding upsert
upsert_cases P p f new rows h k = elim (Option-cases (find_first p rows)) [
  | inl e ↦ rw (upsert, e) h
  | inr (r, e) ↦ rw (upsert, e) k
]

-- The row that is found is settled too.
pub Settled-find_first :
    {A : Type 0} (p : A → Bool) (f : A → A) (rows : List A) {row : A}
    → Settled p f rows
    → find_first p rows ≡ some row
    → f row ≡ row
Settled-find_first p f rows s e =
    All-Memᴰ (λ x. p x ≡ true → f x ≡ x) rows s (find_first-Memᴰ p rows e)
      (find_first_sound p rows e)
