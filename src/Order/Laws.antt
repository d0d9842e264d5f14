-- ===== src/Order/Laws.antt =====
-- The laws of the order of texts.
use Prim.Native.Nat.{Ordering, compare as compare_ℕ}
use Prim.Native.Char.{code}
use Prim.Native.String.compare as clauses
use Prim.Native.String.{compare, then}
use text.Mathlib.TextEquality.{path_by_compare}
use whatsapp_inbox.Shared.{ℕ, String, ◌≡◌, refl, sym, ◌∙◌, ◌≢◌, true, false, arith}
use whatsapp_inbox.Order.{str_lt}

flip : Ordering → Ordering
flip Ordering.lt = Ordering.gt
flip Ordering.eq = Ordering.eq
flip Ordering.gt = Ordering.lt

compare_ℕ-flip : (m n : ℕ) → compare_ℕ n m ≡ flip (compare_ℕ m n)
unfolding flip
compare_ℕ-flip m n = ground arith

flip-then : (o p : Ordering) → then (flip o) (flip p) ≡ flip (then o p)
unfolding flip
flip-then Ordering.lt p = refl
flip-then Ordering.eq p = refl
flip-then Ordering.gt p = refl

compare-flip : (a b : String) → compare b a ≡ flip (compare a b)
unfolding flip
compare-flip String.[] String.[] = rw clauses.nil-nil
compare-flip String.[] (String.◌∷◌ d t) = rw (clauses.nil-cons d t, clauses.cons-nil d t)
compare-flip (String.◌∷◌ c s) String.[] = rw (clauses.nil-cons c s, clauses.cons-nil c s)
compare-flip (String.◌∷◌ c s) (String.◌∷◌ d t) =
    rw
      (
        clauses.cons-cons c d s t,
        clauses.cons-cons d c t s,
        compare-flip s t,
        compare_ℕ-flip (code c) (code d),
      )
      (flip-then (compare_ℕ (code c) (code d)) (compare s t))

then-lt :
    (m n k : ℕ) (o p q : Ordering)
    → (o ≡ Ordering.lt → p ≡ Ordering.lt → q ≡ Ordering.lt)
    → then (compare_ℕ m n) o ≡ Ordering.lt
    → then (compare_ℕ n k) p ≡ Ordering.lt
    → then (compare_ℕ m k) q ≡ Ordering.lt
then-lt m n k o p q t h l = ground arith

compare_trans :
    (a b c : String)
    → compare a b ≡ Ordering.lt
    → compare b c ≡ Ordering.lt
    → compare a c ≡ Ordering.lt
compare_trans a String.[] String.[] h k = absurd (cc (clauses.nil-nil, k))
compare_trans String.[] b (String.◌∷◌ e u) h k = rw (clauses.nil-cons e u)
compare_trans String.[] (String.◌∷◌ d t) String.[] h k = absurd (cc (clauses.cons-nil d t, k))
compare_trans (String.◌∷◌ c s) String.[] (String.◌∷◌ e u) h k =
    absurd (cc (clauses.cons-nil c s, h))
compare_trans (String.◌∷◌ c s) (String.◌∷◌ d t) String.[] h k =
    absurd (cc (clauses.cons-nil d t, k))
compare_trans (String.◌∷◌ c s) (String.◌∷◌ d t) (String.◌∷◌ e u) h k =
    rw (clauses.cons-cons c e s u) (
      then-lt (code c) (code d) (code e) (compare s t) (compare t u) (compare s u)
        (compare_trans s t u) (sym (clauses.cons-cons c d s t) ∙ h)
        (sym (clauses.cons-cons d e t u) ∙ k))

pub str_lt_asym : (a b : String) → str_lt a b ≡ true → str_lt b a ≡ false
unfolding flip
str_lt_asym a b h = ground (arith, compare-flip a b)

pub str_lt_total : (a b : String) → a ≢ b → str_lt a b ≡ false → str_lt b a ≡ true
unfolding flip
str_lt_total a b n h = ground (arith, compare-flip a b, path_by_compare a b)

pub str_lt_trans : (a b c : String) → str_lt a b ≡ true → str_lt b c ≡ true → str_lt a c ≡ true
str_lt_trans a b c h k = ground (arith, compare_trans a b c)
