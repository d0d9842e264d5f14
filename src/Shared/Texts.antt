-- ===== src/Shared/Texts.antt =====
-- Texts as the language holds them: lists of UTF-16 code units.
use Prim.Native.Char.{code}
use Prim.Native.Nat.{ℕ, ◌+◌, ◌-◌, ◌/◌, ◌%◌}
use Prim.Native.String.{String}
use mathlib.Core.Path.{◌≡◌, refl, ap, ◌∙◌}
use mathlib.Core.Logic.{◌↔◌, inl, inr}
use mathlib.Core.Bool.{Bool, true, false, ◌&&◌, ◌||◌}
use mathlib.Core.List.{List, [], ◌∷◌, ◌++◌}
use native.Mathlib.Omega.{arith}
use whatsapp_inbox.Shared.Tests.{Bool-cases, ltb, leb, ◌==◌, if◌then◌else◌}
use whatsapp_inbox.Shared.Lists.{any}

abbrev pub Text : Type 0
Text = List ℕ

-- A character past the basic plane is a pair of surrogates.
abbrev units : ℕ → Text
units c =
    if ltb c 0x10000
    then c ∷ []
    else (0xd800 + (c - 0x10000) / 0x400) ∷ (0xdc00 + (c - 0x10000) % 0x400) ∷ []

-- The code units of a literal.
abbrev pub utf16 : String → Text
utf16 String.[] = []
utf16 (String.◌∷◌ c s) = units (code c) ++ utf16 s

abbrev pub is_nil {ℓ} : {A : Type ℓ} → List A → Bool
is_nil [] = true
is_nil (_ ∷ _) = false

-- `a === b` on texts.
abbrev pub text_eq : Text → Text → Bool
text_eq [] [] = true
text_eq (c ∷ cs) (d ∷ ds) = c == d && text_eq cs ds
text_eq _ _ = false

pub text_eq_iff : (a b : Text) → (text_eq a b ≡ true) ↔ (a ≡ b)
text_eq_iff [] [] = (λ _. refl, λ _. refl)
text_eq_iff [] (d ∷ ds) = (λ e. ground arith, λ e. ground arith)
text_eq_iff (c ∷ cs) [] = (λ e. ground arith, λ e. ground arith)
text_eq_iff (c ∷ cs) (d ∷ ds) =
    let (to, from) = text_eq_iff cs ds in (λ e. ground arith, λ e. ground arith)

-- The white space and line ends that `trim` removes.
abbrev pub is_space : ℕ → Bool
is_space c =
    any (λ s. c == s)
      (0x9 ∷ 0xa ∷ 0xb ∷ 0xc ∷ 0xd ∷ 0x20 ∷ 0xa0 ∷ 0x1680 ∷ 0x2028 ∷ 0x2029 ∷ 0x202f ∷ 0x205f
        ∷ 0x3000 ∷ 0xfeff ∷ [])
    || (leb 0x2000 c && leb c 0x200a)

trim_start : Text → Text
trim_start [] = []
trim_start (c ∷ cs) = let rest = trim_start cs in if is_space c then rest else c ∷ cs

-- White space at the end goes where nothing else follows it.
trim_end : Text → Text
trim_end [] = []
trim_end (c ∷ cs) = let rest = trim_end cs in if is_space c && is_nil rest then [] else c ∷ rest

unfoldable pub trim : Text → Text
unfolding trim_start trim_end
trim s = trim_end (trim_start s)

-- The first character is no white space.
StartsInk : Text → Type 0
StartsInk [] = Unit
StartsInk (c ∷ cs) = is_space c ≡ false

trim_start-StartsInk : (s : Text) → StartsInk (trim_start s)
unfolding trim_start StartsInk
trim_start-StartsInk [] = tt
trim_start-StartsInk (c ∷ cs) = elim (Bool-cases (is_space c)) [
  | inl e ↦ rw e (trim_start-StartsInk cs)
  | inr e ↦ rw e e
]

trim_end-StartsInk : (s : Text) → StartsInk s → StartsInk (trim_end s)
unfolding trim_end StartsInk
trim_end-StartsInk [] h = tt
trim_end-StartsInk (c ∷ cs) h = rw h h

trim_start_of_ink : (s : Text) → StartsInk s → trim_start s ≡ s
unfolding trim_start StartsInk
trim_start_of_ink [] h = refl
trim_start_of_ink (c ∷ cs) h = rw h

trim_end_idem : (s : Text) → trim_end (trim_end s) ≡ trim_end s
unfolding trim_end
trim_end_idem [] = refl
trim_end_idem (c ∷ cs) = elim (Bool-cases (is_space c && is_nil (trim_end cs))) [
  | inl e ↦ rw e
  | inr e ↦ rw e (rw (trim_end_idem cs) (rw e))
]

pub trim_idem : (s : Text) → trim (trim s) ≡ trim s
unfolding trim
trim_idem s =
    ap trim_end (
      trim_start_of_ink (trim_end (trim_start s))
        (trim_end-StartsInk (trim_start s) (trim_start-StartsInk s)))
    ∙ trim_end_idem (trim_start s)
