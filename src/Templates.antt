-- ===== src/Templates.antt =====
-- Variables of a template (src/messaging/template.utils.ts).
use whatsapp_inbox.Shared.{
  ℕ, zero, suc, ◌+◌, ◌-◌, Bool, false, not, ◌&&◌, Option, none, some, List, [], ◌∷◌, ◌++◌, ltb,
  ◌==◌, if◌then◌else◌, get_or, length, Text, is_nil, is_space,
}
use whatsapp_inbox.Numbers.{is_digit, number}

-- The longest start of the text whose units pass the test, and the rest.
span : (ℕ → Bool) → Text → Text × Text
span p [] = ([], [])
span p (c ∷ cs) = let (taken, rest) = span p cs in if p c then (c ∷ taken, rest) else ([], c ∷ cs)

abbrev closes : Text → Bool
closes (a ∷ b ∷ _) = a == b'}' && b == b'}'
closes _ = false

-- A match of `{{ n }}` at the start of the text: the number, and the length of the match.
unfoldable pub match_variable : Text → Option (ℕ × ℕ)
unfolding span number
match_variable (a ∷ b ∷ s) =
    let (before, s1) = span is_space s in
    let (digits, s2) = span is_digit s1 in
    let (after, s3) = span is_space s2 in
    if a == b'{' && b == b'{' && not (is_nil digits) && closes s3
    then some (get_or (number digits) 0, 4 + length before + length digits + length after)
    else none
match_variable _ = none

abbrev larger : ℕ → ℕ → ℕ
larger a b = if ltb a b then b else a

-- `skip` units belong to the last match.
count_from : ℕ → Text → ℕ
unfolding match_variable
count_from skip [] = 0
count_from (suc skip) (c ∷ cs) = count_from skip cs
count_from zero (c ∷ cs) = elim (match_variable (c ∷ cs)) [
  | none ↦ count_from zero cs
  | some (n, len) ↦ larger n (count_from (len - 1) cs)
]

unfoldable pub count_template_variables : Text → ℕ
unfolding count_from
count_template_variables body = count_from 0 body

-- `params[n - 1] ?? ''`
abbrev param : ℕ → List Text → Text
param zero params = []
param (suc n) [] = []
param (suc zero) (p ∷ ps) = p
param (suc (suc n)) (p ∷ ps) = param (suc n) ps

render_from : ℕ → Text → List Text → Text
unfolding match_variable
render_from skip [] params = []
render_from (suc skip) (c ∷ cs) params = render_from skip cs params
render_from zero (c ∷ cs) params = elim (match_variable (c ∷ cs)) [
  | none ↦ c ∷ render_from zero cs params
  | some (n, len) ↦ param n params ++ render_from (len - 1) cs params
]

unfoldable pub render_template_body : Text → List Text → Text
unfolding render_from
render_template_body body params = render_from 0 body params
