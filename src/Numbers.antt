-- ===== src/Numbers.antt =====
-- Numbers that arrive as texts (`parseEpochSeconds` of src/webhook-worker/message-mapping.ts).
-- `number` is the language's conversion on texts of decimal digits; on every other text the model
-- answers `none`, which stands for NaN.
use whatsapp_inbox.Shared.{
  ℕ, ◌+◌, ◌-◌, ◌*◌, Bool, ◌&&◌, Option, none, some, [], ◌∷◌, leb, if◌then◌else◌, Text,
}

abbrev pub is_digit : ℕ → Bool
is_digit c = leb b'0' c && leb c b'9'

number_from : ℕ → Text → Option ℕ
number_from acc [] = some acc
number_from acc (c ∷ cs) =
    let rest = number_from (10 * acc + (c - b'0')) cs in if is_digit c then rest else none

-- The empty text is 0.
unfoldable pub number : Text → Option ℕ
unfolding number_from
number s = number_from 0 s

epoch_of : Option ℕ → Option ℕ
epoch_of none = none
epoch_of (some seconds) = if leb seconds 0 then none else some (seconds * 1000)

-- `Number(undefined)` is NaN.
unfoldable pub parse_epoch_seconds : Option Text → Option ℕ
unfolding epoch_of number
parse_epoch_seconds none = none
parse_epoch_seconds (some value) = epoch_of (number value)
