-- ===== src/Json.antt =====
-- Values that arrive from outside with the type `unknown`. A number is a natural one; an object is
-- its list of entries, in order.
use whatsapp_inbox.Shared.{ℕ, String, Bool, true, false, List, [], ◌∷◌, str_eq, if◌then◌else◌, Text}

mutual
  pub data Json : Type 0 where
    undefined null : Json
    bool : Bool → Json
    num : ℕ → Json
    str : Text → Json
    arr : Items → Json
    obj : Fields → Json

  pub data Items : Type 0 where
    nil : Items
    cons : Json → Items → Items

  pub data Fields : Type 0 where
    end : Fields
    field : String → Json → Fields → Fields

abbrev pub items : Items → List Json
items nil = []
items (cons v vs) = v ∷ items vs

abbrev pub entries : Fields → List (String × Json)
entries end = []
entries (field k v fs) = (k, v) ∷ entries fs

-- `o[key]`, `undefined` if there is no such key.
unfoldable pub get : String → List (String × Json) → Json
get key [] = undefined
get key ((k, v) ∷ rest) = if str_eq k key then v else get key rest

-- `v?.key`, `undefined` where `v` is no object.
abbrev pub field_of : String → Json → Json
field_of key (obj fs) = get key (entries fs)
field_of key _ = undefined

abbrev pub is_plain_object : Json → Bool
is_plain_object (obj _) = true
is_plain_object _ = false
