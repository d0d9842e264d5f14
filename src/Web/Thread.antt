-- ===== src/Web/Thread.antt =====
-- The messages of a conversation as the client merges them (web/src/lib/merge.ts).
pub mod Replaced
pub mod Merged
pub mod Arrivals
use whatsapp_inbox.Shared.{
  String, Bool, true, not, ◌&&◌, Option, none, some, List, [], ◌∷◌, ◌++◌, map, ltb, ◌==◌, str_eq,
  opt_is, if◌then◌else◌, any,
}
use whatsapp_inbox.Order.{str_lt, sort}
use whatsapp_inbox.Web.Types.{Message}

-- `messageOrder(a, b) < 0`: by date, and by id among messages of one date.
unfoldable pub message_order : Message → Message → Bool
message_order a b =
    if ltb a.timestamp b.timestamp then true else a.timestamp == b.timestamp && str_lt a.id b.id

unfoldable pub sort_messages : List Message → List Message
sort_messages list = sort message_order list

-- The copy that comes in carries every field of a message, so that it replaces the row it is
-- spread over; its local mark goes.
unfoldable pub cleaned : Message → Message
cleaned incoming = record incoming { local = none }

-- `list.map` at the index that `findIndex` gives, and whether there is one.
unfoldable pub replace_first {ℓ} : {A : Type ℓ} → (A → Bool) → A → List A → List A
replace_first at_ m [] = []
replace_first at_ m (x ∷ xs) = if at_ x then m ∷ xs else x ∷ replace_first at_ m xs

unfoldable pub has_id : String → Message → Bool
has_id id m = str_eq m.id id

unfoldable pub has_key : String → Message → Bool
has_key key m = opt_is m.client_dedup_key key

-- The row that a message replaces is looked for by id, and by key only if it has a key that is not
-- empty.
place_by_key : Option String → Message → List Message → List Message
unfolding cleaned replace_first has_key
place_by_key none incoming list = list ++ cleaned incoming ∷ []
place_by_key (some key) incoming list =
    if not (str_eq key "") && any (has_key key) list
    then replace_first (has_key key) (cleaned incoming) list
    else list ++ cleaned incoming ∷ []

unfoldable pub place : Message → List Message → List Message
unfolding cleaned replace_first has_id place_by_key
place incoming list =
    if any (has_id incoming.id) list
    then replace_first (has_id incoming.id) (cleaned incoming) list
    else place_by_key incoming.client_dedup_key incoming list

unfoldable pub upsert_message : List Message → Message → List Message
unfolding sort_messages place
upsert_message list incoming = sort_messages (place incoming list)

-- `changes` is what spreading a partial message over a row does to it.
unfoldable pub apply_message_changes : List Message → String → (Message → Message) → List Message
unfolding has_id
apply_message_changes list id changes =
    if any (has_id id) list then map (λ m. if has_id id m then changes m else m) list else list
