-- ===== src/Web/Rows/Ranked.antt =====
-- The order of the list of conversations is a strict total order on rows with different ids
-- (`conversationOrder` of web/src/lib/merge.ts).
use whatsapp_inbox.Shared.{String, ◌≡◌, ◌≢◌, true, false, not, arith}
use whatsapp_inbox.Order.{str_lt}
use whatsapp_inbox.Order.Newest.{newest_first_asym, newest_first_total, newest_first_trans}
use whatsapp_inbox.Order.Laws.{str_lt_asym, str_lt_total, str_lt_trans}
use whatsapp_inbox.Order.Sorted.{Ranks}
use whatsapp_inbox.Web.Types.{Conversation}
use whatsapp_inbox.Web.Rows.{conversation_order}

abbrev pub row_id : Conversation → String
row_id c = c.id

tie_asym : (a b : String) → a ≢ b → not (str_lt a b) ≡ true → not (str_lt b a) ≡ false
tie_asym a b n h = ground (arith, str_lt_total a b)

tie_total : (a b : String) → not (str_lt a b) ≡ false → not (str_lt b a) ≡ true
tie_total a b h = ground (arith, str_lt_asym a b)

tie_trans :
    (a b c : String)
    → a ≢ b
    → b ≢ c
    → a ≢ c
    → not (str_lt a b) ≡ true
    → not (str_lt b c) ≡ true
    → not (str_lt a c) ≡ true
tie_trans a b c n n' n'' h k =
    ground (arith, str_lt_total a b, str_lt_total b c, str_lt_trans c b a, str_lt_asym a c)

pub conversation_order-Ranks : Ranks row_id conversation_order
unfolding conversation_order
conversation_order-Ranks = record {
  asym = λ a b n h.
      newest_first_asym a.pinned_at b.pinned_at _ _ _ _ (tie_asym a.id b.id n)
        (newest_first_asym a.last_message_at b.last_message_at _ _ _ _ (tie_asym a.id b.id n)
          (tie_asym a.id b.id n))
        h;
  total = λ a b n h.
      newest_first_total a.pinned_at b.pinned_at _ _ _ _ (tie_total a.id b.id)
        (newest_first_total a.last_message_at b.last_message_at _ _ _ _ (tie_total a.id b.id)
          (tie_total a.id b.id))
        h;
  trans = λ a b c n n' n'' h k.
      newest_first_trans a.pinned_at b.pinned_at c.pinned_at _ _ _ _ _ _
        (tie_trans a.id b.id c.id n n' n'')
        (newest_first_trans a.last_message_at b.last_message_at c.last_message_at _ _ _ _ _ _
          (tie_trans a.id b.id c.id n n' n'') (tie_trans a.id b.id c.id n n' n''))
        h k;
}
