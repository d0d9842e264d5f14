-- ===== src/Web/Thread/Arrivals.antt =====
-- The reply to a send and the events of the socket bring messages in any order, and some of them
-- twice (`upsertMessage` of web/src/lib/merge.ts).
use whatsapp_inbox.Shared.{
  String, ◌≡◌, refl, sym, ap, ◌∙◌, subst, ◌≢◌, ◌↔◌, ◌⊎◌, inl, inr, false, Option, none, some, List,
  Memᴰ,
}
use whatsapp_inbox.Order.Sorted.{IsSorted, IsSorted-eq_of_mem}
use whatsapp_inbox.Web.Types.{Message}
use whatsapp_inbox.Web.Thread.{message_order, cleaned, has_key, upsert_message}
use whatsapp_inbox.Web.Thread.Merged.{
  message_id, message_order-Ranks, key_test, IsThread, Consistent, Stale, mem-upsert_message,
  mem-upsert_message_new, mem-upsert_message_old, upsert_message-IsThread, upsert_message-IsSorted,
}

-- Different messages: neither the id nor a key in common.
pub record Apart (x y : Message) : Type 0 where
  pub ids : x.id ≢ y.id
  pub keys : key_test x.client_dedup_key y ≡ false
  pub keys' : key_test y.client_dedup_key x ≡ false

key_test-cleaned : (o : Option String) (m : Message) → key_test o (cleaned m) ≡ key_test o m
unfolding cleaned has_key
key_test-cleaned none m = refl
key_test-cleaned (some k) m = refl

cleaned_key : (m : Message) → (cleaned m).client_dedup_key ≡ m.client_dedup_key
unfolding cleaned
cleaned_key m = refl

Apart-Stale : (x y : Message) → Apart x y → ¬ Stale x (cleaned y)
unfolding cleaned
Apart-Stale x y a (inl e) = a.ids (sym e)
Apart-Stale x y a (inr e) = absurd (cc (key_test-cleaned x.client_dedup_key y, a.keys, e))

Apart-sym : (x y : Message) → Apart x y → Apart y x
Apart-sym x y a = record { ids = λ e. a.ids (sym e); keys = a.keys'; keys' = a.keys }

-- A message that has come in is consistent with the next ones.
Consistent-upsert_message :
    (x y : Message) (l : List Message)
    → IsThread l
    → Consistent x l
    → Consistent y l
    → Apart x y
    → Consistent y (upsert_message l x)
unfolding cleaned
Consistent-upsert_message x y l t c d a z k e = elim (mem-upsert_message x l t c k) [
  | inl q ↦ absurd (a.ids (sym (ap message_id q) ∙ e))
  | inr (k', n) ↦ d z k' e
]

module _ (x y : Message) (l : List Message) (t : IsThread l) (c : Consistent x l)
    (d : Consistent y l) (a : Apart x y) where
  into :
      (z : Message)
      → Memᴰ z (upsert_message (upsert_message l x) y)
      → Memᴰ z (upsert_message (upsert_message l y) x)
  into z k =
      elim (mem-upsert_message y (upsert_message l x) (upsert_message-IsThread x l t c)
        (Consistent-upsert_message x y l t c d a) k) [
          | inl q ↦
              subst (λ w. Memᴰ w (upsert_message (upsert_message l y) x)) (sym q)
                (mem-upsert_message_old x (upsert_message l y) t' (mem-upsert_message_new y l t)
                  (Apart-Stale x y a))
          | inr (k', n) ↦ elim (mem-upsert_message x l t c k') [
            | inl q ↦
                subst (λ w. Memᴰ w (upsert_message (upsert_message l y) x)) (sym q)
                  (mem-upsert_message_new x (upsert_message l y) t')
            | inr (k'', n') ↦
                mem-upsert_message_old x (upsert_message l y) t'
                  (mem-upsert_message_old y l t k'' n) n'
          ]
        ]
    where
      t' : IsThread (upsert_message l y)
      t' = upsert_message-IsThread y l t d

-- A message that comes in leaves a thread a thread: no id twice, no key twice, in the order of date
-- and id; its rows are the message itself and the rows before but the one with its id and the one
-- with its key. This is for a thread in which the message's row, if there, has the message's key.
pub upsert_message-Merges :
    (l : List Message) (m : Message)
    → IsThread l
    → Consistent m l
    → IsThread (upsert_message l m)
      × IsSorted message_order (upsert_message l m)
      × ((z : Message) → Memᴰ z (upsert_message l m) ↔ ((z ≡ cleaned m) ⊎ (Memᴰ z l × ¬ Stale m z)))
upsert_message-Merges l m t c = (
  upsert_message-IsThread m l t c,
  upsert_message-IsSorted m l t,
  λ z. (mem-upsert_message m l t c, back z),
)
  where
    back : (z : Message) → (z ≡ cleaned m) ⊎ (Memᴰ z l × ¬ Stale m z) → Memᴰ z (upsert_message l m)
    back z (inl e) = subst (λ w. Memᴰ w (upsert_message l m)) (sym e) (mem-upsert_message_new m l t)
    back z (inr (k, n)) = mem-upsert_message_old m l t k n

-- Two different messages make the same thread in whichever order they come in, where each has the
-- key of its own row, if the thread has one.
pub upsert_message_comm :
    (l : List Message) (x y : Message)
    → IsThread l
    → Consistent x l
    → Consistent y l
    → Apart x y
    → upsert_message (upsert_message l x) y ≡ upsert_message (upsert_message l y) x
upsert_message_comm l x y t c d a =
    IsSorted-eq_of_mem message_id message_order message_order-Ranks
      (upsert_message (upsert_message l x) y) (upsert_message (upsert_message l y) x)
      (upsert_message-IsThread y (upsert_message l x) tx
        (Consistent-upsert_message x y l t c d a)).ids
      (upsert_message-IsThread x (upsert_message l y) ty
        (Consistent-upsert_message y x l t d c a')).ids
      (upsert_message-IsSorted y (upsert_message l x) tx)
      (upsert_message-IsSorted x (upsert_message l y) ty) (into x y l t c d a) (into y x l t d c a')
  where
    tx : IsThread (upsert_message l x)
    tx = upsert_message-IsThread x l t c

    ty : IsThread (upsert_message l y)
    ty = upsert_message-IsThread y l t d

    a' : Apart y x
    a' = Apart-sym x y a

-- A message that comes in a second time, by the reply and by the socket, changes nothing.
pub upsert_message_idem :
    (l : List Message) (m : Message)
    → IsThread l
    → Consistent m l
    → upsert_message (upsert_message l m) m ≡ upsert_message l m
upsert_message_idem l m t c =
    IsSorted-eq_of_mem message_id message_order message_order-Ranks
      (upsert_message (upsert_message l m) m) (upsert_message l m)
      (upsert_message-IsThread m (upsert_message l m) t' c').ids t'.ids
      (upsert_message-IsSorted m (upsert_message l m) t') (upsert_message-IsSorted m l t) once twice
  where
    t' : IsThread (upsert_message l m)
    t' = upsert_message-IsThread m l t c

    c' : Consistent m (upsert_message l m)
    c' z k e = elim (mem-upsert_message m l t c k) [
      | inl q ↦ ap (λ (w : Message). w.client_dedup_key) q ∙ cleaned_key m
      | inr (k', n) ↦ absurd (n (inl e))
    ]

    once :
        (z : Message) → Memᴰ z (upsert_message (upsert_message l m) m) → Memᴰ z (upsert_message l m)
    once z k = elim (mem-upsert_message m (upsert_message l m) t' c' k) [
      | inl q ↦ subst (λ w. Memᴰ w (upsert_message l m)) (sym q) (mem-upsert_message_new m l t)
      | inr (k', n) ↦ k'
    ]

    twice :
        (z : Message) → Memᴰ z (upsert_message l m) → Memᴰ z (upsert_message (upsert_message l m) m)
    twice z k = elim (mem-upsert_message m l t c k) [
      | inl q ↦
          subst (λ w. Memᴰ w (upsert_message (upsert_message l m) m)) (sym q)
            (mem-upsert_message_new m (upsert_message l m) t')
      | inr (k', n) ↦ mem-upsert_message_old m (upsert_message l m) t' k n
    ]
