-- ===== src/Web/Thread/Merged.antt =====
-- What `upsertMessage` makes of a thread (web/src/lib/merge.ts).
use whatsapp_inbox.Shared.{
  String, ◌≡◌, refl, sym, ap, ◌∙◌, subst, ◌≢◌, ◌↔◌, ◌⊎◌, inl, inr, Bool, true, false, not, ◌&&◌,
  Option, none, some, List, [], ◌∷◌, ◌++◌, Memᴰ, arith, eq_iff, eq_refl, str_eq, opt_is, Bool-cases,
  and_true, not_true, any, any→Memᴰ, Memᴰ→any,
}
use mathlib.Core.Path.{fun_ext}
use whatsapp_inbox.Db.Rows.{
  Distinct, Distinct-eq, Distinct-append, Memᴰ-append_left, Memᴰ-append_right, Memᴰ-append_cases,
}
use whatsapp_inbox.Order.Laws.{str_lt_asym, str_lt_total, str_lt_trans}
use whatsapp_inbox.Order.Sorted.{
  Ranks, IsSorted, All-of_mem, mem-sort, mem_of_mem-sort, Distinct-sort, IsSorted-sort,
}
use whatsapp_inbox.Web.Types.{Message}
use whatsapp_inbox.Web.Thread.{
  message_order, cleaned, has_id, has_key, replace_first, place_by_key, place, sort_messages,
  upsert_message,
}
use whatsapp_inbox.Web.Thread.Replaced.{
  Alone, mem-replace_first_apart, mem-replace_first_new, mem-replace_first_old,
  Distinct-replace_first,
}

abbrev pub message_id : Message → String
message_id m = m.id

pub message_order-Ranks : Ranks message_id message_order
unfolding message_order
message_order-Ranks = record {
  asym = λ a b n h. ground (arith, str_lt_asym a.id b.id);
  total = λ a b n h. ground (arith, str_lt_total a.id b.id);
  trans = λ a b c n n' n'' h k. ground (arith, str_lt_trans a.id b.id c.id);
}

-- The row with the key of the message, if that is not empty.
abbrev pub key_test : Option String → Message → Bool
key_test none z = false
key_test (some key) z = not (str_eq key "") && has_key key z

has_id_iff : (m z : Message) → (has_id m.id z ≡ true) ↔ (z.id ≡ m.id)
unfolding has_id
has_id_iff m z = eq_iff z.id m.id

has_id-Alone : (m : Message) (l : List Message) → Distinct message_id l → Alone (has_id m.id) l
has_id-Alone m l d x y j k e f =
    Distinct-eq message_id l d j k ((has_id_iff m x).0 e ∙ sym ((has_id_iff m y).0 f))

not_id_of_none :
    (m : Message) (l : List Message)
    → any (has_id m.id) l ≡ false
    → (z : Message) → Memᴰ z l
    → z.id ≢ m.id
not_id_of_none m l e z k q = absurd (cc (Memᴰ→any (has_id m.id) l k ((has_id_iff m z).1 q), e))

key_test-Alone :
    (l : List Message)
    → ((k : String) → Alone (key_test (some k)) l)
    → (o : Option String) → Alone (key_test o) l
key_test-Alone l h none x y j k e f = absurd (cc)
key_test-Alone l h (some k) x y j j' e f = h k x y j j' e f

-- A thread: no two rows have one id, and no two have one key.
pub record IsThread (l : List Message) : Type 0 where
  pub ids : Distinct message_id l
  pub keys : (k : String) → Alone (key_test (some k)) l

-- A message keeps its key: a row with its id has its key.
abbrev pub Consistent : Message → List Message → Type 0
Consistent m l = (z : Message) → Memᴰ z l → z.id ≡ m.id → z.client_dedup_key ≡ m.client_dedup_key

-- The rows that a message takes the place of.
abbrev pub Stale : Message → Message → Type 0
Stale m z = (z.id ≡ m.id) ⊎ (key_test m.client_dedup_key z ≡ true)

-- The three cases of `place`.
data Placed (m : Message) (l : List Message) : List Message → Type 0 where
  by_id : any (has_id m.id) l ≡ true → Placed m l (replace_first (has_id m.id) (cleaned m) l)
  by_key :
      any (has_id m.id) l ≡ false
      → any (key_test m.client_dedup_key) l ≡ true
      → Placed m l (replace_first (key_test m.client_dedup_key) (cleaned m) l)
  at_end :
      any (has_id m.id) l ≡ false
      → any (key_test m.client_dedup_key) l ≡ false
      → Placed m l (l ++ cleaned m ∷ [])

any-none : (l : List Message) → any (key_test none) l ≡ false
any-none [] = refl
any-none (x ∷ l) = any-none l

not_empty-any :
    (k : String) (l : List Message)
    → (not (str_eq k "") && any (has_key k) l) ≡ any (key_test (some k)) l
not_empty-any k [] = ground arith
not_empty-any k (x ∷ l) = ground (arith, not_empty-any k l)

not_empty_of_any :
    (k : String) (l : List Message) → any (key_test (some k)) l ≡ true → str_eq k "" ≡ false
not_empty_of_any k [] h = absurd (cc)
not_empty_of_any k (x ∷ l) h = ground (arith, not_empty_of_any k l)

Placed-by_key :
    (o : Option String) (m : Message) (l : List Message)
    → o ≡ m.client_dedup_key
    → any (has_id m.id) l ≡ false
    → Placed m l (place_by_key o m l)
unfolding place_by_key
Placed-by_key none m l e h = at_end h (rw (← e) (any-none l))
Placed-by_key (some k) m l e h = elim (Bool-cases (any (key_test (some k)) l)) [
  | inl f ↦
      let tests : key_test (some k) ≡ has_key k = fun_ext (λ z. rw (not_empty_of_any k l f)) in
      let put = λ (t : Message → Bool). Placed m l (replace_first t (cleaned m) l) in
      rw (not_empty-any k l, f)
        (subst put (ap key_test (sym e) ∙ tests)
          (by_key h (subst (λ o. any (key_test o) l ≡ true) e f)))
  | inr f ↦ rw (not_empty-any k l, f) (at_end h (rw (← e) f))
]

place-Placed : (m : Message) (l : List Message) → Placed m l (place m l)
unfolding place
place-Placed m l = elim (Bool-cases (any (has_id m.id) l)) [
  | inl h ↦ rw h (by_id h)
  | inr h ↦ rw h (Placed-by_key m.client_dedup_key m l refl h)
]

opt_is-some : (o : Option String) (k : String) → opt_is o k ≡ true → o ≡ some k
opt_is-some none k h = absurd (cc)
opt_is-some (some r) k h = ap some ((eq_iff r k).0 h)

key_test_of_same :
    (o : Option String) (z w : Message)
    → w.client_dedup_key ≡ o
    → key_test o z ≡ true
    → key_test o w ≡ true
unfolding has_key
key_test_of_same none z w e f = f
key_test_of_same (some k) z w e f = rw e (rw (eq_refl k) (ground arith))

key_test_of_new :
    (m : Message) (k : String) (x y : Message)
    → x ≡ cleaned m
    → key_test (some k) x ≡ true
    → key_test (some k) y ≡ true
    → key_test m.client_dedup_key y ≡ true
unfolding has_key cleaned
key_test_of_new m k x y a e f =
    let key : m.client_dedup_key ≡ some k =
      opt_is-some m.client_dedup_key k
        (and_true {a = not (str_eq k "")}
          (subst (λ (w : Message). key_test (some k) w ≡ true) a e)).1 in
    rw key f

module _ (m : Message) (l : List Message) (t : IsThread l) where
  id-Alone : Alone (has_id m.id) l
  id-Alone = has_id-Alone m l t.ids

  key-Alone : Alone (key_test m.client_dedup_key) l
  key-Alone = key_test-Alone l t.keys m.client_dedup_key

  new_of_Placed : {xs : List Message} → Placed m l xs → Memᴰ (cleaned m) xs
  new_of_Placed (by_id h) = mem-replace_first_new (has_id m.id) (cleaned m) l h
  new_of_Placed (by_key h k) = mem-replace_first_new (key_test m.client_dedup_key) (cleaned m) l k
  new_of_Placed (at_end h k) = Memᴰ-append_right l (Memᴰ.head refl)

  old_of_Placed :
      {xs : List Message} {z : Message} → Placed m l xs → Memᴰ z l → ¬ Stale m z → Memᴰ z xs
  old_of_Placed {z = z} (by_id h) k n =
      mem-replace_first_old (has_id m.id) (cleaned m) l k
        (not_true (λ e. n (inl ((has_id_iff m z).0 e))))
  old_of_Placed (by_key h k') k n =
      mem-replace_first_old (key_test m.client_dedup_key) (cleaned m) l k
        (not_true (λ e. n (inr e)))
  old_of_Placed (at_end h k') k n = Memᴰ-append_left l (cleaned m ∷ []) k

  ids_of_Placed : {xs : List Message} → Placed m l xs → Distinct message_id xs
  unfolding cleaned
  ids_of_Placed (by_id h) =
      Distinct-replace_first message_id (has_id m.id) (cleaned m) l t.ids id-Alone
        (λ z k e q. absurd (cc ((has_id_iff m z).1 q, e)))
  ids_of_Placed (by_key h k) =
      Distinct-replace_first message_id (key_test m.client_dedup_key) (cleaned m) l t.ids key-Alone
        (λ z k e. not_id_of_none m l h z k)
  ids_of_Placed (at_end h k) =
      Distinct-append message_id l (cleaned m) t.ids (All-of_mem _ l (not_id_of_none m l h))

  -- Every row is the new one, or an old one that it does not take the place of.
  cases_of_Placed :
      {xs : List Message} {z : Message}
      → Consistent m l
      → Placed m l xs
      → Memᴰ z xs
      → (z ≡ cleaned m) ⊎ (Memᴰ z l × ¬ Stale m z)
  cases_of_Placed {z = z} c (by_id h) k =
      elim (mem-replace_first_apart message_id (has_id m.id) (cleaned m) l t.ids id-Alone k) [
        | inl e ↦ inl e
        | inr (k', f) ↦ inr (k', apart k' f)
      ]
    where
      apart : Memᴰ z l → has_id m.id z ≡ false → ¬ Stale m z
      apart k' f (inl e) = absurd (cc ((has_id_iff m z).1 e, f))
      apart k' f (inr e) =
          let (w, j, g) = any→Memᴰ (has_id m.id) l h in
          let same = key_test_of_same m.client_dedup_key z w (c w j ((has_id_iff m w).0 g)) e in
          absurd (cc (ap (has_id m.id) (key-Alone z w k' j e same), f, g))
  cases_of_Placed {z = z} c (by_key h h') k =
      elim (mem-replace_first_apart message_id (key_test m.client_dedup_key) (cleaned m) l t.ids
        key-Alone k) [ inl e ↦ inl e | inr (k', f) ↦ inr (k', apart k' f) ]
    where
      apart : Memᴰ z l → key_test m.client_dedup_key z ≡ false → ¬ Stale m z
      apart k' f (inl e) = not_id_of_none m l h z k' e
      apart k' f (inr e) = absurd (cc (e, f))
  cases_of_Placed {z = z} c (at_end h h') k = elim (Memᴰ-append_cases l k) [
    | inl k' ↦ inr (k', apart k')
    | inr e ↦ inl e
  ]
    where
      apart : Memᴰ z l → ¬ Stale m z
      apart k' (inl e) = not_id_of_none m l h z k' e
      apart k' (inr e) = absurd (cc (Memᴰ→any (key_test m.client_dedup_key) l k' e, h'))

  keys_of_Placed :
      {xs : List Message}
      → Consistent m l
      → Placed m l xs
      → (k : String) → Alone (key_test (some k)) xs
  keys_of_Placed {xs} c p k x y i j e f = elim (cases_of_Placed c p i) [
    | inl a ↦ elim (cases_of_Placed c p j) [
      | inl b ↦ a ∙ sym b
      | inr (j', n) ↦ absurd (n (inr (key_test_of_new m k x y a e f)))
    ]
    | inr (i', n) ↦ elim (cases_of_Placed c p j) [
      | inl b ↦ absurd (n (inr (key_test_of_new m k y x b f e)))
      | inr (j', n') ↦ t.keys k x y i' j' e f
    ]
  ]

  -- The rows of a thread after a message was merged into it.
  pub mem-upsert_message :
      {z : Message}
      → Consistent m l
      → Memᴰ z (upsert_message l m)
      → (z ≡ cleaned m) ⊎ (Memᴰ z l × ¬ Stale m z)
  unfolding upsert_message sort_messages
  mem-upsert_message c k =
      cases_of_Placed c (place-Placed m l) (mem_of_mem-sort message_order (place m l) k)

  pub mem-upsert_message_new : Memᴰ (cleaned m) (upsert_message l m)
  unfolding upsert_message sort_messages
  mem-upsert_message_new = mem-sort message_order (place m l) (new_of_Placed (place-Placed m l))

  pub mem-upsert_message_old : {z : Message} → Memᴰ z l → ¬ Stale m z → Memᴰ z (upsert_message l m)
  unfolding upsert_message sort_messages
  mem-upsert_message_old k n =
      mem-sort message_order (place m l) (old_of_Placed (place-Placed m l) k n)

  pub upsert_message-IsThread : Consistent m l → IsThread (upsert_message l m)
  unfolding upsert_message sort_messages
  upsert_message-IsThread c = record {
    ids = Distinct-sort message_id message_order (place m l) (ids_of_Placed (place-Placed m l));
    keys = λ k x y i j.
        keys_of_Placed c (place-Placed m l) k x y (mem_of_mem-sort message_order (place m l) i)
          (mem_of_mem-sort message_order (place m l) j);
  }

  pub upsert_message-IsSorted : IsSorted message_order (upsert_message l m)
  unfolding upsert_message sort_messages
  upsert_message-IsSorted =
      IsSorted-sort message_id message_order message_order-Ranks (place m l)
        (ids_of_Placed (place-Placed m l))
