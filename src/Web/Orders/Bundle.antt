-- ===== src/Web/Orders/Bundle.antt =====
-- The invariant of a contact's orders (`mergeOrder` of web/src/lib/order-ui.ts).
use whatsapp_inbox.Shared.{
  ◌≤◌, String, ◌≡◌, refl, sym, ap, ◌∙◌, ◌≢◌, ◌⊎◌, inl, inr, Bool, true, false, some, List, [], ◌∷◌,
  ◌++◌, Memᴰ, arith, eq_iff, Bool-cases, length, take,
}
use whatsapp_inbox.Db.{delete_many}
use whatsapp_inbox.Db.Rows.{
  All, All-append, Distinct, Distinct-append, Memᴰ-append_right, Memᴰ-append_cases,
}
use whatsapp_inbox.Db.Kept.{mem-delete_many, All-kept, Distinct-delete_many, length-delete_many-le}
use whatsapp_inbox.Order.{sort}
use whatsapp_inbox.Order.Sorted.{All-sort, All-of_mem, mem-sort, mem_of_mem-sort, Distinct-sort}
use whatsapp_inbox.Order.Descending.{
  IsDescending, IsDescending-sort, IsDescending-take, higher, All-take, Distinct-take,
  length-take-le, mem-take,
}
use whatsapp_inbox.Web.Types.{GourmetifyOrder}
use whatsapp_inbox.Web.Orders.{
  OrdersBundle, is_active_order_kind, created, by_created_desc, is_order, merge_into, merge_order,
  recent_limit,
}

abbrev pub order_id : GourmetifyOrder → String
order_id o = o.id

abbrev pub KindsOf : Bool → List GourmetifyOrder → Type 0
KindsOf b = All (λ o. is_active_order_kind o.status_kind ≡ b)

pub record IsBundle (b : OrdersBundle) : Type 0 where
  pub active_kind : KindsOf true b.active
  pub recent_kind : KindsOf false b.recent
  pub active_ids : Distinct order_id b.active
  pub recent_ids : Distinct order_id b.recent
  pub once : (x y : GourmetifyOrder) → Memᴰ x b.active → Memᴰ y b.recent → x.id ≢ y.id
  pub active_dates : IsDescending created b.active
  pub recent_dates : IsDescending created b.recent
  pub capped : length b.recent ≤ recent_limit

IsDescending-delete_many :
    (p : GourmetifyOrder → Bool) (xs : List GourmetifyOrder)
    → IsDescending created xs
    → IsDescending created (delete_many p xs)
unfolding delete_many
IsDescending-delete_many p [] d = tt
IsDescending-delete_many p (x ∷ xs) (h, d) = elim (Bool-cases (p x)) [
  | inl e ↦ rw e (IsDescending-delete_many p xs d)
  | inr e ↦ rw e (All-kept p (λ y. created y ≤ created x) xs h, IsDescending-delete_many p xs d)
]

is_order_ne : (id : String) (o : GourmetifyOrder) → is_order id o ≡ false → o.id ≢ id
unfolding is_order
is_order_ne id o h e = absurd (cc ((eq_iff o.id id).1 e, h))

by_created_desc-higher : by_created_desc ≡ higher created
unfolding by_created_desc
by_created_desc-higher = refl

module _ (o : GourmetifyOrder) where
  -- The other orders of a list, and the order put among them.
  abbrev pub others : List GourmetifyOrder → List GourmetifyOrder
  others xs = delete_many (is_order o.id) xs

  abbrev pub put : List GourmetifyOrder → List GourmetifyOrder
  put xs = sort by_created_desc (others xs ++ o ∷ [])

  others_ne : (xs : List GourmetifyOrder) → All (λ x. x.id ≢ o.id) (others xs)
  others_ne xs =
      All-of_mem _ (others xs) (λ x k. is_order_ne o.id x (mem-delete_many (is_order o.id) xs k).1)

  put-ids : (xs : List GourmetifyOrder) → Distinct order_id xs → Distinct order_id (put xs)
  put-ids xs d = Distinct-sort order_id by_created_desc (others xs ++ o ∷ []) (
      Distinct-append order_id (others xs) o (Distinct-delete_many (is_order o.id) order_id xs d)
        (others_ne xs))

  put-kinds :
      (b : Bool) (xs : List GourmetifyOrder)
      → is_active_order_kind o.status_kind ≡ b
      → KindsOf b xs
      → KindsOf b (put xs)
  put-kinds b xs e h =
      All-sort by_created_desc (λ x. is_active_order_kind x.status_kind ≡ b) (others xs ++ o ∷ [])
        (All-append _ (others xs) (All-kept (is_order o.id) _ xs h) e)

  put-dates : (xs : List GourmetifyOrder) → IsDescending created (put xs)
  put-dates xs = rw by_created_desc-higher (IsDescending-sort created (others xs ++ o ∷ []))

  put-mem :
      (xs : List GourmetifyOrder) {z : GourmetifyOrder}
      → Memᴰ z (put xs)
      → Memᴰ z (others xs) ⊎ (z ≡ o)
  put-mem xs k =
      Memᴰ-append_cases (others xs) (mem_of_mem-sort by_created_desc (others xs ++ o ∷ []) k)

  pub put-self : (xs : List GourmetifyOrder) → Memᴰ o (put xs)
  put-self xs =
      mem-sort by_created_desc (others xs ++ o ∷ [])
        (Memᴰ-append_right (others xs) (Memᴰ.head refl))

  put_apart :
      (xs ys : List GourmetifyOrder)
      → ((x y : GourmetifyOrder) → Memᴰ x xs → Memᴰ y ys → x.id ≢ y.id)
      → (x y : GourmetifyOrder) → Memᴰ x (put xs)
      → Memᴰ y (others ys)
      → x.id ≢ y.id
  put_apart xs ys h x y k m e =
      let (m', n) = mem-delete_many (is_order o.id) ys m in
      elim (put-mem xs k) [
        | inl k' ↦ h x y (mem-delete_many (is_order o.id) xs k').0 m' e
        | inr q ↦ is_order_ne o.id y n (sym e ∙ ap order_id q)
      ]

  pub merge_active :
      (b : OrdersBundle)
      → is_active_order_kind o.status_kind ≡ true
      → merge_order (some b) o ≡ record { active = put b.active; recent = others b.recent }
  unfolding merge_order merge_into
  merge_active b e = rw e

  pub merge_closed :
      (b : OrdersBundle)
      → is_active_order_kind o.status_kind ≡ false
      → merge_order (some b) o
        ≡ record { active = others b.active; recent = take recent_limit (put b.recent) }
  unfolding merge_order merge_into
  merge_closed b e = rw e

  merge_order-IsBundle_lem : (b : OrdersBundle) → IsBundle b → IsBundle (merge_order (some b) o)
  merge_order-IsBundle_lem b v = elim (Bool-cases (is_active_order_kind o.status_kind)) [
    | inl e ↦ rw (merge_active b e) (record {
      active_kind = put-kinds true b.active e v.active_kind;
      recent_kind = All-kept (is_order o.id) _ b.recent v.recent_kind;
      active_ids = put-ids b.active v.active_ids;
      recent_ids = Distinct-delete_many (is_order o.id) order_id b.recent v.recent_ids;
      once = put_apart b.active b.recent v.once;
      active_dates = put-dates b.active;
      recent_dates = IsDescending-delete_many (is_order o.id) b.recent v.recent_dates;
      capped = omega (arith, length-delete_many-le (is_order o.id) b.recent, v.capped);
    })
    | inr e ↦ rw (merge_closed b e) (record {
      active_kind = All-kept (is_order o.id) _ b.active v.active_kind;
      recent_kind =
          All-take _ recent_limit (put b.recent) (put-kinds false b.recent e v.recent_kind);
      active_ids = Distinct-delete_many (is_order o.id) order_id b.active v.active_ids;
      recent_ids =
          Distinct-take order_id recent_limit (put b.recent) (put-ids b.recent v.recent_ids);
      once = λ x y k m q.
          put_apart b.recent b.active (λ x' y' k' m' q'. v.once y' x' m' k' (sym q')) y x
            (mem-take recent_limit (put b.recent) m) k (sym q);
      active_dates = IsDescending-delete_many (is_order o.id) b.active v.active_dates;
      recent_dates = IsDescending-take created recent_limit (put b.recent) (put-dates b.recent);
      capped = length-take-le recent_limit (put b.recent);
    })
  ]

  -- An order that is in no active state is among the active orders no more.
  abbrev pub Listed : OrdersBundle → Type 0
  Listed b =
      ((is_active_order_kind o.status_kind ≡ true) × Memᴰ o b.active)
      ⊎ ((is_active_order_kind o.status_kind ≡ false) × All (λ x. x.id ≢ o.id) b.active)

  merge_order-Listed : (b : OrdersBundle) → Listed (merge_order (some b) o)
  merge_order-Listed b = elim (Bool-cases (is_active_order_kind o.status_kind)) [
    | inl e ↦ rw (merge_active b e) (inl (e, put-self b.active))
    | inr e ↦ rw (merge_closed b e) (inr (e, others_ne b.active))
  ]

  -- A bundle stays one when an order comes in: the active list has orders of active kinds, the recent
  -- one at most three of other kinds, no order stands twice or in both lists, and both lists have the
  -- newest first. An order of an active kind is then among the active ones, any other is not.
  pub merge_order-IsBundle :
      (b : OrdersBundle)
      → IsBundle b
      → IsBundle (merge_order (some b) o) × Listed (merge_order (some b) o)
  merge_order-IsBundle b v = (merge_order-IsBundle_lem b v, merge_order-Listed b)
