-- ===== src/Web/Lists/Race.antt =====
-- Several loads of the list under way at once, with replies in any order (`loadConversations` of
-- web/src/lib/store.ts and its guard `listRequestSeq`).
use whatsapp_inbox.Shared.{
  ℕ, ◌+◌, ◌<◌, String, ◌≡◌, refl, sym, ap, ◌∙◌, subst, ◌≢◌, ◌⊎◌, inl, inr, Bool, true, false, List,
  [], ◌∷◌, ◌++◌, arith, ◌==◌, if◌then◌else◌, Bool-cases, any,
}
use whatsapp_inbox.Db.{delete_many}
use whatsapp_inbox.Web.State.{
  ListFilter, InboxState, initial_state, Reply, reply, unauthorized, failure,
}
use whatsapp_inbox.Web.Lists.{
  ListPage, ListChange, load_start, load_finish, load_more_finish, take_page, change_list,
  starts_load, list_start, set_search_query, reload, set_filter, toggle_tag_filter,
  clear_tag_filter,
}

pub data ListEvent : Type 0 where
  changed : ListChange → ListEvent
  typed : String → ListEvent
  arrived : ℕ → ListEvent

-- The state, and the numbers of the requests without a reply so far.
pub record ListRun : Type 0 where
  pub store : InboxState
  pub pending : List ℕ

abbrev pub asked_of : ListChange → InboxState → List ℕ → List ℕ
asked_of c s pending = if starts_load c s then (s.list_request_seq + 1) ∷ pending else pending

abbrev pub waits : ℕ → List ℕ → Bool
waits k pending = any (λ n. n == k) pending

-- `answer n` is the reply to the n-th request: it comes at any time after it, or never.
unfoldable pub list_step : (ℕ → Reply ListPage) → ListEvent → ListRun → ListRun
unfolding list_start load_finish delete_many
list_step answer (changed c) r = record {
  store = list_start c r.store;
  pending = asked_of c r.store r.pending;
}
list_step answer (typed q) r = record r { store = set_search_query q r.store }
list_step answer (arrived k) r =
    if waits k r.pending
    then record {
      store = load_finish k (answer k) r.store;
      pending = delete_many (λ n. n == k) r.pending;
    }
    else r

unfoldable pub list_run : (ℕ → Reply ListPage) → List ListEvent → ListRun → ListRun
unfolding list_step
list_run answer [] r = r
list_run answer (e ∷ es) r = list_run answer es (list_step answer e r)

abbrev pub first_run : ListRun
first_run = record { store = initial_state; pending = [] }

-- What the list is after a reply: that of the page, where there is one.
abbrev pub Shows : Reply ListPage → InboxState → Type 0
Shows (reply page) s = (s.conversations ≡ page.conversations) × (s.next_cursor ≡ page.next_cursor)
Shows unauthorized s = Unit
Shows (failure _) s = Unit

change_list-seq :
    (c : ListChange) (s : InboxState) → (change_list c s).list_request_seq ≡ s.list_request_seq
unfolding change_list
change_list-seq reload s = refl
change_list-seq (set_filter f) s = refl
change_list-seq (toggle_tag_filter tag_id) s = refl
change_list-seq clear_tag_filter s = refl

Shows-typed :
    (q : String) (p : Reply ListPage) (s : InboxState) → Shows p s → Shows p (set_search_query q s)
unfolding set_search_query
Shows-typed q (reply page) s h = h
Shows-typed q unauthorized s h = h
Shows-typed q (failure _) s h = h

module _ (answer : ℕ → Reply ListPage) where
  record Current (r : ListRun) : Type 0 where
    bounded : (k : ℕ) → r.store.list_request_seq < k → waits k r.pending ≡ false
    loading : waits r.store.list_request_seq r.pending ≡ true → r.store.conversations_loading ≡ true
    loaded :
        waits r.store.list_request_seq r.pending ≡ false
        → 0 < r.store.list_request_seq
        → (r.store.conversations_loading ≡ false) × Shows (answer r.store.list_request_seq) r.store

  take_page-Shows :
      (p : Reply ListPage) (s : InboxState)
      → (((take_page p s).conversations_loading ≡ false) × Shows p (take_page p s))
        × ((take_page p s).list_request_seq ≡ s.list_request_seq)
  unfolding take_page
  take_page-Shows (reply page) s = ((refl, (refl, refl)), refl)
  take_page-Shows unauthorized s = ((refl, tt), refl)
  take_page-Shows (failure _) s = ((refl, tt), refl)

  waits-delete_self : (k : ℕ) (l : List ℕ) → waits k (delete_many (λ n. n == k) l) ≡ false
  unfolding delete_many
  waits-delete_self k [] = refl
  waits-delete_self k (x ∷ l) = ground (arith, waits-delete_self k l)

  waits-delete_ne :
      (k j : ℕ) (l : List ℕ) → j ≢ k → waits j (delete_many (λ n. n == k) l) ≡ waits j l
  unfolding delete_many
  waits-delete_ne k j [] h = refl
  waits-delete_ne k j (x ∷ l) h = ground (arith, waits-delete_ne k j l)

  first_run-Current : Current first_run
  first_run-Current = record {
    bounded = λ k h. refl;
    loading = λ h. refl;
    loaded = λ h l. absurd (omega arith);
  }

  Current-asked :
      (s s' : InboxState) (pending : List ℕ)
      → Current (record { store = s; pending = pending })
      → s'.list_request_seq ≡ s.list_request_seq + 1
      → s'.conversations_loading ≡ true
      → Current (record { store = s'; pending = (s.list_request_seq + 1) ∷ pending })
  Current-asked s s' pending v e l = record {
    bounded = λ k h. ground (arith, v.bounded k);
    loading = λ h. l;
    loaded = λ h g. absurd (ground arith);
  }

  Current-changed :
      (c : ListChange) (s : InboxState) (pending : List ℕ)
      → Current (record { store = s; pending = pending })
      → Current (record { store = list_start c s; pending = asked_of c s pending })
  unfolding list_start load_start
  Current-changed c s pending v = elim (Bool-cases (starts_load c s)) [
    | inl e ↦
        let s' = (load_start (change_list c s)).2 in
        rw e (Current-asked s s' pending v (ap (λ (n : ℕ). n + 1) (change_list-seq c s)) refl)
    | inr e ↦ rw e v
  ]

  -- A reply to an older request is passed over.
  Current-late :
      (k : ℕ) (s : InboxState) (pending : List ℕ)
      → Current (record { store = s; pending = pending })
      → k ≢ s.list_request_seq
      → Current (record { store = s; pending = delete_many (λ n. n == k) pending })
  Current-late k s pending v n = record {
    bounded = λ j h.
        ground (arith, v.bounded j, waits-delete_self k pending, waits-delete_ne k j pending);
    loading =
        λ h. v.loading (sym (waits-delete_ne k s.list_request_seq pending (λ e. n (sym e))) ∙ h);
    loaded =
        λ h. v.loaded (sym (waits-delete_ne k s.list_request_seq pending (λ e. n (sym e))) ∙ h);
  }

  Current-newest :
      (s : InboxState) (pending : List ℕ)
      → Current (record { store = s; pending = pending })
      → Current (record {
        store = take_page (answer s.list_request_seq) s;
        pending = delete_many (λ n. n == s.list_request_seq) pending;
      })
  Current-newest s pending v =
      let n = s.list_request_seq in
      let (shown, same) = take_page-Shows (answer n) s in
      record {
        bounded = λ j h.
            let up : n < j = omega (arith, same) in
            waits-delete_ne n j pending (λ e. omega arith) ∙ v.bounded j up;
        loading = λ h. absurd (
            cc (
              subst (λ j. waits j (delete_many (λ i. i == n) pending) ≡ true) same h,
              waits-delete_self n pending,
            ));
        loaded = λ h g.
            (shown.0, subst (λ j. Shows (answer j) (take_page (answer n) s)) (sym same) shown.1);
      }

  Current-arrived :
      (k : ℕ) (s : InboxState) (pending : List ℕ)
      → Current (record { store = s; pending = pending })
      → Current (record {
        store = load_finish k (answer k) s;
        pending = delete_many (λ n. n == k) pending;
      })
  unfolding load_finish
  Current-arrived k s pending v = elim (Bool-cases (k == s.list_request_seq)) [
    | inl e ↦
        let same : k ≡ s.list_request_seq = ground arith in
        let at_ : ℕ → ListRun = λ j. record {
          store = take_page (answer j) s;
          pending = delete_many (λ n. n == j) pending;
        } in
        rw e (subst (λ j. Current (at_ j)) (sym same) (Current-newest s pending v))
    | inr e ↦ rw e (Current-late k s pending v (ground arith))
  ]

  Current-step : (e : ListEvent) (r : ListRun) → Current r → Current (list_step answer e r)
  unfolding list_step set_search_query
  Current-step (changed c) r v = Current-changed c r.store r.pending v
  Current-step (typed q) r v = record {
    bounded = v.bounded;
    loading = v.loading;
    loaded = λ h g.
        let (l, shown) = v.loaded h g in
        (l, Shows-typed q (answer r.store.list_request_seq) r.store shown);
  }
  Current-step (arrived k) r v = elim (Bool-cases (waits k r.pending)) [
    | inl e ↦ rw e (Current-arrived k r.store r.pending v)
    | inr e ↦ rw e v
  ]

  Current-run : (es : List ListEvent) (r : ListRun) → Current r → Current (list_run answer es r)
  unfolding list_run
  Current-run [] r v = v
  Current-run (e ∷ es) r v = Current-run es (list_step answer e r) (Current-step e r v)

  -- Loads of the list may be started at any time and answered in any order, or never. After each
  -- change of the state the list is shown as loading exactly if the newest load is without a reply,
  -- and otherwise it is that of the newest load's page, if its reply was a page: a reply that comes
  -- late is never shown. This is for the events of the list alone, from the first load on.
  pub list_run-ShowsNewest :
      (es : List ListEvent)
      → 0 < (list_run answer es first_run).store.list_request_seq
      → ((list_run answer es first_run).store.conversations_loading
          ≡ waits
              (list_run answer es first_run).store.list_request_seq
              (list_run answer es first_run).pending)
        × ((waits
                (list_run answer es first_run).store.list_request_seq
                (list_run answer es first_run).pending
              ≡ true)
            ⊎ Shows
                (answer (list_run answer es first_run).store.list_request_seq)
                (list_run answer es first_run).store)
  list_run-ShowsNewest es h =
      let r = list_run answer es first_run in
      let v = Current-run es first_run first_run-Current in
      elim (Bool-cases (waits r.store.list_request_seq r.pending)) [
        | inl e ↦ (v.loading e ∙ sym e, inl e)
        | inr e ↦ ((v.loaded e h).0 ∙ sym e, inr (v.loaded e h).1)
      ]

-- A further page that was asked for before the tab was changed overwrites the list of the new tab
-- when it comes after it: the tab is the new one, its list is the old one with the further page, and
-- the list that the new tab had been answered with is gone.
pub load_more_finish_late :
    (f : ListFilter) (s : InboxState) (page further : ListPage)
    → let asked = list_start (set_filter f) s in
      let loaded = load_finish asked.list_request_seq (reply page) asked in
      let late = load_more_finish s.conversations (reply further) loaded in
      (loaded.conversations ≡ page.conversations)
      × (late.filter ≡ f)
      × (late.conversations ≡ s.conversations ++ further.conversations)
unfolding list_start load_start change_list starts_load load_finish take_page load_more_finish
load_more_finish_late f s page further = ground arith
