-- ===== src/Order/Newest.antt =====
-- The laws of an order by date, the later one first and a missing one last, from those of the ties.
use whatsapp_inbox.Shared.{ℕ, ◌≡◌, refl, Bool, true, false, Option, none, some, arith}
use whatsapp_inbox.Order.{newest_first}

pub newest_first_asym :
    (a b : Option ℕ) (t t' n n' : Bool)
    → (t ≡ true → t' ≡ false)
    → (n ≡ true → n' ≡ false)
    → newest_first a b t n ≡ true
    → newest_first b a t' n' ≡ false
unfolding newest_first
newest_first_asym none none t t' n n' f g h = g h
newest_first_asym none (some b) t t' n n' f g h = absurd (cc)
newest_first_asym (some a) none t t' n n' f g h = refl
newest_first_asym (some a) (some b) t t' n n' f g h = ground arith

pub newest_first_total :
    (a b : Option ℕ) (t t' n n' : Bool)
    → (t ≡ false → t' ≡ true)
    → (n ≡ false → n' ≡ true)
    → newest_first a b t n ≡ false
    → newest_first b a t' n' ≡ true
unfolding newest_first
newest_first_total none none t t' n n' f g h = g h
newest_first_total none (some b) t t' n n' f g h = refl
newest_first_total (some a) none t t' n n' f g h = absurd (cc)
newest_first_total (some a) (some b) t t' n n' f g h = ground arith

pub newest_first_trans :
    (a b c : Option ℕ) (t t' t'' n n' n'' : Bool)
    → (t ≡ true → t' ≡ true → t'' ≡ true)
    → (n ≡ true → n' ≡ true → n'' ≡ true)
    → newest_first a b t n ≡ true
    → newest_first b c t' n' ≡ true
    → newest_first a c t'' n'' ≡ true
unfolding newest_first
newest_first_trans none none none t t' t'' n n' n'' f g h k = g h k
newest_first_trans none none (some c) t t' t'' n n' n'' f g h k = absurd (cc)
newest_first_trans none (some b) c t t' t'' n n' n'' f g h k = absurd (cc)
newest_first_trans (some a) b none t t' t'' n n' n'' f g h k = refl
newest_first_trans (some a) none (some c) t t' t'' n n' n'' f g h k = absurd (cc)
newest_first_trans (some a) (some b) (some c) t t' t'' n n' n'' f g h k = ground arith
