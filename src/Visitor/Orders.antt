-- ===== src/Visitor/Orders.antt =====
-- `visitOrderedWithdrawalEvent` (src/eventsVisitor.ts): the open order of a pool and a staker.
use diamond_dev_tools.Prelude.{
  ℕ, ◌≡◌, refl, sym, ap, ◌∙◌, subst, ◌⊎◌, inl, inr, Bool, true, false, not, ◌&&◌, ◌||◌, Option,
  none, some, List, [], ◌∷◌, filter, any, head?, arith, Buffer, ◌==◌, nat_eq, list_eq, ==_iff,
  ==-refl, if◌then◌else◌, Bool-cases,
}
use diamond_dev_tools.Prelude.Int.{ℤ, pos, ◌+ℤ◌}
use mathlib.Core.Bool.{and-eq-true_iff}
use diamond_dev_tools.Database.{Database, set_where, distinct}
use diamond_dev_tools.Database.Rows.{
  any-of_filter, set_where-filter_none, filter-head, filter-set_where, distinct-cons,
}
use diamond_dev_tools.Database.Lookup.{distinct-set_where, filter-set_where_other}
use diamond_dev_tools.Ether.{address_to_buffer}
use diamond_dev_tools.Events.{WithdrawalEvent}
use diamond_dev_tools.Visitor.{
  OrderedWithdrawal, World, same_order, is_open, get_order_withdrawal_event,
}
use diamond_dev_tools.Visitor.Handlers.{place_order, visit_ordered_withdrawal_event}
use diamond_dev_tools.Visitor.Delegation.{zero-+ℤ}

abbrev pub awaits : Buffer → Buffer → OrderedWithdrawal → Bool
awaits pool staker r = r.from_pool == pool && r.staker == staker && is_open r

-- A pool and a staker have one open order at most.
abbrev pub OneOrder : List OrderedWithdrawal → Type 0
OneOrder all =
    (pool staker : Buffer)
    → (filter (awaits pool staker) all ≡ [])
      ⊎ ((r : OrderedWithdrawal) × (filter (awaits pool staker) all ≡ r ∷ []))

abbrev pub order_amount : Option OrderedWithdrawal → ℤ
order_amount none = pos 0
order_amount (some r) = r.amount

-- What a staker is to withdraw from a pool, 0 without an open order.
abbrev pub ordered : Buffer → Buffer → List OrderedWithdrawal → ℤ
ordered pool staker all = order_amount (head? (filter (awaits pool staker) all))

-- From `all` to `next` what one staker is to withdraw from one pool grows by an amount.
pub record Orders (all next : List OrderedWithdrawal) (pool staker : Buffer) (amount : ℤ)
    : Type 0 where
  pub keys : distinct same_order next ≡ true
  pub one : OneOrder next
  pub grown : ordered pool staker next ≡ ordered pool staker all +ℤ amount
  pub others :
      (p s : Buffer)
      → (pool == p && staker == s) ≡ false
      → filter (awaits p s) next ≡ filter (awaits p s) all

unlike :
    (pool staker p s : Buffer) (r : OrderedWithdrawal)
    → (pool == p && staker == s) ≡ false
    → awaits p s r ≡ true
    → awaits pool staker r ≡ false
unlike pool staker p s r h k = ground (
  arith,
  ==_iff r.from_pool pool,
  ==_iff r.from_pool p,
  ==_iff r.staker staker,
  ==_iff r.staker s,
  ==_iff pool p,
  ==_iff staker s,
)

parts : (pool staker p s : Buffer) → (pool == p && staker == s) ≡ true → (pool ≡ p) × (staker ≡ s)
parts pool staker p s h = ground (arith, ==_iff pool p, ==_iff staker s)

false_of_not : (b : Bool) → not b ≡ true → b ≡ false
false_of_not true h = cc
false_of_not false h = refl

others_id :
    (f : OrderedWithdrawal → OrderedWithdrawal) (o : OrderedWithdrawal)
    (all : List OrderedWithdrawal)
    → any (same_order o) all ≡ false
    → set_where (λ r. r.id == o.id) f all ≡ all
others_id f o [] h = refl
others_id f o (r ∷ rs) h = ground (arith, others_id f o rs)

id_sym : (a b : OrderedWithdrawal) → (same_order a b || false) ≡ false → (a.id == b.id) ≡ false
id_sym a b h = ground arith

-- The row of an order's id is the one open order of its pool and staker.
pub by_id :
    (q : OrderedWithdrawal → Bool) (f : OrderedWithdrawal → OrderedWithdrawal)
    (all : List OrderedWithdrawal) (o : OrderedWithdrawal)
    → distinct same_order all ≡ true
    → filter q all ≡ o ∷ []
    → set_where (λ r. r.id == o.id) f all ≡ set_where q f all
by_id q f [] o keys e = refl
by_id q f (x ∷ xs) o keys e = elim (Bool-cases (q x)) [
  | inl h ↦
      let e' = rw h at e in
      let first : x ≡ o = cc in
      let last : filter q xs ≡ [] = cc in
      let free = false_of_not _ ((and-eq-true_iff _ _).0 keys).0 in
      let taken = ap (λ z. any (same_order z) xs) (sym first) ∙ free in
      rw (h, ap (λ z. z.id == o.id) first ∙ ==-refl o.id)
        (ap (λ l. f x ∷ l) (others_id f o xs taken ∙ sym (set_where-filter_none q f xs last)))
  | inr h ↦
      let e' = rw h at e in
      let both = (and-eq-true_iff _ _).0 keys in
      let free = any-of_filter q (same_order x) xs (false_of_not _ both.0) in
      rw (h, id_sym x o (rw e' at free)) (ap (λ l. x ∷ l) (by_id q f xs o both.1 e'))
]

module _ (P S : Buffer) (all : List OrderedWithdrawal) (keys : distinct same_order all ≡ true)
    (one : OneOrder all) where
  from_rows :
      (next : List OrderedWithdrawal) (r : OrderedWithdrawal) (amount : ℤ)
      → distinct same_order next ≡ true
      → filter (awaits P S) next ≡ r ∷ []
      → r.amount ≡ ordered P S all +ℤ amount
      → ((p s : Buffer)
          → (P == p && S == s) ≡ false
          → filter (awaits p s) next ≡ filter (awaits p s) all)
      → Orders all next P S amount
  from_rows next r amount keys' mine sum others = record {
    keys = keys';
    one = λ p s. each p s;
    grown = rw mine sum;
    others = others;
  }
    where
      each :
          (p s : Buffer)
          → (filter (awaits p s) next ≡ [])
            ⊎ ((q : OrderedWithdrawal) × (filter (awaits p s) next ≡ q ∷ []))
      each p s = elim (Bool-cases (P == p && S == s)) [
        | inr h ↦ rw (others p s h) (one p s)
        | inl h ↦ let (a, b) = parts P S p s h in rw (sym a, sym b) (inr (r, mine))
      ]

-- The row that an order opens.
abbrev new_order : ℕ → WithdrawalEvent → OrderedWithdrawal
new_order id e = record {
  id = id;
  amount = pos e.amount;
  block_number = e.block_number;
  staking_epoch = e.epoch;
  from_pool = address_to_buffer e.pool_address;
  staker = address_to_buffer e.staker_address;
  claimed_on_block = none;
}

new_order_other :
    (e : WithdrawalEvent) (id : ℕ) (p s : Buffer)
    → (address_to_buffer e.pool_address == p && address_to_buffer e.staker_address == s) ≡ false
    → awaits p s (new_order id e) ≡ false
new_order_other e id p s h = ground arith

abbrev raised : WithdrawalEvent → OrderedWithdrawal → OrderedWithdrawal → OrderedWithdrawal
raised e o r = record r {
  staking_epoch = e.epoch;
  block_number = e.block_number;
  amount = o.amount +ℤ pos e.amount;
}

module _ (db : Database) where
  open db use {Table, rows}

  -- An ordered withdrawal, on rows with distinct ids and one open order at most for each pool and
  -- staker: the visit succeeds and changes the orders only, both conditions hold again, what the
  -- staker is to withdraw from the pool grows by the amount, and no other open order changes.
  pub visit_ordered_withdrawal_event-Orders :
      (e : WithdrawalEvent) (w : World db)
      → distinct same_order (rows w.orders) ≡ true
      → OneOrder (rows w.orders)
      → (t : Table OrderedWithdrawal) × (visit_ordered_withdrawal_event db e w
          ≡ some (record w { orders = t }))
        × Orders
            (rows w.orders)
            (rows t)
            (address_to_buffer e.pool_address)
            (address_to_buffer e.staker_address)
            (pos e.amount)
  unfolding visit_ordered_withdrawal_event place_order get_order_withdrawal_event
  visit_ordered_withdrawal_event-Orders e w keys one =
      let P = address_to_buffer e.pool_address in
      let S = address_to_buffer e.staker_address in
      let all = rows w.orders in
      elim (one P S) [
        | inl none_open ↦
            let N = new_order (db.next_id (λ r. r.id) w.orders) e in
            let free = db.next_id_fresh (λ r. r.id) w.orders in
            let (t, done, now) = db.insert_new same_order N w.orders free in
            (
              t,
              rw (db.find_one_none (awaits P S) w.orders none_open, done) refl,
              subst (λ l. Orders all l P S (pos e.amount)) (sym now)
                  (from_rows P S all keys one (N ∷ all) N (pos e.amount)
                    (distinct-cons same_order N all free keys)
                    (rw (==-refl P, ==-refl S) (ap (λ l. N ∷ l) none_open))
                    (rw none_open (zero-+ℤ (pos e.amount)))
                    (λ p s h. rw (new_order_other e (db.next_id (λ r. r.id) w.orders) p s h) refl)),
            )
        | inr (o, open_one) ↦
            let f = raised e o in
            let (t, done, now) =
              db.update_keep same_order (λ r. r.id == o.id) f w.orders (λ r. ==-refl r.id)
                (distinct-set_where same_order (λ r. r.id == o.id) f (λ _ _. refl) (λ _ _. refl) all
                  ∙ keys) in
            (
              t,
              rw (db.find_one_some (awaits P S) w.orders o open_one, done) refl,
              subst (λ l. Orders all l P S (pos e.amount))
                  (sym (now ∙ by_id (awaits P S) f all o keys open_one))
                  (from_rows P S all keys one (set_where (awaits P S) f all) (f o) (pos e.amount)
                    (distinct-set_where same_order (awaits P S) f (λ _ _. refl) (λ _ _. refl) all
                      ∙ keys)
                    (filter-set_where (awaits P S) (awaits P S) f all (λ _. refl)
                      ∙ (ap (set_where (awaits P S) f) open_one
                          ∙ ap (λ b. (if b then f o else o) ∷ [])
                              (filter-head (awaits P S) all o [] open_one)))
                    (rw open_one refl)
                    (λ p s h.
                      filter-set_where_other (awaits P S) (awaits p s) f all (λ _. refl)
                        (λ r. unlike P S p s r h))),
            )
      ]
