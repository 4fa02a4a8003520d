-- ===== src/Visitor/Delegation.antt =====
-- What `saveDelegatedStake` does to the delegated totals.
use diamond_dev_tools.Prelude.{
  ◌≡◌, refl, sym, ap, ◌∙◌, subst, Bool, true, false, ◌&&◌, Option, none, some, List, [], ◌∷◌,
  filter, any, inl, inr, head?, arith, if◌then◌else◌, Text, Buffer, ◌==◌, list_eq, ==_iff, ==-refl,
  any-filter,
}
use diamond_dev_tools.Prelude.Int.{ℤ, pos, ◌+ℤ◌, int_laws}
use diamond_dev_tools.Database.{Database, set_where, distinct}
use diamond_dev_tools.Database.Rows.{filter-set_where, distinct-cons, filter-head}
use diamond_dev_tools.Database.Lookup.{
  unique-filter, find_one-head, distinct-set_where, filter-set_where_other,
}
use diamond_dev_tools.Ether.{address_to_buffer}
use diamond_dev_tools.Visitor.{
  StakeDelegators, DelegateStaker, World, same_delegation, same_staker, ensure_delegate_staker,
  add_delegated, save_delegated_stake,
}

abbrev pub delegates : Buffer → Buffer → StakeDelegators → Bool
delegates pool delegator r = r.pool_address == pool && r.delegator == delegator

abbrev pub total_of : Option StakeDelegators → ℤ
total_of none = pos 0
total_of (some r) = r.total_delegated

-- What a delegator has delegated to a pool, 0 without a row.
abbrev pub delegated : Buffer → Buffer → List StakeDelegators → ℤ
delegated pool delegator all = total_of (head? (filter (delegates pool delegator) all))

-- From `all` to `next` one delegation grows by an amount, and no other changes.
pub record Adds (all next : List StakeDelegators) (pool delegator : Buffer) (amount : ℤ)
    : Type 0 where
  pub keys : distinct same_delegation next ≡ true
  pub grown : delegated pool delegator next ≡ delegated pool delegator all +ℤ amount
  pub others :
      (p d : Buffer)
      → (p == pool && d == delegator) ≡ false
      → delegated p d next ≡ delegated p d all

one_delegation :
    (pool delegator : Buffer) (r q : StakeDelegators)
    → delegates pool delegator r ≡ true
    → delegates pool delegator q ≡ true
    → same_delegation r q ≡ true
one_delegation pool delegator r q h k = ground (
  arith,
  ==_iff r.pool_address pool,
  ==_iff q.pool_address pool,
  ==_iff r.delegator delegator,
  ==_iff q.delegator delegator,
  ==_iff r.pool_address q.pool_address,
  ==_iff r.delegator q.delegator,
)

apart :
    (pool delegator p d : Buffer) (r : StakeDelegators)
    → (p == pool && d == delegator) ≡ false
    → delegates p d r ≡ true
    → delegates pool delegator r ≡ false
apart pool delegator p d r h k = ground (
  arith,
  ==_iff r.pool_address pool,
  ==_iff r.pool_address p,
  ==_iff r.delegator delegator,
  ==_iff r.delegator d,
  ==_iff p pool,
  ==_iff d delegator,
)

pub zero-+ℤ : (a : ℤ) → a ≡ pos 0 +ℤ a
zero-+ℤ a = omega int_laws

module _ (P D : Buffer) (amount : ℤ) (all : List StakeDelegators)
    (keys : distinct same_delegation all ≡ true) where
  abbrev new_row : StakeDelegators
  new_row = record { pool_address = P; delegator = D; total_delegated = amount }

  new_key_free : filter (delegates P D) all ≡ [] → any (same_delegation new_row) all ≡ false
  new_key_free e =
      sym (
        any-filter (delegates P D) (same_delegation new_row) all (λ q h. ground (
          arith,
          ==_iff P q.pool_address,
          ==_iff q.pool_address P,
          ==_iff D q.delegator,
          ==_iff q.delegator D,
        )))
      ∙ ap (any (same_delegation new_row)) e

  inserted-Adds : filter (delegates P D) all ≡ [] → Adds all (new_row ∷ all) P D amount
  inserted-Adds e = record {
    keys = distinct-cons same_delegation new_row all (new_key_free e) keys;
    grown = rw (==-refl P, ==-refl D, e) (zero-+ℤ amount);
    others = λ p d h. ground (arith, ==_iff P p, ==_iff p P, ==_iff D d, ==_iff d D);
  }

  abbrev raise : StakeDelegators → StakeDelegators → StakeDelegators
  raise r q = record q { total_delegated = r.total_delegated +ℤ amount }

  raised_keys :
      (r : StakeDelegators)
      → distinct same_delegation (set_where (delegates P D) (raise r) all) ≡ true
  raised_keys r =
      distinct-set_where same_delegation (delegates P D) (raise r) (λ _ _. refl) (λ _ _. refl) all
      ∙ keys

  raised-Adds :
      (r : StakeDelegators)
      → filter (delegates P D) all ≡ r ∷ []
      → Adds all (set_where (delegates P D) (raise r) all) P D amount
  raised-Adds r e = record {
    keys = raised_keys r;
    grown = ap (λ l. total_of (head? l)) mine ∙ sym (ap (λ l. total_of (head? l) +ℤ amount) e);
    others = λ p d h.
        ap (λ l. total_of (head? l))
          (filter-set_where_other (delegates P D) (delegates p d) (raise r) all (λ _. refl)
            (λ q. apart P D p d q h));
  }
    where
      mine : filter (delegates P D) (set_where (delegates P D) (raise r) all) ≡ raise r r ∷ []
      mine =
          filter-set_where (delegates P D) (delegates P D) (raise r) all (λ _. refl)
          ∙ (ap (set_where (delegates P D) (raise r)) e
              ∙ ap (λ b. (if b then raise r r else r) ∷ [])
                  (filter-head (delegates P D) all r [] e))

module _ (db : Database) where
  open db use {Table, rows}

  add_delegated-Adds :
      (pool delegator : Text) (amount : ℤ) (t : Table StakeDelegators)
      → distinct same_delegation (rows t) ≡ true
      → (u : Table StakeDelegators) × (add_delegated db pool delegator amount t ≡ some u)
        × Adds (rows t) (rows u) (address_to_buffer pool) (address_to_buffer delegator) amount
  unfolding add_delegated
  add_delegated-Adds pool delegator amount t keys =
      let P = address_to_buffer pool in
      let D = address_to_buffer delegator in
      let found = find_one-head same_delegation (delegates P D) (one_delegation P D) db t keys in
      elim (unique-filter same_delegation (delegates P D) (one_delegation P D) (rows t) keys) [
        | inl e ↦
            let (u, done, now) =
              db.insert_new same_delegation (new_row P D amount (rows t) keys) t
                (new_key_free P D amount (rows t) keys e) in
            (
              u,
              rw (found ∙ ap head? e, add_delegated) done,
              subst (λ l. Adds (rows t) l P D amount) (sym now)
                  (inserted-Adds P D amount (rows t) keys e),
            )
        | inr (r, e) ↦
            let (u, done, now) =
              db.update_keep same_delegation (delegates P D) (raise P D amount (rows t) keys r) t
                (λ q. ground (arith, ==-refl q.pool_address, ==-refl q.delegator))
                (raised_keys P D amount (rows t) keys r) in
            (
              u,
              rw (found ∙ ap head? e, add_delegated) done,
              subst (λ l. Adds (rows t) l P D amount) (sym now)
                  (raised-Adds P D amount (rows t) keys r e),
            )
      ]

-- Two worlds that differ in one delegation, and in the list of the known stakers.
pub record Delegates (db : Database) (w v : World db) (pool delegator : Buffer) (amount : ℤ)
    : Type 0 where
  pub same_history : v.history ≡ w.history
  pub same_orders : v.orders ≡ w.orders
  pub same_available : v.available ≡ w.available
  pub stakers : distinct same_staker (db.rows v.stakers) ≡ true
  pub adds : Adds (db.rows w.delegators) (db.rows v.delegators) pool delegator amount

module _ (db : Database) where
  open db use {Table, rows}

  one_staker :
      (d : Buffer) (r q : DelegateStaker)
      → (r.id == d) ≡ true
      → (q.id == d) ≡ true
      → same_staker r q ≡ true
  one_staker d r q h k = ground (arith, ==_iff r.id d, ==_iff q.id d, ==_iff r.id q.id)

  ensured :
      (delegator : Text) (t : Table DelegateStaker)
      → distinct same_staker (rows t) ≡ true
      → (u : Table DelegateStaker) × (ensure_delegate_staker db delegator t ≡ some u)
        × (distinct same_staker (rows u) ≡ true)
  unfolding ensure_delegate_staker
  ensured delegator t keys =
      let D = address_to_buffer delegator in
      let named = λ (r : DelegateStaker). r.id == D in
      let new : DelegateStaker = record { id = D } in
      let found = find_one-head same_staker named (one_staker D) db t keys in
      elim (unique-filter same_staker named (one_staker D) (rows t) keys) [
        | inl e ↦
            let free : any (same_staker new) (rows t) ≡ false =
              sym (
                any-filter named (same_staker new) (rows t)
                  (λ q h. ground (arith, ==_iff D q.id, ==_iff q.id D)))
              ∙ ap (any (same_staker new)) e in
            let (u, done, now) = db.insert_new same_staker new t free in
            (
              u,
              rw (found ∙ ap head? e, ensure_delegate_staker) done,
              subst (λ l. distinct same_staker l ≡ true) (sym now)
                  (distinct-cons same_staker new (rows t) free keys),
            )
        | inr (r, e) ↦ (t, rw (found ∙ ap head? e, ensure_delegate_staker) refl, keys)
      ]

  -- With distinct keys `saveDelegatedStake` does not fail: it adds the amount to the delegation, and
  -- changes no other delegation, no history and no order.
  pub save_delegated_stake-Delegates :
      (pool delegator : Text) (amount : ℤ) (w : World db)
      → distinct same_staker (rows w.stakers) ≡ true
      → distinct same_delegation (rows w.delegators) ≡ true
      → (v : World db) × (save_delegated_stake db pool delegator amount w ≡ some v)
        × Delegates db w v (address_to_buffer pool) (address_to_buffer delegator) amount
  unfolding save_delegated_stake
  save_delegated_stake-Delegates pool delegator amount w known keys =
      let (s, e, ks) = ensured delegator w.stakers known in
      let (t, e', a) = add_delegated-Adds db pool delegator amount w.delegators keys in
      (
        record w { stakers = s; delegators = t },
        rw (e, e') refl,
        record {
          same_history = refl;
          same_orders = refl;
          same_available = refl;
          stakers = ks;
          adds = a;
        },
      )
