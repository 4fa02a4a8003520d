-- ===== src/Stake/Succession.antt =====
-- What `succeed_record` and the first insertion do to the rows of `stake_history`.
use diamond_dev_tools.Prelude.{
  ℕ, ◌≤◌, ◌≡◌, refl, sym, ap, subst, ◌∙◌, ◌≢◌, Bool, true, false, none, some, List, [], ◌∷◌, Buffer,
  ◌==◌, nat_eq, list_eq, filter, any, arith, length, ==_iff, ==-refl, inl, inr, Bool-cases,
  All-of_filter, All-map_imp, filter-imp,
}
use diamond_dev_tools.Prelude.Int.{ℤ, int_eq}
use mathlib.Core.Bool.{false≢true}
use diamond_dev_tools.Database.{Database, set_where, distinct}
use diamond_dev_tools.Database.Rows.{
  set_where-none, filter-set_where, filter-second, distinct-filter, any-own, distinct-own,
  distinct-cons, distinct-tail,
}
use diamond_dev_tools.Stake.{
  StakeHistory, same_history_key, is_of, before, opened, insert_stake_history_record,
  succeed_record,
}
use diamond_dev_tools.Stake.Timeline.{IsTimeline}
use diamond_dev_tools.Stake.History.{
  same_node, closed_at, starts_at, is_last, set_where-timeline, filter-is_last, closed_key_free,
  opened_key_free,
}

abbrev node_of : StakeHistory → Buffer
node_of r = r.node

-- Updating the last row of a pool, on the rows of any pool.
module _ (all : List StakeHistory) (r : StakeHistory) (rs : List StakeHistory)
    (e : filter (is_of r.node) all ≡ r ∷ rs) (h : IsTimeline (r ∷ rs)) (end : ℕ) where
  close_rows : List StakeHistory
  close_rows = set_where (is_last r) (closed_at end) all

  filter-is_last_all : filter (is_last r) all ≡ r ∷ []
  filter-is_last_all =
      sym (filter-imp (is_last r) (is_of r.node) all (λ q p. ground arith))
      ∙ (ap (filter (is_last r)) e ∙ filter-is_last r rs h)

  own-close_rows : filter (is_of r.node) close_rows ≡ closed_at end r ∷ rs
  unfolding close_rows
  own-close_rows =
      filter-set_where (is_of r.node) (is_last r) (closed_at end) all (λ _. refl)
      ∙ (ap (set_where (is_last r) (closed_at end)) e ∙ set_where-timeline r rs h (closed_at end))

  others-close_rows :
      (node : Buffer) → node ≢ r.node → filter (is_of node) close_rows ≡ filter (is_of node) all
  unfolding close_rows
  others-close_rows node ne =
      filter-set_where (is_of node) (is_last r) (closed_at end) all (λ _. refl)
      ∙ set_where-none (is_last r) (closed_at end) (filter (is_of node) all) (
          All-map_imp (λ q p. ground (arith, ==_iff q.node node, ==_iff q.node r.node))
            (filter (is_of node) all) (All-of_filter (is_of node) all))

  close_rows-keys :
      distinct same_history_key all ≡ true
      → any (same_history_key (closed_at end r)) rs ≡ false
      → distinct same_history_key close_rows ≡ true
  close_rows-keys keys free = distinct-own same_history_key node_of same_node close_rows by_node
    where
      mine : distinct same_history_key (filter (is_of r.node) close_rows) ≡ true
      mine =
          let old = rw e at (distinct-filter same_history_key (is_of r.node) all keys) in
          rw own-close_rows (
            distinct-cons same_history_key (closed_at end r) rs free
              (distinct-tail same_history_key r rs old))

      by_node : (node : Buffer) → distinct same_history_key (filter (is_of node) close_rows) ≡ true
      by_node node = elim (Bool-cases (node == r.node)) [
        | inl same ↦ rw ((==_iff node r.node).0 same) mine
        | inr other ↦
            let ne : node ≢ r.node = λ p. ground (arith, ==_iff node r.node) in
            rw (others-close_rows node ne) (distinct-filter same_history_key (is_of node) all keys)
      ]

-- The table's rows are a timeline for each pool, and no two have the same key.
pub record IsWellKept (all : List StakeHistory) : Type 0 where
  pub timeline : (node : Buffer) → IsTimeline (filter (is_of node) all)
  pub keys : distinct same_history_key all ≡ true

-- From `all` to `next` the rows of `node` become `own`, and no other pool's rows change.
pub record Extends (all next : List StakeHistory) (node : Buffer) (own : List StakeHistory)
    : Type 0 where
  pub kept : IsWellKept next
  pub mine : filter (is_of node) next ≡ own
  pub others : (m : Buffer) → m ≢ node → filter (is_of m) next ≡ filter (is_of m) all

cons-Extends :
    (all next : List StakeHistory) (new : StakeHistory) (own : List StakeHistory)
    → filter (is_of new.node) next ≡ own
    → IsTimeline (new ∷ own)
    → any (same_history_key new) own ≡ false
    → distinct same_history_key next ≡ true
    → ((m : Buffer) → m ≢ new.node → filter (is_of m) next ≡ filter (is_of m) all)
    → ((m : Buffer) → IsTimeline (filter (is_of m) all))
    → Extends all (new ∷ next) new.node (new ∷ own)
cons-Extends all next new own e line free keys others lines = record {
  kept = record {
    timeline = each;
    keys =
        distinct-cons same_history_key new next
          (sym (any-own same_history_key node_of same_node new next)
            ∙ (ap (any (same_history_key new)) e ∙ free))
          keys;
  };
  mine = mine;
  others = other;
}
  where
    mine : filter (is_of new.node) (new ∷ next) ≡ new ∷ own
    mine = rw (==-refl new.node, e)

    other : (m : Buffer) → m ≢ new.node → filter (is_of m) (new ∷ next) ≡ filter (is_of m) all
    other m ne = ground (arith, ==_iff new.node m, others m ne)

    each : (m : Buffer) → IsTimeline (filter (is_of m) (new ∷ next))
    each m = elim (Bool-cases (m == new.node)) [
      | inl same ↦
          subst (λ n. IsTimeline (filter (is_of n) (new ∷ next))) (sym ((==_iff m new.node).0 same))
            (subst IsTimeline (sym mine) line)
      | inr differs ↦
          subst IsTimeline (sym (other m (λ p. ground (arith, ==_iff m new.node)))) (lines m)
    ]

module _ (db : Database) where
  open db use {Table, rows}

  -- On well-kept rows, if blocks do not go back and the pool has at most one record that starts at
  -- `block` already: the call succeeds, the pool's last record ends in the block before, the new one
  -- follows it, the rows are well kept again, and no other pool's rows change.
  pub succeed_record-Extends :
      (t : Table StakeHistory) (r : StakeHistory) (rs : List StakeHistory) (block : ℕ) (amount : ℤ)
      → IsWellKept (rows t)
      → filter (is_of r.node) (rows t) ≡ r ∷ rs
      → r.from_block ≤ block
      → starts_at block (r ∷ rs) ≤ 1
      → (u : Table StakeHistory) × (succeed_record db r block amount r.node t ≡ some u)
        × Extends (rows t) (rows u) r.node (opened block amount r.node ∷ closed_at block r ∷ rs)
  unfolding succeed_record close_rows
  succeed_record-Extends t r rs block amount w e le few =
      let line : IsTimeline (r ∷ rs) = subst IsTimeline e (w.timeline r.node) in
      let free = closed_key_free r rs line block le few in
      let keys = close_rows-keys (rows t) r rs e line block w.keys free in
      let one : length (filter (is_last r) (rows t)) ≤ 1 =
        rw (filter-is_last_all (rows t) r rs e line block) (omega arith) in
      let (u, done, now) =
        db.update_one same_history_key (is_last r) (closed_at block) t one keys in
      let new = opened block amount r.node in
      let own : filter (is_of r.node) (rows u) ≡ closed_at block r ∷ rs =
        ap (filter (is_of r.node)) now ∙ own-close_rows (rows t) r rs e line block in
      let taken : any (same_history_key new) (rows u) ≡ false =
        sym (any-own same_history_key node_of same_node new (rows u))
        ∙ (ap (any (same_history_key new)) own
            ∙ opened_key_free r rs line block amount r.node le) in
      let (v, done', now') = db.insert_new same_history_key new u taken in
      (
        v,
        rw done done',
        subst (λ l. Extends (rows t) l r.node (new ∷ closed_at block r ∷ rs)) (sym now')
            (cons-Extends (rows t) (rows u) new (closed_at block r ∷ rs) own
              (refl, (refl, le, line.1)) (opened_key_free r rs line block amount r.node le)
              (subst (λ l. distinct same_history_key l ≡ true) (sym now) keys)
              (λ m ne.
                ap (filter (is_of m)) now ∙ others-close_rows (rows t) r rs e line block m ne)
              w.timeline),
      )

  -- The insert of a pool's first record, on well-kept rows: it succeeds, the rows are well kept again,
  -- the pool has that record only, and no other pool's rows change.
  pub insert_first-Extends :
      (t : Table StakeHistory) (node : Buffer) (block : ℕ) (amount : ℤ)
      → IsWellKept (rows t)
      → filter (is_of node) (rows t) ≡ []
      → (u : Table StakeHistory) × (insert_stake_history_record db (opened block amount node) t
          ≡ some u)
        × Extends (rows t) (rows u) node (opened block amount node ∷ [])
  unfolding insert_stake_history_record
  insert_first-Extends t node block amount w e =
      let new = opened block amount node in
      let free : any (same_history_key new) (rows t) ≡ false =
        sym (any-own same_history_key node_of same_node new (rows t))
        ∙ ap (any (same_history_key new)) e in
      let (u, done, now) = db.insert_new same_history_key new t free in
      (
        u,
        done,
        subst (λ l. Extends (rows t) l node (new ∷ [])) (sym now)
            (cons-Extends (rows t) (rows t) new [] e (refl, tt) refl w.keys (λ m ne. refl)
              w.timeline),
      )

  clash :
      (all : List StakeHistory) (p : StakeHistory → Bool)
      → distinct same_history_key (filter p all) ≡ false
      → distinct same_history_key all ≡ false
  clash all p h = elim (Bool-cases (distinct same_history_key all)) [
    | inl e ↦ absurd (false≢true (sym h ∙ distinct-filter same_history_key p all e))
    | inr e ↦ e
  ]

  -- On well-kept rows, if the pool's last two records start at the same block: a third record of that
  -- block is refused.
  pub succeed_record-refused :
      (t : Table StakeHistory) (r q : StakeHistory) (rs : List StakeHistory) (amount : ℤ)
      → IsWellKept (rows t)
      → filter (is_of r.node) (rows t) ≡ r ∷ q ∷ rs
      → q.from_block ≡ r.from_block
      → succeed_record db r r.from_block amount r.node t ≡ none
  unfolding succeed_record close_rows
  succeed_record-refused t r q rs amount w e same =
      let line : IsTimeline (r ∷ q ∷ rs) = subst IsTimeline e (w.timeline r.node) in
      let own = own-close_rows (rows t) r (q ∷ rs) e line r.from_block in
      let mate : q.node ≡ r.node =
        (==_iff q.node r.node).0 (filter-second (is_of r.node) (rows t) r q rs e) in
      let twice : distinct same_history_key (closed_at r.from_block r ∷ q ∷ rs) ≡ false =
        ground (arith, ==_iff r.node q.node, ==_iff (before r.from_block) q.to_block) in
      rw (
        db.update_clash same_history_key (is_last r) (closed_at r.from_block) t
          (clash _ (is_of r.node) (ap (distinct same_history_key) own ∙ twice)))
