-- ===== src/Visitor/Histories.antt =====
-- The stake of a pool as its history's newest record has it, and how `succeed` and `open_history`
-- move it.
use diamond_dev_tools.Prelude.{
  ℕ, ◌≤◌, ◌≡◌, refl, sym, ap, ◌∙◌, ◌≢◌, subst, Option, none, some, List, [], ◌∷◌, filter, head?,
  Buffer, list_eq, ==_iff, ◌>>=◌,
}
use diamond_dev_tools.Prelude.Int.{ℤ, pos, ◌+ℤ◌}
use diamond_dev_tools.Database.{Database}
use diamond_dev_tools.Database.Rows.{filter-head}
use diamond_dev_tools.Stake.{StakeHistory, is_of, opened, succeed_record}
use diamond_dev_tools.Stake.History.{starts_at, closed_at}
use diamond_dev_tools.Stake.Succession.{
  IsWellKept, Extends, succeed_record-Extends, insert_first-Extends,
}
use diamond_dev_tools.Visitor.{World, succeed, open_history}

abbrev pub amount_of : Option StakeHistory → ℤ
amount_of none = pos 0
amount_of (some r) = r.stake_amount

-- The stake of a pool, 0 without a record.
abbrev pub stake_at : Buffer → List StakeHistory → ℤ
stake_at node all = amount_of (head? (filter (is_of node) all))

-- A record of the block can be added to the pool's rows: blocks do not go back, and one record at
-- most starts at the block.
abbrev pub IsReady : ℕ → List StakeHistory → Type 0
IsReady block [] = Unit
IsReady block (r ∷ rs) = (r.from_block ≤ block) × (starts_at block (r ∷ rs) ≤ 1)

-- From `all` to `next` the stake of one pool changes by an amount, its older records are kept as a
-- timeline, and no other pool's rows change.
pub record Shifts (all next : List StakeHistory) (node : Buffer) (amount : ℤ) : Type 0 where
  pub kept : IsWellKept next
  pub shifted : stake_at node next ≡ stake_at node all +ℤ amount
  pub others : (m : Buffer) → m ≢ node → filter (is_of m) next ≡ filter (is_of m) all

pub own-node :
    (node : Buffer) (all : List StakeHistory) (r : StakeHistory) (rs : List StakeHistory)
    → filter (is_of node) all ≡ r ∷ rs
    → r.node ≡ node
own-node node all r rs e = (==_iff _ _).0 (filter-head (is_of node) all r rs e)

module _ (db : Database) (w : World db) (node : Buffer) (block : ℕ)
    (kept : IsWellKept (db.rows w.history)) where
  open db use {Table, rows}

  pub succeed-Shifts :
      (r : StakeHistory) (rs : List StakeHistory) (amount change : ℤ) (target : Buffer)
      → filter (is_of node) (rows w.history) ≡ r ∷ rs
      → IsReady block (r ∷ rs)
      → amount ≡ r.stake_amount +ℤ change
      → target ≡ node
      → (h : Table StakeHistory) × (succeed db r block amount target w
          ≡ some (record w { history = h }))
        × Shifts (rows w.history) (rows h) node change
  unfolding succeed
  succeed-Shifts r rs amount change target e ready sum there =
      let mine = own-node node (rows w.history) r rs e in
      let e' = subst (λ n. filter (is_of n) (rows w.history) ≡ r ∷ rs) (sym mine) e in
      let (h, done, x) =
        succeed_record-Extends db w.history r rs block amount kept e' ready.0 ready.1 in
      let x' =
        subst
          (λ n.
            Extends (rows w.history) (rows h) n (opened block amount n ∷ closed_at block r ∷ rs))
          mine x in
      (
        h,
        ap (λ (o : Option (Table StakeHistory)). o >>= λ h'. some (record w { history = h' }))
            (subst (λ n. succeed_record db r block amount n w.history ≡ some h) (mine ∙ sym there)
              done),
        record {
          kept = x'.kept;
          shifted =
              ap (λ l. amount_of (head? l)) x'.mine
              ∙ (sum ∙ sym (ap (λ l. amount_of (head? l) +ℤ change) e));
          others = x'.others;
        },
      )

  pub open_history-Shifts :
      (amount change : ℤ)
      → filter (is_of node) (rows w.history) ≡ []
      → amount ≡ pos 0 +ℤ change
      → (h : Table StakeHistory) × (open_history db block amount node w
          ≡ some (record w { history = h }))
        × Shifts (rows w.history) (rows h) node change
  unfolding open_history
  open_history-Shifts amount change e sum =
      let (h, done, x) = insert_first-Extends db w.history node block amount kept e in
      (
        h,
        rw done refl,
        record {
          kept = x.kept;
          shifted =
              ap (λ l. amount_of (head? l)) x.mine
              ∙ (sum ∙ sym (ap (λ l. amount_of (head? l) +ℤ change) e));
          others = x.others;
        },
      )
