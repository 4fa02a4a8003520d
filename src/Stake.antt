-- ===== src/Stake.antt =====
-- The staking tables: the parts of `DbManager` (src/db/database-persistent.ts) that keep them, over
-- any database. A method that throws is `none`. Primary keys are those of
-- db/container-content/01_create_tables.sql. Foreign keys are not modelled.
pub mod Timeline
pub mod History
pub mod Succession
pub mod Reading
pub mod Examples
use diamond_dev_tools.Prelude.{
  ℕ, ◌≡◌, Bool, true, false, ◌&&◌, Option, none, some, List, [], ◌∷◌, Text, Buffer, ◌==◌, nat_eq,
  list_eq, filter, any, if◌then◌else◌, ◌>>=◌, leb,
}
use diamond_dev_tools.Prelude.Int.{ℤ, pos, sub_ℕ, leb_ℤ, int_eq}
use diamond_dev_tools.Database.{Database}
use diamond_dev_tools.Ether.{address_to_buffer}

pub record StakeHistory : Type 0 where
  pub from_block : ℕ
  pub to_block : ℤ
  pub stake_amount : ℤ
  pub node : Buffer

abbrev pub same_history_key : StakeHistory → StakeHistory → Bool
same_history_key a b = a.from_block == b.from_block && a.to_block == b.to_block && a.node == b.node

-- SELECT MAX(to_block): NULL over no rows.
unfoldable pub max_to_block : List StakeHistory → Option ℤ
max_to_block [] = none
max_to_block (r ∷ rs) = elim (max_to_block rs) [
  | none ↦ some r.to_block
  | some m ↦ some (if leb_ℤ m r.to_block then r.to_block else m)
]

abbrev pub is_point : StakeHistory → Bool
is_point r = r.to_block == pos r.from_block

abbrev pub is_of : Buffer → StakeHistory → Bool
is_of node r = r.node == node

-- WHERE node = … AND to_block = …: nothing equals NULL.
unfoldable pub rows_ending : Buffer → Option ℤ → List StakeHistory → List StakeHistory
rows_ending node none all = []
rows_ending node (some m) all = filter (λ r. is_of node r && r.to_block == m) all

-- The rows that the query of `getLastStakeHistoryRecord` returns, of all rows.
unfoldable pub last_rows : Buffer → List StakeHistory → List StakeHistory
unfolding max_to_block rows_ending
last_rows node all =
    rows_ending node (max_to_block (filter (λ r. is_of node r && is_point r) all)) all

-- The block before, -1 for block 0.
abbrev pub before : ℕ → ℤ
before b = sub_ℕ b 1

-- The record that an event of `block` opens.
abbrev pub opened : ℕ → ℤ → Buffer → StakeHistory
opened block amount node = record {
  from_block = block;
  to_block = pos block;
  stake_amount = amount;
  node = node;
}

module _ (db : Database) where
  open db use {Table, rows, insert, update, find_one}

  -- The query's row is read again by its columns, if it is the only one.
  unfoldable pub find_last : Buffer → List StakeHistory → Table StakeHistory → Option StakeHistory
  find_last node (line ∷ []) t =
      find_one
        (λ r.
          is_of node r
          && (r.from_block == line.from_block
              && r.to_block == line.to_block
              && r.stake_amount == line.stake_amount))
        t
  find_last node _ t = none

  unfoldable pub get_last_stake_history_record : Text → Table StakeHistory → Option StakeHistory
  unfolding find_last last_rows
  get_last_stake_history_record pool t =
      find_last (address_to_buffer pool) (last_rows (address_to_buffer pool) (rows t)) t

  -- `updateStakeHistory` with the columns that the visitor gives: close the record `r` at `end`.
  unfoldable pub update_stake_history :
      StakeHistory → ℤ → Table StakeHistory → Option (Table StakeHistory)
  update_stake_history r end =
      update same_history_key
        (λ q. is_of r.node q && (q.from_block == r.from_block && q.to_block == r.to_block))
        (λ q. record q { to_block = end })

  unfoldable pub insert_stake_history_record :
      StakeHistory → Table StakeHistory → Option (Table StakeHistory)
  insert_stake_history_record = insert same_history_key

  -- What every handler does with the last record of a pool: close it before the event's block, and
  -- insert the record of that block.
  unfoldable pub succeed_record :
      StakeHistory → ℕ → ℤ → Buffer → Table StakeHistory → Option (Table StakeHistory)
  unfolding update_stake_history insert_stake_history_record
  succeed_record last block amount node t = do
    closed ← update_stake_history last (before block) t
    insert_stake_history_record (opened block amount node) closed
