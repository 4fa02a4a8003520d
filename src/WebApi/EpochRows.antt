-- ===== src/WebApi/EpochRows.antt =====
-- The rows and the aggregates that the reward statistics of controllers/rewards.ts read. `EpochRow`
-- is a row of the join of `posdao_epoch_node`, `posdao_epoch` and `headers`; times are in seconds. A
-- null is none.
use diamond_dev_tools.Prelude.{
  ℕ, suc, ◌-◌, ◌*◌, Bool, not, ◌&&◌, Option, none, some, List, [], ◌∷◌, map, filter, length, leb,
  ltb, Text, Buffer, ◌==◌, nat_eq, list_eq,
}
use diamond_dev_tools.Prelude.Int.{ℤ, pos, ◌+ℤ◌, ◌-ℤ◌}
use diamond_dev_tools.Ether.{to_hex}

pub record EpochRow : Type 0 where
  pub id_node : Buffer
  pub block_time : ℕ
  pub owner_reward : Option ℤ
  pub node_operator_reward : Option ℤ
  pub delegators_total_reward : Option ℤ
  pub total_staked_snapshot : Option ℤ

-- SUM and AVG leave nulls out, and are null without a value.
abbrev pub values : List (Option ℤ) → List ℤ
values [] = []
values (none ∷ xs) = values xs
values (some x ∷ xs) = x ∷ values xs

abbrev pub total : List ℤ → ℤ
total [] = pos 0
total (x ∷ xs) = x +ℤ total xs

unfoldable pub sum_column : List (Option ℤ) → Option ℤ
sum_column column = elim (values column) [ [] ↦ none | x ∷ xs ↦ some (total (x ∷ xs)) ]

unfoldable pub average_column : List (Option ℤ) → Option (ℤ × ℕ)
average_column column = elim (values column) [
  | [] ↦ none
  | x ∷ xs ↦ some (total (x ∷ xs), suc (length xs))
]

-- COALESCE(owner_reward, 0).
abbrev pub coalesced : Option ℤ → ℤ
coalesced none = pos 0
coalesced (some x) = x

-- COALESCE(owner_reward, 0) - node_operator_reward.
abbrev pub net_reward : EpochRow → Option ℤ
net_reward r = elim r.node_operator_reward [
  | none ↦ none
  | some x ↦ some (coalesced r.owner_reward -ℤ x)
]

-- The aggregates of the current window, and of the one before.
pub record ActiveTotals : Type 0 where
  pub vos30 : Option ℤ
  pub vos30_net : Option ℤ
  pub delegators_total_30d : Option ℤ
  pub avg_total_stake_30d : Option (ℤ × ℕ)
  pub active_epoch_count : ℕ

pub record PreviousTotals : Type 0 where
  pub delegators_total_prev : Option ℤ
  pub avg_total_stake_prev : Option (ℤ × ℕ)
  pub prev_count : ℕ

unfoldable pub active_totals : List EpochRow → ActiveTotals
unfolding sum_column average_column
active_totals rows = record {
  vos30 = sum_column (map (λ r. some (coalesced r.owner_reward)) rows);
  vos30_net = sum_column (map net_reward rows);
  delegators_total_30d = sum_column (map (λ r. r.delegators_total_reward) rows);
  avg_total_stake_30d = average_column (map (λ r. r.total_staked_snapshot) rows);
  active_epoch_count = length rows;
}

unfoldable pub previous_totals : List EpochRow → PreviousTotals
unfolding sum_column average_column
previous_totals rows = record {
  delegators_total_prev = sum_column (map (λ r. r.delegators_total_reward) rows);
  avg_total_stake_prev = average_column (map (λ r. r.total_staked_snapshot) rows);
  prev_count = length rows;
}

-- `'0x' || encode(id, 'hex')`.
unfoldable pub encoded : Buffer → Text
encoded id = b'0' ∷ b'x' ∷ to_hex id

abbrev pub thirty_days : ℕ
thirty_days = 30 * 24 * 60 * 60

abbrev pub window_start : ℕ → ℕ
window_start now = now - thirty_days

abbrev pub in_window : ℕ → EpochRow → Bool
in_window now r = leb (window_start now) r.block_time

abbrev pub in_previous : ℕ → EpochRow → Bool
in_previous now r =
    leb (window_start now - thirty_days) r.block_time && ltb r.block_time (window_start now)

-- The block times of the epochs that ended.
abbrev pub total_epochs : ℕ → List ℕ → ℕ
total_epochs now epochs = length (filter (λ t. leb (window_start now) t) epochs)

-- The groups of GROUP BY id_node.
unfoldable pub group_ids : List Buffer → List Buffer
group_ids [] = []
group_ids (x ∷ xs) = x ∷ filter (λ y. not (y == x)) (group_ids xs)

abbrev pub group_of : List EpochRow → Buffer → List EpochRow
group_of rows id = filter (λ r. r.id_node == id) rows
