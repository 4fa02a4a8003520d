-- ===== src/WebApi/Examples.antt =====
-- Requests for statistics and for names.
use native.Mathlib.Nat.{zero-div}
use diamond_dev_tools.Prelude.{
  ℕ, suc, ◌-◌, ◌*◌, ◌/◌, ◌≡◌, ◌≢◌, refl, arith, Bool, true, none, some, List, [], ◌∷◌, filter, Text,
  ltb, list_beq,
}
use diamond_dev_tools.Prelude.Int.{pos, pos_part, ◌+ℤ◌, int_beq}
use diamond_dev_tools.Names.{NameRow, registered}
use diamond_dev_tools.Ether.{to_lower_case, lower_char, to_hex}
use diamond_dev_tools.WebApi.EpochRows.{EpochRow}
use diamond_dev_tools.WebApi.RewardStats.{
  Floats, get_validator_reward_stats, batch_validator_reward_stats,
}
use diamond_dev_tools.WebApi.Batch.{
  ZeroLaws, batch_validator_reward_stats-get_validator_reward_stats,
}
use diamond_dev_tools.WebApi.NameList.{NameQuery, is_active, count, list_names}
use diamond_dev_tools.WebApi.NameRows.{select, value_at}
use diamond_dev_tools.WebApi.Placeholders.{selected, list_names-select}

-- Whole numbers in the place of floating point numbers.
abbrev whole : Floats
whole = record {
  Float = ℕ;
  of_nat = λ n. n;
  parse = λ z. pos_part z;
  parse_average = λ z n. pos_part z / n;
  times = λ a b. a * b;
  over = λ a b. a / b;
  minus = λ a b. a - b;
  is_positive = λ a. ltb 0 a;
}

whole-ZeroLaws : ZeroLaws whole
whole-ZeroLaws = record {
  zero_not_positive = refl;
  zero_over = λ n. zero-div (suc n);
  zero_times = λ n. omega arith;
}

abbrev epoch : ℕ → ℕ → EpochRow
epoch node time = record {
  id_node = node ∷ [];
  block_time = time;
  owner_reward = some (pos 7);
  node_operator_reward = none;
  delegators_total_reward = some (pos 40);
  total_staked_snapshot = some (pos 20);
}

abbrev rows : List EpochRow
rows = epoch 171 9000000 ∷ epoch 18 6000000 ∷ epoch 171 6000000 ∷ []

-- "0xAB" and "0x12": the second one has an epoch in the window before only.
abbrev asked : List Text
asked = (b'0' ∷ b'x' ∷ b'A' ∷ b'B' ∷ []) ∷ (b'0' ∷ b'x' ∷ b'1' ∷ b'2' ∷ []) ∷ []

abbrev address : Text
address = b'0' ∷ b'x' ∷ b'1' ∷ b'2' ∷ []

batch_validator_reward_stats-get_validator_reward_stats_example :
    ((get_validator_reward_stats whole address 9500000 rows (9000000 ∷ [])).active_epoch_count ≢ 0
      → batch_validator_reward_stats whole asked 9500000 rows (9000000 ∷ []) (to_lower_case address)
        ≡ some (get_validator_reward_stats whole address 9500000 rows (9000000 ∷ [])))
    × ((get_validator_reward_stats whole address 9500000 rows (9000000 ∷ [])).active_epoch_count ≡ 0
        → batch_validator_reward_stats whole asked 9500000 rows
            (9000000 ∷ [])
            (to_lower_case address)
          ≡ some (record (get_validator_reward_stats whole address 9500000 rows (9000000 ∷ [])) {
            rpt30_prev30 = none;
            rpt30_delta = none;
          }))
unfolding list_beq
batch_validator_reward_stats-get_validator_reward_stats_example =
    batch_validator_reward_stats-get_validator_reward_stats whole whole-ZeroLaws address asked refl
      9500000 rows (9000000 ∷ []) ((omega arith, tt), ((omega arith, tt), ((omega arith, tt), tt)))

-- The single request has a reward of the window before.
single_test :
    (get_validator_reward_stats whole address 9500000 rows (9000000 ∷ [])).rpt30_prev30 ≡ some 2000
unfolding get_validator_reward_stats list_beq lower_char to_hex ◌+ℤ◌
single_test = refl

abbrev name_row : NameRow
name_row = record {
  label = some (b'd' ∷ []);
  owner = none;
  creator = none;
  created_block = some 3;
  created_timestamp = some 15;
  expiration = none;
  active = some true;
  blocked = none;
  last_action_type = registered;
  last_action_block = 3;
  last_action_timestamp = 15;
}

-- Active names created from second 12 on, with "d" in them.
abbrev query : NameQuery
query = record {
  search = some (b'd' ∷ []);
  status = some is_active;
  created_from = some (b'1' ∷ b'2' ∷ []);
  created_to = none;
  expires_from = none;
  expires_to = none;
  sort = none;
  order = none;
  limit = some (b'9' ∷ b'9' ∷ b'9' ∷ []);
  offset = none;
}

abbrev any_label : Text → Text → Bool
any_label l p = true

limit_test : (list_names (λ t. none) query).limit_num ≡ pos 500
unfolding list_names int_beq
limit_test = refl

list_names-select_example :
    (select any_label
        (λ t. pos 0)
        (λ o. [])
        (pos 20)
        (list_names (λ t. none) query).bind
        (list_names (λ t. none) query).conditions
        (name_row ∷ [])
      ≡ some (
          filter
            (selected any_label (λ t. pos 0) (λ o. []) (pos 20) (λ t. none) query)
            (name_row ∷ [])))
    × (select any_label
          (λ t. pos 0)
          (λ o. [])
          (pos 20)
          (list_names (λ t. none) query).full_bind
          (list_names (λ t. none) query).conditions
          (name_row ∷ [])
        ≡ some (
            filter
              (selected any_label (λ t. pos 0) (λ o. []) (pos 20) (λ t. none) query)
              (name_row ∷ [])))
    × (value_at any_label
          (λ t. pos 0)
          (λ o. [])
          (pos 20)
          (list_names (λ t. none) query).full_bind
          (list_names (λ t. none) query).limit_at
        ≡ some (count (list_names (λ t. none) query).limit_num))
    × (value_at any_label
          (λ t. pos 0)
          (λ o. [])
          (pos 20)
          (list_names (λ t. none) query).full_bind
          (list_names (λ t. none) query).offset_at
        ≡ some (count (list_names (λ t. none) query).offset_num))
list_names-select_example =
    list_names-select any_label (λ t. pos 0) (λ o. []) (pos 20) (λ t. none) query (name_row ∷ [])
