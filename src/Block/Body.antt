-- ===== src/Block/Body.antt =====
-- The body of a block's transaction (src/db/runFillDb.ts), with `insertNode`.
use diamond_dev_tools.Prelude.{
  ℕ, ◌-◌, Bool, not, Option, none, some, List, [], ◌∷◌, ◌++◌, any, Text, Buffer, ◌==◌, list_eq,
  nat_eq, if◌then◌else◌,
}
use diamond_dev_tools.Prelude.Int.{ℤ, pos, int_eq}
use diamond_dev_tools.Database.{Database}
use diamond_dev_tools.Ether.{address_to_buffer, to_lower_case}
use diamond_dev_tools.Events.{ContractEvent}
use diamond_dev_tools.Rewards.{
  DelegateRewards, DelegateRewardData, Division, Staking, split_reward, get_delegate_rewards,
}
use diamond_dev_tools.Block.Program.{
  Program, ◌>>=◌, ◌>>◌, done, call, statement, remember, recall, when,
}
use diamond_dev_tools.Block.{Memory, Tables, insert_node, insert_score, update_validator_reward}

-- `web3.eth.getBlock`, less the parts that are not read.
pub record BlockHeader : Type 0 where
  pub number : ℕ
  pub hash : Text
  pub extra_data : Text
  pub timestamp : ℕ
  pub transaction_count : ℕ

pub record Pots : Type 0 where
  pub delta : ℕ
  pub reinsert : ℕ
  pub reward_contract_total : ℕ
  pub governance : ℕ
  pub unclaimed : ℕ

-- What the contracts and the node answer, none for a call that throws.
pub record Chain : Type 0 where
  pub get_block : ℕ → Option BlockHeader
  pub get_epoch : ℕ → Option ℤ
  pub get_pots : ℕ → Option Pots
  pub get_pools : ℕ → Option (List Text)
  pub get_pools_inactive : ℕ → Option (List Text)
  pub get_validators : ℕ → Option (List Text)
  pub get_address_mining_by_staking : Text → ℕ → Option Text
  pub get_address_staking_by_mining : Text → ℕ → Option Text
  pub get_public_key : Text → ℕ → Option Text
  pub get_bonus_score : Text → ℕ → Option ℕ
  pub get_all_events : ℕ → Option (List ContractEvent)
  pub get_validator_min_reward_percent : ℤ → ℕ → Option ℕ
  pub get_epoch_pool_native_reward : ℤ → Text → ℕ → Option ℤ
  pub staking : Staking
  -- The division of `BigNumber`.
  pub division : Division

module _ (db : Database) (Rest : Type 0) (chain : Chain) where
  abbrev pub set_known : Text → Memory → Memory
  set_known pool m = record m { known_nodes = to_lower_case pool ∷ m.known_nodes }

  abbrev pub set_mining : Text → Buffer → Memory → Memory
  set_mining mining pool m = record m {
    known_nodes_by_mining =
        λ name. if name == to_lower_case mining then some pool else m.known_nodes_by_mining name;
  }

  abbrev pub set_score : Text → ℕ → Memory → Memory
  set_score pool score m = record m {
    current_bonus_scores =
        λ name. if name == to_lower_case pool then some score else m.current_bonus_scores name;
  }

  -- `insertNode`, with `registerNewNode` of the bonus score processor.
  unfoldable pub insert_new_node : Text → ℕ → Program (Tables db Rest) Unit
  unfolding insert_node insert_score
  insert_new_node pool block = do
    mining ← call (chain.get_address_mining_by_staking pool block)
    key ← call (chain.get_public_key pool block)
    score ← call (chain.get_bonus_score mining block)
    statement (
        insert_node db Rest (record {
          pool_address = address_to_buffer pool;
          mining_address = address_to_buffer mining;
          mining_public_key = address_to_buffer key;
          added_block = block;
          bonus_score = score;
        }))
    current ← call (chain.get_bonus_score mining block)
    statement (insert_score db Rest pool block current)
    remember (set_score pool current)
    remember (set_known pool)
    remember (set_mining mining (address_to_buffer pool))

  abbrev pub is_known : Text → Memory → Bool
  is_known pool m = any (λ name. name == to_lower_case pool) m.known_nodes

  unfoldable pub insert_unknown_node : ℕ → Text → Program (Tables db Rest) Unit
  unfolding insert_new_node
  insert_unknown_node block pool = do
    m ← recall
    when (not (is_known pool m)) (insert_new_node pool block)

  unfoldable pub get_all_pools : ℕ → Option (List Text)
  get_all_pools block = elim (chain.get_pools block) [
    | none ↦ none
    | some pools ↦ elim (chain.get_pools_inactive block) [
      | none ↦ none
      | some inactive ↦ some (pools ++ inactive)
    ]
  ]

  abbrev pub no_rewards : ℕ → DelegateRewards
  no_rewards total_stake = record {
    apy = pos 0;
    rewards = [];
    total_pool_reward = pos 0;
    validator_fixed = pos 0;
    node_operator_reward = pos 0;
    delegators_total = pos 0;
    total_stake = total_stake;
  }

  -- The rewards of one pool, and what the delegators get.
  unfoldable pub reward_pool :
      (ended_epoch : ℤ)
      → (block min_pct : ℕ) → Text
      → Program (Tables db Rest) (List DelegateRewardData)
  unfolding update_validator_reward split_reward get_delegate_rewards
  reward_pool ended block min_pct pool = do
    mining ← call (chain.get_address_mining_by_staking pool (block - 1))
    total ← call (chain.get_epoch_pool_native_reward ended mining block)
    if total == pos 0
        then (do
          stake ← call (chain.staking.snapshot_pool_total_stake_amount ended pool)
          statement (update_validator_reward db Rest pool ended (pos 0) (no_rewards stake))
          done [])
        else (do
          r ← call (
              get_delegate_rewards chain.division chain.staking pool ended (block - 1)
                (split_reward chain.division total min_pct).0
                (split_reward chain.division total min_pct).1)
          statement (
              update_validator_reward db Rest pool ended
                (split_reward chain.division total min_pct).0 r)
          done r.rewards)

  unfoldable pub reward_pools :
      ℤ → (block min_pct : ℕ) → List Text → Program (Tables db Rest) (List DelegateRewardData)
  unfolding reward_pool
  reward_pools ended block min_pct [] = done []
  reward_pools ended block min_pct (p ∷ ps) = do
    rewards ← reward_pool ended block min_pct p
    more ← reward_pools ended block min_pct ps
    done (rewards ++ more)
