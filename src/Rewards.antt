-- ===== src/Rewards.antt =====
-- Rewards of an epoch: the split between validator and delegators (src/db/runFillDb.ts) and the
-- delegators' shares (`getDelegateRewards` of src/contractManager.ts). The contracts' answers are the
-- record `Staking`, where none is a call that throws. Amounts are wei: `BigNumber` has 18 decimal
-- places, on which `div` rounds to the nearest: the parameter `Division`, on amounts without a sign.
pub mod Nearest
pub mod Shares
pub mod Examples
use diamond_dev_tools.Prelude.{
  ℕ, zero, suc, ◌+◌, ◌*◌, ◌^◌, ◌≤◌, ◌<◌, Bool, true, false, Option, none, some, List, [], ◌∷◌, ◌++◌,
  Text, ◌==◌, nat_eq, if◌then◌else◌, ◌>>=◌,
}
use diamond_dev_tools.Prelude.Int.{ℤ, pos, negsuc, neg, ◌+ℤ◌, ◌-ℤ◌}

-- `BigNumber(numerator).div(denominator)` in the last decimal place.
pub record Division : Type 0 where
  pub div_round : (numerator denominator : ℕ) → ℕ
  -- It is off by half a unit at most.
  pub div_round-close :
      (n d : ℕ)
      → 0 < d
      → (2 * (d * div_round n d) ≤ 2 * n + d) × (2 * n ≤ 2 * (d * div_round n d) + d)

-- `amount.times(factor).div(divisor)`.
unfoldable pub times_div : Division → ℤ → (factor divisor : ℕ) → ℤ
unfolding neg
times_div division (pos n) factor divisor = pos (division.div_round (n * factor) divisor)
times_div division (negsuc n) factor divisor =
    neg (pos (division.div_round (suc n * factor) divisor))

-- The contracts behind the calls, by the pool's address and, but for the snapshot, a block.
pub record Staking : Type 0 where
  pub pool_node_operator_share : Text → ℕ → Option ℕ
  pub snapshot_pool_total_stake_amount : (epoch : ℤ) → Text → Option ℕ
  pub pool_delegators : Text → ℕ → Option (List Text)
  pub pool_delegators_inactive : Text → ℕ → Option (List Text)
  pub stake_amount : (pool delegator : Text) → ℕ → Option ℕ

pub record DelegateRewardData : Type 0 where
  pub pool_address : Text
  pub delegator_address : Text
  pub epoch : ℤ
  pub is_claimed : Bool
  pub amount : ℤ

pub record DelegateRewards : Type 0 where
  pub apy : ℤ
  pub rewards : List DelegateRewardData
  pub total_pool_reward : ℤ
  pub validator_fixed : ℤ
  pub node_operator_reward : ℤ
  pub delegators_total : ℤ
  pub total_stake : ℕ

-- The validator's part of a pool's reward, and the delegators'.
unfoldable pub split_reward : Division → (total : ℤ) → (validator_min_pct : ℕ) → ℤ × ℤ
unfolding times_div ◌-ℤ◌
split_reward division total validator_min_pct =
    let validator_reward = times_div division total validator_min_pct 100 in
    (validator_reward, total -ℤ validator_reward)

-- 10000 DMD.
abbrev pub apy_stake_fraction : ℕ
apy_stake_fraction = 10000 * 10 ^ 18

-- The part of `delegators_total` for a stake, zero without any stake.
unfoldable pub part_of : Division → (delegators_total : ℤ) → (stake total_stake : ℕ) → ℤ
unfolding times_div
part_of division delegators_total stake total_stake =
    if total_stake == 0 then pos 0 else times_div division delegators_total stake total_stake

module _ (division : Division) (staking : Staking) where
  unfoldable pub get_all_pool_delegators : Text → ℕ → Option (List Text)
  get_all_pool_delegators pool block = do
    delegators ← staking.pool_delegators pool block
    inactive ← staking.pool_delegators_inactive pool block
    some (delegators ++ inactive)

  -- The loop over the delegators.
  unfoldable pub rewards_of :
      (pool : Text)
      → ℤ
      → ℕ
      → (delegators_total : ℤ) → (total_stake : ℕ) → List Text
      → Option (List DelegateRewardData)
  unfolding part_of
  rewards_of pool epoch block delegators_total total_stake [] = some []
  rewards_of pool epoch block delegators_total total_stake (d ∷ ds) = do
    stake ← staking.stake_amount pool d block
    rest ← rewards_of pool epoch block delegators_total total_stake ds
    some (
        record {
          pool_address = pool;
          delegator_address = d;
          epoch = epoch;
          is_claimed = true;
          amount = part_of division delegators_total stake total_stake;
        }
        ∷ rest)

  unfoldable pub get_delegate_rewards :
      (pool : Text) → ℤ → ℕ → (validator_reward delegators_reward : ℤ) → Option DelegateRewards
  unfolding get_all_pool_delegators rewards_of times_div part_of ◌+ℤ◌
  get_delegate_rewards pool epoch block validator_reward delegators_reward = do
    share ← staking.pool_node_operator_share pool block
    total ← staking.snapshot_pool_total_stake_amount epoch pool
    delegators ← get_all_pool_delegators pool block
    rewards ← rewards_of pool epoch block delegators_reward total delegators
    some (record {
      apy = part_of division delegators_reward apy_stake_fraction total;
      rewards = rewards;
      total_pool_reward = validator_reward +ℤ delegators_reward;
      validator_fixed = validator_reward;
      node_operator_reward = times_div division (validator_reward +ℤ delegators_reward) share 10000;
      delegators_total = delegators_reward;
      total_stake = total;
    })
