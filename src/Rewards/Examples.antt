-- ===== src/Rewards/Examples.antt =====
-- The rewards of a pool with two delegators.
use diamond_dev_tools.Prelude.{
  ℕ, ◌+◌, ◌*◌, ◌≤◌, arith, ◌≡◌, refl, some, [], ◌∷◌, map, Text, ◌==◌, list_eq, list_beq,
  if◌then◌else◌,
}
use diamond_dev_tools.Rewards.Nearest.{division}
use diamond_dev_tools.Prelude.Int.{pos}
use diamond_dev_tools.Rewards.{Staking, DelegateRewards, get_delegate_rewards}
use diamond_dev_tools.Rewards.Shares.{amounts, stakes, Shared, get_delegate_rewards-Shared}

abbrev pool : Text
pool = 112 ∷ []

abbrev stake : Text → ℕ
stake d = if d == 97 ∷ [] then 1 else 5

abbrev staking : Staking
staking = record {
  pool_node_operator_share = λ p b. some 2000;
  snapshot_pool_total_stake_amount = λ e p. some 9;
  pool_delegators = λ p b. some ((97 ∷ []) ∷ []);
  pool_delegators_inactive = λ p b. some ((98 ∷ []) ∷ []);
  stake_amount = λ p d b. some (stake d);
}

get_delegate_rewards-Shared_example :
    (result : DelegateRewards) × (paid : ℕ) × (get_delegate_rewards division staking pool
        (pos 3)
        100
        (pos 20)
        (pos 80)
      ≡ some result)
    × (map (λ r. r.delegator_address) result.rewards ≡ (97 ∷ []) ∷ (98 ∷ []) ∷ [])
    × (amounts result.rewards ≡ pos paid)
    × Shared 80 (stakes stake ((97 ∷ []) ∷ (98 ∷ []) ∷ [])) 9 2 paid
    × (2 * paid ≤ 2 * 80 + 2)
unfolding list_beq
get_delegate_rewards-Shared_example =
    get_delegate_rewards-Shared division staking pool (pos 3) 100 stake (λ d. refl) 2000 9 20 80
      ((97 ∷ []) ∷ []) ((98 ∷ []) ∷ []) refl refl refl refl (omega arith) (omega arith)
