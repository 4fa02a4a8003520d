-- ===== src/Rewards/Shares.antt =====
-- What the delegators of a pool get together.
use diamond_dev_tools.Prelude.{
  ℕ, suc, ◌+◌, ◌-◌, ◌*◌, ◌≤◌, ◌<◌, arith, ◌≡◌, refl, ap, ◌∙◌, true, false, some, List, [], ◌∷◌,
  ◌++◌, map, length, Text, ◌==◌, nat_eq,
}
use native.Mathlib.Nat.{le_of_mul-le-mul_left, mul-le-mul_left}
use diamond_dev_tools.Prelude.Int.{ℤ, pos, ◌+ℤ◌, ◌-ℤ◌}
use diamond_dev_tools.Rewards.{
  Division, times_div, Staking, DelegateRewardData, DelegateRewards, part_of,
  get_all_pool_delegators, rewards_of, split_reward, apy_stake_fraction, get_delegate_rewards,
}

pos_add : (a b : ℕ) → pos a +ℤ pos b ≡ pos (a + b)
unfolding ◌+ℤ◌
pos_add a b = ground arith

pos_sub : (a b : ℕ) → b ≤ a → pos a -ℤ pos b ≡ pos (a - b)
unfolding ◌-ℤ◌
pos_sub a b h = ground arith

-- The sum of the amounts.
abbrev pub amounts : List DelegateRewardData → ℤ
amounts [] = pos 0
amounts (r ∷ rs) = r.amount +ℤ amounts rs

abbrev pub stakes : (Text → ℕ) → List Text → ℕ
stakes stake [] = 0
stakes stake (d ∷ ds) = stake d + stakes stake ds

-- `paid` is the share `total * part / whole`, up to half a unit for each of `count` roundings.
abbrev pub Shared : (total part whole count paid : ℕ) → Type 0
Shared total part whole count paid =
    (2 * (whole * paid) ≤ 2 * (total * part) + count * whole)
    × (2 * (total * part) ≤ 2 * (whole * paid) + count * whole)

Shared-none : (total whole : ℕ) → Shared total 0 whole 0 0
Shared-none total whole = (grind arith, grind arith)

-- One more delegator.
Shared-next :
    (division : Division) (total part whole count paid stake : ℕ)
    → 0 < whole
    → Shared total part whole count paid
    → Shared total
        (stake + part)
        whole
        (suc count)
        (division.div_round (total * stake) whole + paid)
Shared-next division total part whole count paid stake h (below, above) =
    let (close_below, close_above) = division.div_round-close (total * stake) whole h in
    (grind arith, grind arith)

-- Stakes that are not more than the whole get not more than the total, up to the rounding.
Shared-bound :
    (total part whole count paid : ℕ)
    → 0 < whole
    → part ≤ whole
    → Shared total part whole count paid
    → 2 * paid ≤ 2 * total + count
Shared-bound total part whole count paid h le (below, above) =
    let scaled : total * part ≤ total * whole = mul-le-mul_left total le in
    le_of_mul-le-mul_left {k = whole} (grind arith) h

module _ (division : Division) (staking : Staking) (pool : Text) (epoch : ℤ) (block : ℕ)
    (stake : Text → ℕ)
    (known : (d : Text) → staking.stake_amount pool d block ≡ some (stake d)) where
  rewards_of-shares :
      (total whole : ℕ) (ds : List Text)
      → 0 < whole
      → (rs : List DelegateRewardData) × (paid : ℕ) × (rewards_of division staking pool epoch block
            (pos total)
            whole
            ds
          ≡ some rs)
        × (map (λ r. r.delegator_address) rs ≡ ds)
        × (amounts rs ≡ pos paid)
        × Shared total (stakes stake ds) whole (length ds) paid
  unfolding rewards_of part_of times_div
  rewards_of-shares total whole [] h = ([], 0, refl, refl, refl, Shared-none total whole)
  rewards_of-shares total whole (d ∷ ds) h =
      let (rs, paid, e, each, sum, shares) = rewards_of-shares total whole ds h in
      let some_stake : (whole == 0) ≡ false = ground arith in
      (
        record {
          pool_address = pool;
          delegator_address = d;
          epoch = epoch;
          is_claimed = true;
          amount = pos (division.div_round (total * stake d) whole);
        }
            ∷ rs,
        division.div_round (total * stake d) whole + paid,
        rw (known d, e, some_stake) refl,
        ap (λ l. d ∷ l) each,
        ap (λ z. pos (division.div_round (total * stake d) whole) +ℤ z) sum ∙ pos_add _ paid,
        Shared-next division total (stakes stake ds) whole (length ds) paid (stake d) h shares,
      )

  -- If the calls for the pool answer, its snapshot total is positive, and the delegators' stakes at
  -- the block add up to no more than it: the call succeeds, each delegator of the active and the
  -- inactive list has one entry, and the amounts add up to the part of the delegators' total that
  -- their stakes are of the whole, within half a wei for each entry, so that they are not more than
  -- the total and half a wei for each.
  pub get_delegate_rewards-Shared :
      (share whole validator total : ℕ) (active inactive : List Text)
      → staking.pool_node_operator_share pool block ≡ some share
      → staking.snapshot_pool_total_stake_amount epoch pool ≡ some whole
      → staking.pool_delegators pool block ≡ some active
      → staking.pool_delegators_inactive pool block ≡ some inactive
      → 0 < whole
      → stakes stake (active ++ inactive) ≤ whole
      → (result : DelegateRewards) × (paid : ℕ) × (get_delegate_rewards division staking pool epoch
            block
            (pos validator)
            (pos total)
          ≡ some result)
        × (map (λ r. r.delegator_address) result.rewards ≡ active ++ inactive)
        × (amounts result.rewards ≡ pos paid)
        × Shared total (stakes stake (active ++ inactive)) whole (length (active ++ inactive)) paid
        × (2 * paid ≤ 2 * total + length (active ++ inactive))
  unfolding get_delegate_rewards get_all_pool_delegators
  get_delegate_rewards-Shared share whole validator total active inactive es et ea ei h le =
      let (rs, paid, e, each, sum, shares) = rewards_of-shares total whole (active ++ inactive) h in
      (
        record {
          apy = part_of division (pos total) apy_stake_fraction whole;
          rewards = rs;
          total_pool_reward = pos validator +ℤ pos total;
          validator_fixed = pos validator;
          node_operator_reward = times_div division (pos validator +ℤ pos total) share 10000;
          delegators_total = pos total;
          total_stake = whole;
        },
        paid,
        rw (es, et, ea, ei, e) refl,
        each,
        sum,
        shares,
        Shared-bound total (stakes stake (active ++ inactive)) whole (length (active ++ inactive))
            paid h le shares,
      )

-- The split of a pool's reward loses nothing, and the validator's part is the percentage, to the
-- nearest wei.
pub split_reward-parts :
    (division : Division) (total pct : ℕ)
    → pct ≤ 100
    → (validator : ℕ) × (delegators : ℕ) × (split_reward division (pos total) pct
        ≡ (pos validator, pos delegators))
      × (validator + delegators ≡ total)
      × (2 * (100 * validator) ≤ 2 * (total * pct) + 100)
      × (2 * (total * pct) ≤ 2 * (100 * validator) + 100)
unfolding split_reward times_div ◌-ℤ◌
split_reward-parts division total pct h =
    let validator = division.div_round (total * pct) 100 in
    let (below, above) = division.div_round-close (total * pct) 100 (omega arith) in
    let scaled : total * pct ≤ total * 100 = mul-le-mul_left total h in
    let le : validator ≤ total = omega arith in
    (
      validator,
      total - validator,
      ap (λ z. (pos validator, z)) (pos_sub total validator le),
      omega arith,
      below,
      above,
    )
