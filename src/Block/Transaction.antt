-- ===== src/Block/Transaction.antt =====
-- The transaction of one block, and its attempts (src/db/runFillDb.ts).
use diamond_dev_tools.Prelude.{
  ℕ, ◌-◌, Option, none, some, List, [], ◌∷◌, map, Text, Buffer, ◌==◌, nat_eq, list_eq,
}
use diamond_dev_tools.Prelude.Int.{ℤ, pos, sub_ℕ, ltb_ℤ, leb_ℤ}
use diamond_dev_tools.Database.{Database}
use diamond_dev_tools.Ether.{to_lower_case}
use diamond_dev_tools.Names.{truncate_0x}
use diamond_dev_tools.Events.{ContractEvent}
use diamond_dev_tools.Rewards.{DelegateRewardData}
use diamond_dev_tools.Block.Sets.{get_pools_set, get_delegators_set, insert_each}
use diamond_dev_tools.Block.Program.{
  Program, ◌>>=◌, ◌>>◌, done, call, statement, recall, for_each, when,
}
use diamond_dev_tools.Block.Body.{
  BlockHeader, Pots, Chain, insert_unknown_node, get_all_pools, reward_pools,
}
use diamond_dev_tools.Block.{
  Header, Tables, insert_header, insert_staking_epoch, end_staking_epoch, insert_epoch_node,
  insert_delegate_stakers, insert_delegate_rewards_bulk,
}

-- The row of `headers`, with the durations of `getBlockInfos`.
abbrev pub header_of : BlockHeader → Pots → (before : ℕ) → (epoch : ℤ) → Header
header_of h p before epoch = record {
  block_number = h.number;
  block_hash = truncate_0x h.hash;
  extra_data = truncate_0x h.extra_data;
  block_time = h.timestamp;
  block_duration = sub_ℕ h.timestamp before;
  transaction_count = h.transaction_count;
  posdao_hbbft_epoch = epoch;
  reinsert_pot = p.reinsert;
  delta_pot = p.delta;
  governance_pot = p.governance;
  reward_contract_total = p.reward_contract_total;
  unclaimed_rewards = p.unclaimed;
}

module _ (db : Database) (Rest : Type 0) (chain : Chain) where
  abbrev pub enter_node : ℤ → Option Buffer → Program (Tables db Rest) Unit
  enter_node epoch none = done tt
  enter_node epoch (some pool) = statement (insert_epoch_node db Rest epoch pool)

  -- A validator of the new epoch: its node by its mining address, after its pool was made known.
  abbrev pub enter_validator : ℕ → ℤ → Text → Option Buffer → Program (Tables db Rest) Unit
  enter_validator block epoch validator (some pool) =
      statement (insert_epoch_node db Rest epoch pool)
  enter_validator block epoch validator none = do
    pool ← call (chain.get_address_staking_by_mining validator block)
    insert_unknown_node db Rest chain block pool
    m ← recall
    enter_node epoch (m.known_nodes_by_mining (to_lower_case validator))

  unfoldable pub insert_epoch_validator : ℕ → ℤ → Text → Program (Tables db Rest) Unit
  unfolding insert_unknown_node insert_epoch_node
  insert_epoch_validator block epoch validator = do
    m ← recall
    enter_validator block epoch validator (m.known_nodes_by_mining (to_lower_case validator))

  abbrev pub pay_delegators : List DelegateRewardData → Program (Tables db Rest) Unit
  pay_delegators [] = done tt
  pay_delegators (r ∷ rs) = do
    statement
        (insert_delegate_stakers db Rest (insert_each (map (λ x. x.delegator_address) (r ∷ rs)) []))
    statement (insert_delegate_rewards_bulk db Rest (r ∷ rs))

  -- The end of an epoch that was processed before.
  unfoldable pub end_epoch : ℕ → (ended : ℤ) → Program (Tables db Rest) Unit
  unfolding end_staking_epoch get_all_pools reward_pools insert_delegate_stakers
      insert_delegate_rewards_bulk
  end_epoch block ended = do
    statement (end_staking_epoch db Rest ended (sub_ℕ block 1))
    pools ← call (get_all_pools db Rest chain (block - 1))
    min_pct ← call (chain.get_validator_min_reward_percent ended block)
    rewards ← reward_pools db Rest chain ended block min_pct pools
    pay_delegators rewards

  -- The change to a later epoch.
  unfoldable pub start_epoch : ℕ → (ended epoch : ℤ) → Program (Tables db Rest) Unit
  unfolding end_epoch insert_staking_epoch insert_epoch_validator
  start_epoch block ended epoch = do
    when (leb_ℤ (pos 0) ended) (end_epoch block ended)
    statement (insert_staking_epoch db Rest epoch block)
    validators ← call (chain.get_validators block)
    for_each validators (insert_epoch_validator block epoch)

  -- The nodes that the first block and the events bring.
  unfoldable pub insert_nodes : ℕ → List ContractEvent → Program (Tables db Rest) Unit
  unfolding insert_unknown_node get_pools_set
  insert_nodes block events =
      for_each (get_pools_set events []) (insert_unknown_node db Rest chain block)

  unfoldable pub insert_first_pools : ℕ → Program (Tables db Rest) Unit
  unfolding insert_unknown_node get_all_pools
  insert_first_pools block = when (block == 0) (do
    pools ← call (get_all_pools db Rest chain block)
    for_each pools (insert_unknown_node db Rest chain block))

  -- The epoch and the timestamp of the block; `finish` stands for `processEvents`,
  -- `updateValidators` and `processBonusScore`, which end the transaction.
  unfoldable pub process_block :
      (finish : (block : ℕ)
        → (epoch : ℤ) → List ContractEvent
        → Tables db Rest
        → Option (Tables db Rest))
      → (block : ℕ) → (epoch_at_start : ℤ) → (before : ℕ) → Program (Tables db Rest) (ℤ × ℕ)
  unfolding insert_header insert_first_pools insert_nodes get_delegators_set insert_delegate_stakers
      start_epoch
  process_block finish block epoch_at_start before = do
    h ← call (chain.get_block block)
    epoch ← call (chain.get_epoch h.number)
    pots ← call (chain.get_pots h.number)
    statement (insert_header db Rest (header_of h pots before epoch))
    insert_first_pools block
    events ← call (chain.get_all_events block)
    insert_nodes block events
    statement (insert_delegate_stakers db Rest (get_delegators_set events []))
    when (ltb_ℤ epoch_at_start epoch) (start_epoch block epoch_at_start epoch)
    statement (finish block epoch events)
    done (epoch, h.timestamp)
