-- ===== src/Block/Frame.antt =====
-- A condition that only looks at the nodes and the variables is kept by a block's transaction, if
-- `insertNode` keeps it.
use diamond_dev_tools.Prelude.{
  ℕ, ◌≡◌, refl, Option, none, some, List, [], ◌∷◌, Text, Buffer, ◌==◌, nat_eq, All,
}
use diamond_dev_tools.Prelude.Int.{ℤ, pos, int_eq}
use diamond_dev_tools.Database.{Database}
use diamond_dev_tools.Rewards.{DelegateRewardData}
use diamond_dev_tools.Block.Program.{Program, ◌>>=◌, call, statement, for_each}
use diamond_dev_tools.Block.Keeps.{
  Leads, Keeps, bind-Keeps, recall-Keeps, if-Keeps, done-Keeps, when-Keeps, for_each-Keeps,
  answer-Keeps, statement-Keeps, statement-Leads, bind-Leads, answer-Leads,
}
use diamond_dev_tools.Block.Body.{
  Chain, insert_unknown_node, get_all_pools, reward_pool, reward_pools,
}
use diamond_dev_tools.Block.Transaction.{
  enter_node, enter_validator, pay_delegators, insert_epoch_validator, end_epoch, start_epoch,
  insert_first_pools, insert_nodes, process_block,
}
use diamond_dev_tools.Events.{ContractEvent}
use diamond_dev_tools.Block.Sets.{get_pools_set}
use diamond_dev_tools.Block.Nodes.{
  SameNodes, nodes_of_SameNodes, insert_header-SameNodes, insert_staking_epoch-SameNodes,
  end_staking_epoch-SameNodes, insert_epoch_node-SameNodes, update_validator_reward-SameNodes,
  insert_delegate_stakers-SameNodes, insert_delegate_rewards_bulk-SameNodes,
}
use diamond_dev_tools.Block.{Memory, Tables}

module _ (db : Database) (Rest : Type 0) (chain : Chain) (J : Memory → Type 0)
    (I : Memory → Tables db Rest → Type 0)
    (weaken : (m : Memory) (t : Tables db Rest) → I m t → J m)
    (frame : (m : Memory) (t u : Tables db Rest) → u.nodes ≡ t.nodes → I m t → I m u)
    (P : Text → Type 0)
    (node_step : (block : ℕ) (pool : Text)
      → P pool
      → Keeps J I (insert_unknown_node db Rest chain block pool)) where
  same-Keeps :
      (f : Tables db Rest → Option (Tables db Rest))
      → ((t : Tables db Rest) → SameNodes db Rest t (f t))
      → Keeps J I (statement f)
  same-Keeps f h =
      statement-Keeps J I weaken f
        (λ m t u i e. frame m t u (nodes_of_SameNodes db Rest t u (f t) (h t) e) i)

  calling :
      {A B : Type 0} (answer : Option A) (f : A → Program (Tables db Rest) B)
      → ((a : A) → answer ≡ some a → Keeps J I (f a))
      → Keeps J I (call answer >>= f)
  calling answer f = answer-Keeps J I weaken answer f

  reward_pool-Keeps :
      (ended : ℤ) (block pct : ℕ) (pool : Text)
      → Keeps J I (reward_pool db Rest chain ended block pct pool)
  unfolding reward_pool
  reward_pool-Keeps ended block pct pool = calling _ _ (λ mining _. calling _ _ (λ total _.
      if-Keeps J I (total == pos 0) _ _
        (calling _ _ (λ stake _.
          bind-Keeps J I _ _
            (same-Keeps _ (λ t. update_validator_reward-SameNodes db Rest t _ _ _ _))
            (λ _. done-Keeps J I _)))
        (calling _ _ (λ r _.
          bind-Keeps J I _ _
            (same-Keeps _ (λ t. update_validator_reward-SameNodes db Rest t _ _ _ _))
            (λ _. done-Keeps J I _)))))

  reward_pools-Keeps :
      (ended : ℤ) (block pct : ℕ) (pools : List Text)
      → Keeps J I (reward_pools db Rest chain ended block pct pools)
  unfolding reward_pools
  reward_pools-Keeps ended block pct [] = done-Keeps J I _
  reward_pools-Keeps ended block pct (p ∷ ps) =
      bind-Keeps J I _ _ (reward_pool-Keeps ended block pct p) (λ rs.
        bind-Keeps J I _ _ (reward_pools-Keeps ended block pct ps) (λ more. done-Keeps J I _))

  pay_delegators-Keeps :
      (rs : List DelegateRewardData) → Keeps J I (pay_delegators db Rest chain rs)
  pay_delegators-Keeps [] = done-Keeps J I _
  pay_delegators-Keeps (r ∷ rs) =
      bind-Keeps J I _ _ (same-Keeps _ (λ t. insert_delegate_stakers-SameNodes db Rest t _))
        (λ _. same-Keeps _ (λ t. insert_delegate_rewards_bulk-SameNodes db Rest t _))

  end_epoch-Keeps : (block : ℕ) (ended : ℤ) → Keeps J I (end_epoch db Rest chain block ended)
  unfolding end_epoch
  end_epoch-Keeps block ended =
      bind-Keeps J I _ _ (same-Keeps _ (λ t. end_staking_epoch-SameNodes db Rest t _ _)) (λ _.
        calling _ _ (λ pools _. calling _ _ (λ pct _.
          bind-Keeps J I _ _ (reward_pools-Keeps ended block pct pools) pay_delegators-Keeps)))

  enter_node-Keeps :
      (epoch : ℤ) (node : Option Buffer) → Keeps J I (enter_node db Rest chain epoch node)
  enter_node-Keeps epoch none = done-Keeps J I _
  enter_node-Keeps epoch (some pool) = same-Keeps _ (λ t. insert_epoch_node-SameNodes db Rest t _ _)

  insert_each_node-Keeps :
      (block : ℕ) (pools : List Text)
      → All P pools
      → Keeps J I (for_each pools (insert_unknown_node db Rest chain block))
  insert_each_node-Keeps block pools h = for_each-Keeps J I P pools _ h (node_step block)

  module _
      (named : (v pool : Text) (block : ℕ)
        → chain.get_address_staking_by_mining v block ≡ some pool
        → P pool) where
    enter_validator-Keeps :
        (block : ℕ) (epoch : ℤ) (v : Text) (node : Option Buffer)
        → Keeps J I (enter_validator db Rest chain block epoch v node)
    enter_validator-Keeps block epoch v (some pool) =
        same-Keeps _ (λ t. insert_epoch_node-SameNodes db Rest t _ _)
    enter_validator-Keeps block epoch v none = calling _ _ (λ pool e.
        bind-Keeps J I _ _ (node_step block pool (named v pool block e))
          (λ _. bind-Keeps J I _ _ (recall-Keeps J I) (λ m. enter_node-Keeps epoch _)))

    start_epoch-Keeps :
        (block : ℕ) (ended epoch : ℤ) → Keeps J I (start_epoch db Rest chain block ended epoch)
    unfolding start_epoch insert_epoch_validator
    start_epoch-Keeps block ended epoch =
        bind-Keeps J I _ _ (when-Keeps J I _ _ (end_epoch-Keeps block ended)) (λ _.
          bind-Keeps J I _ _ (same-Keeps _ (λ t. insert_staking_epoch-SameNodes db Rest t _ _))
            (λ _. calling _ _ (λ validators _.
              for_each-Keeps J I (λ v. v ≡ v) validators _ (all_same validators)
                (λ v _.
                  bind-Keeps J I _ _ (recall-Keeps J I)
                    (λ m. enter_validator-Keeps block epoch v _)))))
      where
        all_same : (vs : List Text) → All (λ v. v ≡ v) vs
        all_same [] = tt
        all_same (v ∷ vs) = (refl, all_same vs)

    -- The transaction leads to `K`, if the condition before `finish` does.
    pub process_block-Leads :
        (K : Memory → Tables db Rest → Type 0)
        (finish : ℕ → ℤ → List ContractEvent → Tables db Rest → Option (Tables db Rest)) (block : ℕ)
        (epoch_at_start : ℤ) (before : ℕ)
        → ((pools : List Text) → get_all_pools db Rest chain block ≡ some pools → All P pools)
        → ((events : List ContractEvent)
            → chain.get_all_events block ≡ some events
            → All P (get_pools_set events []))
        → ((epoch : ℤ) (events : List ContractEvent) (m : Memory) (t u : Tables db Rest)
            → chain.get_all_events block ≡ some events
            → I m t
            → finish block epoch events t ≡ some u
            → K m u)
        → Leads J I K (process_block db Rest chain finish block epoch_at_start before)
    unfolding process_block insert_first_pools insert_nodes
    process_block-Leads K finish block epoch_at_start before first of_events finished =
        leading _ _ (λ h _. leading _ _ (λ epoch _. leading _ _ (λ pots _.
          bind-Leads J I I K _ _ (same-Keeps _ (λ t. insert_header-SameNodes db Rest t _)) (λ _.
            bind-Leads J I I K _ _
              (when-Keeps J I _ _
                (calling _ _ (λ pools e. insert_each_node-Keeps block pools (first pools e))))
              (λ _. leading _ _ (λ events e.
                bind-Leads J I I K _ _
                  (insert_each_node-Keeps block (get_pools_set events []) (of_events events e))
                  (λ _.
                    bind-Leads J I I K _ _
                      (same-Keeps _ (λ t. insert_delegate_stakers-SameNodes db Rest t _))
                      (λ _.
                        bind-Leads J I I K _ _
                          (when-Keeps J I _ _ (start_epoch-Keeps block epoch_at_start epoch))
                          (λ _.
                            bind-Leads J I K K _ _
                              (statement-Leads J I weaken K _
                                (λ m t u i f. finished epoch events m t u e i f))
                              (λ _. done-Keeps J K _))))))))))
      where
        leading :
            {A B : Type 0} (answer : Option A) (f : A → Program (Tables db Rest) B)
            → ((a : A) → answer ≡ some a → Leads J I K (f a))
            → Leads J I K (call answer >>= f)
        leading answer f = answer-Leads J I weaken K answer f
