-- ===== src/Block/Examples.antt =====
-- A block whose event is in a pool that is new, with a transaction that fails at its end once.
use diamond_dev_tools.Prelude.{
  ℕ, ◌≡◌, refl, sym, subst, true, false, Option, none, some, List, [], ◌∷◌, any, Text, Buffer, ◌==◌,
  list_eq, list_beq, if◌then◌else◌, All, Bool-cases, inl, inr,
}
use diamond_dev_tools.Prelude.Int.{ℤ, pos}
use diamond_dev_tools.Database.Tables.{list_database}
use diamond_dev_tools.Ether.{address_to_buffer, lower_char, from_hex, hex_value}
use diamond_dev_tools.Ether.RoundTrip.{IsHexDigit, IsAddress}
use diamond_dev_tools.Names.{truncate_0x}
use diamond_dev_tools.Events.{ContractEvent, gathered, gather_abandoned_stakes}
use diamond_dev_tools.Rewards.Nearest.{division}
use diamond_dev_tools.BonusScore.{opens}
use diamond_dev_tools.Visitor.{insert_stakers}
use diamond_dev_tools.Block.Sets.{
  get_pools_set, is_stake_movement_event, is_placed_stake_event, get_delegators_set,
}
use diamond_dev_tools.Block.Program.{
  attempts, for_each, when, call, statement, remember, recall, done, ◌>>=◌,
}
use diamond_dev_tools.Block.Body.{
  Chain, get_all_pools, insert_unknown_node, insert_new_node, set_mining, set_known, set_score,
}
use diamond_dev_tools.Block.Transaction.{process_block, insert_first_pools, insert_nodes}
use diamond_dev_tools.Block.{
  Memory, Tables, has_node, insert_node, insert_score, insert_header, insert_delegate_stakers,
}
use diamond_dev_tools.Block.Known.{KnownHaveRows, process_block-KnownHaveRows}
use diamond_dev_tools.Block.Lost.{attempts-Lost}

-- "0xab".
abbrev pub pool : Text
pool = 48 ∷ 120 ∷ 97 ∷ 98 ∷ []

abbrev block_events : List ContractEvent
block_events =
    gathered (record {
      event_name = gather_abandoned_stakes;
      block_number = 5;
      block_timestamp = 100;
      caller = pool;
      pool_address = pool;
      amount = 5;
    })
    ∷ []

abbrev pub chain : Chain
chain = record {
  get_block = λ b.
      some
        (record { number = b; hash = []; extra_data = []; timestamp = 100; transaction_count = 1 });
  get_epoch = λ b. some (pos 0);
  get_pots = λ b. some (record {
    delta = 0;
    reinsert = 0;
    reward_contract_total = 0;
    governance = 0;
    unclaimed = 0;
  });
  get_pools = λ b. some [];
  get_pools_inactive = λ b. some [];
  get_validators = λ b. some [];
  get_address_mining_by_staking = λ a b. some pool;
  get_address_staking_by_mining = λ a b. none;
  get_public_key = λ a b. some pool;
  get_bonus_score = λ a b. some 0;
  get_all_events = λ b. some block_events;
  get_validator_min_reward_percent = λ e b. some 20;
  get_epoch_pool_native_reward = λ e a b. none;
  staking = record {
    pool_node_operator_share = λ p b. none;
    snapshot_pool_total_stake_amount = λ e p. none;
    pool_delegators = λ p b. none;
    pool_delegators_inactive = λ p b. none;
    stake_amount = λ p d b. none;
  };
  division = division;
}

abbrev pub no_tables : Tables list_database ℕ
no_tables = record {
  headers = [];
  nodes = [];
  bonus_score_history = [];
  posdao_epochs = [];
  posdao_epoch_nodes = [];
  delegate_stakers = [];
  delegate_rewards = [];
  rest = 0;
}

abbrev pub no_memory : Memory
no_memory = record {
  known_nodes = [];
  known_nodes_by_mining = λ a. none;
  current_bonus_scores = λ a. none;
}

abbrev lost_memory : Memory
lost_memory = record {
  known_nodes = pool ∷ [];
  known_nodes_by_mining = λ a. none;
  current_bonus_scores = λ a. none;
}

-- The stake history of the pool refers to its row.
abbrev finish :
    ℕ → ℤ → List ContractEvent → Tables list_database ℕ → Option (Tables list_database ℕ)
finish block epoch events t =
    if any (λ n. n.pool_address == address_to_buffer pool) t.nodes then some t else none

digit_a : IsHexDigit 97
unfolding hex_value
digit_a h = cc

digit_b : IsHexDigit 98
unfolding hex_value
digit_b h = cc

pool-IsAddress : IsAddress pool
pool-IsAddress = (97 ∷ 98 ∷ [], refl, (digit_a, digit_b, tt))

pools_set : get_pools_set block_events [] ≡ pool ∷ []
unfolding get_pools_set is_stake_movement_event lower_char list_beq
pools_set = refl

no_pools :
    (pools : List Text) → get_all_pools list_database ℕ chain 5 ≡ some pools → All IsAddress pools
unfolding get_all_pools
no_pools pools e = let none_of : [] ≡ pools = cc in subst (All IsAddress) none_of tt

event_pools :
    (es : List ContractEvent) → some block_events ≡ some es → All IsAddress (get_pools_set es [])
event_pools es e =
    let same : block_events ≡ es = cc in
    subst (λ l. All IsAddress (get_pools_set l [])) same
      (subst (All IsAddress) (sym pools_set) (pool-IsAddress, tt))

needs_row :
    (t : Tables list_database ℕ)
    → has_node list_database ℕ (address_to_buffer pool) t ≡ false
    → (if any (λ n. n.pool_address == address_to_buffer pool) t.nodes then some t else none) ≡ none
needs_row t h = rw h refl

-- A node that a first attempt leaves behind, when its end throws.
forgets :
    (attempts 1
      (process_block list_database ℕ chain (λ b e es t. none) 5 (pos 0) 90)
      no_memory
      no_tables).0.known_nodes
    ≡ pool ∷ []
unfolding attempts process_block insert_first_pools insert_nodes insert_unknown_node insert_new_node
    insert_node insert_score insert_header insert_delegate_stakers insert_stakers get_pools_set
    get_delegators_set is_stake_movement_event is_placed_stake_event for_each when call statement
    remember recall done ◌>>=◌ truncate_0x lower_char list_beq address_to_buffer from_hex hex_value
forgets = refl

attempts-Lost_example :
    (attempts 7 (process_block list_database ℕ chain finish 5 (pos 0) 90) lost_memory no_tables).1
    ≡ none
unfolding lower_char list_beq
attempts-Lost_example =
    attempts-Lost list_database ℕ chain pool pool-IsAddress finish 5 (pos 0) 90 no_pools event_pools
      (λ v q b e. cc) (λ epoch es t e h. needs_row t h) 7 lost_memory no_tables (refl, refl)

-- The variables and tables after the block.
abbrev new_memory : Memory
new_memory =
    set_mining list_database ℕ chain pool (address_to_buffer pool)
      (set_known list_database ℕ chain pool (set_score list_database ℕ chain pool 0 no_memory))

abbrev new_tables : Tables list_database ℕ
new_tables = record no_tables {
  headers =
      record {
        block_number = 5;
        block_hash = [];
        extra_data = [];
        block_time = 100;
        block_duration = pos 10;
        transaction_count = 1;
        posdao_hbbft_epoch = pos 0;
        reinsert_pot = 0;
        delta_pot = 0;
        governance_pot = 0;
        reward_contract_total = 0;
        unclaimed_rewards = 0;
      }
      ∷ [];
  nodes =
      record {
        pool_address = address_to_buffer pool;
        mining_address = address_to_buffer pool;
        mining_public_key = address_to_buffer pool;
        added_block = 5;
        bonus_score = 0;
      }
      ∷ [];
  bonus_score_history = opens (address_to_buffer pool) 5 0 ∷ [];
}

commits :
    (process_block list_database ℕ chain finish 5 (pos 0) 90).run no_memory no_tables
    ≡ (new_memory, some ((pos 0, 100), new_tables))
unfolding process_block insert_first_pools insert_nodes insert_unknown_node insert_new_node
    insert_node insert_score insert_header insert_delegate_stakers insert_stakers get_pools_set
    get_delegators_set is_stake_movement_event is_placed_stake_event for_each when call statement
    remember recall done ◌>>=◌ truncate_0x lower_char list_beq address_to_buffer from_hex hex_value
commits = refl

keeps_rows :
    (t u : Tables list_database ℕ)
    → (if any (λ n. n.pool_address == address_to_buffer pool) t.nodes then some t else none)
      ≡ some u
    → (q : Buffer) → any (λ n. n.pool_address == q) t.nodes ≡ true
    → any (λ n. n.pool_address == q) u.nodes ≡ true
keeps_rows t u e q h =
    elim (Bool-cases (any (λ n. n.pool_address == address_to_buffer pool) t.nodes)) [
      | inl there ↦
          let same : some t ≡ some u = rw there at e in
          let tables : t ≡ u = cc in
          subst (λ v. any (λ n. n.pool_address == q) v.nodes ≡ true) tables h
      | inr gone ↦ let refused = rw gone at e in cc
    ]

process_block-KnownHaveRows_example : KnownHaveRows list_database ℕ chain new_memory new_tables
process_block-KnownHaveRows_example =
    process_block-KnownHaveRows list_database ℕ chain finish 5 (pos 0) 90
      (λ epoch es t u e q h. keeps_rows t u e q h) no_memory new_memory no_tables new_tables
      (pos 0, 100) tt commits
