-- ===== src/Block/BootstrapExamples.antt =====
-- Starts at block 9: with empty tables, and with tables that end with block 3 and epoch 0.
use diamond_dev_tools.Prelude.{ℕ, arith, ◌≡◌, refl, Option, none, some, List, [], ◌∷◌, list_beq}
use diamond_dev_tools.Prelude.Int.{pos, int_beq}
use diamond_dev_tools.Database.Tables.{list_database}
use diamond_dev_tools.Ether.{address_to_buffer, lower_char, from_hex, hex_value}
use diamond_dev_tools.Block.Program.{◌>>=◌, done, call, statement, remember, recall, for_each, when}
use diamond_dev_tools.Block.Body.{Chain, get_all_pools, insert_unknown_node, insert_new_node}
use diamond_dev_tools.Block.Bootstrap.{
  insert_header_for_block, insert_start_headers, insert_epoch_header, seed_epoch,
  enter_known_validator, load_scores, bootstrap_at_block, start_fill,
}
use diamond_dev_tools.Block.Examples.{pool, chain, no_tables, no_memory}
use diamond_dev_tools.Sync.{needs_bootstrap}
use diamond_dev_tools.Block.Gap.{start_fill-gap}
use diamond_dev_tools.Block.{
  Memory, PosdaoEpochNode, Tables, insert_header, insert_node, insert_score, insert_staking_epoch,
  insert_epoch_node,
}

abbrev later_chain : Chain
later_chain = record chain {
  get_epoch = λ b. some (pos 1);
  get_pools = λ b. some (pool ∷ []);
  get_validators = λ b. some (pool ∷ []);
}

abbrev epoch_nodes_of :
    {A : Type 0} → Option (A × Tables list_database ℕ) → Option (List PosdaoEpochNode)
epoch_nodes_of none = none
epoch_nodes_of (some (a, t)) = some t.posdao_epoch_nodes

-- With empty tables the validator enters the epoch.
fresh_start :
    epoch_nodes_of
      ((start_fill list_database ℕ later_chain (λ b. some 5) 9).run no_memory no_tables).1
    ≡ some (
        record {
          id_posdao_epoch = pos 1;
          id_node = address_to_buffer pool;
          owner_reward = none;
          rewards = none;
        }
        ∷ [])
unfolding start_fill needs_bootstrap bootstrap_at_block insert_header_for_block insert_start_headers
    insert_epoch_header seed_epoch enter_known_validator load_scores get_all_pools
    insert_unknown_node insert_new_node insert_header insert_node insert_score insert_staking_epoch
    insert_epoch_node for_each when call statement remember recall done ◌>>=◌ lower_char list_beq
    address_to_buffer from_hex hex_value int_beq
fresh_start = refl

abbrev old_tables : Tables list_database ℕ
old_tables = record no_tables {
  headers =
      record {
        block_number = 3;
        block_hash = [];
        extra_data = [];
        block_time = 100;
        block_duration = pos 10;
        transaction_count = 1;
        posdao_hbbft_epoch = pos 0;
        reinsert_pot = 0;
        delta_pot = 0;
        governance_pot = 0;
        reward_contract_total = 0;
        unclaimed_rewards = 0;
      }
      ∷ [];
  posdao_epochs = record { id = pos 0; block_start = 0; block_end = none } ∷ [];
}

abbrev old_memory : Memory
old_memory = record no_memory { known_nodes_by_mining = λ a. some (address_to_buffer pool) }

start_fill-gap_example :
    ((start_fill list_database ℕ later_chain (λ b. some 5) 9).run old_memory old_tables).1 ≡ none
unfolding list_beq int_beq
start_fill-gap_example =
    start_fill-gap list_database ℕ later_chain (λ b. some 5) (pos 1) pool 9 3 (pool ∷ []) old_memory
      old_tables refl (omega arith) refl refl refl (λ e. cc, refl, (address_to_buffer pool, refl))
