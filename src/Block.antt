-- ===== src/Block.antt =====
-- A block's transaction: programs that read the chain, write tables and change variables of `run`
-- (src/db/runFillDb.ts). An exception throws the tables away, but not the variables.
-- The tables are those that `run` writes itself, by methods of src/db/database-persistent.ts, with
-- the foreign keys of src/db/container-content/01_create_tables.sql; `Rest` stands for the others.
pub mod Sets
pub mod Members
pub mod Program
pub mod Body
pub mod Transaction
pub mod Keeps
pub mod Nodes
pub mod Frame
pub mod Known
pub mod Lost
pub mod Bootstrap
pub mod Epochs
pub mod Behind
pub mod Gap
pub mod BootstrapExamples
pub mod Examples
use diamond_dev_tools.Prelude.{
  ℕ, Bool, true, false, not, ◌&&◌, ◌||◌, Option, none, some, List, [], ◌∷◌, any, Text, Buffer, ◌==◌,
  list_eq, nat_eq, if◌then◌else◌,
}
use diamond_dev_tools.Prelude.Int.{ℤ, pos, negsuc, int_eq}
use diamond_dev_tools.Database.{Database}
use diamond_dev_tools.Ether.{address_to_buffer}
use diamond_dev_tools.BonusScore.{BonusScoreHistory, same_score_key, opens}
use diamond_dev_tools.Visitor.{DelegateStaker, same_staker, insert_stakers}
use diamond_dev_tools.Rewards.{DelegateRewards, DelegateRewardData}

-- The columns of `headers`, less `txs_per_sec`, the quotient of two others.
pub record Header : Type 0 where
  pub block_number : ℕ
  pub block_hash : Text
  pub extra_data : Text
  pub block_time : ℕ
  pub block_duration : ℤ
  pub transaction_count : ℕ
  pub posdao_hbbft_epoch : ℤ
  pub reinsert_pot : ℕ
  pub delta_pot : ℕ
  pub governance_pot : ℕ
  pub reward_contract_total : ℕ
  pub unclaimed_rewards : ℕ

pub record Node : Type 0 where
  pub pool_address : Buffer
  pub mining_address : Buffer
  pub mining_public_key : Buffer
  pub added_block : ℕ
  pub bonus_score : ℕ

pub record PosdaoEpoch : Type 0 where
  pub id : ℤ
  pub block_start : ℕ
  pub block_end : Option ℤ

-- The rewards are those of `updateValidatorReward`, none before it.
pub record PosdaoEpochNode : Type 0 where
  pub id_posdao_epoch : ℤ
  pub id_node : Buffer
  pub owner_reward : Option ℤ
  pub rewards : Option DelegateRewards

pub record DelegateReward : Type 0 where
  pub id_node : Buffer
  pub id_posdao_epoch : ℤ
  pub id_delegator : Buffer
  pub is_claimed : Bool
  pub reward_amount : ℤ

abbrev pub same_header : Header → Header → Bool
same_header a b = a.block_number == b.block_number

abbrev pub same_node : Node → Node → Bool
same_node a b = a.pool_address == b.pool_address

abbrev pub same_epoch : PosdaoEpoch → PosdaoEpoch → Bool
same_epoch a b = a.id == b.id

abbrev pub same_epoch_node : PosdaoEpochNode → PosdaoEpochNode → Bool
same_epoch_node a b = (a.id_posdao_epoch == b.id_posdao_epoch) && (a.id_node == b.id_node)

abbrev pub same_reward : DelegateReward → DelegateReward → Bool
same_reward a b =
    (a.id_node == b.id_node)
    && (a.id_delegator == b.id_delegator)
    && (a.id_posdao_epoch == b.id_posdao_epoch)

-- The variables that the transaction changes: the names in `knownNodes`, the pool addresses of
-- `knownNodesByMining`, and `currentBonusScores` of the bonus score processor. The other three that
-- `insertNode` sets are never read.
pub record Memory : Type 0 where
  pub known_nodes : List Text
  pub known_nodes_by_mining : Text → Option Buffer
  pub current_bonus_scores : Text → Option ℕ

module _ (db : Database) (Rest : Type 0) where
  pub record Tables : Type 0 where
    pub headers : db.Table Header
    pub nodes : db.Table Node
    pub bonus_score_history : db.Table BonusScoreHistory
    pub posdao_epochs : db.Table PosdaoEpoch
    pub posdao_epoch_nodes : db.Table PosdaoEpochNode
    pub delegate_stakers : db.Table DelegateStaker
    pub delegate_rewards : db.Table DelegateReward
    pub rest : Rest

  abbrev pub has_header : ℕ → Tables → Bool
  has_header block t = any (λ h. h.block_number == block) (db.rows t.headers)

  abbrev pub has_node : Buffer → Tables → Bool
  has_node pool t = any (λ n. n.pool_address == pool) (db.rows t.nodes)

  abbrev pub has_epoch : ℤ → Tables → Bool
  has_epoch epoch t = any (λ e. e.id == epoch) (db.rows t.posdao_epochs)

  -- A statement that a foreign key refuses throws.
  abbrev pub checked : {A : Type 0} → Bool → Option A → Option A
  checked refers statement = if refers then statement else none

  abbrev pub put_nodes : Tables → Option (db.Table Node) → Option Tables
  put_nodes t none = none
  put_nodes t (some n) = some (record t { nodes = n })

  abbrev pub put_scores : Tables → Option (db.Table BonusScoreHistory) → Option Tables
  put_scores t none = none
  put_scores t (some s) = some (record t { bonus_score_history = s })

  abbrev pub put_epochs : Tables → Option (db.Table PosdaoEpoch) → Option Tables
  put_epochs t none = none
  put_epochs t (some e) = some (record t { posdao_epochs = e })

  abbrev pub put_epoch_nodes : Tables → Option (db.Table PosdaoEpochNode) → Option Tables
  put_epoch_nodes t none = none
  put_epoch_nodes t (some e) = some (record t { posdao_epoch_nodes = e })

  unfoldable pub insert_header : Header → Tables → Option Tables
  insert_header h t = some (record t { headers = db.insert_or_ignore same_header h t.headers })

  unfoldable pub insert_node : Node → Tables → Option Tables
  insert_node n t =
      checked (has_header n.added_block t) (put_nodes t (db.insert same_node n t.nodes))

  -- `writeInitialBonusScore`.
  unfoldable pub insert_score : (pool : Text) → (block score : ℕ) → Tables → Option Tables
  insert_score pool block score t =
      checked (has_node (address_to_buffer pool) t && has_header block t) (
        put_scores t (
          db.insert same_score_key (opens (address_to_buffer pool) block score)
            t.bonus_score_history))

  unfoldable pub insert_staking_epoch : ℤ → ℕ → Tables → Option Tables
  insert_staking_epoch epoch block t = checked (has_header block t) (
      put_epochs t (
        db.insert same_epoch (record { id = epoch; block_start = block; block_end = none })
          t.posdao_epochs))

  abbrev ends : ℤ → PosdaoEpoch → PosdaoEpoch
  ends block e = record e { block_end = some block }

  abbrev has_header_ℤ : ℤ → Tables → Bool
  has_header_ℤ (pos block) t = has_header block t
  has_header_ℤ (negsuc n) t = false

  unfoldable pub end_staking_epoch : ℤ → (last_block : ℤ) → Tables → Option Tables
  end_staking_epoch epoch last_block t =
      checked (not (has_epoch epoch t) || has_header_ℤ last_block t)
        (put_epochs t (db.update same_epoch (λ e. e.id == epoch) (ends last_block) t.posdao_epochs))

  unfoldable pub insert_epoch_node : ℤ → (pool : Buffer) → Tables → Option Tables
  insert_epoch_node epoch pool t = checked (has_node pool t && has_epoch epoch t) (
      put_epoch_nodes t (
        db.insert same_epoch_node
          (record { id_posdao_epoch = epoch; id_node = pool; owner_reward = none; rewards = none })
          t.posdao_epoch_nodes))

  abbrev rewarded : ℤ → DelegateRewards → PosdaoEpochNode → PosdaoEpochNode
  rewarded owner_reward rewards e = record e {
    owner_reward = some owner_reward;
    rewards = some rewards;
  }

  unfoldable pub update_validator_reward :
      (pool : Text) → ℤ → (owner_reward : ℤ) → DelegateRewards → Tables → Option Tables
  update_validator_reward pool epoch owner_reward rewards t = put_epoch_nodes t (
      db.update same_epoch_node
        (λ e. (e.id_posdao_epoch == epoch) && (e.id_node == address_to_buffer pool))
        (rewarded owner_reward rewards) t.posdao_epoch_nodes)

  unfoldable pub insert_delegate_stakers : List Text → Tables → Option Tables
  insert_delegate_stakers delegators t =
      some (record t { delegate_stakers = insert_stakers db delegators t.delegate_stakers })

  abbrev reward_row : DelegateRewardData → DelegateReward
  reward_row r = record {
    id_node = address_to_buffer r.pool_address;
    id_posdao_epoch = r.epoch;
    id_delegator = address_to_buffer r.delegator_address;
    is_claimed = r.is_claimed;
    reward_amount = r.amount;
  }

  abbrev pub insert_all :
      Tables → List DelegateRewardData → db.Table DelegateReward → Option (db.Table DelegateReward)
  insert_all t [] u = some u
  insert_all t (r ∷ rs) u =
      elim (checked
        (has_epoch r.epoch t
          && any (λ d. d.id == address_to_buffer r.delegator_address) (db.rows t.delegate_stakers))
        (db.insert same_reward (reward_row r) u)) [ none ↦ none | some u2 ↦ insert_all t rs u2 ]

  -- One INSERT for all rows, which refer to stakers and to the epoch.
  unfoldable pub insert_delegate_rewards_bulk : List DelegateRewardData → Tables → Option Tables
  insert_delegate_rewards_bulk rewards t = elim (insert_all t rewards t.delegate_rewards) [
    | none ↦ none
    | some u ↦ some (record t { delegate_rewards = u })
  ]
