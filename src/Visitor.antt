-- ===== src/Visitor.antt =====
-- `EventVisitor` of src/eventsVisitor.ts for the staking and availability events, with the methods
-- of `DbManager` (src/db/database-persistent.ts) that it calls, over any database. `none` is an
-- exception, which ends the block's transaction. `insertStakeTransaction` runs on the connection
-- pool, outside that transaction: its rows are a list of their own, newest first.
pub mod Handlers
pub mod Dispatch
pub mod Delegation
pub mod Histories
pub mod StakeChange
pub mod Moves
pub mod Orders
pub mod Claims
pub mod Replay
pub mod Examples
use diamond_dev_tools.Prelude.{
  ℕ, Bool, true, false, not, ◌&&◌, Option, none, some, List, [], ◌∷◌, Text, Buffer, ◌==◌, nat_eq,
  list_eq, if◌then◌else◌, ◌>>=◌,
}
use diamond_dev_tools.Prelude.Int.{ℤ, pos, neg, ◌+ℤ◌, ◌-ℤ◌}
use diamond_dev_tools.Database.{Database}
use diamond_dev_tools.Ether.{address_to_buffer}
use diamond_dev_tools.Events.{
  EventName, StakeChangedEvent, MovedStakeEvent, WithdrawalEvent, GatherAbandonedStakesEvent,
  AvailabilityEvent, ContractEvent, stake_changed, moved, ordered, claimed, gathered, availability,
  is_delegator_stake, get_stake_change_amount,
}
use diamond_dev_tools.Stake.{
  StakeHistory, opened, get_last_stake_history_record, insert_stake_history_record, succeed_record,
}

pub record OrderedWithdrawal : Type 0 where
  pub id : ℕ
  pub amount : ℤ
  pub block_number : ℕ
  pub staking_epoch : ℕ
  pub from_pool : Buffer
  pub staker : Buffer
  pub claimed_on_block : Option ℕ

pub record StakeDelegators : Type 0 where
  pub pool_address : Buffer
  pub delegator : Buffer
  pub total_delegated : ℤ

pub record DelegateStaker : Type 0 where
  pub id : Buffer

pub record AvailableEvent : Type 0 where
  pub node : Buffer
  pub block : ℕ
  pub became_available : Bool

-- A row of `stake_transactions`.
pub record StakeTransaction : Type 0 where
  pub block_number : ℕ
  pub block_timestamp : ℕ
  pub action_type : EventName
  pub pool_address : Buffer
  pub staker_address : Option Buffer
  pub to_pool_address : Option Buffer
  pub caller_address : Option Buffer
  pub amount : ℕ
  pub staking_epoch : Option ℕ
  pub is_delegator_stake : Bool

abbrev pub same_order : OrderedWithdrawal → OrderedWithdrawal → Bool
same_order a b = a.id == b.id

abbrev pub same_delegation : StakeDelegators → StakeDelegators → Bool
same_delegation a b = a.pool_address == b.pool_address && a.delegator == b.delegator

abbrev pub same_staker : DelegateStaker → DelegateStaker → Bool
same_staker a b = a.id == b.id

abbrev pub same_availability : AvailableEvent → AvailableEvent → Bool
same_availability a b = a.node == b.node && a.block == b.block

abbrev pub is_open : OrderedWithdrawal → Bool
is_open r = elim r.claimed_on_block [ none ↦ true | some _ ↦ false ]

-- The tables that a block's transaction writes.
pub record World (db : Database) : Type 0 where
  pub history : db.Table StakeHistory
  pub orders : db.Table OrderedWithdrawal
  pub delegators : db.Table StakeDelegators
  pub stakers : db.Table DelegateStaker
  pub available : db.Table AvailableEvent

module _ (db : Database) where
  open db use {Table, rows, insert, update, find_one, insert_or_ignore, next_id}

  unfoldable pub ensure_delegate_staker :
      Text → Table DelegateStaker → Option (Table DelegateStaker)
  ensure_delegate_staker delegator t =
      elim (find_one (λ r. r.id == address_to_buffer delegator) t) [
        | none ↦ insert same_staker (record { id = address_to_buffer delegator }) t
        | some _ ↦ some t
      ]

  unfoldable pub get_stake_delegator : Text → Text → Table StakeDelegators → Option StakeDelegators
  get_stake_delegator pool delegator =
      find_one
        λ r. r.pool_address == address_to_buffer pool && r.delegator == address_to_buffer delegator

  unfoldable pub update_stake_delegator :
      Text → Text → ℤ → Table StakeDelegators → Option (Table StakeDelegators)
  update_stake_delegator pool delegator value =
      update same_delegation
        (λ r.
          r.pool_address == address_to_buffer pool && r.delegator == address_to_buffer delegator)
        (λ r. record r { total_delegated = value })

  unfoldable pub insert_stake_delegator :
      Text → Text → ℤ → Table StakeDelegators → Option (Table StakeDelegators)
  insert_stake_delegator pool delegator value = insert same_delegation (record {
    pool_address = address_to_buffer pool;
    delegator = address_to_buffer delegator;
    total_delegated = value;
  })

  -- The part of `saveDelegatedStake` after the staker is known.
  unfoldable pub add_delegated :
      Text → Text → ℤ → Table StakeDelegators → Option (Table StakeDelegators)
  unfolding get_stake_delegator update_stake_delegator insert_stake_delegator
  add_delegated pool delegator amount t = elim (get_stake_delegator pool delegator t) [
    | none ↦ insert_stake_delegator pool delegator amount t
    | some r ↦ update_stake_delegator pool delegator (r.total_delegated +ℤ amount) t
  ]

  unfoldable pub save_delegated_stake : Text → Text → ℤ → World db → Option (World db)
  unfolding ensure_delegate_staker add_delegated
  save_delegated_stake pool delegator amount w = do
    known ← ensure_delegate_staker delegator w.stakers
    added ← add_delegated pool delegator amount w.delegators
    some (record w { stakers = known; delegators = added })

  unfoldable pub insert_stakers : List Text → Table DelegateStaker → Table DelegateStaker
  insert_stakers [] t = t
  insert_stakers (d ∷ ds) t =
      insert_stakers ds (insert_or_ignore same_staker (record { id = address_to_buffer d }) t)

  unfoldable pub insert_delegate_staker : List Text → World db → World db
  unfolding insert_stakers
  insert_delegate_staker delegators w = record w { stakers = insert_stakers delegators w.stakers }

  unfoldable pub get_order_withdrawal_event :
      Text → Text → Table OrderedWithdrawal → Option OrderedWithdrawal
  get_order_withdrawal_event pool staker = find_one λ r.
      r.from_pool == address_to_buffer pool && r.staker == address_to_buffer staker && is_open r

  unfoldable pub succeed : StakeHistory → ℕ → ℤ → Buffer → World db → Option (World db)
  succeed last block amount node w = do
    h ← succeed_record db last block amount node w.history
    some (record w { history = h })

  unfoldable pub open_history : ℕ → ℤ → Buffer → World db → Option (World db)
  open_history block amount node w = do
    h ← insert_stake_history_record db (opened block amount node) w.history
    some (record w { history = h })
