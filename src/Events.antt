-- ===== src/Events.antt =====
-- The staking and availability events of src/eventsVisitor.ts. Names are the strings that
-- src/contractManager.ts constructs the events with; amounts are wei, which `parseEther` and the
-- numeric columns hold exactly, as 18 decimals of the coin.
use diamond_dev_tools.Prelude.{ℕ, Bool, not, Text, ◌==◌, list_eq}
use diamond_dev_tools.Prelude.Int.{ℤ, pos, neg}

pub data EventName : Type 0 where
  placed_stake withdrew_stake moved_stake ordered_withdrawal : EventName
  claimed_ordered_withdrawal gather_abandoned_stakes : EventName
  validator_available validator_unavailable : EventName

pub record StakeChangedEvent : Type 0 where
  pub event_name : EventName
  pub block_number : ℕ
  pub block_timestamp : ℕ
  pub pool_address : Text
  pub staker_address : Text
  pub epoch : ℕ
  pub amount : ℕ

pub record MovedStakeEvent : Type 0 where
  pub event_name : EventName
  pub block_number : ℕ
  pub block_timestamp : ℕ
  pub from_pool_address : Text
  pub to_pool_address : Text
  pub staker_address : Text
  pub epoch : ℕ
  pub amount : ℕ

-- `OrderedWithdrawalEvent` and `ClaimedOrderedWithdrawalEvent` have the same fields.
pub record WithdrawalEvent : Type 0 where
  pub event_name : EventName
  pub block_number : ℕ
  pub block_timestamp : ℕ
  pub pool_address : Text
  pub staker_address : Text
  pub epoch : ℕ
  pub amount : ℕ

pub record GatherAbandonedStakesEvent : Type 0 where
  pub event_name : EventName
  pub block_number : ℕ
  pub block_timestamp : ℕ
  pub caller : Text
  pub pool_address : Text
  pub amount : ℕ

pub record AvailabilityEvent : Type 0 where
  pub event_name : EventName
  pub block_number : ℕ
  pub block_timestamp : ℕ
  pub pool_address : Text
  pub available : Bool

-- The class of an event decides which method of the visitor its `accept` calls.
pub data ContractEvent : Type 0 where
  stake_changed : StakeChangedEvent → ContractEvent
  moved : MovedStakeEvent → ContractEvent
  ordered : WithdrawalEvent → ContractEvent
  claimed : WithdrawalEvent → ContractEvent
  gathered : GatherAbandonedStakesEvent → ContractEvent
  availability : AvailabilityEvent → ContractEvent

unfoldable pub is_delegator_stake : StakeChangedEvent → Bool
is_delegator_stake e = not (e.pool_address == e.staker_address)

unfoldable pub signed_by_name : EventName → ℕ → ℤ
signed_by_name withdrew_stake n = neg (pos n)
signed_by_name _ n = pos n

unfoldable pub get_stake_change_amount : StakeChangedEvent → ℤ
unfolding signed_by_name
get_stake_change_amount e = signed_by_name e.event_name e.amount

abbrev pub name_of : ContractEvent → EventName
name_of (stake_changed e) = e.event_name
name_of (moved e) = e.event_name
name_of (ordered e) = e.event_name
name_of (claimed e) = e.event_name
name_of (gathered e) = e.event_name
name_of (availability e) = e.event_name
