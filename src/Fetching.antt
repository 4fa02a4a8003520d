-- ===== src/Fetching.antt =====
-- How `ContractManager` (src/contractManager.ts) collects the events of a range of blocks. What the
-- node answers to `getPastEvents` and `getBlock` is an argument, where none is an exception; the
-- list of name events is an argument, too. Array.prototype.sort is stable.
pub mod Order
pub mod Naming
pub mod Chain
pub mod Examples
use diamond_dev_tools.Prelude.{
  ℕ, Bool, true, false, Option, none, some, List, [], ◌∷◌, ◌++◌, map, Text, ◌>>=◌, leb,
  if◌then◌else◌,
}
use diamond_dev_tools.Events.{
  EventName, placed_stake, withdrew_stake, moved_stake, ordered_withdrawal,
  claimed_ordered_withdrawal, gather_abandoned_stakes, validator_available, validator_unavailable,
  ContractEvent, stake_changed, moved, ordered, claimed, gathered, availability,
}

-- A log of the staking contract: `pool` is the one pool address of the log, or the one that gives,
-- and `other_pool` the one that receives. `staker` is the caller of gathered stakes.
pub record Log : Type 0 where
  pub block_number : ℕ
  pub pool : Text
  pub other_pool : Text
  pub staker : Text
  pub epoch : ℕ
  pub amount : ℕ

pub record AvailabilityLog : Type 0 where
  pub block_number : ℕ
  pub validator : Text
  pub timestamp : ℕ

-- The node's answers for the range.
pub record NodeAnswers : Type 0 where
  pub past_events : EventName → Option (List Log)
  pub past_availability : EventName → Option (List AvailabilityLog)
  pub block_timestamp : ℕ → Option ℕ
  pub address_staking_by_mining : Text → ℕ → Option Text

abbrev pub block_number_of : ContractEvent → ℕ
block_number_of (stake_changed e) = e.block_number
block_number_of (moved e) = e.block_number
block_number_of (ordered e) = e.block_number
block_number_of (claimed e) = e.block_number
block_number_of (gathered e) = e.block_number
block_number_of (availability e) = e.block_number

module _ {A : Type 0} (key : A → ℕ) where
  abbrev pub insert_by : A → List A → List A
  insert_by x [] = x ∷ []
  insert_by x (y ∷ ys) = if leb (key x) (key y) then x ∷ y ∷ ys else y ∷ insert_by x ys

  -- `result.sort((a, b) => key(a) - key(b))`.
  unfoldable pub sort_by : List A → List A
  sort_by [] = []
  sort_by (x ∷ xs) = insert_by x (sort_by xs)

-- The event of a log, by the name that it was asked for.
abbrev pub event_of : EventName → Log → (timestamp : ℕ) → ContractEvent
event_of moved_stake l t = moved (record {
  event_name = moved_stake;
  block_number = l.block_number;
  block_timestamp = t;
  from_pool_address = l.pool;
  to_pool_address = l.other_pool;
  staker_address = l.staker;
  epoch = l.epoch;
  amount = l.amount;
})
event_of ordered_withdrawal l t = ordered (record {
  event_name = ordered_withdrawal;
  block_number = l.block_number;
  block_timestamp = t;
  pool_address = l.pool;
  staker_address = l.staker;
  epoch = l.epoch;
  amount = l.amount;
})
event_of claimed_ordered_withdrawal l t = claimed (record {
  event_name = claimed_ordered_withdrawal;
  block_number = l.block_number;
  block_timestamp = t;
  pool_address = l.pool;
  staker_address = l.staker;
  epoch = l.epoch;
  amount = l.amount;
})
event_of gather_abandoned_stakes l t = gathered (record {
  event_name = gather_abandoned_stakes;
  block_number = l.block_number;
  block_timestamp = t;
  caller = l.staker;
  pool_address = l.pool;
  amount = l.amount;
})
event_of name l t = stake_changed (record {
  event_name = name;
  block_number = l.block_number;
  block_timestamp = t;
  pool_address = l.pool;
  staker_address = l.staker;
  epoch = l.epoch;
  amount = l.amount;
})

module _ (node : NodeAnswers) where
  abbrev pub with_timestamps : EventName → List Log → Option (List ContractEvent)
  with_timestamps name [] = some []
  with_timestamps name (l ∷ ls) = do
    t ← node.block_timestamp l.block_number
    rest ← with_timestamps name ls
    some (event_of name l t ∷ rest)

  -- The getters of one kind: `getPlacedStakeEvents`, `getWithdrewStakeEvents`,
  -- `getMovedStakeEvents`, `getGatherAbandonedStakesEvents`, and the halves of
  -- `getWithdrawalOrderEvents`.
  unfoldable pub get_events : EventName → Option (List ContractEvent)
  get_events name = do logs ← node.past_events name; with_timestamps name logs

  unfoldable pub get_withdrawal_order_events : Option (List ContractEvent)
  unfolding get_events
  get_withdrawal_order_events = do
    orders ← get_events ordered_withdrawal
    claims ← get_events claimed_ordered_withdrawal
    some (orders ++ claims)

  abbrev pub with_pools : EventName → Bool → List AvailabilityLog → Option (List ContractEvent)
  with_pools name available [] = some []
  with_pools name available (l ∷ ls) = do
    pool ← node.address_staking_by_mining l.validator l.block_number
    rest ← with_pools name available ls
    some (
        availability (record {
          event_name = name;
          block_number = l.block_number;
          block_timestamp = l.timestamp;
          pool_address = pool;
          available = available;
        })
        ∷ rest)

  unfoldable pub get_availability_events : Option (List ContractEvent)
  get_availability_events = do
    ups ← node.past_availability validator_available
    downs ← node.past_availability validator_unavailable
    available ← with_pools validator_available true ups
    unavailable ← with_pools validator_unavailable false downs
    some (available ++ unavailable)

  unfoldable pub get_stake_update_events : Option (List ContractEvent)
  unfolding get_events get_withdrawal_order_events sort_by
  get_stake_update_events = do
    placed ← get_events placed_stake
    withdrew ← get_events withdrew_stake
    moves ← get_events moved_stake
    orders ← get_withdrawal_order_events
    abandoned ← get_events gather_abandoned_stakes
    some (sort_by block_number_of (placed ++ withdrew ++ moves ++ orders ++ abandoned))

-- An event of any contract.
pub data AnyEvent (NameEvent : Type 0) : Type 0 where
  stake_event : ContractEvent → AnyEvent NameEvent
  name_event : NameEvent → AnyEvent NameEvent

abbrev pub any_block : {NameEvent : Type 0} (block_of : NameEvent → ℕ) → AnyEvent NameEvent → ℕ
any_block block_of (stake_event e) = block_number_of e
any_block block_of (name_event e) = block_of e

-- `block_of` gives the block of a name event, and `naming` is what `getDmdNamingEvents` returns.
unfoldable pub get_all_events :
    {NameEvent : Type 0} (node : NodeAnswers) (block_of : NameEvent → ℕ)
    (naming : Option (List NameEvent))
    → Option (List (AnyEvent NameEvent))
unfolding get_availability_events get_stake_update_events sort_by
get_all_events node block_of naming = do
  available ← get_availability_events node
  stakes ← get_stake_update_events node
  names ← naming
  some (
      sort_by (any_block block_of)
        (map stake_event available ++ map stake_event stakes ++ map name_event names))
