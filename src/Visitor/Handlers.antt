-- ===== src/Visitor/Handlers.antt =====
-- Visit methods of `EventVisitor` (src/eventsVisitor.ts).
-- Each method of a staking event first writes its row of `stake_transactions`: `transaction_of` is
-- that row, and `visit` is the rest of the method.
use diamond_dev_tools.Prelude.{
  false, not, Option, none, some, [], ◌∷◌, ◌==◌, nat_eq, list_eq, if◌then◌else◌, ◌>>=◌,
}
use diamond_dev_tools.Prelude.Int.{pos, ◌+ℤ◌, ◌-ℤ◌}
use diamond_dev_tools.Database.{Database}
use diamond_dev_tools.Ether.{address_to_buffer}
use diamond_dev_tools.Events.{
  moved_stake, ordered_withdrawal, claimed_ordered_withdrawal, gather_abandoned_stakes,
  StakeChangedEvent, WithdrawalEvent, AvailabilityEvent, ContractEvent, stake_changed, moved,
  ordered, claimed, gathered, availability, is_delegator_stake, get_stake_change_amount,
}
use diamond_dev_tools.Stake.{StakeHistory, get_last_stake_history_record}
use diamond_dev_tools.Visitor.{
  OrderedWithdrawal, StakeTransaction, World, same_order, same_availability, save_delegated_stake,
  insert_delegate_staker, get_order_withdrawal_event, succeed, open_history,
}

unfoldable pub transaction_of : ContractEvent → Option StakeTransaction
unfolding is_delegator_stake
transaction_of (stake_changed e) = some (record {
  block_number = e.block_number;
  block_timestamp = e.block_timestamp;
  action_type = e.event_name;
  pool_address = address_to_buffer e.pool_address;
  staker_address = some (address_to_buffer e.staker_address);
  to_pool_address = none;
  caller_address = none;
  amount = e.amount;
  staking_epoch = some e.epoch;
  is_delegator_stake = is_delegator_stake e;
})
transaction_of (moved e) = some (record {
  block_number = e.block_number;
  block_timestamp = e.block_timestamp;
  action_type = moved_stake;
  pool_address = address_to_buffer e.from_pool_address;
  staker_address = some (address_to_buffer e.staker_address);
  to_pool_address = some (address_to_buffer e.to_pool_address);
  caller_address = none;
  amount = e.amount;
  staking_epoch = some e.epoch;
  is_delegator_stake = not (e.from_pool_address == e.staker_address);
})
transaction_of (ordered e) = some (record {
  block_number = e.block_number;
  block_timestamp = e.block_timestamp;
  action_type = ordered_withdrawal;
  pool_address = address_to_buffer e.pool_address;
  staker_address = some (address_to_buffer e.staker_address);
  to_pool_address = none;
  caller_address = none;
  amount = e.amount;
  staking_epoch = some e.epoch;
  is_delegator_stake = not (e.pool_address == e.staker_address);
})
transaction_of (claimed e) = some (record {
  block_number = e.block_number;
  block_timestamp = e.block_timestamp;
  action_type = claimed_ordered_withdrawal;
  pool_address = address_to_buffer e.pool_address;
  staker_address = some (address_to_buffer e.staker_address);
  to_pool_address = none;
  caller_address = none;
  amount = e.amount;
  staking_epoch = some e.epoch;
  is_delegator_stake = not (e.pool_address == e.staker_address);
})
transaction_of (gathered e) = some (record {
  block_number = e.block_number;
  block_timestamp = e.block_timestamp;
  action_type = gather_abandoned_stakes;
  pool_address = address_to_buffer e.pool_address;
  staker_address = none;
  to_pool_address = none;
  caller_address = some (address_to_buffer e.caller);
  amount = e.amount;
  staking_epoch = none;
  is_delegator_stake = false;
})
transaction_of (availability e) = none

module _ (db : Database) where
  open db use {insert, update, next_id}

  unfoldable pub visit_availability_events : AvailabilityEvent → World db → Option (World db)
  visit_availability_events e w = do
    t ←
        insert same_availability
          (record {
            node = address_to_buffer e.pool_address;
            block = e.block_number;
            became_available = e.available;
          })
          w.available
    some (record w { available = t })

  -- The UPDATE or INSERT of an ordered withdrawal, by the open order of that pool and staker.
  unfoldable pub place_order :
      WithdrawalEvent
      → Option OrderedWithdrawal
      → db.Table OrderedWithdrawal
      → Option (db.Table OrderedWithdrawal)
  place_order e none t =
      insert same_order
        (record {
          id = next_id (λ r. r.id) t;
          amount = pos e.amount;
          block_number = e.block_number;
          staking_epoch = e.epoch;
          from_pool = address_to_buffer e.pool_address;
          staker = address_to_buffer e.staker_address;
          claimed_on_block = none;
        })
        t
  place_order e (some o) t =
      update same_order (λ r. r.id == o.id)
        (λ r. record r {
          staking_epoch = e.epoch;
          block_number = e.block_number;
          amount = o.amount +ℤ pos e.amount;
        })
        t

  unfoldable pub visit_ordered_withdrawal_event : WithdrawalEvent → World db → Option (World db)
  unfolding place_order get_order_withdrawal_event
  visit_ordered_withdrawal_event e w = do
    t ←
        place_order e (get_order_withdrawal_event db e.pool_address e.staker_address w.orders)
          w.orders
    some (record w { orders = t })

  -- Both records are needed: an unmatched claim changes nothing.
  unfoldable pub claim :
      WithdrawalEvent
      → Option OrderedWithdrawal
      → Option StakeHistory
      → World db
      → Option (World db)
  unfolding succeed
  claim e (some o) (some s) w = do
    t ←
        update same_order (λ r. r.id == o.id)
          (λ r. record r { claimed_on_block = some e.block_number }) w.orders
    succeed db s e.block_number (s.stake_amount -ℤ pos e.amount) s.node (record w { orders = t })
  claim e _ _ w = some w

  unfoldable pub visit_claimed_ordered_withdrawal_event :
      WithdrawalEvent → World db → Option (World db)
  unfolding claim get_order_withdrawal_event get_last_stake_history_record
  visit_claimed_ordered_withdrawal_event e w =
      claim e (get_order_withdrawal_event db e.pool_address e.staker_address w.orders)
        (get_last_stake_history_record db e.pool_address w.history) w

  unfoldable pub change_stake :
      StakeChangedEvent → Option StakeHistory → World db → Option (World db)
  unfolding succeed open_history get_stake_change_amount
  change_stake e none w =
      open_history db e.block_number (pos e.amount) (address_to_buffer e.pool_address) w
  change_stake e (some s) w =
      succeed db s e.block_number (s.stake_amount +ℤ get_stake_change_amount e) s.node w

  -- The delegator's part of `visitStakeChangedEvent`.
  unfoldable pub change_delegation : StakeChangedEvent → World db → Option (World db)
  unfolding is_delegator_stake get_stake_change_amount save_delegated_stake insert_delegate_staker
  change_delegation e w =
      if is_delegator_stake e
      then save_delegated_stake db e.pool_address e.staker_address (get_stake_change_amount e)
          (insert_delegate_staker db (e.staker_address ∷ []) w)
      else some w

  unfoldable pub visit_stake_changed_event : StakeChangedEvent → World db → Option (World db)
  unfolding change_delegation change_stake get_last_stake_history_record
  visit_stake_changed_event e w = do
    w' ← change_delegation e w
    change_stake e (get_last_stake_history_record db e.pool_address w'.history) w'
