-- ===== src/Visitor/Dispatch.antt =====
-- The handlers that move stake out of a pool, the call of a handler by the class of the event, and
-- `EventProcessor.processEvents` (src/eventProcessor.ts) in a block's transaction
-- (`DbManager.executeInTransaction`, src/db/database-persistent.ts).
use diamond_dev_tools.Prelude.{
  not, Option, none, some, List, [], ◌∷◌, ◌==◌, nat_eq, list_eq, if◌then◌else◌, ◌>>=◌,
}
use diamond_dev_tools.Prelude.Int.{pos, neg, ◌+ℤ◌, ◌-ℤ◌}
use diamond_dev_tools.Database.{Database}
use diamond_dev_tools.Ether.{address_to_buffer}
use diamond_dev_tools.Events.{
  MovedStakeEvent, GatherAbandonedStakesEvent, ContractEvent, stake_changed, moved, ordered,
  claimed, gathered, availability,
}
use diamond_dev_tools.Stake.{StakeHistory, get_last_stake_history_record}
use diamond_dev_tools.Visitor.{StakeTransaction, World, save_delegated_stake, succeed, open_history}
use diamond_dev_tools.Visitor.Handlers.{
  transaction_of, visit_availability_events, visit_ordered_withdrawal_event,
  visit_claimed_ordered_withdrawal_event, visit_stake_changed_event,
}

module _ (db : Database) where
  -- The pool that receives the stake, by its last record.
  unfoldable pub receive_stake :
      MovedStakeEvent → Option StakeHistory → World db → Option (World db)
  unfolding succeed open_history
  receive_stake e none w =
      open_history db e.block_number (pos 0 +ℤ pos e.amount) (address_to_buffer e.to_pool_address) w
  receive_stake e (some s) w =
      succeed db s e.block_number (s.stake_amount +ℤ pos e.amount)
        (address_to_buffer e.to_pool_address) w

  -- The delegated stakes: out of the one pool, into the other, unless the staker owns it.
  unfoldable pub move_delegation : MovedStakeEvent → World db → Option (World db)
  unfolding save_delegated_stake
  move_delegation e w = do
    w' ←
        (if not (e.from_pool_address == e.staker_address)
          then save_delegated_stake db e.from_pool_address e.staker_address (neg (pos e.amount)) w
          else some w)
    if not (e.to_pool_address == e.staker_address)
        then save_delegated_stake db e.to_pool_address e.staker_address (pos e.amount) w'
        else some w'

  -- Without a record of the pool that gives, the event is unmatched and changes nothing.
  unfoldable pub move_stake : MovedStakeEvent → Option StakeHistory → World db → Option (World db)
  unfolding receive_stake move_delegation succeed get_last_stake_history_record
  move_stake e none w = some w
  move_stake e (some s) w = do
    given ← succeed db s e.block_number (s.stake_amount -ℤ pos e.amount) s.node w
    taken ← receive_stake e (get_last_stake_history_record db e.to_pool_address given.history) given
    move_delegation e taken

  unfoldable pub visit_moved_stake_event : MovedStakeEvent → World db → Option (World db)
  unfolding move_stake get_last_stake_history_record
  visit_moved_stake_event e w =
      move_stake e (get_last_stake_history_record db e.from_pool_address w.history) w

  unfoldable pub gather_stake :
      GatherAbandonedStakesEvent → Option StakeHistory → World db → Option (World db)
  unfolding succeed
  gather_stake e none w = some w
  gather_stake e (some s) w =
      succeed db s e.block_number (s.stake_amount -ℤ pos e.amount)
        (address_to_buffer e.pool_address) w

  unfoldable pub visit_gather_abandoned_stakes_event :
      GatherAbandonedStakesEvent → World db → Option (World db)
  unfolding gather_stake get_last_stake_history_record
  visit_gather_abandoned_stakes_event e w =
      gather_stake e (get_last_stake_history_record db e.pool_address w.history) w

  -- `accept`: the transactional part of a visit.
  unfoldable pub visit : ContractEvent → World db → Option (World db)
  visit (stake_changed e) = visit_stake_changed_event db e
  visit (moved e) = visit_moved_stake_event e
  visit (ordered e) = visit_ordered_withdrawal_event db e
  visit (claimed e) = visit_claimed_ordered_withdrawal_event db e
  visit (gathered e) = visit_gather_abandoned_stakes_event e
  visit (availability e) = visit_availability_events db e

  abbrev pub logged : Option StakeTransaction → List StakeTransaction → List StakeTransaction
  logged none log = log
  logged (some t) log = t ∷ log

  -- The events in order, up to the first that throws; the rows of `stake_transactions` that were
  -- written by then stay.
  unfoldable pub process_events :
      List ContractEvent
      → World db
      → List StakeTransaction
      → Option (World db) × List StakeTransaction
  process_events [] w log = (some w, log)
  process_events (e ∷ es) w log = elim (visit e w) [
    | none ↦ (none, logged (transaction_of e) log)
    | some w' ↦ process_events es w' (logged (transaction_of e) log)
  ]

  abbrev commit : World db → Option (World db) → World db
  commit w none = w
  commit w (some w') = w'

  -- A transaction around the events: COMMIT, or ROLLBACK of the tables that it wrote.
  unfoldable pub execute_in_transaction :
      List ContractEvent → World db → List StakeTransaction → World db × List StakeTransaction
  unfolding process_events
  execute_in_transaction es w log =
      let (result, log') = process_events es w log in (commit w result, log')
