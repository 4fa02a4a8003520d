-- ===== src/Visitor/Examples.antt =====
-- The visits on concrete tables and events.
use mathlib.Core.Bool.{false≢true}
use diamond_dev_tools.Prelude.{Bool-cases, inl, inr}
use diamond_dev_tools.Events.{WithdrawalEvent, ordered_withdrawal}
use diamond_dev_tools.Visitor.{OrderedWithdrawal}
use diamond_dev_tools.Prelude.{
  ==_iff, ◌≡◌, ◌≢◌, refl, arith, none, some, List, [], ◌∷◌, ◌++◌, filter, Text, nat_eq, list_eq,
  list_beq,
}
use diamond_dev_tools.Prelude.Int.{pos, neg, ◌+ℤ◌, ◌-ℤ◌, int_beq}
use diamond_dev_tools.Database.Tables.{list_database}
use diamond_dev_tools.Ether.{
  address_to_buffer, from_hex, hex_value, hex_byte, lower_char, hex_digit, to_hex,
  buffer_to_address,
}
use diamond_dev_tools.Events.{
  StakeChangedEvent, MovedStakeEvent, GatherAbandonedStakesEvent, ContractEvent, placed_stake,
  moved_stake, gather_abandoned_stakes, stake_changed, get_stake_change_amount, is_delegator_stake,
  signed_by_name,
}
use diamond_dev_tools.Stake.{
  StakeHistory, is_of, max_to_block, rows_ending, last_rows, find_last,
  get_last_stake_history_record, update_stake_history, insert_stake_history_record, succeed_record,
}
use diamond_dev_tools.Stake.Examples.{pool, node, first_record, one-IsWellKept, one_own}
use diamond_dev_tools.Visitor.{
  World, save_delegated_stake, ensure_delegate_staker, get_stake_delegator, update_stake_delegator,
  insert_stake_delegator, add_delegated, insert_stakers, insert_delegate_staker,
  get_order_withdrawal_event, succeed, open_history,
}
use diamond_dev_tools.Visitor.Dispatch.{
  visit_moved_stake_event, visit_gather_abandoned_stakes_event, process_events,
  execute_in_transaction, visit, receive_stake, move_delegation, move_stake, gather_stake,
}
use diamond_dev_tools.Visitor.Handlers.{
  visit_stake_changed_event, transaction_of, visit_availability_events, place_order,
  visit_ordered_withdrawal_event, claim, visit_claimed_ordered_withdrawal_event, change_stake,
  change_delegation,
}
use diamond_dev_tools.Visitor.Histories.{Shifts, IsReady}
use diamond_dev_tools.Visitor.StakeChange.{IsKept, AddsIf, visit_stake_changed_event-Shifts}
use diamond_dev_tools.Visitor.Moves.{
  Moves, visit_moved_stake_event-Moves, visit_gather_abandoned_stakes_event-Shifts,
}
use diamond_dev_tools.Visitor.Claims.{Claims, visit_claimed_ordered_withdrawal_event-Claims}
use diamond_dev_tools.Visitor.Orders.{
  awaits, OneOrder, Orders, visit_ordered_withdrawal_event-Orders,
}
use diamond_dev_tools.Visitor.Replay.{written, retry-duplicates}

abbrev other_pool : Text
other_pool = b'0' ∷ b'x' ∷ b'1' ∷ b'B' ∷ []

abbrev staker : Text
staker = b'0' ∷ b'x' ∷ b'2' ∷ b'C' ∷ []

abbrev world : World list_database
world = record {
  history = first_record ∷ [];
  orders = [];
  delegators = [];
  stakers = [];
  available = [];
}

world-IsKept : IsKept list_database world
world-IsKept = record { history = one-IsWellKept; delegations = refl; stakers = refl }

pool_node : address_to_buffer pool ≡ node
unfolding address_to_buffer from_hex hex_value hex_byte lower_char
pool_node = refl

pool_own : filter (is_of (address_to_buffer pool)) (first_record ∷ []) ≡ first_record ∷ []
pool_own = rw pool_node one_own

abbrev placed : StakeChangedEvent
placed = record {
  event_name = placed_stake;
  block_number = 8;
  block_timestamp = 800;
  pool_address = pool;
  staker_address = staker;
  epoch = 2;
  amount = 30;
}

abbrev move : MovedStakeEvent
move = record {
  event_name = moved_stake;
  block_number = 9;
  block_timestamp = 900;
  from_pool_address = pool;
  to_pool_address = other_pool;
  staker_address = staker;
  epoch = 2;
  amount = 10;
}

abbrev gather : GatherAbandonedStakesEvent
gather = record {
  event_name = gather_abandoned_stakes;
  block_number = 9;
  block_timestamp = 900;
  caller = staker;
  pool_address = pool;
  amount = 100;
}

other_own : filter (is_of (address_to_buffer other_pool)) (first_record ∷ []) ≡ []
unfolding address_to_buffer from_hex hex_value hex_byte lower_char list_beq
other_own = refl

pools_apart : address_to_buffer other_pool ≢ address_to_buffer pool
unfolding address_to_buffer from_hex hex_value hex_byte lower_char list_beq
pools_apart e = false≢true ((==_iff (address_to_buffer other_pool) (address_to_buffer pool)).1 e)

pool-IsReady : IsReady 9 (first_record ∷ [])
pool-IsReady = (omega arith, omega arith)

placed_amount : get_stake_change_amount placed ≡ pos 30
unfolding get_stake_change_amount signed_by_name
placed_amount = refl

visit_stake_changed_event-Shifts_example :
    (v : World list_database) × (visit_stake_changed_event list_database placed world ≡ some v)
    × IsKept list_database v
    × Shifts (first_record ∷ []) v.history (address_to_buffer pool) (get_stake_change_amount placed)
    × AddsIf
        (is_delegator_stake placed)
        []
        v.delegators
        (address_to_buffer pool)
        (address_to_buffer staker)
        (get_stake_change_amount placed)
visit_stake_changed_event-Shifts_example =
    visit_stake_changed_event-Shifts list_database placed world world-IsKept
      (rw pool_own (omega arith, omega arith)) (λ _. placed_amount)

visit_moved_stake_event-Moves_example :
    (v : World list_database) × (visit_moved_stake_event list_database move world ≡ some v)
    × Moves list_database move world v
visit_moved_stake_event-Moves_example =
    visit_moved_stake_event-Moves list_database move world first_record [] world-IsKept pools_apart
      pool_own pool-IsReady (rw other_own tt)

visit_gather_abandoned_stakes_event-Shifts_example :
    (h : List StakeHistory) × (visit_gather_abandoned_stakes_event list_database gather world
      ≡ some (record world { history = h }))
    × Shifts (first_record ∷ []) h (address_to_buffer pool) (neg (pos 100))
visit_gather_abandoned_stakes_event-Shifts_example =
    visit_gather_abandoned_stakes_event-Shifts list_database gather world first_record []
      world-IsKept pool_own pool-IsReady

-- Three events of a block that stake on one pool: the third throws.
abbrev crowded : List ContractEvent
crowded = stake_changed placed ∷ stake_changed placed ∷ stake_changed placed ∷ []

crowded_fails : (process_events list_database crowded world []).0 ≡ none
unfolding lower_char hex_value hex_byte from_hex hex_digit to_hex address_to_buffer
    buffer_to_address is_delegator_stake signed_by_name get_stake_change_amount max_to_block
    rows_ending last_rows find_last get_last_stake_history_record update_stake_history
    insert_stake_history_record succeed_record ensure_delegate_staker get_stake_delegator
    update_stake_delegator insert_stake_delegator add_delegated save_delegated_stake insert_stakers
    insert_delegate_staker get_order_withdrawal_event succeed open_history transaction_of
    visit_availability_events place_order visit_ordered_withdrawal_event claim
    visit_claimed_ordered_withdrawal_event change_stake change_delegation visit_stake_changed_event
    receive_stake move_delegation move_stake visit_moved_stake_event gather_stake
    visit_gather_abandoned_stakes_event visit process_events execute_in_transaction list_beq ◌+ℤ◌
    ◌-ℤ◌ neg int_beq
crowded_fails = refl

retry-duplicates_example :
    execute_in_transaction list_database crowded
      (execute_in_transaction list_database crowded world []).0
      (execute_in_transaction list_database crowded world []).1
    ≡ (world, written list_database crowded world ++ (written list_database crowded world ++ []))
retry-duplicates_example = retry-duplicates list_database crowded world [] crowded_fails

abbrev withdrawal : WithdrawalEvent
withdrawal = record {
  event_name = ordered_withdrawal;
  block_number = 9;
  block_timestamp = 900;
  pool_address = pool;
  staker_address = staker;
  epoch = 2;
  amount = 40;
}

abbrev open_order : OrderedWithdrawal
open_order = record {
  id = 5;
  amount = pos 10;
  block_number = 3;
  staking_epoch = 1;
  from_pool = node;
  staker = 44 ∷ [];
  claimed_on_block = none;
}

abbrev ordering_world : World list_database
ordering_world = record world { orders = open_order ∷ [] }

open_order-OneOrder : OneOrder (open_order ∷ [])
open_order-OneOrder p s = elim (Bool-cases (awaits p s open_order)) [
  | inl h ↦ rw h (inr (open_order, refl))
  | inr h ↦ rw h (inl refl)
]

visit_ordered_withdrawal_event-Orders_example :
    (t : List OrderedWithdrawal) × (visit_ordered_withdrawal_event list_database withdrawal
        ordering_world
      ≡ some (record ordering_world { orders = t }))
    × Orders (open_order ∷ []) t (address_to_buffer pool) (address_to_buffer staker) (pos 40)
visit_ordered_withdrawal_event-Orders_example =
    visit_ordered_withdrawal_event-Orders list_database withdrawal ordering_world refl
      open_order-OneOrder

awaiting_own :
    filter (awaits (address_to_buffer pool) (address_to_buffer staker)) (open_order ∷ [])
    ≡ open_order ∷ []
unfolding address_to_buffer from_hex hex_value hex_byte lower_char list_beq
awaiting_own = refl

visit_claimed_ordered_withdrawal_event-Claims_example :
    (t : List OrderedWithdrawal) × (h : List StakeHistory) × (visit_claimed_ordered_withdrawal_event
        list_database withdrawal ordering_world
      ≡ some (record ordering_world { orders = t; history = h }))
    × Claims (open_order ∷ []) t (address_to_buffer pool) (address_to_buffer staker) 9
    × Shifts (first_record ∷ []) h (address_to_buffer pool) (neg (pos 40))
visit_claimed_ordered_withdrawal_event-Claims_example =
    visit_claimed_ordered_withdrawal_event-Claims list_database withdrawal ordering_world open_order
      first_record [] one-IsWellKept refl awaiting_own pool_own pool-IsReady
