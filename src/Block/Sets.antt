-- ===== src/Block/Sets.antt =====
-- The sets of addresses that `EventProcessor` (src/eventProcessor.ts) takes from a block's events.
use diamond_dev_tools.Prelude.{
  Bool, true, false, List, [], ◌∷◌, ◌++◌, any, Text, ◌==◌, list_eq, if◌then◌else◌,
}
use diamond_dev_tools.Ether.{to_lower_case}
use diamond_dev_tools.Events.{
  EventName, placed_stake, withdrew_stake, moved_stake, ordered_withdrawal,
  claimed_ordered_withdrawal, gather_abandoned_stakes, validator_available, validator_unavailable,
  ContractEvent, stake_changed, moved, ordered, claimed, gathered, availability, is_delegator_stake,
  name_of,
}

-- A `Set` lists its members in the order in which they were added.
abbrev pub insert_new : Text → List Text → List Text
insert_new x xs = if any (λ y. y == x) xs then xs else xs ++ x ∷ []

abbrev pub pools_of : ContractEvent → List Text
pools_of (stake_changed e) = to_lower_case e.pool_address ∷ []
pools_of (moved e) = to_lower_case e.from_pool_address ∷ to_lower_case e.to_pool_address ∷ []
pools_of (ordered e) = to_lower_case e.pool_address ∷ []
pools_of (claimed e) = to_lower_case e.pool_address ∷ []
pools_of (gathered e) = to_lower_case e.pool_address ∷ []
pools_of (availability e) = []

abbrev pub insert_each : List Text → List Text → List Text
insert_each [] set = set
insert_each (x ∷ xs) set = insert_each xs (insert_new x set)

unfoldable pub is_stake_movement_event : EventName → Bool
is_stake_movement_event placed_stake = true
is_stake_movement_event moved_stake = true
is_stake_movement_event withdrew_stake = true
is_stake_movement_event ordered_withdrawal = true
is_stake_movement_event claimed_ordered_withdrawal = true
is_stake_movement_event gather_abandoned_stakes = true
is_stake_movement_event validator_available = false
is_stake_movement_event validator_unavailable = false

unfoldable pub is_placed_stake_event : EventName → Bool
is_placed_stake_event placed_stake = true
is_placed_stake_event _ = false

unfoldable pub get_pools_set : List ContractEvent → List Text → List Text
unfolding is_stake_movement_event
get_pools_set [] result = result
get_pools_set (e ∷ es) result =
    get_pools_set es
      (if is_stake_movement_event (name_of e) then insert_each (pools_of e) result else result)

abbrev pub delegator_of : ContractEvent → List Text
delegator_of (stake_changed e) = if is_delegator_stake e then e.staker_address ∷ [] else []
delegator_of _ = []

unfoldable pub get_delegators_set : List ContractEvent → List Text → List Text
unfolding is_placed_stake_event is_delegator_stake
get_delegators_set [] result = result
get_delegators_set (e ∷ es) result =
    get_delegators_set es
      (if is_placed_stake_event (name_of e) then insert_each (delegator_of e) result else result)
