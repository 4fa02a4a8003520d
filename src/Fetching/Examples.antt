-- ===== src/Fetching/Examples.antt =====
-- A withdrawal in one block, before stake that is placed.
use diamond_dev_tools.Prelude.{
  true, false, ℕ, ◌*◌, ◌≡◌, refl, Option, none, some, List, [], ◌∷◌, ◌++◌, nat_eq,
}
use diamond_dev_tools.Events.{EventName, placed_stake, withdrew_stake, ContractEvent}
use diamond_dev_tools.Fetching.{Log, NodeAnswers, event_of}
use diamond_dev_tools.Names.{NameAction, activated, transfer, NameEvent}
use diamond_dev_tools.Fetching.Naming.{NameLog, NameAnswers, name_event_of, get_dmd_naming_events}

abbrev log : ℕ → ℕ → Log
log block amount = record {
  block_number = block;
  pool = [];
  other_pool = [];
  staker = [];
  epoch = 1;
  amount = amount;
}

abbrev logs_of : EventName → Option (List Log)
logs_of placed_stake = some (log 8 5 ∷ [])
logs_of withdrew_stake = some (log 7 2 ∷ log 8 3 ∷ [])
logs_of name = some []

abbrev node : NodeAnswers
node = record {
  past_events = logs_of;
  past_availability = λ name. some [];
  block_timestamp = λ block. some (block * 5);
  address_staking_by_mining = λ a b. none;
}

abbrev placed : List ContractEvent
placed = event_of placed_stake (log 8 5) 40 ∷ []

abbrev withdrew : List ContractEvent
withdrew = event_of withdrew_stake (log 7 2) 35 ∷ event_of withdrew_stake (log 8 3) 40 ∷ []

abbrev name_log : ℕ → ℕ → NameLog
name_log block index = record {
  block_number = block;
  log_index = index;
  owner = [];
  label_hash = [];
  name = [];
  expiration = [];
  blocked = false;
  from = [];
  to = [];
  token_id = index;
  tx_hash = [];
}

abbrev names_of : NameAction → Option (List NameLog)
names_of activated = some (name_log 8 4 ∷ [])
names_of transfer = some (name_log 8 2 ∷ name_log 8 3 ∷ [])
names_of action = some []

abbrev answers : NameAnswers
answers = record {
  registrar_known = some true;
  names_known = some true;
  past_names = names_of;
  node = node;
}

abbrev activations : List NameEvent
activations = name_event_of activated (name_log 8 4) 40 ∷ []

abbrev transfers : List NameEvent
transfers = name_event_of transfer (name_log 8 2) 40 ∷ name_event_of transfer (name_log 8 3) 40 ∷ []

naming_test : get_dmd_naming_events answers ≡ some (transfers ++ activations)
unfolding get_dmd_naming_events
naming_test = refl
