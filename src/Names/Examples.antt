-- ===== src/Names/Examples.antt =====
-- Name events of one block.
use diamond_dev_tools.Prelude.{◌≡◌, none, [], ◌∷◌, ◌++◌, Text}
use diamond_dev_tools.Names.{NameEvent, NameTables, name_registered, name_transfer}
use diamond_dev_tools.Names.Visits.{process_name_events}
use diamond_dev_tools.Names.Replay.{process_name_events-retry}

abbrev label : Text
label = b'0' ∷ b'x' ∷ b'0' ∷ b'7' ∷ []

abbrev owner : Text
owner = b'0' ∷ b'x' ∷ b'1' ∷ b'A' ∷ []

abbrev first_event : NameEvent
first_event = name_registered (record {
  block_number = 3;
  block_timestamp = 300;
  log_index = 0;
  owner = owner;
  label_hash = label;
  name = b'n' ∷ [];
  expiration = b'9' ∷ [];
  tx_hash = label;
})

abbrev second_event : NameEvent
second_event = name_transfer (record {
  block_number = 3;
  block_timestamp = 300;
  log_index = 1;
  from = b'0' ∷ b'x' ∷ b'0' ∷ b'0' ∷ [];
  to = owner;
  token_id = 7;
  tx_hash = label;
})

abbrev no_names : NameTables
no_names = record { names = λ k. none; events = [] }

process_name_events-retry_example :
    (process_name_events
      ((first_event ∷ []) ++ (second_event ∷ []))
      (process_name_events (first_event ∷ []) no_names)).names
    ≡ (process_name_events ((first_event ∷ []) ++ (second_event ∷ [])) no_names).names
process_name_events-retry_example =
    process_name_events-retry (first_event ∷ []) (second_event ∷ []) no_names
