-- ===== src/Fetching/Naming.antt =====
-- The name events that `ContractManager` collects: the six getters and `getDmdNamingEvents`, and with
-- them all events of a range. Where a contract is not known, its getters return no event.
use diamond_dev_tools.Prelude.{
  ℕ, Bool, true, false, Option, some, List, [], ◌∷◌, ◌++◌, Text, ◌==◌, nat_eq, leb, if◌then◌else◌,
  ◌>>=◌,
}
use diamond_dev_tools.Names.{
  NameAction, registered, activated, deactivated, renewed, blocked_set, transfer, NameEvent,
  name_registered, name_activated, name_deactivated, name_renewed, name_blocked_set, name_transfer,
}
use diamond_dev_tools.Fetching.{NodeAnswers, AnyEvent, get_all_events}

-- A log of the two name contracts; `owner` is `node` in a registration.
pub record NameLog : Type 0 where
  pub block_number : ℕ
  pub log_index : ℕ
  pub owner : Text
  pub label_hash : Text
  pub name : Text
  pub expiration : Text
  pub blocked : Bool
  pub from : Text
  pub to : Text
  pub token_id : ℕ
  pub tx_hash : Text

-- The answers for the range, besides those of the other contracts. The first two say whether
-- `getDmdRegistrarController` and `getDmdNames` find their contract.
pub record NameAnswers : Type 0 where
  pub registrar_known : Option Bool
  pub names_known : Option Bool
  pub past_names : NameAction → Option (List NameLog)
  pub node : NodeAnswers

-- The event of a log, by the name that it was asked for.
abbrev pub name_event_of : NameAction → NameLog → (timestamp : ℕ) → NameEvent
name_event_of registered l t = name_registered (record {
  block_number = l.block_number;
  block_timestamp = t;
  log_index = l.log_index;
  owner = l.owner;
  label_hash = l.label_hash;
  name = l.name;
  expiration = l.expiration;
  tx_hash = l.tx_hash;
})
name_event_of activated l t = name_activated (record {
  block_number = l.block_number;
  block_timestamp = t;
  log_index = l.log_index;
  owner = l.owner;
  label_hash = l.label_hash;
  name = l.name;
  tx_hash = l.tx_hash;
})
name_event_of deactivated l t = name_deactivated (record {
  block_number = l.block_number;
  block_timestamp = t;
  log_index = l.log_index;
  owner = l.owner;
  label_hash = l.label_hash;
  name = l.name;
  tx_hash = l.tx_hash;
})
name_event_of renewed l t = name_renewed (record {
  block_number = l.block_number;
  block_timestamp = t;
  log_index = l.log_index;
  owner = l.owner;
  label_hash = l.label_hash;
  name = l.name;
  expiration = l.expiration;
  tx_hash = l.tx_hash;
})
name_event_of blocked_set l t = name_blocked_set (record {
  block_number = l.block_number;
  block_timestamp = t;
  log_index = l.log_index;
  label_hash = l.label_hash;
  name = l.name;
  blocked = l.blocked;
  tx_hash = l.tx_hash;
})
name_event_of transfer l t = name_transfer (record {
  block_number = l.block_number;
  block_timestamp = t;
  log_index = l.log_index;
  from = l.from;
  to = l.to;
  token_id = l.token_id;
  tx_hash = l.tx_hash;
})

abbrev pub name_block : NameEvent → ℕ
name_block (name_registered e) = e.block_number
name_block (name_activated e) = e.block_number
name_block (name_deactivated e) = e.block_number
name_block (name_renewed e) = e.block_number
name_block (name_blocked_set e) = e.block_number
name_block (name_transfer e) = e.block_number

abbrev pub name_log_index : NameEvent → ℕ
name_log_index (name_registered e) = e.log_index
name_log_index (name_activated e) = e.log_index
name_log_index (name_deactivated e) = e.log_index
name_log_index (name_renewed e) = e.log_index
name_log_index (name_blocked_set e) = e.log_index
name_log_index (name_transfer e) = e.log_index

-- The comparison of `result.sort`: not positive.
abbrev pub comes_first : (block index block' index' : ℕ) → Bool
comes_first block index block' index' =
    if block == block' then leb index index' else leb block block'

abbrev pub name_first : NameEvent → NameEvent → Bool
name_first a b = comes_first (name_block a) (name_log_index a) (name_block b) (name_log_index b)

abbrev pub insert_name : NameEvent → List NameEvent → List NameEvent
insert_name x [] = x ∷ []
insert_name x (y ∷ ys) = if name_first x y then x ∷ y ∷ ys else y ∷ insert_name x ys

unfoldable pub sort_names : List NameEvent → List NameEvent
sort_names [] = []
sort_names (x ∷ xs) = insert_name x (sort_names xs)

module _ (answers : NameAnswers) where
  abbrev pub stamped : NameAction → List NameLog → Option (List NameEvent)
  stamped action [] = some []
  stamped action (l ∷ ls) = do
    t ← answers.node.block_timestamp l.block_number
    rest ← stamped action ls
    some (name_event_of action l t ∷ rest)

  abbrev pub logs_if : Bool → NameAction → Option (List NameEvent)
  logs_if false action = some []
  logs_if true action = answers.past_names action >>= stamped action

  -- `getNameRegisteredEvents`, `getNameActivatedEvents`, `getNameDeactivatedEvents`,
  -- `getNameRenewedEvents` and `getNameBlockedSetEvents`.
  unfoldable pub get_name_events : NameAction → Option (List NameEvent)
  get_name_events action = do known ← answers.registrar_known; logs_if known action

  unfoldable pub get_dmd_name_transfer_events : Option (List NameEvent)
  get_dmd_name_transfer_events = do known ← answers.names_known; logs_if known transfer

  unfoldable pub get_dmd_naming_events : Option (List NameEvent)
  unfolding get_name_events get_dmd_name_transfer_events sort_names
  get_dmd_naming_events = do
    registrations ← get_name_events registered
    activations ← get_name_events activated
    deactivations ← get_name_events deactivated
    renewals ← get_name_events renewed
    blocks ← get_name_events blocked_set
    transfers ← get_dmd_name_transfer_events
    some (
        sort_names
          (registrations ++ activations ++ deactivations ++ renewals ++ blocks ++ transfers))

  -- `getAllEvents` with these name events.
  unfoldable pub get_events_of_chain : Option (List (AnyEvent NameEvent))
  unfolding get_all_events get_dmd_naming_events
  get_events_of_chain = get_all_events answers.node name_block get_dmd_naming_events
