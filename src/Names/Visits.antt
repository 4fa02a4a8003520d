-- ===== src/Names/Visits.antt =====
-- The visits of the name events (src/eventsVisitor.ts) and their order in a block
-- (src/eventProcessor.ts).
use diamond_dev_tools.Prelude.{
  ℕ, Bool, true, false, Option, none, some, List, [], ◌∷◌, Text, Buffer, nat_eq, list_eq,
  if◌then◌else◌, ◌>>=◌,
}
use diamond_dev_tools.Ether.{address_to_buffer}
use diamond_dev_tools.Names.{
  hex_to_buffer, token_id_to_label_hash, NameRegisteredEvent, NameActiveEvent, NameBlockedSetEvent,
  DmdNameTransferEvent, NameRow, NameEventRow, NameTables, upsert_dmd_name, insert_dmd_name_event,
  is_mint, NameEvent, NameAction, name_registered, name_activated, name_deactivated, name_renewed,
  name_blocked_set, name_transfer, registered, activated, deactivated, renewed, blocked_set,
  transfer,
}

-- The key and the values of the upsert, and the row of the log, that a visit writes.
abbrev pub Written : Type 0
Written = Buffer × NameRow × NameEventRow

-- The values in which the upserts of the six visits agree, and those of the log.
abbrev pub plain_row : NameAction → ℕ → ℕ → NameRow
plain_row action block timestamp = record {
  label = none;
  owner = none;
  creator = none;
  created_block = none;
  created_timestamp = none;
  expiration = none;
  active = none;
  blocked = none;
  last_action_type = action;
  last_action_block = block;
  last_action_timestamp = timestamp;
}

abbrev pub plain_event : Buffer → NameAction → ℕ → ℕ → Text → NameEventRow
unfolding hex_to_buffer
plain_event hash action block timestamp tx_hash = record {
  label_hash = hash;
  label = none;
  event_type = action;
  actor_address = none;
  from_address = none;
  to_address = none;
  expiration = none;
  blocked = none;
  block_number = block;
  block_timestamp = timestamp;
  tx_hash = some (hex_to_buffer tx_hash);
}

unfoldable pub visit_name_registered_event : NameRegisteredEvent → Written
unfolding hex_to_buffer address_to_buffer
visit_name_registered_event e =
    let hash = hex_to_buffer e.label_hash in
    (
      hash,
      record (plain_row registered e.block_number e.block_timestamp) {
        label = some e.name;
        created_block = some e.block_number;
        created_timestamp = some e.block_timestamp;
        expiration = some e.expiration;
      },
      record (plain_event hash registered e.block_number e.block_timestamp e.tx_hash) {
        label = some e.name;
        actor_address = some (address_to_buffer e.owner);
        expiration = some e.expiration;
      },
    )

unfoldable pub visit_name_activated_event : NameActiveEvent → Written
unfolding hex_to_buffer address_to_buffer
visit_name_activated_event e =
    let hash = hex_to_buffer e.label_hash in
    (
      hash,
      record (plain_row activated e.block_number e.block_timestamp) {
        label = some e.name;
        active = some true;
      },
      record (plain_event hash activated e.block_number e.block_timestamp e.tx_hash) {
        label = some e.name;
        actor_address = some (address_to_buffer e.owner);
      },
    )

unfoldable pub visit_name_deactivated_event : NameActiveEvent → Written
unfolding hex_to_buffer address_to_buffer
visit_name_deactivated_event e =
    let hash = hex_to_buffer e.label_hash in
    (
      hash,
      record (plain_row deactivated e.block_number e.block_timestamp) {
        label = some e.name;
        active = some false;
      },
      record (plain_event hash deactivated e.block_number e.block_timestamp e.tx_hash) {
        label = some e.name;
        actor_address = some (address_to_buffer e.owner);
      },
    )

unfoldable pub visit_name_renewed_event : NameRegisteredEvent → Written
unfolding hex_to_buffer address_to_buffer
visit_name_renewed_event e =
    let hash = hex_to_buffer e.label_hash in
    (
      hash,
      record (plain_row renewed e.block_number e.block_timestamp) {
        label = some e.name;
        expiration = some e.expiration;
      },
      record (plain_event hash renewed e.block_number e.block_timestamp e.tx_hash) {
        label = some e.name;
        actor_address = some (address_to_buffer e.owner);
        expiration = some e.expiration;
      },
    )

unfoldable pub visit_name_blocked_set_event : NameBlockedSetEvent → Written
unfolding hex_to_buffer
visit_name_blocked_set_event e =
    let hash = hex_to_buffer e.label_hash in
    (
      hash,
      record (plain_row blocked_set e.block_number e.block_timestamp) {
        label = some e.name;
        blocked = some e.blocked;
      },
      record (plain_event hash blocked_set e.block_number e.block_timestamp e.tx_hash) {
        label = some e.name;
        blocked = some e.blocked;
      },
    )

abbrev when : {A : Type 0} → Bool → A → Option A
when b a = if b then some a else none

unfoldable pub visit_dmd_name_transfer_event : DmdNameTransferEvent → Option Written
unfolding hex_to_buffer address_to_buffer token_id_to_label_hash is_mint
visit_dmd_name_transfer_event e = do
  mint ← is_mint e
  some (
    hex_to_buffer (token_id_to_label_hash e.token_id),
    record (plain_row transfer e.block_number e.block_timestamp) {
      owner = some (address_to_buffer e.to);
      creator = when mint (address_to_buffer e.to);
      created_block = when mint e.block_number;
      created_timestamp = when mint e.block_timestamp;
      active = when mint false;
    },
    record (plain_event (hex_to_buffer (token_id_to_label_hash e.token_id)) transfer e.block_number
        e.block_timestamp e.tx_hash) {
          actor_address = some (address_to_buffer e.to);
          from_address = some (address_to_buffer e.from);
          to_address = some (address_to_buffer e.to);
        },
  )

-- `accept` of the name events.
unfoldable pub visit_name : NameEvent → Option Written
visit_name (name_registered e) = some (visit_name_registered_event e)
visit_name (name_activated e) = some (visit_name_activated_event e)
visit_name (name_deactivated e) = some (visit_name_deactivated_event e)
visit_name (name_renewed e) = some (visit_name_renewed_event e)
visit_name (name_blocked_set e) = some (visit_name_blocked_set_event e)
visit_name (name_transfer e) = visit_dmd_name_transfer_event e

unfoldable pub write : Written → NameTables → NameTables
unfolding upsert_dmd_name
write (hash, row, event) t = record {
  names = upsert_dmd_name hash row t.names;
  events = insert_dmd_name_event event t.events;
}

-- The name events of a block in order, up to the first that throws.
unfoldable pub process_name_events : List NameEvent → NameTables → NameTables
process_name_events [] t = t
process_name_events (e ∷ es) t = elim (visit_name e) [
  | none ↦ t
  | some w ↦ process_name_events es (write w t)
]
