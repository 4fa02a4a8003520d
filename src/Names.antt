-- ===== src/Names.antt =====
-- The DMD names: the name events (src/eventsVisitor.ts), src/utils/hex.ts, and
-- `upsertDmdName` and `insertDmdNameEvent` (src/db/database-persistent.ts). Both run on the
-- connection pool, outside the block's transaction. `dmd_names` is a function of its key
-- `label_hash`; `dmd_name_events` is a list, newest first. `updated_at`, `created_at` and serial ids
-- are left out. A token's id is its number, and `none` is an exception.
pub mod Visits
pub mod Merge
pub mod Replay
pub mod Examples
use diamond_dev_tools.Prelude.{
  ℕ, zero, suc, ◌+◌, ◌-◌, ◌*◌, ◌/◌, ◌%◌, Bool, true, false, Option, none, some, List, [], ◌∷◌, ◌++◌,
  map, length, take, drop, Text, Buffer, ◌==◌, nat_eq, list_eq, if◌then◌else◌, ◌>>=◌, ltb,
}
use diamond_dev_tools.Ether.{
  to_lower_case, lower_char, from_hex, hex_value, hex_digit, address_to_buffer,
}

-- `hex.startsWith('0x')`.
unfoldable pub truncate_0x : Text → Text
truncate_0x (a ∷ b ∷ rest) =
    if a == b'0' then (if b == b'x' then rest else a ∷ b ∷ rest) else a ∷ b ∷ rest
truncate_0x hex = hex

unfoldable pub hex_to_buffer : Text → Buffer
unfolding truncate_0x from_hex lower_char
hex_to_buffer hex = from_hex (to_lower_case (truncate_0x hex))

-- The lowest digits of a number, `n` of them, before a text: 64 are enough for an id of 256 bits.
unfoldable pub padded_hex : ℕ → ℕ → Text → Text
unfolding hex_digit
padded_hex zero v rest = rest
padded_hex (suc n) v rest = padded_hex n (v / 16) (hex_digit (v % 16) ∷ rest)

unfoldable pub token_id_to_label_hash : ℕ → Text
unfolding padded_hex
token_id_to_label_hash id = b'0' ∷ b'x' ∷ padded_hex 64 id []

pub data NameAction : Type 0 where
  registered activated deactivated renewed blocked_set transfer : NameAction

pub record NameRegisteredEvent : Type 0 where
  pub block_number : ℕ
  pub block_timestamp : ℕ
  pub log_index : ℕ
  pub owner : Text
  pub label_hash : Text
  pub name : Text
  pub expiration : Text
  pub tx_hash : Text

-- `NameActivatedEvent` and `NameDeactivatedEvent`.
pub record NameActiveEvent : Type 0 where
  pub block_number : ℕ
  pub block_timestamp : ℕ
  pub log_index : ℕ
  pub owner : Text
  pub label_hash : Text
  pub name : Text
  pub tx_hash : Text

pub record NameBlockedSetEvent : Type 0 where
  pub block_number : ℕ
  pub block_timestamp : ℕ
  pub log_index : ℕ
  pub label_hash : Text
  pub name : Text
  pub blocked : Bool
  pub tx_hash : Text

pub record DmdNameTransferEvent : Type 0 where
  pub block_number : ℕ
  pub block_timestamp : ℕ
  pub log_index : ℕ
  pub from : Text
  pub to : Text
  pub token_id : ℕ
  pub tx_hash : Text

-- `NameRenewedEvent` has the fields of `NameRegisteredEvent`.
pub data NameEvent : Type 0 where
  name_registered : NameRegisteredEvent → NameEvent
  name_activated : NameActiveEvent → NameEvent
  name_deactivated : NameActiveEvent → NameEvent
  name_renewed : NameRegisteredEvent → NameEvent
  name_blocked_set : NameBlockedSetEvent → NameEvent
  name_transfer : DmdNameTransferEvent → NameEvent

-- A row of `dmd_names` without its key, and the values of an upsert.
pub record NameRow : Type 0 where
  pub label : Option Text
  pub owner : Option Buffer
  pub creator : Option Buffer
  pub created_block : Option ℕ
  pub created_timestamp : Option ℕ
  pub expiration : Option Text
  pub active : Option Bool
  pub blocked : Option Bool
  pub last_action_type : NameAction
  pub last_action_block : ℕ
  pub last_action_timestamp : ℕ

-- A row of `dmd_name_events`.
pub record NameEventRow : Type 0 where
  pub label_hash : Buffer
  pub label : Option Text
  pub event_type : NameAction
  pub actor_address : Option Buffer
  pub from_address : Option Buffer
  pub to_address : Option Buffer
  pub expiration : Option Text
  pub blocked : Option Bool
  pub block_number : ℕ
  pub block_timestamp : ℕ
  pub tx_hash : Option Buffer

abbrev pub Names : Type 0
Names = Buffer → Option NameRow

pub record NameTables : Type 0 where
  pub names : Names
  pub events : List NameEventRow

-- SQL's COALESCE of two values.
abbrev pub coalesce : {A : Type 0} → Option A → Option A → Option A
coalesce none b = b
coalesce (some a) b = some a

-- The row after ON CONFLICT DO UPDATE: `old` is the row, `new` is EXCLUDED.
unfoldable pub merge : (old new : NameRow) → NameRow
merge old new = record {
  label = coalesce new.label old.label;
  owner = coalesce new.owner old.owner;
  creator = coalesce old.creator new.creator;
  created_block = coalesce old.created_block new.created_block;
  created_timestamp = coalesce old.created_timestamp new.created_timestamp;
  expiration = coalesce new.expiration old.expiration;
  active = coalesce new.active old.active;
  blocked = coalesce new.blocked old.blocked;
  last_action_type = new.last_action_type;
  last_action_block = new.last_action_block;
  last_action_timestamp = new.last_action_timestamp;
}

abbrev pub merge_into : Option NameRow → NameRow → NameRow
unfolding merge
merge_into none new = new
merge_into (some old) new = merge old new

unfoldable pub upsert_dmd_name : Buffer → NameRow → Names → Names
unfolding merge
upsert_dmd_name label_hash new names k =
    if label_hash == k then some (merge_into (names k) new) else names k

abbrev pub insert_dmd_name_event : NameEventRow → List NameEventRow → List NameEventRow
insert_dmd_name_event r events = r ∷ events

-- `BigInt` of the digits of an address, which throws at any other character.
unfoldable pub big_int_of : ℕ → Text → Option ℕ
unfolding hex_value
big_int_of v [] = some v
big_int_of v (c ∷ cs) = elim (hex_value c) [ none ↦ none | some d ↦ big_int_of (v * 16 + d) cs ]

unfoldable pub is_mint : DmdNameTransferEvent → Option Bool
unfolding big_int_of
is_mint e = do v ← big_int_of 0 (drop 2 e.from); some (v == 0)
