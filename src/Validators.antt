-- ===== src/Validators.antt =====
-- `ValidatorObserver` (src/db/validatorObserver.ts) and the methods of `DbManager`
-- (src/db/database-persistent.ts) that keep `pending_validator_state_event`, over any database. What
-- the contracts answer is the record `Contracts`: none is a call that throws. The observer's fields
-- are assigned in memory, whatever becomes of the block's transaction: a step returns them besides
-- the table.
pub mod Rows
pub mod Removal
pub mod Adding
pub mod Switch
pub mod Rollback
pub mod Examples
use diamond_dev_tools.Prelude.{
  ℕ, Bool, true, false, not, ◌&&◌, ◌||◌, Option, none, some, List, [], ◌∷◌, map, filter, Text,
  Buffer, ◌==◌, nat_eq, list_eq, if◌then◌else◌, ltb, ◌>>=◌,
}
use diamond_dev_tools.Database.{Database}
use diamond_dev_tools.Ether.{address_to_buffer, buffer_to_address, to_lower_case, lower_char}

pub data ValidatorState : Type 0 where
  current pending : ValidatorState

abbrev pub state_beq : ValidatorState → ValidatorState → Bool
state_beq current current = true
state_beq current pending = false
state_beq pending current = false
state_beq pending pending = true

-- A row of `pending_validator_state_event`.
pub record ValidatorRow : Type 0 where
  pub state : ValidatorState
  pub on_enter_block_number : ℕ
  pub on_exit_block_number : Option ℕ
  pub node : Buffer
  pub keygen_round : ℕ

abbrev pub same_row : ValidatorRow → ValidatorRow → Bool
same_row a b =
    state_beq a.state b.state
    && a.node == b.node
    && a.on_enter_block_number == b.on_enter_block_number
    && a.keygen_round == b.keygen_round

abbrev pub is_null : Option ℕ → Bool
is_null none = true
is_null (some b) = false

abbrev pub open_of : Buffer → ValidatorState → ValidatorRow → Bool
open_of node state r = r.node == node && state_beq r.state state && is_null r.on_exit_block_number

abbrev pub exits : ℕ → ValidatorRow → ValidatorRow
exits block r = record r { on_exit_block_number = some block }

-- `Validator.toEntity` of a validator that enters.
abbrev pub entering : ValidatorState → Text → ℕ → ℕ → ValidatorRow
entering state address block round = record {
  state = state;
  on_enter_block_number = block;
  on_exit_block_number = none;
  node = address_to_buffer address;
  keygen_round = round;
}

-- ORDER BY on_enter_block_number DESC, keygen_round DESC LIMIT 1.
abbrev pub later : ValidatorRow → ValidatorRow → Bool
later a b =
    ltb b.on_enter_block_number a.on_enter_block_number
    || (a.on_enter_block_number == b.on_enter_block_number && ltb b.keygen_round a.keygen_round)

unfoldable pub newest : List ValidatorRow → Option ValidatorRow
newest [] = none
newest (r ∷ rs) = elim (newest rs) [ none ↦ some r | some m ↦ some (if later m r then m else r) ]

-- What the contracts answer for a block.
pub record Contracts : Type 0 where
  pub get_key_gen_round : ℕ → Option ℕ
  pub get_validators : ℕ → Option (List Text)
  pub get_pending_validators : ℕ → Option (List Text)

pub record Observer : Type 0 where
  pub current_validators : List Text
  pub pending_validators : List Text
  pub current_key_gen_round : ℕ
  pub current_posdao_epoch : ℕ

-- `Watchdog.deepEquals` of two lists of addresses.
unfoldable pub deep_equals : List Text → List Text → Bool
deep_equals [] [] = true
deep_equals (a ∷ more) (b ∷ bs) = a == b && deep_equals more bs
deep_equals _ _ = false

-- The lists that `initialize` reads from the open rows.
unfoldable pub initialize : List ValidatorRow → List Text × List Text
unfolding buffer_to_address lower_char
initialize [] = ([], [])
initialize (r ∷ rs) =
    let rest = initialize rs in
    let address = to_lower_case (buffer_to_address r.node) in
    if not (is_null r.on_exit_block_number)
    then rest
    else if state_beq r.state current
    then (address ∷ rest.0, rest.1)
    else (rest.0, address ∷ rest.1)

unfoldable pub normalize : List Text → List Text
unfolding lower_char
normalize = map to_lower_case

module _ (db : Database) where
  open db use {Table, rows, insert, update, find_one}

  unfoldable pub find_validator : Text → ValidatorState → Table ValidatorRow → Option ValidatorRow
  find_validator node state = find_one (open_of (address_to_buffer node) state)

  unfoldable pub insert_validator : ValidatorRow → Table ValidatorRow → Option (Table ValidatorRow)
  insert_validator = insert same_row

  unfoldable pub update_or_ignore_validator :
      Text → ValidatorState → ℕ → Table ValidatorRow → Option (Table ValidatorRow)
  unfolding newest
  update_or_ignore_validator node state exit_block t =
      elim (newest (
        filter
          (λ r.
            open_of (address_to_buffer node) state r && not (r.on_enter_block_number == exit_block))
          (rows t))) [
            | none ↦ some t
            | some r ↦
                update same_row
                  (same_row (record r { node = address_to_buffer node; state = state }))
                  (exits exit_block) t
          ]

  unfoldable pub process_removed_validators :
      List Text → ℕ → ValidatorState → Table ValidatorRow → Option (Table ValidatorRow)
  unfolding update_or_ignore_validator
  process_removed_validators [] block state t = some t
  process_removed_validators (a ∷ more) block state t = do
    t' ← update_or_ignore_validator a state block t
    process_removed_validators more block state t'

  -- One validator that is added, unless it has an open row.
  unfoldable pub add_validator :
      Text → ℕ → ValidatorState → ℕ → Table ValidatorRow → Option (Table ValidatorRow)
  unfolding find_validator insert_validator
  add_validator a block state round t = elim (find_validator a state t) [
    | none ↦ insert_validator (entering state a block round) t
    | some r ↦ some t
  ]

  unfoldable pub process_added_validators :
      List Text → ℕ → ValidatorState → ℕ → Table ValidatorRow → Option (Table ValidatorRow)
  unfolding add_validator
  process_added_validators [] block state round t = some t
  process_added_validators (a ∷ more) block state round t = do
    t' ← add_validator a block state round t
    process_added_validators more block state round t'

  -- The two loops over the validators of a state.
  unfoldable pub switch :
      (old new : List Text)
      → ℕ
      → ValidatorState
      → ℕ
      → Table ValidatorRow
      → Option (Table ValidatorRow)
  unfolding process_removed_validators process_added_validators
  switch old new block state round t = do
    t' ← process_removed_validators old block state t
    process_added_validators new block state round t'

  abbrev Step : Type 0
  Step = Observer × Option (Table ValidatorRow)

  unfoldable pub switch_pending : List Text → ℕ → ℕ → Observer → Table ValidatorRow → Step
  unfolding switch deep_equals
  switch_pending validators block round o t =
      if not (deep_equals o.pending_validators validators) || not (o.current_key_gen_round == round)
      then elim (switch o.pending_validators validators block pending round t) [
        | none ↦ (o, none)
        | some t' ↦
            (record o { pending_validators = validators; current_key_gen_round = round }, some t')
      ]
      else (o, some t)

  unfoldable pub switch_current : List Text → ℕ → ℕ → Observer → Table ValidatorRow → Step
  unfolding switch deep_equals
  switch_current validators block round o t =
      if not (deep_equals o.current_validators validators) || not (o.current_key_gen_round == round)
      then elim (switch o.current_validators validators block current round t) [
        | none ↦ (o, none)
        | some t' ↦ (record o { current_validators = validators }, some t')
      ]
      else (o, some t)

  unfoldable pub both : List Text → ℕ → ℕ → Step → Step
  unfolding switch_current
  both validators block round (o, none) = (o, none)
  both validators block round (o, some t) = switch_current validators block round o t

  unfoldable pub update_validators : Contracts → ℕ → ℕ → Observer → Table ValidatorRow → Step
  unfolding switch_pending both normalize deep_equals
  update_validators chain block epoch o t = elim (chain.get_key_gen_round block) [
    | none ↦ (o, none)
    | some round ↦ elim (chain.get_pending_validators block) [
      | none ↦ (o, none)
      | some ps ↦
          if o.current_key_gen_round == round
            && (o.current_posdao_epoch == epoch && deep_equals o.pending_validators (normalize ps))
          then (o, some t)
          else elim (chain.get_validators block) [
            | none ↦ (o, none)
            | some cs ↦ both (normalize cs) block round (
                switch_pending (normalize ps) block round
                  (record o { current_posdao_epoch = epoch }) t)
          ]
    ]
  ]
