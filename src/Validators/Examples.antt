-- ===== src/Validators/Examples.antt =====
-- A change of the validators at a block.
use diamond_dev_tools.Prelude.{
  ◌≡◌, refl, arith, false, none, some, List, [], ◌∷◌, Text, Buffer, list_eq, list_beq, nat_eq,
  Bool-cases, inl, inr,
}
use diamond_dev_tools.Database.Tables.{list_database}
use diamond_dev_tools.Ether.{address_to_buffer, from_hex, hex_value, hex_byte, lower_char}
use diamond_dev_tools.Validators.{
  ValidatorRow, ValidatorState, pending, state_beq, Contracts, Observer, open_of, deep_equals,
  normalize, newest, find_validator, insert_validator, update_or_ignore_validator,
  process_removed_validators, add_validator, process_added_validators, switch, switch_pending,
  switch_current, both, update_validators,
}
use diamond_dev_tools.Validators.Rows.{OneOpen, has_open}
use diamond_dev_tools.Validators.Removal.{IsSettled, names_node}
use diamond_dev_tools.Validators.Adding.{IsFilling}
use diamond_dev_tools.Validators.Switch.{switch-follows}
use diamond_dev_tools.Validators.Rollback.{update_validators-forgets}

abbrev first_node : Text
first_node = b'0' ∷ b'x' ∷ b'1' ∷ b'a' ∷ []

abbrev second_node : Text
second_node = b'0' ∷ b'x' ∷ b'1' ∷ b'b' ∷ []

abbrev entered : ValidatorRow
entered = record {
  state = pending;
  on_enter_block_number = 3;
  on_exit_block_number = none;
  node = 26 ∷ [];
  keygen_round = 1;
}

abbrev before_switch : List ValidatorRow
before_switch = entered ∷ []

one_open : OneOpen before_switch
one_open m s = elim (Bool-cases (open_of m s entered)) [
  | inl h ↦ rw h (inr (entered, refl))
  | inr h ↦ rw h (inl refl)
]

settled : IsSettled 9 before_switch
settled = record { keys = refl; one = one_open; earlier = (refl, tt) }

node_of_first : address_to_buffer first_node ≡ 26 ∷ []
unfolding address_to_buffer from_hex hex_value hex_byte lower_char
node_of_first = refl

open_as_listed : (m : Buffer) → has_open m pending before_switch ≡ names_node m (first_node ∷ [])
open_as_listed m = rw node_of_first (ground arith)

switch-follows_example :
    (u : List ValidatorRow) × (switch list_database
        (first_node ∷ [])
        (second_node ∷ [])
        9
        pending
        2
        before_switch
      ≡ some u)
    × IsFilling 9 u
    × ((m : Buffer) → has_open m pending u ≡ names_node m (second_node ∷ []))
    × ((m : Buffer) (s : ValidatorState)
        → state_beq pending s ≡ false
        → has_open m s u ≡ has_open m s before_switch)
switch-follows_example =
    switch-follows list_database (first_node ∷ []) (second_node ∷ []) 9 pending 2 before_switch
      settled open_as_listed

abbrev contracts : Contracts
contracts = record {
  get_key_gen_round = λ b. some 2;
  get_validators = λ b. some [];
  get_pending_validators = λ b. some (second_node ∷ []);
}

abbrev watching : Observer
watching = record {
  current_validators = [];
  pending_validators = first_node ∷ [];
  current_key_gen_round = 1;
  current_posdao_epoch = 4;
}

abbrev after_update : Observer
after_update = record {
  current_validators = [];
  pending_validators = second_node ∷ [];
  current_key_gen_round = 2;
  current_posdao_epoch = 4;
}

abbrev updated_rows : List ValidatorRow
updated_rows =
    record entered { on_enter_block_number = 9; node = 27 ∷ []; keygen_round = 2 }
    ∷ record entered { on_exit_block_number = some 9 }
    ∷ []

first_update :
    update_validators list_database contracts 9 4 watching before_switch
    ≡ (after_update, some updated_rows)
unfolding update_validators both switch_pending switch_current switch process_added_validators
    add_validator insert_validator find_validator process_removed_validators
    update_or_ignore_validator newest normalize deep_equals address_to_buffer from_hex hex_value
    hex_byte lower_char list_beq
first_update = refl

update_validators-forgets_example :
    update_validators list_database contracts 9 4 after_update before_switch
    ≡ (after_update, some before_switch)
update_validators-forgets_example =
    update_validators-forgets list_database contracts 9 4 watching after_update before_switch
      updated_rows first_update
