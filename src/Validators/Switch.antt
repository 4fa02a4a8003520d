-- ===== src/Validators/Switch.antt =====
-- The two loops over the validators of a state in `updateValidators`.
use diamond_dev_tools.Prelude.{
  ℕ, ◌≡◌, refl, ap, ◌∙◌, Bool, true, false, not, ◌&&◌, ◌||◌, some, List, arith, Text, Buffer,
  nat_eq, list_eq,
}
use diamond_dev_tools.Database.{Database}
use diamond_dev_tools.Validators.{ValidatorState, state_beq, ValidatorRow, switch}
use diamond_dev_tools.Validators.Rows.{has_open, state_beq_iff}
use diamond_dev_tools.Validators.Removal.{
  IsSettled, names_node, process_removed_validators-has_open,
}
use diamond_dev_tools.Validators.Adding.{
  IsFilling, IsSettled-IsFilling, process_added_validators-has_open,
}

module _ (db : Database) where
  open db use {Table, rows}

  -- A switch of the validators of one state at a block, on a table with distinct keys, no two open
  -- rows of a validator in one state, and no row of that block or a later one: it succeeds, the keys
  -- stay distinct and the open rows unique, and if the validators with an open row were those of the
  -- old list, they are now those of the new list, with no change for the other state.
  pub switch-follows :
      (old new : List Text) (block : ℕ) (state : ValidatorState) (round : ℕ)
      (t : Table ValidatorRow)
      → IsSettled block (rows t)
      → ((m : Buffer) → has_open m state (rows t) ≡ names_node m old)
      → (u : Table ValidatorRow) × (switch db old new block state round t ≡ some u)
        × IsFilling block (rows u)
        × ((m : Buffer) → has_open m state (rows u) ≡ names_node m new)
        × ((m : Buffer) (s : ValidatorState)
            → state_beq state s ≡ false
            → has_open m s (rows u) ≡ has_open m s (rows t))
  unfolding switch
  switch-follows old new block state round t settled follows =
      let (u, done, s', closed) =
        process_removed_validators-has_open db old block state t settled in
      let (v, done', f, opened) =
        process_added_validators-has_open db new block state round u
          (IsSettled-IsFilling block (rows u) s') in
      (
        v,
        rw done done',
        f,
        λ m.
            opened m state
            ∙ (ap (λ b. (names_node m new && state_beq state state) || b) (closed m state)
                ∙ rw ((state_beq_iff state state).1 refl, follows m)
                    (all_new (names_node m new) (names_node m old))),
        λ m s h.
            opened m s
            ∙ (ap (λ b. (names_node m new && state_beq state s) || b) (closed m s)
                ∙ rw h (untouched (names_node m new) (names_node m old) (has_open m s (rows t)))),
      )
    where
      all_new : (n o : Bool) → ((n && true) || (not (o && true) && o)) ≡ n
      all_new n o = ground arith

      untouched : (n o h : Bool) → ((n && false) || (not (o && false) && h)) ≡ h
      untouched n o h = ground arith
