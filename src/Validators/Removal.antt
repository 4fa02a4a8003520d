-- ===== src/Validators/Removal.antt =====
-- `processRemovedValidators` of src/db/validatorObserver.ts.
use diamond_dev_tools.Prelude.{
  ℕ, ◌≡◌, refl, sym, ap, ◌∙◌, subst, Bool, true, not, ◌&&◌, ◌||◌, some, List, [], ◌∷◌, filter, any,
  arith, Text, Buffer, ◌==◌, nat_eq, list_eq, ==_iff, inl, inr,
}
use diamond_dev_tools.Database.{Database, set_where, distinct}
use diamond_dev_tools.Database.Rows.{set_where-filter_none, filter-head}
use diamond_dev_tools.Database.Lookup.{distinct-set_where}
use diamond_dev_tools.Ether.{address_to_buffer}
use diamond_dev_tools.Validators.{
  ValidatorState, state_beq, ValidatorRow, same_row, open_of, exits, newest,
  update_or_ignore_validator, process_removed_validators,
}
use diamond_dev_tools.Validators.Rows.{
  OneOpen, has_open, closing, closing-has_open, closing-OneOpen, closing-key, EnteredBefore,
  closing-EnteredBefore, state_beq_iff, same_row_refl,
}

-- The table before a switch at a block.
pub record IsSettled (block : ℕ) (all : List ValidatorRow) : Type 0 where
  pub keys : distinct same_row all ≡ true
  pub one : OneOpen all
  pub earlier : EnteredBefore block all

-- The query's condition on the block holds of all rows.
still_open :
    (node : Buffer) (state : ValidatorState) (block : ℕ) (all : List ValidatorRow)
    → EnteredBefore block all
    → filter (λ r. open_of node state r && not (r.on_enter_block_number == block)) all
      ≡ filter (open_of node state) all
still_open node state block [] h = refl
still_open node state block (r ∷ rs) (h, hs) = ground (arith, still_open node state block rs hs)

closing-IsSettled :
    (node : Buffer) (state : ValidatorState) (block : ℕ) (all : List ValidatorRow)
    → IsSettled block all
    → IsSettled block (closing node state block all)
closing-IsSettled node state block all s = record {
  keys =
      distinct-set_where same_row (open_of node state) (exits block) (λ _ _. refl) (λ _ _. refl) all
      ∙ s.keys;
  one = closing-OneOpen node state block all s.one;
  earlier = closing-EnteredBefore node state block all s.earlier;
}

open_of-own :
    (node : Buffer) (state : ValidatorState) (r : ValidatorRow)
    → open_of node state r ≡ true
    → (node ≡ r.node) × (state ≡ r.state)
open_of-own node state r h = ground (arith, ==_iff r.node node, state_beq_iff r.state state)

twice : (e n s h : Bool) → (not (n && s) && (not (e && s) && h)) ≡ (not ((e || n) && s) && h)
twice e n s h = ground arith

-- Whether a list of addresses has one with this buffer.
abbrev pub names_node : Buffer → List Text → Bool
names_node m = any (λ a. address_to_buffer a == m)

module _ (db : Database) where
  open db use {Table, rows}

  update_or_ignore_validator-closing :
      (a : Text) (state : ValidatorState) (block : ℕ) (t : Table ValidatorRow)
      → IsSettled block (rows t)
      → (u : Table ValidatorRow) × (update_or_ignore_validator db a state block t ≡ some u)
        × (rows u ≡ closing (address_to_buffer a) state block (rows t))
  unfolding update_or_ignore_validator newest
  update_or_ignore_validator-closing a state block t s =
      let P = address_to_buffer a in
      let found = still_open P state block (rows t) s.earlier in
      elim (s.one P state) [
        | inl e ↦ (
          t,
          rw (found ∙ e, newest, update_or_ignore_validator) refl,
          sym (set_where-filter_none (open_of P state) (exits block) (rows t) e),
        )
        | inr (r, e) ↦
            let own = open_of-own P state r (filter-head (open_of P state) (rows t) r [] e) in
            let R : ValidatorRow = record r { node = P; state = state } in
            let same : R ≡ r = λ i. record r { node = own.0 i; state = own.1 i } in
            let (c, done, now) =
              db.update_keep same_row (same_row R) (exits block) t same_row_refl (
                distinct-set_where same_row (same_row R) (exits block) (λ _ _. refl) (λ _ _. refl)
                  (rows t)
                ∙ s.keys) in
            (
              c,
              rw (found ∙ e, newest, update_or_ignore_validator) done,
              now
                  ∙ (ap (λ q. set_where (same_row q) (exits block) (rows t)) same
                      ∙ closing-key P state block (rows t) r s.keys e),
            )
      ]

  -- After the loop over the validators that were there before, none of them is open.
  pub process_removed_validators-has_open :
      (gone : List Text) (block : ℕ) (state : ValidatorState) (t : Table ValidatorRow)
      → IsSettled block (rows t)
      → (u : Table ValidatorRow) × (process_removed_validators db gone block state t ≡ some u)
        × IsSettled block (rows u)
        × ((m : Buffer) (s : ValidatorState)
            → has_open m s (rows u)
              ≡ (not (names_node m gone && state_beq state s) && has_open m s (rows t)))
  unfolding process_removed_validators
  process_removed_validators-has_open [] block state t s = (t, refl, s, λ m p. refl)
  process_removed_validators-has_open (a ∷ more) block state t s =
      let P = address_to_buffer a in
      let (u, done, now) = update_or_ignore_validator-closing a state block t s in
      let s' = subst (IsSettled block) (sym now) (closing-IsSettled P state block (rows t) s) in
      let (v, done', settled, each) = process_removed_validators-has_open more block state u s' in
      (
        v,
        rw done done',
        settled,
        λ m p.
            each m p
            ∙ (ap (λ l. not (names_node m more && state_beq state p) && has_open m p l) now
                ∙ (ap (λ b. not (names_node m more && state_beq state p) && b)
                      (closing-has_open P m state p block (rows t))
                    ∙ twice (P == m) (names_node m more) (state_beq state p)
                        (has_open m p (rows t)))),
      )
