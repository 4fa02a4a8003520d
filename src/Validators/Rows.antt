-- ===== src/Validators/Rows.antt =====
-- The rows of the validators' table when open rows are closed or new ones come.
use diamond_dev_tools.Prelude.{
  ℕ, ◌≡◌, refl, sym, ap, ◌∙◌, ◌⊎◌, ◌↔◌, Bool, true, false, not, ◌&&◌, ◌||◌, List, [], ◌∷◌, filter,
  any, All, arith, Buffer, ◌==◌, nat_eq, list_eq, ==_iff, ==-refl, ltb, Bool-cases, inl, inr,
}
use mathlib.Core.Bool.{and-eq-true_iff}
use diamond_dev_tools.Database.{set_where, distinct}
use diamond_dev_tools.Database.Rows.{set_where-filter_none, any-of_filter}
use diamond_dev_tools.Validators.{
  ValidatorState, current, pending, state_beq, ValidatorRow, same_row, is_null, open_of, exits,
}

-- No validator has two open rows of one state.
abbrev pub OneOpen : List ValidatorRow → Type 0
OneOpen all =
    (node : Buffer) (state : ValidatorState)
    → (filter (open_of node state) all ≡ [])
      ⊎ ((r : ValidatorRow) × (filter (open_of node state) all ≡ r ∷ []))

abbrev pub has_open : Buffer → ValidatorState → List ValidatorRow → Bool
has_open node state all = any (open_of node state) all

-- A row entered before the block, or is open.
abbrev pub old_or_open : ℕ → ValidatorRow → Bool
old_or_open block r = ltb r.on_enter_block_number block || is_null r.on_exit_block_number

abbrev pub closing : Buffer → ValidatorState → ℕ → List ValidatorRow → List ValidatorRow
closing node state block = set_where (open_of node state) (exits block)

pub state_beq_iff : (a b : ValidatorState) → (state_beq a b ≡ true) ↔ (a ≡ b)
state_beq_iff current current = ground arith
state_beq_iff current pending = ground arith
state_beq_iff pending current = ground arith
state_beq_iff pending pending = ground arith

-- The same validator and state.
abbrev pub same_open : Buffer → ValidatorState → Buffer → ValidatorState → Bool
same_open node state m s = node == m && state_beq state s

filter-closing_same :
    (node : Buffer) (state : ValidatorState) (block : ℕ) (all : List ValidatorRow)
    → filter (open_of node state) (closing node state block all) ≡ []
filter-closing_same node state block [] = refl
filter-closing_same node state block (r ∷ rs) =
    ground (arith, filter-closing_same node state block rs)

filter-closing_other :
    (node m : Buffer) (state s : ValidatorState) (block : ℕ) (all : List ValidatorRow)
    → same_open node state m s ≡ false
    → filter (open_of m s) (closing node state block all) ≡ filter (open_of m s) all
filter-closing_other node m state s block [] h = refl
filter-closing_other node m state s block (r ∷ rs) h = ground (
  arith,
  filter-closing_other node m state s block rs h,
  ==_iff r.node m,
  ==_iff r.node node,
  ==_iff node m,
  state_beq_iff r.state state,
  state_beq_iff r.state s,
  state_beq_iff state s,
)

closing-has_open_same :
    (node : Buffer) (state : ValidatorState) (block : ℕ) (all : List ValidatorRow)
    → has_open node state (closing node state block all) ≡ false
closing-has_open_same node state block [] = refl
closing-has_open_same node state block (r ∷ rs) =
    ground (arith, closing-has_open_same node state block rs)

closing-has_open_other :
    (node m : Buffer) (state s : ValidatorState) (block : ℕ) (all : List ValidatorRow)
    → same_open node state m s ≡ false
    → has_open m s (closing node state block all) ≡ has_open m s all
closing-has_open_other node m state s block [] h = refl
closing-has_open_other node m state s block (r ∷ rs) h = ground (
  arith,
  closing-has_open_other node m state s block rs h,
  ==_iff r.node m,
  ==_iff r.node node,
  ==_iff node m,
  state_beq_iff r.state state,
  state_beq_iff r.state s,
  state_beq_iff state s,
)

pub same_open→≡ :
    (node m : Buffer) (state s : ValidatorState)
    → same_open node state m s ≡ true
    → (node ≡ m) × (state ≡ s)
same_open→≡ node m state s h = ground (arith, ==_iff node m, state_beq_iff state s)

-- After the rows of a validator are closed, it has no open row, and any other has one as before.
pub closing-has_open :
    (node m : Buffer) (state s : ValidatorState) (block : ℕ) (all : List ValidatorRow)
    → has_open m s (closing node state block all)
      ≡ (not (same_open node state m s) && has_open m s all)
closing-has_open node m state s block all = elim (Bool-cases (same_open node state m s)) [
  | inr h ↦ rw h (closing-has_open_other node m state s block all h)
  | inl h ↦
      let (n, t) = same_open→≡ node m state s h in
      rw (h, sym n, sym t) (closing-has_open_same node state block all)
]

pub closing-OneOpen :
    (node : Buffer) (state : ValidatorState) (block : ℕ) (all : List ValidatorRow)
    → OneOpen all
    → OneOpen (closing node state block all)
closing-OneOpen node state block all one m s = elim (Bool-cases (same_open node state m s)) [
  | inr h ↦ rw (filter-closing_other node m state s block all h) (one m s)
  | inl h ↦
      let (n, t) = same_open→≡ node m state s h in
      rw (sym n, sym t) (inl (filter-closing_same node state block all))
]

false_of_not : (b : Bool) → not b ≡ true → b ≡ false
false_of_not true h = cc
false_of_not false h = refl

or_false : (b : Bool) → (b || false) ≡ false → b ≡ false
or_false true h = h
or_false false h = refl

set_where-any_none :
    (p : ValidatorRow → Bool) (f : ValidatorRow → ValidatorRow) (all : List ValidatorRow)
    → any p all ≡ false
    → set_where p f all ≡ all
set_where-any_none p f [] h = refl
set_where-any_none p f (r ∷ rs) h = ground (arith, set_where-any_none p f rs)

pub same_row_refl : (r : ValidatorRow) → same_row r r ≡ true
same_row_refl r = rw (
  (state_beq_iff r.state r.state).1 refl,
  ==-refl r.node,
  ==-refl r.on_enter_block_number,
  ==-refl r.keygen_round,
)

same_row_sym : (a b : ValidatorRow) → same_row a b ≡ false → same_row b a ≡ false
same_row_sym a b h = ground (
  arith,
  state_beq_iff a.state b.state,
  state_beq_iff b.state a.state,
  ==_iff a.node b.node,
  ==_iff b.node a.node,
)

-- The rows that an open row's key selects are that row, so that to close it is to close the rows of
-- its validator.
pub closing-key :
    (node : Buffer) (state : ValidatorState) (block : ℕ) (all : List ValidatorRow)
    (r : ValidatorRow)
    → distinct same_row all ≡ true
    → filter (open_of node state) all ≡ r ∷ []
    → set_where (same_row r) (exits block) all ≡ closing node state block all
closing-key node state block [] r keys e = refl
closing-key node state block (x ∷ xs) r keys e = elim (Bool-cases (open_of node state x)) [
  | inl h ↦
      let e' = rw h at e in
      let first : x ≡ r = cc in
      let last : filter (open_of node state) xs ≡ [] = cc in
      let free = ((and-eq-true_iff _ _).0 keys).0 in
      let taken = ap (λ q. any (same_row q) xs) (sym first) ∙ false_of_not _ free in
      rw (h, ap (same_row r) first ∙ same_row_refl r)
        (ap (λ l. exits block x ∷ l)
          (set_where-any_none (same_row r) (exits block) xs taken
            ∙ sym (set_where-filter_none (open_of node state) (exits block) xs last)))
  | inr h ↦
      let e' = rw h at e in
      let both = (and-eq-true_iff _ _).0 keys in
      let free = any-of_filter (open_of node state) (same_row x) xs (false_of_not _ both.0) in
      let other : same_row x r ≡ false = or_false _ (rw e' at free) in
      rw (h, same_row_sym x r other) (ap (λ l. x ∷ l) (closing-key node state block xs r both.1 e'))
]

-- All rows entered before the block.
abbrev pub EnteredBefore : ℕ → List ValidatorRow → Type 0
EnteredBefore block = All (λ r. ltb r.on_enter_block_number block ≡ true)

pub closing-EnteredBefore :
    (node : Buffer) (state : ValidatorState) (block : ℕ) (all : List ValidatorRow)
    → EnteredBefore block all
    → EnteredBefore block (closing node state block all)
closing-EnteredBefore node state block [] h = tt
closing-EnteredBefore node state block (r ∷ rs) (h, hs) =
    (ground arith, closing-EnteredBefore node state block rs hs)
