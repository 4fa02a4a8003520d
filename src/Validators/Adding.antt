-- ===== src/Validators/Adding.antt =====
-- `processAddedValidators` of src/db/validatorObserver.ts.
use diamond_dev_tools.Prelude.{
  ℕ, ◌≡◌, refl, sym, ap, ◌∙◌, subst, Bool, true, false, ◌&&◌, ◌||◌, some, List, [], ◌∷◌, filter,
  any, All, arith, Text, Buffer, ◌==◌, nat_eq, list_eq, ==_iff, ltb, Bool-cases, inl, inr,
  All-map_imp,
}
use diamond_dev_tools.Database.{Database, distinct}
use diamond_dev_tools.Database.Rows.{distinct-cons}
use diamond_dev_tools.Ether.{address_to_buffer}
use diamond_dev_tools.Validators.{
  ValidatorState, state_beq, ValidatorRow, same_row, open_of, entering, find_validator,
  insert_validator, add_validator, process_added_validators,
}
use diamond_dev_tools.Validators.Rows.{
  OneOpen, has_open, old_or_open, same_open, state_beq_iff, same_open→≡,
}
use diamond_dev_tools.Validators.Removal.{IsSettled, names_node}

-- The table while validators of a block are added.
pub record IsFilling (block : ℕ) (all : List ValidatorRow) : Type 0 where
  pub keys : distinct same_row all ≡ true
  pub one : OneOpen all
  pub known : All (λ r. old_or_open block r ≡ true) all

pub IsSettled-IsFilling :
    (block : ℕ) (all : List ValidatorRow) → IsSettled block all → IsFilling block all
IsSettled-IsFilling block all s = record {
  keys = s.keys;
  one = s.one;
  known = All-map_imp (λ r h. rw h refl) all s.earlier;
}

none_open :
    (p : ValidatorRow → Bool) (all : List ValidatorRow) → filter p all ≡ [] → any p all ≡ false
none_open p [] e = refl
none_open p (r ∷ rs) e = elim (Bool-cases (p r)) [
  | inl y ↦ let e' = rw y at e in cc
  | inr n ↦ let e' = rw n at e in rw n (none_open p rs e')
]

some_open :
    (p : ValidatorRow → Bool) (all : List ValidatorRow) (r : ValidatorRow)
    → filter p all ≡ r ∷ []
    → any p all ≡ true
some_open p [] r e = cc
some_open p (q ∷ rs) r e = elim (Bool-cases (p q)) [
  | inl y ↦ rw y refl
  | inr n ↦ let e' = rw n at e in rw n (some_open p rs r e')
]

taken_twice :
    (state : ValidatorState) (a : Text) (block round : ℕ) (r : ValidatorRow)
    → old_or_open block r ≡ true
    → open_of (address_to_buffer a) state r ≡ false
    → same_row (entering state a block round) r ≡ false
taken_twice state a block round r h free = ground (
  arith,
  ==_iff r.node (address_to_buffer a),
  ==_iff (address_to_buffer a) r.node,
  state_beq_iff r.state state,
  state_beq_iff state r.state,
)

or_parts : (a b : Bool) → (a || b) ≡ false → (a ≡ false) × (b ≡ false)
or_parts a b h = ground arith

-- The key of a validator that enters is free if it has no open row.
entering_free :
    (state : ValidatorState) (a : Text) (block round : ℕ) (all : List ValidatorRow)
    → All (λ r. old_or_open block r ≡ true) all
    → has_open (address_to_buffer a) state all ≡ false
    → any (same_row (entering state a block round)) all ≡ false
entering_free state a block round [] h free = refl
entering_free state a block round (r ∷ rs) (h, hs) free =
    let (this, others) =
      or_parts (open_of (address_to_buffer a) state r) (has_open (address_to_buffer a) state rs)
        free in
    rw (taken_twice state a block round r h this) (entering_free state a block round rs hs others)

open_of-entering :
    (state s : ValidatorState) (a : Text) (block round : ℕ) (m : Buffer)
    → open_of m s (entering state a block round) ≡ same_open (address_to_buffer a) state m s
open_of-entering state s a block round m = ground arith

entered-OneOpen :
    (state : ValidatorState) (a : Text) (block round : ℕ) (all : List ValidatorRow)
    → OneOpen all
    → filter (open_of (address_to_buffer a) state) all ≡ []
    → OneOpen (entering state a block round ∷ all)
entered-OneOpen state a block round all one e m s =
    elim (Bool-cases (same_open (address_to_buffer a) state m s)) [
      | inr h ↦ rw (open_of-entering state s a block round m, h) (one m s)
      | inl h ↦
          let (n, t) = same_open→≡ (address_to_buffer a) m state s h in
          let rest =
            ap (λ z. filter (open_of z s) all) (sym n)
            ∙ (ap (λ z. filter (open_of (address_to_buffer a) z) all) (sym t) ∙ e) in
          inr (
            entering state a block round,
            rw (open_of-entering state s a block round m, h)
                (ap (λ l. entering state a block round ∷ l) rest),
          )
    ]

module _ (db : Database) where
  open db use {Table, rows}

  add_validator-has_open :
      (a : Text) (block : ℕ) (state : ValidatorState) (round : ℕ) (t : Table ValidatorRow)
      → IsFilling block (rows t)
      → (u : Table ValidatorRow) × (add_validator db a block state round t ≡ some u)
        × IsFilling block (rows u)
        × ((m : Buffer) (s : ValidatorState)
            → has_open m s (rows u)
              ≡ (same_open (address_to_buffer a) state m s || has_open m s (rows t)))
  unfolding add_validator find_validator insert_validator
  add_validator-has_open a block state round t f =
      let P = address_to_buffer a in
      elim (f.one P state) [
        | inr (r, e) ↦ (
          t,
          rw (db.find_one_some (open_of P state) t r e, add_validator) refl,
          f,
          λ m s. there (same_open P state m s) (has_open m s (rows t)) (λ h. opened r e m s h),
        )
        | inl e ↦
            let E = entering state a block round in
            let free =
              entering_free state a block round (rows t) f.known
                (none_open (open_of P state) (rows t) e) in
            let (u, done, now) = db.insert_new same_row E t free in
            let filled : IsFilling block (E ∷ rows t) = record {
              keys = distinct-cons same_row E (rows t) free f.keys;
              one = entered-OneOpen state a block round (rows t) f.one e;
              known = (is_open_now block, f.known);
            } in
            (
              u,
              rw (db.find_one_none (open_of P state) t e, add_validator) done,
              subst (IsFilling block) (sym now) filled,
              λ m s.
                  ap (has_open m s) now
                  ∙ ap (λ b. b || has_open m s (rows t)) (open_of-entering state s a block round m),
            )
      ]
    where
      opened :
          (r : ValidatorRow)
          → filter (open_of (address_to_buffer a) state) (rows t) ≡ r ∷ []
          → (m : Buffer) (s : ValidatorState) → same_open (address_to_buffer a) state m s ≡ true
          → has_open m s (rows t) ≡ true
      opened r e m s h =
          let (n, k) = same_open→≡ (address_to_buffer a) m state s h in
          rw (sym n, sym k) (some_open (open_of (address_to_buffer a) state) (rows t) r e)

      there : (x h : Bool) → (x ≡ true → h ≡ true) → h ≡ (x || h)
      there true h f = f refl
      there false h f = refl

      is_open_now : (b : ℕ) → (ltb b b || true) ≡ true
      is_open_now b = ground arith

  pub process_added_validators-has_open :
      (new : List Text) (block : ℕ) (state : ValidatorState) (round : ℕ) (t : Table ValidatorRow)
      → IsFilling block (rows t)
      → (u : Table ValidatorRow) × (process_added_validators db new block state round t ≡ some u)
        × IsFilling block (rows u)
        × ((m : Buffer) (s : ValidatorState)
            → has_open m s (rows u)
              ≡ ((names_node m new && state_beq state s) || has_open m s (rows t)))
  unfolding process_added_validators
  process_added_validators-has_open [] block state round t f = (t, refl, f, λ m s. refl)
  process_added_validators-has_open (a ∷ more) block state round t f =
      let P = address_to_buffer a in
      let (u, done, f', here) = add_validator-has_open a block state round t f in
      let (v, done', f'', each) = process_added_validators-has_open more block state round u f' in
      (
        v,
        rw done done',
        f'',
        λ m s.
            each m s
            ∙ (ap (λ b. (names_node m more && state_beq state s) || b) (here m s)
                ∙ either_order (P == m) (names_node m more) (state_beq state s)
                    (has_open m s (rows t))),
      )
    where
      either_order : (e n s h : Bool) → ((n && s) || ((e && s) || h)) ≡ (((e || n) && s) || h)
      either_order e n s h = ground arith
