-- ===== src/Block/Members.antt =====
-- The members of the sets of addresses.
use diamond_dev_tools.Prelude.{
  ◌≡◌, refl, ap, ◌∙◌, Bool, true, false, ◌&&◌, ◌||◌, List, [], ◌∷◌, ◌++◌, any, Text, ◌==◌, ==_iff,
  list_eq, if◌then◌else◌, Bool-cases, inl, inr, arith, subst,
}
use diamond_dev_tools.Events.{ContractEvent, name_of}
use diamond_dev_tools.Block.Sets.{
  insert_new, insert_each, pools_of, is_stake_movement_event, get_pools_set,
}

abbrev pub has : Text → List Text → Bool
has x xs = any (λ y. y == x) xs

has-append : (x y : Text) (xs : List Text) → has x (xs ++ y ∷ []) ≡ ((y == x) || has x xs)
has-append x y [] = ground arith
has-append x y (z ∷ zs) = ground (arith, has-append x y zs)

has-insert_new : (x y : Text) (xs : List Text) → has x (insert_new y xs) ≡ ((y == x) || has x xs)
has-insert_new x y xs = elim (Bool-cases (has y xs)) [
  | inr new ↦ rw new (has-append x y xs)
  | inl old ↦ elim (Bool-cases (y == x)) [
    | inr other ↦ rw (old, other) refl
    | inl same ↦ rw (old, same) (subst (λ z. has z xs ≡ true) ((==_iff y x).0 same) old)
  ]
]

or_swap : (a b c : Bool) → (a || (b || c)) ≡ ((b || a) || c)
or_swap a b c = ground arith

has-insert_each :
    (x : Text) (ys set : List Text) → has x (insert_each ys set) ≡ (has x ys || has x set)
has-insert_each x [] set = refl
has-insert_each x (y ∷ ys) set =
    has-insert_each x ys (insert_new y set)
    ∙ (ap (λ b. has x ys || b) (has-insert_new x y set) ∙ or_swap (has x ys) (y == x) (has x set))

-- The address is one of a pool of the event, in lower case, and the event moves stake.
abbrev pub names_pool : Text → ContractEvent → Bool
names_pool x e = is_stake_movement_event (name_of e) && has x (pools_of e)

has-step :
    (x : Text) (b : Bool) (ys set : List Text)
    → has x (if b then insert_each ys set else set) ≡ ((b && has x ys) || has x set)
has-step x true ys set = has-insert_each x ys set
has-step x false ys set = refl

has-get_pools_set_from :
    (x : Text) (es : List ContractEvent) (set : List Text)
    → has x (get_pools_set es set) ≡ (any (names_pool x) es || has x set)
unfolding get_pools_set
has-get_pools_set_from x [] set = refl
has-get_pools_set_from x (e ∷ es) set =
    has-get_pools_set_from x es
      (if is_stake_movement_event (name_of e) then insert_each (pools_of e) set else set)
    ∙ (ap (λ b. any (names_pool x) es || b)
          (has-step x (is_stake_movement_event (name_of e)) (pools_of e) set)
        ∙ or_swap (any (names_pool x) es) (names_pool x e) (has x set))

or_false : (b : Bool) → (b || false) ≡ b
or_false true = refl
or_false false = refl

-- An address is in the set of the events' pools exactly when some event that moves stake names it,
-- up to the case of letters; both pools of a move count.
pub has-get_pools_set :
    (x : Text) (es : List ContractEvent) → has x (get_pools_set es []) ≡ any (names_pool x) es
has-get_pools_set x es = has-get_pools_set_from x es [] ∙ or_false (any (names_pool x) es)
