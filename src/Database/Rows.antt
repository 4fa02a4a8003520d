-- ===== src/Database/Rows.antt =====
-- Rows under UPDATE and under primary keys, seen one owner at a time.
use diamond_dev_tools.Prelude.{
  ◌≡◌, refl, sym, ap, Bool, true, false, List, [], ◌∷◌, Buffer, ◌==◌, list_eq, ==_iff, ==-refl,
  filter, any, any-filter, arith, All, inl, inr, Bool-cases,
}
use mathlib.Core.Bool.{and-eq-true_iff}
use diamond_dev_tools.Database.{set_where, distinct}

module _ {Row : Type 0} where
  pub set_where-none :
      (p : Row → Bool) (f : Row → Row) (rs : List Row)
      → All (λ r. p r ≡ false) rs
      → set_where p f rs ≡ rs
  set_where-none p f [] h = refl
  set_where-none p f (r ∷ rs) (h, hs) = ground (arith, set_where-none p f rs hs)

  -- A test that the assignment does not change may be made before or after the UPDATE.
  pub filter-set_where :
      (q p : Row → Bool) (f : Row → Row) (rs : List Row)
      → ((r : Row) → q (f r) ≡ q r)
      → filter q (set_where p f rs) ≡ set_where p f (filter q rs)
  filter-set_where q p f [] h = refl
  filter-set_where q p f (r ∷ rs) h = ground (arith, filter-set_where q p f rs h, h r)

  pub filter-head :
      (p : Row → Bool) (all : List Row) (r : Row) (rs : List Row)
      → filter p all ≡ r ∷ rs
      → p r ≡ true
  filter-head p [] r rs e = cc
  filter-head p (x ∷ xs) r rs e = elim (Bool-cases (p x)) [
    | inl h ↦ let e' = rw h at e in ground arith
    | inr h ↦ filter-head p xs r rs (rw h at e)
  ]

  pub filter-second :
      (p : Row → Bool) (all : List Row) (r q : Row) (rs : List Row)
      → filter p all ≡ r ∷ q ∷ rs
      → p q ≡ true
  filter-second p [] r q rs e = cc
  filter-second p (x ∷ xs) r q rs e = elim (Bool-cases (p x)) [
    | inl h ↦ let e' = rw h at e in filter-head p xs q rs (ground arith)
    | inr h ↦ filter-second p xs r q rs (rw h at e)
  ]

  pub any-of_filter :
      (p q : Row → Bool) (rs : List Row) → any q rs ≡ false → any q (filter p rs) ≡ false
  any-of_filter p q [] h = refl
  any-of_filter p q (r ∷ rs) h = ground (arith, any-of_filter p q rs)

  pub set_where-filter_none :
      (p : Row → Bool) (f : Row → Row) (all : List Row)
      → filter p all ≡ []
      → set_where p f all ≡ all
  set_where-filter_none p f [] h = refl
  set_where-filter_none p f (r ∷ rs) h = elim (Bool-cases (p r)) [
    | inl y ↦ let h' = rw y at h in cc
    | inr n ↦ let h' = rw n at h in rw n (ap (λ l. r ∷ l) (set_where-filter_none p f rs h'))
  ]

module _ {Row : Type 0} (same_key : Row → Row → Bool) where
  pub distinct-tail :
      (r : Row) (rs : List Row) → distinct same_key (r ∷ rs) ≡ true → distinct same_key rs ≡ true
  distinct-tail r rs h = ((and-eq-true_iff _ _).0 h).1

  pub distinct-cons :
      (r : Row) (rs : List Row)
      → any (same_key r) rs ≡ false
      → distinct same_key rs ≡ true
      → distinct same_key (r ∷ rs) ≡ true
  distinct-cons r rs free keys = rw (free, keys)

  pub distinct-filter :
      (p : Row → Bool) (rs : List Row)
      → distinct same_key rs ≡ true
      → distinct same_key (filter p rs) ≡ true
  distinct-filter p [] h = refl
  distinct-filter p (r ∷ rs) h =
      ground (arith, distinct-filter p rs, any-of_filter p (same_key r) rs)

  module _ (node_of : Row → Buffer)
      (same_node : (r q : Row) → same_key r q ≡ true → node_of r ≡ node_of q) where
    abbrev pub own : Buffer → List Row → List Row
    own node = filter (λ r. node_of r == node)

    -- A key is taken in the table exactly when it is taken among its node's rows.
    pub any-own :
        (r : Row) (all : List Row) → any (same_key r) (own (node_of r) all) ≡ any (same_key r) all
    any-own r all =
        any-filter (λ q. node_of q == node_of r) (same_key r) all
          (λ q e. (==_iff _ _).1 (sym (same_node r q e)))

    pub distinct-own :
        (all : List Row)
        → ((node : Buffer) → distinct same_key (own node all) ≡ true)
        → distinct same_key all ≡ true
    distinct-own [] h = refl
    distinct-own (r ∷ rs) h =
        ground (arith, h (node_of r), ==-refl (node_of r), any-own r rs, distinct-own rs rest)
      where
        rest : (node : Buffer) → distinct same_key (own node rs) ≡ true
        rest node = ground (arith, h node)
