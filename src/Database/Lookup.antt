-- ===== src/Database/Lookup.antt =====
-- Rows found by a condition that names a whole key.
use diamond_dev_tools.Prelude.{
  ◌≡◌, refl, sym, ap, ◌∙◌, Bool, true, false, List, [], ◌∷◌, filter, any, ◌⊎◌, inl, inr, head?,
  arith, All-map_imp, All-of_filter,
}
use diamond_dev_tools.Database.{Database, set_where, distinct}
use diamond_dev_tools.Database.Rows.{
  distinct-filter, filter-set_where, set_where-none, filter-head, filter-second,
}

module _ {Row : Type 0} (same_key : Row → Row → Bool) (p : Row → Bool)
    (one_key : (r q : Row) → p r ≡ true → p q ≡ true → same_key r q ≡ true) where
  -- The rows that the condition selects.
  pub unique-filter :
      (all : List Row)
      → distinct same_key all ≡ true
      → (filter p all ≡ []) ⊎ ((r : Row) × (filter p all ≡ r ∷ []))
  unique-filter all keys = cases (filter p all) refl
    where
      cases :
          (found : List Row)
          → filter p all ≡ found
          → (filter p all ≡ []) ⊎ ((r : Row) × (filter p all ≡ r ∷ []))
      cases [] e = inl e
      cases (r ∷ []) e = inr (r, e)
      cases (r ∷ q ∷ rs) e =
          let both = one_key r q (filter-head p all r (q ∷ rs) e) (filter-second p all r q rs e) in
          let once = rw e at (distinct-filter same_key p all keys) in absurd (ground arith)

  pub find_one-head :
      (db : Database) (t : db.Table Row)
      → distinct same_key (db.rows t) ≡ true
      → db.find_one p t ≡ head? (filter p (db.rows t))
  find_one-head db t keys = elim (unique-filter (db.rows t) keys) [
    | inl e ↦ db.find_one_none p t e ∙ sym (ap head? e)
    | inr (r, e) ↦ db.find_one_some p t r e ∙ sym (ap head? e)
  ]

module _ {Row : Type 0} (same_key : Row → Row → Bool) (p : Row → Bool) (f : Row → Row)
    (left : (r q : Row) → same_key (f r) q ≡ same_key r q)
    (right : (r q : Row) → same_key q (f r) ≡ same_key q r) where
  pub any-set_where :
      (r : Row) (all : List Row) → any (same_key r) (set_where p f all) ≡ any (same_key r) all
  any-set_where r [] = refl
  any-set_where r (q ∷ qs) = ground (arith, any-set_where r qs, right q r)

  any-key : (r : Row) (all : List Row) → any (same_key (f r)) all ≡ any (same_key r) all
  any-key r [] = refl
  any-key r (q ∷ qs) = ground (arith, any-key r qs, left r q)

  -- An assignment that leaves the key alone keeps the keys distinct.
  pub distinct-set_where :
      (all : List Row) → distinct same_key (set_where p f all) ≡ distinct same_key all
  distinct-set_where [] = refl
  distinct-set_where (r ∷ rs) =
      ground
        (arith, distinct-set_where rs, any-set_where r rs, any-set_where (f r) rs, any-key r rs)

-- The rows of a condition `q` that excludes `p` stay as they are.
pub filter-set_where_other :
    {Row : Type 0} (p q : Row → Bool) (f : Row → Row) (all : List Row)
    → ((r : Row) → q (f r) ≡ q r)
    → ((r : Row) → q r ≡ true → p r ≡ false)
    → filter q (set_where p f all) ≡ filter q all
filter-set_where_other p q f all keep apart =
    filter-set_where q p f all keep
    ∙ set_where-none p f (filter q all) (All-map_imp apart (filter q all) (All-of_filter q all))
