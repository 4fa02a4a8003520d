-- ===== src/Database/Tables.antt =====
-- Tables as lists of rows meet the laws of `Database`; the examples run on them.
use diamond_dev_tools.Prelude.{
  ℕ, ◌+◌, ◌≤◌, ◌<◌, max, arith, ◌==◌, nat_eq, ◌≡◌, refl, Bool, true, false, Option, none, some,
  List, [], ◌∷◌, head?, filter, any, if◌then◌else◌,
}
use diamond_dev_tools.Database.{Database, set_where, distinct}

module _ {Row : Type 0} where
  abbrev pub list_insert : (Row → Row → Bool) → Row → List Row → Option (List Row)
  list_insert same_key r t = if any (same_key r) t then none else some (r ∷ t)

  abbrev pub list_update :
      (Row → Row → Bool) → (Row → Bool) → (Row → Row) → List Row → Option (List Row)
  list_update same_key p f t =
      if distinct same_key (set_where p f t) then some (set_where p f t) else none

  pub list_insert_new :
      (same_key : Row → Row → Bool) (r : Row) (t : List Row)
      → any (same_key r) t ≡ false
      → (u : List Row) × (list_insert same_key r t ≡ some u) × (u ≡ r ∷ t)
  list_insert_new same_key r t h = (r ∷ t, rw h, refl)

  pub list_insert_taken :
      (same_key : Row → Row → Bool) (r : Row) (t : List Row)
      → any (same_key r) t ≡ true
      → list_insert same_key r t ≡ none
  list_insert_taken same_key r t h = rw h

  pub list_update_done :
      (same_key : Row → Row → Bool) (p : Row → Bool) (f : Row → Row) (t : List Row)
      → distinct same_key (set_where p f t) ≡ true
      → (u : List Row) × (list_update same_key p f t ≡ some u) × (u ≡ set_where p f t)
  list_update_done same_key p f t h = (set_where p f t, rw h, refl)

  pub list_update_clash :
      (same_key : Row → Row → Bool) (p : Row → Bool) (f : Row → Row) (t : List Row)
      → distinct same_key (set_where p f t) ≡ false
      → list_update same_key p f t ≡ none
  list_update_clash same_key p f t h = rw h

  pub list_find_none : (p : Row → Bool) (t : List Row) → filter p t ≡ [] → head? (filter p t) ≡ none
  list_find_none p t h = rw h

  pub list_find_some :
      (p : Row → Bool) (t : List Row) (r : Row) → filter p t ≡ r ∷ [] → head? (filter p t) ≡ some r
  list_find_some p t r h = rw h

module _ {Row : Type 0} where
  -- One more than the largest id.
  abbrev pub list_next_id : (Row → ℕ) → List Row → ℕ
  list_next_id id [] = 0
  list_next_id id (r ∷ rs) = max (id r + 1) (list_next_id id rs)

  above_none :
      (id : Row → ℕ) (n : ℕ) (rs : List Row)
      → list_next_id id rs ≤ n
      → any (λ r. n == id r) rs ≡ false
  above_none id n [] h = refl
  above_none id n (r ∷ rs) h =
      let rest : list_next_id id rs ≤ n = omega arith in
      let here : id r < n = omega arith in rw (above_none id n rs rest) (ground arith)

  pub list_next_id_fresh :
      (id : Row → ℕ) (rs : List Row) → any (λ r. list_next_id id rs == id r) rs ≡ false
  list_next_id_fresh id rs = above_none id (list_next_id id rs) rs (omega arith)

abbrev pub list_database : Database
list_database = record {
  Table = λ Row. List Row;
  empty = λ Row. [];
  rows = λ {Row} t. t;
  insert = λ {Row}. list_insert;
  update = λ {Row}. list_update;
  find_one = λ {Row} p t. head? (filter p t);
  insert_or_ignore = λ {Row} same_key r t. if any (same_key r) t then t else r ∷ t;
  next_id = λ {Row}. list_next_id;
  rows-empty = λ Row. refl;
  insert_new = λ {Row}. list_insert_new;
  insert_taken = λ {Row}. list_insert_taken;
  update_one = λ {Row} k p f t _. list_update_done k p f t;
  update_keep = λ {Row} k p f t _. list_update_done k p f t;
  update_clash = λ {Row}. list_update_clash;
  find_one_none = λ {Row}. list_find_none;
  find_one_some = λ {Row}. list_find_some;
  insert_or_ignore_rows = λ {Row} same_key r t. refl;
  next_id_fresh = λ {Row}. list_next_id_fresh;
}
