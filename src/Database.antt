-- ===== src/Database.antt =====
-- The relational database behind `DbManager` (src/db/database-persistent.ts). Postgres and the
-- query builder are not part of the repository: they are the parameter `Database`, whose laws say
-- what INSERT, UPDATE and single-row SELECT do to a table with a primary key.
-- `rows` lists a table's content, the row that was inserted last at the head; no statement of the
-- program depends on that order.
pub mod Tables
pub mod Rows
pub mod Lookup
use diamond_dev_tools.Prelude.{
  ℕ, ◌≤◌, ◌≡◌, refl, Bool, true, false, not, ◌&&◌, Option, none, some, List, [], ◌∷◌, map, length,
  filter, any, if◌then◌else◌, ◌==◌, nat_eq,
}

-- An UPDATE with its WHERE and SET parts.
abbrev pub set_where : {Row : Type 0} → (Row → Bool) → (Row → Row) → List Row → List Row
set_where p f [] = []
set_where p f (r ∷ rs) = (if p r then f r else r) ∷ set_where p f rs

-- No two rows have the same key.
abbrev pub distinct : {Row : Type 0} → (Row → Row → Bool) → List Row → Bool
distinct same_key [] = true
distinct same_key (r ∷ rs) = not (any (same_key r) rs) && distinct same_key rs

-- `none` is an exception: the statement is refused and the transaction is rolled back.
pub record Database : Type 1 where
  pub Table : Type 0 → Type 0
  pub empty : (Row : Type 0) → Table Row
  pub rows : {Row : Type 0} → Table Row → List Row
  pub insert : {Row : Type 0} → (Row → Row → Bool) → Row → Table Row → Option (Table Row)
  pub update :
      {Row : Type 0}
      → (Row → Row → Bool)
      → (Row → Bool)
      → (Row → Row)
      → Table Row
      → Option (Table Row)
  pub find_one : {Row : Type 0} → (Row → Bool) → Table Row → Option Row
  -- INSERT … ON CONFLICT DO NOTHING, which throws for no key.
  pub insert_or_ignore : {Row : Type 0} → (Row → Row → Bool) → Row → Table Row → Table Row
  -- The default of a SERIAL column.
  pub next_id : {Row : Type 0} → (Row → ℕ) → Table Row → ℕ
  pub rows-empty : (Row : Type 0) → rows (empty Row) ≡ []
  pub insert_new :
      {Row : Type 0} (same_key : Row → Row → Bool) (r : Row) (t : Table Row)
      → any (same_key r) (rows t) ≡ false
      → (u : Table Row) × (insert same_key r t ≡ some u) × (rows u ≡ r ∷ rows t)
  pub insert_taken :
      {Row : Type 0} (same_key : Row → Row → Bool) (r : Row) (t : Table Row)
      → any (same_key r) (rows t) ≡ true
      → insert same_key r t ≡ none
  -- One row changes at most, and its new key is free.
  pub update_one :
      {Row : Type 0} (same_key : Row → Row → Bool) (p : Row → Bool) (f : Row → Row) (t : Table Row)
      → length (filter p (rows t)) ≤ 1
      → distinct same_key (set_where p f (rows t)) ≡ true
      → (u : Table Row) × (update same_key p f t ≡ some u) × (rows u ≡ set_where p f (rows t))
  -- Any number of rows change, and none changes its key.
  pub update_keep :
      {Row : Type 0} (same_key : Row → Row → Bool) (p : Row → Bool) (f : Row → Row) (t : Table Row)
      → ((r : Row) → same_key r (f r) ≡ true)
      → distinct same_key (set_where p f (rows t)) ≡ true
      → (u : Table Row) × (update same_key p f t ≡ some u) × (rows u ≡ set_where p f (rows t))
  pub update_clash :
      {Row : Type 0} (same_key : Row → Row → Bool) (p : Row → Bool) (f : Row → Row) (t : Table Row)
      → distinct same_key (set_where p f (rows t)) ≡ false
      → update same_key p f t ≡ none
  pub find_one_none :
      {Row : Type 0} (p : Row → Bool) (t : Table Row) → filter p (rows t) ≡ [] → find_one p t ≡ none
  pub find_one_some :
      {Row : Type 0} (p : Row → Bool) (t : Table Row) (r : Row)
      → filter p (rows t) ≡ r ∷ []
      → find_one p t ≡ some r
  pub insert_or_ignore_rows :
      {Row : Type 0} (same_key : Row → Row → Bool) (r : Row) (t : Table Row)
      → rows (insert_or_ignore same_key r t)
        ≡ (if any (same_key r) (rows t) then rows t else r ∷ rows t)
  pub next_id_fresh :
      {Row : Type 0} (id : Row → ℕ) (t : Table Row)
      → any (λ r. next_id id t == id r) (rows t) ≡ false
