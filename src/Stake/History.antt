-- ===== src/Stake/History.antt =====
-- Reading and extending the stake history of a pool through the database.
use diamond_dev_tools.Prelude.{
  ℕ, ◌≤◌, ◌<◌, ◌≡◌, ap, Bool, true, false, ◌&&◌, List, [], ◌∷◌, Buffer, ◌==◌, nat_eq, list_eq,
  filter, any, arith, length, All, ==_iff, ==-refl, filter-none, any-none, All-map_imp, inl, inr,
  Bool-cases,
}
use diamond_dev_tools.Prelude.Int.{ℤ, pos, ◌≤ℤ◌, int_eq, int_beq_iff}
use diamond_dev_tools.Database.{set_where}
use diamond_dev_tools.Database.Rows.{set_where-none}
use diamond_dev_tools.Stake.{StakeHistory, same_history_key, is_of, before, opened}
use diamond_dev_tools.Stake.Timeline.{IsTimeline, Closed-to, before-lt, before-mono}

pub same_node : (r q : StakeHistory) → same_history_key r q ≡ true → r.node ≡ q.node
same_node r q e = ground (arith, ==_iff r.node q.node)

abbrev pub closed_at : ℕ → StakeHistory → StakeHistory
closed_at block r = record r { to_block = before block }

-- How many records of the list start at the block.
abbrev pub starts_at : ℕ → List StakeHistory → ℕ
starts_at block rs = length (filter (λ r. r.from_block == block) rs)

abbrev pub is_last : StakeHistory → StakeHistory → Bool
is_last r q = is_of r.node q && (q.from_block == r.from_block && q.to_block == r.to_block)

-- The lists that a pool's rows are, as the newest is closed and another opened.
module _ (r : StakeHistory) (rs : List StakeHistory) (h : IsTimeline (r ∷ rs)) where
  pub older_end : All (λ q. (q.to_block == r.to_block) ≡ false) rs
  older_end =
      All-map_imp (λ q p. rw h.0 (before-lt r.from_block q.to_block p)) rs
        (Closed-to r.from_block rs h.1)

  pub only_last : All (λ q. is_last r q ≡ false) rs
  only_last = All-map_imp (λ q p. ground arith) rs older_end

  pub set_where-timeline :
      (f : StakeHistory → StakeHistory) → set_where (is_last r) f (r ∷ rs) ≡ f r ∷ rs
  set_where-timeline f =
      rw (==-refl r.node, ==-refl r.from_block, ==-refl r.to_block)
        (ap (λ l. f r ∷ l) (set_where-none (is_last r) f rs only_last))

  pub filter-is_last : filter (is_last r) (r ∷ rs) ≡ r ∷ []
  filter-is_last =
      rw (==-refl r.node, ==-refl r.from_block, ==-refl r.to_block)
        (ap (λ l. r ∷ l) (filter-none (is_last r) rs only_last))

  ends_below : (b : ℕ) → r.from_block ≤ b → All (λ q. q.to_block ≤ℤ before b) rs
  ends_below b le =
      All-map_imp (λ q p. ground (arith, before-mono r.from_block b le)) rs
        (Closed-to r.from_block rs h.1)

pub none_starts :
    (block : ℕ) (rs : List StakeHistory)
    → starts_at block rs ≡ 0
    → All (λ q. (q.from_block == block) ≡ false) rs
none_starts block [] e = tt
none_starts block (q ∷ rs) e = elim (Bool-cases (q.from_block == block)) [
  | inl hit ↦ absurd (let e' = rw hit at e in omega arith)
  | inr miss ↦ (miss, none_starts block rs (rw miss at e))
]

before-ne : (a b : ℕ) (z : ℤ) → z ≤ℤ before a → a < b → (before b == z) ≡ false
before-ne a b z h lt = ground (arith, int_beq_iff (before b) z)

pos-ne : (b : ℕ) (z : ℤ) → z ≤ℤ before b → (pos b == z) ≡ false
pos-ne b z h = ground (arith, int_beq_iff (pos b) z)

-- With at most one record that starts at the block, the closed record's key is free.
pub closed_key_free :
    (r : StakeHistory) (rs : List StakeHistory)
    → IsTimeline (r ∷ rs)
    → (block : ℕ) → r.from_block ≤ block
    → starts_at block (r ∷ rs) ≤ 1
    → any (same_history_key (closed_at block r)) rs ≡ false
closed_key_free r rs h block le few = elim (Bool-cases (r.from_block == block)) [
  | inl same ↦ any-none _ rs (
      All-map_imp (λ q p. ground arith) rs
        (none_starts block rs (let few' = rw same at few in omega arith)))
  | inr other ↦ any-none _ rs (
      All-map_imp (λ q p. ground (arith, before-ne r.from_block block q.to_block p)) rs
        (Closed-to r.from_block rs h.1))
]

pub opened_key_free :
    (r : StakeHistory) (rs : List StakeHistory)
    → IsTimeline (r ∷ rs)
    → (block : ℕ) (amount : ℤ) (node : Buffer) → r.from_block ≤ block
    → any (same_history_key (opened block amount node)) (closed_at block r ∷ rs) ≡ false
opened_key_free r rs h block amount node le =
    any-none (same_history_key (opened block amount node)) (closed_at block r ∷ rs) (
      ground (arith, pos-ne block (before block)),
      All-map_imp (λ q p. ground (arith, pos-ne block q.to_block p)) rs
          (ends_below r rs h block le),
    )
