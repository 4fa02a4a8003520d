-- ===== src/Stake/Timeline.antt =====
-- The shape that the rows of one pool keep in `stake_history`, newest first: the newest row is a
-- point, and each older row ends in the block before the next one starts.
use diamond_dev_tools.Prelude.{
  ℕ, ◌≤◌, ◌≡◌, refl, false, Option, none, some, List, [], ◌∷◌, Buffer, ◌==◌, nat_eq, list_eq,
  filter, arith, All, if◌then◌else◌, ==_iff, ==-refl, filter-none, All-map_imp, Option-cases, inl,
  inr, sym, ap, ◌∙◌, filter-filter, All-filter,
}
use diamond_dev_tools.Prelude.Int.{ℤ, pos, ◌≤ℤ◌, int_eq, int_beq_iff}
use diamond_dev_tools.Stake.{
  StakeHistory, is_point, is_of, max_to_block, rows_ending, last_rows, before,
}

abbrev pub Closed : ℕ → List StakeHistory → Type 0
Closed b [] = Unit
Closed b (r ∷ rs) = (r.to_block ≡ before b) × (r.from_block ≤ b) × Closed r.from_block rs

abbrev pub IsTimeline : List StakeHistory → Type 0
IsTimeline [] = Unit
IsTimeline (r ∷ rs) = (r.to_block ≡ pos r.from_block) × Closed r.from_block rs

pub before-mono : (a b : ℕ) → a ≤ b → before a ≤ℤ before b
before-mono a b h = ground arith

pub before-lt : (b : ℕ) (z : ℤ) → z ≤ℤ before b → (z == pos b) ≡ false
before-lt b z h = ground (arith, int_beq_iff z (pos b))

-- Every older row ends before the block at which the list stops.
pub Closed-to :
    (b : ℕ) (rs : List StakeHistory) → Closed b rs → All (λ r. r.to_block ≤ℤ before b) rs
Closed-to b [] h = tt
Closed-to b (r ∷ rs) (e, le, h) = (
  ground arith,
  All-map_imp (λ q p. ground (arith, before-mono r.from_block b le)) rs
      (Closed-to r.from_block rs h),
)

pub Closed-from : (b : ℕ) (rs : List StakeHistory) → Closed b rs → All (λ r. r.from_block ≤ b) rs
Closed-from b [] h = tt
Closed-from b (r ∷ rs) (e, le, h) =
    (le, All-map_imp (λ q p. omega arith) rs (Closed-from r.from_block rs h))

-- The rows of one pool that end at a block.
ending : Option ℤ → List StakeHistory → List StakeHistory
ending none own = []
ending (some m) own = filter (λ r. r.to_block == m) own

rows_ending-own :
    (node : Buffer) (o : Option ℤ) (all : List StakeHistory)
    → rows_ending node o all ≡ ending o (filter (is_of node) all)
unfolding rows_ending ending
rows_ending-own node none all = refl
rows_ending-own node (some m) all = sym (filter-filter (is_of node) (λ r. r.to_block == m) all)

last_rows-own :
    (node : Buffer) (all : List StakeHistory)
    → last_rows node all
      ≡ ending (max_to_block (filter is_point (filter (is_of node) all))) (filter (is_of node) all)
unfolding last_rows
last_rows-own node all = rw (rows_ending-own node _ all) (
    ap (λ l. ending (max_to_block l) (filter (is_of node) all))
      (sym (filter-filter (is_of node) is_point all)))

max_to_block-le :
    (z m : ℤ) (rs : List StakeHistory)
    → All (λ r. r.to_block ≤ℤ z) rs
    → max_to_block rs ≡ some m
    → m ≤ℤ z
unfolding max_to_block
max_to_block-le z m [] h e = cc
max_to_block-le z m (r ∷ rs) (h, hs) e = elim (Option-cases (max_to_block rs)) [
  | inl e' ↦ ground arith
  | inr (m', e') ↦ ground (arith, max_to_block-le z m' rs hs e')
]

max_to_block-head :
    (r : StakeHistory) (rs : List StakeHistory)
    → All (λ q. q.to_block ≤ℤ r.to_block) rs
    → max_to_block (r ∷ rs) ≡ some r.to_block
unfolding max_to_block
max_to_block-head r rs h = elim (Option-cases (max_to_block rs)) [
  | inl e ↦ rw e refl
  | inr (m, e) ↦ rw e (ground (arith, max_to_block-le r.to_block m rs h e))
]

ending-timeline :
    (r : StakeHistory) (rs : List StakeHistory)
    → IsTimeline (r ∷ rs)
    → ending (max_to_block (filter is_point (r ∷ rs))) (r ∷ rs) ≡ r ∷ []
unfolding ending
ending-timeline r rs (e, h) =
    ap (λ l. ending (max_to_block l) (r ∷ rs)) point
    ∙ (ap (λ o. ending o (r ∷ rs)) (max_to_block-head r (filter is_point rs) older) ∙ newest)
  where
    ends : All (λ q. q.to_block ≤ℤ before r.from_block) rs
    ends = Closed-to r.from_block rs h

    point : filter is_point (r ∷ rs) ≡ r ∷ filter is_point rs
    point = ap (λ b. if b then r ∷ filter is_point rs else filter is_point rs) ((==_iff _ _).1 e)

    older : All (λ q. q.to_block ≤ℤ r.to_block) (filter is_point rs)
    older =
        All-filter (λ q. q.to_block ≤ℤ r.to_block) is_point rs
          (All-map_imp (λ q p. ground arith) rs ends)

    newest : filter (λ q. q.to_block == r.to_block) (r ∷ rs) ≡ r ∷ []
    newest = rw (==-refl r.to_block) (
        ap (λ q. r ∷ q)
          (filter-none (λ q. q.to_block == r.to_block) rs
            (All-map_imp (λ q p. rw e (before-lt r.from_block q.to_block p)) rs ends)))

-- The query finds the newest row of the pool, and no other.
pub last_rows-head :
    (node : Buffer) (all : List StakeHistory) (r : StakeHistory) (rs : List StakeHistory)
    → filter (is_of node) all ≡ r ∷ rs
    → IsTimeline (r ∷ rs)
    → last_rows node all ≡ r ∷ []
last_rows-head node all r rs e h = rw (last_rows-own node all, e) (ending-timeline r rs h)

pub last_rows-none :
    (node : Buffer) (all : List StakeHistory)
    → filter (is_of node) all ≡ []
    → last_rows node all ≡ []
last_rows-none node all e = rw (last_rows-own node all, e) (unfold ending max_to_block in refl)
