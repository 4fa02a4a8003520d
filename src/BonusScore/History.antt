-- ===== src/BonusScore/History.antt =====
-- What `updateBonusScore` does to the scores' history.
use diamond_dev_tools.Prelude.{
  ℕ, zero, suc, Option, if◌then◌else◌, ◌&&◌, none, map, ◌≡◌, refl, sym, ap, subst, ◌∙◌, ◌≢◌, Bool,
  true, false, some, List, [], ◌∷◌, filter, any, arith, Buffer, Text, ◌==◌, nat_eq, list_eq, ==_iff,
  ==-refl, Bool-cases, inl, inr,
}
use diamond_dev_tools.Prelude.Int.{ℤ, pos, negsuc, sub_ℕ}
use diamond_dev_tools.Database.{Database, set_where, distinct}
use diamond_dev_tools.Database.Rows.{filter-set_where, distinct-cons}
use diamond_dev_tools.Database.Lookup.{any-set_where, distinct-set_where, filter-set_where_other}
use diamond_dev_tools.Ether.{address_to_buffer}
use diamond_dev_tools.BonusScore.{
  BonusScoreHistory, NodeScore, same_score_key, same_pool, is_null, is_open_of, opens, closes,
  update_bonus_score,
}

abbrev pub scores_of : Buffer → BonusScoreHistory → Bool
scores_of node r = r.node == node

-- The block before, as a number that may be negative.
abbrev pub block_before : ℕ → ℤ
block_before zero = negsuc 0
block_before (suc n) = pos n

-- A record that was open ends in the block before; one that has an end stays.
abbrev pub ended : ℕ → BonusScoreHistory → BonusScoreHistory
ended block r = elim r.to_block [
  | none ↦ record {
    node = r.node;
    from_block = r.from_block;
    to_block = some (block_before block);
    bonus_score = r.bonus_score;
  }
  | some z ↦ r
]

abbrev pub current_score : Buffer → (block score : ℕ) → BonusScoreHistory
current_score node block score = record {
  node = node;
  from_block = block;
  to_block = none;
  bonus_score = score;
}

-- From `all` to `next` a score is set for a node from a block on.
pub record Scored (all next : List BonusScoreHistory) (node : Buffer) (block score : ℕ)
    : Type 0 where
  pub keys : distinct same_score_key next ≡ true
  pub open_one : filter (is_open_of node) next ≡ current_score node block score ∷ []
  pub mine :
      filter (scores_of node) next
      ≡ current_score node block score ∷ map (ended block) (filter (scores_of node) all)
  pub others : (m : Buffer) → m ≢ node → filter (scores_of m) next ≡ filter (scores_of m) all

sub_one-block_before : (block : ℕ) → sub_ℕ block 1 ≡ block_before block
sub_one-block_before zero = refl
sub_one-block_before (suc n) = ground arith

closes-ended :
    (block : ℕ) (r : BonusScoreHistory)
    → (if is_null r.to_block then closes block r else r) ≡ ended block r
closes-ended block r = split r.to_block
  where
    split :
        (t : Option ℤ)
        → (if is_null t then closes block r else record r { to_block = t })
          ≡ ended block (record r { to_block = t })
    split none = ap (λ z. record r { to_block = some z }) (sub_one-block_before block)
    split (some z) = refl

closed-ended :
    (node : Buffer) (block : ℕ) (all : List BonusScoreHistory)
    → set_where (is_open_of node) (closes block) (filter (scores_of node) all)
      ≡ map (ended block) (filter (scores_of node) all)
closed-ended node block [] = refl
closed-ended node block (r ∷ rs) = elim (Bool-cases (r.node == node)) [
  | inr other ↦ rw other (closed-ended node block rs)
  | inl mine ↦ rw mine (
      ap (λ x. x ∷ set_where (is_open_of node) (closes block) (filter (scores_of node) rs))
        (ap (λ b. if b && is_null r.to_block then closes block r else r) mine
          ∙ closes-ended block r)
      ∙ ap (λ l. ended block r ∷ l) (closed-ended node block rs))
]

none_open :
    (node : Buffer) (block : ℕ) (all : List BonusScoreHistory)
    → filter (is_open_of node) (set_where (is_open_of node) (closes block) all) ≡ []
none_open node block [] = refl
none_open node block (r ∷ rs) = ground (arith, none_open node block rs)

unlike :
    (node m : Buffer)
    → m ≢ node
    → (r : BonusScoreHistory) → scores_of m r ≡ true
    → is_open_of node r ≡ false
unlike node m apart r h = elim (Bool-cases (r.node == node)) [
  | inl e ↦ absurd (apart (sym ((==_iff r.node m).0 h) ∙ (==_iff r.node node).0 e))
  | inr e ↦ rw e refl
]

not_equal : (node m : Buffer) → m ≢ node → (node == m) ≡ false
not_equal node m apart = elim (Bool-cases (node == m)) [
  | inl e ↦ absurd (apart (sym ((==_iff node m).0 e)))
  | inr e ↦ e
]

module _ (node : Buffer) (block score : ℕ) (all : List BonusScoreHistory)
    (keys : distinct same_score_key all ≡ true)
    (free : any (same_score_key (opens node block score)) all ≡ false) where
  abbrev closed : List BonusScoreHistory
  closed = set_where (is_open_of node) (closes block) all

  closed_keys : distinct same_score_key closed ≡ true
  closed_keys =
      distinct-set_where same_score_key (is_open_of node) (closes block) (λ _ _. refl) (λ _ _. refl)
        all
      ∙ keys

  still_free : any (same_score_key (opens node block score)) closed ≡ false
  still_free =
      any-set_where same_score_key (is_open_of node) (closes block) (λ _ _. refl) (λ _ _. refl)
        (opens node block score) all
      ∙ free

  set-Scored : Scored all (opens node block score ∷ closed) node block score
  set-Scored = record {
    keys = distinct-cons same_score_key (opens node block score) closed still_free closed_keys;
    open_one = rw (==-refl node) (ap (λ l. opens node block score ∷ l) (none_open node block all));
    mine = rw (==-refl node) (
        ap (λ l. opens node block score ∷ l)
          (filter-set_where (scores_of node) (is_open_of node) (closes block) all (λ _. refl)
            ∙ closed-ended node block all));
    others = λ m apart. rw (not_equal node m apart) (
        filter-set_where_other (is_open_of node) (scores_of m) (closes block) all (λ _. refl)
          (unlike node m apart));
  }

module _ (db : Database) where
  open db use {Table, rows}

  -- On tables with distinct keys, a score that is set for a block for which the pool has no record
  -- yet: the call succeeds, the pool's open records end in the block before, its one open record is
  -- the new one, other pools' records stay, and so do the keys; the node's score is set.
  pub update_bonus_score-Scored :
      (pool : Text) (score block : ℕ) (history : Table BonusScoreHistory) (nodes : Table NodeScore)
      → distinct same_score_key (rows history) ≡ true
      → distinct same_pool (rows nodes) ≡ true
      → any (same_score_key (opens (address_to_buffer pool) block score)) (rows history) ≡ false
      → (h : Table BonusScoreHistory) × (n : Table NodeScore) × (update_bonus_score db pool score
            block history nodes
          ≡ some (h, n))
        × Scored (rows history) (rows h) (address_to_buffer pool) block score
        × (rows n
            ≡ set_where
                (λ r. r.pool_address == address_to_buffer pool)
                (λ r. record r { bonus_score = score })
                (rows nodes))
  unfolding update_bonus_score
  update_bonus_score-Scored pool score block history nodes keys pools free =
      let P = address_to_buffer pool in
      let (c, done, now) =
        db.update_keep same_score_key (is_open_of P) (closes block) history
          (λ r. rw (==-refl r.node, ==-refl r.from_block))
          (closed_keys P block score (rows history) keys free) in
      let (h, done', now') = db.insert_new same_score_key (opens P block score) c (
        ap (any (same_score_key (opens P block score))) now
        ∙ still_free P block score (rows history) keys free) in
      let (n, done'', now'') =
        db.update_keep same_pool (λ r. r.pool_address == P) (λ r. record r { bonus_score = score })
          nodes (λ r. ==-refl r.pool_address)
          (distinct-set_where same_pool (λ r. r.pool_address == P)
              (λ r. record r { bonus_score = score }) (λ _ _. refl) (λ _ _. refl) (rows nodes)
            ∙ pools) in
      (
        h,
        n,
        rw (done, done', done''),
        subst (λ l. Scored (rows history) l P block score)
            (sym (now' ∙ ap (λ l. opens P block score ∷ l) now))
            (set-Scored P block score (rows history) keys free),
        now'',
      )
