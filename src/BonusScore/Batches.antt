-- ===== src/BonusScore/Batches.antt =====
-- `BonusScoreProcessor` of src/db/bonusScoreProcessor.ts: the cache of scores, the batches of pools, and
-- the reasons of changes. The promises of one batch touch the cache entries and rows of their own
-- pools; they run in the order of the list here. What a promise throws is caught, and its pool skipped; but an update that throws aborts the
-- transaction of the block, so that all later ones throw.
use diamond_dev_tools.Prelude.{
  ℕ, zero, suc, Bool, true, false, not, Option, none, some, List, [], ◌∷◌, ◌++◌, map, length, take,
  drop, ltb, Text, ◌==◌, nat_eq, list_eq, if◌then◌else◌,
}
use diamond_dev_tools.Prelude.Int.{ℤ, sub_ℕ}
use diamond_dev_tools.Database.{Database}
use diamond_dev_tools.Ether.{to_lower_case}
use diamond_dev_tools.BonusScore.{
  BonusScoreHistory, NodeScore, update_bonus_score, Chain, BonusScoreChangeReason, detect_reason,
}

pub record Change : Type 0 where
  pub pool : Text
  pub mining : Text
  pub previous_score : ℕ
  pub new_score : ℕ

-- A row of `bonus_score_change_reasons`, less its time.
pub record ReasonRow : Type 0 where
  pub pool_address : Text
  pub block_number : ℕ
  pub epoch : ℕ
  pub score_change : ℤ
  pub previous_score : ℕ
  pub new_score : ℕ
  pub reason : BonusScoreChangeReason

abbrev pub batch_size : ℕ
batch_size = 50

-- `existingScore || 0`.
abbrev pub cached_or_zero : Option ℕ → ℕ
cached_or_zero none = 0
cached_or_zero (some n) = n

-- `currentScore !== existingScore`.
abbrev pub differs : ℕ → Option ℕ → Bool
differs score none = true
differs score (some n) = not (score == n)

abbrev pub cache_score : Text → ℕ → (Text → Option ℕ) → Text → Option ℕ
cache_score key score scores k = if key == k then some score else scores k

module _ (db : Database) where
  open db use {Table}

  -- `currentBonusScores`, the tables, and `changes`.
  pub record Scores : Type 0 where
    pub current : Text → Option ℕ
    pub history : Table BonusScoreHistory
    pub nodes : Table NodeScore
    pub changes : List Change
    -- Whether a statement of the transaction has failed, so that Postgres refuses all further ones.
    pub aborted : Bool

  -- An update of a transaction.
  abbrev pub attempted : {A : Type 0} → Bool → Option A → Option A
  attempted true update = none
  attempted false update = update

  -- What follows the update in the database.
  abbrev pub changed :
      Text → Text → ℕ → Option (Table BonusScoreHistory × Table NodeScore) → Scores → Scores
  changed pool mining score none s = record s { aborted = true }
  changed pool mining score (some (history, nodes)) s = record {
    current = cache_score (to_lower_case pool) score s.current;
    history = history;
    nodes = nodes;
    changes =
        s.changes
        ++ record {
          pool = pool;
          mining = mining;
          previous_score = cached_or_zero (s.current (to_lower_case pool));
          new_score = score;
        }
          ∷ [];
    aborted = s.aborted;
  }

  -- `read` is getAddressMiningByStaking followed by getBonusScore.
  module _ (read : Text → Option (Text × ℕ)) (block_number : ℕ) where
    abbrev pub compare_score : Text → Option (Text × ℕ) → Scores → Scores
    compare_score pool none s = s
    compare_score pool (some (mining, score)) s =
        if differs score (s.current (to_lower_case pool))
        then changed pool mining score
            (attempted s.aborted (update_bonus_score db pool score block_number s.history s.nodes))
            s
        else s

    unfoldable pub process_pool : Text → Scores → Scores
    process_pool pool s = compare_score pool (read pool) s

    unfoldable pub process_batch : List Text → Scores → Scores
    unfolding process_pool
    process_batch [] s = s
    process_batch (p ∷ ps) s = process_batch ps (process_pool p s)

    -- The loop over the slices; a list has at most as many as it has pools.
    unfoldable pub process_batches : ℕ → List Text → Scores → Scores
    unfolding process_batch
    process_batches zero pools s = s
    process_batches (suc fuel) pools s =
        let rest =
          process_batches fuel (drop batch_size pools) (process_batch (take batch_size pools) s) in
        if ltb 0 (length pools) then rest else s

    unfoldable pub process_scores : List Text → Scores → Scores
    unfolding process_batch process_batches
    process_scores pools s =
        if ltb batch_size (length pools)
        then process_batches (length pools) pools (record s { changes = [] })
        else process_batch pools (record s { changes = [] })

    -- `processReasonDetection`, with the epoch that the database has for the block, or 0.
    abbrev pub reason_row : Chain → (epoch : ℕ) → Change → ReasonRow
    reason_row chain epoch c = record {
      pool_address = c.pool;
      block_number = block_number;
      epoch = epoch;
      score_change = sub_ℕ c.new_score c.previous_score;
      previous_score = c.previous_score;
      new_score = c.new_score;
      reason = detect_reason chain (record {
        validator = c.mining;
        pool_address = c.pool;
        block_number = block_number;
        epoch = epoch;
        previous_score = c.previous_score;
        new_score = c.new_score;
        score_change = sub_ℕ c.new_score c.previous_score;
        is_validator_in_set = none;
        validator_connected = none;
        available_since = none;
      });
    }

    -- `processBonusScore`: the scores, and the rows of reasons that it upserts.
    unfoldable pub process_bonus_score :
        Chain → (epoch : Option ℕ) → List Text → Scores → Scores × List ReasonRow
    unfolding process_scores detect_reason
    process_bonus_score chain epoch pools s =
        let after = process_scores pools s in
        (after, map (reason_row chain (cached_or_zero epoch)) after.changes)
