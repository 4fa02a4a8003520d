-- ===== src/Sync.antt =====
-- The block loop of src/db/runFillDb.ts: where it starts, what it does with a block that fails, how
-- it waits for the next block, and when it ends. The variables of `run` that the loop changes are
-- the state; what the loop asks for is the parameter `Environment`, and each turn has its own time.
pub mod Order
pub mod Progress
pub mod Ending
pub mod Repeats
pub mod Examples
use diamond_dev_tools.Prelude.{
  ℕ, zero, suc, ◌+◌, min, Bool, true, false, not, ◌||◌, Option, none, some, List, [], ◌∷◌, ltb, leb,
  ◌==◌, nat_eq, if◌then◌else◌,
}
use diamond_dev_tools.Prelude.Int.{ℤ, ltb_ℤ}

-- A committed transaction: the block, the values of `lastInsertedPosdaoEpoch` and
-- `blockBeforeTimestamp` it was processed with, and the epoch and the timestamp of the block.
pub record Commit : Type 0 where
  pub block : ℕ
  pub epoch_at_start : ℤ
  pub before : ℕ
  pub posdao_epoch : ℤ
  pub timestamp : ℕ

pub data Phase : Type 0 where
  -- At the `try` of the loop's body.
  processing : Phase
  -- In the loop that waits for a new block, after the commit.
  waiting : Phase
  -- `run` has returned.
  stopped : Phase

pub record State : Type 0 where
  pub current_block_number : ℕ
  pub latest_known_block : ℕ
  pub last_inserted_posdao_epoch : ℤ
  pub block_before_timestamp : ℕ
  pub phase : Phase
  -- The transactions, the last first, and the waits that ended in an exception.
  pub commits : List Commit
  pub lost_waits : ℕ

pub record Environment : Type 0 where
  -- `executeInTransaction` for a block, with the epoch and the timestamp before it: the epoch and
  -- the timestamp of the block, or an exception.
  pub process : (time : ℕ) → (block : ℕ) → (epoch : ℤ) → (before : ℕ) → Option (ℤ × ℕ)
  -- `web3.eth.getBlockNumber`.
  pub head : (time : ℕ) → Option ℕ
  -- `eventProcessor.fetchBlockEvents` in the waiting loop, false for an exception.
  pub fetches : (time : ℕ) → Bool

-- `fillStopBlock + 1`, and `Number.MAX_VALUE` without a stop block, which no block reaches.
abbrev pub autostop : Option ℕ → Option ℕ
autostop none = none
autostop (some stop) = some (suc stop)

abbrev pub reaches : ℕ → Option ℕ → Bool
reaches block none = false
reaches block (some bound) = leb bound block

-- The first block: DB_FILL_START_BLOCK, or the one after the last block of the database.
unfoldable pub first_block : (fill_start last_processed : Option ℕ) → ℕ
first_block (some start) last = start
first_block none (some last) = last + 1
first_block none none = 0

-- The number of the last block known at the start.
abbrev pub first_latest : (fill_stop : Option ℕ) → ℕ → ℕ
first_latest none head = head
first_latest (some stop) head = min head stop

-- `needsBootstrap`, with the last block of the database, and whether it has an epoch and nodes.
unfoldable pub needs_bootstrap :
    (fill_start : ℕ) → (last_processed : Option ℕ) → (has_epoch has_nodes : Bool) → Bool
needs_bootstrap start none has_epoch has_nodes = true
needs_bootstrap start (some last) has_epoch has_nodes =
    ltb (last + 1) start || not has_epoch || not has_nodes

-- The loop's condition and the test for `autostop`.
unfoldable pub loop_head : (fill_stop : Option ℕ) → State → State
loop_head fill_stop s = record s {
  phase =
      if leb s.current_block_number s.latest_known_block
      then if reaches s.current_block_number (autostop fill_stop) then stopped else processing
      else stopped;
}

unfoldable pub start_run :
    (fill_start fill_stop last_processed : Option ℕ)
    → (head : ℕ) → (last_epoch : ℤ) → (last_timestamp : ℕ) → State
unfolding first_block loop_head
start_run fill_start fill_stop last_processed head last_epoch last_timestamp =
    loop_head fill_stop (record {
      current_block_number = first_block fill_start last_processed;
      latest_known_block = first_latest fill_stop head;
      last_inserted_posdao_epoch = last_epoch;
      block_before_timestamp = last_timestamp;
      phase = processing;
      commits = [];
      lost_waits = 0;
    })

-- `currentBlockNumber += 1`.
unfoldable pub advance : (fill_stop : Option ℕ) → State → State
unfolding loop_head
advance fill_stop s =
    loop_head fill_stop (record s { current_block_number = suc s.current_block_number })

-- After the transaction of the block: the variables are assigned, and the loop waits if no later
-- block is known.
unfoldable pub commit : (fill_stop : Option ℕ) → (epoch : ℤ) → (timestamp : ℕ) → State → State
unfolding advance
commit fill_stop epoch timestamp s =
    let done = record s {
      last_inserted_posdao_epoch =
          if ltb_ℤ s.last_inserted_posdao_epoch epoch then epoch else s.last_inserted_posdao_epoch;
      block_before_timestamp = timestamp;
      commits =
          record {
            block = s.current_block_number;
            epoch_at_start = s.last_inserted_posdao_epoch;
            before = s.block_before_timestamp;
            posdao_epoch = epoch;
            timestamp = timestamp;
          }
          ∷ s.commits;
    } in
    if s.current_block_number == s.latest_known_block
    then record done { phase = waiting }
    else advance fill_stop done

-- An exception in the waiting loop leaves the `try`: the block is processed again.
unfoldable pub lose_wait : (fill_stop : Option ℕ) → State → State
unfolding loop_head
lose_wait fill_stop s = loop_head fill_stop (record s { lost_waits = suc s.lost_waits })

-- One turn of the waiting loop, with the answer to `getBlockNumber`.
unfoldable pub poll : (fill_stop : Option ℕ) → (fetched : Bool) → Option ℕ → State → State
unfolding advance lose_wait
poll fill_stop fetched none s = lose_wait fill_stop s
poll fill_stop fetched (some n) s =
    let known = record s { latest_known_block = n } in
    if ltb s.current_block_number n
    then (if fetched then advance fill_stop known else lose_wait fill_stop known)
    else if s.current_block_number == n
    then known
    else advance fill_stop known

unfoldable pub attempt_block : (fill_stop : Option ℕ) → Option (ℤ × ℕ) → State → State
unfolding commit loop_head
attempt_block fill_stop none s = loop_head fill_stop s
attempt_block fill_stop (some (epoch, timestamp)) s = commit fill_stop epoch timestamp s

unfoldable pub turn : (fill_stop : Option ℕ) → Environment → ℕ → State → State
unfolding attempt_block poll
turn fill_stop env time s = elim s.phase [
  | processing ↦
      attempt_block fill_stop
        (env.process time s.current_block_number s.last_inserted_posdao_epoch
          s.block_before_timestamp)
        s
  | waiting ↦ poll fill_stop (env.fetches time) (env.head time) s
  | stopped ↦ s
]

-- The turns from a time on.
unfoldable pub drive : (fill_stop : Option ℕ) → Environment → (turns time : ℕ) → State → State
unfolding turn
drive fill_stop env zero time s = s
drive fill_stop env (suc turns) time s =
    drive fill_stop env turns (suc time) (turn fill_stop env time s)
