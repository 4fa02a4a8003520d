-- ===== src/Block/Bootstrap.antt =====
-- `bootstrapAtBlock` of src/db/runFillDb.ts, with `init` of src/db/bonusScoreProcessor.ts: the start at
-- a block that is not the first. No transaction surrounds it, so what it wrote before an exception
-- stays in the tables; the model keeps the tables of a run without an exception.
use diamond_dev_tools.Prelude.{
  ℕ, suc, ◌-◌, Bool, true, false, not, ◌&&◌, Option, none, some, List, [], ◌∷◌, length, ltb, Text,
  ◌==◌, nat_eq, if◌then◌else◌,
}
use diamond_dev_tools.Prelude.Int.{ℤ}
use diamond_dev_tools.Database.{Database}
use diamond_dev_tools.Ether.{to_lower_case}
use diamond_dev_tools.Sync.{needs_bootstrap}
use diamond_dev_tools.Block.Program.{
  Program, ◌>>=◌, ◌>>◌, done, call, statement, remember, recall, for_each, when,
}
use diamond_dev_tools.Block.Body.{Chain, insert_unknown_node, get_all_pools, set_score}
use diamond_dev_tools.Block.Transaction.{header_of, enter_node}
use diamond_dev_tools.Block.{Header, Tables, insert_header, insert_staking_epoch, insert_epoch_node}

abbrev pub is_any : {A : Type 0} → List A → Bool
is_any [] = false
is_any (x ∷ xs) = true

-- MAX(block_number).
abbrev pub highest : List Header → Option ℕ
highest [] = none
highest (h ∷ hs) = elim (highest hs) [
  | none ↦ some h.block_number
  | some n ↦ some (if ltb n h.block_number then h.block_number else n)
]

module _ (db : Database) (Rest : Type 0) (chain : Chain)
    (get_epoch_start_block : ℕ → Option ℕ) where
  unfoldable pub insert_header_for_block : (block before : ℕ) → Program (Tables db Rest) Unit
  unfolding insert_header
  insert_header_for_block block before = do
    h ← call (chain.get_block block)
    epoch ← call (chain.get_epoch h.number)
    pots ← call (chain.get_pots h.number)
    statement (insert_header db Rest (header_of h pots before epoch))

  -- The headers of the start block and of the one before.
  unfoldable pub insert_start_headers : ℕ → Program (Tables db Rest) Unit
  unfolding insert_header_for_block
  insert_start_headers start = when (ltb 0 start) (do
    prior ← call (chain.get_block (start - 1))
    before ← call (if ltb 1 start then chain.get_block (start - 2) else some prior)
    insert_header_for_block (start - 1) before.timestamp
    insert_header_for_block start prior.timestamp)

  -- The header of the block with which the epoch started.
  unfoldable pub insert_epoch_header : (start epoch_start : ℕ) → Program (Tables db Rest) Unit
  unfolding insert_header_for_block
  insert_epoch_header start epoch_start =
      when (not (suc epoch_start == start) && ltb 0 epoch_start) (do
        before ← call (chain.get_block (if ltb 1 epoch_start then epoch_start - 2 else 0))
        insert_header_for_block epoch_start before.timestamp)

  -- `if (!existingEpoch)`.
  unfoldable pub seed_epoch : ℤ → ℕ → Tables db Rest → Option (Tables db Rest)
  unfolding insert_staking_epoch
  seed_epoch epoch epoch_start t = elim (db.rows t.posdao_epochs) [
    | [] ↦ insert_staking_epoch db Rest epoch epoch_start t
    | e ∷ es ↦ some t
  ]

  unfoldable pub enter_known_validator : ℤ → Text → Program (Tables db Rest) Unit
  unfolding insert_epoch_node
  enter_known_validator epoch validator = do
    m ← recall
    enter_node db Rest chain epoch (m.known_nodes_by_mining (to_lower_case validator))

  abbrev pub score_of : ℕ → Text → Option ℕ
  score_of block pool = elim (chain.get_address_mining_by_staking pool block) [
    | none ↦ none
    | some mining ↦ chain.get_bonus_score mining block
  ]

  abbrev pub load_score : ℕ → Text → Program (Tables db Rest) Unit
  load_score block pool = do
    score ← call (score_of block pool)
    remember (set_score db Rest chain pool score)

  -- In a batch, a pool whose call throws is left out.
  abbrev pub load_score_in_batch : ℕ → Text → Program (Tables db Rest) Unit
  load_score_in_batch block pool = elim (score_of block pool) [
    | none ↦ done tt
    | some score ↦ remember (set_score db Rest chain pool score)
  ]

  -- `init` of the score processor, less the factor, whose calls do not throw.
  unfoldable pub load_scores : ℕ → Program (Tables db Rest) Unit
  unfolding get_all_pools
  load_scores block = do
    pools ← call (get_all_pools db Rest chain block)
    for_each pools (if ltb 50 (length pools) then load_score_in_batch block else load_score block)

  -- The result is `lastInsertedPosdaoEpoch`.
  unfoldable pub bootstrap_at_block : ℕ → Program (Tables db Rest) ℤ
  unfolding insert_start_headers insert_epoch_header seed_epoch insert_unknown_node get_all_pools
      enter_known_validator load_scores
  bootstrap_at_block start = do
    epoch ← call (chain.get_epoch start)
    epoch_start ← call (get_epoch_start_block start)
    insert_start_headers start
    insert_epoch_header start epoch_start
    statement (seed_epoch epoch epoch_start)
    pools ← call (get_all_pools db Rest chain start)
    for_each pools (insert_unknown_node db Rest chain start)
    validators ← call (chain.get_validators start)
    for_each validators (enter_known_validator epoch)
    load_scores start
    done epoch

  -- The start of `run` with a start block, up to its first reads of the tables again.
  unfoldable pub start_fill : ℕ → Program (Tables db Rest) Unit
  unfolding bootstrap_at_block needs_bootstrap
  start_fill start = record {
    run = λ m t.
        (when
            (needs_bootstrap start (highest (db.rows t.headers)) (is_any (db.rows t.posdao_epochs))
              (is_any (db.rows t.nodes)))
            (bootstrap_at_block start >> done tt)).run
          m t;
  }
