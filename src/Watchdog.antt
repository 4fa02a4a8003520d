-- ===== src/Watchdog.antt =====
-- The restarts of the watchdog (`checkValidaterState` and `checkAllValidaterStates` of
-- src/watchdog.ts). A check has two parts, since it waits for the contracts in between: it reads the
-- memory of restarts first, and writes it last. The checks of all nodes begin at once and are not
-- awaited, so that they overlap. Times are in milliseconds. What the contracts answer is
-- an argument, where none is an exception; none in `by_mining` is also the zero address.
pub mod Waiting
pub mod Spacing
pub mod Overlap
pub mod Examples
use diamond_dev_tools.Nodes.{CallOutcome, waits_for, NodeState, start, stop, close}
use diamond_dev_tools.Prelude.{
  ℕ, zero, suc, ◌+◌, Bool, true, false, not, ◌&&◌, ◌||◌, Option, none, some, List, [], ◌∷◌, ◌++◌,
  filter, map, length, leb, ltb, Text, ◌==◌, nat_eq, list_eq, if◌then◌else◌, ◌>>=◌,
}

-- `latestpoolRestarts`, `latestpoolRestartBlockNumber` and `latestKnownBlock`; an entry of the two
-- dictionaries is written together.
pub record RestartMemory : Type 0 where
  pub latest_pool_restarts : Text → Option ℕ
  pub latest_pool_restart_block_number : Text → Option ℕ
  pub latest_known_block : ℕ

-- A check that waits for the contracts: its pool, its mining address and its `now`.
pub record Check : Type 0 where
  pub pool_address : Text
  pub mining_address : Text
  pub now : ℕ

-- A restart: `time` is the `now` of its check, the time at which the check began; the block is the one
-- known at the restart; and the node, which then goes through `restart_node`, is none if there is not exactly one for
-- the mining address.
pub record Restart : Type 0 where
  pub pool : Text
  pub time : ℕ
  pub block : ℕ
  pub node : Option ℕ

-- What the contracts answer to a check.
pub record ContractAnswers : Type 0 where
  pub is_pool_active : Bool
  pub stake_amount_total : ℕ
  pub candidate_min_stake : ℕ
  pub validator_available_since : ℕ

pub record Watching : Type 0 where
  pub memory : RestartMemory
  pub waiting : List Check
  pub restarts : List Restart

-- The manager's nodes: their ids and addresses.
abbrev pub managed_by : Text → List (ℕ × Option Text) → List ℕ
managed_by mining [] = []
managed_by mining ((id, none) ∷ nodes) = managed_by mining nodes
managed_by mining ((id, some a) ∷ nodes) =
    if a == mining then id ∷ managed_by mining nodes else managed_by mining nodes

abbrev pub only_one : List ℕ → Option ℕ
only_one (id ∷ []) = some id
only_one _ = none

-- `(now - time) < 60000`, where the difference may be negative.
abbrev pub recently : (time now : ℕ) → Bool
recently time now = ltb now (time + 60000)

abbrev pub same_block : ℕ → Option ℕ → Bool
same_block block none = false
same_block block (some b) = block == b

-- Whether a check is to go on: `if (this.latestpoolRestarts[poolAddress])` and the two tests in it.
abbrev pub goes_on : Option ℕ → (block : Option ℕ) → (latest_known_block now : ℕ) → Bool
goes_on none block latest now = true
goes_on (some zero) block latest now = true
goes_on (some (suc t)) block latest now =
    not (recently (suc t) now) && not (same_block latest block)

unfoldable pub may_restart : RestartMemory → Check → Bool
may_restart m c =
    goes_on (m.latest_pool_restarts c.pool_address)
      (m.latest_pool_restart_block_number c.pool_address) m.latest_known_block c.now

-- The contracts call for a restart: enough stake, not active, and not available.
unfoldable pub needs_restart : ContractAnswers → Bool
needs_restart a =
    not a.is_pool_active
    && leb a.candidate_min_stake a.stake_amount_total
    && (a.validator_available_since == 0)

abbrev pub set_at : Text → ℕ → (Text → Option ℕ) → Text → Option ℕ
set_at key value d k = if key == k then some value else d k

-- `asyncRestart`: the memory is written before the node is looked up.
unfoldable pub async_restart : List (ℕ × Option Text) → Check → Watching → Watching
async_restart nodes c s = record s {
  memory = record s.memory {
    latest_pool_restarts = set_at c.pool_address c.now s.memory.latest_pool_restarts;
    latest_pool_restart_block_number =
        set_at c.pool_address s.memory.latest_known_block s.memory.latest_pool_restart_block_number;
  };
  restarts =
      record {
        pool = c.pool_address;
        time = c.now;
        block = s.memory.latest_known_block;
        node = only_one (managed_by c.mining_address nodes);
      }
      ∷ s.restarts;
}

-- What `asyncRestart` does with the one node: it stops it, waits until its process has closed, and
-- starts it. A call that throws ends it; the data of the node are files.
abbrev pub started_again : CallOutcome × NodeState → NodeState
started_again (waits_for pid, n) = (start false (close pid n)).1
started_again (outcome, n) = n

unfoldable pub restart_node : NodeState → NodeState
unfolding start stop close
restart_node n = started_again (stop false n)

-- A new block, a check that begins, with its mining address and its `now`, and the answers to the
-- waiting check at a position, in any order.
pub data Event : Type 0 where
  sees : ℕ → Event
  begins : Option Text → Text → ℕ → Event
  answered : ℕ → Option ContractAnswers → Event

-- The check at a position, and the others.
abbrev pub take_at : ℕ → List Check → Option (Check × List Check)
take_at i [] = none
take_at zero (c ∷ cs) = some (c, cs)
take_at (suc i) (c ∷ cs) = elim (take_at i cs) [ none ↦ none | some (d, rest) ↦ some (d, c ∷ rest) ]

module _ (order_manage_nodes : Bool) (nodes : List (ℕ × Option Text)) where
  -- The part after the answers.
  unfoldable pub finish_check : Option ContractAnswers → Check → Watching → Watching
  unfolding needs_restart async_restart
  finish_check none c s = s
  finish_check (some a) c s =
      if needs_restart a && order_manage_nodes then async_restart nodes c s else s

  -- The part before them, with the pool that `stakingByMiningAddress` gives.
  unfoldable pub begin_check :
      (by_mining : Option Text) → (mining : Text) → (now : ℕ) → Watching → Watching
  unfolding may_restart
  begin_check none mining now s = s
  begin_check (some pool) mining now s =
      let c : Check = record { pool_address = pool; mining_address = mining; now = now } in
      if may_restart s.memory c then record s { waiting = s.waiting ++ c ∷ [] } else s

  -- The check that has waited for the longest time has its answers.
  abbrev pub finish_first : Option ContractAnswers → List Check → Watching → Watching
  finish_first a [] s = s
  finish_first a (c ∷ cs) s = finish_check a c (record s { waiting = cs })

  unfoldable pub finish_next : Option ContractAnswers → Watching → Watching
  unfolding finish_check
  finish_next a s = finish_first a s.waiting s

  abbrev pub finish_taken :
      Option ContractAnswers → Option (Check × List Check) → Watching → Watching
  finish_taken a none s = s
  finish_taken a (some (c, rest)) s = finish_check a c (record s { waiting = rest })

  unfoldable pub step : Event → Watching → Watching
  unfolding begin_check finish_check
  step (sees block) s = record s { memory = record s.memory { latest_known_block = block } }
  step (begins by_mining mining now) s = begin_check by_mining mining now s
  step (answered i a) s = finish_taken a (take_at i s.waiting) s

  unfoldable pub watch : List Event → Watching → Watching
  unfolding step
  watch [] s = s
  watch (e ∷ es) s = watch es (step e s)

unfoldable pub watch_from : ℕ → Watching
watch_from block = record {
  memory = record {
    latest_pool_restarts = λ p. none;
    latest_pool_restart_block_number = λ p. none;
    latest_known_block = block;
  };
  waiting = [];
  restarts = [];
}
