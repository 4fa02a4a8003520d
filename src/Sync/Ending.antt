-- ===== src/Sync/Ending.antt =====
-- The end of a run: it has caught up with the chain, or has passed its stop block.
use diamond_dev_tools.Prelude.{
  ℕ, zero, suc, ◌+◌, ◌-◌, ◌≤◌, ◌<◌, arith, ◌≡◌, refl, subst, ap, ◌∙◌, true, false, Option, none,
  some, List, [], ◌∷◌, map, length, leb, nat_eq,
}
use diamond_dev_tools.Prelude.Int.{ℤ}
use diamond_dev_tools.Sync.{
  Commit, stopped, State, Environment, loop_head, first_latest, start_run, drive, first_block,
  reaches, autostop,
}
use diamond_dev_tools.Sync.Order.{
  Orderly, OrderlyIn, drive-Orderly, Journal, starts, goes_on, repeats,
}
use diamond_dev_tools.Sync.Progress.{Recovers, CaughtUp, Ready, catch_up, reaches_before}

-- The chain's head stays at the stop block until a later block is there, whose events are fetched.
pub data Passes (env : Environment) (stop : ℕ) : ℕ → Type 0 where
  now :
      {time : ℕ} (n : ℕ)
      → env.head time ≡ some n
      → stop < n
      → env.fetches time ≡ true
      → Passes env stop time
  later : {time : ℕ} → env.head time ≡ some stop → Passes env stop (suc time) → Passes env stop time

-- The run has ended after the stop block, and no wait was lost.
abbrev pub Ended : ℕ → State → Type 0
Ended stop c = (c.phase ≡ stopped) × (c.current_block_number ≡ suc stop) × (c.lost_waits ≡ 0)

start_run-Ready :
    (fill_start fill_stop last_processed : Option ℕ) (head : ℕ) (epoch : ℤ) (before : ℕ)
    (env : Environment)
    → first_block fill_start last_processed ≤ first_latest fill_stop head
    → Ready fill_stop env (start_run fill_start fill_stop last_processed head epoch before)
unfolding start_run loop_head
start_run-Ready fill_start fill_stop last_processed head epoch before env le =
    let known : leb (first_block fill_start last_processed) (first_latest fill_stop head) ≡ true =
      ground arith in
    let open_block = not_past fill_stop head in
    rw (known, reaches_before _ _ (autostop fill_stop) le open_block) (refl, le, open_block)
  where
    not_past :
        (fill_stop : Option ℕ) (head : ℕ)
        → reaches (first_latest fill_stop head) (autostop fill_stop) ≡ false
    not_past none head = refl
    not_past (some stop) head = ground arith

-- The last of `count` blocks from `start` on, and the ones before it.
abbrev pub blocks_from : (start count : ℕ) → List ℕ
blocks_from start zero = []
blocks_from start (suc count) = (start + count) ∷ blocks_from start count

module _ (start : ℕ) (epoch : ℤ) (before : ℕ) where
  Journal-length :
      (cs : List Commit) {n b : ℕ} {e : ℤ}
      → Journal start epoch before n e b cs
      → n ≤ length cs + start
  Journal-length [] starts = omega arith
  Journal-length (c ∷ cs) (goes_on e1 t1 j) = omega (arith, Journal-length cs j)
  Journal-length (c ∷ cs) (repeats e1 t1 j) = omega (arith, Journal-length cs j)

  -- With as many transactions as blocks, each block has its own.
  pub Journal-blocks :
      (cs : List Commit) (n : ℕ) {b : ℕ} {e : ℤ}
      → Journal start epoch before n e b cs
      → length cs + start ≡ n
      → map (λ c. c.block) cs ≡ blocks_from start (length cs)
  Journal-blocks [] n starts h = refl
  Journal-blocks (c ∷ cs) n (goes_on e1 t1 j) h =
      let (here, rest) : (c.block ≡ start + length cs)
          × (map (λ c. c.block) cs ≡ blocks_from start (length cs)) =
        (omega arith, Journal-blocks cs c.block j (omega arith)) in
      rw (here, rest) refl
  Journal-blocks (c ∷ cs) n (repeats e1 t1 j) h =
      let least = Journal-length cs j in absurd (omega arith)

module _ (fill_start fill_stop last_processed : Option ℕ) (head : ℕ) (epoch : ℤ) (before : ℕ)
    (env : Environment) where
  -- The state after some turns of the run.
  abbrev pub after_turns : ℕ → State
  after_turns turns =
      drive fill_stop env turns 0 (start_run fill_start fill_stop last_processed head epoch before)

  -- The committed blocks, once the counter shows that none was lost.
  counted-blocks :
      (next : ℕ) (s : State)
      → Journal
          (first_block fill_start last_processed)
          epoch
          before
          next
          s.last_inserted_posdao_epoch
          s.block_before_timestamp
          s.commits
      → length s.commits + first_block fill_start last_processed ≡ next
      → map (λ c. c.block) s.commits
        ≡ blocks_from
            (first_block fill_start last_processed)
            (next - first_block fill_start last_processed)
  counted-blocks next s journal count =
      let start = first_block fill_start last_processed in
      let many : length s.commits ≡ next - start = omega arith in
      Journal-blocks start epoch before s.commits next journal count ∙ ap (blocks_from start) many

  CaughtUp-blocks :
      (latest : ℕ) (s : State)
      → Orderly (first_block fill_start last_processed) epoch before s
      → CaughtUp latest 0 s
      → map (λ c. c.block) s.commits
        ≡ blocks_from
            (first_block fill_start last_processed)
            (suc latest - first_block fill_start last_processed)
  CaughtUp-blocks latest s orderly (p, c, l, w) =
      let start = first_block fill_start last_processed in
      let behind = subst (λ q. OrderlyIn start epoch before q s) p orderly in
      let at : suc s.current_block_number ≡ suc latest = omega arith in
      counted-blocks (suc s.current_block_number) s behind.journal (omega (arith, behind.counted))
      ∙ ap (λ n. blocks_from start (n - start)) at

  -- With a first block that is not beyond the last block known at the start: if from every time on
  -- some transaction succeeds, then after finitely many turns the run waits
  -- behind the last block that was known at its start, and has committed each block from the first
  -- on exactly once, in order; a stop block below the head counts as the last.
  pub run-catches_up :
      Recovers env
      → first_block fill_start last_processed ≤ first_latest fill_stop head
      → (turns : ℕ) × CaughtUp (first_latest fill_stop head) 0 (after_turns turns)
        × (map (λ c. c.block) (after_turns turns).commits
            ≡ blocks_from
                (first_block fill_start last_processed)
                (suc (first_latest fill_stop head) - first_block fill_start last_processed))
  unfolding start_run loop_head
  run-catches_up recovers le =
      let first = start_run fill_start fill_stop last_processed head epoch before in
      let distance = first_latest fill_stop head - first_block fill_start last_processed in
      let ready = start_run-Ready fill_start fill_stop last_processed head epoch before env le in
      let (turns, caught) = catch_up fill_stop env distance 0 first recovers ready (omega arith) in
      (
        turns,
        caught,
        CaughtUp-blocks (first_latest fill_stop head) (after_turns turns)
            (drive-Orderly fill_start fill_stop last_processed head epoch before env turns) caught,
      )
