-- ===== src/Sync/Repeats.antt =====
-- What an exception in the waiting loop does.
use diamond_dev_tools.Prelude.{
  ℕ, suc, ◌≤◌, arith, ◌≡◌, refl, sym, subst, ap, ◌∙◌, true, false, Option, none, some, ◌∷◌, map,
  leb, ◌==◌, nat_eq, if◌then◌else◌, Bool-cases, inl, inr,
}
use diamond_dev_tools.Prelude.Int.{ℤ}
use diamond_dev_tools.Sync.{
  processing, waiting, stopped, State, Environment, loop_head, advance, commit, lose_wait, poll,
  turn, drive, reaches, autostop,
}
use diamond_dev_tools.Sync.Progress.{CaughtUp, turn_done}

module _ (fill_stop : Option ℕ) (env : Environment) where
  losing : State → State
  losing s = record s { lost_waits = suc s.lost_waits; phase = processing }

  turn-lost :
      (time : ℕ) (s : State)
      → s.phase ≡ waiting
      → s.current_block_number ≤ s.latest_known_block
      → reaches s.current_block_number (autostop fill_stop) ≡ false
      → env.head time ≡ none
      → turn fill_stop env time s ≡ losing s
  unfolding turn poll lose_wait loop_head losing
  turn-lost time s p le open_block h =
      asked
      ∙ (ap (λ o. poll fill_stop (env.fetches time) o s) h
          ∙ ap (λ q. record s { lost_waits = suc s.lost_waits; phase = q }) in_process)
    where
      asked : turn fill_stop env time s ≡ poll fill_stop (env.fetches time) (env.head time) s
      asked = simp (p, turn) refl

      in_process :
          (if leb s.current_block_number s.latest_known_block
            then if reaches s.current_block_number (autostop fill_stop) then stopped else processing
            else stopped)
          ≡ processing
      in_process =
          let known : leb s.current_block_number s.latest_known_block ≡ true = ground arith in
          rw (known, open_block) refl

  commit-commits :
      (e1 : ℤ) (t1 : ℕ) (s : State)
      → map (λ c. c.block) (commit fill_stop e1 t1 s).commits
        ≡ s.current_block_number ∷ map (λ c. c.block) s.commits
  unfolding commit advance loop_head
  commit-commits e1 t1 s = elim (Bool-cases (s.current_block_number == s.latest_known_block)) [
    | inl e ↦ rw e refl
    | inr e ↦ rw e refl
  ]

  -- While the run waits behind block `latest`, which is committed: if `getBlockNumber` throws and
  -- the next transaction succeeds, the block is committed a second time.
  pub lost_wait-commits_again :
      (time latest waits : ℕ) (s : State) (e1 : ℤ) (t1 : ℕ)
      → CaughtUp latest waits s
      → reaches latest (autostop fill_stop) ≡ false
      → env.head time ≡ none
      → env.process
          (suc time)
          s.current_block_number
          s.last_inserted_posdao_epoch
          s.block_before_timestamp
        ≡ some (e1, t1)
      → map (λ c. c.block) (drive fill_stop env 2 time s).commits
        ≡ latest ∷ map (λ c. c.block) s.commits
  unfolding drive losing
  lost_wait-commits_again time latest waits s e1 t1 (p, c, l, w) open_block h done =
      let here = subst (λ n. reaches n (autostop fill_stop) ≡ false) (sym c) open_block in
      let known = subst (λ n. reaches n (autostop fill_stop) ≡ false) (sym l) open_block in
      let first = turn-lost time s p (omega arith) here h in
      let second =
        ap (turn fill_stop env (suc time)) first
        ∙ turn_done fill_stop env (suc time) (losing s) e1 t1 (refl, omega arith, known) done in
      ap (λ u. map (λ c. c.block) u.commits) second
      ∙ (commit-commits e1 t1 (losing s) ∙ ap (λ n. n ∷ map (λ c. c.block) s.commits) c)
