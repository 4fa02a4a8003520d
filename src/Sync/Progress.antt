-- ===== src/Sync/Progress.antt =====
-- That the loop catches up with the chain, and ends after the stop block.
use diamond_dev_tools.Prelude.{
  ℕ, zero, suc, ◌+◌, ◌≤◌, ◌<◌, arith, ◌≡◌, refl, sym, subst, ap, ◌∙◌, true, false, Option, none,
  some, leb, ◌==◌, nat_eq, if◌then◌else◌, Option-cases, inl, inr,
}
use diamond_dev_tools.Prelude.Int.{ℤ}
use diamond_dev_tools.Sync.{
  processing, waiting, stopped, State, Environment, loop_head, advance, commit, attempt_block, turn,
  drive, reaches, autostop,
}

-- From every time on there is one at which a block's transaction succeeds.
abbrev pub Recovers : Environment → Type 0
Recovers env =
    (time : ℕ)
    → (delay : ℕ) × ((block : ℕ) (epoch : ℤ) (before : ℕ)
        → (result : ℤ × ℕ) × (env.process (time + delay) block epoch before ≡ some result))

pub reaches_before :
    (a b : ℕ) (bound : Option ℕ) → a ≤ b → reaches b bound ≡ false → reaches a bound ≡ false
reaches_before a b none le h = refl
reaches_before a b (some c) le h = ground arith

-- The loop waits behind the last block that it knows.
abbrev pub CaughtUp : (latest lost : ℕ) → State → Type 0
CaughtUp latest lost c =
    (c.phase ≡ waiting)
    × (c.current_block_number ≡ latest)
    × (c.latest_known_block ≡ latest)
    × (c.lost_waits ≡ lost)

CaughtUp-transfer : {m n k l : ℕ} (c : State) → m ≡ k → n ≡ l → CaughtUp m n c → CaughtUp k l c
CaughtUp-transfer c e f (p, b, l, w) = (p, b ∙ e, l ∙ e, w ∙ f)

module _ (fill_stop : Option ℕ) (env : Environment) where
  -- A block is known, and it is not past the stop block.
  abbrev pub Ready : State → Type 0
  Ready s =
      (s.phase ≡ processing)
      × (s.current_block_number ≤ s.latest_known_block)
      × (reaches s.latest_known_block (autostop fill_stop) ≡ false)

  drive_add :
      (a b time : ℕ) (s : State)
      → drive fill_stop env (a + b) time s
        ≡ drive fill_stop env b (time + a) (drive fill_stop env a time s)
  unfolding drive
  drive_add zero b time s =
      let front : 0 + b ≡ b = omega arith in
      let back : time ≡ time + 0 = omega arith in
      ap (λ n. drive fill_stop env n time s) front ∙ ap (λ n. drive fill_stop env b n s) back
  drive_add (suc a) b time s =
      let front : suc a + b ≡ suc (a + b) = omega arith in
      ap (λ n. drive fill_stop env n time s) front
      ∙ (drive_add a b (suc time) (turn fill_stop env time s)
          ∙ ap
              (λ n.
                drive fill_stop env b n
                  (drive fill_stop env a (suc time) (turn fill_stop env time s)))
              (omega arith))

  loop_head-Ready : (s : State) → Ready s → loop_head fill_stop s ≡ s
  unfolding loop_head
  loop_head-Ready s (p, le, stop) = ap (λ q. record s { phase = q }) (open_phase ∙ sym p)
    where
      open_phase :
          (if leb s.current_block_number s.latest_known_block
            then if reaches s.current_block_number (autostop fill_stop) then stopped else processing
            else stopped)
          ≡ processing
      open_phase =
          let known : leb s.current_block_number s.latest_known_block ≡ true = ground arith in
          rw (known, reaches_before _ _ (autostop fill_stop) le stop) refl

  turn-processing :
      (time : ℕ) (s : State)
      → s.phase ≡ processing
      → turn fill_stop env time s
        ≡ attempt_block fill_stop
            (env.process time s.current_block_number s.last_inserted_posdao_epoch
              s.block_before_timestamp)
            s
  unfolding turn
  turn-processing time s p = simp (p, turn) refl

  -- A block that failed is tried again with the same variables.
  turn_failed :
      (time : ℕ) (s : State)
      → Ready s
      → env.process time s.current_block_number s.last_inserted_posdao_epoch
          s.block_before_timestamp
        ≡ none
      → turn fill_stop env time s ≡ s
  unfolding attempt_block
  turn_failed time s ready h =
      turn-processing time s ready.0
      ∙ (ap (λ o. attempt_block fill_stop o s) h ∙ loop_head-Ready s ready)

  pub turn_done :
      (time : ℕ) (s : State) (e1 : ℤ) (t1 : ℕ)
      → Ready s
      → env.process time s.current_block_number s.last_inserted_posdao_epoch
          s.block_before_timestamp
        ≡ some (e1, t1)
      → turn fill_stop env time s ≡ commit fill_stop e1 t1 s
  unfolding attempt_block
  turn_done time s e1 t1 ready h =
      turn-processing time s ready.0 ∙ ap (λ o. attempt_block fill_stop o s) h

  abbrev pub Answers : ℕ → Type 0
  Answers time =
      (block : ℕ) (epoch : ℤ) (before : ℕ)
      → (result : ℤ × ℕ) × (env.process time block epoch before ≡ some result)

  -- The transaction of the current block is tried until it succeeds.
  retry :
      (delay time : ℕ) (s : State)
      → Ready s
      → Answers (time + delay)
      → (turns : ℕ) × (result : ℤ × ℕ) × (drive fill_stop env turns time s
          ≡ commit fill_stop result.0 result.1 s)
  unfolding drive
  retry zero time s ready h =
      let (result, done) = subst Answers (omega arith) h s.current_block_number _ _ in
      (1, result, turn_done time s result.0 result.1 ready done)
  retry (suc delay) time s ready h =
      let (turns, result, e) = retry delay (suc time) s ready (subst Answers (omega arith) h) in
      elim (Option-cases (
        env.process time s.current_block_number s.last_inserted_posdao_epoch
          s.block_before_timestamp)) [
            | inr ((e1, t1), done) ↦ (1, (e1, t1), turn_done time s e1 t1 ready done)
            | inl failed ↦ (
              suc turns,
              result,
              ap (drive fill_stop env turns (suc time)) (turn_failed time s ready failed) ∙ e,
            )
          ]

  commit-last :
      (e1 : ℤ) (t1 : ℕ) (s : State)
      → s.current_block_number ≡ s.latest_known_block
      → CaughtUp s.latest_known_block s.lost_waits (commit fill_stop e1 t1 s)
  unfolding commit
  commit-last e1 t1 s at_end =
      let tested : (s.current_block_number == s.latest_known_block) ≡ true = ground arith in
      rw tested (refl, at_end, refl, refl)

  commit-more :
      (e1 : ℤ) (t1 : ℕ) (s : State)
      → Ready s
      → s.current_block_number < s.latest_known_block
      → (let c = commit fill_stop e1 t1 s in
          Ready c
          × (c.current_block_number ≡ suc s.current_block_number)
          × (c.latest_known_block ≡ s.latest_known_block)
          × (c.lost_waits ≡ s.lost_waits))
  unfolding commit advance loop_head
  commit-more e1 t1 s (p, le, stop) more =
      let tested : (s.current_block_number == s.latest_known_block) ≡ false = ground arith in
      let known : leb (suc s.current_block_number) s.latest_known_block ≡ true = ground arith in
      let open_block =
        reaches_before (suc s.current_block_number) _ (autostop fill_stop) more stop in
      rw (tested, known, open_block) ((refl, more, stop), refl, refl, refl)

  pub drive_after :
      (turns more time : ℕ) (s c : State)
      → drive fill_stop env turns time s ≡ c
      → drive fill_stop env (turns + more) time s ≡ drive fill_stop env more (time + turns) c
  drive_after turns more time s c e =
      drive_add turns more time s ∙ ap (drive fill_stop env more (time + turns)) e

  -- The loop reaches the head of the chain that it knows.
  pub catch_up :
      (distance time : ℕ) (s : State)
      → Recovers env
      → Ready s
      → s.current_block_number + distance ≡ s.latest_known_block
      → (turns : ℕ) × CaughtUp s.latest_known_block s.lost_waits (drive fill_stop env turns time s)
  catch_up zero time s recovers ready e =
      let (turns, result, done) = retry (recovers time).0 time s ready (recovers time).1 in
      (
        turns,
        subst (CaughtUp s.latest_known_block s.lost_waits) (sym done)
            (commit-last result.0 result.1 s (omega arith)),
      )
  catch_up (suc distance) time s recovers ready e =
      let (turns, result, done) = retry (recovers time).0 time s ready (recovers time).1 in
      let c = commit fill_stop result.0 result.1 s in
      let (ready2, current, latest, lost) = commit-more result.0 result.1 s ready (omega arith) in
      let (more, there) = catch_up distance (time + turns) c recovers ready2 (omega arith) in
      (
        turns + more,
        subst (CaughtUp s.latest_known_block s.lost_waits)
            (sym (drive_after turns more time s c done))
            (CaughtUp-transfer (drive fill_stop env more (time + turns) c) latest lost there),
      )
