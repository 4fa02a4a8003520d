-- ===== src/Sync/Order.antt =====
-- In which order blocks are committed, with which values, and how often.
use diamond_dev_tools.Prelude.{
  ℕ, zero, suc, ◌+◌, arith, ◌≡◌, refl, subst, Bool, Option, none, some, List, [], ◌∷◌, length, ltb,
  leb, ◌==◌, nat_eq, if◌then◌else◌, Bool-cases, inl, inr, ◌⊎◌,
}
use diamond_dev_tools.Prelude.Int.{ℤ, ltb_ℤ}
use diamond_dev_tools.Sync.{
  Commit, Phase, processing, waiting, stopped, State, Environment, loop_head, first_latest,
  start_run, advance, commit, lose_wait, poll, attempt_block, turn, drive, first_block, reaches,
  autostop,
}

abbrev pub max_epoch : ℤ → ℤ → ℤ
max_epoch a b = if ltb_ℤ a b then b else a

-- The commits of a run from `start`, the last first. `next` is the first block without a commit, and
-- each commit was made with the highest epoch and the last timestamp of those before it.
pub data Journal (start : ℕ) (epoch : ℤ) (before : ℕ)
    : (next : ℕ) → (epoch_now : ℤ) → (before_now : ℕ) → List Commit → Type 0 where
  starts : Journal start epoch before start epoch before []
  goes_on :
      {n b : ℕ} {e : ℤ} {cs : List Commit} (e1 : ℤ) (t1 : ℕ)
      → Journal start epoch before n e b cs
      → Journal start epoch before (suc n) (max_epoch e e1) t1 (
          record { block = n; epoch_at_start = e; before = b; posdao_epoch = e1; timestamp = t1 }
          ∷ cs)
  repeats :
      {n b : ℕ} {e : ℤ} {cs : List Commit} (e1 : ℤ) (t1 : ℕ)
      → Journal start epoch before (suc n) e b cs
      → Journal start epoch before (suc n) (max_epoch e e1) t1 (
          record { block = n; epoch_at_start = e; before = b; posdao_epoch = e1; timestamp = t1 }
          ∷ cs)

Phase-cases : (p : Phase) → (p ≡ processing) ⊎ ((p ≡ waiting) ⊎ (p ≡ stopped))
Phase-cases processing = inl refl
Phase-cases waiting = inr (inl refl)
Phase-cases stopped = inr (inr refl)

module _ (start : ℕ) (epoch : ℤ) (before : ℕ) where
  -- Before or after the current block, which is committed already where a wait for the next block
  -- was lost. A block is committed once, and once more for each wait that was lost.
  pub record Between (s : State) : Type 0 where
    pub next : ℕ
    pub journal :
        Journal start epoch before next s.last_inserted_posdao_epoch s.block_before_timestamp
          s.commits
    pub next_or_last : (next ≡ s.current_block_number) ⊎ (next ≡ suc s.current_block_number)
    pub counted : length s.commits + start ≡ s.current_block_number + s.lost_waits

  -- While the loop waits, the current block is committed.
  pub record Behind (s : State) : Type 0 where
    pub journal :
        Journal start epoch before
          (suc s.current_block_number)
          s.last_inserted_posdao_epoch
          s.block_before_timestamp
          s.commits
    pub counted : length s.commits + start ≡ suc s.current_block_number + s.lost_waits

  abbrev pub OrderlyIn : Phase → State → Type 0
  OrderlyIn processing s = Between s
  OrderlyIn waiting s = Behind s
  OrderlyIn stopped s = Between s

  abbrev pub Orderly : State → Type 0
  Orderly s = OrderlyIn s.phase s

  loop_head-Orderly :
      (fill_stop : Option ℕ) (s : State) → Between s → Orderly (loop_head fill_stop s)
  unfolding loop_head
  loop_head-Orderly fill_stop s h =
      elim (Bool-cases (leb s.current_block_number s.latest_known_block)) [
        | inl le ↦ elim (Bool-cases (reaches s.current_block_number (autostop fill_stop))) [
          | inl r ↦ rw (le, r) (kept s h)
          | inr r ↦ rw (le, r) (kept s h)
        ]
        | inr gt ↦ rw gt (kept s h)
      ]
    where
      kept : (s : State) {phase : Phase} → Between s → Between (record s { phase = phase })
      kept s b = record {
        next = b.next;
        journal = b.journal;
        next_or_last = b.next_or_last;
        counted = b.counted;
      }

  advance-Orderly : (fill_stop : Option ℕ) (s : State) → Behind s → Orderly (advance fill_stop s)
  unfolding advance
  advance-Orderly fill_stop s h =
      loop_head-Orderly fill_stop (record s { current_block_number = suc s.current_block_number })
        (record {
          next = suc s.current_block_number;
          journal = h.journal;
          next_or_last = inl refl;
          counted = h.counted;
        })

  lose_wait-Orderly :
      (fill_stop : Option ℕ) (s : State) → Behind s → Orderly (lose_wait fill_stop s)
  unfolding lose_wait
  lose_wait-Orderly fill_stop s h =
      loop_head-Orderly fill_stop (record s { lost_waits = suc s.lost_waits })
        (record {
          next = suc s.current_block_number;
          journal = h.journal;
          next_or_last = inr refl;
          counted = omega (arith, h.counted);
        })

  poll-Orderly :
      (fill_stop : Option ℕ) (fetched : Bool) (answer : Option ℕ) (s : State)
      → s.phase ≡ waiting
      → Behind s
      → Orderly (poll fill_stop fetched answer s)
  unfolding poll
  poll-Orderly fill_stop fetched none s e h = lose_wait-Orderly fill_stop s h
  poll-Orderly fill_stop fetched (some n) s e h = elim (Bool-cases (ltb s.current_block_number n)) [
    | inl later ↦ elim (Bool-cases fetched) [
      | inl f ↦ rw (later, f) (advance-Orderly fill_stop _ (known n))
      | inr f ↦ rw (later, f) (lose_wait-Orderly fill_stop _ (known n))
    ]
    | inr old ↦ elim (Bool-cases (s.current_block_number == n)) [
      | inl same ↦ rw (old, same) (rw e (known_waiting n))
      | inr below ↦ rw (old, below) (advance-Orderly fill_stop _ (known n))
    ]
  ]
    where
      known : (n : ℕ) → Behind (record s { latest_known_block = n })
      known n = record { journal = h.journal; counted = h.counted }

      known_waiting : (n : ℕ) → Behind (record s { latest_known_block = n; phase = waiting })
      known_waiting n = record { journal = h.journal; counted = h.counted }

  commit-Behind :
      (e1 : ℤ) (t1 : ℕ) (s : State) {phase : Phase}
      → Between s
      → Behind (record s {
        last_inserted_posdao_epoch = max_epoch s.last_inserted_posdao_epoch e1;
        block_before_timestamp = t1;
        commits =
            record {
              block = s.current_block_number;
              epoch_at_start = s.last_inserted_posdao_epoch;
              before = s.block_before_timestamp;
              posdao_epoch = e1;
              timestamp = t1;
            }
            ∷ s.commits;
        phase = phase;
      })
  commit-Behind e1 t1 s h = record {
    journal = elim h.next_or_last [
      | inl e ↦ goes_on e1 t1 (rw e at h.journal)
      | inr e ↦ repeats e1 t1 (rw e at h.journal)
    ];
    counted = omega (arith, h.counted);
  }

  commit-Orderly :
      (fill_stop : Option ℕ) (e1 : ℤ) (t1 : ℕ) (s : State)
      → Between s
      → Orderly (commit fill_stop e1 t1 s)
  unfolding commit
  commit-Orderly fill_stop e1 t1 s h =
      elim (Bool-cases (s.current_block_number == s.latest_known_block)) [
        | inl at_end ↦ rw at_end (commit-Behind e1 t1 s h)
        | inr more ↦
            rw more (advance-Orderly fill_stop _ (commit-Behind e1 t1 s {phase = s.phase} h))
      ]

  attempt_block-Orderly :
      (fill_stop : Option ℕ) (outcome : Option (ℤ × ℕ)) (s : State)
      → Between s
      → Orderly (attempt_block fill_stop outcome s)
  unfolding attempt_block
  attempt_block-Orderly fill_stop none s h = loop_head-Orderly fill_stop s h
  attempt_block-Orderly fill_stop (some (e1, t1)) s h = commit-Orderly fill_stop e1 t1 s h

  turn-Orderly :
      (fill_stop : Option ℕ) (env : Environment) (time : ℕ) (s : State)
      → Orderly s
      → Orderly (turn fill_stop env time s)
  unfolding turn
  turn-Orderly fill_stop env time s h = elim (Phase-cases s.phase) [
    | inl e ↦
        rw (e, turn)
          (attempt_block-Orderly fill_stop
            (env.process time s.current_block_number s.last_inserted_posdao_epoch
              s.block_before_timestamp)
            s (subst (λ p. OrderlyIn p s) e h))
    | inr (inl e) ↦
        rw (e, turn)
          (poll-Orderly fill_stop (env.fetches time) (env.head time) s e
            (subst (λ p. OrderlyIn p s) e h))
    | inr (inr e) ↦ rw (e, turn) h
  ]

  drive-kept :
      (fill_stop : Option ℕ) (env : Environment) (turns time : ℕ) (s : State)
      → Orderly s
      → Orderly (drive fill_stop env turns time s)
  unfolding drive
  drive-kept fill_stop env zero time s h = h
  drive-kept fill_stop env (suc turns) time s h =
      drive-kept fill_stop env turns (suc time) (turn fill_stop env time s)
        (turn-Orderly fill_stop env time s h)

-- After any number of turns, whatever the chain and the database answer: the blocks from the first
-- on are committed one after the other with none left out, each with the highest epoch and the last
-- timestamp that were committed before it. There are as many transactions as blocks and waits
-- that ended in an exception, after each of which the last block may be committed once more.
pub drive-Orderly :
    (fill_start fill_stop last_processed : Option ℕ) (head : ℕ) (epoch : ℤ) (before : ℕ)
    (env : Environment) (turns : ℕ)
    → Orderly (first_block fill_start last_processed) epoch before (
        drive fill_stop env turns 0
          (start_run fill_start fill_stop last_processed head epoch before))
unfolding start_run
drive-Orderly fill_start fill_stop last_processed head epoch before env turns =
    let start = first_block fill_start last_processed in
    drive-kept start epoch before fill_stop env turns 0
      (start_run fill_start fill_stop last_processed head epoch before)
      (loop_head-Orderly start epoch before fill_stop
        (record {
          current_block_number = start;
          latest_known_block = first_latest fill_stop head;
          last_inserted_posdao_epoch = epoch;
          block_before_timestamp = before;
          phase = processing;
          commits = [];
          lost_waits = 0;
        })
        (record { next = start; journal = starts; next_or_last = inl refl; counted = omega arith }))
