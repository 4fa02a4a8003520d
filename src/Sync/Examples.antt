-- ===== src/Sync/Examples.antt =====
-- A run from block 5 to the stop block 6, in which the first transaction fails.
use diamond_dev_tools.Prelude.{
  ℕ, ◌+◌, ◌*◌, arith, ◌≡◌, refl, true, false, none, some, [], ◌∷◌, map, ltb, if◌then◌else◌,
}
use diamond_dev_tools.Prelude.Int.{ℤ, pos, negsuc}
use diamond_dev_tools.Sync.{
  waiting, State, Environment, first_block, start_run, drive, turn, poll, commit, advance,
  lose_wait, loop_head, attempt_block,
}
use diamond_dev_tools.Sync.Order.{Orderly, drive-Orderly}
use diamond_dev_tools.Sync.Progress.{Recovers, CaughtUp}
use diamond_dev_tools.Sync.Ending.{blocks_from, after_turns, run-catches_up}
use diamond_dev_tools.Sync.Repeats.{lost_wait-commits_again}

-- The transaction fails at time 0, and `getBlockNumber` at time 3.
abbrev env : Environment
env = record {
  process = λ time block epoch before. if ltb time 1 then none else some (pos 2, block * 5);
  head = λ time. if ltb time 3 then some 6 else if ltb time 4 then none else some 7;
  fetches = λ time. true;
}

-- The same without an exception while it waits.
abbrev quiet : Environment
quiet = record {
  process = λ time block epoch before. if ltb time 1 then none else some (pos 2, block * 5);
  head = λ time. some 7;
  fetches = λ time. true;
}

first_tries :
    ((after_turns none (some 6) (some 4) 9 (negsuc 0) 20 quiet 4).commits)
    ≡ record {
      block = 6;
      epoch_at_start = pos 2;
      before = 25;
      posdao_epoch = pos 2;
      timestamp = 30;
    }
      ∷ record {
        block = 5;
        epoch_at_start = negsuc 0;
        before = 20;
        posdao_epoch = pos 2;
        timestamp = 25;
      }
      ∷ []
unfolding drive turn attempt_block commit advance loop_head poll lose_wait start_run first_block
first_tries = refl

later_than :
    (time block : ℕ) (epoch : ℤ) (before : ℕ)
    → quiet.process (time + 1) block epoch before ≡ some (pos 2, block * 5)
later_than time block epoch before =
    let late : ltb (time + 1) 1 ≡ false = ground arith in rw late refl

recovers : Recovers quiet
recovers time = (1, λ block epoch before. ((pos 2, block * 5), later_than time block epoch before))

drive-Orderly_example :
    Orderly 5
      (negsuc 0)
      20
      (drive (some 6) env 5 0 (start_run none (some 6) (some 4) 9 (negsuc 0) 20))
unfolding first_block
drive-Orderly_example = drive-Orderly none (some 6) (some 4) 9 (negsuc 0) 20 env 5

run-catches_up_example :
    (turns : ℕ) × CaughtUp 6 0 (after_turns none (some 6) (some 4) 9 (negsuc 0) 20 quiet turns)
    × (map (λ c. c.block) (after_turns none (some 6) (some 4) 9 (negsuc 0) 20 quiet turns).commits
        ≡ blocks_from 5 2)
unfolding first_block
run-catches_up_example =
    run-catches_up none (some 6) (some 4) 9 (negsuc 0) 20 quiet recovers (omega arith)

abbrev waits_behind : State
waits_behind = record {
  current_block_number = 6;
  latest_known_block = 6;
  last_inserted_posdao_epoch = pos 2;
  block_before_timestamp = 30;
  phase = waiting;
  commits = [];
  lost_waits = 0;
}

lost_wait-commits_again_example :
    map (λ c. c.block) (drive (some 6) env 2 3 waits_behind).commits ≡ 6 ∷ []
lost_wait-commits_again_example =
    lost_wait-commits_again (some 6) env 3 6 0 waits_behind (pos 2) 30 (refl, refl, refl, refl) refl
      refl refl
