-- ===== src/Watchdog/Examples.antt =====
-- A pool that is checked again and again.
use diamond_dev_tools.Prelude.{
  ℕ, ap, ◌≢◌, ◌≡◌, refl, arith, true, false, Option, none, some, List, [], ◌∷◌, map, length, Text,
  list_beq,
}
use diamond_dev_tools.Nodes.{new_node, starts, act_all}
use diamond_dev_tools.Watchdog.{
  restart_node, ContractAnswers, may_restart, needs_restart, Event, sees, begins, answered, watch,
  watch_from, finish_next,
}
use diamond_dev_tools.Watchdog.Waiting.{Spaced}
use diamond_dev_tools.Watchdog.Spacing.{watch-Spaced}
use diamond_dev_tools.Watchdog.Overlap.{both_begun, restart_at, overlap-restarts_twice}

abbrev pool : Text
pool = b'p' ∷ []

abbrev mining : Text
mining = b'm' ∷ []

abbrev down : ContractAnswers
down = record {
  is_pool_active = false;
  stake_amount_total = 10;
  candidate_min_stake = 10;
  validator_available_since = 0;
}

abbrev nodes : List (ℕ × Option Text)
nodes = (1, none) ∷ (2, some mining) ∷ []

abbrev other_pool : Text
other_pool = b'q' ∷ b'q' ∷ []

abbrev other_mining : Text
other_mining = b'n' ∷ []

-- Two checks that overlap and are answered the other way round, one too soon, one in the same block,
-- and a second restart.
abbrev events : List Event
events =
    begins (some pool) mining 1000
    ∷ begins (some other_pool) other_mining 1001
    ∷ answered 1 (some down)
    ∷ answered 0 (some down)
    ∷ begins (some pool) mining 2000
    ∷ begins (some pool) mining 70000
    ∷ sees 8
    ∷ begins (some pool) mining 80000
    ∷ answered 0 (some down)
    ∷ []

restarts_test :
    map (λ r. r.time) (watch true nodes events (watch_from 7)).restarts ≡ 80000 ∷ 1000 ∷ 1001 ∷ []
unfolding watch watch_from list_beq
restarts_test = refl

unlike : pool ≢ other_pool
unlike e = omega (arith, ap length e)

watch-Spaced_example : Spaced (watch true nodes events (watch_from 7)).restarts
unfolding watch watch_from list_beq
watch-Spaced_example = watch-Spaced true nodes events 7 (
  (omega arith, tt),
  (
    (omega arith, (unlike, tt)),
    (
      tt,
      (tt, ((omega arith, tt), ((omega arith, tt), (omega arith, ((omega arith, tt), (tt, tt)))))),
    ),
  ),
)

overlap-restarts_twice_example :
    ((finish_next true nodes (some down) (
        finish_next true nodes
          (some down)
          (both_begun nodes pool mining 1000 1001 (watch_from 7)))).restarts
      ≡ restart_at nodes pool mining 1000 1001 (watch_from 7) 1001
        ∷ restart_at nodes pool mining 1000 1001 (watch_from 7) 1000
        ∷ (watch_from 7).restarts)
    × ¬ Spaced
        (finish_next true nodes (some down) (
          finish_next true nodes
            (some down)
            (both_begun nodes pool mining 1000 1001 (watch_from 7)))).restarts
unfolding watch_from may_restart needs_restart
overlap-restarts_twice_example =
    overlap-restarts_twice nodes pool mining 1000 1001 (watch_from 7) down down refl refl refl refl
      refl

-- A restart of a started node: its second process runs, and the node is still shutting down.
restart_node_test :
    (map (λ p. p.pid) (restart_node (act_all (starts false ∷ []) (new_node 3 none none))).running
      ≡ 1 ∷ [])
    × ((restart_node (act_all (starts false ∷ []) (new_node 3 none none))).is_shutting_down ≡ true)
unfolding restart_node act_all new_node
restart_node_test = (refl, refl)
