-- ===== src/Nodes/Examples.antt =====
-- A node that is stopped once and ends later, and a choice among three nodes.
use diamond_dev_tools.Prelude.{
  ℕ, ◌+◌, ◌≤◌, ◌≡◌, ◌≢◌, refl, true, false, not, ◌&&◌, none, some, List, [], ◌∷◌, any, filter,
  length, list_beq, if◌then◌else◌,
}
use diamond_dev_tools.Ether.{lower_char}
use diamond_dev_tools.Nodes.{
  done, Process, NodeState, new_node, start, stop, close, Action, starts, stops, closes, act_all,
}
use diamond_dev_tools.Nodes.Lifecycle.{act_all-one_process}
use diamond_dev_tools.Nodes.Restart.{close-never_again, act_all-restarts}
use diamond_dev_tools.Nodes.Selection.{RemotnetArgs, has_target, get_nodes_from_cli_args}
use diamond_dev_tools.Nodes.Chosen.{names_nodes, is_other, chosen, get_nodes_from_cli_args-chosen}

abbrev life : List Action
life = starts false ∷ stops false ∷ closes 0 ∷ starts false ∷ []

abbrev reached : NodeState
unfolding act_all new_node
reached = act_all life (new_node 3 none none)

abbrev second : Process
second = record { pid = 1; start_force = false; stop_listeners = 0 }

life_test : reached.running ≡ second ∷ []
unfolding reached act_all new_node
life_test = refl

act_all-one_process_example :
    (length (act_all life (new_node 3 none none)).running ≤ 1)
    × ((p : Process)
        → (act_all life (new_node 3 none none)).running ≡ p ∷ []
        → ((act_all life (new_node 3 none none)).child_process ≡ some p.pid)
          × ((act_all life (new_node 3 none none)).is_started ≡ true))
act_all-one_process_example = act_all-one_process 3 none none life (refl, (refl, (tt, (refl, tt))))

act_all-restarts_example :
    length
      (act_all
        (starts false ∷ closes 0 ∷ starts false ∷ closes 1 ∷ [])
        (new_node 3 none none)).running
    ≡ 1
act_all-restarts_example =
    act_all-restarts 3 none none (closes 0 ∷ starts false ∷ closes 1 ∷ []) (tt, (refl, (tt, tt)))

close-never_again_example :
    (let closed = close 1 (
        act_all
          (closes 0 ∷ starts false ∷ [])
          (stop false (act_all (starts false ∷ []) (new_node 3 none none))).1) in
      ((act_all (starts false ∷ stops false ∷ []) closed).running ≡ [])
      × ((start false (act_all (starts false ∷ stops false ∷ []) closed)).0 ≢ done))
unfolding act_all new_node
close-never_again_example =
    close-never_again 3 none none (starts false ∷ []) (closes 0 ∷ starts false ∷ [])
      (starts false ∷ stops false ∷ []) 0 second (refl, tt) (tt, (refl, tt)) (refl, (refl, tt)) refl
      refl refl

abbrev numbered : ℕ → NodeState
unfolding new_node
numbered id = new_node id none (some (b'0' ∷ b'x' ∷ (id + 48) ∷ []))

-- `-m 0x2` and nothing else.
abbrev mining_only : RemotnetArgs
mining_only = record {
  only_unavailable = false;
  only_available = false;
  skip_current = false;
  current = false;
  all = false;
  sshnode = none;
  nsshnode = none;
  mining_address = some (b'0' ∷ b'X' ∷ b'2' ∷ []);
  version = none;
}

-- `-s "1 - 1" -m 0X2`.
abbrev by_name : RemotnetArgs
by_name = record mining_only { sshnode = some (b'1' ∷ 32 ∷ b'-' ∷ 32 ∷ b'1' ∷ []) }

abbrev nodes : List NodeState
unfolding numbered
nodes = numbered 1 ∷ numbered 2 ∷ numbered 3 ∷ []

mining_only_test :
    get_nodes_from_cli_args (λ a. some false) (λ a. some true) (λ name. some []) mining_only nodes
    ≡ none
unfolding get_nodes_from_cli_args nodes numbered new_node list_beq lower_char
mining_only_test = refl

by_name_test :
    get_nodes_from_cli_args (λ a. some false) (λ a. some true) (λ name. some []) by_name nodes
    ≡ some (numbered 1 ∷ numbered 2 ∷ [])
unfolding get_nodes_from_cli_args nodes numbered new_node list_beq lower_char
by_name_test = refl

get_nodes_from_cli_args-chosen_example :
    get_nodes_from_cli_args (λ a. some false) (λ a. some true) (λ name. some []) by_name nodes ≡ (
      if has_target by_name
        && not (
            not (names_nodes by_name (λ a. false) (λ a. true) (λ name. []))
            && any (is_other by_name (λ a. false) (λ a. true) (λ name. [])) nodes)
      then some (filter (chosen by_name (λ a. false) (λ a. true) (λ name. [])) nodes)
      else none)
get_nodes_from_cli_args-chosen_example =
    get_nodes_from_cli_args-chosen by_name (λ a. false) (λ a. true) (λ name. []) nodes
