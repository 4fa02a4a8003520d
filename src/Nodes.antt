-- ===== src/Nodes.antt =====
-- The node processes of src/net/nodeManager.ts (`NodeState`). A child process is a number; those that
-- run have the listeners of their "close" event: the one of `start`, with its `force`, and those of
-- `stop`. Spawning, the signal and the process itself belong to Node and the operating system; that
-- a process closes is a step, which its program may take at any time.
pub mod Lifecycle
pub mod Stopped
pub mod Restart
pub mod Selection
pub mod Chosen
pub mod Examples
use diamond_dev_tools.Prelude.{
  ℕ, zero, suc, Bool, true, false, not, ◌&&◌, Option, none, some, List, [], ◌∷◌, ◌++◌, any, filter,
  map, Text, ◌==◌, nat_eq, if◌then◌else◌,
}

pub record Process : Type 0 where
  pub pid : ℕ
  pub start_force : Bool
  -- How many listeners calls of `stop` have added.
  pub stop_listeners : ℕ

pub record NodeState : Type 0 where
  pub node_id : ℕ
  pub public_key : Option Text
  pub address : Option Text
  pub is_started : Bool
  pub is_deactivated : Bool
  pub is_shutting_down : Bool
  pub restart_after_shutdown : Bool
  pub child_process : Option ℕ
  -- The processes of the node that run, and the number of the next one.
  pub running : List Process
  pub next_pid : ℕ

pub data CallOutcome : Type 0 where
  done : CallOutcome
  ignored : CallOutcome
  throws : CallOutcome
  -- A call of `stop` that waits for the process to close.
  waits_for : ℕ → CallOutcome

unfoldable pub new_node : ℕ → Option Text → Option Text → NodeState
new_node id public_key address = record {
  node_id = id;
  public_key = public_key;
  address = address;
  is_started = false;
  is_deactivated = false;
  is_shutting_down = false;
  restart_after_shutdown = true;
  child_process = none;
  running = [];
  next_pid = 0;
}

unfoldable pub spawn : Bool → NodeState → NodeState
spawn force n = record n {
  is_started = true;
  child_process = some n.next_pid;
  running = record { pid = n.next_pid; start_force = force; stop_listeners = 0 } ∷ n.running;
  next_pid = suc n.next_pid;
}

unfoldable pub start : (force : Bool) → NodeState → CallOutcome × NodeState
unfolding spawn
start force n =
    if n.is_deactivated
    then (ignored, n)
    else if n.is_started && not force
    then (throws, n)
    else (done, spawn force n)

abbrev pub listen : ℕ → List Process → List Process
listen pid [] = []
listen pid (p ∷ ps) =
    (if p.pid == pid then record p { stop_listeners = suc p.stop_listeners } else p) ∷ listen pid ps

abbrev pub stop_child : Option ℕ → NodeState → CallOutcome × NodeState
stop_child none n = (throws, n)
stop_child (some pid) n =
    (waits_for pid, record n { is_shutting_down = true; running = listen pid n.running })

-- Up to the loop that waits. A process that is closed already does not emit the event again.
unfoldable pub stop : (force : Bool) → NodeState → CallOutcome × NodeState
stop force n = if not n.is_started && not force then (throws, n) else stop_child n.child_process n

-- `stop` is not awaited: what it throws is lost.
unfoldable pub deactivate : NodeState → NodeState
unfolding stop
deactivate n = record ((stop false n).1) { is_deactivated = true }

-- The listener of `start`.
unfoldable pub restart : Bool → NodeState → NodeState
unfolding start
restart force n =
    if n.restart_after_shutdown && not n.is_shutting_down
    then (start force (record n { is_started = false })).1
    else n

-- The listeners of `stop`.
abbrev pub stopped : ℕ → NodeState → NodeState
stopped zero n = n
stopped (suc k) n = record n { is_started = false }

abbrev pub find : ℕ → List Process → Option Process
find pid [] = none
find pid (p ∷ ps) = if p.pid == pid then some p else find pid ps

-- The listeners run in the order in which they were added.
abbrev pub on_close : ℕ → Option Process → NodeState → NodeState
on_close pid none n = n
on_close pid (some p) n =
    stopped p.stop_listeners
      (restart p.start_force (record n { running = filter (λ q. not (q.pid == pid)) n.running }))

unfoldable pub close : ℕ → NodeState → NodeState
unfolding restart
close pid n = on_close pid (find pid n.running) n

pub data Action : Type 0 where
  starts : Bool → Action
  stops : Bool → Action
  deactivates : Action
  closes : ℕ → Action

unfoldable pub act : Action → NodeState → NodeState
unfolding start stop deactivate close
act (starts force) n = (start force n).1
act (stops force) n = (stop force n).1
act deactivates n = deactivate n
act (closes pid) n = close pid n

unfoldable pub act_all : List Action → NodeState → NodeState
unfolding act
act_all [] n = n
act_all (a ∷ rest) n = act_all rest (act a n)
