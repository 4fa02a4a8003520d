-- ===== src/Nodes/Restart.antt =====
-- A node whose process ends by itself: before and after it was told to stop once.
use diamond_dev_tools.Prelude.{
  ℕ, ◌≡◌, ◌≢◌, refl, sym, ap, subst, ◌∙◌, true, false, not, ◌&&◌, Option, none, some, List, [], ◌∷◌,
  inl, inr, length, filter, Text, All, ◌==◌, nat_eq, if◌then◌else◌, Bool-cases,
}
use diamond_dev_tools.Nodes.{
  CallOutcome, waits_for, throws, done, ignored, Process, NodeState, new_node, spawn, start, stop,
  restart, stopped, find, on_close, close, Action, starts, stops, deactivates, closes, act, act_all,
}
use diamond_dev_tools.Nodes.Lifecycle.{Unforced, One, act_all-IsSingle, stop-IsSingle}
use diamond_dev_tools.Nodes.Stopped.{close-IsDead_after, act_all-IsDown, stopping-IsDown}

-- A node is told to stop at some time, and the call does not throw. Later a process of it runs for
-- which nobody waits, so the node was started again since; it ends by itself. Then no process of the
-- node runs any more, whatever starts, stops, deactivations and ends follow, and each further start
-- fails. All calls are without force.
pub close-never_again :
    (id : ℕ) (public_key address : Option Text) (before after more : List Action) (pid : ℕ)
    (p : Process)
    → All Unforced before
    → All Unforced after
    → All Unforced more
    → (stop false (act_all before (new_node id public_key address))).0 ≡ waits_for pid
    → (act_all after (stop false (act_all before (new_node id public_key address))).1).running
      ≡ p ∷ []
    → p.stop_listeners ≡ 0
    → (let closed =
          close p.pid
            (act_all after (stop false (act_all before (new_node id public_key address))).1) in
        ((act_all more closed).running ≡ []) × ((start false (act_all more closed)).0 ≢ done))
unfolding new_node
close-never_again id public_key address before after more pid p ub ua um stopping only quiet =
    let fresh = new_node id public_key address in
    let told = (stop false (act_all before fresh)).1 in
    let m = act_all after told in
    let single : One (p ∷ []) m.child_process m.is_started m.is_shutting_down =
      subst (λ l. One l m.child_process m.is_started m.is_shutting_down) only
        (act_all-IsSingle after told ua
          (stop-IsSingle (act_all before fresh) (act_all-IsSingle before fresh ub tt))) in
    close-IsDead_after m p more only single.1
      (act_all-IsDown after told (stopping-IsDown (act_all before fresh) pid stopping)) quiet um

-- A node that was neither told to stop nor deactivated, with one process.
abbrev IsKept : NodeState → Type 0
IsKept n =
    (n.is_started ≡ true)
    × (n.is_shutting_down ≡ false)
    × (n.is_deactivated ≡ false)
    × (n.restart_after_shutdown ≡ true)
    × ((p : Process) × (n.running ≡ p ∷ []) × (p.start_force ≡ false) × (p.stop_listeners ≡ 0))

-- Starts without force, and ends of processes.
abbrev pub StartsOrCloses : Action → Type 0
StartsOrCloses (starts force) = force ≡ false
StartsOrCloses (stops force) = ⊥
StartsOrCloses deactivates = ⊥
StartsOrCloses (closes pid) = Unit

abbrev LeavesKept : CallOutcome × NodeState → Type 0
LeavesKept r = IsKept r.1

start-IsKept : (n : NodeState) → IsKept n → IsKept (start false n).1
unfolding start
start-IsKept n (up, quiet, on, keep, p) =
    subst
      (λ b. LeavesKept (
        if b
        then (ignored, n)
        else if n.is_started && true
        then (throws, n)
        else (done, spawn false n)))
      (sym on)
      (subst (λ b. LeavesKept (if b && true then (throws, n) else (done, spawn false n))) (sym up)
        (up, quiet, on, keep, p))

restart-IsKept :
    (n : NodeState)
    → n.is_shutting_down ≡ false
    → n.is_deactivated ≡ false
    → n.restart_after_shutdown ≡ true
    → n.running ≡ []
    → IsKept (restart false n)
unfolding restart start spawn
restart-IsKept n quiet on keep empty =
    subst (λ b. IsKept (if b then (start false (record n { is_started = false })).1 else n))
      (sym (ap (λ b. b && not n.is_shutting_down) keep ∙ ap not quiet))
      (subst
        (λ b. LeavesKept (
          if b
          then (ignored, record n { is_started = false })
          else (done, spawn false (record n { is_started = false }))))
        (sym on)
        (
          refl,
          quiet,
          on,
          keep,
          (
            record { pid = n.next_pid; start_force = false; stop_listeners = 0 },
            ap (λ l. record { pid = n.next_pid; start_force = false; stop_listeners = 0 } ∷ l)
                empty,
            refl,
            refl,
          ),
        ))

close-IsKept : (pid : ℕ) (n : NodeState) → IsKept n → IsKept (close pid n)
unfolding close
close-IsKept pid n (up, quiet, on, keep, (p, only, unforced, alone)) =
    elim (Bool-cases (p.pid == pid)) [
      | inr other ↦
          subst (λ o. IsKept (on_close pid o n))
            (sym (ap (find pid) only ∙ ap (λ b. if b then some p else none) other))
            (up, quiet, on, keep, (p, only, unforced, alone))
      | inl same ↦
          let n' : NodeState = record n { running = filter (λ q. not (q.pid == pid)) n.running } in
          let left : n'.running ≡ [] =
            ap (filter (λ q. not (q.pid == pid))) only
            ∙ ap (λ b. if not b then p ∷ [] else []) same in
          subst (λ o. IsKept (on_close pid o n))
            (sym (ap (find pid) only ∙ ap (λ b. if b then some p else none) same))
            (subst (λ k. IsKept (stopped k (restart p.start_force n'))) (sym alone)
              (subst (λ f. IsKept (restart f n')) (sym unforced)
                (restart-IsKept n' quiet on keep left)))
    ]

act_all-IsKept :
    (actions : List Action) (n : NodeState)
    → All StartsOrCloses actions
    → IsKept n
    → IsKept (act_all actions n)
unfolding act_all act
act_all-IsKept [] n u h = h
act_all-IsKept (starts force ∷ actions) n (u, us) h =
    act_all-IsKept actions (start force n).1 us
      (subst (λ f. IsKept (start f n).1) (sym u) (start-IsKept n h))
act_all-IsKept (stops force ∷ actions) n (u, us) h = absurd u
act_all-IsKept (deactivates ∷ actions) n (u, us) h = absurd u
act_all-IsKept (closes pid ∷ actions) n (u, us) h =
    act_all-IsKept actions (close pid n) us (close-IsKept pid n h)

-- A node that was started without force and was never told to stop has exactly one process, however
-- often its process ends and it is started again without force.
pub act_all-restarts :
    (id : ℕ) (public_key address : Option Text) (actions : List Action)
    → All StartsOrCloses actions
    → length (act_all (starts false ∷ actions) (new_node id public_key address)).running ≡ 1
unfolding act_all act start spawn new_node
act_all-restarts id public_key address actions u =
    let n = (start false (new_node id public_key address)).1 in
    let (up, quiet, on, keep, (p, only, unforced, alone)) = act_all-IsKept actions n u (
      refl,
      refl,
      refl,
      refl,
      (record { pid = 0; start_force = false; stop_listeners = 0 }, refl, refl, refl),
    ) in
    ap length only
