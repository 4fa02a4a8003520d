-- ===== src/Nodes/Stopped.antt =====
-- A node that is told to stop: what is left of it when its process ends.
use diamond_dev_tools.Prelude.{
  ℕ, zero, suc, ◌≡◌, ◌≢◌, refl, sym, ap, subst, ◌∙◌, Bool, true, false, not, ◌&&◌, Option, none,
  some, List, [], ◌∷◌, filter, All, ◌==◌, ==-refl, nat_eq, if◌then◌else◌,
}
use diamond_dev_tools.Nodes.{
  CallOutcome, waits_for, throws, done, ignored, Process, NodeState, spawn, start, stop, stop_child,
  listen, deactivate, restart, stopped, find, on_close, close, Action, starts, stops, deactivates,
  closes, act, act_all,
}
use diamond_dev_tools.Nodes.Lifecycle.{Unforced}

-- Started, without a process.
abbrev IsDead : NodeState → Type 0
IsDead n = (n.is_started ≡ true) × (n.running ≡ [])

-- A call that starts nothing.
abbrev StartsNothing : NodeState → CallOutcome × NodeState → Type 0
StartsNothing n r = (r.1 ≡ n) × (r.0 ≢ done)

start-IsDead : (n : NodeState) → IsDead n → StartsNothing n (start false n)
unfolding start
start-IsDead n (up, empty) = split n.is_deactivated
  where
    split :
        (off : Bool)
        → StartsNothing n (
            if off
            then (ignored, n)
            else if n.is_started && true
            then (throws, n)
            else (done, spawn false n))
    split true = (refl, λ e. cc)
    split false =
        subst (λ b. StartsNothing n (if b && true then (throws, n) else (done, spawn false n)))
          (sym up) (refl, λ e. cc)

listen-nil : (pid : ℕ) (ps : List Process) → ps ≡ [] → listen pid ps ≡ []
listen-nil pid [] e = refl
listen-nil pid (p ∷ ps) e = cc

stop-IsDead : (n : NodeState) → IsDead n → IsDead (stop false n).1
unfolding stop
stop-IsDead n (up, empty) =
    subst (λ b. IsDead (if not b && true then (throws, n) else stop_child n.child_process n).1)
      (sym up) (child n.child_process)
  where
    child : (c : Option ℕ) → IsDead (stop_child c n).1
    child none = (up, empty)
    child (some pid) = (up, listen-nil pid n.running empty)

close-IsDead : (pid : ℕ) (n : NodeState) → IsDead n → IsDead (close pid n)
unfolding close
close-IsDead pid n (up, empty) =
    subst (λ o. IsDead (on_close pid o n)) (sym (ap (find pid) empty)) (up, empty)

act-IsDead : (a : Action) (n : NodeState) → Unforced a → IsDead n → IsDead (act a n)
unfolding act deactivate
act-IsDead (starts force) n u h =
    subst (λ f. IsDead (start f n).1) (sym u) (subst IsDead (sym (start-IsDead n h).0) h)
act-IsDead (stops force) n u h = subst (λ f. IsDead (stop f n).1) (sym u) (stop-IsDead n h)
act-IsDead deactivates n u h = stop-IsDead n h
act-IsDead (closes pid) n u h = close-IsDead pid n h

act_all-IsDead :
    (actions : List Action) (n : NodeState)
    → All Unforced actions
    → IsDead n
    → IsDead (act_all actions n)
unfolding act_all
act_all-IsDead [] n u h = h
act_all-IsDead (a ∷ actions) n (u, us) h = act_all-IsDead actions (act a n) us (act-IsDead a n u h)

find_self : (p : Process) → find p.pid (p ∷ []) ≡ some p
find_self p = rw (==-refl p.pid) refl

restart-shutting_down :
    (force : Bool) (n : NodeState) → n.is_shutting_down ≡ true → restart force n ≡ n
unfolding restart
restart-shutting_down force n down =
    subst
      (λ b.
        (if n.restart_after_shutdown && not b
          then (start force (record n { is_started = false })).1
          else n)
        ≡ n)
      (sym down) (off n.restart_after_shutdown)
  where
    off :
        (b : Bool)
        → (if b && false then (start force (record n { is_started = false })).1 else n) ≡ n
    off true = refl
    off false = refl

-- The process of a started node that is shutting down ends, and nobody waits for it.
pub close-IsDead_after :
    (n : NodeState) (p : Process) (actions : List Action)
    → n.running ≡ p ∷ []
    → n.is_started ≡ true
    → n.is_shutting_down ≡ true
    → p.stop_listeners ≡ 0
    → All Unforced actions
    → ((act_all actions (close p.pid n)).running ≡ [])
      × ((start false (act_all actions (close p.pid n))).0 ≢ done)
unfolding close
close-IsDead_after n p actions only up down quiet u =
    let n' : NodeState = record n { running = filter (λ q. not (q.pid == p.pid)) n.running } in
    let left : n'.running ≡ [] =
      ap (filter (λ q. not (q.pid == p.pid))) only
      ∙ ap (λ b. if not b then p ∷ [] else []) (==-refl p.pid) in
    let e : close p.pid n ≡ n' =
      ap (λ o. on_close p.pid o n) (ap (find p.pid) only ∙ find_self p)
      ∙ (ap (λ k. stopped k (restart p.start_force n')) quiet
          ∙ restart-shutting_down p.start_force n' down) in
    let dead : IsDead (act_all actions (close p.pid n)) =
      act_all-IsDead actions (close p.pid n) u (subst IsDead (sym e) (up, left)) in
    (dead.1, (start-IsDead (act_all actions (close p.pid n)) dead).1)

-- Nothing resets `isShuttingDown`.
abbrev pub IsDown : CallOutcome × NodeState → Type 0
IsDown r = r.1.is_shutting_down ≡ true

if-IsDown :
    (b : Bool) (r s : CallOutcome × NodeState) → IsDown r → IsDown s → IsDown (if b then r else s)
if-IsDown true r s h g = h
if-IsDown false r s h g = g

start-IsDown : (force : Bool) (n : NodeState) → n.is_shutting_down ≡ true → IsDown (start force n)
unfolding start spawn
start-IsDown force n h =
    if-IsDown n.is_deactivated _ _ h
      (if-IsDown (n.is_started && not force) (throws, n) (done, spawn force n) h h)

stop_child-IsDown :
    (child : Option ℕ) (n : NodeState) → n.is_shutting_down ≡ true → IsDown (stop_child child n)
stop_child-IsDown none n h = h
stop_child-IsDown (some pid) n h = refl

stop-IsDown : (force : Bool) (n : NodeState) → n.is_shutting_down ≡ true → IsDown (stop force n)
unfolding stop
stop-IsDown force n h =
    if-IsDown (not n.is_started && not force) (throws, n) _ h
      (stop_child-IsDown n.child_process n h)

restart-IsDown :
    (force : Bool) (n : NodeState)
    → n.is_shutting_down ≡ true
    → (restart force n).is_shutting_down ≡ true
unfolding restart
restart-IsDown force n h = split (n.restart_after_shutdown && not n.is_shutting_down)
  where
    split :
        (b : Bool)
        → (if b then (start force (record n { is_started = false })).1 else n).is_shutting_down
          ≡ true
    split true = start-IsDown force (record n { is_started = false }) h
    split false = h

close-IsDown :
    (pid : ℕ) (n : NodeState) → n.is_shutting_down ≡ true → (close pid n).is_shutting_down ≡ true
unfolding close
close-IsDown pid n h = split (find pid n.running)
  where
    stopped-IsDown :
        (k : ℕ) (m : NodeState) → m.is_shutting_down ≡ true → (stopped k m).is_shutting_down ≡ true
    stopped-IsDown zero m g = g
    stopped-IsDown (suc k) m g = g

    split : (o : Option Process) → (on_close pid o n).is_shutting_down ≡ true
    split none = h
    split (some p) =
        let left : NodeState = record n { running = filter (λ q. not (q.pid == pid)) n.running } in
        stopped-IsDown p.stop_listeners (restart p.start_force left)
          (restart-IsDown p.start_force left h)

pub act_all-IsDown :
    (actions : List Action) (n : NodeState)
    → n.is_shutting_down ≡ true
    → (act_all actions n).is_shutting_down ≡ true
unfolding act_all act deactivate
act_all-IsDown [] n h = h
act_all-IsDown (starts force ∷ more) n h =
    act_all-IsDown more (start force n).1 (start-IsDown force n h)
act_all-IsDown (stops force ∷ more) n h =
    act_all-IsDown more (stop force n).1 (stop-IsDown force n h)
act_all-IsDown (deactivates ∷ more) n h =
    act_all-IsDown more (record ((stop false n).1) { is_deactivated = true })
      (stop-IsDown false n h)
act_all-IsDown (closes pid ∷ more) n h = act_all-IsDown more (close pid n) (close-IsDown pid n h)

pub stopping-IsDown :
    (n : NodeState) (pid : ℕ) → (stop false n).0 ≡ waits_for pid → IsDown (stop false n)
unfolding stop
stopping-IsDown n pid = split (not n.is_started && true) n.child_process
  where
    split :
        (b : Bool) (child : Option ℕ)
        → (if b then (throws, n) else stop_child child n).0 ≡ waits_for pid
        → IsDown (if b then (throws, n) else stop_child child n)
    split true child e = cc
    split false none e = cc
    split false (some c) e = refl
