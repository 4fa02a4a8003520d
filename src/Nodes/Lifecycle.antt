-- ===== src/Nodes/Lifecycle.antt =====
-- One process for each node.
use diamond_dev_tools.Prelude.{
  ℕ, zero, suc, ◌≤◌, ◌≡◌, refl, arith, Bool, true, false, not, ◌&&◌, Option, none, some, List, [],
  ◌∷◌, inl, inr, length, filter, Text, All, ◌==◌, nat_eq, if◌then◌else◌, Bool-cases, Option-cases,
  sym, ◌∙◌, subst, ap,
}
use diamond_dev_tools.Nodes.{
  CallOutcome, throws, done, Process, NodeState, new_node, spawn, start, stop, stop_child, listen,
  deactivate, restart, stopped, find, on_close, close, Action, starts, stops, deactivates, closes,
  act, act_all,
}

and_true : (b : Bool) → (b && true) ≡ b
and_true true = refl
and_true false = refl

from_some : {A : Type 0} → A → Option A → A
from_some a none = a
from_some a (some b) = b

some-injective : {A : Type 0} {a b : A} → some a ≡ some b → a ≡ b
unfolding from_some
some-injective {A} {a} e = ap (from_some a) e

not_down : (a b : Bool) → (a && not b) ≡ true → b ≡ false
not_down true false h = refl
not_down true true h = cc
not_down false b h = cc

-- `force` is false.
abbrev pub Unforced : Action → Type 0
Unforced (starts force) = force ≡ false
Unforced (stops force) = force ≡ false
Unforced deactivates = Unit
Unforced (closes pid) = Unit

-- At most one process runs, and it is the child process of a started node. Nobody waits for it to
-- close unless the node was told to stop.
abbrev pub One :
    (running : List Process) (child : Option ℕ) (started : Bool) (shutting_down : Bool) → Type 0
One [] child started shutting_down = Unit
One (p ∷ []) child started shutting_down =
    (child ≡ some p.pid)
    × (started ≡ true)
    × (p.start_force ≡ false)
    × (shutting_down ≡ false → p.stop_listeners ≡ 0)
One (p ∷ q ∷ ps) child started shutting_down = ⊥

abbrev pub IsSingle : NodeState → Type 0
IsSingle n = One n.running n.child_process n.is_started n.is_shutting_down

spawn-IsSingle : (n : NodeState) → n.running ≡ [] → IsSingle (spawn false n)
unfolding spawn
spawn-IsSingle n e = rw e (refl, refl, refl, λ h. refl)

One-stopped :
    (ps : List Process) (child : Option ℕ) (down : Bool) (started : Bool)
    → started ≡ false
    → One ps child started down
    → ps ≡ []
One-stopped [] child down started e h = refl
One-stopped (p ∷ []) child down started e h = cc (h.1)
One-stopped (p ∷ q ∷ ps) child down started e h = absurd h

One-listen :
    (pid : ℕ) (ps : List Process) (child : Option ℕ) (started down : Bool)
    → One ps child started down
    → One (listen pid ps) child started true
One-listen pid [] child started down h = tt
One-listen pid (p ∷ []) child started down (a, b, c, d) = elim (Bool-cases (p.pid == pid)) [
  | inl same ↦ simp same (a, b, c, λ e. cc)
  | inr other ↦ simp other (a, b, c, λ e. cc)
]
One-listen pid (p ∷ q ∷ ps) child started down h = absurd h

branch-IsSingle :
    (b : Bool) (r s : CallOutcome × NodeState)
    → (b ≡ true → IsSingle r.1)
    → (b ≡ false → IsSingle s.1)
    → IsSingle (if b then r else s).1
branch-IsSingle true r s f g = f refl
branch-IsSingle false r s f g = g refl

start-IsSingle : (n : NodeState) → IsSingle n → IsSingle (start false n).1
unfolding start
start-IsSingle n h =
    branch-IsSingle n.is_deactivated _ _ (λ e. h)
      (λ e.
        branch-IsSingle (n.is_started && true) (throws, n) (done, spawn false n) (λ up. h)
          (λ down. spawn-IsSingle n (
            One-stopped n.running n.child_process n.is_shutting_down n.is_started
              (sym (and_true n.is_started) ∙ down) h)))

stop_child-IsSingle :
    (child : Option ℕ) (n : NodeState) → IsSingle n → IsSingle (stop_child child n).1
stop_child-IsSingle none n h = h
stop_child-IsSingle (some pid) n h =
    One-listen pid n.running n.child_process n.is_started n.is_shutting_down h

pub stop-IsSingle : (n : NodeState) → IsSingle n → IsSingle (stop false n).1
unfolding stop
stop-IsSingle n h =
    branch-IsSingle (not n.is_started && true) (throws, n) _ (λ e. h)
      (λ e. stop_child-IsSingle n.child_process n h)

find-One :
    (pid : ℕ) (ps : List Process) (child : Option ℕ) (started down : Bool) (p : Process)
    → One ps child started down
    → find pid ps ≡ some p
    → (ps ≡ p ∷ [])
      × ((p.pid == pid) ≡ true)
      × (p.start_force ≡ false)
      × (down ≡ false → p.stop_listeners ≡ 0)
find-One pid [] child started down p h e = cc
find-One pid (q ∷ []) child started down p (a, b, c, d) e = elim (Bool-cases (q.pid == pid)) [
  | inl same ↦
      let e' : q ≡ p = some-injective (rw same at e) in
      subst
        (λ x.
          (q ∷ [] ≡ x ∷ [])
          × ((x.pid == pid) ≡ true)
          × (x.start_force ≡ false)
          × (down ≡ false → x.stop_listeners ≡ 0))
        e' (refl, same, c, d)
  | inr other ↦ cc (rw other at e)
]
find-One pid (q ∷ r ∷ ps) child started down p h e = absurd h

stopped-empty : (k : ℕ) (n : NodeState) → n.running ≡ [] → IsSingle (stopped k n)
stopped-empty zero n e = rw e tt
stopped-empty (suc k) n e = rw e tt

-- What is left after the listeners, of a node without a process.
restarted-IsSingle :
    (listeners : ℕ) (n : NodeState)
    → n.running ≡ []
    → (n.is_shutting_down ≡ false → listeners ≡ 0)
    → IsSingle (stopped listeners (restart false n))
unfolding restart
restarted-IsSingle listeners n e quiet =
    split (n.restart_after_shutdown && not n.is_shutting_down) refl
  where
    split :
        (b : Bool)
        → (n.restart_after_shutdown && not n.is_shutting_down) ≡ b
        → IsSingle
            (stopped listeners (if b then (start false (record n { is_started = false })).1 else n))
    split true f =
        subst (λ k. IsSingle (stopped k (start false (record n { is_started = false })).1))
          (sym (quiet (not_down n.restart_after_shutdown n.is_shutting_down f)))
          (start-IsSingle (record n { is_started = false })
            (subst (λ l. One l n.child_process false n.is_shutting_down) (sym e) tt))
    split false f = stopped-empty listeners n e

close-IsSingle : (pid : ℕ) (n : NodeState) → IsSingle n → IsSingle (close pid n)
unfolding close
close-IsSingle pid n h = elim (Option-cases (find pid n.running)) [
  | inl gone ↦ subst (λ o. IsSingle (on_close pid o n)) (sym gone) h
  | inr (p, here) ↦
      let (only, same, unforced, quiet) =
        find-One pid n.running n.child_process n.is_started n.is_shutting_down p h here in
      subst (λ o. IsSingle (on_close pid o n)) (sym here)
        (subst
          (λ f. IsSingle (
            stopped p.stop_listeners
              (restart f (record n { running = filter (λ q. not (q.pid == pid)) n.running }))))
          (sym unforced)
          (restarted-IsSingle p.stop_listeners
            (record n { running = filter (λ q. not (q.pid == pid)) n.running })
            (ap (filter (λ q. not (q.pid == pid))) only
              ∙ ap (λ b. if not b then p ∷ [] else []) same)
            quiet))
]

act-IsSingle : (a : Action) (n : NodeState) → Unforced a → IsSingle n → IsSingle (act a n)
unfolding act deactivate
act-IsSingle (starts force) n u h = subst (λ f. IsSingle (start f n).1) (sym u) (start-IsSingle n h)
act-IsSingle (stops force) n u h = subst (λ f. IsSingle (stop f n).1) (sym u) (stop-IsSingle n h)
act-IsSingle deactivates n u h = stop-IsSingle n h
act-IsSingle (closes pid) n u h = close-IsSingle pid n h

pub act_all-IsSingle :
    (actions : List Action) (n : NodeState)
    → All Unforced actions
    → IsSingle n
    → IsSingle (act_all actions n)
unfolding act_all
act_all-IsSingle [] n u h = h
act_all-IsSingle (a ∷ actions) n (u, us) h =
    act_all-IsSingle actions (act a n) us (act-IsSingle a n u h)

length-One :
    (ps : List Process) (child : Option ℕ) (started down : Bool)
    → One ps child started down
    → length ps ≤ 1
length-One [] child started down h = omega arith
length-One (p ∷ []) child started down h = omega arith
length-One (p ∷ q ∷ ps) child started down h = absurd h

-- Whatever starts, stops, deactivations and exits there are without force, at most one process of a
-- node runs at any time, and one that runs is the child process of a node that counts as started.
pub act_all-one_process :
    (id : ℕ) (public_key address : Option Text) (actions : List Action)
    → All Unforced actions
    → (length (act_all actions (new_node id public_key address)).running ≤ 1)
      × ((p : Process)
          → (act_all actions (new_node id public_key address)).running ≡ p ∷ []
          → ((act_all actions (new_node id public_key address)).child_process ≡ some p.pid)
            × ((act_all actions (new_node id public_key address)).is_started ≡ true))
unfolding new_node
act_all-one_process id public_key address actions u =
    let n = act_all actions (new_node id public_key address) in
    let single = act_all-IsSingle actions (new_node id public_key address) u tt in
    (
      length-One n.running n.child_process n.is_started n.is_shutting_down single,
      λ p e.
          let (a, b, c, d) : One (p ∷ []) n.child_process n.is_started n.is_shutting_down =
            subst (λ l. One l n.child_process n.is_started n.is_shutting_down) e single in
          (a, b),
    )
