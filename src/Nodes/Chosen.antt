-- ===== src/Nodes/Chosen.antt =====
-- Which nodes the arguments choose, and when they are refused.
use diamond_dev_tools.Prelude.{
  ◌≡◌, refl, ap, ◌∙◌, Bool, true, false, not, ◌&&◌, ◌||◌, Option, none, some, List, [], ◌∷◌, any,
  filter, Text, if◌then◌else◌,
}
use diamond_dev_tools.Connection.{includes}
use diamond_dev_tools.Nodes.{NodeState}
use diamond_dev_tools.Nodes.Selection.{
  RemotnetArgs, ssh_node_name, is_node_in_text_definition, has_target, Verdict, skips, takes, fails,
  ◌or_skip◌, named_by, with_address, needs_address, version_differs, same_address, is_skipped,
  target, verdict, push_result, choose, get_nodes_from_cli_args,
}

abbrev pub address_test : Bool → Option Text → (Text → Bool) → (missing : Bool) → Bool
address_test flag none test missing = flag && missing
address_test flag (some []) test missing = flag && missing
address_test flag (some (c ∷ cs)) test missing = flag && test (c ∷ cs)

abbrev pub version_test : Option Text → Text → Bool
version_test none v = false
version_test (some []) v = false
version_test (some (c ∷ cs)) v = not (includes (c ∷ cs) v)

abbrev pub ssh_test : NodeState → Option Text → Bool
ssh_test n none = true
ssh_test n (some definition) = is_node_in_text_definition n definition

and_false : (b : Bool) → (b && false) ≡ false
and_false true = refl
and_false false = refl

abbrev pub is_some : Option Text → Bool
is_some none = false
is_some (some t) = true

-- The calls answer: `validator`, `available` and `version`.
module _ (args : RemotnetArgs) (validator available : Text → Bool) (version : Text → Text) where
  -- A node that an argument excludes.
  abbrev pub excluded : NodeState → Bool
  excluded n =
      named_by n args.nsshnode
      || (address_test args.skip_current n.address validator false
          || (address_test args.current n.address (λ a. not (validator a)) false
              || (version_test args.version (version (ssh_node_name n))
                  || (address_test args.only_unavailable n.address available true
                      || address_test args.only_available n.address (λ a. not (available a))
                          true))))

  with_address-total :
      (flag : Bool) (address : Option Text) (test : Text → Bool)
      → with_address flag address (λ a. some (test a)) ≡ some (address_test flag address test false)
  with_address-total false none test = refl
  with_address-total false (some []) test = refl
  with_address-total false (some (c ∷ cs)) test = refl
  with_address-total true none test = refl
  with_address-total true (some []) test = refl
  with_address-total true (some (c ∷ cs)) test = refl

  needs_address-total :
      (flag : Bool) (address : Option Text) (test : Text → Bool)
      → needs_address flag address (λ a. some (test a)) ≡ some (address_test flag address test true)
  needs_address-total false none test = refl
  needs_address-total false (some []) test = refl
  needs_address-total false (some (c ∷ cs)) test = refl
  needs_address-total true none test = refl
  needs_address-total true (some []) test = refl
  needs_address-total true (some (c ∷ cs)) test = refl

  version_differs-total :
      (wanted : Option Text) (v : Text)
      → version_differs wanted (some v) ≡ some (version_test wanted v)
  version_differs-total none v = refl
  version_differs-total (some []) v = refl
  version_differs-total (some (c ∷ cs)) v = refl

  or_skip-total :
      (a : Option Bool) (b : Bool) (c : Option Bool) (d : Bool)
      → a ≡ some b
      → c ≡ some d
      → (a or_skip c) ≡ some (b || d)
  or_skip-total a true c d e f = rw e refl
  or_skip-total a false c d e f = rw (e, f) refl

  abbrev answers : (Text → Bool) → Text → Option Bool
  answers f a = some (f a)

  is_skipped-excluded :
      (n : NodeState)
      → is_skipped (answers validator) (answers available) (λ name. some (version name)) args n
        ≡ some (excluded n)
  unfolding is_skipped
  is_skipped-excluded n = or_skip-total _ _ _ _ refl (
      or_skip-total _ _ _ _ (with_address-total args.skip_current n.address validator) (
        or_skip-total _ _ _ _ (with_address-total args.current n.address (λ a. not (validator a))) (
          or_skip-total _ _ _ _ (version_differs-total args.version (version (ssh_node_name n))) (
            or_skip-total _ _ _ _ (needs_address-total args.only_unavailable n.address available)
              (needs_address-total args.only_available n.address (λ a. not (available a)))))))

  -- Whether nodes are named, apart from a mining address: by -s, or all of them by -a or -c.
  abbrev pub names_nodes : Bool
  names_nodes = is_some args.sshnode || (args.all || args.current)

  abbrev pub chosen : NodeState → Bool
  chosen n =
      not (excluded n) && (same_address n.address args.mining_address || ssh_test n args.sshnode)

  -- A node that is neither excluded nor that of the mining address.
  abbrev pub is_other : NodeState → Bool
  is_other n = not (excluded n) && not (same_address n.address args.mining_address)

  abbrev choose_here : List NodeState → Option (List NodeState)
  choose_here = choose (answers validator) (answers available) (λ name. some (version name)) args

  -- Whether a node makes the call fail.
  abbrev breaks : NodeState → Bool
  breaks n = not names_nodes && is_other n

  abbrev Agrees : Verdict → (breaking taken : Bool) → Type 0
  Agrees fails breaking taken = breaking ≡ true
  Agrees skips breaking taken = (breaking ≡ false) × (taken ≡ false)
  Agrees takes breaking taken = (breaking ≡ false) × (taken ≡ true)

  abbrev verdict_here : NodeState → Bool → Verdict
  verdict_here n e =
      verdict (answers validator) (answers available) (λ name. some (version name)) args n (some e)

  abbrev push_here : Verdict → NodeState → Option (List NodeState) → Option (List NodeState)
  push_here = push_result (answers validator) (answers available) (λ name. some (version name)) args

  unnamed :
      (everything : Bool)
      → Agrees (if everything then takes else fails) (not everything && true) true
  unnamed true = (refl, refl)
  unnamed false = refl

  named : (matches : Bool) → Agrees (if matches then takes else skips) false matches
  named true = (refl, refl)
  named false = (refl, refl)

  verdict-Agrees : (n : NodeState) → Agrees (verdict_here n (excluded n)) (breaks n) (chosen n)
  verdict-Agrees n = split (excluded n) (same_address n.address args.mining_address) args.sshnode
    where
      split :
          (e s : Bool) (d : Option Text)
          → Agrees
              (elim e [
                | true ↦ skips
                | false ↦
                    if s
                    then takes
                    else target
                        (answers validator)
                        (answers available)
                        (λ name. some (version name))
                        args
                        n
                        d
              ])
              (not (is_some d || (args.all || args.current)) && (not e && not s))
              (not e && (s || ssh_test n d))
      split true s d = (and_false (not (is_some d || (args.all || args.current))), refl)
      split false true d = (and_false (not (is_some d || (args.all || args.current))), refl)
      split false false none = unnamed (args.all || args.current)
      split false false (some t) = named (is_node_in_text_definition n t)

  push-Agrees :
      (v : Verdict) (n : NodeState) (breaking taken others : Bool) (kept : List NodeState)
      → Agrees v breaking taken
      → push_here v n (if others then none else some kept)
        ≡ (if breaking || others then none else some (if taken then n ∷ kept else kept))
  push-Agrees fails n breaking taken others kept h = rw h refl
  push-Agrees skips n breaking taken others kept (h, g) = rw (h, g) refl
  push-Agrees takes n breaking taken true kept (h, g) = rw h refl
  push-Agrees takes n breaking taken false kept (h, g) = rw (h, g) refl

  any-and :
      (b : Bool) (nodes : List NodeState)
      → any (λ n. b && is_other n) nodes ≡ (b && any is_other nodes)
  any-and true nodes = refl
  any-and false [] = refl
  any-and false (n ∷ ns) = any-and false ns

  choose-chosen :
      (nodes : List NodeState)
      → choose_here nodes ≡ (if any breaks nodes then none else some (filter chosen nodes))
  unfolding choose
  choose-chosen [] = refl
  choose-chosen (n ∷ ns) =
      rw (is_skipped-excluded n, choose-chosen ns)
        (push-Agrees (verdict_here n (excluded n)) n (breaks n) (chosen n) (any breaks ns)
          (filter chosen ns) (verdict-Agrees n))

  -- If the contracts and the nodes answer, the call succeeds exactly when a target is given and, in
  -- case the nodes are not named by -s, -a or -c, no node but that of the mining address is left
  -- after the exclusions. Then it gives, in order, the nodes that are not excluded and that are that of
  -- the mining address or named.
  pub get_nodes_from_cli_args-chosen :
      (nodes : List NodeState)
      → get_nodes_from_cli_args
          (answers validator)
          (answers available)
          (λ name. some (version name))
          args
          nodes
        ≡ (if has_target args && not (not names_nodes && any is_other nodes)
            then some (filter chosen nodes)
            else none)
  unfolding get_nodes_from_cli_args
  get_nodes_from_cli_args-chosen nodes =
      ap (λ r. if has_target args then r else none)
        (choose-chosen nodes
          ∙ ap (λ b. if b then none else some (filter chosen nodes))
              (any-and (not names_nodes) nodes))
      ∙ both (has_target args) (not names_nodes && any is_other nodes)
    where
      both :
          (t b : Bool)
          → (if t then (if b then none else some (filter chosen nodes)) else none)
            ≡ (if t && not b then some (filter chosen nodes) else none)
      both true true = refl
      both true false = refl
      both false b = refl
