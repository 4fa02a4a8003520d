-- ===== src/Nodes/Selection.antt =====
-- The nodes that command-line arguments choose: `parseRemotenetArgs`, `isNodeInTextDefinition` and
-- `getNodesFromCliArgs` of src/remotenet/remotenetArgs.ts, and `sshNodeName`. What contracts and remote
-- nodes answer is an argument; none is an exception.
use diamond_dev_tools.Prelude.{
  ℕ, zero, suc, ◌+◌, ◌/◌, ◌%◌, Bool, true, false, not, ◌&&◌, ◌||◌, Option, none, some, List, [],
  ◌∷◌, any, length, ltb, Text, ◌==◌, list_eq, nat_eq, if◌then◌else◌,
}
use diamond_dev_tools.Prelude.Int.{ℤ, pos, leb_ℤ}
use diamond_dev_tools.Ether.{to_lower_case}
use diamond_dev_tools.Connection.{includes}
use diamond_dev_tools.Javascript.{parse_int, split}
use diamond_dev_tools.Nodes.{NodeState}

pub record RemotnetArgs : Type 0 where
  pub only_unavailable : Bool
  pub only_available : Bool
  pub skip_current : Bool
  pub current : Bool
  pub all : Bool
  pub sshnode : Option Text
  pub nsshnode : Option Text
  pub mining_address : Option Text
  pub version : Option Text

-- A text that is there and not empty.
abbrev pub is_given : Option Text → Bool
is_given none = false
is_given (some []) = false
is_given (some (c ∷ cs)) = true

-- Decimal digits, of which a number has at most as many as its successor says.
abbrev pub decimal : ℕ → ℕ → Text → Text
decimal zero n rest = rest
decimal (suc fuel) n rest =
    let more = decimal fuel (n / 10) ((n % 10 + 48) ∷ rest) in
    if ltb n 10 then (n + 48) ∷ rest else more

unfoldable pub ssh_node_name : NodeState → Text
ssh_node_name n = b'h' ∷ b'b' ∷ b'b' ∷ b'f' ∷ b't' ∷ decimal (suc n.node_id) n.node_id []

abbrev pub at_most : Option ℤ → Option ℤ → Bool
at_most (some a) (some b) = leb_ℤ a b
at_most _ _ = false

-- "from - to", inclusive.
abbrev pub in_range : ℕ → List Text → Bool
in_range id (from ∷ middle ∷ to ∷ []) =
    (middle == b'-' ∷ [])
    && at_most (parse_int from) (some (pos id))
    && at_most (some (pos id)) (parse_int to)
in_range id _ = false

unfoldable pub is_node_in_text_definition : NodeState → Text → Bool
unfolding ssh_node_name parse_int split
is_node_in_text_definition n definition =
    let tokens = split definition in
    (definition == ssh_node_name n)
    || (ltb 1 (length tokens) && any (λ t. t == ssh_node_name n) tokens)
    || in_range n.node_id tokens

-- `parseRemotenetArgs` throws without a target.
abbrev pub has_target : RemotnetArgs → Bool
has_target args =
    args.all
    || args.only_unavailable
    || is_given args.sshnode
    || is_given args.mining_address
    || args.current

-- What happens to a node: `continue`, `result.push(node)`, or an exception.
pub data Verdict : Type 0 where
  skips : Verdict
  takes : Verdict
  fails : Verdict

-- One test for skipping after another.
infixr 36 ◌or_skip◌
abbrev pub ◌or_skip◌ : Option Bool → Option Bool → Option Bool
none or_skip k = none
some true or_skip k = some true
some false or_skip k = k

abbrev pub named_by : NodeState → Option Text → Bool
named_by n none = false
named_by n (some []) = false
named_by n (some (c ∷ cs)) = is_node_in_text_definition n (c ∷ cs)

abbrev pub negated : Option Bool → Option Bool
negated none = none
negated (some b) = some (not b)

-- `if (flag && node.address) { if (await test(node.address)) continue; }`.
abbrev pub with_address : Bool → Option Text → (Text → Option Bool) → Option Bool
with_address false address test = some false
with_address true none test = some false
with_address true (some []) test = some false
with_address true (some (c ∷ cs)) test = test (c ∷ cs)

-- `if (flag) { if (node.address) … else continue; }`.
abbrev pub needs_address : Bool → Option Text → (Text → Option Bool) → Option Bool
needs_address false address test = some false
needs_address true none test = some true
needs_address true (some []) test = some true
needs_address true (some (c ∷ cs)) test = test (c ∷ cs)

abbrev pub version_differs : Option Text → Option Text → Option Bool
version_differs none this_version = some false
version_differs (some []) this_version = some false
version_differs (some (c ∷ cs)) none = none
version_differs (some (c ∷ cs)) (some v) = some (not (includes (c ∷ cs) v))

abbrev pub same_address : Option Text → Option Text → Bool
same_address none wanted = false
same_address (some []) wanted = false
same_address (some (c ∷ cs)) none = false
same_address (some (c ∷ cs)) (some []) = false
same_address (some (c ∷ cs)) (some (d ∷ ds)) = to_lower_case (c ∷ cs) == to_lower_case (d ∷ ds)

module _ (is_validator is_validator_available : Text → Option Bool)
    (get_node_version : Text → Option Text) (args : RemotnetArgs) where
  unfoldable pub is_skipped : NodeState → Option Bool
  unfolding is_node_in_text_definition
  is_skipped n =
      some (named_by n args.nsshnode)
      or_skip with_address args.skip_current n.address is_validator
      or_skip with_address args.current n.address (λ a. negated (is_validator a))
      or_skip version_differs args.version (get_node_version (ssh_node_name n))
      or_skip needs_address args.only_unavailable n.address is_validator_available
      or_skip needs_address args.only_available n.address (λ a. negated (is_validator_available a))

  abbrev pub target : NodeState → Option Text → Verdict
  target n (some definition) = if is_node_in_text_definition n definition then takes else skips
  target n none = if args.all || args.current then takes else fails

  abbrev pub verdict : NodeState → Option Bool → Verdict
  verdict n none = fails
  verdict n (some true) = skips
  verdict n (some false) =
      if same_address n.address args.mining_address then takes else target n args.sshnode

  abbrev pub push_result : Verdict → NodeState → Option (List NodeState) → Option (List NodeState)
  push_result fails n rest = none
  push_result skips n rest = rest
  push_result takes n none = none
  push_result takes n (some result) = some (n ∷ result)

  unfoldable pub choose : List NodeState → Option (List NodeState)
  unfolding is_skipped
  choose [] = some []
  choose (n ∷ ns) = push_result (verdict n (is_skipped n)) n (choose ns)

  unfoldable pub get_nodes_from_cli_args : List NodeState → Option (List NodeState)
  unfolding choose
  get_nodes_from_cli_args nodes = if has_target args then choose nodes else none
