-- ===== src/Block/Lost.antt =====
-- A node that is known, but whose row was rolled back.
use diamond_dev_tools.Prelude.{
  ℕ, zero, suc, ◌≡◌, ◌≢◌, refl, sym, ap, subst, ◌∙◌, true, false, Option, none, some, List, [], any,
  Text, ◌==◌, ==_iff, list_eq, Bool-cases, inl, inr, All,
}
use diamond_dev_tools.Prelude.Int.{ℤ}
use diamond_dev_tools.Database.{Database}
use diamond_dev_tools.Ether.{address_to_buffer, to_lower_case}
use diamond_dev_tools.Ether.RoundTrip.{IsAddress, address_to_buffer-eq_iff}
use diamond_dev_tools.Events.{ContractEvent}
use diamond_dev_tools.Block.Sets.{get_pools_set}
use diamond_dev_tools.Block.Program.{Program, ◌>>=◌, call, when, done, attempts, retry_from}
use diamond_dev_tools.Block.Keeps.{
  Kept, Leads, Keeps, answer-Leads, statement-Keeps, remember-Leads, recall-Leads, bind-Keeps,
}
use diamond_dev_tools.Block.Body.{
  Chain, insert_new_node, insert_unknown_node, is_known, get_all_pools,
}
use diamond_dev_tools.Block.Transaction.{process_block}
use diamond_dev_tools.Block.Nodes.{nodes_of_SameNodes, insert_score-SameNodes}
use diamond_dev_tools.Block.Frame.{process_block-Leads}
use diamond_dev_tools.Block.Known.{insert_node-rows, or_true}
use diamond_dev_tools.Block.{Node, Memory, Tables, has_node, insert_node}

module _ (db : Database) (Rest : Type 0) (chain : Chain) (lost : Text) where
  abbrev pub Remembered : Memory → Type 0
  Remembered m = is_known db Rest chain lost m ≡ true

  -- `knownNodes` has the pool, and `node` has no row of it.
  abbrev pub Lost : Memory → Tables db Rest → Type 0
  Lost m t = Remembered m × (has_node db Rest (address_to_buffer lost) t ≡ false)

  Lost-frame : (m : Memory) (t u : Tables db Rest) → u.nodes ≡ t.nodes → Lost m t → Lost m u
  Lost-frame m t u e (k, h) = (
    k,
    subst (λ nodes. any (λ n. n.pool_address == address_to_buffer lost) (db.rows nodes) ≡ false)
        (sym e) h,
  )

  insert_node-Lost :
      (n : Node) (m : Memory) (t u : Tables db Rest)
      → n.pool_address ≢ address_to_buffer lost
      → Lost m t
      → insert_node db Rest n t ≡ some u
      → Lost m u
  insert_node-Lost n m t u other (k, h) e =
      let rows = insert_node-rows db Rest n t u e in
      elim (Bool-cases (n.pool_address == address_to_buffer lost)) [
        | inl same ↦ absurd (other ((==_iff _ _).0 same))
        | inr differs ↦ (k, rw (rows, differs) h)
      ]

  insert_new_node-Lost :
      (pool : Text) (block : ℕ)
      → address_to_buffer pool ≢ address_to_buffer lost
      → Keeps Remembered Lost (insert_new_node db Rest chain pool block)
  unfolding insert_new_node
  insert_new_node-Lost pool block other = asking _ _ (λ mining _. asking _ _ (λ key _.
      asking _ _ (λ score _.
        bind-Keeps Remembered Lost _ _
          (statement-Keeps Remembered Lost (λ m t i. i.0) _
            (λ m t u i e. insert_node-Lost _ m t u other i e))
          (λ _. asking _ _ (λ current _.
            bind-Keeps Remembered Lost _ _
              (statement-Keeps Remembered Lost (λ m t i. i.0) _
                (λ m t u i e.
                  Lost-frame m t u
                    (nodes_of_SameNodes db Rest t u _
                      (insert_score-SameNodes db Rest t pool block current) e)
                    i))
              (λ _.
                bind-Keeps Remembered Lost _ _ (remember-Leads Remembered Lost Lost _ (λ m t i. i))
                  (λ _.
                    bind-Keeps Remembered Lost _ _
                      (remember-Leads Remembered Lost Lost _ (λ m t i.
                        (rw i.0 (or_true (to_lower_case pool == to_lower_case lost)), i.1)))
                      (λ _. remember-Leads Remembered Lost Lost _ (λ m t i. i)))))))))
    where
      asking :
          {A B : Type 0} (answer : Option A) (f : A → Program (Tables db Rest) B)
          → ((a : A) → answer ≡ some a → Keeps Remembered Lost (f a))
          → Keeps Remembered Lost (call answer >>= f)
      asking answer f = answer-Leads Remembered Lost (λ m t i. i.0) Lost answer f

  module _ (lost-IsAddress : IsAddress lost) where
    other_buffer :
        (pool : Text) (m : Memory)
        → IsAddress pool
        → Remembered m
        → is_known db Rest chain pool m ≡ false
        → address_to_buffer pool ≢ address_to_buffer lost
    other_buffer pool m address known unknown e =
        let same = (address_to_buffer-eq_iff pool lost address lost-IsAddress).0 e in
        let alike = ap (λ s. any (λ name. name == s) m.known_nodes) same in
        let clash : true ≡ false = sym known ∙ (sym alike ∙ unknown) in cc

    insert_unknown_node-Lost :
        (block : ℕ) (pool : Text)
        → IsAddress pool
        → Keeps Remembered Lost (insert_unknown_node db Rest chain block pool)
    unfolding insert_unknown_node when done
    insert_unknown_node-Lost block pool address = recall-Leads Remembered Lost Lost _ (λ m t i.
        elim (Bool-cases (is_known db Rest chain pool m)) [
          | inl known ↦ rw (known, when) i
          | inr unknown ↦
              rw (unknown, when)
                ((insert_new_node-Lost pool block (other_buffer pool m address i.0 unknown)).holds m
                  t i)
        ])

    -- No value.
    abbrev Never : Memory → Tables db Rest → Type 0
    Never m t = true ≡ false

    retry_from-none :
        {A : Type 0} (r : Memory × Option (A × Tables db Rest))
        (next : Memory → Memory × Option (A × Tables db Rest))
        → Kept Remembered Never r
        → ((m : Memory) → Remembered m → (next m).1 ≡ none)
        → (retry_from r next).1 ≡ none
    retry_from-none (m, none) next h g = g m h
    retry_from-none (m, some (a, t)) next h g = cc

    attempts-none :
        {A : Type 0} (p : Program (Tables db Rest) A)
        → Leads Remembered Lost Never p
        → (n : ℕ) (m : Memory) (t : Tables db Rest) → Lost m t
        → (attempts n p m t).1 ≡ none
    unfolding attempts
    attempts-none p h zero m t i = refl
    attempts-none p h (suc n) m t i =
        retry_from-none (p.run m t) (λ m2. attempts n p m2 t) (h.holds m t i)
          (λ m2 known. attempts-none p h n m2 t (known, i.1))

    -- A pool that is in `knownNodes`, but not in the table `node`, since the transaction that
    -- inserted it was rolled back: if the events of the block need the row of the pool, then no
    -- number of attempts at the block succeeds. All addresses that the chain names are well formed.
    pub attempts-Lost :
        (finish : ℕ → ℤ → List ContractEvent → Tables db Rest → Option (Tables db Rest)) (block : ℕ)
        (epoch_at_start : ℤ) (before : ℕ)
        → ((pools : List Text)
            → get_all_pools db Rest chain block ≡ some pools
            → All IsAddress pools)
        → ((events : List ContractEvent)
            → chain.get_all_events block ≡ some events
            → All IsAddress (get_pools_set events []))
        → ((v pool : Text) (block : ℕ)
            → chain.get_address_staking_by_mining v block ≡ some pool
            → IsAddress pool)
        → ((epoch : ℤ) (events : List ContractEvent) (t : Tables db Rest)
            → chain.get_all_events block ≡ some events
            → has_node db Rest (address_to_buffer lost) t ≡ false
            → finish block epoch events t ≡ none)
        → (n : ℕ) (m : Memory) (t : Tables db Rest) → Lost m t
        → (attempts n (process_block db Rest chain finish block epoch_at_start before) m t).1 ≡ none
    attempts-Lost finish block epoch_at_start before pools events named needs n m t i =
        attempts-none _
          (process_block-Leads db Rest chain Remembered Lost (λ m t i. i.0) Lost-frame IsAddress
            insert_unknown_node-Lost named Never finish block epoch_at_start before pools events
            (λ epoch es m t u e i f.
              let refused = needs epoch es t e i.1 in let clash = sym refused ∙ f in cc))
          n m t i
