-- ===== src/Block/Known.antt =====
-- The names in `knownNodes` and the rows of `node`.
use diamond_dev_tools.Prelude.{
  ℕ, ◌≡◌, refl, sym, ap, subst, ◌∙◌, Bool, true, false, ◌||◌, Option, none, some, List, [], ◌∷◌,
  any, Text, Buffer, ◌==◌, ==-refl, list_eq, Bool-cases, inl, inr, All, All-map_imp,
}
use diamond_dev_tools.Prelude.Int.{ℤ}
use diamond_dev_tools.Database.{Database}
use diamond_dev_tools.Ether.{address_to_buffer, to_lower_case}
use diamond_dev_tools.Ether.RoundTrip.{lower-idempotent}
use diamond_dev_tools.Events.{ContractEvent}
use diamond_dev_tools.Block.Program.{Program, ◌>>=◌, call}
use diamond_dev_tools.Block.Keeps.{
  Kept, Keeps, bind-Leads, when-Keeps, answer-Leads, statement-Keeps, statement-Leads,
  remember-Leads, recall-Keeps, bind-Keeps,
}
use diamond_dev_tools.Block.Body.{Chain, insert_new_node, insert_unknown_node, set_known}
use diamond_dev_tools.Block.Transaction.{process_block}
use diamond_dev_tools.Block.Nodes.{nodes_of_SameNodes, insert_score-SameNodes}
use diamond_dev_tools.Block.Frame.{process_block-Leads}
use diamond_dev_tools.Block.{Node, Memory, Tables, has_header, same_node, insert_node}

address_to_buffer-lower : (a : Text) → address_to_buffer (to_lower_case a) ≡ address_to_buffer a
unfolding address_to_buffer
address_to_buffer-lower a = rw (lower-idempotent a) refl

pub or_true : (b : Bool) → (b || true) ≡ true
or_true true = refl
or_true false = refl

module _ (db : Database) (Rest : Type 0) where
  nodes_after : Tables db Rest → Option (Tables db Rest) → db.Table Node
  nodes_after t none = t.nodes
  nodes_after t (some u) = u.nodes

  -- INSERT adds the row, if it does not throw.
  pub insert_node-rows :
      (n : Node) (t u : Tables db Rest)
      → insert_node db Rest n t ≡ some u
      → db.rows u.nodes ≡ n ∷ db.rows t.nodes
  unfolding insert_node nodes_after
  insert_node-rows n t u e = elim (Bool-cases (has_header db Rest n.added_block t)) [
    | inr dangling ↦ let e2 = rw (dangling, insert_node) at e in cc
    | inl referred ↦ elim (Bool-cases (any (same_node n) (db.rows t.nodes))) [
      | inl taken ↦
          let e2 = rw (referred, db.insert_taken same_node n t.nodes taken, insert_node) at e in cc
      | inr free ↦
          let (v, inserted, rows) = db.insert_new same_node n t.nodes free in
          let e2 = rw (referred, inserted, insert_node) at e in
          ap db.rows (sym (ap (nodes_after t) e2)) ∙ rows
    ]
  ]

module _ (db : Database) (Rest : Type 0) (chain : Chain) where
  abbrev AnyFailure : Memory → Type 0
  AnyFailure m = m ≡ m

  -- Every known node has its row.
  abbrev pub KnownHaveRows : Memory → Tables db Rest → Type 0
  KnownHaveRows m t =
      All (λ name. any (λ n. n.pool_address == address_to_buffer name) (db.rows t.nodes) ≡ true)
        m.known_nodes

  -- The same, and a pool that is not yet among them has its row.
  abbrev NewHasRow : Text → Memory → Tables db Rest → Type 0
  NewHasRow pool m t =
      KnownHaveRows m t
      × (any (λ n. n.pool_address == address_to_buffer pool) (db.rows t.nodes) ≡ true)

  insert_node-NewHasRow :
      (n : Node) (pool : Text) (m : Memory) (t u : Tables db Rest)
      → n.pool_address ≡ address_to_buffer pool
      → KnownHaveRows m t
      → insert_node db Rest n t ≡ some u
      → NewHasRow pool m u
  insert_node-NewHasRow n pool m t u p known e =
      let rows = insert_node-rows db Rest n t u e in
      rw (rows, p, ==-refl (address_to_buffer pool))
        (
          All-map_imp (λ name h. rw h (or_true (address_to_buffer pool == address_to_buffer name)))
              m.known_nodes known,
          refl,
        )

  KnownHaveRows-frame :
      (m : Memory) (t u : Tables db Rest)
      → u.nodes ≡ t.nodes
      → KnownHaveRows m t
      → KnownHaveRows m u
  KnownHaveRows-frame m t u e h =
      subst
        (λ nodes.
          All (λ name. any (λ n. n.pool_address == address_to_buffer name) (db.rows nodes) ≡ true)
            m.known_nodes)
        (sym e) h

  NewHasRow-frame :
      (pool : Text) (m : Memory) (t u : Tables db Rest)
      → u.nodes ≡ t.nodes
      → NewHasRow pool m t
      → NewHasRow pool m u
  NewHasRow-frame pool m t u e (h, new) = (
    KnownHaveRows-frame m t u e h,
    subst (λ nodes. any (λ n. n.pool_address == address_to_buffer pool) (db.rows nodes) ≡ true)
        (sym e) new,
  )

  set_known-KnownHaveRows :
      (pool : Text) (m : Memory) (t : Tables db Rest)
      → NewHasRow pool m t
      → KnownHaveRows (set_known db Rest chain pool m) t
  set_known-KnownHaveRows pool m t (h, new) = (
    subst (λ b. any (λ n. n.pool_address == b) (db.rows t.nodes) ≡ true)
        (sym (address_to_buffer-lower pool)) new,
    h,
  )

  insert_new_node-Keeps :
      (pool : Text) (block : ℕ)
      → Keeps AnyFailure KnownHaveRows (insert_new_node db Rest chain pool block)
  unfolding insert_new_node
  insert_new_node-Keeps pool block = asking _ _ (λ mining _. asking _ _ (λ key _.
      asking _ _ (λ score _.
        bind-Leads AnyFailure KnownHaveRows (NewHasRow pool) KnownHaveRows _ _
          (statement-Leads AnyFailure KnownHaveRows (λ m t i. refl) (NewHasRow pool) _
            (λ m t u i e. insert_node-NewHasRow _ pool m t u refl i e))
          (λ _.
            answer-Leads AnyFailure (NewHasRow pool) (λ m t i. refl) KnownHaveRows _ _
              (λ current _.
                bind-Leads AnyFailure (NewHasRow pool) (NewHasRow pool) KnownHaveRows _ _
                  (statement-Keeps AnyFailure (NewHasRow pool) (λ m t i. refl) _
                    (λ m t u i e.
                      NewHasRow-frame pool m t u
                        (nodes_of_SameNodes db Rest t u _
                          (insert_score-SameNodes db Rest t pool block current) e)
                        i))
                  (λ _.
                    bind-Leads AnyFailure (NewHasRow pool) (NewHasRow pool) KnownHaveRows _ _
                      (remember-Leads AnyFailure (NewHasRow pool) (NewHasRow pool) _ (λ m t i. i))
                      (λ _.
                        bind-Leads AnyFailure (NewHasRow pool) KnownHaveRows KnownHaveRows _ _
                          (remember-Leads AnyFailure (NewHasRow pool) KnownHaveRows _
                            (set_known-KnownHaveRows pool))
                          (λ _.
                            remember-Leads AnyFailure KnownHaveRows KnownHaveRows _
                              (λ m t i. i)))))))))
    where
      asking :
          {A B : Type 0} (answer : Option A) (f : A → Program (Tables db Rest) B)
          → ((a : A) → answer ≡ some a → Keeps AnyFailure KnownHaveRows (f a))
          → Keeps AnyFailure KnownHaveRows (call answer >>= f)
      asking answer f = answer-Leads AnyFailure KnownHaveRows (λ m t i. refl) KnownHaveRows answer f

  insert_unknown_node-Keeps :
      (block : ℕ) (pool : Text)
      → Keeps AnyFailure KnownHaveRows (insert_unknown_node db Rest chain block pool)
  unfolding insert_unknown_node
  insert_unknown_node-Keeps block pool =
      bind-Keeps AnyFailure KnownHaveRows _ _ (recall-Keeps AnyFailure KnownHaveRows)
        (λ m. when-Keeps AnyFailure KnownHaveRows _ _ (insert_new_node-Keeps pool block))

  -- If each name in `knownNodes` has a row of `node` and the transaction of a block commits, then
  -- each name has its row after it, as long as the end of the transaction deletes no row of `node`.
  pub process_block-KnownHaveRows :
      (finish : ℕ → ℤ → List ContractEvent → Tables db Rest → Option (Tables db Rest)) (block : ℕ)
      (epoch_at_start : ℤ) (before : ℕ)
      → ((epoch : ℤ) (events : List ContractEvent) (t u : Tables db Rest)
          → finish block epoch events t ≡ some u
          → (pool : Buffer) → any (λ n. n.pool_address == pool) (db.rows t.nodes) ≡ true
          → any (λ n. n.pool_address == pool) (db.rows u.nodes) ≡ true)
      → (m m2 : Memory) (t u : Tables db Rest) (result : ℤ × ℕ) → KnownHaveRows m t
      → (process_block db Rest chain finish block epoch_at_start before).run m t
        ≡ (m2, some (result, u))
      → KnownHaveRows m2 u
  process_block-KnownHaveRows finish block epoch_at_start before keep m m2 t u result known ended =
      subst (Kept AnyFailure KnownHaveRows) ended (
        (process_block-Leads db Rest chain AnyFailure KnownHaveRows (λ m t i. refl)
            KnownHaveRows-frame (λ name. name ≡ name) (λ b p _. insert_unknown_node-Keeps b p)
            (λ v p b _. refl) KnownHaveRows finish block epoch_at_start before
            (λ pools _. all_same pools) (λ events _. all_same _)
            (λ epoch events m t u _ i e.
              All-map_imp (λ name h. keep epoch events t u e (address_to_buffer name) h)
                m.known_nodes i)).holds
          m t known)
    where
      all_same : (names : List Text) → All (λ name. name ≡ name) names
      all_same [] = tt
      all_same (name ∷ names) = (refl, all_same names)
