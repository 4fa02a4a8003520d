-- ===== src/Block/Gap.antt =====
-- A start block that leaves a gap to the blocks in the tables.
use diamond_dev_tools.Prelude.{
  ℕ, ◌+◌, ◌<◌, lt→ltb, ◌≡◌, refl, sym, subst, true, false, Option, none, some, List, [], ◌∷◌, any,
  Text, Buffer, ◌==◌, ==_iff, list_eq, Bool-cases, inl, inr,
}
use diamond_dev_tools.Prelude.Int.{ℤ, int_eq}
use diamond_dev_tools.Database.{Database}
use diamond_dev_tools.Ether.{to_lower_case}
use diamond_dev_tools.Sync.{needs_bootstrap}
use diamond_dev_tools.Block.Program.{Program, ◌>>=◌, ◌>>◌, call, statement, for_each, when, done}
use diamond_dev_tools.Block.Keeps.{Kept, Leads, answer-Leads, recall-Leads, bind-Leads}
use diamond_dev_tools.Block.Body.{Chain}
use diamond_dev_tools.Block.Transaction.{enter_node}
use diamond_dev_tools.Block.Bootstrap.{
  enter_known_validator, bootstrap_at_block, start_fill, highest,
}
use diamond_dev_tools.Block.{Memory, Tables, has_epoch, has_node, insert_epoch_node}
use diamond_dev_tools.Block.Behind.{
  Nothing, Behind, insert_start_headers-Behind, insert_epoch_header-Behind, seed_epoch-Behind,
  insert_pools-Behind,
}

module _ (db : Database) (Rest : Type 0) (chain : Chain) (get_epoch_start_block : ℕ → Option ℕ)
    (epoch : ℤ) (validator : Text) where
  abbrev Before : Memory → Tables db Rest → Type 0
  Before = Behind db Rest epoch validator

  -- No value.
  abbrev Never : Memory → Tables db Rest → Type 0
  Never m t = true ≡ false

  Never-Leads :
      {A : Type 0} (K : Memory → Tables db Rest → Type 0) (p : Program (Tables db Rest) A)
      → Leads Nothing Never K p
  Never-Leads K p = record { holds = λ m t e. cc }

  -- The row of the validator refers to an epoch that is not there.
  stated_epoch_node-none :
      (pool : Buffer) (t : Tables db Rest)
      → has_epoch db Rest epoch t ≡ false
      → insert_epoch_node db Rest epoch pool t ≡ none
  unfolding insert_epoch_node
  stated_epoch_node-none pool t h = elim (Bool-cases (has_node db Rest pool t)) [
    | inl there ↦ rw (there, h) refl
    | inr gone ↦ rw gone refl
  ]

  enter_node-throws :
      (node : Option Buffer) (m : Memory) (t : Tables db Rest)
      → has_epoch db Rest epoch t ≡ false
      → (pool : Buffer) × (node ≡ some pool)
      → Kept Nothing Never ((enter_node db Rest chain epoch node).run m t)
  unfolding statement
  enter_node-throws none m t h (pool, e) = cc
  enter_node-throws (some node) m t h (pool, e) = rw (stated_epoch_node-none node t h) tt

  enter_node-Behind :
      (node : Option Buffer) (m : Memory) (t : Tables db Rest)
      → Before m t
      → Kept Nothing Before ((enter_node db Rest chain epoch node).run m t)
  unfolding statement done
  enter_node-Behind none m t i = i
  enter_node-Behind (some node) m t i = rw (stated_epoch_node-none node t i.1) tt

  enter_all-Never :
      (validators : List Text)
      → any (λ v. v == validator) validators ≡ true
      → Leads Nothing Before Never
          (for_each validators (enter_known_validator db Rest chain get_epoch_start_block epoch))
  unfolding for_each enter_known_validator
  enter_all-Never [] h = cc
  enter_all-Never (v ∷ vs) h = elim (Bool-cases (v == validator)) [
    | inl same ↦
        bind-Leads Nothing Before Never Never _ _
          (recall-Leads Nothing Before Never _ (λ m t i. enter_node-throws _ m t i.1 (
            subst (λ w. (p : Buffer) × (m.known_nodes_by_mining (to_lower_case w) ≡ some p))
              (sym ((==_iff v validator).0 same)) i.2)))
          (λ _. Never-Leads Never _)
    | inr other ↦
        bind-Leads Nothing Before Before Never _ _
          (recall-Leads Nothing Before Before _ (λ m t i. enter_node-Behind _ m t i))
          (λ _. enter_all-Never vs (rw other at h))
  ]

  leading :
      {A B : Type 0} (K : Memory → Tables db Rest → Type 0) (answer : Option A)
      (f : A → Program (Tables db Rest) B)
      → ((a : A) → answer ≡ some a → Leads Nothing Before K (f a))
      → Leads Nothing Before K (call answer >>= f)
  leading K answer f = answer-Leads Nothing Before (λ m t i. tt) K answer f

  bootstrap_at_block-Never :
      (start : ℕ) (validators : List Text)
      → chain.get_epoch start ≡ some epoch
      → chain.get_validators start ≡ some validators
      → any (λ v. v == validator) validators ≡ true
      → Leads Nothing Before Never (bootstrap_at_block db Rest chain get_epoch_start_block start)
  unfolding bootstrap_at_block
  bootstrap_at_block-Never start validators epoch_is validators_are there =
      leading Never _ _ (λ e at_start. leading Never _ _ (λ epoch_start _.
        bind-Leads Nothing Before Before Never _ _
          (insert_start_headers-Behind db Rest chain get_epoch_start_block epoch validator start)
          (λ _.
            bind-Leads Nothing Before Before Never _ _
              (insert_epoch_header-Behind db Rest chain get_epoch_start_block epoch validator start
                epoch_start)
              (λ _.
                bind-Leads Nothing Before Before Never _ _
                  (seed_epoch-Behind db Rest chain get_epoch_start_block epoch validator e
                    epoch_start)
                  (λ _. leading Never _ _ (λ pools _.
                    bind-Leads Nothing Before Before Never _ _
                      (insert_pools-Behind db Rest chain get_epoch_start_block epoch validator start
                        pools)
                      (λ _. leading Never _ _ (λ vs answered.
                        bind-Leads Nothing Before Never Never _ _ (entered e vs at_start answered)
                          (λ _. Never-Leads Never _)))))))))
    where
      entered :
          (e : ℤ) (vs : List Text)
          → chain.get_epoch start ≡ some e
          → chain.get_validators start ≡ some vs
          → Leads Nothing Before Never
              (for_each vs (enter_known_validator db Rest chain get_epoch_start_block e))
      entered e vs f g =
          let same_epoch : epoch ≡ e = cc in
          let same_list : validators ≡ vs = cc in
          subst
            (λ x.
              Leads Nothing Before Never
                (for_each vs (enter_known_validator db Rest chain get_epoch_start_block x)))
            same_epoch
            (enter_all-Never vs (subst (λ l. any (λ v. v == validator) l ≡ true) same_list there))

  none_of :
      {A : Type 0} (r : Memory × Option (A × Tables db Rest)) → Kept Nothing Never r → r.1 ≡ none
  none_of (m, none) h = refl
  none_of (m, some (a, t)) h = cc

  -- A fill that starts more than one block behind the last header, with tables that have epochs, but
  -- not the one that the chain names for the start block: if one of the validators that it names has
  -- a known node, the start throws.
  pub start_fill-gap :
      (start last : ℕ) (validators : List Text) (m : Memory) (t : Tables db Rest)
      → highest (db.rows t.headers) ≡ some last
      → last + 1 < start
      → chain.get_epoch start ≡ some epoch
      → chain.get_validators start ≡ some validators
      → any (λ v. v == validator) validators ≡ true
      → Behind db Rest epoch validator m t
      → ((start_fill db Rest chain get_epoch_start_block start).run m t).1 ≡ none
  unfolding start_fill when needs_bootstrap
  start_fill-gap start last validators m t last_block gap epoch_is validators_are there behind =
      rw (last_block, lt→ltb (last + 1) start gap)
        (none_of ((bootstrap_at_block db Rest chain get_epoch_start_block start >> done tt).run m t)
          ((bind-Leads Nothing Before Never Never _ _
              (bootstrap_at_block-Never start validators epoch_is validators_are there)
              (λ _. Never-Leads Never _)).holds
            m t behind))
