-- ===== src/Block/Behind.antt =====
-- What a bootstrap (src/db/runFillDb.ts) keeps while it inserts headers and nodes: the epochs, and that
-- a validator has a known node.
use diamond_dev_tools.Prelude.{
  ℕ, ◌≡◌, ◌≢◌, refl, sym, subst, ◌∙◌, Bool, true, false, Option, some, List, [], ◌∷◌, any, Text,
  Buffer, ◌==◌, list_eq, if◌then◌else◌,
}
use diamond_dev_tools.Prelude.Int.{ℤ, int_eq}
use diamond_dev_tools.Database.{Database}
use diamond_dev_tools.Ether.{to_lower_case}
use diamond_dev_tools.Block.Program.{Program, ◌>>=◌, call, statement, for_each, remember}
use diamond_dev_tools.Block.Keeps.{
  Keeps, answer-Keeps, statement-Keeps, remember-Leads, bind-Keeps, when-Keeps, done-Keeps,
  recall-Keeps,
}
use diamond_dev_tools.Block.Body.{Chain, insert_new_node, insert_unknown_node}
use diamond_dev_tools.Block.Bootstrap.{
  insert_header_for_block, insert_start_headers, insert_epoch_header, seed_epoch,
}
use diamond_dev_tools.Block.{Memory, Tables, has_epoch, insert_staking_epoch}
use diamond_dev_tools.Block.Epochs.{
  SameEpochs, epochs_of_SameEpochs, insert_header-SameEpochs, insert_node-SameEpochs,
  insert_score-SameEpochs,
}

abbrev pub Nothing : Memory → Type 0
Nothing m = Unit

module _ (db : Database) (Rest : Type 0) (epoch : ℤ) (validator : Text) where
  abbrev pub IsNode : Memory → Type 0
  IsNode m = (pool : Buffer) × (m.known_nodes_by_mining (to_lower_case validator) ≡ some pool)

  -- There are epochs, not the one of the start block, and the validator has a known node.
  abbrev pub Behind : Memory → Tables db Rest → Type 0
  Behind m t = (db.rows t.posdao_epochs ≢ []) × (has_epoch db Rest epoch t ≡ false) × IsNode m

module _ (db : Database) (Rest : Type 0) (chain : Chain) (get_epoch_start_block : ℕ → Option ℕ)
    (epoch : ℤ) (validator : Text) where
  abbrev Before : Memory → Tables db Rest → Type 0
  Before = Behind db Rest epoch validator

  same-Behind :
      (f : Tables db Rest → Option (Tables db Rest))
      → ((t : Tables db Rest) → SameEpochs db Rest t (f t))
      → Keeps Nothing Before (statement f)
  same-Behind f h =
      statement-Keeps Nothing Before (λ m t i. tt) f
        (λ m t u i e.
          let same : u.posdao_epochs ≡ t.posdao_epochs =
            epochs_of_SameEpochs db Rest t u (f t) (h t) e in
          (
            subst (λ p. db.rows p ≢ []) (sym same) i.0,
            subst (λ p. any (λ e. e.id == epoch) (db.rows p) ≡ false) (sym same) i.1,
            i.2,
          ))

  calling :
      {A B : Type 0} (answer : Option A) (f : A → Program (Tables db Rest) B)
      → ((a : A) → Keeps Nothing Before (f a))
      → Keeps Nothing Before (call answer >>= f)
  calling answer f g = answer-Keeps Nothing Before (λ m t i. tt) answer f (λ a e. g a)

  insert_header_for_block-Behind :
      (block before : ℕ)
      → Keeps Nothing Before
          (insert_header_for_block db Rest chain get_epoch_start_block block before)
  unfolding insert_header_for_block
  insert_header_for_block-Behind block before = calling _ _ (λ h.
      calling _ _ (λ e. calling _ _ (λ p. same-Behind _ (insert_header-SameEpochs db Rest _))))

  pub insert_start_headers-Behind :
      (start : ℕ)
      → Keeps Nothing Before (insert_start_headers db Rest chain get_epoch_start_block start)
  unfolding insert_start_headers
  insert_start_headers-Behind start = when-Keeps Nothing Before _ _ (
      calling _ _ (λ prior. calling _ _ (λ before.
        bind-Keeps Nothing Before _ _ (insert_header_for_block-Behind _ _)
          (λ _. insert_header_for_block-Behind _ _))))

  pub insert_epoch_header-Behind :
      (start epoch_start : ℕ)
      → Keeps Nothing Before
          (insert_epoch_header db Rest chain get_epoch_start_block start epoch_start)
  unfolding insert_epoch_header
  insert_epoch_header-Behind start epoch_start =
      when-Keeps Nothing Before _ _ (calling _ _ (λ before. insert_header_for_block-Behind _ _))

  seed_epoch-some :
      (e : ℤ) (epoch_start : ℕ) (t : Tables db Rest)
      → db.rows t.posdao_epochs ≢ []
      → seed_epoch db Rest chain get_epoch_start_block e epoch_start t ≡ some t
  unfolding seed_epoch
  seed_epoch-some e epoch_start t h =
      elim (db.rows t.posdao_epochs)
          as (λ rows.
            rows ≢ []
            → (elim rows [ [] ↦ insert_staking_epoch db Rest e epoch_start t | x ∷ xs ↦ some t ])
              ≡ some t) [ [] ↦ (λ no. absurd (no refl)) | x ∷ xs ↦ (λ no. refl) ]
        h

  when_set :
      (b : Bool) (known : Option Buffer) (pool : Buffer)
      → (p : Buffer) × (known ≡ some p)
      → (p : Buffer) × ((if b then some pool else known) ≡ some p)
  when_set true known pool h = (pool, refl)
  when_set false known pool h = h

  insert_new_node-Behind :
      (pool : Text) (block : ℕ) → Keeps Nothing Before (insert_new_node db Rest chain pool block)
  unfolding insert_new_node
  insert_new_node-Behind pool block = calling _ _ (λ mining. calling _ _ (λ key.
      calling _ _ (λ score.
        bind-Keeps Nothing Before _ _ (same-Behind _ (insert_node-SameEpochs db Rest _)) (λ _.
          calling _ _ (λ current.
            bind-Keeps Nothing Before _ _
              (same-Behind _ (insert_score-SameEpochs db Rest pool block current))
              (λ _. bind-Keeps Nothing Before _ _ (remembering _ (λ m t i. i)) (λ _.
                bind-Keeps Nothing Before _ _ (remembering _ (λ m t i. i)) (λ _.
                  remembering _ (λ m t i. (
                    i.0,
                    i.1,
                    when_set (to_lower_case validator == to_lower_case mining)
                        (m.known_nodes_by_mining (to_lower_case validator)) _ i.2,
                  ))))))))))
    where
      remembering :
          (f : Memory → Memory)
          → ((m : Memory) (t : Tables db Rest) → Before m t → Before (f m) t)
          → Keeps Nothing Before (remember f)
      remembering f h = remember-Leads Nothing Before Before f h

  insert_unknown_node-Behind :
      (block : ℕ) (pool : Text)
      → Keeps Nothing Before (insert_unknown_node db Rest chain block pool)
  unfolding insert_unknown_node
  insert_unknown_node-Behind block pool =
      bind-Keeps Nothing Before _ _ (recall-Keeps Nothing Before)
        (λ m. when-Keeps Nothing Before _ _ (insert_new_node-Behind pool block))

  pub seed_epoch-Behind :
      (e : ℤ) (epoch_start : ℕ)
      → Keeps Nothing Before
          (statement (seed_epoch db Rest chain get_epoch_start_block e epoch_start))
  seed_epoch-Behind e epoch_start =
      statement-Keeps Nothing Before (λ m t i. tt) _
        (λ m t u i h.
          let same : some t ≡ some u = sym (seed_epoch-some e epoch_start t i.0) ∙ h in
          let tables : t ≡ u = cc in subst (Before m) tables i)

  pub insert_pools-Behind :
      (start : ℕ) (pools : List Text)
      → Keeps Nothing Before (for_each pools (insert_unknown_node db Rest chain start))
  unfolding for_each
  insert_pools-Behind start [] = done-Keeps Nothing Before _
  insert_pools-Behind start (p ∷ ps) =
      bind-Keeps Nothing Before _ _ (insert_unknown_node-Behind start p)
        (λ _. insert_pools-Behind start ps)
