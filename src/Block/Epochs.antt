-- ===== src/Block/Epochs.antt =====
-- Statements that leave the epochs alone.
use diamond_dev_tools.Prelude.{
  ℕ, ◌≡◌, refl, sym, ap, ◌∙◌, Bool, true, false, Option, none, some, Text, list_eq,
}
use diamond_dev_tools.Prelude.Int.{int_eq}
use diamond_dev_tools.Database.{Database}
use diamond_dev_tools.BonusScore.{BonusScoreHistory}
use diamond_dev_tools.Block.{
  Header, Node, PosdaoEpoch, Tables, checked, put_nodes, put_scores, insert_header, insert_node,
  insert_score,
}

module _ (db : Database) (Rest : Type 0) where
  -- A statement leaves the epochs as they are.
  pub data SameEpochs (t : Tables db Rest) : Option (Tables db Rest) → Type 0 where
    refused : SameEpochs t none
    kept : (u : Tables db Rest) → u.posdao_epochs ≡ t.posdao_epochs → SameEpochs t (some u)

  epochs_or : Tables db Rest → Option (Tables db Rest) → db.Table PosdaoEpoch
  epochs_or t none = t.posdao_epochs
  epochs_or t (some u) = u.posdao_epochs

  pub epochs_of_SameEpochs :
      (t u : Tables db Rest) (o : Option (Tables db Rest))
      → SameEpochs t o
      → o ≡ some u
      → u.posdao_epochs ≡ t.posdao_epochs
  unfolding epochs_or
  epochs_of_SameEpochs t u _ refused e = sym (ap (epochs_or t) e)
  epochs_of_SameEpochs t u _ (kept v h) e = sym (ap (epochs_or t) e) ∙ h

  checked-SameEpochs :
      (t : Tables db Rest) (b : Bool) (o : Option (Tables db Rest))
      → SameEpochs t o
      → SameEpochs t (checked db Rest b o)
  checked-SameEpochs t true o h = h
  checked-SameEpochs t false o h = refused

  put_nodes-SameEpochs :
      (t : Tables db Rest) (o : Option (db.Table Node)) → SameEpochs t (put_nodes db Rest t o)
  put_nodes-SameEpochs t none = refused
  put_nodes-SameEpochs t (some n) = kept _ refl

  put_scores-SameEpochs :
      (t : Tables db Rest) (o : Option (db.Table BonusScoreHistory))
      → SameEpochs t (put_scores db Rest t o)
  put_scores-SameEpochs t none = refused
  put_scores-SameEpochs t (some s) = kept _ refl

  pub insert_header-SameEpochs :
      (h : Header) (t : Tables db Rest) → SameEpochs t (insert_header db Rest h t)
  unfolding insert_header
  insert_header-SameEpochs h t = kept _ refl

  pub insert_node-SameEpochs :
      (n : Node) (t : Tables db Rest) → SameEpochs t (insert_node db Rest n t)
  unfolding insert_node
  insert_node-SameEpochs n t = checked-SameEpochs t _ _ (put_nodes-SameEpochs t _)

  pub insert_score-SameEpochs :
      (pool : Text) (block score : ℕ) (t : Tables db Rest)
      → SameEpochs t (insert_score db Rest pool block score t)
  unfolding insert_score
  insert_score-SameEpochs pool block score t = checked-SameEpochs t _ _ (put_scores-SameEpochs t _)
