-- ===== src/Block/Nodes.antt =====
-- The statements that leave the rows of `node` alone.
use diamond_dev_tools.Prelude.{
  ℕ, ◌≡◌, refl, sym, ap, ◌∙◌, Bool, true, false, Option, none, some, List, Text, Buffer,
  Option-cases, inl, inr,
}
use diamond_dev_tools.Prelude.Int.{ℤ}
use diamond_dev_tools.Database.{Database}
use diamond_dev_tools.BonusScore.{BonusScoreHistory}
use diamond_dev_tools.Rewards.{DelegateRewards, DelegateRewardData}
use diamond_dev_tools.Block.{
  Header, Node, PosdaoEpoch, PosdaoEpochNode, Tables, checked, put_scores, put_epochs,
  put_epoch_nodes, insert_all, insert_header, insert_score, insert_staking_epoch, end_staking_epoch,
  insert_epoch_node, update_validator_reward, insert_delegate_stakers, insert_delegate_rewards_bulk,
}

module _ (db : Database) (Rest : Type 0) where
  -- What a statement may result in that leaves the nodes alone.
  pub data SameNodes (t : Tables db Rest) : Option (Tables db Rest) → Type 0 where
    refused : SameNodes t none
    kept : (u : Tables db Rest) → u.nodes ≡ t.nodes → SameNodes t (some u)

  nodes_or : Tables db Rest → Option (Tables db Rest) → db.Table Node
  nodes_or t none = t.nodes
  nodes_or t (some u) = u.nodes

  pub nodes_of_SameNodes :
      (t u : Tables db Rest) (o : Option (Tables db Rest))
      → SameNodes t o
      → o ≡ some u
      → u.nodes ≡ t.nodes
  unfolding nodes_or
  nodes_of_SameNodes t u _ refused e = sym (ap (nodes_or t) e)
  nodes_of_SameNodes t u _ (kept v h) e = sym (ap (nodes_or t) e) ∙ h

  module _ (t : Tables db Rest) where
    checked-SameNodes :
        (b : Bool) (o : Option (Tables db Rest)) → SameNodes t o → SameNodes t (checked db Rest b o)
    checked-SameNodes true o h = h
    checked-SameNodes false o h = refused

    put_scores-SameNodes :
        (o : Option (db.Table BonusScoreHistory)) → SameNodes t (put_scores db Rest t o)
    put_scores-SameNodes none = refused
    put_scores-SameNodes (some s) = kept _ refl

    put_epochs-SameNodes :
        (o : Option (db.Table PosdaoEpoch)) → SameNodes t (put_epochs db Rest t o)
    put_epochs-SameNodes none = refused
    put_epochs-SameNodes (some s) = kept _ refl

    put_epoch_nodes-SameNodes :
        (o : Option (db.Table PosdaoEpochNode)) → SameNodes t (put_epoch_nodes db Rest t o)
    put_epoch_nodes-SameNodes none = refused
    put_epoch_nodes-SameNodes (some s) = kept _ refl

    pub insert_header-SameNodes : (h : Header) → SameNodes t (insert_header db Rest h t)
    unfolding insert_header
    insert_header-SameNodes h = kept _ refl

    pub insert_score-SameNodes :
        (pool : Text) (block score : ℕ) → SameNodes t (insert_score db Rest pool block score t)
    unfolding insert_score
    insert_score-SameNodes pool block score = checked-SameNodes _ _ (put_scores-SameNodes _)

    pub insert_staking_epoch-SameNodes :
        (epoch : ℤ) (block : ℕ) → SameNodes t (insert_staking_epoch db Rest epoch block t)
    unfolding insert_staking_epoch
    insert_staking_epoch-SameNodes epoch block = checked-SameNodes _ _ (put_epochs-SameNodes _)

    pub end_staking_epoch-SameNodes :
        (epoch last : ℤ) → SameNodes t (end_staking_epoch db Rest epoch last t)
    unfolding end_staking_epoch
    end_staking_epoch-SameNodes epoch last = checked-SameNodes _ _ (put_epochs-SameNodes _)

    pub insert_epoch_node-SameNodes :
        (epoch : ℤ) (pool : Buffer) → SameNodes t (insert_epoch_node db Rest epoch pool t)
    unfolding insert_epoch_node
    insert_epoch_node-SameNodes epoch pool = checked-SameNodes _ _ (put_epoch_nodes-SameNodes _)

    pub update_validator_reward-SameNodes :
        (pool : Text) (epoch owner : ℤ) (r : DelegateRewards)
        → SameNodes t (update_validator_reward db Rest pool epoch owner r t)
    unfolding update_validator_reward
    update_validator_reward-SameNodes pool epoch owner r = put_epoch_nodes-SameNodes _

    pub insert_delegate_stakers-SameNodes :
        (ds : List Text) → SameNodes t (insert_delegate_stakers db Rest ds t)
    unfolding insert_delegate_stakers
    insert_delegate_stakers-SameNodes ds = kept _ refl

    pub insert_delegate_rewards_bulk-SameNodes :
        (rs : List DelegateRewardData) → SameNodes t (insert_delegate_rewards_bulk db Rest rs t)
    unfolding insert_delegate_rewards_bulk
    insert_delegate_rewards_bulk-SameNodes rs =
        elim (Option-cases (insert_all db Rest t rs t.delegate_rewards)) [
          | inl e ↦ rw (e, insert_delegate_rewards_bulk) refused
          | inr (u, e) ↦ rw (e, insert_delegate_rewards_bulk) (kept _ refl)
        ]
