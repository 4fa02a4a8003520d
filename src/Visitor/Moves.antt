-- ===== src/Visitor/Moves.antt =====
-- `visitMovedStakeEvent` and `visitGatherAbandonedStakesEvent`: stake that leaves a pool.
use diamond_dev_tools.Prelude.{
  ◌≡◌, ◌≢◌, refl, sym, ap, ◌∙◌, subst, Bool, true, false, not, some, List, [], ◌∷◌, filter, head?,
  Buffer, Text, ◌==◌, list_eq, if◌then◌else◌,
}
use diamond_dev_tools.Prelude.Int.{ℤ, pos, neg, ◌+ℤ◌, ◌-ℤ◌, int_laws}
use diamond_dev_tools.Database.{Database}
use diamond_dev_tools.Ether.{address_to_buffer}
use diamond_dev_tools.Events.{MovedStakeEvent, GatherAbandonedStakesEvent}
use diamond_dev_tools.Stake.{StakeHistory, is_of}
use diamond_dev_tools.Stake.Reading.{get_last_stake_history_record-head}
use diamond_dev_tools.Stake.Succession.{IsWellKept}
use diamond_dev_tools.Visitor.{World, StakeDelegators, save_delegated_stake}
use diamond_dev_tools.Visitor.Delegation.{save_delegated_stake-Delegates}
use diamond_dev_tools.Visitor.Dispatch.{
  receive_stake, move_delegation, move_stake, visit_moved_stake_event, gather_stake,
  visit_gather_abandoned_stakes_event,
}
use diamond_dev_tools.Visitor.Histories.{
  amount_of, stake_at, IsReady, Shifts, own-node, succeed-Shifts, open_history-Shifts,
}
use diamond_dev_tools.Visitor.StakeChange.{IsKept, AddsIf}

pub minus_neg : (a b : ℤ) → a -ℤ b ≡ a +ℤ neg b
minus_neg a b = omega int_laws

-- The delegations before and after a move: out of one pool, then into the other.
pub record MovesDelegation (e : MovedStakeEvent) (before after : List StakeDelegators)
    : Type 0 where
  pub between : List StakeDelegators
  pub left :
      AddsIf
        (not (e.from_pool_address == e.staker_address))
        before
        between
        (address_to_buffer e.from_pool_address)
        (address_to_buffer e.staker_address)
        (neg (pos e.amount))
  pub entered :
      AddsIf
        (not (e.to_pool_address == e.staker_address))
        between
        after
        (address_to_buffer e.to_pool_address)
        (address_to_buffer e.staker_address)
        (pos e.amount)

module _ (db : Database) where
  open db use {Table, rows}

  saved_if :
      (b : Bool) (pool delegator : Text) (amount : ℤ) (w : World db)
      → IsKept db w
      → (v : World db) × ((if b then save_delegated_stake db pool delegator amount w else some w)
          ≡ some v)
        × (v.history ≡ w.history)
        × IsKept db v
        × AddsIf b
            (rows w.delegators)
            (rows v.delegators)
            (address_to_buffer pool)
            (address_to_buffer delegator)
            amount
  saved_if false pool delegator amount w k = (w, refl, refl, k, refl)
  saved_if true pool delegator amount w k =
      let (v, done, d) =
        save_delegated_stake-Delegates db pool delegator amount w k.stakers k.delegations in
      (
        v,
        done,
        d.same_history,
        record {
          history = subst (λ h. IsWellKept (rows h)) (sym d.same_history) k.history;
          delegations = d.adds.keys;
          stakers = d.stakers;
        },
        d.adds,
      )

  move_delegation-Moves :
      (e : MovedStakeEvent) (w : World db)
      → IsKept db w
      → (v : World db) × (move_delegation db e w ≡ some v)
        × (v.history ≡ w.history)
        × IsKept db v
        × MovesDelegation e (rows w.delegators) (rows v.delegators)
  unfolding move_delegation
  move_delegation-Moves e w k =
      let (u, done, same, k', a) =
        saved_if (not (e.from_pool_address == e.staker_address)) e.from_pool_address
          e.staker_address (neg (pos e.amount)) w k in
      let (v, done', same', k'', a') =
        saved_if (not (e.to_pool_address == e.staker_address)) e.to_pool_address e.staker_address
          (pos e.amount) u k' in
      (
        v,
        rw done done',
        same' ∙ same,
        k'',
        record { between = rows u.delegators; left = a; entered = a' },
      )

  receive_stake-Shifts :
      (e : MovedStakeEvent) (w : World db) (own : List StakeHistory)
      → IsKept db w
      → filter (is_of (address_to_buffer e.to_pool_address)) (rows w.history) ≡ own
      → IsReady e.block_number own
      → (h : Table StakeHistory) × (receive_stake db e (head? own) w
          ≡ some (record w { history = h }))
        × Shifts (rows w.history) (rows h) (address_to_buffer e.to_pool_address) (pos e.amount)
  unfolding receive_stake
  receive_stake-Shifts e w [] k mine ready =
      open_history-Shifts db w (address_to_buffer e.to_pool_address) e.block_number k.history
        (pos 0 +ℤ pos e.amount) (pos e.amount) mine refl
  receive_stake-Shifts e w (r ∷ rs) k mine ready =
      succeed-Shifts db w (address_to_buffer e.to_pool_address) e.block_number k.history r rs
        (r.stake_amount +ℤ pos e.amount) (pos e.amount) (address_to_buffer e.to_pool_address) mine
        ready refl refl

  -- Abandoned stake that is gathered, on well-kept tables, if the pool has a record and its records
  -- allow one more at this block: the visit succeeds, the pool's stake falls by the amount, and no
  -- other pool's records change.
  pub visit_gather_abandoned_stakes_event-Shifts :
      (e : GatherAbandonedStakesEvent) (w : World db) (r : StakeHistory) (rs : List StakeHistory)
      → IsKept db w
      → filter (is_of (address_to_buffer e.pool_address)) (rows w.history) ≡ r ∷ rs
      → IsReady e.block_number (r ∷ rs)
      → (h : Table StakeHistory) × (visit_gather_abandoned_stakes_event db e w
          ≡ some (record w { history = h }))
        × Shifts (rows w.history) (rows h) (address_to_buffer e.pool_address) (neg (pos e.amount))
  unfolding visit_gather_abandoned_stakes_event gather_stake
  visit_gather_abandoned_stakes_event-Shifts e w r rs k mine ready =
      rw
        (
          get_last_stake_history_record-head db e.pool_address w.history k.history ∙ ap head? mine,
          gather_stake,
        )
        (succeed-Shifts db w (address_to_buffer e.pool_address) e.block_number k.history r rs
          (r.stake_amount -ℤ pos e.amount) (neg (pos e.amount)) (address_to_buffer e.pool_address)
          mine ready (minus_neg r.stake_amount (pos e.amount)) refl)

-- Stake moved from one pool to another.
pub record Moves (db : Database) (e : MovedStakeEvent) (w v : World db) : Type 0 where
  pub kept : IsKept db v
  pub given :
      stake_at (address_to_buffer e.from_pool_address) (db.rows v.history)
      ≡ stake_at (address_to_buffer e.from_pool_address) (db.rows w.history) +ℤ neg (pos e.amount)
  pub received :
      stake_at (address_to_buffer e.to_pool_address) (db.rows v.history)
      ≡ stake_at (address_to_buffer e.to_pool_address) (db.rows w.history) +ℤ pos e.amount
  pub others :
      (m : Buffer)
      → m ≢ address_to_buffer e.from_pool_address
      → m ≢ address_to_buffer e.to_pool_address
      → filter (is_of m) (db.rows v.history) ≡ filter (is_of m) (db.rows w.history)
  pub delegations : MovesDelegation e (db.rows w.delegators) (db.rows v.delegators)

module _ (db : Database) where
  open db use {Table, rows}

  -- A move between two different pools, on well-kept tables: if the pool that gives has a record and
  -- both pools' records allow one more at this block, then the visit succeeds, the one stake falls
  -- and the other grows by the amount, no third pool's records change, the tables are well kept
  -- again, and each delegation moves unless the staker is that pool.
  pub visit_moved_stake_event-Moves :
      (e : MovedStakeEvent) (w : World db) (r : StakeHistory) (rs : List StakeHistory)
      → IsKept db w
      → address_to_buffer e.to_pool_address ≢ address_to_buffer e.from_pool_address
      → filter (is_of (address_to_buffer e.from_pool_address)) (rows w.history) ≡ r ∷ rs
      → IsReady e.block_number (r ∷ rs)
      → IsReady e.block_number
          (filter (is_of (address_to_buffer e.to_pool_address)) (rows w.history))
      → (v : World db) × (visit_moved_stake_event db e w ≡ some v) × Moves db e w v
  unfolding visit_moved_stake_event move_stake
  visit_moved_stake_event-Moves e w r rs k apart mine ready ready' =
      let F = address_to_buffer e.from_pool_address in
      let T = address_to_buffer e.to_pool_address in
      let (h, done, x) =
        succeed-Shifts db w F e.block_number k.history r rs (r.stake_amount -ℤ pos e.amount)
          (neg (pos e.amount)) r.node mine ready (minus_neg r.stake_amount (pos e.amount))
          (own-node F (rows w.history) r rs mine) in
      let given : World db = record w { history = h } in
      let k1 : IsKept db given = record {
        history = x.kept;
        delegations = k.delegations;
        stakers = k.stakers;
      } in
      let same : filter (is_of T) (rows h) ≡ filter (is_of T) (rows w.history) = x.others T apart in
      let (h', done', y) =
        receive_stake-Shifts db e given (filter (is_of T) (rows h)) k1 refl
          (subst (IsReady e.block_number) (sym same) ready') in
      let taken : World db = record given { history = h' } in
      let k2 : IsKept db taken = record {
        history = y.kept;
        delegations = k.delegations;
        stakers = k.stakers;
      } in
      let (v, done'', same', k3, d) = move_delegation-Moves db e taken k2 in
      let now = ap rows same' in
      (
        v,
        rw
            (
              get_last_stake_history_record-head db e.from_pool_address w.history k.history
                  ∙ ap head? mine,
              move_stake,
              done,
              get_last_stake_history_record-head db e.to_pool_address h x.kept,
              done',
            )
            done'',
        record {
          kept = k3;
          given =
              ap (stake_at F) now
              ∙ (ap (λ l. amount_of (head? l)) (y.others F (λ p. apart (sym p))) ∙ x.shifted);
          received =
              ap (stake_at T) now
              ∙ (y.shifted ∙ ap (λ l. amount_of (head? l) +ℤ pos e.amount) same);
          others = λ m f t. ap (filter (is_of m)) now ∙ (y.others m t ∙ x.others m f);
          delegations = d;
        },
      )
