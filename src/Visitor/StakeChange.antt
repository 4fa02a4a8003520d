-- ===== src/Visitor/StakeChange.antt =====
-- `visitStakeChangedEvent`: stakes placed and withdrawn.
use diamond_dev_tools.Prelude.{
  ◌≡◌, refl, sym, ap, ◌∙◌, subst, Bool, true, false, some, List, [], ◌∷◌, filter, any, head?,
  Buffer, Text, list_eq, Bool-cases, inl, inr,
}
use diamond_dev_tools.Prelude.Int.{ℤ, pos, ◌+ℤ◌}
use diamond_dev_tools.Database.{Database, distinct}
use diamond_dev_tools.Database.Rows.{distinct-cons}
use diamond_dev_tools.Ether.{address_to_buffer}
use diamond_dev_tools.Events.{StakeChangedEvent, is_delegator_stake, get_stake_change_amount}
use diamond_dev_tools.Stake.{StakeHistory, is_of}
use diamond_dev_tools.Stake.Reading.{get_last_stake_history_record-head}
use diamond_dev_tools.Stake.Succession.{IsWellKept}
use diamond_dev_tools.Visitor.{
  World, StakeDelegators, same_delegation, same_staker, insert_delegate_staker, insert_stakers,
  DelegateStaker,
}
use diamond_dev_tools.Visitor.Delegation.{Adds, zero-+ℤ, save_delegated_stake-Delegates}
use diamond_dev_tools.Visitor.Handlers.{change_delegation, change_stake, visit_stake_changed_event}
use diamond_dev_tools.Visitor.Histories.{
  IsReady, Shifts, own-node, succeed-Shifts, open_history-Shifts,
}

-- The tables of a world are well kept.
pub record IsKept (db : Database) (w : World db) : Type 0 where
  pub history : IsWellKept (db.rows w.history)
  pub delegations : distinct same_delegation (db.rows w.delegators) ≡ true
  pub stakers : distinct same_staker (db.rows w.stakers) ≡ true

-- The delegations grow by an amount if the stake is a delegator's, and are the same if not.
abbrev pub AddsIf :
    Bool → List StakeDelegators → List StakeDelegators → Buffer → Buffer → ℤ → Type 0
AddsIf true all next pool delegator amount = Adds all next pool delegator amount
AddsIf false all next pool delegator amount = next ≡ all

zero-sum : (a b : ℤ) → b ≡ a → a ≡ pos 0 +ℤ b
zero-sum a b h = zero-+ℤ a ∙ ap (◌+ℤ◌ (pos 0)) (sym h)

module _ (db : Database) where
  open db use {Table, rows}

  insert_stakers-keys :
      (ds : List Text) (t : Table DelegateStaker)
      → distinct same_staker (rows t) ≡ true
      → distinct same_staker (rows (insert_stakers db ds t)) ≡ true
  unfolding insert_stakers
  insert_stakers-keys [] t keys = keys
  insert_stakers-keys (d ∷ ds) t keys = insert_stakers-keys ds _ one
    where
      new : DelegateStaker
      new = record { id = address_to_buffer d }

      one : distinct same_staker (rows (db.insert_or_ignore same_staker new t)) ≡ true
      one = elim (Bool-cases (any (same_staker new) (rows t))) [
        | inl taken ↦ rw (db.insert_or_ignore_rows same_staker new t, taken) keys
        | inr free ↦
            rw (db.insert_or_ignore_rows same_staker new t, free)
              (distinct-cons same_staker new (rows t) free keys)
      ]

  -- The delegator's part does not fail, and leaves the history alone.
  change_delegation-AddsIf :
      (e : StakeChangedEvent) (w : World db)
      → IsKept db w
      → (v : World db) × (change_delegation db e w ≡ some v)
        × (v.history ≡ w.history)
        × IsKept db v
        × AddsIf
            (is_delegator_stake e)
            (rows w.delegators)
            (rows v.delegators)
            (address_to_buffer e.pool_address)
            (address_to_buffer e.staker_address)
            (get_stake_change_amount e)
  unfolding change_delegation insert_delegate_staker
  change_delegation-AddsIf e w k = elim (Bool-cases (is_delegator_stake e)) [
    | inr own ↦ (w, rw own refl, refl, k, rw own refl)
    | inl yes_it_is ↦
        let w' = insert_delegate_staker db (e.staker_address ∷ []) w in
        let (v, done, d) =
          save_delegated_stake-Delegates db e.pool_address e.staker_address
            (get_stake_change_amount e) w'
            (insert_stakers-keys (e.staker_address ∷ []) w.stakers k.stakers) k.delegations in
        (
          v,
          rw yes_it_is done,
          d.same_history,
          record {
            history = subst (λ h. IsWellKept (rows h)) (sym d.same_history) k.history;
            delegations = d.adds.keys;
            stakers = d.stakers;
          },
          rw yes_it_is d.adds,
        )
  ]

  change_stake-Shifts :
      (e : StakeChangedEvent) (w : World db) (own : List StakeHistory)
      → IsKept db w
      → filter (is_of (address_to_buffer e.pool_address)) (rows w.history) ≡ own
      → IsReady e.block_number own
      → (own ≡ [] → get_stake_change_amount e ≡ pos e.amount)
      → (h : Table StakeHistory) × (change_stake db e (head? own) w
          ≡ some (record w { history = h }))
        × Shifts
            (rows w.history)
            (rows h)
            (address_to_buffer e.pool_address)
            (get_stake_change_amount e)
  unfolding change_stake
  change_stake-Shifts e w [] k mine ready first =
      open_history-Shifts db w (address_to_buffer e.pool_address) e.block_number k.history
        (pos e.amount) (get_stake_change_amount e) mine
        (zero-sum (pos e.amount) (get_stake_change_amount e) (first refl))
  change_stake-Shifts e w (r ∷ rs) k mine ready first =
      succeed-Shifts db w (address_to_buffer e.pool_address) e.block_number k.history r rs
        (r.stake_amount +ℤ get_stake_change_amount e) (get_stake_change_amount e) r.node mine ready
        refl (own-node (address_to_buffer e.pool_address) (rows w.history) r rs mine)

  -- A stake placed or withdrawn, on well-kept tables: if the pool's records allow one more at this
  -- block, and a pool without a record does not begin with a withdrawal, then the visit succeeds, the
  -- tables are well kept again, the pool's stake changes by the signed amount of the event, no other
  -- pool's records change, and the same amount goes to the delegation if the staker is not the pool.
  pub visit_stake_changed_event-Shifts :
      (e : StakeChangedEvent) (w : World db)
      → IsKept db w
      → IsReady e.block_number (filter (is_of (address_to_buffer e.pool_address)) (rows w.history))
      → (filter (is_of (address_to_buffer e.pool_address)) (rows w.history) ≡ []
          → get_stake_change_amount e ≡ pos e.amount)
      → (v : World db) × (visit_stake_changed_event db e w ≡ some v)
        × IsKept db v
        × Shifts
            (rows w.history)
            (rows v.history)
            (address_to_buffer e.pool_address)
            (get_stake_change_amount e)
        × AddsIf
            (is_delegator_stake e)
            (rows w.delegators)
            (rows v.delegators)
            (address_to_buffer e.pool_address)
            (address_to_buffer e.staker_address)
            (get_stake_change_amount e)
  unfolding visit_stake_changed_event
  visit_stake_changed_event-Shifts e w k ready first =
      let P = address_to_buffer e.pool_address in
      let (v, done, same, k', adds) = change_delegation-AddsIf e w k in
      let own = filter (is_of P) (rows v.history) in
      let old = ap (λ (h : Table StakeHistory). filter (is_of P) (rows h)) same in
      let (h, done', x) =
        change_stake-Shifts e v own k' refl (subst (IsReady e.block_number) (sym old) ready)
          (λ none_yet. first (sym old ∙ none_yet)) in
      (
        record v { history = h },
        rw (done, get_last_stake_history_record-head db e.pool_address v.history k'.history) done',
        record { history = x.kept; delegations = k'.delegations; stakers = k'.stakers },
        subst (λ (h' : Table StakeHistory). Shifts (rows h') (rows h) P (get_stake_change_amount e))
            same x,
        adds,
      )
