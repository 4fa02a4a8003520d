-- ===== src/Visitor/Claims.antt =====
-- `visitClaimedOrderedWithdrawalEvent` (src/eventsVisitor.ts): an open order that is claimed.
use diamond_dev_tools.Prelude.{
  ℕ, ◌≡◌, refl, ap, ◌∙◌, true, some, List, [], ◌∷◌, filter, head?, arith, Buffer, ◌==◌, nat_eq,
  list_eq, ==-refl,
}
use diamond_dev_tools.Prelude.Int.{pos, neg, ◌-ℤ◌}
use diamond_dev_tools.Database.{Database, set_where, distinct}
use diamond_dev_tools.Database.Lookup.{distinct-set_where}
use diamond_dev_tools.Ether.{address_to_buffer}
use diamond_dev_tools.Events.{WithdrawalEvent}
use diamond_dev_tools.Stake.{StakeHistory, is_of}
use diamond_dev_tools.Stake.Reading.{get_last_stake_history_record-head}
use diamond_dev_tools.Stake.Succession.{IsWellKept}
use diamond_dev_tools.Visitor.{OrderedWithdrawal, World, same_order, get_order_withdrawal_event}
use diamond_dev_tools.Visitor.Handlers.{claim, visit_claimed_ordered_withdrawal_event}
use diamond_dev_tools.Visitor.Histories.{IsReady, Shifts, own-node, succeed-Shifts}
use diamond_dev_tools.Visitor.Moves.{minus_neg}
use diamond_dev_tools.Visitor.Orders.{awaits, by_id}

abbrev claims : ℕ → OrderedWithdrawal → OrderedWithdrawal
claims block r = record r { claimed_on_block = some block }

-- From `all` to `next` the open order of a pool and a staker is claimed.
pub record Claims (all next : List OrderedWithdrawal) (pool staker : Buffer) (block : ℕ)
    : Type 0 where
  pub keys : distinct same_order next ≡ true
  pub rows : next ≡ set_where (awaits pool staker) (claims block) all
  pub none_open : filter (awaits pool staker) next ≡ []

no_longer :
    (pool staker : Buffer) (block : ℕ) (all : List OrderedWithdrawal)
    → filter (awaits pool staker) (set_where (awaits pool staker) (claims block) all) ≡ []
no_longer pool staker block [] = refl
no_longer pool staker block (r ∷ rs) = ground (arith, no_longer pool staker block rs)

module _ (db : Database) where
  open db use {Table, rows}

  -- A claimed withdrawal with an open order, on well-kept histories and orders with distinct ids, if
  -- the pool has a record and allows one more at this block: the visit succeeds, the order is the
  -- only row that changes and is no longer open, the pool's stake falls by the amount of the event,
  -- and no other pool's records change.
  pub visit_claimed_ordered_withdrawal_event-Claims :
      (e : WithdrawalEvent) (w : World db) (o : OrderedWithdrawal) (r : StakeHistory)
      (rs : List StakeHistory)
      → IsWellKept (rows w.history)
      → distinct same_order (rows w.orders) ≡ true
      → filter
          (awaits (address_to_buffer e.pool_address) (address_to_buffer e.staker_address))
          (rows w.orders)
        ≡ o ∷ []
      → filter (is_of (address_to_buffer e.pool_address)) (rows w.history) ≡ r ∷ rs
      → IsReady e.block_number (r ∷ rs)
      → (t : Table OrderedWithdrawal) × (h : Table StakeHistory)
        × (visit_claimed_ordered_withdrawal_event db e w
            ≡ some (record w { orders = t; history = h }))
        × Claims
            (rows w.orders)
            (rows t)
            (address_to_buffer e.pool_address)
            (address_to_buffer e.staker_address)
            e.block_number
        × Shifts (rows w.history) (rows h) (address_to_buffer e.pool_address) (neg (pos e.amount))
  unfolding visit_claimed_ordered_withdrawal_event claim get_order_withdrawal_event
  visit_claimed_ordered_withdrawal_event-Claims e w o r rs kept keys one mine ready =
      let P = address_to_buffer e.pool_address in
      let S = address_to_buffer e.staker_address in
      let all = rows w.orders in
      let f = claims e.block_number in
      let (t, done, now) =
        db.update_keep same_order (λ q. q.id == o.id) f w.orders (λ q. ==-refl q.id)
          (distinct-set_where same_order (λ q. q.id == o.id) f (λ _ _. refl) (λ _ _. refl) all
            ∙ keys) in
      let changed = now ∙ by_id (awaits P S) f all o keys one in
      let claimed : World db = record w { orders = t } in
      let (h, done', x) =
        succeed-Shifts db claimed P e.block_number kept r rs (r.stake_amount -ℤ pos e.amount)
          (neg (pos e.amount)) r.node mine ready (minus_neg r.stake_amount (pos e.amount))
          (own-node P (rows w.history) r rs mine) in
      (
        t,
        h,
        rw
            (
              db.find_one_some (awaits P S) w.orders o one,
              get_last_stake_history_record-head db e.pool_address w.history kept ∙ ap head? mine,
              claim,
              done,
            )
            done',
        record {
          keys =
              ap (distinct same_order) changed
              ∙ (distinct-set_where same_order (awaits P S) f (λ _ _. refl) (λ _ _. refl) all
                  ∙ keys);
          rows = changed;
          none_open = ap (filter (awaits P S)) changed ∙ no_longer P S e.block_number all;
        },
        x,
      )
