-- ===== src/Stake/Reading.antt =====
-- The two queries of `getLastStakeHistoryRecord` (src/db/database-persistent.ts).
use diamond_dev_tools.Prelude.{
  ◌≡◌, refl, sym, ap, ◌∙◌, Bool, ◌&&◌, List, [], ◌∷◌, Buffer, Text, ◌==◌, nat_eq, list_eq, filter,
  arith, head?, ==-refl, filter-none, filter-imp, All-map_imp, subst,
}
use diamond_dev_tools.Prelude.Int.{int_eq}
use diamond_dev_tools.Database.{Database}
use diamond_dev_tools.Database.Rows.{filter-head}
use diamond_dev_tools.Ether.{address_to_buffer}
use diamond_dev_tools.Stake.{StakeHistory, is_of, get_last_stake_history_record}
use diamond_dev_tools.Stake.Timeline.{IsTimeline, last_rows-head, last_rows-none}
use diamond_dev_tools.Stake.History.{older_end}
use diamond_dev_tools.Stake.Succession.{IsWellKept}

-- The condition of the second query, `findOne` by the columns of the line.
abbrev matches : Buffer → StakeHistory → StakeHistory → Bool
matches node line r =
    is_of node r
    && (r.from_block == line.from_block
        && r.to_block == line.to_block
        && r.stake_amount == line.stake_amount)

filter-matches :
    (node : Buffer) (all : List StakeHistory) (r : StakeHistory) (rs : List StakeHistory)
    → filter (is_of node) all ≡ r ∷ rs
    → IsTimeline (r ∷ rs)
    → filter (matches node r) all ≡ r ∷ []
filter-matches node all r rs e h =
    sym (filter-imp (matches node r) (is_of node) all (λ q p. ground arith))
    ∙ (ap (filter (matches node r)) e ∙ newest)
  where
    newest : filter (matches node r) (r ∷ rs) ≡ r ∷ []
    newest =
        rw
          (
            filter-head (is_of node) all r rs e,
            ==-refl r.from_block,
            ==-refl r.to_block,
            ==-refl r.stake_amount,
          )
          (ap (λ l. r ∷ l)
            (filter-none (matches node r) rs
              (All-map_imp (λ q p. ground arith) rs (older_end r rs h))))

module _ (db : Database) where
  open db use {Table, rows}

  -- On well-kept rows the method returns the newest record of the pool, and null for a pool that
  -- has no record.
  pub get_last_stake_history_record-head :
      (pool : Text) (t : Table StakeHistory)
      → IsWellKept (rows t)
      → get_last_stake_history_record db pool t
        ≡ head? (filter (is_of (address_to_buffer pool)) (rows t))
  unfolding get_last_stake_history_record
  get_last_stake_history_record-head pool t w = cases (filter (is_of node) (rows t)) refl
    where
      node : Buffer
      node = address_to_buffer pool

      cases :
          (own : List StakeHistory)
          → filter (is_of node) (rows t) ≡ own
          → get_last_stake_history_record db pool t ≡ head? (filter (is_of node) (rows t))
      cases [] e = rw (last_rows-none node (rows t) e, e) refl
      cases (r ∷ rs) e =
          let line : IsTimeline (r ∷ rs) = subst IsTimeline e (w.timeline node) in
          rw (last_rows-head node (rows t) r rs e line, e)
            (db.find_one_some (matches node r) t r (filter-matches node (rows t) r rs e line))
