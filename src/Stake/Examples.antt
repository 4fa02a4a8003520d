-- ===== src/Stake/Examples.antt =====
-- The staking tables on concrete rows.
use diamond_dev_tools.Prelude.{
  ◌≡◌, refl, arith, none, some, List, [], ◌∷◌, filter, Buffer, Text, ◌==◌, nat_eq, list_eq,
  Bool-cases, inl, inr, head?, list_beq,
}
use diamond_dev_tools.Prelude.Int.{pos, int_eq, int_beq}
use diamond_dev_tools.Database.Tables.{list_database}
use diamond_dev_tools.Ether.{address_to_buffer}
use diamond_dev_tools.Stake.{
  StakeHistory, is_of, opened, get_last_stake_history_record, succeed_record,
}
use diamond_dev_tools.Stake.Timeline.{IsTimeline}
use diamond_dev_tools.Stake.History.{closed_at}
use diamond_dev_tools.Stake.Succession.{
  IsWellKept, Extends, succeed_record-Extends, succeed_record-refused,
}
use diamond_dev_tools.Stake.Reading.{get_last_stake_history_record-head}

abbrev pub pool : Text
pool = b'0' ∷ b'x' ∷ b'1' ∷ b'A' ∷ []

abbrev pub node : Buffer
node = 26 ∷ []

abbrev pub first_record : StakeHistory
first_record = opened 5 (pos 100) node

abbrev pub second_record : StakeHistory
second_record = opened 5 (pos 130) node

abbrev ended : StakeHistory
ended = record first_record { to_block = pos 4 }

pub one-IsWellKept : IsWellKept (first_record ∷ [])
one-IsWellKept = record { timeline = line; keys = refl }
  where
    line : (m : Buffer) → IsTimeline (filter (is_of m) (first_record ∷ []))
    line m = elim (Bool-cases (node == m)) [ inl h ↦ rw h (refl, tt) | inr h ↦ rw h tt ]

two-IsWellKept : IsWellKept (second_record ∷ ended ∷ [])
unfolding list_beq int_beq
two-IsWellKept = record { timeline = line; keys = refl }
  where
    line : (m : Buffer) → IsTimeline (filter (is_of m) (second_record ∷ ended ∷ []))
    line m = elim (Bool-cases (node == m)) [
      | inl h ↦ rw h (refl, (refl, omega arith, tt))
      | inr h ↦ rw h tt
    ]

pub one_own : filter (is_of node) (first_record ∷ []) ≡ first_record ∷ []
unfolding list_beq
one_own = refl

two_own : filter (is_of node) (second_record ∷ ended ∷ []) ≡ second_record ∷ ended ∷ []
unfolding list_beq
two_own = refl

succeed_record-Extends_example :
    (u : List StakeHistory) × (succeed_record list_database first_record 5
        (pos 130)
        node
        (first_record ∷ [])
      ≡ some u)
    × Extends (first_record ∷ []) u node (opened 5 (pos 130) node ∷ closed_at 5 first_record ∷ [])
succeed_record-Extends_example =
    succeed_record-Extends list_database (first_record ∷ []) first_record [] 5 (pos 130)
      one-IsWellKept one_own (omega arith) (omega arith)

succeed_record-refused_example :
    succeed_record list_database second_record 5 (pos 140) node (second_record ∷ ended ∷ []) ≡ none
succeed_record-refused_example =
    succeed_record-refused list_database (second_record ∷ ended ∷ []) second_record ended []
      (pos 140) two-IsWellKept two_own refl

get_last_stake_history_record-head_example :
    get_last_stake_history_record list_database pool (first_record ∷ [])
    ≡ head? (filter (is_of (address_to_buffer pool)) (first_record ∷ []))
get_last_stake_history_record-head_example =
    get_last_stake_history_record-head list_database pool (first_record ∷ []) one-IsWellKept
