-- ===== src/BonusScore/Examples.antt =====
-- Bonus scores on concrete rows and answers.
use diamond_dev_tools.Prelude.{
  ℕ, ◌≡◌, refl, true, false, Option, none, some, map, All, List, [], ◌∷◌, Text, ◌==◌, list_eq,
  list_beq, nat_eq,
}
use diamond_dev_tools.Database.{set_where}
use diamond_dev_tools.Database.Tables.{list_database}
use diamond_dev_tools.Ether.{
  to_lower_case, address_to_buffer, from_hex, hex_value, hex_byte, lower_char,
}
use diamond_dev_tools.BonusScore.{
  BonusScoreHistory, NodeScore, ReasonDetectionContext, Chain, opens, closes, is_open_of,
  update_bonus_score, detect_reason, no_stand_by_penalty, gather_detection_context,
}
use diamond_dev_tools.BonusScore.Reasons.{detect_reason-checksummed}
use diamond_dev_tools.BonusScore.Batches.{Scores, process_scores}
use diamond_dev_tools.BonusScore.Forgotten.{IsCurrent, process_scores-forgets}
use diamond_dev_tools.BonusScore.History.{Scored, update_bonus_score-Scored}

abbrev pool : Text
pool = b'0' ∷ b'x' ∷ b'1' ∷ b'A' ∷ []

abbrev chain : Chain
chain = record {
  get_validators = λ b. some (pool ∷ []);
  is_validator_available = λ v b. some true;
  get_validator_available_since = λ v. none;
  get_key_acks_number = λ v b. some 1;
}

abbrev fallen : ReasonDetectionContext
fallen = gather_detection_context chain pool pool 9 1 40 35

abbrev history : List BonusScoreHistory
history = opens (26 ∷ []) 4 10 ∷ opens (27 ∷ []) 4 12 ∷ []

abbrev nodes : List NodeScore
nodes = record { pool_address = 26 ∷ []; bonus_score = 10 } ∷ []

keys_distinct : (list_beq (address_to_buffer pool) (26 ∷ []) ≡ true)
unfolding address_to_buffer from_hex hex_value hex_byte lower_char list_beq
keys_distinct = refl

update_bonus_score-Scored_example :
    (h : List BonusScoreHistory) × (n : List NodeScore) × (update_bonus_score list_database pool 11
        9 history nodes
      ≡ some (h, n))
    × Scored history h (address_to_buffer pool) 9 11
    × (n
        ≡ set_where
            (λ r. r.pool_address == address_to_buffer pool)
            (λ r. record r { bonus_score = 11 })
            nodes)
unfolding address_to_buffer from_hex hex_value hex_byte lower_char list_beq
update_bonus_score-Scored_example =
    update_bonus_score-Scored list_database pool 11 9 history nodes refl refl refl

detect_reason-checksummed_example : detect_reason chain fallen ≡ no_stand_by_penalty
unfolding gather_detection_context
detect_reason-checksummed_example =
    detect_reason-checksummed chain fallen (pool ∷ []) refl (refl, tt) refl

-- Its score is 10 in the cache, and 11 now.
abbrev cached : Scores list_database
cached = record {
  current = λ k. some 10;
  history = history;
  nodes = nodes;
  changes = [];
  aborted = false;
}

abbrev read : Text → Option (Text × ℕ)
read p = some (p, 11)

process_scores_test :
    map (λ c. c.previous_score) (process_scores list_database read 9 (pool ∷ []) cached).changes
    ≡ 10 ∷ []
unfolding process_scores update_bonus_score address_to_buffer from_hex hex_value hex_byte lower_char
    list_beq
process_scores_test = refl

process_scores-forgets_example :
    All
      (λ p.
        IsCurrent list_database read 9
          (λ m. m)
          (λ k. 11)
          (process_scores list_database read 9 (pool ∷ []) cached).current
          (to_lower_case p))
      (pool ∷ [])
    × (process_scores list_database read 9 (pool ∷ []) (record cached {
      current = (process_scores list_database read 9 (pool ∷ []) cached).current;
    })
        ≡ record cached {
          current = (process_scores list_database read 9 (pool ∷ []) cached).current;
          changes = [];
        })
unfolding update_bonus_score address_to_buffer from_hex hex_value hex_byte lower_char list_beq
process_scores-forgets_example =
    process_scores-forgets list_database read 9 (λ m. m) (λ k. 11) (pool ∷ []) cached cached
      (refl, tt)
      (
        (λ e. (
          opens (26 ∷ []) 9 11 ∷ set_where (is_open_of (26 ∷ [])) (closes 9) history,
          record { pool_address = 26 ∷ []; bonus_score = 11 } ∷ [],
          refl,
        )),
        tt,
      )
