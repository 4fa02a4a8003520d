-- ===== src/BonusScore.antt =====
-- The bonus scores: `BonusScoreReasonDetector` (src/bonusScoreReasonDetector.ts), the scores' table
-- (`writeInitialBonusScore` and `updateBonusScore` of src/db/database-persistent.ts) over any
-- database, and the factor that src/db/bonusScoreProcessor.ts watches. What the contracts answer is
-- the record `Chain`: none is a call that throws.
pub mod Reasons
pub mod Batches
pub mod Forgotten
pub mod History
pub mod Examples
use diamond_dev_tools.Prelude.{
  ℕ, ◌-◌, Bool, true, false, not, ◌&&◌, ◌||◌, Option, none, some, List, [], ◌∷◌, any, Text, Buffer,
  ◌==◌, nat_eq, list_eq, if◌then◌else◌, ltb, ◌>>=◌,
}
use diamond_dev_tools.Prelude.Int.{ℤ, pos, sub_ℕ, ltb_ℤ}
use diamond_dev_tools.Database.{Database}
use diamond_dev_tools.Ether.{to_lower_case, lower_char, address_to_buffer}

pub data BonusScoreChangeReason : Type 0 where
  stand_by_bonus no_stand_by_penalty no_key_write_penalty : BonusScoreChangeReason
  bad_performance_penalty unknown : BonusScoreChangeReason

pub record ReasonDetectionContext : Type 0 where
  pub validator : Text
  pub pool_address : Text
  pub block_number : ℕ
  pub epoch : ℕ
  pub previous_score : ℕ
  pub new_score : ℕ
  pub score_change : ℤ
  pub is_validator_in_set : Option Bool
  pub validator_connected : Option Bool
  pub available_since : Option ℕ

-- The calls of `ContractManager` that the detector makes.
pub record Chain : Type 0 where
  pub get_validators : ℕ → Option (List Text)
  pub is_validator_available : Text → ℕ → Option Bool
  pub get_validator_available_since : Text → Option ℕ
  pub get_key_acks_number : Text → ℕ → Option ℕ

abbrev includes : List Text → Text → Bool
includes all x = any (λ y. y == x) all

unfoldable pub is_validator_in_active_set : Chain → ReasonDetectionContext → Bool
unfolding lower_char
is_validator_in_active_set chain c = elim (chain.get_validators c.block_number) [
  | none ↦ false
  | some all ↦ includes all (to_lower_case c.validator)
]

unfoldable pub is_validator_connected : Chain → ReasonDetectionContext → Bool
is_validator_connected chain c = elim (chain.is_validator_available c.validator c.block_number) [
  | none ↦ true
  | some b ↦ b
]

unfoldable pub has_validator_submitted_required_keys : Chain → ReasonDetectionContext → Bool
has_validator_submitted_required_keys chain c =
    elim (chain.get_key_acks_number c.validator c.block_number) [ none ↦ true | some n ↦ ltb 0 n ]

abbrev pub has_validator_good_performance : Chain → ReasonDetectionContext → Bool
has_validator_good_performance chain c = false

unfoldable pub detect_positive_score_reason :
    Chain → ReasonDetectionContext → BonusScoreChangeReason
unfolding is_validator_connected
detect_positive_score_reason chain c =
    if is_validator_connected chain c then stand_by_bonus else unknown

unfoldable pub detect_negative_score_reason :
    Chain → ReasonDetectionContext → BonusScoreChangeReason
unfolding is_validator_in_active_set is_validator_connected has_validator_submitted_required_keys
detect_negative_score_reason chain c =
    if not (is_validator_in_active_set chain c) || not (is_validator_connected chain c)
    then no_stand_by_penalty
    else if not (has_validator_submitted_required_keys chain c)
    then no_key_write_penalty
    else if not (has_validator_good_performance chain c)
    then bad_performance_penalty
    else unknown

unfoldable pub detect_reason : Chain → ReasonDetectionContext → BonusScoreChangeReason
unfolding detect_positive_score_reason detect_negative_score_reason
detect_reason chain c =
    if ltb_ℤ (pos 0) c.score_change
    then detect_positive_score_reason chain c
    else if ltb_ℤ c.score_change (pos 0)
    then detect_negative_score_reason chain c
    else unknown

unfoldable pub gather_detection_context :
    Chain
    → (validator pool_address : Text) → (block epoch previous new : ℕ) → ReasonDetectionContext
unfolding is_validator_in_active_set is_validator_connected
gather_detection_context chain validator pool block epoch previous new =
    let c : ReasonDetectionContext = record {
      validator = validator;
      pool_address = pool;
      block_number = block;
      epoch = epoch;
      previous_score = previous;
      new_score = new;
      score_change = sub_ℕ new previous;
      is_validator_in_set = none;
      validator_connected = none;
      available_since = none;
    } in
    record c {
      is_validator_in_set = some (is_validator_in_active_set chain c);
      validator_connected = some (is_validator_connected chain c);
      available_since = chain.get_validator_available_since validator;
    }

-- `checkStandByFactorChange`: whether it changed, the new factor and the previous one, and the
-- factor that is kept; `call` is the contract's answer.
unfoldable pub check_stand_by_factor_change :
    (call : Option ℕ) → (last : Option ℕ) → (Bool × ℕ × Option ℕ) × Option ℕ
check_stand_by_factor_change (some factor) none = ((false, factor, none), some factor)
check_stand_by_factor_change (some factor) (some last) =
    ((not (factor == last), factor, some last), some factor)
check_stand_by_factor_change none none = ((false, 0, none), none)
check_stand_by_factor_change none (some last) = ((false, last, some last), some last)

-- A row of `bonus_score_history`, and what `updateBonusScore` writes of a row of `node`.
pub record BonusScoreHistory : Type 0 where
  pub node : Buffer
  pub from_block : ℕ
  pub to_block : Option ℤ
  pub bonus_score : ℕ

pub record NodeScore : Type 0 where
  pub pool_address : Buffer
  pub bonus_score : ℕ

abbrev pub same_score_key : BonusScoreHistory → BonusScoreHistory → Bool
same_score_key a b = a.node == b.node && a.from_block == b.from_block

abbrev pub same_pool : NodeScore → NodeScore → Bool
same_pool a b = a.pool_address == b.pool_address

abbrev pub is_null : Option ℤ → Bool
is_null none = true
is_null (some z) = false

abbrev pub is_open_of : Buffer → BonusScoreHistory → Bool
is_open_of node r = r.node == node && is_null r.to_block

abbrev pub opens : Buffer → ℕ → ℕ → BonusScoreHistory
opens node block score = record {
  node = node;
  from_block = block;
  to_block = none;
  bonus_score = score;
}

abbrev pub closes : ℕ → BonusScoreHistory → BonusScoreHistory
closes change_block r = record r { to_block = some (sub_ℕ change_block 1) }

module _ (db : Database) where
  open db use {Table, insert, update}

  unfoldable pub write_initial_bonus_score :
      Text → ℕ → ℕ → Table BonusScoreHistory → Option (Table BonusScoreHistory)
  write_initial_bonus_score pool block_number current_score =
      insert same_score_key (opens (address_to_buffer pool) block_number current_score)

  unfoldable pub update_bonus_score :
      Text
      → ℕ
      → ℕ
      → Table BonusScoreHistory
      → Table NodeScore
      → Option (Table BonusScoreHistory × Table NodeScore)
  update_bonus_score pool bonus_score change_block history nodes = do
    closed ←
        update same_score_key (is_open_of (address_to_buffer pool)) (closes change_block) history
    opened ← insert same_score_key (opens (address_to_buffer pool) change_block bonus_score) closed
    scored ←
        update same_pool (λ n. n.pool_address == address_to_buffer pool)
          (λ n. record n { bonus_score = bonus_score }) nodes
    some (opened, scored)
