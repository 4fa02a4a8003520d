-- ===== src/BonusScore/Reasons.antt =====
-- What a detected reason says of the change.
use diamond_dev_tools.Prelude.{
  ℕ, ◌≡◌, refl, sym, ap, ◌∙◌, Bool, true, false, ◌&&◌, some, List, [], ◌∷◌, any, All, Text, ◌==◌,
  list_eq, ==_iff, leb, arith, Bool-cases, inl, inr, any-none, All-map_imp, nat_eq,
}
use diamond_dev_tools.Prelude.Int.{pos, ltb_ℤ}
use diamond_dev_tools.Ether.{to_lower_case, lower_char}
use diamond_dev_tools.BonusScore.{
  BonusScoreChangeReason, stand_by_bonus, no_stand_by_penalty, no_key_write_penalty,
  bad_performance_penalty, unknown, ReasonDetectionContext, Chain, detect_reason,
  detect_positive_score_reason, detect_negative_score_reason, is_validator_in_active_set,
  is_validator_connected,
}

abbrev pub is_penalty : BonusScoreChangeReason → Bool
is_penalty stand_by_bonus = false
is_penalty no_stand_by_penalty = true
is_penalty no_key_write_penalty = true
is_penalty bad_performance_penalty = true
is_penalty unknown = false

abbrev pub is_bonus : BonusScoreChangeReason → Bool
is_bonus stand_by_bonus = true
is_bonus no_stand_by_penalty = false
is_bonus no_key_write_penalty = false
is_bonus bad_performance_penalty = false
is_bonus unknown = false

-- A reason is a penalty exactly when the score fell, and a bonus exactly when the score rose and the
-- validator is taken for connected.
pub detect_reason-sign :
    (chain : Chain) (c : ReasonDetectionContext)
    → (is_penalty (detect_reason chain c) ≡ ltb_ℤ c.score_change (pos 0))
      × (is_bonus (detect_reason chain c)
          ≡ (ltb_ℤ (pos 0) c.score_change && is_validator_connected chain c))
unfolding detect_reason detect_positive_score_reason detect_negative_score_reason
detect_reason-sign chain c = ground arith

abbrev is_upper : ℕ → Bool
is_upper x = leb b'A' x && leb x b'Z'

-- A text with a capital letter.
abbrev pub has_upper : Text → Bool
has_upper = any is_upper

lower_char-not_upper : (x : ℕ) → is_upper (lower_char x) ≡ false
unfolding lower_char
lower_char-not_upper x = ground arith

to_lower_case-not_upper : (t : Text) → has_upper (to_lower_case t) ≡ false
to_lower_case-not_upper [] = refl
to_lower_case-not_upper (x ∷ xs) = rw (lower_char-not_upper x) (to_lower_case-not_upper xs)

not_lower : (v t : Text) → has_upper v ≡ true → (v == to_lower_case t) ≡ false
not_lower v t h = elim (Bool-cases (v == to_lower_case t)) [
  | inr e ↦ e
  | inl e ↦
      let same = (==_iff v (to_lower_case t)).0 e in
      absurd (cc (sym h ∙ (ap has_upper same ∙ to_lower_case-not_upper t)))
]

outside :
    (chain : Chain) (c : ReasonDetectionContext) (all : List Text)
    → chain.get_validators c.block_number ≡ some all
    → All (λ v. has_upper v ≡ true) all
    → is_validator_in_active_set chain c ≡ false
unfolding is_validator_in_active_set
outside chain c all set caps =
    rw (set, is_validator_in_active_set)
      (any-none (λ v. v == to_lower_case c.validator) all
        (All-map_imp (λ v h. not_lower v c.validator h) all caps))

-- If every address of the validator set has a capital letter, as a checksummed address with a letter
-- mostly does, then every loss of score is put down to `NoStandByPenalty`, members of the set
-- included.
pub detect_reason-checksummed :
    (chain : Chain) (c : ReasonDetectionContext) (all : List Text)
    → chain.get_validators c.block_number ≡ some all
    → All (λ v. has_upper v ≡ true) all
    → ltb_ℤ c.score_change (pos 0) ≡ true
    → detect_reason chain c ≡ no_stand_by_penalty
unfolding detect_reason detect_negative_score_reason
detect_reason-checksummed chain c all set caps fell = ground (arith, outside chain c all set caps)
