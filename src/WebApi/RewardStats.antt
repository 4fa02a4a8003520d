-- ===== src/WebApi/RewardStats.antt =====
-- The reward statistics of controllers/rewards.ts: `getValidatorRewardStats` and
-- `batchValidatorRewardStats`.
use diamond_dev_tools.Prelude.{
  ℕ, Bool, ◌&&◌, Option, none, some, List, [], ◌∷◌, map, filter, any, ltb, Text, Buffer, ◌==◌,
  nat_eq, list_eq, if◌then◌else◌,
}
use diamond_dev_tools.Prelude.Int.{ℤ}
use diamond_dev_tools.Ether.{to_lower_case}
use diamond_dev_tools.WebApi.EpochRows.{
  EpochRow, ActiveTotals, PreviousTotals, active_totals, previous_totals, encoded, in_window,
  in_previous, total_epochs, group_ids, group_of,
}

-- The numbers of JavaScript. `parse` is `parseFloat` of a numeric that Postgres sends, and
-- `parse_average` that of an average: a sum over a count.
pub record Floats : Type 1 where
  pub Float : Type 0
  pub of_nat : ℕ → Float
  pub parse : ℤ → Float
  pub parse_average : ℤ → ℕ → Float
  pub times : Float → Float → Float
  pub over : Float → Float → Float
  pub minus : Float → Float → Float
  pub is_positive : Float → Bool

-- A JavaScript object as the function of its keys.
abbrev pub assign : {A : Type 0} → Text → A → (Text → Option A) → Text → Option A
assign key a object k = if key == k then some a else object k

unfoldable pub assign_all :
    {A I : Type 0} → (I → Text) → (I → A) → List I → (Text → Option A) → Text → Option A
assign_all key value [] object = object
assign_all key value (i ∷ is) object = assign_all key value is (assign (key i) (value i) object)

module _ (floats : Floats) where
  open floats use {Float, of_nat, parse, parse_average, times, over, minus, is_positive}

  pub record Stats : Type 0 where
    pub vos30 : Float
    pub vos30_net : Float
    pub rpt30 : Float
    pub rpt30_prev30 : Option Float
    pub rpt30_delta : Option Float
    pub aep30 : Float
    pub estimated_apy : Float
    pub uptime : Float
    pub active_epoch_count : ℕ
    pub total_epochs_in_window : ℕ

  -- `parseFloat(x) || 0`.
  abbrev pub or_zero : Option ℤ → Float
  or_zero none = of_nat 0
  or_zero (some x) = parse x

  abbrev pub average_or_zero : Option (ℤ × ℕ) → Float
  average_or_zero none = of_nat 0
  average_or_zero (some (x, n)) = parse_average x n

  abbrev pub reward_per_thousand : Float → Float → Float
  reward_per_thousand rewards stake =
      if is_positive stake then times (over rewards stake) (of_nat 1000) else of_nat 0

  abbrev pub active_share : ℕ → ℕ → Float
  active_share count epochs = if ltb 0 epochs then over (of_nat count) (of_nat epochs) else of_nat 0

  abbrev pub previous_rpt : PreviousTotals → Option Float
  previous_rpt p =
      if ltb 0 p.prev_count
      then some (
          reward_per_thousand (or_zero p.delegators_total_prev)
            (average_or_zero p.avg_total_stake_prev))
      else none

  abbrev pub delta : Float → Option Float → Option Float
  delta rpt none = none
  delta rpt (some previous) = some (minus rpt previous)

  abbrev pub estimated : Float → Float
  estimated rpt = times (times (over rpt (of_nat 1000)) (of_nat 12)) (of_nat 100)

  -- The computation that follows the queries.
  abbrev pub stats : ActiveTotals → Option Float → ℕ → Stats
  stats r previous epochs =
      let rpt =
        reward_per_thousand (or_zero r.delegators_total_30d)
          (average_or_zero r.avg_total_stake_30d) in
      let share = active_share r.active_epoch_count epochs in
      record {
        vos30 = or_zero r.vos30;
        vos30_net = or_zero r.vos30_net;
        rpt30 = rpt;
        rpt30_prev30 = previous;
        rpt30_delta = delta rpt previous;
        aep30 = share;
        estimated_apy = estimated rpt;
        uptime = times share (of_nat 100);
        active_epoch_count = r.active_epoch_count;
        total_epochs_in_window = epochs;
      }

  abbrev pub empty_stats : ℕ → Stats
  empty_stats epochs = record {
    vos30 = of_nat 0;
    vos30_net = of_nat 0;
    rpt30 = of_nat 0;
    rpt30_prev30 = none;
    rpt30_delta = none;
    aep30 = of_nat 0;
    estimated_apy = of_nat 0;
    uptime = of_nat 0;
    active_epoch_count = 0;
    total_epochs_in_window = epochs;
  }

  unfoldable pub get_validator_reward_stats : Text → ℕ → List EpochRow → List ℕ → Stats
  unfolding active_totals previous_totals encoded
  get_validator_reward_stats address now rows epochs =
      let of_node : EpochRow → Bool = λ r. encoded r.id_node == to_lower_case address in
      stats (active_totals (filter (λ r. of_node r && in_window now r) rows))
        (previous_rpt (previous_totals (filter (λ r. of_node r && in_previous now r) rows)))
        (total_epochs now epochs)

  -- `prev ? … : 0`.
  abbrev pub previous_of : Option PreviousTotals → Option Float
  previous_of none = none
  previous_of (some p) = previous_rpt p

  unfoldable pub batch_validator_reward_stats :
      List Text → ℕ → List EpochRow → List ℕ → Text → Option Stats
  unfolding active_totals previous_totals encoded group_ids assign_all
  batch_validator_reward_stats body now rows epochs =
      let addresses = map to_lower_case body in
      let wanted : EpochRow → Bool =
        λ r. any (λ a. to_lower_case (encoded r.id_node) == a) addresses in
      let active = filter (λ r. wanted r && in_window now r) rows in
      let before = filter (λ r. wanted r && in_previous now r) rows in
      let key : Buffer → Text = λ id. to_lower_case (encoded id) in
      let prev_by_address =
        assign_all key (λ id. previous_totals (group_of before id))
          (group_ids (map (λ r. r.id_node) before)) (λ k. none) in
      let defaults =
        assign_all (λ a. a) (λ a. empty_stats (total_epochs now epochs)) addresses (λ k. none) in
      assign_all key
        (λ id.
          stats (active_totals (group_of active id)) (previous_of (prev_by_address (key id)))
            (total_epochs now epochs))
        (group_ids (map (λ r. r.id_node) active)) defaults
