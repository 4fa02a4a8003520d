-- ===== src/WebApi/Batch.antt =====
-- The batch of statistics against the single ones.
use diamond_dev_tools.Prelude.{
  ℕ, zero, suc, ◌≡◌, ◌≢◌, refl, sym, ap, ◌∙◌, arith, Bool, true, false, ◌&&◌, Option, none, some,
  List, [], ◌∷◌, map, filter, any, length, All, Text, ◌==◌, list_eq, nat_eq, if◌then◌else◌,
  Bool-cases, inl, inr, lt→ltb,
}
use diamond_dev_tools.Ether.{to_lower_case}
use diamond_dev_tools.Ether.RoundTrip.{IsByte}
use diamond_dev_tools.WebApi.EpochRows.{
  EpochRow, PreviousTotals, active_totals, previous_totals, encoded, in_window, in_previous,
  total_epochs, group_ids, group_of, average_column, sum_column,
}
use diamond_dev_tools.WebApi.RewardStats.{
  Floats, assign_all, stats, previous_rpt, previous_of, active_share, estimated, empty_stats,
  get_validator_reward_stats, batch_validator_reward_stats,
}
use diamond_dev_tools.WebApi.Groups.{
  wanted, of_key, assign_all-at, assign_all-groups, any-lowered, filter-empty, length-filter-pos,
}

All-intro : {P : Text → Type 0} (xs : List Text) → ((x : Text) → P x) → All P xs
All-intro [] f = tt
All-intro (x ∷ xs) f = (f x, All-intro xs f)

-- What the floating point numbers do with 0.
pub record ZeroLaws (floats : Floats) : Type 0 where
  pub zero_not_positive : floats.is_positive (floats.of_nat 0) ≡ false
  pub zero_over : (n : ℕ) → floats.over (floats.of_nat 0) (floats.of_nat (suc n)) ≡ floats.of_nat 0
  pub zero_times : (n : ℕ) → floats.times (floats.of_nat 0) (floats.of_nat n) ≡ floats.of_nat 0

module _ (floats : Floats) (laws : ZeroLaws floats) where
  active_share-zero : (epochs : ℕ) → active_share floats 0 epochs ≡ floats.of_nat 0
  active_share-zero zero = refl
  active_share-zero (suc n) = rw (lt→ltb 0 (suc n) (omega arith)) (laws.zero_over n)

  estimated-zero : estimated floats (floats.of_nat 0) ≡ floats.of_nat 0
  estimated-zero =
      ap (λ x. floats.times (floats.times x (floats.of_nat 12)) (floats.of_nat 100))
        (laws.zero_over 999)
      ∙ (ap (λ x. floats.times x (floats.of_nat 100)) (laws.zero_times 12) ∙ laws.zero_times 100)

  stats-empty :
      (previous : Option floats.Float) (epochs : ℕ)
      → record (stats floats (active_totals []) previous epochs) {
        rpt30_prev30 = none;
        rpt30_delta = none;
      }
        ≡ empty_stats floats epochs
  unfolding active_totals sum_column average_column
  stats-empty previous epochs =
      rw (laws.zero_not_positive, estimated-zero, active_share-zero epochs, laws.zero_times 100)
        refl

  previous_rpt-empty : previous_rpt floats (previous_totals []) ≡ none
  unfolding previous_totals sum_column average_column
  previous_rpt-empty = refl

  module _ (address : Text) (body : List Text) (asked : any (λ a. address == a) body ≡ true)
      (now : ℕ) (rows : List EpochRow) (epochs : List ℕ)
      (bytes : All (λ r. All IsByte r.id_node) rows) where
    abbrev addresses : List Text
    addresses = map to_lower_case body

    abbrev key : Text
    key = to_lower_case address

    abbrev rows_of : (EpochRow → Bool) → List EpochRow
    rows_of within = filter (λ r. (encoded r.id_node == key) && within r) rows

    defaults_at :
        assign_all
          (λ a. a)
          (λ a. empty_stats floats (total_epochs now epochs))
          addresses
          (λ k. none)
          key
        ≡ some (empty_stats floats (total_epochs now epochs))
    defaults_at =
        assign_all-at (λ a. a) (λ a. empty_stats floats (total_epochs now epochs)) addresses
          (λ k. none) key (empty_stats floats (total_epochs now epochs))
          (All-intro addresses (λ a e. refl))
        ∙ ap (λ b. if b then some (empty_stats floats (total_epochs now epochs)) else none)
            (any-lowered address body asked).1

    previous_at :
        (found : Bool)
        → any (λ r. (encoded r.id_node == key) && in_previous now r) rows ≡ found
        → previous_of floats
            (if found then some (previous_totals (rows_of (in_previous now))) else none)
          ≡ previous_rpt floats (previous_totals (rows_of (in_previous now)))
    previous_at true e = refl
    previous_at false e = sym (
        ap (λ l. previous_rpt floats (previous_totals l))
          (filter-empty (λ r. (encoded r.id_node == key) && in_previous now r) rows e)
        ∙ previous_rpt-empty)

    batch_at : batch_validator_reward_stats floats body now rows epochs key ≡ (
        if any (λ r. (encoded r.id_node == key) && in_window now r) rows
        then some (get_validator_reward_stats floats address now rows epochs)
        else some (empty_stats floats (total_epochs now epochs)))
    unfolding batch_validator_reward_stats get_validator_reward_stats
    batch_at =
        let there = (any-lowered address body asked).0 in
        let share = total_epochs now epochs in
        let before = filter (wanted (in_previous now) addresses key there) rows in
        let prev : Text → Option PreviousTotals =
          assign_all (λ i. to_lower_case (encoded i)) (λ i. previous_totals (group_of before i))
            (group_ids (map (λ r. r.id_node) before)) (λ k. none) in
        let past : EpochRow → Bool = of_key (in_previous now) addresses key there in
        let now_rows = rows_of (in_window now) in
        let prev_key : previous_of floats (prev key)
            ≡ previous_rpt floats (previous_totals (rows_of (in_previous now))) =
          ap (previous_of floats) (
            assign_all-groups (in_previous now) addresses key there (λ l k. previous_totals l) rows
              (λ k. none) bytes)
          ∙ previous_at (any past rows) refl in
        assign_all-groups (in_window now) addresses key there
          (λ l k. stats floats (active_totals l) (previous_of floats (prev k)) share) rows
          (assign_all (λ a. a) (λ a. empty_stats floats share) addresses (λ k. none)) bytes
        ∙ (ap
              (λ p.
                if any (of_key (in_window now) addresses key there) rows
                then some (stats floats (active_totals now_rows) p share)
                else assign_all (λ a. a) (λ a. empty_stats floats share) addresses (λ k. none) key)
              prev_key
            ∙ ap
                (λ d.
                  if any (of_key (in_window now) addresses key there) rows
                  then some (
                      stats floats (active_totals now_rows)
                        (previous_rpt floats (previous_totals (rows_of (in_previous now)))) share)
                  else d)
                defaults_at)

    single_count :
        (get_validator_reward_stats floats address now rows epochs).active_epoch_count
        ≡ length (rows_of (in_window now))
    unfolding get_validator_reward_stats active_totals
    single_count = refl

    single_missing :
        any (λ r. (encoded r.id_node == key) && in_window now r) rows ≡ false
        → empty_stats floats (total_epochs now epochs)
          ≡ record (get_validator_reward_stats floats address now rows epochs) {
            rpt30_prev30 = none;
            rpt30_delta = none;
          }
    unfolding get_validator_reward_stats
    single_missing missing = sym (
        ap
          (λ l.
            record (stats floats (active_totals l)
              (previous_rpt floats (previous_totals (rows_of (in_previous now))))
              (total_epochs now epochs)) { rpt30_prev30 = none; rpt30_delta = none })
          (filter-empty (λ r. (encoded r.id_node == key) && in_window now r) rows missing)
        ∙ stats-empty (previous_rpt floats (previous_totals (rows_of (in_previous now))))
            (total_epochs now epochs))

    -- For an address of the request, and rows whose ids are bytes, the batch has the statistics
    -- that the single request has, if the address has an epoch in the window. If it has none,
    -- they differ in one point: the batch has no reward of the window before, and no difference
    -- to it, also where the single request has them.
    pub batch_validator_reward_stats-get_validator_reward_stats :
        ((get_validator_reward_stats floats address now rows epochs).active_epoch_count ≢ 0
          → batch_validator_reward_stats floats body now rows epochs (to_lower_case address)
            ≡ some (get_validator_reward_stats floats address now rows epochs))
        × ((get_validator_reward_stats floats address now rows epochs).active_epoch_count ≡ 0
            → batch_validator_reward_stats floats body now rows epochs (to_lower_case address)
              ≡ some (record (get_validator_reward_stats floats address now rows epochs) {
                rpt30_prev30 = none;
                rpt30_delta = none;
              }))
    batch_validator_reward_stats-get_validator_reward_stats =
        elim (Bool-cases (any (λ r. (encoded r.id_node == key) && in_window now r) rows)) [
          | inl found ↦ (
            λ h.
                batch_at
                ∙ ap
                    (λ b.
                      if b
                      then some (get_validator_reward_stats floats address now rows epochs)
                      else some (empty_stats floats (total_epochs now epochs)))
                    found,
            λ h. absurd (
                length-filter-pos (λ r. (encoded r.id_node == key) && in_window now r) rows found
                  (sym single_count ∙ h)),
          )
          | inr missing ↦ (
            λ h. absurd (
                h (
                  single_count
                  ∙ ap length (
                      filter-empty (λ r. (encoded r.id_node == key) && in_window now r) rows
                        missing))),
            λ h.
                batch_at
                ∙ (ap
                      (λ b.
                        if b
                        then some (get_validator_reward_stats floats address now rows epochs)
                        else some (empty_stats floats (total_epochs now epochs)))
                      missing
                    ∙ ap some (single_missing missing)),
          )
        ]
