-- ===== src/Connection/Examples.antt =====
-- Retries on concrete failures: a world counts the calls of the operation, and the pools.
use diamond_dev_tools.Prelude.{
  ℕ, suc, ◌≤◌, ◌≡◌, refl, Option, none, Bool, true, [], ◌∷◌, Text, ltb, if◌then◌else◌,
}
use diamond_dev_tools.Connection.{
  Result, returns, throws, calls, sleeps, reconnects, refused, is_connection_error,
  handle_connection_error, reconnect, attempt, execute_with_retry, backoff,
}
use diamond_dev_tools.Connection.Retry.{Run, call_count, slept, execute_with_retry-Run}

abbrev always : ℕ → Bool × ℕ
always n = (true, n)

abbrev nobody : ℕ → Option (ℕ × ℕ)
nobody n = none

abbrev message : Text → Text
message t = t

-- Refused twice, then answered.
abbrev third_time : ℕ → Result Text ℕ × ℕ
third_time n = (if ltb n 2 then throws refused else returns 42, suc n)

refused-lost : is_connection_error refused ≡ true
unfolding is_connection_error
refused-lost = refl

third_time-returns : execute_with_retry message nobody (λ n. n) always third_time 3 0 ≡ record {
  outcome = returns 42;
  retries = 0;
  world = 3;
  steps =
      calls (throws refused)
      ∷ sleeps 8000
      ∷ reconnects true 500
      ∷ calls (throws refused)
      ∷ sleeps 1000
      ∷ reconnects true 500
      ∷ calls (returns 42)
      ∷ [];
}
unfolding execute_with_retry attempt handle_connection_error reconnect is_connection_error backoff
third_time-returns = refl

execute_with_retry-Run_example :
    (let ran = execute_with_retry message nobody (λ n. n) always third_time 3 0 in
      Run (λ e. is_connection_error (message e)) ran.outcome ran.steps
      × (1 ≤ call_count ran.steps)
      × (call_count ran.steps ≤ 3)
      × (slept ran.steps ≤ 32000))
execute_with_retry-Run_example =
    execute_with_retry-Run message nobody (λ n. n) always third_time 3 0 (λ w. refl)
