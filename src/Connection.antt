-- ===== src/Connection.antt =====
-- Retries after lost connections (`handleConnectionError`, `reconnect` and `executeWithRetry` of
-- src/db/database-persistent.ts). The world that the operations act on is a parameter, and with it
-- what an operation and a new connection pool do there: `World → … × World`.
pub mod Retry
pub mod Examples
use diamond_dev_tools.Prelude.{
  ℕ, zero, suc, ◌+◌, ◌-◌, ◌*◌, ◌^◌, min, Bool, true, false, Option, none, some, List, [], ◌∷◌, ◌++◌,
  ◌&&◌, ◌||◌, Text, ◌==◌, nat_eq, leb, if◌then◌else◌,
}

-- What a promise settles to.
pub data Result (Failure Value : Type 0) : Type 0 where
  returns : Value → Result Failure Value
  throws : Failure → Result Failure Value

-- What a run does besides acting on the world: calls of the operation with their results, pauses in
-- milliseconds, and calls of `reconnect` with their success and the time that they sleep.
pub data Step (Failure Value : Type 0) : Type 0 where
  calls : Result Failure Value → Step Failure Value
  sleeps : ℕ → Step Failure Value
  reconnects : Bool → (pause : ℕ) → Step Failure Value

-- `true`, `false` and an exception of `handleConnectionError`.
pub data Handled : Type 0 where
  restored : Handled
  not_restored : Handled
  rethrown : Handled

abbrev pub max_connection_retries : ℕ
max_connection_retries = 10

abbrev pub max_attempts : ℕ
max_attempts = 3

unfoldable pub backoff : ℕ → ℕ
backoff retries = min (1000 * 2 ^ retries) 30000

-- The conditions under which `executeWithRetry` tries again: `.catch(() => false)`.
abbrev pub should_retry : Handled → Bool
should_retry restored = true
should_retry not_restored = false
should_retry rethrown = false

abbrev pub starts_with : Text → Text → Bool
starts_with [] text = true
starts_with (c ∷ cs) [] = false
starts_with (c ∷ cs) (d ∷ text) = (c == d) && starts_with cs text

-- `text.includes(part)`.
abbrev pub includes : Text → Text → Bool
includes part [] = starts_with part []
includes part (d ∷ text) = starts_with part (d ∷ text) || includes part text

-- "Connection terminated unexpectedly"
abbrev pub terminated : Text
terminated =
    67 ∷ 111 ∷ 110 ∷ 110 ∷ 101 ∷ 99 ∷ 116 ∷ 105 ∷ 111 ∷ 110 ∷ 32 ∷ 116 ∷ 101 ∷ 114 ∷ 109 ∷ 105 ∷ 110
    ∷ 97 ∷ 116 ∷ 101 ∷ 100 ∷ 32 ∷ 117 ∷ 110 ∷ 101 ∷ 120 ∷ 112 ∷ 101 ∷ 99 ∷ 116 ∷ 101 ∷ 100 ∷ 108
    ∷ 121 ∷ []

-- "password authentication failed"
abbrev pub authentication_failed : Text
authentication_failed =
    112 ∷ 97 ∷ 115 ∷ 115 ∷ 119 ∷ 111 ∷ 114 ∷ 100 ∷ 32 ∷ 97 ∷ 117 ∷ 116 ∷ 104 ∷ 101 ∷ 110 ∷ 116 ∷ 105
    ∷ 99 ∷ 97 ∷ 116 ∷ 105 ∷ 111 ∷ 110 ∷ 32 ∷ 102 ∷ 97 ∷ 105 ∷ 108 ∷ 101 ∷ 100 ∷ []

-- "connect ECONNREFUSED"
abbrev pub refused : Text
refused =
    99 ∷ 111 ∷ 110 ∷ 110 ∷ 101 ∷ 99 ∷ 116 ∷ 32 ∷ 69 ∷ 67 ∷ 79 ∷ 78 ∷ 78 ∷ 82 ∷ 69 ∷ 70 ∷ 85 ∷ 83
    ∷ 69 ∷ 68 ∷ []

-- "Client has encountered a connection error"
abbrev pub client_error : Text
client_error =
    67 ∷ 108 ∷ 105 ∷ 101 ∷ 110 ∷ 116 ∷ 32 ∷ 104 ∷ 97 ∷ 115 ∷ 32 ∷ 101 ∷ 110 ∷ 99 ∷ 111 ∷ 117 ∷ 110
    ∷ 116 ∷ 101 ∷ 114 ∷ 101 ∷ 100 ∷ 32 ∷ 97 ∷ 32 ∷ 99 ∷ 111 ∷ 110 ∷ 110 ∷ 101 ∷ 99 ∷ 116 ∷ 105 ∷ 111
    ∷ 110 ∷ 32 ∷ 101 ∷ 114 ∷ 114 ∷ 111 ∷ 114 ∷ []

unfoldable pub is_connection_error : Text → Bool
is_connection_error message =
    includes terminated message
    || includes authentication_failed message
    || includes refused message
    || includes client_error message

-- Where a run ends: `connectionRetries`, the world, and the steps on the way.
pub record Ran (World Failure Value Outcome : Type 0) : Type 0 where
  pub outcome : Outcome
  pub retries : ℕ
  pub world : World
  pub steps : List (Step Failure Value)

module _ {World Failure Value : Type 0}
    -- `error?.message || String(error)`.
    (error_message : Failure → Text)
    -- Whether another caller has set `isReconnecting`: after how many polls it is reset, and the world then.
    (other_reconnects : World → Option (ℕ × World))
    -- `dispose`, which may fail, and a new pool with its first query.
    (dispose : World → World) (connect : World → Bool × World)
    (operation : World → Result Failure Value × World) where
  -- The result is whether it returns, the time that it sleeps, and the world.
  unfoldable pub reconnect : World → Bool × ℕ × World
  reconnect world = elim (other_reconnects world) [
    | none ↦ let (connected, w) = connect (dispose world) in (connected, 500, w)
    | some (polls, w) ↦ (true, 100 * polls, w)
  ]

  -- The counter `connectionRetries` is the second argument.
  unfoldable pub handle_connection_error : Failure → ℕ → World → Ran World Failure Value Handled
  unfolding backoff is_connection_error reconnect
  handle_connection_error failure retries world =
      if is_connection_error (error_message failure)
      then (if leb max_connection_retries retries
          then record { outcome = rethrown; retries = retries; world = world; steps = [] }
          else let (connected, pause, w) = reconnect world in
            record {
              outcome = if connected then restored else not_restored;
              retries = if connected then 0 else suc retries;
              world = w;
              steps = sleeps (backoff retries) ∷ reconnects connected pause ∷ [];
            })
      else record { outcome = rethrown; retries = retries; world = world; steps = [] }

  -- The loop, with the number of attempts that are left after this one.
  unfoldable pub attempt : ℕ → ℕ → World → Ran World Failure Value (Result Failure Value)
  unfolding handle_connection_error
  attempt zero retries world =
      let (result, w) = operation world in
      record { outcome = result; retries = retries; world = w; steps = calls result ∷ [] }
  attempt (suc left) retries world =
      let (result, w) = operation world in
      elim result [
        | returns v ↦ record {
          outcome = returns v;
          retries = retries;
          world = w;
          steps = calls (returns v) ∷ [];
        }
        | throws e ↦
            let handled = handle_connection_error e retries w in
            let next = attempt left handled.retries handled.world in
            if should_retry handled.outcome
            then record {
              outcome = next.outcome;
              retries = next.retries;
              world = next.world;
              steps = calls (throws e) ∷ handled.steps ++ next.steps;
            }
            else record {
              outcome = throws e;
              retries = handled.retries;
              world = handled.world;
              steps = calls (throws e) ∷ handled.steps;
            }
      ]

  unfoldable pub execute_with_retry : ℕ → World → Ran World Failure Value (Result Failure Value)
  unfolding attempt
  execute_with_retry retries world = attempt (max_attempts - 1) retries world
