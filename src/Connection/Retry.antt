-- ===== src/Connection/Retry.antt =====
-- How often an operation is called, and what its caller gets.
use diamond_dev_tools.Prelude.{
  Text, Option, none, ℕ, zero, suc, ◌+◌, ◌≤◌, ◌<◌, ◌*◌, arith, ◌≡◌, refl, Bool, true, false, List,
  [], ◌∷◌, leb, ◌⊎◌, Bool-cases, inl, inr,
}
use diamond_dev_tools.Connection.{
  Result, returns, throws, Step, calls, sleeps, reconnects, reconnect, backoff,
  handle_connection_error, attempt, execute_with_retry, is_connection_error,
}

backoff-le : (n : ℕ) → backoff n ≤ 30000
unfolding backoff
backoff-le n = omega arith

backoff_zero : backoff 0 ≡ 1000
unfolding backoff
backoff_zero = refl

module _ {Failure Value : Type 0} where
  abbrev pub call_count : List (Step Failure Value) → ℕ
  call_count [] = 0
  call_count (calls r ∷ steps) = suc (call_count steps)
  call_count (sleeps n ∷ steps) = call_count steps
  call_count (reconnects b pause ∷ steps) = call_count steps

  abbrev pub slept : List (Step Failure Value) → ℕ
  slept [] = 0
  slept (calls r ∷ steps) = slept steps
  slept (sleeps n ∷ steps) = n + slept steps
  slept (reconnects b pause ∷ steps) = pause + slept steps

  -- The runs that the retry may make: only a connection error that was followed by a pause and a
  -- working new pool is followed by another call, and the last call's result is the caller's.
  pub data Run (lost : Failure → Bool)
      : Result Failure Value → List (Step Failure Value) → Type 0 where
    succeeds : {v : Value} → Run lost (returns v) (calls (returns v) ∷ [])
    gives_up : {e : Failure} → Run lost (throws e) (calls (throws e) ∷ [])
    loses :
        (e : Failure) (retries pause : ℕ)
        → lost e ≡ true
        → Run lost
            (throws e)
            (calls (throws e) ∷ sleeps (backoff retries) ∷ reconnects false pause ∷ [])
    again :
        (e : Failure) (retries pause : ℕ) {r : Result Failure Value}
        {more : List (Step Failure Value)}
        → lost e ≡ true
        → Run lost r more
        → Run lost r (calls (throws e) ∷ sleeps (backoff retries) ∷ reconnects true pause ∷ more)

  Result-cases :
      (r : Result Failure Value)
      → ((v : Value) × (r ≡ returns v)) ⊎ ((e : Failure) × (r ≡ throws e))
  Result-cases (returns v) = inl (v, refl)
  Result-cases (throws e) = inr (e, refl)

  last_call : (p : Failure → Bool) (r : Result Failure Value) → Run p r (calls r ∷ [])
  last_call p (returns v) = succeeds
  last_call p (throws e) = gives_up

module _ {World Failure Value : Type 0} (error_message : Failure → Text)
    (other_reconnects : World → Option (ℕ × World)) (dispose : World → World)
    (connect : World → Bool × World) (operation : World → Result Failure Value × World) where
  abbrev pub Alone : Type 0
  Alone = (w : World) → other_reconnects w ≡ none

  pause_of :
      (w : World)
      → Alone
      → (reconnect error_message other_reconnects dispose connect operation w).1 ≡ 500
  unfolding reconnect
  pause_of w alone = rw (alone w, reconnect) refl

  -- One turn of the loop that may be followed by another.
  turn :
      (left retries : ℕ) (world : World)
      → (let ran =
            attempt error_message other_reconnects dispose connect operation
              (suc left)
              retries
              world in
          ((ran.steps ≡ calls ran.outcome ∷ []) × (ran.retries ≡ retries))
          ⊎ (((e : Failure) × (pause : ℕ) × (Alone → pause ≡ 500)
                × (is_connection_error (error_message e) ≡ true)
                × (ran.outcome ≡ throws e)
                × (ran.steps
                    ≡ calls (throws e) ∷ sleeps (backoff retries) ∷ reconnects false pause ∷ [])
                × (ran.retries ≡ suc retries)
                × (retries < 10))
              ⊎ ((e : Failure) × (w : World) × (pause : ℕ) × (Alone → pause ≡ 500)
                  × (is_connection_error (error_message e) ≡ true)
                  × (let next =
                        attempt error_message other_reconnects dispose connect operation left 0 w in
                      (ran.outcome ≡ next.outcome)
                      × (ran.steps
                          ≡ calls (throws e)
                            ∷ sleeps (backoff retries)
                            ∷ reconnects true pause
                            ∷ next.steps)
                      × (ran.retries ≡ next.retries)))))
  unfolding attempt handle_connection_error
  turn left retries world = elim (Result-cases (operation world).0) [
    | inl (v, r) ↦ rw (r, attempt) (inl (refl, refl))
    | inr (e, r) ↦
        rw (r, attempt)
          (elim (Bool-cases (is_connection_error (error_message e))) [
            | inr other ↦ rw (other, handle_connection_error) (inl (refl, refl))
            | inl lost ↦ elim (Bool-cases (leb 10 retries)) [
              | inl full ↦ rw (lost, full, handle_connection_error) (inl (refl, refl))
              | inr more ↦
                  elim (Bool-cases
                    (reconnect error_message other_reconnects dispose connect operation
                      (operation world).1).0) [
                        | inr down ↦
                            rw (lost, more, down, handle_connection_error)
                              (inr (
                                inl (
                                  e,
                                  (reconnect error_message other_reconnects dispose connect
                                      operation (operation world).1).1,
                                  pause_of (operation world).1,
                                  lost,
                                  refl,
                                  refl,
                                  refl,
                                  ground arith,
                                )))
                        | inl up ↦
                            rw (lost, more, up, handle_connection_error)
                              (inr (
                                inr (
                                  e,
                                  (reconnect error_message other_reconnects dispose connect
                                      operation (operation world).1).2,
                                  (reconnect error_message other_reconnects dispose connect
                                      operation (operation world).1).1,
                                  pause_of (operation world).1,
                                  lost,
                                  (refl, refl, refl),
                                )))
                      ]
            ]
          ])
  ]

  attempt-Run :
      (left retries : ℕ) (world : World)
      → (let ran =
            attempt error_message other_reconnects dispose connect operation left retries world in
          Run (λ e. is_connection_error (error_message e)) ran.outcome ran.steps)
  unfolding attempt
  attempt-Run zero retries world =
      last_call (λ e. is_connection_error (error_message e)) (operation world).0
  attempt-Run (suc left) retries world = elim (turn left retries world) [
    | inl (s, _) ↦ rw s (last_call (λ e. is_connection_error (error_message e)) _)
    | inr (inl (e, pause, half, lost, o, s, r, lt)) ↦ rw (o, s) (loses e retries pause lost)
    | inr (inr (e, w, pause, half, lost, (o, s, r))) ↦
        rw (o, s) (again e retries pause lost (attempt-Run left 0 w))
  ]

  attempt-call_count :
      (left retries : ℕ) (world : World)
      → (let n =
            call_count
              (attempt error_message other_reconnects dispose connect operation left retries
                world).steps in
          (1 ≤ n) × (n ≤ suc left))
  unfolding attempt
  attempt-call_count zero retries world = (omega arith, omega arith)
  attempt-call_count (suc left) retries world = elim (turn left retries world) [
    | inl (s, _) ↦ rw s (omega arith, omega arith)
    | inr (inl (e, pause, half, lost, o, s, r, lt)) ↦ rw s (omega arith, omega arith)
    | inr (inr (e, w, pause, half, lost, (o, s, r))) ↦
        rw s (omega arith, omega (arith, attempt-call_count left 0 w))
  ]

  attempt-slept_after_reset :
      (left : ℕ) (world : World)
      → Alone
      → slept (attempt error_message other_reconnects dispose connect operation left 0 world).steps
        ≤ 1500 * left
  unfolding attempt
  attempt-slept_after_reset zero world alone = omega arith
  attempt-slept_after_reset (suc left) world alone = elim (turn left 0 world) [
    | inl (s, _) ↦ rw s (omega arith)
    | inr (inl (e, pause, half, lost, o, s, r, lt)) ↦
        rw (s, half alone) (omega (arith, backoff_zero))
    | inr (inr (e, w, pause, half, lost, (o, s, r))) ↦
        rw (s, half alone) (omega (arith, attempt-slept_after_reset left w alone, backoff_zero))
  ]

  -- A new pool sets the counter back, so that only the first pause can be longer than a second.
  attempt-slept :
      (left retries : ℕ) (world : World)
      → Alone
      → slept
          (attempt error_message other_reconnects dispose connect operation
            (suc left)
            retries
            world).steps
        ≤ backoff retries + 500 + 1500 * left
  attempt-slept left retries world alone = elim (turn left retries world) [
    | inl (s, _) ↦ rw s (omega arith)
    | inr (inl (e, pause, half, lost, o, s, r, lt)) ↦ rw (s, half alone) (omega arith)
    | inr (inr (e, w, pause, half, lost, (o, s, r))) ↦
        rw (s, half alone) (omega (arith, attempt-slept_after_reset left w alone))
  ]

  -- If no other caller reconnects meanwhile: an operation is called at least once and at most three
  -- times. The caller gets the result of the last call; each earlier call failed with a connection
  -- error, after which the retry slept for the backoff of the counter and then got a working pool.
  -- The pauses of one operation, those of `reconnect` included, add up to 32 seconds at most.
  pub execute_with_retry-Run :
      (retries : ℕ) (world : World)
      → ((w : World) → other_reconnects w ≡ none)
      → (let ran =
            execute_with_retry error_message other_reconnects dispose connect operation retries
              world in
          Run (λ e. is_connection_error (error_message e)) ran.outcome ran.steps
          × (1 ≤ call_count ran.steps)
          × (call_count ran.steps ≤ 3)
          × (slept ran.steps ≤ 32000))
  unfolding execute_with_retry
  execute_with_retry-Run retries world alone =
      let calls = attempt-call_count 2 retries world in
      (
        attempt-Run 2 retries world,
        calls.0,
        calls.1,
        omega (arith, attempt-slept 1 retries world alone, backoff-le retries),
      )

  -- Once the counter has reached ten, each operation is called exactly once, whatever its result is:
  -- no pool is made again, and the counter stays.
  pub execute_with_retry-exhausted :
      (retries : ℕ) (world : World)
      → 10 ≤ retries
      → (let ran =
            execute_with_retry error_message other_reconnects dispose connect operation retries
              world in
          (ran.steps ≡ calls (operation world).0 ∷ [])
          × (ran.outcome ≡ (operation world).0)
          × (ran.retries ≡ retries))
  unfolding execute_with_retry attempt handle_connection_error
  execute_with_retry-exhausted retries world h = elim (Result-cases (operation world).0) [
    | inl (v, r) ↦ rw (r, attempt) (refl, refl, refl)
    | inr (e, r) ↦
        rw (r, attempt)
          (elim (Bool-cases (is_connection_error (error_message e))) [
            | inr other ↦ rw (other, handle_connection_error) (refl, refl, refl)
            | inl lost ↦ rw (lost, full, handle_connection_error) (refl, refl, refl)
          ])
  ]
    where
      full : leb 10 retries ≡ true
      full = ground arith
