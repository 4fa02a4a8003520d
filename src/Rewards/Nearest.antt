-- ===== src/Rewards/Nearest.antt =====
-- Rounding to the nearest number meets the law of `Division`; the examples divide by it.
use diamond_dev_tools.Prelude.{ℕ, ◌+◌, ◌*◌, ◌/◌, ◌≤◌, ◌<◌, arith, ◌≡◌}
use native.Mathlib.Nat.{div-mul-le_self, lt-div-mul-add}
use diamond_dev_tools.Rewards.{Division}

-- The quotient, rounded to the nearest number.
abbrev pub nearest : ℕ → ℕ → ℕ
nearest n d = (2 * n + d) / (2 * d)

pub nearest_close :
    (n d : ℕ) → 0 < d → (2 * (d * nearest n d) ≤ 2 * n + d) × (2 * n ≤ 2 * (d * nearest n d) + d)
nearest_close n d h =
    let below = div-mul-le_self (2 * n + d) (2 * d) in
    let above = lt-div-mul-add {a = 2 * n + d} {b = 2 * d} (omega arith) in
    let shape : (2 * n + d) / (2 * d) * (2 * d) ≡ 2 * (d * ((2 * n + d) / (2 * d))) = grind arith in
    (omega arith, omega arith)

abbrev pub division : Division
division = record { div_round = nearest; div_round-close = nearest_close }
