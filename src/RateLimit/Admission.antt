-- ===== src/RateLimit/Admission.antt =====
-- Which requests the limiters let pass while Redis is not connected.
use diamond_dev_tools.Prelude.{
  ℕ, suc, ◌≤◌, ◌≡◌, refl, sym, ◌∙◌, not, ◌&&◌, none, some, List, ◌∷◌, Text, ltb, Bool-cases, inl,
  inr,
}
use diamond_dev_tools.Prelude.Int.{ℤ}
use diamond_dev_tools.RateLimit.{
  minute_key, day_key, public_key, external, ApiKey, increment, check_limits, count_in_memory,
  rate_limiter, is_admitted, count_minute, public_rate_limiter, proceeding,
}
use diamond_dev_tools.RateLimit.Window.{
  Act, requests, after, run, latest, InOrder, made, recent, increment-recent,
}

check_limits-admits :
    (k : ApiKey) (now m d : ℕ) (t u : ℤ)
    → is_admitted (check_limits k now (m, t) (d, u))
      ≡ not (ltb k.rate_limit_per_minute m) && not (ltb k.rate_limit_per_day d)
unfolding check_limits
check_limits-admits k now m d t u = elim (Bool-cases (ltb k.rate_limit_per_minute m)) [
  | inl h ↦ rw h refl
  | inr h ↦ elim (Bool-cases (ltb k.rate_limit_per_day d)) [
    | inl g ↦ rw (h, g) refl
    | inr g ↦ rw (h, g) refl
  ]
]

-- Without Redis, and after any requests and cleanups in the clock's order, a request with an
-- external key passes exactly when neither its requests of the last minute nor those of the last
-- day, this one included, are more than the key's limits; requests that were refused count too.
pub rate_limiter-admits :
    (k : ApiKey) (acts : List Act) (now : ℕ)
    → k.key_type ≡ external
    → InOrder acts
    → latest acts ≤ now
    → is_admitted (rate_limiter none (some k) now (run acts)).0
      ≡ not (
          ltb k.rate_limit_per_minute
            (suc (recent (minute_key k.id) now (made (minute_key k.id) acts))))
        && not
            (ltb k.rate_limit_per_day (suc (recent (day_key k.id) now (made (day_key k.id) acts))))
unfolding rate_limiter count_in_memory increment
rate_limiter-admits k acts now e o le = rw e (
    check_limits-admits k now _ _ _ _
    ∙ rw
        (
          increment-recent (minute_key k.id) acts now o le,
          increment-recent (day_key k.id) acts now o le,
        )
        refl)

-- The store after a request with an external key is the one after its two counters were asked for.
pub rate_limiter-run :
    (k : ApiKey) (acts : List Act) (now : ℕ)
    → k.key_type ≡ external
    → (rate_limiter none (some k) now (run acts)).1
      ≡ run (requests (day_key k.id) now ∷ requests (minute_key k.id) now ∷ acts)
unfolding rate_limiter count_in_memory increment after
rate_limiter-run k acts now e = rw e refl

-- Without Redis, and after any requests and cleanups in the clock's order, an unauthenticated
-- request passes exactly when the requests of its address to the public routes in the last minute,
-- this one included, are not more than the limit.
pub public_rate_limiter-proceeds :
    (limit : ℕ) (ip : Text) (acts : List Act) (now : ℕ)
    → InOrder acts
    → latest acts ≤ now
    → proceeding (public_rate_limiter limit none ip now (run acts)).0
      ≡ not (ltb limit (suc (recent (public_key ip) now (made (public_key ip) acts))))
unfolding public_rate_limiter count_minute
public_rate_limiter-proceeds limit ip acts now o le =
    rw (sym (increment-recent (public_key ip) acts now o le))
      (elim (Bool-cases (ltb limit (increment (public_key ip) 60 now (run acts)).0)) [
        | inl h ↦ rw h refl
        | inr h ↦ rw h refl
      ])
