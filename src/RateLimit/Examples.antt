-- ===== src/RateLimit/Examples.antt =====
-- The limits of the web API on concrete requests.
use diamond_dev_tools.Prelude.{
  arith, ◌≡◌, refl, not, ◌&&◌, none, some, List, [], ◌∷◌, Text, ltb, suc, false, ℕ,
}
use diamond_dev_tools.RateLimit.{
  minute_key, day_key, public_key, external, ApiKey, increment, rate_limiter, is_admitted,
  count_in_memory, check_limits,
}
use diamond_dev_tools.RateLimit.Window.{
  Act, requests, cleans, window, run, InOrder, made, recent, increment-recent,
}
use diamond_dev_tools.RateLimit.Admission.{rate_limiter-admits}
use diamond_dev_tools.RateLimit.Serving.{served, log_count, rate_limiter-served}

abbrev key : ApiKey
key = record { id = 7; key_type = external; rate_limit_per_minute = 2; rate_limit_per_day = 10 }

abbrev local : Text
local = 49 ∷ []

abbrev acts : List Act
acts =
    requests (public_key local) 61000
    ∷ cleans 60500
    ∷ requests (day_key 7) 60000
    ∷ requests (minute_key 7) 60000
    ∷ requests (minute_key 7) 1000
    ∷ []

acts-InOrder : InOrder acts
acts-InOrder = (omega arith, (omega arith, (omega arith, (omega arith, (omega arith, tt)))))

two_recent : recent (minute_key 7) 60900 (made (minute_key 7) acts) ≡ 2
unfolding made
two_recent = refl

one_recent : recent (minute_key 7) 61001 (made (minute_key 7) acts) ≡ 1
unfolding made
one_recent = refl

increment-recent_example :
    (increment (minute_key 7) (window (minute_key 7)) 61500 (run acts)).0
    ≡ suc (recent (minute_key 7) 61500 (made (minute_key 7) acts))
increment-recent_example = increment-recent (minute_key 7) acts 61500 acts-InOrder (omega arith)

rate_limiter-admits_example :
    is_admitted (rate_limiter none (some key) 61500 (run acts)).0
    ≡ not (ltb 2 (suc (recent (minute_key 7) 61500 (made (minute_key 7) acts))))
      && not (ltb 10 (suc (recent (day_key 7) 61500 (made (day_key 7) acts))))
rate_limiter-admits_example = rate_limiter-admits key acts 61500 refl acts-InOrder (omega arith)

abbrev log : List (ApiKey × ℕ)
log = (key, 61000) ∷ (key, 60000) ∷ (key, 1000) ∷ []

third_refused : is_admitted (rate_limiter none (some key) 61500 (served log)).0 ≡ false
unfolding rate_limiter count_in_memory increment check_limits
third_refused = refl

rate_limiter-served_example :
    is_admitted (rate_limiter none (some key) 61500 (served log)).0
    ≡ not (ltb 2 (suc (log_count 60 7 61500 log)))
      && not (ltb 10 (suc (log_count 86400 7 61500 log)))
rate_limiter-served_example =
    rate_limiter-served key log 61500 refl (refl, (refl, (refl, tt)))
      (omega arith, (omega arith, (omega arith, tt))) (omega arith)
