-- ===== src/RateLimit/Serving.antt =====
-- Limited requests one after the other (`rateLimiter` without Redis), against the log of them.
use diamond_dev_tools.Prelude.{
  ℕ, suc, ◌+◌, ◌*◌, ◌≤◌, ◌≡◌, refl, ap, ◌∙◌, arith, Bool, true, false, not, ◌&&◌, none, some, List,
  [], ◌∷◌, ◌++◌, filter, length, length-append, ltb, ◌==◌, nat_eq, if◌then◌else◌, All, Bool-cases,
  inl, inr,
}
use diamond_dev_tools.RateLimit.{
  Store, minute_key, day_key, external, ApiKey, rate_limiter, is_admitted,
}
use diamond_dev_tools.RateLimit.Window.{
  Act, requests, run, latest, InOrder, made, recent, filter-append,
}
use diamond_dev_tools.RateLimit.Admission.{rate_limiter-admits, rate_limiter-run}

-- The store after requests with keys, the latest at the head.
abbrev pub served : List (ApiKey × ℕ) → Store
served [] = λ k. []
served ((k, t) ∷ earlier) = (rate_limiter none (some k) t (served earlier)).1

-- The log's requests of one key of the last seconds.
abbrev pub log_count : (seconds id now : ℕ) → List (ApiKey × ℕ) → ℕ
log_count seconds id now [] = 0
log_count seconds id now ((k, t) ∷ earlier) =
    if (k.id == id) && ltb now (t + seconds * 1000)
    then suc (log_count seconds id now earlier)
    else log_count seconds id now earlier

abbrev pub last_time : List (ApiKey × ℕ) → ℕ
last_time [] = 0
last_time ((k, t) ∷ earlier) = t

-- The clock does not go back.
abbrev pub InClockOrder : List (ApiKey × ℕ) → Type 0
InClockOrder [] = Unit
InClockOrder ((k, t) ∷ earlier) = (last_time earlier ≤ t) × InClockOrder earlier

abbrev pub IsExternal : ApiKey × ℕ → Type 0
IsExternal (k, t) = k.key_type ≡ external

abbrev acts_of : List (ApiKey × ℕ) → List Act
acts_of [] = []
acts_of ((k, t) ∷ earlier) =
    requests (day_key k.id) t ∷ requests (minute_key k.id) t ∷ acts_of earlier

served-run : (log : List (ApiKey × ℕ)) → All IsExternal log → served log ≡ run (acts_of log)
served-run [] h = refl
served-run ((k, t) ∷ earlier) (h, hs) =
    ap (λ s. (rate_limiter none (some k) t s).1) (served-run earlier hs)
    ∙ rate_limiter-run k (acts_of earlier) t h

latest-acts_of : (log : List (ApiKey × ℕ)) → latest (acts_of log) ≡ last_time log
latest-acts_of [] = refl
latest-acts_of ((k, t) ∷ earlier) = refl

acts_of-InOrder : (log : List (ApiKey × ℕ)) → InClockOrder log → InOrder (acts_of log)
acts_of-InOrder [] h = tt
acts_of-InOrder ((k, t) ∷ earlier) (h, hs) =
    (omega arith, (omega (arith, h, latest-acts_of earlier), acts_of-InOrder earlier hs))

-- One more time at the end of a list.
count_snoc :
    (seconds now t : ℕ) (ts : List ℕ) (n : ℕ)
    → length (filter (λ u. ltb now (u + seconds * 1000)) ts) ≡ n
    → length (filter (λ u. ltb now (u + seconds * 1000)) (ts ++ t ∷ []))
      ≡ (if ltb now (t + seconds * 1000) then suc n else n)
count_snoc seconds now t ts n h =
    ap length (filter-append (λ u. ltb now (u + seconds * 1000)) ts (t ∷ []))
    ∙ (length-append (filter (λ u. ltb now (u + seconds * 1000)) ts)
          (filter (λ u. ltb now (u + seconds * 1000)) (t ∷ []))
        ∙ split (ltb now (t + seconds * 1000)))
  where
    split :
        (b : Bool)
        → length (filter (λ u. ltb now (u + seconds * 1000)) ts) + length (if b then t ∷ [] else [])
          ≡ (if b then suc n else n)
    split true = omega (arith, h)
    split false = omega (arith, h)

minute-log_count :
    (id now : ℕ) (log : List (ApiKey × ℕ))
    → recent (minute_key id) now (made (minute_key id) (acts_of log)) ≡ log_count 60 id now log
unfolding made
minute-log_count id now [] = refl
minute-log_count id now ((k, t) ∷ earlier) = elim (Bool-cases (k.id == id)) [
  | inl same ↦ rw same (
      count_snoc 60 now t (made (minute_key id) (acts_of earlier)) _
        (minute-log_count id now earlier))
  | inr other ↦ rw other (minute-log_count id now earlier)
]

day-log_count :
    (id now : ℕ) (log : List (ApiKey × ℕ))
    → recent (day_key id) now (made (day_key id) (acts_of log)) ≡ log_count 86400 id now log
unfolding made
day-log_count id now [] = refl
day-log_count id now ((k, t) ∷ earlier) = elim (Bool-cases (k.id == id)) [
  | inl same ↦ rw same (
      count_snoc 86400 now t (made (day_key id) (acts_of earlier)) _ (day-log_count id now earlier))
  | inr other ↦ rw other (day-log_count id now earlier)
]

-- Without Redis, and after any requests with external keys in the clock's order, admitted or not, a
-- request with an external key is admitted exactly when the log has few enough requests of its key in
-- the last minute and in the last day, this one included.
pub rate_limiter-served :
    (k : ApiKey) (log : List (ApiKey × ℕ)) (now : ℕ)
    → k.key_type ≡ external
    → All IsExternal log
    → InClockOrder log
    → last_time log ≤ now
    → is_admitted (rate_limiter none (some k) now (served log)).0
      ≡ not (ltb k.rate_limit_per_minute (suc (log_count 60 k.id now log)))
        && not (ltb k.rate_limit_per_day (suc (log_count 86400 k.id now log)))
rate_limiter-served k log now external_key all order le =
    ap (λ s. is_admitted (rate_limiter none (some k) now s).0) (served-run log all)
    ∙ (rate_limiter-admits k (acts_of log) now external_key (acts_of-InOrder log order)
          (omega (arith, latest-acts_of log))
        ∙ (ap
              (λ n.
                not (ltb k.rate_limit_per_minute (suc n))
                && not (
                    ltb k.rate_limit_per_day
                      (suc (recent (day_key k.id) now (made (day_key k.id) (acts_of log))))))
              (minute-log_count k.id now log)
            ∙ ap
                (λ n.
                  not (ltb k.rate_limit_per_minute (suc (log_count 60 k.id now log)))
                  && not (ltb k.rate_limit_per_day (suc n)))
                (day-log_count k.id now log)))
