-- ===== src/RateLimit.antt =====
-- The rate limits of the web API (db/express/src/middleware/rateLimiter.ts). Redis is not part of
-- the repository: what it replies to a request's commands is an argument. A request reads the clock
-- once here. `none` as a reply is an exception, and a missing entry of the `Map` is an empty list.
pub mod Window
pub mod Admission
pub mod Serving
pub mod Examples
use diamond_dev_tools.Prelude.{
  ℕ, ◌+◌, ◌-◌, ◌*◌, ◌/◌, min, Bool, true, false, not, ◌&&◌, Option, none, some, List, [], ◌∷◌, ◌++◌,
  filter, length, Text, ◌==◌, nat_eq, list_eq, if◌then◌else◌, ltb, leb,
}
use diamond_dev_tools.Prelude.Int.{ℤ, pos, negsuc, ◌+ℤ◌}

-- The keys `ratelimit:${id}:minute`, `ratelimit:${id}:day`, `ratelimit:public:${ip}:minute` and
-- `ratelimit:authip:${ip}:minute`.
pub data Key : Type 0 where
  minute_key : ℕ → Key
  day_key : ℕ → Key
  public_key : Text → Key
  auth_key : Text → Key

abbrev pub key_beq : Key → Key → Bool
key_beq (minute_key a) (minute_key b) = a == b
key_beq (minute_key a) (day_key b) = false
key_beq (minute_key a) (public_key b) = false
key_beq (minute_key a) (auth_key b) = false
key_beq (day_key a) (minute_key b) = false
key_beq (day_key a) (day_key b) = a == b
key_beq (day_key a) (public_key b) = false
key_beq (day_key a) (auth_key b) = false
key_beq (public_key a) (minute_key b) = false
key_beq (public_key a) (day_key b) = false
key_beq (public_key a) (public_key b) = a == b
key_beq (public_key a) (auth_key b) = false
key_beq (auth_key a) (minute_key b) = false
key_beq (auth_key a) (day_key b) = false
key_beq (auth_key a) (public_key b) = false
key_beq (auth_key a) (auth_key b) = a == b

pub record Entry : Type 0 where
  pub count : ℕ
  pub reset_at : ℕ

abbrev pub Store : Type 0
Store = Key → List Entry

abbrev pub live : ℕ → Entry → Bool
live now e = ltb now e.reset_at

abbrev pub set : Key → List Entry → Store → Store
set key entries store k = if key_beq key k then entries else store k

abbrev pub fresh : ℕ → ℕ → Entry
fresh window_seconds now = record { count = 1; reset_at = now + window_seconds * 1000 }

-- `InMemoryRateLimiter`.
unfoldable pub increment : Key → ℕ → ℕ → Store → ℕ × Store
increment key window_seconds now store =
    let entries = filter (live now) (store key) ++ fresh window_seconds now ∷ [] in
    (length entries, set key entries store)

abbrev earliest : Entry → List Entry → ℕ
earliest e [] = e.reset_at
earliest e (f ∷ fs) = min e.reset_at (earliest f fs)

abbrev ttl_of : ℕ → List Entry → ℤ
ttl_of now [] = negsuc 0
ttl_of now (e ∷ es) = pos ((earliest e es - now + 999) / 1000)

unfoldable pub ttl : Key → ℕ → Store → ℤ
ttl key now store = ttl_of now (filter (live now) (store key))

unfoldable pub cleanup : ℕ → Store → Store
cleanup now store key = filter (live now) (store key)

-- The first and the third result of MULTI INCR EXPIRE TTL, none when the result is falsy.
abbrev pub Reply : Type 0
Reply = Option (ℕ × ℕ)

abbrev pub Redis : Type 0
Redis = Key → Option Reply

-- Count and time to live out of a reply, with the defaults.
abbrev pub read_reply : ℕ → Reply → ℕ × ℤ
read_reply window none = (0, pos window)
read_reply window (some (count, left)) =
    if count == 0 then (0, pos window) else (count, pos (if left == 0 then window else left))

pub data Response : Type 0 where
  -- `next()` with the limit and the requests that remain, per minute and per day.
  passes : (limit remaining : ℕ) → (day_limit day_remaining : ℕ) → Response
  -- `next()` without headers.
  bypasses : Response
  -- 429 with the limit, the reset time and the seconds to wait.
  too_many : (limit : ℕ) → (reset retry_after : ℤ) → Response

abbrev pub is_admitted : Response → Bool
is_admitted (passes a b c d) = true
is_admitted bypasses = true
is_admitted (too_many a b c) = false

pub data KeyType : Type 0 where
  internal : KeyType
  external : KeyType

abbrev is_internal : KeyType → Bool
is_internal internal = true
is_internal external = false

pub record ApiKey : Type 0 where
  pub id : ℕ
  pub key_type : KeyType
  pub rate_limit_per_minute : ℕ
  pub rate_limit_per_day : ℕ

-- `* 1000`.
abbrev pub thousand : ℤ → ℤ
thousand (pos n) = pos (n * 1000)
thousand (negsuc n) = negsuc (n * 1000 + 999)

-- The part of `rateLimiter` after the counts are known.
unfoldable pub check_limits : ApiKey → ℕ → (minute day : ℕ × ℤ) → Response
unfolding ◌+ℤ◌
check_limits k now (minute_count, minute_ttl) (day_count, day_ttl) =
    if ltb k.rate_limit_per_minute minute_count
    then too_many k.rate_limit_per_minute (pos now +ℤ thousand minute_ttl) minute_ttl
    else if ltb k.rate_limit_per_day day_count
    then too_many k.rate_limit_per_day (pos now +ℤ thousand day_ttl) day_ttl
    else passes k.rate_limit_per_minute (k.rate_limit_per_minute - minute_count)
        k.rate_limit_per_day (k.rate_limit_per_day - day_count)

-- The limits counted in memory.
unfoldable pub count_in_memory : ApiKey → ℕ → Store → Response × Store
unfolding increment check_limits ttl
count_in_memory k now store =
    let (minute_count, s1) = increment (minute_key k.id) 60 now store in
    let (day_count, s2) = increment (day_key k.id) 86400 now s1 in
    (
      check_limits k now (minute_count, ttl (minute_key k.id) now s2)
          (day_count, ttl (day_key k.id) now s2),
      s2,
    )

-- Redis, and the memory where a command of it throws.
unfoldable pub count_in_redis : Redis → ApiKey → ℕ → Store → Response × Store
unfolding count_in_memory check_limits
count_in_redis redis k now store = elim (redis (minute_key k.id)) [
  | none ↦ count_in_memory k now store
  | some minute ↦ elim (redis (day_key k.id)) [
    | none ↦ count_in_memory k now store
    | some day ↦ (check_limits k now (read_reply 60 minute) (read_reply 86400 day), store)
  ]
]

-- `redis` is none while it is not connected.
unfoldable pub rate_limiter : Option Redis → Option ApiKey → ℕ → Store → Response × Store
unfolding count_in_memory count_in_redis
rate_limiter redis none now store = (bypasses, store)
rate_limiter redis (some k) now store =
    if is_internal k.key_type && leb 999999 k.rate_limit_per_minute
    then (bypasses, store)
    else elim redis [ none ↦ count_in_memory k now store | some r ↦ count_in_redis r k now store ]

-- The count for a minute that `publicRateLimiter` and `authIpThrottle` take.
unfoldable pub count_minute : Option Redis → Key → ℕ → Store → (ℕ × ℤ) × Store
unfolding increment ttl
count_minute none key now store =
    let (count, s) = increment key 60 now store in ((count, ttl key now s), s)
count_minute (some redis) key now store = elim (redis key) [
  | none ↦ let (count, s) = increment key 60 now store in ((count, ttl key now s), s)
  | some reply ↦ (read_reply 60 reply, store)
]

pub data PublicResponse : Type 0 where
  -- `next()`, with the headers of `publicRateLimiter`.
  proceeds : Option (ℕ × ℕ) → PublicResponse
  must_wait : (limit : ℕ) → (retry_after : ℤ) → PublicResponse

abbrev pub proceeding : PublicResponse → Bool
proceeding (proceeds h) = true
proceeding (must_wait l r) = false

unfoldable pub public_rate_limiter :
    (limit : ℕ) → Option Redis → (ip : Text) → ℕ → Store → PublicResponse × Store
unfolding count_minute
public_rate_limiter limit redis ip now store =
    let ((count, left), s) = count_minute redis (public_key ip) now store in
    (if ltb limit count then must_wait limit left else proceeds (some (limit, limit - count)), s)

unfoldable pub auth_ip_throttle :
    (limit : ℕ) → Option Redis → (ip : Text) → ℕ → Store → PublicResponse × Store
unfolding count_minute
auth_ip_throttle limit redis ip now store =
    let ((count, left), s) = count_minute redis (auth_key ip) now store in
    (if ltb limit count then must_wait limit left else proceeds none, s)
