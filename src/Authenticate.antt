-- ===== src/Authenticate.antt =====
-- The check of API keys (db/express/src/middleware/authenticate.ts). bcrypt, `JSON.parse`, `new URL`
-- and the table `api_keys` are not part of the repository: they are the record `Outside`, where none
-- is an exception. The update of `last_used_at` is not awaited and is left out, and `JSON.parse`
-- stands for the parse of an array of texts.
pub mod Sound
pub mod Examples
use diamond_dev_tools.Prelude.{
  ℕ, Bool, true, false, not, ◌&&◌, ◌||◌, Option, none, some, List, [], ◌∷◌, any, filter, drop, Text,
  ◌==◌, nat_eq, list_eq, if◌then◌else◌,
}
use diamond_dev_tools.RateLimit.{KeyType, internal, external, ApiKey}

-- A row of `api_keys`; a limit that is null is 0.
pub record KeyRow : Type 0 where
  pub id : ℕ
  pub key_hash : Text
  pub key_type : KeyType
  pub allowed_origins : Option Text
  pub rate_limit_per_minute : ℕ
  pub rate_limit_per_day : ℕ
  pub enabled : Bool

pub record Headers : Type 0 where
  pub authorization : Option Text
  pub x_api_key : Option Text
  pub origin : Option Text
  pub referer : Option Text

pub record Url : Type 0 where
  pub protocol : Text
  pub host : Text

pub record Outside : Type 0 where
  -- The table's rows.
  pub api_keys : Option (List KeyRow)
  pub compare : Text → Text → Option Bool
  pub parse_json : Text → Option (List Text)
  pub parse_url : Text → Option Url

pub data Outcome : Type 0 where
  -- 401, 403 without an origin, 403 with another origin, 500 for the key's configuration, and 500.
  key_missing key_invalid origin_missing origin_refused config_error failed : Outcome
  -- `next()` with `req.apiKey`.
  attached : ApiKey → Outcome

-- An empty text is falsy.
abbrev pub truthy : Option Text → Option Text
truthy none = none
truthy (some []) = none
truthy (some (c ∷ cs)) = some (c ∷ cs)

abbrev or_else : Option Text → Option Text → Option Text
or_else none b = truthy b
or_else (some a) b = some a

unfoldable pub starts_with : Text → Text → Bool
starts_with [] t = true
starts_with (c ∷ cs) [] = false
starts_with (c ∷ cs) (d ∷ ds) = c == d && starts_with cs ds

-- "Bearer ".
abbrev pub bearer : Text
bearer = b'B' ∷ b'e' ∷ b'a' ∷ b'r' ∷ b'e' ∷ b'r' ∷ 32 ∷ []

abbrev bearer_token : Option Text → Option Text → Option Text
unfolding starts_with
bearer_token none x = truthy x
bearer_token (some header) x =
    if starts_with bearer header then truthy (some (drop 7 header)) else truthy x

-- The key that a request carries.
unfoldable pub api_key_of : Headers → Option Text
unfolding starts_with
api_key_of h = bearer_token (truthy h.authorization) h.x_api_key

-- The first key that matches: none for an exception, some none for no match.
unfoldable pub match_key : Outside → Text → List KeyRow → Option (Option KeyRow)
match_key out key [] = some none
match_key out key (r ∷ rs) = elim (out.compare key r.key_hash) [
  | none ↦ none
  | some b ↦ if b then some (some r) else match_key out key rs
]

abbrev pub same_url : Option Url → Option Url → Bool
same_url none b = false
same_url (some a) none = false
same_url (some a) (some b) = a.protocol == b.protocol && a.host == b.host

-- `allowedOrigins.some(…)`.
abbrev pub origin_matches : Outside → Text → List Text → Bool
origin_matches out origin allowed =
    any (λ a. same_url (out.parse_url origin) (out.parse_url a)) allowed

abbrev pub attach : KeyRow → ApiKey
attach r = record {
  id = r.id;
  key_type = r.key_type;
  rate_limit_per_minute = if r.rate_limit_per_minute == 0 then 60 else r.rate_limit_per_minute;
  rate_limit_per_day = if r.rate_limit_per_day == 0 then 10000 else r.rate_limit_per_day;
}

-- The allowed origins of a key, none if their text does not parse.
unfoldable pub allowed_of : Outside → Option Text → Option (List Text)
allowed_of out none = some []
allowed_of out (some []) = some []
allowed_of out (some (c ∷ cs)) = out.parse_json (c ∷ cs)

unfoldable pub check_origin : Outside → KeyRow → Option Text → Outcome
unfolding allowed_of
check_origin out r none = origin_missing
check_origin out r (some origin) = elim (allowed_of out r.allowed_origins) [
  | none ↦ config_error
  | some allowed ↦ if origin_matches out origin allowed then attached (attach r) else origin_refused
]

unfoldable pub check_type : Outside → Headers → KeyRow → KeyType → Outcome
unfolding check_origin
check_type out h r internal = check_origin out r (or_else (truthy h.origin) h.referer)
check_type out h r external = attached (attach r)

unfoldable pub check_match : Outside → Headers → Option (Option KeyRow) → Outcome
unfolding check_type
check_match out h none = failed
check_match out h (some none) = key_invalid
check_match out h (some (some r)) = check_type out h r r.key_type

-- `where: { enabled: true }`.
abbrev pub find_all : List KeyRow → List KeyRow
find_all rows = filter (λ r. r.enabled) rows

unfoldable pub authenticate : Outside → Headers → Outcome
unfolding api_key_of match_key check_match
authenticate out h = elim (api_key_of h) [
  | none ↦ key_missing
  | some key ↦ elim out.api_keys [
    | none ↦ failed
    | some rows ↦ check_match out h (match_key out key (find_all rows))
  ]
]
