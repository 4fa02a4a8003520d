-- ===== src/Authenticate/Examples.antt =====
-- The check of an API key on a concrete request.
use diamond_dev_tools.Prelude.{◌≡◌, refl, true, none, some, [], ◌∷◌, drop, list_beq}
use diamond_dev_tools.RateLimit.{internal}
use diamond_dev_tools.Authenticate.{
  KeyRow, Headers, Outside, attached, attach, api_key_of, starts_with, match_key, allowed_of,
  check_origin, check_type, check_match, authenticate,
}
use diamond_dev_tools.Authenticate.Sound.{Admits, authenticate-Admits}

abbrev row : KeyRow
row = record {
  id = 4;
  key_hash = 1 ∷ [];
  key_type = internal;
  allowed_origins = some (2 ∷ []);
  rate_limit_per_minute = 0;
  rate_limit_per_day = 50;
  enabled = true;
}

-- One key that every text matches, and one allowed origin.
abbrev site : Outside
site = record {
  api_keys = some (row ∷ []);
  compare = λ key hash. some true;
  parse_json = λ t. some ((3 ∷ []) ∷ []);
  parse_url = λ t. some (record { protocol = 5 ∷ []; host = drop 1 t });
}

abbrev headers : Headers
headers = record {
  authorization = none;
  x_api_key = some (7 ∷ []);
  origin = some (9 ∷ []);
  referer = none;
}

request_passes : authenticate site headers ≡ attached (attach row)
unfolding authenticate api_key_of starts_with match_key check_match check_type check_origin
    allowed_of list_beq
request_passes = refl

authenticate-Admits_example : Admits site headers (attach row)
authenticate-Admits_example = authenticate-Admits site headers (attach row) request_passes
