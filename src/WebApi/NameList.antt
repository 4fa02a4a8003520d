-- ===== src/WebApi/NameList.antt =====
-- The directory of names of controllers/names.ts (`listNames`). The texts of its two queries are
-- data: a condition has the numbers of its placeholders, and a placeholder takes the value bound at
-- its number. The route (routes/names.ts) admits four words for `status`, and ILIKE, `Date.parse`
-- and ORDER BY are parameters.
use diamond_dev_tools.Prelude.{
  ℕ, ◌+◌, ◌/◌, Bool, true, false, ◌&&◌, Option, none, some, List, [], ◌∷◌, ◌++◌, Text, ◌==◌,
  list_eq, leb, if◌then◌else◌,
}
use diamond_dev_tools.Prelude.Int.{ℤ, pos, negsuc, leb_ℤ, int_eq}
use diamond_dev_tools.Javascript.{parse_int}

pub data Status : Type 0 where
  is_blocked is_expired is_active is_inactive : Status

pub data SortColumn : Type 0 where
  label owner created_timestamp expiration : SortColumn

-- The query parameters; a parameter without a value is none.
pub record NameQuery : Type 0 where
  pub search : Option Text
  pub status : Option Status
  pub created_from : Option Text
  pub created_to : Option Text
  pub expires_from : Option Text
  pub expires_to : Option Text
  pub sort : Option Text
  pub order : Option Text
  pub limit : Option Text
  pub offset : Option Text

-- A bound value. `seconds none` is NULL.
pub data Value : Type 0 where
  text : Text → Value
  seconds : Option ℤ → Value
  word : Status → Value
  count : ℤ → Value

-- A condition with the numbers of its placeholders.
pub data Condition : Type 0 where
  matches_search : ℕ → ℕ → Condition
  created_since : ℕ → Condition
  created_until : ℕ → Condition
  expires_since : ℕ → Condition
  expires_until : ℕ → Condition
  has_status : ℕ → Condition

-- `conditions`, `bind` and `paramIdx`.
pub record Builder : Type 0 where
  pub conditions : List Condition
  pub bind : List Value
  pub param_idx : ℕ

-- What the second query is sent with; the first has `conditions` and `bind`.
pub record ListQuery : Type 0 where
  pub conditions : List Condition
  pub bind : List Value
  pub sort_column : SortColumn
  pub ascending : Bool
  pub limit_at : ℕ
  pub offset_at : ℕ
  pub full_bind : List Value
  pub limit_num : ℤ
  pub offset_num : ℤ

abbrev pub all_digits : Text → Bool
all_digits [] = true
all_digits (c ∷ cs) = (leb b'0' c && leb c b'9') && all_digits cs

-- `/^\d+$/`.
abbrev pub is_number : Text → Bool
is_number [] = false
is_number (c ∷ cs) = all_digits (c ∷ cs)

-- `Math.floor(milliseconds / 1000)`.
abbrev pub floor_seconds : ℤ → ℤ
floor_seconds (pos n) = pos (n / 1000)
floor_seconds (negsuc n) = negsuc (n / 1000)

-- A parameter that is present and not empty.
abbrev pub nonempty : Option Text → Option Text
nonempty (some (c ∷ cs)) = some (c ∷ cs)
nonempty _ = none

-- `parseInt(text) || fallback`.
abbrev pub parsed_or : ℤ → Option ℤ → ℤ
parsed_or fallback none = fallback
parsed_or fallback (some n) = if n == pos 0 then fallback else n

abbrev pub or_text : Text → Option Text → Text
or_text fallback none = fallback
or_text fallback (some t) = t

abbrev pub min_ℤ : ℤ → ℤ → ℤ
min_ℤ a b = if leb_ℤ a b then a else b

-- "name", "owner", "expires_at" and "asc".
abbrev pub sort_column_of : Option Text → SortColumn
sort_column_of none = created_timestamp
sort_column_of (some t) =
    if t == b'n' ∷ b'a' ∷ b'm' ∷ b'e' ∷ []
    then label
    else if t == b'o' ∷ b'w' ∷ b'n' ∷ b'e' ∷ b'r' ∷ []
    then owner
    else if t == b'e' ∷ b'x' ∷ b'p' ∷ b'i' ∷ b'r' ∷ b'e' ∷ b's' ∷ b'_' ∷ b'a' ∷ b't' ∷ []
    then expiration
    else created_timestamp

abbrev pub is_ascending : Option Text → Bool
is_ascending none = false
is_ascending (some t) = t == b'a' ∷ b's' ∷ b'c' ∷ []

module _ (date_parse : Text → Option ℤ) where
  unfoldable pub parse_timestamp : Text → Option ℤ
  unfolding parse_int
  parse_timestamp value =
      if is_number value
      then parse_int value
      else elim (date_parse value) [ none ↦ none | some t ↦ some (floor_seconds t) ]

  -- `if (value) { conditions.push(… $${paramIdx++}); bind.push(…); }`.
  abbrev pub push_one : (ℕ → Condition) → Option Value → Builder → Builder
  push_one condition none b = b
  push_one condition (some v) b = record {
    conditions = b.conditions ++ condition b.param_idx ∷ [];
    bind = b.bind ++ v ∷ [];
    param_idx = b.param_idx + 1;
  }

  abbrev pub push_search : Option Text → Builder → Builder
  push_search none b = b
  push_search (some t) b = record {
    conditions = b.conditions ++ matches_search b.param_idx (b.param_idx + 1) ∷ [];
    bind = b.bind ++ text (b'%' ∷ t ++ b'%' ∷ []) ∷ text t ∷ [];
    param_idx = b.param_idx + 2;
  }

  abbrev pub timestamp_value : Option Text → Option Value
  timestamp_value none = none
  timestamp_value (some t) = some (seconds (parse_timestamp t))

  abbrev pub status_value : Option Status → Option Value
  status_value none = none
  status_value (some s) = some (word s)

  unfoldable pub build : NameQuery → Builder
  unfolding parse_timestamp
  build q =
      let empty : Builder = record { conditions = []; bind = []; param_idx = 1 } in
      let b1 = push_search (nonempty q.search) empty in
      let b2 = push_one created_since (timestamp_value (nonempty q.created_from)) b1 in
      let b3 = push_one created_until (timestamp_value (nonempty q.created_to)) b2 in
      let b4 = push_one expires_since (timestamp_value (nonempty q.expires_from)) b3 in
      let b5 = push_one expires_until (timestamp_value (nonempty q.expires_to)) b4 in
      push_one has_status (status_value q.status) b5

  unfoldable pub list_names : NameQuery → ListQuery
  unfolding build parse_int
  list_names q =
      let b = build q in
      let limit_num =
        min_ℤ (parsed_or (pos 50) (parse_int (or_text (b'5' ∷ b'0' ∷ []) q.limit))) (pos 500) in
      let offset_num = parsed_or (pos 0) (parse_int (or_text (b'0' ∷ []) q.offset)) in
      record {
        conditions = b.conditions;
        bind = b.bind;
        sort_column = sort_column_of q.sort;
        ascending = is_ascending q.order;
        limit_at = b.param_idx;
        offset_at = b.param_idx + 1;
        full_bind = b.bind ++ count limit_num ∷ count offset_num ∷ [];
        limit_num = limit_num;
        offset_num = offset_num;
      }
