-- ===== src/WebApi/NameRows.antt =====
-- What the database makes of the conditions that WebApi/NameList builds.
use diamond_dev_tools.Prelude.{
  ℕ, ◌-◌, Bool, true, false, ◌&&◌, ◌||◌, Option, none, some, List, [], ◌∷◌, get_elem?, Text, ◌>>=◌,
  ◌==◌, list_eq, if◌then◌else◌,
}
use diamond_dev_tools.Prelude.Int.{ℤ, pos, leb_ℤ}
use diamond_dev_tools.Names.{NameRow}
use diamond_dev_tools.Ether.{to_lower_case}
use diamond_dev_tools.WebApi.NameList.{
  Status, is_blocked, is_expired, is_active, is_inactive, Value, text, seconds, word, Condition,
  matches_search, created_since, created_until, expires_since, expires_until, has_status,
}

-- What the database makes of the conditions. `now` is its clock in seconds, `numeric` reads a
-- numeric, and `address` is `'0x' || encode(owner, 'hex')`.
module _ (ilike : Text → Text → Bool) (numeric : Text → ℤ) (address : List ℕ → Text) (now : ℤ) where
  abbrev pub value_at : List Value → ℕ → Option Value
  value_at bind k = get_elem? bind (k - 1)

  abbrev pub is_set : Option Bool → Bool
  is_set (some b) = b
  is_set none = false

  abbrev pub has_expired : Option Text → Bool
  has_expired none = false
  has_expired (some e) = leb_ℤ (numeric e) now

  -- STATUS_SQL.
  unfoldable pub status_of : NameRow → Status
  status_of r =
      if is_set r.blocked
      then is_blocked
      else if has_expired r.expiration
      then is_expired
      else if is_set r.active
      then is_active
      else is_inactive

  -- A comparison with NULL is not true.
  abbrev pub not_before : Option ℤ → Option ℤ → Bool
  not_before (some from) (some t) = leb_ℤ from t
  not_before _ _ = false

  abbrev pub created_at : NameRow → Option ℤ
  created_at r = elim r.created_timestamp [ none ↦ none | some t ↦ some (pos t) ]

  abbrev pub expires_at : NameRow → Option ℤ
  expires_at r = elim r.expiration [ none ↦ none | some e ↦ some (numeric e) ]

  abbrev pub label_like : Option Text → Text → Bool
  label_like none pattern' = false
  label_like (some l) pattern' = ilike l pattern'

  abbrev pub owned_by : Option (List ℕ) → Text → Bool
  owned_by none a = false
  owned_by (some o) a = address o == to_lower_case a

  abbrev pub same_status : Status → Status → Bool
  same_status is_blocked is_blocked = true
  same_status is_expired is_expired = true
  same_status is_active is_active = true
  same_status is_inactive is_inactive = true
  same_status _ _ = false

  abbrev pub compare_seconds : (ℤ → Bool) → Value → Option Bool
  compare_seconds test (seconds none) = some false
  compare_seconds test (seconds (some t)) = some (test t)
  compare_seconds test _ = none

  abbrev pub search_holds : NameRow → Value → Value → Option Bool
  search_holds r (text p) (text a) = some (label_like r.label p || owned_by r.owner a)
  search_holds r _ _ = none

  abbrev pub status_holds : NameRow → Value → Option Bool
  status_holds r (word s) = some (same_status (status_of r) s)
  status_holds r _ = none

  -- Whether a condition is true of a row; none is an error of the query.
  unfoldable pub holds : List Value → NameRow → Condition → Option Bool
  unfolding status_of
  holds bind r (matches_search k l) =
      value_at bind k >>= λ p. value_at bind l >>= λ a. search_holds r p a
  holds bind r (created_since k) =
      value_at bind k >>= compare_seconds (λ t. not_before (some t) (created_at r))
  holds bind r (created_until k) =
      value_at bind k >>= compare_seconds (λ t. not_before (created_at r) (some t))
  holds bind r (expires_since k) =
      value_at bind k >>= compare_seconds (λ t. not_before (some t) (expires_at r))
  holds bind r (expires_until k) =
      value_at bind k >>= compare_seconds (λ t. not_before (expires_at r) (some t))
  holds bind r (has_status k) = value_at bind k >>= status_holds r

  -- The conditions, joined by AND.
  unfoldable pub all_hold : List Value → NameRow → List Condition → Option Bool
  unfolding holds
  all_hold bind r [] = some true
  all_hold bind r (c ∷ cs) = do b ← holds bind r c; rest ← all_hold bind r cs; some (b && rest)

  unfoldable pub select : List Value → List Condition → List NameRow → Option (List NameRow)
  unfolding all_hold
  select bind conditions [] = some []
  select bind conditions (r ∷ rows) = do
    b ← all_hold bind r conditions
    rest ← select bind conditions rows
    some (if b then r ∷ rest else rest)
