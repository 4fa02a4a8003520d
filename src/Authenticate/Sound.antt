-- ===== src/Authenticate/Sound.antt =====
-- Which requests get past the check of their key.
use diamond_dev_tools.Prelude.{
  ℕ, zero, subst, Bool, if◌then◌else◌, sym, ap, ◌∙◌, ==_iff, ◌==◌, list_eq, ◌≡◌, refl, true, false,
  Option, none, some, List, [], ◌∷◌, get_elem?, suc, Text, Bool-cases, Option-cases, inl, inr,
}
use diamond_dev_tools.RateLimit.{KeyType, internal, external, ApiKey}
use diamond_dev_tools.Authenticate.{
  KeyRow, Headers, Outside, attached, or_else, truthy, api_key_of, Url, same_url, find_all,
  match_key, origin_matches, attach, allowed_of, check_origin, check_type, check_match,
  authenticate,
}

-- One of the origins parses, and has the scheme and the host of the given one.
abbrev pub OneOf : Outside → Text → List Text → Type 0
OneOf out o allowed =
    (a : Text) × (i : ℕ) × (u : Url) × (v : Url) × (get_elem? allowed i ≡ some a)
    × (out.parse_url o ≡ some u)
    × (out.parse_url a ≡ some v)
    × (u.protocol ≡ v.protocol)
    × (u.host ≡ v.host)

-- The key of the request matches an enabled row, and a row for internal use allows the request's origin.
pub record Admits (out : Outside) (h : Headers) (k : ApiKey) : Type 0 where
  pub key : Text
  pub rows : List KeyRow
  pub row : KeyRow
  pub carried : api_key_of h ≡ some key
  pub found : out.api_keys ≡ some rows
  pub place : ℕ
  pub member : get_elem? rows place ≡ some row
  pub enabled : row.enabled ≡ true
  pub matched : out.compare key row.key_hash ≡ some true
  pub same : k ≡ attach row
  pub origin :
      row.key_type ≡ internal
      → (o : Text) × (allowed : List Text) × (or_else (truthy h.origin) h.referer ≡ some o)
        × (allowed_of out row.allowed_origins ≡ some allowed)
        × OneOf out o allowed

get_elem?-find_all :
    (rows : List KeyRow) (j : ℕ) (r : KeyRow)
    → get_elem? (find_all rows) j ≡ some r
    → (i : ℕ) × (get_elem? rows i ≡ some r) × (r.enabled ≡ true)
get_elem?-find_all [] j r h = cc
get_elem?-find_all (q ∷ rows) j r h = elim (Bool-cases q.enabled) [
  | inr off ↦
      let (i, place, on) = get_elem?-find_all rows j r (subst Found off h) in (suc i, place, on)
  | inl on ↦ first on (λ k e. get_elem?-find_all rows k r e) j (subst Found on h)
]
  where
    Found : Bool → Type 0
    Found b = get_elem? (if b then q ∷ find_all rows else find_all rows) j ≡ some r

    first :
        q.enabled ≡ true
        → ((k : ℕ)
            → get_elem? (find_all rows) k ≡ some r
            → (i : ℕ) × (get_elem? rows i ≡ some r) × (r.enabled ≡ true))
        → (j : ℕ) → get_elem? (q ∷ find_all rows) j ≡ some r
        → (i : ℕ) × (get_elem? (q ∷ rows) i ≡ some r) × (r.enabled ≡ true)
    first on rest zero e = let same : q ≡ r = cc in (0, e, ap (λ x. x.enabled) (sym same) ∙ on)
    first on rest (suc k) e = let (i, place, up) = rest k e in (suc i, place, up)

same_url-parts :
    (a b : Option Url)
    → same_url a b ≡ true
    → (u : Url) × (v : Url) × (a ≡ some u)
      × (b ≡ some v)
      × (u.protocol ≡ v.protocol)
      × (u.host ≡ v.host)
same_url-parts none b h = cc
same_url-parts (some u) none h = cc
same_url-parts (some u) (some v) h = elim (Bool-cases (u.protocol == v.protocol)) [
  | inl p ↦ (u, v, refl, refl, (==_iff _ _).0 p, (==_iff _ _).0 (rw p at h))
  | inr p ↦ let h' = rw p at h in cc
]

origin_matches-OneOf :
    (out : Outside) (o : Text) (allowed : List Text)
    → origin_matches out o allowed ≡ true
    → OneOf out o allowed
origin_matches-OneOf out o [] h = cc
origin_matches-OneOf out o (a ∷ more) h =
    elim (Bool-cases (same_url (out.parse_url o) (out.parse_url a))) [
      | inl e ↦
          let (u, v, given, other, scheme, host) = same_url-parts _ _ e in
          (a, 0, u, v, refl, given, other, scheme, host)
      | inr e ↦
          let (b, i, u, v, place, given, other, scheme, host) =
            origin_matches-OneOf out o more (rw e at h) in
          (b, suc i, u, v, place, given, other, scheme, host)
    ]

match_key-get_elem? :
    (out : Outside) (key : Text) (rows : List KeyRow) (r : KeyRow)
    → match_key out key rows ≡ some (some r)
    → (i : ℕ) × (get_elem? rows i ≡ some r) × (out.compare key r.key_hash ≡ some true)
unfolding match_key
match_key-get_elem? out key [] r h = cc
match_key-get_elem? out key (q ∷ rows) r h = elim (Option-cases (out.compare key q.key_hash)) [
  | inl e ↦ let h' = rw (e, match_key) at h in cc
  | inr (true, e) ↦ let h' = rw (e, match_key) at h in (0, cc, cc)
  | inr (false, e) ↦
      let h' = rw (e, match_key) at h in
      let (i, place, same) = match_key-get_elem? out key rows r h' in (suc i, place, same)
]

-- What a key for internal use asks of the origin.
abbrev Allows : Outside → KeyRow → Option Text → Type 0
Allows out r given =
    (o : Text) × (allowed : List Text) × (given ≡ some o)
    × (allowed_of out r.allowed_origins ≡ some allowed)
    × OneOf out o allowed

check_origin-attached :
    (out : Outside) (r : KeyRow) (given : Option Text) (k : ApiKey)
    → check_origin out r given ≡ attached k
    → Allows out r given × (k ≡ attach r)
unfolding check_origin
check_origin-attached out r none k h = cc
check_origin-attached out r (some o) k h = elim (Option-cases (allowed_of out r.allowed_origins)) [
  | inl e ↦ let h' = rw (e, check_origin) at h in cc
  | inr (allowed, e) ↦ elim (Bool-cases (origin_matches out o allowed)) [
    | inl m ↦
        let h' = rw (e, check_origin, m) at h in
        ((o, allowed, refl, e, origin_matches-OneOf out o allowed m), cc)
    | inr m ↦ let h' = rw (e, check_origin, m) at h in cc
  ]
]

check_type-attached :
    (out : Outside) (h : Headers) (r : KeyRow) (t : KeyType) (k : ApiKey)
    → check_type out h r t ≡ attached k
    → (t ≡ internal → Allows out r (or_else (truthy h.origin) h.referer)) × (k ≡ attach r)
unfolding check_type
check_type-attached out h r internal k e =
    let (a, same) = check_origin-attached out r (or_else (truthy h.origin) h.referer) k e in
    (λ _. a, same)
check_type-attached out h r external k e = (λ t. cc, cc)

-- A request that gets past the check carries the key of an enabled row, and a row for internal use
-- allows the origin of the request by scheme and host; what is attached is that row, with the
-- default limits in place of 0.
pub authenticate-Admits :
    (out : Outside) (h : Headers) (k : ApiKey) → authenticate out h ≡ attached k → Admits out h k
unfolding authenticate check_match
authenticate-Admits out h k e = elim (Option-cases (api_key_of h)) [
  | inl a ↦ let e' = rw (a, authenticate) at e in cc
  | inr (key, a) ↦ elim (Option-cases out.api_keys) [
    | inl f ↦ let e' = rw (a, authenticate, f) at e in cc
    | inr (rows, f) ↦ elim (Option-cases (match_key out key (find_all rows))) [
      | inl m ↦ let e' = rw (a, authenticate, f, m) at e in cc
      | inr (none, m) ↦ let e' = rw (a, authenticate, f, m) at e in cc
      | inr (some r, m) ↦
          let e' = rw (a, authenticate, f, m) at e in
          let (j, kept, right) = match_key-get_elem? out key (find_all rows) r m in
          let (i, place, on) = get_elem?-find_all rows j r kept in
          let (allows, same) = check_type-attached out h r r.key_type k e' in
          record {
            key = key;
            rows = rows;
            row = r;
            carried = a;
            found = f;
            place = i;
            member = place;
            enabled = on;
            matched = right;
            same = same;
            origin = allows;
          }
    ]
  ]
]
