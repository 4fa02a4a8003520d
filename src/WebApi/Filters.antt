-- ===== src/WebApi/Filters.antt =====
-- The conditions of the queries for the directory of names, what their placeholders stand for, and
-- which rows pass them.
use mathlib.Core.List.{append_assoc}
use diamond_dev_tools.Prelude.{
  ℕ, ◌+◌, ◌-◌, ◌≡◌, refl, sym, ap, subst, ◌∙◌, arith, Bool, true, false, ◌&&◌, ◌||◌, Option, none,
  some, List, [], ◌∷◌, ◌++◌, get_elem?, length, length-append, Text, ◌>>=◌, Option-cases, inl, inr,
}
use diamond_dev_tools.Prelude.Int.{ℤ}
use diamond_dev_tools.Names.{NameRow}
use diamond_dev_tools.WebApi.NameList.{
  Status, Value, text, seconds, word, Condition, matches_search, created_since, created_until,
  expires_since, expires_until, has_status, Builder, parse_timestamp, push_one, push_search,
  timestamp_value, status_value,
}
use diamond_dev_tools.WebApi.NameRows.{
  value_at, not_before, created_at, expires_at, label_like, owned_by, same_status, status_of, holds,
  all_hold, compare_seconds, status_holds,
}

get_elem?-append :
    {A : Type 0} (xs : List A) (y : A) (ys : List A) → get_elem? (xs ++ y ∷ ys) (length xs) ≡ some y
get_elem?-append [] y ys = refl
get_elem?-append (x ∷ xs) y ys = get_elem?-append xs y ys

and_true : (b : Bool) → (b && true) ≡ b
and_true true = refl
and_true false = refl

module _ (ilike : Text → Text → Bool) (numeric : Text → ℤ) (address : List ℕ → Text) (now : ℤ) where
  pub value_at-append :
      (bind : List Value) (v : Value) (more : List Value)
      → value_at ilike numeric address now (bind ++ v ∷ more) (length bind + 1) ≡ some v
  value_at-append bind v more =
      let last : length bind + 1 - 1 ≡ length bind = omega arith in
      rw last (get_elem?-append bind v more)

  all_hold-append :
      (bind : List Value) (r : NameRow) (cs : List Condition) (c : Condition) (b d : Bool)
      → all_hold ilike numeric address now bind r cs ≡ some b
      → holds ilike numeric address now bind r c ≡ some d
      → all_hold ilike numeric address now bind r (cs ++ c ∷ []) ≡ some (b && d)
  unfolding all_hold
  all_hold-append bind r [] c b d h e = rw e (ground arith)
  all_hold-append bind r (x ∷ cs) c b d h e =
      elim (Option-cases (holds ilike numeric address now bind r x)) [
        | inl p ↦ cc (p, h)
        | inr (b1, p) ↦ elim (Option-cases (all_hold ilike numeric address now bind r cs)) [
          | inl q ↦ ground (arith, p, q)
          | inr (b2, q) ↦ ground (arith, p, q, all_hold-append bind r cs c b2 d q e)
        ]
      ]

  -- A row passes a search, a bound in time, and a status, where the query has one.
  abbrev pub search_part : Option Text → NameRow → Bool
  search_part none r = true
  search_part (some t) r =
      label_like ilike numeric address now r.label (b'%' ∷ t ++ b'%' ∷ [])
      || owned_by ilike numeric address now r.owner t

  abbrev pub time_test : (ℤ → Bool) → Option ℤ → Bool
  time_test test none = false
  time_test test (some t) = test t

  abbrev pub time_part : (Text → Option ℤ) → (NameRow → ℤ → Bool) → Option Text → NameRow → Bool
  time_part parse test none r = true
  time_part parse test (some t) r = time_test (test r) (parse t)

  abbrev pub status_part : Option Status → NameRow → Bool
  status_part none r = true
  status_part (some s) r =
      same_status ilike numeric address now (status_of ilike numeric address now r) s

  abbrev pub created : NameRow → Option ℤ
  created = created_at ilike numeric address now

  abbrev pub expires : NameRow → Option ℤ
  expires = expires_at ilike numeric address now

  abbrev pub since : (NameRow → Option ℤ) → NameRow → ℤ → Bool
  since time r t = not_before ilike numeric address now (some t) (time r)

  abbrev pub until : (NameRow → Option ℤ) → NameRow → ℤ → Bool
  until time r t = not_before ilike numeric address now (time r) (some t)

  -- The conditions of a builder mean `f`, whatever is bound after its values.
  abbrev pub Means : Builder → (NameRow → Bool) → Type 0
  Means b f =
      (b.param_idx ≡ length b.bind + 1)
      × ((more : List Value) (r : NameRow)
          → all_hold ilike numeric address now (b.bind ++ more) r b.conditions ≡ some (f r))

  pub value_at-second :
      (bind : List Value) (v w : Value) (more : List Value)
      → value_at ilike numeric address now (bind ++ v ∷ w ∷ more) (length bind + 1 + 1) ≡ some w
  value_at-second bind v w more =
      subst (λ l. value_at ilike numeric address now l (length bind + 1 + 1) ≡ some w)
        (append_assoc bind (v ∷ []) (w ∷ more))
        (subst
          (λ n. value_at ilike numeric address now ((bind ++ v ∷ []) ++ w ∷ more) (n + 1) ≡ some w)
          (length-append bind (v ∷ []) ∙ (omega arith)) (value_at-append (bind ++ v ∷ []) w more))

  search_holds_at :
      (bind : List Value) (t : Text) (more : List Value) (r : NameRow)
      → holds ilike numeric address now
          (bind ++ text (b'%' ∷ t ++ b'%' ∷ []) ∷ text t ∷ more)
          r
          (matches_search (length bind + 1) (length bind + 1 + 1))
        ≡ some (search_part (some t) r)
  unfolding holds
  search_holds_at bind t more r =
      let p : Value = text (b'%' ∷ t ++ b'%' ∷ []) in
      let first = value_at-append bind p (text t ∷ more) in
      let second = value_at-second bind p (text t) more in rw (first, second) refl

  pub all_hold-nil :
      (bind : List Value) (r : NameRow) → all_hold ilike numeric address now bind r [] ≡ some true
  unfolding all_hold
  all_hold-nil bind r = refl

  -- What the four conditions on times test.
  abbrev pub Tests : (ℕ → Condition) → (NameRow → ℤ → Bool) → Type 0
  Tests condition test =
      (bind : List Value) (r : NameRow) (k : ℕ)
      → holds ilike numeric address now bind r (condition k) ≡ (
          value_at ilike numeric address now bind k
          >>= compare_seconds ilike numeric address now (test r))

  pub created_since_at : Tests created_since (since created)
  unfolding holds
  created_since_at bind r k = refl

  pub created_until_at : Tests created_until (until created)
  unfolding holds
  created_until_at bind r k = refl

  pub expires_since_at : Tests expires_since (since expires)
  unfolding holds
  expires_since_at bind r k = refl

  pub expires_until_at : Tests expires_until (until expires)
  unfolding holds
  expires_until_at bind r k = refl

  module _ (date_parse : Text → Option ℤ) where
    push_one-Means :
        (condition : ℕ → Condition) (v : Option Value) (part : NameRow → Bool) (b : Builder)
        (f : NameRow → Bool)
        → ((r : NameRow) → v ≡ none → part r ≡ true)
        → ((w : Value)
            → v ≡ some w
            → (bind more : List Value) (r : NameRow)
            → holds ilike numeric address now (bind ++ w ∷ more) r (condition (length bind + 1))
              ≡ some (part r))
        → Means b f
        → Means (push_one date_parse condition v b) (λ r. f r && part r)
    push_one-Means condition none part b f absent present (at, means) = (
      at,
      λ more r. means more r ∙ ap some (sym (ap (λ p. f r && p) (absent r refl) ∙ and_true (f r))),
    )
    push_one-Means condition (some v) part b f absent present (at, means) = (
      omega (arith, at, length-append b.bind (v ∷ [])),
      λ more r.
          rw (append_assoc b.bind (v ∷ []) more, at)
            (all_hold-append (b.bind ++ v ∷ more) r b.conditions (condition (length b.bind + 1))
              (f r) (part r) (means (v ∷ more) r) (present v refl b.bind more r)),
    )

    pub time-Means :
        (condition : ℕ → Condition) (test : NameRow → ℤ → Bool) (t : Option Text) (b : Builder)
        (f : NameRow → Bool)
        → Tests condition test
        → Means b f
        → Means
            (push_one date_parse condition (timestamp_value date_parse t) b)
            (λ r. f r && time_part (parse_timestamp date_parse) test t r)
    time-Means condition test none b f meaning m =
        push_one-Means condition none (λ r. true) b f (λ r e. refl) (λ w e. cc) m
    time-Means condition test (some t) b f meaning m =
        push_one-Means condition (some (seconds (parse_timestamp date_parse t)))
          (time_part (parse_timestamp date_parse) test (some t)) b f (λ r e. cc)
          (λ w e bind more r.
            meaning (bind ++ w ∷ more) r (length bind + 1)
            ∙ rw (value_at-append bind w more) (bounded_at r w (cc e)))
          m
      where
        bounded :
            (r : NameRow) (p : Option ℤ)
            → compare_seconds ilike numeric address now (test r) (seconds p)
              ≡ some (time_test (test r) p)
        bounded r none = refl
        bounded r (some s) = refl

        bounded_at :
            (r : NameRow) (w : Value)
            → w ≡ seconds (parse_timestamp date_parse t)
            → compare_seconds ilike numeric address now (test r) w
              ≡ some (time_test (test r) (parse_timestamp date_parse t))
        bounded_at r w e = rw e (bounded r (parse_timestamp date_parse t))

    pub search-Means :
        (t : Option Text) (b : Builder) (f : NameRow → Bool)
        → Means b f
        → Means (push_search date_parse t b) (λ r. f r && search_part t r)
    search-Means none b f (at, means) =
        (at, λ more r. means more r ∙ ap some (sym (and_true (f r))))
    search-Means (some t) b f (at, means) =
        let p : Value = text (b'%' ∷ t ++ b'%' ∷ []) in
        let a : Value = text t in
        (
          omega (arith, at, length-append b.bind (p ∷ a ∷ [])),
          λ more r.
              rw (append_assoc b.bind (p ∷ a ∷ []) more, at)
                (all_hold-append (b.bind ++ p ∷ a ∷ more) r b.conditions
                  (matches_search (length b.bind + 1) (length b.bind + 1 + 1)) (f r)
                  (search_part (some t) r) (means (p ∷ a ∷ more) r)
                  (search_holds_at b.bind t more r)),
        )

    pub status-Means :
        (t : Option Status) (b : Builder) (f : NameRow → Bool)
        → Means b f
        → Means
            (push_one date_parse has_status (status_value date_parse t) b)
            (λ r. f r && status_part t r)
    unfolding holds
    status-Means none b f m =
        push_one-Means has_status none (λ r. true) b f (λ r e. refl) (λ w e. cc) m
    status-Means (some t) b f m =
        push_one-Means has_status (some (word t)) (status_part (some t)) b f (λ r e. cc)
          (λ w e bind more r. rw (value_at-append bind w more) (word_at r w (cc e))) m
      where
        word_at :
            (r : NameRow) (w : Value)
            → w ≡ word t
            → status_holds ilike numeric address now r w ≡ some (status_part (some t) r)
        word_at r w e = rw e refl
