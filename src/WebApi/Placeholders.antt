-- ===== src/WebApi/Placeholders.antt =====
-- The placeholders of the queries for the directory of names, and the values bound to them.
use mathlib.Core.List.{append-nil}
use diamond_dev_tools.Prelude.{
  ℕ, ◌≡◌, refl, subst, Bool, true, ◌&&◌, Option, some, List, [], ◌∷◌, Text, filter,
}
use diamond_dev_tools.Prelude.Int.{ℤ}
use diamond_dev_tools.Names.{NameRow}
use diamond_dev_tools.WebApi.NameList.{
  NameQuery, Value, count, Condition, created_since, created_until, expires_since, expires_until,
  nonempty, parse_timestamp, build, list_names,
}
use diamond_dev_tools.WebApi.NameRows.{value_at, all_hold, select}
use diamond_dev_tools.WebApi.Filters.{
  value_at-append, value_at-second, search_part, time_part, status_part, created, expires, since,
  until, Means, all_hold-nil, created_since_at, created_until_at, expires_since_at,
  expires_until_at, search-Means, time-Means, status-Means,
}

module _ (ilike : Text → Text → Bool) (numeric : Text → ℤ) (address : List ℕ → Text) (now : ℤ) where
  module _ (date_parse : Text → Option ℤ) where
    -- The rows that a query asks for.
    abbrev pub selected : NameQuery → NameRow → Bool
    selected q r =
        ((((search_part ilike numeric address now (nonempty q.search) r
                && time_part ilike numeric address now (parse_timestamp date_parse)
                    (since ilike numeric address now (created ilike numeric address now))
                    (nonempty q.created_from) r)
              && time_part ilike numeric address now (parse_timestamp date_parse)
                  (until ilike numeric address now (created ilike numeric address now))
                  (nonempty q.created_to) r)
            && time_part ilike numeric address now (parse_timestamp date_parse)
                (since ilike numeric address now (expires ilike numeric address now))
                (nonempty q.expires_from) r)
          && time_part ilike numeric address now (parse_timestamp date_parse)
              (until ilike numeric address now (expires ilike numeric address now))
              (nonempty q.expires_to) r)
        && status_part ilike numeric address now q.status r

    build-Means :
        (q : NameQuery) → Means ilike numeric address now (build date_parse q) (selected q)
    unfolding build
    build-Means q =
        let m1 =
          search-Means ilike numeric address now date_parse (nonempty q.search)
            (record { conditions = []; bind = []; param_idx = 1 }) (λ r. true)
            (refl, λ more r. all_hold-nil ilike numeric address now more r) in
        let m2 =
          time-Means ilike numeric address now date_parse created_since
            (since ilike numeric address now (created ilike numeric address now))
            (nonempty q.created_from) _ _ (created_since_at ilike numeric address now) m1 in
        let m3 =
          time-Means ilike numeric address now date_parse created_until
            (until ilike numeric address now (created ilike numeric address now))
            (nonempty q.created_to) _ _ (created_until_at ilike numeric address now) m2 in
        let m4 =
          time-Means ilike numeric address now date_parse expires_since
            (since ilike numeric address now (expires ilike numeric address now))
            (nonempty q.expires_from) _ _ (expires_since_at ilike numeric address now) m3 in
        let m5 =
          time-Means ilike numeric address now date_parse expires_until
            (until ilike numeric address now (expires ilike numeric address now))
            (nonempty q.expires_to) _ _ (expires_until_at ilike numeric address now) m4 in
        status-Means ilike numeric address now date_parse q.status _ _ m5

    select-filter :
        (bind : List Value) (conditions : List Condition) (f : NameRow → Bool) (rows : List NameRow)
        → ((r : NameRow) → all_hold ilike numeric address now bind r conditions ≡ some (f r))
        → select ilike numeric address now bind conditions rows ≡ some (filter f rows)
    unfolding select
    select-filter bind conditions f [] h = refl
    select-filter bind conditions f (r ∷ rows) h =
        rw (h r, select-filter bind conditions f rows h) refl

    -- Both queries run without an error of a placeholder, and both select exactly the rows that pass
    -- each filter of the request, a bound in time that is no date being passed by no row; the
    -- placeholders of LIMIT and OFFSET stand for the two numbers.
    pub list_names-select :
        (q : NameQuery) (rows : List NameRow)
        → (select ilike numeric address now
              (list_names date_parse q).bind
              (list_names date_parse q).conditions
              rows
            ≡ some (filter (selected q) rows))
          × (select ilike numeric address now
                (list_names date_parse q).full_bind
                (list_names date_parse q).conditions
                rows
              ≡ some (filter (selected q) rows))
          × (value_at ilike numeric address now
                (list_names date_parse q).full_bind
                (list_names date_parse q).limit_at
              ≡ some (count (list_names date_parse q).limit_num))
          × (value_at ilike numeric address now
                (list_names date_parse q).full_bind
                (list_names date_parse q).offset_at
              ≡ some (count (list_names date_parse q).offset_num))
    unfolding list_names
    list_names-select q rows =
        let l = list_names date_parse q in
        let b = build date_parse q in
        let (at, means) = build-Means q in
        (
          select-filter b.bind b.conditions (selected q) rows (λ r.
              subst (λ v. all_hold ilike numeric address now v r b.conditions ≡ some (selected q r))
                (append-nil b.bind) (means [] r)),
          select-filter l.full_bind b.conditions (selected q) rows
              (means (count l.limit_num ∷ count l.offset_num ∷ [])),
          rw at (
              value_at-append ilike numeric address now b.bind (count l.limit_num)
                (count l.offset_num ∷ [])),
          rw at (
              value_at-second ilike numeric address now b.bind (count l.limit_num)
                (count l.offset_num) []),
        )
