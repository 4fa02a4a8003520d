-- ===== src/Names/Replay.antt =====
-- The name events of a block that fails and is tried again.
use diamond_dev_tools.Prelude.{
  ◌≡◌, refl, sym, ap, ◌∙◌, fun_ext, Option, none, some, List, [], ◌∷◌, ◌++◌, Buffer, ◌==◌, list_eq,
  if◌then◌else◌, Bool-cases, Option-cases, inl, inr,
}
use diamond_dev_tools.Names.{NameRow, NameEvent, Names, NameTables, upsert_dmd_name, merge_into}
use diamond_dev_tools.Names.Visits.{Written, visit_name, process_name_events, write}
use diamond_dev_tools.Names.Merge.{combine, combine-none, combine_assoc, combine_self}

-- What an upsert says of the name `k`.
abbrev said : Written → Buffer → Option NameRow
said (hash, row, event) k = if hash == k then some row else none

-- What events say of the name `k`, up to the first that throws.
unfoldable pub told : List NameEvent → Buffer → Option NameRow
told [] k = none
told (e ∷ es) k = elim (visit_name e) [ none ↦ none | some w ↦ combine (said w k) (told es k) ]

upsert-combine :
    (w : Written) (names : Names) (k : Buffer)
    → upsert_dmd_name w.0 w.1 names k ≡ combine (names k) (said w k)
unfolding upsert_dmd_name
upsert-combine (hash, row, event) names k = elim (Bool-cases (hash == k)) [
  | inl h ↦ rw h (merged (names k))
  | inr h ↦ rw h (sym (combine-none (names k)))
]
  where
    merged : (o : Option NameRow) → some (merge_into o row) ≡ combine o (some row)
    merged none = refl
    merged (some r) = refl

process-told :
    (es : List NameEvent) (t : NameTables) (k : Buffer)
    → (process_name_events es t).names k ≡ combine (t.names k) (told es k)
unfolding process_name_events told write upsert_dmd_name
process-told [] t k = sym (combine-none (t.names k))
process-told (e ∷ es) t k = elim (Option-cases (visit_name e)) [
  | inl h ↦ rw (h, process_name_events, told) (sym (combine-none (t.names k)))
  | inr (w, h) ↦
      rw (h, process_name_events, told)
        (process-told es (write w t) k
          ∙ (ap (λ o. combine o (told es k)) (upsert-combine w t.names k)
              ∙ combine_assoc (t.names k) (said w k) (told es k)))
]

-- More events only add to what is told.
told-append :
    (es more : List NameEvent) (k : Buffer)
    → (r : Option NameRow) × (told (es ++ more) k ≡ combine (told es k) r)
unfolding told
told-append [] more k = (told more k, refl)
told-append (e ∷ es) more k = elim (Option-cases (visit_name e)) [
  | inl h ↦ (none, rw (h, told) refl)
  | inr (w, h) ↦
      let (r, same) = told-append es more k in
      (
        r,
        rw (h, told) (ap (combine (said w k)) same ∙ sym (combine_assoc (said w k) (told es k) r)),
      )
]

told-again :
    (es more : List NameEvent) (k : Buffer)
    → combine (told es k) (told (es ++ more) k) ≡ told (es ++ more) k
told-again es more k =
    let (r, same) = told-append es more k in
    rw same (
      sym (combine_assoc (told es k) (told es k) r)
      ∙ ap (λ o. combine o r) (combine_self (told es k)))

-- A block's name events that are tried, up to any point, and then tried again from the start leave
-- the same rows in `dmd_names` as if they had been tried once, although the first attempt's rows are
-- not rolled back.
pub process_name_events-retry :
    (es more : List NameEvent) (t : NameTables)
    → (process_name_events (es ++ more) (process_name_events es t)).names
      ≡ (process_name_events (es ++ more) t).names
process_name_events-retry es more t = fun_ext λ k.
    process-told (es ++ more) (process_name_events es t) k
    ∙ (ap (λ o. combine o (told (es ++ more) k)) (process-told es t k)
        ∙ (combine_assoc (t.names k) (told es k) (told (es ++ more) k)
            ∙ (ap (combine (t.names k)) (told-again es more k)
                ∙ sym (process-told (es ++ more) t k))))
