-- ===== src/BonusScore/Forgotten.antt =====
-- Batches against the whole list, and scores whose rows were rolled back.
use diamond_dev_tools.Prelude.{
  ℕ, zero, suc, ◌≤◌, ◌≡◌, refl, sym, ap, subst, ◌∙◌, arith, Bool, true, false, not, Option, none,
  some, List, [], ◌∷◌, ◌++◌, length, take, drop, ltb, lt→ltb, Text, All, ◌==◌, ==-refl, ==_iff,
  nat_eq, list_eq, if◌then◌else◌, Bool-cases, inl, inr,
}
use diamond_dev_tools.Database.{Database}
use diamond_dev_tools.Ether.{to_lower_case}
use diamond_dev_tools.BonusScore.{BonusScoreHistory, NodeScore, update_bonus_score}
use diamond_dev_tools.BonusScore.Batches.{
  batch_size, differs, cache_score, Scores, attempted, changed, compare_score, process_pool,
  process_batch, process_batches, process_scores,
}

length-drop : (n : ℕ) (xs : List Text) → length (drop n xs) ≤ length xs
length-drop zero xs = omega arith
length-drop (suc n) [] = omega arith
length-drop (suc n) (x ∷ xs) = omega (arith, length-drop n xs)

take-drop : (n : ℕ) (xs : List Text) → take n xs ++ drop n xs ≡ xs
take-drop zero xs = refl
take-drop (suc n) [] = refl
take-drop (suc n) (x ∷ xs) = ap (λ l. x ∷ l) (take-drop n xs)

module _ (db : Database) (read : Text → Option (Text × ℕ)) (block : ℕ) where
  open db use {Table}

  process_batch-append :
      (ps qs : List Text) (s : Scores db)
      → process_batch db read block (ps ++ qs) s
        ≡ process_batch db read block qs (process_batch db read block ps s)
  unfolding process_batch
  process_batch-append [] qs s = refl
  process_batch-append (p ∷ ps) qs s = process_batch-append ps qs (process_pool db read block p s)

  process_batches-whole :
      (fuel : ℕ) (pools : List Text) (s : Scores db)
      → length pools ≤ fuel
      → process_batches db read block fuel pools s ≡ process_batch db read block pools s
  unfolding process_batches
  process_batches-whole zero [] s h = unfold process_batch in refl
  process_batches-whole zero (p ∷ ps) s h = absurd (omega arith)
  process_batches-whole (suc fuel) [] s h = unfold process_batch in refl
  process_batches-whole (suc fuel) (p ∷ ps) s h = rw (lt→ltb 0 (suc (length ps)) (omega arith)) (
      process_batches-whole fuel (drop 49 ps) (process_batch db read block (p ∷ take 49 ps) s)
        (omega (arith, length-drop 49 ps))
      ∙ (sym (process_batch-append (p ∷ take 49 ps) (drop 49 ps) s)
          ∙ ap (λ l. process_batch db read block (p ∷ l) s) (take-drop 49 ps)))

  -- The slices of fifty pools are processed as one list is.
  pub process_scores-process_batch :
      (pools : List Text) (s : Scores db)
      → process_scores db read block pools s
        ≡ process_batch db read block pools (record s { changes = [] })
  unfolding process_scores
  process_scores-process_batch pools s = elim (Bool-cases (ltb batch_size (length pools))) [
    | inl many ↦
        rw many
          (process_batches-whole (length pools) pools (record s { changes = [] }) (omega arith))
    | inr few ↦ rw few refl
  ]

  -- The contracts' answers: the scores by pools in lower case.
  module _ (mining : Text → Text) (score : Text → ℕ) where
    abbrev pub Reads : Text → Type 0
    Reads p = read p ≡ some (mining p, score (to_lower_case p))

    abbrev pub IsCurrent : (Text → Option ℕ) → Text → Type 0
    IsCurrent current k = current k ≡ some (score k)

    -- The updates of a run do not throw.
    abbrev pub AllWritten : List Text → Scores db → Type 0
    AllWritten [] s = Unit
    AllWritten (p ∷ ps) s =
        (differs (score (to_lower_case p)) (s.current (to_lower_case p)) ≡ true
          → (history : Table BonusScoreHistory) × (nodes : Table NodeScore) × (attempted db
                s.aborted
                (update_bonus_score db p (score (to_lower_case p)) block s.history s.nodes)
              ≡ some (history, nodes)))
        × AllWritten ps (process_pool db read block p s)

    cache_score-IsCurrent :
        (key k : Text) (current : Text → Option ℕ)
        → IsCurrent current k
        → IsCurrent (cache_score key (score key) current) k
    cache_score-IsCurrent key k current h = elim (Bool-cases (key == k)) [
      | inl same ↦ rw same (ap (λ t. some (score t)) ((==_iff key k).0 same))
      | inr other ↦ rw other h
    ]

    process_pool-IsCurrent :
        (p k : Text) (s : Scores db)
        → Reads p
        → IsCurrent s.current k
        → IsCurrent (process_pool db read block p s).current k
    unfolding process_pool
    process_pool-IsCurrent p k s r h =
        subst (λ o. IsCurrent (compare_score db read block p o s).current k) (sym r)
          (split (differs (score (to_lower_case p)) (s.current (to_lower_case p))) (
            attempted db s.aborted
              (update_bonus_score db p (score (to_lower_case p)) block s.history s.nodes)))
      where
        split :
            (b : Bool) (written : Option (Table BonusScoreHistory × Table NodeScore))
            → IsCurrent
                (if b
                  then changed db p (mining p) (score (to_lower_case p)) written s
                  else s).current
                k
        split false written = h
        split true none = h
        split true (some (history, nodes)) = cache_score-IsCurrent (to_lower_case p) k s.current h

    process_batch-IsCurrent :
        (ps : List Text) (k : Text) (s : Scores db)
        → All Reads ps
        → IsCurrent s.current k
        → IsCurrent (process_batch db read block ps s).current k
    unfolding process_batch
    process_batch-IsCurrent [] k s r h = h
    process_batch-IsCurrent (p ∷ ps) k s (r, rs) h =
        process_batch-IsCurrent ps k (process_pool db read block p s) rs
          (process_pool-IsCurrent p k s r h)

    same_score : (n : ℕ) (o : Option ℕ) → differs n o ≡ false → o ≡ some n
    same_score n none h = cc
    same_score n (some m) h = ground arith

    process_pool-sets :
        (p : Text) (ps : List Text) (s : Scores db)
        → Reads p
        → AllWritten (p ∷ ps) s
        → IsCurrent (process_pool db read block p s).current (to_lower_case p)
    unfolding process_pool
    process_pool-sets p ps s r (written, rest) =
        subst (λ o. IsCurrent (compare_score db read block p o s).current (to_lower_case p)) (sym r)
          (split (differs (score (to_lower_case p)) (s.current (to_lower_case p))) refl)
      where
        After : Scores db → Type 0
        After t = IsCurrent t.current (to_lower_case p)

        split :
            (b : Bool)
            → differs (score (to_lower_case p)) (s.current (to_lower_case p)) ≡ b
            → After (
                if b
                then changed db p
                    (mining p)
                    (score (to_lower_case p))
                    (attempted db s.aborted
                      (update_bonus_score db p (score (to_lower_case p)) block s.history s.nodes))
                    s
                else s)
        split false e = same_score (score (to_lower_case p)) (s.current (to_lower_case p)) e
        split true e =
            let (history, nodes, done) = written e in
            subst (λ w. After (changed db p (mining p) (score (to_lower_case p)) w s)) (sym done)
              (rw (==-refl (to_lower_case p)) refl)

    process_batch-sets :
        (ps : List Text) (s : Scores db)
        → All Reads ps
        → AllWritten ps s
        → All (λ p. IsCurrent (process_batch db read block ps s).current (to_lower_case p)) ps
    unfolding process_batch
    process_batch-sets [] s r w = tt
    process_batch-sets (p ∷ ps) s (r, rs) w = (
      process_batch-IsCurrent ps (to_lower_case p) (process_pool db read block p s) rs
          (process_pool-sets p ps s r w),
      process_batch-sets ps (process_pool db read block p s) rs w.1,
    )

    process_batch-idle :
        (ps : List Text) (s : Scores db)
        → All Reads ps
        → All (λ p. IsCurrent s.current (to_lower_case p)) ps
        → process_batch db read block ps s ≡ s
    unfolding process_batch process_pool
    process_batch-idle [] s r h = refl
    process_batch-idle (p ∷ ps) s (r, rs) (h, hs) =
        let n = score (to_lower_case p) in
        let idle : process_pool db read block p s ≡ s =
          ap (λ o. compare_score db read block p o s) r
          ∙ ap
              (λ b.
                if b
                then changed db p (mining p) n
                    (attempted db s.aborted (update_bonus_score db p n block s.history s.nodes)) s
                else s)
              (ap (differs n) h ∙ ap not (==-refl n)) in
        ap (process_batch db read block ps) idle ∙ process_batch-idle ps s rs hs

    -- A run in which no call and no update throws leaves the score of each pool in the cache, in
    -- however many batches. A second run at the same block with that cache writes nothing and finds
    -- no change, whatever the tables hold by then: also if the first run was rolled back.
    pub process_scores-forgets :
        (pools : List Text) (s t : Scores db)
        → All Reads pools
        → AllWritten pools (record s { changes = [] })
        → All
            (λ p. IsCurrent (process_scores db read block pools s).current (to_lower_case p))
            pools
          × (process_scores db read block pools
                (record t { current = (process_scores db read block pools s).current })
              ≡ record t { current = (process_scores db read block pools s).current; changes = [] })
    process_scores-forgets pools s t r w =
        let cached : All
            (λ p. IsCurrent (process_scores db read block pools s).current (to_lower_case p))
            pools =
          subst (λ u. All (λ p. IsCurrent u.current (to_lower_case p)) pools)
            (sym (process_scores-process_batch pools s))
            (process_batch-sets pools (record s { changes = [] }) r w) in
        (
          cached,
          process_scores-process_batch pools
                (record t { current = (process_scores db read block pools s).current })
              ∙ process_batch-idle pools
                  (record t {
                    current = (process_scores db read block pools s).current;
                    changes = [];
                  })
                  r cached,
        )
