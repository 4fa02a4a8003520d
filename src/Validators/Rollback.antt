-- ===== src/Validators/Rollback.antt =====
-- What the observer remembers of an update whose transaction is rolled back.
use diamond_dev_tools.Prelude.{
  ℕ, ◌≡◌, refl, ap, subst, Bool, true, false, not, ◌&&◌, ◌||◌, Option, none, some, List, [], ◌∷◌,
  Text, ◌==◌, nat_eq, list_eq, ==_iff, ==-refl, if◌then◌else◌, Bool-cases, Option-cases, inl, inr,
  arith,
}
use diamond_dev_tools.Database.{Database}
use diamond_dev_tools.Validators.{
  ValidatorRow, Contracts, Observer, pending, current, deep_equals, normalize, switch,
  switch_pending, switch_current, both, update_validators,
}

deep_equals_refl : (l : List Text) → deep_equals l l ≡ true
unfolding deep_equals
deep_equals_refl [] = refl
deep_equals_refl (a ∷ l) = rw (==-refl a) (deep_equals_refl l)

-- The test of the early return.
abbrev unchanged : Observer → ℕ → ℕ → List Text → Bool
unchanged o round epoch ps =
    o.current_key_gen_round == round
    && (o.current_posdao_epoch == epoch && deep_equals o.pending_validators ps)

not_or : (a b : Bool) → (not a || not b) ≡ false → (a ≡ true) × (b ≡ true)
not_or a b h = ground arith

module _ (db : Database) where
  open db use {Table}

  switch_pending-unchanged :
      (ps : List Text) (block round epoch : ℕ) (o p : Observer) (t u : Table ValidatorRow)
      → o.current_posdao_epoch ≡ epoch
      → switch_pending db ps block round o t ≡ (p, some u)
      → unchanged p round epoch ps ≡ true
  unfolding switch_pending
  switch_pending-unchanged ps block round epoch o p t u e h =
      elim (Bool-cases
        (not (deep_equals o.pending_validators ps) || not (o.current_key_gen_round == round))) [
          | inl c ↦ elim (Option-cases (switch db o.pending_validators ps block pending round t)) [
            | inl d ↦ let h' = rw (c, switch_pending, d) at h in cc
            | inr (v, d) ↦
                let h' = rw (c, switch_pending, d) at h in
                subst (λ q. unchanged q round epoch ps ≡ true) (ap (λ x. x.0) h')
                  (rw
                    (==-refl round, (==_iff o.current_posdao_epoch epoch).1 e, deep_equals_refl ps))
          ]
          | inr c ↦
              let h' = rw (c, switch_pending) at h in
              let (same, still) = not_or _ _ c in
              subst (λ q. unchanged q round epoch ps ≡ true) (ap (λ x. x.0) h')
                (rw (still, (==_iff o.current_posdao_epoch epoch).1 e, same))
        ]

  switch_current-unchanged :
      (cs ps : List Text) (block round epoch : ℕ) (o p : Observer) (t u : Table ValidatorRow)
      → unchanged o round epoch ps ≡ true
      → switch_current db cs block round o t ≡ (p, some u)
      → unchanged p round epoch ps ≡ true
  unfolding switch_current
  switch_current-unchanged cs ps block round epoch o p t u e h =
      elim (Bool-cases
        (not (deep_equals o.current_validators cs) || not (o.current_key_gen_round == round))) [
          | inl c ↦ elim (Option-cases (switch db o.current_validators cs block current round t)) [
            | inl d ↦ let h' = rw (c, switch_current, d) at h in cc
            | inr (v, d) ↦
                let h' = rw (c, switch_current, d) at h in
                subst (λ q. unchanged q round epoch ps ≡ true) (ap (λ x. x.0) h') e
          ]
          | inr c ↦
              let h' = rw (c, switch_current) at h in
              subst (λ q. unchanged q round epoch ps ≡ true) (ap (λ x. x.0) h') e
        ]

  both-unchanged :
      (cs ps : List Text) (block round epoch : ℕ) (o p : Observer) (t u : Table ValidatorRow)
      → o.current_posdao_epoch ≡ epoch
      → both db cs block round (switch_pending db ps block round o t) ≡ (p, some u)
      → unchanged p round epoch ps ≡ true
  unfolding both
  both-unchanged cs ps block round epoch o p t u e h =
      cases (switch_pending db ps block round o t) refl
    where
      cases :
          (x : Observer × Option (Table ValidatorRow))
          → switch_pending db ps block round o t ≡ x
          → unchanged p round epoch ps ≡ true
      cases (q, none) s = let h' = rw s at h in cc
      cases (q, some v) s =
          switch_current-unchanged cs ps block round epoch q p v u
            (switch_pending-unchanged ps block round epoch o q t v e s) (rw s at h)

  -- If an update succeeds and its transaction is rolled back for another reason, the same update on
  -- the table as it was before does nothing: the changes of the validators are never written.
  pub update_validators-forgets :
      (chain : Contracts) (block epoch : ℕ) (o p : Observer) (t u : Table ValidatorRow)
      → update_validators db chain block epoch o t ≡ (p, some u)
      → update_validators db chain block epoch p t ≡ (p, some t)
  unfolding update_validators
  update_validators-forgets chain block epoch o p t u h =
      elim (Option-cases (chain.get_key_gen_round block)) [
        | inl a ↦ let h' = rw (a, update_validators) at h in cc
        | inr (round, a) ↦ elim (Option-cases (chain.get_pending_validators block)) [
          | inl b ↦ let h' = rw (a, update_validators, b) at h in cc
          | inr (ps, b) ↦
              rw (a, update_validators, b)
                (rw (remembered round ps (rw (a, update_validators, b) at h)))
        ]
      ]
    where
      outcome : ℕ → List Text → Observer × Option (Table ValidatorRow)
      outcome round ps =
          if unchanged o round epoch (normalize ps)
          then (o, some t)
          else elim (chain.get_validators block) [
            | none ↦ (o, none)
            | some cs ↦ both db (normalize cs) block round (
                switch_pending db (normalize ps) block round
                  (record o { current_posdao_epoch = epoch }) t)
          ]

      remembered :
          (round : ℕ) (ps : List Text)
          → outcome round ps ≡ (p, some u)
          → unchanged p round epoch (normalize ps) ≡ true
      remembered round ps g = elim (Bool-cases (unchanged o round epoch (normalize ps))) [
        | inl c ↦
            let g' = rw c at g in
            subst (λ q. unchanged q round epoch (normalize ps) ≡ true) (ap (λ x. x.0) g') c
        | inr c ↦ elim (Option-cases (chain.get_validators block)) [
          | inl d ↦ let g' = rw (c, d) at g in cc
          | inr (cs, d) ↦
              both-unchanged (normalize cs) (normalize ps) block round epoch
                (record o { current_posdao_epoch = epoch }) p t u refl (rw (c, d) at g)
        ]
      ]
