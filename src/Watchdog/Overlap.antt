-- ===== src/Watchdog/Overlap.antt =====
-- Two checks of one validator that overlap.
use diamond_dev_tools.Prelude.{
  ℕ, ◌≡◌, refl, ap, subst, ◌∙◌, true, ◌&&◌, Option, some, List, [], ◌∷◌, ◌++◌, Text, ==-refl,
  list_eq, if◌then◌else◌,
}
use diamond_dev_tools.Watchdog.{
  Check, Restart, ContractAnswers, Watching, managed_by, only_one, may_restart, needs_restart,
  async_restart, finish_check, begin_check, finish_next,
}
use diamond_dev_tools.Watchdog.Waiting.{last_of, Apart, Spaced}

abbrev pub check_of : Text → Text → ℕ → Check
check_of pool mining now = record { pool_address = pool; mining_address = mining; now = now }

module _ (nodes : List (ℕ × Option Text)) (pool mining : Text) (first second : ℕ)
    (s : Watching) where
  abbrev pub restart_at : ℕ → Restart
  restart_at now = record {
    pool = pool;
    time = now;
    block = s.memory.latest_known_block;
    node = only_one (managed_by mining nodes);
  }

  abbrev pub both_begun : Watching
  both_begun =
      begin_check true nodes (some pool) mining second
        (begin_check true nodes (some pool) mining first s)

  begun :
      s.waiting ≡ []
      → may_restart s.memory (check_of pool mining first) ≡ true
      → may_restart s.memory (check_of pool mining second) ≡ true
      → both_begun
        ≡ record s { waiting = check_of pool mining first ∷ check_of pool mining second ∷ [] }
  unfolding begin_check
  begun idle may_first may_second =
      let once : begin_check true nodes (some pool) mining first s
          ≡ record s { waiting = check_of pool mining first ∷ [] } =
        ap
          (λ b.
            if b then record s { waiting = s.waiting ++ check_of pool mining first ∷ [] } else s)
          may_first
        ∙ ap (λ w. record s { waiting = w ++ check_of pool mining first ∷ [] }) idle in
      ap (begin_check true nodes (some pool) mining second) once
      ∙ ap
          (λ b.
            if b
            then record s {
              waiting = check_of pool mining first ∷ check_of pool mining second ∷ [];
            }
            else record s { waiting = check_of pool mining first ∷ [] })
          may_second

  finish-needed :
      (a : ContractAnswers) (c : Check) (t : Watching)
      → needs_restart a ≡ true
      → finish_check true nodes (some a) c t ≡ async_restart nodes c t
  unfolding finish_check
  finish-needed a c t need = ap (λ b. if b && true then async_restart nodes c t else t) need

  -- Two checks of one validator begin before either has its answers, and each of them may restart
  -- the pool. If the answers call for a restart, the pool is restarted twice, for one block.
  pub overlap-restarts_twice :
      (a b : ContractAnswers)
      → s.waiting ≡ []
      → may_restart s.memory (check_of pool mining first) ≡ true
      → may_restart s.memory (check_of pool mining second) ≡ true
      → needs_restart a ≡ true
      → needs_restart b ≡ true
      → ((finish_next true nodes (some b) (finish_next true nodes (some a) both_begun)).restarts
          ≡ restart_at second ∷ restart_at first ∷ s.restarts)
        × ¬ Spaced
            (finish_next true nodes (some b) (finish_next true nodes (some a) both_begun)).restarts
  unfolding finish_next async_restart
  overlap-restarts_twice a b idle may_first may_second need_a need_b =
      let c1 = check_of pool mining first in
      let c2 = check_of pool mining second in
      let s1 : Watching = record s { waiting = c2 ∷ [] } in
      let s2 : Watching = record (async_restart nodes c1 s1) { waiting = [] } in
      let e : finish_next true nodes (some b) (finish_next true nodes (some a) both_begun)
          ≡ async_restart nodes c2 s2 =
        ap (λ t. finish_next true nodes (some b) (finish_next true nodes (some a) t))
          (begun idle may_first may_second)
        ∙ (ap (finish_next true nodes (some b)) (finish-needed a c1 s1 need_a)
            ∙ finish-needed b c2 s2 need_b) in
      (
        ap (λ t. t.restarts) e,
        λ spaced.
            let apart : Apart (restart_at second) (last_of pool (restart_at first ∷ s.restarts)) =
              (subst (λ t. Spaced t.restarts) e spaced).0 in
            (subst (λ o. Apart (restart_at second) o)
                (ap (λ t. if t then some (restart_at first) else last_of pool s.restarts)
                  (==-refl pool))
                apart).1
              refl,
      )
