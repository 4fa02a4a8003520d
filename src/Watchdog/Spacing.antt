-- ===== src/Watchdog/Spacing.antt =====
-- What keeps the restarts of a pool apart, if checks of different pools overlap.
use diamond_dev_tools.Prelude.{
  ℕ, All-map_imp, ◌≤◌, ◌<◌, ◌≡◌, ◌≢◌, refl, sym, ap, ◌∙◌, arith, Bool, true, false, ◌&&◌, Option,
  none, some, List, [], ◌∷◌, ◌++◌, Text, All, ◌==◌, nat_eq, list_eq, if◌then◌else◌,
}
use diamond_dev_tools.Watchdog.{
  Check, Restart, ContractAnswers, Watching, managed_by, only_one, goes_on, may_restart,
  needs_restart, async_restart, finish_check, begin_check, take_at, finish_taken, Event, sees,
  begins, answered, step, watch, watch_from,
}
use diamond_dev_tools.Watchdog.Waiting.{
  last_of, Spaced, time_of, block_of, Waits, IsPaced, Ready-Apart, Ready-later, goes_on-Ready,
  last_of-known, take_at-Waits, All-snoc, Distinct-snoc, All-Waits-other,
}

module _ (order : Bool) (nodes : List (ℕ × Option Text)) where
  async_restart-IsPaced :
      (c : Check) (s : Watching)
      → Waits s.restarts s.memory.latest_known_block c
      → All (λ d. d.pool_address ≢ c.pool_address) s.waiting
      → IsPaced s
      → IsPaced (async_restart nodes c s)
  unfolding async_restart
  async_restart-IsPaced c s (positive, ready) others (d, ws, spaced, times, (restarts, blocks)) =
      let r : Restart = record {
        pool = c.pool_address;
        time = c.now;
        block = s.memory.latest_known_block;
        node = only_one (managed_by c.mining_address nodes);
      } in
      (
        d,
        All-Waits-other r s.restarts s.memory.latest_known_block s.waiting others ws,
        (Ready-Apart (last_of c.pool_address s.restarts) r ready, spaced),
        ((positive, omega arith), times),
        (
          λ p. same_time (c.pool_address == p) r (last_of p s.restarts) _ (restarts p),
          λ p. same_block_of (c.pool_address == p) r (last_of p s.restarts) _ (blocks p),
        ),
      )
    where
      same_time :
          (b : Bool) (r : Restart) (q : Option Restart) (t : Option ℕ)
          → t ≡ time_of q
          → (if b then some r.time else t) ≡ time_of (if b then some r else q)
      same_time true r q t e = refl
      same_time false r q t e = e

      same_block_of :
          (b : Bool) (r : Restart) (q : Option Restart) (t : Option ℕ)
          → t ≡ block_of q
          → (if b then some r.block else t) ≡ block_of (if b then some r else q)
      same_block_of true r q t e = refl
      same_block_of false r q t e = e

  finish_check-IsPaced :
      (a : Option ContractAnswers) (c : Check) (s : Watching)
      → Waits s.restarts s.memory.latest_known_block c
      → All (λ d. d.pool_address ≢ c.pool_address) s.waiting
      → IsPaced s
      → IsPaced (finish_check order nodes a c s)
  unfolding finish_check
  finish_check-IsPaced none c s w others h = h
  finish_check-IsPaced (some a) c s w others h = split (needs_restart a && order)
    where
      split : (b : Bool) → IsPaced (if b then async_restart nodes c s else s)
      split true = async_restart-IsPaced c s w others h
      split false = h

  finish_taken-IsPaced :
      (a : Option ContractAnswers) (i : ℕ) (s : Watching)
      → IsPaced s
      → (o : Option (Check × List Check)) → take_at i s.waiting ≡ o
      → IsPaced (finish_taken order nodes a o s)
  finish_taken-IsPaced a i s h none e = h
  finish_taken-IsPaced a i s (d, ws, spaced, times, memory) (some (c, rest)) e =
      let (w, left, others, d') =
        take_at-Waits (Waits s.restarts s.memory.latest_known_block) i s.waiting c rest e d ws in
      finish_check-IsPaced a c (record s { waiting = rest }) w others
        (d', left, spaced, times, memory)

  -- What the theorem asks of an event: the latest block does not fall, and no check of a pool
  -- begins, the clock showing 0, or while another check of that pool waits.
  abbrev pub Allowed : Event → Watching → Type 0
  Allowed (sees block) s = s.memory.latest_known_block ≤ block
  Allowed (begins none mining now) s = Unit
  Allowed (begins (some pool) mining now) s = (0 < now) × All (λ c. c.pool_address ≢ pool) s.waiting
  Allowed (answered i a) s = Unit

  abbrev pub AllAllowed : List Event → Watching → Type 0
  AllAllowed [] s = Unit
  AllAllowed (e ∷ es) s = Allowed e s × AllAllowed es (step order nodes e s)

  step-IsPaced :
      (e : Event) (s : Watching) → Allowed e s → IsPaced s → IsPaced (step order nodes e s)
  unfolding step begin_check may_restart
  step-IsPaced (sees block) s le (d, ws, spaced, times, memory) = (
    d,
    All-map_imp (λ c w. (w.0, Ready-later (last_of c.pool_address s.restarts) c.now _ block le w.1))
        s.waiting ws,
    spaced,
    All-map_imp (λ r t. (t.0, omega (arith, t.1, le))) s.restarts times,
    memory,
  )
  step-IsPaced (begins none mining now) s u h = h
  step-IsPaced (begins (some pool) mining now) s (positive, free) (d, ws, spaced, times, memory) =
      split (may_restart s.memory c) refl
    where
      c : Check
      c = record { pool_address = pool; mining_address = mining; now = now }

      split :
          (b : Bool)
          → may_restart s.memory c ≡ b
          → IsPaced (if b then record s { waiting = s.waiting ++ c ∷ [] } else s)
      split false e = (d, ws, spaced, times, memory)
      split true e =
          let asked : goes_on (time_of (last_of pool s.restarts))
                (block_of (last_of pool s.restarts)) s.memory.latest_known_block now
              ≡ true =
            ap (λ t. goes_on t (block_of (last_of pool s.restarts)) s.memory.latest_known_block now)
              (sym (memory.0 pool))
            ∙ (ap
                  (λ b.
                    goes_on (s.memory.latest_pool_restarts pool) b s.memory.latest_known_block now)
                  (sym (memory.1 pool))
                ∙ e) in
          (
            Distinct-snoc s.waiting c free d,
            All-snoc (Waits s.restarts s.memory.latest_known_block) s.waiting c ws (
              positive,
              goes_on-Ready (last_of pool s.restarts) s.memory.latest_known_block now
                  (last_of-known pool s.restarts s.memory.latest_known_block times) asked,
            ),
            spaced,
            times,
            memory,
          )
  step-IsPaced (answered i a) s u h = finish_taken-IsPaced a i s h (take_at i s.waiting) refl

  watch-IsPaced :
      (events : List Event) (s : Watching)
      → AllAllowed events s
      → IsPaced s
      → IsPaced (watch order nodes events s)
  unfolding watch
  watch-IsPaced [] s ts h = h
  watch-IsPaced (e ∷ es) s (t, ts) h =
      watch-IsPaced es (step order nodes e s) ts (step-IsPaced e s t h)

  -- Checks of different pools overlap in any way. If no check of a pool begins while another check
  -- of that pool waits, the clock shows no 0, and the latest known block does not fall: each check
  -- that restarts a pool began at least a minute after the beginning of the check that restarted
  -- that pool before it, and the latest known block has changed from one restart to the other.
  pub watch-Spaced :
      (events : List Event) (block : ℕ)
      → AllAllowed events (watch_from block)
      → Spaced (watch order nodes events (watch_from block)).restarts
  unfolding watch_from
  watch-Spaced events block ts =
      (watch-IsPaced events (watch_from block) ts (tt, tt, tt, tt, (λ p. refl, λ p. refl))).2
