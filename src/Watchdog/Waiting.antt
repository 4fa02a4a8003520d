-- ===== src/Watchdog/Waiting.antt =====
-- The restarts of a pool, and the checks that wait while its memory changes.
use diamond_dev_tools.Prelude.{
  ℕ, zero, suc, ==_iff, Option-cases, ◌+◌, ◌≤◌, ◌<◌, ◌≡◌, ◌≢◌, refl, sym, ap, subst, arith, true,
  Option, none, some, List, [], ◌∷◌, ◌++◌, Text, All, ◌==◌, nat_eq, list_eq, if◌then◌else◌,
  Bool-cases, inl, inr,
}
use diamond_dev_tools.Watchdog.{RestartMemory, Check, Restart, Watching, goes_on, take_at}

-- The last restart of a pool, in a list with the newest first.
abbrev pub last_of : Text → List Restart → Option Restart
last_of pool [] = none
last_of pool (r ∷ rs) = if r.pool == pool then some r else last_of pool rs

abbrev pub Apart : Restart → Option Restart → Type 0
Apart r none = Unit
Apart r (some q) = (q.time + 60000 ≤ r.time) × (q.block ≢ r.block)

-- Each restart is a minute after the one of its pool before, and in another block.
abbrev pub Spaced : List Restart → Type 0
Spaced [] = Unit
Spaced (r ∷ rs) = Apart r (last_of r.pool rs) × Spaced rs

abbrev pub time_of : Option Restart → Option ℕ
time_of none = none
time_of (some r) = some r.time

abbrev pub block_of : Option Restart → Option ℕ
block_of none = none
block_of (some r) = some r.block

-- The memory holds the last restart of each pool.
abbrev pub Remembers : RestartMemory → List Restart → Type 0
Remembers m rs =
    ((p : Text) → m.latest_pool_restarts p ≡ time_of (last_of p rs))
    × ((p : Text) → m.latest_pool_restart_block_number p ≡ block_of (last_of p rs))

abbrev pub from_some : {A : Type 0} → A → Option A → A
from_some a none = a
from_some a (some b) = b

-- A restart may follow that of `q`, by a check of that time.
abbrev pub Ready : Option Restart → (now latest : ℕ) → Type 0
Ready none now latest = Unit
Ready (some q) now latest = (q.time + 60000 ≤ now) × (q.block < latest)

abbrev pub HasTimes : List Restart → ℕ → Type 0
HasTimes rs latest = All (λ r. (0 < r.time) × (r.block ≤ latest)) rs

abbrev pub Waits : List Restart → ℕ → Check → Type 0
Waits rs latest c = (0 < c.now) × Ready (last_of c.pool_address rs) c.now latest

-- Of each pool one check waits at most.
abbrev pub Distinct : List Check → Type 0
Distinct [] = Unit
Distinct (c ∷ cs) = All (λ d. d.pool_address ≢ c.pool_address) cs × Distinct cs

abbrev pub IsPaced : Watching → Type 0
IsPaced s =
    Distinct s.waiting
    × All (Waits s.restarts s.memory.latest_known_block) s.waiting
    × Spaced s.restarts
    × HasTimes s.restarts s.memory.latest_known_block
    × Remembers s.memory s.restarts

pub Ready-Apart : (q : Option Restart) (r : Restart) → Ready q r.time r.block → Apart r q
Ready-Apart none r h = tt
Ready-Apart (some q) r (h, g) = (h, λ e. absurd (omega (arith, e)))

pub Ready-later :
    (q : Option Restart) (now old new : ℕ) → old ≤ new → Ready q now old → Ready q now new
Ready-later none now old new le h = tt
Ready-later (some q) now old new le (h, g) = (h, omega arith)

pub goes_on-Ready :
    (q : Option Restart) (latest now : ℕ)
    → ((s : Restart) → q ≡ some s → (0 < s.time) × (s.block ≤ latest))
    → goes_on (time_of q) (block_of q) latest now ≡ true
    → Ready q now latest
goes_on-Ready none latest now known h = tt
goes_on-Ready (some q) latest now known h =
    elapsed q.time q.block (known q refl).0 (known q refl).1 h
  where
    elapsed :
        (time block : ℕ)
        → 0 < time
        → block ≤ latest
        → goes_on (some time) (some block) latest now ≡ true
        → (time + 60000 ≤ now) × (block < latest)
    elapsed zero block p le h = absurd (omega arith)
    elapsed (suc t) block p le h = ground arith

pub last_of-known :
    (p : Text) (rs : List Restart) (latest : ℕ)
    → HasTimes rs latest
    → (s : Restart) → last_of p rs ≡ some s
    → (0 < s.time) × (s.block ≤ latest)
last_of-known p [] latest h s e = cc
last_of-known p (r ∷ rs) latest (h, hs) s e = elim (Bool-cases (r.pool == p)) [
  | inl same ↦ ground (arith, same)
  | inr other ↦ last_of-known p rs latest hs s (rw other at e)
]

-- A waiting check that has its answers, and the others.
pub take_at-Waits :
    (P : Check → Type 0) (i : ℕ) (cs : List Check) (c : Check) (rest : List Check)
    → take_at i cs ≡ some (c, rest)
    → Distinct cs
    → All P cs
    → P c × All P rest × All (λ d. d.pool_address ≢ c.pool_address) rest × Distinct rest
take_at-Waits P i [] c rest e d h = cc
take_at-Waits P zero (x ∷ xs) c rest e (apart, d) (h, hs) =
    let same : x ≡ c = ap (λ o. (from_some {A = Check × List Check} (x, xs) o).0) e in
    let others : xs ≡ rest = ap (λ o. (from_some {A = Check × List Check} (x, xs) o).1) e in
    subst (λ r. P c × All P r × All (λ d. d.pool_address ≢ c.pool_address) r × Distinct r) others
      (subst (λ y. P y × All P xs × All (λ d. d.pool_address ≢ y.pool_address) xs × Distinct xs)
        same (h, hs, apart, d))
take_at-Waits P (suc i) (x ∷ xs) c rest e (apart, d) (h, hs) = elim (Option-cases (take_at i xs)) [
  | inl gone ↦ let e' = rw gone at e in cc
  | inr ((y, ys), there) ↦
      let e' : some (y, x ∷ ys) ≡ some (c, rest) = rw there at e in
      let same : y ≡ c = ap (λ o. (from_some {A = Check × List Check} (y, x ∷ ys) o).0) e' in
      let others : x ∷ ys ≡ rest =
        ap (λ o. (from_some {A = Check × List Check} (y, x ∷ ys) o).1) e' in
      let (p, ps, unlike, d') = take_at-Waits P i xs y ys there d hs in
      let (x_apart, xs_apart, _, _) =
        take_at-Waits (λ d. d.pool_address ≢ x.pool_address) i xs y ys there d apart in
      subst (λ r. P c × All P r × All (λ d. d.pool_address ≢ c.pool_address) r × Distinct r) others
        (subst
          (λ z.
            P z
            × All P (x ∷ ys)
            × All (λ d. d.pool_address ≢ z.pool_address) (x ∷ ys)
            × Distinct (x ∷ ys))
          same (p, (h, ps), ((λ same_pool. x_apart (sym same_pool)), unlike), (xs_apart, d')))
]

pub All-snoc :
    (P : Check → Type 0) (cs : List Check) (c : Check) → All P cs → P c → All P (cs ++ c ∷ [])
All-snoc P [] c h p = (p, tt)
All-snoc P (x ∷ xs) c (h, hs) p = (h, All-snoc P xs c hs p)

pub Distinct-snoc :
    (cs : List Check) (c : Check)
    → All (λ d. d.pool_address ≢ c.pool_address) cs
    → Distinct cs
    → Distinct (cs ++ c ∷ [])
Distinct-snoc [] c h d = (tt, tt)
Distinct-snoc (x ∷ xs) c (h, hs) (apart, d) = (
  All-snoc (λ d. d.pool_address ≢ x.pool_address) xs c apart (λ e. h (sym e)),
  Distinct-snoc xs c hs d,
)

-- A restart of another pool does not concern a waiting check.
Waits-other :
    (r : Restart) (rs : List Restart) (latest : ℕ) (d : Check)
    → d.pool_address ≢ r.pool
    → Waits rs latest d
    → Waits (r ∷ rs) latest d
Waits-other r rs latest d other (h, ready) = elim (Bool-cases (r.pool == d.pool_address)) [
  | inl same ↦ absurd (other (sym ((==_iff r.pool d.pool_address).0 same)))
  | inr apart ↦ (h, rw apart ready)
]

pub All-Waits-other :
    (r : Restart) (rs : List Restart) (latest : ℕ) (cs : List Check)
    → All (λ d. d.pool_address ≢ r.pool) cs
    → All (Waits rs latest) cs
    → All (Waits (r ∷ rs) latest) cs
All-Waits-other r rs latest [] other h = tt
All-Waits-other r rs latest (c ∷ cs) (o, os) (h, hs) =
    (Waits-other r rs latest c o h, All-Waits-other r rs latest cs os hs)
