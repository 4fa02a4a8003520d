-- ===== src/Block/Program.antt =====
-- Programs that read and write variables and tables and may throw: what they did to the variables
-- stays, and the transaction's tables are lost.
use diamond_dev_tools.Prelude.{ℕ, zero, suc, Bool, Option, none, some, List, [], ◌∷◌, if◌then◌else◌}
use diamond_dev_tools.Block.{Memory}

-- A program: what it leaves in memory, and its value and the tables, none for an exception.
pub record Program (Tables A : Type 0) : Type 0 where
  pub run : Memory → Tables → Memory × Option (A × Tables)

module _ {Tables : Type 0} where
  abbrev pub then_run :
      {A B : Type 0}
      → (A → Program Tables B)
      → Memory × Option (A × Tables)
      → Memory × Option (B × Tables)
  then_run f (m, none) = (m, none)
  then_run f (m, some (a, t)) = (f a).run m t

  infixl 5 ◌>>=◌ ◌>>◌
  unfoldable pub ◌>>=◌ :
      {A B : Type 0} → Program Tables A → (A → Program Tables B) → Program Tables B
  p >>= f = record { run = λ m t. then_run f (p.run m t) }

  abbrev pub ◌>>◌ : {A B : Type 0} → Program Tables A → Program Tables B → Program Tables B
  p >> q = p >>= λ a. q

  unfoldable pub done : {A : Type 0} → A → Program Tables A
  done a = record { run = λ m t. (m, some (a, t)) }

  abbrev pub with_tables : {A : Type 0} → Tables → Option A → Option (A × Tables)
  with_tables t none = none
  with_tables t (some a) = some (a, t)

  -- A call, which may throw.
  unfoldable pub call : {A : Type 0} → Option A → Program Tables A
  call answer = record { run = λ m t. (m, with_tables t answer) }

  abbrev pub stated : Option Tables → Option {0} (Unit × Tables)
  stated none = none
  stated (some t) = some (tt, t)

  unfoldable pub statement : (Tables → Option Tables) → Program Tables Unit
  statement f = record { run = λ m t. (m, stated (f t)) }

  unfoldable pub remember : (Memory → Memory) → Program Tables Unit
  remember f = record { run = λ m t. (f m, some (tt, t)) }

  unfoldable pub recall : Program Tables Memory
  recall = record { run = λ m t. (m, some (m, t)) }

  unfoldable pub for_each : {A : Type 0} → List A → (A → Program Tables Unit) → Program Tables Unit
  for_each [] f = done tt
  for_each (x ∷ xs) f = do f x; for_each xs f

  unfoldable pub when : Bool → Program Tables Unit → Program Tables Unit
  when b p = if b then p else done tt

  -- An attempt that throws is rolled back, and the next starts with the variables that it left.
  abbrev pub retry_from :
      {A : Type 0}
      → Memory × Option (A × Tables)
      → (Memory → Memory × Option (A × Tables))
      → Memory × Option (A × Tables)
  retry_from (m, none) next = next m
  retry_from (m, some r) next = (m, some r)

  unfoldable pub attempts :
      {A : Type 0} → ℕ → Program Tables A → Memory → Tables → Memory × Option (A × Tables)
  attempts zero p m t = (m, none)
  attempts (suc n) p m t = retry_from (p.run m t) (λ m2. attempts n p m2 t)
