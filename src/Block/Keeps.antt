-- ===== src/Block/Keeps.antt =====
-- Conditions on variables and tables that a program keeps.
use diamond_dev_tools.Prelude.{
  ◌≡◌, refl, Bool, true, false, Option, none, some, List, [], ◌∷◌, if◌then◌else◌, All,
}
use diamond_dev_tools.Block.{Memory}
use diamond_dev_tools.Block.Program.{
  Program, ◌>>=◌, then_run, done, call, with_tables, statement, stated, remember, recall, for_each,
  when,
}

-- `J` holds of the variables after an exception.
module _ {Tables : Type 0} (J : Memory → Type 0) where
  abbrev pub Kept :
      {A : Type 0} → (Memory → Tables → Type 0) → Memory × Option (A × Tables) → Type 0
  Kept I (m, none) = J m
  Kept I (m, some (a, t)) = I m t

  -- From a state with the first condition, a value comes in a state with the second.
  pub record Leads {A : Type 0} (I K : Memory → Tables → Type 0) (p : Program Tables A)
      : Type 0 where
    pub holds : (m : Memory) (t : Tables) → I m t → Kept K (p.run m t)

  then_run-Kept :
      {A B : Type 0} (I K : Memory → Tables → Type 0) (f : A → Program Tables B)
      (r : Memory × Option (A × Tables))
      → Kept I r
      → ((a : A) → Leads I K (f a))
      → Kept K (then_run f r)
  then_run-Kept I K f (m, none) h g = h
  then_run-Kept I K f (m, some (a, t)) h g = (g a).holds m t h

  pub bind-Leads :
      {A B : Type 0} (I K L : Memory → Tables → Type 0) (p : Program Tables A)
      (f : A → Program Tables B)
      → Leads I K p
      → ((a : A) → Leads K L (f a))
      → Leads I L (p >>= f)
  unfolding ◌>>=◌
  bind-Leads I K L p f h g = record {
    holds = λ m t i. then_run-Kept K L f (p.run m t) (h.holds m t i) g;
  }

  pub remember-Leads :
      (I K : Memory → Tables → Type 0) (f : Memory → Memory)
      → ((m : Memory) (t : Tables) → I m t → K (f m) t)
      → Leads I K (remember f)
  unfolding remember
  remember-Leads I K f h = record { holds = h }

  -- What follows may rely on the variables that it reads.
  pub recall-Leads :
      {A : Type 0} (I K : Memory → Tables → Type 0) (f : Memory → Program Tables A)
      → ((m : Memory) (t : Tables) → I m t → Kept K ((f m).run m t))
      → Leads I K (recall >>= f)
  unfolding recall ◌>>=◌
  recall-Leads I K f h = record { holds = h }

module _ {Tables : Type 0} (J : Memory → Type 0) (I : Memory → Tables → Type 0) where
  abbrev pub Keeps : {A : Type 0} → Program Tables A → Type 0
  Keeps p = Leads J I I p

  pub bind-Keeps :
      {A B : Type 0} (p : Program Tables A) (f : A → Program Tables B)
      → Keeps p
      → ((a : A) → Keeps (f a))
      → Keeps (p >>= f)
  bind-Keeps p f = bind-Leads J I I I p f

  pub when-Keeps : (b : Bool) (p : Program Tables Unit) → Keeps p → Keeps (when b p)
  unfolding when done
  when-Keeps true p h = h
  when-Keeps false p h = record { holds = λ m t i. i }

  pub if-Keeps :
      {A : Type 0} (b : Bool) (p q : Program Tables A)
      → Keeps p
      → Keeps q
      → Keeps (if b then p else q)
  if-Keeps true p q h g = h
  if-Keeps false p q h g = g

  pub done-Keeps : {A : Type 0} (a : A) → Keeps (done a)
  unfolding done
  done-Keeps a = record { holds = λ m t i. i }

  pub recall-Keeps : Keeps recall
  unfolding recall
  recall-Keeps = record { holds = λ m t i. i }

  pub for_each-Keeps :
      {A : Type 0} (P : A → Type 0) (xs : List A) (f : A → Program Tables Unit)
      → All P xs
      → ((x : A) → P x → Keeps (f x))
      → Keeps (for_each xs f)
  unfolding for_each
  for_each-Keeps P [] f h g = done-Keeps tt
  for_each-Keeps P (x ∷ xs) f (h, hs) g =
      bind-Keeps (f x) (λ a. for_each xs f) (g x h) (λ a. for_each-Keeps P xs f hs g)

  module _ (weaken : (m : Memory) (t : Tables) → I m t → J m) where
    with_tables-Kept :
        {A : Type 0} (m : Memory) (t : Tables) (answer : Option A)
        → I m t
        → Kept J I (m, with_tables t answer)
    with_tables-Kept m t none i = weaken m t i
    with_tables-Kept m t (some a) i = i

    pub call-Keeps : {A : Type 0} (answer : Option A) → Keeps (call answer)
    unfolding call
    call-Keeps answer = record { holds = λ m t i. with_tables-Kept m t answer i }

    -- What follows a call may rely on its answer.
    pub answer-Leads :
        {A B : Type 0} (K : Memory → Tables → Type 0) (answer : Option A) (f : A → Program Tables B)
        → ((a : A) → answer ≡ some a → Leads J I K (f a))
        → Leads J I K (call answer >>= f)
    unfolding call ◌>>=◌
    answer-Leads K none f g = record { holds = weaken }
    answer-Leads K (some a) f g = record { holds = λ m t i. (g a refl).holds m t i }

    pub answer-Keeps :
        {A B : Type 0} (answer : Option A) (f : A → Program Tables B)
        → ((a : A) → answer ≡ some a → Keeps (f a))
        → Keeps (call answer >>= f)
    answer-Keeps answer f = answer-Leads I answer f

    stated-Kept :
        (K : Memory → Tables → Type 0) (m : Memory) (t : Tables) (result : Option Tables)
        → I m t
        → ((u : Tables) → result ≡ some u → K m u)
        → Kept J K (m, stated result)
    stated-Kept K m t none i h = weaken m t i
    stated-Kept K m t (some u) i h = h u refl

    pub statement-Leads :
        (K : Memory → Tables → Type 0) (f : Tables → Option Tables)
        → ((m : Memory) (t u : Tables) → I m t → f t ≡ some u → K m u)
        → Leads J I K (statement f)
    unfolding statement
    statement-Leads K f h = record {
      holds = λ m t i. stated-Kept K m t (f t) i (λ u e. h m t u i e);
    }

    pub statement-Keeps :
        (f : Tables → Option Tables)
        → ((m : Memory) (t u : Tables) → I m t → f t ≡ some u → I m u)
        → Keeps (statement f)
    statement-Keeps f h = statement-Leads I f h
