-- ===== src/Visitor/Replay.antt =====
-- What a block that fails and is tried again leaves behind.
use diamond_dev_tools.Prelude.{
  ◌≡◌, refl, ap, ◌∙◌, Option, none, some, List, [], ◌∷◌, ◌++◌, Option-cases, inl, inr,
}
use diamond_dev_tools.Database.{Database}
use diamond_dev_tools.Events.{ContractEvent}
use diamond_dev_tools.Visitor.{StakeTransaction, World}
use diamond_dev_tools.Visitor.Handlers.{transaction_of}
use diamond_dev_tools.Visitor.Dispatch.{visit, logged, process_events, execute_in_transaction}

module _ (db : Database) where
  logged-append :
      (t : Option StakeTransaction) (new log : List StakeTransaction)
      → logged db t (new ++ log) ≡ logged db t new ++ log
  logged-append none new log = refl
  logged-append (some t) new log = refl

  -- The result does not depend on the log, and the log only grows.
  process_events-log :
      (es : List ContractEvent) (w : World db) (new log : List StakeTransaction)
      → process_events db es w (new ++ log)
        ≡ ((process_events db es w new).0, (process_events db es w new).1 ++ log)
  unfolding process_events
  process_events-log [] w new log = refl
  process_events-log (e ∷ es) w new log = elim (Option-cases (visit db e w)) [
    | inl h ↦ rw (h, process_events) (λ i. (none, logged-append (transaction_of e) new log i))
    | inr (w', h) ↦
        rw (h, process_events)
          (ap (process_events db es w') (logged-append (transaction_of e) new log)
            ∙ process_events-log es w' (logged db (transaction_of e) new) log)
  ]

  -- The rows of `stake_transactions` that one attempt at the events writes.
  abbrev pub written : List ContractEvent → World db → List StakeTransaction
  written es w = (process_events db es w []).1

  pub attempt-failed :
      (es : List ContractEvent) (w : World db) (log : List StakeTransaction)
      → (process_events db es w []).0 ≡ none
      → execute_in_transaction db es w log ≡ (w, written es w ++ log)
  unfolding execute_in_transaction
  attempt-failed es w log h = rw (process_events-log es w [] log, h)

  -- If an attempt at a block's events fails, its transactional tables are as they were, but the rows
  -- that it wrote into `stake_transactions` stay: a second attempt writes the same rows once more.
  pub retry-duplicates :
      (es : List ContractEvent) (w : World db) (log : List StakeTransaction)
      → (process_events db es w []).0 ≡ none
      → execute_in_transaction db es
          (execute_in_transaction db es w log).0
          (execute_in_transaction db es w log).1
        ≡ (w, written es w ++ (written es w ++ log))
  retry-duplicates es w log h =
      rw (attempt-failed es w log h) (attempt-failed es w (written es w ++ log) h)
