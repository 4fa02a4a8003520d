-- ===== src/FastTxSender/Nonces.antt =====
-- The nonces that transactions are signed with.
use diamond_dev_tools.Prelude.{
  ℕ, zero, suc, ◌+◌, arith, ◌≡◌, refl, sym, ap, ◌∙◌, Bool, true, Option, none, some, List, [], ◌∷◌,
  ◌++◌, map, Text, ◌==◌, ==_iff, ==-refl, list_eq, if◌then◌else◌, Bool-cases, inl, inr, All,
}
use diamond_dev_tools.FastTxSender.{
  Transaction, Sender, member, ensure_accounts_is_initialized, look_up_account, set_nonce,
  next_nonce, signed, sign_transaction, push, add_transaction, add_transactions, reset,
}

-- How many of the senders are `a`.
abbrev pub occurrences : Text → List Text → ℕ
occurrences a [] = 0
occurrences a (b ∷ bs) = if a == b then suc (occurrences a bs) else occurrences a bs

abbrev pub stored : (count used : ℕ) → Option ℕ
stored count zero = none
stored count (suc used) = some (count + used)

next_nonce-stored :
    (count used : ℕ) → next_nonce (stored count used) (some count) ≡ some (count + used)
next_nonce-stored count zero = ap some (omega arith)
next_nonce-stored count (suc used) = ap some (omega arith)

append_nil : {A : Type 0} (xs : List A) → xs ++ [] ≡ xs
append_nil [] = refl
append_nil (x ∷ xs) = ap (λ l. x ∷ l) (append_nil xs)

snoc-append : {A : Type 0} (xs : List A) (y : A) (ys : List A) → (xs ++ y ∷ []) ++ ys ≡ xs ++ y ∷ ys
snoc-append [] y ys = refl
snoc-append (x ∷ xs) y ys = ap (λ l. x ∷ l) (snoc-append xs y ys)

module _ {Raw : Type 0} where
  look_up_account-ready :
      (wallet : List Text) (from : Text) (s : Sender Raw)
      → s.accounts_is_initialized ≡ true
      → member from s.accounts ≡ true
      → look_up_account wallet from s ≡ s
  unfolding look_up_account ensure_accounts_is_initialized
  look_up_account-ready wallet from s ready there =
      simp (ready, there, look_up_account, ensure_accounts_is_initialized) refl

  -- The account of a sender in the wallet is found, and nothing else of the fields changes.
  look_up_account-found :
      (wallet : List Text) (from : Text) (s : Sender Raw)
      → member from wallet ≡ true
      → (accounts : List Text) × (ready : Bool) × (look_up_account wallet from s
          ≡ record s { accounts = accounts; accounts_is_initialized = ready })
        × (member from accounts ≡ true)
  unfolding look_up_account ensure_accounts_is_initialized
  look_up_account-found wallet from s h = elim (Bool-cases s.accounts_is_initialized) [
    | inr fresh ↦
        (wallet, true, simp (fresh, h, look_up_account, ensure_accounts_is_initialized) refl, h)
    | inl ready ↦ elim (Bool-cases (member from s.accounts)) [
      | inl there ↦ (
        s.accounts,
        s.accounts_is_initialized,
        look_up_account-ready wallet from s ready there,
        there,
      )
      | inr gone ↦ (
        wallet,
        true,
        simp (ready, gone, look_up_account, ensure_accounts_is_initialized) refl,
        h,
      )
    ]
  ]

module _ {Payload Raw : Type 0} (wallet : List Text) (get_transaction_count : Text → Option ℕ)
    (sign : Text → ℕ → Payload → Option (Option Raw × Option Text)) (count : Text → ℕ)
    (raw : Text → ℕ → Payload → Raw) (hash : Text → ℕ → Payload → Text) where
  -- The raw transactions of senders with payloads, after those of `earlier` senders: each is signed
  -- with the count of its sender and one more for each of its earlier transactions.
  abbrev pub numbered : List Text → List (Text × Payload) → List Raw
  numbered earlier [] = []
  numbered earlier ((from, payload) ∷ ts) =
      raw from (count from + occurrences from earlier) payload ∷ numbered (from ∷ earlier) ts

  abbrev pub from_pair : Text × Payload → Transaction Payload
  from_pair (from, payload) = record { from = some from; payload = payload }

  module _ (counted : (a : Text) → get_transaction_count a ≡ some (count a))
      (signs : (a : Text) (n : ℕ) (p : Payload)
        → sign a n p ≡ some (some (raw a n p), some (hash a n p))) where
    add_transaction-signs :
        (from : Text) (payload : Payload) (used : ℕ) (s : Sender Raw)
        → member from wallet ≡ true
        → s.nonces from ≡ stored (count from) used
        → (accounts : List Text) × (ready : Bool) × (add_transaction wallet get_transaction_count
              sign
              (from_pair (from, payload))
              s
            ≡ push wallet get_transaction_count sign (
              some (raw from (count from + used) payload, hash from (count from + used) payload),
              set_nonce from
                  (count from + used)
                  (record s { accounts = accounts; accounts_is_initialized = ready }),
            ))
    unfolding add_transaction sign_transaction
    add_transaction-signs from payload used s h n =
        let (accounts, ready, found, there) = look_up_account-found wallet from s h in
        (
          accounts,
          ready,
          simp
              (
                found,
                there,
                n,
                counted from,
                next_nonce-stored (count from) used,
                signs from (count from + used) payload,
                sign_transaction,
              )
              refl,
        )

    nonces_kept :
        (from a : Text) (earlier : List Text) (s : Sender Raw)
        → ((b : Text) → s.nonces b ≡ stored (count b) (occurrences b earlier))
        → (if a == from then some (count from + occurrences from earlier) else s.nonces a)
          ≡ stored (count a) (occurrences a (from ∷ earlier))
    nonces_kept from a earlier s h = elim (Bool-cases (a == from)) [
      | inr other ↦ rw other (h a)
      | inl same ↦
          let here = (==_iff a from).0 same in
          rw same (ap (λ b. some (count b + occurrences b earlier)) (sym here))
    ]

    add_transactions-numbered_from :
        (earlier : List Text) (ts : List (Text × Payload)) (s : Sender Raw)
        → All (λ t. member t.0 wallet ≡ true) ts
        → ((a : Text) → s.nonces a ≡ stored (count a) (occurrences a earlier))
        → (add_transactions wallet get_transaction_count sign (map from_pair ts) s).raw_transactions
          ≡ s.raw_transactions ++ numbered earlier ts
    unfolding add_transactions
    add_transactions-numbered_from earlier [] s h n = sym (append_nil s.raw_transactions)
    add_transactions-numbered_from earlier ((from, payload) ∷ ts) s (h, hs) n =
        let used = occurrences from earlier in
        let (accounts, ready, e) = add_transaction-signs from payload used s h (n from) in
        let next : Sender Raw =
          (push wallet get_transaction_count sign (
            some (raw from (count from + used) payload, hash from (count from + used) payload),
            set_nonce from (count from + used)
                (record s { accounts = accounts; accounts_is_initialized = ready }),
          )).1 in
        ap
          (λ r.
            (add_transactions wallet get_transaction_count sign (map from_pair ts)
              r.1).raw_transactions)
          e
        ∙ (add_transactions-numbered_from (from ∷ earlier) ts next hs
              (λ a. nonces_kept from a earlier s n)
            ∙ snoc-append s.raw_transactions _ _)

    -- With senders of the wallet, a network that answers and an account that signs, transactions
    -- that are added one after the other to a sender that was reset are signed in that order, and
    -- the transactions of each account have consecutive nonces from its count in the network on.
    pub add_transactions-numbered :
        (ts : List (Text × Payload)) (reset_accounts : Bool) (s : Sender Raw)
        → All (λ t. member t.0 wallet ≡ true) ts
        → (add_transactions wallet get_transaction_count sign
            (map from_pair ts)
            (reset reset_accounts s)).raw_transactions
          ≡ numbered [] ts
    unfolding reset
    add_transactions-numbered ts reset_accounts s h =
        add_transactions-numbered_from [] ts (reset reset_accounts s) h (λ a. refl)

  stored_now :
      (from : Text) (nonce : ℕ) (s : Sender Raw) → (set_nonce from nonce s).nonces from ≡ some nonce
  stored_now from nonce s = rw (==-refl from) refl

  -- An account with a stored nonce signs with the next one, whether it succeeds or not.
  add_transaction-next :
      (from : Text) (payload : Payload) (nonce : ℕ) (s : Sender Raw)
      → s.accounts_is_initialized ≡ true
      → member from s.accounts ≡ true
      → s.nonces from ≡ some nonce
      → add_transaction wallet get_transaction_count sign (from_pair (from, payload)) s
        ≡ push wallet get_transaction_count sign (
          signed wallet get_transaction_count sign (sign from (suc nonce) payload),
          set_nonce from (suc nonce) s,
        )
  unfolding add_transaction sign_transaction
  add_transaction-next from payload nonce s ready there n =
      simp (look_up_account-ready wallet from s ready there, there, n, sign_transaction) refl

  -- If an account fails to sign, the nonce is used up: the next transaction of the account that is
  -- signed has a nonce two above the last one.
  pub add_transaction-gap :
      (from : Text) (failing payload : Payload) (nonce : ℕ) (s : Sender Raw)
      → s.accounts_is_initialized ≡ true
      → member from s.accounts ≡ true
      → s.nonces from ≡ some nonce
      → sign from (suc nonce) failing ≡ none
      → sign from (suc (suc nonce)) payload
        ≡ some
            (some (raw from (suc (suc nonce)) payload), some (hash from (suc (suc nonce)) payload))
      → (add_transactions wallet get_transaction_count sign
          (from_pair (from, failing) ∷ from_pair (from, payload) ∷ [])
          s).raw_transactions
        ≡ s.raw_transactions ++ raw from (suc (suc nonce)) payload ∷ []
  unfolding add_transactions
  add_transaction-gap from failing payload nonce s ready there n fails signs =
      let first = add_transaction-next from failing nonce s ready there n in
      let again =
        add_transaction-next from payload (suc nonce) (set_nonce from (suc nonce) s) ready there
          (stored_now from (suc nonce) s) in
      ap
        (λ r.
          (add_transaction wallet get_transaction_count sign (from_pair (from, payload))
            r.1).1.raw_transactions)
        (first
          ∙ ap
              (λ o.
                push wallet get_transaction_count sign
                  (signed wallet get_transaction_count sign o, set_nonce from (suc nonce) s))
              fails)
      ∙ (ap (λ r. r.1.raw_transactions) again
          ∙ ap
              (λ o.
                (push wallet get_transaction_count sign (
                  signed wallet get_transaction_count sign o,
                  set_nonce from (suc (suc nonce)) (set_nonce from (suc nonce) s),
                )).1.raw_transactions)
              signs)
