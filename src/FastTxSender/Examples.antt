-- ===== src/FastTxSender/Examples.antt =====
-- Three transactions of two accounts.
use diamond_dev_tools.Prelude.{
  ℕ, ◌≡◌, refl, true, false, Option, none, some, [], ◌∷◌, map, Text, nat_beq, if◌then◌else◌,
  list_eq, list_beq, ◌==◌,
}
use diamond_dev_tools.FastTxSender.{Sender, accepted, queue_full, RpcReply, add_transactions, reset}
use diamond_dev_tools.FastTxSender.Nonces.{
  numbered, from_pair, add_transactions-numbered, add_transaction-gap,
}

abbrev alice : Text
alice = 97 ∷ []

abbrev bob : Text
bob = 98 ∷ []

abbrev counts : Text → ℕ
counts a = if a == alice then 7 else 0

abbrev network : Text → Option ℕ
network a = some (counts a)

abbrev raw_of : Text → ℕ → ℕ → Text × (ℕ × ℕ)
raw_of a n p = (a, (n, p))

abbrev hash_of : Text → ℕ → ℕ → Text
hash_of a n p = n ∷ p ∷ a

abbrev signs : Text → ℕ → ℕ → Option (Option (Text × (ℕ × ℕ)) × Option Text)
signs a n p = some (some (raw_of a n p), some (hash_of a n p))

-- The payload 13 is not signed.
abbrev fails : Text → ℕ → ℕ → Option (Option (Text × (ℕ × ℕ)) × Option Text)
fails a n p = if nat_beq p 13 then none else some (some (raw_of a n p), some (hash_of a n p))

abbrev sender : Sender (Text × (ℕ × ℕ))
sender = record {
  accounts = alice ∷ bob ∷ [];
  accounts_is_initialized = true;
  nonces = λ a. some 4;
  raw_transactions = (alice, (4, 1)) ∷ (bob, (4, 2)) ∷ [];
  transaction_hashes = none ∷ none ∷ [];
  transaction_sent_state = false ∷ false ∷ [];
  block_before_sent = none;
}

add_transactions-numbered_example :
    (add_transactions
      (alice ∷ bob ∷ [])
      network
      signs
      (map
        (from_pair (alice ∷ bob ∷ []) network signs counts raw_of hash_of)
        ((alice, 1) ∷ (bob, 2) ∷ (alice, 3) ∷ []))
      (reset true sender)).raw_transactions
    ≡ numbered
        (alice ∷ bob ∷ [])
        network
        signs
        counts
        raw_of
        hash_of
        []
        ((alice, 1) ∷ (bob, 2) ∷ (alice, 3) ∷ [])
unfolding list_beq
add_transactions-numbered_example =
    add_transactions-numbered (alice ∷ bob ∷ []) network signs counts raw_of hash_of (λ a. refl)
      (λ a n p. refl) ((alice, 1) ∷ (bob, 2) ∷ (alice, 3) ∷ []) true sender
      (refl, (refl, (refl, tt)))

numbered_in_turn :
    numbered
      (alice ∷ bob ∷ [])
      network
      signs
      counts
      raw_of
      hash_of
      []
      ((alice, 1) ∷ (bob, 2) ∷ (alice, 3) ∷ [])
    ≡ (alice, (7, 1)) ∷ (bob, (0, 2)) ∷ (alice, (8, 3)) ∷ []
unfolding list_beq
numbered_in_turn = refl

add_transaction-gap_example :
    (add_transactions
      (alice ∷ bob ∷ [])
      network
      fails
      (from_pair (alice ∷ bob ∷ []) network fails counts raw_of hash_of (alice, 13)
        ∷ from_pair (alice ∷ bob ∷ []) network fails counts raw_of hash_of (alice, 5)
        ∷ [])
      sender).raw_transactions
    ≡ (alice, (4, 1)) ∷ (bob, (4, 2)) ∷ (alice, (6, 5)) ∷ []
unfolding list_beq
add_transaction-gap_example =
    add_transaction-gap (alice ∷ bob ∷ []) network fails counts raw_of hash_of alice 13 5 4 sender
      refl refl refl refl refl

abbrev reply : ℕ → RpcReply
reply i = if nat_beq i 0 then queue_full else accepted (some [])
