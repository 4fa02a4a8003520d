-- ===== src/FastTxSender.antt =====
-- The sender of many transactions (src/tools/FastTxSender.ts). Signing, the wallet and the node are
-- not part of the repository: what they answer is an argument of each call, where none is an
-- exception. A method that throws gives none, and keeps what it did to the fields before.
pub mod Nonces
pub mod Sending
pub mod Examples
use diamond_dev_tools.Prelude.{
  ℕ, zero, suc, ◌+◌, Bool, true, false, not, Option, none, some, List, [], ◌∷◌, ◌++◌, any, map,
  length, Text, ◌==◌, list_eq, nat_eq, if◌then◌else◌,
}

pub record Transaction (Payload : Type 0) : Type 0 where
  pub from : Option Text
  pub payload : Payload

-- `NaN` in `blockBeforeSent` is none, and so is a missing key of `nonces`; `accounts` lists its keys.
pub record Sender (Raw : Type 0) : Type 0 where
  pub accounts : List Text
  pub accounts_is_initialized : Bool
  pub nonces : Text → Option ℕ
  pub raw_transactions : List Raw
  pub transaction_hashes : List (Option Text)
  pub transaction_sent_state : List Bool
  pub block_before_sent : Option ℕ

abbrev pub member : Text → List Text → Bool
member x xs = any (λ y. y == x) xs

module _ {Raw : Type 0} where
  unfoldable pub ensure_accounts_is_initialized : List Text → Sender Raw → Sender Raw
  ensure_accounts_is_initialized wallet s =
      if s.accounts_is_initialized
      then s
      else record s { accounts = wallet; accounts_is_initialized = true }

  -- Both calls of it, around the test for the sender.
  unfoldable pub look_up_account : List Text → Text → Sender Raw → Sender Raw
  unfolding ensure_accounts_is_initialized
  look_up_account wallet from s =
      let once = ensure_accounts_is_initialized wallet s in
      if member from once.accounts
      then once
      else ensure_accounts_is_initialized wallet (record once { accounts_is_initialized = false })

  abbrev pub set_nonce : Text → ℕ → Sender Raw → Sender Raw
  set_nonce from nonce s = record s { nonces = λ a. if a == from then some nonce else s.nonces a }

-- The stored nonce and one, or the count of the network.
abbrev pub next_nonce : Option ℕ → (network : Option ℕ) → Option ℕ
next_nonce (some nonce) network = some (suc nonce)
next_nonce none network = network

module _ {Payload Raw : Type 0} (wallet : List Text) (get_transaction_count : Text → Option ℕ)
    -- `account.signTransaction`: the raw transaction and the hash, which may both be missing.
    (sign : Text → ℕ → Payload → Option (Option Raw × Option Text)) where
  abbrev pub signed : Option (Option Raw × Option Text) → Option (Raw × Text)
  signed none = none
  signed (some (none, hash)) = none
  signed (some (some raw, none)) = none
  signed (some (some raw, some hash)) = some (raw, hash)

  abbrev pub sign_with : Text → Payload → Option ℕ → Sender Raw → Option (Raw × Text) × Sender Raw
  sign_with from payload none s = (none, s)
  sign_with from payload (some nonce) s = (signed (sign from nonce payload), set_nonce from nonce s)

  unfoldable pub sign_transaction :
      Transaction Payload → Sender Raw → Option (Raw × Text) × Sender Raw
  unfolding look_up_account
  sign_transaction t s = elim t.from [
    | none ↦ (none, s)
    | some from ↦
        let found = look_up_account wallet from s in
        if member from found.accounts
        then sign_with from t.payload (next_nonce (found.nonces from) (get_transaction_count from))
            found
        else (none, found)
  ]

  abbrev pub push : Option (Raw × Text) × Sender Raw → Option Text × Sender Raw
  push (none, s) = (none, s)
  push (some (raw, hash), s) = (
    some hash,
    record s {
      raw_transactions = s.raw_transactions ++ raw ∷ [];
      transaction_sent_state = s.transaction_sent_state ++ false ∷ [];
      transaction_hashes = s.transaction_hashes ++ some hash ∷ [];
    },
  )

  unfoldable pub add_transaction : Transaction Payload → Sender Raw → Option Text × Sender Raw
  unfolding sign_transaction
  add_transaction t s = push (sign_transaction t s)

  unfoldable pub add_transactions : List (Transaction Payload) → Sender Raw → Sender Raw
  unfolding add_transaction
  add_transactions [] s = s
  add_transactions (t ∷ ts) s = add_transactions ts (add_transaction t s).1

-- What the node answers to `eth_sendRawTransaction`: an error of the request, another status than
-- 200, an error in the reply (the one for a full queue is tried again later), or a hash.
pub data RpcReply : Type 0 where
  rejected : RpcReply
  not_ok : RpcReply
  queue_full : RpcReply
  refused : RpcReply
  accepted : Option Text → RpcReply

abbrev pub set_elem : {A : Type 0} → ℕ → A → List A → List A
set_elem i a [] = []
set_elem zero a (x ∷ xs) = a ∷ xs
set_elem (suc i) a (x ∷ xs) = x ∷ set_elem i a xs

abbrev pub or_block : Option ℕ → Option ℕ → Option ℕ
or_block (some known) block = some known
or_block none block = block

-- The indices of the states that are not sent, in order; the first state has index `i`.
unfoldable pub unsent_from : ℕ → List Bool → List ℕ
unsent_from i [] = []
unsent_from i (sent ∷ states) =
    if sent then unsent_from (suc i) states else i ∷ unsent_from (suc i) states

module _ {Raw : Type 0} where
  unfoldable pub on_reply : ℕ → RpcReply → Sender Raw → Sender Raw
  on_reply i (accepted hash) s = record s {
    transaction_hashes = set_elem i hash s.transaction_hashes;
    transaction_sent_state = set_elem i true s.transaction_sent_state;
  }
  on_reply i rejected s = s
  on_reply i not_ok s = s
  on_reply i queue_full s = s
  on_reply i refused s = s

  unfoldable pub replies : List (ℕ × RpcReply) → Sender Raw → Sender Raw
  unfolding on_reply
  replies [] s = s
  replies ((i, r) ∷ rs) s = replies rs (on_reply i r s)

  abbrev pub send_unsent : (ℕ → RpcReply) → Sender Raw → Option (List ℕ) × Sender Raw
  send_unsent reply s =
      let unsent = unsent_from 0 s.transaction_sent_state in
      (some unsent, replies (map (λ i. (i, reply i)) unsent) s)

  abbrev pub send_after :
      (block : Option ℕ) → (ℕ → RpcReply) → Sender Raw → Option (List ℕ) × Sender Raw
  send_after none reply s = (none, s)
  send_after (some block) reply s = send_unsent reply (record s { block_before_sent = some block })

  -- `sendTxs`, with the number of the block and the replies: what it sends, and the fields. A reply
  -- changes the entries of its own index only, so the indices may be chosen first.
  unfoldable pub send_txs :
      (block : Option ℕ) → (ℕ → RpcReply) → Sender Raw → Option (List ℕ) × Sender Raw
  unfolding unsent_from replies
  send_txs block reply s = elim s.raw_transactions [
    | [] ↦ (none, s)
    | r ∷ rs ↦ send_after (or_block s.block_before_sent block) reply s
  ]

  unfoldable pub reset : (reset_accounts : Bool) → Sender Raw → Sender Raw
  reset reset_accounts s = record s {
    raw_transactions = [];
    transaction_hashes = [];
    transaction_sent_state = [];
    block_before_sent = none;
    nonces = λ a. none;
    accounts = if reset_accounts then [] else s.accounts;
    accounts_is_initialized = if reset_accounts then false else s.accounts_is_initialized;
  }
