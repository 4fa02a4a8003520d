-- ===== src/FastTxSender/Sending.antt =====
-- Which transactions are left after `sendTxs`.
use diamond_dev_tools.Prelude.{
  ℕ, suc, ◌≡◌, refl, sym, ap, subst, ◌∙◌, Bool, true, false, not, Option, some, List, [], ◌∷◌,
  filter, map, if◌then◌else◌, Bool-cases, Option-cases, inl, inr,
}
use diamond_dev_tools.FastTxSender.{
  Sender, RpcReply, rejected, not_ok, queue_full, refused, accepted, set_elem, on_reply,
  unsent_from, replies, send_unsent, send_txs,
}

abbrev pub is_accepted : RpcReply → Bool
is_accepted (accepted hash) = true
is_accepted rejected = false
is_accepted not_ok = false
is_accepted queue_full = false
is_accepted refused = false

-- The states after the replies to some indices.
mark : (ℕ → RpcReply) → List ℕ → List Bool → List Bool
mark reply [] states = states
mark reply (i ∷ is) states =
    mark reply is (if is_accepted (reply i) then set_elem i true states else states)

module _ {Raw : Type 0} where
  on_reply-states :
      (i : ℕ) (r : RpcReply) (s : Sender Raw)
      → (on_reply i r s).transaction_sent_state ≡ (
          if is_accepted r
          then set_elem i true s.transaction_sent_state
          else s.transaction_sent_state)
  unfolding on_reply
  on_reply-states i (accepted hash) s = refl
  on_reply-states i rejected s = refl
  on_reply-states i not_ok s = refl
  on_reply-states i queue_full s = refl
  on_reply-states i refused s = refl

  replies-states :
      (reply : ℕ → RpcReply) (is : List ℕ) (s : Sender Raw)
      → (replies (map (λ i. (i, reply i)) is) s).transaction_sent_state
        ≡ mark reply is s.transaction_sent_state
  unfolding replies mark
  replies-states reply [] s = refl
  replies-states reply (i ∷ is) s =
      replies-states reply is (on_reply i (reply i) s)
      ∙ ap (mark reply is) (on_reply-states i (reply i) s)

mark-suc :
    (reply : ℕ → RpcReply) (is : List ℕ) (x : Bool) (xs : List Bool)
    → mark reply (map suc is) (x ∷ xs) ≡ x ∷ mark (λ i. reply (suc i)) is xs
unfolding mark
mark-suc reply [] x xs = refl
mark-suc reply (i ∷ is) x xs = elim (Bool-cases (is_accepted (reply (suc i)))) [
  | inl a ↦ rw (a, mark) (mark-suc reply is x (set_elem i true xs))
  | inr r ↦ rw (r, mark) (mark-suc reply is x xs)
]

unsent_from-suc :
    (i : ℕ) (states : List Bool) → unsent_from (suc i) states ≡ map suc (unsent_from i states)
unfolding unsent_from
unsent_from-suc i [] = refl
unsent_from-suc i (true ∷ states) = unsent_from-suc (suc i) states
unsent_from-suc i (false ∷ states) = ap (λ l. suc i ∷ l) (unsent_from-suc (suc i) states)

filter-map-suc :
    (p : ℕ → Bool) (is : List ℕ) → filter p (map suc is) ≡ map suc (filter (λ i. p (suc i)) is)
filter-map-suc p [] = refl
filter-map-suc p (i ∷ is) = elim (Bool-cases (p (suc i))) [
  | inl h ↦ rw h (ap (λ l. suc i ∷ l) (filter-map-suc p is))
  | inr h ↦ rw h (filter-map-suc p is)
]

-- The rest of the states, one index further.
shifted :
    (reply : ℕ → RpcReply) (xs : List Bool)
    → unsent_from 0 (mark (λ i. reply (suc i)) (unsent_from 0 xs) xs)
      ≡ filter (λ i. not (is_accepted (reply (suc i)))) (unsent_from 0 xs)
    → unsent_from 1 (mark (λ i. reply (suc i)) (unsent_from 0 xs) xs)
      ≡ filter (λ i. not (is_accepted (reply i))) (unsent_from 1 xs)
shifted reply xs h =
    unsent_from-suc 0 (mark (λ i. reply (suc i)) (unsent_from 0 xs) xs)
    ∙ (ap (map suc) h
        ∙ (sym (filter-map-suc (λ i. not (is_accepted (reply i))) (unsent_from 0 xs))
            ∙ ap (filter (λ i. not (is_accepted (reply i)))) (sym (unsent_from-suc 0 xs))))

mark-rest :
    (reply : ℕ → RpcReply) (x : Bool) (xs : List Bool)
    → mark reply (unsent_from 1 xs) (x ∷ xs) ≡ x ∷ mark (λ i. reply (suc i)) (unsent_from 0 xs) xs
mark-rest reply x xs =
    ap (λ is. mark reply is (x ∷ xs)) (unsent_from-suc 0 xs)
    ∙ mark-suc reply (unsent_from 0 xs) x xs

mark-unsent :
    (reply : ℕ → RpcReply) (states : List Bool)
    → unsent_from 0 (mark reply (unsent_from 0 states) states)
      ≡ filter (λ i. not (is_accepted (reply i))) (unsent_from 0 states)
unfolding unsent_from mark
mark-unsent reply [] = refl
mark-unsent reply (true ∷ xs) =
    ap (unsent_from 0) (mark-rest reply true xs)
    ∙ shifted reply xs (mark-unsent (λ i. reply (suc i)) xs)
mark-unsent reply (false ∷ xs) = elim (Bool-cases (is_accepted (reply 0))) [
  | inl a ↦
      rw (a, mark)
        (ap (unsent_from 0) (mark-rest reply true xs)
          ∙ shifted reply xs (mark-unsent (λ i. reply (suc i)) xs))
  | inr r ↦
      rw (r, mark)
        (ap (unsent_from 0) (mark-rest reply false xs)
          ∙ ap (λ l. 0 ∷ l) (shifted reply xs (mark-unsent (λ i. reply (suc i)) xs)))
]

module _ {Raw : Type 0} where
  -- The result of `sendTxs`, for its states before.
  abbrev Sends : (ℕ → RpcReply) → List Bool → Option (List ℕ) × Sender Raw → Type 0
  Sends reply states r =
      (r.0 ≡ some (unsent_from 0 states))
      × (unsent_from 0 r.1.transaction_sent_state
          ≡ filter (λ i. not (is_accepted (reply i))) (unsent_from 0 states))

  send_unsent-Sends :
      (reply : ℕ → RpcReply) (s : Sender Raw)
      → Sends reply s.transaction_sent_state (send_unsent reply s)
  send_unsent-Sends reply s = (
    refl,
    ap (unsent_from 0) (replies-states reply (unsent_from 0 s.transaction_sent_state) s)
        ∙ mark-unsent reply s.transaction_sent_state,
  )

  -- With at least one transaction and a known block, `sendTxs` sends each transaction that is not
  -- marked as sent, and afterwards exactly those of them are left whose reply had no hash.
  pub send_txs-unsent :
      (block : ℕ) (reply : ℕ → RpcReply) (s : Sender Raw) (raw : Raw) (raws : List Raw)
      → s.raw_transactions ≡ raw ∷ raws
      → ((send_txs (some block) reply s).0 ≡ some (unsent_from 0 s.transaction_sent_state))
        × (unsent_from 0 (send_txs (some block) reply s).1.transaction_sent_state
            ≡ filter (λ i. not (is_accepted (reply i))) (unsent_from 0 s.transaction_sent_state))
  unfolding send_txs
  send_txs-unsent block reply s raw raws e = elim (Option-cases s.block_before_sent) [
    | inl n ↦
        let sent : send_txs (some block) reply s
            ≡ send_unsent reply (record s { block_before_sent = some block }) =
          simp (e, n, send_txs) refl in
        subst (Sends reply s.transaction_sent_state) (sym sent)
          (send_unsent-Sends reply (record s { block_before_sent = some block }))
    | inr (b, n) ↦
        let sent : send_txs (some block) reply s
            ≡ send_unsent reply (record s { block_before_sent = some b }) =
          simp (e, n, send_txs) refl in
        subst (Sends reply s.transaction_sent_state) (sym sent)
          (send_unsent-Sends reply (record s { block_before_sent = some b }))
  ]
