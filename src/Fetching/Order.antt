-- ===== src/Fetching/Order.antt =====
-- The order of the collected events.
use diamond_dev_tools.Prelude.{
  ℕ, ◌≤◌, arith, ◌≡◌, refl, sym, ap, ◌∙◌, Option, some, List, [], ◌∷◌, ◌++◌, filter, map, leb, ◌==◌,
  nat_eq, if◌then◌else◌, Bool-cases, inl, inr, All,
}
use diamond_dev_tools.Events.{
  ContractEvent, placed_stake, withdrew_stake, moved_stake, ordered_withdrawal,
  claimed_ordered_withdrawal, gather_abandoned_stakes,
}
use diamond_dev_tools.Fetching.{
  insert_by, sort_by, NodeAnswers, AnyEvent, stake_event, name_event, any_block, block_number_of,
  get_events, get_withdrawal_order_events, get_availability_events, get_stake_update_events,
  get_all_events,
}

module _ {A : Type 0} (key : A → ℕ) where
  abbrev pub in_block : ℕ → List A → List A
  in_block n = filter (λ x. key x == n)

  -- A stable sort leaves those with one key in their order.
  insert_by-in_block :
      (n : ℕ) (x : A) (xs : List A) → in_block n (insert_by key x xs) ≡ in_block n (x ∷ xs)
  insert_by-in_block n x [] = refl
  insert_by-in_block n x (y ∷ ys) = ground (arith, insert_by-in_block n x ys)

  pub sort_by-in_block : (n : ℕ) (xs : List A) → in_block n (sort_by key xs) ≡ in_block n xs
  unfolding sort_by
  sort_by-in_block n [] = refl
  sort_by-in_block n (x ∷ xs) =
      insert_by-in_block n x (sort_by key xs)
      ∙ ap (λ l. if key x == n then x ∷ l else l) (sort_by-in_block n xs)

  abbrev pub Ascending : List A → Type 0
  Ascending [] = Unit
  Ascending (x ∷ xs) = All (λ y. key x ≤ key y) xs × Ascending xs

  pub in_block-append :
      (n : ℕ) (xs ys : List A) → in_block n (xs ++ ys) ≡ in_block n xs ++ in_block n ys
  in_block-append n [] ys = refl
  in_block-append n (x ∷ xs) ys = ground (arith, in_block-append n xs ys)

  insert_by-All :
      (k : ℕ) (x : A) (xs : List A)
      → k ≤ key x
      → All (λ y. k ≤ key y) xs
      → All (λ y. k ≤ key y) (insert_by key x xs)
  insert_by-All k x [] h hs = (h, tt)
  insert_by-All k x (y ∷ ys) h (g, gs) = elim (Bool-cases (leb (key x) (key y))) [
    | inl le ↦ rw le (h, (g, gs))
    | inr gt ↦ rw gt (g, insert_by-All k x ys h gs)
  ]

  All-le : (k l : ℕ) (xs : List A) → k ≤ l → All (λ y. l ≤ key y) xs → All (λ y. k ≤ key y) xs
  All-le k l [] h hs = tt
  All-le k l (x ∷ xs) h (g, gs) = (omega arith, All-le k l xs h gs)

  insert_by-Ascending : (x : A) (xs : List A) → Ascending xs → Ascending (insert_by key x xs)
  insert_by-Ascending x [] h = (tt, tt)
  insert_by-Ascending x (y ∷ ys) (h, hs) = elim (Bool-cases (leb (key x) (key y))) [
    | inl le ↦
        let less : key x ≤ key y = ground arith in
        rw le ((less, All-le (key x) (key y) ys less h), (h, hs))
    | inr gt ↦ rw gt (insert_by-All (key y) x ys (ground arith) h, insert_by-Ascending x ys hs)
  ]

  pub sort_by-Ascending : (xs : List A) → Ascending (sort_by key xs)
  unfolding sort_by
  sort_by-Ascending [] = tt
  sort_by-Ascending (x ∷ xs) = insert_by-Ascending x (sort_by key xs) (sort_by-Ascending xs)

module _ {NameEvent : Type 0} (node : NodeAnswers) (block_of : NameEvent → ℕ)
    (naming : Option (List NameEvent)) where
  in_block-stake_events :
      (n : ℕ) (es : List ContractEvent)
      → in_block (any_block block_of) n (map stake_event es)
        ≡ map stake_event (in_block block_number_of n es)
  in_block-stake_events n [] = refl
  in_block-stake_events n (e ∷ es) = ground (arith, in_block-stake_events n es)

  sorted_stakes :
      (n : ℕ) (es : List ContractEvent)
      → in_block (any_block block_of) n (map stake_event (sort_by block_number_of es))
        ≡ in_block (any_block block_of) n (map stake_event es)
  sorted_stakes n es =
      in_block-stake_events n (sort_by block_number_of es)
      ∙ (ap (map stake_event) (sort_by-in_block block_number_of n es)
          ∙ sym (in_block-stake_events n es))

  -- If no call throws, the events come in the order of their blocks. Within a block they come by
  -- kind, whatever their order in the chain: availability, placed, withdrawn and moved stake,
  -- orders, claims, gathered stake, and names, and those of one kind as the node lists them.
  pub get_all_events-Ascending :
      (available placed withdrew moves orders claims abandoned : List ContractEvent)
      (names : List NameEvent)
      → get_availability_events node ≡ some available
      → get_events node placed_stake ≡ some placed
      → get_events node withdrew_stake ≡ some withdrew
      → get_events node moved_stake ≡ some moves
      → get_events node ordered_withdrawal ≡ some orders
      → get_events node claimed_ordered_withdrawal ≡ some claims
      → get_events node gather_abandoned_stakes ≡ some abandoned
      → naming ≡ some names
      → (result : List (AnyEvent NameEvent)) × (get_all_events node block_of naming ≡ some result)
        × Ascending (any_block block_of) result
        × ((n : ℕ)
            → in_block (any_block block_of) n result
              ≡ in_block (any_block block_of) n (
                  map stake_event available
                  ++ map stake_event
                      (placed ++ withdrew ++ moves ++ (orders ++ claims) ++ abandoned)
                  ++ map name_event names))
  unfolding get_all_events get_stake_update_events get_withdrawal_order_events
  get_all_events-Ascending available placed withdrew moves orders claims abandoned names ea ep ew em
        eo ec eg en =
      let key = any_block block_of in
      let stakes = placed ++ withdrew ++ moves ++ (orders ++ claims) ++ abandoned in
      let sorted = map stake_event (sort_by block_number_of stakes) in
      (
        sort_by key (map stake_event available ++ sorted ++ map name_event names),
        rw
            (
              ea, ep, ew, em, eo, ec, eg, en, get_all_events, get_stake_update_events,
              get_withdrawal_order_events,
            )
            refl,
        sort_by-Ascending key (map stake_event available ++ sorted ++ map name_event names),
        λ n.
            sort_by-in_block key n _
            ∙ (in_block-append key n (map stake_event available ++ sorted) (map name_event names)
                ∙ (ap (λ l. l ++ in_block key n (map name_event names))
                      (in_block-append key n (map stake_event available) sorted
                        ∙ (ap (λ l. in_block key n (map stake_event available) ++ l)
                              (sorted_stakes n stakes)
                            ∙ sym (
                                in_block-append key n (map stake_event available)
                                  (map stake_event stakes))))
                    ∙ sym (
                        in_block-append key n (map stake_event available ++ map stake_event stakes)
                          (map name_event names)))),
      )
