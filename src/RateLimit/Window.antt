-- ===== src/RateLimit/Window.antt =====
-- The counts kept in memory, against the list of all requests that were made.
use diamond_dev_tools.Prelude.{
  ℕ, suc, ◌+◌, ◌*◌, ◌≤◌, arith, ◌≡◌, refl, sym, ap, ◌∙◌, Bool, true, List, [], ◌∷◌, ◌++◌, filter,
  map, length, ltb, if◌then◌else◌, filter-imp, length-append, Bool-cases, inl, inr, ==_iff, nat_eq,
  list_eq,
}
use diamond_dev_tools.RateLimit.{
  Key, minute_key, day_key, public_key, auth_key, key_beq, Entry, Store, live, fresh, increment,
  cleanup,
}

key_beq→≡ : (a b : Key) → key_beq a b ≡ true → a ≡ b
key_beq→≡ (minute_key a) (minute_key b) h = ap minute_key ((==_iff a b).0 h)
key_beq→≡ (day_key a) (day_key b) h = ap day_key ((==_iff a b).0 h)
key_beq→≡ (public_key a) (public_key b) h = ap public_key ((==_iff a b).0 h)
key_beq→≡ (auth_key a) (auth_key b) h = ap auth_key ((==_iff a b).0 h)
key_beq→≡ (minute_key a) (day_key b) h = cc
key_beq→≡ (minute_key a) (public_key b) h = cc
key_beq→≡ (minute_key a) (auth_key b) h = cc
key_beq→≡ (day_key a) (minute_key b) h = cc
key_beq→≡ (day_key a) (public_key b) h = cc
key_beq→≡ (day_key a) (auth_key b) h = cc
key_beq→≡ (public_key a) (minute_key b) h = cc
key_beq→≡ (public_key a) (day_key b) h = cc
key_beq→≡ (public_key a) (auth_key b) h = cc
key_beq→≡ (auth_key a) (minute_key b) h = cc
key_beq→≡ (auth_key a) (day_key b) h = cc
key_beq→≡ (auth_key a) (public_key b) h = cc

-- What happens to the store, and when.
pub data Act : Type 0 where
  requests : Key → ℕ → Act
  cleans : ℕ → Act

abbrev pub time : Act → ℕ
time (requests k t) = t
time (cleans t) = t

-- The seconds of a key's window.
abbrev pub window : Key → ℕ
window (minute_key a) = 60
window (day_key a) = 86400
window (public_key a) = 60
window (auth_key a) = 60

unfoldable pub after : Act → Store → Store
unfolding increment cleanup
after (requests k t) s = (increment k (window k) t s).1
after (cleans t) s = cleanup t s

-- The store after some acts, the latest at the head.
abbrev pub run : List Act → Store
run [] = λ k. []
run (a ∷ earlier) = after a (run earlier)

abbrev pub latest : List Act → ℕ
latest [] = 0
latest (a ∷ earlier) = time a

-- The clock never goes back.
abbrev pub InOrder : List Act → Type 0
InOrder [] = Unit
InOrder (a ∷ earlier) = (latest earlier ≤ time a) × InOrder earlier

-- The times of the requests for a key.
unfoldable pub made : Key → List Act → List ℕ
made k [] = []
made k (requests j t ∷ earlier) = if key_beq j k then made k earlier ++ t ∷ [] else made k earlier
made k (cleans t ∷ earlier) = made k earlier

pub filter-append :
    {A : Type 0} (p : A → Bool) (xs ys : List A) → filter p (xs ++ ys) ≡ filter p xs ++ filter p ys
filter-append p [] ys = refl
filter-append p (x ∷ xs) ys = elim (Bool-cases (p x)) [
  | inl h ↦ rw h (ap (λ l. x ∷ l) (filter-append p xs ys))
  | inr h ↦ rw h (filter-append p xs ys)
]

map-append : {A B : Type 0} (f : A → B) (xs ys : List A) → map f (xs ++ ys) ≡ map f xs ++ map f ys
map-append f [] ys = refl
map-append f (x ∷ xs) ys = ap (λ l. f x ∷ l) (map-append f xs ys)

live_later : (t now : ℕ) → t ≤ now → (e : Entry) → live now e ≡ true → live t e ≡ true
live_later t now h e l = ground arith

-- What is still live in the store is what is still live of all the requests.
pub run-live :
    (k : Key) (acts : List Act)
    → InOrder acts
    → (now : ℕ) → latest acts ≤ now
    → filter (live now) (run acts k) ≡ filter (live now) (map (fresh (window k)) (made k acts))
unfolding made increment cleanup after
run-live k [] h now le = refl
run-live k (cleans t ∷ earlier) (o, os) now le =
    filter-imp (live now) (live t) (run earlier k) (live_later t now le)
    ∙ run-live k earlier os now (omega arith)
run-live k (requests j t ∷ earlier) (o, os) now le = elim (Bool-cases (key_beq j k)) [
  | inr h ↦ rw h (run-live k earlier os now (omega arith))
  | inl h ↦
      let same : j ≡ k = key_beq→≡ j k h in
      let rest = run-live k earlier os now (omega arith) in
      rw (h, same)
        (filter-append (live now) (filter (live t) (run earlier k)) (fresh (window k) t ∷ [])
          ∙ (ap (λ l. l ++ filter (live now) (fresh (window k) t ∷ []))
                (filter-imp (live now) (live t) (run earlier k) (live_later t now le) ∙ rest)
              ∙ (sym (
                    filter-append (live now) (map (fresh (window k)) (made k earlier))
                      (fresh (window k) t ∷ []))
                  ∙ ap (filter (live now))
                      (sym (map-append (fresh (window k)) (made k earlier) (t ∷ []))))))
]

-- The requests for a key whose window has not ended at a time.
abbrev pub recent : Key → ℕ → List ℕ → ℕ
recent k now times = length (filter (λ t. ltb now (t + window k * 1000)) times)

length-filter-map :
    {A B : Type 0} (p : B → Bool) (f : A → B) (xs : List A)
    → length (filter p (map f xs)) ≡ length (filter (λ x. p (f x)) xs)
length-filter-map p f [] = refl
length-filter-map p f (x ∷ xs) = elim (Bool-cases (p (f x))) [
  | inl h ↦ rw h (ap suc (length-filter-map p f xs))
  | inr h ↦ rw h (length-filter-map p f xs)
]

-- A sliding window: after any requests for any keys and any cleanups, in the clock's order, the
-- count that a request for a key gets is one more than the number of earlier requests for that key
-- whose window has not ended.
pub increment-recent :
    (k : Key) (acts : List Act) (now : ℕ)
    → InOrder acts
    → latest acts ≤ now
    → (increment k (window k) now (run acts)).0 ≡ suc (recent k now (made k acts))
unfolding increment
increment-recent k acts now o le =
    length-append (filter (live now) (run acts k)) (fresh (window k) now ∷ [])
    ∙ (ap (λ l. length l + 1) (run-live k acts o now le)
        ∙ (ap (λ n. n + 1) (length-filter-map (live now) (fresh (window k)) (made k acts))
            ∙ omega arith))
