-- ===== src/WebApi/Groups.antt =====
-- Objects that are filled from the groups of rows, and rows by their encoded address.
use diamond_dev_tools.Prelude.{
  ◌≡◌, ◌≢◌, ◌⊎◌, refl, sym, ap, ◌∙◌, arith, Bool, true, false, not, ◌&&◌, ◌||◌, Option, some, List,
  [], ◌∷◌, map, drop, filter, any, length, All, All-map_imp, All-filter, any-filter, filter-filter,
  Text, Buffer, ◌==◌, ==_iff, list_eq, nat_eq, if◌then◌else◌, Bool-cases, inl, inr,
}
use diamond_dev_tools.Ether.{to_lower_case, lower_char, from_hex}
use diamond_dev_tools.Ether.RoundTrip.{IsByte, from_hex-to_hex, to_lower_case-to_hex}
use diamond_dev_tools.WebApi.EpochRows.{EpochRow, encoded, group_ids, group_of}
use diamond_dev_tools.WebApi.RewardStats.{assign_all}

any-group_ids : (p : Buffer → Bool) (xs : List Buffer) → any p (group_ids xs) ≡ any p xs
unfolding group_ids
any-group_ids p [] = refl
any-group_ids p (x ∷ xs) = elim (Bool-cases (p x)) [
  | inl h ↦ rw h refl
  | inr h ↦ rw h (
      any-filter (λ y. not (y == x)) p (group_ids xs)
        (λ y hy. elim (Bool-cases (y == x)) [
          | inl same ↦ cc ((==_iff y x).0 same)
          | inr other ↦ rw other refl
        ])
      ∙ any-group_ids p xs)
]

All-group_ids : (P : Buffer → Type 0) (xs : List Buffer) → All P xs → All P (group_ids xs)
unfolding group_ids
All-group_ids P [] h = tt
All-group_ids P (x ∷ xs) (h, hs) =
    (h, All-filter P (λ y. not (y == x)) (group_ids xs) (All-group_ids P xs hs))

pub assign_all-at :
    {A I : Type 0} (key : I → Text) (value : I → A) (is : List I) (object : Text → Option A)
    (k : Text) (a : A)
    → All (λ i. key i ≡ k → value i ≡ a) is
    → assign_all key value is object k ≡ (if any (λ i. key i == k) is then some a else object k)
unfolding assign_all
assign_all-at key value [] object k a h = refl
assign_all-at key value (i ∷ is) object k a (h, hs) =
    assign_all-at key value is _ k a hs ∙ here (Bool-cases (key i == k))
  where
    here :
        ((key i == k) ≡ true) ⊎ ((key i == k) ≡ false)
        → (if any (λ j. key j == k) is
            then some a
            else if key i == k
            then some (value i)
            else object k)
          ≡ (if (key i == k) || any (λ j. key j == k) is then some a else object k)
    here (inl e) = ground (arith, h ((==_iff (key i) k).0 e))
    here (inr e) = rw e refl

-- Rows whose tests agree.
module _ (p q : EpochRow → Bool) where
  filter-eq : (rows : List EpochRow) → All (λ r. p r ≡ q r) rows → filter p rows ≡ filter q rows
  filter-eq [] h = refl
  filter-eq (r ∷ rows) (h, hs) = ground (arith, filter-eq rows hs)

pub filter-empty :
    (p : EpochRow → Bool) (rows : List EpochRow) → any p rows ≡ false → filter p rows ≡ []
filter-empty p [] h = refl
filter-empty p (r ∷ rows) h = ground (arith, filter-empty p rows)

pub length-filter-pos :
    (p : EpochRow → Bool) (rows : List EpochRow) → any p rows ≡ true → length (filter p rows) ≢ 0
length-filter-pos p [] h = cc
length-filter-pos p (r ∷ rows) h = ground (arith, length-filter-pos p rows)

same_test : (b c : Bool) → (b ≡ true → c ≡ true) → (c ≡ true → b ≡ true) → b ≡ c
same_test true c f g = sym (f refl)
same_test false true f g = g refl
same_test false false f g = refl

or_true : (b : Bool) → (b || true) ≡ true
or_true true = refl
or_true false = refl

and_true : (b : Bool) → (b && true) ≡ b
and_true true = refl
and_true false = refl

and_false : (b : Bool) → (b && false) ≡ false
and_false true = refl
and_false false = refl

encoded-lower : (id : Buffer) → All IsByte id → to_lower_case (encoded id) ≡ encoded id
unfolding encoded lower_char
encoded-lower id h = ap (λ (t : Text). b'0' ∷ b'x' ∷ t) (to_lower_case-to_hex id h)

encoded-injective : (i j : Buffer) → All IsByte i → All IsByte j → encoded i ≡ encoded j → i ≡ j
unfolding encoded
encoded-injective i j hi hj e =
    sym (from_hex-to_hex i hi)
    ∙ (ap (λ t. from_hex (to_lower_case (drop 2 t))) e ∙ from_hex-to_hex j hj)

-- The rows of one window, `within`, and the address `k` of the request.
module _ (within : EpochRow → Bool) (addresses : List Text) (k : Text)
    (asked : any (λ a. k == a) addresses ≡ true) where
  abbrev pub wanted : EpochRow → Bool
  wanted r = any (λ a. to_lower_case (encoded r.id_node) == a) addresses && within r

  abbrev pub of_key : EpochRow → Bool
  of_key r = (encoded r.id_node == k) && within r

  wanted-of_key :
      (r : EpochRow)
      → All IsByte r.id_node
      → (wanted r && (to_lower_case (encoded r.id_node) == k)) ≡ of_key r
  wanted-of_key r h = rw (encoded-lower r.id_node h) (split (Bool-cases (encoded r.id_node == k)))
    where
      split :
          ((encoded r.id_node == k) ≡ true) ⊎ ((encoded r.id_node == k) ≡ false)
          → ((any (λ a. encoded r.id_node == a) addresses && within r) && (encoded r.id_node == k))
            ≡ ((encoded r.id_node == k) && within r)
      split (inl e) = rw (e, (==_iff (encoded r.id_node) k).0 e, asked) (and_true (within r))
      split (inr e) = rw e (and_false (any (λ a. encoded r.id_node == a) addresses && within r))

  any-wanted :
      (rows : List EpochRow)
      → All (λ r. All IsByte r.id_node) rows
      → any (λ i. to_lower_case (encoded i) == k) (map (λ r. r.id_node) (filter wanted rows))
        ≡ any of_key rows
  any-wanted [] h = refl
  any-wanted (r ∷ rows) (h, hs) = ground (arith, wanted-of_key r h, any-wanted rows hs)

  group_of-wanted :
      (i : Buffer) (rows : List EpochRow)
      → All IsByte i
      → to_lower_case (encoded i) ≡ k
      → All (λ r. All IsByte r.id_node) rows
      → group_of (filter wanted rows) i ≡ filter of_key rows
  group_of-wanted i rows hi e h =
      filter-filter wanted (λ r. r.id_node == i) rows
      ∙ filter-eq (λ r. wanted r && (r.id_node == i)) of_key rows (All-map_imp same rows h)
    where
      there : to_lower_case (encoded i) ≡ k
      there = e

      here : encoded i ≡ k
      here = sym (encoded-lower i hi) ∙ e

      tests :
          (r : EpochRow)
          → All IsByte r.id_node
          → (r.id_node == i) ≡ (to_lower_case (encoded r.id_node) == k)
      tests r hr =
          same_test (r.id_node == i) (to_lower_case (encoded r.id_node) == k)
            (λ e.
              (==_iff (to_lower_case (encoded r.id_node)) k).1
                (ap (λ j. to_lower_case (encoded j)) ((==_iff r.id_node i).0 e) ∙ there))
            (λ e. (==_iff r.id_node i).1 (
              encoded-injective r.id_node i hr hi (
                sym (encoded-lower r.id_node hr)
                ∙ ((==_iff (to_lower_case (encoded r.id_node)) k).0 e ∙ sym here))))

      same : (r : EpochRow) → All IsByte r.id_node → (wanted r && (r.id_node == i)) ≡ of_key r
      same r hr = ap (λ b. wanted r && b) (tests r hr) ∙ wanted-of_key r hr

All-map-filter :
    (Q : EpochRow → Type 0) (P : Buffer → Type 0) (p : EpochRow → Bool) (rows : List EpochRow)
    → ((r : EpochRow) → Q r → P r.id_node)
    → All Q rows
    → All P (map (λ r. r.id_node) (filter p rows))
All-map-filter Q P p [] f h = tt
All-map-filter Q P p (r ∷ rows) f (h, hs) = elim (Bool-cases (p r)) [
  | inl e ↦ rw e (f r h, All-map-filter Q P p rows f hs)
  | inr e ↦ rw e (All-map-filter Q P p rows f hs)
]

-- An object that is filled from the groups of the rows has at `k` the value of the rows of `k`.
pub assign_all-groups :
    {A : Type 0} (within : EpochRow → Bool) (addresses : List Text) (k : Text)
    (asked : any (λ a. k == a) addresses ≡ true) (f : List EpochRow → Text → A)
    (rows : List EpochRow) (object : Text → Option A)
    → All (λ r. All IsByte r.id_node) rows
    → assign_all
        (λ i. to_lower_case (encoded i))
        (λ i.
          f
            (group_of (filter (wanted within addresses k asked) rows) i)
            (to_lower_case (encoded i)))
        (group_ids (map (λ r. r.id_node) (filter (wanted within addresses k asked) rows)))
        object
        k
      ≡ (if any (of_key within addresses k asked) rows
          then some (f (filter (of_key within addresses k asked) rows) k)
          else object k)
assign_all-groups {A} within addresses k asked f rows object h =
    let key : Buffer → Text = λ i. to_lower_case (encoded i) in
    let kept = filter (wanted within addresses k asked) rows in
    let value : Buffer → A = λ i. f (group_of kept i) (key i) in
    let found = f (filter (of_key within addresses k asked) rows) k in
    let ids = map (λ r. r.id_node) kept in
    assign_all-at key value (group_ids ids) object k found (
      All-group_ids (λ i. key i ≡ k → value i ≡ found) ids
        (All-map-filter (λ r. All IsByte r.id_node) (λ i. key i ≡ k → value i ≡ found)
          (wanted within addresses k asked) rows
          (λ r hr e.
            ap (λ l. f l (key r.id_node))
              (group_of-wanted within addresses k asked r.id_node rows hr e h)
            ∙ ap (λ t. f (filter (of_key within addresses k asked) rows) t) e)
          h))
    ∙ ap (λ b. if b then some found else object k)
        (any-group_ids (λ i. key i == k) ids ∙ any-wanted within addresses k asked rows h)

pub any-lowered :
    (address : Text) (body : List Text)
    → any (λ a. address == a) body ≡ true
    → (any (λ a. to_lower_case address == a) (map to_lower_case body) ≡ true)
      × (any (λ a. a == to_lower_case address) (map to_lower_case body) ≡ true)
any-lowered address [] h = (cc, cc)
any-lowered address (a ∷ body) h = elim (Bool-cases (address == a)) [
  | inl same ↦
      let e = ap to_lower_case ((==_iff address a).0 same) in
      (
        rw ((==_iff (to_lower_case address) (to_lower_case a)).1 e) refl,
        rw ((==_iff (to_lower_case a) (to_lower_case address)).1 (sym e)) refl,
      )
  | inr other ↦
      let (l, r) = any-lowered address body (rw other at h) in
      (
        rw l (or_true (to_lower_case address == to_lower_case a)),
        rw r (or_true (to_lower_case a == to_lower_case address)),
      )
]
