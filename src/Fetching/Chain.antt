-- ===== src/Fetching/Chain.antt =====
-- The order of all events of a range, with the name events among them.
use diamond_dev_tools.Prelude.{ℕ, ◌≡◌, true, List, [], ◌∷◌, nat_eq, ◌<◌, ◌≤◌, ◌⊎◌, All}
use diamond_dev_tools.Names.{NameEvent}
use diamond_dev_tools.Fetching.Naming.{name_block, name_log_index, name_first}

-- By block, and within a block by the index of the log.
abbrev pub Precedes : (block index block' index' : ℕ) → Type 0
Precedes b i c j = (b < c) ⊎ ((b ≡ c) × (i ≤ j))

abbrev pub InLogOrder : List NameEvent → Type 0
InLogOrder [] = Unit
InLogOrder (x ∷ xs) =
    All (λ y. Precedes (name_block x) (name_log_index x) (name_block y) (name_log_index y)) xs
    × InLogOrder xs

abbrev IsSorted : List NameEvent → Type 0
IsSorted [] = Unit
IsSorted (x ∷ xs) = All (λ y. name_first x y ≡ true) xs × IsSorted xs
