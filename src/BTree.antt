-- ===== src/BTree.antt =====
-- `BTreeMap` with numbers for keys, as the list of its entries in the order of iteration.
pub mod Laws
use open_shield.Base.{
  ℕ, zero, suc, ◌≤◌, Option, none, some, List, [], ◌∷◌, map, ltb, ◌==◌, if◌then◌else◌,
}

module _ {ℓ} {V : Type ℓ} where
  unfoldable pub get : ℕ → List (ℕ × V) → Option V
  get k [] = none
  get k ((j, v) ∷ m) = if j == k then some v else get k m

  unfoldable pub insert : ℕ → V → List (ℕ × V) → List (ℕ × V)
  insert k v [] = (k, v) ∷ []
  insert k v ((j, w) ∷ m) =
      let rest = insert k v m in
      if ltb k j then (k, v) ∷ (j, w) ∷ m else if k == j then (k, v) ∷ m else (j, w) ∷ rest

  unfoldable pub remove : ℕ → List (ℕ × V) → List (ℕ × V)
  remove k [] = []
  remove k ((j, w) ∷ m) = let rest = remove k m in if j == k then m else (j, w) ∷ rest

  abbrev pub values : List (ℕ × V) → List V
  values m = map (λ e. e.1) m

  -- `range((Excluded(k), Unbounded))`
  unfoldable pub after : ℕ → List (ℕ × V) → List (ℕ × V)
  after k [] = []
  after k ((j, w) ∷ m) = let rest = after k m in if ltb k j then (j, w) ∷ rest else rest

  -- The keys increase, from the bound on.
  abbrev pub Ordered : ℕ → List (ℕ × V) → Type 0
  Ordered lo [] = Unit {0}
  Ordered lo ((k, v) ∷ m) = (lo ≤ k) × Ordered (suc k) m

  abbrev pub IsSorted : List (ℕ × V) → Type 0
  IsSorted m = Ordered 0 m

  -- `collect` into a map: a later entry of the same key wins.
  unfoldable pub from_list : List (ℕ × V) → List (ℕ × V) → List (ℕ × V)
  from_list m [] = m
  from_list m ((k, v) ∷ rest) = from_list (insert k v m) rest
