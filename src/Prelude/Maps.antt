-- ===== src/Prelude/Maps.antt =====
-- `HashMap` and `HashSet` with numbers for keys, by their contents: the entries in ascending order
-- of the keys. The program sorts the keys wherever it goes over them.
use tick_synchronizer.Prelude.{
  ℕ, ◌≡◌, Bool, false, ◌||◌, ◌&&◌, not, Option, none, some, List, [], ◌∷◌, arith, ltb, ◌==◌,
  if◌then◌else◌,
}

abbrev pub Map {ℓ} : Type ℓ → Type ℓ
Map V = List (ℕ × V)

module _ {ℓ} {V : Type ℓ} where
  -- `getptr`
  unfoldable pub lookup : ℕ → Map V → Option V
  lookup k [] = none
  lookup k ((j, v) ∷ m) = if j == k then some v else lookup k m

  unfoldable pub insert : ℕ → V → Map V → Map V
  insert k v [] = (k, v) ∷ []
  insert k v ((j, w) ∷ m) =
      let later = (j, w) ∷ insert k v m in
      if j == k then (k, v) ∷ m else if ltb k j then (k, v) ∷ (j, w) ∷ m else later

  unfoldable pub erase : ℕ → Map V → Map V
  erase k [] = []
  erase k ((j, v) ∷ m) = let rest = erase k m in if j == k then rest else (j, v) ∷ rest

  abbrev pub keys : Map V → List ℕ
  keys [] = []
  keys ((j, v) ∷ m) = j ∷ keys m

module _ {ℓ} {V : Type ℓ} where
  pub lookup-insert :
      (j k : ℕ) (v : V) (m : Map V)
      → lookup j (insert k v m) ≡ (if k == j then some v else lookup j m)
  unfolding lookup insert
  lookup-insert j k v [] = ground arith
  lookup-insert j k v ((i, w) ∷ m) = ground (arith, lookup-insert j k v m)

  pub lookup-erase :
      (j k : ℕ) (m : Map V) → lookup j (erase k m) ≡ (if k == j then none else lookup j m)
  unfolding lookup erase
  lookup-erase j k [] = ground arith
  lookup-erase j k ((i, w) ∷ m) = ground (arith, lookup-erase j k m)

abbrev pub Keys : Type 0
Keys = List ℕ

unfoldable pub has : ℕ → Keys → Bool
has k [] = false
has k (j ∷ s) = (j == k) || has k s

unfoldable pub include : ℕ → Keys → Keys
include k [] = k ∷ []
include k (j ∷ s) =
    let later = j ∷ include k s in if j == k then j ∷ s else if ltb k j then k ∷ j ∷ s else later

unfoldable pub exclude : ℕ → Keys → Keys
exclude k [] = []
exclude k (j ∷ s) = let rest = exclude k s in if j == k then rest else j ∷ rest

pub has-include : (j k : ℕ) (s : Keys) → has j (include k s) ≡ ((k == j) || has j s)
unfolding has include
has-include j k [] = ground arith
has-include j k (i ∷ s) = ground (arith, has-include j k s)

pub has-exclude : (j k : ℕ) (s : Keys) → has j (exclude k s) ≡ (not (k == j) && has j s)
unfolding has exclude
has-exclude j k [] = ground arith
has-exclude j k (i ∷ s) = ground (arith, has-exclude j k s)
