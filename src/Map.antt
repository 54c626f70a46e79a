-- ===== src/Map.antt =====
-- `HashMap` as an association list. No law depends on the order of the entries, which the
-- standard library leaves open.
pub mod Laws
pub mod Counts
use rs_lxmf.Prelude.{
  ℕ, Bool, true, false, Option, none, some, List, [], ◌∷◌, ◌+◌, Eq, ◌==◌, if◌then◌else◌, is_some,
}

abbrev pub Map {ℓ κ} : Type ℓ → Type κ → Type (ℓ ⊔ κ)
Map K V = List (K × V)

module _ {ℓ κ} {K : Type ℓ} {V : Type κ} ⦃e : Eq K⦄ where
  unfoldable pub get : K → Map K V → Option V
  get k [] = none
  get k ((j, v) ∷ m) = let rest = get k m in if j == k then some v else rest

  abbrev pub contains_key : K → Map K V → Bool
  contains_key k m = is_some (get k m)

  -- replaces the value of a key that is there
  unfoldable pub insert : K → V → Map K V → Map K V
  insert k v [] = (k, v) ∷ []
  insert k v ((j, w) ∷ m) = let rest = insert k v m in if j == k then (k, v) ∷ m else (j, w) ∷ rest

  unfoldable pub remove : K → Map K V → Map K V
  remove k [] = []
  remove k ((j, v) ∷ m) = let rest = remove k m in if j == k then rest else (j, v) ∷ rest

  -- A dropped key is dropped wherever it stands; in a map with distinct keys this is the filter.
  unfoldable pub retain : (K → V → Bool) → Map K V → Map K V
  unfolding remove
  retain p [] = []
  retain p ((j, v) ∷ m) = let rest = retain p m in if p j v then (j, v) ∷ rest else remove j rest

  -- the number of values that meet the test, `values().filter(p).count()`
  unfoldable pub count_values : (V → Bool) → Map K V → ℕ
  count_values p [] = 0
  count_values p ((j, v) ∷ m) = let rest = count_values p m in if p v then rest + 1 else rest

  -- `keys().filter(p).count()`
  unfoldable pub count_keys : (K → Bool) → Map K V → ℕ
  count_keys p [] = 0
  count_keys p ((j, v) ∷ m) = let rest = count_keys p m in if p j then rest + 1 else rest
