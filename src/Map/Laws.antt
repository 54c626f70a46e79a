-- ===== src/Map/Laws.antt =====
-- What a lookup finds after each change of a map.
use rs_lxmf.Prelude.{
  Bool, true, ◌≡◌, refl, Option, none, some, [], ◌∷◌, arith, Eq, ◌==◌, if◌then◌else◌,
}
use rs_lxmf.Map.{Map, get, insert, remove, retain}

-- `Option::filter`
abbrev pub keep_if {ℓ} : {A : Type ℓ} → (A → Bool) → Option A → Option A
keep_if p none = none
keep_if p (some a) = if p a then some a else none

module _ {ℓ} {K : Type ℓ} ⦃e : Eq K⦄ where
  pub ==_refl : (k : K) → (k == k) ≡ true
  ==_refl k = (e.beq_iff k k).1 refl

module _ {ℓ κ} {K : Type ℓ} {V : Type κ} ⦃e : Eq K⦄ where
  pub get-insert :
      (k j : K) (v : V) (m : Map K V) → get j (insert k v m) ≡ (if k == j then some v else get j m)
  unfolding get insert
  get-insert k j v [] = refl
  get-insert k j v ((i, w) ∷ m) =
      ground (arith, e.beq_iff k j, e.beq_iff i k, e.beq_iff i j, get-insert k j v m)

  pub get-remove : (k j : K) (m : Map K V) → get j (remove k m) ≡ (if k == j then none else get j m)
  unfolding get remove
  get-remove k j [] = ground arith
  get-remove k j ((i, w) ∷ m) =
      ground (arith, e.beq_iff k j, e.beq_iff i k, e.beq_iff i j, get-remove k j m)

  pub get-retain :
      (p : K → V → Bool) (j : K) (m : Map K V) → get j (retain p m) ≡ keep_if (p j) (get j m)
  unfolding get retain
  get-retain p j [] = refl
  get-retain p j ((i, w) ∷ m) =
      ground (arith, e.beq_iff i j, get-retain p j m, get-remove i j (retain p m))
