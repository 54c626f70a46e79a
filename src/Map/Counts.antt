-- ===== src/Map/Counts.antt =====
-- Sizes of a map, and how many of its values meet a test, after each change.
use rs_lxmf.Prelude.{
  ℕ, suc, ◌+◌, ◌≤◌, Bool, false, ◌≡◌, refl, Option, none, some, [], ◌∷◌, arith, Eq, if◌then◌else◌,
  length, count, ◌&&◌,
}
use rs_lxmf.Map.{Map, get, contains_key, insert, remove, retain, count_values, count_keys}
use rs_lxmf.Map.Laws.{get-insert, get-remove, get-retain}

abbrev pub hit {ℓ} : {A : Type ℓ} → (A → Bool) → Option A → ℕ
hit p none = 0
hit p (some a) = if p a then 1 else 0

-- Each key stands once.
abbrev pub IsDistinct {ℓ κ} : {K : Type ℓ} {V : Type κ} ⦃e : Eq K⦄ → Map K V → Type 0
IsDistinct [] = Unit {0}
IsDistinct ((k, v) ∷ m) = (contains_key k m ≡ false) × IsDistinct m

module _ {ℓ κ} {K : Type ℓ} {V : Type κ} ⦃e : Eq K⦄ where
  pub insert-IsDistinct : (k : K) (v : V) (m : Map K V) → IsDistinct m → IsDistinct (insert k v m)
  unfolding insert get
  insert-IsDistinct k v [] h = ground arith
  insert-IsDistinct k v ((j, w) ∷ m) h =
      ground (arith, e.beq_iff j k, e.beq_iff k j, get-insert k j v m, insert-IsDistinct k v m h.1)

  pub remove-IsDistinct : (k : K) (m : Map K V) → IsDistinct m → IsDistinct (remove k m)
  unfolding remove
  remove-IsDistinct k [] h = h
  remove-IsDistinct k ((j, w) ∷ m) h = ground (arith, get-remove k j m, remove-IsDistinct k m h.1)

  pub remove_absent : (k : K) (m : Map K V) → get k m ≡ none → remove k m ≡ m
  unfolding remove get
  remove_absent k [] h = refl
  remove_absent k ((j, w) ∷ m) h = ground (arith, remove_absent k m)

  pub retain-IsDistinct : (p : K → V → Bool) (m : Map K V) → IsDistinct m → IsDistinct (retain p m)
  unfolding retain
  retain-IsDistinct p [] h = h
  retain-IsDistinct p ((j, w) ∷ m) h = ground (
    arith,
    get-retain p j m,
    retain-IsDistinct p m h.1,
    remove-IsDistinct j (retain p m) (retain-IsDistinct p m h.1),
  )

  pub count-insert :
      (p : V → Bool) (k : K) (v : V) (m : Map K V)
      → count_values p (insert k v m) + hit p (get k m) ≡ count_values p m + (if p v then 1 else 0)
  unfolding insert get count_values
  count-insert p k v [] = ground arith
  count-insert p k v ((j, w) ∷ m) = ground (arith, count-insert p k v m)

  pub count-remove :
      (p : V → Bool) (k : K) (m : Map K V)
      → IsDistinct m
      → count_values p (remove k m) + hit p (get k m) ≡ count_values p m
  unfolding remove get count_values
  count-remove p k [] h = refl
  count-remove p k ((j, w) ∷ m) h =
      ground (arith, count-remove p k m h.1, e.beq_iff j k, remove_absent k m)

  pub length-insert :
      (k : K) (v : V) (m : Map K V)
      → length (insert k v m) ≡ (if contains_key k m then length m else suc (length m))
  unfolding insert get
  length-insert k v [] = refl
  length-insert k v ((j, w) ∷ m) = ground (arith, length-insert k v m)

  pub length-remove-le : (k : K) (m : Map K V) → length (remove k m) ≤ length m
  unfolding remove
  length-remove-le k [] = omega arith
  length-remove-le k ((j, w) ∷ m) = ground (arith, length-remove-le k m)

  pub length-retain-le : (p : K → V → Bool) (m : Map K V) → length (retain p m) ≤ length m
  unfolding retain
  length-retain-le p [] = omega arith
  length-retain-le p ((j, w) ∷ m) =
      ground (arith, length-retain-le p m, length-remove-le j (retain p m))

  pub count_keys-insert :
      (p : K → Bool) (k : K) (v : V) (m : Map K V)
      → count_keys p (insert k v m)
        ≡ (if contains_key k m then count_keys p m else count_keys p m + (if p k then 1 else 0))
  unfolding insert get count_keys
  count_keys-insert p k v [] = ground arith
  count_keys-insert p k v ((j, w) ∷ m) = ground (arith, count_keys-insert p k v m, e.beq_iff j k)

  pub count_keys-remove-le :
      (p : K → Bool) (k : K) (m : Map K V) → count_keys p (remove k m) ≤ count_keys p m
  unfolding remove count_keys
  count_keys-remove-le p k [] = omega arith
  count_keys-remove-le p k ((j, w) ∷ m) = ground (arith, count_keys-remove-le p k m)

  pub count_keys-retain-le :
      (p : K → Bool) (q : K → V → Bool) (m : Map K V) → count_keys p (retain q m) ≤ count_keys p m
  unfolding retain count_keys
  count_keys-retain-le p q [] = omega arith
  count_keys-retain-le p q ((j, w) ∷ m) =
      ground (arith, count_keys-retain-le p q m, count_keys-remove-le p j (retain q m))

  -- what a `retain` leaves, counted in the map itself
  retain_head_absent :
      (p : K → V → Bool) (j : K) (m : Map K V)
      → contains_key j m ≡ false
      → remove j (retain p m) ≡ retain p m
  retain_head_absent p j m h = remove_absent j (retain p m) (ground (arith, h, get-retain p j m))

  pub length-retain :
      (p : K → V → Bool) (m : Map K V)
      → IsDistinct m
      → length (retain p m) ≡ count (λ x. p x.0 x.1) m
  unfolding retain count
  length-retain p [] h = refl
  length-retain p ((j, w) ∷ m) h =
      ground (arith, length-retain p m h.1, retain_head_absent p j m h.0)

  pub count_keys-retain :
      (q : K → Bool) (p : K → V → Bool) (m : Map K V)
      → IsDistinct m
      → count_keys q (retain p m) ≡ count (λ x. p x.0 x.1 && q x.0) m
  unfolding retain count_keys count
  count_keys-retain q p [] h = refl
  count_keys-retain q p ((j, w) ∷ m) h =
      ground (arith, count_keys-retain q p m h.1, retain_head_absent p j m h.0)
