-- ===== src/Prelude/Lists.antt =====
-- Lists measured by native numbers, filtered and searched by Boolean tests.
use Prim.Native.Nat.{ℕ, zero, suc, ◌+◌, ◌≤◌}
use mathlib.Core.Path.{◌≡◌, refl, ap}
use mathlib.Core.Logic.{inl, inr, ◌⊎◌}
use mathlib.Core.Bool.{Bool, true, false, ◌||◌}
use mathlib.Core.List.{List, [], ◌∷◌, ◌++◌}
use mathlib.Core.Option.{Option, none, some}
use native.Mathlib.Omega.{arith}
use rs_lxmf.Prelude.Tests.{Bool-cases, Eq, ◌==◌, if◌then◌else◌}

-- membership
pub data In {ℓ} {A : Type ℓ} (a : A) : List A → Type ℓ where
  here : {x : A} {xs : List A} → x ≡ a → In a (x ∷ xs)
  there : {x : A} {xs : List A} → In a xs → In a (x ∷ xs)

module _ {ℓ} {A : Type ℓ} where
  pub In-nil : {a : A} → In a [] → ⊥
  In-nil h = elim h [ ]

  pub In-cons : {a x : A} {xs : List A} → In a (x ∷ xs) → (x ≡ a) ⊎ In a xs
  In-cons (here e) = inl e
  In-cons (there h) = inr h

  abbrev pub length : List A → ℕ
  length [] = 0
  length (x ∷ xs) = suc (length xs)

  -- `iter().filter(p).collect()`, `retain(p)`
  unfoldable pub filter : (A → Bool) → List A → List A
  filter p [] = []
  filter p (x ∷ xs) = let rest = filter p xs in if p x then x ∷ rest else rest

  -- `iter().find(p)`
  unfoldable pub find : (A → Bool) → List A → Option A
  find p [] = none
  find p (x ∷ xs) = let rest = find p xs in if p x then some x else rest

  -- `iter().any(p)`
  unfoldable pub any : (A → Bool) → List A → Bool
  any p [] = false
  any p (x ∷ xs) = p x || any p xs

  -- `iter().filter(p).count()`
  unfoldable pub count : (A → Bool) → List A → ℕ
  count p [] = 0
  count p (x ∷ xs) = (if p x then 1 else 0) + count p xs

  unfoldable pub take : ℕ → List A → List A
  take zero xs = []
  take (suc n) [] = []
  take (suc n) (x ∷ xs) = x ∷ take n xs

  unfoldable pub get_elem? : List A → ℕ → Option A
  get_elem? [] i = none
  get_elem? (x ∷ xs) zero = some x
  get_elem? (x ∷ xs) (suc i) = get_elem? xs i

  -- a write out of bounds changes nothing
  unfoldable pub set : List A → ℕ → A → List A
  set [] i v = []
  set (x ∷ xs) zero v = v ∷ xs
  set (x ∷ xs) (suc i) v = x ∷ set xs i v

  -- `Vec::remove`
  unfoldable pub remove_at : ℕ → List A → List A
  remove_at i [] = []
  remove_at zero (x ∷ xs) = xs
  remove_at (suc i) (x ∷ xs) = x ∷ remove_at i xs

  -- `enumerate()`, from an index on
  unfoldable pub enumerate_from : ℕ → List A → List (ℕ × A)
  enumerate_from n [] = []
  enumerate_from n (x ∷ xs) = (n, x) ∷ enumerate_from (suc n) xs

  pub length-take-le : (n : ℕ) (xs : List A) → length (take n xs) ≤ n
  unfolding take
  length-take-le zero xs = omega arith
  length-take-le (suc n) [] = omega arith
  length-take-le (suc n) (x ∷ xs) = omega (arith, length-take-le n xs)

  pub In-filter : (p : A → Bool) (xs : List A) {a : A} → In a (filter p xs) → In a xs × (p a ≡ true)
  unfolding filter
  In-filter p [] h = (h, absurd (In-nil h))
  In-filter p (x ∷ xs) {a} h = elim (Bool-cases (p x)) [
    | inl e ↦ elim (In-cons (rw e at h)) [
      | inl same ↦ (here same, rw (← same) e)
      | inr later ↦ let q = In-filter p xs later in (there q.0, q.1)
    ]
    | inr e ↦ let q = In-filter p xs (rw e at h) in (there q.0, q.1)
  ]

  pub In-filter-back :
      (p : A → Bool) (xs : List A) {a : A} → In a xs → p a ≡ true → In a (filter p xs)
  unfolding filter
  In-filter-back p [] h e = h
  In-filter-back p (x ∷ xs) (here same) e = rw same (rw e (here refl))
  In-filter-back p (x ∷ xs) (there h) e = elim (Bool-cases (p x)) [
    | inl y ↦ rw y (there (In-filter-back p xs h e))
    | inr n ↦ rw n (In-filter-back p xs h e)
  ]

  pub find-In : (p : A → Bool) (xs : List A) {a : A} → find p xs ≡ some a → In a xs × (p a ≡ true)
  unfolding find
  find-In p [] h = absurd (ground arith)
  find-In p (x ∷ xs) h = elim (Bool-cases (p x)) [
    | inl e ↦ (here (ground arith), ground arith)
    | inr e ↦ let q = find-In p xs (ground arith) in (there q.0, q.1)
  ]

  pub In-append_last : (a : A) (xs : List A) → In a (xs ++ a ∷ [])
  In-append_last a [] = here refl
  In-append_last a (x ∷ xs) = there (In-append_last a xs)

  -- a miss in the list, and the last element is the first that fits
  pub find-append_last :
      (p : A → Bool) (a : A) (xs : List A)
      → find p xs ≡ none
      → p a ≡ true
      → find p (xs ++ a ∷ []) ≡ some a
  unfolding find
  find-append_last p a [] h e = ground arith
  find-append_last p a (x ∷ xs) h e = ground (arith, find-append_last p a xs)

  -- a weaker filter first changes nothing
  pub filter-filter :
      (p q : A → Bool) (xs : List A)
      → ((x : A) → p x ≡ true → q x ≡ true)
      → filter p (filter q xs) ≡ filter p xs
  unfolding filter
  filter-filter p q [] h = refl
  filter-filter p q (x ∷ xs) h = ground (arith, h x, filter-filter p q xs h)

  pub length-append : (xs ys : List A) → length (xs ++ ys) ≡ length xs + length ys
  length-append [] ys = omega arith
  length-append (x ∷ xs) ys = omega (arith, length-append xs ys)

  pub count-append : (p : A → Bool) (xs ys : List A) → count p (xs ++ ys) ≡ count p xs + count p ys
  unfolding count
  count-append p [] ys = omega arith
  count-append p (x ∷ xs) ys = omega (arith, count-append p xs ys)

  pub length-filter-le : (p : A → Bool) (xs : List A) → length (filter p xs) ≤ length xs
  unfolding filter
  length-filter-le p [] = omega arith
  length-filter-le p (x ∷ xs) = ground (arith, length-filter-le p xs)

-- an element of an enumerated list is found at its index
pub get_elem-enumerate {ℓ} :
    {A : Type ℓ} (n i : ℕ) (a : A) (xs : List A)
    → In (i, a) (enumerate_from n xs)
    → (k : ℕ) × (i ≡ n + k) × (get_elem? xs k ≡ some a)
unfolding enumerate_from get_elem?
get_elem-enumerate n i a [] h = elim h [ ]
get_elem-enumerate n i a (x ∷ xs) h = elim (In-cons h) [
  | inl e ↦ (0, omega (arith, ap (λ q. q.0) e), ap (λ q. some q.1) e)
  | inr later ↦
      let q = get_elem-enumerate (suc n) i a xs later in (suc q.0, omega (arith, q.1), q.2)
]

pub List-cases {ℓ} :
    {A : Type ℓ} (xs : List A) → (xs ≡ []) ⊎ ((y : A) × (ys : List A) × (xs ≡ y ∷ ys))
List-cases [] = inl refl
List-cases (x ∷ xs) = inr (x, xs, refl)

-- nothing is left of an enumerated list when nothing in it fits
pub any-enumerate {ℓ} :
    {A : Type ℓ} (p : A → Bool) (n : ℕ) (xs : List A)
    → filter (λ x. p x.1) (enumerate_from n xs) ≡ []
    → any p xs ≡ false
unfolding enumerate_from filter any
any-enumerate p n [] h = refl
any-enumerate p n (x ∷ xs) h = elim (Bool-cases (p x)) [
  | inl e ↦ absurd (ground arith)
  | inr e ↦ rw e (any-enumerate p (suc n) xs (rw e at h))
]

pub any-or {ℓ} :
    {A : Type ℓ} (p q r : A → Bool) (xs : List A)
    → ((x : A) → p x ≡ false → q x ≡ false → r x ≡ false)
    → any p xs ≡ false
    → any q xs ≡ false
    → any r xs ≡ false
unfolding any
any-or p q r [] h a b = refl
any-or p q r (x ∷ xs) h a b = ground (arith, h x, any-or p q r xs h)

pub In-enumerate {ℓ} :
    {A : Type ℓ} (n i : ℕ) (a : A) (xs : List A)
    → get_elem? xs i ≡ some a
    → In (n + i, a) (enumerate_from n xs)
unfolding get_elem? enumerate_from
In-enumerate n i a [] h = absurd (ground arith)
In-enumerate n zero a (x ∷ xs) h = here (ground arith)
In-enumerate n (suc i) a (x ∷ xs) h =
    let q = In-enumerate (suc n) i a xs h in there (rw (plus_suc n i) q)
  where
    plus_suc : (n i : ℕ) → n + suc i ≡ suc n + i
    plus_suc n i = omega arith

-- `HashSet` as a list of its members.
module _ {ℓ} {A : Type ℓ} ⦃e : Eq A⦄ where
  unfoldable pub contains : A → List A → Bool
  contains a [] = false
  contains a (x ∷ xs) = x == a || contains a xs
