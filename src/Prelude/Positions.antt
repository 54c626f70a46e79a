-- ===== src/Prelude/Positions.antt =====
-- The element behind the first part of a list: read, replaced, removed.
use Prim.Native.Nat.{suc}
use mathlib.Core.Path.{◌≡◌, refl, ap}
use mathlib.Core.List.{List, [], ◌∷◌, ◌++◌, append_assoc}
use mathlib.Core.Option.{some, none}
use native.Mathlib.Omega.{arith}
use rs_lxmf.Prelude.Lists.{length, length-append, get_elem?, set, remove_at}

module _ {ℓ} {A : Type ℓ} where
  pub get_elem-append :
      (front : List A) (x : A) (rest : List A)
      → get_elem? (front ++ x ∷ rest) (length front) ≡ some x
  unfolding get_elem?
  get_elem-append [] x rest = refl
  get_elem-append (y ∷ front) x rest = get_elem-append front x rest

  pub get_elem-end : (front : List A) → get_elem? (front ++ []) (length front) ≡ none
  unfolding get_elem?
  get_elem-end [] = refl
  get_elem-end (y ∷ front) = get_elem-end front

  pub remove_at-append :
      (front : List A) (x : A) (rest : List A)
      → remove_at (length front) (front ++ x ∷ rest) ≡ front ++ rest
  unfolding remove_at
  remove_at-append [] x rest = refl
  remove_at-append (y ∷ front) x rest = ap (λ l. y ∷ l) (remove_at-append front x rest)

  pub set-append :
      (front : List A) (x x' : A) (rest : List A)
      → set (front ++ x ∷ rest) (length front) x' ≡ front ++ x' ∷ rest
  unfolding set
  set-append [] x x' rest = refl
  set-append (y ∷ front) x x' rest = ap (λ l. y ∷ l) (set-append front x x' rest)

  pub length-snoc : (front : List A) (x : A) → length (front ++ x ∷ []) ≡ suc (length front)
  length-snoc front x = omega (arith, length-append front (x ∷ []))

  -- an element moves from one list to the other
  pub cons-snoc :
      (front : List A) (x : A) (rest : List A) → (front ++ x ∷ []) ++ rest ≡ front ++ x ∷ rest
  cons-snoc front x rest = append_assoc front (x ∷ []) rest
