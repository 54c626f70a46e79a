-- ===== src/Prelude/ByteStrings.antt =====
-- Byte strings, with the equality of slices and arrays.
use Prim.Native.Nat.{ℕ, zero, suc, ◌+◌, ◌*◌, ◌/◌, ◌%◌, ◌^◌, ◌<◌}
use native.Mathlib.Nat.{pow-suc}
use mathlib.Core.Path.{◌≡◌, refl, ◌∙◌}
use mathlib.Core.Logic.{◌↔◌}
use mathlib.Core.Bool.{Bool, true, false, ◌&&◌}
use mathlib.Core.List.{List, [], ◌∷◌, ◌++◌}
use native.Mathlib.Omega.{arith}
use rs_lxmf.Prelude.Lists.{length, length-append}
use rs_lxmf.Prelude.Tests.{Eq, nat_beq, nat_beq_iff}

abbrev pub Bytes : Type 0
Bytes = List ℕ

unfoldable pub bytes_beq : Bytes → Bytes → Bool
bytes_beq [] [] = true
bytes_beq (x ∷ xs) (y ∷ ys) = nat_beq x y && bytes_beq xs ys
bytes_beq _ _ = false

pub bytes_beq_iff : (xs ys : Bytes) → (bytes_beq xs ys ≡ true) ↔ (xs ≡ ys)
unfolding bytes_beq
bytes_beq_iff [] [] = ground arith
bytes_beq_iff [] (y ∷ ys) = ground arith
bytes_beq_iff (x ∷ xs) [] = ground arith
bytes_beq_iff (x ∷ xs) (y ∷ ys) = ground (arith, bytes_beq_iff xs ys, nat_beq_iff x y)

instance abbrev pub bytes_eq : Eq Bytes
bytes_eq = record { beq = bytes_beq; beq_iff = bytes_beq_iff }

-- The big-endian number of a byte string, and the bytes of a number: an array `[u8; n]` as a number.
unfoldable pub spell_from : ℕ → Bytes → ℕ
spell_from acc [] = acc
spell_from acc (b ∷ bs) = spell_from (acc * 256 + b) bs

abbrev pub spell : Bytes → ℕ
spell bs = spell_from 0 bs

unfoldable pub to_bytes : ℕ → ℕ → Bytes
to_bytes zero x = []
to_bytes (suc n) x = to_bytes n (x / 256) ++ (x % 256) ∷ []

spell_from-append :
    (acc : ℕ) (xs : Bytes) (b : ℕ) → spell_from acc (xs ++ b ∷ []) ≡ spell_from acc xs * 256 + b
unfolding spell_from
spell_from-append acc [] b = refl
spell_from-append acc (x ∷ xs) b = spell_from-append (acc * 256 + x) xs b

pub spell-to_bytes : (n x : ℕ) → x < 256 ^ n → spell (to_bytes n x) ≡ x
unfolding to_bytes spell_from
spell-to_bytes zero x h = omega arith
spell-to_bytes (suc n) x h =
    let q : x < 256 ^ n * 256 = rw (← pow-suc 256 n) h in
    spell_from-append 0 (to_bytes n (x / 256)) (x % 256)
    ∙ omega (arith, spell-to_bytes n (x / 256) (omega arith))

pub length-to_bytes : (n x : ℕ) → length (to_bytes n x) ≡ n
unfolding to_bytes
length-to_bytes zero x = refl
length-to_bytes (suc n) x =
    length-append (to_bytes n (x / 256)) ((x % 256) ∷ [])
    ∙ omega (arith, length-to_bytes n (x / 256))
