-- ===== src/Prelude/Words.antt =====
-- Fixed-width unsigned arithmetic as the standard library defines it.
use Prim.Native.Nat.{ℕ, ◌+◌, ◌*◌, min}
use native.Mathlib.Omega.{}

abbrev pub u8_max : ℕ
u8_max = 255

abbrev pub u16_max : ℕ
u16_max = 65535

abbrev pub u32_max : ℕ
u32_max = 4294967295

abbrev pub u64_max : ℕ
u64_max = 18446744073709551615

-- `usize` of the 64-bit targets
abbrev pub usize_max : ℕ
usize_max = u64_max

-- `Duration` in nanoseconds: `Duration::MAX` is u64::MAX seconds and 999_999_999 nanoseconds.
abbrev pub duration_max : ℕ
duration_max = u64_max * 1000000000 + 999999999

abbrev pub saturating_add : ℕ → ℕ → ℕ → ℕ
saturating_add width_max a b = min (a + b) width_max
