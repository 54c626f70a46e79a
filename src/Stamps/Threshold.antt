-- ===== src/Stamps/Threshold.antt =====
-- The number of leading zero bits, as a bound on the number that the bytes spell
-- (crates/lxmf-core/src/stamper.rs).
use rs_lxmf.Prelude.{
  ℕ, suc, ◌+◌, ◌-◌, ◌*◌, ◌^◌, ◌≤◌, ◌<◌, ◌≡◌, ◌↔◌, ◌⊎◌, inl, inr, true, Bool-cases, [], ◌∷◌, ◌++◌,
  nat_eq, nat_beq, nat_beq_iff, leb, length, Bytes, spell, spell_from, arith,
}
use native.Mathlib.Nat.{pow-suc, one-le-pow, pow-le-pow_right, mul-le-mul_right, mul-le-mul_left}
use rs_lxmf.Stamps.{Hashes, leading_zeros, leading_zero_bits, stamp_value, stamp_valid}

abbrev pub AllBytes : Bytes → Type 0
AllBytes [] = Unit {0}
AllBytes (b ∷ bs) = (b < 256) × AllBytes bs

-- the zeros of a byte that is not 0
zeros_lem :
    (b : ℕ)
    → b < 256
    → 0 < b
    → ((b + 1) * 2 ^ leading_zeros b ≤ 256) × (256 ≤ b * 2 ^ (leading_zeros b + 1))
unfolding leading_zeros
zeros_lem b h pos = ground arith

distribute : (a b p : ℕ) → (a * 256 + b) * p ≡ a * (p * 256) + b * p
distribute a b p = omega arith

spell_cons : (acc : ℕ) (bs : Bytes) → spell_from acc bs ≡ acc * 256 ^ length bs + spell bs
unfolding spell_from
spell_cons acc [] = omega arith
spell_cons acc (b ∷ bs) = rw (pow-suc 256 (length bs)) (
    omega (
      arith,
      spell_cons (acc * 256 + b) bs,
      spell_cons (0 + b) bs,
      distribute acc b (256 ^ length bs),
    ))

byte_le : (b : ℕ) → b < 256 → b + 1 ≤ 256
byte_le b h = omega (arith, h)

spell_first : (b : ℕ) (bs : Bytes) → spell_from (0 + b) bs ≡ b * 256 ^ length bs + spell bs
spell_first b bs = omega (arith, spell_cons (0 + b) bs, unit (256 ^ length bs))
  where
    unit : (n : ℕ) → (0 + b) * n ≡ b * n
    unit n = omega arith

spell-lt : (bs : Bytes) → AllBytes bs → spell bs < 256 ^ length bs
unfolding spell_from
spell-lt [] h = omega arith
spell-lt (b ∷ bs) h = rw (pow-suc 256 (length bs)) (
    omega (
      arith,
      spell_cons (0 + b) bs,
      spell-lt bs h.1,
      mul-le-mul_right (256 ^ length bs) (byte_le b h.0),
    ))

le-cases : (a b : ℕ) → (a ≤ b) ⊎ (b + 1 ≤ a)
le-cases a b = elim (Bool-cases (leb a b)) [
  | inl e ↦ inl (ground arith)
  | inr e ↦ inr (ground arith)
]

-- a byte that decides: `n` and `s` are the size and the number of what follows it
module _ (b n s : ℕ) (small : s < n) where
  below : (p q : ℕ) → (b + 1) * p ≤ 256 → 1 ≤ p → q ≤ p → (b * n + s) * q < n * 256
  below p q h pos le = omega (
    arith,
    mul-le-mul_left (b * n + s) le,
    mul-le-mul_right p (full small),
    mul-le-mul_right n h,
    swap (b + 1) n p,
  )
    where
      full : s < n → b * n + s + 1 ≤ (b + 1) * n
      full h = omega arith

      swap : (x y z : ℕ) → x * y * z ≡ x * z * y
      swap x y z = omega arith

  above : (p q : ℕ) → 256 ≤ b * p → p ≤ q → n * 256 ≤ (b * n + s) * q
  above p q h le =
      omega
        (arith, mul-le-mul_left b le, mul-le-mul_right n (more h (mul-le-mul_left b le)), split s)
    where
      more : 256 ≤ b * p → b * p ≤ b * q → 256 ≤ b * q
      more h l = omega arith

      split : (s : ℕ) → (b * n + s) * q ≡ b * q * n + s * q
      split s = omega arith

  decided :
      (z c : ℕ)
      → ((b + 1) * 2 ^ z ≤ 256) × (256 ≤ b * 2 ^ (z + 1))
      → (c ≤ z) ↔ ((b * n + s) * 2 ^ c < n * 256)
  decided z c h = (
    λ le.
        below (2 ^ z) (2 ^ c) h.0 (one-le-pow z 2 (omega arith))
          (pow-le-pow_right (omega arith) le),
    λ less. elim (le-cases c z) [
      | inl le ↦ le
      | inr gt ↦
          absurd (
            omega
              (arith, less, above (2 ^ (z + 1)) (2 ^ c) h.1 (pow-le-pow_right (omega arith) gt)))
    ],
  )

pow_next : (d e : ℕ) → e ≡ suc d → 2 ^ e ≡ 2 ^ d * 2
pow_next d e h = rw h (pow-suc 2 d)

pow_eight : (c : ℕ) → 2 ^ (c + 8) ≡ 2 ^ c * 256
pow_eight c = omega (
  arith,
  pow_next c (c + 1) (omega arith),
  pow_next (c + 1) (c + 2) (omega arith),
  pow_next (c + 2) (c + 3) (omega arith),
  pow_next (c + 3) (c + 4) (omega arith),
  pow_next (c + 4) (c + 5) (omega arith),
  pow_next (c + 5) (c + 6) (omega arith),
  pow_next (c + 6) (c + 7) (omega arith),
  pow_next (c + 7) (c + 8) (omega arith),
)

no_digit : (n s : ℕ) → 0 * n + s ≡ s
no_digit n s = omega arith

-- a zero byte: `r` zeros follow it
skipped :
    (r s n c : ℕ)
    → s < n
    → (8 ≤ c → (c - 8 ≤ r) ↔ (s * 2 ^ (c - 8) < n))
    → (c ≤ 8 + r) ↔ (s * 2 ^ c < n * 256)
skipped r s n c small next = elim (le-cases 8 c) [
  | inl past ↦
      let e : c ≡ (c - 8) + 8 = omega (arith, past) in
      let power : s * 2 ^ c ≡ s * 2 ^ (c - 8) * 256 = scaled (c - 8) e in
      (
        λ le. omega (arith, power, (next past).0 (omega (arith, le))),
        λ less. omega (arith, e, (next past).1 (omega (arith, power, less))),
      )
  | inr early ↦ (
    λ _. omega (
      arith,
      small,
      mul-le-mul_left s (pow-le-pow_right {n = 2} (omega arith) (below_eight early)),
    ),
    λ _. omega (arith, early),
  )
]
  where
    below_eight : c + 1 ≤ 8 → c ≤ 8
    below_eight h = omega arith

    scaled : (d : ℕ) → c ≡ d + 8 → s * 2 ^ c ≡ s * 2 ^ d * 256
    scaled d e = rw e (rw (pow_eight d) (omega arith))

leading_zero_bits_lem :
    (bs : Bytes) (c : ℕ)
    → AllBytes bs
    → c ≤ 8 * length bs
    → (c ≤ leading_zero_bits bs) ↔ (spell bs * 2 ^ c < 256 ^ length bs)
unfolding leading_zero_bits spell_from
leading_zero_bits_lem [] c h few = (λ _. omega arith, λ _. few)
leading_zero_bits_lem (b ∷ bs) c h few = rw (pow-suc 256 (length bs)) (
    rw (spell_first b bs) (elim (Bool-cases (nat_beq b 0)) [
      | inl zeroed ↦ rw zeroed (
          rw ((nat_beq_iff b 0).0 zeroed) (
            rw no_digit (
              skipped (leading_zero_bits bs) (spell bs) (256 ^ length bs) c (spell-lt bs h.1)
                (λ past. leading_zero_bits_lem bs (c - 8) h.1 (omega (arith, few))))))
      | inr decides ↦ rw decides (
          decided b (256 ^ length bs) (spell bs) (spell-lt bs h.1) (leading_zeros b) c
            (zeros_lem b h.0 (ground (arith, decides))))
    ]))

module _ (hs : Hashes) where
  -- A stamp is valid at a cost exactly when the digest, read as a number, is below 2 to the number
  -- of its bits less the cost. The digest is of bytes and has at least as many bits as the cost.
  -- Python's test also takes equality, as the file says.
  pub stamp_valid_lem :
      (stamp : Bytes) (cost : ℕ) (workblock : Bytes)
      → let digest = hs.sha256 (workblock ++ stamp) in
        AllBytes digest
        → cost ≤ 8 * length digest
        → (stamp_valid hs stamp cost workblock ≡ true)
          ↔ (spell digest * 2 ^ cost < 256 ^ length digest)
  unfolding stamp_valid stamp_value
  stamp_valid_lem stamp cost workblock h few =
      let e = leading_zero_bits_lem (hs.sha256 (workblock ++ stamp)) cost h few in
      (λ v. e.0 (ground (arith, v)), λ l. ground (arith, e.1 l))
