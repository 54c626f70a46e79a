-- ===== src/Stamps/Search.antt =====
-- The search for a stamp finds the first good draw (crates/lxmf-core/src/stamper.rs).
use rs_lxmf.Prelude.{
  ℕ, zero, suc, ◌+◌, ◌*◌, ◌%◌, ◌^◌, ◌≤◌, ◌<◌, ◌≡◌, ◌⊎◌, inl, inr, Bool, true, false, Bool-cases,
  Option, some, none, nat_eq, nat_beq, ◌==◌, if◌then◌else◌, refl, sym, leb, Bytes, arith,
}
use native.Mathlib.Nat.{pow-le-pow_right}
use rs_lxmf.Stamps.{
  Hashes, stamp_value, stamp_valid, stamp_workblock, validate_stamp, search, stamp_iteration_cap,
  generate_stamp_cancellable, generate_stamp,
}

pair_of {ℓ} :
    {A B : Type ℓ} {a c : A} {b d : B}
    → ◌≡◌ {A = Option (A × B)} (some (a, b)) (some (c, d))
    → (a ≡ c) × (b ≡ d)
pair_of h = (ground arith, ground arith)

module _ (hs : Hashes) where
  -- the values that a search accepts
  accepted :
      (stamp : Bytes) (cost : ℕ) (workblock : Bytes)
      → leb cost (stamp_value hs workblock stamp) ≡ true
      → stamp_valid hs stamp cost workblock ≡ true
  unfolding stamp_valid
  accepted stamp cost workblock h = ground (arith, h)

  found-stamp_valid :
      (cancelled : ℕ → Bool) (draws : ℕ → Bytes) (cost : ℕ) (workblock : Bytes) (i left : ℕ)
      (stamp : Bytes) (value : ℕ)
      → search hs cancelled draws cost workblock i left ≡ some (stamp, value)
      → (stamp_valid hs stamp cost workblock ≡ true) × (value ≡ stamp_value hs workblock stamp)
  unfolding search
  found-stamp_valid cancelled draws cost workblock i zero stamp value h = absurd (ground arith)
  found-stamp_valid cancelled draws cost workblock i (suc left) stamp value h =
      elim (Bool-cases (if i % 1000 == 0 then cancelled i else false)) [
        | inl stopped ↦ absurd (ground (arith, rw (stopped, search) at h))
        | inr on ↦ elim (Bool-cases (leb cost (stamp_value hs workblock (draws i)))) [
          | inl good ↦
              let p = pair_of (rw (good, search) at (rw (on, search) at h)) in
              rw (← p.0) (accepted (draws i) cost workblock good, sym p.1)
          | inr bad ↦
              found-stamp_valid cancelled draws cost workblock (i + 1) left stamp value
                (rw (bad, search) at (rw (on, search) at h))
        ]
      ]

  -- A stamp that the search gives is valid for the material at the cost and the number of rounds
  -- that it was made for, whatever the draws, the cancellations and the cost.
  pub generate_stamp-validate :
      (cancelled_first : Bool) (cancelled : ℕ → Bool) (draws : ℕ → Bytes) (material : Bytes)
      (cost rounds : ℕ) (stamp : Bytes) (value : ℕ)
      → generate_stamp_cancellable hs cancelled_first cancelled draws material cost rounds
        ≡ some (stamp, value)
      → validate_stamp hs material stamp cost rounds ≡ true
  unfolding generate_stamp_cancellable validate_stamp stamp_valid stamp_iteration_cap
  generate_stamp-validate true cancelled draws material cost rounds stamp value h =
      absurd (ground arith)
  generate_stamp-validate false cancelled draws material cost rounds stamp value h =
      elim (Bool-cases (nat_beq cost 0)) [
        | inl free ↦ rw free refl
        | inr charged ↦ elim (Bool-cases (leb 58 cost)) [
          | inl high ↦ absurd (ground (arith, rw high at (rw charged at h)))
          | inr low ↦
              (found-stamp_valid cancelled draws cost (stamp_workblock hs material rounds) 0
                (64 * 2 ^ cost % 2 ^ 64) stamp value (rw low at (rw charged at h))).0
        ]
      ]

  module _ (draws : ℕ → Bytes) (cost : ℕ) (workblock : Bytes) where
    abbrev pub is_good : ℕ → Bool
    is_good i = leb cost (stamp_value hs workblock (draws i))

    -- none of the `n` draws from draw `i` on is good
    abbrev pub AllBad : ℕ → ℕ → Type 0
    AllBad i n = (k : ℕ) → k < n → is_good (i + k) ≡ false

    -- what an uncancelled search of `left` draws from draw `i` on ends with
    abbrev pub Exhausts : ℕ → ℕ → Option (Bytes × ℕ) → Type 0
    Exhausts i left result =
        ((result ≡ none) × AllBad i left)
        ⊎ ((k : ℕ) × (k < left)
            × (is_good (i + k) ≡ true)
            × AllBad i k
            × (result ≡ some (draws (i + k), stamp_value hs workblock (draws (i + k)))))

    index_zero : (i : ℕ) → i + 0 ≡ i
    index_zero i = omega arith

    index_suc : (i k : ℕ) → i + suc k ≡ i + 1 + k
    index_suc i k = omega arith

    AllBad-suc : (i n : ℕ) → is_good i ≡ false → AllBad (i + 1) n → AllBad i (suc n)
    AllBad-suc i n bad rest zero l = rw (index_zero i) bad
    AllBad-suc i n bad rest (suc k) l = rw (index_suc i k) (rest k (omega (arith, l)))

    Exhausts-suc :
        (i left : ℕ) (result : Option (Bytes × ℕ))
        → is_good i ≡ false
        → Exhausts (i + 1) left result
        → Exhausts i (suc left) result
    Exhausts-suc i left result bad (inl (e, all)) = inl (e, AllBad-suc i left bad all)
    Exhausts-suc i left result bad (inr (k, l, good, all, e)) = inr (
      suc k,
      omega (arith, l),
      rw (index_suc i k) good,
      AllBad-suc i k bad all,
      rw (index_suc i k) e,
    )

    search-Exhausts :
        (i left : ℕ) → Exhausts i left (search hs (λ _. false) draws cost workblock i left)
    unfolding search
    search-Exhausts i zero = inl (refl, λ k l. absurd (omega (arith, l)))
    search-Exhausts i (suc left) = elim (Bool-cases (nat_beq (i % 1000) 0)) [
      | inl polled ↦ rw polled (go (Bool-cases (is_good i)) (search-Exhausts (i + 1) left))
      | inr unpolled ↦ rw unpolled (go (Bool-cases (is_good i)) (search-Exhausts (i + 1) left))
    ]
      where
        go :
            (is_good i ≡ true) ⊎ (is_good i ≡ false)
            → Exhausts (i + 1) left (search hs (λ _. false) draws cost workblock (i + 1) left)
            → Exhausts i (suc left) (
                if is_good i
                then some (draws i, stamp_value hs workblock (draws i))
                else search hs (λ _. false) draws cost workblock (i + 1) left)
        go (inl good) next = rw good (
            inr (
              0,
              omega arith,
              rw (index_zero i) good,
              (λ k l. absurd (omega (arith, l))),
              rw (index_zero i) refl,
            ))
        go (inr bad) next = rw bad (Exhausts-suc i left _ bad next)

  capped : (cost : ℕ) → cost < 58 → 64 * 2 ^ cost % 2 ^ 64 ≡ 64 * 2 ^ cost
  capped cost h = omega (arith, pow-le-pow_right {n = 2} (omega arith) (below h))
    where
      below : cost < 58 → cost ≤ 57
      below h = omega (arith, h)

  -- An uncancelled search at a cost from 1 to 57 ends after at most 64 * 2^cost draws: with the
  -- first draw whose value reaches the cost, and that value, or with nothing if no draw does.
  pub generate_stamp-Exhausts :
      (draws : ℕ → Bytes) (material : Bytes) (cost rounds : ℕ)
      → 0 < cost
      → cost < 58
      → Exhausts draws cost
          (stamp_workblock hs material rounds)
          0
          (64 * 2 ^ cost)
          (generate_stamp hs draws material cost rounds)
  unfolding generate_stamp generate_stamp_cancellable stamp_iteration_cap
  generate_stamp-Exhausts draws material cost rounds pos low =
      let charged : nat_beq cost 0 ≡ false = ground (arith, pos) in
      let small : leb 58 cost ≡ false = ground (arith, low) in
      rw charged (
        rw small (
          rw (capped cost low)
            (search-Exhausts draws cost (stamp_workblock hs material rounds) 0 (64 * 2 ^ cost))))
