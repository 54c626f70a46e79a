-- ===== src/Stamps.antt =====
-- Proof-of-work stamps (crates/lxmf-core/src/stamper.rs). The hashes and the encoder of integers are
-- parameters, and the bytes of the random generator are arguments: `draws i` is draw `i`.
pub mod Threshold
pub mod Search
use rs_lxmf.Prelude.{
  ℕ, zero, suc, ◌+◌, ◌-◌, ◌*◌, ◌%◌, ◌^◌, Bool, true, false, Option, none, some, List, [], ◌∷◌, ◌++◌,
  nat_eq, nat_beq, ◌==◌, if◌then◌else◌, leb, ltb, length, take, Bytes, to_bytes,
}

pub record Hashes : Type 0 where
  pub sha256 : Bytes → Bytes
  pub full_hash : Bytes → Bytes
  pub hkdf_sha256 : ℕ → Bytes → Bytes → Bytes  -- length, material, salt
  pub pack_msgpack_uint : ℕ → Bytes

abbrev pub expand_rounds_message : ℕ
expand_rounds_message = 3000

abbrev pub expand_rounds_pn : ℕ
expand_rounds_pn = 1000

abbrev pub expand_rounds_peering : ℕ
expand_rounds_peering = 25

-- two destination hashes, a signature, a timestamp and the structure
abbrev pub lxmf_overhead : ℕ
lxmf_overhead = 2 * 16 + 64 + 8 + 8

-- `u8::leading_zeros`
unfoldable pub leading_zeros : ℕ → ℕ
leading_zeros b =
    if leb 128 b
    then 0
    else if leb 64 b
    then 1
    else if leb 32 b
    then 2
    else if leb 16 b
    then 3
    else if leb 8 b
    then 4
    else if leb 4 b
    then 5
    else if leb 2 b
    then 6
    else if leb 1 b
    then 7
    else 8

-- The count of a digest's bits is far from the end of u32.
unfoldable pub leading_zero_bits : Bytes → ℕ
unfolding leading_zeros
leading_zero_bits [] = 0
leading_zero_bits (b ∷ bs) =
    let rest = leading_zero_bits bs in if b == 0 then 8 + rest else leading_zeros b

-- `vec.drain(..n)`: what is behind the first `n`
unfoldable pub drop {ℓ} : {A : Type ℓ} → ℕ → List A → List A
drop zero xs = xs
drop (suc n) [] = []
drop (suc n) (x ∷ xs) = drop n xs

module _ (hs : Hashes) where
  open hs use {sha256, full_hash, hkdf_sha256, pack_msgpack_uint}

  -- the chunk of round `n`
  abbrev workblock_chunk : Bytes → ℕ → Bytes
  workblock_chunk material n = hkdf_sha256 256 material (sha256 (material ++ pack_msgpack_uint n))

  -- the rounds from `n` on, `count` of them
  unfoldable pub workblock_from : Bytes → ℕ → ℕ → Bytes
  workblock_from material n zero = []
  workblock_from material n (suc count) =
      workblock_chunk material n ++ workblock_from material (n + 1) count

  unfoldable pub stamp_workblock : Bytes → ℕ → Bytes
  unfolding workblock_from
  stamp_workblock material expand_rounds = workblock_from material 0 expand_rounds

  unfoldable pub stamp_value : Bytes → Bytes → ℕ
  unfolding leading_zero_bits
  stamp_value workblock stamp = leading_zero_bits (sha256 (workblock ++ stamp))

  unfoldable pub stamp_valid : Bytes → ℕ → Bytes → Bool
  unfolding stamp_value
  stamp_valid stamp cost workblock =
      if cost == 0 then true else leb cost (stamp_value workblock stamp)

  unfoldable pub validate_stamp : Bytes → Bytes → ℕ → ℕ → Bool
  unfolding stamp_workblock stamp_valid
  validate_stamp message_id stamp cost expand_rounds =
      stamp_valid stamp cost (stamp_workblock message_id expand_rounds)

  unfoldable pub validate_peering_key : Bytes → Bytes → ℕ → Bool
  unfolding stamp_workblock stamp_valid
  validate_peering_key peering_id peering_key target_cost =
      stamp_valid peering_key target_cost (stamp_workblock peering_id expand_rounds_peering)

  -- of what `validate_pn_stamp` returns
  pub record PropagationStampParts : Type 0 where
    pub transient_id : Bytes
    pub lxm_data : Bytes
    pub value : ℕ
    pub stamp : Bytes

  unfoldable pub validate_pn_stamp : Bytes → ℕ → Option PropagationStampParts
  unfolding stamp_workblock stamp_value take drop
  validate_pn_stamp transient_data target_cost =
      if leb (length transient_data) (lxmf_overhead + 32)
      then none
      else let split = length transient_data - 32 in
        let lxm_data = take split transient_data in
        let stamp = drop split transient_data in
        let transient_id = full_hash lxm_data in
        let value = stamp_value (stamp_workblock transient_id expand_rounds_pn) stamp in
        if ltb value target_cost
        then none
        else some (record {
          transient_id = transient_id;
          lxm_data = lxm_data;
          value = value;
          stamp = stamp;
        })

  unfoldable pub stamp_iteration_cap : ℕ → Option ℕ
  stamp_iteration_cap cost = if leb 58 cost then none else some (64 * 2 ^ cost % 2 ^ 64)

  -- the loop, with `left` iterations to go; `cancelled i` is the flag as iteration `i` would read it
  unfoldable pub search : (ℕ → Bool) → (ℕ → Bytes) → ℕ → Bytes → ℕ → ℕ → Option (Bytes × ℕ)
  unfolding stamp_value
  search cancelled draws cost workblock iteration zero = none
  search cancelled draws cost workblock iteration (suc left) =
      let rest = search cancelled draws cost workblock (iteration + 1) left in
      let stamp = draws iteration in
      let value = stamp_value workblock stamp in
      if (if iteration % 1000 == 0 then cancelled iteration else false)
      then none
      else if leb cost value
      then some (stamp, value)
      else rest

  unfoldable pub generate_stamp_cancellable :
      Bool → (ℕ → Bool) → (ℕ → Bytes) → Bytes → ℕ → ℕ → Option (Bytes × ℕ)
  unfolding stamp_iteration_cap search stamp_workblock
  generate_stamp_cancellable cancelled_first cancelled draws material cost expand_rounds =
      if cancelled_first
      then none
      else if cost == 0
      then some (to_bytes 32 0, 0)
      else elim (stamp_iteration_cap cost) [
        | none ↦ none
        | some max_iterations ↦
            search cancelled draws cost (stamp_workblock material expand_rounds) 0 max_iterations
      ]

  unfoldable pub generate_stamp : (ℕ → Bytes) → Bytes → ℕ → ℕ → Option (Bytes × ℕ)
  unfolding generate_stamp_cancellable
  generate_stamp draws material cost expand_rounds =
      generate_stamp_cancellable false (λ _. false) draws material cost expand_rounds
