-- ===== src/Offers/RoundTrip.antt =====
-- The offer that a peer sends (crates/lxmf-core/src/propagation_sync.rs) is the one that is decoded
-- (crates/lxmf-core/src/propagation_offer.rs).
use rs_lxmf.Prelude.{
  ℕ, zero, suc, ◌*◌, ◌/◌, ◌^◌, ◌≤◌, ◌<◌, ◌≡◌, ◌⊎◌, inl, inr, false, some, List, [], ◌∷◌, ◌++◌, map,
  nat_eq, ◌==◌, if◌then◌else◌, refl, ap, ◌∙◌, length, length-append, take, Bytes, spell, to_bytes,
  spell-to_bytes, length-to_bytes, arith, ok, ltb,
}
use mathlib.Core.List.{append_assoc}
use rs_lxmf.Stamps.{drop}
use rs_lxmf.Sync.{SyncOffer}
use rs_lxmf.Offers.{
  Reader, decode, decode_fields, decode_array, decode_ids, decoded_key, DecodedPeeringKey, empty,
  key,
}

-- the headers that `rmpv::encode` writes
pub record Writer : Type 0 where
  pub array_len : ℕ → Bytes
  pub bin_len : ℕ → Bytes

-- What MessagePack promises of them: a reader finds the length and what follows, and the header of a
-- non-empty array has a byte, that of a binary value two.
pub record IsCodec (wr : Writer) (rd : Reader) : Type 0 where
  pub array_read :
      (n : ℕ) (rest : Bytes)
      → n < 2 ^ 32
      → rd.read_array_len (wr.array_len n ++ rest) ≡ some (n, rest)
  pub bin_read :
      (n : ℕ) (rest : Bytes) → n < 2 ^ 32 → rd.read_bin_len (wr.bin_len n ++ rest) ≡ some (n, rest)
  pub bin_size : (n : ℕ) → 2 ≤ length (wr.bin_len n)

module _ {A : Type 0} where
  take-append : (n : ℕ) (xs ys : List A) → length xs ≡ n → take n (xs ++ ys) ≡ xs
  unfolding take
  take-append zero [] ys h = refl
  take-append zero (x ∷ xs) ys h = absurd (omega (arith, h))
  take-append (suc n) [] ys h = absurd (omega (arith, h))
  take-append (suc n) (x ∷ xs) ys h = ap (λ l. x ∷ l) (take-append n xs ys (omega (arith, h)))

  drop-append : (n : ℕ) (xs ys : List A) → length xs ≡ n → drop n (xs ++ ys) ≡ ys
  unfolding drop
  drop-append zero [] ys h = refl
  drop-append zero (x ∷ xs) ys h = absurd (omega (arith, h))
  drop-append (suc n) [] ys h = absurd (omega (arith, h))
  drop-append (suc n) (x ∷ xs) ys h = drop-append n xs ys (omega (arith, h))

-- `Value::Binary`
abbrev pub binary : Writer → Bytes → Bytes
binary wr b = wr.bin_len (length b) ++ b

unfoldable pub encode_ids : Writer → List Bytes → Bytes
encode_ids wr [] = []
encode_ids wr (id ∷ ids) = binary wr id ++ encode_ids wr ids

unfoldable pub encode_offer : Writer → SyncOffer → Bytes
unfolding encode_ids
encode_offer wr offer =
    wr.array_len 2
    ++ (binary wr offer.peering_key
        ++ (wr.array_len (length offer.transient_ids) ++ encode_ids wr offer.transient_ids))

-- what a key is decoded to
abbrev pub key_of : Bytes → DecodedPeeringKey
key_of k = if length k == 0 then empty else key k

short : (k : Bytes) → (length k ≡ 0) ⊎ (length k ≡ 32) → length k < 2 ^ 32
short k (inl e) = rw e (omega arith)
short k (inr e) = rw e (omega arith)

decoded_key_lem :
    (k rest : Bytes)
    → (length k ≡ 0) ⊎ (length k ≡ 32)
    → decoded_key (length k) (k ++ rest) ≡ key_of k
decoded_key_lem k rest (inl e) = rw e refl
decoded_key_lem k rest (inr e) = rw e (ap (λ q. key q) (take-append 32 k rest e))

length-map : {A B : Type 0} (f : A → B) (xs : List A) → length (map f xs) ≡ length xs
length-map f [] = refl
length-map f (x ∷ xs) = omega (arith, length-map f xs)

abbrev pub AllSmall : List ℕ → Type 0
AllSmall [] = Unit {0}
AllSmall (id ∷ ids) = (id < 256 ^ 32) × AllSmall ids

module _ (wr : Writer) (rd : Reader) (codec : IsCodec wr rd) where
  binary_read :
      (b rest : Bytes)
      → length b < 2 ^ 32
      → rd.read_bin_len (binary wr b ++ rest) ≡ some (length b, b ++ rest)
  binary_read b rest h =
      rw (append_assoc (wr.bin_len (length b)) b rest) (codec.bin_read (length b) (b ++ rest) h)

  decode_one :
      (count : ℕ) (b rest : Bytes) (ids : List ℕ)
      → length b ≡ 32
      → decode_ids rd count rest ≡ some (ids, [])
      → decode_ids rd (suc count) (binary wr b ++ rest) ≡ some (spell b ∷ ids, [])
  unfolding decode_ids
  decode_one count b rest ids size h =
      let long : ltb (length (b ++ rest)) 32 ≡ false = ground (arith, length-append b rest, size) in
      rw (binary_read b rest (rw size (omega arith)), decode_ids)
        (rw size
          (rw long (rw (drop-append 32 b rest size) (rw h (rw (take-append 32 b rest size) refl)))))

  decode_ids-encode :
      (ids : List ℕ)
      → AllSmall ids
      → decode_ids rd (length ids) (encode_ids wr (map (to_bytes 32) ids)) ≡ some (ids, [])
  unfolding decode_ids encode_ids
  decode_ids-encode [] h = refl
  decode_ids-encode (id ∷ ids) h =
      decode_one (length ids) (to_bytes 32 id) (encode_ids wr (map (to_bytes 32) ids)) ids
        (length-to_bytes 32 id) (decode_ids-encode ids h.1)
      ∙ ap (λ x. some (x ∷ ids, [])) (spell-to_bytes 32 id h.0)

  size_ids : (ids : List ℕ) → 34 * length ids ≤ length (encode_ids wr (map (to_bytes 32) ids))
  unfolding encode_ids
  size_ids [] = omega arith
  size_ids (id ∷ ids) =
      let b = to_bytes 32 id in
      let rest = encode_ids wr (map (to_bytes 32) ids) in
      omega (
        arith,
        size_ids ids,
        length-append (binary wr b) rest,
        length-append (wr.bin_len (length b)) b,
        length-to_bytes 32 id,
        codec.bin_size (length b),
      )

  decode_array-encode :
      (ids : List ℕ)
      → AllSmall ids
      → length ids < 2 ^ 32
      → decode_array rd (wr.array_len (length ids) ++ encode_ids wr (map (to_bytes 32) ids))
        ≡ some ids
  unfolding decode_array
  decode_array-encode ids h few =
      let rest = encode_ids wr (map (to_bytes 32) ids) in
      let fits : ltb (length rest / 34) (length ids) ≡ false = ground (arith, size_ids ids) in
      rw (codec.array_read (length ids) rest few, decode_array)
        (rw fits (rw (decode_ids-encode ids h) refl))

  decode_fields-encode :
      (k : Bytes) (ids : List ℕ)
      → (length k ≡ 0) ⊎ (length k ≡ 32)
      → AllSmall ids
      → length ids < 2 ^ 32
      → decode_fields rd
          (binary wr k ++ (wr.array_len (length ids) ++ encode_ids wr (map (to_bytes 32) ids)))
        ≡ some (record { peering_key = key_of k; transient_ids = ids })
  unfolding decode_fields
  decode_fields-encode k ids size h few =
      let rest = wr.array_len (length ids) ++ encode_ids wr (map (to_bytes 32) ids) in
      let long : ltb (length (k ++ rest)) (length k) ≡ false =
        ground (arith, length-append k rest) in
      rw (binary_read k rest (short k size), decode_fields)
        (rw long (
          rw (drop-append (length k) k rest refl) (
            rw (decode_array-encode ids h few) (
              ap (λ q. some (record { peering_key = q; transient_ids = ids }))
                (decoded_key_lem k rest size)))))

  -- The offer that a peer sends is decoded to its key and ids: for an empty key or one of 32 bytes,
  -- ids of 32 bytes, fewer than 2^32 of them, an encoding within the limit, and a codec that reads
  -- back the headers it writes.
  pub decode-encode_offer :
      (k : Bytes) (ids : List ℕ) (max_offer_size : ℕ)
      → (length k ≡ 0) ⊎ (length k ≡ 32)
      → AllSmall ids
      → length ids < 2 ^ 32
      → let sent =
          encode_offer wr (record { peering_key = k; transient_ids = map (to_bytes 32) ids }) in
        length sent ≤ max_offer_size
        → decode rd sent max_offer_size
          ≡ ok (record { peering_key = key_of k; transient_ids = ids })
  unfolding decode encode_offer
  decode-encode_offer k ids max_offer_size size h few fits =
      let rest =
        binary wr k ++ (wr.array_len (length ids) ++ encode_ids wr (map (to_bytes 32) ids)) in
      let within : ltb max_offer_size (length (wr.array_len 2 ++ rest)) ≡ false =
        ground (arith, rw (length-map (to_bytes 32) ids) at fits) in
      rw (length-map (to_bytes 32) ids) (
        rw within (
          rw (codec.array_read 2 rest (omega arith), decode)
            (rw (decode_fields-encode k ids size h few) refl)))
