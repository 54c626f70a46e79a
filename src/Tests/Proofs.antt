-- ===== src/Tests/Proofs.antt =====
-- Stamps and offers of crates/lxmf-core/src/stamper.rs and propagation_offer.rs on concrete inputs.
use rs_lxmf.Prelude.{
  ℕ, ◌<◌, ◌≤◌, ◌-◌, nat_beq, ◌*◌, ◌^◌, ◌≡◌, ◌↔◌, ◌⊎◌, inl, Bool, true, false, not, Option, some,
  none, [], ◌∷◌, refl, length, arith, spell, Bytes, to_bytes, map, filter, ok, err,
}
use rs_lxmf.Offers.{
  Reader, DecodedOffer, empty, evaluate_decoded, PnOfferEvaluation, want_some, invalid_key,
  key_valid, decode,
}
use rs_lxmf.Offers.RoundTrip.{
  Writer, IsCodec, encode_offer, encode_ids, key_of, decode-encode_offer,
}
use rs_lxmf.Offers.Wanted.{asked, IsProper, evaluate_decoded_lem}
use rs_lxmf.Stamps.{
  Hashes, stamp_valid, generate_stamp, generate_stamp_cancellable, validate_stamp, stamp_workblock,
  stamp_value, search, stamp_iteration_cap, leading_zero_bits,
}
use rs_lxmf.Stamps.Search.{Exhausts, generate_stamp-validate, generate_stamp-Exhausts}
use rs_lxmf.Stamps.Threshold.{stamp_valid_lem}

-- a hash that gives the last byte and a zero
abbrev last_byte : Bytes → Bytes
last_byte [] = 255 ∷ 0 ∷ []
last_byte (b ∷ []) = b ∷ 0 ∷ []
last_byte (b ∷ c ∷ bs) = last_byte (c ∷ bs)

abbrev toy : Hashes
toy = record {
  sha256 = last_byte;
  full_hash = last_byte;
  hkdf_sha256 = λ n material salt. salt;
  pack_msgpack_uint = λ n. n ∷ [];
}

stamp_valid_lem_example :
    (stamp_valid toy (9 ∷ []) 4 (1 ∷ []) ≡ true) ↔ (spell (9 ∷ 0 ∷ []) * 2 ^ 4 < 256 ^ 2)
stamp_valid_lem_example =
    stamp_valid_lem toy (9 ∷ []) 4 (1 ∷ []) (omega arith, (omega arith, tt)) (omega arith)

-- the draws count down
abbrev draws : ℕ → Bytes
draws i = (20 - i) ∷ []

generate_runs :
    generate_stamp_cancellable toy false (λ i. false) draws (1 ∷ []) 4 2 ≡ some (15 ∷ [], 4)
unfolding generate_stamp_cancellable stamp_iteration_cap search stamp_value leading_zero_bits
    stamp_workblock
generate_runs = refl

generate_stamp-validate_example : validate_stamp toy (1 ∷ []) (15 ∷ []) 4 2 ≡ true
generate_stamp-validate_example =
    generate_stamp-validate toy false (λ i. false) draws (1 ∷ []) 4 2 (15 ∷ []) 4 generate_runs

generate_stamp-Exhausts_example :
    Exhausts toy draws 4
      (stamp_workblock toy (1 ∷ []) 2)
      0
      (64 * 2 ^ 4)
      (generate_stamp toy draws (1 ∷ []) 4 2)
generate_stamp-Exhausts_example =
    generate_stamp-Exhausts toy draws (1 ∷ []) 4 2 (omega arith) (omega arith)

-- an offer of two messages, of which one is stored
abbrev offered : DecodedOffer
offered = record { peering_key = empty; transient_ids = 5 ∷ 6 ∷ [] }

abbrev is_stored : ℕ → Bool
is_stored id = nat_beq id 5

evaluate_decoded_lem_example :
    ((evaluate_decoded toy offered [] [] 0 is_stored ≡ err invalid_key)
      × (key_valid toy [] [] 0 empty ≡ false))
    ⊎ ((e : PnOfferEvaluation) × (evaluate_decoded toy offered [] [] 0 is_stored ≡ ok e)
        × (key_valid toy [] [] 0 empty ≡ true)
        × (asked e (5 ∷ 6 ∷ []) ≡ filter (λ id. not (is_stored id)) (5 ∷ 6 ∷ []))
        × IsProper e (5 ∷ 6 ∷ []))
evaluate_decoded_lem_example = evaluate_decoded_lem toy offered [] [] 0 is_stored

offer_runs : evaluate_decoded toy offered [] [] 0 is_stored ≡ ok (want_some (6 ∷ []))
unfolding evaluate_decoded key_valid filter
offer_runs = refl

-- a codec: the length of an array is one number, that of a binary value follows a mark
abbrev writer : Writer
writer = record { array_len = λ n. n ∷ []; bin_len = λ n. 196 ∷ n ∷ [] }

abbrev read_one : Bytes → Option (ℕ × Bytes)
read_one [] = none
read_one (n ∷ rest) = some (n, rest)

abbrev read_second : Bytes → Option (ℕ × Bytes)
read_second [] = none
read_second (mark ∷ rest) = read_one rest

abbrev reader : Reader
reader = record { read_array_len = read_one; read_bin_len = read_second }

writer-IsCodec : IsCodec writer reader
writer-IsCodec = record {
  array_read = λ n rest h. refl;
  bin_read = λ n rest h. refl;
  bin_size = λ n. omega arith;
}

encoded_size :
    length (
      encode_offer writer
        (record { peering_key = []; transient_ids = map (to_bytes 32) (5 ∷ 6 ∷ []) }))
    ≤ 100
unfolding encode_offer encode_ids to_bytes
encoded_size = omega arith

decode-encode_offer_example :
    decode reader
      (encode_offer writer
        (record { peering_key = []; transient_ids = map (to_bytes 32) (5 ∷ 6 ∷ []) }))
      100
    ≡ ok (record { peering_key = key_of []; transient_ids = 5 ∷ 6 ∷ [] })
decode-encode_offer_example =
    decode-encode_offer writer reader writer-IsCodec [] (5 ∷ 6 ∷ []) 100 (inl refl)
      (omega arith, (omega arith, tt)) (omega arith) encoded_size
