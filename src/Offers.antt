-- ===== src/Offers.antt =====
-- Offers that a propagation node gets (crates/lxmf-core/src/propagation_offer.rs), and its answers to
-- them. The readers of MessagePack are a parameter.
pub mod Wanted
pub mod RoundTrip
use rs_lxmf.Prelude.{
  ℕ, zero, suc, ◌+◌, ◌-◌, ◌*◌, ◌/◌, Bool, true, false, not, Option, none, some, List, [], ◌∷◌, ◌++◌,
  map, nat_eq, nat_beq, ◌==◌, if◌then◌else◌, leb, ltb, length, filter, take, Bytes, spell, to_bytes,
  Result, ok, err,
}
use rs_lxmf.PnAdmission.{PnOfferResponse}
use rs_lxmf.Stamps.{Hashes, drop, validate_peering_key}
use rs_lxmf.Sync.{OfferResponse, error_invalid_data, error_invalid_key}

-- `rmp::decode`: what is read, and the rest of the slice
pub record Reader : Type 0 where
  pub read_array_len : Bytes → Option (ℕ × Bytes)
  pub read_bin_len : Bytes → Option (ℕ × Bytes)

abbrev pub encoded_transient_id_min_bytes : ℕ
encoded_transient_id_min_bytes = 34

pub data PnOfferEvaluation : Type 0 where
  have_all want_all : PnOfferEvaluation
  want_some : List ℕ → PnOfferEvaluation

abbrev pub admission_response : PnOfferEvaluation → PnOfferResponse
admission_response have_all = PnOfferResponse.have_all
admission_response want_all = PnOfferResponse.want_all
admission_response (want_some ids) = PnOfferResponse.want_some

unfoldable pub into_wire_response : PnOfferEvaluation → OfferResponse
into_wire_response have_all = OfferResponse.have_all
into_wire_response want_all = OfferResponse.want_all
into_wire_response (want_some ids) = OfferResponse.want_some (map (to_bytes 32) ids)

pub data PnOfferEvaluationError : Type 0 where
  invalid_data invalid_key : PnOfferEvaluationError

abbrev pub wire_response : PnOfferEvaluationError → OfferResponse
wire_response invalid_data = error_invalid_data
wire_response invalid_key = error_invalid_key

pub data DecodedPeeringKey : Type 0 where
  empty invalid_length : DecodedPeeringKey
  key : Bytes → DecodedPeeringKey

pub record DecodedOffer : Type 0 where
  pub peering_key : DecodedPeeringKey
  pub transient_ids : List ℕ

unfoldable pub key_valid : Hashes → Bytes → Bytes → ℕ → DecodedPeeringKey → Bool
unfolding validate_peering_key
key_valid hs local remote peering_cost empty = peering_cost == 0
key_valid hs local remote peering_cost (key k) =
    validate_peering_key hs (local ++ remote) k peering_cost
key_valid hs local remote peering_cost invalid_length = false

abbrev pub evaluation_of : List ℕ → List ℕ → PnOfferEvaluation
evaluation_of [] offered = have_all
evaluation_of (id ∷ ids) offered =
    if length (id ∷ ids) == length offered then want_all else want_some (id ∷ ids)

-- `stored` is the caller's `contains`
unfoldable pub evaluate_decoded :
    Hashes
    → DecodedOffer
    → Bytes
    → Bytes
    → ℕ
    → (ℕ → Bool)
    → Result PnOfferEvaluation PnOfferEvaluationError
unfolding key_valid filter
evaluate_decoded hs offer local remote peering_cost stored =
    if not (key_valid hs local remote peering_cost offer.peering_key)
    then err invalid_key
    else ok (evaluation_of (filter (λ id. not (stored id)) offer.transient_ids) offer.transient_ids)

abbrev pub decoded_key : ℕ → Bytes → DecodedPeeringKey
decoded_key n remaining =
    if n == 0 then empty else if n == 32 then key (take 32 remaining) else invalid_length

module _ (rd : Reader) where
  open rd use {read_array_len, read_bin_len}

  -- the loop over the ids, with what is left of the data
  unfoldable pub decode_ids : ℕ → Bytes → Option (List ℕ × Bytes)
  unfolding take drop
  decode_ids zero remaining = some ([], remaining)
  decode_ids (suc count) remaining = elim (read_bin_len remaining) [
    | none ↦ none
    | some (encoded_len, rest) ↦
        if not (encoded_len == 32)
        then none
        else if ltb (length rest) 32
        then none
        else elim (decode_ids count (drop 32 rest)) [
          | none ↦ none
          | some (ids, end) ↦ some (spell (take 32 rest) ∷ ids, end)
        ]
  ]

  -- the id array and the end of the data
  unfoldable pub decode_array : Bytes → Option (List ℕ)
  unfolding decode_ids
  decode_array remaining = elim (read_array_len remaining) [
    | none ↦ none
    | some (count, rest) ↦
        if ltb (length rest / encoded_transient_id_min_bytes) count
        then none
        else elim (decode_ids count rest) [
          | none ↦ none
          | some (ids, []) ↦ some ids
          | some (ids, x ∷ xs) ↦ none
        ]
  ]

  -- the key, and what follows it
  unfoldable pub decode_fields : Bytes → Option DecodedOffer
  unfolding decode_array take drop
  decode_fields remaining = elim (read_bin_len remaining) [
    | none ↦ none
    | some (n, rest) ↦ if ltb (length rest) n then none else elim (decode_array (drop n rest)) [
      | none ↦ none
      | some ids ↦ some (record { peering_key = decoded_key n rest; transient_ids = ids })
    ]
  ]

  abbrev pub or_invalid_data : Option DecodedOffer → Result DecodedOffer PnOfferEvaluationError
  or_invalid_data none = err invalid_data
  or_invalid_data (some offer) = ok offer

  unfoldable pub decode : Bytes → ℕ → Result DecodedOffer PnOfferEvaluationError
  unfolding decode_fields
  decode bytes max_offer_size =
      if ltb max_offer_size (length bytes) then err invalid_data else elim (read_array_len bytes) [
        | none ↦ err invalid_data
        | some (field_count, rest) ↦
            if not (field_count == 2)
            then err invalid_data
            else or_invalid_data (decode_fields rest)
      ]

  unfoldable pub evaluate :
      Hashes
      → Bytes
      → Bytes
      → Bytes
      → ℕ
      → ℕ
      → (ℕ → Bool)
      → Result PnOfferEvaluation PnOfferEvaluationError
  unfolding decode evaluate_decoded
  evaluate hs request_data local remote peering_cost max_offer_size stored =
      elim (decode request_data max_offer_size) [
        | err e ↦ err e
        | ok offer ↦ evaluate_decoded hs offer local remote peering_cost stored
      ]
