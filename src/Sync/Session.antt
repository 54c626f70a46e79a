-- ===== src/Sync/Session.antt =====
-- An exchange of an offer and its answer, and what a response means (crates/lxmf-core/src/sync.rs).
use rs_lxmf.Prelude.{
  ℕ, ◌%◌, ◌^◌, ◌<◌, ◌≡◌, ◌↔◌, Bool, true, false, none, some, List, [], ◌∷◌, not, map, arith, nat_eq,
  filter, Bytes, to_bytes, spell-to_bytes, length-to_bytes, Float, refl,
}
use rs_lxmf.Map
use rs_lxmf.Store.{PropagationStore}
use rs_lxmf.Sync.{
  SyncSession, SyncState, PeerError, MessagePack, from_value, response_of_code, filter_map,
  prepare_offer, process_offer, process_get, is_wanted, as_transient_id, as_peer_error, unknown,
}

-- ids of 32 bytes
abbrev pub AllIds : List ℕ → Type 0
AllIds [] = Unit {0}
AllIds (x ∷ xs) = (x < 256 ^ 32) × AllIds xs

module _ (stored : ℕ → Bool) where
  wire_round_trip :
      (xs : List ℕ)
      → AllIds xs
      → filter_map as_transient_id (filter (is_wanted stored) (map (to_bytes 32) xs))
        ≡ filter (λ id. not (stored id)) xs
  unfolding filter_map filter
  wire_round_trip [] h = refl
  wire_round_trip (x ∷ xs) h =
      ground (arith, spell-to_bytes 32 x h.0, length-to_bytes 32 x, wire_round_trip xs h.1)

-- When one session offers its ids, another answers from its store and the first takes the answer, the
-- first session ends up sending exactly the ids that the other's store lacks, in the order offered,
-- and each session is in the state that the exchange calls for.
pub exchange_wants_missing :
    (fl : Float) (ours : List ℕ) (key : Bytes) (store : PropagationStore fl) (a b : SyncSession)
    → AllIds ours
    → let offered = prepare_offer ours key a in
      let answered = process_offer fl offered.1 store b in
      let a' = process_get answered.1 offered.0 in
      (a'.wanted_ids ≡ filter (λ id. not (Map.contains_key id store.entries)) ours)
      × (a'.offered_ids ≡ ours)
      × (offered.0.state ≡ SyncState.offer_sent)
      × (answered.0.state ≡ SyncState.receiving)
      × (a'.state ≡ SyncState.sending)
unfolding prepare_offer process_offer process_get
exchange_wants_missing fl ours key store a b h =
    (wire_round_trip (λ id. Map.contains_key id store.entries) ours h, refl, refl, refl, refl)

-- the codes of constants.rs
abbrev pub code_of : PeerError → ℕ
code_of PeerError.no_identity = 0xF0
code_of PeerError.no_access = 0xF1
code_of PeerError.invalid_key = 0xF3
code_of PeerError.invalid_data = 0xF4
code_of PeerError.invalid_stamp = 0xF5
code_of PeerError.throttled = 0xF6
code_of PeerError.not_found = 0xFD
code_of PeerError.timeout = 0xFE

-- the errors that an `/offer` response can carry
abbrev pub is_offer_error : PeerError → Bool
is_offer_error PeerError.not_found = false
is_offer_error PeerError.timeout = false
is_offer_error _ = true

module _ (n : ℕ) where
  code_found :
      (e : PeerError)
      → as_peer_error (response_of_code n) ≡ some e
      → (n ≡ code_of e) × (is_offer_error e ≡ true)
  unfolding response_of_code
  code_found e h = ground arith

  code_known :
      (e : PeerError)
      → (n ≡ code_of e) × (is_offer_error e ≡ true)
      → as_peer_error (response_of_code n) ≡ some e
  unfolding response_of_code
  code_known e h = ground arith

  code_unknown : as_peer_error (response_of_code n) ≡ none → response_of_code n ≡ unknown
  unfolding response_of_code
  code_unknown h = ground arith

module _ (mp : MessagePack) where
  open mp use {Value, as_bool, as_u64, as_array}

  -- An integer response means a peer error exactly when its low byte is that error's code and the
  -- error is one of the six that the protocol sends; any other integer is unknown.
  integer_response :
      (v : Value) (n : ℕ)
      → as_bool v ≡ none
      → as_u64 v ≡ some n
      → ((e : PeerError)
          → (as_peer_error (from_value mp v) ≡ some e)
            ↔ ((n % 256 ≡ code_of e) × (is_offer_error e ≡ true)))
        × (as_peer_error (from_value mp v) ≡ none → from_value mp v ≡ unknown)
  unfolding from_value
  integer_response v n b u =
      rw (b, from_value)
        (rw u (λ e. (code_found (n % 256) e, code_known (n % 256) e), code_unknown (n % 256)))
