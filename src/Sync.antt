-- ===== src/Sync.antt =====
-- Offers, responses and the local sync session (crates/lxmf-core/src/sync.rs). A message id on the
-- wire is a byte string; in the session it is the number of its 32 bytes. MessagePack values and their
-- accessors are rmpv's, an interface.
pub mod Session
use rs_lxmf.Prelude.{
  ℕ, ◌+◌, ◌%◌, Bool, true, false, Option, none, some, List, [], ◌∷◌, ◌&&◌, not, map, nat_eq, ◌==◌,
  if◌then◌else◌, filter, length, Bytes, spell, to_bytes, Float,
}
use rs_lxmf.Map
use rs_lxmf.Store.{PropagationStore}

-- constants.rs
pub data PeerError : Type 0 where
  no_identity no_access invalid_key invalid_data invalid_stamp throttled not_found : PeerError
  timeout : PeerError

pub data OfferResponse : Type 0 where
  want_all have_all : OfferResponse
  want_some : List Bytes → OfferResponse
  error_no_identity error_no_access error_invalid_key error_throttled : OfferResponse
  error_invalid_data error_invalid_stamp unknown : OfferResponse

-- rmpv's `Value` with the accessors that the program uses
pub record MessagePack : Type 1 where
  pub Value : Type 0
  pub read_value : Bytes → Option Value
  pub as_bool : Value → Option Bool
  pub as_u64 : Value → Option ℕ
  pub as_array : Value → Option (List Value)
  pub as_slice : Value → Option Bytes

-- the `match` on `code as u8`
unfoldable pub response_of_code : ℕ → OfferResponse
response_of_code code =
    if code == 0xF0
    then error_no_identity
    else if code == 0xF1
    then error_no_access
    else if code == 0xF3
    then error_invalid_key
    else if code == 0xF4
    then error_invalid_data
    else if code == 0xF5
    then error_invalid_stamp
    else if code == 0xF6
    then error_throttled
    else unknown

-- `filter_map`
unfoldable pub filter_map {ℓ κ} : {A : Type ℓ} {B : Type κ} → (A → Option B) → List A → List B
filter_map f [] = []
filter_map f (x ∷ xs) = let rest = filter_map f xs in elim (f x) [ none ↦ rest | some y ↦ y ∷ rest ]

-- `if !ids.is_empty()`
abbrev pub response_of_ids : List Bytes → OfferResponse
response_of_ids [] = have_all
response_of_ids (id ∷ ids) = want_some (id ∷ ids)

module _ (mp : MessagePack) where
  open mp use {Value, read_value, as_bool, as_u64, as_array, as_slice}

  unfoldable pub from_value : Value → OfferResponse
  unfolding response_of_code filter_map
  from_value v = elim (as_bool v) [
    | some b ↦ if b then want_all else have_all
    | none ↦ elim (as_u64 v) [
      | some code ↦ response_of_code (code % 256)
      | none ↦ elim (as_array v) [
        | some vs ↦ response_of_ids (filter_map as_slice vs)
        | none ↦ unknown
      ]
    ]
  ]

  unfoldable pub from_msgpack : Bytes → OfferResponse
  unfolding from_value
  from_msgpack bytes = elim (read_value bytes) [ none ↦ unknown | some v ↦ from_value v ]

abbrev pub is_error : OfferResponse → Bool
is_error error_no_identity = true
is_error error_no_access = true
is_error error_invalid_key = true
is_error error_throttled = true
is_error error_invalid_data = true
is_error error_invalid_stamp = true
is_error _ = false

abbrev pub as_peer_error : OfferResponse → Option PeerError
as_peer_error error_no_identity = some no_identity
as_peer_error error_no_access = some no_access
as_peer_error error_invalid_key = some invalid_key
as_peer_error error_throttled = some throttled
as_peer_error error_invalid_data = some invalid_data
as_peer_error error_invalid_stamp = some invalid_stamp
as_peer_error _ = none

pub data SyncState : Type 0 where
  idle offer_sent receiving sending complete failed : SyncState

pub record SyncOffer : Type 0 where
  pub peering_key : Bytes
  pub transient_ids : List Bytes

pub record SyncGet : Type 0 where
  pub wanted_ids : List Bytes

pub record SyncSession : Type 0 where
  pub peer_hash : ℕ
  pub state : SyncState
  pub offered_ids : List ℕ
  pub wanted_ids : List ℕ
  pub transferred : ℕ

abbrev pub new : ℕ → SyncSession
new peer_hash = record {
  peer_hash = peer_hash;
  state = idle;
  offered_ids = [];
  wanted_ids = [];
  transferred = 0;
}

unfoldable pub prepare_offer : List ℕ → Bytes → SyncSession → SyncSession × SyncOffer
prepare_offer our_ids peering_key s = (
  record s { offered_ids = our_ids; state = offer_sent },
  record { peering_key = peering_key; transient_ids = map (to_bytes 32) our_ids },
)

-- the test of the filter in `process_offer`, over the lookup of the store
abbrev pub is_wanted : (ℕ → Bool) → Bytes → Bool
is_wanted stored id = if length id == 32 then not (stored (spell id)) else false

unfoldable pub process_offer :
    (fl : Float) → SyncOffer → PropagationStore fl → SyncSession → SyncSession × SyncGet
process_offer fl offer store s = (
  record s { state = receiving },
  record {
    wanted_ids = filter (is_wanted (λ id. Map.contains_key id store.entries)) offer.transient_ids;
  },
)

-- `copy_from_slice` of a slice of the right length
abbrev pub as_transient_id : Bytes → Option ℕ
as_transient_id id = if length id == 32 then some (spell id) else none

unfoldable pub process_get : SyncGet → SyncSession → SyncSession
unfolding filter_map
process_get get s = record s {
  wanted_ids = filter_map as_transient_id get.wanted_ids;
  state = sending;
}

unfoldable pub record_transfer : SyncSession → SyncSession
record_transfer s = record s { transferred = (s.transferred + 1) % 18446744073709551616 }

unfoldable pub mark_complete : SyncSession → SyncSession
mark_complete s = record s { state = complete }

unfoldable pub mark_failed : SyncSession → SyncSession
mark_failed s = record s { state = failed }

-- `state == Complete || state == Failed`
abbrev pub is_final : SyncState → Bool
is_final complete = true
is_final failed = true
is_final _ = false

unfoldable pub is_finished : SyncSession → Bool
is_finished s = is_final s.state
