-- ===== src/PnAdmission.antt =====
-- Admission and lifecycle accounting of inbound propagation syncs
-- (crates/lxmf-core/src/propagation_admission.rs): the data, the queries and the counts. A 16-byte
-- hash is the number that its bytes spell; a `Duration` is a number of nanoseconds.
pub mod Offers
pub mod Transfers
pub mod Events
use rs_lxmf.Prelude.{
  ℕ, ◌*◌, max, Bool, true, false, Option, none, some, List, [], nat_beq, contains, nat_eq,
}
use rs_lxmf.Map
use rs_lxmf.Map.{Map, count_values}

abbrev pub Hash : Type 0
Hash = ℕ

-- PN_STAMP_THROTTLE seconds (constants.rs), as a `Duration`
abbrev pub pn_invalid_stamp_throttle : ℕ
pn_invalid_stamp_throttle = 180 * 1000000000

abbrev pub pn_default_max_inbound_syncs : ℕ
pn_default_max_inbound_syncs = 3

abbrev pub pn_min_max_inbound_syncs : ℕ
pn_min_max_inbound_syncs = 1

pub record PnInboundAdmissionConfig : Type 0 where
  pub sequential_validation : Bool
  pub static_sequential : Bool
  pub max_inbound_syncs : ℕ
  pub from_static_only : Bool

abbrev pub default_config : PnInboundAdmissionConfig
default_config = record {
  sequential_validation = true;
  static_sequential = false;
  max_inbound_syncs = pn_default_max_inbound_syncs;
  from_static_only = false;
}

pub data PnOfferResponse : Type 0 where
  have_all want_all want_some : PnOfferResponse

pub data PnOfferRejection : Type 0 where
  no_identity no_access invalid_stamp_throttle sequential_validation_active : PnOfferRejection
  inbound_sync_limit link_already_tracked link_candidate_pending stale_candidate : PnOfferRejection

pub data PnOfferAdmission : Type 0 where
  have_all accepted : PnOfferAdmission
  rejected : PnOfferRejection → PnOfferAdmission

-- `lifecycle` is the address of the candidate's `Arc<PnOfferLifecycleToken>`.
pub record PnOfferCandidate : Type 0 where
  pub link_id : Hash
  pub peer_identity_hash : Hash
  pub peer_destination_hash : Hash
  pub lifecycle : ℕ

pub data PnInboundState : Type 0 where
  accepted transferring validating : PnInboundState

pub data PnValidationResult : Type 0 where
  valid invalid_stamp failed : PnValidationResult

pub data PnThrottleInstallError : Type 0 where
  unknown_peer_destination : PnThrottleInstallError

pub data PnTransitionOperation : Type 0 where
  resource_started resource_concluded validation_concluded : PnTransitionOperation

pub data PnTransitionError : Type 0 where
  link_not_tracked : PnTransitionError
  illegal_state : PnInboundState → PnTransitionOperation → PnTransitionError

pub data PnCleanupResult : Type 0 where
  removed : PnInboundState → PnCleanupResult
  candidate_revoked not_tracked : PnCleanupResult

pub data PnCandidateDiscardResult : Type 0 where
  discarded stale : PnCandidateDiscardResult

pub record PnInboundRecord : Type 0 where
  pub peer_identity_hash : Hash
  pub peer_destination_hash : Hash
  pub offer_response : PnOfferResponse
  pub state : PnInboundState

-- `next_lifecycle` is the allocator's: the address that the next token gets. A `Weak` keeps its
-- allocation, so an address in `pending_candidates` is never handed out again.
pub record PnInboundAdmission : Type 0 where
  pub config : PnInboundAdmissionConfig
  pub static_peers : List Hash
  pub records : Map Hash PnInboundRecord
  pub pending_candidates : Map Hash ℕ
  pub throttle_deadlines : Map Hash ℕ
  pub next_lifecycle : ℕ

unfoldable pub new : PnInboundAdmissionConfig → PnInboundAdmission
new config = record {
  config = record config {
    max_inbound_syncs = max config.max_inbound_syncs pn_min_max_inbound_syncs;
  };
  static_peers = [];
  records = [];
  pending_candidates = [];
  throttle_deadlines = [];
  next_lifecycle = 0;
}

unfoldable pub is_static_peer : Hash → PnInboundAdmission → Bool
is_static_peer peer a = contains peer a.static_peers

-- `==` on states
abbrev pub state_eq : PnInboundState → PnInboundState → Bool
state_eq accepted accepted = true
state_eq transferring transferring = true
state_eq validating validating = true
state_eq _ _ = false

-- `matches!(state, Transferring | Validating)`
abbrev pub is_active : PnInboundState → Bool
is_active accepted = false
is_active transferring = true
is_active validating = true

unfoldable pub inbound_sync_count : PnInboundAdmission → ℕ
inbound_sync_count a = count_values (λ r. is_active r.state) a.records

unfoldable pub validation_count : PnInboundAdmission → ℕ
validation_count a = count_values (λ r. state_eq r.state validating) a.records
