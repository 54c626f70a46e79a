-- ===== src/PnAdmission/Events.antt =====
-- A coordinator under any sequence of calls: each call that changes it, and the state after a
-- sequence of calls (crates/lxmf-core/src/propagation_admission.rs).
pub mod Gates
pub mod Preflight
pub mod Lifecycle
pub mod Pending
pub mod Candidates
pub mod Revocation
pub mod Throttles
pub mod Shutout
pub mod Accounting
use rs_lxmf.Prelude.{ℕ, Option, List, [], ◌∷◌, Bool, nat_eq, contains, if◌then◌else◌, not, ◌==◌}
use rs_lxmf.Prelude
use rs_lxmf.PnAdmission.{
  Hash, PnInboundAdmission, PnOfferCandidate, PnOfferResponse, PnValidationResult, is_static_peer,
}
use rs_lxmf.PnAdmission.Offers.{
  preflight_offer, commit_validated_offer, discard_candidate, install_invalid_stamp_throttle,
  expire_throttles,
}
use rs_lxmf.PnAdmission.Transfers.{
  resource_started, resource_concluded, validation_concluded, remove_record, link_closed,
}

-- `HashSet::insert` and `HashSet::remove` on the static peers
unfoldable pub set_static_peers : List Hash → PnInboundAdmission → PnInboundAdmission
set_static_peers peers a = record a { static_peers = peers }

unfoldable pub add_static_peer : Hash → PnInboundAdmission → PnInboundAdmission × Bool
add_static_peer peer a =
    if is_static_peer peer a
    then (a, Prelude.false)
    else (record a { static_peers = peer ∷ a.static_peers }, Prelude.true)

unfoldable pub remove_static_peer : Hash → PnInboundAdmission → PnInboundAdmission × Bool
remove_static_peer peer a = (
  record a { static_peers = Prelude.filter (λ p. not (p == peer)) a.static_peers },
  is_static_peer peer a,
)

-- The calls. The three releases of a Resource are one call of `remove_record`, and the two queries
-- of a throttle change the coordinator by `expire_throttles` alone.
pub data Event : Type 0 where
  preflight : List ℕ → Hash → Option Hash → ℕ → Event
  commit : PnOfferCandidate → PnOfferResponse → ℕ → Event
  discard : PnOfferCandidate → Event
  started concluded released closed : Hash → Event
  validated : Hash → PnValidationResult → ℕ → Event
  throttle : Hash → ℕ → Event
  expire : ℕ → Event
  static_set : List Hash → Event
  static_add static_remove : Hash → Event

module _ (destination_of : Hash → Hash) where
  unfoldable pub step : Event → PnInboundAdmission → PnInboundAdmission
  unfolding set_static_peers add_static_peer remove_static_peer
  step (preflight held link_id identity now) a =
      (preflight_offer destination_of held link_id identity now a).0
  step (commit c response now) a = (commit_validated_offer c response now a).0
  step (discard c) a = (discard_candidate c a).0
  step (started link_id) a = (resource_started link_id a).0
  step (concluded link_id) a = (resource_concluded link_id a).0
  step (released link_id) a = (remove_record link_id a).0
  step (closed link_id) a = (link_closed link_id a).0
  step (validated link_id result now) a = (validation_concluded link_id result now a).0
  step (throttle peer now) a = (install_invalid_stamp_throttle peer now a).0
  step (expire now) a = expire_throttles now a
  step (static_set peers) a = set_static_peers peers a
  step (static_add peer) a = (add_static_peer peer a).0
  step (static_remove peer) a = (remove_static_peer peer a).0

  unfoldable pub run : List Event → PnInboundAdmission → PnInboundAdmission
  run [] a = a
  run (e ∷ es) a = run es (step e a)
