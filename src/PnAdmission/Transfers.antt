-- ===== src/PnAdmission/Transfers.antt =====
-- What becomes of a recorded offer: the transitions of its Resource and of its stamp validation, and
-- the terminal cleanups (crates/lxmf-core/src/propagation_admission.rs).
use rs_lxmf.Prelude.{
  ℕ, Bool, true, false, none, some, not, nat_eq, if◌then◌else◌, Result, ok, err, is_some,
}
use rs_lxmf.Map
use rs_lxmf.PnAdmission.{
  Hash, PnInboundAdmission, PnInboundState, PnValidationResult, invalid_stamp,
  PnTransitionOperation, PnTransitionError, link_not_tracked, illegal_state, PnCleanupResult,
  removed, candidate_revoked, not_tracked, state_eq, transferring, validating,
}
use rs_lxmf.PnAdmission.Offers.{install_invalid_stamp_throttle}

unfoldable pub transition :
    Hash
    → PnInboundState
    → PnInboundState
    → PnTransitionOperation
    → PnInboundAdmission
    → PnInboundAdmission × Result (Unit {0}) PnTransitionError
transition link_id expected next operation a = elim (Map.get link_id a.records) [
  | none ↦ (a, err link_not_tracked)
  | some r ↦
      if not (state_eq r.state expected)
      then (a, err (illegal_state r.state operation))
      else (record a { records = Map.insert link_id (record r { state = next }) a.records }, ok tt)
]

unfoldable pub resource_started :
    Hash → PnInboundAdmission → PnInboundAdmission × Result (Unit {0}) PnTransitionError
unfolding transition
resource_started link_id =
    transition link_id PnInboundState.accepted transferring PnTransitionOperation.resource_started

unfoldable pub resource_concluded :
    Hash → PnInboundAdmission → PnInboundAdmission × Result (Unit {0}) PnTransitionError
unfolding transition
resource_concluded link_id =
    transition link_id transferring validating PnTransitionOperation.resource_concluded

-- `result == InvalidStamp`
abbrev pub is_invalid_stamp : PnValidationResult → Bool
is_invalid_stamp invalid_stamp = true
is_invalid_stamp PnValidationResult.valid = false
is_invalid_stamp PnValidationResult.failed = false

unfoldable pub validation_concluded :
    Hash
    → PnValidationResult
    → ℕ
    → PnInboundAdmission
    → PnInboundAdmission × Result PnCleanupResult PnTransitionError
validation_concluded link_id result now a = elim (Map.get link_id a.records) [
  | none ↦ (a, ok not_tracked)
  | some r ↦
      if not (state_eq r.state validating)
      then (a, err (illegal_state r.state PnTransitionOperation.validation_concluded))
      else let a' = record a { records = Map.remove link_id a.records } in
        let throttled = (install_invalid_stamp_throttle r.peer_destination_hash now a').0 in
        (if is_invalid_stamp result then throttled else a', ok (removed validating))
]

-- `resource_rejected`, `resource_cancelled` and `resource_failed` are this call.
unfoldable pub remove_record : Hash → PnInboundAdmission → PnInboundAdmission × PnCleanupResult
remove_record link_id a = elim (Map.get link_id a.records) [
  | none ↦ (record a { records = Map.remove link_id a.records }, not_tracked)
  | some r ↦ (record a { records = Map.remove link_id a.records }, removed r.state)
]

-- the `match` of `link_closed`
abbrev pub or_revoked : Bool → PnCleanupResult → PnCleanupResult
or_revoked true not_tracked = candidate_revoked
or_revoked _ result = result

unfoldable pub link_closed : Hash → PnInboundAdmission → PnInboundAdmission × PnCleanupResult
unfolding remove_record
link_closed link_id a =
    let revoked = is_some (Map.get link_id a.pending_candidates) in
    let a1 = record a { pending_candidates = Map.remove link_id a.pending_candidates } in
    let (a2, result) = remove_record link_id a1 in (a2, or_revoked revoked result)
