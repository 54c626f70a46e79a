-- ===== src/PnAdmission/Offers.antt =====
-- The two halves of an offer, `preflight_offer` and `commit_validated_offer`, with the gates that
-- both apply, and the throttles (crates/lxmf-core/src/propagation_admission.rs).
use rs_lxmf.Prelude.{
  ℕ, ◌+◌, Bool, true, false, Option, none, some, ◌&&◌, not, leb, ltb, ◌==◌, nat_eq, List,
  if◌then◌else◌, contains, Result, ok, err, max, saturating_add, duration_max, is_some,
}
use rs_lxmf.Map
use rs_lxmf.Map.{contains_key}
use rs_lxmf.PnAdmission.{
  Hash, PnInboundAdmission, PnOfferCandidate, PnOfferRejection, PnOfferResponse, PnOfferAdmission,
  PnInboundState, PnCandidateDiscardResult, PnThrottleInstallError, no_identity, no_access,
  invalid_stamp_throttle, sequential_validation_active, inbound_sync_limit, link_already_tracked,
  link_candidate_pending, stale_candidate, rejected, discarded, stale, unknown_peer_destination,
  inbound_sync_count, validation_count, is_static_peer, pn_invalid_stamp_throttle,
}

unfoldable pub expire_throttles : ℕ → PnInboundAdmission → PnInboundAdmission
expire_throttles now a = record a {
  throttle_deadlines = Map.retain (λ _ deadline. ltb now deadline) a.throttle_deadlines;
}

unfoldable pub is_peer_throttled : Hash → ℕ → PnInboundAdmission → PnInboundAdmission × Bool
is_peer_throttled peer now a =
    let a' = expire_throttles now a in (a', contains_key peer a'.throttle_deadlines)

unfoldable pub throttle_deadline : Hash → ℕ → PnInboundAdmission → PnInboundAdmission × Option ℕ
throttle_deadline peer now a =
    let a' = expire_throttles now a in (a', Map.get peer a'.throttle_deadlines)

-- static peers bypass the first two gates, unless they are configured not to
unfoldable pub bypasses_limits : Hash → PnInboundAdmission → Bool
bypasses_limits peer a = is_static_peer peer a && not a.config.static_sequential

-- the gates of `check_offer_gates`, once the throttles have expired
unfoldable pub offer_gates : Hash → Hash → PnInboundAdmission → Result (Unit {0}) PnOfferRejection
offer_gates link_id peer a =
    if not (bypasses_limits peer a)
      && a.config.sequential_validation
      && not (validation_count a == 0)
    then err sequential_validation_active
    else if not (bypasses_limits peer a) && leb a.config.max_inbound_syncs (inbound_sync_count a)
    then err inbound_sync_limit
    else if contains_key peer a.throttle_deadlines
    then err invalid_stamp_throttle
    else if a.config.from_static_only && not (is_static_peer peer a)
    then err no_access
    else if contains_key link_id a.records
    then err link_already_tracked
    else ok tt

unfoldable pub check_offer_gates :
    Hash → Hash → ℕ → PnInboundAdmission → PnInboundAdmission × Result (Unit {0}) PnOfferRejection
check_offer_gates link_id peer now a =
    let a' = expire_throttles now a in (a', offer_gates link_id peer a')

-- `Weak::upgrade`: the token of a candidate that has not been dropped
abbrev pub upgrade : List ℕ → ℕ → Option ℕ
upgrade held lifecycle = if contains lifecycle held then some lifecycle else none

-- `held` lists the tokens of the candidates that their callers have not dropped.
unfoldable pub prune_abandoned_candidates : List ℕ → PnInboundAdmission → PnInboundAdmission
prune_abandoned_candidates held a = record a {
  pending_candidates =
      Map.retain (λ _ lifecycle. is_some (upgrade held lifecycle)) a.pending_candidates;
}

-- the end of `preflight_offer`: a new token, and the candidate that carries it
unfoldable pub start_candidate :
    Hash
    → Hash
    → Hash
    → PnInboundAdmission
    → Result (Unit {0}) PnOfferRejection
    → PnInboundAdmission × Result PnOfferCandidate PnOfferRejection
start_candidate link_id identity peer a (err e) = (a, err e)
start_candidate link_id identity peer a (ok _) = (
  record a {
    pending_candidates = Map.insert link_id a.next_lifecycle a.pending_candidates;
    next_lifecycle = a.next_lifecycle + 1;
  },
  ok (record {
    link_id = link_id;
    peer_identity_hash = identity;
    peer_destination_hash = peer;
    lifecycle = a.next_lifecycle;
  }),
)

-- `preflight_offer` behind the test for an identity
unfoldable pub preflight_identified :
    Hash
    → Hash
    → Hash
    → ℕ
    → PnInboundAdmission
    → PnInboundAdmission × Result PnOfferCandidate PnOfferRejection
preflight_identified link_id identity peer now a =
    if contains_key link_id a.pending_candidates
    then (a, err link_candidate_pending)
    else let (a', gate) = check_offer_gates link_id peer now a in
      start_candidate link_id identity peer a' gate

-- `destination_of` derives the `lxmf.propagation` destination of an identity
-- (rns_identity's `Destination::hash_from_name_and_identity`).
unfoldable pub preflight_offer :
    (Hash → Hash)
    → List ℕ
    → Hash
    → Option Hash
    → ℕ
    → PnInboundAdmission
    → PnInboundAdmission × Result PnOfferCandidate PnOfferRejection
unfolding prune_abandoned_candidates preflight_identified
preflight_offer destination_of held link_id identity now a =
    let a' = prune_abandoned_candidates held a in
    elim identity [
      | none ↦ (a', err no_identity)
      | some peer_identity ↦
          preflight_identified link_id peer_identity (destination_of peer_identity) now a'
    ]

-- The pending token is the candidate's own. The candidate is alive during the call, so that its
-- own token upgrades.
unfoldable pub is_exact_pending : PnOfferCandidate → PnInboundAdmission → Bool
is_exact_pending c a = elim (Map.get c.link_id a.pending_candidates) [
  | none ↦ false
  | some pending ↦ pending == c.lifecycle
]

unfoldable pub remove_exact_pending_candidate :
    PnOfferCandidate → PnInboundAdmission → PnInboundAdmission × Bool
remove_exact_pending_candidate c a =
    if is_exact_pending c a
    then (record a { pending_candidates = Map.remove c.link_id a.pending_candidates }, true)
    else (a, false)

-- the end of `commit_validated_offer`, on the verdict of the gates
unfoldable pub record_offer :
    PnOfferCandidate
    → PnOfferResponse
    → PnInboundAdmission
    → Result (Unit {0}) PnOfferRejection
    → PnInboundAdmission × PnOfferAdmission
record_offer c response a (err e) = (a, rejected e)
record_offer c PnOfferResponse.have_all a (ok _) = (a, PnOfferAdmission.have_all)
record_offer c response a (ok _) = (
  record a {
    records =
        Map.insert c.link_id
          (record {
            peer_identity_hash = c.peer_identity_hash;
            peer_destination_hash = c.peer_destination_hash;
            offer_response = response;
            state = PnInboundState.accepted;
          })
          a.records;
  },
  PnOfferAdmission.accepted,
)

-- `commit_validated_offer` behind the test for a stale candidate
unfoldable pub commit_exact :
    PnOfferCandidate
    → PnOfferResponse
    → ℕ
    → PnInboundAdmission
    → PnInboundAdmission × PnOfferAdmission
commit_exact c response now a =
    let (a', gate) = check_offer_gates c.link_id c.peer_destination_hash now a in
    record_offer c response a' gate

unfoldable pub commit_validated_offer :
    PnOfferCandidate
    → PnOfferResponse
    → ℕ
    → PnInboundAdmission
    → PnInboundAdmission × PnOfferAdmission
unfolding remove_exact_pending_candidate commit_exact
commit_validated_offer c response now a =
    let (a', exact) = remove_exact_pending_candidate c a in
    if exact then commit_exact c response now a' else (a', rejected stale_candidate)

unfoldable pub discard_candidate :
    PnOfferCandidate → PnInboundAdmission → PnInboundAdmission × PnCandidateDiscardResult
unfolding remove_exact_pending_candidate
discard_candidate c a =
    let (a', exact) = remove_exact_pending_candidate c a in
    if exact then (a', discarded) else (a', stale)

-- `entry().and_modify().or_insert()`: a deadline is only ever extended
abbrev pub extended_deadline : Option ℕ → ℕ → ℕ
extended_deadline none requested = requested
extended_deadline (some deadline) requested = max deadline requested

unfoldable pub install_invalid_stamp_throttle :
    Hash → ℕ → PnInboundAdmission → PnInboundAdmission × Result ℕ PnThrottleInstallError
install_invalid_stamp_throttle peer now a =
    if peer == 0
    then (a, err unknown_peer_destination)
    else let requested = saturating_add duration_max now pn_invalid_stamp_throttle in
      let deadline = extended_deadline (Map.get peer a.throttle_deadlines) requested in
      (record a { throttle_deadlines = Map.insert peer deadline a.throttle_deadlines }, ok deadline)
