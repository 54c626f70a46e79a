-- ===== src/Tests/Offers.antt =====
-- Inbound offers of crates/lxmf-core/src/propagation_admission.rs on concrete inputs.
use rs_lxmf.Prelude.{
  ℕ, ◌+◌, ◌≡◌, ◌≢◌, ◌↔◌, true, false, some, List, [], ◌∷◌, arith, nat_eq, ok, is_ok, refl, contains,
  nat_beq_iff,
}
use rs_lxmf.Map
use rs_lxmf.PnAdmission.{
  Hash, PnInboundAdmission, PnOfferCandidate, PnOfferResponse, PnOfferAdmission, PnInboundRecord,
  default_config, new, rejected, stale_candidate, want_all, validating, invalid_stamp,
  is_static_peer, inbound_sync_count, validation_count,
}
use rs_lxmf.PnAdmission.Offers.{
  preflight_offer, commit_validated_offer, check_offer_gates, offer_gates, bypasses_limits,
  expire_throttles, prune_abandoned_candidates, preflight_identified, start_candidate,
  is_exact_pending, remove_exact_pending_candidate, commit_exact, record_offer,
}
use rs_lxmf.PnAdmission.Transfers.{validation_concluded}
use rs_lxmf.PnAdmission.Events.{closed, preflight, run, step}
use rs_lxmf.PnAdmission.Events.Gates.{IsAdmissible, commit_accepted_iff}
use rs_lxmf.PnAdmission.Events.Preflight.{IsIdle, preflight_ok_iff}
use rs_lxmf.PnAdmission.Events.Pending.{IsTracked}
use rs_lxmf.PnAdmission.Events.Revocation.{by_close, used_candidate_is_stale}
use rs_lxmf.PnAdmission.Events.Shutout.{invalid_stamp_shuts_out}

abbrev destination : Hash → Hash
destination identity = identity + 1000

abbrev candidate : PnOfferCandidate
candidate = record {
  link_id = 7;
  peer_identity_hash = 5;
  peer_destination_hash = 1005;
  lifecycle = 0;
}

abbrev fresh : PnInboundAdmission
fresh = record {
  config = default_config;
  static_peers = [];
  records = [];
  pending_candidates = [];
  throttle_deadlines = [];
  next_lifecycle = 0;
}

abbrev waiting : PnInboundAdmission
waiting = record fresh { pending_candidates = (7, 0) ∷ []; next_lifecycle = 1 }

abbrev checked_record : PnInboundRecord
checked_record = record {
  peer_identity_hash = 5;
  peer_destination_hash = 1005;
  offer_response = want_all;
  state = validating;
}

abbrev checking : PnInboundAdmission
checking = record fresh { records = (7, checked_record) ∷ []; next_lifecycle = 1 }

preflight_runs :
    preflight_offer destination [] 7 (some 5) 0 (new default_config) ≡ (waiting, ok candidate)
unfolding preflight_offer check_offer_gates offer_gates bypasses_limits expire_throttles new
    prune_abandoned_candidates preflight_identified start_candidate inbound_sync_count
    validation_count is_static_peer contains Map.get Map.insert Map.retain Map.count_values
preflight_runs = refl

commit_runs : (commit_validated_offer candidate want_all 1 waiting).1 ≡ PnOfferAdmission.accepted
unfolding commit_validated_offer check_offer_gates offer_gates bypasses_limits expire_throttles
    commit_exact is_exact_pending remove_exact_pending_candidate record_offer inbound_sync_count
    validation_count is_static_peer contains Map.get Map.insert Map.retain Map.remove
    Map.count_values
commit_runs = refl

waiting-IsTracked : IsTracked waiting
unfolding Map.get
waiting-IsTracked = record {
  given = λ l t e. ground arith;
  single = λ l k t e e'. ground (arith, nat_beq_iff 7 l, nat_beq_iff 7 k);
}

invalid_stamp_shuts_out_example :
    let a' =
      run destination
        (preflight [] 9 (some 6) 50 ∷ [])
        (validation_concluded 7 invalid_stamp 10 checking).0 in
    ((held : List ℕ) (k identity : Hash)
      → destination identity ≡ 1005
      → is_ok (preflight_offer destination held k (some identity) 100 a').1 ≡ false)
    × ((c : PnOfferCandidate) (response : PnOfferResponse)
        → c.peer_destination_hash ≡ 1005
        → (commit_validated_offer c response 100 a').1 ≢ PnOfferAdmission.accepted)
unfolding Map.get
invalid_stamp_shuts_out_example =
    invalid_stamp_shuts_out destination 7 checked_record 10 checking refl refl (omega arith)
      (preflight [] 9 (some 6) 50 ∷ []) (omega arith) 100 (omega arith)

used_candidate_is_stale_example :
    commit_validated_offer candidate want_all 3
      (run destination (preflight [] 7 (some 5) 2 ∷ []) (step destination (closed 7) waiting))
    ≡ (
      run destination (preflight [] 7 (some 5) 2 ∷ []) (step destination (closed 7) waiting),
      rejected stale_candidate,
    )
unfolding Map.get
used_candidate_is_stale_example =
    used_candidate_is_stale waiting candidate waiting-IsTracked refl destination (by_close 7 refl)
      (preflight [] 7 (some 5) 2 ∷ []) want_all 3

commit_accepted_iff_example :
    ((commit_validated_offer candidate want_all 1 waiting).1 ≡ PnOfferAdmission.accepted) ↔ (
      (Map.get 7 waiting.pending_candidates ≡ some 0)
      × IsAdmissible 7 1005 1 waiting
      × (want_all ≢ PnOfferResponse.have_all))
commit_accepted_iff_example = commit_accepted_iff candidate want_all 1 waiting

preflight_ok_iff_example :
    (is_ok (preflight_offer destination [] 7 (some 5) 0 fresh).1 ≡ true)
    ↔ (IsIdle [] 7 fresh × IsAdmissible 7 1005 0 fresh)
preflight_ok_iff_example = preflight_ok_iff destination [] 7 5 0 fresh

fresh_granted : (preflight_offer destination [] 7 (some 5) 0 fresh).1 ≡ ok candidate
unfolding preflight_offer check_offer_gates offer_gates bypasses_limits expire_throttles
    prune_abandoned_candidates preflight_identified start_candidate inbound_sync_count
    validation_count is_static_peer contains Map.get Map.insert Map.retain Map.count_values
fresh_granted = refl
