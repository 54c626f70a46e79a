-- ===== src/Tests/Transfers.antt =====
-- Records of crates/lxmf-core/src/propagation_admission.rs on concrete inputs.
use rs_lxmf.Prelude.{◌+◌, ◌≡◌, true, none, [], ◌∷◌, nat_eq, ok, refl}
use rs_lxmf.Map
use rs_lxmf.PnAdmission.{
  PnInboundAdmission, PnInboundRecord, default_config, want_all, accepted, validating, valid,
  inbound_sync_count, validation_count, removed,
}
use rs_lxmf.PnAdmission.Transfers.{resource_started, resource_concluded, validation_concluded}
use rs_lxmf.PnAdmission.Events.{closed, step}
use rs_lxmf.PnAdmission.Events.Lifecycle.{may_move, state_at, step-may_move}
use rs_lxmf.PnAdmission.Events.Accounting.{full_transfer}

abbrev offered : PnInboundRecord
offered = record {
  peer_identity_hash = 5;
  peer_destination_hash = 1005;
  offer_response = want_all;
  state = accepted;
}

abbrev one_offer : PnInboundAdmission
one_offer = record {
  config = default_config;
  static_peers = [];
  records = (7, offered) ∷ [];
  pending_candidates = [];
  throttle_deadlines = [];
  next_lifecycle = 1;
}

step-may_move_example :
    may_move (state_at 7 one_offer) (state_at 7 (step (λ i. i + 1000) (closed 7) one_offer)) ≡ true
step-may_move_example = step-may_move 7 (λ i. i + 1000) (closed 7) one_offer

full_transfer_example :
    let s1 = resource_started 7 one_offer in
    let s2 = resource_concluded 7 s1.0 in
    let s3 = validation_concluded 7 valid 20 s2.0 in
    (s1.1 ≡ ok tt)
    × (inbound_sync_count s1.0 ≡ inbound_sync_count one_offer + 1)
    × (validation_count s1.0 ≡ validation_count one_offer)
    × (s2.1 ≡ ok tt)
    × (inbound_sync_count s2.0 ≡ inbound_sync_count one_offer + 1)
    × (validation_count s2.0 ≡ validation_count one_offer + 1)
    × (s3.1 ≡ ok (removed validating))
    × (inbound_sync_count s3.0 ≡ inbound_sync_count one_offer)
    × (validation_count s3.0 ≡ validation_count one_offer)
    × (Map.get 7 s3.0.records ≡ none)
unfolding Map.get
full_transfer_example = full_transfer 7 offered one_offer (refl, tt) refl refl valid 20
