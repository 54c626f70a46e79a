-- ===== src/Tests/Arrivals.antt =====
-- Messages that arrive and the peers of crates/lxmf-core/src/router.rs on concrete inputs.
use rs_lxmf.Prelude.{
  ℕ, ◌≤◌, ◌+◌, ◌≡◌, true, false, none, List, [], ◌∷◌, refl, arith, count, contains, nat_eq, ◌==◌,
}
use rs_lxmf.Admission.{AdmissionRecord, committed}
use rs_lxmf.Map
use rs_lxmf.Message.{}
use rs_lxmf.Peer.{LxmPeer, should_sync}
use rs_lxmf.Router.{LxmRouter, default_config}
use rs_lxmf.Router.Inbound.{InboundReservation}
use rs_lxmf.Router.Inbound.Once.{
  InboundEvent, deliver, reserve, commit, inbound_run, delivered_once,
}
use rs_lxmf.Router.Peering.{sync_peers, sync_due}
use rs_lxmf.Router.Peering.Bound.{IsTable, rotate, peering_step, peering_step-IsTable}
use rs_lxmf.Router.Peering.Rotation.{}
use rs_lxmf.Router.Peering.Rounds.{sync_peers_once}
use rs_lxmf.Router.Peering.Spared.{}
use rs_lxmf.Tests.Numbers.{whole}
use rs_lxmf.Tests.Routing.{letter, router}

abbrev reservation : InboundReservation
reservation = record { message_id = 1; nonce = 1 }

abbrev receipt : AdmissionRecord
receipt = record {
  scope = record { identity = 7; node = 8; transient_id = 9 };
  message_id = 1;
  received_wire_hash = 3;
  stored_message_wire_hash = none;
  disposition = committed;
  committed_at = 50;
}

-- a message comes through a reservation, and then again from elsewhere
abbrev arrivals : List (InboundEvent whole × ℕ)
arrivals =
    (reserve letter, 50) ∷ (commit reservation letter receipt none, 51) ∷ (deliver letter, 52) ∷ []

delivered_once_example :
    count (λ d. d == 1) (inbound_run whole arrivals router).delivered
    ≤ count (λ d. d == 1) router.delivered + 1
unfolding Map.get
delivered_once_example = delivered_once whole 1 arrivals router

arrivals_run : (inbound_run whole arrivals router).delivered ≡ 1 ∷ []
unfolding inbound_run Map.get Map.insert
arrivals_run = refl

abbrev waiting : LxmPeer whole
waiting = record (rs_lxmf.Peer.new whole 4 10) { unhandled_count = 2 }

-- offered much, and took little
abbrev reluctant : LxmPeer whole
reluctant = record (rs_lxmf.Peer.new whole 6 10) {
  offered = 10;
  outgoing = 1;
  last_sync_attempt = 20;
}

abbrev crowded : LxmRouter whole
crowded = record router {
  config = record (default_config whole) { max_peers = 2 };
  peers = (4, waiting) ∷ (6, reluctant) ∷ [];
}

crowded-IsTable : IsTable whole 2 crowded.peers
unfolding Map.get
crowded-IsTable = (omega arith, (refl, (refl, tt)))

peering_step-IsTable_example : IsTable whole 2 (peering_step whole rotate crowded).peers
peering_step-IsTable_example = peering_step-IsTable whole rotate crowded crowded-IsTable

waiting_started : contains 4 (sync_peers whole (λ k i. 60) crowded).1 ≡ true
unfolding sync_peers sync_due contains should_sync rs_lxmf.Peer.new
waiting_started = refl

sync_peers_once_example :
    contains 4 (sync_peers whole (λ k i. 9000) (sync_peers whole (λ k i. 60) crowded).0).1 ≡ false
sync_peers_once_example =
    sync_peers_once whole (λ k i. 60) (λ k i. 9000) 4 crowded crowded-IsTable.1 waiting_started
