-- ===== src/Tests/Rotation.antt =====
-- A rotation of peers (crates/lxmf-core/src/router.rs) that drops one, on concrete inputs.
use rs_lxmf.Prelude.{ℕ, ◌≡◌, refl, [], ◌∷◌, map, nat_eq, contains, take}
use rs_lxmf.Map
use rs_lxmf.Map.Counts.{IsDistinct}
use rs_lxmf.Peer.{LxmPeer, PeerState, new}
use rs_lxmf.Router
use rs_lxmf.Router.{LxmRouter, default_config}
use rs_lxmf.Router.Peering.{unpeer}
use rs_lxmf.Router.Peering.Rotation.{
  rotate_peers, drop_candidates, acceptance_rate, sort_lowest, insert_lowest, drop_all,
}
use rs_lxmf.Router.Peering.Spared.{IsSpared, rotate_peers-IsSpared}
use rs_lxmf.Tests.Numbers.{thousandths}

-- offered ten messages
abbrev tested : ℕ → ℕ → LxmPeer thousandths
tested hash outgoing = record (new thousandths hash 10) {
  offered = 10;
  outgoing = outgoing;
  last_sync_attempt = 20000;
}

-- of the peers that take little, 4 has a sync under way and 5 is static; 7 takes much, and 8 half
abbrev full_router : LxmRouter thousandths
full_router = record (Router.new thousandths (default_config thousandths)) {
  config = record (default_config thousandths) { max_peers = 3 };
  static_peers = 5 ∷ [];
  peers =
      (4, record (tested 4 1) { state = PeerState.request_sent })
      ∷ (5, tested 5 0)
      ∷ (8, tested 8 5)
      ∷ (6, tested 6 2)
      ∷ (7, tested 7 9)
      ∷ [];
}

rotation_drops : map (λ x. x.0) (rotate_peers thousandths full_router).peers ≡ 4 ∷ 5 ∷ 8 ∷ 7 ∷ []
unfolding rotate_peers drop_candidates acceptance_rate sort_lowest insert_lowest drop_all unpeer
    contains take new Map.count_values Map.remove
rotation_drops = refl

full_router-IsDistinct : IsDistinct full_router.peers
unfolding Map.get
full_router-IsDistinct = (refl, (refl, (refl, (refl, (refl, tt)))))

rotate_peers-IsSpared_example :
    IsSpared thousandths full_router (rotate_peers thousandths full_router)
rotate_peers-IsSpared_example = rotate_peers-IsSpared thousandths full_router full_router-IsDistinct
