-- ===== src/Tests/Peers.antt =====
-- Peers of crates/lxmf-core/src/peer.rs on concrete inputs.
use rs_lxmf.Prelude.{
  ℕ, ◌≤◌, ◌≡◌, true, false, some, none, [], ◌∷◌, nat_eq, refl, ltb, length, arith, Bytes, filter,
  take, enumerate_from, get_elem?, contains,
}
use rs_lxmf.Map
use rs_lxmf.Map.{Map}
use rs_lxmf.Peer.{
  LxmPeer, new, is_idle, should_sync, begin_sync, link_closed, sync_complete, sync_failed,
}
use rs_lxmf.Peer.Metadata.{
  AllShort, metadata_bytes, bounded_peer_metadata, retain_bounded, sort_by_key, insert_by_key,
  bounded_metadata_lem,
}
use rs_lxmf.Peer.Announce.{Announced}
use rs_lxmf.Peer.Choice.{
  Chosen, select_sync_peer, sort_by_rate, insert_by_rate, first_of_pool, extend_pool,
  select_sync_peer_lem,
}
use rs_lxmf.Peer.Choice.Fastest.{no_faster_peer}
use rs_lxmf.Peer.Syncs.{established, counted, peer_run, one_sync_at_a_time}
use rs_lxmf.Tests.Numbers.{whole}

abbrev peer : LxmPeer whole
peer = new whole 9 100

abbrev announced : Announced whole
announced = record {
  timebase = 50;
  transfer_limit = some 64;
  sync_limit = none;
  stamp_cost = some 16;
  stamp_flexibility = some 3;
  peering_cost = some 20;
}

metadata_runs : bounded_peer_metadata (some ((1, 7 ∷ 7 ∷ []) ∷ [])) ≡ some ((1, 7 ∷ 7 ∷ []) ∷ [])
unfolding bounded_peer_metadata retain_bounded sort_by_key insert_by_key take Map.insert
metadata_runs = refl

bounded_metadata_lem_example :
    let m : Map ℕ Bytes = (1, 7 ∷ 7 ∷ []) ∷ [] in
    (length m ≤ 16) × (metadata_bytes m ≤ 4096) × AllShort m
bounded_metadata_lem_example =
    bounded_metadata_lem (some ((1, 7 ∷ 7 ∷ []) ∷ [])) ((1, 7 ∷ 7 ∷ []) ∷ []) metadata_runs

one_sync_at_a_time_example :
    let q =
      peer_run whole (established none 130 ∷ counted 4 ∷ []) (begin_sync whole 110 111 peer) in
    (should_sync whole 5000 q ≡ false)
    × (is_idle (sync_complete whole 5000 q).state ≡ true)
    × (is_idle (sync_failed whole 5000 q).state ≡ true)
    × (is_idle (link_closed whole q).state ≡ true)
    × ((sync_complete whole 5000 q).currently_transferring_messages ≡ none)
    × ((sync_failed whole 5000 q).currently_transferring_messages ≡ none)
    × ((link_closed whole q).currently_transferring_messages ≡ none)
    × ((u : ℕ) → should_sync whole u (sync_failed whole 5000 q) ≡ ltb q.next_sync_attempt u)
one_sync_at_a_time_example =
    one_sync_at_a_time whole (established none 130 ∷ counted 4 ∷ []) 110 111 5000 peer

abbrev busy : LxmPeer whole
busy = record peer { unhandled_count = 3; sync_transfer_rate = 7 }

abbrev faster : LxmPeer whole
faster = record peer { unhandled_count = 1; sync_transfer_rate = 9 }

select_runs : select_sync_peer whole 200 (peer ∷ busy ∷ faster ∷ []) ≡ some 2
unfolding select_sync_peer sort_by_rate insert_by_rate first_of_pool extend_pool filter take
    enumerate_from contains new
select_runs = refl

select_sync_peer_lem_example :
    Chosen whole 200
      (peer ∷ busy ∷ faster ∷ [])
      (select_sync_peer whole 200 (peer ∷ busy ∷ faster ∷ []))
select_sync_peer_lem_example = select_sync_peer_lem whole 200 (peer ∷ busy ∷ faster ∷ [])

ltb_asym : (a b : ℕ) → ltb a b ≡ true → ltb b a ≡ false
ltb_asym a b h = ground arith

ltb_neg : (a b c : ℕ) → ltb a b ≡ false → ltb b c ≡ false → ltb a c ≡ false
ltb_neg a b c h k = ground arith

no_faster_peer_example :
    (i : ℕ) × (p : LxmPeer whole) × (select_sync_peer whole 200 (peer ∷ busy ∷ faster ∷ [])
      ≡ some i)
    × (get_elem? (peer ∷ busy ∷ faster ∷ []) i ≡ some p)
    × (ltb p.sync_transfer_rate busy.sync_transfer_rate ≡ false)
unfolding get_elem? new
no_faster_peer_example =
    no_faster_peer whole ltb_asym ltb_neg 200 (peer ∷ busy ∷ faster ∷ []) 1 busy refl refl
