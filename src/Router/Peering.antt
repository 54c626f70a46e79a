-- ===== src/Router/Peering.antt =====
-- The peers of the router (crates/lxmf-core/src/router.rs): how they come, are refreshed, synced and
-- removed. Reads of the clock are arguments.
pub mod Rotation
pub mod Rounds
pub mod Bound
pub mod Spared
use rs_lxmf.Prelude.{
  ℕ, ◌+◌, ◌%◌, ◌^◌, Bool, true, false, not, Option, none, some, List, [], ◌∷◌, ◌&&◌, ◌||◌, nat_eq,
  if◌then◌else◌, contains, leb, ltb, length, filter, any, Bytes, Float, nat_beq,
}
use rs_lxmf.Map
use rs_lxmf.Map.{Map}
use rs_lxmf.Peer.{
  LxmPeer, should_sync, needs_offer_generation, begin_sync, is_idle, heard, sync_complete,
  sync_failed, or_default,
}
use rs_lxmf.Peer.Announce.{
  Announced, from_announce_with_metadata, refresh_from_announce_with_metadata, OutboundOfferPolicy,
  outbound_offer_policy,
}
use rs_lxmf.Peer.Choice.{is_waiting}
use rs_lxmf.Router.{LxmRouter, without}

module _ (fl : Float) where
  open fl use {F64, of_nat, add, le, lt}

  pub record AutopeerCandidate : Type 0 where
    pub destination_hash : ℕ
    pub announced : Announced fl
    pub metadata : Option (Map ℕ Bytes)
    pub hops : Option ℕ

  abbrev pub with_peers : Map ℕ (LxmPeer fl) → LxmRouter fl → LxmRouter fl
  with_peers peers r = record r { peers = peers }

  unfoldable pub add_peer : LxmPeer fl → LxmRouter fl → LxmRouter fl × Bool
  add_peer p r =
      if leb r.config.max_peers (length r.peers)
      then (r, false)
      else (with_peers (Map.insert p.destination_hash p r.peers) r, true)

  unfoldable pub remove_peer : ℕ → LxmRouter fl → LxmRouter fl
  remove_peer hash r = with_peers (Map.remove hash r.peers) r

  unfoldable pub unpeer : ℕ → LxmRouter fl → LxmRouter fl
  unpeer hash r = record r {
    peers = Map.remove hash r.peers;
    static_peers = without fl hash r.static_peers;
  }

  -- a peer that breaks a rule leaves if the announce is not older than the one known
  unfoldable pub remove_unless_stale : AutopeerCandidate → LxmRouter fl → LxmRouter fl
  unfolding remove_peer
  remove_unless_stale c r = elim (Map.get c.destination_hash r.peers) [
    | none ↦ r
    | some p ↦
        if le p.peering_timebase c.announced.timebase then remove_peer c.destination_hash r else r
  ]

  -- `hops.is_some_and(|h| h > maxdepth)`
  abbrev pub is_too_far : Option ℕ → ℕ → Bool
  is_too_far none depth = false
  is_too_far (some hops) depth = ltb depth hops

  abbrev pub configure : Bool → LxmPeer fl → LxmPeer fl
  configure configured p =
      if configured then record p { is_static = true; autopeered = false } else p

  -- an announce of a peer that is known
  unfoldable pub refresh_peer :
      AutopeerCandidate → F64 → LxmPeer fl → LxmRouter fl → LxmRouter fl × Bool
  unfolding remove_unless_stale refresh_from_announce_with_metadata
  refresh_peer c now p r =
      let configured = contains c.destination_hash r.static_peers in
      let static_peer = configured || p.is_static in
      if not static_peer && not r.config.autopeer
      then (r, false)
      else if not static_peer && is_too_far c.hops r.config.ext.autopeer_maxdepth
      then (remove_unless_stale c r, false)
      else let refreshed = refresh_from_announce_with_metadata fl c.announced c.metadata now p in
        (
          with_peers (Map.insert c.destination_hash (configure configured refreshed.0) r.peers) r,
          refreshed.1,
        )

  -- an announce of a peer that is not
  unfoldable pub meet_peer : AutopeerCandidate → F64 → LxmRouter fl → LxmRouter fl × Bool
  unfolding add_peer from_announce_with_metadata
  meet_peer c now r =
      let configured = contains c.destination_hash r.static_peers in
      if not configured && not r.config.autopeer
      then (r, false)
      else if not configured && is_too_far c.hops r.config.ext.autopeer_maxdepth
      then (r, false)
      else add_peer
          (configure configured
            (from_announce_with_metadata fl c.destination_hash now c.announced c.metadata))
          r

  unfoldable pub autopeer : AutopeerCandidate → F64 → LxmRouter fl → LxmRouter fl × Bool
  unfolding remove_unless_stale refresh_peer meet_peer
  autopeer c now r =
      if ltb r.config.ext.max_peering_cost (or_default c.announced.peering_cost 0)
      then (remove_unless_stale c r, false)
      else elim (Map.get c.destination_hash r.peers) [
        | some p ↦ refresh_peer c now p r
        | none ↦ meet_peer c now r
      ]

  -- `clock k i` is read `i` of the clock for the peer at place `k`
  unfoldable pub sync_due : (ℕ → ℕ → F64) → ℕ → Map ℕ (LxmPeer fl) → Map ℕ (LxmPeer fl) × List ℕ
  unfolding should_sync begin_sync
  sync_due clock k [] = ([], [])
  sync_due clock k ((hash, p) ∷ peers) =
      let rest = sync_due clock (k + 1) peers in
      if p.alive && is_waiting fl p && should_sync fl (clock k 0) p
      then ((hash, begin_sync fl (clock k 1) (clock k 2) p) ∷ rest.0, hash ∷ rest.1)
      else ((hash, p) ∷ rest.0, rest.1)

  unfoldable pub sync_peers : (ℕ → ℕ → F64) → LxmRouter fl → LxmRouter fl × List ℕ
  unfolding sync_due
  sync_peers clock r = let due = sync_due clock 0 r.peers in (with_peers due.0 r, due.1)

  -- `sort_by_key`, a stable sort
  unfoldable pub insert_policy :
      OutboundOfferPolicy fl → List (OutboundOfferPolicy fl) → List (OutboundOfferPolicy fl)
  insert_policy x [] = x ∷ []
  insert_policy x (y ∷ ys) =
      let rest = insert_policy x ys in if ltb y.peer_hash x.peer_hash then y ∷ rest else x ∷ y ∷ ys

  unfoldable pub sort_policies : List (LxmPeer fl) → List (OutboundOfferPolicy fl)
  unfolding insert_policy outbound_offer_policy
  sort_policies [] = []
  sort_policies (p ∷ ps) = insert_policy (outbound_offer_policy fl p) (sort_policies ps)

  -- `peers.values().filter(..)`, with a read of the clock for each peer
  unfoldable pub eligible : ℕ → (ℕ → F64) → ℕ → Map ℕ (LxmPeer fl) → List (LxmPeer fl)
  unfolding should_sync needs_offer_generation
  eligible generation clock k [] = []
  eligible generation clock k ((hash, p) ∷ peers) =
      let rest = eligible generation clock (k + 1) peers in
      if is_idle p.state && should_sync fl (clock k) p && needs_offer_generation fl generation p
      then p ∷ rest
      else rest

  abbrev pub same : Bool → Bool → Bool
  same a b = if a then b else not b

  unfoldable pub sync_peer_policies_for_store :
      ℕ → (ℕ → F64) → LxmRouter fl → List (OutboundOfferPolicy fl)
  unfolding eligible sort_policies
  sync_peer_policies_for_store generation clock r =
      let peers = eligible generation clock 0 r.peers in
      let has_alive = any (λ p. p.alive) peers in
      sort_policies (filter (λ p. same p.alive has_alive) peers)

  -- u64 counters wrap as in a release build
  abbrev count_transfer : LxmPeer fl → LxmPeer fl
  count_transfer p = elim p.currently_transferring_messages [
    | none ↦ p
    | some ids ↦ record p {
      currently_transferring_messages = none;
      outgoing = (p.outgoing + length ids) % 2 ^ 64;
      offered = (p.offered + length ids) % 2 ^ 64;
    }
  ]

  unfoldable pub conclude : Bool → F64 → F64 → LxmPeer fl → LxmPeer fl
  unfolding heard sync_complete sync_failed
  conclude success now now' p =
      if success
      then sync_complete fl now' (heard fl now (count_transfer p))
      else sync_failed fl now p

  unfoldable pub handle_resource_concluded : ℕ → Bool → F64 → F64 → LxmRouter fl → LxmRouter fl
  unfolding conclude
  handle_resource_concluded hash success now now' r = elim (Map.get hash r.peers) [
    | none ↦ r
    | some p ↦ with_peers (Map.insert hash (conclude success now now' p) r.peers) r
  ]

  abbrev pub pn_stamp_throttle : ℕ
  pn_stamp_throttle = 180

  unfoldable pub throttle_peer : ℕ → F64 → LxmRouter fl → LxmRouter fl
  throttle_peer hash now r = record r {
    throttled_peers = Map.insert hash (add now (of_nat pn_stamp_throttle)) r.throttled_peers;
  }

  unfoldable pub is_peer_throttled : ℕ → F64 → LxmRouter fl → Bool
  is_peer_throttled hash now r = elim (Map.get hash r.throttled_peers) [
    | none ↦ false
    | some expiry ↦ lt now expiry
  ]

  unfoldable pub clean_throttled_peers : F64 → LxmRouter fl → LxmRouter fl
  clean_throttled_peers now r = record r {
    throttled_peers = Map.retain (λ _ expiry. lt now expiry) r.throttled_peers;
  }
