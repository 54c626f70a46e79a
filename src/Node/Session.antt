-- ===== src/Node/Session.antt =====
-- A propagation node's offers: the snapshot of its store and the session that an offer opens
-- (crates/lxmf-core/src/propagation_node.rs). A path is a number. Deletion workers commit retired paths
-- at any time, without the node's lock: `seen k` is what the look with number k at them finds, where
-- looks are numbered in their order and each place that may look has a number.
pub mod Quiet
pub mod Install
use rs_lxmf.Prelude.{
  ℕ, zero, suc, ◌+◌, Bool, true, false, not, Option, none, some, List, [], ◌∷◌, ◌&&◌, ◌||◌, map,
  nat_eq, nat_beq, ◌==◌, if◌then◌else◌, length, contains, u64_max, saturating_add, Bytes, Float,
}
use rs_lxmf.Map
use rs_lxmf.Map.{Map}
use rs_lxmf.Node.{
  SyncOfferCandidate, SyncOfferPreparation, PreparedSyncOffer, prepare_sync_offer_snapshot,
}
use rs_lxmf.Peer.Announce.{OutboundOfferPolicy}
use rs_lxmf.Store.{PropagationEntry, PropagationStore, compute_weight}
use rs_lxmf.Sync
use rs_lxmf.Sync.{SyncSession, SyncOffer, prepare_offer, mark_complete}

-- the retired paths, and how many commits there were
pub record RetiredEntries : Type 0 where
  pub ids : List ℕ
  pub generation : ℕ

-- a deletion worker's commit
unfoldable pub commit : ℕ → RetiredEntries → RetiredEntries
commit path retired = if contains path retired.ids then retired else record {
  ids = path ∷ retired.ids;
  generation = saturating_add u64_max retired.generation 1;
}

module _ (fl : Float) where
  open fl use {F64}

  -- The fields that offers use. The retired entries stand apart, since deletion workers have them too.
  pub record PropagationNode : Type 0 where
    pub store : PropagationStore fl
    pub sync_sessions : Map ℕ SyncSession
    pub object_paths : Map ℕ ℕ
    pub own_generation : ℕ

  pub data InstallPreparedSyncOffer : Type 0 where
    installed : SyncOffer → ℕ → List ℕ → Bool → InstallPreparedSyncOffer
    stale : InstallPreparedSyncOffer

  abbrev pub offer_generation : RetiredEntries → PropagationNode → ℕ
  offer_generation retired node = saturating_add u64_max node.own_generation retired.generation

  unfoldable pub eligible : ℕ → RetiredEntries → PropagationNode → Bool
  eligible id retired node = elim (Map.get id node.object_paths) [
    | none ↦ true
    | some path ↦ not (contains path retired.ids)
  ]

  abbrev pub is_stored : ℕ → RetiredEntries → PropagationNode → Bool
  is_stored id retired node = eligible id retired node && Map.contains_key id node.store.entries

  abbrev pub candidate :
      F64 → F64 → PropagationStore fl → ℕ × PropagationEntry fl → SyncOfferCandidate fl
  candidate tenth now store (k, entry) = record {
    transient_id = entry.transient_id;
    weight = compute_weight fl tenth entry now store;
    size = entry.size;
    stamp_value = entry.stamp_value;
  }

  -- `filter(|entry| self.eligible(&entry.transient_id))`, each entry with a look of its own
  unfoldable pub eligible_entries :
      (ℕ → RetiredEntries)
      → ℕ
      → PropagationNode
      → Map ℕ (PropagationEntry fl)
      → Map ℕ (PropagationEntry fl)
  eligible_entries seen k node [] = []
  eligible_entries seen k node (x ∷ xs) =
      let rest = eligible_entries seen (k + 1) node xs in
      if eligible x.1.transient_id (seen k) node then x ∷ rest else rest

  -- the look at the generation follows those at the entries
  abbrev pub after_entries : ℕ → PropagationNode → ℕ
  after_entries k node = k + length node.store.entries

  unfoldable pub snapshot_sync_offer_preparation :
      F64
      → OutboundOfferPolicy fl
      → F64
      → (ℕ → RetiredEntries)
      → ℕ
      → PropagationNode
      → SyncOfferPreparation fl
  unfolding compute_weight eligible_entries
  snapshot_sync_offer_preparation tenth policy now seen k node = record {
    policy = policy;
    generation = offer_generation (seen (after_entries k node)) node;
    candidates =
        map (candidate tenth now node.store) (eligible_entries seen k node node.store.entries);
  }

  -- `entry(peer_hash).or_insert_with(…)`
  abbrev pub session_of : ℕ → PropagationNode → SyncSession
  session_of peer_hash node = elim (Map.get peer_hash node.sync_sessions) [
    | none ↦ Sync.new peer_hash
    | some session ↦ session
  ]

  unfoldable start_session : ℕ → PropagationNode → PropagationNode
  start_session peer_hash node = record node {
    sync_sessions = Map.insert peer_hash (session_of peer_hash node) node.sync_sessions;
  }

  unfoldable remove_session : ℕ → PropagationNode → PropagationNode
  remove_session peer_hash node = record node {
    sync_sessions = Map.remove peer_hash node.sync_sessions;
  }

  -- the completed session is removed at once
  unfoldable complete_sync : ℕ → PropagationNode → PropagationNode
  unfolding remove_session
  complete_sync peer_hash node = remove_session peer_hash node

  -- `any(|id| !self.contains(id))`, each id with a look of its own
  unfoldable pub any_missing : (ℕ → RetiredEntries) → ℕ → PropagationNode → List ℕ → Bool
  any_missing seen k node [] = false
  any_missing seen k node (id ∷ ids) =
      not (is_stored id (seen k) node) || any_missing seen (k + 1) node ids

  abbrev pub is_stale : (ℕ → RetiredEntries) → ℕ → PreparedSyncOffer fl → PropagationNode → Bool
  is_stale seen k prepared node =
      not (prepared.generation == offer_generation (seen k) node)
      || any_missing seen (k + 1) node prepared.selected_ids

  unfoldable pub install_prepared_sync_offer :
      (ℕ → RetiredEntries)
      → ℕ
      → PreparedSyncOffer fl
      → PropagationNode
      → PropagationNode × InstallPreparedSyncOffer
  unfolding prepare_offer any_missing
  install_prepared_sync_offer seen k prepared node =
      if is_stale seen k prepared node
      then (node, stale)
      else let p = prepared.policy in
        let opened =
          prepare_offer prepared.selected_ids p.peering_key (session_of p.peer_hash node) in
        (
          record node { sync_sessions = Map.insert p.peer_hash opened.0 node.sync_sessions },
          installed opened.1 prepared.generation prepared.terminal_handled_ids
              prepared.generation_exhausted,
        )

  module _ (total_lt : F64 → F64 → Bool) (floor : F64 → ℕ) (tenth : F64) where
    -- The loop, on fuel, from a look on. A pass reads the clock and the peer's file once; the result
    -- has the ids that the file is then given.
    unfoldable pub prepare_sync_offer_with_policy :
        ℕ
        → (ℕ → List ℕ)
        → (ℕ → F64)
        → OutboundOfferPolicy fl
        → (ℕ → RetiredEntries)
        → ℕ
        → PropagationNode
        → Option (PropagationNode × SyncOffer × List ℕ)
    unfolding install_prepared_sync_offer prepare_sync_offer_snapshot
        snapshot_sync_offer_preparation
    prepare_sync_offer_with_policy zero files clock policy seen k node = none
    prepare_sync_offer_with_policy (suc fuel) files clock policy seen k node =
        let snapshot = snapshot_sync_offer_preparation tenth policy (clock k) seen k node in
        let prepared = prepare_sync_offer_snapshot fl total_lt floor (files k) snapshot in
        let install = after_entries k node + 1 in
        let next = install + 1 + length prepared.selected_ids in
        let rest = prepare_sync_offer_with_policy fuel files clock policy seen next node in
        let r = install_prepared_sync_offer seen install prepared node in
        elim r.1 [
          | installed offer generation handled exhausted ↦ some (r.0, offer, handled)
          | stale ↦ rest
        ]
