-- ===== src/Tests/Nodes.antt =====
-- Offers of the node of crates/lxmf-core/src/propagation_node.rs on concrete inputs.
use rs_lxmf.Prelude.{
  ℕ, ◌≡◌, true, false, Option, some, none, List, [], ◌∷◌, refl, nat_eq, ltb, In-cons, In-nil, inl,
  inr, sym, ap, contains, ◌∙◌, if◌then◌else◌, arith,
}
use rs_lxmf.Map
use rs_lxmf.Node.{
  SyncOfferCandidate, SyncOfferPreparation, prepare_sync_offer_snapshot, select_candidates,
  disposition, sort_candidates, insert_candidate, kilobytes_to_bytes_fail_closed,
}
use rs_lxmf.Node.Order.{IsTotalOrder}
use rs_lxmf.Node.Selection.{IsOffer, prepare_sync_offer_snapshot_lem}
use rs_lxmf.Node.Session.{
  RetiredEntries, commit, PropagationNode, prepare_sync_offer_with_policy,
  install_prepared_sync_offer, any_missing, snapshot_sync_offer_preparation, eligible_entries,
  eligible,
}
use rs_lxmf.Node.Session.Quiet.{IsKeyed}
use rs_lxmf.Node.Session.Install.{IsInstalled, prepare_sync_offer_with_policy_lem}
use rs_lxmf.Peer.Announce.{OutboundOfferPolicy}
use rs_lxmf.Store
use rs_lxmf.Store.{PropagationEntry, compute_weight}
use rs_lxmf.Sync.{SyncOffer, prepare_offer}
use rs_lxmf.Tests.Numbers.{whole}

-- a peer that takes a kilobyte a sync and has handled message 4
abbrev policy : OutboundOfferPolicy whole
policy = record {
  peer_hash = 9;
  handled_messages = 4 ∷ [];
  stamp_cost = some 8;
  stamp_cost_flexibility = some 0;
  minimum_stamp_cost = 8;
  peering_cost = 0;
  propagation_transfer_limit = some 2;
  propagation_sync_limit = some 1;
  peering_key = [];
  peering_key_value = none;
  peering_timebase = 0;
  autopeered = false;
  is_static = true;
  metadata = none;
}

abbrev sample : ℕ → ℕ → ℕ → SyncOfferCandidate whole
sample id size stamp_value = record {
  transient_id = id;
  weight = size;
  size = size;
  stamp_value = stamp_value;
}

-- 1 fits, 2 is for later, 3 is too large, 4 is known and 5 has too weak a stamp
abbrev snapshot : SyncOfferPreparation whole
snapshot = record {
  policy = policy;
  generation = 3;
  candidates =
      sample 3 5000 9 ∷ sample 2 600 9 ∷ sample 1 400 9 ∷ sample 4 10 9 ∷ sample 5 20 7 ∷ [];
}

offer_runs : prepare_sync_offer_snapshot whole ltb (λ n. n) [] snapshot ≡ record {
  policy = policy;
  generation = 3;
  selected_ids = 1 ∷ [];
  terminal_handled_ids = 5 ∷ 3 ∷ [];
  generation_exhausted = false;
}
unfolding prepare_sync_offer_snapshot select_candidates disposition sort_candidates insert_candidate
    kilobytes_to_bytes_fail_closed contains
offer_runs = refl

below-IsTotalOrder : IsTotalOrder ltb
below-IsTotalOrder = record {
  asym = λ a b h. ground (arith, h);
  trans = λ a b c h g. ground (arith, h, g);
}

prepare_sync_offer_snapshot_lem_example :
    IsOffer whole ltb
      (λ n. n)
      (7 ∷ [])
      snapshot
      (prepare_sync_offer_snapshot whole ltb (λ n. n) (7 ∷ []) snapshot)
prepare_sync_offer_snapshot_lem_example =
    prepare_sync_offer_snapshot_lem whole ltb (λ n. n) below-IsTotalOrder (7 ∷ []) snapshot

abbrev entry : ℕ → PropagationEntry whole
entry id = record {
  transient_id = id;
  message_hash = id;
  destination_hash = 5;
  stored_at = 0;
  stamp_value = 9;
  size = 400;
  collected = false;
  stamped = true;
}

abbrev node : PropagationNode whole
node = record {
  store = record (Store.new whole) { entries = (1, entry 1) ∷ (2, entry 2) ∷ []; total_size = 800 };
  sync_sessions = [];
  object_paths = (1, 70) ∷ (2, 71) ∷ [];
  own_generation = 3;
}

node-IsKeyed : IsKeyed whole node
node-IsKeyed k e h = elim (In-cons h) [
  | inl same ↦ sym (ap (λ x. x.1.transient_id) same) ∙ ap (λ x. x.0) same
  | inr later ↦ elim (In-cons later) [
    | inl same ↦ sym (ap (λ x. x.1.transient_id) same) ∙ ap (λ x. x.0) same
    | inr nothing_left ↦ absurd (In-nil nothing_left)
  ]
]

abbrev none_retired : RetiredEntries
none_retired = record { ids = []; generation = 0 }

-- a worker retires message 2 after the snapshot of the first pass, which has three looks
abbrev seen : ℕ → RetiredEntries
seen k = if ltb k 3 then none_retired else commit 71 none_retired

-- the ids that the session of the peer has
abbrev offered : Option (PropagationNode whole × SyncOffer × List ℕ) → Option (List ℕ)
offered none = none
offered (some (n, offer, handled)) = elim (Map.get 9 n.sync_sessions) [
  | none ↦ none
  | some session ↦ some session.offered_ids
]

abbrev run : ℕ → Option (PropagationNode whole × SyncOffer × List ℕ)
run passes =
    prepare_sync_offer_with_policy whole ltb (λ n. n) 1 passes (λ k. []) (λ k. 50) policy seen 0
      node

-- so that the first pass is stale, and the second offers message 1
loop_runs : (offered (run 1) ≡ none) × (offered (run 2) ≡ some (1 ∷ []))
unfolding prepare_sync_offer_with_policy install_prepared_sync_offer any_missing prepare_offer
    snapshot_sync_offer_preparation eligible_entries eligible commit compute_weight
    prepare_sync_offer_snapshot select_candidates disposition sort_candidates insert_candidate
    kilobytes_to_bytes_fail_closed contains Map.get Map.insert
loop_runs = (refl, refl)

prepare_sync_offer_with_policy_lem_example :
    IsInstalled whole ltb (λ n. n) 1 (λ k. []) (λ k. 50) policy seen node (run 3)
prepare_sync_offer_with_policy_lem_example =
    prepare_sync_offer_with_policy_lem whole ltb (λ n. n) 1 below-IsTotalOrder (λ k. []) (λ k. 50)
      policy seen node node-IsKeyed 3 (λ j h. ground (arith, h)) 2 0 (omega arith)
