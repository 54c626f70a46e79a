-- ===== src/Node/Session/Install.antt =====
-- The loop that prepares an offer ends once no more entries are retired (crates/lxmf-core/src/propagation_node.rs).
use rs_lxmf.Prelude.{
  ℕ, zero, suc, ◌+◌, ◌*◌, ◌≤◌, ◌≡◌, refl, sym, ◌∙◌, inl, inr, Bool, Bool-cases, true, false, Option,
  some, List, [], ◌∷◌, map, nat_eq, nat_beq_iff, length, to_bytes, In, In-cons, In-nil, Float,
  arith,
}
use rs_lxmf.Map
use rs_lxmf.Map.{Map}
use rs_lxmf.Node.{PreparedSyncOffer}
use rs_lxmf.Node.Chosen.{}
use rs_lxmf.Node.Order.{IsTotalOrder}
use rs_lxmf.Node.Selection.{IsOffer, prepare_sync_offer_snapshot_lem}
use rs_lxmf.Node.Session.{
  RetiredEntries, PropagationNode, is_stored, is_stale, any_missing,
  snapshot_sync_offer_preparation, offer_generation, session_of, installed, stale,
  prepare_sync_offer_with_policy, install_prepared_sync_offer,
}
use rs_lxmf.Peer.Announce.{OutboundOfferPolicy}
use rs_lxmf.Store.{}
use rs_lxmf.Sync.{SyncOffer, prepare_offer, offer_sent}
use rs_lxmf.Node.Session.Quiet.{IsKeyed, prepared_at, install_look, not_stale}

module _ (fl : Float) where
  open fl use {F64}

  -- the node with the session that an offer opens, and the offer
  abbrev pub opened : PreparedSyncOffer fl → PropagationNode fl → PropagationNode fl × SyncOffer
  opened o node = (
    record node {
      sync_sessions =
          Map.insert o.policy.peer_hash
            (record (session_of fl o.policy.peer_hash node) {
              offered_ids = o.selected_ids;
              state = offer_sent;
            })
            node.sync_sessions;
    },
    record { peering_key = o.policy.peering_key; transient_ids = map (to_bytes 32) o.selected_ids },
  )

  install_fresh :
      (seen : ℕ → RetiredEntries) (k : ℕ) (o : PreparedSyncOffer fl) (node : PropagationNode fl)
      → is_stale fl seen k o node ≡ false
      → install_prepared_sync_offer fl seen k o node ≡ (
        (opened o node).0,
        installed (opened o node).1 o.generation o.terminal_handled_ids o.generation_exhausted,
      )
  unfolding install_prepared_sync_offer prepare_offer
  install_fresh seen k o node fresh = rw fresh refl

  install_stale :
      (seen : ℕ → RetiredEntries) (k : ℕ) (o : PreparedSyncOffer fl) (node : PropagationNode fl)
      → is_stale fl seen k o node ≡ true
      → install_prepared_sync_offer fl seen k o node ≡ (node, stale)
  unfolding install_prepared_sync_offer
  install_stale seen k o node old = rw old refl

  -- no id that is installed was missing at its look
  stored_at_look :
      (seen : ℕ → RetiredEntries) (k : ℕ) (node : PropagationNode fl) (ids : List ℕ)
      → any_missing fl seen k node ids ≡ false
      → (id : ℕ) → In id ids
      → (j : ℕ) × (k ≤ j) × (is_stored fl id (seen j) node ≡ true)
  unfolding any_missing
  stored_at_look seen k node [] h id i = absurd (In-nil i)
  stored_at_look seen k node (x ∷ ids) h id i = elim (In-cons i) [
    | inl e ↦ (k, omega arith, rw (← e) (ground (arith, h)))
    | inr later ↦
        let r = stored_at_look seen (k + 1) node ids (ground (arith, h)) id later in
        (r.0, omega (arith, r.1), r.2)
  ]

  module _ (total_lt : F64 → F64 → Bool) (floor : F64 → ℕ) (tenth : F64) where
    -- what the loop has found when it returns: the look at which its last pass began, and the offer
    pub record IsInstalled (files : ℕ → List ℕ) (clock : ℕ → F64) (policy : OutboundOfferPolicy fl)
        (seen : ℕ → RetiredEntries) (node : PropagationNode fl)
        (result : Option (PropagationNode fl × SyncOffer × List ℕ)) : Type 0 where
      pub start : ℕ
      pub offer : PreparedSyncOffer fl
      pub prepared :
          IsOffer fl total_lt floor
            (files start)
            (snapshot_sync_offer_preparation fl tenth policy (clock start) seen start node)
            offer
      pub same_generation :
          offer.generation ≡ offer_generation fl (seen (install_look fl start node)) node
      pub still_stored :
          (id : ℕ)
          → In id offer.selected_ids
          → (j : ℕ) × (install_look fl start node ≤ j) × (is_stored fl id (seen j) node ≡ true)
      pub returned :
          result ≡ some ((opened offer node).0, (opened offer node).1, offer.terminal_handled_ids)

    module _ (order : IsTotalOrder total_lt) (files : ℕ → List ℕ) (clock : ℕ → F64)
        (policy : OutboundOfferPolicy fl) (seen : ℕ → RetiredEntries)
        (node : PropagationNode fl) where
      -- a pass whose offer is not stale is the last
      last_pass :
          (fuel k : ℕ)
          → is_stale fl seen
              (install_look fl k node)
              (prepared_at fl total_lt floor tenth (files k) policy (clock k) seen k node)
              node
            ≡ false
          → IsInstalled files clock policy seen node (
              prepare_sync_offer_with_policy fl total_lt floor tenth
                (suc fuel)
                files
                clock
                policy
                seen
                k
                node)
      unfolding prepare_sync_offer_with_policy
      last_pass fuel k now_fresh =
          let o = prepared_at fl total_lt floor tenth (files k) policy (clock k) seen k node in
          let look = install_look fl k node in
          let fresh = install_fresh seen look o node now_fresh in
          record {
            start = k;
            offer = o;
            prepared =
                prepare_sync_offer_snapshot_lem fl total_lt floor order (files k)
                  (snapshot_sync_offer_preparation fl tenth policy (clock k) seen k node);
            same_generation =
                ground (
                  arith,
                  now_fresh,
                  nat_beq_iff o.generation (offer_generation fl (seen look) node),
                );
            still_stored = λ id i.
                let r =
                  stored_at_look seen (look + 1) node o.selected_ids (ground (arith, now_fresh)) id
                    i in
                (r.0, omega (arith, r.1), r.2);
            returned = rw (fresh, prepare_sync_offer_with_policy) (rw fresh refl);
          }

      -- Where each entry stands under its own id, and what the loop sees of the retired entries stays
      -- the same from some look on, the loop ends in as many passes as half the looks until then, and
      -- one: it returns an offer that meets the policy, prepared from what its last pass saw, of the
      -- generation found at the installation, whose ids were each stored at a look of the installation;
      -- and it opens a session with these ids for the peer, changing nothing else. (Before that look,
      -- workers may retire entries between any two looks, so that passes are stale.) The order of
      -- weights is a total one.
      pub prepare_sync_offer_with_policy_lem :
          IsKeyed fl node
          → (quiet_from : ℕ) → ((j : ℕ) → quiet_from ≤ j → seen j ≡ seen quiet_from)
          → (fuel k : ℕ) → quiet_from ≤ k + 2 * fuel
          → IsInstalled files clock policy seen node (
              prepare_sync_offer_with_policy fl total_lt floor tenth
                (suc fuel)
                files
                clock
                policy
                seen
                k
                node)
      unfolding prepare_sync_offer_with_policy
      prepare_sync_offer_with_policy_lem keyed quiet_from quiet zero k room = last_pass 0 k (
          not_stale fl total_lt floor tenth order (files k) policy (clock k) seen k node keyed
            (λ j h. quiet j (omega (arith, h, room)) ∙ sym (quiet k (omega (arith, room)))))
      prepare_sync_offer_with_policy_lem keyed quiet_from quiet (suc fuel) k room =
          let o = prepared_at fl total_lt floor tenth (files k) policy (clock k) seen k node in
          let look = install_look fl k node in
          elim (Bool-cases (is_stale fl seen look o node)) [
            | inr fresh ↦ last_pass (suc fuel) k fresh
            | inl old ↦
                rw (install_stale seen look o node old, prepare_sync_offer_with_policy)
                  (prepare_sync_offer_with_policy_lem keyed quiet_from quiet fuel
                    (look + 1 + length o.selected_ids) (omega (arith, room)))
          ]
