-- ===== src/Peer/Announce.antt =====
-- Peers from propagation announces, and the snapshot of the policy for one outbound offer
-- (crates/lxmf-core/src/peer.rs).
use rs_lxmf.Prelude.{
  ℕ, ◌≡◌, ◌↔◌, ◌⊎◌, inl, inr, Bool, true, false, Option, none, some, List, [], ◌||◌, not, arith,
  nat_eq, nat_beq, if◌then◌else◌, ltb, leb, Bytes, Bool-cases, refl, Float, to_bytes,
}
use rs_lxmf.Map.{Map}
use rs_lxmf.Peer.{
  LxmPeer, new, heard, default_peering_cost, or_default, or_option, key_ready, peering_key_ready,
  minimum_accepted_stamp_cost,
}
use rs_lxmf.Peer.Metadata.{bounded_peer_metadata}

-- `!=` on optional costs and limits
abbrev pub option_beq {ℓ} : {A : Type ℓ} → (A → A → Bool) → Option A → Option A → Bool
option_beq eq none none = true
option_beq eq (some a) (some b) = eq a b
option_beq eq _ _ = false

module _ (fl : Float) where
  open fl use {F64, of_nat, le, eq}

  -- the policy that an announce carries
  pub record Announced : Type 0 where
    pub timebase : F64
    pub transfer_limit : Option F64
    pub sync_limit : Option F64
    pub stamp_cost : Option ℕ
    pub stamp_flexibility : Option ℕ
    pub peering_cost : Option ℕ

  unfoldable pub from_announce_with_metadata :
      ℕ → F64 → Announced → Option (Map ℕ Bytes) → LxmPeer fl
  unfolding new bounded_peer_metadata
  from_announce_with_metadata destination_hash now a metadata =
      record (new fl destination_hash now) {
        peering_timebase = a.timebase;
        propagation_transfer_limit = a.transfer_limit;
        propagation_sync_limit = or_option a.sync_limit a.transfer_limit;
        stamp_cost = a.stamp_cost;
        stamp_cost_flexibility = a.stamp_flexibility;
        peering_cost = or_default a.peering_cost default_peering_cost;
        metadata = bounded_peer_metadata metadata;
        autopeered = true;
      }

  -- `offer_constraints_changed`
  unfoldable pub offer_constraints_changed : Announced → LxmPeer fl → Bool
  offer_constraints_changed a p =
      not (option_beq eq p.propagation_transfer_limit a.transfer_limit)
      || not (option_beq eq p.propagation_sync_limit (or_option a.sync_limit a.transfer_limit))
      || not (option_beq nat_beq p.stamp_cost a.stamp_cost)
      || not (option_beq nat_beq p.stamp_cost_flexibility a.stamp_flexibility)
      || not (nat_beq p.peering_cost (or_default a.peering_cost default_peering_cost))

  -- A key remains while it meets the new cost.
  abbrev kept_key : Option (ℕ × ℕ) → ℕ → Option (ℕ × ℕ)
  kept_key none cost = none
  kept_key (some (stamp, value)) cost = if ltb value cost then none else some (stamp, value)

  kept_key_ready :
      (key : Option (ℕ × ℕ)) (cost : ℕ)
      → (kept_key key cost ≡ none) ⊎ (key_ready fl (kept_key key cost) cost ≡ true)
  kept_key_ready none cost = inl refl
  kept_key_ready (some (stamp, value)) cost = elim (Bool-cases (ltb value cost)) [
    | inl low ↦ inl (ground arith)
    | inr high ↦ inr (ground arith)
  ]

  unfoldable pub refresh_from_announce_with_metadata :
      Announced → Option (Map ℕ Bytes) → F64 → LxmPeer fl → LxmPeer fl × Bool
  unfolding heard
  refresh_from_announce_with_metadata a metadata now p =
      if le a.timebase p.peering_timebase
      then (p, false)
      else let cost = or_default a.peering_cost default_peering_cost in
        let p1 = record p {
          peering_timebase = a.timebase;
          propagation_transfer_limit = a.transfer_limit;
          propagation_sync_limit = or_option a.sync_limit a.transfer_limit;
          stamp_cost = a.stamp_cost;
          stamp_cost_flexibility = a.stamp_flexibility;
          peering_cost = cost;
          metadata = bounded_peer_metadata metadata;
          last_offer_generation =
              if offer_constraints_changed a p then 0 else p.last_offer_generation;
          peering_key = kept_key p.peering_key cost;
        } in
        (record (heard fl now p1) { next_sync_attempt = of_nat 0 }, true)

  unfoldable pub refresh_from_announce : Announced → F64 → LxmPeer fl → LxmPeer fl × Bool
  refresh_from_announce a now p = refresh_from_announce_with_metadata a p.metadata now p

  -- the inputs of one outbound offer; the key is its bytes, empty where it is not ready
  pub record OutboundOfferPolicy : Type 0 where
    pub peer_hash : ℕ
    pub handled_messages : List ℕ
    pub stamp_cost : Option ℕ
    pub stamp_cost_flexibility : Option ℕ
    pub minimum_stamp_cost : ℕ
    pub peering_cost : ℕ
    pub propagation_transfer_limit : Option F64
    pub propagation_sync_limit : Option F64
    pub peering_key : Bytes
    pub peering_key_value : Option ℕ
    pub peering_timebase : F64
    pub autopeered : Bool
    pub is_static : Bool
    pub metadata : Option (Map ℕ Bytes)

  abbrev ready_key : Option (ℕ × ℕ) → ℕ → Bytes
  ready_key none cost = []
  ready_key (some (stamp, value)) cost = if leb cost value then to_bytes 32 stamp else []

  abbrev key_value : Option (ℕ × ℕ) → Option ℕ
  key_value none = none
  key_value (some (stamp, value)) = some value

  unfoldable pub outbound_offer_policy : LxmPeer fl → OutboundOfferPolicy
  outbound_offer_policy p = record {
    peer_hash = p.destination_hash;
    handled_messages = p.handled_messages;
    stamp_cost = p.stamp_cost;
    stamp_cost_flexibility = p.stamp_cost_flexibility;
    minimum_stamp_cost = minimum_accepted_stamp_cost fl p;
    peering_cost = p.peering_cost;
    propagation_transfer_limit = p.propagation_transfer_limit;
    propagation_sync_limit = p.propagation_sync_limit;
    peering_key = ready_key p.peering_key p.peering_cost;
    peering_key_value = key_value p.peering_key;
    peering_timebase = p.peering_timebase;
    autopeered = p.autopeered;
    is_static = p.is_static;
    metadata = p.metadata;
  }

  -- A refresh is taken exactly when the announce's timebase is not at or before the stored one, and
  -- otherwise changes nothing. After it the peer has the announced policy, a key that it still has
  -- meets the new cost, it is alive, and its handled messages, its static mark and its sync state are
  -- untouched; an offer is due again if a constraint of offers has changed.
  pub refresh_lem :
      (a : Announced) (metadata : Option (Map ℕ Bytes)) (now : F64) (p : LxmPeer fl)
      → let r = refresh_from_announce_with_metadata a metadata now p in
        ((r.1 ≡ true) ↔ (le a.timebase p.peering_timebase ≡ false))
        × (r.1 ≡ false → r.0 ≡ p)
        × (r.1 ≡ true
            → (r.0.peering_timebase ≡ a.timebase)
              × (r.0.stamp_cost ≡ a.stamp_cost)
              × (r.0.peering_cost ≡ or_default a.peering_cost default_peering_cost)
              × ((r.0.peering_key ≡ none) ⊎ (peering_key_ready fl r.0 ≡ true))
              × (r.0.alive ≡ true)
              × (r.0.handled_messages ≡ p.handled_messages)
              × (r.0.is_static ≡ p.is_static)
              × (r.0.state ≡ p.state)
              × (offer_constraints_changed a p ≡ true → r.0.last_offer_generation ≡ 0))
  unfolding refresh_from_announce_with_metadata peering_key_ready
  refresh_lem a metadata now p = elim (Bool-cases (le a.timebase p.peering_timebase)) [
    | inl stale ↦ rw stale (ground arith, λ h. refl, λ h. absurd (ground arith))
    | inr newer ↦ rw newer (
      ground arith,
      λ h. absurd (ground arith),
      λ h. (
        refl,
        refl,
        refl,
        kept_key_ready p.peering_key (or_default a.peering_cost default_peering_cost),
        refl,
        refl,
        refl,
        refl,
        λ c. rw c,
      ),
    )
  ]
