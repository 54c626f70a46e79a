-- ===== src/PnAdmission/Events/Gates.antt =====
-- The gates of `preflight_offer` and `commit_validated_offer` against a declarative policy
-- (crates/lxmf-core/src/propagation_admission.rs).
use rs_lxmf.Prelude.{
  ℕ, ◌≤◌, ◌<◌, ◌≡◌, ◌≢◌, ◌↔◌, inl, inr, true, false, ltb, none, some, arith, nat_eq, ok, err,
  Bool-cases, Option-cases, sym, ◌∙◌, refl, Result,
}
use rs_lxmf.Map
use rs_lxmf.Map.Laws.{get-retain}
use rs_lxmf.PnAdmission.{
  Hash, PnInboundAdmission, PnOfferCandidate, PnOfferResponse, PnOfferAdmission, PnOfferRejection,
  rejected, stale_candidate, inbound_sync_count, validation_count, is_static_peer,
}
use rs_lxmf.PnAdmission.Offers.{
  bypasses_limits, offer_gates, check_offer_gates, expire_throttles, record_offer,
  commit_validated_offer, is_exact_pending,
}

-- What the policy asks of an offer on `link_id` by the peer with the given destination.
pub record IsAdmissible (link_id peer : Hash) (now : ℕ) (a : PnInboundAdmission) : Type 0 where
  pub quiet :
      bypasses_limits peer a ≡ false
      → a.config.sequential_validation ≡ true
      → validation_count a ≡ 0
  pub room : bypasses_limits peer a ≡ false → inbound_sync_count a < a.config.max_inbound_syncs
  pub unthrottled : (d : ℕ) → Map.get peer a.throttle_deadlines ≡ some d → d ≤ now
  pub allowed : a.config.from_static_only ≡ true → is_static_peer peer a ≡ true
  pub untracked : Map.get link_id a.records ≡ none

stale_ne : rejected stale_candidate ≡ PnOfferAdmission.accepted → ⊥
stale_ne h = cc

true_ne : true ≡ false → ⊥
true_ne h = cc

module _ (peer : Hash) (now : ℕ) (deadlines : Map.Map Hash ℕ) where
  throttle_open :
      Map.contains_key peer (Map.retain (λ _ d. ltb now d) deadlines) ≡ false
      → (d : ℕ) → Map.get peer deadlines ≡ some d
      → d ≤ now
  throttle_open h d e = ground (arith, get-retain (λ _ d. ltb now d) peer deadlines)

  throttle_expired :
      ((d : ℕ) → Map.get peer deadlines ≡ some d → d ≤ now)
      → Map.contains_key peer (Map.retain (λ _ d. ltb now d) deadlines) ≡ false
  throttle_expired h = elim (Option-cases (Map.get peer deadlines)) [
    | inl e ↦ ground (arith, get-retain (λ _ d. ltb now d) peer deadlines)
    | inr (d, e) ↦ ground (arith, h d e, get-retain (λ _ d. ltb now d) peer deadlines)
  ]

module _ (link_id peer : Hash) (now : ℕ) (a : PnInboundAdmission) where
  pub gates_sound :
      offer_gates link_id peer (expire_throttles now a) ≡ ok tt → IsAdmissible link_id peer now a
  unfolding offer_gates bypasses_limits expire_throttles inbound_sync_count validation_count
      is_static_peer
  gates_sound h = record {
    quiet = ground arith;
    room = ground arith;
    unthrottled = throttle_open peer now a.throttle_deadlines (ground arith);
    allowed = ground arith;
    untracked = ground arith;
  }

  pub gates_complete :
      IsAdmissible link_id peer now a → offer_gates link_id peer (expire_throttles now a) ≡ ok tt
  unfolding offer_gates bypasses_limits expire_throttles inbound_sync_count validation_count
      is_static_peer
  gates_complete h = ground (arith, throttle_expired peer now a.throttle_deadlines h.unthrottled)

-- the pending map plays no part in the gates
pub gates_pending :
    (link_id peer : Hash) (now : ℕ) (a : PnInboundAdmission) (p : Map.Map Hash ℕ)
    → offer_gates link_id peer (expire_throttles now (record a { pending_candidates = p }))
      ≡ offer_gates link_id peer (expire_throttles now a)
unfolding offer_gates bypasses_limits expire_throttles inbound_sync_count validation_count
    is_static_peer
gates_pending link_id peer now a p = refl

pub exact_iff :
    (c : PnOfferCandidate) (a : PnInboundAdmission)
    → (is_exact_pending c a ≡ true) ↔ (Map.get c.link_id a.pending_candidates ≡ some c.lifecycle)
unfolding is_exact_pending
exact_iff c a = ground arith

recorded_accepted :
    (c : PnOfferCandidate) (response : PnOfferResponse) (a : PnInboundAdmission)
    (gate : Result (Unit {0}) PnOfferRejection)
    → ((record_offer c response a gate).1 ≡ PnOfferAdmission.accepted)
      ↔ ((gate ≡ ok tt) × (response ≢ PnOfferResponse.have_all))
unfolding record_offer
recorded_accepted c PnOfferResponse.have_all a (ok tt) = ground arith
recorded_accepted c PnOfferResponse.want_all a (ok tt) = ground arith
recorded_accepted c PnOfferResponse.want_some a (ok tt) = ground arith
recorded_accepted c PnOfferResponse.have_all a (err e) = ground arith
recorded_accepted c PnOfferResponse.want_all a (err e) = ground arith
recorded_accepted c PnOfferResponse.want_some a (err e) = ground arith

module _ (c : PnOfferCandidate) (response : PnOfferResponse) (now : ℕ)
    (a : PnInboundAdmission) where
  abbrev gate : Result (Unit {0}) PnOfferRejection
  gate = offer_gates c.link_id c.peer_destination_hash (expire_throttles now a)

  abbrev released : PnInboundAdmission
  released =
      expire_throttles now
        (record a { pending_candidates = Map.remove c.link_id a.pending_candidates })

  -- the two outcomes of the test for a stale candidate
  pub commit-exact :
      is_exact_pending c a ≡ true
      → commit_validated_offer c response now a ≡ record_offer c response released gate
  unfolding commit_validated_offer check_offer_gates
  commit-exact e = rw e (rw gates_pending)

  pub commit-stale :
      is_exact_pending c a ≡ false
      → commit_validated_offer c response now a ≡ (a, rejected stale_candidate)
  unfolding commit_validated_offer
  commit-stale e = rw e

  -- A commit is accepted exactly when the candidate is the one pending on its link, the policy
  -- admits the offer at this time, and the peer has something that is wanted.
  pub commit_accepted_iff :
      ((commit_validated_offer c response now a).1 ≡ PnOfferAdmission.accepted) ↔ (
        (Map.get c.link_id a.pending_candidates ≡ some c.lifecycle)
        × IsAdmissible c.link_id c.peer_destination_hash now a
        × (response ≢ PnOfferResponse.have_all))
  commit_accepted_iff = elim (Bool-cases (is_exact_pending c a)) [
    | inl e ↦ (
      λ h.
          let r = (recorded_accepted c response released gate).0 (rw (commit-exact e) at h) in
          ((exact_iff c a).0 e, gates_sound _ _ now a r.0, r.1),
      λ (p, q, r).
          rw (commit-exact e)
            ((recorded_accepted c response released gate).1 (gates_complete _ _ now a q, r)),
    )
    | inr e ↦ (
      λ h. absurd (stale_ne (rw (commit-stale e) at h)),
      λ (p, q, r). absurd (true_ne (sym ((exact_iff c a).1 p) ∙ e)),
    )
  ]
