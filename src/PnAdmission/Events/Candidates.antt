-- ===== src/PnAdmission/Events/Candidates.antt =====
-- Every call is one step of the pending tokens
-- (crates/lxmf-core/src/propagation_admission.rs).
use rs_lxmf.Prelude.{ℕ, ◌≡◌, inl, inr, true, arith, nat_eq, Bool-cases, refl}
use rs_lxmf.Map
use rs_lxmf.Map.Laws.{}
use rs_lxmf.PnAdmission.{
  Hash, PnInboundAdmission, PnOfferCandidate, PnOfferResponse, PnInboundState,
  PnTransitionOperation, PnValidationResult,
}
use rs_lxmf.PnAdmission.Offers.{
  expire_throttles, commit_validated_offer, is_exact_pending, discard_candidate,
  install_invalid_stamp_throttle,
}
use rs_lxmf.PnAdmission.Transfers.{
  transition, resource_started, resource_concluded, validation_concluded, remove_record,
  link_closed,
}
use rs_lxmf.PnAdmission.Events.{
  Event, preflight, commit, discard, started, concluded, released, closed, validated, throttle,
  expire, static_set, static_add, static_remove, step, add_static_peer,
}
use rs_lxmf.PnAdmission.Events.Gates.{commit-exact, commit-stale}
use rs_lxmf.PnAdmission.Events.Pending.{
  PendingStep, unmoved, dropped, preflight-PendingStep, record_offer-pending,
}

-- the two fields that the tokens are in
abbrev pub SameTokens : PnInboundAdmission → PnInboundAdmission → Type 0
SameTokens a a' =
    (a'.pending_candidates ≡ a.pending_candidates) × (a'.next_lifecycle ≡ a.next_lifecycle)

module _ (a : PnInboundAdmission) where
  pub commit-pending :
      (c : PnOfferCandidate) (response : PnOfferResponse) (now : ℕ)
      → is_exact_pending c a ≡ true
      → let a' = (commit_validated_offer c response now a).0 in
        (a'.pending_candidates ≡ Map.remove c.link_id a.pending_candidates)
        × (a'.next_lifecycle ≡ a.next_lifecycle)
  unfolding expire_throttles
  commit-pending c response now e =
      rw (commit-exact c response now a e) (record_offer-pending _ c response _)

  commit-PendingStep :
      (c : PnOfferCandidate) (response : PnOfferResponse) (now : ℕ)
      → PendingStep a (commit_validated_offer c response now a).0
  commit-PendingStep c response now = elim (Bool-cases (is_exact_pending c a)) [
    | inl e ↦
        let h = commit-pending c response now e in
        dropped a c.link_id (commit_validated_offer c response now a).0 h.0 h.1
    | inr e ↦ rw (commit-stale c response now a e) (unmoved a a refl refl)
  ]

  pub discard-exact :
      (c : PnOfferCandidate)
      → is_exact_pending c a ≡ true
      → (discard_candidate c a).0
        ≡ record a { pending_candidates = Map.remove c.link_id a.pending_candidates }
  unfolding discard_candidate
  discard-exact c e = rw e

  discard-PendingStep : (c : PnOfferCandidate) → PendingStep a (discard_candidate c a).0
  discard-PendingStep c = elim (Bool-cases (is_exact_pending c a)) [
    | inl e ↦ rw (discard-exact c e) (dropped a c.link_id _ refl refl)
    | inr e ↦ unfold discard_candidate in rw e (unmoved a a refl refl)
  ]

  pub closed-pending :
      (k : Hash)
      → ((link_closed k a).0.pending_candidates ≡ Map.remove k a.pending_candidates)
        × ((link_closed k a).0.next_lifecycle ≡ a.next_lifecycle)
  unfolding link_closed
  closed-pending k = ground arith

  transition-tokens :
      (k : Hash) (expected next : PnInboundState) (op : PnTransitionOperation)
      → SameTokens a (transition k expected next op a).0
  unfolding transition
  transition-tokens k expected next op = ground arith

  install-tokens :
      (peer : Hash) (now : ℕ) → SameTokens a (install_invalid_stamp_throttle peer now a).0
  unfolding install_invalid_stamp_throttle
  install-tokens peer now = ground arith

  released-tokens : (k : Hash) → SameTokens a (remove_record k a).0
  unfolding remove_record
  released-tokens k = ground arith

  static_add-tokens : (peer : Hash) → SameTokens a (add_static_peer peer a).0
  unfolding add_static_peer
  static_add-tokens peer = ground arith

  validated-tokens :
      (k : Hash) (result : PnValidationResult) (now : ℕ)
      → SameTokens a (validation_concluded k result now a).0
  unfolding validation_concluded install_invalid_stamp_throttle
  validated-tokens k result now = ground arith

  from_tokens : (a' : PnInboundAdmission) → SameTokens a a' → PendingStep a a'
  from_tokens a' h = unmoved a a' h.0 h.1

pub step-PendingStep :
    (f : Hash → Hash) (e : Event) (a : PnInboundAdmission) → PendingStep a (step f e a)
unfolding step
step-PendingStep f (preflight held k identity now) a = preflight-PendingStep a f held k identity now
step-PendingStep f (commit c response now) a = commit-PendingStep a c response now
step-PendingStep f (discard c) a = discard-PendingStep a c
step-PendingStep f (started k) a =
    unfold resource_started in from_tokens a _ (transition-tokens a k _ _ _)
step-PendingStep f (concluded k) a =
    unfold resource_concluded in from_tokens a _ (transition-tokens a k _ _ _)
step-PendingStep f (released k) a = from_tokens a _ (released-tokens a k)
step-PendingStep f (closed k) a =
    let h = closed-pending a k in dropped a k (link_closed k a).0 h.0 h.1
step-PendingStep f (validated k result now) a = from_tokens a _ (validated-tokens a k result now)
step-PendingStep f (throttle peer now) a = from_tokens a _ (install-tokens a peer now)
step-PendingStep f (expire now) a = unfold expire_throttles in unmoved a _ refl refl
step-PendingStep f (static_set peers) a = unmoved a _ refl refl
step-PendingStep f (static_add peer) a = from_tokens a _ (static_add-tokens a peer)
step-PendingStep f (static_remove peer) a = unmoved a _ refl refl
