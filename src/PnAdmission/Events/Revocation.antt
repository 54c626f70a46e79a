-- ===== src/PnAdmission/Events/Revocation.antt =====
-- Candidates are single-use: once committed, discarded or revoked, a candidate is stale for good
-- (crates/lxmf-core/src/propagation_admission.rs).
use rs_lxmf.Prelude.{
  ℕ, ◌≡◌, inl, inr, some, List, [], ◌∷◌, arith, nat_eq, nat_beq_iff, Bool-cases, refl,
}
use rs_lxmf.Map
use rs_lxmf.Map.Laws.{get-remove}
use rs_lxmf.PnAdmission.{
  Hash, PnInboundAdmission, PnOfferCandidate, PnOfferResponse, rejected, stale_candidate,
  PnInboundAdmissionConfig, new,
}
use rs_lxmf.PnAdmission.Offers.{commit_validated_offer, is_exact_pending}
use rs_lxmf.PnAdmission.Events.{Event, commit, discard, closed, step, run}
use rs_lxmf.PnAdmission.Events.Gates.{commit-stale, exact_iff}
use rs_lxmf.PnAdmission.Events.Pending.{IsTracked, IsSpent, tracked, spent}
use rs_lxmf.PnAdmission.Events.Candidates.{
  commit-pending, discard-exact, closed-pending, step-PendingStep,
}

-- the calls that use a candidate up
pub data Ends (c : PnOfferCandidate) : Event → Type 0 where
  by_commit : (response : PnOfferResponse) (now : ℕ) → Ends c (commit c response now)
  by_discard : Ends c (discard c)
  by_close : (k : Hash) → k ≡ c.link_id → Ends c (closed k)

-- A coordinator reached from `new` by any calls keeps one token to a link.
pub run-IsTracked :
    (f : Hash → Hash) (es : List Event) (a : PnInboundAdmission)
    → IsTracked a
    → IsTracked (run f es a)
unfolding run
run-IsTracked f [] a h = h
run-IsTracked f (e ∷ es) a h =
    run-IsTracked f es (step f e a) (tracked a (step f e a) (step-PendingStep f e a) h)

pub new-IsTracked : (config : PnInboundAdmissionConfig) → IsTracked (new config)
unfolding new Map.get
new-IsTracked config = record { given = λ l t e. cc; single = λ l k t e e'. cc }

run-IsSpent :
    (f : Hash → Hash) (es : List Event) (a : PnInboundAdmission) (t : ℕ)
    → IsSpent t a
    → IsSpent t (run f es a)
unfolding run
run-IsSpent f [] a t h = h
run-IsSpent f (e ∷ es) a t h =
    run-IsSpent f es (step f e a) t (spent a (step f e a) (step-PendingStep f e a) t h)

module _ (a : PnInboundAdmission) (c : PnOfferCandidate) (h : IsTracked a)
    (pending : Map.get c.link_id a.pending_candidates ≡ some c.lifecycle) where
  -- without its link's entry a token is pending nowhere
  unlinked :
      (a' : PnInboundAdmission)
      → a'.pending_candidates ≡ Map.remove c.link_id a.pending_candidates
      → a'.next_lifecycle ≡ a.next_lifecycle
      → IsSpent c.lifecycle a'
  unlinked a' e n = record {
    given = ground (arith, h.given c.link_id c.lifecycle);
    gone = λ l u q s. ground (
      arith,
      get-remove c.link_id l a.pending_candidates,
      h.single l c.link_id u,
      nat_beq_iff c.link_id l,
    );
  }

  ended-IsSpent : (f : Hash → Hash) {e : Event} → Ends c e → IsSpent c.lifecycle (step f e a)
  unfolding step
  ended-IsSpent f (by_commit response now) =
      let q = commit-pending a c response now ((exact_iff c a).1 pending) in unlinked _ q.0 q.1
  ended-IsSpent f by_discard =
      rw (discard-exact a c ((exact_iff c a).1 pending)) (unlinked _ refl refl)
  ended-IsSpent f (by_close k e) = let q = closed-pending a k in unlinked _ (rw (← e) q.0) q.1

  -- Where each pending token was given out and stands on one link: once the candidate pending on a
  -- link has been committed (whatever the outcome) or discarded, or its link closed, every later
  -- commit of it, after whatever calls, is refused as stale and changes nothing.
  pub used_candidate_is_stale :
      (f : Hash → Hash) {e : Event}
      → Ends c e
      → (es : List Event) (response : PnOfferResponse) (now : ℕ)
      → commit_validated_offer c response now (run f es (step f e a))
        ≡ (run f es (step f e a), rejected stale_candidate)
  used_candidate_is_stale f {e} ends es response now =
      let later = run f es (step f e a) in
      let s = run-IsSpent f es (step f e a) c.lifecycle (ended-IsSpent f ends) in
      commit-stale c response now later (elim (Bool-cases (is_exact_pending c later)) [
        | inl x ↦ absurd (s.gone c.link_id c.lifecycle ((exact_iff c later).0 x) refl)
        | inr x ↦ x
      ])
