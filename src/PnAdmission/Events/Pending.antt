-- ===== src/PnAdmission/Events/Pending.antt =====
-- What each call does to the pending candidates and their tokens
-- (crates/lxmf-core/src/propagation_admission.rs).
use rs_lxmf.Prelude.{
  ℕ, ◌+◌, ◌≤◌, ◌<◌, ◌≡◌, ◌≢◌, ◌⊎◌, inl, inr, Option, none, some, List, arith, nat_eq, nat_beq_iff,
  Bool-cases, is_some, refl, Result, ok, err,
}
use rs_lxmf.Map
use rs_lxmf.Map.Laws.{get-insert, get-remove, get-retain}
use rs_lxmf.PnAdmission.{
  Hash, PnInboundAdmission, PnOfferCandidate, PnOfferResponse, PnOfferRejection,
}
use rs_lxmf.PnAdmission.Offers.{
  check_offer_gates, expire_throttles, preflight_offer, record_offer, preflight_identified,
  prune_abandoned_candidates, start_candidate, upgrade,
}
use rs_lxmf.PnAdmission.Transfers.{}
use rs_lxmf.PnAdmission.Events.{}
use rs_lxmf.PnAdmission.Events.Gates.{}

-- What a call does to the pending tokens: it drops some, and puts at most the next fresh one on one
-- link.
pub record PendingStep (a a' : PnInboundAdmission) : Type 0 where
  pub on : Hash
  pub kept :
      (l : Hash) (t : ℕ)
      → Map.get l a'.pending_candidates ≡ some t
      → (Map.get l a.pending_candidates ≡ some t)
        ⊎ ((t ≡ a.next_lifecycle) × (l ≡ on) × (a'.next_lifecycle ≡ a.next_lifecycle + 1))
  pub grows : a.next_lifecycle ≤ a'.next_lifecycle

-- Pending tokens were given out, each on one link.
pub record IsTracked (a : PnInboundAdmission) : Type 0 where
  pub given : (l : Hash) (t : ℕ) → Map.get l a.pending_candidates ≡ some t → t < a.next_lifecycle
  pub single :
      (l k : Hash) (t : ℕ)
      → Map.get l a.pending_candidates ≡ some t
      → Map.get k a.pending_candidates ≡ some t
      → l ≡ k

-- A token that was given out and is pending nowhere.
pub record IsSpent (t : ℕ) (a : PnInboundAdmission) : Type 0 where
  pub given : t < a.next_lifecycle
  pub gone : (l : Hash) (u : ℕ) → Map.get l a.pending_candidates ≡ some u → u ≢ t

module _ (a a' : PnInboundAdmission) (s : PendingStep a a') where
  pub tracked : IsTracked a → IsTracked a'
  tracked h = record {
    given = λ l t e. ground (arith, s.kept l t e, s.grows, h.given l t);
    single = λ l k t e e'.
        ground (arith, s.kept l t e, s.kept k t e', h.single l k t, h.given l t, h.given k t);
  }

  pub spent : (t : ℕ) → IsSpent t a → IsSpent t a'
  spent t h = record {
    given = omega (arith, s.grows, h.given);
    gone = λ l u e e'. ground (arith, s.kept l u e, h.gone l u, h.given);
  }

module _ (a : PnInboundAdmission) where
  pub unmoved :
      (a' : PnInboundAdmission)
      → a'.pending_candidates ≡ a.pending_candidates
      → a'.next_lifecycle ≡ a.next_lifecycle
      → PendingStep a a'
  unmoved a' e n = record { on = 0; kept = λ l t h. inl (rw e at h); grows = omega arith }

  pub dropped :
      (k : Hash) (a' : PnInboundAdmission)
      → a'.pending_candidates ≡ Map.remove k a.pending_candidates
      → a'.next_lifecycle ≡ a.next_lifecycle
      → PendingStep a a'
  dropped k a' e n = record {
    on = 0;
    kept = λ l t h. ground (arith, get-remove k l a.pending_candidates);
    grows = omega arith;
  }

  pub pruned : (held : List ℕ) → PendingStep a (prune_abandoned_candidates held a)
  unfolding prune_abandoned_candidates
  pruned held = record {
    on = 0;
    kept = λ l t h.
        ground (arith, get-retain (λ _ u. is_some (upgrade held u)) l a.pending_candidates);
    grows = omega arith;
  }

  pub started_candidate :
      (k identity peer : Hash) (gate : Result (Unit {0}) PnOfferRejection)
      → PendingStep a (start_candidate k identity peer a gate).0
  unfolding start_candidate
  started_candidate k identity peer (err e) = unmoved a refl refl
  started_candidate k identity peer (ok _) = record {
    on = k;
    kept = λ l t h.
        ground (arith, nat_beq_iff k l, get-insert k l a.next_lifecycle a.pending_candidates);
    grows = omega arith;
  }

pub then_step :
    (a b c : PnInboundAdmission)
    → PendingStep a b
    → b.next_lifecycle ≡ a.next_lifecycle
    → PendingStep b c
    → PendingStep a c
then_step a b c s n s' = record {
  on = s'.on;
  kept = λ l t h. ground (arith, s'.kept l t h, s.kept l t);
  grows = omega (arith, s'.grows);
}

pub identified-PendingStep :
    (a : PnInboundAdmission) (k identity peer : Hash) (now : ℕ)
    → PendingStep a (preflight_identified k identity peer now a).0
unfolding preflight_identified check_offer_gates
identified-PendingStep a k identity peer now =
    elim (Bool-cases (Map.contains_key k a.pending_candidates)) [
      | inl busy ↦ rw busy (unmoved a a refl refl)
      | inr idle ↦ rw idle (
          unfold expire_throttles in
          then_step a (expire_throttles now a) _ (unmoved a _ refl refl) refl
            (started_candidate _ k identity peer _))
    ]

module _ (a : PnInboundAdmission) where
  pub preflight-PendingStep :
      (f : Hash → Hash) (held : List ℕ) (k : Hash) (identity : Option Hash) (now : ℕ)
      → PendingStep a (preflight_offer f held k identity now a).0
  unfolding preflight_offer
  preflight-PendingStep f held k none now = pruned a held
  preflight-PendingStep f held k (some identity) now =
      then_step a (prune_abandoned_candidates held a) _ (pruned a held)
        (unfold prune_abandoned_candidates in refl)
        (identified-PendingStep (prune_abandoned_candidates held a) k identity (f identity) now)

  pub record_offer-pending :
      (c : PnOfferCandidate) (response : PnOfferResponse)
      (gate : Result (Unit {0}) PnOfferRejection)
      → ((record_offer c response a gate).0.pending_candidates ≡ a.pending_candidates)
        × ((record_offer c response a gate).0.next_lifecycle ≡ a.next_lifecycle)
  unfolding record_offer
  record_offer-pending c response (err e) = (refl, refl)
  record_offer-pending c PnOfferResponse.have_all (ok _) = (refl, refl)
  record_offer-pending c PnOfferResponse.want_all (ok _) = (refl, refl)
  record_offer-pending c PnOfferResponse.want_some (ok _) = (refl, refl)
