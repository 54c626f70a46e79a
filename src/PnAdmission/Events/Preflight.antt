-- ===== src/PnAdmission/Events/Preflight.antt =====
-- What a successful `preflight_offer` needs and what it grants
-- (crates/lxmf-core/src/propagation_admission.rs).
use rs_lxmf.Prelude.{
  ℕ, ◌≡◌, ◌↔◌, inl, inr, Bool, true, false, Option, none, some, List, arith, nat_eq, ok, err,
  contains, is_some, is_ok, Bool-cases, sym, ◌∙◌, refl, Result, ◌+◌, ap,
}
use rs_lxmf.Map
use rs_lxmf.Map.Laws.{get-retain, get-insert}
use rs_lxmf.PnAdmission.{Hash, PnInboundAdmission, PnOfferCandidate, PnOfferRejection}
use rs_lxmf.PnAdmission.Offers.{
  offer_gates, check_offer_gates, expire_throttles, preflight_offer, upgrade, preflight_identified,
  prune_abandoned_candidates, start_candidate,
}
use rs_lxmf.PnAdmission.Events.Gates.{IsAdmissible, gates_sound, gates_complete, gates_pending}

-- no candidate that is still held is pending on the link
abbrev pub IsIdle : List ℕ → Hash → PnInboundAdmission → Type 0
IsIdle held link_id a =
    (t : ℕ) → Map.get link_id a.pending_candidates ≡ some t → contains t held ≡ false

module _ (held : List ℕ) (link_id : Hash) (a : PnInboundAdmission) where
  pruned_busy :
      IsIdle held link_id a
      → Map.contains_key link_id (prune_abandoned_candidates held a).pending_candidates ≡ false
  unfolding prune_abandoned_candidates
  pruned_busy h = elim (rs_lxmf.Prelude.Option-cases (Map.get link_id a.pending_candidates)) [
    | inl e ↦
        ground (arith, get-retain (λ _ t. is_some (upgrade held t)) link_id a.pending_candidates)
    | inr (t, e) ↦
        ground
          (arith, h t e, get-retain (λ _ t. is_some (upgrade held t)) link_id a.pending_candidates)
  ]

  pruned-IsIdle :
      Map.contains_key link_id (prune_abandoned_candidates held a).pending_candidates ≡ false
      → IsIdle held link_id a
  unfolding prune_abandoned_candidates
  pruned-IsIdle h t e =
      ground (arith, get-retain (λ _ t. is_some (upgrade held t)) link_id a.pending_candidates)

module _ (link_id identity peer : Hash) (now : ℕ) (a : PnInboundAdmission) where
  identified-busy :
      Map.contains_key link_id a.pending_candidates ≡ true
      → is_ok (preflight_identified link_id identity peer now a).1 ≡ false
  unfolding preflight_identified
  identified-busy h = rw h

  identified-idle :
      Map.contains_key link_id a.pending_candidates ≡ false
      → preflight_identified link_id identity peer now a
        ≡ start_candidate link_id identity peer
            (expire_throttles now a)
            (offer_gates link_id peer (expire_throttles now a))
  unfolding preflight_identified check_offer_gates
  identified-idle h = rw h

started_ok :
    (link_id identity peer : Hash) (a : PnInboundAdmission)
    (gate : Result (Unit {0}) PnOfferRejection)
    → (is_ok (start_candidate link_id identity peer a gate).1 ≡ true) ↔ (gate ≡ ok tt)
unfolding start_candidate
started_ok link_id identity peer a (ok tt) = ground arith
started_ok link_id identity peer a (err e) = ground arith

module _ (destination_of : Hash → Hash) (held : List ℕ) (link_id identity : Hash) (now : ℕ)
    (a : PnInboundAdmission) where
  abbrev pruned : PnInboundAdmission
  pruned = prune_abandoned_candidates held a

  pruned_gates :
      offer_gates link_id (destination_of identity) (expire_throttles now pruned)
      ≡ offer_gates link_id (destination_of identity) (expire_throttles now a)
  unfolding prune_abandoned_candidates
  pruned_gates = gates_pending link_id (destination_of identity) now a _

  -- An offer by an identified peer gets a candidate exactly when no candidate that its caller still
  -- holds is pending on the link, and the policy admits the offer of the derived destination.
  pub preflight_ok_iff :
      (is_ok (preflight_offer destination_of held link_id (some identity) now a).1 ≡ true)
      ↔ (IsIdle held link_id a × IsAdmissible link_id (destination_of identity) now a)
  unfolding preflight_offer
  preflight_ok_iff = elim (Bool-cases (Map.contains_key link_id pruned.pending_candidates)) [
    | inl busy ↦ (
      λ h. absurd (
          no_ok
            (sym (identified-busy link_id identity (destination_of identity) now pruned busy) ∙ h)),
      λ (idle, _). absurd (no_ok (sym (pruned_busy held link_id a idle) ∙ busy)),
    )
    | inr idle ↦ (
      λ h. (
        pruned-IsIdle held link_id a idle,
        gates_sound link_id (destination_of identity) now a (
            sym pruned_gates
            ∙ (started_ok link_id identity (destination_of identity) (expire_throttles now pruned)
                  _).0
                (rw (identified-idle link_id identity (destination_of identity) now pruned idle) at
                  h)),
      ),
      λ (_, q). rw (identified-idle link_id identity (destination_of identity) now pruned idle) (
          (started_ok link_id identity (destination_of identity) (expire_throttles now pruned) _).1
            (pruned_gates ∙ gates_complete link_id (destination_of identity) now a q)),
    )
  ]
    where
      no_ok : false ≡ true → ⊥
      no_ok h = cc

  -- The candidate of a successful preflight binds the link, the identity and its destination, it is
  -- the one pending on the link, its token was never given out before, and no record has changed.
  preflight_binds :
      (c : PnOfferCandidate)
      → (preflight_offer destination_of held link_id (some identity) now a).1 ≡ ok c
      → let a' = (preflight_offer destination_of held link_id (some identity) now a).0 in
        (c ≡ record {
          link_id = link_id;
          peer_identity_hash = identity;
          peer_destination_hash = destination_of identity;
          lifecycle = a.next_lifecycle;
        })
        × (Map.get link_id a'.pending_candidates ≡ some a.next_lifecycle)
        × (a'.next_lifecycle ≡ a.next_lifecycle + 1)
        × (a'.records ≡ a.records)
  unfolding preflight_offer preflight_identified start_candidate check_offer_gates expire_throttles
      prune_abandoned_candidates
  preflight_binds c h =
      ground (arith, get-insert link_id link_id a.next_lifecycle pruned.pending_candidates)
