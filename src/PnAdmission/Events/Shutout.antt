-- ===== src/PnAdmission/Events/Shutout.antt =====
-- A batch with invalid stamps shuts its peer out until the deadline, whatever happens meanwhile
-- (crates/lxmf-core/src/propagation_admission.rs).
use rs_lxmf.Prelude.{
  ℕ, ◌<◌, ◌≡◌, ◌≢◌, inl, inr, false, some, List, arith, nat_eq, nat_beq_iff, refl, ap, is_ok,
  Bool-cases, saturating_add, duration_max,
}
use rs_lxmf.Map
use rs_lxmf.Map.Laws.{get-insert}
use rs_lxmf.PnAdmission.{
  Hash, PnInboundAdmission, PnInboundRecord, PnOfferCandidate, PnOfferResponse, PnOfferAdmission,
  validating, invalid_stamp, state_eq, pn_invalid_stamp_throttle,
}
use rs_lxmf.PnAdmission.Offers.{
  commit_validated_offer, preflight_offer, install_invalid_stamp_throttle, extended_deadline,
}
use rs_lxmf.PnAdmission.Transfers.{validation_concluded}
use rs_lxmf.PnAdmission.Events.{Event, run}
use rs_lxmf.PnAdmission.Events.Gates.{IsAdmissible, commit_accepted_iff}
use rs_lxmf.PnAdmission.Events.Preflight.{preflight_ok_iff}
use rs_lxmf.PnAdmission.Events.Throttles.{AllBefore, IsThrottled, run-Throttled}

-- the deadline that `install_invalid_stamp_throttle` asks for
abbrev pub throttle_end : ℕ → ℕ
throttle_end now = saturating_add duration_max now pn_invalid_stamp_throttle

install-IsThrottled :
    (peer : Hash) (now : ℕ) (a : PnInboundAdmission)
    → peer ≢ 0
    → IsThrottled peer
        (throttle_end now)
        (install_invalid_stamp_throttle peer now a).0.throttle_deadlines
unfolding install_invalid_stamp_throttle
install-IsThrottled peer now a h = elim (Bool-cases (nat_eq.beq peer 0)) [
  | inl e ↦ absurd (h ((nat_beq_iff peer 0).0 e))
  | inr e ↦ rw e (record {
    until = extended_deadline (Map.get peer a.throttle_deadlines) (throttle_end now);
    found = rw get-insert (rw ((nat_beq_iff peer peer).1 refl));
    late = ground arith;
  })
]

invalid-IsThrottled :
    (link_id : Hash) (r : PnInboundRecord) (now : ℕ) (a : PnInboundAdmission)
    → Map.get link_id a.records ≡ some r
    → r.state ≡ validating
    → r.peer_destination_hash ≢ 0
    → IsThrottled r.peer_destination_hash
        (throttle_end now)
        (validation_concluded link_id invalid_stamp now a).0.throttle_deadlines
unfolding validation_concluded
invalid-IsThrottled link_id r now a e v known =
    rw (e, validation_concluded)
      (rw (ap (λ s. state_eq s validating) v)
        (install-IsThrottled r.peer_destination_hash now _ known))

module _ (f : Hash → Hash) (a : PnInboundAdmission) (peer : Hash) (d : ℕ)
    (t : IsThrottled peer d a.throttle_deadlines) (now : ℕ) (early : now < d) where
  not_admissible : (link_id : Hash) → IsAdmissible link_id peer now a → ⊥
  not_admissible link_id q = omega (arith, q.unthrottled t.until t.found, t.late)

  preflight_refused :
      (held : List ℕ) (link_id identity : Hash)
      → f identity ≡ peer
      → is_ok (preflight_offer f held link_id (some identity) now a).1 ≡ false
  preflight_refused held link_id identity e =
      elim (Bool-cases (is_ok (preflight_offer f held link_id (some identity) now a).1)) [
        | inl granted ↦
            let q = (preflight_ok_iff f held link_id identity now a).0 granted in
            absurd (not_admissible link_id (rw e at q.1))
        | inr refused ↦ refused
      ]

  commit_refused :
      (c : PnOfferCandidate) (response : PnOfferResponse)
      → c.peer_destination_hash ≡ peer
      → (commit_validated_offer c response now a).1 ≢ PnOfferAdmission.accepted
  commit_refused c response e h =
      let q = (commit_accepted_iff c response now a).0 h in not_admissible c.link_id (rw e at q.1)

-- When a batch of a known peer fails its stamp validation, then until the deadline, whatever other
-- calls come with times before it, the peer gets no candidate for any link, and no candidate that
-- it got earlier is accepted.
pub invalid_stamp_shuts_out :
    (f : Hash → Hash) (link_id : Hash) (r : PnInboundRecord) (now : ℕ) (a : PnInboundAdmission)
    → Map.get link_id a.records ≡ some r
    → r.state ≡ validating
    → r.peer_destination_hash ≢ 0
    → (es : List Event) → AllBefore (throttle_end now) es
    → (later : ℕ) → later < throttle_end now
    → let a' = run f es (validation_concluded link_id invalid_stamp now a).0 in
      ((held : List ℕ) (k identity : Hash)
        → f identity ≡ r.peer_destination_hash
        → is_ok (preflight_offer f held k (some identity) later a').1 ≡ false)
      × ((c : PnOfferCandidate) (response : PnOfferResponse)
          → c.peer_destination_hash ≡ r.peer_destination_hash
          → (commit_validated_offer c response later a').1 ≢ PnOfferAdmission.accepted)
invalid_stamp_shuts_out f link_id r now a e v known es before later early =
    let a' = run f es (validation_concluded link_id invalid_stamp now a).0 in
    let t =
      run-Throttled f r.peer_destination_hash (throttle_end now) es
        (validation_concluded link_id invalid_stamp now a).0 before
        (invalid-IsThrottled link_id r now a e v known) in
    (
      preflight_refused f a' r.peer_destination_hash (throttle_end now) t later early,
      commit_refused f a' r.peer_destination_hash (throttle_end now) t later early,
    )
