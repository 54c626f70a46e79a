-- ===== src/PnAdmission/Events/Throttles.antt =====
-- A batch with invalid stamps shuts its peer out until the deadline, whatever happens meanwhile
-- (crates/lxmf-core/src/propagation_admission.rs).
use rs_lxmf.Prelude.{
  ℕ, ◌≤◌, ◌<◌, ◌≡◌, inl, inr, Bool, true, false, none, some, Option, List, [], ◌∷◌, arith, nat_eq,
  nat_beq_iff, if◌then◌else◌, Bool-cases, Option-cases, ltb, Result, ok, err, ◌∙◌, ap,
}
use rs_lxmf.Map
use rs_lxmf.Map.Laws.{get-insert, get-retain}
use rs_lxmf.PnAdmission.{
  Hash, PnInboundAdmission, PnOfferCandidate, PnOfferResponse, PnOfferRejection, PnInboundState,
  PnTransitionOperation, PnValidationResult, validating, state_eq,
}
use rs_lxmf.PnAdmission.Offers.{
  expire_throttles, commit_validated_offer, preflight_offer, record_offer, is_exact_pending,
  discard_candidate, install_invalid_stamp_throttle, extended_deadline, preflight_identified,
  prune_abandoned_candidates, start_candidate, check_offer_gates,
}
use rs_lxmf.PnAdmission.Transfers.{
  transition, resource_started, resource_concluded, validation_concluded, remove_record,
  link_closed, is_invalid_stamp,
}
use rs_lxmf.PnAdmission.Events.{
  Event, preflight, commit, discard, started, concluded, released, closed, validated, throttle,
  expire, static_set, static_add, static_remove, step, run, add_static_peer,
}
use rs_lxmf.PnAdmission.Events.Gates.{commit-exact, commit-stale}
use rs_lxmf.PnAdmission.Events.Preflight.{}

-- the time that a call is given, 0 for a call without one
abbrev pub time_of : Event → ℕ
time_of (preflight held k identity now) = now
time_of (commit c response now) = now
time_of (validated k result now) = now
time_of (throttle peer now) = now
time_of (expire now) = now
time_of _ = 0

-- every call is given a time before the deadline
abbrev pub AllBefore : ℕ → List Event → Type 0
AllBefore d [] = Unit {0}
AllBefore d (e ∷ es) = (time_of e < d) × AllBefore d es

-- the peer has a deadline, and it is no earlier than `d`
pub record IsThrottled (peer : Hash) (d : ℕ) (deadlines : Map.Map Hash ℕ) : Type 0 where
  pub until : ℕ
  pub found : Map.get peer deadlines ≡ some until
  pub late : d ≤ until

module _ (peer : Hash) (d : ℕ) where
  retained :
      (now : ℕ) (m : Map.Map Hash ℕ)
      → now < d
      → IsThrottled peer d m
      → IsThrottled peer d (Map.retain (λ _ x. ltb now x) m)
  retained now m h t = record {
    until = t.until;
    found = ground (arith, t.found, t.late, get-retain (λ _ x. ltb now x) peer m);
    late = t.late;
  }

  extended :
      (k : Hash) (requested : ℕ) (m : Map.Map Hash ℕ)
      → IsThrottled peer d m
      → IsThrottled peer d (Map.insert k (extended_deadline (Map.get k m) requested) m)
  extended k requested m t = elim (Bool-cases (nat_eq.beq k peer)) [
    | inl same ↦ record {
      until = extended_deadline (Map.get k m) requested;
      found = rw get-insert (rw same);
      late = rw ((nat_beq_iff k peer).0 same) (rw t.found (omega (arith, t.late)));
    }
    | inr other ↦ record {
      until = t.until;
      found = rw get-insert (rw other t.found);
      late = t.late;
    }
  ]

  abbrev Throttled : PnInboundAdmission → Type 0
  Throttled a = IsThrottled peer d a.throttle_deadlines

  expire-Throttled :
      (now : ℕ) (a : PnInboundAdmission)
      → now < d
      → Throttled a
      → Throttled (expire_throttles now a)
  unfolding expire_throttles
  expire-Throttled now a h t = retained now a.throttle_deadlines h t

  install-Throttled :
      (k : Hash) (now : ℕ) (a : PnInboundAdmission)
      → Throttled a
      → Throttled (install_invalid_stamp_throttle k now a).0
  unfolding install_invalid_stamp_throttle
  install-Throttled k now a t = elim (Bool-cases (nat_eq.beq k 0)) [
    | inl zero_peer ↦ rw (zero_peer, install_invalid_stamp_throttle) t
    | inr known ↦ rw (known, install_invalid_stamp_throttle) (extended k _ a.throttle_deadlines t)
  ]

  started-Throttled :
      (k identity dest : Hash) (a : PnInboundAdmission) (gate : Result (Unit {0}) PnOfferRejection)
      → Throttled a
      → Throttled (start_candidate k identity dest a gate).0
  unfolding start_candidate
  started-Throttled k identity dest a (ok _) t = t
  started-Throttled k identity dest a (err e) t = t

  identified-Throttled :
      (k identity dest : Hash) (now : ℕ) (a : PnInboundAdmission)
      → now < d
      → Throttled a
      → Throttled (preflight_identified k identity dest now a).0
  unfolding preflight_identified check_offer_gates
  identified-Throttled k identity dest now a h t =
      elim (Bool-cases (Map.contains_key k a.pending_candidates)) [
        | inl busy ↦ rw busy t
        | inr idle ↦ rw idle (
            started-Throttled k identity dest (expire_throttles now a) _
              (expire-Throttled now a h t))
      ]

  preflight-Throttled :
      (f : Hash → Hash) (held : List ℕ) (k : Hash) (identity : Option Hash) (now : ℕ)
      (a : PnInboundAdmission)
      → now < d
      → Throttled a
      → Throttled (preflight_offer f held k identity now a).0
  unfolding preflight_offer prune_abandoned_candidates
  preflight-Throttled f held k none now a h t = t
  preflight-Throttled f held k (some identity) now a h t =
      identified-Throttled k identity (f identity) now (prune_abandoned_candidates held a) h t

  recorded-Throttled :
      (c : PnOfferCandidate) (response : PnOfferResponse) (a : PnInboundAdmission)
      (gate : Result (Unit {0}) PnOfferRejection)
      → Throttled a
      → Throttled (record_offer c response a gate).0
  unfolding record_offer
  recorded-Throttled c response a (err e) t = t
  recorded-Throttled c PnOfferResponse.have_all a (ok _) t = t
  recorded-Throttled c PnOfferResponse.want_all a (ok _) t = t
  recorded-Throttled c PnOfferResponse.want_some a (ok _) t = t

  commit-Throttled :
      (c : PnOfferCandidate) (response : PnOfferResponse) (now : ℕ) (a : PnInboundAdmission)
      → now < d
      → Throttled a
      → Throttled (commit_validated_offer c response now a).0
  commit-Throttled c response now a h t = elim (Bool-cases (is_exact_pending c a)) [
    | inl e ↦ rw (commit-exact c response now a e) (
        recorded-Throttled c response _ _ (
          expire-Throttled now
            (record a { pending_candidates = Map.remove c.link_id a.pending_candidates }) h t))
    | inr e ↦ rw (commit-stale c response now a e) t
  ]

  unchanged : {m m' : Map.Map Hash ℕ} → m' ≡ m → IsThrottled peer d m → IsThrottled peer d m'
  unchanged e t = record { until = t.until; found = ap (Map.get peer) e ∙ t.found; late = t.late }

  validated-Throttled :
      (k : Hash) (result : PnValidationResult) (now : ℕ) (a : PnInboundAdmission)
      → Throttled a
      → Throttled (validation_concluded k result now a).0
  unfolding validation_concluded
  validated-Throttled k result now a t = elim (Option-cases (Map.get k a.records)) [
    | inl e ↦ rw (e, validation_concluded) t
    | inr (r, e) ↦
        rw (e, validation_concluded)
          (elim (Bool-cases (state_eq r.state validating)) [
            | inl v ↦ rw v (throttled_if (is_invalid_stamp result) r.peer_destination_hash)
            | inr w ↦ rw w t
          ])
  ]
    where
      a' : PnInboundAdmission
      a' = record a { records = Map.remove k a.records }

      throttled_if :
          (invalid : Bool) (dest : Hash)
          → Throttled (if invalid then (install_invalid_stamp_throttle dest now a').0 else a')
      throttled_if true dest = install-Throttled dest now a' t
      throttled_if false dest = t

discard-deadlines :
    (c : PnOfferCandidate) (a : PnInboundAdmission)
    → (discard_candidate c a).0.throttle_deadlines ≡ a.throttle_deadlines
unfolding discard_candidate
discard-deadlines c a = ground arith

transition-deadlines :
    (k : Hash) (expected next : PnInboundState) (op : PnTransitionOperation)
    (a : PnInboundAdmission)
    → (transition k expected next op a).0.throttle_deadlines ≡ a.throttle_deadlines
unfolding transition
transition-deadlines k expected next op a = ground arith

released-deadlines :
    (k : Hash) (a : PnInboundAdmission)
    → (remove_record k a).0.throttle_deadlines ≡ a.throttle_deadlines
unfolding remove_record
released-deadlines k a = ground arith

closed-deadlines :
    (k : Hash) (a : PnInboundAdmission)
    → (link_closed k a).0.throttle_deadlines ≡ a.throttle_deadlines
unfolding link_closed
closed-deadlines k a = ground arith

static_add-deadlines :
    (k : Hash) (a : PnInboundAdmission)
    → (add_static_peer k a).0.throttle_deadlines ≡ a.throttle_deadlines
unfolding add_static_peer
static_add-deadlines k a = ground arith

module _ (f : Hash → Hash) (peer : Hash) (d : ℕ) where
  step-Throttled :
      (e : Event) (a : PnInboundAdmission)
      → time_of e < d
      → IsThrottled peer d a.throttle_deadlines
      → IsThrottled peer d (step f e a).throttle_deadlines
  unfolding step
  step-Throttled (preflight held k identity now) a h t =
      preflight-Throttled peer d f held k identity now a h t
  step-Throttled (commit c response now) a h t = commit-Throttled peer d c response now a h t
  step-Throttled (discard c) a h t = unchanged peer d (discard-deadlines c a) t
  step-Throttled (started k) a h t =
      unfold resource_started in unchanged peer d (transition-deadlines k _ _ _ a) t
  step-Throttled (concluded k) a h t =
      unfold resource_concluded in unchanged peer d (transition-deadlines k _ _ _ a) t
  step-Throttled (released k) a h t = unchanged peer d (released-deadlines k a) t
  step-Throttled (closed k) a h t = unchanged peer d (closed-deadlines k a) t
  step-Throttled (validated k result now) a h t = validated-Throttled peer d k result now a t
  step-Throttled (throttle k now) a h t = install-Throttled peer d k now a t
  step-Throttled (expire now) a h t = expire-Throttled peer d now a h t
  step-Throttled (static_set peers) a h t = t
  step-Throttled (static_add k) a h t = unchanged peer d (static_add-deadlines k a) t
  step-Throttled (static_remove k) a h t = t

  pub run-Throttled :
      (es : List Event) (a : PnInboundAdmission)
      → AllBefore d es
      → IsThrottled peer d a.throttle_deadlines
      → IsThrottled peer d (run f es a).throttle_deadlines
  unfolding run
  run-Throttled [] a h t = t
  run-Throttled (e ∷ es) a h t = run-Throttled es (step f e a) h.1 (step-Throttled e a h.0 t)
