-- ===== src/PnAdmission/Events/Lifecycle.antt =====
-- The life of a record, whatever the calls: accepted, transferring, validating, gone
-- (crates/lxmf-core/src/propagation_admission.rs).
use rs_lxmf.Prelude.{
  ℕ, ◌≡◌, refl, inl, inr, Bool, true, false, Option, none, some, List, arith, nat_eq, nat_beq_iff,
  ok, err, Bool-cases, Option-cases, Result, if◌then◌else◌, ◌==◌,
}
use rs_lxmf.Map
use rs_lxmf.Map.Laws.{get-insert, get-remove}
use rs_lxmf.PnAdmission.{
  Hash, PnInboundAdmission, PnOfferCandidate, PnOfferRejection, PnOfferResponse, PnInboundState,
  PnInboundRecord, accepted, transferring, validating, state_eq, PnTransitionOperation,
  PnValidationResult,
}
use rs_lxmf.PnAdmission.Offers.{
  check_offer_gates, expire_throttles, preflight_offer, commit_validated_offer, record_offer,
  is_exact_pending, preflight_identified, prune_abandoned_candidates, start_candidate,
  discard_candidate, install_invalid_stamp_throttle,
}
use rs_lxmf.PnAdmission.Transfers.{
  transition, resource_started, resource_concluded, validation_concluded, remove_record,
  link_closed,
}
use rs_lxmf.PnAdmission.Events.{
  Event, preflight, commit, discard, started, concluded, released, closed, validated, throttle,
  expire, static_set, static_add, static_remove, step, add_static_peer,
}
use rs_lxmf.PnAdmission.Events.Gates.{commit-exact, commit-stale, gates_sound}

-- the state of the record on a link, `none` where the link has no record
abbrev pub state_of : Option PnInboundRecord → Option PnInboundState
state_of none = none
state_of (some r) = some r.state

abbrev pub state_at : Hash → PnInboundAdmission → Option PnInboundState
state_at link_id a = state_of (Map.get link_id a.records)

-- One call leaves a record as it is, moves it one state on, or ends it; a record begins as accepted.
abbrev pub may_move : Option PnInboundState → Option PnInboundState → Bool
may_move none none = true
may_move none (some accepted) = true
may_move none (some transferring) = false
may_move none (some validating) = false
may_move (some s) none = true
may_move (some accepted) (some accepted) = true
may_move (some accepted) (some transferring) = true
may_move (some accepted) (some validating) = false
may_move (some transferring) (some accepted) = false
may_move (some transferring) (some transferring) = true
may_move (some transferring) (some validating) = true
may_move (some validating) (some accepted) = false
may_move (some validating) (some transferring) = false
may_move (some validating) (some validating) = true

staying_allowed : (s : Option PnInboundState) → may_move s s ≡ true
staying_allowed none = refl
staying_allowed (some accepted) = refl
staying_allowed (some transferring) = refl
staying_allowed (some validating) = refl

ending_allowed : (s : Option PnInboundState) → may_move s none ≡ true
ending_allowed none = refl
ending_allowed (some s) = refl

pub state_eq→eq : (s t : PnInboundState) → state_eq s t ≡ true → s ≡ t
state_eq→eq s t h = ground arith

install-records :
    (peer : Hash) (now : ℕ) (a : PnInboundAdmission)
    → (install_invalid_stamp_throttle peer now a).0.records ≡ a.records
unfolding install_invalid_stamp_throttle
install-records peer now a = ground arith

throttled_records :
    (invalid : Bool) (peer : Hash) (now : ℕ) (a : PnInboundAdmission)
    → (if invalid then (install_invalid_stamp_throttle peer now a).0 else a).records ≡ a.records
throttled_records true peer now a = install-records peer now a
throttled_records false peer now a = refl

discard-records :
    (c : PnOfferCandidate) (a : PnInboundAdmission) → (discard_candidate c a).0.records ≡ a.records
unfolding discard_candidate
discard-records c a = ground arith

released-records :
    (k : Hash) (a : PnInboundAdmission) → (remove_record k a).0.records ≡ Map.remove k a.records
unfolding remove_record
released-records k a = ground arith

closed-records :
    (k : Hash) (a : PnInboundAdmission) → (link_closed k a).0.records ≡ Map.remove k a.records
unfolding link_closed
closed-records k a = ground arith

static_add-records :
    (peer : Hash) (a : PnInboundAdmission) → (add_static_peer peer a).0.records ≡ a.records
unfolding add_static_peer
static_add-records peer a = ground arith

module _ (l : Hash) where
  abbrev Moves : Map.Map Hash PnInboundRecord → Map.Map Hash PnInboundRecord → Type 0
  Moves m m' = may_move (state_of (Map.get l m)) (state_of (Map.get l m')) ≡ true

  same_records : (m : Map.Map Hash PnInboundRecord) → Moves m m
  same_records m = staying_allowed (state_of (Map.get l m))

  removed_record : (k : Hash) (m : Map.Map Hash PnInboundRecord) → Moves m (Map.remove k m)
  removed_record k m = rw get-remove (elim (Bool-cases (k == l)) [
    | inl same ↦ rw same (ending_allowed _)
    | inr other ↦ rw other (same_records m)
  ])

  set_state :
      (k : Hash) (r : PnInboundRecord) (m : Map.Map Hash PnInboundRecord)
      → may_move (state_of (Map.get k m)) (some r.state) ≡ true
      → Moves m (Map.insert k r m)
  set_state k r m h = rw get-insert (elim (Bool-cases (k == l)) [
    | inl same ↦ rw same (rw (← (nat_beq_iff k l).0 same) h)
    | inr other ↦ rw other (same_records m)
  ])

  abbrev Keeps : PnInboundAdmission → PnInboundAdmission → Type 0
  Keeps a a' = Moves a.records a'.records

  -- a recorded offer is new on its link
  record_offer-Keeps :
      (c : PnOfferCandidate) (response : PnOfferResponse) (a : PnInboundAdmission)
      (gate : Result (Unit {0}) PnOfferRejection)
      → (gate ≡ ok tt → Map.get c.link_id a.records ≡ none)
      → Keeps a (record_offer c response a gate).0
  unfolding record_offer
  record_offer-Keeps c response a (err e) h = same_records a.records
  record_offer-Keeps c PnOfferResponse.have_all a (ok tt) h = same_records a.records
  record_offer-Keeps c PnOfferResponse.want_all a (ok tt) h =
      set_state c.link_id _ a.records (rw (h refl))
  record_offer-Keeps c PnOfferResponse.want_some a (ok tt) h =
      set_state c.link_id _ a.records (rw (h refl))

  commit-Keeps :
      (c : PnOfferCandidate) (response : PnOfferResponse) (now : ℕ) (a : PnInboundAdmission)
      → Keeps a (commit_validated_offer c response now a).0
  unfolding expire_throttles
  commit-Keeps c response now a = elim (Bool-cases (is_exact_pending c a)) [
    | inl e ↦ rw (commit-exact c response now a e) (
        record_offer-Keeps c response _ _
          (λ g. (gates_sound c.link_id c.peer_destination_hash now a g).untracked))
    | inr e ↦ rw (commit-stale c response now a e) (same_records a.records)
  ]

  preflight-records :
      (f : Hash → Hash) (held : List ℕ) (k : Hash) (identity : Option Hash) (now : ℕ)
      (a : PnInboundAdmission)
      → (preflight_offer f held k identity now a).0.records ≡ a.records
  unfolding preflight_offer preflight_identified start_candidate check_offer_gates expire_throttles
      prune_abandoned_candidates
  preflight-records f held k none now a = refl
  preflight-records f held k (some identity) now a = ground arith

  transition-Keeps :
      (k : Hash) (expected next : PnInboundState) (op : PnTransitionOperation)
      (a : PnInboundAdmission)
      → may_move (some expected) (some next) ≡ true
      → Keeps a (transition k expected next op a).0
  unfolding transition
  transition-Keeps k expected next op a h = elim (Option-cases (Map.get k a.records)) [
    | inl e ↦ rw (e, transition) (same_records a.records)
    | inr (r, e) ↦
        rw (e, transition)
          (elim (Bool-cases (state_eq r.state expected)) [
            | inl v ↦ rw v (
                set_state k (record r { state = next }) a.records
                  (rw e (rw (state_eq→eq r.state expected v) h)))
            | inr w ↦ rw w (same_records a.records)
          ])
  ]

  validation-Keeps :
      (k : Hash) (result : PnValidationResult) (now : ℕ) (a : PnInboundAdmission)
      → Keeps a (validation_concluded k result now a).0
  unfolding validation_concluded
  validation-Keeps k result now a = elim (Option-cases (Map.get k a.records)) [
    | inl e ↦ rw (e, validation_concluded) (same_records a.records)
    | inr (r, e) ↦
        rw (e, validation_concluded)
          (elim (Bool-cases (state_eq r.state validating)) [
            | inl v ↦ rw v (rw throttled_records (removed_record k a.records))
            | inr w ↦ rw w (same_records a.records)
          ])
  ]

  -- Whatever the call, every link's record stays, moves one state on, begins as accepted, or ends.
  pub step-may_move :
      (f : Hash → Hash) (e : Event) (a : PnInboundAdmission)
      → may_move (state_at l a) (state_at l (step f e a)) ≡ true
  unfolding step
  step-may_move f (preflight held k identity now) a = rw preflight-records (same_records a.records)
  step-may_move f (commit c response now) a = commit-Keeps c response now a
  step-may_move f (discard c) a = rw discard-records (same_records a.records)
  step-may_move f (started k) a =
      unfold resource_started in
      transition-Keeps k accepted transferring PnTransitionOperation.resource_started a refl
  step-may_move f (concluded k) a =
      unfold resource_concluded in
      transition-Keeps k transferring validating PnTransitionOperation.resource_concluded a refl
  step-may_move f (released k) a = rw released-records (removed_record k a.records)
  step-may_move f (closed k) a = rw closed-records (removed_record k a.records)
  step-may_move f (validated k result now) a = validation-Keeps k result now a
  step-may_move f (throttle peer now) a = rw install-records (same_records a.records)
  step-may_move f (expire now) a = unfold expire_throttles in same_records a.records
  step-may_move f (static_set peers) a = same_records a.records
  step-may_move f (static_add peer) a = rw static_add-records (same_records a.records)
  step-may_move f (static_remove peer) a = same_records a.records
