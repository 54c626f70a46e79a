-- ===== src/PnAdmission/Events/Accounting.antt =====
-- The counts of active syncs and of validations along the life of a record
-- (crates/lxmf-core/src/propagation_admission.rs).
use rs_lxmf.Prelude.{
  ℕ, ◌+◌, ◌≡◌, true, none, some, arith, nat_eq, nat_beq_iff, refl, ok, ap, ◌∙◌, if◌then◌else◌,
}
use rs_lxmf.Map
use rs_lxmf.Map.Laws.{get-insert, get-remove}
use rs_lxmf.Map.Counts.{IsDistinct, count-insert, count-remove, insert-IsDistinct}
use rs_lxmf.PnAdmission.{
  Hash, PnInboundAdmission, PnInboundRecord, PnInboundState, PnTransitionOperation,
  PnValidationResult, accepted, transferring, validating, state_eq, is_active, inbound_sync_count,
  validation_count, removed,
}
use rs_lxmf.PnAdmission.Offers.{install_invalid_stamp_throttle}
use rs_lxmf.PnAdmission.Transfers.{
  transition, resource_started, resource_concluded, validation_concluded,
}

state_eq_refl : (s : PnInboundState) → state_eq s s ≡ true
state_eq_refl accepted = refl
state_eq_refl transferring = refl
state_eq_refl validating = refl

abbrev move : Hash → PnInboundRecord → PnInboundState → PnInboundAdmission → PnInboundAdmission
move link_id r s a = record a { records = Map.insert link_id (record r { state = s }) a.records }

module _ (link_id : Hash) (r : PnInboundRecord) (a : PnInboundAdmission)
    (found : Map.get link_id a.records ≡ some r) where
  transition_matched :
      (expected next : PnInboundState) (op : PnTransitionOperation)
      → r.state ≡ expected
      → transition link_id expected next op a ≡ (move link_id r next a, ok tt)
  unfolding transition
  transition_matched expected next op e =
      rw (found, transition) (rw e (rw (state_eq_refl expected)))

  validation_matched :
      (result : PnValidationResult) (now : ℕ)
      → r.state ≡ validating
      → ((validation_concluded link_id result now a).1 ≡ ok (removed validating))
        × ((validation_concluded link_id result now a).0.records ≡ Map.remove link_id a.records)
  unfolding validation_concluded install_invalid_stamp_throttle
  validation_matched result now e = ground arith

-- the two counts, together
abbrev pub counts : PnInboundAdmission → ℕ × ℕ
counts a = (inbound_sync_count a, validation_count a)

move_counts :
    (link_id : Hash) (r : PnInboundRecord) (s : PnInboundState) (a : PnInboundAdmission)
    → Map.get link_id a.records ≡ some r
    → (inbound_sync_count (move link_id r s a) + (if is_active r.state then 1 else 0)
        ≡ inbound_sync_count a + (if is_active s then 1 else 0))
      × (validation_count (move link_id r s a) + (if state_eq r.state validating then 1 else 0)
          ≡ validation_count a + (if state_eq s validating then 1 else 0))
unfolding inbound_sync_count validation_count
move_counts link_id r s a e = (
  ground (arith, count-insert (λ x. is_active x.state) link_id (record r { state = s }) a.records),
  ground (
    arith,
    count-insert (λ x. state_eq x.state validating) link_id (record r { state = s }) a.records,
  ),
)

removed_counts :
    (link_id : Hash) (r : PnInboundRecord) (a b : PnInboundAdmission)
    → IsDistinct a.records
    → Map.get link_id a.records ≡ some r
    → b.records ≡ Map.remove link_id a.records
    → (inbound_sync_count b + (if is_active r.state then 1 else 0) ≡ inbound_sync_count a)
      × (validation_count b + (if state_eq r.state validating then 1 else 0) ≡ validation_count a)
unfolding inbound_sync_count validation_count
removed_counts link_id r a b h found e = (
  rw e (ground (arith, count-remove (λ x. is_active x.state) link_id a.records h)),
  rw e (ground (arith, count-remove (λ x. state_eq x.state validating) link_id a.records h)),
)

module _ (link_id : Hash) (r : PnInboundRecord) (a : PnInboundAdmission)
    (distinct : IsDistinct a.records) (found : Map.get link_id a.records ≡ some r)
    (new_offer : r.state ≡ accepted) (result : PnValidationResult) (now : ℕ) where
  abbrev r1 : PnInboundRecord
  r1 = record r { state = transferring }

  abbrev r2 : PnInboundRecord
  r2 = record r { state = validating }

  abbrev a1 : PnInboundAdmission
  a1 = move link_id r transferring a

  abbrev a2 : PnInboundAdmission
  a2 = move link_id r1 validating a1

  started_step : resource_started link_id a ≡ (a1, ok tt)
  unfolding resource_started
  started_step = transition_matched link_id r a found accepted transferring _ new_offer

  found1 : Map.get link_id a1.records ≡ some r1
  found1 = rw get-insert (rw ((nat_beq_iff link_id link_id).1 refl))

  concluded_step : resource_concluded link_id a1 ≡ (a2, ok tt)
  unfolding resource_concluded
  concluded_step = transition_matched link_id r1 a1 found1 transferring validating _ refl

  found2 : Map.get link_id a2.records ≡ some r2
  found2 = rw get-insert (rw ((nat_beq_iff link_id link_id).1 refl))

  distinct2 : IsDistinct a2.records
  distinct2 =
      insert-IsDistinct link_id r2 a1.records (insert-IsDistinct link_id r1 a.records distinct)

  -- An accepted offer whose Resource starts and concludes and whose stamps are then validated, with
  -- whatever result: every call succeeds, the sync takes a slot from the start of its Resource and
  -- counts as a validation from its end, and at the end both counts are what they were before and
  -- the link is free. (Each link stands once in the records.)
  pub full_transfer :
      let s1 = resource_started link_id a in
      let s2 = resource_concluded link_id s1.0 in
      let s3 = validation_concluded link_id result now s2.0 in
      (s1.1 ≡ ok tt)
      × (inbound_sync_count s1.0 ≡ inbound_sync_count a + 1)
      × (validation_count s1.0 ≡ validation_count a)
      × (s2.1 ≡ ok tt)
      × (inbound_sync_count s2.0 ≡ inbound_sync_count a + 1)
      × (validation_count s2.0 ≡ validation_count a + 1)
      × (s3.1 ≡ ok (removed validating))
      × (inbound_sync_count s3.0 ≡ inbound_sync_count a)
      × (validation_count s3.0 ≡ validation_count a)
      × (Map.get link_id s3.0.records ≡ none)
  full_transfer = rw started_step (
      rw concluded_step (
        let v = validation_matched link_id r2 a2 found2 result now refl in
        let c1 = move_counts link_id r transferring a found in
        let c2 = move_counts link_id r1 validating a1 found1 in
        let c3 =
          removed_counts link_id r2 a2 (validation_concluded link_id result now a2).0 distinct2
            found2 v.1 in
        (
          refl,
          ground arith,
          ground arith,
          refl,
          ground arith,
          ground arith,
          v.0,
          ground arith,
          ground arith,
          ap (Map.get link_id) v.1
              ∙ get-remove link_id link_id a2.records
              ∙ rw ((nat_beq_iff link_id link_id).1 refl),
        )))
