-- ===== src/Admission/Ledger/Bounds.antt =====
-- The quotas of the suppression ledger (crates/lxmf-core/src/admission.rs).
use rs_lxmf.Prelude.{ℕ, ◌≤◌, ◌≡◌, inl, inr, false, ◌&&◌, arith, nat_eq, ◌==◌, Bool-cases, length}
use rs_lxmf.Map
use rs_lxmf.Map.Laws.{}
use rs_lxmf.Map.Counts.{
  count_keys-insert, count_keys-remove-le, count_keys-retain-le, length-insert, length-remove-le,
  length-retain-le,
}
use rs_lxmf.Admission.{
  AdmissionScope, scope_eq, AdmissionEpochs, SuppressionReason, SuppressionRecord,
}
use rs_lxmf.Admission.Ledger.{
  SuppressionLedger, global, per_identity, per_node, identity_count, node_count, saturated, prune,
  record_failure,
}

pub record IsBounded (l : SuppressionLedger) : Type 0 where
  pub overall : length l ≤ global
  pub identities : (i : ℕ) → identity_count i l ≤ per_identity
  pub nodes : (i n : ℕ) → node_count i n l ≤ per_node

module _ (l : SuppressionLedger) (h : IsBounded l) where
  pub prune-IsBounded : (now : ℕ) (epochs : AdmissionEpochs) → IsBounded (prune now epochs l)
  unfolding prune identity_count node_count
  prune-IsBounded now epochs = record {
    overall = omega (arith, length-retain-le _ l, h.overall);
    identities =
        λ i. omega (arith, count_keys-retain-le (λ k. k.identity == i) _ l, h.identities i);
    nodes = λ i n.
        omega (arith, count_keys-retain-le (λ k. k.identity == i && k.node == n) _ l, h.nodes i n);
  }

  remove-IsBounded : (scope : AdmissionScope) → IsBounded (Map.remove scope l)
  unfolding identity_count node_count
  remove-IsBounded scope = record {
    overall = omega (arith, length-remove-le scope l, h.overall);
    identities =
        λ i. omega (arith, count_keys-remove-le (λ k. k.identity == i) scope l, h.identities i);
    nodes = λ i n.
        omega
          (arith, count_keys-remove-le (λ k. k.identity == i && k.node == n) scope l, h.nodes i n);
  }

  -- an entry for a scope that is there, or that the quotas leave room for
  pub insert-IsBounded :
      (scope : AdmissionScope) (r : SuppressionRecord)
      → (Map.contains_key scope l ≡ false → saturated scope.identity scope.node l ≡ false)
      → IsBounded (Map.insert scope r l)
  unfolding identity_count node_count saturated
  insert-IsBounded scope r room = record {
    overall = ground (arith, length-insert scope r l, h.overall);
    identities =
        λ i. ground (arith, count_keys-insert (λ k. k.identity == i) scope r l, h.identities i);
    nodes = λ i n.
        ground
          (arith, count_keys-insert (λ k. k.identity == i && k.node == n) scope r l, h.nodes i n);
  }

-- If the quotas by node, by identity and overall hold, they hold after any failure, recorded or
-- refused.
pub record_failure-IsBounded :
    (scope : AdmissionScope) (reason : SuppressionReason) (epochs : AdmissionEpochs) (now : ℕ)
    (l : SuppressionLedger)
    → IsBounded l
    → IsBounded (record_failure scope reason epochs now l).0
unfolding record_failure
record_failure-IsBounded scope reason epochs now l h =
    let l' = prune now epochs l in
    let h' = prune-IsBounded l h now epochs in
    elim (Bool-cases (Map.contains_key scope l')) [
      | inl old ↦ rw old (insert-IsBounded l' h' scope _ (λ absent. ground arith))
      | inr fresh ↦ elim (Bool-cases (saturated scope.identity scope.node l')) [
        | inl full ↦ rw fresh (rw full h')
        | inr room ↦ rw fresh (rw room (insert-IsBounded l' h' scope _ (λ absent. room)))
      ]
    ]
