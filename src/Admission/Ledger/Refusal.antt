-- ===== src/Admission/Ledger/Refusal.antt =====
-- When the suppression ledger has no room for a failure (crates/lxmf-core/src/admission.rs).
use rs_lxmf.Prelude.{
  ℕ, ◌≤◌, ◌≡◌, ◌↔◌, ◌⊎◌, inl, inr, Bool, Option-cases, true, false, some, none, ◌&&◌, nat_eq, ◌==◌,
  ltb, count, err, arith,
}
use rs_lxmf.Map
use rs_lxmf.Map.Laws.{get-retain}
use rs_lxmf.Map.Counts.{IsDistinct, length-retain, count_keys-retain}
use rs_lxmf.Admission.{
  AdmissionScope, scope_eq, AdmissionError, AdmissionEpochs, SuppressionReason, SuppressionRecord,
  epoch_matches,
}
use rs_lxmf.Admission.Ledger.{
  SuppressionLedger, identity_count, node_count, saturated, prune, record_failure,
}

module _ (scope : AdmissionScope) (reason : SuppressionReason) (epochs : AdmissionEpochs) (now : ℕ)
    (l : SuppressionLedger) where
  -- an entry that has not expired and whose reason is not settled by a change of epochs
  abbrev pub is_live : AdmissionScope × SuppressionRecord → Bool
  is_live (k, r) = ltb now r.expires_at && epoch_matches r.reason r.epochs epochs

  -- how many live entries there are, in all, of the identity, and of its node
  abbrev pub live_count : ℕ
  live_count = count is_live l

  abbrev pub live_identity_count : ℕ
  live_identity_count = count (λ x. is_live x && (x.0.identity == scope.identity)) l

  abbrev pub live_node_count : ℕ
  live_node_count =
      count (λ x. is_live x && (x.0.identity == scope.identity && x.0.node == scope.node)) l

  absent_iff :
      (Map.get scope (prune now epochs l) ≡ none)
      ↔ ((r : SuppressionRecord) → Map.get scope l ≡ some r → is_live (scope, r) ≡ false)
  unfolding prune
  absent_iff =
      let found = get-retain (λ k r. is_live (k, r)) scope l in
      elim (Option-cases (Map.get scope l)) [
        | inl e ↦ (λ a r i. absurd (ground (arith, e, i)), λ none_live. ground (arith, e, found))
        | inr (r', e) ↦ (
          λ a r i. ground (arith, e, i, a, found),
          λ none_live. ground (arith, e, none_live r' e, found),
        )
      ]

  module _ (h : IsDistinct l) where
    saturated_iff :
        (saturated scope.identity scope.node (prune now epochs l) ≡ true)
        ↔ ((65536 ≤ live_count) ⊎ (16384 ≤ live_identity_count) ⊎ (4096 ≤ live_node_count))
    unfolding saturated prune identity_count node_count
    saturated_iff =
        let p = λ (k : AdmissionScope) (r : SuppressionRecord). is_live (k, r) in
        ground (
          arith,
          length-retain p l h,
          count_keys-retain (λ k. k.identity == scope.identity) p l h,
          count_keys-retain (λ k. k.identity == scope.identity && k.node == scope.node) p l h,
        )

    -- A failure is refused exactly when no live entry of the ledger has its scope, and the live entries
    -- fill a quota: 65536 in all, 16384 of the identity, or 4096 of the identity from the node. The
    -- ledger has each scope once.
    pub refused_iff :
        ((record_failure scope reason epochs now l).1 ≡ err AdmissionError.disposition_ledger_full)
        ↔ (((r : SuppressionRecord) → Map.get scope l ≡ some r → is_live (scope, r) ≡ false)
            × ((65536 ≤ live_count) ⊎ (16384 ≤ live_identity_count) ⊎ (4096 ≤ live_node_count)))
    unfolding record_failure
    refused_iff = ground (arith, absent_iff, saturated_iff)
