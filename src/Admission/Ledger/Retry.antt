-- ===== src/Admission/Ledger/Retry.antt =====
-- What `record_failure` stores, and how long it suppresses a download
-- (crates/lxmf-core/src/admission.rs).
use native.Mathlib.Nat.{mul-le-mul}
use rs_lxmf.Prelude.{
  ℕ, zero, suc, ◌+◌, ◌-◌, ◌*◌, ◌/◌, ◌^◌, ◌≤◌, ◌<◌, ◌≡◌, ◌≢◌, ◌↔◌, inl, inr, true, false, min, ◌&&◌,
  arith, nat_eq, nat_beq_iff, ◌==◌, Bool-cases, ltb, ok, u64_max,
}
use rs_lxmf.Map
use rs_lxmf.Map.Laws.{get-insert, get-retain, keep_if}
use rs_lxmf.Admission.{
  AdmissionScope, scope_eq, scope_beq_iff, AdmissionEpochs, SuppressionReason, SuppressionRecord,
  epoch_matches, is_transient, active,
}
use rs_lxmf.Admission.Ledger.{
  SuppressionLedger, day, jitter, prune, base_delay, retry_times, failure_record, record_failure,
}

pow2_bounds : (n : ℕ) → n ≤ 6 → (1 ≤ 2 ^ n) × (2 ^ n ≤ 64)
pow2_bounds zero h = omega arith
pow2_bounds (suc zero) h = omega arith
pow2_bounds (suc (suc zero)) h = omega arith
pow2_bounds (suc (suc (suc zero))) h = omega arith
pow2_bounds (suc (suc (suc (suc zero)))) h = omega arith
pow2_bounds (suc (suc (suc (suc (suc zero))))) h = omega arith
pow2_bounds (suc (suc (suc (suc (suc (suc zero)))))) h = omega arith
pow2_bounds (suc (suc (suc (suc (suc (suc (suc n))))))) h = absurd (omega arith)

base_delay_bounds : (attempts : ℕ) → (60 ≤ base_delay attempts) × (base_delay attempts ≤ 3600)
unfolding base_delay
base_delay_bounds attempts = omega (arith, pow2_bounds (min (attempts - 1) 6) (omega arith))

jittered_bounds :
    (b j : ℕ) → 60 ≤ b → b ≤ 3600 → j ≤ 20 → (54 ≤ b * (90 + j) / 100) × (b * (90 + j) / 100 ≤ 3960)
jittered_bounds b j lo hi hj = omega (arith, mul-le-mul lo (le1 j), mul-le-mul hi (le2 j hj))
  where
    le1 : (j : ℕ) → 90 ≤ 90 + j
    le1 j = omega arith

    le2 : (j : ℕ) → j ≤ 20 → 90 + j ≤ 110
    le2 j h = omega arith

epoch_matches_refl :
    (reason : SuppressionReason) (e : AdmissionEpochs) → epoch_matches reason e e ≡ true
unfolding epoch_matches
epoch_matches_refl reason e = ground (
  arith,
  nat_beq_iff e.policy e.policy,
  nat_beq_iff e.keys e.keys,
  nat_beq_iff e.budget e.budget,
  nat_beq_iff e.storage_health e.storage_health,
)

-- a record as `record_failure` makes it: the failure's own scope, reason, epochs and time, and the
-- times of `retry_times`
abbrev MadeAt :
    AdmissionScope → SuppressionReason → AdmissionEpochs → ℕ → SuppressionRecord → Type 0
MadeAt scope reason epochs now r =
    (r.scope ≡ scope)
    × (r.reason ≡ reason)
    × (r.epochs ≡ epochs)
    × (r.last_failure ≡ now)
    × (r.next_retry ≡ (retry_times (is_transient reason) scope r.attempts now).0)
    × (r.expires_at ≡ (retry_times (is_transient reason) scope r.attempts now).1)

module _ (scope : AdmissionScope) (reason : SuppressionReason) (epochs : AdmissionEpochs) (now : ℕ)
    (l : SuppressionLedger) where
  made :
      (r : SuppressionRecord)
      → (record_failure scope reason epochs now l).1 ≡ ok r
      → MadeAt scope reason epochs now r
  unfolding record_failure failure_record
  made r h = ground arith

  -- No failure evicts the entry of another scope: it is there afterwards if and only if it has not
  -- expired and its epochs still match, and it is the same.
  record_failure_keeps :
      (j : AdmissionScope)
      → scope ≢ j
      → Map.get j (record_failure scope reason epochs now l).0
        ≡ keep_if
            (λ r. ltb now r.expires_at && epoch_matches r.reason r.epochs epochs)
            (Map.get j l)
  unfolding record_failure prune
  record_failure_keeps j other = elim (Bool-cases (scope == j)) [
    | inl same ↦ absurd (other ((scope_beq_iff scope j).0 same))
    | inr apart ↦ ground (
      arith,
      get-insert scope j (failure_record scope reason epochs now (prune now epochs l))
          (prune now epochs l),
      get-retain (λ _ r. ltb now r.expires_at && epoch_matches r.reason r.epochs epochs) j l,
    )
  ]

  module _ (r : SuppressionRecord) (h : (record_failure scope reason epochs now l).1 ≡ ok r)
      (fits : now + 30 * day ≤ u64_max) where
    -- A transient failure is retried 54 seconds to 66 minutes later and forgotten after a day; any
    -- other is retried and forgotten after thirty days. (The clock is thirty days from overflow.)
    pub retry_window :
        (is_transient reason ≡ true
          → (now + 54 ≤ r.next_retry) × (r.next_retry ≤ now + 3960) × (r.expires_at ≡ now + day))
        × (is_transient reason ≡ false
            → (r.next_retry ≡ now + 30 * day) × (r.expires_at ≡ now + 30 * day))
    unfolding retry_times
    retry_window =
        let m = made r h in
        let b = base_delay_bounds r.attempts in
        let w = jittered_bounds (base_delay r.attempts) (jitter scope) b.0 b.1 (omega arith) in
        (λ t. ground (arith, m.4, m.5, w.0, w.1), λ t. ground (arith, m.4, m.5))

    -- From the failure on, the record suppresses the download exactly until the retry is due, while
    -- the epochs stay.
    pub active_iff_before_retry : (t : ℕ) → (active r t epochs ≡ true) ↔ (t < r.next_retry)
    unfolding active
    active_iff_before_retry t =
        let m = made r h in
        let w = retry_window in
        elim (Bool-cases (is_transient reason)) [
          | inl x ↦ ground (arith, w.0 x, epoch_matches_refl reason epochs, m.1, m.2)
          | inr x ↦ ground (arith, w.1 x, epoch_matches_refl reason epochs, m.1, m.2)
        ]
