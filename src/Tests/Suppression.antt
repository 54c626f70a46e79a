-- ===== src/Tests/Suppression.antt =====
-- The suppression ledger of crates/lxmf-core/src/admission.rs on concrete inputs.
use rs_lxmf.Prelude.{
  ◌⊎◌, some, ◌+◌, ◌*◌, ◌≤◌, ◌<◌, ◌≡◌, ◌↔◌, true, false, [], ◌∷◌, arith, nat_eq, ok, err, refl,
  length,
}
use rs_lxmf.Map
use rs_lxmf.Map.Counts.{IsDistinct}
use rs_lxmf.Admission.{
  AdmissionScope, scope_eq, AdmissionError, AdmissionEpochs, SuppressionRecord, quota, malformed,
  active, is_transient,
}
use rs_lxmf.Admission.Ledger.{
  SuppressionLedger, day, record_failure, failure_record, saturated, prune, identity_count,
  node_count, from_records, restore, is_invalid_row, next_attempt, retry_times, base_delay,
}
use rs_lxmf.Admission.Ledger.Bounds.{IsBounded, record_failure-IsBounded}
use rs_lxmf.Admission.Ledger.Retry.{retry_window, active_iff_before_retry}
use rs_lxmf.Admission.Ledger.Refusal.{
  is_live, live_count, live_identity_count, live_node_count, refused_iff,
}
use rs_lxmf.Admission.Ledger.Restore.{AllFound, from_records_lem}

abbrev scope : AdmissionScope
scope = record { identity = 1; node = 2; transient_id = 3 }

abbrev other_scope : AdmissionScope
other_scope = record { identity = 1; node = 2; transient_id = 4 }

abbrev epochs : AdmissionEpochs
epochs = record { policy = 0; keys = 0; budget = 0; storage_health = 0 }

abbrev over_quota : SuppressionRecord
over_quota = record {
  scope = scope;
  reason = quota;
  epochs = epochs;
  attempts = 1;
  last_failure = 1000;
  next_retry = 1054;
  expires_at = 1000 + day;
}

abbrev one_row : SuppressionLedger
one_row = (scope, over_quota) ∷ []

empty_IsBounded : IsBounded []
unfolding identity_count node_count Map.count_keys
empty_IsBounded = record {
  overall = omega arith;
  identities = λ i. omega arith;
  nodes = λ i n. omega arith;
}

from_records_runs : from_records (over_quota ∷ []) ≡ ok one_row
unfolding from_records restore Map.get Map.insert is_invalid_row
from_records_runs = refl

record_failure_runs : record_failure scope quota epochs 1000 [] ≡ (one_row, ok over_quota)
unfolding record_failure failure_record prune saturated identity_count node_count next_attempt
    retry_times base_delay Map.get Map.insert Map.retain Map.count_keys
record_failure_runs = refl

recorded : (record_failure scope quota epochs 1000 []).1 ≡ ok over_quota
recorded = rw record_failure_runs

from_records_lem_example :
    IsBounded one_row × (length one_row ≡ 1) × AllFound one_row (over_quota ∷ [])
from_records_lem_example = from_records_lem (over_quota ∷ []) one_row from_records_runs

record_failure-IsBounded_example : IsBounded (record_failure scope malformed epochs 1000 []).0
record_failure-IsBounded_example =
    record_failure-IsBounded scope malformed epochs 1000 [] empty_IsBounded

active_iff_before_retry_example : (active over_quota 1010 epochs ≡ true) ↔ (1010 < 1054)
active_iff_before_retry_example =
    active_iff_before_retry scope quota epochs 1000 [] over_quota recorded (omega arith) 1010

retry_window_example :
    (is_transient quota ≡ true
      → (1000 + 54 ≤ over_quota.next_retry)
        × (over_quota.next_retry ≤ 1000 + 3960)
        × (over_quota.expires_at ≡ 1000 + day))
    × (is_transient quota ≡ false
        → (over_quota.next_retry ≡ 1000 + 30 * day) × (over_quota.expires_at ≡ 1000 + 30 * day))
retry_window_example = retry_window scope quota epochs 1000 [] over_quota recorded (omega arith)

one_row-IsDistinct : IsDistinct one_row
unfolding Map.get
one_row-IsDistinct = (refl, tt)

refused_iff_example :
    ((record_failure other_scope quota epochs 1020 one_row).1
      ≡ err AdmissionError.disposition_ledger_full)
    ↔ (((r : SuppressionRecord)
          → Map.get other_scope one_row ≡ some r
          → is_live other_scope quota epochs 1020 one_row (other_scope, r) ≡ false)
        × ((65536 ≤ live_count other_scope quota epochs 1020 one_row)
            ⊎ (16384 ≤ live_identity_count other_scope quota epochs 1020 one_row)
            ⊎ (4096 ≤ live_node_count other_scope quota epochs 1020 one_row)))
refused_iff_example = refused_iff other_scope quota epochs 1020 one_row one_row-IsDistinct
