-- ===== src/Admission/Ledger.antt =====
-- `SuppressionLedger` (crates/lxmf-core/src/admission.rs): downloads that failed and wait for a
-- retry, under quotas by node, by identity and overall.
pub mod Bounds
pub mod Retry
pub mod Refusal
pub mod Restore
use mathlib.Core.Logic.{ite}
use rs_lxmf.Prelude.{
  ℕ, ◌+◌, ◌-◌, ◌*◌, ◌/◌, ◌%◌, ◌^◌, min, Bool, true, false, Option, none, some, List, [], ◌∷◌, not,
  ◌&&◌, ◌||◌, ltb, leb, nat_beq, nat_eq, ◌==◌, if◌then◌else◌, saturating_add, u16_max, u64_max,
  Result, ok, err, length, Eq, ◌≡◌, ◌↔◌, arith,
}
use rs_lxmf.Map
use rs_lxmf.Map.{Map, contains_key}
use rs_lxmf.Admission.{
  AdmissionScope, scope_eq, AdmissionError, not_committed, AdmissionEpochs, SuppressionReason,
  SuppressionReason-discrete, SuppressionRecord, is_transient, epoch_matches,
}

abbrev pub SuppressionLedger : Type 0
SuppressionLedger = Map AdmissionScope SuppressionRecord

abbrev pub per_node : ℕ
per_node = 4096

abbrev pub per_identity : ℕ
per_identity = 16384

abbrev pub global : ℕ
global = 65536

abbrev pub day : ℕ
day = 86400

unfoldable pub identity_count : ℕ → SuppressionLedger → ℕ
identity_count identity l = Map.count_keys (λ k. k.identity == identity) l

unfoldable pub node_count : ℕ → ℕ → SuppressionLedger → ℕ
node_count identity node l = Map.count_keys (λ k. k.identity == identity && k.node == node) l

unfoldable pub saturated : ℕ → ℕ → SuppressionLedger → Bool
saturated identity node l =
    leb global (length l)
    || leb per_identity (identity_count identity l)
    || leb per_node (node_count identity node l)

unfoldable pub prune : ℕ → AdmissionEpochs → SuppressionLedger → SuppressionLedger
prune now epochs l =
    Map.retain (λ _ r. ltb now r.expires_at && epoch_matches r.reason r.epochs epochs) l

-- `filter(|r| r.reason == reason).map_or(1, …)`
unfoldable pub next_attempt : Option SuppressionRecord → SuppressionReason → ℕ
next_attempt none reason = 1
next_attempt (some r) reason =
    ite (SuppressionReason-discrete r.reason reason) (saturating_add u16_max r.attempts 1) 1

-- the first two bytes of the transient id, modulo 21
abbrev pub jitter : AdmissionScope → ℕ
jitter scope = scope.transient_id / 2 ^ 240 % 65536 % 21

-- `(60u64 << attempts.saturating_sub(1).min(6)).min(3600)`
unfoldable pub base_delay : ℕ → ℕ
base_delay attempts = min (60 * 2 ^ min (attempts - 1) 6) 3600

-- `next_retry` and `expires_at`
unfoldable pub retry_times : Bool → AdmissionScope → ℕ → ℕ → ℕ × ℕ
retry_times true scope attempts now = (
  saturating_add u64_max now (base_delay attempts * (90 + jitter scope) / 100),
  saturating_add u64_max now day,
)
retry_times false scope attempts now =
    (saturating_add u64_max now (30 * day), saturating_add u64_max now (30 * day))

-- the record that `record_failure` stores
unfoldable pub failure_record :
    AdmissionScope → SuppressionReason → AdmissionEpochs → ℕ → SuppressionLedger → SuppressionRecord
failure_record scope reason epochs now l =
    let attempts = next_attempt (Map.get scope l) reason in
    let (next_retry, expires_at) = retry_times (is_transient reason) scope attempts now in
    record {
      scope = scope;
      reason = reason;
      epochs = epochs;
      attempts = attempts;
      last_failure = now;
      next_retry = next_retry;
      expires_at = expires_at;
    }

unfoldable pub record_failure :
    AdmissionScope
    → SuppressionReason
    → AdmissionEpochs
    → ℕ
    → SuppressionLedger
    → SuppressionLedger × Result SuppressionRecord AdmissionError
record_failure scope reason epochs now l =
    let l' = prune now epochs l in
    if not (contains_key scope l') && saturated scope.identity scope.node l'
    then (l', err AdmissionError.disposition_ledger_full)
    else let r = failure_record scope reason epochs now l' in (Map.insert scope r l', ok r)

-- the test on a persisted row in `from_records`
unfoldable pub is_invalid_row : SuppressionRecord → Bool
is_invalid_row r =
    r.attempts == 0
    || ltb r.next_retry r.last_failure
    || leb r.expires_at r.last_failure
    || ltb (saturating_add u64_max r.last_failure (30 * day)) r.expires_at

-- the key of the counters by node, `([u8; 16], [u8; 16])`
pub record NodeKey : Type 0 where
  pub identity : ℕ
  pub node : ℕ

abbrev pub node_key_beq : NodeKey → NodeKey → Bool
node_key_beq a b = nat_beq a.identity b.identity && nat_beq a.node b.node

pub node_key_beq_iff : (a b : NodeKey) → (node_key_beq a b ≡ true) ↔ (a ≡ b)
node_key_beq_iff a b = ground arith

instance abbrev pub node_key_eq : Eq NodeKey
node_key_eq = record { beq = node_key_beq; beq_iff = node_key_beq_iff }

-- `entry(k).or_default()` read
abbrev pub or_zero : Option ℕ → ℕ
or_zero none = 0
or_zero (some n) = n

abbrev pub node_key : SuppressionRecord → NodeKey
node_key r = record { identity = r.scope.identity; node = r.scope.node }

-- The loop of `from_records`: the rows left, the ledger, and the counters. An early return drops the
-- counters, so that the zeros that `or_default` enters are not modelled.
unfoldable pub restore :
    List SuppressionRecord
    → SuppressionLedger
    → Map ℕ ℕ
    → Map NodeKey ℕ
    → Result SuppressionLedger AdmissionError
restore [] l identities nodes = ok l
restore (r ∷ rs) l identities nodes =
    let identity = or_zero (Map.get r.scope.identity identities) in
    let node = or_zero (Map.get (node_key r) nodes) in
    let rest =
      restore rs (Map.insert r.scope r l) (Map.insert r.scope.identity (identity + 1) identities)
        (Map.insert (node_key r) (node + 1) nodes) in
    if contains_key r.scope l
    then err (not_committed "duplicate suppression scope")
    else if is_invalid_row r
    then err (not_committed "invalid suppression interval")
    else if leb global (length l) || leb per_identity identity || leb per_node node
    then err AdmissionError.disposition_ledger_full
    else rest

unfoldable pub from_records : List SuppressionRecord → Result SuppressionLedger AdmissionError
unfolding restore
from_records rs = restore rs [] [] []
