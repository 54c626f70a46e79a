-- ===== src/Admission.antt =====
-- Durable download admission (crates/lxmf-core/src/admission.rs): scopes, receipts, epochs and the
-- records of suppressed downloads. A hash is the number that its bytes spell, the first byte being
-- the highest; times are seconds in a u64.
pub mod Ledger
pub mod Token
pub mod Budget
use Prim.Native.String.{String}
use rs_lxmf.Prelude.{
  ℕ, ◌≡◌, ◌↔◌, Bool, true, false, Option, none, some, ◌&&◌, arith, ltb, Eq, nat_beq, nat_beq_iff,
  nat_eq, ◌==◌, saturating_add, u64_max, Result, ok, err, ◌*◌,
}

abbrev pub policy_receipt_lifetime : ℕ
policy_receipt_lifetime = 90 * 86400

pub record AdmissionScope : Type 0 where
  pub identity : ℕ
  pub node : ℕ
  pub transient_id : ℕ

abbrev pub scope_beq : AdmissionScope → AdmissionScope → Bool
scope_beq a b =
    nat_beq a.identity b.identity && nat_beq a.node b.node && nat_beq a.transient_id b.transient_id

pub scope_beq_iff : (a b : AdmissionScope) → (scope_beq a b ≡ true) ↔ (a ≡ b)
scope_beq_iff a b = ground arith

instance abbrev pub scope_eq : Eq AdmissionScope
scope_eq = record { beq = scope_beq; beq_iff = scope_beq_iff }

pub data DurableDisposition : Type 0 where
  committed duplicate policy_discard user_deleted : DurableDisposition

pub record AdmissionRecord : Type 0 where
  pub scope : AdmissionScope
  pub message_id : ℕ
  pub received_wire_hash : ℕ
  pub stored_message_wire_hash : Option ℕ
  pub disposition : DurableDisposition
  pub committed_at : ℕ

pub record DurableHave : Type 0 where
  pub transient_id : ℕ
  pub expires_at : Option ℕ

-- the `then` of `from_record`
abbrev receipt_expiry : DurableDisposition → ℕ → Option ℕ
receipt_expiry committed at = none
receipt_expiry duplicate at = none
receipt_expiry policy_discard at = some (saturating_add u64_max at policy_receipt_lifetime)
receipt_expiry user_deleted at = some (saturating_add u64_max at policy_receipt_lifetime)

unfoldable pub from_record : AdmissionRecord → DurableHave
from_record r = record {
  transient_id = r.scope.transient_id;
  expires_at = receipt_expiry r.disposition r.committed_at;
}

-- `is_none_or`
abbrev before_expiry : Option ℕ → ℕ → Bool
before_expiry none now = true
before_expiry (some expiry) now = ltb now expiry

unfoldable pub have_active : DurableHave → ℕ → Bool
have_active h now = before_expiry h.expires_at now

pub data AdmissionError : Type 0 where
  not_committed commit_uncertain : String → AdmissionError
  disposition_ledger_full wrong_scope : AdmissionError

pub record AdmissionEpochs : Type 0 where
  pub policy : ℕ
  pub keys : ℕ
  pub budget : ℕ
  pub storage_health : ℕ

pub data SuppressionReason : Type 0 where
  malformed wrong_destination invalid_signature invalid_stamp decryption_failed : SuppressionReason
  too_large missing_key storage_unavailable storage_busy quota : SuppressionReason
  worker_unavailable disposition_ledger_full cancelled : SuppressionReason

pub SuppressionReason-discrete : Discrete SuppressionReason
SuppressionReason-discrete = hlevel

abbrev pub is_transient : SuppressionReason → Bool
is_transient missing_key = true
is_transient storage_unavailable = true
is_transient storage_busy = true
is_transient quota = true
is_transient worker_unavailable = true
is_transient SuppressionReason.disposition_ledger_full = true
is_transient cancelled = true
is_transient _ = false

unfoldable pub epoch_matches : SuppressionReason → AdmissionEpochs → AdmissionEpochs → Bool
epoch_matches decryption_failed before now = before.keys == now.keys
epoch_matches missing_key before now = before.keys == now.keys
epoch_matches invalid_signature before now = before.keys == now.keys && before.policy == now.policy
epoch_matches too_large before now = before.budget == now.budget
epoch_matches storage_unavailable before now = before.storage_health == now.storage_health
epoch_matches storage_busy before now = before.storage_health == now.storage_health
epoch_matches quota before now = before.storage_health == now.storage_health
epoch_matches SuppressionReason.disposition_ledger_full before now =
    before.storage_health == now.storage_health
epoch_matches _ before now = before.policy == now.policy

pub record SuppressionRecord : Type 0 where
  pub scope : AdmissionScope
  pub reason : SuppressionReason
  pub epochs : AdmissionEpochs
  pub attempts : ℕ  -- u16
  pub last_failure : ℕ
  pub next_retry : ℕ
  pub expires_at : ℕ

unfoldable pub active : SuppressionRecord → ℕ → AdmissionEpochs → Bool
active r now epochs =
    ltb now r.expires_at && ltb now r.next_retry && epoch_matches r.reason r.epochs epochs
