-- ===== src/Tests/Downloads.antt =====
-- Download tokens, memory budgets and sync exchanges (crates/lxmf-core/src/admission.rs and sync.rs)
-- on concrete inputs.
use rs_lxmf.Prelude.{
  ℕ, ◌+◌, ◌-◌, ◌*◌, ◌≤◌, ◌<◌, ◌≡◌, ◌↔◌, ◌⊎◌, not, true, Option, some, none, [], ◌∷◌, ◌++◌, arith,
  nat_eq, ok, err, refl, ltb, if◌then◌else◌, filter,
}
use rs_lxmf.Map
use rs_lxmf.Admission.{AdmissionRecord, committed, SuppressionReason, quota}
use rs_lxmf.Admission.Token.{
  DownloadAdmissionToken, Channel, AdmissionResolution, rejected, resolve, IsAuthorised,
  resolve_sends,
}
use rs_lxmf.Admission.Budget.{Semaphore, acquire_lease, max_processing_bytes, lease_all_or_nothing}
use rs_lxmf.Store.{new}
use rs_lxmf.Sync
use rs_lxmf.Sync.{
  SyncSession, SyncState, PeerError, MessagePack, prepare_offer, process_offer, process_get,
  from_value, as_peer_error, unknown,
}
use rs_lxmf.Sync.Session.{exchange_wants_missing}
use rs_lxmf.Tests.Numbers.{whole}

abbrev token : DownloadAdmissionToken
token = record { scope = record { identity = 1; node = 2; transient_id = 3 }; generation = 4 }

abbrev channel : Channel
channel = record { open_consumer = true; sent = [] }

resolve_sends_example :
    ((resolve token (rejected quota) 4 5 channel).0 ≡ channel)
    ⊎ ((m : AdmissionResolution) × IsAuthorised token m
        × ((resolve token (rejected quota) 4 5 channel).0 ≡ record channel { sent = [] ++ m ∷ [] }))
resolve_sends_example = resolve_sends token (rejected quota) 4 5 channel

abbrev receipt : AdmissionRecord
receipt = record {
  scope = token.scope;
  message_id = 1;
  received_wire_hash = 5;
  stored_message_wire_hash = none;
  disposition = committed;
  committed_at = 50;
}

-- a semaphore that is its count
abbrev take_permits : ℕ → ℕ → Option ℕ
take_permits n s = if ltb s n then none else some (s - n)

taken_permits : (n s s' : ℕ) → take_permits n s ≡ some s' → s' + n ≡ s
taken_permits n s s' e = ground arith

refused_permits : (n s : ℕ) → (take_permits n s ≡ none) ↔ (s < n)
refused_permits n s = ground arith

abbrev counter : Semaphore
counter = record {
  S = ℕ;
  available = λ s. s;
  try_acquire = take_permits;
  release = λ n s. s + n;
  acquired = taken_permits;
  refused = refused_permits;
  released = λ n s. refl;
}

lease_all_or_nothing_example :
    let s = acquire_lease counter 1000 200000 8 in
    (s.1 ≡ ok tt
      → (s.0.0 + (1000 * 4 + 131328) ≡ 200000)
        × (s.0.1 + 1 ≡ 8)
        × (1000 * 4 + 131328 ≤ max_processing_bytes))
    × ((e : SuppressionReason) → s.1 ≡ err e → (s.0.0 ≡ 200000) × (s.0.1 ≡ 8))
lease_all_or_nothing_example = lease_all_or_nothing counter 1000 200000 8

abbrev sender : SyncSession
sender = rs_lxmf.Sync.new 11

abbrev receiver : SyncSession
receiver = rs_lxmf.Sync.new 12

exchange_wants_missing_example :
    let offered = prepare_offer (5 ∷ 6 ∷ []) (9 ∷ []) sender in
    let answered = process_offer whole offered.1 (new whole) receiver in
    let a' = process_get answered.1 offered.0 in
    (a'.wanted_ids ≡ filter (λ id. not (Map.contains_key id (new whole).entries)) (5 ∷ 6 ∷ []))
    × (a'.offered_ids ≡ 5 ∷ 6 ∷ [])
    × (offered.0.state ≡ SyncState.offer_sent)
    × (answered.0.state ≡ SyncState.receiving)
    × (a'.state ≡ SyncState.sending)
exchange_wants_missing_example =
    exchange_wants_missing whole (5 ∷ 6 ∷ []) (9 ∷ []) (new whole) sender receiver
      (omega arith, (omega arith, tt))

-- MessagePack values that are all integers
abbrev integers : MessagePack
integers = record {
  Value = ℕ;
  read_value = λ bytes. some 0;
  as_bool = λ v. none;
  as_u64 = λ v. some v;
  as_array = λ v. none;
  as_slice = λ v. none;
}
