-- ===== src/Admission/Budget.antt =====
-- The memory budgets (crates/lxmf-core/src/admission.rs): retained responses, processing memory and
-- workers. tokio's `Semaphore` is a parameter with its documented behaviour; a permit that is
-- dropped gives its amount back.
use rs_lxmf.Prelude.{
  ℕ, ◌+◌, ◌*◌, ◌%◌, ◌^◌, ◌≤◌, ◌<◌, ◌≡◌, ◌↔◌, min, Option, none, some, inl, inr, arith, ltb, leb,
  if◌then◌else◌, Result, ok, err, refl, usize_max, Bool-cases, Option-cases,
}
use rs_lxmf.Admission.{SuppressionReason, too_large, worker_unavailable}

-- `try_acquire_many_owned` takes the amount if it is there, and `release` is the drop of a permit.
pub record Semaphore : Type 1 where
  pub S : Type 0
  pub available : S → ℕ
  pub try_acquire : ℕ → S → Option S
  pub release : ℕ → S → S
  pub acquired : (n : ℕ) (s s' : S) → try_acquire n s ≡ some s' → available s' + n ≡ available s
  pub refused : (n : ℕ) (s : S) → (try_acquire n s ≡ none) ↔ (available s < n)
  pub released : (n : ℕ) (s : S) → available (release n s) ≡ available s + n

abbrev pub max_retained_download_bytes : ℕ
max_retained_download_bytes = 134217727

abbrev pub max_processing_bytes : ℕ
max_processing_bytes = 256 * 1024 * 1024

-- `as u32`
abbrev pub as_u32 : ℕ → ℕ
as_u32 n = n % 2 ^ 32

-- the checked product and sum of `ProcessingLease::try_acquire`, and its filter
unfoldable pub lease_amount : ℕ → Option ℕ
lease_amount cipher_len =
    if ltb usize_max (cipher_len * 4)
    then none
    else if ltb usize_max (cipher_len * 4 + (128 * 1024 + 256))
    then none
    else if leb (cipher_len * 4 + (128 * 1024 + 256)) max_processing_bytes
    then some (cipher_len * 4 + (128 * 1024 + 256))
    else none

-- Overflow or not, exactly the amounts in the budget pass.
lease_amount_lem :
    (n : ℕ)
    → lease_amount n
      ≡ (if leb (n * 4 + 131328) max_processing_bytes then some (n * 4 + 131328) else none)
unfolding lease_amount
lease_amount_lem n = ground arith

as_u32_lem : (n : ℕ) → n ≤ max_processing_bytes → as_u32 n ≡ n
as_u32_lem n h = omega arith

module _ (sem : Semaphore) where
  open sem use {S, available, try_acquire, release, acquired, refused, released}

  -- `map_err(|_| WorkerUnavailable)`
  abbrev granted : Option S → S → S × Result (Unit {0}) SuppressionReason
  granted none s = (s, err worker_unavailable)
  granted (some s') s = (s', ok tt)

  unfoldable pub retain_response : ℕ → ℕ → S → S × Result (Unit {0}) SuppressionReason
  retain_response len local_limit s =
      if ltb (min local_limit max_retained_download_bytes) len
      then (s, err too_large)
      else granted (try_acquire (as_u32 len) s) s

  -- `ProcessingMemoryLease::try_acquire`
  unfoldable pub acquire_memory : ℕ → S → S × Result (Unit {0}) SuppressionReason
  acquire_memory amount s =
      if ltb max_processing_bytes amount
      then (s, err too_large)
      else granted (try_acquire (as_u32 amount) s) s

  -- the worker slot; without one the bytes go back
  abbrev with_worker : ℕ → Option S → S → S → (S × S) × Result (Unit {0}) SuppressionReason
  with_worker amount none bytes workers = ((release amount bytes, workers), err worker_unavailable)
  with_worker amount (some workers') bytes workers = ((bytes, workers'), ok tt)

  abbrev with_bytes : ℕ → Option S → S → S → (S × S) × Result (Unit {0}) SuppressionReason
  with_bytes amount none bytes workers = ((bytes, workers), err worker_unavailable)
  with_bytes amount (some bytes') bytes workers =
      with_worker amount (try_acquire 1 workers) bytes' workers

  abbrev with_amount : Option ℕ → S → S → (S × S) × Result (Unit {0}) SuppressionReason
  with_amount none bytes workers = ((bytes, workers), err too_large)
  with_amount (some amount) bytes workers =
      with_bytes (as_u32 amount) (try_acquire (as_u32 amount) bytes) bytes workers

  -- `ProcessingLease::try_acquire`
  unfoldable pub acquire_lease : ℕ → S → S → (S × S) × Result (Unit {0}) SuppressionReason
  acquire_lease cipher_len bytes workers = with_amount (lease_amount cipher_len) bytes workers

  -- the permits of a lease, and what a lease without a worker gives back
  taken :
      (amount : ℕ) (bytes workers : S)
      → let s = with_bytes amount (try_acquire amount bytes) bytes workers in
        (s.1 ≡ ok tt
          → (available s.0.0 + amount ≡ available bytes)
            × (available s.0.1 + 1 ≡ available workers))
        × ((e : SuppressionReason)
            → s.1 ≡ err e
            → (available s.0.0 ≡ available bytes) × (available s.0.1 ≡ available workers))
  taken amount bytes workers = elim (Option-cases (try_acquire amount bytes)) [
    | inl e ↦ rw e (λ h. absurd (ground arith), λ x h. (refl, refl))
    | inr (b, e) ↦ elim (Option-cases (try_acquire 1 workers)) [
      | inl w ↦ rw e (
          rw w (
            λ h. absurd (ground arith),
            λ x h. (omega (arith, acquired amount bytes b e, released amount b), refl),
          ))
      | inr (v, w) ↦ rw e (
          rw w (
            λ h. (acquired amount bytes b e, acquired 1 workers v w),
            λ x h. absurd (ground arith),
          ))
    ]
  ]

  -- A lease is all or nothing: with it, four times the ciphertext and the fixed part are taken from
  -- the bytes, within the budget, and one worker is taken; without it, both budgets are as before.
  pub lease_all_or_nothing :
      (cipher_len : ℕ) (bytes workers : S)
      → let s = acquire_lease cipher_len bytes workers in
        (s.1 ≡ ok tt
          → (available s.0.0 + (cipher_len * 4 + 131328) ≡ available bytes)
            × (available s.0.1 + 1 ≡ available workers)
            × (cipher_len * 4 + 131328 ≤ max_processing_bytes))
        × ((e : SuppressionReason)
            → s.1 ≡ err e
            → (available s.0.0 ≡ available bytes) × (available s.0.1 ≡ available workers))
  unfolding acquire_lease
  lease_all_or_nothing cipher_len bytes workers =
      let amount = cipher_len * 4 + 131328 in
      elim (Bool-cases (leb amount max_processing_bytes)) [
        | inl fits ↦
            let t = taken amount bytes workers in
            rw lease_amount_lem (
              rw fits (
                rw (as_u32_lem amount (ground arith))
                  (λ h. ((t.0 h).0, (t.0 h).1, ground arith), t.1)))
        | inr large ↦
            rw lease_amount_lem (rw large (λ h. absurd (ground arith), λ e h. (refl, refl)))
      ]
