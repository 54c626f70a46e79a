-- ===== src/Admission/Token.antt =====
-- `DownloadAdmissionToken` (crates/lxmf-core/src/admission.rs): single-use authority to resolve one
-- download. The channel is the unbounded sender with the messages sent on it. The generation counter
-- is read twice in a call, and may change between the reads: the two values are arguments.
use rs_lxmf.Prelude.{
  ℕ, ◌≡◌, ◌↔◌, ◌⊎◌, inl, inr, Bool, true, false, not, List, [], ◌∷◌, ◌++◌, arith, nat_eq, ◌==◌,
  if◌then◌else◌, Result, ok, err, refl, Bool-cases,
}
use rs_lxmf.Admission.{
  AdmissionScope, scope_eq, scope_beq_iff, AdmissionError, not_committed, wrong_scope,
  AdmissionRecord, SuppressionReason,
}

pub data DownloadAdmissionOutcome : Type 0 where
  accepted : AdmissionRecord → DownloadAdmissionOutcome
  rejected : SuppressionReason → DownloadAdmissionOutcome

pub record AdmissionResolution : Type 0 where
  pub generation : ℕ
  pub scope : AdmissionScope
  pub outcome : DownloadAdmissionOutcome

pub record DownloadAdmissionToken : Type 0 where
  pub scope : AdmissionScope
  pub generation : ℕ

pub record Channel : Type 0 where
  pub open_consumer : Bool
  pub sent : List AdmissionResolution

abbrev pub message : DownloadAdmissionToken → DownloadAdmissionOutcome → AdmissionResolution
message t outcome = record { generation = t.generation; scope = t.scope; outcome = outcome }

unfoldable pub send : AdmissionResolution → Channel → Channel × Bool
send m c = if c.open_consumer then (record c { sent = c.sent ++ m ∷ [] }, true) else (c, false)

-- `Drop` of a token that still has its sender
unfoldable pub drop_token : DownloadAdmissionToken → Channel → Channel
drop_token t c = (send (message t (rejected SuppressionReason.cancelled)) c).0

-- a receipt of another scope
abbrev pub is_wrong_scope : DownloadAdmissionToken → DownloadAdmissionOutcome → Bool
is_wrong_scope t (accepted receipt) = not (receipt.scope == t.scope)
is_wrong_scope t (rejected reason) = false

-- `resolve`, with the drop of the token at its end: a wrong scope returns with the sender in place,
-- so that the drop reports a cancellation; a revoked generation gives the sender up first.
unfoldable pub resolve :
    DownloadAdmissionToken
    → DownloadAdmissionOutcome
    → ℕ
    → ℕ
    → Channel
    → Channel × Result (Unit {0}) AdmissionError
resolve t outcome before after c =
    if is_wrong_scope t outcome
    then (drop_token t c, err wrong_scope)
    else if not (before == t.generation)
    then (c, err (not_committed "download generation was revoked"))
    else let (c', delivered) = send (message t outcome) c in
      if not delivered
      then (c', err (not_committed "download consumer is closed"))
      else if not (after == t.generation)
      then (c', err (not_committed "download generation was revoked"))
      else (c', ok tt)

-- what a message may say: the token's scope and generation, and a receipt of that scope only
pub record IsAuthorised (t : DownloadAdmissionToken) (m : AdmissionResolution) : Type 0 where
  pub own_scope : m.scope ≡ t.scope
  pub own_generation : m.generation ≡ t.generation
  pub own_receipt : (r : AdmissionRecord) → m.outcome ≡ accepted r → r.scope ≡ t.scope

-- A receipt that an outcome carries is for the token's download.
abbrev pub Fits : DownloadAdmissionToken → DownloadAdmissionOutcome → Type 0
Fits t outcome = (r : AdmissionRecord) → outcome ≡ accepted r → r.scope ≡ t.scope

Fits-iff :
    (t : DownloadAdmissionToken) (outcome : DownloadAdmissionOutcome)
    → (is_wrong_scope t outcome ≡ false) ↔ Fits t outcome
Fits-iff t (accepted receipt) = (
  λ h r e. ground (arith, scope_beq_iff receipt.scope t.scope),
  λ fits. ground (arith, scope_beq_iff receipt.scope t.scope, fits receipt refl),
)
Fits-iff t (rejected reason) = (λ h r e. absurd (ground arith), λ fits. refl)

module _ (t : DownloadAdmissionToken) (outcome : DownloadAdmissionOutcome) (before after : ℕ)
    (c : Channel) where
  cancelled_IsAuthorised : IsAuthorised t (message t (rejected SuppressionReason.cancelled))
  cancelled_IsAuthorised = record {
    own_scope = refl;
    own_generation = refl;
    own_receipt = λ r e. absurd (ground arith);
  }

  -- A resolution sends nothing, or exactly one message that the token authorises.
  pub resolve_sends :
      ((resolve t outcome before after c).0 ≡ c)
      ⊎ ((m : AdmissionResolution) × IsAuthorised t m
          × ((resolve t outcome before after c).0 ≡ record c { sent = c.sent ++ m ∷ [] }))
  unfolding resolve drop_token send
  resolve_sends = elim (Bool-cases c.open_consumer) [
    | inr closed ↦ inl (ground arith)
    | inl alive ↦ elim (Bool-cases (is_wrong_scope t outcome)) [
      | inl wrong ↦
          inr
            (message t (rejected SuppressionReason.cancelled), cancelled_IsAuthorised, ground arith)
      | inr right ↦ elim (Bool-cases (before == t.generation)) [
        | inl current ↦ inr (
          message t outcome,
          record {
            own_scope = refl;
            own_generation = refl;
            own_receipt = (Fits-iff t outcome).0 right;
          },
          ground arith,
        )
        | inr revoked ↦ inl (ground arith)
      ]
    ]
  ]
