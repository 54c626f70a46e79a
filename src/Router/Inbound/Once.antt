-- ===== src/Router/Inbound/Once.antt =====
-- A message reaches the application once, however it arrives (crates/lxmf-core/src/router.rs).
use rs_lxmf.Prelude.{
  ℕ, ◌+◌, ◌≤◌, ◌≡◌, inl, inr, Bool, true, false, Bool-cases, Option, none, some, List, [], ◌∷◌,
  nat_eq, ◌==◌, if◌then◌else◌, refl, Float, arith, count, count-append,
}
use rs_lxmf.Admission.{AdmissionRecord}
use rs_lxmf.Map
use rs_lxmf.Map.Laws.{get-insert}
use rs_lxmf.Message.{LxMessage}
use rs_lxmf.Router.{LxmRouter}
use rs_lxmf.Router.Inbound.{
  InboundReservation, deliver_inbound, reserve_inbound, abort_inbound, commit_inbound, learn,
  learns, publish, mark_received, is_match, is_committed, mark_delivered_id, deliver_callback,
  release,
}
use rs_lxmf.Store.{is_locally_delivered, mark_locally_delivered, mark_locally_processed}
use rs_lxmf.Ticket.{Ticket}

module _ (fl : Float) where
  open fl use {F64}

  pub data InboundEvent : Type 0 where
    deliver reserve : LxMessage fl → InboundEvent
    abort : InboundReservation → InboundEvent
    commit : InboundReservation → LxMessage fl → AdmissionRecord → Option (Ticket fl) → InboundEvent

  -- delivery without duplicates
  unfoldable pub inbound_step : InboundEvent → F64 → LxmRouter fl → LxmRouter fl
  unfolding deliver_inbound reserve_inbound abort_inbound commit_inbound
  inbound_step (deliver m) now r = (deliver_inbound fl m false now r).0
  inbound_step (reserve m) now r = (reserve_inbound fl m r).0
  inbound_step (abort res) now r = abort_inbound fl res r
  inbound_step (commit res m receipt learned) now r =
      (commit_inbound fl res m receipt learned now r).0

  unfoldable pub inbound_run : List (InboundEvent × F64) → LxmRouter fl → LxmRouter fl
  unfolding inbound_step
  inbound_run [] r = r
  inbound_run ((e, now) ∷ es) r = inbound_run es (inbound_step e now r)

  abbrev pub is_known : ℕ → LxmRouter fl → Bool
  is_known id r = Map.contains_key id r.propagation_store.locally_delivered_ids

  -- how often a message has been given to the application
  abbrev pub deliveries : ℕ → LxmRouter fl → ℕ
  deliveries id r = count (λ d. d == id) r.delivered

  abbrev pub room : ℕ → LxmRouter fl → ℕ
  room id r = if is_known id r then 0 else 1

  abbrev IsNoMore : ℕ → LxmRouter fl → LxmRouter fl → Type 0
  IsNoMore id r' r = deliveries id r' + room id r' ≤ deliveries id r + room id r

  known-marked :
      (id k : ℕ) (now : F64) (r : LxmRouter fl)
      → is_known id (mark_delivered_id fl k now r) ≡ (if k == id then true else is_known id r)
  unfolding mark_locally_delivered
  known-marked id k now r =
      ground (arith, get-insert k id now r.propagation_store.locally_delivered_ids)

  room-marked :
      (id k : ℕ) (now : F64) (r : LxmRouter fl) → room id (mark_delivered_id fl k now r) ≤ room id r
  room-marked id k now r = ground (arith, known-marked id k now r)

  -- a message that is not known is marked and delivered
  delivered_new :
      (id k : ℕ) (now : F64) (r : LxmRouter fl)
      → is_known k r ≡ false
      → IsNoMore id (deliver_callback fl k (mark_delivered_id fl k now r)) r
  unfolding count
  delivered_new id k now r h = elim (Bool-cases (k == id)) [
    | inl same ↦
        ground (arith, known-marked id k now r, count-append (λ d. d == id) r.delivered (k ∷ []))
    | inr other ↦
        ground (arith, known-marked id k now r, count-append (λ d. d == id) r.delivered (k ∷ []))
  ]

  publish-IsNoMore :
      (id k : ℕ) (is_commit : Bool) (now : F64) (r : LxmRouter fl)
      → IsNoMore id (publish fl k is_commit now r).0 r
  unfolding publish is_locally_delivered
  publish-IsNoMore id k is_commit now r = elim (Bool-cases (is_known k r)) [
    | inl known ↦ rw known (omega (arith, room-marked id k now r))
    | inr new ↦ elim (Bool-cases is_commit) [
      | inl commits ↦ rw new (rw commits (delivered_new id k now r new))
      | inr drops ↦ rw new (rw drops (omega (arith, room-marked id k now r)))
    ]
  ]

  received-IsNoMore :
      (id k : ℕ) (now : F64) (r : LxmRouter fl) → IsNoMore id (mark_received fl k now r) r
  unfolding mark_received mark_locally_processed mark_locally_delivered
  received-IsNoMore id k now r = omega (arith, room-marked id k now r)

  learn-delivered :
      (learned : Option (Ticket fl)) (r : LxmRouter fl)
      → ((learn fl learned r).propagation_store ≡ r.propagation_store)
        × ((learn fl learned r).delivered ≡ r.delivered)
  unfolding learn
  learn-delivered none r = (refl, refl)
  learn-delivered (some ticket) r = (refl, refl)

  learned-IsNoMore :
      (id : ℕ) (b : Bool) (learned : Option (Ticket fl)) (r : LxmRouter fl)
      → IsNoMore id (if b then learn fl learned r else r) r
  learned-IsNoMore id true learned r =
      rw (learn-delivered learned r).0 (rw (learn-delivered learned r).1 (omega arith))
  learned-IsNoMore id false learned r = omega arith

  commit-IsNoMore :
      (id : ℕ) (res : InboundReservation) (m : LxMessage fl) (receipt : AdmissionRecord)
      (learned : Option (Ticket fl)) (now : F64) (r : LxmRouter fl)
      → IsNoMore id (commit_inbound fl res m receipt learned now r).0 r
  unfolding commit_inbound
  commit-IsNoMore id res m receipt learned now r = elim (Bool-cases (is_match fl res m receipt r)) [
    | inl fits ↦ rw fits (
        let r1 = release fl res.message_id r in
        let r2 : LxmRouter fl = if learns receipt.disposition then learn fl learned r1 else r1 in
        omega (
          arith,
          learned-IsNoMore id (learns receipt.disposition) learned r1,
          received-IsNoMore id receipt.scope.transient_id now r2,
          publish-IsNoMore id m.message_id (is_committed receipt.disposition) now
              (mark_received fl receipt.scope.transient_id now r2),
        ))
    | inr other ↦ rw other (omega arith)
  ]

  deliver-IsNoMore :
      (id : ℕ) (m : LxMessage fl) (now : F64) (r : LxmRouter fl)
      → IsNoMore id (deliver_inbound fl m false now r).0 r
  unfolding deliver_inbound is_locally_delivered
  deliver-IsNoMore id m now r = elim (Bool-cases (is_known m.message_id r)) [
    | inl known ↦ rw known (omega arith)
    | inr new ↦ rw new (delivered_new id m.message_id now r new)
  ]

  step-IsNoMore :
      (id : ℕ) (e : InboundEvent) (now : F64) (r : LxmRouter fl)
      → IsNoMore id (inbound_step e now r) r
  unfolding inbound_step deliver_inbound reserve_inbound abort_inbound is_locally_delivered
  step-IsNoMore id (deliver m) now r = deliver-IsNoMore id m now r
  step-IsNoMore id (reserve m) now r = ground arith
  step-IsNoMore id (abort res) now r = ground arith
  step-IsNoMore id (commit res m receipt learned) now r =
      commit-IsNoMore id res m receipt learned now r

  run-IsNoMore :
      (id : ℕ) (events : List (InboundEvent × F64)) (r : LxmRouter fl)
      → IsNoMore id (inbound_run events r) r
  unfolding inbound_run
  run-IsNoMore id [] r = omega arith
  run-IsNoMore id ((e, now) ∷ es) r =
      omega (arith, step-IsNoMore id e now r, run-IsNoMore id es (inbound_step e now r))

  -- Whatever calls deliver without duplicates, reserve, abort or commit messages, in whatever order
  -- and with whatever receipts, a message id is given to the application at most once more, and not
  -- at all if it was known before. The caches are not cleaned in between.
  pub delivered_once :
      (id : ℕ) (events : List (InboundEvent × F64)) (r : LxmRouter fl)
      → deliveries id (inbound_run events r) ≤ deliveries id r + (if is_known id r then 0 else 1)
  delivered_once id events r = omega (arith, run-IsNoMore id events r)
