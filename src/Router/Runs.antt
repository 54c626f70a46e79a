-- ===== src/Router/Runs.antt =====
-- `process_outbound` and `process_outbound_with_direct` on the router, and what they do to a message
-- (crates/lxmf-core/src/router.rs).
use rs_lxmf.Prelude.{
  ℕ, not, ◌≡◌, refl, inl, inr, ap, arith, Bool-cases, Option, none, some, List, [], if◌then◌else◌,
  Float,
}
use rs_lxmf.Message.{LxMessage}
use rs_lxmf.Router.{LxmRouter}
use rs_lxmf.Router.Direct.{DirectDeliveryPlanInput}
use rs_lxmf.Router.Outbound.{
  DirectOutboundHandling, OutboundAction, examine, examine_with_direct, process_queue,
}
use rs_lxmf.Router.Outbound.{Outcome}
use rs_lxmf.Router.Outbound.Sweep.{sweep, process_queue_lem}
use rs_lxmf.Router.Outbound.Kept.{
  Kept, departed, reported, all_failures, IsFair, sweep-Kept, examine-IsFair,
  examine_with_direct-IsFair,
}

module _ (fl : Float) where
  open fl use {F64}

  -- the queue that a loop leaves, put back
  abbrev pub with_queue :
      LxmRouter fl
      → Option (List (LxMessage fl) × List (OutboundAction fl))
      → Option (LxmRouter fl × List (OutboundAction fl))
  with_queue r none = none
  with_queue r (some (queue, actions)) = some (record r { pending_outbound = queue }, actions)

  unfoldable pub process_outbound_inner :
      DirectOutboundHandling
      → (ℕ → F64)
      → LxmRouter fl
      → Option (LxmRouter fl × List (OutboundAction fl))
  unfolding process_queue examine
  process_outbound_inner handling clock r =
      if not r.config.ext.processing_outbound
      then some (r, [])
      else with_queue r (
          process_queue fl (λ k m. examine fl handling r.outbound_propagation_node (clock k) m)
            r.config.ext.processing_limit r.pending_outbound)

  -- `direct_input k` is the caller's closure in round `k`
  unfoldable pub process_outbound_with_direct :
      (ℕ → LxMessage fl → F64 → DirectDeliveryPlanInput fl)
      → (ℕ → F64)
      → LxmRouter fl
      → Option (LxmRouter fl × List (OutboundAction fl))
  unfolding process_queue examine_with_direct
  process_outbound_with_direct direct_input clock r =
      if not r.config.ext.processing_outbound
      then some (r, [])
      else with_queue r (
          process_queue fl
            (λ k m.
              examine_with_direct fl (direct_input k m (clock k)) r.outbound_propagation_node
                (clock k) m)
            r.config.ext.processing_limit r.pending_outbound)

  -- the run ends, changes nothing but the queue, and keeps every message
  abbrev pub KeepsMessages :
      LxmRouter fl → Option (LxmRouter fl × List (OutboundAction fl)) → Type 0
  KeepsMessages r result =
      (queue : List (LxMessage fl)) × (actions : List (OutboundAction fl)) × (result
        ≡ some (record r { pending_outbound = queue }, actions))
      × Kept fl r.pending_outbound queue actions

  off-KeepsMessages : (r : LxmRouter fl) → KeepsMessages r (some (r, []))
  unfolding departed reported all_failures rs_lxmf.Prelude.count
  off-KeepsMessages r = (r.pending_outbound, [], refl, (λ id. omega arith, omega arith))

  queue-KeepsMessages :
      (body : ℕ → LxMessage fl → Outcome fl) (r : LxmRouter fl)
      → ((k : ℕ) (m : LxMessage fl) → IsFair fl m (body k m))
      → KeepsMessages r
          (with_queue r (process_queue fl body r.config.ext.processing_limit r.pending_outbound))
  queue-KeepsMessages body r fair = (
    (sweep fl body r.config.ext.processing_limit 0 0 r.pending_outbound).0,
    (sweep fl body r.config.ext.processing_limit 0 0 r.pending_outbound).1,
    ap (with_queue r) (process_queue_lem fl body r.config.ext.processing_limit r.pending_outbound),
    sweep-Kept fl body r.config.ext.processing_limit fair 0 0 r.pending_outbound,
  )

  pub process_outbound_inner-KeepsMessages :
      (handling : DirectOutboundHandling) (clock : ℕ → F64) (r : LxmRouter fl)
      → KeepsMessages r (process_outbound_inner handling clock r)
  unfolding process_outbound_inner
  process_outbound_inner-KeepsMessages handling clock r =
      elim (Bool-cases (not r.config.ext.processing_outbound)) [
        | inl off ↦ rw off (off-KeepsMessages r)
        | inr on ↦ rw on (
            queue-KeepsMessages _ r
              (λ k m. examine-IsFair fl handling r.outbound_propagation_node (clock k) m))
      ]

  -- A run of the outbound queue with planned Direct deliveries ends, whatever the caller's closure
  -- and the clock give, and changes the queue alone. Of each message id it leaves as many in the
  -- queue and in the actions that take messages from it, together, as were in the queue: no message
  -- is lost or made twice, also where ids repeat. Each failure callback that it calls belongs to an
  -- action that reports a failed or expired message, and each such action comes with one.
  pub process_outbound_with_direct-KeepsMessages :
      (direct_input : ℕ → LxMessage fl → F64 → DirectDeliveryPlanInput fl) (clock : ℕ → F64)
      (r : LxmRouter fl)
      → KeepsMessages r (process_outbound_with_direct direct_input clock r)
  unfolding process_outbound_with_direct
  process_outbound_with_direct-KeepsMessages direct_input clock r =
      elim (Bool-cases (not r.config.ext.processing_outbound)) [
        | inl off ↦ rw off (off-KeepsMessages r)
        | inr on ↦ rw on (
            queue-KeepsMessages _ r (λ k m.
              examine_with_direct-IsFair fl (direct_input k m (clock k)) r.outbound_propagation_node
                (clock k) m))
      ]
