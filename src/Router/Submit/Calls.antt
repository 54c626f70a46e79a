-- ===== src/Router/Submit/Calls.antt =====
-- No call puts a message into the queue twice (crates/lxmf-core/src/router.rs).
use rs_lxmf.Prelude.{
  ℕ, ◌≤◌, ◌≡◌, inl, inr, Bool, Option-cases, Option, none, some, List, [], ◌∷◌, ◌++◌, nat_eq, ◌==◌,
  Float, arith, count, count-append,
}
use rs_lxmf.Map
use rs_lxmf.Message.{LxMessage}
use rs_lxmf.Router.{LxmRouter, SignedLxMessage}
use rs_lxmf.Router.Direct.{DirectDeliveryPlanInput}
use rs_lxmf.Router.Outbound.{DirectOutboundHandling, OutboundAction}
use rs_lxmf.Router.Queue.{
  take_message, cancel_deferred, cancel_outbound, mark_outbound_delivered, mark_outbound_failed,
  mark_outbound_rejected, complete_outbound_message,
}
use rs_lxmf.Router.Queue.Taken.{IsTaken, take_message-IsTaken}
use rs_lxmf.Router.Runs.{
  KeepsMessages, process_outbound_inner, process_outbound_with_direct,
  process_outbound_inner-KeepsMessages, process_outbound_with_direct-KeepsMessages,
}
use rs_lxmf.Router.Submit.{JobResult, submit_signed, process_deferred_stamps}
use rs_lxmf.Router.Submit.Unique.{IsUnique, removed, submit-IsUnique, process-IsUnique}

module _ (fl : Float) where
  open fl use {F64}

  pub data RouterCall : Type 0 where
    submit : ℕ → Bool → SignedLxMessage fl → RouterCall
    stamps : ℕ → Bool → Bool → JobResult → Bool → RouterCall
    cancel delivered failed rejected : ℕ → RouterCall
    run : DirectOutboundHandling → (ℕ → F64) → RouterCall
    run_direct : (ℕ → LxMessage fl → F64 → DirectDeliveryPlanInput fl) → (ℕ → F64) → RouterCall

  abbrev pub router_after :
      LxmRouter fl → Option (LxmRouter fl × List (OutboundAction fl)) → LxmRouter fl
  router_after r none = r
  router_after r (some (r', actions)) = r'

  unfoldable pub router_step : RouterCall → F64 → LxmRouter fl → LxmRouter fl
  unfolding submit_signed process_deferred_stamps cancel_outbound mark_outbound_delivered
      mark_outbound_failed mark_outbound_rejected process_outbound_inner
      process_outbound_with_direct
  router_step (submit max_content stamped s) now r = (submit_signed fl max_content stamped s r).0
  router_step (stamps max_content polled stamped result has_runtime) now r =
      process_deferred_stamps fl max_content polled stamped result has_runtime r
  router_step (cancel id) now r = (cancel_outbound fl id r).0
  router_step (delivered id) now r = (mark_outbound_delivered fl id now r).0
  router_step (failed id) now r = (mark_outbound_failed fl id r).0
  router_step (rejected id) now r = (mark_outbound_rejected fl id r).0
  router_step (run handling clock) now r =
      router_after r (process_outbound_inner fl handling clock r)
  router_step (run_direct direct_input clock) now r =
      router_after r (process_outbound_with_direct fl direct_input clock r)

  unfoldable pub router_run : List (RouterCall × F64) → LxmRouter fl → LxmRouter fl
  unfolding router_step
  router_run [] r = r
  router_run ((call, now) ∷ calls) r = router_run calls (router_step call now r)

  -- a queue with no more messages of any id
  fewer-IsUnique :
      (r : LxmRouter fl) (queue : List (LxMessage fl))
      → ((id : ℕ)
          → count (λ m. m.message_id == id) queue
            ≤ count (λ m. m.message_id == id) r.pending_outbound)
      → IsUnique fl r
      → IsUnique fl (record r { pending_outbound = queue })
  fewer-IsUnique r queue less h = (λ id. omega (arith, less id, h.0 id), h.1)

  -- the queue after one message left it
  one_less :
      (r : LxmRouter fl) (front : List (LxMessage fl)) (m : LxMessage fl)
      (back : List (LxMessage fl))
      → r.pending_outbound ≡ front ++ m ∷ back
      → IsUnique fl r
      → IsUnique fl (record r { pending_outbound = front ++ back })
  unfolding count
  one_less r front m back e h =
      fewer-IsUnique r (front ++ back)
        (λ id. rw e (
          omega (
            arith,
            count-append (λ x. x.message_id == id) front back,
            count-append (λ x. x.message_id == id) front (m ∷ back),
          )))
        h

  module _ (id : ℕ) (now : F64) (r : LxmRouter fl) (h : IsUnique fl r) where
    delivered-IsUnique :
        IsTaken fl id r (take_message fl id r) → IsUnique fl (mark_outbound_delivered fl id now r).0
    unfolding mark_outbound_delivered complete_outbound_message
    delivered-IsUnique (inl (e, a)) = rw (e, mark_outbound_delivered) h
    delivered-IsUnique (inr (front, m, back, e, a, i, t)) =
        rw (t, mark_outbound_delivered) (rw t (one_less r front m back e h))

    failed-IsUnique :
        IsTaken fl id r (take_message fl id r) → IsUnique fl (mark_outbound_failed fl id r).0
    unfolding mark_outbound_failed
    failed-IsUnique (inl (e, a)) = rw (e, mark_outbound_failed) h
    failed-IsUnique (inr (front, m, back, e, a, i, t)) =
        rw (t, mark_outbound_failed) (rw t (one_less r front m back e h))

    rejected-IsUnique :
        IsTaken fl id r (take_message fl id r) → IsUnique fl (mark_outbound_rejected fl id r).0
    unfolding mark_outbound_rejected
    rejected-IsUnique (inl (e, a)) = rw (e, mark_outbound_rejected) h
    rejected-IsUnique (inr (front, m, back, e, a, i, t)) =
        rw (t, mark_outbound_rejected) (rw t (one_less r front m back e h))

    deferred-IsUnique : IsUnique fl (cancel_deferred fl id r).0
    unfolding cancel_deferred
    deferred-IsUnique = elim (Option-cases (Map.get id r.pending_deferred_stamps)) [
      | inl e ↦ rw (e, cancel_deferred) h
      | inr (s, e) ↦ rw (e, cancel_deferred) (removed fl id r h)
    ]

    cancel-IsUnique :
        IsTaken fl id r (take_message fl id r) → IsUnique fl (cancel_outbound fl id r).0
    unfolding cancel_outbound
    cancel-IsUnique (inl (e, a)) = rw (e, cancel_outbound) deferred-IsUnique
    cancel-IsUnique (inr (front, m, back, e, a, i, t)) =
        rw (t, cancel_outbound) (rw t (one_less r front m back e h))

    kept-IsUnique :
        (result : Option (LxmRouter fl × List (OutboundAction fl)))
        → KeepsMessages fl r result
        → IsUnique fl (router_after r result)
    kept-IsUnique result (queue, actions, e, kept) =
        rw e (fewer-IsUnique r queue (λ k. omega (arith, kept.0 k)) h)

  router_step-IsUnique :
      (call : RouterCall) (now : F64) (r : LxmRouter fl)
      → IsUnique fl r
      → IsUnique fl (router_step call now r)
  unfolding router_step
  router_step-IsUnique (submit max_content stamped s) now r h =
      submit-IsUnique fl max_content stamped s r h
  router_step-IsUnique (stamps max_content polled stamped result has_runtime) now r h =
      process-IsUnique fl max_content polled stamped result has_runtime r h
  router_step-IsUnique (cancel id) now r h =
      cancel-IsUnique id now r h (take_message-IsTaken fl id r)
  router_step-IsUnique (delivered id) now r h =
      delivered-IsUnique id now r h (take_message-IsTaken fl id r)
  router_step-IsUnique (failed id) now r h =
      failed-IsUnique id now r h (take_message-IsTaken fl id r)
  router_step-IsUnique (rejected id) now r h =
      rejected-IsUnique id now r h (take_message-IsTaken fl id r)
  router_step-IsUnique (run handling clock) now r h =
      kept-IsUnique 0 now r h (process_outbound_inner fl handling clock r)
        (process_outbound_inner-KeepsMessages fl handling clock r)
  router_step-IsUnique (run_direct direct_input clock) now r h =
      kept-IsUnique 0 now r h (process_outbound_with_direct fl direct_input clock r)
        (process_outbound_with_direct-KeepsMessages fl direct_input clock r)

  -- Each message id has one place at most, in the queue or among the deferred messages, after any calls
  -- that submit signed messages, advance deferred stamps, cancel a message or report it delivered,
  -- failed or rejected, and run the queue; a deferred message stands under its own id. The router
  -- starts so, as a new one does.
  pub router_run-IsUnique :
      (calls : List (RouterCall × F64)) (r : LxmRouter fl)
      → IsUnique fl r
      → IsUnique fl (router_run calls r)
  unfolding router_run
  router_run-IsUnique [] r h = h
  router_run-IsUnique ((call, now) ∷ calls) r h =
      router_run-IsUnique calls (router_step call now r) (router_step-IsUnique call now r h)
