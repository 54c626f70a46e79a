-- ===== src/Router/Tick.antt =====
-- The execution of opportunistic actions and the router's own driver (crates/lxmf-core/src/router.rs).
-- What becomes of a packet is an argument: `packet m` is `none` where its packing or encryption fails,
-- else whether the transport takes it.
use rs_lxmf.Prelude.{
  ℕ, ◌+◌, ◌%◌, ◌^◌, Bool, true, false, ◌&&◌, Option, none, some, List, [], ◌∷◌, ◌++◌, if◌then◌else◌,
  Float,
}
use rs_lxmf.Message.{LxMessage, MessageState}
use rs_lxmf.Router.{LxmRouter}
use rs_lxmf.Router.Outbound.{
  OutboundAction, failed, expired, deliver_direct, deliver_propagated, deliver_opportunistic,
  plan_direct, leave_pending,
}
use rs_lxmf.Router.Peering.Rotation.{run_periodic_jobs}
use rs_lxmf.Router.Runs.{process_outbound_inner}
use rs_lxmf.Router.Submit.{JobResult, process_deferred_stamps}

module _ (fl : Float) where
  open fl use {F64}

  abbrev requeue : LxMessage fl → LxmRouter fl → LxmRouter fl
  requeue m r = record r { pending_outbound = r.pending_outbound ++ m ∷ [] }

  -- `matches!(state, Sending | Sent)`
  abbrev is_on_the_way : MessageState → Bool
  is_on_the_way MessageState.sending = true
  is_on_the_way MessageState.sent = true
  is_on_the_way _ = false

  -- A message that the transport takes is marked as sent, and dropped.
  abbrev execute_packet : Option Bool → LxMessage fl → LxmRouter fl → LxmRouter fl
  execute_packet none m r = requeue m r
  execute_packet (some dispatched) m r =
      if dispatched && is_on_the_way m.state then r else requeue m r

  -- the loop over the actions: only packets are executed
  unfoldable execute_all :
      (LxMessage fl → Option Bool) → List (OutboundAction fl) → LxmRouter fl → LxmRouter fl
  execute_all packet [] r = r
  execute_all packet (deliver_opportunistic m dest ∷ as') r =
      execute_all packet as' (execute_packet (packet m) m r)
  execute_all packet (failed m ∷ as') r = execute_all packet as' r
  execute_all packet (expired m ∷ as') r = execute_all packet as' r
  execute_all packet (deliver_direct m dest ∷ as') r = execute_all packet as' r
  execute_all packet (deliver_propagated m hash ∷ as') r = execute_all packet as' r
  execute_all packet (plan_direct m dest plan ∷ as') r = execute_all packet as' r

  unfoldable execute_actions_with_encryptor :
      Bool → (LxMessage fl → Option Bool) → List (OutboundAction fl) → LxmRouter fl → LxmRouter fl
  unfolding execute_all
  execute_actions_with_encryptor has_transport packet actions r =
      if has_transport then execute_all packet actions r else r

  -- `execute_actions`: no destination can be encrypted for
  unfoldable execute_actions : Bool → List (OutboundAction fl) → LxmRouter fl → LxmRouter fl
  unfolding execute_actions_with_encryptor
  execute_actions has_transport actions r =
      execute_actions_with_encryptor has_transport (λ m. none) actions r

  -- a tick after its deferred stamps
  abbrev deliver_and_clean :
      Bool
      → (LxMessage fl → Option Bool)
      → (ℕ → F64)
      → Option (LxmRouter fl × List (OutboundAction fl))
      → Option (LxmRouter fl)
  deliver_and_clean has_transport packet jobs_clock none = none
  deliver_and_clean has_transport packet jobs_clock (some (r, actions)) = some (
      run_periodic_jobs fl jobs_clock
        (execute_actions_with_encryptor has_transport packet actions r))

  -- one tick: the arguments up to `has_runtime` are those of the deferred stamps
  unfoldable tick_with_encryptor :
      ℕ
      → Bool
      → Bool
      → JobResult
      → Bool
      → Bool
      → (LxMessage fl → Option Bool)
      → (ℕ → F64)
      → (ℕ → F64)
      → LxmRouter fl
      → Option (LxmRouter fl)
  unfolding process_deferred_stamps process_outbound_inner execute_actions_with_encryptor
      run_periodic_jobs
  tick_with_encryptor max_content polled stamped result has_runtime has_transport packet clock
        jobs_clock r =
      deliver_and_clean has_transport packet jobs_clock (
        process_outbound_inner fl leave_pending clock (
          process_deferred_stamps fl max_content polled stamped result has_runtime
            (record r { processing_count = (r.processing_count + 1) % 2 ^ 64 })))

  unfoldable tick :
      ℕ
      → Bool
      → Bool
      → JobResult
      → Bool
      → Bool
      → (ℕ → F64)
      → (ℕ → F64)
      → LxmRouter fl
      → Option (LxmRouter fl)
  unfolding tick_with_encryptor
  tick max_content polled stamped result has_runtime has_transport clock jobs_clock r =
      tick_with_encryptor max_content polled stamped result has_runtime has_transport (λ m. none)
        clock jobs_clock r
