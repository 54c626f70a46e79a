-- ===== src/Router/Outbound.antt =====
-- `process_outbound` and `process_outbound_with_direct` (crates/lxmf-core/src/router.rs). A loop over
-- an index takes fuel, which a theorem shows to suffice; `clock k` is the clock in round k.
pub mod Sweep
pub mod Kept
use rs_lxmf.Prelude.{
  ℕ, zero, suc, ◌+◌, ◌*◌, Bool, true, false, not, Option, none, some, List, [], ◌∷◌, ◌++◌, length,
  get_elem?, set, remove_at, if◌then◌else◌, ltb, leb, Float, decimal,
}
use rs_lxmf.Message.{
  LxMessage, mark_failed, mark_sending, mark_sent, is_sending, DeliveryMethod, opportunistic,
  direct, propagated, paper,
}
use rs_lxmf.Router.Direct.{
  DirectDeliveryPlan, DirectDeliveryPlanInput, DirectReusableLinkState, no_link, fail,
  defer_terminal_failure, plan_direct_delivery, max_delivery_attempts, delivery_retry_wait,
}

abbrev pub message_expiry : ℕ
message_expiry = 30 * 24 * 60 * 60

pub data DirectOutboundHandling : Type 0 where
  emit_legacy_action leave_pending : DirectOutboundHandling

abbrev pub is_no_link : DirectReusableLinkState → Bool
is_no_link no_link = true
is_no_link _ = false

-- `processing_limit.is_some_and(|limit| processed >= limit)`
abbrev pub is_reached : Option ℕ → ℕ → Bool
is_reached none processed = false
is_reached (some limit) processed = leb limit processed

module _ (fl : Float) where
  open fl use {F64, of_nat, add, sub, lt}

  pub data OutboundAction : Type 0 where
    failed expired : LxMessage fl → OutboundAction
    deliver_direct deliver_propagated deliver_opportunistic : LxMessage fl → ℕ → OutboundAction
    plan_direct : LxMessage fl → ℕ → DirectDeliveryPlan → OutboundAction

  -- what a round does with its message: it stays as it is, it leaves the queue with an action, or it
  -- stays changed, with actions
  pub data Outcome : Type 0 where
    waits : Outcome
    leaves : OutboundAction → Outcome
    stays : LxMessage fl → List OutboundAction → Outcome

  unfoldable pub due_at : LxMessage fl → F64
  due_at m =
      if lt (of_nat 0) m.next_delivery_attempt
      then m.next_delivery_attempt
      else if lt (of_nat 0) m.last_delivery_attempt
      then add m.last_delivery_attempt (of_nat delivery_retry_wait)
      else of_nat 0

  abbrev pub is_expired : F64 → LxMessage fl → Bool
  is_expired now m = lt (of_nat message_expiry) (sub now m.timestamp)

  -- the branches for messages that are not Direct, the same in both loops
  unfoldable pub deliver_propagation : Option ℕ → LxMessage fl → Outcome
  unfolding mark_sending
  deliver_propagation none m = waits
  deliver_propagation (some peer_hash) m = leaves (deliver_propagated (mark_sending fl m) peer_hash)

  unfoldable pub deliver_packet : LxMessage fl → Outcome
  unfolding mark_sent
  deliver_packet m = leaves (
      deliver_opportunistic (record (mark_sent fl m) { progress = decimal fl 50 100 })
        m.destination_hash)

  -- the `match` on the method
  unfoldable pub deliver :
      DirectOutboundHandling → Option ℕ → DeliveryMethod → LxMessage fl → Outcome
  unfolding deliver_propagation deliver_packet mark_sending
  deliver emit_legacy_action outbound_node direct m =
      leaves (deliver_direct (mark_sending fl m) m.destination_hash)
  deliver leave_pending outbound_node direct m = waits
  deliver handling outbound_node propagated m = deliver_propagation outbound_node m
  deliver handling outbound_node opportunistic m = deliver_packet m
  deliver handling outbound_node paper m = waits

  -- a round of `process_outbound_inner`
  unfoldable pub examine : DirectOutboundHandling → Option ℕ → F64 → LxMessage fl → Outcome
  unfolding due_at mark_failed deliver
  examine handling outbound_node now m =
      if ltb max_delivery_attempts m.delivery_attempts
      then leaves (failed (mark_failed fl m))
      else if lt now (due_at m)
      then waits
      else if is_expired now m
      then leaves (expired (mark_failed fl m))
      else deliver handling outbound_node m.method m

  -- the `match` on the plan
  abbrev pub follow : LxMessage fl → DirectDeliveryPlan → Outcome
  follow m fail = leaves (failed (mark_failed fl m))
  follow m defer_terminal_failure = stays m []
  follow m plan = stays m (plan_direct m m.destination_hash plan ∷ [])

  -- `if state != Sending { mark_sending() }`
  unfoldable pub start_sending : LxMessage fl → LxMessage fl
  unfolding mark_sending
  start_sending m = if not (is_sending m.state) then mark_sending fl m else m

  unfoldable pub follow_plan : DirectDeliveryPlanInput fl → F64 → LxMessage fl → Outcome
  follow_plan input now m =
      let m' = start_sending m in
      let (m'', plan) = plan_direct_delivery fl input now m' in follow m'' plan

  unfoldable pub examine_due : F64 → LxMessage fl → Outcome → Outcome
  unfolding due_at
  examine_due now m due = if lt now (due_at m) then waits else due

  -- the `match` on the method in `process_outbound_with_direct`
  unfoldable pub examine_method :
      DirectDeliveryPlanInput fl → Option ℕ → F64 → DeliveryMethod → LxMessage fl → Outcome
  unfolding follow_plan examine_due deliver_propagation deliver_packet
  examine_method input outbound_node now direct m =
      if is_no_link input.reusable_link
      then examine_due now m (follow_plan input now m)
      else follow_plan input now m
  examine_method input outbound_node now propagated m =
      examine_due now m (deliver_propagation outbound_node m)
  examine_method input outbound_node now opportunistic m = examine_due now m (deliver_packet m)
  examine_method input outbound_node now paper m = waits

  -- a round of `process_outbound_with_direct`
  unfoldable pub examine_with_direct :
      DirectDeliveryPlanInput fl → Option ℕ → F64 → LxMessage fl → Outcome
  unfolding mark_failed examine_method
  examine_with_direct input outbound_node now m =
      if ltb max_delivery_attempts m.delivery_attempts
      then leaves (failed (mark_failed fl m))
      else if is_expired now m
      then leaves (expired (mark_failed fl m))
      else examine_method input outbound_node now m.method m

  -- The `while` loop of both functions: the fuel, the round, the index, the number of messages
  -- processed, the queue and the actions so far. `body` is a round's work on the message at the index.
  module _ (body : ℕ → LxMessage fl → Outcome) (processing_limit : Option ℕ) where
    unfoldable pub process_loop :
        ℕ
        → ℕ
        → ℕ
        → ℕ
        → List (LxMessage fl)
        → List OutboundAction
        → Option (List (LxMessage fl) × List OutboundAction)
    unfolding get_elem? set remove_at
    process_loop zero k i processed queue actions = none
    process_loop (suc fuel) k i processed queue actions =
        elim (is_reached processing_limit processed) [
          | true ↦ some (queue, actions)
          | false ↦ elim (get_elem? queue i) [
            | none ↦ some (queue, actions)
            | some m ↦ elim (body k m) [
              | waits ↦ process_loop fuel (suc k) (suc i) processed queue actions
              | leaves action ↦
                  process_loop fuel (suc k) i (suc processed) (remove_at i queue)
                    (actions ++ action ∷ [])
              | stays m' planned ↦
                  process_loop fuel (suc k) (suc i) (suc processed) (set queue i m')
                    (actions ++ planned)
            ]
          ]
        ]

    -- the whole loop, with a round for each message and one to see the end
    unfoldable pub process_queue :
        List (LxMessage fl) → Option (List (LxMessage fl) × List OutboundAction)
    unfolding process_loop
    process_queue queue = process_loop (suc (length queue)) 0 0 0 queue []
