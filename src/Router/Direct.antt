-- ===== src/Router/Direct.antt =====
-- The plan of a direct delivery (crates/lxmf-core/src/router.rs).
pub mod Attempts
use rs_lxmf.Prelude.{
  ℕ, ◌+◌, ◌%◌, ◌^◌, max, Bool, true, false, not, Option, none, some, if◌then◌else◌, ltb, leb, Float,
  decimal,
}
use rs_lxmf.Message.{LxMessage, mark_failed, mark_sending, is_sending}

abbrev pub max_delivery_attempts : ℕ
max_delivery_attempts = 5

abbrev pub delivery_retry_wait : ℕ
delivery_retry_wait = 10

abbrev pub path_request_wait : ℕ
path_request_wait = 7

pub data DirectReusableLinkState : Type 0 where
  no_link pending active : DirectReusableLinkState
  closed : Bool → DirectReusableLinkState

pub data DirectDeliveryPlan : Type 0 where
  use_reusable_link wait_for_reusable_link : DirectDeliveryPlan
  start_new_link : ℕ → DirectDeliveryPlan
  request_path : Bool → DirectDeliveryPlan
  defer_terminal_failure fail : DirectDeliveryPlan

module _ (fl : Float) where
  open fl use {F64, of_nat, add, lt}

  -- of the route's snapshot, what the plan reads: the hops
  pub record DirectDeliveryPlanInput : Type 0 where
    pub identity_known : Bool
    pub route : Option ℕ
    pub reusable_link : DirectReusableLinkState

  -- `if message.progress < p { message.progress = p }`
  abbrev pub at_least : F64 → LxMessage fl → LxMessage fl
  at_least p m = record m { progress = if lt m.progress p then p else m.progress }

  abbrev pub wait_until : F64 → LxMessage fl → LxMessage fl
  wait_until at m = record m { next_delivery_attempt = at }

  -- an attempt is counted at this time, and the next comes after a wait
  abbrev pub attempt : F64 → ℕ → LxMessage fl → LxMessage fl
  attempt now wait m = record m {
    delivery_attempts = (m.delivery_attempts + 1) % 2 ^ 32;
    last_delivery_attempt = now;
    next_delivery_attempt = add now (of_nat wait);
  }

  -- with a known identity, once the attempt has been counted
  unfoldable pub plan_route : Option ℕ → F64 → LxMessage fl → LxMessage fl × DirectDeliveryPlan
  plan_route route now m =
      if leb max_delivery_attempts m.delivery_attempts
      then (m, defer_terminal_failure)
      else elim route [
        | some hops ↦ (at_least (decimal fl 3 100) m, start_new_link (max hops 1))
        | none ↦ (
          at_least (decimal fl 1 100) (wait_until (add now (of_nat path_request_wait)) m),
          request_path false,
        )
      ]

  -- without a link to use or to wait for
  unfoldable pub plan_new_link :
      DirectDeliveryPlanInput → F64 → LxMessage fl → LxMessage fl × DirectDeliveryPlan
  plan_new_link input now m =
      if not input.identity_known
      then (at_least (decimal fl 1 100) (attempt now path_request_wait m), request_path false)
      else plan_route input.route now (attempt now delivery_retry_wait m)

  unfoldable pub plan_direct_delivery :
      DirectDeliveryPlanInput → F64 → LxMessage fl → LxMessage fl × DirectDeliveryPlan
  unfolding mark_failed mark_sending plan_new_link
  plan_direct_delivery input now m =
      if ltb max_delivery_attempts m.delivery_attempts
      then (mark_failed fl m, fail)
      else elim input.reusable_link [
        | active ↦
            let m' = at_least (decimal fl 5 100) m in
            (if not (is_sending m'.state) then mark_sending fl m' else m', use_reusable_link)
        | pending ↦ (m, wait_for_reusable_link)
        | closed activated ↦ (
          at_least (decimal fl 1 100) (wait_until (add now (of_nat path_request_wait)) m),
          request_path true,
        )
        | no_link ↦ plan_new_link input now m
      ]
