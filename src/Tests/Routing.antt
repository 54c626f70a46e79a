-- ===== src/Tests/Routing.antt =====
-- The outbound queue of crates/lxmf-core/src/router.rs on concrete inputs.
use rs_lxmf.Prelude.{
  ◌<◌, ◌+◌, ◌≡◌, ◌↔◌, true, false, some, none, [], ◌∷◌, refl, arith, ok, any, remove_at, get_elem?,
}
use rs_lxmf.Message.{LxMessage, outbound, direct, opportunistic, mark_failed, mark_sending}
use rs_lxmf.Router.{LxmRouter, new, default_config}
use rs_lxmf.Router.Direct.{
  DirectDeliveryPlanInput, no_link, fail, plan_direct_delivery, plan_new_link, plan_route,
  defer_terminal_failure,
}
use rs_lxmf.Router.Direct.Attempts.{plan_all, plans_end}
use rs_lxmf.Router.Outbound.{
  emit_legacy_action, examine, process_queue, process_loop, failed, deliver_direct, deliver, due_at,
}
use rs_lxmf.Router.Outbound.Sweep.{sweep, process_queue_lem}
use rs_lxmf.Router.Queue.{try_send, cancel_outbound, fall_back}
use rs_lxmf.Router.Queue.Taken.{has_id, cancel_outbound-try_send}
use rs_lxmf.Router.Queue.Retains.{IsBounded, QueueEvent, queue_step, queue_step-IsBounded}
use rs_lxmf.Router.Runs.{
  KeepsMessages, process_outbound_with_direct, process_outbound_with_direct-KeepsMessages,
}
use rs_lxmf.Tests.Numbers.{whole}

abbrev pub letter : LxMessage whole
letter = record {
  message_id = 1;
  destination_hash = 5;
  timestamp = 0;
  has_ticket = true;
  payload_length = some 100;
  state = outbound;
  method = direct;
  delivery_attempts = 0;
  last_delivery_attempt = 0;
  next_delivery_attempt = 0;
  progress = 0;
  notices = [];
}

-- with its attempts used up
abbrev spent : LxMessage whole
spent = record letter { message_id = 2; delivery_attempts = 6 }

-- too early for its next attempt
abbrev later : LxMessage whole
later = record letter { message_id = 3; next_delivery_attempt = 90 }

abbrev pub router : LxmRouter whole
router = record (new whole (default_config whole)) {
  pending_outbound = letter ∷ later ∷ spent ∷ [];
}

abbrev unlinked : DirectDeliveryPlanInput whole
unlinked = record { identity_known = true; route = some 2; reusable_link = no_link }

process_queue_lem_example :
    process_queue whole
      (λ k m. examine whole emit_legacy_action none 50 m)
      (some 2)
      (letter ∷ later ∷ spent ∷ [])
    ≡ some (
        sweep whole
          (λ k m. examine whole emit_legacy_action none 50 m)
          (some 2)
          0
          0
          (letter ∷ later ∷ spent ∷ []))
process_queue_lem_example =
    process_queue_lem whole (λ k m. examine whole emit_legacy_action none 50 m) (some 2)
      (letter ∷ later ∷ spent ∷ [])

queue_runs :
    process_queue whole
      (λ k m. examine whole emit_legacy_action none 50 m)
      none
      (letter ∷ later ∷ spent ∷ [])
    ≡ some (
      later ∷ [],
      deliver_direct (mark_sending whole letter) 5 ∷ failed (mark_failed whole spent) ∷ [],
    )
unfolding process_queue process_loop examine deliver due_at mark_sending mark_failed get_elem?
    remove_at
queue_runs = refl

process_outbound_with_direct-KeepsMessages_example :
    KeepsMessages whole router
      (process_outbound_with_direct whole (λ k m now. unlinked) (λ k. 50 + k) router)
process_outbound_with_direct-KeepsMessages_example =
    process_outbound_with_direct-KeepsMessages whole (λ k m now. unlinked) (λ k. 50 + k) router

plans_end_example :
    ((plan_direct_delivery whole unlinked 70
        (plan_all whole ((unlinked, 10) ∷ (unlinked, 30) ∷ []) spent)).1
      ≡ fail)
    ↔ (5 < 6 + 2)
plans_end_example =
    plans_end whole ((unlinked, 10) ∷ (unlinked, 30) ∷ []) spent unlinked 70 (refl, (refl, tt)) refl
      (omega arith)

-- Five attempts are made, and the plan of the next is deferred.
fifth_deferred :
    (plan_direct_delivery whole unlinked 70 (
      plan_all whole
        ((unlinked, 10) ∷ (unlinked, 20) ∷ (unlinked, 30) ∷ (unlinked, 40) ∷ [])
        letter)).1
    ≡ defer_terminal_failure
unfolding plan_all plan_direct_delivery plan_new_link plan_route mark_sending
fifth_deferred = refl

abbrev note : LxMessage whole
note = record letter { message_id = 7; method = opportunistic }

note_not_queued : any (has_id whole 7) router.pending_outbound ≡ false
unfolding any
note_not_queued = refl

note_accepted : (try_send whole 287 note router).1 ≡ ok tt
unfolding try_send fall_back
note_accepted = refl

cancel_outbound-try_send_example :
    cancel_outbound whole 7 (try_send whole 287 note router).0 ≡ (router, true)
cancel_outbound-try_send_example =
    cancel_outbound-try_send whole 287 note router note_not_queued note_accepted

queue_step-IsBounded_example :
    IsBounded (queue_step whole (QueueEvent.deliver 3) 95 router).destination_retains
queue_step-IsBounded_example =
    queue_step-IsBounded whole (QueueEvent.deliver 3) 95 router (omega arith, tt)
