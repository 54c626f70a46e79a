-- ===== src/Router/Outbound/Kept.antt =====
-- No run over the queue loses a message, makes one twice, or notifies a failure that it does not
-- report (crates/lxmf-core/src/router.rs).
use rs_lxmf.Prelude.{
  ℕ, suc, ◌+◌, ◌≡◌, refl, ap, ◌∙◌, inl, inr, true, false, Bool, Bool-cases, Option, some, none,
  List, [], ◌∷◌, ◌++◌, arith, nat_eq, ◌==◌, count, count-append, ◌≢◌, Float, ltb,
}
use rs_lxmf.Message.{
  LxMessage, Notice, on_failed, on_delivered, mark_failed, mark_sending, mark_sent, DeliveryMethod,
  direct, propagated, opportunistic, paper,
}
use rs_lxmf.Router.Direct.{
  DirectDeliveryPlan, DirectDeliveryPlanInput, fail, defer_terminal_failure, use_reusable_link,
  wait_for_reusable_link, start_new_link, request_path, plan_direct_delivery, plan_new_link,
  plan_route, max_delivery_attempts,
}
use rs_lxmf.Router.Outbound.{
  OutboundAction, Outcome, waits, leaves, stays, failed, expired, deliver_direct,
  deliver_propagated, deliver_opportunistic, plan_direct, is_reached, examine, examine_with_direct,
  examine_due, follow, follow_plan, start_sending, deliver, deliver_propagation, deliver_packet,
  examine_method, DirectOutboundHandling, is_no_link, due_at, is_expired, emit_legacy_action,
  leave_pending,
}
use rs_lxmf.Router.Outbound.Sweep.{sweep, Outcome-cases}

module _ (fl : Float) where
  open fl use {F64}

  abbrev is_failure : Notice → Bool
  is_failure on_failed = true
  is_failure on_delivered = false

  abbrev pub has_id : ℕ → LxMessage fl → Bool
  has_id id m = m.message_id == id

  -- how often a message's failure callback has been called
  abbrev pub failures : LxMessage fl → ℕ
  failures m = count is_failure m.notices

  unfoldable pub all_failures : List (LxMessage fl) → ℕ
  all_failures [] = 0
  all_failures (m ∷ ms) = failures m + all_failures ms

  -- the messages that have left with an action: those of a plan are still in the queue
  unfoldable pub departed : List (OutboundAction fl) → List (LxMessage fl)
  departed [] = []
  departed (failed m ∷ as') = m ∷ departed as'
  departed (expired m ∷ as') = m ∷ departed as'
  departed (deliver_direct m dest ∷ as') = m ∷ departed as'
  departed (deliver_propagated m hash ∷ as') = m ∷ departed as'
  departed (deliver_opportunistic m dest ∷ as') = m ∷ departed as'
  departed (plan_direct m dest plan ∷ as') = departed as'

  -- the failures that the actions report
  unfoldable pub reported : List (OutboundAction fl) → ℕ
  reported [] = 0
  reported (failed m ∷ as') = suc (reported as')
  reported (expired m ∷ as') = suc (reported as')
  reported (deliver_direct m dest ∷ as') = reported as'
  reported (deliver_propagated m hash ∷ as') = reported as'
  reported (deliver_opportunistic m dest ∷ as') = reported as'
  reported (plan_direct m dest plan ∷ as') = reported as'

  -- what a round may do to its message
  abbrev pub IsFair : LxMessage fl → Outcome fl → Type 0
  IsFair m waits = Unit {0}
  IsFair m (leaves a) =
      (m' : LxMessage fl) × ((as' : List (OutboundAction fl))
        → departed (a ∷ as') ≡ m' ∷ departed as')
      × (m'.message_id ≡ m.message_id)
      × ((as' : List (OutboundAction fl))
          → failures m' + reported as' ≡ failures m + reported (a ∷ as'))
  IsFair m (stays m' planned) =
      ((as' : List (OutboundAction fl))
        → (departed (planned ++ as') ≡ departed as') × (reported (planned ++ as') ≡ reported as'))
      × (m'.message_id ≡ m.message_id)
      × (m'.notices ≡ m.notices)

  abbrev pub Kept : List (LxMessage fl) → List (LxMessage fl) → List (OutboundAction fl) → Type 0
  Kept queue queue' actions =
      ((id : ℕ)
        → count (has_id id) queue' + count (has_id id) (departed actions) ≡ count (has_id id) queue)
      × (all_failures queue' + all_failures (departed actions)
          ≡ all_failures queue + reported actions)

  module _ (m : LxMessage fl) (ms q : List (LxMessage fl)) (as' : List (OutboundAction fl))
      (h : Kept ms q as') where
    Kept-waits : Kept (m ∷ ms) (m ∷ q) as'
    unfolding count all_failures
    Kept-waits = (λ id. omega (arith, h.0 id), omega (arith, h.1))

    Kept-leaves : (a : OutboundAction fl) → IsFair m (leaves a) → Kept (m ∷ ms) q (a ∷ as')
    unfolding count all_failures
    Kept-leaves a (m', dep, same, rep) = (
      λ id. rw (dep as') (rw same (omega (arith, h.0 id))),
      rw (dep as') (omega (arith, h.1, rep as')),
    )

    Kept-stays :
        (m' : LxMessage fl) (planned : List (OutboundAction fl))
        → IsFair m (stays m' planned)
        → Kept (m ∷ ms) (m' ∷ q) (planned ++ as')
    unfolding count all_failures
    Kept-stays m' planned (dep, same, told) = (
      λ id. rw (dep as').0 (rw same (omega (arith, h.0 id))),
      rw (dep as').0 (rw (dep as').1 (omega (arith, h.1, ap (count is_failure) told))),
    )

  module _ (body : ℕ → LxMessage fl → Outcome fl) (limit : Option ℕ)
      (fair : (k : ℕ) (m : LxMessage fl) → IsFair m (body k m)) where
    pub sweep-Kept :
        (k processed : ℕ) (queue : List (LxMessage fl))
        → Kept queue
            (sweep fl body limit k processed queue).0
            (sweep fl body limit k processed queue).1
    unfolding sweep departed reported count all_failures
    sweep-Kept k processed [] = (λ id. omega arith, omega arith)
    sweep-Kept k processed (m ∷ ms) = elim (Bool-cases (is_reached limit processed)) [
      | inl stop ↦ rw (stop, sweep) (λ id. omega arith, omega arith)
      | inr on ↦
          rw (on, sweep)
            (elim (Outcome-cases fl body limit (body k m)) [
              | inl e ↦ rw e (
                  Kept-waits m ms _ (sweep fl body limit (suc k) processed ms).1
                    (sweep-Kept (suc k) processed ms))
              | inr (inl (a, e)) ↦ rw e (
                  Kept-leaves m ms _ (sweep fl body limit (suc k) (suc processed) ms).1
                    (sweep-Kept (suc k) (suc processed) ms) a (rw e at (fair k m)))
              | inr (inr (m', planned, e)) ↦ rw e (
                  Kept-stays m ms _ (sweep fl body limit (suc k) (suc processed) ms).1
                    (sweep-Kept (suc k) (suc processed) ms) m' planned (rw e at (fair k m)))
            ])
    ]

  -- one more failure, and it is reported
  failed_once : (m : LxMessage fl) (n : ℕ) → failures (mark_failed fl m) + n ≡ failures m + suc n
  unfolding mark_failed count
  failed_once m n = omega (arith, count-append is_failure m.notices (on_failed ∷ []))

  failed-IsFair : (m : LxMessage fl) → IsFair m (leaves (failed (mark_failed fl m)))
  unfolding departed reported mark_failed
  failed-IsFair m = (mark_failed fl m, λ as'. refl, refl, λ as'. failed_once m (reported as'))

  expired-IsFair : (m : LxMessage fl) → IsFair m (leaves (expired (mark_failed fl m)))
  unfolding departed reported mark_failed
  expired-IsFair m = (mark_failed fl m, λ as'. refl, refl, λ as'. failed_once m (reported as'))

  propagation-IsFair :
      (hash : Option ℕ) (m : LxMessage fl) → IsFair m (deliver_propagation fl hash m)
  unfolding deliver_propagation departed reported mark_sending
  propagation-IsFair none m = tt
  propagation-IsFair (some hash) m = (mark_sending fl m, λ as'. refl, refl, λ as'. refl)

  packet-IsFair : (m : LxMessage fl) → IsFair m (deliver_packet fl m)
  unfolding deliver_packet departed reported mark_sent
  packet-IsFair m = (_, λ as'. refl, refl, λ as'. refl)

  deliver-IsFair :
      (handling : DirectOutboundHandling) (hash : Option ℕ) (method : DeliveryMethod)
      (m : LxMessage fl)
      → IsFair m (deliver fl handling hash method m)
  unfolding deliver departed reported mark_sending
  deliver-IsFair emit_legacy_action hash direct m =
      (mark_sending fl m, λ as'. refl, refl, λ as'. refl)
  deliver-IsFair leave_pending hash direct m = tt
  deliver-IsFair handling hash propagated m = propagation-IsFair hash m
  deliver-IsFair handling hash opportunistic m = packet-IsFair m
  deliver-IsFair handling hash paper m = tt

  pub examine-IsFair :
      (handling : DirectOutboundHandling) (hash : Option ℕ) (now : F64) (m : LxMessage fl)
      → IsFair m (examine fl handling hash now m)
  unfolding examine
  examine-IsFair handling hash now m =
      elim (Bool-cases (ltb max_delivery_attempts m.delivery_attempts)) [
        | inl spent ↦ rw spent (failed-IsFair m)
        | inr more ↦ elim (Bool-cases (fl.lt now (due_at fl m))) [
          | inl early ↦ rw more (rw early tt)
          | inr due ↦ elim (Bool-cases (is_expired fl now m)) [
            | inl old ↦ rw more (rw due (rw old (expired-IsFair m)))
            | inr young ↦ rw more (rw due (rw young (deliver-IsFair handling hash m.method m)))
          ]
        ]
      ]

  -- A plan for a message with attempts left is never to fail, and leaves its id and notices alone.
  plan_keeps :
      (input : DirectDeliveryPlanInput fl) (now : F64) (m : LxMessage fl)
      → ltb max_delivery_attempts m.delivery_attempts ≡ false
      → let r = plan_direct_delivery fl input now m in
        (r.0.message_id ≡ m.message_id) × (r.0.notices ≡ m.notices) × (r.1 ≢ fail)
  unfolding plan_direct_delivery plan_new_link plan_route mark_sending mark_failed
  plan_keeps input now m h = (ground arith, ground arith, ground arith)

  follow-IsFair :
      (m m' : LxMessage fl) (plan : DirectDeliveryPlan)
      → (m'.message_id ≡ m.message_id) × (m'.notices ≡ m.notices) × (plan ≢ fail)
      → IsFair m (follow fl m' plan)
  unfolding departed reported
  follow-IsFair m m' fail h = absurd (h.2 refl)
  follow-IsFair m m' defer_terminal_failure h = (λ as'. (refl, refl), h.0, h.1)
  follow-IsFair m m' use_reusable_link h = (λ as'. (refl, refl), h.0, h.1)
  follow-IsFair m m' wait_for_reusable_link h = (λ as'. (refl, refl), h.0, h.1)
  follow-IsFair m m' (start_new_link hops) h = (λ as'. (refl, refl), h.0, h.1)
  follow-IsFair m m' (request_path drop_existing) h = (λ as'. (refl, refl), h.0, h.1)

  started :
      (m : LxMessage fl)
      → let m' = start_sending fl m in
        (m'.message_id ≡ m.message_id)
        × (m'.notices ≡ m.notices)
        × (m'.delivery_attempts ≡ m.delivery_attempts)
  unfolding start_sending mark_sending
  started m = (ground arith, ground arith, ground arith)

  follow_plan-IsFair :
      (input : DirectDeliveryPlanInput fl) (now : F64) (m : LxMessage fl)
      → ltb max_delivery_attempts m.delivery_attempts ≡ false
      → IsFair m (follow_plan fl input now m)
  unfolding follow_plan
  follow_plan-IsFair input now m h =
      let s = started m in
      let p = plan_keeps input now (start_sending fl m) (rw s.2 h) in
      follow-IsFair m (plan_direct_delivery fl input now (start_sending fl m)).0
        (plan_direct_delivery fl input now (start_sending fl m)).1 (p.0 ∙ s.0, p.1 ∙ s.1, p.2)

  due-IsFair :
      (now : F64) (m : LxMessage fl) (o : Outcome fl)
      → IsFair m o
      → IsFair m (examine_due fl now m o)
  unfolding examine_due
  due-IsFair now m o h = elim (Bool-cases (fl.lt now (due_at fl m))) [
    | inl early ↦ rw early tt
    | inr due ↦ rw due h
  ]

  method-IsFair :
      (input : DirectDeliveryPlanInput fl) (hash : Option ℕ) (now : F64) (method : DeliveryMethod)
      (m : LxMessage fl)
      → ltb max_delivery_attempts m.delivery_attempts ≡ false
      → IsFair m (examine_method fl input hash now method m)
  unfolding examine_method
  method-IsFair input hash now direct m h = elim (Bool-cases (is_no_link input.reusable_link)) [
    | inl without ↦ rw without (due-IsFair now m _ (follow_plan-IsFair input now m h))
    | inr link ↦ rw link (follow_plan-IsFair input now m h)
  ]
  method-IsFair input hash now propagated m h = due-IsFair now m _ (propagation-IsFair hash m)
  method-IsFair input hash now opportunistic m h = due-IsFair now m _ (packet-IsFair m)
  method-IsFair input hash now paper m h = tt

  pub examine_with_direct-IsFair :
      (input : DirectDeliveryPlanInput fl) (hash : Option ℕ) (now : F64) (m : LxMessage fl)
      → IsFair m (examine_with_direct fl input hash now m)
  unfolding examine_with_direct
  examine_with_direct-IsFair input hash now m =
      elim (Bool-cases (ltb max_delivery_attempts m.delivery_attempts)) [
        | inl spent ↦ rw spent (failed-IsFair m)
        | inr more ↦ elim (Bool-cases (is_expired fl now m)) [
          | inl old ↦ rw more (rw old (expired-IsFair m))
          | inr young ↦ rw more (rw young (method-IsFair input hash now m.method m more))
        ]
      ]
