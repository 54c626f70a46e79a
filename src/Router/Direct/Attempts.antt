-- ===== src/Router/Direct/Attempts.antt =====
-- How often the router tries to reach a destination for which no link is at hand
-- (crates/lxmf-core/src/router.rs).
use rs_lxmf.Prelude.{
  ℕ, ◌+◌, ◌<◌, ◌≤◌, ◌≡◌, ◌≢◌, ◌↔◌, min, refl, inl, inr, arith, Bool-cases, Option, none, some, List,
  [], ◌∷◌, length, ltb, Float, not,
}
use rs_lxmf.Message.{LxMessage, mark_failed}
use rs_lxmf.Router.Direct.{
  DirectDeliveryPlanInput, no_link, fail, plan_route, plan_new_link, plan_direct_delivery,
}

module _ (fl : Float) where
  open fl use {F64}

  -- the plans that are made for a message, in turn, each at its time
  unfoldable pub plan_all : List (DirectDeliveryPlanInput fl × F64) → LxMessage fl → LxMessage fl
  unfolding plan_direct_delivery
  plan_all [] m = m
  plan_all ((input, now) ∷ inputs) m = plan_all inputs (plan_direct_delivery fl input now m).0

  abbrev pub AllWithoutLink : List (DirectDeliveryPlanInput fl × F64) → Type 0
  AllWithoutLink [] = Unit {0}
  AllWithoutLink ((input, now) ∷ inputs) = (input.reusable_link ≡ no_link) × AllWithoutLink inputs

  plan_route-attempts :
      (route : Option ℕ) (now : F64) (m : LxMessage fl)
      → ((plan_route fl route now m).0.delivery_attempts ≡ m.delivery_attempts)
        × ((plan_route fl route now m).1 ≢ fail)
  unfolding plan_route
  plan_route-attempts none now m = (ground arith, ground arith)
  plan_route-attempts (some hops) now m = (ground arith, ground arith)

  plan_new_link-attempts :
      (input : DirectDeliveryPlanInput fl) (now : F64) (m : LxMessage fl)
      → m.delivery_attempts ≤ 5
      → ((plan_new_link fl input now m).0.delivery_attempts ≡ m.delivery_attempts + 1)
        × ((plan_new_link fl input now m).1 ≢ fail)
  unfolding plan_new_link
  plan_new_link-attempts input now m h = elim (Bool-cases (not input.identity_known)) [
    | inl unknown ↦ rw unknown (omega arith, ground arith)
    | inr known ↦
        rw known (let p = plan_route-attempts input.route now _ in (rw p.0 (omega arith), p.1))
  ]

  plan-attempts :
      (input : DirectDeliveryPlanInput fl) (now : F64) (m : LxMessage fl)
      → input.reusable_link ≡ no_link
      → m.delivery_attempts ≤ 6
      → let r = plan_direct_delivery fl input now m in
        (r.0.delivery_attempts ≡ min (m.delivery_attempts + 1) 6)
        × ((r.1 ≡ fail) ↔ (5 < m.delivery_attempts))
  unfolding plan_direct_delivery mark_failed
  plan-attempts input now m without h = elim (Bool-cases (ltb 5 m.delivery_attempts)) [
    | inl spent ↦ rw spent (ground arith, (λ _. ground arith, λ _. refl))
    | inr more ↦ rw more (
        rw without (
          let p = plan_new_link-attempts input now m (ground arith) in
          (rw p.0 (ground arith), (λ e. absurd (p.1 e), λ l. ground arith))))
  ]

  -- Each plan counts one attempt, up to six.
  plan_all-attempts :
      (inputs : List (DirectDeliveryPlanInput fl × F64)) (m : LxMessage fl)
      → AllWithoutLink inputs
      → m.delivery_attempts ≤ 6
      → (plan_all inputs m).delivery_attempts ≡ min (m.delivery_attempts + length inputs) 6
  unfolding plan_all
  plan_all-attempts [] m h few = omega arith
  plan_all-attempts ((input, now) ∷ inputs) m h few =
      let p = plan-attempts input now m h.0 few in
      omega (
        arith,
        p.0,
        plan_all-attempts inputs (plan_direct_delivery fl input now m).0 h.1 (rw p.0 (omega arith)),
      )

  -- Planning a Direct delivery without a reusable link gives up: after any list of such plans,
  -- whatever identities and routes they saw, the next one is to fail exactly when the attempts made
  -- before, and one for each plan, are more than five. The message starts with at most six
  -- attempts.
  pub plans_end :
      (inputs : List (DirectDeliveryPlanInput fl × F64)) (m : LxMessage fl)
      (input : DirectDeliveryPlanInput fl) (now : F64)
      → AllWithoutLink inputs
      → input.reusable_link ≡ no_link
      → m.delivery_attempts ≤ 6
      → ((plan_direct_delivery fl input now (plan_all inputs m)).1 ≡ fail)
        ↔ (5 < m.delivery_attempts + length inputs)
  plans_end inputs m input now all without few =
      let e = plan_all-attempts inputs m all few in
      let p = (plan-attempts input now (plan_all inputs m) without (rw e (omega arith))).1 in
      (λ f. omega (arith, p.0 f, e), λ l. p.1 (omega (arith, l, e)))
