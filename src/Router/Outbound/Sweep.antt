-- ===== src/Router/Outbound/Sweep.antt =====
-- The loops over the queue are one sweep over it, message by message (crates/lxmf-core/src/router.rs).
use rs_lxmf.Prelude.{
  ℕ, zero, suc, ◌<◌, ◌≡◌, ◌⊎◌, refl, sym, ap, ◌∙◌, inl, inr, true, false, Bool-cases, Option, some,
  List, [], ◌∷◌, ◌++◌, arith, length, Float, get_elem-append, get_elem-end, remove_at-append,
  set-append, length-snoc, cons-snoc,
}
use mathlib.Core.List.{append-nil, append_assoc}
use rs_lxmf.Message.{LxMessage}
use rs_lxmf.Router.Outbound.{
  OutboundAction, Outcome, waits, leaves, stays, is_reached, process_loop, process_queue,
}

module _ (fl : Float) (body : ℕ → LxMessage fl → Outcome fl) (limit : Option ℕ) where
  abbrev pub Swept : Type 0
  Swept = List (LxMessage fl) × List (OutboundAction fl)

  -- One message after the other, from round `k` on: it is kept, replaced by an action, or changed.
  -- At the limit, the rest of the queue is as it was.
  unfoldable pub sweep : ℕ → ℕ → List (LxMessage fl) → Swept
  sweep k processed [] = ([], [])
  sweep k processed (m ∷ ms) = elim (is_reached limit processed) [
    | true ↦ (m ∷ ms, [])
    | false ↦ elim (body k m) [
      | waits ↦ let r = sweep (suc k) processed ms in (m ∷ r.0, r.1)
      | leaves action ↦ let r = sweep (suc k) (suc processed) ms in (r.0, action ∷ r.1)
      | stays m' planned ↦ let r = sweep (suc k) (suc processed) ms in (m' ∷ r.0, planned ++ r.1)
    ]
  ]

  pub Outcome-cases :
      (o : Outcome fl)
      → (o ≡ waits)
        ⊎ ((a : OutboundAction fl) × (o ≡ leaves a))
        ⊎ ((m : LxMessage fl) × (planned : List (OutboundAction fl)) × (o ≡ stays m planned))
  Outcome-cases waits = inl refl
  Outcome-cases (leaves a) = inr (inl (a, refl))
  Outcome-cases (stays m planned) = inr (inr (m, planned, refl))

  -- the loop between two rounds: `front` has been passed, `rest` has not
  abbrev Ends :
      ℕ → ℕ → ℕ → List (LxMessage fl) → List (LxMessage fl) → List (OutboundAction fl) → Type 0
  Ends fuel k processed front rest actions =
      process_loop fl body limit fuel k (length front) processed (front ++ rest) actions
      ≡ some (front ++ (sweep k processed rest).0, actions ++ (sweep k processed rest).1)

  -- nothing more is done to the queue
  at_end :
      (queue : List (LxMessage fl)) (actions : List (OutboundAction fl))
      → ◌≡◌ {A = Option Swept} (some (queue, actions)) (some (queue, actions ++ []))
  at_end queue actions = ap (λ l. some (queue, l)) (sym (append-nil actions))

  -- a round that passes `x`, from the round behind it
  module _ (fuel k processed : ℕ) (front : List (LxMessage fl)) (x : LxMessage fl)
      (ms : List (LxMessage fl)) (actions : List (OutboundAction fl)) where
    passed :
        Ends fuel k processed (front ++ x ∷ []) ms actions
        → process_loop fl body limit fuel k (suc (length front)) processed (front ++ x ∷ ms) actions
          ≡ some (front ++ x ∷ (sweep k processed ms).0, actions ++ (sweep k processed ms).1)
    passed h =
        rw (← length-snoc front x)
          (rw (← cons-snoc front x ms) (rw (← cons-snoc front x (sweep k processed ms).0) h))

  regroup :
      (q : List (LxMessage fl)) (xs ys zs : List (OutboundAction fl))
      → ◌≡◌ {A = Option Swept} (some (q, (xs ++ ys) ++ zs)) (some (q, xs ++ (ys ++ zs)))
  regroup q xs ys zs = ap (λ l. some (q, l)) (append_assoc xs ys zs)

  loop_lem :
      (fuel k processed : ℕ) (front rest : List (LxMessage fl)) (actions : List (OutboundAction fl))
      → length rest < fuel
      → Ends fuel k processed front rest actions
  unfolding process_loop sweep
  loop_lem zero k processed front rest actions h = absurd (omega arith)
  loop_lem (suc fuel) k processed front [] actions h =
      elim (Bool-cases (is_reached limit processed)) [
        | inl stop ↦ rw (stop, process_loop) (at_end (front ++ []) actions)
        | inr on ↦ rw (on, process_loop) (rw (get_elem-end front) (at_end (front ++ []) actions))
      ]
  loop_lem (suc fuel) k processed front (m ∷ ms) actions h =
      elim (Bool-cases (is_reached limit processed)) [
        | inl stop ↦ rw (stop, process_loop) (rw (stop, sweep) (at_end (front ++ m ∷ ms) actions))
        | inr on ↦
            rw (on, process_loop)
              (rw (on, sweep)
                (rw (get_elem-append front m ms) (elim (Outcome-cases (body k m)) [
                  | inl e ↦ rw e (
                      passed fuel (suc k) processed front m ms actions (
                        loop_lem fuel (suc k) processed (front ++ m ∷ []) ms actions (omega arith)))
                  | inr (inl (a, e)) ↦ rw e (
                      rw remove_at-append (
                        loop_lem fuel (suc k) (suc processed) front ms (actions ++ a ∷ [])
                          (omega arith)
                        ∙ regroup _ actions (a ∷ []) (sweep (suc k) (suc processed) ms).1))
                  | inr (inr (m', planned, e)) ↦ rw e (
                      rw set-append (
                        passed fuel (suc k) (suc processed) front m' ms (actions ++ planned) (
                          loop_lem fuel (suc k) (suc processed) (front ++ m' ∷ []) ms
                            (actions ++ planned) (omega arith))
                        ∙ regroup _ actions planned (sweep (suc k) (suc processed) ms).1))
                ])))
      ]

  -- The loop over an index of the queue ends, with as many rounds of fuel as the queue has messages
  -- and one more, and its result is one sweep over the queue in its order: whatever a round does
  -- with its message (leave it, replace it by an action, change it and add actions), none is
  -- skipped or examined twice, and from the processing limit on the queue is as it was.
  pub process_queue_lem :
      (queue : List (LxMessage fl)) → process_queue fl body limit queue ≡ some (sweep 0 0 queue)
  unfolding process_queue
  process_queue_lem queue = loop_lem (suc (length queue)) 0 0 [] queue [] (omega arith)
