-- ===== src/Router/Queue/Retains.antt =====
-- The destinations that the router reports as delivered (crates/lxmf-core/src/router.rs).
use rs_lxmf.Prelude.{
  ℕ, ◌≤◌, ◌≡◌, inl, inr, true, false, Bool-cases, List, [], ◌∷◌, ◌++◌, nat_eq, ◌==◌, refl, Float,
  arith, length, length-append, contains, ◌||◌, nat_beq, nat_beq_iff,
}
use rs_lxmf.Message.{}
use rs_lxmf.Router.Queue.Taken.{IsTaken, take_message-IsTaken}
use rs_lxmf.Router.{LxmRouter}
use rs_lxmf.Router.Queue.{
  retain_destination, pop_front, complete_outbound_message, mark_outbound_delivered,
  mark_outbound_failed, mark_outbound_rejected, take_message, take_destination_retains,
}

-- Each destination stands once.
abbrev pub NoRepeat : List ℕ → Type 0
NoRepeat [] = Unit {0}
NoRepeat (x ∷ xs) = (contains x xs ≡ false) × NoRepeat xs

contains-append : (d x : ℕ) (xs : List ℕ) → contains d (xs ++ x ∷ []) ≡ (contains d xs || x == d)
unfolding contains
contains-append d x [] = ground arith
contains-append d x (y ∷ xs) = ground (arith, contains-append d x xs)

snoc-NoRepeat :
    (x : ℕ) (xs : List ℕ) → contains x xs ≡ false → NoRepeat xs → NoRepeat (xs ++ x ∷ [])
unfolding contains
snoc-NoRepeat x [] new h = (refl, tt)
snoc-NoRepeat x (y ∷ xs) new h = (
  ground (arith, contains-append y x xs, nat_beq_iff x y, nat_beq_iff y x),
  snoc-NoRepeat x xs (ground arith) h.1,
)

-- within the bound, and each once
abbrev pub IsBounded : List ℕ → Type 0
IsBounded xs = (length xs ≤ 256) × NoRepeat xs

popped :
    (d : ℕ) (xs : List ℕ)
    → contains d xs ≡ false
    → IsBounded xs
    → IsBounded (pop_front xs ++ d ∷ [])
unfolding contains
popped d [] new h = (omega arith, (refl, tt))
popped d (x ∷ xs) new h =
    (omega (arith, h.0, length-append xs (d ∷ [])), snoc-NoRepeat d xs (ground arith) h.1.1)

retain-IsBounded :
    (d : ℕ) (xs : List ℕ)
    → IsBounded xs
    → IsBounded (retain_destination d xs) × (contains d (retain_destination d xs) ≡ true)
unfolding retain_destination
retain-IsBounded d xs h = elim (Bool-cases (contains d xs)) [
  | inl old ↦ rw old (h, old)
  | inr new ↦ elim (Bool-cases (nat_beq (length xs) 256)) [
    | inl full ↦ rw new (rw full (popped d xs new h, added (pop_front xs)))
    | inr space ↦ rw new (
        rw space (
          (ground (arith, length-append xs (d ∷ []), space, h.0), snoc-NoRepeat d xs new h.1),
          added xs,
        ))
  ]
]
  where
    added : (ys : List ℕ) → contains d (ys ++ d ∷ []) ≡ true
    added ys = ground (arith, contains-append d d ys, nat_beq_iff d d)

module _ (fl : Float) where
  open fl use {F64}

  -- the calls that may change the list
  pub data QueueEvent : Type 0 where
    deliver fail reject : ℕ → QueueEvent
    drain : QueueEvent

  unfoldable pub queue_step : QueueEvent → F64 → LxmRouter fl → LxmRouter fl
  unfolding mark_outbound_delivered mark_outbound_failed mark_outbound_rejected
      take_destination_retains
  queue_step (deliver id) now r = (mark_outbound_delivered fl id now r).0
  queue_step (fail id) now r = (mark_outbound_failed fl id r).0
  queue_step (reject id) now r = (mark_outbound_rejected fl id r).0
  queue_step drain now r = (take_destination_retains fl r).0

  module _ (id : ℕ) (now : F64) (r : LxmRouter fl) where
    delivered_lem :
        IsTaken fl id r (take_message fl id r)
        → IsBounded r.destination_retains
        → IsBounded (mark_outbound_delivered fl id now r).0.destination_retains
    unfolding mark_outbound_delivered complete_outbound_message
    delivered_lem (inl (e, a)) h = rw (e, mark_outbound_delivered) h
    delivered_lem (inr (front, m, back, e, a, i, t)) h =
        rw (t, mark_outbound_delivered)
          (rw t (retain-IsBounded m.destination_hash r.destination_retains h).0)

    failed_lem :
        IsTaken fl id r (take_message fl id r)
        → (mark_outbound_failed fl id r).0.destination_retains ≡ r.destination_retains
    unfolding mark_outbound_failed
    failed_lem (inl (e, a)) = rw (e, mark_outbound_failed) refl
    failed_lem (inr (front, m, back, e, a, i, t)) = rw (t, mark_outbound_failed) (rw t refl)

    rejected_lem :
        IsTaken fl id r (take_message fl id r)
        → (mark_outbound_rejected fl id r).0.destination_retains ≡ r.destination_retains
    unfolding mark_outbound_rejected
    rejected_lem (inl (e, a)) = rw (e, mark_outbound_rejected) refl
    rejected_lem (inr (front, m, back, e, a, i, t)) = rw (t, mark_outbound_rejected) (rw t refl)

  -- Delivering, failing or rejecting a message of the queue, and taking the list of destinations,
  -- keep that list within 256 destinations, each of them once.
  pub queue_step-IsBounded :
      (e : QueueEvent) (now : F64) (r : LxmRouter fl)
      → IsBounded r.destination_retains
      → IsBounded (queue_step e now r).destination_retains
  unfolding queue_step take_destination_retains
  queue_step-IsBounded (deliver id) now r h =
      delivered_lem id now r (take_message-IsTaken fl id r) h
  queue_step-IsBounded (fail id) now r h = rw (failed_lem id now r (take_message-IsTaken fl id r)) h
  queue_step-IsBounded (reject id) now r h =
      rw (rejected_lem id now r (take_message-IsTaken fl id r)) h
  queue_step-IsBounded drain now r h = (omega arith, tt)
