-- ===== src/Router/Queue/Taken.antt =====
-- Which message a call takes from the queue, and where a message that is sent stands
-- (crates/lxmf-core/src/router.rs).
use rs_lxmf.Prelude.{
  ℕ, ◌+◌, ◌≡◌, ◌⊎◌, ◌&&◌, inl, inr, Bool, true, false, Bool-cases, Option-cases, nat_beq_iff,
  Option, none, some, List, [], ◌∷◌, ◌++◌, nat_eq, ◌==◌, refl, ap, ◌∙◌, Float, arith, any, length,
  get_elem-append, remove_at-append, ok,
}
use mathlib.Core.List.{append-nil}
use rs_lxmf.Message.{LxMessage, outbound}
use rs_lxmf.Router.{LxmRouter}
use rs_lxmf.Router.Queue.{
  position_from, take_at, take_message, cancel_outbound, try_send, fall_back, is_none,
  is_propagated,
}

module _ (fl : Float) where
  open fl use {F64}

  abbrev pub has_id : ℕ → LxMessage fl → Bool
  has_id id m = m.message_id == id

  -- the first message of that id is at the position, or there is none
  abbrev Splits : ℕ → ℕ → List (LxMessage fl) → Type 0
  Splits i id ms =
      ((position_from fl i id ms ≡ none) × (any (has_id id) ms ≡ false))
      ⊎ ((front : List (LxMessage fl)) × (m : LxMessage fl) × (back : List (LxMessage fl)) × (ms
            ≡ front ++ m ∷ back)
          × (any (has_id id) front ≡ false)
          × (has_id id m ≡ true)
          × (position_from fl i id ms ≡ some (i + length front)))

  position-Splits : (i id : ℕ) (ms : List (LxMessage fl)) → Splits i id ms
  unfolding position_from any
  position-Splits i id [] = inl (refl, refl)
  position-Splits i id (m ∷ ms) = elim (Bool-cases (has_id id m)) [
    | inl found ↦ inr ([], m, ms, refl, refl, found, rw found (ap some (omega arith)))
    | inr other ↦ elim (position-Splits (i + 1) id ms) [
      | inl (e, a) ↦ inl (rw other e, rw other a)
      | inr (front, x, back, e, a, h, p) ↦ inr (
        m ∷ front,
        x,
        back,
        ap (λ l. m ∷ l) e,
        rw other a,
        h,
        rw other (p ∙ ap some (omega arith)),
      )
    ]
  ]

  -- what leaves the queue, and what remains
  abbrev pub IsTaken : ℕ → LxmRouter fl → LxmRouter fl × Option (LxMessage fl) → Type 0
  IsTaken id r result =
      ((result ≡ (r, none)) × (any (has_id id) r.pending_outbound ≡ false))
      ⊎ ((front : List (LxMessage fl)) × (m : LxMessage fl) × (back : List (LxMessage fl))
          × (r.pending_outbound ≡ front ++ m ∷ back)
          × (any (has_id id) front ≡ false)
          × (has_id id m ≡ true)
          × (result ≡ (record r { pending_outbound = front ++ back }, some m)))

  zero_add : (n : ℕ) → 0 + n ≡ n
  zero_add n = omega arith

  at_length :
      (r : LxmRouter fl) (front : List (LxMessage fl)) (m : LxMessage fl)
      (back : List (LxMessage fl))
      → r.pending_outbound ≡ front ++ m ∷ back
      → take_at fl (some (length front)) r ≡ (record r { pending_outbound = front ++ back }, some m)
  unfolding take_at
  at_length r front m back e = rw e (rw get_elem-append (rw remove_at-append refl))

  pub take_message-IsTaken : (id : ℕ) (r : LxmRouter fl) → IsTaken id r (take_message fl id r)
  unfolding take_message take_at
  take_message-IsTaken id r = elim (position-Splits 0 id r.pending_outbound) [
    | inl (e, a) ↦ inl (rw e refl, a)
    | inr (front, m, back, e, a, h, p) ↦ inr (
      front,
      m,
      back,
      e,
      a,
      h,
      rw (p ∙ ap (λ n. some n) (zero_add (length front))) (at_length r front m back e),
    )
  ]

  position-append :
      (i id : ℕ) (ms : List (LxMessage fl)) (m : LxMessage fl)
      → any (has_id id) ms ≡ false
      → has_id id m ≡ true
      → position_from fl i id (ms ++ m ∷ []) ≡ some (i + length ms)
  unfolding position_from any
  position-append i id [] m new h = rw h (ap some (omega arith))
  position-append i id (x ∷ ms) m new h = elim (Bool-cases (has_id id x)) [
    | inl found ↦ absurd (ground (arith, found, new))
    | inr other ↦
        rw other (position-append (i + 1) id ms m (rw other at new) h ∙ ap some (omega arith))
  ]

  pub sent_id :
      (max_content : ℕ) (m : LxMessage fl) → (fall_back fl max_content m).message_id ≡ m.message_id
  unfolding fall_back
  sent_id max_content m = elim (Option-cases m.payload_length) [
    | inl e ↦ rw e refl
    | inr (n, e) ↦ rw e (ground arith)
  ]

  last_taken :
      (id : ℕ) (m : LxMessage fl) (r : LxmRouter fl)
      → any (has_id id) r.pending_outbound ≡ false
      → has_id id m ≡ true
      → take_message fl id (record r { pending_outbound = r.pending_outbound ++ m ∷ [] })
        ≡ (r, some m)
  unfolding take_message
  last_taken id m r new h =
      rw
        (position-append 0 id r.pending_outbound m new h
          ∙ ap (λ n. some n) (zero_add (length r.pending_outbound)))
        (at_length (record r { pending_outbound = r.pending_outbound ++ m ∷ [] }) r.pending_outbound
            m [] refl
          ∙ ap (λ q. (record r { pending_outbound = q }, some m)) (append-nil r.pending_outbound))

  cancel_taken :
      (id : ℕ) (m : LxMessage fl) (r r' : LxmRouter fl)
      → take_message fl id r ≡ (r', some m)
      → cancel_outbound fl id r ≡ (r', true)
  unfolding cancel_outbound
  cancel_taken id m r r' h = rw (h, cancel_outbound) (rw h refl)

  -- Cancelling a message that `try_send` took leaves the router as it was, where no message of its
  -- id was queued before: it is the one that is found, whatever its method became and whatever
  -- stands in the queue.
  pub cancel_outbound-try_send :
      (max_content : ℕ) (m : LxMessage fl) (r : LxmRouter fl)
      → any (has_id m.message_id) r.pending_outbound ≡ false
      → (try_send fl max_content m r).1 ≡ ok tt
      → cancel_outbound fl m.message_id (try_send fl max_content m r).0 ≡ (r, true)
  unfolding try_send cancel_outbound
  cancel_outbound-try_send max_content m r new accepted =
      elim (Bool-cases (is_propagated m.method && is_none r.outbound_propagation_node)) [
        | inl refused ↦ absurd (ground (arith, rw refused at accepted))
        | inr sent ↦ rw sent (
            cancel_taken m.message_id _ _ _ (
              last_taken m.message_id (record (fall_back fl max_content m) { state = outbound }) r
                new
                ((nat_beq_iff (fall_back fl max_content m).message_id m.message_id).1
                  (sent_id max_content m))))
      ]
