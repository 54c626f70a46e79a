-- ===== src/Router/Submit/Unique.antt =====
-- Each message is queued or deferred once (crates/lxmf-core/src/router.rs).
use rs_lxmf.Prelude.{
  ℕ, ◌+◌, ◌≤◌, ◌≡◌, inl, inr, Bool, false, not, Bool-cases, Option-cases, Option, none, some,
  is_some, List, [], ◌∷◌, ◌&&◌, nat_eq, nat_beq, nat_beq_iff, ◌==◌, if◌then◌else◌, refl, sym, ap,
  ◌∙◌, Float, Result, ok, err, arith, any, count, count-append,
}
use rs_lxmf.Map
use rs_lxmf.Map.Laws.{get-insert, get-remove}
use rs_lxmf.Message.{LxMessage, outbound}
use rs_lxmf.Router.{LxmRouter, SignedLxMessage}
use rs_lxmf.Router.Queue.{
  SendError, try_send, defer_stamp, fall_back, is_none, is_propagated, next_deferred_stamp,
}
use rs_lxmf.Router.Queue.Taken.{sent_id}
use rs_lxmf.Router.Submit.{
  submit_signed, finish_deferred, poll_active_deferred_stamp, start_deferred,
  process_deferred_stamps, is_queued, waits_for_stamp, generate_recipient_stamp, finalize,
  proof_of_work, as_submitted, JobResult, success, empty, lost, is_free,
}

module _ (fl : Float) where
  open fl use {F64}

  -- how often an id is queued, and whether it is deferred
  abbrev pub places : ℕ → LxmRouter fl → ℕ
  places id r =
      count (λ m. m.message_id == id) r.pending_outbound
      + (if Map.contains_key id r.pending_deferred_stamps then 1 else 0)

  -- Each id has one place at most, and a deferred message stands under its own id.
  abbrev pub IsUnique : LxmRouter fl → Type 0
  IsUnique r =
      ((id : ℕ) → places id r ≤ 1)
      × ((id : ℕ) (s : SignedLxMessage fl)
          → Map.get id r.pending_deferred_stamps ≡ some s
          → s.message.message_id ≡ id)

  count-any :
      (id : ℕ) (ms : List (LxMessage fl))
      → any (λ m. m.message_id == id) ms ≡ false
      → count (λ m. m.message_id == id) ms ≡ 0
  unfolding any count
  count-any id [] h = refl
  count-any id (m ∷ ms) h = ground (arith, h, count-any id ms)

  -- `try_send` adds one place at most, for the message, and leaves the deferred ones
  places-try_send :
      (id max_content : ℕ) (m : LxMessage fl) (r : LxmRouter fl)
      → places id (try_send fl max_content m r).0
        ≤ places id r + (if m.message_id == id then 1 else 0)
  unfolding try_send count
  places-try_send id max_content m r =
      elim (Bool-cases (is_propagated m.method && is_none r.outbound_propagation_node)) [
        | inl refused ↦ rw refused (omega arith)
        | inr taken ↦ rw taken (
            let m' = record (fall_back fl max_content m) { state = outbound } in
            ground (
              arith,
              count-append (λ x. x.message_id == id) r.pending_outbound (m' ∷ []),
              sent_id fl max_content m,
            ))
      ]

  deferred-try_send :
      (max_content : ℕ) (m : LxMessage fl) (r : LxmRouter fl)
      → (try_send fl max_content m r).0.pending_deferred_stamps ≡ r.pending_deferred_stamps
  unfolding try_send
  deferred-try_send max_content m r =
      elim (Bool-cases (is_propagated m.method && is_none r.outbound_propagation_node)) [
        | inl refused ↦ rw refused refl
        | inr taken ↦ rw taken refl
      ]

  -- the id of a message that was found
  abbrev id_of : ℕ → Option (SignedLxMessage fl) → ℕ
  id_of k none = k
  id_of k (some s) = s.message.message_id

  -- a message whose id has no place is sent
  IsUnique-try_send :
      (max_content : ℕ) (m : LxMessage fl) (r : LxmRouter fl)
      → IsUnique r
      → places m.message_id r ≡ 0
      → IsUnique (try_send fl max_content m r).0
  IsUnique-try_send max_content m r h new = (
    λ id. elim (Bool-cases (nat_beq m.message_id id)) [
      | inl same ↦
          let p = places-try_send id max_content m r in
          let z : places id r ≡ 0 = rw (← (nat_beq_iff m.message_id id).0 same) new in
          ground (arith, p, z)
      | inr other ↦ ground (arith, other, places-try_send id max_content m r, h.0 id)
    ],
    λ id s. rw (deferred-try_send max_content m r) (h.1 id s),
  )

  -- and so is the message that a stamp finishes
  IsUnique-finalize :
      (max_content : ℕ) (stamp : Option ℕ) (s : SignedLxMessage fl) (r : LxmRouter fl)
      → IsUnique r
      → places s.message.message_id r ≡ 0
      → IsUnique (try_send fl max_content (finalize fl stamp s) r).0
  IsUnique-finalize max_content none s r h new = IsUnique-try_send max_content s.message r h new
  IsUnique-finalize max_content (some n) s r h new =
      IsUnique-try_send max_content (finalize fl (some n) s) r h new

  IsUnique-defer_stamp :
      (s : SignedLxMessage fl) (r : LxmRouter fl)
      → IsUnique r
      → places s.message.message_id r ≡ 0
      → IsUnique (defer_stamp fl s r)
  unfolding defer_stamp
  IsUnique-defer_stamp s r h new =
      let k = s.message.message_id in
      let s0 : SignedLxMessage fl = record s { message = record s.message { state = outbound } } in
      (
        λ id. elim (Bool-cases (nat_beq k id)) [
          | inl same ↦
              let z : places id r ≡ 0 = rw (← (nat_beq_iff k id).0 same) new in
              ground (arith, same, z, get-insert k id s0 r.pending_deferred_stamps)
          | inr other ↦ ground (arith, other, h.0 id, get-insert k id s0 r.pending_deferred_stamps)
        ],
        λ id s' e. elim (Bool-cases (nat_beq k id)) [
          | inl same ↦
              sym (
                ap (λ o. id_of k o)
                  (rw same at (sym (get-insert k id s0 r.pending_deferred_stamps) ∙ e)))
              ∙ (nat_beq_iff k id).0 same
          | inr other ↦
              h.1 id s' (rw other at (sym (get-insert k id s0 r.pending_deferred_stamps) ∙ e))
        ],
      )

  not_queued : (id : ℕ) (r : LxmRouter fl) → is_queued fl id r ≡ false → places id r ≡ 0
  not_queued id r h = ground (arith, h, count-any id r.pending_outbound)

  as_submitted_router :
      (p : LxmRouter fl × Result (Unit {0}) (SendError fl)) → (as_submitted fl p).0 ≡ p.0
  as_submitted_router (r, ok u) = refl
  as_submitted_router (r, err e) = refl

  pub submit-IsUnique :
      (max_content : ℕ) (stamped : Bool) (s : SignedLxMessage fl) (r : LxmRouter fl)
      → IsUnique r
      → IsUnique (submit_signed fl max_content stamped s r).0
  unfolding submit_signed try_send
  submit-IsUnique max_content stamped s r h =
      elim (Bool-cases (is_queued fl s.message.message_id r)) [
        | inl old ↦ rw old h
        | inr new ↦
            let z = not_queued s.message.message_id r new in
            elim (Bool-cases
              (is_propagated s.message.method && is_none r.outbound_propagation_node)) [
                | inl refused ↦ rw new (rw refused h)
                | inr routed ↦ elim (Bool-cases (waits_for_stamp fl s r)) [
                  | inl waits ↦ rw new (rw routed (rw waits (IsUnique-defer_stamp s r h z)))
                  | inr ready ↦ elim (Bool-cases (not stamped)) [
                    | inl failed ↦ rw new (rw routed (rw ready (rw failed h)))
                    | inr made ↦ rw new (
                        rw routed (
                          rw ready (
                            rw made (
                              rw
                                (as_submitted_router (
                                  try_send fl max_content
                                    (finalize fl (generate_recipient_stamp fl s) s) r))
                                (IsUnique-finalize max_content (generate_recipient_stamp fl s) s r h
                                  z)))))
                  ]
                ]
              ]
      ]

  pub removed :
      (k : ℕ) (r : LxmRouter fl)
      → IsUnique r
      → IsUnique (record r { pending_deferred_stamps = Map.remove k r.pending_deferred_stamps })
  removed k r h = (
    λ id. ground (arith, h.0 id, get-remove k id r.pending_deferred_stamps),
    λ id s e. elim (Bool-cases (nat_beq k id)) [
      | inl same ↦
          absurd (ground (arith, rw same at (sym (get-remove k id r.pending_deferred_stamps) ∙ e)))
      | inr other ↦ h.1 id s (rw other at (sym (get-remove k id r.pending_deferred_stamps) ∙ e))
    ],
  )

  finish-IsUnique :
      (max_content : ℕ) (stamp : SignedLxMessage fl → Option ℕ) (stamped : Bool) (k : ℕ)
      (r : LxmRouter fl)
      → IsUnique r
      → IsUnique (finish_deferred fl max_content stamp stamped k r)
  unfolding finish_deferred
  finish-IsUnique max_content stamp stamped k r h =
      elim (Option-cases (Map.get k r.pending_deferred_stamps)) [
        | inl e ↦ rw (e, finish_deferred) h
        | inr (s, e) ↦ elim (Bool-cases stamped) [
          | inl made ↦
              rw (e, finish_deferred)
                (rw made (
                  IsUnique-finalize max_content (stamp s) s _ (removed k r h) (
                    rw (h.1 k s e) (
                      ground (
                        arith,
                        h.0 k,
                        e,
                        get-remove k k r.pending_deferred_stamps,
                        nat_beq_iff k k,
                      )))))
          | inr failed ↦ rw (e, finish_deferred) (rw failed (removed k r h))
        ]
      ]

  poll-IsUnique :
      (max_content : ℕ) (stamped : Bool) (result : JobResult) (r : LxmRouter fl)
      → IsUnique r
      → IsUnique (poll_active_deferred_stamp fl max_content stamped result r)
  unfolding poll_active_deferred_stamp
  poll-IsUnique max_content stamped success r h = elim (Option-cases r.active_deferred_stamp) [
    | inl e ↦ rw (e, poll_active_deferred_stamp) h
    | inr (k, e) ↦
        rw (e, poll_active_deferred_stamp)
          (finish-IsUnique max_content (λ s. proof_of_work) stamped k
            (record r { active_deferred_stamp = none }) h)
  ]
  poll-IsUnique max_content stamped empty r h = elim (Option-cases r.active_deferred_stamp) [
    | inl e ↦ rw (e, poll_active_deferred_stamp) h
    | inr (k, e) ↦ rw (e, poll_active_deferred_stamp) h
  ]
  poll-IsUnique max_content stamped lost r h = elim (Option-cases r.active_deferred_stamp) [
    | inl e ↦ rw (e, poll_active_deferred_stamp) h
    | inr (k, e) ↦ rw (e, poll_active_deferred_stamp) (removed k r h)
  ]

  start-IsUnique :
      (max_content : ℕ) (stamped has_runtime : Bool) (found : Option ℕ) (r : LxmRouter fl)
      → IsUnique r
      → IsUnique (start_deferred fl max_content stamped has_runtime found r)
  unfolding start_deferred
  start-IsUnique max_content stamped has_runtime none r h = h
  start-IsUnique max_content stamped has_runtime (some k) r h =
      elim (Option-cases (Map.get k r.pending_deferred_stamps)) [
        | inl e ↦ rw (e, start_deferred) h
        | inr (s, e) ↦ elim (Bool-cases (not (is_free fl s) && has_runtime)) [
          | inl given ↦ rw (e, start_deferred) (rw given h)
          | inr own ↦
              rw (e, start_deferred)
                (rw own (finish-IsUnique max_content (generate_recipient_stamp fl) stamped k r h))
        ]
      ]

  pub process-IsUnique :
      (max_content : ℕ) (polled stamped : Bool) (result : JobResult) (has_runtime : Bool)
      (r : LxmRouter fl)
      → IsUnique r
      → IsUnique (process_deferred_stamps fl max_content polled stamped result has_runtime r)
  unfolding process_deferred_stamps next_deferred_stamp
  process-IsUnique max_content polled stamped result has_runtime r h =
      let r1 = poll_active_deferred_stamp fl max_content polled result r in
      let h1 = poll-IsUnique max_content polled result r h in
      elim (Bool-cases (is_some r1.active_deferred_stamp)) [
        | inl busy ↦ rw busy h1
        | inr free ↦ rw free (
            start-IsUnique max_content stamped has_runtime (next_deferred_stamp fl r1).1
              (next_deferred_stamp fl r1).0 h1)
      ]
