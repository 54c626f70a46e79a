-- ===== src/Router/Submit.antt =====
-- Signed messages and their deferred stamps on the way into the outbound queue, and the calls that ask
-- for a stamp or a ticket (crates/lxmf-core/src/router.rs). Whether the stamp of a message is made and
-- fits it is an argument; its bytes lengthen the payload (crates/lxmf-core/src/message/draft.rs).
pub mod Unique
pub mod Calls
use rs_lxmf.Prelude.{
  ℕ, ◌+◌, Bool, true, false, not, Option, none, some, is_some, List, [], ◌∷◌, ◌++◌, ◌&&◌, ◌||◌,
  nat_eq, nat_beq, ◌==◌, bytes_beq, if◌then◌else◌, ltb, any, find, length, Bytes, Float, Result, ok,
  err,
}
use rs_lxmf.Map
use rs_lxmf.Message.{LxMessage}
use rs_lxmf.Router.{LxmRouter, SignedLxMessage, get_stamp_cost}
use rs_lxmf.Router.Queue.{
  SendError, try_send, defer_stamp, next_deferred_stamp, is_propagated, is_none, trigger,
}
use rs_lxmf.Stamps.{Hashes, validate_stamp, expand_rounds_message}
use rs_lxmf.Store.{is_locally_delivered}
use rs_lxmf.Ticket.{Ticket, inbound_tokens, find_outbound, remember_outbound, add_inbound}

-- `AlreadyQueued`, a `PackFailed` without its text, and the error of a stamp that is not made or
-- does not fit the message
pub data SubmitError : Type 0 where
  already_queued pack_failed stamp_failed : SubmitError

-- what the channel of the worker has: a stamp, nothing yet, or no stamp any more
pub data JobResult : Type 0 where
  success empty lost : JobResult

-- the bytes of a stamp that a worker makes
abbrev pub proof_of_work : Option ℕ
proof_of_work = some 32

abbrev pub or_zero : Option ℕ → ℕ
or_zero none = 0
or_zero (some n) = n

module _ (fl : Float) where
  open fl use {F64, of_nat, add}

  abbrev pub is_queued : ℕ → LxmRouter fl → Bool
  is_queued id r =
      Map.contains_key id r.pending_deferred_stamps
      || any (λ m. m.message_id == id) r.pending_outbound

  abbrev pub as_submitted :
      LxmRouter fl × Result (Unit {0}) (SendError fl) → LxmRouter fl × Result (Unit {0}) SubmitError
  as_submitted (r, ok u) = (r, ok u)
  as_submitted (r, err e) = (r, err pack_failed)

  abbrev pub waits_for_stamp : SignedLxMessage fl → LxmRouter fl → Bool
  waits_for_stamp s r =
      r.config.ext.defer_stamp_generation
      && is_none s.outbound_ticket
      && ltb 0 (or_zero s.stamp_cost)

  -- the length of the stamp that `generate_recipient_stamp` makes: a ticket's hash or a proof of work
  abbrev pub generate_recipient_stamp : SignedLxMessage fl → Option ℕ
  generate_recipient_stamp s = elim s.outbound_ticket [
    | some ticket ↦ some 16
    | none ↦ elim s.stamp_cost [ none ↦ none | some cost ↦ proof_of_work ]
  ]

  -- the stamp and its two bytes of framing follow the payload
  abbrev pub finalize : Option ℕ → SignedLxMessage fl → LxMessage fl
  finalize none s = s.message
  finalize (some n) s = record s.message {
    payload_length = elim s.message.payload_length [
      | none ↦ none
      | some payload ↦ some (payload + (2 + n))
    ];
  }

  unfoldable pub submit_signed :
      ℕ → Bool → SignedLxMessage fl → LxmRouter fl → LxmRouter fl × Result (Unit {0}) SubmitError
  unfolding try_send defer_stamp
  submit_signed max_content stamped s r =
      if is_queued s.message.message_id r
      then (r, err already_queued)
      else if is_propagated s.message.method && is_none r.outbound_propagation_node
      then (r, err pack_failed)
      else if waits_for_stamp s r
      then (defer_stamp fl s r, ok tt)
      else if not stamped
      then (r, err stamp_failed)
      else as_submitted (try_send fl max_content (finalize (generate_recipient_stamp s) s) r)

  -- a message leaves the deferred ones: into the queue, or lost where its stamp fails
  unfoldable pub finish_deferred :
      ℕ → (SignedLxMessage fl → Option ℕ) → Bool → ℕ → LxmRouter fl → LxmRouter fl
  unfolding try_send
  finish_deferred max_content stamp stamped id r = elim (Map.get id r.pending_deferred_stamps) [
    | none ↦ r
    | some s ↦
        let r' = record r { pending_deferred_stamps = Map.remove id r.pending_deferred_stamps } in
        if stamped then (try_send fl max_content (finalize (stamp s) s) r').0 else r'
  ]

  unfoldable pub poll_active_deferred_stamp : ℕ → Bool → JobResult → LxmRouter fl → LxmRouter fl
  unfolding finish_deferred
  poll_active_deferred_stamp max_content stamped result r = elim r.active_deferred_stamp [
    | none ↦ r
    | some id ↦ elim result [
      | success ↦
          finish_deferred max_content (λ s. proof_of_work) stamped id
            (record r { active_deferred_stamp = none })
      | empty ↦ r
      | lost ↦ record r {
        active_deferred_stamp = none;
        pending_deferred_stamps = Map.remove id r.pending_deferred_stamps;
      }
    ]
  ]

  abbrev pub is_free : SignedLxMessage fl → Bool
  is_free s = (or_zero s.stamp_cost == 0) || is_some s.outbound_ticket

  -- the message that is next: finished here, or given to a worker
  unfoldable pub start_deferred : ℕ → Bool → Bool → Option ℕ → LxmRouter fl → LxmRouter fl
  unfolding finish_deferred
  start_deferred max_content stamped has_runtime none r = r
  start_deferred max_content stamped has_runtime (some id) r =
      elim (Map.get id r.pending_deferred_stamps) [
        | none ↦ r
        | some s ↦
            if not (is_free s) && has_runtime
            then record r { active_deferred_stamp = some id }
            else finish_deferred max_content generate_recipient_stamp stamped id r
      ]

  -- `polled` is for the worker's message, `stamped` for the next one
  unfoldable pub process_deferred_stamps :
      ℕ → Bool → Bool → JobResult → Bool → LxmRouter fl → LxmRouter fl
  unfolding poll_active_deferred_stamp start_deferred next_deferred_stamp
  process_deferred_stamps max_content polled stamped result has_runtime r =
      let r1 = poll_active_deferred_stamp max_content polled result r in
      if is_some r1.active_deferred_stamp
      then r1
      else let next = next_deferred_stamp fl r1 in
        start_deferred max_content stamped has_runtime next.1 next.0

  -- `truncated_hash` is the crypto crate's
  unfoldable validate_stamp_with_tickets :
      Hashes → (Bytes → Bytes) → Bytes → Bytes → ℕ → ℕ → F64 → LxmRouter fl → Bool
  unfolding inbound_tokens validate_stamp any
  validate_stamp_with_tickets hs truncated_hash message_id stamp required_cost dest now r =
      if any (λ token. bytes_beq stamp (truncated_hash (token ++ message_id)))
        (inbound_tokens fl dest now r.ticket_store)
      then true
      else if length stamp == 32
      then validate_stamp hs message_id stamp required_cost expand_rounds_message
      else false

  unfoldable get_outbound_ticket : ℕ → F64 → LxmRouter fl → Option Bytes
  unfolding find_outbound
  get_outbound_ticket dest now r = elim (find_outbound fl dest now r.ticket_store) [
    | none ↦ none
    | some t ↦ some t.token
  ]

  unfoldable get_outbound_ticket_expiry : ℕ → F64 → LxmRouter fl → Option F64
  unfolding find_outbound
  get_outbound_ticket_expiry dest now r = elim (find_outbound fl dest now r.ticket_store) [
    | none ↦ none
    | some t ↦ some t.expires
  ]

  unfoldable remember_ticket : Ticket fl → LxmRouter fl → LxmRouter fl
  unfolding remember_outbound
  remember_ticket t r = record r { ticket_store = remember_outbound fl t r.ticket_store }

  unfoldable has_message : ℕ → LxmRouter fl → Bool
  unfolding is_locally_delivered
  has_message id r = is_locally_delivered fl id r.propagation_store

  unfoldable get_outbound_progress : ℕ → LxmRouter fl → Option F64
  unfolding find
  get_outbound_progress id r = elim (find (λ m. m.message_id == id) r.pending_outbound) [
    | some m ↦ some m.progress
    | none ↦ elim (Map.get id r.pending_deferred_stamps) [
      | none ↦ none
      | some s ↦ some s.message.progress
    ]
  ]

  -- no expiry check, unlike `get_stamp_cost`
  unfoldable get_outbound_lxm_stamp_cost : ℕ → LxmRouter fl → Option ℕ
  get_outbound_lxm_stamp_cost dest r = elim (Map.get dest r.outbound_stamp_costs) [
    | none ↦ none
    | some e ↦ some e.cost
  ]

  unfoldable get_outbound_lxm_propagation_stamp_cost : ℕ → LxmRouter fl → Option ℕ
  get_outbound_lxm_propagation_stamp_cost id r = elim (Map.get id r.pending_deferred_stamps) [
    | none ↦ none
    | some s ↦ s.stamp_cost
  ]

  -- `is_announce` tells whether the app data parses (handlers.rs)
  unfoldable trigger_outbound_for_propagation_node_announce :
      ℕ → Bool → F64 → LxmRouter fl → LxmRouter fl × ℕ
  unfolding trigger
  trigger_outbound_for_propagation_node_announce dest is_announce now r =
      if not (is_node r.outbound_propagation_node)
      then (r, 0)
      else if not is_announce
      then (r, 0)
      else let triggered = trigger fl (λ m. is_propagated m.method) now r.pending_outbound in
        (record r { pending_outbound = triggered.0 }, triggered.1)
    where
      is_node : Option ℕ → Bool
      is_node none = false
      is_node (some node) = node == dest
