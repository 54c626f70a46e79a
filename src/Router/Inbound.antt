-- ===== src/Router/Inbound.antt =====
-- Messages that arrive (crates/lxmf-core/src/router.rs): delivery to the application, directly or
-- through a reservation. The read of the clock is an argument.
pub mod Once
use rs_lxmf.Prelude.{
  ℕ, ◌+◌, ◌%◌, ◌^◌, Bool, true, false, not, Option, none, some, List, [], ◌∷◌, ◌++◌, ◌&&◌, ◌||◌,
  nat_eq, ◌==◌, if◌then◌else◌, Float,
}
use rs_lxmf.Admission.{
  AdmissionRecord, DurableDisposition, committed, duplicate, policy_discard, user_deleted,
}
use rs_lxmf.Map
use rs_lxmf.Message.{LxMessage}
use rs_lxmf.Router.{LxmRouter}
use rs_lxmf.Store.{is_locally_delivered, mark_locally_delivered, mark_locally_processed}
use rs_lxmf.Ticket.{Ticket, remember_outbound}

pub record InboundReservation : Type 0 where
  pub message_id : ℕ
  pub nonce : ℕ

abbrev pub is_committed : DurableDisposition → Bool
is_committed committed = true
is_committed _ = false

abbrev pub learns : DurableDisposition → Bool
learns committed = true
learns duplicate = true
learns _ = false

module _ (fl : Float) where
  open fl use {F64}

  -- `delivery_callback(message)`
  abbrev pub deliver_callback : ℕ → LxmRouter fl → LxmRouter fl
  deliver_callback id r = record r { delivered = r.delivered ++ id ∷ [] }

  abbrev pub mark_delivered_id : ℕ → F64 → LxmRouter fl → LxmRouter fl
  mark_delivered_id id now r = record r {
    propagation_store = mark_locally_delivered fl id now r.propagation_store;
  }

  unfoldable pub deliver_inbound : LxMessage fl → Bool → F64 → LxmRouter fl → LxmRouter fl × Bool
  unfolding is_locally_delivered mark_locally_delivered
  deliver_inbound m allow_duplicate now r =
      if not allow_duplicate && is_locally_delivered fl m.message_id r.propagation_store
      then (r, false)
      else (deliver_callback m.message_id (mark_delivered_id m.message_id now r), true)

  unfoldable pub reserve_inbound :
      LxMessage fl → LxmRouter fl → LxmRouter fl × Option InboundReservation
  reserve_inbound m r =
      if Map.contains_key m.message_id r.inbound_reservations
      then (r, none)
      else let nonce = (r.next_inbound_reservation + 1) % 2 ^ 64 in
        (
          record r {
            next_inbound_reservation = nonce;
            inbound_reservations = Map.insert m.message_id nonce r.inbound_reservations;
          },
          some (record { message_id = m.message_id; nonce = nonce }),
        )

  -- `inbound_reservations.get(&id) == Some(&nonce)`
  unfoldable pub is_held : InboundReservation → LxmRouter fl → Bool
  is_held res r = elim (Map.get res.message_id r.inbound_reservations) [
    | none ↦ false
    | some nonce ↦ nonce == res.nonce
  ]

  abbrev pub release : ℕ → LxmRouter fl → LxmRouter fl
  release id r = record r { inbound_reservations = Map.remove id r.inbound_reservations }

  unfoldable pub abort_inbound : InboundReservation → LxmRouter fl → LxmRouter fl
  unfolding is_held
  abort_inbound res r = if is_held res r then release res.message_id r else r

  -- `learned` is the ticket of the verified message, where there is one with the same wire bytes
  unfoldable pub learn : Option (Ticket fl) → LxmRouter fl → LxmRouter fl
  unfolding remember_outbound
  learn none r = r
  learn (some ticket) r = record r { ticket_store = remember_outbound fl ticket r.ticket_store }

  -- the ids that a receipt brings into the caches
  unfoldable pub mark_received : ℕ → F64 → LxmRouter fl → LxmRouter fl
  unfolding mark_locally_delivered mark_locally_processed
  mark_received transient_id now r = record r {
    propagation_store =
        mark_locally_processed fl transient_id now
          (mark_locally_delivered fl transient_id now r.propagation_store);
  }

  -- the end of `commit_inbound`, from `new_message` on
  unfoldable pub publish : ℕ → Bool → F64 → LxmRouter fl → LxmRouter fl × Bool
  unfolding is_locally_delivered mark_locally_delivered
  publish id is_commit now r =
      let r' = mark_delivered_id id now r in
      if not (is_locally_delivered fl id r.propagation_store) && is_commit
      then (deliver_callback id r', true)
      else (r', false)

  unfoldable pub is_match :
      InboundReservation → LxMessage fl → AdmissionRecord → LxmRouter fl → Bool
  unfolding is_held
  is_match res m receipt r = not (
      not (res.message_id == m.message_id)
      || not (receipt.message_id == m.message_id)
      || not (is_held res r))

  unfoldable pub commit_inbound :
      InboundReservation
      → LxMessage fl
      → AdmissionRecord
      → Option (Ticket fl)
      → F64
      → LxmRouter fl
      → LxmRouter fl × Bool
  unfolding is_match learn mark_received publish
  commit_inbound res m receipt learned now r =
      if not (is_match res m receipt r)
      then (r, false)
      else publish m.message_id (is_committed receipt.disposition) now (
          mark_received receipt.scope.transient_id now (
            let r' = release res.message_id r in
            if learns receipt.disposition then learn learned r' else r'))
