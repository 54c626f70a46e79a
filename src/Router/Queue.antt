-- ===== src/Router/Queue.antt =====
-- The outbound queue of the router (crates/lxmf-core/src/router.rs): what enters it and what leaves it.
pub mod Taken
pub mod Retains
use rs_lxmf.Prelude.{
  ℕ, ◌+◌, ◌-◌, Bool, true, false, not, Option, none, some, List, [], ◌∷◌, ◌++◌, ◌&&◌, nat_eq, ◌==◌,
  if◌then◌else◌, ltb, length, filter, contains, get_elem?, remove_at, Float, Result, ok, err,
  decimal,
}
use rs_lxmf.Map
use rs_lxmf.Message.{
  LxMessage, DeliveryMethod, opportunistic, direct, propagated, mark_failed, mark_rejected,
  mark_delivered, notify_failed, is_rejected, outbound,
}
use rs_lxmf.Router.{LxmRouter, SignedLxMessage}
use rs_lxmf.Router.Direct.{at_least, wait_until, path_request_wait, delivery_retry_wait}
use rs_lxmf.Ticket

abbrev pub max_pending_retains : ℕ
max_pending_retains = 256

-- LXMF_OVERHEAD and the rest of constants.rs; the MDU of an encrypted packet is the transport's
abbrev pub timestamp_size : ℕ
timestamp_size = 8

abbrev pub struct_overhead : ℕ
struct_overhead = 8

abbrev pub is_propagated : DeliveryMethod → Bool
is_propagated propagated = true
is_propagated _ = false

abbrev is_opportunistic : DeliveryMethod → Bool
is_opportunistic opportunistic = true
is_opportunistic _ = false

abbrev pub is_none {ℓ} : {A : Type ℓ} → Option A → Bool
is_none none = true
is_none (some a) = false

abbrev pub pop_front : List ℕ → List ℕ
pop_front [] = []
pop_front (x ∷ xs) = xs

-- the oldest destination leaves a full list
unfoldable pub retain_destination : ℕ → List ℕ → List ℕ
retain_destination dest retains =
    if contains dest retains
    then retains
    else if length retains == max_pending_retains
    then pop_front retains ++ dest ∷ []
    else retains ++ dest ∷ []

module _ (fl : Float) where
  open fl use {F64, of_nat, add, sub, lt}

  pub data SendError : Type 0 where
    missing_outbound_propagation_node : LxMessage fl → SendError

  -- the size test of an Opportunistic message; `max_content` is ENCRYPTED_PACKET_MAX_CONTENT
  unfoldable pub fall_back : ℕ → LxMessage fl → LxMessage fl
  fall_back max_content m = elim m.payload_length [
    | none ↦ m
    | some n ↦
        if is_opportunistic m.method && ltb max_content (n - (timestamp_size + struct_overhead))
        then record m { method = direct }
        else m
  ]

  -- the message that an error gives back, its failure notified
  unfoldable pub refuse : LxMessage fl → LxMessage fl
  unfolding mark_failed notify_failed
  refuse m =
      let m' = record m { progress = of_nat 0 } in
      if not (is_rejected m'.state) then mark_failed fl m' else notify_failed fl m'

  unfoldable pub try_send :
      ℕ → LxMessage fl → LxmRouter fl → LxmRouter fl × Result (Unit {0}) SendError
  unfolding fall_back refuse
  try_send max_content m r =
      if is_propagated m.method && is_none r.outbound_propagation_node
      then (r, err (missing_outbound_propagation_node (refuse m)))
      else let m' = record (fall_back max_content m) { state = outbound } in
        (record r { pending_outbound = r.pending_outbound ++ m' ∷ [] }, ok tt)

  -- `iter().position(|m| m.message_id() == id)`, from an index on
  unfoldable pub position_from : ℕ → ℕ → List (LxMessage fl) → Option ℕ
  position_from i id [] = none
  position_from i id (m ∷ ms) =
      let rest = position_from (i + 1) id ms in if m.message_id == id then some i else rest

  -- the message at a position, and the queue without it
  unfoldable pub take_at : Option ℕ → LxmRouter fl → LxmRouter fl × Option (LxMessage fl)
  unfolding get_elem? remove_at
  take_at none r = (r, none)
  take_at (some i) r = (
    record r { pending_outbound = remove_at i r.pending_outbound },
    get_elem? r.pending_outbound i,
  )

  unfoldable pub take_message : ℕ → LxmRouter fl → LxmRouter fl × Option (LxMessage fl)
  unfolding take_at position_from
  take_message id r = take_at (position_from 0 id r.pending_outbound) r

  unfoldable pub cancel_deferred : ℕ → LxmRouter fl → LxmRouter fl × Bool
  cancel_deferred id r = elim (Map.get id r.pending_deferred_stamps) [
    | none ↦ (r, false)
    | some m ↦ (
      record r {
        pending_deferred_stamps = Map.remove id r.pending_deferred_stamps;
        active_deferred_stamp = elim r.active_deferred_stamp [
          | none ↦ none
          | some job ↦ if job == id then none else some job
        ];
      },
      true,
    )
  ]

  -- the cancelled message is dropped
  unfoldable pub cancel_outbound : ℕ → LxmRouter fl → LxmRouter fl × Bool
  unfolding take_message cancel_deferred
  cancel_outbound id r =
      let (r', taken) = take_message id r in
      elim taken [ some m ↦ (r', true) | none ↦ cancel_deferred id r ]

  -- the message as its callback sees it, delivered
  unfoldable pub complete_outbound_message :
      F64 → LxMessage fl → LxmRouter fl → LxmRouter fl × LxMessage fl
  unfolding retain_destination mark_delivered
  complete_outbound_message now m r = (
    record r {
      ticket_store =
          if m.has_ticket
          then Ticket.mark_ticket_delivered fl m.destination_hash now r.ticket_store
          else r.ticket_store;
      destination_retains = retain_destination m.destination_hash r.destination_retains;
    },
    mark_delivered fl m,
  )

  -- this call and the next two return the message that left, as its callback saw it
  unfoldable pub mark_outbound_delivered :
      ℕ → F64 → LxmRouter fl → LxmRouter fl × Option (LxMessage fl)
  unfolding take_message complete_outbound_message
  mark_outbound_delivered id now r =
      let (r', taken) = take_message id r in
      elim taken [
        | none ↦ (r, none)
        | some m ↦ let (r'', m') = complete_outbound_message now m r' in (r'', some m')
      ]

  unfoldable pub mark_outbound_failed : ℕ → LxmRouter fl → LxmRouter fl × Option (LxMessage fl)
  unfolding take_message mark_failed
  mark_outbound_failed id r =
      let (r', taken) = take_message id r in
      elim taken [ none ↦ (r, none) | some m ↦ (r', some (mark_failed fl m)) ]

  unfoldable pub mark_outbound_rejected : ℕ → LxmRouter fl → LxmRouter fl × Option (LxMessage fl)
  unfolding take_message mark_rejected
  mark_outbound_rejected id r =
      let (r', taken) = take_message id r in
      elim taken [ none ↦ (r, none) | some m ↦ (r', some (mark_rejected fl m)) ]

  unfoldable pub take_destination_retains : LxmRouter fl → LxmRouter fl × List ℕ
  take_destination_retains r = (record r { destination_retains = [] }, r.destination_retains)

  -- `iter_mut().find(..)`, with a change of the message that is found
  unfoldable pub update_first :
      ℕ → (LxMessage fl → LxMessage fl) → List (LxMessage fl) → Option (List (LxMessage fl))
  update_first id f [] = none
  update_first id f (m ∷ ms) =
      let rest = update_first id f ms in
      if m.message_id == id
      then some (f m ∷ ms)
      else elim rest [ none ↦ none | some ms' ↦ some (m ∷ ms') ]

  unfoldable pub defer_outbound_for_path_request : ℕ → F64 → LxmRouter fl → LxmRouter fl × Bool
  unfolding update_first
  defer_outbound_for_path_request id now r =
      elim (update_first id
        (λ m. at_least fl (decimal fl 1 100) (wait_until fl (add now (of_nat path_request_wait)) m))
        r.pending_outbound) [
          | none ↦ (r, false)
          | some ms ↦ (record r { pending_outbound = ms }, true)
        ]

  unfoldable pub defer_stamp : SignedLxMessage fl → LxmRouter fl → LxmRouter fl
  defer_stamp s r =
      let s' = record s { message = record s.message { state = outbound } } in
      let id = s.message.message_id in
      record r {
        pending_deferred_stamps = Map.insert id s' r.pending_deferred_stamps;
        deferred_stamp_order =
            if Map.contains_key id r.pending_deferred_stamps
            then r.deferred_stamp_order
            else filter (λ q. not (q == id)) r.deferred_stamp_order ++ id ∷ [];
      }

  -- the `while` loop: ids that are no longer deferred leave the order
  unfoldable pub next_in_order : List ℕ → Map.Map ℕ (SignedLxMessage fl) → List ℕ × Option ℕ
  next_in_order [] m = ([], none)
  next_in_order (id ∷ ids) m =
      let rest = next_in_order ids m in if Map.contains_key id m then (id ∷ ids, some id) else rest

  abbrev first_key : Map.Map ℕ (SignedLxMessage fl) → Option ℕ
  first_key [] = none
  first_key ((k, s) ∷ m) = some k

  unfoldable pub next_deferred_stamp : LxmRouter fl → LxmRouter fl × Option ℕ
  unfolding next_in_order
  next_deferred_stamp r =
      let (order, found) = next_in_order r.deferred_stamp_order r.pending_deferred_stamps in
      (
        record r { deferred_stamp_order = order },
        elim found [ some id ↦ some id | none ↦ first_key r.pending_deferred_stamps ],
      )

  -- the loop of both triggers: matching messages become due, and are counted
  unfoldable pub trigger :
      (LxMessage fl → Bool) → F64 → List (LxMessage fl) → List (LxMessage fl) × ℕ
  trigger p now [] = ([], 0)
  trigger p now (m ∷ ms) =
      let rest = trigger p now ms in
      if p m
      then (
        record m {
          last_delivery_attempt = sub now (of_nat delivery_retry_wait);
          next_delivery_attempt = now;
        }
            ∷ rest.0,
        rest.1 + 1,
      )
      else (m ∷ rest.0, rest.1)

  unfoldable pub trigger_outbound_for_delivery_announce : ℕ → F64 → LxmRouter fl → LxmRouter fl × ℕ
  unfolding trigger
  trigger_outbound_for_delivery_announce dest now r =
      let (ms, n) = trigger (λ m. m.destination_hash == dest) now r.pending_outbound in
      (record r { pending_outbound = ms }, n)
