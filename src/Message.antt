-- ===== src/Message.antt =====
-- A message as the router handles it (crates/lxmf-core/src/message.rs and constants.rs): the delivery
-- metadata, and of the body what the router reads. The calls of the two callbacks are listed in
-- `notices`, whether a callback is registered or not.
use rs_lxmf.Prelude.{ℕ, Bool, true, false, Option, List, [], ◌∷◌, ◌++◌, ◌||◌, if◌then◌else◌, Float}

-- constants.rs
pub data MessageState : Type 0 where
  generating outbound sending sent delivered rejected cancelled failed : MessageState

pub data DeliveryMethod : Type 0 where
  opportunistic direct propagated paper : DeliveryMethod

pub MessageState-discrete : Discrete MessageState
MessageState-discrete = hlevel

-- which callback is called
pub data Notice : Type 0 where
  on_delivered on_failed : Notice

abbrev pub is_sending : MessageState → Bool
is_sending MessageState.sending = true
is_sending _ = false

abbrev pub is_outbound : MessageState → Bool
is_outbound outbound = true
is_outbound _ = false

abbrev pub is_rejected : MessageState → Bool
is_rejected rejected = true
is_rejected _ = false

module _ (fl : Float) where
  open fl use {F64}

  -- `payload_length` is the length of `pack_payload`, `none` where that fails, and `has_ticket` tells
  -- whether the fields contain a ticket.
  pub record LxMessage : Type 0 where
    pub message_id : ℕ
    pub destination_hash : ℕ
    pub timestamp : F64
    pub has_ticket : Bool
    pub payload_length : Option ℕ
    pub state : MessageState
    pub method : DeliveryMethod
    pub delivery_attempts : ℕ
    pub last_delivery_attempt : F64
    pub next_delivery_attempt : F64
    pub progress : F64
    pub notices : List Notice

  unfoldable pub notify_delivered : LxMessage → LxMessage
  notify_delivered m = record m { notices = m.notices ++ on_delivered ∷ [] }

  unfoldable pub notify_failed : LxMessage → LxMessage
  notify_failed m = record m { notices = m.notices ++ on_failed ∷ [] }

  unfoldable pub cancel : LxMessage → LxMessage
  cancel m = if is_outbound m.state || is_sending m.state then record m { state = cancelled } else m

  unfoldable pub mark_failed : LxMessage → LxMessage
  unfolding notify_failed
  mark_failed m = notify_failed (record m { state = failed })

  unfoldable pub mark_rejected : LxMessage → LxMessage
  mark_rejected m = record m { state = rejected }

  unfoldable pub mark_delivered : LxMessage → LxMessage
  unfolding notify_delivered
  mark_delivered m = notify_delivered (record m { state = delivered })

  unfoldable pub mark_sending : LxMessage → LxMessage
  mark_sending m = record m { state = MessageState.sending }

  unfoldable pub mark_sent : LxMessage → LxMessage
  mark_sent m = record m { state = sent }
