-- ===== src/Peer.antt =====
-- A peer of the propagation node: its state, its announced policy and the bookkeeping of syncs
-- (crates/lxmf-core/src/peer.rs). Times and rates are `f64`, an interface; the clock's reading is an
-- argument.
pub mod Metadata
pub mod Announce
pub mod Syncs
pub mod Choice
use rs_lxmf.Prelude.{
  ℕ, ◌+◌, ◌-◌, ◌*◌, ◌%◌, ◌^◌, max, Bool, true, false, Option, none, some, List, [], ◌∷◌, ◌&&◌, ◌||◌,
  not, nat_eq, ◌==◌, if◌then◌else◌, ltb, leb, contains, length, Bytes, Float,
}
use rs_lxmf.Map.{Map}

-- constants.rs
pub data PeerState : Type 0 where
  idle link_establishing link_ready request_sent response_received : PeerState
  resource_transferring : PeerState

pub data SyncStrategy : Type 0 where
  lazy persistent : SyncStrategy

abbrev pub default_peering_cost : ℕ
default_peering_cost = 18

abbrev pub propagation_cost_flex : ℕ
propagation_cost_flex = 3

abbrev pub propagation_limit : ℕ
propagation_limit = 256

abbrev pub sync_backoff_step : ℕ
sync_backoff_step = 12 * 60

abbrev pub max_unreachable : ℕ
max_unreachable = 14 * 24 * 60 * 60

abbrev pub is_idle : PeerState → Bool
is_idle idle = true
is_idle _ = false

-- `cost.saturating_sub(flexibility.unwrap_or(..))`
abbrev pub or_default {ℓ} : {A : Type ℓ} → Option A → A → A
or_default none d = d
or_default (some a) d = a

-- `Option::or`
abbrev pub or_option {ℓ} : {A : Type ℓ} → Option A → Option A → Option A
or_option none o = o
or_option (some a) o = some a

module _ (fl : Float) where
  open fl use {F64, of_nat, add, sub, lt, le, eq}

  pub record LxmPeer : Type 0 where
    pub destination_hash : ℕ
    pub state : PeerState
    pub sync_strategy : SyncStrategy
    pub last_sync : F64
    pub unhandled_count : ℕ
    pub unhandled_count_cached : Bool
    pub unreachable_count : ℕ
    pub autopeered : Bool
    pub stamp_cost : Option ℕ
    pub stamp_cost_flexibility : Option ℕ
    pub peering_cost : ℕ
    pub peering_key : Option (ℕ × ℕ)
    pub propagation_transfer_limit : Option F64
    pub propagation_sync_limit : Option F64
    pub currently_transferring_messages : Option (List ℕ)
    pub link_alive : Bool
    pub created_at : F64
    pub last_heard : F64
    pub alive : Bool
    pub peering_timebase : F64
    pub link_establishment_rate : F64
    pub sync_transfer_rate : F64
    pub offered : ℕ
    pub outgoing : ℕ
    pub incoming : ℕ
    pub rx_bytes : ℕ
    pub tx_bytes : ℕ
    pub last_sync_attempt : F64
    pub next_sync_attempt : F64
    pub sync_backoff : F64
    pub metadata : Option (Map ℕ Bytes)
    pub last_offer_generation : ℕ
    pub is_static : Bool
    pub handled_messages : List ℕ

  unfoldable pub new : ℕ → F64 → LxmPeer
  new destination_hash now = record {
    destination_hash = destination_hash;
    state = idle;
    sync_strategy = persistent;
    last_sync = of_nat 0;
    unhandled_count = 0;
    unhandled_count_cached = false;
    unreachable_count = 0;
    autopeered = false;
    stamp_cost = none;
    stamp_cost_flexibility = none;
    peering_cost = default_peering_cost;
    peering_key = none;
    propagation_transfer_limit = some (of_nat propagation_limit);
    propagation_sync_limit = none;
    currently_transferring_messages = none;
    link_alive = false;
    created_at = now;
    last_heard = now;
    alive = true;
    peering_timebase = of_nat 0;
    link_establishment_rate = of_nat 0;
    sync_transfer_rate = of_nat 0;
    offered = 0;
    outgoing = 0;
    incoming = 0;
    rx_bytes = 0;
    tx_bytes = 0;
    last_sync_attempt = of_nat 0;
    next_sync_attempt = of_nat 0;
    sync_backoff = of_nat 0;
    metadata = none;
    last_offer_generation = 0;
    is_static = false;
    handled_messages = [];
  }

  unfoldable pub heard : F64 → LxmPeer → LxmPeer
  heard now p = record p {
    last_heard = now;
    alive = true;
    unreachable_count = 0;
    sync_backoff = of_nat 0;
  }

  unfoldable pub minimum_accepted_stamp_cost : LxmPeer → ℕ
  minimum_accepted_stamp_cost p = elim p.stamp_cost [
    | none ↦ 0
    | some cost ↦ cost - or_default p.stamp_cost_flexibility propagation_cost_flex
  ]

  -- u32 counters wrap as in a release build
  unfoldable pub add_unhandled_message : LxmPeer → LxmPeer
  add_unhandled_message p = record p {
    unhandled_count_cached = false;
    unhandled_count = (p.unhandled_count + 1) % 2 ^ 32;
  }

  unfoldable pub set_unhandled_count : ℕ → LxmPeer → LxmPeer
  set_unhandled_count count p = record p { unhandled_count = count; unhandled_count_cached = true }

  unfoldable pub add_handled_message : ℕ → LxmPeer → LxmPeer
  add_handled_message hash p =
      if contains hash p.handled_messages
      then p
      else record p { handled_messages = hash ∷ p.handled_messages }

  unfoldable pub needs_offer_generation : ℕ → LxmPeer → Bool
  needs_offer_generation generation p = ltb p.last_offer_generation generation

  unfoldable pub mark_offer_generation_processed : ℕ → LxmPeer → LxmPeer
  mark_offer_generation_processed generation p = record p {
    last_offer_generation = max p.last_offer_generation generation;
  }

  unfoldable pub mark_unreachable : F64 → LxmPeer → LxmPeer
  mark_unreachable now p = record p {
    unreachable_count = (p.unreachable_count + 1) % 2 ^ 32;
    alive = if lt (of_nat max_unreachable) (sub now p.last_heard) then false else p.alive;
  }

  unfoldable pub should_sync : F64 → LxmPeer → Bool
  should_sync now p = if not (is_idle p.state) then false else lt p.next_sync_attempt now

  abbrev pub key_ready : Option (ℕ × ℕ) → ℕ → Bool
  key_ready none cost = false
  key_ready (some (stamp, value)) cost = leb cost value

  unfoldable pub peering_key_ready : LxmPeer → Bool
  peering_key_ready p = key_ready p.peering_key p.peering_cost

  -- the clock is read twice
  unfoldable pub begin_sync : F64 → F64 → LxmPeer → LxmPeer
  begin_sync now now' p =
      let backoff = add p.sync_backoff (of_nat sync_backoff_step) in
      record p {
        state = link_establishing;
        last_sync_attempt = now;
        sync_backoff = backoff;
        next_sync_attempt = add now' backoff;
      }

  unfoldable pub link_established : Option F64 → F64 → LxmPeer → LxmPeer
  link_established rate now p = record p {
    link_establishment_rate = or_default rate p.link_establishment_rate;
    state = link_ready;
    next_sync_attempt = of_nat 0;
    last_heard = now;
    alive = true;
    link_alive = true;
  }

  unfoldable pub link_closed : LxmPeer → LxmPeer
  link_closed p = record p {
    link_alive = false;
    state = idle;
    currently_transferring_messages =
        if not (is_idle p.state) then none else p.currently_transferring_messages;
  }

  unfoldable pub sync_complete : F64 → LxmPeer → LxmPeer
  sync_complete now p = record p {
    state = idle;
    last_sync = now;
    currently_transferring_messages = none;
    sync_backoff = of_nat 0;
    next_sync_attempt = of_nat 0;
  }

  unfoldable pub sync_failed : F64 → LxmPeer → LxmPeer
  unfolding mark_unreachable
  sync_failed now p = record (mark_unreachable now (record p { state = idle })) {
    currently_transferring_messages = none;
  }
