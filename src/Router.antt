-- ===== src/Router.antt =====
-- The router's queues and policy (crates/lxmf-core/src/router.rs): its state, and the access lists.
-- The clock's readings are arguments; the calls of the delivery callback are listed in `delivered`.
pub mod Direct
pub mod Outbound
pub mod Queue
pub mod Runs
pub mod Inbound
pub mod Submit
pub mod Tick
pub mod Peering
use rs_lxmf.Prelude.{
  ℕ, ◌*◌, Bool, true, false, not, Option, none, some, List, [], ◌∷◌, ◌++◌, nat_eq, ◌==◌,
  if◌then◌else◌, filter, contains, Bytes, Float,
}
use rs_lxmf.Map
use rs_lxmf.Map.{Map}
use rs_lxmf.Message.{LxMessage}
use rs_lxmf.Peer.{LxmPeer}
use rs_lxmf.Store
use rs_lxmf.Store.{PropagationStore}
use rs_lxmf.Ticket
use rs_lxmf.Ticket.{TicketStore}

module _ (fl : Float) where
  open fl use {F64, of_nat, sub, lt}

  -- message/draft.rs
  pub record SignedLxMessage : Type 0 where
    pub message : LxMessage fl
    pub outbound_ticket : Option Bytes
    pub stamp_cost : Option ℕ

  pub record RouterConfigExt : Type 0 where
    pub autopeer_maxdepth : ℕ
    pub propagation_cost_min : ℕ
    pub peering_cost : ℕ
    pub max_peering_cost : ℕ
    pub processing_outbound : Bool
    pub processing_limit : Option ℕ
    pub retain_synced_on_node : Bool
    pub auth_required : Bool
    pub defer_stamp_generation : Bool
    pub message_storage_limit : Option ℕ
    pub from_static_only : Bool

  pub record RouterConfig : Type 0 where
    pub propagation_enabled : Bool
    pub autopeer : Bool
    pub max_peers : ℕ
    pub propagation_limit_kb : ℕ
    pub delivery_limit_kb : F64
    pub sync_limit_kb : ℕ
    pub propagation_stamp_cost : ℕ
    pub propagation_stamp_flex : ℕ
    pub stamp_cost : Option ℕ
    pub ext : RouterConfigExt

  abbrev pub default_ext : RouterConfigExt
  default_ext = record {
    autopeer_maxdepth = 4;
    propagation_cost_min = 13;
    peering_cost = 18;
    max_peering_cost = 26;
    processing_outbound = true;
    processing_limit = none;
    retain_synced_on_node = false;
    auth_required = false;
    defer_stamp_generation = true;
    message_storage_limit = none;
    from_static_only = false;
  }

  abbrev pub default_config : RouterConfig
  default_config = record {
    propagation_enabled = false;
    autopeer = true;
    max_peers = 20;
    propagation_limit_kb = 256;
    delivery_limit_kb = of_nat 1000;
    sync_limit_kb = 10240;
    propagation_stamp_cost = 16;
    propagation_stamp_flex = 3;
    stamp_cost = none;
    ext = default_ext;
  }

  pub record StampCostEntry : Type 0 where
    pub cost : ℕ
    pub recorded_at : F64

  -- `active_deferred_stamp` is the message hash of the job.
  pub record LxmRouter : Type 0 where
    pub config : RouterConfig
    pub pending_outbound : List (LxMessage fl)
    pub pending_deferred_stamps : Map ℕ SignedLxMessage
    pub deferred_stamp_order : List ℕ
    pub active_deferred_stamp : Option ℕ
    pub allowed : List ℕ
    pub blocked : List ℕ
    pub allowed_control : List ℕ
    pub ignored : List ℕ
    pub peers : Map ℕ (LxmPeer fl)
    pub static_peers : List ℕ
    pub propagation_store : PropagationStore fl
    pub outbound_stamp_costs : Map ℕ StampCostEntry
    pub ticket_store : TicketStore fl
    pub prioritized : Map ℕ ℕ
    pub delivered : List ℕ
    pub throttled_peers : Map ℕ F64
    pub processing_count : ℕ
    pub last_jobs_tick : F64
    pub outbound_propagation_node : Option ℕ
    pub inbound_reservations : Map ℕ ℕ
    pub next_inbound_reservation : ℕ
    pub destination_retains : List ℕ

  abbrev pub new : RouterConfig → LxmRouter
  new config = record {
    config = config;
    pending_outbound = [];
    pending_deferred_stamps = [];
    deferred_stamp_order = [];
    active_deferred_stamp = none;
    allowed = [];
    blocked = [];
    allowed_control = [];
    ignored = [];
    peers = [];
    static_peers = [];
    propagation_store = Store.new fl;
    outbound_stamp_costs = [];
    ticket_store = Ticket.new fl;
    prioritized = [];
    delivered = [];
    throttled_peers = [];
    processing_count = 0;
    last_jobs_tick = of_nat 0;
    outbound_propagation_node = none;
    inbound_reservations = [];
    next_inbound_reservation = 0;
    destination_retains = [];
  }

  -- `if !list.contains(&hash) { list.push(hash) }`
  abbrev pub push_new : ℕ → List ℕ → List ℕ
  push_new hash list = if contains hash list then list else list ++ hash ∷ []

  -- `list.retain(|h| h != hash)`
  abbrev pub without : ℕ → List ℕ → List ℕ
  without hash list = filter (λ h. not (h == hash)) list

  unfoldable pub allow : ℕ → LxmRouter → LxmRouter
  allow hash r = record r { allowed = push_new hash r.allowed }

  unfoldable pub disallow : ℕ → LxmRouter → LxmRouter
  disallow hash r = record r { allowed = without hash r.allowed }

  unfoldable pub allow_control : ℕ → LxmRouter → LxmRouter
  allow_control hash r = record r { allowed_control = push_new hash r.allowed_control }

  unfoldable pub disallow_control : ℕ → LxmRouter → LxmRouter
  disallow_control hash r = record r { allowed_control = without hash r.allowed_control }

  unfoldable pub block : ℕ → LxmRouter → LxmRouter
  block hash r = record r { blocked = push_new hash r.blocked }

  unfoldable pub unblock : ℕ → LxmRouter → LxmRouter
  unblock hash r = record r { blocked = without hash r.blocked }

  unfoldable pub ignore_destination : ℕ → LxmRouter → LxmRouter
  ignore_destination dest r = record r {
    ignored = push_new dest r.ignored;
    propagation_store = Store.ignore_destination fl dest r.propagation_store;
  }

  unfoldable pub unignore_destination : ℕ → LxmRouter → LxmRouter
  unignore_destination dest r = record r {
    ignored = without dest r.ignored;
    propagation_store = Store.unignore_destination fl dest r.propagation_store;
  }

  unfoldable pub prioritise : ℕ → ℕ → LxmRouter → LxmRouter
  prioritise hash level r = record r {
    prioritized = Map.insert hash level r.prioritized;
    propagation_store = Store.prioritise_destination fl hash r.propagation_store;
  }

  unfoldable pub unprioritise : ℕ → LxmRouter → LxmRouter
  unprioritise hash r = record r {
    prioritized = Map.remove hash r.prioritized;
    propagation_store = Store.unprioritise_destination fl hash r.propagation_store;
  }

  abbrev pub is_empty {ℓ} : {A : Type ℓ} → List A → Bool
  is_empty [] = true
  is_empty (x ∷ xs) = false

  unfoldable pub is_allowed : ℕ → LxmRouter → Bool
  is_allowed hash r =
      if not (contains hash r.blocked)
      then (if is_empty r.allowed then true else contains hash r.allowed)
      else false

  unfoldable pub is_control_allowed : ℕ → LxmRouter → Bool
  is_control_allowed hash r = contains hash r.allowed_control

  abbrev pub stamp_cost_expiry : ℕ
  stamp_cost_expiry = 45 * 24 * 60 * 60

  -- `now - recorded_at < STAMP_COST_EXPIRY`
  abbrev pub is_fresh : F64 → StampCostEntry → Bool
  is_fresh now e = lt (sub now e.recorded_at) (of_nat stamp_cost_expiry)

  abbrev cost_if_fresh : F64 → Option StampCostEntry → Option ℕ
  cost_if_fresh now none = none
  cost_if_fresh now (some e) = if is_fresh now e then some e.cost else none

  unfoldable pub get_stamp_cost : ℕ → F64 → LxmRouter → Option ℕ
  get_stamp_cost dest now r = cost_if_fresh now (Map.get dest r.outbound_stamp_costs)

  unfoldable pub set_stamp_cost : ℕ → ℕ → F64 → LxmRouter → LxmRouter
  set_stamp_cost dest cost now r = record r {
    outbound_stamp_costs =
        Map.insert dest (record { cost = cost; recorded_at = now }) r.outbound_stamp_costs;
  }

  unfoldable pub cull_stamp_costs : F64 → LxmRouter → LxmRouter
  cull_stamp_costs now r = record r {
    outbound_stamp_costs = Map.retain (λ _ e. is_fresh now e) r.outbound_stamp_costs;
  }
