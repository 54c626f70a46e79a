-- ===== src/Ticket.antt =====
-- The ticket store (crates/lxmf-core/src/ticket.rs). Times are `f64` seconds, an interface; a token
-- is a byte string, and a destination hash the number that its bytes spell.
pub mod Issue
pub mod Cull
pub mod Keyed
use rs_lxmf.Prelude.{
  ℕ, ◌*◌, ◌+◌, Bool, true, false, Option, none, some, List, [], ◌∷◌, ◌++◌, ◌&&◌, not, map, nat_eq,
  ◌==◌, if◌then◌else◌, filter, find, any, count, length, Bytes, bytes_eq, Float, nat_beq,
}
use rs_lxmf.Map
use rs_lxmf.Map.{Map}
use rs_lxmf.Map.Laws.{keep_if}

abbrev pub ticket_length : ℕ
ticket_length = 16

abbrev pub ticket_grace : ℕ
ticket_grace = 5 * 24 * 60 * 60

abbrev pub ticket_renew : ℕ
ticket_renew = 14 * 24 * 60 * 60

abbrev pub ticket_interval : ℕ
ticket_interval = 24 * 60 * 60

module _ (fl : Float) where
  open fl use {F64, of_nat, add, sub, lt, le, is_finite}

  pub record Ticket : Type 0 where
    pub token : Bytes
    pub destination_hash : ℕ
    pub expires : F64

  pub record TicketStore : Type 0 where
    pub outbound : Map ℕ Ticket
    pub inbound : List Ticket
    pub last_deliveries : Map ℕ F64

  pub record TicketStoreSnapshot : Type 0 where
    pub version : ℕ
    pub outbound : List Ticket
    pub inbound : List Ticket
    pub last_deliveries : Map ℕ F64

  abbrev pub new : TicketStore
  new = record { outbound = []; inbound = []; last_deliveries = [] }

  abbrev pub is_valid : F64 → Ticket → Bool
  is_valid now t = lt now t.expires

  unfoldable pub should_renew : F64 → Ticket → Bool
  should_renew now t = is_valid now t && le (sub t.expires now) (of_nat ticket_renew)

  unfoldable pub add_inbound : Ticket → TicketStore → TicketStore
  add_inbound t s =
      if any (λ x. x.destination_hash == t.destination_hash && x.token == t.token) s.inbound
      then s
      else record s { inbound = s.inbound ++ t ∷ [] }

  unfoldable pub remember_outbound : Ticket → TicketStore → TicketStore
  remember_outbound t s = record s { outbound = Map.insert t.destination_hash t s.outbound }

  unfoldable pub find_outbound : ℕ → F64 → TicketStore → Option Ticket
  find_outbound dest now s = keep_if (is_valid now) (Map.get dest s.outbound)

  unfoldable pub inbound_tokens : ℕ → F64 → TicketStore → List Bytes
  inbound_tokens dest now s =
      map (λ t. t.token) (filter (λ t. t.destination_hash == dest && is_valid now t) s.inbound)

  -- `last_deliveries.get(..).is_some_and(..)`
  abbrev pub is_recent : F64 → Option F64 → Bool
  is_recent now none = false
  is_recent now (some last) = lt (sub now last) (of_nat ticket_interval)

  unfoldable pub should_issue_for : ℕ → F64 → TicketStore → Bool
  should_issue_for dest now s = not (is_recent now (Map.get dest s.last_deliveries))

  -- a ticket that can be given out again
  abbrev pub is_reusable : ℕ → F64 → Ticket → Bool
  is_reusable dest now t =
      t.destination_hash == dest && lt (of_nat ticket_renew) (sub t.expires now)

  abbrev issue_new : Bytes → ℕ → ℕ → F64 → Option Ticket → TicketStore → TicketStore × Option Ticket
  issue_new random dest expiry_secs now (some t) s = (s, some t)
  issue_new random dest expiry_secs now none s =
      let t : Ticket = record {
        token = random;
        destination_hash = dest;
        expires = add now (of_nat expiry_secs);
      } in
      (record s { inbound = s.inbound ++ t ∷ [] }, some t)

  -- `random` is the token that `rand::random` would give.
  unfoldable pub issue_for : Bytes → ℕ → ℕ → F64 → TicketStore → TicketStore × Option Ticket
  issue_for random dest expiry_secs now s =
      if not (should_issue_for dest now s)
      then (s, none)
      else issue_new random dest expiry_secs now (find (is_reusable dest now) s.inbound) s

  unfoldable pub mark_ticket_delivered : ℕ → F64 → TicketStore → TicketStore
  mark_ticket_delivered dest at s = record s {
    last_deliveries = Map.insert dest at s.last_deliveries;
  }

  unfoldable pub cull : F64 → TicketStore → TicketStore
  cull now s = record {
    outbound = Map.retain (λ _ t. is_valid now t) s.outbound;
    inbound = filter (λ t. lt now (add t.expires (of_nat ticket_grace))) s.inbound;
    last_deliveries =
        Map.retain (λ _ at. lt (sub now at) (of_nat ticket_interval)) s.last_deliveries;
  }

  unfoldable pub count_valid : F64 → TicketStore → ℕ
  count_valid now s = Map.count_values (is_valid now) s.outbound + count (is_valid now) s.inbound

  -- `map(|ticket| (ticket.destination_hash, ticket)).collect()`: a later ticket replaces an earlier
  unfoldable pub collect_outbound : List Ticket → Map ℕ Ticket → Map ℕ Ticket
  collect_outbound [] m = m
  collect_outbound (t ∷ ts) m = collect_outbound ts (Map.insert t.destination_hash t m)

  unfoldable pub snapshot : TicketStore → TicketStoreSnapshot
  snapshot s = record {
    version = 1;
    outbound = map (λ e. e.1) s.outbound;
    inbound = s.inbound;
    last_deliveries = s.last_deliveries;
  }

  unfoldable pub replace_snapshot : TicketStoreSnapshot → TicketStore
  replace_snapshot p = record {
    outbound = collect_outbound p.outbound [];
    inbound = p.inbound;
    last_deliveries = p.last_deliveries;
  }

  unfoldable pub replace_legacy : List Ticket → TicketStore
  replace_legacy ts = record {
    outbound = collect_outbound ts [];
    inbound = ts;
    last_deliveries = [];
  }
