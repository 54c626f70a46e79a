-- ===== src/Node.antt =====
-- The offers that a propagation node makes to its peers (crates/lxmf-core/src/propagation_node.rs). The
-- handled ids that the peer's file has, the reading of the clock, the order `total_cmp` of `f64` and
-- its conversion to an integer are arguments.
pub mod Chosen
pub mod Order
pub mod Selection
pub mod Session
use rs_lxmf.Prelude.{
  ℕ, ◌+◌, ◌<◌, min, Bool, true, false, not, Option, none, some, List, [], ◌∷◌, ◌++◌, ◌&&◌, ◌||◌,
  map, nat_eq, ◌==◌, if◌then◌else◌, ltb, leb, any, filter, contains, usize_max, saturating_add,
  Float,
}
use rs_lxmf.Map
use rs_lxmf.Map.{Map}
use rs_lxmf.Peer.Announce.{OutboundOfferPolicy}
use rs_lxmf.Store.{PropagationEntry, PropagationStore, compute_weight}
use rs_lxmf.Sync
use rs_lxmf.Sync.{SyncSession, SyncOffer, prepare_offer}

abbrev pub per_message_overhead : ℕ
per_message_overhead = 16

abbrev pub initial_structure_overhead : ℕ
initial_structure_overhead = 24

module _ (fl : Float) where
  open fl use {F64, of_nat, mul, le, is_finite}

  pub record SyncOfferCandidate : Type 0 where
    pub transient_id : ℕ
    pub weight : F64
    pub size : ℕ
    pub stamp_value : ℕ

  pub record SyncOfferPreparation : Type 0 where
    pub policy : OutboundOfferPolicy fl
    pub generation : ℕ
    pub candidates : List SyncOfferCandidate

  pub record PreparedSyncOffer : Type 0 where
    pub policy : OutboundOfferPolicy fl
    pub generation : ℕ
    pub selected_ids : List ℕ
    pub terminal_handled_ids : List ℕ
    pub generation_exhausted : Bool

  -- The bounds of one selection, in bytes, and the ids that the peer has handled.
  pub record Limits : Type 0 where
    pub handled_messages : List ℕ
    pub minimum_stamp_cost : ℕ
    pub transfer_limit : Option ℕ
    pub sync_limit : Option ℕ

  -- what the loop over the candidates collects
  pub record Selected : Type 0 where
    pub selected_ids : List ℕ
    pub terminal_handled_ids : List ℕ
    pub cumulative_deferred : Bool

  -- the four ways through one round of the loop
  pub data Disposition : Type 0 where
    known terminal deferred selected : Disposition

  abbrev pub transfer_size : SyncOfferCandidate → ℕ
  transfer_size c = saturating_add usize_max c.size per_message_overhead

  -- `limit.is_some_and(|limit| size > limit)`
  abbrev pub exceeds : Option ℕ → ℕ → Bool
  exceeds none size = false
  exceeds (some limit) size = ltb limit size

  -- `limit.is_some_and(|limit| size >= limit)`
  abbrev pub reaches : Option ℕ → ℕ → Bool
  reaches none size = false
  reaches (some limit) size = leb limit size

  unfoldable pub disposition : Limits → ℕ → SyncOfferCandidate → Disposition
  disposition l cumulative_size c =
      if contains c.transient_id l.handled_messages
      then known
      else if ltb c.stamp_value l.minimum_stamp_cost
      then terminal
      else if exceeds l.transfer_limit (transfer_size c)
      then terminal
      else if reaches l.sync_limit (saturating_add usize_max cumulative_size (transfer_size c))
      then deferred
      else selected

  unfoldable pub select_candidates : Limits → ℕ → List SyncOfferCandidate → Selected
  select_candidates l cumulative_size [] = record {
    selected_ids = [];
    terminal_handled_ids = [];
    cumulative_deferred = false;
  }
  select_candidates l cumulative_size (c ∷ cs) = elim (disposition l cumulative_size c) [
    | known ↦ select_candidates l cumulative_size cs
    | terminal ↦
        let rest = select_candidates l cumulative_size cs in
        record rest { terminal_handled_ids = c.transient_id ∷ rest.terminal_handled_ids }
    | deferred ↦ record (select_candidates l cumulative_size cs) { cumulative_deferred = true }
    | selected ↦
        let rest =
          select_candidates l (saturating_add usize_max cumulative_size (transfer_size c)) cs in
        record rest { selected_ids = c.transient_id ∷ rest.selected_ids }
  ]

  module _ (total_lt : F64 → F64 → Bool) (floor : F64 → ℕ) where
    -- by weight, and by id where the weights are the same in `total_cmp`
    abbrev is_before : SyncOfferCandidate → SyncOfferCandidate → Bool
    is_before c d =
        total_lt c.weight d.weight
        || (not (total_lt d.weight c.weight) && ltb c.transient_id d.transient_id)

    unfoldable pub insert_candidate :
        SyncOfferCandidate → List SyncOfferCandidate → List SyncOfferCandidate
    insert_candidate c [] = c ∷ []
    insert_candidate c (d ∷ ds) =
        let rest = insert_candidate c ds in if is_before d c then d ∷ rest else c ∷ d ∷ ds

    unfoldable pub sort_candidates : List SyncOfferCandidate → List SyncOfferCandidate
    unfolding insert_candidate
    sort_candidates [] = []
    sort_candidates (c ∷ cs) = insert_candidate c (sort_candidates cs)

    -- `as usize` saturates; `floor` is exact where its argument is finite and positive
    unfoldable pub kilobytes_to_bytes_fail_closed : F64 → ℕ
    kilobytes_to_bytes_fail_closed kilobytes =
        if not (is_finite kilobytes) || le kilobytes (of_nat 0)
        then 0
        else min (floor (mul kilobytes (of_nat 1000))) usize_max

    abbrev pub limit_in_bytes : Option F64 → Option ℕ
    limit_in_bytes none = none
    limit_in_bytes (some kilobytes) = some (kilobytes_to_bytes_fail_closed kilobytes)

    -- `from_file` has the handled ids of the peer's file, none where there is none
    abbrev pub limits_of : List ℕ → OutboundOfferPolicy fl → Limits
    limits_of from_file policy = record {
      handled_messages = policy.handled_messages ++ from_file;
      minimum_stamp_cost = policy.minimum_stamp_cost;
      transfer_limit = limit_in_bytes policy.propagation_transfer_limit;
      sync_limit = limit_in_bytes policy.propagation_sync_limit;
    }

    abbrev pub is_nil : List ℕ → Bool
    is_nil [] = true
    is_nil (x ∷ xs) = false

    unfoldable pub prepare_sync_offer_snapshot : List ℕ → SyncOfferPreparation → PreparedSyncOffer
    unfolding select_candidates sort_candidates
    prepare_sync_offer_snapshot from_file snapshot =
        let s =
          select_candidates (limits_of from_file snapshot.policy) initial_structure_overhead
            (sort_candidates snapshot.candidates) in
        record {
          policy = snapshot.policy;
          generation = snapshot.generation;
          selected_ids = s.selected_ids;
          terminal_handled_ids = s.terminal_handled_ids;
          generation_exhausted = not s.cumulative_deferred || is_nil s.selected_ids;
        }
