-- ===== src/Store.antt =====
-- The index of stored propagation messages (crates/lxmf-core/src/propagation.rs). Ids and hashes are
-- the numbers that their bytes spell; times and weights are `f64`, an interface; the clock's reading
-- is an argument. Byte counts are `usize` and wrap as in a release build.
pub mod Sizes
pub mod Cull
pub mod Limit
use rs_lxmf.Prelude.{
  ℕ, ◌*◌, ◌+◌, ◌-◌, ◌%◌, ◌^◌, Bool, true, false, Option, none, some, List, [], ◌∷◌, ◌++◌, not, map,
  nat_eq, ◌==◌, if◌then◌else◌, filter, contains, leb, Float,
}
use rs_lxmf.Map
use rs_lxmf.Map.{Map}

module _ (fl : Float) where
  open fl use {F64, of_nat, add, sub, mul, div, lt, le}

  pub record PropagationEntry : Type 0 where
    pub transient_id : ℕ
    pub message_hash : ℕ
    pub destination_hash : ℕ
    pub stored_at : F64
    pub stamp_value : ℕ
    pub size : ℕ
    pub collected : Bool
    pub stamped : Bool

  pub record PropagationStore : Type 0 where
    pub entries : Map ℕ PropagationEntry
    pub total_size : ℕ
    pub locally_delivered_ids : Map ℕ F64
    pub locally_processed_ids : Map ℕ F64
    pub ignored_destinations : List ℕ
    pub prioritised_destinations : List ℕ
    pub peer_distribution_queue : List (ℕ × Option ℕ)
    pub storage_limit : Option ℕ

  abbrev pub new : PropagationStore
  new = record {
    entries = [];
    total_size = 0;
    locally_delivered_ids = [];
    locally_processed_ids = [];
    ignored_destinations = [];
    prioritised_destinations = [];
    peer_distribution_queue = [];
    storage_limit = none;
  }

  -- `PropagationEntry::new` and `new_stamped`, the last two arguments being the clock and `stamped`
  unfoldable pub new_entry : ℕ → ℕ → ℕ → ℕ → ℕ → F64 → Bool → PropagationEntry
  new_entry transient_id message_hash destination_hash size stamp_value now stamped = record {
    transient_id = transient_id;
    message_hash = message_hash;
    destination_hash = destination_hash;
    stored_at = now;
    stamp_value = stamp_value;
    size = size;
    collected = false;
    stamped = stamped;
  }

  unfoldable pub insert_admitted : PropagationEntry → PropagationStore → PropagationStore
  insert_admitted e s = record s {
    total_size = (s.total_size + e.size) % 2 ^ 64;
    entries = Map.insert e.transient_id e s.entries;
  }

  unfoldable pub insert : PropagationEntry → PropagationStore → PropagationStore × Bool
  insert e s =
      if contains e.destination_hash s.ignored_destinations
      then (s, false)
      else (insert_admitted e s, true)

  -- `saturating_sub` is the subtraction of ℕ
  unfoldable pub remove : ℕ → PropagationStore → PropagationStore × Option PropagationEntry
  remove id s = elim (Map.get id s.entries) [
    | none ↦ (s, none)
    | some e ↦
        (record s { entries = Map.remove id s.entries; total_size = s.total_size - e.size }, some e)
  ]

  unfoldable pub remove_all : List ℕ → PropagationStore → PropagationStore
  remove_all [] s = s
  remove_all (id ∷ ids) s = remove_all ids (remove id s).0

  -- `entries_for_destination`
  unfoldable pub entries_for_destination : ℕ → PropagationStore → List PropagationEntry
  entries_for_destination dest s =
      filter (λ e. e.destination_hash == dest) (map (λ x. x.1) s.entries)

  unfoldable pub cull_expired : ℕ → F64 → PropagationStore → PropagationStore
  unfolding remove_all
  cull_expired max_age_secs now s =
      let cutoff = sub now (of_nat max_age_secs) in
      remove_all (map (λ x. x.0) (filter (λ x. lt x.1.stored_at cutoff) s.entries)) s

  -- The constants of `compute_weight` that are no whole numbers are arguments: `tenth` is 0.1.
  unfoldable pub compute_weight : F64 → PropagationEntry → F64 → PropagationStore → F64
  compute_weight tenth e now s =
      let age_days = div (div (sub now e.stored_at) (of_nat 86400)) (of_nat 4) in
      let age_weight = if lt (of_nat 1) age_days then age_days else of_nat 1 in
      let priority_weight =
        if contains e.destination_hash s.prioritised_destinations then tenth else of_nat 1 in
      mul (mul priority_weight age_weight) (of_nat e.size)

  -- `sort_by` with the heavier first: a stable sort, in which an entry goes behind those that are
  -- heavier
  unfoldable pub insert_weighted : ℕ × F64 → List (ℕ × F64) → List (ℕ × F64)
  insert_weighted x [] = x ∷ []
  insert_weighted x (y ∷ ys) =
      let rest = insert_weighted x ys in if lt x.1 y.1 then y ∷ rest else x ∷ y ∷ ys

  unfoldable pub sort_weighted : List (ℕ × F64) → List (ℕ × F64)
  unfolding insert_weighted
  sort_weighted [] = []
  sort_weighted (x ∷ xs) = insert_weighted x (sort_weighted xs)

  -- the loop that collects entries until enough bytes are found
  unfoldable pub select : ℕ → ℕ → List (ℕ × F64) → Map ℕ PropagationEntry → List ℕ
  select needed cleaned [] m = []
  select needed cleaned ((id, w) ∷ ws) m = elim (leb needed cleaned) [
    | true ↦ []
    | false ↦ elim (Map.get id m) [
      | none ↦ select needed cleaned ws m
      | some e ↦ id ∷ select needed ((cleaned + e.size) % 2 ^ 64) ws m
    ]
  ]

  unfoldable pub weighted : F64 → F64 → PropagationStore → List (ℕ × F64)
  unfolding sort_weighted
  weighted tenth now s = sort_weighted (map (λ x. (x.0, compute_weight tenth x.1 now s)) s.entries)

  unfoldable pub cull_by_weight : F64 → ℕ → F64 → PropagationStore → PropagationStore
  cull_by_weight tenth limit now s =
      if leb s.total_size limit
      then s
      else remove_all (select (s.total_size - limit) 0 (weighted tenth now s) s.entries) s

  unfoldable pub mark_locally_delivered : ℕ → F64 → PropagationStore → PropagationStore
  mark_locally_delivered id now s = record s {
    locally_delivered_ids = Map.insert id now s.locally_delivered_ids;
  }

  unfoldable pub mark_locally_processed : ℕ → F64 → PropagationStore → PropagationStore
  mark_locally_processed id now s = record s {
    locally_processed_ids = Map.insert id now s.locally_processed_ids;
  }

  unfoldable pub is_locally_delivered : ℕ → PropagationStore → Bool
  is_locally_delivered id s = Map.contains_key id s.locally_delivered_ids

  -- MESSAGE_EXPIRY * 6
  abbrev pub cache_expiry : F64
  cache_expiry = mul (of_nat (30 * 24 * 60 * 60)) (of_nat 6)

  unfoldable pub clean_transient_caches : F64 → PropagationStore → PropagationStore
  clean_transient_caches now s = record s {
    locally_delivered_ids =
        Map.retain (λ _ at. le now (add at cache_expiry)) s.locally_delivered_ids;
    locally_processed_ids =
        Map.retain (λ _ at. le now (add at cache_expiry)) s.locally_processed_ids;
  }

  unfoldable pub ignore_destination : ℕ → PropagationStore → PropagationStore
  ignore_destination dest s =
      if contains dest s.ignored_destinations
      then s
      else record s { ignored_destinations = dest ∷ s.ignored_destinations }

  unfoldable pub unignore_destination : ℕ → PropagationStore → PropagationStore
  unignore_destination dest s = record s {
    ignored_destinations = filter (λ d. not (d == dest)) s.ignored_destinations;
  }

  unfoldable pub prioritise_destination : ℕ → PropagationStore → PropagationStore
  prioritise_destination dest s =
      if contains dest s.prioritised_destinations
      then s
      else record s { prioritised_destinations = dest ∷ s.prioritised_destinations }

  unfoldable pub unprioritise_destination : ℕ → PropagationStore → PropagationStore
  unprioritise_destination dest s = record s {
    prioritised_destinations = filter (λ d. not (d == dest)) s.prioritised_destinations;
  }

  unfoldable pub enqueue_distribution : ℕ → Option ℕ → PropagationStore → PropagationStore
  enqueue_distribution id from_peer s = record s {
    peer_distribution_queue = s.peer_distribution_queue ++ (id, from_peer) ∷ [];
  }

  unfoldable pub drain_distribution_queue :
      PropagationStore → PropagationStore × List (ℕ × Option ℕ)
  drain_distribution_queue s =
      (record s { peer_distribution_queue = [] }, s.peer_distribution_queue)
