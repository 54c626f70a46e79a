-- ===== src/Router/Peering/Rotation.antt =====
-- Peers that accept little are dropped, and the periodic jobs (crates/lxmf-core/src/router.rs).
use rs_lxmf.Prelude.{
  ℕ, ◌+◌, ◌-◌, ◌*◌, ◌/◌, ◌%◌, ◌^◌, max, Bool, not, Option, none, some, List, [], ◌∷◌, ◌&&◌, ◌||◌,
  nat_eq, nat_beq, if◌then◌else◌, contains, leb, ltb, length, take, Float, decimal,
}
use rs_lxmf.Map
use rs_lxmf.Map.{Map}
use rs_lxmf.Peer.{LxmPeer, is_idle}
use rs_lxmf.Router.{LxmRouter}
use rs_lxmf.Router.Outbound.{message_expiry}
use rs_lxmf.Router.Peering.{unpeer, clean_throttled_peers}
use rs_lxmf.Store.{PropagationStore, cull_expired, cull_by_weight, clean_transient_caches}

abbrev pub rotation_headroom_pct : ℕ
rotation_headroom_pct = 10

abbrev pub processing_interval : ℕ
processing_interval = 4

module _ (fl : Float) where
  open fl use {F64, of_nat, add, sub, mul, div, lt, eq}

  abbrev pub rotation_ar_max : F64
  rotation_ar_max = decimal fl 5 10

  unfoldable pub acceptance_rate : LxmPeer fl → F64
  acceptance_rate p =
      if nat_beq p.offered 0 then of_nat 0 else div (of_nat p.outgoing) (of_nat p.offered)

  abbrev pub headroom : LxmRouter fl → ℕ
  headroom r = max (r.config.max_peers * rotation_headroom_pct / 100) 1

  -- 0 where the source's difference is not positive
  abbrev pub required_drops : LxmRouter fl → ℕ
  required_drops r = (length r.peers + headroom r) - r.config.max_peers

  abbrev pub untested_count : Map ℕ (LxmPeer fl) → ℕ
  untested_count peers = Map.count_values (λ p. eq p.last_sync_attempt (of_nat 0)) peers

  abbrev pub is_droppable : List ℕ → ℕ → LxmPeer fl → Bool
  is_droppable statics hash p = not (contains hash statics) && is_idle p.state && ltb 0 p.offered

  -- `peers.iter().filter(..).map(..)`
  unfoldable pub drop_candidates : List ℕ → Map ℕ (LxmPeer fl) → List (ℕ × F64)
  unfolding acceptance_rate
  drop_candidates statics [] = []
  drop_candidates statics ((hash, p) ∷ peers) =
      let rest = drop_candidates statics peers in
      if is_droppable statics hash p then (hash, acceptance_rate p) ∷ rest else rest

  -- the lowest rate first, a stable sort
  unfoldable pub insert_lowest : ℕ × F64 → List (ℕ × F64) → List (ℕ × F64)
  insert_lowest x [] = x ∷ []
  insert_lowest x (y ∷ ys) =
      let rest = insert_lowest x ys in if lt y.1 x.1 then y ∷ rest else x ∷ y ∷ ys

  unfoldable pub sort_lowest : List (ℕ × F64) → List (ℕ × F64)
  unfolding insert_lowest
  sort_lowest [] = []
  sort_lowest (x ∷ xs) = insert_lowest x (sort_lowest xs)

  unfoldable pub drop_all : List (ℕ × F64) → LxmRouter fl → LxmRouter fl
  unfolding unpeer
  drop_all [] r = r
  drop_all ((hash, ar) ∷ xs) r = drop_all xs (if lt ar rotation_ar_max then unpeer fl hash r else r)

  unfoldable pub rotate_peers : LxmRouter fl → LxmRouter fl
  unfolding drop_candidates sort_lowest drop_all
  rotate_peers r =
      if nat_beq (required_drops r) 0 || leb (length r.peers) 1
      then r
      else if leb (headroom r) (untested_count r.peers)
      then r
      else drop_all (take (required_drops r) (sort_lowest (drop_candidates r.static_peers r.peers)))
          r

  abbrev cull_to : F64 → Option ℕ → F64 → PropagationStore fl → PropagationStore fl
  cull_to tenth none now s = s
  cull_to tenth (some limit) now s = cull_by_weight fl tenth limit now s

  unfoldable pub cull_propagation : F64 → F64 → LxmRouter fl → LxmRouter fl
  unfolding cull_expired cull_by_weight
  cull_propagation now now' r = record r {
    propagation_store =
        cull_to (decimal fl 1 10) r.config.ext.message_storage_limit now'
          (cull_expired fl message_expiry now r.propagation_store);
  }

  -- `clock` numbers the reads of the clock
  unfoldable pub run_periodic_jobs : (ℕ → F64) → LxmRouter fl → LxmRouter fl
  unfolding clean_transient_caches cull_propagation clean_throttled_peers rotate_peers
  run_periodic_jobs clock r =
      let due : ℕ → Bool = λ interval. nat_beq (r.processing_count % interval) 0 in
      let r1 =
        if due 60
        then record r {
          propagation_store = clean_transient_caches fl (clock 1) r.propagation_store;
        }
        else r in
      let r2 =
        if due 120 && r.config.propagation_enabled
        then cull_propagation (clock 2) (clock 3) r1
        else r1 in
      let r3 = if due 6 then clean_throttled_peers fl (clock 4) r2 else r2 in
      if due (56 * 6) && r.config.propagation_enabled then rotate_peers r3 else r3

  unfoldable pub run_jobs_tick : (ℕ → F64) → LxmRouter fl → LxmRouter fl
  unfolding run_periodic_jobs
  run_jobs_tick clock r =
      if lt (sub (clock 0) r.last_jobs_tick) (mul (of_nat processing_interval) (decimal fl 9 10))
      then r
      else run_periodic_jobs clock (record r {
        last_jobs_tick = clock 0;
        processing_count = (r.processing_count + 1) % 2 ^ 64;
      })
