-- ===== src/Tests/Storage.antt =====
-- The message index of crates/lxmf-core/src/propagation.rs on concrete inputs.
use rs_lxmf.Prelude.{ℕ, ◌+◌, ◌≤◌, ◌≡◌, true, false, [], ◌∷◌, arith, nat_eq, refl, contains}
use rs_lxmf.Map
use rs_lxmf.Store.{
  PropagationEntry, PropagationStore, new, cull_by_weight, compute_weight, weighted, sort_weighted,
  insert_weighted, select, remove_all, remove,
}
use rs_lxmf.Store.Sizes.{IsAccounted, sum_sizes}
use rs_lxmf.Store.Limit.{cull_by_weight-le-limit}
use rs_lxmf.Tests.Numbers.{whole}

abbrev entry : ℕ → ℕ → PropagationEntry whole
entry id size = record {
  transient_id = id;
  message_hash = id + 100;
  destination_hash = 5;
  stored_at = 0;
  stamp_value = 16;
  size = size;
  collected = false;
  stamped = true;
}

abbrev two_entries : PropagationStore whole
two_entries = record (new whole) {
  entries = (1, entry 1 300) ∷ (2, entry 2 500) ∷ [];
  total_size = 800;
}

-- the larger of two entries of one age goes
cull_runs : (cull_by_weight whole 0 600 10 two_entries).entries ≡ (1, entry 1 300) ∷ []
unfolding cull_by_weight weighted compute_weight sort_weighted insert_weighted select remove_all
    remove Map.get Map.remove contains
cull_runs = refl

two_entries-IsAccounted : IsAccounted whole two_entries
unfolding sum_sizes Map.get
two_entries-IsAccounted = record { distinct = (refl, (refl, tt)); total = refl; fits = omega arith }

cull_by_weight-le-limit_example :
    ((cull_by_weight whole 0 600 10 two_entries).total_size ≤ 600)
    × IsAccounted whole (cull_by_weight whole 0 600 10 two_entries)
cull_by_weight-le-limit_example =
    cull_by_weight-le-limit whole 0 600 10 two_entries two_entries-IsAccounted
