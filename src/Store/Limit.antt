-- ===== src/Store/Limit.antt =====
-- Culling by weight brings the store within its limit (crates/lxmf-core/src/propagation.rs).
use rs_lxmf.Prelude.{
  ℕ, ◌-◌, ◌≤◌, ◌≡◌, inl, inr, false, List, [], ◌∷◌, arith, nat_eq, nat_beq_iff, contains, Float,
  Bool-cases, refl, ◌∙◌, map, leb,
}
use rs_lxmf.Map
use rs_lxmf.Map.Counts.{IsDistinct}
use rs_lxmf.Store.{
  PropagationEntry, PropagationStore, select, weighted, compute_weight, cull_by_weight,
}
use rs_lxmf.Store.Sizes.{Entries, sum_sizes, size_of, IsAccounted, remove_all-IsAccounted}
use rs_lxmf.Store.Cull.{
  NodupIds, ids, total_of, removed_sum, select-NodupIds, select_enough, sort_weighted-NodupIds,
  sort_weighted-total,
}

module _ (fl : Float) where
  open fl use {F64}

  module _ (weight : PropagationEntry fl → F64) where
    abbrev weigh : Entries fl → List (ℕ × F64)
    weigh m = map (λ x. (x.0, weight x.1)) m

    weigh-contains : (j : ℕ) (m : Entries fl) → contains j (ids fl (weigh m)) ≡ Map.contains_key j m
    unfolding contains Map.get
    weigh-contains j [] = refl
    weigh-contains j ((k, e) ∷ m) = ground (arith, weigh-contains j m)

    weigh-NodupIds : (m : Entries fl) → IsDistinct m → NodupIds (ids fl (weigh m))
    weigh-NodupIds [] h = tt
    weigh-NodupIds ((k, e) ∷ m) h = (weigh-contains k m ∙ h.0, weigh-NodupIds m h.1)

    total_of_cons :
        (k : ℕ) (e : PropagationEntry fl) (m : Entries fl) (xs : List ℕ)
        → contains k xs ≡ false
        → total_of fl ((k, e) ∷ m) xs ≡ total_of fl m xs
    unfolding total_of contains Map.get
    total_of_cons k e m [] h = refl
    total_of_cons k e m (x ∷ xs) h =
        ground (arith, total_of_cons k e m xs, nat_beq_iff k x, nat_beq_iff x k)

    weigh-total :
        (m : Entries fl) → IsDistinct m → total_of fl m (ids fl (weigh m)) ≡ sum_sizes fl m
    unfolding total_of sum_sizes
    weigh-total [] h = refl
    weigh-total ((k, e) ∷ m) h = omega (
      arith,
      total_of_cons k e m (ids fl (weigh m)) (weigh-contains k m ∙ h.0),
      weigh-total m h.1,
      found k e m,
    )
      where
        found :
            (k : ℕ) (e : PropagationEntry fl) (m : Entries fl)
            → size_of fl (Map.get k ((k, e) ∷ m)) ≡ e.size
        found k e m = unfold Map.get in rw ((nat_beq_iff k k).1 refl)

  -- After a cull by weight the store's bytes are within the limit, whatever the weights, and the
  -- count is still exact.
  pub cull_by_weight-le-limit :
      (tenth : F64) (limit : ℕ) (now : F64) (s : PropagationStore fl)
      → IsAccounted fl s
      → ((cull_by_weight fl tenth limit now s).total_size ≤ limit)
        × IsAccounted fl (cull_by_weight fl tenth limit now s)
  unfolding cull_by_weight
  cull_by_weight-le-limit tenth limit now s h = elim (Bool-cases (leb s.total_size limit)) [
    | inl small ↦ rw small (ground arith, h)
    | inr large ↦ rw large (
        let needed = s.total_size - limit in
        let ws = weighted fl tenth now s in
        let chosen = select fl needed 0 ws s.entries in
        let all = sort_total in
        let a = remove_all-IsAccounted fl chosen s h in
        let r =
          removed_sum fl chosen s (select-NodupIds fl needed s.entries 0 ws sort_distinct)
            h.distinct in
        let q =
          select_enough fl needed s.entries 0 ws (omega (arith, all, h.fits))
            (omega (arith, all, h.total)) in
        (omega (arith, a.total, r, q, h.total), a))
  ]
    where
      sort_total : total_of fl s.entries (ids fl (weighted fl tenth now s)) ≡ sum_sizes fl s.entries
      sort_total =
          unfold weighted in
          sort_weighted-total fl s.entries _
          ∙ weigh-total (λ e. compute_weight fl tenth e now s) s.entries h.distinct

      sort_distinct : NodupIds (ids fl (weighted fl tenth now s))
      sort_distinct =
          unfold weighted in
          sort_weighted-NodupIds fl s.entries _
            (weigh-NodupIds (λ e. compute_weight fl tenth e now s) s.entries h.distinct)
