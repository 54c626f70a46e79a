-- ===== src/Store/Sizes.antt =====
-- The byte count of the store is the sum of its entries' sizes
-- (crates/lxmf-core/src/propagation.rs).
use rs_lxmf.Prelude.{
  ℕ, ◌+◌, ◌≤◌, ◌≡◌, inl, inr, Option, none, some, List, [], ◌∷◌, arith, nat_eq, nat_beq_iff,
  contains, Float, usize_max, Bool-cases, Option-cases, refl, sym,
}
use rs_lxmf.Map
use rs_lxmf.Map.{Map}
use rs_lxmf.Map.Laws.{}
use rs_lxmf.Map.Counts.{IsDistinct, insert-IsDistinct, remove-IsDistinct, remove_absent}
use rs_lxmf.Store.{PropagationEntry, PropagationStore, insert, insert_admitted, remove, remove_all}

module _ (fl : Float) where
  abbrev pub Entries : Type 0
  Entries = Map ℕ (PropagationEntry fl)

  unfoldable pub sum_sizes : Entries → ℕ
  sum_sizes [] = 0
  sum_sizes ((k, e) ∷ m) = e.size + sum_sizes m

  abbrev pub size_of : Option (PropagationEntry fl) → ℕ
  size_of none = 0
  size_of (some e) = e.size

  sum-insert_absent :
      (k : ℕ) (e : PropagationEntry fl) (m : Entries)
      → Map.get k m ≡ none
      → sum_sizes (Map.insert k e m) ≡ e.size + sum_sizes m
  unfolding sum_sizes Map.insert Map.get
  sum-insert_absent k e [] h = refl
  sum-insert_absent k e ((j, x) ∷ m) h = ground (arith, sum-insert_absent k e m)

  pub sum-remove :
      (k : ℕ) (m : Entries)
      → IsDistinct m
      → sum_sizes (Map.remove k m) + size_of (Map.get k m) ≡ sum_sizes m
  unfolding sum_sizes Map.remove Map.get
  sum-remove k [] h = refl
  sum-remove k ((j, x) ∷ m) h =
      ground (arith, sum-remove k m h.1, nat_beq_iff j k, remove_absent k m)

  -- Each id stands once, and the count is the sum of the sizes, which fits a `usize`.
  pub record IsAccounted (s : PropagationStore fl) : Type 0 where
    pub distinct : IsDistinct s.entries
    pub total : s.total_size ≡ sum_sizes s.entries
    pub fits : sum_sizes s.entries ≤ usize_max

  pub remove-entries :
      (id : ℕ) (s : PropagationStore fl) → (remove fl id s).0.entries ≡ Map.remove id s.entries
  unfolding remove
  remove-entries id s = elim (Option-cases (Map.get id s.entries)) [
    | inl e ↦ rw (e, remove) (sym (remove_absent id s.entries e))
    | inr (x, e) ↦ rw (e, remove)
  ]

  remove-IsAccounted :
      (id : ℕ) (s : PropagationStore fl) → IsAccounted s → IsAccounted (remove fl id s).0
  unfolding remove
  remove-IsAccounted id s h = elim (Option-cases (Map.get id s.entries)) [
    | inl e ↦ rw (e, remove) h
    | inr (x, e) ↦
        rw (e, remove)
          (record {
            distinct = remove-IsDistinct id s.entries h.distinct;
            total = ground (arith, sum-remove id s.entries h.distinct, h.total);
            fits = omega (arith, sum-remove id s.entries h.distinct, h.fits);
          })
  ]

  pub remove_all-IsAccounted :
      (ids : List ℕ) (s : PropagationStore fl) → IsAccounted s → IsAccounted (remove_all fl ids s)
  unfolding remove_all
  remove_all-IsAccounted [] s h = h
  remove_all-IsAccounted (id ∷ ids) s h =
      remove_all-IsAccounted ids (remove fl id s).0 (remove-IsAccounted id s h)

  -- Inserting an entry keeps the count exact, accepted or refused, if its id is not in the store (as
  -- the callers must see to) and the new sum fits a `usize`.
  insert-IsAccounted :
      (e : PropagationEntry fl) (s : PropagationStore fl)
      → IsAccounted s
      → Map.get e.transient_id s.entries ≡ none
      → s.total_size + e.size ≤ usize_max
      → IsAccounted (insert fl e s).0
  unfolding insert insert_admitted
  insert-IsAccounted e s h absent room =
      elim (Bool-cases (contains e.destination_hash s.ignored_destinations)) [
        | inl ignored ↦ rw ignored h
        | inr wanted ↦ rw wanted (record {
          distinct = insert-IsDistinct e.transient_id e s.entries h.distinct;
          total = omega (arith, sum-insert_absent e.transient_id e s.entries absent, h.total);
          fits = omega (arith, sum-insert_absent e.transient_id e s.entries absent, h.total);
        })
      ]
