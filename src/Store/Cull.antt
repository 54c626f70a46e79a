-- ===== src/Store/Cull.antt =====
-- The selection and the sort of `cull_by_weight`: which ids, and how many bytes (crates/lxmf-core/src/propagation.rs).
use rs_lxmf.Prelude.{
  ℕ, ◌+◌, ◌%◌, ◌^◌, ◌≤◌, ◌≡◌, inl, inr, false, List, [], ◌∷◌, ◌||◌, arith, nat_eq, nat_beq_iff,
  ◌==◌, contains, Float, usize_max, Bool-cases, Option-cases, refl, ap, ◌∙◌, leb,
}
use rs_lxmf.Map
use rs_lxmf.Map.{Map}
use rs_lxmf.Map.Laws.{get-remove}
use rs_lxmf.Map.Counts.{IsDistinct, remove-IsDistinct}
use rs_lxmf.Store.{PropagationStore, remove, remove_all, select, insert_weighted, sort_weighted}
use rs_lxmf.Store.Sizes.{Entries, sum_sizes, size_of, sum-remove, remove-entries}

abbrev pub NodupIds : List ℕ → Type 0
NodupIds [] = Unit {0}
NodupIds (x ∷ xs) = (contains x xs ≡ false) × NodupIds xs

module _ (fl : Float) where
  open fl use {F64, lt}

  abbrev pub ids : List (ℕ × F64) → List ℕ
  ids [] = []
  ids (x ∷ xs) = x.0 ∷ ids xs

  -- the bytes behind a list of ids
  unfoldable pub total_of : Entries fl → List ℕ → ℕ
  total_of m [] = 0
  total_of m (x ∷ xs) = size_of fl (Map.get x m) + total_of m xs

  total_of-remove :
      (id : ℕ) (m : Entries fl) (xs : List ℕ)
      → contains id xs ≡ false
      → total_of (Map.remove id m) xs ≡ total_of m xs
  unfolding total_of contains
  total_of-remove id m [] h = refl
  total_of-remove id m (x ∷ xs) h =
      ground (arith, get-remove id x m, total_of-remove id m xs, nat_beq_iff id x, nat_beq_iff x id)

  pub removed_sum :
      (xs : List ℕ) (s : PropagationStore fl)
      → NodupIds xs
      → IsDistinct s.entries
      → sum_sizes fl (remove_all fl xs s).entries + total_of s.entries xs ≡ sum_sizes fl s.entries
  unfolding remove_all total_of
  removed_sum [] s n h = omega arith
  removed_sum (x ∷ xs) s n h =
      let e = remove-entries fl x s in
      let r = removed_sum xs (remove fl x s).0 n.1 (rw e (remove-IsDistinct x s.entries h)) in
      omega (
        arith,
        r,
        sum-remove fl x s.entries h,
        total_of-remove x s.entries xs n.0,
        ap (λ m. total_of m xs) e,
        ap (sum_sizes fl) e,
      )

  module _ (needed : ℕ) (m : Entries fl) where
    select_subset :
        (j cleaned : ℕ) (ws : List (ℕ × F64))
        → contains j (ids ws) ≡ false
        → contains j (select fl needed cleaned ws m) ≡ false
    unfolding select contains
    select_subset j cleaned [] h = refl
    select_subset j cleaned ((x, w) ∷ ws) h = elim (Bool-cases (leb needed cleaned)) [
      | inl e ↦ rw (e, select)
      | inr e ↦ elim (Option-cases (Map.get x m)) [
        | inl g ↦ rw (e, select) (rw (g, select) (select_subset j cleaned ws (ground arith)))
        | inr (p, g) ↦
            rw (e, select)
              (rw (g, select) (ground (arith, select_subset j ((cleaned + p.size) % 2 ^ 64) ws)))
      ]
    ]

    pub select-NodupIds :
        (cleaned : ℕ) (ws : List (ℕ × F64))
        → NodupIds (ids ws)
        → NodupIds (select fl needed cleaned ws m)
    unfolding select
    select-NodupIds cleaned [] h = tt
    select-NodupIds cleaned ((x, w) ∷ ws) h = elim (Bool-cases (leb needed cleaned)) [
      | inl e ↦ rw (e, select) tt
      | inr e ↦ elim (Option-cases (Map.get x m)) [
        | inl g ↦ rw (e, select) (rw (g, select) (select-NodupIds cleaned ws h.1))
        | inr (p, g) ↦
            rw (e, select)
              (rw (g, select)
                (
                  select_subset x ((cleaned + p.size) % 2 ^ 64) ws h.0,
                  select-NodupIds ((cleaned + p.size) % 2 ^ 64) ws h.1,
                ))
      ]
    ]

    -- the loop ends with enough bytes, if the list has them
    pub select_enough :
        (cleaned : ℕ) (ws : List (ℕ × F64))
        → cleaned + total_of m (ids ws) ≤ usize_max
        → needed ≤ cleaned + total_of m (ids ws)
        → needed ≤ cleaned + total_of m (select fl needed cleaned ws m)
    unfolding select total_of
    select_enough cleaned [] fits h = h
    select_enough cleaned ((x, w) ∷ ws) fits h = elim (Bool-cases (leb needed cleaned)) [
      | inl e ↦ rw (e, select) (ground arith)
      | inr e ↦ elim (Option-cases (Map.get x m)) [
        | inl g ↦
            rw (e, select) (rw (g, select) (select_enough cleaned ws (ground arith) (ground arith)))
        | inr (p, g) ↦
            let f : cleaned + (p.size + total_of m (ids ws)) ≤ usize_max = rw g at fits in
            let k : needed ≤ cleaned + (p.size + total_of m (ids ws)) = rw g at h in
            let q = select_enough ((cleaned + p.size) % 2 ^ 64) ws (omega arith) (omega arith) in
            rw (e, select) (rw (g, select) (rw g (omega (arith, q))))
      ]
    ]

  module _ (m : Entries fl) where
    insert_weighted-contains :
        (j : ℕ) (x : ℕ × F64) (ws : List (ℕ × F64))
        → contains j (ids (insert_weighted fl x ws)) ≡ (x.0 == j || contains j (ids ws))
    unfolding insert_weighted contains
    insert_weighted-contains j x [] = refl
    insert_weighted-contains j x (y ∷ ys) = ground (arith, insert_weighted-contains j x ys)

    insert_weighted-NodupIds :
        (x : ℕ × F64) (ws : List (ℕ × F64))
        → contains x.0 (ids ws) ≡ false
        → NodupIds (ids ws)
        → NodupIds (ids (insert_weighted fl x ws))
    unfolding insert_weighted contains
    insert_weighted-NodupIds x [] h n = (refl, tt)
    insert_weighted-NodupIds x (y ∷ ys) h n = elim (Bool-cases (lt x.1 y.1)) [
      | inl e ↦ rw e (
        ground (
          arith,
          insert_weighted-contains y.0 x ys,
          nat_beq_iff x.0 y.0,
          nat_beq_iff y.0 x.0,
          n.0,
        ),
        insert_weighted-NodupIds x ys (ground arith) n.1,
      )
      | inr e ↦ rw e (h, n)
    ]

    insert_weighted-total :
        (x : ℕ × F64) (ws : List (ℕ × F64))
        → total_of m (ids (insert_weighted fl x ws)) ≡ total_of m (x.0 ∷ ids ws)
    unfolding insert_weighted total_of
    insert_weighted-total x [] = refl
    insert_weighted-total x (y ∷ ys) = ground (arith, insert_weighted-total x ys)

    sort_weighted-contains :
        (j : ℕ) (ws : List (ℕ × F64)) → contains j (ids (sort_weighted fl ws)) ≡ contains j (ids ws)
    unfolding sort_weighted contains
    sort_weighted-contains j [] = refl
    sort_weighted-contains j (x ∷ ws) =
        insert_weighted-contains j x (sort_weighted fl ws)
        ∙ ap (λ b. x.0 == j || b) (sort_weighted-contains j ws)

    pub sort_weighted-NodupIds :
        (ws : List (ℕ × F64)) → NodupIds (ids ws) → NodupIds (ids (sort_weighted fl ws))
    unfolding sort_weighted
    sort_weighted-NodupIds [] n = tt
    sort_weighted-NodupIds (x ∷ ws) n =
        insert_weighted-NodupIds x (sort_weighted fl ws) (sort_weighted-contains x.0 ws ∙ n.0)
          (sort_weighted-NodupIds ws n.1)

    pub sort_weighted-total :
        (ws : List (ℕ × F64)) → total_of m (ids (sort_weighted fl ws)) ≡ total_of m (ids ws)
    unfolding sort_weighted total_of
    sort_weighted-total [] = refl
    sort_weighted-total (x ∷ ws) =
        insert_weighted-total x (sort_weighted fl ws)
        ∙ ap (λ n. size_of fl (Map.get x.0 m) + n) (sort_weighted-total ws)
