-- ===== src/Node/Order.antt =====
-- The candidates of an offer in order of weight (crates/lxmf-core/src/propagation_node.rs).
use rs_lxmf.Prelude.{
  ℕ, ◌≤◌, ◌≡◌, ◌⊎◌, inl, inr, refl, Bool, true, false, Bool-cases, List, [], ◌∷◌, count, filter, In,
  In-cons, In-nil, In-filter, here, there, Float, arith,
}
use rs_lxmf.Node.{SyncOfferCandidate, is_before, insert_candidate, sort_candidates}
use rs_lxmf.Node.Chosen.{Part, nothing, leave, pick}

-- A documented law of `total_cmp`: it is a total order. Two floats of which neither is less are the
-- same to it.
pub record IsTotalOrder {ℓ} {A : Type ℓ} (less : A → A → Bool) : Type ℓ where
  pub asym : (a b : A) → less a b ≡ true → less b a ≡ false
  pub trans : (a b c : A) → less a b ≡ false → less b c ≡ false → less a c ≡ false

In-Part {ℓ} : {A : Type ℓ} {a : A} {xs ys : List A} → Part xs ys → In a xs → In a ys
In-Part nothing h = h
In-Part (leave q) h = there (In-Part q h)
In-Part (pick q) h = elim (In-cons h) [ inl e ↦ here e | inr l ↦ there (In-Part q l) ]

module _ (fl : Float) where
  open fl use {F64}

  module _ (total_lt : F64 → F64 → Bool) (floor : F64 → ℕ) where
    -- A candidate may stand before another: it is no heavier, and where they weigh the same its id is
    -- no larger.
    abbrev pub Precedes : SyncOfferCandidate fl → SyncOfferCandidate fl → Type 0
    Precedes c d =
        (total_lt d.weight c.weight ≡ false)
        × (total_lt c.weight d.weight ≡ false → c.transient_id ≤ d.transient_id)

    -- each candidate may stand before all those after it
    abbrev pub IsOrdered : List (SyncOfferCandidate fl) → Type 0
    IsOrdered [] = Unit {0}
    IsOrdered (c ∷ cs) = ((d : SyncOfferCandidate fl) → In d cs → Precedes c d) × IsOrdered cs

    count-insert_candidate :
        (p : SyncOfferCandidate fl → Bool) (c : SyncOfferCandidate fl)
        (ds : List (SyncOfferCandidate fl))
        → count p (insert_candidate fl total_lt floor c ds) ≡ count p (c ∷ ds)
    unfolding insert_candidate count
    count-insert_candidate p c [] = refl
    count-insert_candidate p c (d ∷ ds) = ground (arith, count-insert_candidate p c ds)

    pub count-sort_candidates :
        (p : SyncOfferCandidate fl → Bool) (cs : List (SyncOfferCandidate fl))
        → count p (sort_candidates fl total_lt floor cs) ≡ count p cs
    unfolding sort_candidates count
    count-sort_candidates p [] = refl
    count-sort_candidates p (c ∷ cs) = omega (
      arith,
      count-insert_candidate p c (sort_candidates fl total_lt floor cs),
      count-sort_candidates p cs,
    )

    IsOrdered-filter :
        (p : SyncOfferCandidate fl → Bool) (cs : List (SyncOfferCandidate fl))
        → IsOrdered cs
        → IsOrdered (filter p cs)
    unfolding filter
    IsOrdered-filter p [] h = h
    IsOrdered-filter p (c ∷ cs) h = elim (Bool-cases (p c)) [
      | inl e ↦ rw e (λ d i. h.0 d (In-filter p cs i).0, IsOrdered-filter p cs h.1)
      | inr e ↦ rw e (IsOrdered-filter p cs h.1)
    ]

    IsOrdered-Part :
        {cs ds : List (SyncOfferCandidate fl)} → Part cs ds → IsOrdered ds → IsOrdered cs
    IsOrdered-Part nothing h = h
    IsOrdered-Part (leave q) h = IsOrdered-Part q h.1
    IsOrdered-Part (pick q) h = (λ d i. h.0 d (In-Part q i), IsOrdered-Part q h.1)

    -- so are the ones that a selection takes from an ordered list
    pub IsOrdered-chosen :
        (p : SyncOfferCandidate fl → Bool) (cs : List (SyncOfferCandidate fl))
        {chosen : List (SyncOfferCandidate fl)}
        → Part chosen (filter p cs)
        → IsOrdered cs
        → IsOrdered chosen
    IsOrdered-chosen p cs q h = IsOrdered-Part q (IsOrdered-filter p cs h)

    module _ (order : IsTotalOrder total_lt) where
      Precedes-trans : (c d e : SyncOfferCandidate fl) → Precedes c d → Precedes d e → Precedes c e
      Precedes-trans c d e (cd, cd_ids) (de, de_ids) = (
        order.trans e.weight d.weight c.weight de cd,
        λ ce. omega (
          arith,
          cd_ids (order.trans c.weight e.weight d.weight ce de),
          de_ids (order.trans d.weight c.weight e.weight cd ce),
        ),
      )

      is_before-Precedes :
          (c d : SyncOfferCandidate fl) → is_before fl total_lt floor c d ≡ true → Precedes c d
      is_before-Precedes c d h = ground (arith, h, order.asym c.weight d.weight)

      later-Precedes :
          (c d : SyncOfferCandidate fl) → is_before fl total_lt floor c d ≡ false → Precedes d c
      later-Precedes c d h = ground (arith, h)

      In-insert_candidate :
          (a c : SyncOfferCandidate fl) (ds : List (SyncOfferCandidate fl))
          → In a (insert_candidate fl total_lt floor c ds)
          → (c ≡ a) ⊎ In a ds
      unfolding insert_candidate
      In-insert_candidate a c [] h = In-cons h
      In-insert_candidate a c (d ∷ ds) h = elim (Bool-cases (is_before fl total_lt floor d c)) [
        | inl lower ↦ elim (In-cons (rw (lower, insert_candidate) at h)) [
          | inl e ↦ inr (here e)
          | inr l ↦ elim (In-insert_candidate a c ds l) [ inl e ↦ inl e | inr q ↦ inr (there q) ]
        ]
        | inr higher ↦ In-cons (rw (higher, insert_candidate) at h)
      ]

      IsOrdered-insert_candidate :
          (c : SyncOfferCandidate fl) (ds : List (SyncOfferCandidate fl))
          → IsOrdered ds
          → IsOrdered (insert_candidate fl total_lt floor c ds)
      unfolding insert_candidate
      IsOrdered-insert_candidate c [] h = (λ d i. absurd (In-nil i), tt)
      IsOrdered-insert_candidate c (d ∷ ds) h =
          elim (Bool-cases (is_before fl total_lt floor d c)) [
            | inl lower ↦
                rw (lower, insert_candidate)
                  (
                    λ a i. elim (In-insert_candidate a c ds i) [
                      | inl e ↦ rw (← e) (is_before-Precedes d c lower)
                      | inr later ↦ h.0 a later
                    ],
                    IsOrdered-insert_candidate c ds h.1,
                  )
            | inr higher ↦
                let cd = later-Precedes d c higher in
                rw (higher, insert_candidate)
                  (
                    λ a i. elim (In-cons i) [
                      | inl e ↦ rw (← e) cd
                      | inr later ↦ Precedes-trans c d a cd (h.0 a later)
                    ],
                    h,
                  )
          ]

      pub sort_candidates-IsOrdered :
          (cs : List (SyncOfferCandidate fl)) → IsOrdered (sort_candidates fl total_lt floor cs)
      unfolding sort_candidates
      sort_candidates-IsOrdered [] = tt
      sort_candidates-IsOrdered (c ∷ cs) =
          IsOrdered-insert_candidate c (sort_candidates fl total_lt floor cs)
            (sort_candidates-IsOrdered cs)
