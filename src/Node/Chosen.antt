-- ===== src/Node/Chosen.antt =====
-- The loop over the candidates of an offer to a peer (crates/lxmf-core/src/propagation_node.rs).
use rs_lxmf.Prelude.{
  ℕ, ◌+◌, ◌≤◌, ◌<◌, min, ◌≡◌, ◌⊎◌, inl, inr, refl, ap, Bool, true, false, not, Bool-cases, ◌&&◌,
  ◌||◌, Option, none, some, List, [], ◌∷◌, map, filter, contains, nat_eq, ltb, usize_max,
  saturating_add, Float, arith,
}
use rs_lxmf.Node.{
  SyncOfferCandidate, Limits, Selected, Disposition, known, terminal, deferred, selected,
  disposition, select_candidates, transfer_size, exceeds, reaches,
}

-- some of the entries of a list, in its order
pub data Part {ℓ} {A : Type ℓ} : List A → List A → Type ℓ where
  nothing : Part [] []
  leave : {x : A} {xs ys : List A} → Part xs ys → Part xs (x ∷ ys)
  pick : {x : A} {xs ys : List A} → Part xs ys → Part (x ∷ xs) (x ∷ ys)

module _ (fl : Float) where
  open fl use {F64}

  -- an unhandled message that the peer will never take, and one that it may take
  abbrev pub is_unfit : Limits fl → SyncOfferCandidate fl → Bool
  is_unfit l c =
      ltb c.stamp_value l.minimum_stamp_cost || exceeds fl l.transfer_limit (transfer_size fl c)

  abbrev pub is_terminal : Limits fl → SyncOfferCandidate fl → Bool
  is_terminal l c = not (contains c.transient_id l.handled_messages) && is_unfit l c

  abbrev pub is_fit : Limits fl → SyncOfferCandidate fl → Bool
  is_fit l c = not (contains c.transient_id l.handled_messages) && not (is_unfit l c)

  unfoldable pub sum_sizes : List (SyncOfferCandidate fl) → ℕ
  sum_sizes [] = 0
  sum_sizes (c ∷ cs) = transfer_size fl c + sum_sizes cs

  -- The candidates that a selection from a start size on has chosen: fitting ones in order; together
  -- below the limit; all of them, unless the fitting ones together reach the limit.
  pub record IsSelection (l : Limits fl) (size : ℕ) (cs : List (SyncOfferCandidate fl))
      (s : Selected fl) : Type 0 where
    pub chosen : List (SyncOfferCandidate fl)
    pub part : Part chosen (filter (is_fit l) cs)
    pub ids : s.selected_ids ≡ map (λ c. c.transient_id) chosen
    pub handled : s.terminal_handled_ids ≡ map (λ c. c.transient_id) (filter (is_terminal l) cs)
    pub bounded :
        (limit : ℕ)
        → l.sync_limit ≡ some limit
        → limit ≤ usize_max
        → (chosen ≡ []) ⊎ (size + sum_sizes chosen < limit)
    pub complete : s.cumulative_deferred ≡ false → chosen ≡ filter (is_fit l) cs
    pub overflows :
        s.cumulative_deferred ≡ true
        → ((limit : ℕ) × (l.sync_limit ≡ some limit)
            × (limit ≤ size + sum_sizes (filter (is_fit l) cs)))

  -- what each way through a round says of a candidate
  Round : Limits fl → ℕ → SyncOfferCandidate fl → Disposition fl → Type 0
  Round l size c known = (is_fit l c ≡ false) × (is_terminal l c ≡ false)
  Round l size c terminal = (is_fit l c ≡ false) × (is_terminal l c ≡ true)
  Round l size c deferred =
      (is_fit l c ≡ true)
      × (is_terminal l c ≡ false)
      × ((limit : ℕ) × (l.sync_limit ≡ some limit) × (limit ≤ size + transfer_size fl c))
  Round l size c selected =
      (is_fit l c ≡ true)
      × (is_terminal l c ≡ false)
      × ((limit : ℕ)
          → l.sync_limit ≡ some limit
          → limit ≤ usize_max
          → size + transfer_size fl c < limit)

  -- the last test of a round, on an unhandled message that is not unfit
  reached :
      (found : Option ℕ) (n : ℕ)
      → reaches fl found (min n usize_max) ≡ true
      → (limit : ℕ) × (found ≡ some limit) × (limit ≤ n)
  reached none n e = absurd (ground (arith, e))
  reached (some limit) n e = (limit, refl, ground (arith, e))

  not_reached :
      (found : Option ℕ) (n : ℕ)
      → reaches fl found (min n usize_max) ≡ false
      → (limit : ℕ) → found ≡ some limit
      → limit ≤ usize_max
      → n < limit
  not_reached found n e limit h small = ground (arith, rw h at e, small)

  disposition-Round :
      (l : Limits fl) (size : ℕ) (c : SyncOfferCandidate fl)
      → Round l size c (disposition fl l size c)
  unfolding disposition Round
  disposition-Round l size c = elim (Bool-cases (contains c.transient_id l.handled_messages)) [
    | inl old ↦ rw old (ground arith, ground arith)
    | inr new ↦ elim (Bool-cases (ltb c.stamp_value l.minimum_stamp_cost)) [
      | inl cheap ↦ rw new (rw cheap (ground arith, ground arith))
      | inr stamped ↦ elim (Bool-cases (exceeds fl l.transfer_limit (transfer_size fl c))) [
        | inl large ↦ rw new (rw stamped (rw large (ground arith, ground arith)))
        | inr small ↦
            elim (Bool-cases
              (reaches fl l.sync_limit (saturating_add usize_max size (transfer_size fl c)))) [
                | inl full ↦ rw new (
                    rw stamped (
                      rw small (
                        rw full (
                          ground arith,
                          ground arith,
                          reached l.sync_limit (size + transfer_size fl c) full,
                        ))))
                | inr room ↦ rw new (
                    rw stamped (
                      rw small (
                        rw room (
                          ground arith,
                          ground arith,
                          not_reached l.sync_limit (size + transfer_size fl c) room,
                        ))))
              ]
      ]
    ]
  ]

  -- one round more, by its way
  step-IsSelection :
      (l : Limits fl) (size : ℕ) (c : SyncOfferCandidate fl) (cs : List (SyncOfferCandidate fl))
      (d : Disposition fl)
      → disposition fl l size c ≡ d
      → Round l size c d
      → ((n : ℕ) → IsSelection l n cs (select_candidates fl l n cs))
      → IsSelection l size (c ∷ cs) (select_candidates fl l size (c ∷ cs))
  unfolding select_candidates Round filter sum_sizes
  step-IsSelection l size c cs known e (fit, final) rest =
      let r = rest size in
      rw (e, select_candidates)
        (record {
          chosen = r.chosen;
          part = rw fit r.part;
          ids = r.ids;
          handled = rw final r.handled;
          bounded = r.bounded;
          complete = λ no. rw fit (r.complete no);
          overflows = λ yes. rw fit (r.overflows yes);
        })
  step-IsSelection l size c cs terminal e (fit, final) rest =
      let r = rest size in
      rw (e, select_candidates)
        (record {
          chosen = r.chosen;
          part = rw fit r.part;
          ids = r.ids;
          handled = rw final (ap (λ ids. c.transient_id ∷ ids) r.handled);
          bounded = r.bounded;
          complete = λ no. rw fit (r.complete no);
          overflows = λ yes. rw fit (r.overflows yes);
        })
  step-IsSelection l size c cs deferred e (fit, final, (limit, h, full)) rest =
      let r = rest size in
      rw (e, select_candidates)
        (record {
          chosen = r.chosen;
          part = rw fit (leave r.part);
          ids = r.ids;
          handled = rw final r.handled;
          bounded = r.bounded;
          complete = λ no. absurd (ground (arith, no));
          overflows = λ yes. (limit, h, rw fit (omega (arith, full)));
        })
  step-IsSelection l size c cs selected e (fit, final, room) rest =
      let r = rest (saturating_add usize_max size (transfer_size fl c)) in
      rw (e, select_candidates)
        (record {
          chosen = c ∷ r.chosen;
          part = rw fit (pick r.part);
          ids = ap (λ ids. c.transient_id ∷ ids) r.ids;
          handled = rw final r.handled;
          bounded = λ limit h small. inr (elim (r.bounded limit h small) [
            | inl empty ↦ rw empty (omega (arith, room limit h small))
            | inr below ↦ omega (arith, below, room limit h small)
          ]);
          complete = λ no. rw fit (ap (λ cs. c ∷ cs) (r.complete no));
          overflows = λ yes. let o = r.overflows yes in (o.0, o.1, rw fit (omega (arith, o.2)));
        })

  -- The loop over the candidates makes a selection, whatever the size that it starts from.
  pub select_candidates-IsSelection :
      (l : Limits fl) (size : ℕ) (cs : List (SyncOfferCandidate fl))
      → IsSelection l size cs (select_candidates fl l size cs)
  unfolding select_candidates filter
  select_candidates-IsSelection l size [] = record {
    chosen = [];
    part = nothing;
    ids = refl;
    handled = refl;
    bounded = λ limit h small. inl refl;
    complete = λ no. refl;
    overflows = λ yes. absurd (ground (arith, yes));
  }
  select_candidates-IsSelection l size (c ∷ cs) =
      step-IsSelection l size c cs (disposition fl l size c) refl (disposition-Round l size c)
        (λ n. select_candidates-IsSelection l n cs)
