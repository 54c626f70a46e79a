-- ===== src/Node/Selection.antt =====
-- Which messages an offer to a peer selects (crates/lxmf-core/src/propagation_node.rs).
use rs_lxmf.Prelude.{
  ℕ, ◌+◌, ◌≤◌, ◌<◌, ◌≡◌, ◌⊎◌, inl, inr, ◌≢◌, refl, ap, ◌∙◌, sym, Bool, true, false, not, Bool-cases,
  ◌||◌, none, some, List, [], ◌∷◌, map, count, filter, nat_eq, usize_max, Float, arith,
}
use rs_lxmf.Node.{
  SyncOfferCandidate, SyncOfferPreparation, PreparedSyncOffer, select_candidates, sort_candidates,
  limits_of, limit_in_bytes, kilobytes_to_bytes_fail_closed, prepare_sync_offer_snapshot, is_nil,
}
use rs_lxmf.Node.Chosen.{Part, is_fit, is_terminal, sum_sizes, select_candidates-IsSelection}
use rs_lxmf.Node.Order.{
  IsTotalOrder, IsOrdered, IsOrdered-chosen, count-sort_candidates, sort_candidates-IsOrdered,
}

module _ (fl : Float) where
  open fl use {F64}

  module _ (total_lt : F64 → F64 → Bool) (floor : F64 → ℕ) where
    -- what an offer prepared from a snapshot has to be
    pub record IsOffer (from_file : List ℕ) (p : SyncOfferPreparation fl) (o : PreparedSyncOffer fl)
        : Type 0 where
      pub sorted : List (SyncOfferCandidate fl)
      pub chosen : List (SyncOfferCandidate fl)
      pub same : (q : SyncOfferCandidate fl → Bool) → count q sorted ≡ count q p.candidates
      pub part :
          Part chosen (filter (is_fit fl (limits_of fl total_lt floor from_file p.policy)) sorted)
      pub in_order : IsOrdered fl total_lt floor chosen
      pub ids : o.selected_ids ≡ map (λ c. c.transient_id) chosen
      pub handled :
          o.terminal_handled_ids
          ≡ map
              (λ c. c.transient_id)
              (filter (is_terminal fl (limits_of fl total_lt floor from_file p.policy)) sorted)
      pub bounded :
          (kilobytes : F64)
          → p.policy.propagation_sync_limit ≡ some kilobytes
          → (chosen ≡ [])
            ⊎ (24 + sum_sizes fl chosen
                < kilobytes_to_bytes_fail_closed fl total_lt floor kilobytes)
      pub unlimited :
          p.policy.propagation_sync_limit ≡ none
          → chosen ≡ filter (is_fit fl (limits_of fl total_lt floor from_file p.policy)) sorted
      pub left_over :
          o.generation_exhausted ≡ false
          → (o.selected_ids ≢ [])
            × ((limit : ℕ) × (limit_in_bytes fl total_lt floor p.policy.propagation_sync_limit
                  ≡ some limit)
                × (limit
                    ≤ 24
                      + sum_sizes fl (
                          filter
                            (is_fit fl (limits_of fl total_lt floor from_file p.policy))
                            sorted)))

    not_exhausted :
        (more : Bool) (ids : List ℕ)
        → (not more || is_nil fl total_lt floor ids) ≡ false
        → (more ≡ true) × (ids ≢ [])
    not_exhausted true [] h = absurd (ground (arith, h))
    not_exhausted true (id ∷ ids) h = (refl, λ e. absurd (ground (arith, e)))
    not_exhausted false ids h = absurd (ground (arith, h))

    bytes-le :
        (kilobytes : F64) → kilobytes_to_bytes_fail_closed fl total_lt floor kilobytes ≤ usize_max
    unfolding kilobytes_to_bytes_fail_closed
    bytes-le kilobytes = ground arith

    -- An offer's ids are those of chosen candidates that the peer has not handled, whose stamp meets its
    -- minimum and whose size meets its transfer limit, in order of weight, those of one weight
    -- in order of id; with 16 bytes for each
    -- and 24 for the whole they stay below its sync limit, if any are chosen. The unhandled candidates
    -- that fail the minimum or the transfer limit are reported as handled. Without a sync limit all
    -- fitting ones are chosen; a generation that is not exhausted has an offer that is not empty, and
    -- fitting candidates that together reach the limit. The order of weights is a total one.
    pub prepare_sync_offer_snapshot_lem :
        IsTotalOrder total_lt
        → (from_file : List ℕ) (p : SyncOfferPreparation fl)
        → IsOffer from_file p (prepare_sync_offer_snapshot fl total_lt floor from_file p)
    unfolding prepare_sync_offer_snapshot
    prepare_sync_offer_snapshot_lem order from_file p =
        let l = limits_of fl total_lt floor from_file p.policy in
        let cs = sort_candidates fl total_lt floor p.candidates in
        let s = select_candidates fl l 24 cs in
        let r = select_candidates-IsSelection fl l 24 cs in
        record {
          sorted = cs;
          chosen = r.chosen;
          same = λ q. count-sort_candidates fl total_lt floor q p.candidates;
          part = r.part;
          in_order =
              IsOrdered-chosen fl total_lt floor (is_fit fl l) cs r.part
                (sort_candidates-IsOrdered fl total_lt floor order p.candidates);
          ids = r.ids;
          handled = r.handled;
          bounded = λ kilobytes h.
              r.bounded (kilobytes_to_bytes_fail_closed fl total_lt floor kilobytes)
                (ap (limit_in_bytes fl total_lt floor) h) (bytes-le kilobytes);
          unlimited = λ h. elim (Bool-cases s.cumulative_deferred) [
            | inl more ↦
                let o = r.overflows more in
                let no_limit : none ≡ some o.0 =
                  sym (ap (limit_in_bytes fl total_lt floor) h) ∙ o.1 in
                absurd (ground (arith, no_limit))
            | inr all ↦ r.complete all
          ];
          left_over = λ h.
              let more = not_exhausted s.cumulative_deferred s.selected_ids h in
              (more.1, r.overflows more.0);
        }
