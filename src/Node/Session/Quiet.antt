-- ===== src/Node/Session/Quiet.antt =====
-- What a pass of the loop that prepares an offer sees while no entries are retired
-- (crates/lxmf-core/src/propagation_node.rs).
use rs_lxmf.Prelude.{
  ℕ, ◌+◌, ◌≤◌, ◌≡◌, refl, ap, Bool, true, false, not, List, [], ◌∷◌, map, nat_eq, nat_beq_iff, any,
  count, filter, In, here, there, Float, arith,
}
use rs_lxmf.Map
use rs_lxmf.Map.{Map}
use rs_lxmf.Node.{SyncOfferCandidate, PreparedSyncOffer, prepare_sync_offer_snapshot}
use rs_lxmf.Node.Chosen.{Part, nothing, leave, pick}
use rs_lxmf.Node.Order.{IsTotalOrder}
use rs_lxmf.Node.Selection.{prepare_sync_offer_snapshot_lem}
use rs_lxmf.Node.Session.{
  RetiredEntries, PropagationNode, eligible, eligible_entries, is_stored, is_stale, any_missing,
  candidate, snapshot_sync_offer_preparation, after_entries,
}
use rs_lxmf.Peer.Announce.{OutboundOfferPolicy}
use rs_lxmf.Store.{PropagationEntry}
use rs_lxmf.Sync.{}

module _ {ℓ} {A : Type ℓ} (q : A → Bool) where
  count-Part : {xs ys : List A} → Part xs ys → count q xs ≤ count q ys
  unfolding count
  count-Part nothing = omega arith
  count-Part (leave h) = omega (arith, count-Part h)
  count-Part (pick h) = omega (arith, count-Part h)

  count-filter_le : (p : A → Bool) (xs : List A) → count q (filter p xs) ≤ count q xs
  unfolding count filter
  count-filter_le p [] = omega arith
  count-filter_le p (x ∷ xs) = ground (arith, count-filter_le p xs)

module _ (fl : Float) where
  open fl use {F64}

  -- every entry stands under its own id
  abbrev pub IsKeyed : PropagationNode fl → Type 0
  IsKeyed node =
      (k : ℕ) (e : PropagationEntry fl) → In (k, e) node.store.entries → e.transient_id ≡ k

  In-contains_key :
      (k : ℕ) (e : PropagationEntry fl) (m : Map ℕ (PropagationEntry fl))
      → In (k, e) m
      → Map.contains_key k m ≡ true
  unfolding Map.get
  In-contains_key k e [] h = elim h [ ]
  In-contains_key k e ((j, v) ∷ m) (here h) = ground (arith, (nat_beq_iff j k).1 (ap (λ x. x.0) h))
  In-contains_key k e ((j, v) ∷ m) (there h) = ground (arith, In-contains_key k e m h)

  -- what a pass sees while nothing is retired
  module _ (w : RetiredEntries) (node : PropagationNode fl) (tenth now : F64) where
    eligible_entries-filter :
        (seen : ℕ → RetiredEntries) (k : ℕ) (xs : Map ℕ (PropagationEntry fl))
        → ((j : ℕ) → k ≤ j → seen j ≡ w)
        → eligible_entries fl seen k node xs ≡ filter (λ x. eligible fl x.1.transient_id w node) xs
    unfolding eligible_entries filter
    eligible_entries-filter seen k [] h = refl
    eligible_entries-filter seen k (x ∷ xs) h =
        rw
          (
            h k (omega arith),
            eligible_entries-filter seen (k + 1) xs (λ j q. h j (omega (arith, q))),
          )
          refl

    any_missing-any :
        (seen : ℕ → RetiredEntries) (k : ℕ) (ids : List ℕ)
        → ((j : ℕ) → k ≤ j → seen j ≡ w)
        → any_missing fl seen k node ids ≡ any (λ id. not (is_stored fl id w node)) ids
    unfolding any_missing any
    any_missing-any seen k [] h = refl
    any_missing-any seen k (id ∷ ids) h =
        rw (h k (omega arith), any_missing-any seen (k + 1) ids (λ j q. h j (omega (arith, q))))
          refl

    abbrev is_missing : SyncOfferCandidate fl → Bool
    is_missing c = not (is_stored fl c.transient_id w node)

    count-candidates :
        (xs : Map ℕ (PropagationEntry fl))
        → ((k : ℕ) (e : PropagationEntry fl)
            → In (k, e) xs
            → Map.contains_key e.transient_id node.store.entries ≡ true)
        → count is_missing (
            map
              (candidate fl tenth now node.store)
              (filter (λ x. eligible fl x.1.transient_id w node) xs))
          ≡ 0
    unfolding count filter
    count-candidates [] h = refl
    count-candidates ((k, e) ∷ xs) h =
        let rest = count-candidates xs (λ j d i. h j d (there i)) in
        ground (arith, h k e (here refl), rest)

    any-missing :
        (cs : List (SyncOfferCandidate fl))
        → count is_missing cs ≡ 0
        → any (λ id. not (is_stored fl id w node)) (map (λ c. c.transient_id) cs) ≡ false
    unfolding count any
    any-missing [] h = refl
    any-missing (c ∷ cs) h = ground (arith, h, any-missing cs)

  -- the look where the installation of a pass begins
  abbrev pub install_look : ℕ → PropagationNode fl → ℕ
  install_look k node = after_entries fl k node + 1

  module _ (total_lt : F64 → F64 → Bool) (floor : F64 → ℕ) (tenth : F64) where
    -- the offer that the pass from look `k` on prepares
    abbrev pub prepared_at :
        List ℕ
        → OutboundOfferPolicy fl
        → F64
        → (ℕ → RetiredEntries)
        → ℕ
        → PropagationNode fl
        → PreparedSyncOffer fl
    prepared_at from_file policy now seen k node =
        prepare_sync_offer_snapshot fl total_lt floor from_file
          (snapshot_sync_offer_preparation fl tenth policy now seen k node)

    -- the offer is not stale when the pass installs it
    pub not_stale :
        IsTotalOrder total_lt
        → (from_file : List ℕ) (policy : OutboundOfferPolicy fl) (now : F64)
          (seen : ℕ → RetiredEntries) (k : ℕ) (node : PropagationNode fl)
        → IsKeyed node
        → ((j : ℕ) → k ≤ j → seen j ≡ seen k)
        → is_stale fl seen (install_look k node) (prepared_at from_file policy now seen k node) node
          ≡ false
    unfolding prepare_sync_offer_snapshot snapshot_sync_offer_preparation
    not_stale order from_file policy now seen k node keyed quiet =
        let w = seen k in
        let look = install_look k node in
        let snapshot = snapshot_sync_offer_preparation fl tenth policy now seen k node in
        let o = prepare_sync_offer_snapshot_lem fl total_lt floor order from_file snapshot in
        let q = is_missing w node tenth now in
        let found_all = eligible_entries-filter w node tenth now seen k node.store.entries quiet in
        let none_missing : count q snapshot.candidates ≡ 0 = rw found_all (
          count-candidates w node tenth now node.store.entries
            (λ k e i. rw (keyed k e i) (In-contains_key k e node.store.entries i))) in
        let z : count q o.chosen ≡ 0 =
          omega
            (arith, count-Part q o.part, count-filter_le q _ o.sorted, o.same q, none_missing) in
        let found = any-missing w node tenth now o.chosen z in
        let looked =
          any_missing-any w node tenth now seen (look + 1)
            (prepared_at from_file policy now seen k node).selected_ids
            (λ j h. quiet j (omega (arith, h))) in
        let e1 = quiet look (omega arith) in
        let e2 = quiet (after_entries fl k node) (omega arith) in
        let missing : any_missing fl seen (look + 1) node
              (prepared_at from_file policy now seen k node).selected_ids
            ≡ false =
          rw (looked, o.ids) found in
        ground (arith, e1, e2, missing)
