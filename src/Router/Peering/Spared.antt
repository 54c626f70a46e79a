-- ===== src/Router/Peering/Spared.antt =====
-- Which peers a rotation may drop, and how many (crates/lxmf-core/src/router.rs).
use rs_lxmf.Prelude.{
  ℕ, suc, zero, ◌+◌, ◌≤◌, ◌≡◌, ◌⊎◌, inl, inr, true, false, Bool-cases, some, List, [], ◌∷◌, ◌||◌,
  nat_eq, nat_beq, nat_beq_iff, refl, ap, sym, ◌∙◌, contains, decimal, Float, arith, length, leb,
  take, In, In-cons, In-nil, here, there, length-take-le,
}
use rs_lxmf.Map
use rs_lxmf.Map.{Map}
use rs_lxmf.Map.Laws.{get-remove}
use rs_lxmf.Map.Counts.{IsDistinct, remove-IsDistinct, remove_absent}
use rs_lxmf.Peer.{LxmPeer, PeerState, is_idle}
use rs_lxmf.Router.{LxmRouter}
use rs_lxmf.Router.Peering.{unpeer}
use rs_lxmf.Router.Peering.Rotation.{
  rotate_peers, drop_all, drop_candidates, is_droppable, acceptance_rate, sort_lowest,
  insert_lowest, rotation_ar_max, required_drops, headroom, untested_count,
}

In-take {ℓ} : {A : Type ℓ} {a : A} (n : ℕ) (xs : List A) → In a (take n xs) → In a xs
unfolding take
In-take zero xs h = absurd (In-nil h)
In-take (suc n) [] h = h
In-take (suc n) (x ∷ xs) h = elim (In-cons h) [ inl e ↦ here e | inr l ↦ there (In-take n xs l) ]

length-remove {ℓ} :
    {V : Type ℓ} (k : ℕ) (m : Map ℕ V) → IsDistinct m → length m ≤ suc (length (Map.remove k m))
unfolding Map.remove
length-remove k [] h = omega arith
length-remove k ((j, v) ∷ m) h =
    ground (arith, length-remove k m h.1, remove_absent k m, nat_beq_iff j k)

In-contains : (k : ℕ) (ks : List ℕ) → In k ks → contains k ks ≡ true
unfolding contains
In-contains k [] h = absurd (In-nil h)
In-contains k (j ∷ ks) h = elim (In-cons h) [
  | inl e ↦ ground (arith, (nat_beq_iff j k).1 e, (nat_beq_iff k j).1 (sym e))
  | inr later ↦ ground (arith, In-contains k ks later)
]

idle_state : (s : PeerState) → is_idle s ≡ true → s ≡ PeerState.idle
idle_state s h = ground (arith, h)

module _ (fl : Float) where
  open fl use {F64}

  -- A peer that a rotation may drop: not static, without a sync under way, offered some messages, and
  -- with a rate of those it took below a half.
  abbrev pub MayDrop : LxmRouter fl → ℕ → Type 0
  MayDrop r hash =
      (p : LxmPeer fl) × (Map.get hash r.peers ≡ some p)
      × ¬ In hash r.static_peers
      × (p.state ≡ PeerState.idle)
      × (1 ≤ p.offered)
      × (fl.lt (fl.div (fl.of_nat p.outgoing) (fl.of_nat p.offered)) (decimal fl 5 10) ≡ true)

  -- the source's test of a peer says so
  droppable_peer :
      (statics : List ℕ) (hash : ℕ) (p : LxmPeer fl)
      → is_droppable fl statics hash p ≡ true
      → ¬ In hash statics × (p.state ≡ PeerState.idle) × (1 ≤ p.offered)
  droppable_peer statics hash p h = (
    λ i. absurd (ground (arith, h, In-contains hash statics i)),
    idle_state p.state (ground (arith, h)),
    ground (arith, h),
  )

  tested_rate :
      (p : LxmPeer fl)
      → 1 ≤ p.offered
      → acceptance_rate fl p ≡ fl.div (fl.of_nat p.outgoing) (fl.of_nat p.offered)
  unfolding acceptance_rate
  tested_rate p h = ground (arith, h)

  In-insert_lowest :
      (a x : ℕ × F64) (xs : List (ℕ × F64)) → In a (insert_lowest fl x xs) → (x ≡ a) ⊎ In a xs
  unfolding insert_lowest
  In-insert_lowest a x [] h = In-cons h
  In-insert_lowest a x (y ∷ ys) h = elim (Bool-cases (fl.lt y.1 x.1)) [
    | inl lower ↦ elim (In-cons (rw (lower, insert_lowest) at h)) [
      | inl e ↦ inr (here e)
      | inr l ↦ elim (In-insert_lowest a x ys l) [ inl e ↦ inl e | inr q ↦ inr (there q) ]
    ]
    | inr higher ↦ In-cons (rw (higher, insert_lowest) at h)
  ]

  In-sort_lowest : (a : ℕ × F64) (xs : List (ℕ × F64)) → In a (sort_lowest fl xs) → In a xs
  unfolding sort_lowest
  In-sort_lowest a [] h = h
  In-sort_lowest a (x ∷ xs) h = elim (In-insert_lowest a x (sort_lowest fl xs) h) [
    | inl e ↦ here e
    | inr l ↦ there (In-sort_lowest a xs l)
  ]

  -- what a candidate is
  abbrev IsCandidate : List ℕ → ℕ × F64 → Map ℕ (LxmPeer fl) → Type 0
  IsCandidate statics a peers =
      (p : LxmPeer fl) × (Map.get a.0 peers ≡ some p)
      × (is_droppable fl statics a.0 p ≡ true)
      × (acceptance_rate fl p ≡ a.1)

  later_entry :
      (statics : List ℕ) (a : ℕ × F64) (j : ℕ) (p : LxmPeer fl) (peers : Map ℕ (LxmPeer fl))
      → Map.contains_key j peers ≡ false
      → IsCandidate statics a peers
      → IsCandidate statics a ((j, p) ∷ peers)
  unfolding Map.get
  later_entry statics a j p peers new (q, found, droppable, rate) =
      elim (Bool-cases (nat_beq j a.0)) [
        | inl same ↦ absurd (ground (arith, found, rw ((nat_beq_iff j a.0).0 same) at new))
        | inr differs ↦ (q, ground (arith, differs, found), droppable, rate)
      ]

  entry_found :
      (statics : List ℕ) (a : ℕ × F64) (peers : Map ℕ (LxmPeer fl))
      → IsDistinct peers
      → In a (drop_candidates fl statics peers)
      → IsCandidate statics a peers
  unfolding drop_candidates Map.get
  entry_found statics a [] d h = absurd (In-nil h)
  entry_found statics a ((j, p) ∷ peers) d h = elim (Bool-cases (is_droppable fl statics j p)) [
    | inl drops ↦ elim (In-cons (rw (drops, drop_candidates) at h)) [
      | inl e ↦ rw (← e) (p, ground (arith, nat_beq_iff j j), drops, refl)
      | inr l ↦ later_entry statics a j p peers d.0 (entry_found statics a peers d.1 l)
    ]
    | inr spared ↦
        later_entry statics a j p peers d.0
          (entry_found statics a peers d.1 (rw (spared, drop_candidates) at h))
  ]

  get-drop_all :
      (hash : ℕ) (xs : List (ℕ × F64)) (r : LxmRouter fl)
      → (Map.get hash (drop_all fl xs r).peers ≡ Map.get hash r.peers)
        ⊎ ((ar : F64) × In (hash, ar) xs × (fl.lt ar (rotation_ar_max fl) ≡ true))
  unfolding drop_all unpeer
  get-drop_all hash [] r = inl refl
  get-drop_all hash ((j, ar) ∷ xs) r = elim (Bool-cases (fl.lt ar (rotation_ar_max fl))) [
    | inl low ↦
        rw (low, drop_all)
          (elim (Bool-cases (nat_beq j hash)) [
            | inl same ↦ inr (ar, here (ap (λ k. (k, ar)) ((nat_beq_iff j hash).0 same)), low)
            | inr differs ↦ elim (get-drop_all hash xs (unpeer fl j r)) [
              | inl e ↦ inl (e ∙ get-remove j hash r.peers ∙ rw differs refl)
              | inr (ar', i, l) ↦ inr (ar', there i, l)
            ]
          ])
    | inr high ↦
        rw (high, drop_all)
          (elim (get-drop_all hash xs r) [
            | inl e ↦ inl e
            | inr (ar', i, l) ↦ inr (ar', there i, l)
          ])
  ]

  length-drop_all :
      (xs : List (ℕ × F64)) (r : LxmRouter fl)
      → IsDistinct r.peers
      → length r.peers ≤ length (drop_all fl xs r).peers + length xs
  unfolding drop_all unpeer
  length-drop_all [] r h = omega arith
  length-drop_all ((j, ar) ∷ xs) r h = elim (Bool-cases (fl.lt ar (rotation_ar_max fl))) [
    | inl low ↦
        rw (low, drop_all)
          (omega (
            arith,
            length-remove j r.peers h,
            length-drop_all xs (unpeer fl j r) (remove-IsDistinct j r.peers h),
          ))
    | inr high ↦ rw (high, drop_all) (omega (arith, length-drop_all xs r h))
  ]

  -- what a rotation leaves
  abbrev pub IsSpared : LxmRouter fl → LxmRouter fl → Type 0
  IsSpared r r' =
      ((hash : ℕ) → (Map.get hash r'.peers ≡ Map.get hash r.peers) ⊎ MayDrop r hash)
      × (length r.peers ≤ length r'.peers + required_drops fl r)

  dropped-IsSpared :
      (r : LxmRouter fl)
      → IsDistinct r.peers
      → let xs = sort_lowest fl (drop_candidates fl r.static_peers r.peers) in
        IsSpared r (drop_all fl (take (required_drops fl r) xs) r)
  dropped-IsSpared r h =
      let xs = sort_lowest fl (drop_candidates fl r.static_peers r.peers) in
      let n = required_drops fl r in
      (
        λ hash. elim (get-drop_all hash (take n xs) r) [
          | inl e ↦ inl e
          | inr (ar, i, low) ↦
              let (p, found, droppable, rate) =
                entry_found r.static_peers (hash, ar) r.peers h
                  (In-sort_lowest (hash, ar) (drop_candidates fl r.static_peers r.peers)
                    (In-take n xs i)) in
              let (unlisted, idle, offered) = droppable_peer r.static_peers hash p droppable in
              inr (p, found, unlisted, idle, offered, rw (← tested_rate p offered) (rw rate low))
        ],
        omega (arith, length-drop_all (take n xs) r h, length-take-le n xs),
      )

  -- A rotation leaves every peer as it was, unless it is in no list of static peers, idle, has been
  -- offered messages and accepts less than half of them; and it drops no more than the table
  -- exceeds its maximum less the headroom. The table holds each hash once.
  pub rotate_peers-IsSpared :
      (r : LxmRouter fl) → IsDistinct r.peers → IsSpared r (rotate_peers fl r)
  unfolding rotate_peers
  rotate_peers-IsSpared r h =
      elim (Bool-cases (nat_beq (required_drops fl r) 0 || leb (length r.peers) 1)) [
        | inl few ↦ rw few (λ hash. inl refl, omega arith)
        | inr many ↦ elim (Bool-cases (leb (headroom fl r) (untested_count fl r.peers))) [
          | inl untested ↦ rw many (rw untested (λ hash. inl refl, omega arith))
          | inr tested ↦ rw many (rw tested (dropped-IsSpared r h))
        ]
      ]
