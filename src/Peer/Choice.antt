-- ===== src/Peer/Choice.antt =====
-- `select_sync_peer`: which peer is synced next (crates/lxmf-core/src/peer.rs). The clock's reading is
-- one for all peers.
pub mod Fastest
use rs_lxmf.Prelude.{
  List-cases, any-enumerate, any-or, get_elem-enumerate, ℕ, suc, ◌-◌, ◌≡◌, ◌⊎◌, inl, inr, Bool,
  true, false, not, Option, none, some, List, [], ◌∷◌, ◌++◌, ◌&&◌, ◌||◌, arith, nat_eq,
  if◌then◌else◌, ltb, min, length, filter, In, here, there, In-cons, In-filter, take, get_elem?,
  enumerate_from, contains, map, any, Float, Bool-cases, refl,
}
use rs_lxmf.Peer.{LxmPeer, is_idle, should_sync}

abbrev pub fastest_n_random_pool : ℕ
fastest_n_random_pool = 2

module _ (fl : Float) where
  open fl use {F64, of_nat, lt, eq}

  abbrev pub Candidates : Type 0
  Candidates = List (ℕ × LxmPeer fl)

  -- idle, with messages to offer
  abbrev pub is_waiting : LxmPeer fl → Bool
  is_waiting p = is_idle p.state && ltb 0 p.unhandled_count

  -- `sort_by` with the faster first, a stable sort
  unfoldable pub insert_by_rate : ℕ × LxmPeer fl → Candidates → Candidates
  insert_by_rate x [] = x ∷ []
  insert_by_rate x (y ∷ ys) =
      let rest = insert_by_rate x ys in
      if lt x.1.sync_transfer_rate y.1.sync_transfer_rate then y ∷ rest else x ∷ y ∷ ys

  unfoldable pub sort_by_rate : Candidates → Candidates
  unfolding insert_by_rate
  sort_by_rate [] = []
  sort_by_rate (x ∷ xs) = insert_by_rate x (sort_by_rate xs)

  -- the loop that adds peers of unknown speed to the pool
  unfoldable pub extend_pool : List ℕ → Candidates → List ℕ
  extend_pool pool [] = pool
  extend_pool pool (x ∷ xs) = extend_pool (if contains x.0 pool then pool else pool ++ x.0 ∷ []) xs

  abbrev pub first : List ℕ → Option ℕ
  first [] = none
  first (i ∷ is) = some i

  unfoldable pub first_of_pool : Candidates → Option ℕ
  first_of_pool sorted =
      let pool_size = min (length sorted) fastest_n_random_pool in
      let unknown_speed = filter (λ x. eq x.1.sync_transfer_rate (of_nat 0)) sorted in
      let pool = map (λ x. x.0) (take pool_size sorted) in
      first (extend_pool pool (take pool_size unknown_speed))

  -- the second choice: the first that does not respond and whose backoff has elapsed
  abbrev pub is_retried : F64 → LxmPeer fl → Bool
  is_retried now p = not p.alive && is_waiting p && should_sync fl now p

  abbrev choose : Candidates → List ℕ → Option ℕ
  choose [] unresponsive = first unresponsive
  choose (x ∷ xs) unresponsive = first_of_pool (sort_by_rate (x ∷ xs))

  unfoldable pub select_sync_peer : F64 → List (LxmPeer fl) → Option ℕ
  select_sync_peer now peers =
      let indexed = enumerate_from 0 peers in
      choose (filter (λ x. x.1.alive && is_waiting x.1) indexed)
        (map (λ x. x.0) (filter (λ x. is_retried now x.1) indexed))

  -- the pool begins with the fastest peer
  first-extend :
      (i : ℕ) (pool : List ℕ) (xs : Candidates) → first (extend_pool (i ∷ pool) xs) ≡ some i
  unfolding extend_pool
  first-extend i pool [] = refl
  first-extend i pool (x ∷ xs) = elim (Bool-cases (contains x.0 (i ∷ pool))) [
    | inl old ↦ rw (old, extend_pool) (first-extend i pool xs)
    | inr new ↦ rw (new, extend_pool) (first-extend i (pool ++ x.0 ∷ []) xs)
  ]

  pub pool_lem : (x : ℕ × LxmPeer fl) (xs : Candidates) → first_of_pool (x ∷ xs) ≡ some x.0
  unfolding first_of_pool take
  pool_lem x xs =
      let n = min (length (x ∷ xs)) fastest_n_random_pool - 1 in
      let e : min (length (x ∷ xs)) fastest_n_random_pool ≡ suc n = omega arith in
      rw e (first-extend x.0 _ _)

  In-insert :
      (a x : ℕ × LxmPeer fl) (xs : Candidates) → In a (insert_by_rate x xs) → (x ≡ a) ⊎ In a xs
  unfolding insert_by_rate
  In-insert a x [] h = In-cons h
  In-insert a x (y ∷ ys) h = elim (Bool-cases (lt x.1.sync_transfer_rate y.1.sync_transfer_rate)) [
    | inl slower ↦ elim (In-cons (rw (slower, insert_by_rate) at h)) [
      | inl e ↦ inr (here e)
      | inr later ↦ elim (In-insert a x ys later) [ inl e ↦ inl e | inr q ↦ inr (there q) ]
    ]
    | inr faster ↦ In-cons (rw (faster, insert_by_rate) at h)
  ]

  pub In-sort : (a : ℕ × LxmPeer fl) (xs : Candidates) → In a (sort_by_rate xs) → In a xs
  unfolding sort_by_rate
  In-sort a [] h = h
  In-sort a (x ∷ xs) h = elim (In-insert a x (sort_by_rate xs) h) [
    | inl e ↦ here e
    | inr later ↦ there (In-sort a xs later)
  ]

  -- the peer at an index of an enumerated and filtered list
  pub found_at :
      (p : LxmPeer fl → Bool) (peers : List (LxmPeer fl)) (a : ℕ × LxmPeer fl)
      → In a (filter (λ x. p x.1) (enumerate_from 0 peers))
      → (get_elem? peers a.0 ≡ some a.1) × (p a.1 ≡ true)
  found_at p peers (i, q) h =
      let f = In-filter (λ x. p x.1) (enumerate_from 0 peers) h in
      let g = get_elem-enumerate 0 i q peers f.0 in
      let e : i ≡ g.0 = omega (arith, g.1) in (rw e g.2, f.1)

  -- a peer that a choice may fall on
  abbrev pub is_due : F64 → LxmPeer fl → Bool
  is_due now p = is_waiting p && (p.alive || should_sync fl now p)

  pub sorted_cons :
      (x : ℕ × LxmPeer fl) (xs : Candidates)
      → (y : ℕ × LxmPeer fl) × (ys : Candidates) × (insert_by_rate x xs ≡ y ∷ ys)
  unfolding insert_by_rate
  sorted_cons x [] = (x, [], refl)
  sorted_cons x (y ∷ ys) = elim (Bool-cases (lt x.1.sync_transfer_rate y.1.sync_transfer_rate)) [
    | inl slower ↦ (y, insert_by_rate x ys, rw slower)
    | inr faster ↦ (x, y ∷ ys, rw faster)
  ]

  module _ (now : F64) (peers : List (LxmPeer fl)) where
    abbrev pub responding : Candidates
    responding = filter (λ x. x.1.alive && is_waiting x.1) (enumerate_from 0 peers)

    abbrev retried : Candidates
    retried = filter (λ x. is_retried now x.1) (enumerate_from 0 peers)

    -- what is chosen, and when nothing is
    abbrev pub Chosen : Option ℕ → Type 0
    Chosen none = any (is_due now) peers ≡ false
    Chosen (some i) =
        (p : LxmPeer fl) × (get_elem? peers i ≡ some p)
        × (is_waiting p ≡ true)
        × ((p.alive ≡ true)
            ⊎ ((should_sync fl now p ≡ true) × (any (λ q. q.alive && is_waiting q) peers ≡ false)))

    responding-Chosen : (x : ℕ × LxmPeer fl) → In x responding → Chosen (some x.0)
    responding-Chosen x h =
        let f = found_at (λ q. q.alive && is_waiting q) peers x h in
        (x.1, f.0, ground arith, inl (ground arith))

    retried-Chosen : (x : ℕ × LxmPeer fl) → responding ≡ [] → In x retried → Chosen (some x.0)
    retried-Chosen x e h =
        let f = found_at (is_retried now) peers x h in
        (x.1, f.0, ground arith, inr (ground arith, any-enumerate _ 0 peers e))

    nothing_due : responding ≡ [] → retried ≡ [] → Chosen none
    nothing_due e r =
        any-or (λ q. q.alive && is_waiting q) (is_retried now) (is_due now) peers
          (λ q a b. ground arith) (any-enumerate _ 0 peers e) (any-enumerate _ 0 peers r)

    -- A peer that is chosen is one of the list, idle, with messages to offer; it is alive, or its
    -- backoff has elapsed and no peer that is alive waits for a sync. Nothing is chosen only if no
    -- peer is due, alive or not.
    pub select_sync_peer_lem : Chosen (select_sync_peer now peers)
    unfolding select_sync_peer sort_by_rate
    select_sync_peer_lem = elim (List-cases responding) [
      | inr (a, others, e) ↦
          let s = sorted_cons a (sort_by_rate others) in
          rw e (
            rw s.2 (
              rw pool_lem
                (responding-Chosen s.0 (rw e (In-sort s.0 (a ∷ others) (rw s.2 (here refl)))))))
      | inl e ↦ elim (List-cases retried) [
        | inl r ↦ rw e (rw r (nothing_due e r))
        | inr (u, us, r) ↦ rw e (rw r (retried-Chosen u e (rw r (here refl))))
      ]
    ]
