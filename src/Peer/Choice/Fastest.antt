-- ===== src/Peer/Choice/Fastest.antt =====
-- The rate of the peer that `select_sync_peer` chooses (crates/lxmf-core/src/peer.rs).
use rs_lxmf.Prelude.{
  ℕ, ◌≡◌, inl, inr, true, false, some, List, [], ◌∷◌, ◌&&◌, arith, In, here, In-cons, In-nil,
  In-filter-back, get_elem?, enumerate_from, In-enumerate, Float, Bool-cases, List-cases, refl,
}
use rs_lxmf.Peer.{LxmPeer}
use rs_lxmf.Peer.Choice.{
  Candidates, is_waiting, insert_by_rate, sort_by_rate, select_sync_peer, sorted_cons, pool_lem,
  In-sort, found_at, responding,
}

module _ (fl : Float) where
  open fl use {F64, lt}

  -- a total preorder, as `f64` is without NaN
  module _ (asym : (a b : F64) → lt a b ≡ true → lt b a ≡ false)
      (neg : (a b c : F64) → lt a b ≡ false → lt b c ≡ false → lt a c ≡ false) where
    irrefl : (a : F64) → lt a a ≡ false
    irrefl a = elim (Bool-cases (lt a a)) [ inl e ↦ asym a a e | inr e ↦ e ]

    abbrev IsFastest : ℕ × LxmPeer fl → Candidates fl → Type 0
    IsFastest y xs =
        (z : ℕ × LxmPeer fl) → In z xs → lt y.1.sync_transfer_rate z.1.sync_transfer_rate ≡ false

    self_fastest :
        (x z : ℕ × LxmPeer fl) → x ≡ z → lt x.1.sync_transfer_rate z.1.sync_transfer_rate ≡ false
    self_fastest x z e = rw (← e) (irrefl x.1.sync_transfer_rate)

    sort-IsFastest :
        (xs : Candidates fl) (y : ℕ × LxmPeer fl) (ys : Candidates fl)
        → sort_by_rate fl xs ≡ y ∷ ys
        → IsFastest y xs
    unfolding sort_by_rate insert_by_rate
    sort-IsFastest [] y ys h = λ z k. elim k [ ]
    sort-IsFastest (x ∷ xs) y ys h = elim (List-cases xs) [
      | inl none_left ↦ λ z k.
          let e : x ≡ y = ground (arith, none_left) in
          rw (← e)
            (elim (In-cons (rw none_left at k)) [ inl q ↦ self_fastest x z q | inr q ↦ elim q [ ] ])
      | inr (a, others, more) ↦
          let s = sorted_cons fl a (sort_by_rate fl others) in
          let before : sort_by_rate fl xs ≡ s.0 ∷ s.1 = rw more s.2 in
          let ih = sort-IsFastest xs s.0 s.1 before in
          elim (Bool-cases (lt x.1.sync_transfer_rate s.0.1.sync_transfer_rate)) [
            | inl slower ↦ λ z k.
                let e : s.0 ≡ y = ground (arith, before, slower) in
                rw (← e) (elim (In-cons k) [ inl q ↦ rw (← q) (asym _ _ slower) | inr q ↦ ih z q ])
            | inr quicker ↦ λ z k.
                let e : x ≡ y = ground (arith, before, quicker) in
                rw (← e) (elim (In-cons k) [
                  | inl q ↦ self_fastest x z q
                  | inr q ↦ neg _ _ _ quicker (ih z q)
                ])
          ]
    ]

    -- Where rates compare as a total preorder, no peer that is alive, idle and with messages to offer
    -- is faster than the chosen one, if there is such a peer.
    pub no_faster_peer :
        (now : F64) (peers : List (LxmPeer fl)) (j : ℕ) (q : LxmPeer fl)
        → get_elem? peers j ≡ some q
        → q.alive && is_waiting fl q ≡ true
        → (i : ℕ) × (p : LxmPeer fl) × (select_sync_peer fl now peers ≡ some i)
          × (get_elem? peers i ≡ some p)
          × (lt p.sync_transfer_rate q.sync_transfer_rate ≡ false)
    unfolding select_sync_peer sort_by_rate
    no_faster_peer now peers j q found waits =
        let member =
          In-filter-back (λ x. x.1.alive && is_waiting fl x.1) (enumerate_from 0 peers)
            (In-enumerate 0 j q peers found) waits in
        elim (List-cases (responding fl now peers)) [
          | inl e ↦ absurd (In-nil (rw e at member))
          | inr (a, others, e) ↦
              let s = sorted_cons fl a (sort_by_rate fl others) in
              let top = In-sort fl s.0 (a ∷ others) (rw s.2 (here refl)) in
              let f = found_at fl (λ x. x.alive && is_waiting fl x) peers s.0 (rw e top) in
              (
                s.0.0,
                s.0.1,
                rw e (rw s.2 (pool_lem fl s.0 s.1)),
                f.0,
                sort-IsFastest (responding fl now peers) s.0 s.1 (rw e s.2) _ member,
              )
        ]
