-- ===== src/Router/Peering/Rounds.antt =====
-- A round of syncs starts a peer once (crates/lxmf-core/src/router.rs).
use rs_lxmf.Prelude.{
  ℕ, ◌+◌, ◌≡◌, inl, inr, true, false, Bool-cases, [], ◌∷◌, ◌&&◌, nat_eq, nat_beq, nat_beq_iff, refl,
  ◌∙◌, Float, arith, contains,
}
use rs_lxmf.Map
use rs_lxmf.Map.{Map}
use rs_lxmf.Map.Counts.{IsDistinct}
use rs_lxmf.Peer.{LxmPeer, should_sync, begin_sync}
use rs_lxmf.Peer.Choice.{is_waiting}
use rs_lxmf.Router.{LxmRouter}
use rs_lxmf.Router.Peering.{sync_due, sync_peers}

module _ (fl : Float) where
  open fl use {F64}

  -- only peers of the table are started
  due-key :
      (clock : ℕ → ℕ → F64) (k hash : ℕ) (peers : Map ℕ (LxmPeer fl))
      → Map.contains_key hash peers ≡ false
      → contains hash (sync_due fl clock k peers).1 ≡ false
  unfolding sync_due contains Map.get
  due-key clock k hash [] h = refl
  due-key clock k hash ((j, p) ∷ peers) h =
      elim (Bool-cases (p.alive && is_waiting fl p && should_sync fl (clock k 0) p)) [
        | inl due ↦ rw (due, sync_due) (ground (arith, due-key clock (k + 1) hash peers, h))
        | inr idle ↦ rw (idle, sync_due) (due-key clock (k + 1) hash peers (ground (arith, h)))
      ]

  -- the round changes no hash
  pub contains-due :
      (clock : ℕ → ℕ → F64) (k hash : ℕ) (peers : Map ℕ (LxmPeer fl))
      → Map.contains_key hash (sync_due fl clock k peers).0 ≡ Map.contains_key hash peers
  unfolding sync_due Map.get
  contains-due clock k hash [] = refl
  contains-due clock k hash ((j, p) ∷ peers) =
      elim (Bool-cases (p.alive && is_waiting fl p && should_sync fl (clock k 0) p)) [
        | inl due ↦ rw (due, sync_due) (ground (arith, contains-due clock (k + 1) hash peers))
        | inr idle ↦ rw (idle, sync_due) (ground (arith, contains-due clock (k + 1) hash peers))
      ]

  begun_rests :
      (now a b : F64) (p : LxmPeer fl)
      → (begin_sync fl a b p).alive
          && is_waiting fl (begin_sync fl a b p)
          && should_sync fl now (begin_sync fl a b p)
        ≡ false
  unfolding begin_sync should_sync
  begun_rests now a b p = elim (Bool-cases p.alive) [ inl e ↦ rw e refl | inr e ↦ rw e refl ]

  -- a peer that was started is not started again
  started_once :
      (clock clock' : ℕ → ℕ → F64) (k k' hash : ℕ) (peers : Map ℕ (LxmPeer fl))
      → IsDistinct peers
      → contains hash (sync_due fl clock k peers).1 ≡ true
      → contains hash (sync_due fl clock' k' (sync_due fl clock k peers).0).1 ≡ false
  unfolding sync_due contains
  started_once clock clock' k k' hash [] h s = absurd (ground arith)
  started_once clock clock' k k' hash ((j, p) ∷ peers) h s =
      let again = started_once clock clock' (k + 1) (k' + 1) hash peers h.1 in
      let other = due-key clock' (k' + 1) hash (sync_due fl clock (k + 1) peers).0 in
      let key = contains-due clock (k + 1) hash peers in
      let from = due-key clock (k + 1) hash peers in
      elim (Bool-cases (p.alive && is_waiting fl p && should_sync fl (clock k 0) p)) [
        | inl due ↦
            rw (due, sync_due)
              (rw (begun_rests (clock' k' 0) (clock k 1) (clock k 2) p)
                (elim (Bool-cases (nat_beq j hash)) [
                  | inl same ↦ other (key ∙ rw (← (nat_beq_iff j hash).0 same) h.0)
                  | inr differs ↦ again (ground (arith, differs, rw (due, sync_due) at s))
                ]))
        | inr idle ↦
            rw (idle, sync_due)
              (let s' = rw (idle, sync_due) at s in
                elim (Bool-cases (nat_beq j hash)) [
                  | inl same ↦
                      absurd (ground (arith, from (rw (← (nat_beq_iff j hash).0 same) h.0), s'))
                  | inr differs ↦ ground (arith, differs, again s')
                ])
      ]

  -- A peer that one round of syncs starts is not started by the next round, whatever the clock
  -- reads, where the table holds each hash once.
  pub sync_peers_once :
      (clock clock' : ℕ → ℕ → F64) (hash : ℕ) (r : LxmRouter fl)
      → IsDistinct r.peers
      → let first = sync_peers fl clock r in
        contains hash first.1 ≡ true → contains hash (sync_peers fl clock' first.0).1 ≡ false
  unfolding sync_peers
  sync_peers_once clock clock' hash r h s = started_once clock clock' 0 0 hash r.peers h s
