-- ===== src/Peer/Syncs.antt =====
-- The syncs of a peer: one at a time (crates/lxmf-core/src/peer.rs).
use rs_lxmf.Prelude.{ℕ, ◌<◌, ◌≡◌, ◌↔◌, true, false, Option, none, List, [], ◌∷◌, arith, refl, Float}
use rs_lxmf.Peer.{
  LxmPeer, is_idle, should_sync, begin_sync, link_established, link_closed, sync_complete,
  sync_failed, heard, mark_unreachable, add_unhandled_message, add_handled_message,
  needs_offer_generation, mark_offer_generation_processed, set_unhandled_count,
}

module _ (fl : Float) where
  open fl use {F64, lt}

  -- what can happen to a peer while a sync is under way, and what ends it
  pub data PeerEvent : Type 0 where
    established : Option F64 → F64 → PeerEvent
    unreachable was_heard : F64 → PeerEvent
    unhandled : PeerEvent
    counted handled processed : ℕ → PeerEvent

  unfoldable pub peer_step : PeerEvent → LxmPeer fl → LxmPeer fl
  peer_step (established rate now) p = link_established fl rate now p
  peer_step (unreachable now) p = mark_unreachable fl now p
  peer_step (was_heard now) p = heard fl now p
  peer_step unhandled p = add_unhandled_message fl p
  peer_step (counted n) p = set_unhandled_count fl n p
  peer_step (handled hash) p = add_handled_message fl hash p
  peer_step (processed generation) p = mark_offer_generation_processed fl generation p

  unfoldable pub peer_run : List PeerEvent → LxmPeer fl → LxmPeer fl
  unfolding peer_step
  peer_run [] p = p
  peer_run (e ∷ es) p = peer_run es (peer_step e p)

  step_busy :
      (e : PeerEvent) (p : LxmPeer fl)
      → is_idle p.state ≡ false
      → is_idle (peer_step e p).state ≡ false
  unfolding peer_step link_established mark_unreachable heard add_unhandled_message
      set_unhandled_count add_handled_message mark_offer_generation_processed
  step_busy (established rate now) p h = refl
  step_busy (handled hash) p h = ground arith
  step_busy _ p h = h

  run_busy :
      (es : List PeerEvent) (p : LxmPeer fl)
      → is_idle p.state ≡ false
      → is_idle (peer_run es p).state ≡ false
  unfolding peer_run
  run_busy [] p h = h
  run_busy (e ∷ es) p h = run_busy es (peer_step e p) (step_busy e p h)

  -- Once a sync has begun no other is due, whatever the link and the bookkeeping do meanwhile and
  -- whatever the clock says, until it completes, fails or its link closes. After each of these the
  -- peer is idle and its transfer list is empty; after a failure another sync is due exactly when
  -- the clock has passed the next attempt.
  pub one_sync_at_a_time :
      (es : List PeerEvent) (now now' t : F64) (p : LxmPeer fl)
      → let q = peer_run es (begin_sync fl now now' p) in
        (should_sync fl t q ≡ false)
        × (is_idle (sync_complete fl t q).state ≡ true)
        × (is_idle (sync_failed fl t q).state ≡ true)
        × (is_idle (link_closed fl q).state ≡ true)
        × ((sync_complete fl t q).currently_transferring_messages ≡ none)
        × ((sync_failed fl t q).currently_transferring_messages ≡ none)
        × ((link_closed fl q).currently_transferring_messages ≡ none)
        × ((u : F64) → should_sync fl u (sync_failed fl t q) ≡ lt q.next_sync_attempt u)
  unfolding should_sync sync_complete sync_failed link_closed
  one_sync_at_a_time es now now' t p =
      let busy = run_busy es (begin_sync fl now now' p) (unfold begin_sync in refl) in
      (rw busy, refl, refl, refl, refl, refl, rw busy, λ u. refl)

  -- A generation needs an offer exactly when it is later than all that were processed.
  needs_offer_generation-processed :
      (generation done : ℕ) (p : LxmPeer fl)
      → (needs_offer_generation fl generation (mark_offer_generation_processed fl done p) ≡ true)
        ↔ ((needs_offer_generation fl generation p ≡ true) × (done < generation))
  unfolding needs_offer_generation mark_offer_generation_processed
  needs_offer_generation-processed generation done p = ground arith
