-- ===== src/Router/Peering/Bound.antt =====
-- The table of peers stays within its bound (crates/lxmf-core/src/router.rs).
use rs_lxmf.Prelude.{
  ℕ, ◌+◌, ◌≤◌, ◌<◌, ◌≡◌, inl, inr, Bool, not, Bool-cases, Option-cases, some, List, [], ◌∷◌, ◌&&◌,
  ◌||◌, nat_eq, nat_beq, refl, ◌∙◌, Float, arith, length, leb, ltb, contains, take,
}
use rs_lxmf.Map
use rs_lxmf.Map.{Map}
use rs_lxmf.Map.Counts.{
  IsDistinct, insert-IsDistinct, remove-IsDistinct, length-insert, length-remove-le,
}
use rs_lxmf.Peer.{LxmPeer, should_sync, or_default}
use rs_lxmf.Peer.Choice.{is_waiting}
use rs_lxmf.Router.{LxmRouter}
use rs_lxmf.Router.Peering.{
  AutopeerCandidate, add_peer, remove_peer, unpeer, remove_unless_stale, refresh_peer, meet_peer,
  autopeer, is_too_far, sync_due, sync_peers, handle_resource_concluded,
}
use rs_lxmf.Router.Peering.Rounds.{contains-due}
use rs_lxmf.Router.Peering.Rotation.{
  rotate_peers, drop_all, drop_candidates, sort_lowest, rotation_ar_max, required_drops, headroom,
  untested_count,
}

module _ (fl : Float) where
  open fl use {F64}

  pub data PeeringEvent : Type 0 where
    add : LxmPeer fl → PeeringEvent
    announce : AutopeerCandidate fl → F64 → PeeringEvent
    leave : ℕ → PeeringEvent
    sync : (ℕ → ℕ → F64) → PeeringEvent
    concluded : ℕ → Bool → F64 → F64 → PeeringEvent
    rotate : PeeringEvent

  unfoldable pub peering_step : PeeringEvent → LxmRouter fl → LxmRouter fl
  unfolding add_peer autopeer unpeer sync_peers handle_resource_concluded rotate_peers
  peering_step (add p) r = (add_peer fl p r).0
  peering_step (announce c now) r = (autopeer fl c now r).0
  peering_step (leave hash) r = unpeer fl hash r
  peering_step (sync clock) r = (sync_peers fl clock r).0
  peering_step (concluded hash success now now') r =
      handle_resource_concluded fl hash success now now' r
  peering_step rotate r = rotate_peers fl r

  -- at most `n` peers, each hash once
  abbrev pub IsTable : ℕ → Map ℕ (LxmPeer fl) → Type 0
  IsTable n peers = (length peers ≤ n) × IsDistinct peers

  module _ (n hash : ℕ) (peers : Map ℕ (LxmPeer fl)) (h : IsTable n peers) where
    remove-IsTable : IsTable n (Map.remove hash peers)
    remove-IsTable =
        (omega (arith, h.0, length-remove-le hash peers), remove-IsDistinct hash peers h.1)

    -- of a hash that is there
    replace-IsTable :
        (p p' : LxmPeer fl) → Map.get hash peers ≡ some p → IsTable n (Map.insert hash p' peers)
    replace-IsTable p p' e =
        (ground (arith, h.0, length-insert hash p' peers, e), insert-IsDistinct hash p' peers h.1)

    insert-IsTable : (p' : LxmPeer fl) → length peers < n → IsTable n (Map.insert hash p' peers)
    insert-IsTable p' l =
        (ground (arith, l, length-insert hash p' peers), insert-IsDistinct hash p' peers h.1)

  module _ (n : ℕ) where
    stale-IsTable :
        (c : AutopeerCandidate fl) (r : LxmRouter fl)
        → IsTable n r.peers
        → IsTable n (remove_unless_stale fl c r).peers
    unfolding remove_unless_stale remove_peer
    stale-IsTable c r h = elim (Option-cases (Map.get c.destination_hash r.peers)) [
      | inl e ↦ rw (e, remove_unless_stale) h
      | inr (p, e) ↦ elim (Bool-cases (fl.le p.peering_timebase c.announced.timebase)) [
        | inl newer ↦
            rw (e, remove_unless_stale) (rw newer (remove-IsTable n c.destination_hash r.peers h))
        | inr older ↦ rw (e, remove_unless_stale) (rw older h)
      ]
    ]

    refresh-IsTable :
        (c : AutopeerCandidate fl) (now : F64) (p : LxmPeer fl) (r : LxmRouter fl)
        → Map.get c.destination_hash r.peers ≡ some p
        → IsTable n r.peers
        → IsTable n (refresh_peer fl c now p r).0.peers
    unfolding refresh_peer
    refresh-IsTable c now p r e h =
        elim (Bool-cases (
          not (contains c.destination_hash r.static_peers || p.is_static)
          && not r.config.autopeer)) [
            | inl off ↦ rw off h
            | inr on ↦
                elim (Bool-cases (
                  not (contains c.destination_hash r.static_peers || p.is_static)
                  && is_too_far fl c.hops r.config.ext.autopeer_maxdepth)) [
                    | inl far ↦ rw on (rw far (stale-IsTable c r h))
                    | inr near ↦
                        rw on (rw near (replace-IsTable n c.destination_hash r.peers h p _ e))
                  ]
          ]

    add-IsTable :
        (p : LxmPeer fl) (r : LxmRouter fl)
        → r.config.max_peers ≡ n
        → IsTable n r.peers
        → IsTable n (add_peer fl p r).0.peers
    unfolding add_peer
    add-IsTable p r bound h = elim (Bool-cases (leb r.config.max_peers (length r.peers))) [
      | inl full ↦ rw full h
      | inr free ↦
          rw free (insert-IsTable n p.destination_hash r.peers h p (ground (arith, free, bound)))
    ]

    meet-IsTable :
        (c : AutopeerCandidate fl) (now : F64) (r : LxmRouter fl)
        → r.config.max_peers ≡ n
        → IsTable n r.peers
        → IsTable n (meet_peer fl c now r).0.peers
    unfolding meet_peer
    meet-IsTable c now r bound h =
        elim (Bool-cases
          (not (contains c.destination_hash r.static_peers) && not r.config.autopeer)) [
            | inl off ↦ rw off h
            | inr on ↦
                elim (Bool-cases (
                  not (contains c.destination_hash r.static_peers)
                  && is_too_far fl c.hops r.config.ext.autopeer_maxdepth)) [
                    | inl far ↦ rw on (rw far h)
                    | inr near ↦ rw on (rw near (add-IsTable _ r bound h))
                  ]
          ]

    autopeer-IsTable :
        (c : AutopeerCandidate fl) (now : F64) (r : LxmRouter fl)
        → r.config.max_peers ≡ n
        → IsTable n r.peers
        → IsTable n (autopeer fl c now r).0.peers
    unfolding autopeer
    autopeer-IsTable c now r bound h =
        elim (Bool-cases
          (ltb r.config.ext.max_peering_cost (or_default c.announced.peering_cost 0))) [
            | inl costly ↦ rw costly (stale-IsTable c r h)
            | inr cheap ↦ elim (Option-cases (Map.get c.destination_hash r.peers)) [
              | inl e ↦ rw cheap (rw (e, autopeer) (meet-IsTable c now r bound h))
              | inr (p, e) ↦ rw cheap (rw (e, autopeer) (refresh-IsTable c now p r e h))
            ]
          ]

    sync-IsTable :
        (clock : ℕ → ℕ → F64) (k : ℕ) (peers : Map ℕ (LxmPeer fl))
        → IsDistinct peers
        → (length (sync_due fl clock k peers).0 ≡ length peers)
          × IsDistinct (sync_due fl clock k peers).0
    unfolding sync_due
    sync-IsTable clock k [] h = (refl, tt)
    sync-IsTable clock k ((j, p) ∷ peers) h =
        let rest = sync-IsTable clock (k + 1) peers h.1 in
        elim (Bool-cases (p.alive && is_waiting fl p && should_sync fl (clock k 0) p)) [
          | inl due ↦
              rw (due, sync_due)
                (omega (arith, rest.0), (contains-due fl clock (k + 1) j peers ∙ h.0, rest.1))
          | inr idle ↦
              rw (idle, sync_due)
                (omega (arith, rest.0), (contains-due fl clock (k + 1) j peers ∙ h.0, rest.1))
        ]

    concluded-IsTable :
        (hash : ℕ) (success : Bool) (now now' : F64) (r : LxmRouter fl)
        → IsTable n r.peers
        → IsTable n (handle_resource_concluded fl hash success now now' r).peers
    unfolding handle_resource_concluded
    concluded-IsTable hash success now now' r h = elim (Option-cases (Map.get hash r.peers)) [
      | inl e ↦ rw (e, handle_resource_concluded) h
      | inr (p, e) ↦ rw (e, handle_resource_concluded) (replace-IsTable n hash r.peers h p _ e)
    ]

    dropped-IsTable :
        (xs : List (ℕ × F64)) (r : LxmRouter fl)
        → IsTable n r.peers
        → IsTable n (drop_all fl xs r).peers
    unfolding drop_all unpeer
    dropped-IsTable [] r h = h
    dropped-IsTable ((hash, ar) ∷ xs) r h = elim (Bool-cases (fl.lt ar (rotation_ar_max fl))) [
      | inl low ↦
          rw (low, drop_all)
            (dropped-IsTable xs (unpeer fl hash r) (remove-IsTable n hash r.peers h))
      | inr high ↦ rw (high, drop_all) (dropped-IsTable xs r h)
    ]

    rotate-IsTable : (r : LxmRouter fl) → IsTable n r.peers → IsTable n (rotate_peers fl r).peers
    unfolding rotate_peers
    rotate-IsTable r h =
        elim (Bool-cases (nat_beq (required_drops fl r) 0 || leb (length r.peers) 1)) [
          | inl few ↦ rw few h
          | inr many ↦ elim (Bool-cases (leb (headroom fl r) (untested_count fl r.peers))) [
            | inl untested ↦ rw many (rw untested h)
            | inr tested ↦ rw many (
                rw tested (
                  dropped-IsTable
                    (take (required_drops fl r)
                      (sort_lowest fl (drop_candidates fl r.static_peers r.peers)))
                    r h))
          ]
        ]

  -- Adding a peer, an announce, a removal, a round of syncs, the end of a transfer and a rotation
  -- keep the table of peers within the configured maximum, with each hash once.
  pub peering_step-IsTable :
      (e : PeeringEvent) (r : LxmRouter fl)
      → IsTable r.config.max_peers r.peers
      → IsTable r.config.max_peers (peering_step e r).peers
  unfolding peering_step sync_peers unpeer
  peering_step-IsTable (add p) r h = add-IsTable r.config.max_peers p r refl h
  peering_step-IsTable (announce c now) r h = autopeer-IsTable r.config.max_peers c now r refl h
  peering_step-IsTable (leave hash) r h = remove-IsTable r.config.max_peers hash r.peers h
  peering_step-IsTable (sync clock) r h =
      let d = sync-IsTable r.config.max_peers clock 0 r.peers h.1 in (rw d.0 h.0, d.1)
  peering_step-IsTable (concluded hash success now now') r h =
      concluded-IsTable r.config.max_peers hash success now now' r h
  peering_step-IsTable rotate r h = rotate-IsTable r.config.max_peers r h
