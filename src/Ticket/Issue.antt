-- ===== src/Ticket/Issue.antt =====
-- Issuing tickets: throttling, reuse and renewal (crates/lxmf-core/src/ticket.rs).
use rs_lxmf.Prelude.{
  ℕ, ◌≡◌, ◌↔◌, ◌⊎◌, inl, inr, true, none, some, [], ◌∷◌, ◌++◌, not, arith, nat_eq, nat_beq_iff,
  ◌==◌, if◌then◌else◌, find, find-In, find-append_last, In, In-append_last, Bytes, Float,
  Option-cases, Bool-cases, refl,
}
use rs_lxmf.Map
use rs_lxmf.Map.Laws.{get-insert}
use rs_lxmf.Ticket.{
  Ticket, TicketStore, is_recent, should_issue_for, is_reusable, issue_for, mark_ticket_delivered,
  ticket_renew, ticket_interval,
}

module _ (fl : Float) where
  open fl use {F64, of_nat, add, sub, lt}

  module _ (random : Bytes) (dest expiry_secs : ℕ) (now : F64) (s : TicketStore fl) where
    abbrev fresh : Ticket fl
    fresh = record {
      token = random;
      destination_hash = dest;
      expires = add now (of_nat expiry_secs);
    }

    -- A ticket is withheld exactly while the last delivery to the destination is recent. A ticket
    -- that is given is for the destination and is in the store afterwards; either it was there, has
    -- more than the renewal window left and the store is unchanged, or it has the random token and
    -- the full lifetime.
    pub issue_for_lem :
        (((issue_for fl random dest expiry_secs now s).1 ≡ none)
          ↔ (is_recent fl now (Map.get dest s.last_deliveries) ≡ true))
        × ((t : Ticket fl)
            → (issue_for fl random dest expiry_secs now s).1 ≡ some t
            → let s' = (issue_for fl random dest expiry_secs now s).0 in
              (t.destination_hash ≡ dest)
              × In t s'.inbound
              × (((s' ≡ s) × (lt (of_nat ticket_renew) (sub t.expires now) ≡ true))
                  ⊎ ((t ≡ fresh) × (s' ≡ record s { inbound = s.inbound ++ fresh ∷ [] }))))
    unfolding issue_for should_issue_for
    issue_for_lem = elim (Bool-cases (is_recent fl now (Map.get dest s.last_deliveries))) [
      | inl recent ↦ (ground arith, λ t h. absurd (ground arith))
      | inr due ↦ elim (Option-cases (find (is_reusable fl dest now) s.inbound)) [
        | inl miss ↦ rw due (
            rw miss (
              ground arith,
              λ t h.
                  let e : fresh ≡ t = ground arith in
                  rw (← e) (refl, In-append_last fresh s.inbound, inr (refl, refl)),
            ))
        | inr (x, found) ↦
            let q = find-In (is_reusable fl dest now) s.inbound found in
            rw due (
              rw found (
                ground arith,
                λ t h.
                    let e : x ≡ t = ground arith in
                    rw (← e) (
                      ground (arith, q.1, nat_beq_iff x.destination_hash dest),
                      q.0,
                      inl (refl, ground (arith, q.1)),
                    ),
              ))
      ]
    ]

    -- Issued again at the same time, the same ticket comes back and nothing is added, whatever the
    -- new random token, if a new ticket outlives the renewal window.
    issue_again :
        lt (of_nat ticket_renew) (sub (add now (of_nat expiry_secs)) now) ≡ true
        → (random' : Bytes) (t : Ticket fl)
        → (issue_for fl random dest expiry_secs now s).1 ≡ some t
        → issue_for fl random' dest expiry_secs now (issue_for fl random dest expiry_secs now s).0
          ≡ ((issue_for fl random dest expiry_secs now s).0, some t)
    unfolding issue_for should_issue_for
    issue_again long random' t h = elim (Option-cases (find (is_reusable fl dest now) s.inbound)) [
      | inl miss ↦ ground (
        arith,
        nat_beq_iff dest dest,
        find-append_last (is_reusable fl dest now) fresh s.inbound miss,
      )
      | inr (x, found) ↦ ground arith
    ]

  -- After a delivery a ticket is withheld from that destination exactly for the interval, and every
  -- other destination is as before.
  delivered_throttles :
      (dest : ℕ) (at : F64) (s : TicketStore fl) (d : ℕ) (now : F64)
      → should_issue_for fl d now (mark_ticket_delivered fl dest at s) ≡ (
          if dest == d
          then not (lt (sub now at) (of_nat ticket_interval))
          else should_issue_for fl d now s)
  unfolding should_issue_for mark_ticket_delivered
  delivered_throttles dest at s d now = ground (arith, get-insert dest d at s.last_deliveries)
