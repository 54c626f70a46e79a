-- ===== src/Ticket/Cull.antt =====
-- What `cull` may drop (crates/lxmf-core/src/ticket.rs).
use rs_lxmf.Prelude.{
  ℕ, ◌≡◌, Bool, true, none, some, Option, not, map, ap, arith, nat_eq, filter-filter, Float, refl,
}
use rs_lxmf.Map.Laws.{get-retain, keep_if}
use rs_lxmf.Ticket.{
  TicketStore, is_valid, find_outbound, inbound_tokens, is_recent, should_issue_for, cull,
  ticket_grace, ticket_interval,
}

keep_if_twice {ℓ} :
    {A : Type ℓ} (p : A → Bool) (o : Option A) → keep_if p (keep_if p o) ≡ keep_if p o
keep_if_twice p none = refl
keep_if_twice p (some a) = ground arith

module _ (fl : Float) where
  open fl use {F64, of_nat, add, sub, lt}

  recent_kept :
      (now : F64) (o : Option F64)
      → is_recent fl now (keep_if (λ at. lt (sub now at) (of_nat ticket_interval)) o)
        ≡ is_recent fl now o
  recent_kept now none = refl
  recent_kept now (some at) = ground arith

  -- Culling is invisible to the queries at the same time: the outbound ticket of each destination,
  -- the inbound tokens of each destination in their order, and the throttle of each destination are
  -- what they were. (Assumes that adding the grace period to an expiry does not make it earlier.)
  pub cull_invisible :
      ((now expires : F64)
        → lt now expires ≡ true
        → lt now (add expires (of_nat ticket_grace)) ≡ true)
      → (now : F64) (s : TicketStore fl) (dest : ℕ)
      → (find_outbound fl dest now (cull fl now s) ≡ find_outbound fl dest now s)
        × (inbound_tokens fl dest now (cull fl now s) ≡ inbound_tokens fl dest now s)
        × (should_issue_for fl dest now (cull fl now s) ≡ should_issue_for fl dest now s)
  unfolding cull find_outbound inbound_tokens should_issue_for
  cull_invisible grace now s dest = (
    rw get-retain (keep_if_twice (is_valid fl now) _),
    ap (map (λ t. t.token)) (filter-filter _ _ s.inbound λ t h. grace now t.expires (ground arith)),
    rw get-retain (ap not (recent_kept now _)),
  )
