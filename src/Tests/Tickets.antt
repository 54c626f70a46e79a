-- ===== src/Tests/Tickets.antt =====
-- Tickets of crates/lxmf-core/src/ticket.rs on concrete inputs, with whole numbers for times.
use rs_lxmf.Prelude.{
  ℕ, ◌+◌, ◌-◌, ◌≡◌, ◌↔◌, ◌⊎◌, true, some, none, [], ◌∷◌, ◌++◌, arith, nat_eq, refl, ltb, In, find,
}
use rs_lxmf.Map
use rs_lxmf.Map.Counts.{}
use rs_lxmf.Ticket.{
  Ticket, TicketStore, is_recent, should_issue_for, issue_for, find_outbound, inbound_tokens, cull,
  snapshot, replace_snapshot, ticket_renew, ticket_grace,
}
use rs_lxmf.Ticket.Issue.{issue_for_lem}
use rs_lxmf.Ticket.Cull.{cull_invisible}
use rs_lxmf.Ticket.Keyed.{replace_snapshot-snapshot}
use rs_lxmf.Tests.Numbers.{whole}

abbrev ticket : Ticket whole
ticket = record { token = 1 ∷ 2 ∷ []; destination_hash = 5; expires = 5000000 }

abbrev store : TicketStore whole
store = record { outbound = (5, ticket) ∷ []; inbound = ticket ∷ []; last_deliveries = [] }

abbrev no_tickets : TicketStore whole
no_tickets = record { outbound = []; inbound = []; last_deliveries = [] }

abbrev issued : Ticket whole
issued = record { token = 9 ∷ []; destination_hash = 5; expires = 3001000 }

issue_runs : (issue_for whole (9 ∷ []) 5 3000000 1000 no_tickets).1 ≡ some issued
unfolding issue_for should_issue_for Map.get find
issue_runs = refl

issue_for_lem_example :
    (((issue_for whole (9 ∷ []) 5 3000000 1000 store).1 ≡ none)
      ↔ (is_recent whole 1000 (Map.get 5 store.last_deliveries) ≡ true))
    × ((t : Ticket whole)
        → (issue_for whole (9 ∷ []) 5 3000000 1000 store).1 ≡ some t
        → let s' = (issue_for whole (9 ∷ []) 5 3000000 1000 store).0 in
          (t.destination_hash ≡ 5)
          × In t s'.inbound
          × (((s' ≡ store) × (ltb ticket_renew (t.expires - 1000) ≡ true))
              ⊎ ((t ≡ issued) × (s' ≡ record store { inbound = store.inbound ++ issued ∷ [] }))))
issue_for_lem_example = issue_for_lem whole (9 ∷ []) 5 3000000 1000 store

grace_later : (now expires : ℕ) → ltb now expires ≡ true → ltb now (expires + ticket_grace) ≡ true
grace_later now expires h = ground arith

cull_invisible_example :
    (find_outbound whole 5 6000000 (cull whole 6000000 store) ≡ find_outbound whole 5 6000000 store)
    × (inbound_tokens whole 5 6000000 (cull whole 6000000 store)
        ≡ inbound_tokens whole 5 6000000 store)
    × (should_issue_for whole 5 6000000 (cull whole 6000000 store)
        ≡ should_issue_for whole 5 6000000 store)
cull_invisible_example = cull_invisible whole grace_later 6000000 store 5

replace_snapshot-snapshot_example :
    let s' = replace_snapshot whole (snapshot whole store) in
    ((d : ℕ) → Map.get d s'.outbound ≡ Map.get d store.outbound)
    × (s'.inbound ≡ store.inbound)
    × (s'.last_deliveries ≡ store.last_deliveries)
unfolding Map.get
replace_snapshot-snapshot_example = replace_snapshot-snapshot whole store (refl, tt) (refl, tt)
