-- ===== src/Ticket/Keyed.antt =====
-- Outbound tickets stand under their own destination, and a snapshot restores the store
-- (crates/lxmf-core/src/ticket.rs).
use rs_lxmf.Prelude.{
  ℕ, ◌≡◌, inl, inr, Bool, none, some, Option, List, [], ◌∷◌, map, arith, nat_eq, nat_beq_iff, ◌==◌,
  Float, Bool-cases, refl, ◌∙◌,
}
use rs_lxmf.Map
use rs_lxmf.Map.{Map}
use rs_lxmf.Map.Laws.{get-insert}
use rs_lxmf.Map.Counts.{IsDistinct}
use rs_lxmf.Ticket.{
  Ticket, TicketStore, TicketStoreSnapshot, remember_outbound, cull, collect_outbound, snapshot,
  replace_snapshot, replace_legacy,
}

module _ (fl : Float) where
  open fl use {F64}

  -- each entry's key is its ticket's destination
  abbrev pub AllKeyed : Map ℕ (Ticket fl) → Type 0
  AllKeyed [] = Unit {0}
  AllKeyed ((d, t) ∷ m) = (t.destination_hash ≡ d) × AllKeyed m

  pub get-AllKeyed :
      (d : ℕ) (t : Ticket fl) (m : Map ℕ (Ticket fl))
      → AllKeyed m
      → Map.get d m ≡ some t
      → t.destination_hash ≡ d
  unfolding Map.get
  get-AllKeyed d t [] h e = absurd (ground arith)
  get-AllKeyed d t ((k, u) ∷ m) h e = ground (arith, get-AllKeyed d t m h.1, nat_beq_iff k d)

  insert-AllKeyed :
      (t : Ticket fl) (m : Map ℕ (Ticket fl))
      → AllKeyed m
      → AllKeyed (Map.insert t.destination_hash t m)
  unfolding Map.insert
  insert-AllKeyed t [] h = (refl, tt)
  insert-AllKeyed t ((k, u) ∷ m) h = elim (Bool-cases (k == t.destination_hash)) [
    | inl e ↦ rw e (refl, h.1)
    | inr e ↦ rw e (h.0, insert-AllKeyed t m h.1)
  ]

  remove-AllKeyed : (d : ℕ) (m : Map ℕ (Ticket fl)) → AllKeyed m → AllKeyed (Map.remove d m)
  unfolding Map.remove
  remove-AllKeyed d [] h = h
  remove-AllKeyed d ((k, u) ∷ m) h = elim (Bool-cases (k == d)) [
    | inl e ↦ rw e (remove-AllKeyed d m h.1)
    | inr e ↦ rw e (h.0, remove-AllKeyed d m h.1)
  ]

  retain-AllKeyed :
      (p : ℕ → Ticket fl → Bool) (m : Map ℕ (Ticket fl)) → AllKeyed m → AllKeyed (Map.retain p m)
  unfolding Map.retain
  retain-AllKeyed p [] h = h
  retain-AllKeyed p ((k, u) ∷ m) h = elim (Bool-cases (p k u)) [
    | inl e ↦ rw e (h.0, retain-AllKeyed p m h.1)
    | inr e ↦ rw e (remove-AllKeyed k (Map.retain p m) (retain-AllKeyed p m h.1))
  ]

  collect-AllKeyed :
      (ts : List (Ticket fl)) (m : Map ℕ (Ticket fl))
      → AllKeyed m
      → AllKeyed (collect_outbound fl ts m)
  unfolding collect_outbound
  collect-AllKeyed [] m h = h
  collect-AllKeyed (t ∷ ts) m h =
      collect-AllKeyed ts (Map.insert t.destination_hash t m) (insert-AllKeyed t m h)

  -- Every call that writes the outbound map keeps each ticket under its own destination: learning a
  -- ticket, culling, and loading a snapshot or a legacy list, whatever these hold.
  pub calls-AllKeyed :
      (s : TicketStore fl)
      → AllKeyed s.outbound
      → ((t : Ticket fl) → AllKeyed (remember_outbound fl t s).outbound)
        × ((now : F64) → AllKeyed (cull fl now s).outbound)
        × ((p : TicketStoreSnapshot fl) → AllKeyed (replace_snapshot fl p).outbound)
        × ((ts : List (Ticket fl)) → AllKeyed (replace_legacy fl ts).outbound)
  unfolding remember_outbound cull replace_snapshot replace_legacy
  calls-AllKeyed s h = (
    λ t. insert-AllKeyed t s.outbound h,
    λ now. retain-AllKeyed _ s.outbound h,
    λ p. collect-AllKeyed p.outbound [] tt,
    λ ts. collect-AllKeyed ts [] tt,
  )

  abbrev or_else : Option (Ticket fl) → Option (Ticket fl) → Option (Ticket fl)
  or_else none o = o
  or_else (some t) o = some t

  -- collecting the values of a map with its own keys puts each back under its key
  collect_values :
      (m acc : Map ℕ (Ticket fl)) (d : ℕ)
      → AllKeyed m
      → IsDistinct m
      → Map.get d (collect_outbound fl (map (λ e. e.1) m) acc)
        ≡ or_else (Map.get d m) (Map.get d acc)
  unfolding collect_outbound Map.get
  collect_values [] acc d k h = refl
  collect_values ((j, t) ∷ m) acc d k h = ground (
    arith,
    collect_values m (Map.insert t.destination_hash t acc) d k.1 h.1,
    get-insert t.destination_hash d t acc,
    nat_beq_iff j d,
  )

  -- A snapshot, loaded again, gives a store with the same outbound ticket for each destination and
  -- the same inbound tickets and delivery times, if each outbound ticket stands once, under its own
  -- destination.
  pub replace_snapshot-snapshot :
      (s : TicketStore fl)
      → AllKeyed s.outbound
      → IsDistinct s.outbound
      → let s' = replace_snapshot fl (snapshot fl s) in
        ((d : ℕ) → Map.get d s'.outbound ≡ Map.get d s.outbound)
        × (s'.inbound ≡ s.inbound)
        × (s'.last_deliveries ≡ s.last_deliveries)
  unfolding replace_snapshot snapshot Map.get
  replace_snapshot-snapshot s k h =
      (λ d. collect_values s.outbound [] d k h ∙ or_none (Map.get d s.outbound), refl, refl)
    where
      or_none : (o : Option (Ticket fl)) → or_else o none ≡ o
      or_none none = refl
      or_none (some t) = refl
