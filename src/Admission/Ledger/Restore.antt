-- ===== src/Admission/Ledger/Restore.antt =====
-- `from_records`: a persisted ledger is restored whole or refused (crates/lxmf-core/src/admission.rs).
use rs_lxmf.Prelude.{
  ℕ, ◌+◌, ◌≡◌, false, some, List, [], ◌∷◌, ◌&&◌, ◌||◌, arith, nat_eq, nat_beq_iff, ◌==◌, length, ok,
  refl, leb, sym, ◌∙◌,
}
use rs_lxmf.Map
use rs_lxmf.Map.{Map}
use rs_lxmf.Map.Laws.{get-insert}
use rs_lxmf.Map.Counts.{count_keys-insert, length-insert}
use rs_lxmf.Admission.{AdmissionScope, scope_eq, scope_beq_iff, SuppressionRecord}
use rs_lxmf.Admission.Ledger.{
  SuppressionLedger, global, per_identity, per_node, identity_count, node_count, saturated,
  is_invalid_row, NodeKey, node_key, node_key_eq, or_zero, restore, from_records,
}
use rs_lxmf.Admission.Ledger.Bounds.{IsBounded, insert-IsBounded}

-- the counters of the loop count the ledger's entries
record Counted (l : SuppressionLedger) (ids : Map ℕ ℕ) (nodes : Map NodeKey ℕ) : Type 0 where
  by_identity : (i : ℕ) → or_zero (Map.get i ids) ≡ identity_count i l
  by_node :
      (i n : ℕ) → or_zero (Map.get (record { identity = i; node = n }) nodes) ≡ node_count i n l

-- each row is valid, and the ledger finds it under its scope
abbrev pub AllFound : SuppressionLedger → List SuppressionRecord → Type 0
AllFound l [] = Unit {0}
AllFound l (r ∷ rs) = ((Map.get r.scope l ≡ some r) × (is_invalid_row r ≡ false)) × AllFound l rs

module _ (r : SuppressionRecord) (l : SuppressionLedger) (ids : Map ℕ ℕ) (nodes : Map NodeKey ℕ)
    (c : Counted l ids nodes) (fresh : Map.contains_key r.scope l ≡ false) where
  count_row :
      Counted
        (Map.insert r.scope r l)
        (Map.insert r.scope.identity (or_zero (Map.get r.scope.identity ids) + 1) ids)
        (Map.insert (node_key r) (or_zero (Map.get (node_key r) nodes) + 1) nodes)
  unfolding identity_count node_count
  count_row = record {
    by_identity = λ i. ground (
      arith,
      get-insert r.scope.identity i (or_zero (Map.get r.scope.identity ids) + 1) ids,
      count_keys-insert (λ (k : AdmissionScope). k.identity == i) r.scope r l,
      nat_beq_iff r.scope.identity i,
      c.by_identity i,
    );
    by_node = λ i n. ground (
      arith,
      get-insert (node_key r) (record { identity = i; node = n })
          (or_zero (Map.get (node_key r) nodes) + 1) nodes,
      count_keys-insert (λ (k : AdmissionScope). k.identity == i && k.node == n) r.scope r l,
      nat_beq_iff r.scope.identity i,
      nat_beq_iff r.scope.node n,
      c.by_node i n,
    );
  }

  -- the loop's test is that of `saturated`
  loop_test :
      (leb global (length l)
        || leb per_identity (or_zero (Map.get r.scope.identity ids))
        || leb per_node (or_zero (Map.get (node_key r) nodes)))
      ≡ saturated r.scope.identity r.scope.node l
  unfolding saturated
  loop_test = rw (c.by_identity r.scope.identity) (rw (c.by_node r.scope.identity r.scope.node))

-- a row that was accepted
record Accepted (r : SuppressionRecord) (rs : List SuppressionRecord) (l l' : SuppressionLedger)
    (ids : Map ℕ ℕ) (nodes : Map NodeKey ℕ) : Type 0 where
  fresh : Map.contains_key r.scope l ≡ false
  valid : is_invalid_row r ≡ false
  room :
      (leb global (length l)
        || leb per_identity (or_zero (Map.get r.scope.identity ids))
        || leb per_node (or_zero (Map.get (node_key r) nodes)))
      ≡ false
  rest :
      restore rs
        (Map.insert r.scope r l)
        (Map.insert r.scope.identity (or_zero (Map.get r.scope.identity ids) + 1) ids)
        (Map.insert (node_key r) (or_zero (Map.get (node_key r) nodes) + 1) nodes)
      ≡ ok l'

read_row :
    (r : SuppressionRecord) (rs : List SuppressionRecord) (l : SuppressionLedger) (ids : Map ℕ ℕ)
    (nodes : Map NodeKey ℕ) {l' : SuppressionLedger}
    → restore (r ∷ rs) l ids nodes ≡ ok l'
    → Accepted r rs l l' ids nodes
unfolding restore
read_row r rs l ids nodes h = record {
  fresh = ground arith;
  valid = ground arith;
  room = ground arith;
  rest = ground arith;
}

-- a row with a fresh scope hides no entry
kept_entry :
    (k j : AdmissionScope) (r s : SuppressionRecord) (l : SuppressionLedger)
    → Map.contains_key k l ≡ false
    → Map.get j l ≡ some s
    → Map.get j (Map.insert k r l) ≡ some s
kept_entry k j r s l fresh h = ground (arith, get-insert k j r l, scope_beq_iff k j)

-- what the loop makes of the rows that are left
record Restored (rs : List SuppressionRecord) (l l' : SuppressionLedger) : Type 0 where
  bounded : IsBounded l'
  sized : length l' ≡ length l + length rs
  old : (j : AdmissionScope) (s : SuppressionRecord) → Map.get j l ≡ some s → Map.get j l' ≡ some s
  rows : AllFound l' rs

restore_lem :
    (rs : List SuppressionRecord) (l : SuppressionLedger) (ids : Map ℕ ℕ) (nodes : Map NodeKey ℕ)
    {l' : SuppressionLedger}
    → Counted l ids nodes
    → IsBounded l
    → restore rs l ids nodes ≡ ok l'
    → Restored rs l l'
unfolding restore
restore_lem [] l ids nodes {l'} c b h =
    let e : l ≡ l' = ground arith in
    rw (← e) (record { bounded = b; sized = omega arith; old = λ j s q. q; rows = tt })
restore_lem (r ∷ rs) l ids nodes {l'} c b h =
    let a = read_row r rs l ids nodes h in
    let room : saturated r.scope.identity r.scope.node l ≡ false =
      sym (loop_test r l ids nodes c a.fresh) ∙ a.room in
    let q =
      restore_lem rs (Map.insert r.scope r l) _ _ (count_row r l ids nodes c a.fresh)
        (insert-IsBounded l b r.scope r (λ _. room)) a.rest in
    record {
      bounded = q.bounded;
      sized = ground (arith, q.sized, length-insert r.scope r l, a.fresh);
      old = λ j s e. q.old j s (kept_entry r.scope j r s l a.fresh e);
      rows = (
        (
          q.old r.scope r
              (ground (arith, get-insert r.scope r.scope r l, scope_beq_iff r.scope r.scope)),
          a.valid,
        ),
        q.rows,
      );
    }

-- A ledger that is restored holds each row under its scope, holds nothing else (it has as many
-- entries as there are rows), has only valid rows, and meets the quotas.
pub from_records_lem :
    (rs : List SuppressionRecord) (l : SuppressionLedger)
    → from_records rs ≡ ok l
    → IsBounded l × (length l ≡ length rs) × AllFound l rs
unfolding from_records
from_records_lem rs l h =
    let q = restore_lem rs [] [] [] empty_counted empty_bounded h in
    (q.bounded, omega (arith, q.sized), q.rows)
  where
    empty_counted : Counted [] [] []
    empty_counted =
        unfold identity_count node_count Map.count_keys Map.get in
        record { by_identity = λ i. refl; by_node = λ i n. refl }

    empty_bounded : IsBounded []
    empty_bounded =
        unfold identity_count node_count Map.count_keys in
        record { overall = omega arith; identities = λ i. omega arith; nodes = λ i n. omega arith }
