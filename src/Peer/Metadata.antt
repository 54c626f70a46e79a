-- ===== src/Peer/Metadata.antt =====
-- `bounded_peer_metadata` (crates/lxmf-core/src/peer.rs): what is kept of announced metadata.
use rs_lxmf.Prelude.{
  ℕ, suc, ◌+◌, ◌≤◌, ◌≡◌, inl, inr, Option, none, some, [], ◌∷◌, arith, nat_eq, ◌==◌, if◌then◌else◌,
  ltb, length, Bytes, Bool-cases, saturating_add, usize_max, take, length-take-le,
}
use rs_lxmf.Map
use rs_lxmf.Map.{Map}

abbrev pub max_peer_metadata_entries : ℕ
max_peer_metadata_entries = 16

abbrev pub max_peer_metadata_value_bytes : ℕ
max_peer_metadata_value_bytes = 1024

abbrev pub max_peer_metadata_bytes : ℕ
max_peer_metadata_bytes = 4096

-- `sort_by_key` on the keys of a map, which are distinct
unfoldable pub insert_by_key : ℕ × Bytes → Map ℕ Bytes → Map ℕ Bytes
insert_by_key x [] = x ∷ []
insert_by_key x (y ∷ ys) =
    let rest = insert_by_key x ys in if ltb y.0 x.0 then y ∷ rest else x ∷ y ∷ ys

unfoldable pub sort_by_key : Map ℕ Bytes → Map ℕ Bytes
unfolding insert_by_key
sort_by_key [] = []
sort_by_key (x ∷ xs) = insert_by_key x (sort_by_key xs)

-- The loop over the sorted entries. The keys that come are distinct and sorted, so that `insert` into
-- the retained map puts a new entry.
unfoldable pub retain_bounded : Map ℕ Bytes → ℕ → Map ℕ Bytes → Map ℕ Bytes
retain_bounded [] retained_bytes retained = retained
retain_bounded ((k, v) ∷ m) retained_bytes retained =
    let skipped = retain_bounded m retained_bytes retained in
    let kept = retain_bounded m (retained_bytes + (1 + length v)) (Map.insert k v retained) in
    if ltb max_peer_metadata_value_bytes (length v)
    then skipped
    else if ltb max_peer_metadata_bytes
        (saturating_add usize_max retained_bytes (saturating_add usize_max 1 (length v)))
    then skipped
    else kept

unfoldable pub bounded_peer_metadata : Option (Map ℕ Bytes) → Option (Map ℕ Bytes)
unfolding sort_by_key take retain_bounded
bounded_peer_metadata none = none
bounded_peer_metadata (some m) =
    some (retain_bounded (take max_peer_metadata_entries (sort_by_key m)) 0 [])

-- one byte for each key, and the bytes of each value
unfoldable pub metadata_bytes : Map ℕ Bytes → ℕ
metadata_bytes [] = 0
metadata_bytes ((k, v) ∷ m) = (1 + length v) + metadata_bytes m

abbrev pub AllShort : Map ℕ Bytes → Type 0
AllShort [] = Unit {0}
AllShort ((k, v) ∷ m) = (length v ≤ max_peer_metadata_value_bytes) × AllShort m

metadata_bytes-insert-le :
    (k : ℕ) (v : Bytes) (m : Map ℕ Bytes)
    → metadata_bytes (Map.insert k v m) ≤ metadata_bytes m + (1 + length v)
unfolding metadata_bytes Map.insert
metadata_bytes-insert-le k v [] = omega arith
metadata_bytes-insert-le k v ((j, w) ∷ m) = ground (arith, metadata_bytes-insert-le k v m)

insert-AllShort :
    (k : ℕ) (v : Bytes) (m : Map ℕ Bytes)
    → length v ≤ max_peer_metadata_value_bytes
    → AllShort m
    → AllShort (Map.insert k v m)
unfolding Map.insert
insert-AllShort k v [] h s = (h, tt)
insert-AllShort k v ((j, w) ∷ m) h s = elim (Bool-cases (j == k)) [
  | inl e ↦ rw e (h, s.1)
  | inr e ↦ rw e (s.0, insert-AllShort k v m h s.1)
]

length-insert-le : (k : ℕ) (v : Bytes) (m : Map ℕ Bytes) → length (Map.insert k v m) ≤ length m + 1
unfolding Map.insert
length-insert-le k v [] = omega arith
length-insert-le k v ((j, w) ∷ m) = ground (arith, length-insert-le k v m)

record IsSmall (n : ℕ) (m : Map ℕ Bytes) : Type 0 where
  few : length m ≤ n
  total : metadata_bytes m ≤ max_peer_metadata_bytes
  short : AllShort m

retain_bounded_lem :
    (m : Map ℕ Bytes) (bytes : ℕ) (retained : Map ℕ Bytes)
    → metadata_bytes retained ≤ bytes
    → bytes ≤ max_peer_metadata_bytes
    → AllShort retained
    → IsSmall (length retained + length m) (retain_bounded m bytes retained)
unfolding retain_bounded
retain_bounded_lem [] bytes retained t b s = record {
  few = omega arith;
  total = omega arith;
  short = s;
}
retain_bounded_lem ((k, v) ∷ m) bytes retained t b s =
    let skipped = retain_bounded_lem m bytes retained t b s in
    let weaker : IsSmall (length retained + suc (length m)) (retain_bounded m bytes retained) =
      record { few = omega (arith, skipped.few); total = skipped.total; short = skipped.short } in
    elim (Bool-cases (ltb max_peer_metadata_value_bytes (length v))) [
      | inl long ↦ rw (long, retain_bounded) weaker
      | inr short ↦
          elim (Bool-cases (
            ltb max_peer_metadata_bytes
              (saturating_add usize_max bytes (saturating_add usize_max 1 (length v))))) [
                | inl full ↦ rw (short, retain_bounded) (rw full weaker)
                | inr room ↦
                    let q =
                      retain_bounded_lem m (bytes + (1 + length v)) (Map.insert k v retained)
                        (omega (arith, metadata_bytes-insert-le k v retained)) (ground arith)
                        (insert-AllShort k v retained (ground arith) s) in
                    rw (short, retain_bounded)
                      (rw room (record {
                        few = omega (arith, q.few, length-insert-le k v retained);
                        total = q.total;
                        short = q.short;
                      }))
              ]
    ]

-- Whatever a peer announces, at most 16 entries and 4096 bytes of it are kept, and no value of more
-- than 1024 bytes.
pub bounded_metadata_lem :
    (announced : Option (Map ℕ Bytes)) (m : Map ℕ Bytes)
    → bounded_peer_metadata announced ≡ some m
    → (length m ≤ 16) × (metadata_bytes m ≤ 4096) × AllShort m
unfolding bounded_peer_metadata
bounded_metadata_lem none m h = absurd (ground arith)
bounded_metadata_lem (some a) m h =
    let sorted = take max_peer_metadata_entries (sort_by_key a) in
    let q =
      retain_bounded_lem sorted 0 [] (unfold metadata_bytes in omega arith) (omega arith) tt in
    let e : retain_bounded sorted 0 [] ≡ m = ground arith in
    let s : IsSmall (0 + length sorted) m = rw e at q in
    (omega (arith, s.few, length-take-le 16 (sort_by_key a)), s.total, s.short)
