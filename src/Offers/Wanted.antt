-- ===== src/Offers/Wanted.antt =====
-- What a node asks for is what it lacks (crates/lxmf-core/src/propagation_offer.rs).
use rs_lxmf.Prelude.{
  ℕ, ◌≤◌, ◌<◌, ◌≡◌, ◌⊎◌, inl, inr, Bool, true, false, not, Bool-cases, List, [], ◌∷◌, nat_eq,
  nat_beq, refl, sym, ap, length, filter, length-filter-le, Bytes, arith, ok, err,
}
use rs_lxmf.Stamps.{Hashes}
use rs_lxmf.Offers.{
  PnOfferEvaluation, have_all, want_all, want_some, invalid_key, evaluation_of, evaluate_decoded,
  DecodedOffer, key_valid,
}

-- the ids that an answer asks for
unfoldable pub asked : PnOfferEvaluation → List ℕ → List ℕ
asked have_all offered = []
asked want_all offered = offered
asked (want_some ids) offered = ids

-- a list of wanted ids stands for some, not for none and not for all of them
abbrev pub IsProper : PnOfferEvaluation → List ℕ → Type 0
IsProper have_all offered = Unit {0}
IsProper want_all offered = 0 < length offered
IsProper (want_some ids) offered = (0 < length ids) × (length ids < length offered)

filter_full : (p : ℕ → Bool) (xs : List ℕ) → length (filter p xs) ≡ length xs → filter p xs ≡ xs
unfolding filter
filter_full p [] h = refl
filter_full p (x ∷ xs) h = elim (Bool-cases (p x)) [
  | inl keeps ↦ rw keeps (ap (λ l. x ∷ l) (filter_full p xs (omega (arith, rw keeps at h))))
  | inr drops ↦ absurd (omega (arith, rw drops at h, length-filter-le p xs))
]

evaluation_lem :
    (wanted offered : List ℕ)
    → length wanted ≤ length offered
    → (length wanted ≡ length offered → wanted ≡ offered)
    → (asked (evaluation_of wanted offered) offered ≡ wanted)
      × IsProper (evaluation_of wanted offered) offered
unfolding asked
evaluation_lem [] offered le full = (refl, tt)
evaluation_lem (id ∷ ids) offered le full =
    elim (Bool-cases (nat_beq (length (id ∷ ids)) (length offered))) [
      | inl same ↦ rw same (sym (full (ground (arith, same))), ground (arith, same))
      | inr other ↦ rw other (refl, (omega arith, ground (arith, other, le)))
    ]

-- An offer is answered with an error exactly when its peering key is not valid. Else the answer
-- asks for the offered ids that are not stored, in their order; it lists ids only where that is
-- some of them, neither none nor all, and asks for all only of an offer that has some.
pub evaluate_decoded_lem :
    (hs : Hashes) (offer : DecodedOffer) (local remote : Bytes) (peering_cost : ℕ)
    (stored : ℕ → Bool)
    → ((evaluate_decoded hs offer local remote peering_cost stored ≡ err invalid_key)
        × (key_valid hs local remote peering_cost offer.peering_key ≡ false))
      ⊎ ((e : PnOfferEvaluation) × (evaluate_decoded hs offer local remote peering_cost stored
            ≡ ok e)
          × (key_valid hs local remote peering_cost offer.peering_key ≡ true)
          × (asked e offer.transient_ids ≡ filter (λ id. not (stored id)) offer.transient_ids)
          × IsProper e offer.transient_ids)
unfolding evaluate_decoded
evaluate_decoded_lem hs offer local remote peering_cost stored =
    elim (Bool-cases (key_valid hs local remote peering_cost offer.peering_key)) [
      | inl valid ↦
          let wanted = filter (λ id. not (stored id)) offer.transient_ids in
          let e =
            evaluation_lem wanted offer.transient_ids
              (length-filter-le (λ id. not (stored id)) offer.transient_ids)
              (filter_full (λ id. not (stored id)) offer.transient_ids) in
          inr (evaluation_of wanted offer.transient_ids, rw valid refl, valid, e.0, e.1)
      | inr invalid ↦ inl (rw invalid refl, invalid)
    ]
