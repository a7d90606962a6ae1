-- ===== src/Api/Propagation/Floor.antt =====
-- The output is labelled with the least label above its own and those of its inputs.
use osaip.Base.{
  ℕ, ◌≤◌, refl, List, [], ◌∷◌, map, All, max_from, max_from-le, All-map_rule, ltb, Bool-cases, inl,
  inr, arith,
}
use osaip.Api.Propagation.{
  Classification, BbnLevel, Confidentiality, Dataset, class_rank, bbn_rank, conf_rank, max_of,
  raise_to, apply_classification_floor,
}

-- On each of the three ladders the first label is no higher.
pub record IsBelow (a b : Dataset) : Type 0 where
  pub classification : class_rank a.classification ≤ class_rank b.classification
  pub bbn_level : bbn_rank a.bbn_level ≤ bbn_rank b.bbn_level
  pub confidentiality : conf_rank a.confidentiality ≤ conf_rank b.confidentiality

module _ {A : Type 0} (rank : A → ℕ) (field : Dataset → A) where
  All-fields :
      (n : ℕ) (ds : List Dataset)
      → All (λ x. rank x ≤ n) (map field ds)
      → All (λ d. rank (field d) ≤ n) ds
  All-fields n [] h = tt
  All-fields n (d ∷ ds) h = (h.0, All-fields n ds h.1)

  max_of-le :
      (lowest : A) (ds : List Dataset)
      → All (λ d. rank (field d) ≤ rank (max_of rank lowest (map field ds))) ds
  unfolding max_of
  max_of-le lowest [] = tt
  max_of-le lowest (d ∷ ds) =
      let (here, later) = max_from-le rank (field d) (map field ds) refl in
      (here, All-fields (rank (max_from rank (field d) (map field ds))) ds later)

  max_from_least :
      (bound : ℕ) (best : A) (ds : List Dataset)
      → rank best ≤ bound
      → All (λ d. rank (field d) ≤ bound) ds
      → rank (max_from rank best (map field ds)) ≤ bound
  max_from_least bound best [] h hs = h
  max_from_least bound best (d ∷ ds) h hs = elim (Bool-cases (ltb (rank best) (rank (field d)))) [
    | inl more ↦ rw (max_from, more) (max_from_least bound (field d) ds hs.0 hs.1)
    | inr less ↦ rw (max_from, less) (max_from_least bound best ds h hs.1)
  ]

  max_of_least :
      (bound : ℕ) (lowest : A) (ds : List Dataset)
      → rank lowest ≤ bound
      → All (λ d. rank (field d) ≤ bound) ds
      → rank (max_of rank lowest (map field ds)) ≤ bound
  unfolding max_of
  max_of_least bound lowest [] h hs = h
  max_of_least bound lowest (d ∷ ds) h hs = max_from_least bound (field d) ds hs.0 hs.1

  raise_to-le :
      (floor value : A)
      → (rank floor ≤ rank (raise_to rank floor value))
        × (rank value ≤ rank (raise_to rank floor value))
  unfolding raise_to
  raise_to-le floor value = elim (Bool-cases (ltb (rank value) (rank floor))) [
    | inl more ↦ rw more (ground arith)
    | inr less ↦ rw less (ground arith)
  ]

  raise_to_least :
      (bound : ℕ) (floor value : A)
      → rank floor ≤ bound
      → rank value ≤ bound
      → rank (raise_to rank floor value) ≤ bound
  unfolding raise_to
  raise_to_least bound floor value h hs = elim (Bool-cases (ltb (rank value) (rank floor))) [
    | inl more ↦ rw more h
    | inr less ↦ rw less hs
  ]

module _ {A : Type 0} (rank : A → ℕ) (field : Dataset → A) where
  -- One ladder of the output, with the floor of the inputs.
  raised : A → A → List Dataset → A
  raised lowest value ds = raise_to rank (max_of rank lowest (map field ds)) value

  raised-le :
      (lowest value : A) (ds : List Dataset)
      → (rank value ≤ rank (raised lowest value ds))
        × All (λ d. rank (field d) ≤ rank (raised lowest value ds)) ds
  unfolding raised
  raised-le lowest value ds =
      let (floor_le, value_le) = raise_to-le rank field (max_of rank lowest (map field ds)) value in
      (
        value_le,
        All-map_rule
            (λ (d : Dataset) (h : rank (field d) ≤ rank (max_of rank lowest (map field ds))).
              omega (arith, floor_le, h))
            ds (max_of-le rank field lowest ds),
      )

  raised_least :
      (bound : ℕ) (lowest value : A) (ds : List Dataset)
      → rank lowest ≤ bound
      → rank value ≤ bound
      → All (λ d. rank (field d) ≤ bound) ds
      → rank (raised lowest value ds) ≤ bound
  unfolding raised
  raised_least bound lowest value ds low old new =
      raise_to_least rank field bound (max_of rank lowest (map field ds)) value
        (max_of_least rank field bound lowest ds low new) old

All-IsBelow :
    (b : Dataset) (ds : List Dataset)
    → All (λ (d : Dataset). class_rank d.classification ≤ class_rank b.classification) ds
    → All (λ (d : Dataset). bbn_rank d.bbn_level ≤ bbn_rank b.bbn_level) ds
    → All (λ (d : Dataset). conf_rank d.confidentiality ≤ conf_rank b.confidentiality) ds
    → All (λ d. IsBelow d b) ds
All-IsBelow b [] x y z = tt
All-IsBelow b (d ∷ ds) x y z = (
  record { classification = x.0; bbn_level = y.0; confidentiality = z.0 },
  All-IsBelow b ds x.1 y.1 z.1,
)

-- The output ends no lower than each input and no lower than it was, on all three ladders: a label
-- that was raised by hand is never lowered.
pub apply_classification_floor-IsBelow :
    (output : Dataset) (inputs : List Dataset)
    → IsBelow output (apply_classification_floor output inputs)
      × All (λ d. IsBelow d (apply_classification_floor output inputs)) inputs
unfolding apply_classification_floor raised
apply_classification_floor-IsBelow output inputs =
    let (c, cs) =
      raised-le class_rank (λ (d : Dataset). d.classification) Classification.none
        output.classification inputs in
    let (b, bs) =
      raised-le bbn_rank (λ (d : Dataset). d.bbn_level) BbnLevel.unset output.bbn_level inputs in
    let (k, ks) =
      raised-le conf_rank (λ (d : Dataset). d.confidentiality) Confidentiality.unset
        output.confidentiality inputs in
    (
      record { classification = c; bbn_level = b; confidentiality = k },
      All-IsBelow (apply_classification_floor output inputs) inputs cs bs ks,
    )

-- The output ends no higher than any label that is above its own and those of its inputs, on all
-- three ladders.
pub apply_classification_floor_least :
    (output bound : Dataset) (inputs : List Dataset)
    → IsBelow output bound
    → All (λ d. IsBelow d bound) inputs
    → IsBelow (apply_classification_floor output inputs) bound
unfolding apply_classification_floor raised
apply_classification_floor_least output bound inputs below all_below = record {
  classification =
      raised_least class_rank (λ (d : Dataset). d.classification) (class_rank bound.classification)
        Classification.none output.classification inputs (unfold class_rank in omega arith)
        below.classification (All-map_rule (λ d h. h.classification) inputs all_below);
  bbn_level =
      raised_least bbn_rank (λ (d : Dataset). d.bbn_level) (bbn_rank bound.bbn_level) BbnLevel.unset
        output.bbn_level inputs (unfold bbn_rank in omega arith) below.bbn_level
        (All-map_rule (λ d h. h.bbn_level) inputs all_below);
  confidentiality =
      raised_least conf_rank (λ (d : Dataset). d.confidentiality) (conf_rank bound.confidentiality)
        Confidentiality.unset output.confidentiality inputs (unfold conf_rank in omega arith)
        below.confidentiality (All-map_rule (λ d h. h.confidentiality) inputs all_below);
}
