-- ===== src/Api/Propagation/Tests.antt =====
-- A join of two datasets.
use osaip.Base.{◌≡◌, refl, [], ◌∷◌, All, contains, arith}
use osaip.Api.Propagation.{
  Classification, BbnLevel, Confidentiality, Dataset, class_rank, bbn_rank, conf_rank,
  apply_classification_floor, purpose_intersection, legal_basis_union,
}
use osaip.Api.Propagation.Floor.{
  IsBelow, apply_classification_floor-IsBelow, apply_classification_floor_least,
}
use osaip.Api.Propagation.Purposes.{every_has, purpose_intersection-contains}

abbrev taxes : Dataset
taxes = record {
  classification = Classification.bsn;
  bbn_level = BbnLevel.unset;
  confidentiality = Confidentiality.intern;
  legal_basis = "AWR";
  purpose_codes = "audit" ∷ "levy" ∷ [];
}

abbrev parcels : Dataset
parcels = record {
  classification = Classification.none;
  bbn_level = BbnLevel.bbn2;
  confidentiality = Confidentiality.unset;
  legal_basis = "Kadasterwet";
  purpose_codes = "levy" ∷ "planning" ∷ [];
}

abbrev output : Dataset
output = record {
  classification = Classification.none;
  bbn_level = BbnLevel.bbn3;
  confidentiality = Confidentiality.unset;
  legal_basis = "";
  purpose_codes = [];
}

abbrev strictest : Dataset
strictest = record output {
  classification = Classification.bsn;
  confidentiality = Confidentiality.geheim;
}

purposes : purpose_intersection (taxes ∷ parcels ∷ []) ≡ "levy" ∷ []
unfolding purpose_intersection
purposes = refl

bases : legal_basis_union (taxes ∷ parcels ∷ taxes ∷ []) ≡ "AWR · Kadasterwet"
unfolding legal_basis_union
bases = refl

apply_classification_floor-IsBelow_example :
    IsBelow output (apply_classification_floor output (taxes ∷ parcels ∷ []))
    × All
        (λ d. IsBelow d (apply_classification_floor output (taxes ∷ parcels ∷ [])))
        (taxes ∷ parcels ∷ [])
apply_classification_floor-IsBelow_example =
    apply_classification_floor-IsBelow output (taxes ∷ parcels ∷ [])

output_and_inputs-IsBelow :
    IsBelow output strictest × All (λ d. IsBelow d strictest) (taxes ∷ parcels ∷ [])
unfolding class_rank bbn_rank conf_rank
output_and_inputs-IsBelow = (under, (under_taxes, (under_parcels, tt)))
  where
    under : IsBelow output strictest
    under = record {
      classification = omega arith;
      bbn_level = omega arith;
      confidentiality = omega arith;
    }

    under_taxes : IsBelow taxes strictest
    under_taxes = record {
      classification = omega arith;
      bbn_level = omega arith;
      confidentiality = omega arith;
    }

    under_parcels : IsBelow parcels strictest
    under_parcels = record {
      classification = omega arith;
      bbn_level = omega arith;
      confidentiality = omega arith;
    }

apply_classification_floor_least_example :
    IsBelow (apply_classification_floor output (taxes ∷ parcels ∷ [])) strictest
apply_classification_floor_least_example =
    apply_classification_floor_least output strictest (taxes ∷ parcels ∷ [])
      output_and_inputs-IsBelow.0 output_and_inputs-IsBelow.1

purpose_intersection-contains_example :
    contains "audit" (purpose_intersection (taxes ∷ parcels ∷ []))
    ≡ every_has "audit" (taxes ∷ parcels ∷ [])
purpose_intersection-contains_example = purpose_intersection-contains "audit" taxes (parcels ∷ [])
