-- ===== src/Api/Propagation/Purposes.antt =====
-- Which purposes the output keeps.
use osaip.Base.{
  ◌≡◌, refl, ap, String, Bool, true, ◌&&◌, List, [], ◌∷◌, keep, contains, ◌=s◌, eq_iff, Bool-cases,
  inl, inr, arith,
}
use osaip.Api.Propagation.{Dataset, common_codes, purpose_intersection}

contains-keep :
    (test : String → Bool) (code : String) (codes : List String)
    → contains code (keep test codes) ≡ (contains code codes && test code)
contains-keep test code [] = refl
contains-keep test code (c ∷ cs) = elim (Bool-cases (c =s code)) [
  | inl same ↦
      let e = (eq_iff c code).0 same in
      elim (Bool-cases (test c)) [
        | inl kept ↦ rw (same, kept) (cc (e, kept, same))
        | inr dropped ↦ ground (arith, contains-keep test code cs, ap test e, same, dropped)
      ]
  | inr other ↦ elim (Bool-cases (test c)) [
    | inl kept ↦ rw (other, kept) (rw other (contains-keep test code cs))
    | inr dropped ↦ rw (other, dropped) (contains-keep test code cs)
  ]
]

-- Whether every one of the inputs has the code.
pub every_has : String → List Dataset → Bool
every_has code [] = true
every_has code (d ∷ ds) = contains code d.purpose_codes && every_has code ds

common_codes-contains :
    (code : String) (common : List String) (ds : List Dataset)
    → contains code (common_codes common ds) ≡ (contains code common && every_has code ds)
unfolding common_codes every_has
common_codes-contains code common [] = ground arith
common_codes-contains code common (d ∷ ds) = ground (
  arith,
  common_codes-contains code (keep (λ c. contains c d.purpose_codes) common) ds,
  contains-keep (λ c. contains c d.purpose_codes) code common,
)

-- A code is a purpose of the output exactly when it is one of every input.
pub purpose_intersection-contains :
    (code : String) (d : Dataset) (ds : List Dataset)
    → contains code (purpose_intersection (d ∷ ds)) ≡ every_has code (d ∷ ds)
unfolding purpose_intersection every_has
purpose_intersection-contains code d ds = ground (
  arith,
  contains-keep (λ c. contains c (common_codes d.purpose_codes ds)) code d.purpose_codes,
  common_codes-contains code d.purpose_codes ds,
)
