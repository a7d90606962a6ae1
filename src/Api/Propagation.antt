-- ===== src/Api/Propagation.antt =====
-- apps/api/osaip_api/propagation.py: how the labels of the inputs pass to the output. A column with a
-- CHECK constraint is an enumeration, with `unset` where it may be NULL.
pub mod Floor
pub mod Purposes
mod Tests
use Prim.Native.String.{◌++◌ as ◌+s◌}
use osaip.Base.{
  ℕ, String, Bool, true, false, not, ◌&&◌, List, [], ◌∷◌, ◌++◌, map, keep, contains, max_from, ltb,
  ◌=s◌, if◌then◌else◌,
}

pub data Classification : Type 0 where
  none persoonsgegevens bijzonder bsn : Classification

pub data BbnLevel : Type 0 where
  unset bbn1 bbn2 bbn3 : BbnLevel

pub data Confidentiality : Type 0 where
  unset intern vertrouwelijk geheim : Confidentiality

pub record Dataset : Type 0 where
  pub classification : Classification
  pub bbn_level : BbnLevel
  pub confidentiality : Confidentiality
  pub legal_basis : String
  pub purpose_codes : List String

-- `_CLASS_ORDER.index`, `_BBN_ORDER.index` and `_CONF_ORDER.index`
unfoldable pub class_rank : Classification → ℕ
class_rank Classification.none = 0
class_rank Classification.persoonsgegevens = 1
class_rank Classification.bijzonder = 2
class_rank Classification.bsn = 3

unfoldable pub bbn_rank : BbnLevel → ℕ
bbn_rank BbnLevel.unset = 0
bbn_rank BbnLevel.bbn1 = 1
bbn_rank BbnLevel.bbn2 = 2
bbn_rank BbnLevel.bbn3 = 3

unfoldable pub conf_rank : Confidentiality → ℕ
conf_rank Confidentiality.unset = 0
conf_rank Confidentiality.intern = 1
conf_rank Confidentiality.vertrouwelijk = 2
conf_rank Confidentiality.geheim = 3

-- `_max`, and the step of the ratchet.
module _ {A : Type 0} (rank : A → ℕ) where
  unfoldable pub max_of : A → List A → A
  max_of lowest [] = lowest
  max_of lowest (x ∷ xs) = max_from rank x xs

  unfoldable pub raise_to : A → A → A
  raise_to floor value = if ltb (rank value) (rank floor) then floor else value

unfoldable pub classification_floor : List Dataset → Classification × BbnLevel × Confidentiality
unfolding max_of
classification_floor inputs = (
  max_of class_rank Classification.none (map (λ (d : Dataset). d.classification) inputs),
  max_of bbn_rank BbnLevel.unset (map (λ (d : Dataset). d.bbn_level) inputs),
  max_of conf_rank Confidentiality.unset (map (λ (d : Dataset). d.confidentiality) inputs),
)

unfoldable pub apply_classification_floor : Dataset → List Dataset → Dataset
unfolding raise_to classification_floor
apply_classification_floor output inputs =
    let (classification, bbn, conf) = classification_floor inputs in
    record output {
      classification = raise_to class_rank classification output.classification;
      bbn_level = raise_to bbn_rank bbn output.bbn_level;
      confidentiality = raise_to conf_rank conf output.confidentiality;
    }

-- `common &= set(dataset.purpose_codes)` for the further inputs.
pub common_codes : List String → List Dataset → List String
common_codes common [] = common
common_codes common (d ∷ ds) = common_codes (keep (λ code. contains code d.purpose_codes) common) ds

unfoldable pub purpose_intersection : List Dataset → List String
unfolding common_codes
purpose_intersection [] = []
purpose_intersection (d ∷ ds) =
    keep (λ code. contains code (common_codes d.purpose_codes ds)) d.purpose_codes

-- `seen`, from the first input on.
pub bases_seen : List String → List Dataset → List String
bases_seen seen [] = seen
bases_seen seen (d ∷ ds) =
    let skipped = bases_seen seen ds in
    let taken = bases_seen (seen ++ d.legal_basis ∷ []) ds in
    if not (d.legal_basis =s "") && not (contains d.legal_basis seen) then taken else skipped

joined : String → List String → String
joined basis [] = basis
joined basis (b ∷ bs) = basis +s (" · " +s joined b bs)

join_bases : List String → String
unfolding joined
join_bases [] = "Derived (see inputs)"
join_bases (b ∷ bs) = joined b bs

unfoldable pub legal_basis_union : List Dataset → String
unfolding bases_seen join_bases
legal_basis_union inputs = join_bases (bases_seen [] inputs)
