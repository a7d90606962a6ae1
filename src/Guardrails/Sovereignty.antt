-- ===== src/Guardrails/Sovereignty.antt =====
-- packages/guardrails/osaip_guardrails/sovereignty.py.
pub mod Gate
mod Tests
use osaip.Base.{
  String, Bool, true, false, Option, none, some, List, [], ◌∷◌, contains, ◌=s◌, if◌then◌else◌,
}
use osaip.Guardrails.Types.{GuardrailEvent, allow, block, residency as residency_details}

-- `_ALLOWED`
pub allowed_for : String → Option (List String)
allowed_for classification =
    if classification =s "none"
    then some ("local" ∷ "eu" ∷ "external" ∷ [])
    else if classification =s "persoonsgegevens"
    then some ("local" ∷ "eu" ∷ [])
    else if classification =s "bijzonder"
    then some ("local" ∷ [])
    else if classification =s "bsn"
    then some ("local" ∷ [])
    else none

-- `value in _ALLOWED`
is_known : String → Bool
unfolding allowed_for
is_known classification = elim (allowed_for classification) [ none ↦ false | some _ ↦ true ]

unfoldable pub normalise_classification : Option String → String
unfolding is_known
normalise_classification none = "bijzonder"
normalise_classification (some value) = if is_known value then value else "bijzonder"

in_allowed : String → Option (List String) → Bool
in_allowed residency none = false
in_allowed residency (some residencies) = contains residency residencies

unfoldable pub is_allowed : Option String → String → Bool
unfolding normalise_classification in_allowed allowed_for
is_allowed classification residency =
    in_allowed residency (allowed_for (normalise_classification classification))

unfoldable pub check_residency : Option String → String → Option String → Bool × GuardrailEvent
unfolding normalise_classification is_allowed
check_residency classification residency connection_name =
    let declared = normalise_classification classification in
    let allowed = is_allowed (some declared) residency in
    (
      allowed,
      record {
        stage = "pre";
        rule = "cp11.residency";
        action = if allowed then allow else block;
        details = residency_details declared classification residency connection_name;
      },
    )
