-- ===== src/Guardrails/Policy/Tests.antt =====
-- A policy document that pins a schema and asks for the model pass.
use osaip.Base.{List, ◌≡◌, refl, none, some, [], ◌∷◌, true, false}
use osaip.Guardrails.Types.{Text, Detection, codes}
use osaip.Guardrails.Bsn.{is_valid_bsn}
use osaip.Guardrails.Detect.{detect_all}
use osaip.Guardrails.Redact.{redact}
use osaip.Guardrails.Json.{get, Fields, obj, str, bool, field, end}
use osaip.Guardrails.Policy.{
  dict_or_empty, fields_or_empty, PolicyConfig, merge_policy, run_pre, run_pre_async,
}
use osaip.Guardrails.Policy.Merge.{merge_policy_pinned}
use osaip.Guardrails.Policy.Baseline.{run_pre_async-Twins}
use osaip.Guardrails.Samples.{spans, with_bsn, with_other_bsn, twins}

abbrev object_schema : Fields
object_schema = field "type" (str "object") end

abbrev document : Fields
document =
    field "pre" (obj (field "presidio" (bool true) (field "redact_pii" (bool false) end)))
      (field "post" (obj (field "schema" (obj object_schema) end)) end)

abbrev analyze : Text → List Detection
analyze text = record { kind = "PERSON"; start = 0; end = 3; detector = "presidio" } ∷ []

abbrev policy : PolicyConfig
policy = merge_policy (some document) none

redacted_twice : (run_pre_async spans analyze with_bsn policy).text ≡ codes "<PERSON> <BSN>.."
unfolding run_pre_async run_pre merge_policy redact is_valid_bsn detect_all
redacted_twice = refl

passes : (run_pre_async spans analyze with_bsn policy).blocked ≡ false
unfolding run_pre_async run_pre merge_policy redact is_valid_bsn detect_all
passes = refl

run_pre_async-Twins_example :
    run_pre_async spans analyze with_bsn policy ≡ run_pre_async spans analyze with_other_bsn policy
run_pre_async-Twins_example =
    run_pre_async-Twins spans analyze policy with_bsn with_other_bsn twins passes

merge_policy_pinned_example :
    ((merge_policy (some document) none).output_schema ≡ some (obj object_schema))
    × (merge_policy (some document) none ≡ merge_policy (some document) (some (obj end)))
unfolding get dict_or_empty fields_or_empty
merge_policy_pinned_example =
    merge_policy_pinned (some document) object_schema none (some (obj end)) refl
