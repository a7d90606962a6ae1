-- ===== src/Guardrails/Policy.antt =====
-- packages/guardrails/osaip_guardrails/policy.py. The detections of the optional model pass, and
-- the problems that the validator of answers reports, are parameters.
pub mod Merge
pub mod Baseline
mod Tests
use osaip.Base.{
  ℕ, zero, suc, String, Bool, true, false, not, ◌&&◌, ◌||◌, Option, none, some, List, [], ◌∷◌, ◌++◌,
  length, take, ltb, ◌=s◌, if◌then◌else◌,
}
use osaip.Base.Int.{pos, negsuc}
use osaip.Guardrails.Types.{
  Text, Detection, GuardrailEvent, StageResult, allow, block, redact as redacted, pii_counts,
  input_length, schema_problems, schema_valid,
}
use osaip.Guardrails.Json.{
  Json, Fields, null, bool, int, float, str, arr, obj, end, field, get, truthy,
}
use osaip.Guardrails.Detect.{Patterns}
use osaip.Guardrails.Redact.{redact, apply_redactions, counts_by_kind}

pub record PolicyConfig : Type 0 where
  pub redact_pii : Bool
  pub use_presidio : Bool
  pub max_input_chars : Option ℕ
  pub judge_model : Option String
  pub output_schema : Option Json
  pub extra : Fields

abbrev pub baseline : PolicyConfig
baseline = record {
  redact_pii = true;
  use_presidio = false;
  max_input_chars = none;
  judge_model = none;
  output_schema = none;
  extra = end;
}

-- `stages.get(key, {}) if isinstance(stages.get(key), dict) else {}`
pub dict_or_empty : Option Json → Fields
dict_or_empty (some (obj fs)) = fs
dict_or_empty _ = end

-- `int(v) if isinstance(v, int) and v > 0 else None`; a `bool` is an `int` in Python.
positive_int : Option Json → Option ℕ
positive_int (some (bool true)) = some 1
positive_int (some (int (pos (suc n)))) = some (suc n)
positive_int _ = none

string_or_none : Option Json → Option String
string_or_none (some (str s)) = some s
string_or_none _ = none

unfoldable pub dict_or_none : Option Json → Option Json
dict_or_none (some (obj fs)) = some (obj fs)
dict_or_none _ = none

-- The schema of the policy, or else that of the request.
pinned_schema : Option Json → Option Json → Option Json
unfolding dict_or_none
pinned_schema policy request = elim (dict_or_none policy) [
  | some schema ↦ some schema
  | none ↦ dict_or_none request
]

-- `{k: v for k, v in stages.items() if k not in {"pre", "post"}}`
other_keys : Fields → Fields
other_keys end = end
other_keys (field k v fs) =
    let rest = other_keys fs in
    if k =s "pre" then rest else if k =s "post" then rest else field k v rest

pub fields_or_empty : Option Fields → Fields
fields_or_empty none = end
fields_or_empty (some fs) = fs

unfoldable pub merge_policy : Option Fields → Option Json → PolicyConfig
unfolding dict_or_empty positive_int string_or_none pinned_schema other_keys fields_or_empty get
    truthy
merge_policy document request_output_schema =
    let stages = fields_or_empty document in
    let pre = dict_or_empty (get "pre" stages) in
    let post = dict_or_empty (get "post" stages) in
    record {
      redact_pii = true;
      use_presidio = truthy (get "presidio" pre);
      max_input_chars = positive_int (get "max_input_chars" pre);
      judge_model = string_or_none (get "judge_model" post);
      output_schema = pinned_schema (get "schema" post) request_output_schema;
      extra = other_keys stages;
    }

-- `limit is not None and len(text) > limit`
abbrev pub too_long : Text → Option ℕ → Bool
too_long text none = false
too_long text (some limit) = ltb limit (length text)

limit_or_zero : Option ℕ → ℕ
limit_or_zero none = 0
limit_or_zero (some limit) = limit

-- The reason is a text for the user, shortened here to the rule.
length_block : Text → Option ℕ → StageResult
unfolding limit_or_zero
length_block text limit = record {
  text = text;
  events =
      record {
        stage = "pre";
        rule = "input.max_chars";
        action = block;
        details = input_length (length text) (limit_or_zero limit);
      }
      ∷ [];
  blocked = true;
  reason = some "input.max_chars";
}

unfoldable pub run_pre : Patterns → Text → PolicyConfig → StageResult
unfolding length_block
run_pre re text policy =
    if too_long text policy.max_input_chars
    then length_block text policy.max_input_chars
    else record {
      text = (redact re "pre" text).text;
      events = (redact re "pre" text).events;
      blocked = false;
      reason = none;
    }

schema_block : Text → List String → StageResult
schema_block text problems = record {
  text = text;
  events =
      record {
        stage = "post";
        rule = "output.schema";
        action = block;
        details = schema_problems (take 5 problems) (length problems);
      }
      ∷ [];
  blocked = true;
  reason = some "output.schema";
}

schema_passed : GuardrailEvent
schema_passed = record {
  stage = "post";
  rule = "output.schema";
  action = allow;
  details = schema_valid;
}

redact_answer : Patterns → Text → List GuardrailEvent → StageResult
redact_answer re text events = record {
  text = (redact re "post" text).text;
  events = events ++ (redact re "post" text).events;
  blocked = false;
  reason = none;
}

-- The problems that the validator names, or none where it raises, which nothing here catches.
unfoldable pub after_validation : Patterns → Text → Option (List String) → Option StageResult
unfolding schema_block schema_passed redact_answer
after_validation re text none = none
after_validation re text (some []) = some (redact_answer re text (schema_passed ∷ []))
after_validation re text (some (p ∷ ps)) = some (schema_block text (p ∷ ps))

unfoldable pub run_post :
    Patterns → (Text → Json → Option (List String)) → Text → PolicyConfig → Option StageResult
unfolding after_validation redact_answer
run_post re validate text policy = elim policy.output_schema [
  | none ↦ some (redact_answer re text [])
  | some schema ↦ after_validation re text (validate text schema)
]

presidio_event : List Detection → GuardrailEvent
unfolding counts_by_kind
presidio_event ds = record {
  stage = "pre";
  rule = "pii.presidio";
  action = redacted;
  details = pii_counts (counts_by_kind ds) (length ds);
}

presidio_pass : StageResult → List Detection → StageResult
unfolding presidio_event
presidio_pass result [] = result
presidio_pass result (d ∷ ds) = record {
  text = apply_redactions result.text (d ∷ ds);
  events = result.events ++ presidio_event (d ∷ ds) ∷ [];
  blocked = false;
  reason = none;
}

-- The model pass sees the text that is already redacted.
unfoldable pub run_pre_async :
    Patterns → (Text → List Detection) → Text → PolicyConfig → StageResult
unfolding run_pre presidio_pass
run_pre_async re analyze text policy =
    let result = run_pre re text policy in
    if result.blocked || not policy.use_presidio
    then result
    else presidio_pass result (analyze result.text)
