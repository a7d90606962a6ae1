-- ===== src/Guardrails/Policy/Merge.antt =====
-- A request cannot change what a policy pins.
use osaip.Base.{◌≡◌, refl, Option, none, some}
use osaip.Guardrails.Json.{Json, Fields, obj, get}
use osaip.Guardrails.Policy.{
  dict_or_empty, dict_or_none, pinned_schema, fields_or_empty, merge_policy,
}

pinned_schema-obj :
    (policy : Option Json) (fields : Fields) (request : Option Json)
    → policy ≡ some (obj fields)
    → pinned_schema policy request ≡ some (obj fields)
unfolding pinned_schema
pinned_schema-obj policy fields request e = rw e

pinned_schema-other :
    (policy request : Option Json)
    → dict_or_none policy ≡ none
    → pinned_schema policy request ≡ dict_or_none request
unfolding pinned_schema
pinned_schema-other policy request e = rw (e, pinned_schema) refl

-- The schema under `post` of a policy document.
abbrev pub schema_of : Option Fields → Option Json
schema_of document = get "schema" (dict_or_empty (get "post" (fields_or_empty document)))

-- When the policy document pins a schema, a dictionary under `post`, the effective policy has that
-- schema, and is the same whatever shape the request asks for.
pub merge_policy_pinned :
    (document : Option Fields) (fields : Fields) (request request' : Option Json)
    → schema_of document ≡ some (obj fields)
    → ((merge_policy document request).output_schema ≡ some (obj fields))
      × (merge_policy document request ≡ merge_policy document request')
unfolding merge_policy
merge_policy_pinned document fields request request' e =
    let pinned = pinned_schema-obj (schema_of document) fields request e in
    let pinned' = pinned_schema-obj (schema_of document) fields request' e in
    (pinned, cc (pinned, pinned'))

-- When the policy document pins no schema, the effective policy is the one without a request, but
-- for the schema, which is the request's shape if that is a dictionary and else none.
pub merge_policy_unpinned :
    (document : Option Fields) (request : Option Json)
    → dict_or_none (schema_of document) ≡ none
    → merge_policy document request
      ≡ record (merge_policy document none) { output_schema = dict_or_none request }
unfolding merge_policy
merge_policy_unpinned document request e = cc (pinned_schema-other (schema_of document) request e)
